-- ===== src/Case/Model.antt =====
-- The rows of the Case database (prisma/schema.prisma), with the columns that the commands of
-- case.service.ts and evidence-projection.consumer.ts read or write. Times are in milliseconds.
use team_nivaran.Common.{ℕ, String, Bool, Option, List, [], ◌∷◌, ◌++◌, ◌&&◌, ◌==◌}
use team_nivaran.Common.Results.{Result, not_found, or_throw}
use team_nivaran.Common.Tables.{Table}

pub data CaseStatus : Type 0 where
  draft open_case evidence_collection under_review decision_pending decided closed : CaseStatus
  cancelled : CaseStatus

pub data CasePriority : Type 0 where
  low normal high urgent : CasePriority

pub record DecisionCase : Type 0 where
  pub id : String
  pub organization_id : String
  pub case_number : String
  pub external_reference : Option String
  pub case_type : String
  pub title : String
  pub status : CaseStatus
  pub priority : CasePriority
  pub requested_amount_minor : Option ℕ
  pub currency : Option String
  pub opened_at : Option ℕ
  pub decision_due_at : Option ℕ
  pub closed_at : Option ℕ
  pub version : ℕ
  pub created_by : String
  pub updated_by : String

pub record ExternalReference : Type 0 where
  pub id : String
  pub organization_id : String
  pub case_id : String
  pub source_system_id : String
  pub reference_type : String
  pub reference_value : String
  pub is_primary : Bool
  pub created_by : String

pub record CaseParty : Type 0 where
  pub id : String
  pub case_id : String
  pub party_type : String
  pub display_name : String
  pub external_reference : Option String
  pub created_by : String

pub record CaseAssignment : Type 0 where
  pub id : String
  pub case_id : String
  pub user_id : String
  pub role : String
  pub created_by : String

pub record StatusRow : Type 0 where
  pub case_id : String
  pub from_status : Option CaseStatus
  pub to_status : CaseStatus
  pub reason : Option String
  pub changed_by : String
  pub version : ℕ

pub record OutboxRow : Type 0 where
  pub aggregate_id : String
  pub aggregate_version : ℕ
  pub event_type : String
  pub correlation_id : String
  pub organization_id : String
  pub actor_id : String

pub record InboxRow : Type 0 where
  pub event_id : String
  pub event_type : String

pub record EvidenceProjection : Type 0 where
  pub organization_id : String
  pub case_id : String
  pub evidence_asset_id : String
  pub current_version_id : Option String
  pub evidence_number : String
  pub classification_code : String
  pub evidence_status : String
  pub source_type : String
  pub occurred_at : ℕ

pub record TimelineRow : Type 0 where
  pub event_id : String
  pub organization_id : String
  pub case_id : String
  pub evidence_asset_id : String
  pub event_type : String
  pub evidence_status : String
  pub occurred_at : ℕ

pub record IdempotencyRow : Type 0 where
  pub organization_id : String
  pub idempotency_key : String
  pub request_hash : String
  pub response_body : DecisionCase

pub record Db : Type 0 where
  pub cases : List DecisionCase
  pub references : List ExternalReference
  pub parties : List CaseParty
  pub assignments : List CaseAssignment
  pub history : List StatusRow
  pub outbox : List OutboxRow
  pub inbox : List InboxRow
  pub projections : List EvidenceProjection
  pub timeline : List TimelineRow
  pub idempotency : List IdempotencyRow

pub record Client : Type 0 where
  pub case_table : Table DecisionCase
  pub reference_table : Table ExternalReference
  pub party_table : Table CaseParty
  pub assignment_table : Table CaseAssignment
  pub inbox_table : Table InboxRow
  pub projection_table : Table EvidenceProjection
  pub idempotency_table : Table IdempotencyRow

-- The request around a command: the caller, the correlation id, and the clock.
pub record Call : Type 0 where
  pub user_id : String
  pub organization_id : String
  pub correlation_id : String
  pub now : ℕ

-- `where: { id, organizationId }`.
abbrev pub is_case : String → String → DecisionCase → Bool
is_case id organization_id c = c.id == id && c.organization_id == organization_id

-- `event`.
abbrev pub event : DecisionCase → Call → String → Db → Db
event item call event_type db = record db {
  outbox =
      db.outbox
      ++ record {
        aggregate_id = item.id;
        aggregate_version = item.version;
        event_type = event_type;
        correlation_id = call.correlation_id;
        organization_id = call.organization_id;
        actor_id = call.user_id;
      }
        ∷ [];
}

-- The read of a case of the caller's organization, which throws where there is none.
abbrev pub case_of : Client → String → String → Db → Result DecisionCase
case_of prisma id organization_id db =
    or_throw (prisma.case_table.find_first (is_case id organization_id) db.cases)
      (not_found "Case not found.")
