-- ===== src/Case/Projection.antt =====
-- The projection of evidence events onto the cases (evidence-projection.consumer.ts). A message is
-- taken as parsed.
use team_nivaran.Common.{
  ℕ, String, Bool, ◌&&◌, not, Option, none, some, [], ◌∷◌, ◌++◌, ◌==◌, if◌then◌else◌, filled,
}
use team_nivaran.Common.Lists.{any}
use team_nivaran.Case.Model.{EvidenceProjection, Db, Client, is_case}
use team_nivaran.Case.Sync.{is_operation}

-- The event, with the texts of its payload.
pub record EvidenceEvent : Type 0 where
  pub event_id : String
  pub event_type : String
  pub organization_id : Option String
  pub aggregate_id : String
  pub occurred_at : ℕ
  pub case_id : Option String
  pub evidence_number : Option String
  pub classification_code : Option String
  pub evidence_status : Option String
  pub source_type : Option String
  pub evidence_version_id : Option String

-- The texts that the projection needs.
pub record Projected : Type 0 where
  pub organization_id : String
  pub case_id : String
  pub evidence_number : String
  pub classification_code : String
  pub evidence_status : String
  pub source_type : String

-- `projectionEvents`.
abbrev pub is_projected : String → Bool
is_projected type =
    any (λ t. t == type)
      ("evidence.asset.created" ∷ "evidence.asset.linked" ∷ "evidence.version.available"
        ∷ "evidence.version.rejected" ∷ "evidence.version.failed" ∷ [])

-- The next text, where there is one.
infixr 1 ◌>>>◌
abbrev ◌>>>◌ : {A : Type 0} {B : Type 0} → Option A → (A → Option B) → Option B
none >>> f = none
some a >>> f = f a

abbrev pub projected : EvidenceEvent → Option Projected
projected e = if not (is_projected e.event_type) then none else filled e.organization_id >>> λ org.
    filled e.case_id >>> λ case. filled e.evidence_number >>> λ number.
    filled e.classification_code >>> λ class. filled e.evidence_status >>> λ status.
    filled e.source_type >>> λ source. some (record {
      organization_id = org;
      case_id = case;
      evidence_number = number;
      classification_code = class;
      evidence_status = status;
      source_type = source;
    })

abbrev version_or : Option String → Option String → Option String
version_or none old = old
version_or (some id) old = some id

abbrev pub project_row : EvidenceEvent → Projected → EvidenceProjection → EvidenceProjection
project_row e p r = record r {
  case_id = p.case_id;
  current_version_id = version_or e.evidence_version_id r.current_version_id;
  evidence_number = p.evidence_number;
  classification_code = p.classification_code;
  evidence_status = p.evidence_status;
  source_type = p.source_type;
  occurred_at = e.occurred_at;
}

module _ (prisma : Client) where
  open prisma use {case_table, inbox_table, projection_table}

  -- The transaction, for an event that the inbox does not have yet.
  unfoldable pub record_projection : EvidenceEvent → Projected → Db → Db
  record_projection e p db = record db {
    projections =
        projection_table.upsert
          (λ r. r.organization_id == p.organization_id && r.evidence_asset_id == e.aggregate_id)
          (project_row e p)
          (record {
            organization_id = p.organization_id;
            case_id = p.case_id;
            evidence_asset_id = e.aggregate_id;
            current_version_id = e.evidence_version_id;
            evidence_number = p.evidence_number;
            classification_code = p.classification_code;
            evidence_status = p.evidence_status;
            source_type = p.source_type;
            occurred_at = e.occurred_at;
          })
          db.projections;
    timeline =
        db.timeline
        ++ record {
          event_id = e.event_id;
          organization_id = p.organization_id;
          case_id = p.case_id;
          evidence_asset_id = e.aggregate_id;
          event_type = e.event_type;
          evidence_status = p.evidence_status;
          occurred_at = e.occurred_at;
        }
          ∷ [];
    inbox = db.inbox ++ record { event_id = e.event_id; event_type = e.event_type } ∷ [];
  }

  -- One message.
  unfoldable pub consume : EvidenceEvent → Db → Db
  consume e db = elim (projected e) [
    | none ↦ db
    | some p ↦ elim (case_table.find_first (is_case p.case_id p.organization_id) db.cases) [
      | none ↦ db
      | some found ↦ elim (inbox_table.find_first (is_operation prisma e.event_id) db.inbox) [
        | some duplicate ↦ db
        | none ↦ record_projection e p db
      ]
    ]
  ]
