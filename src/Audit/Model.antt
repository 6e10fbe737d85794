-- ===== src/Audit/Model.antt =====
-- The rows of the audit database (prisma/schema.prisma), with the columns that the chain and the
-- event consumer use, and the platform that they call. Times are in milliseconds.
use team_nivaran.Common.{ℕ, String, ◌≡◌, Bool, Option, List}
use team_nivaran.Common.Tables.{Table}
use team_nivaran.Audit.Json.{Json}
use team_nivaran.Audit.Patterns.{Outcome}

pub record AuditRecord : Type 0 where
  pub id : String
  pub event_id : String
  pub organization_id : String
  pub occurred_at : ℕ
  pub ingested_at : ℕ
  pub source_service : String
  pub event_type : String
  pub schema_version : String
  pub actor_type : String
  pub actor_id : String
  pub correlation_id : String
  pub causation_id : Option String
  pub resource_type : String
  pub resource_id : String
  pub action : String
  pub outcome : Outcome
  pub classification : String
  pub metadata : Json
  pub previous_record_hash : Option String
  pub record_hash : String
  pub source_topic : String
  pub source_partition : ℕ
  pub source_offset : ℕ
  pub projection_version : ℕ
  pub late_arrival : Bool

pub record Checkpoint : Type 0 where
  pub topic : String
  pub partition : ℕ
  pub offset : ℕ
  pub last_event_id : Option String

pub record QuarantinedEvent : Type 0 where
  pub topic : String
  pub partition : ℕ
  pub offset : ℕ
  pub resolved_at : Option ℕ

pub record Db : Type 0 where
  pub records : List AuditRecord
  pub checkpoints : List Checkpoint
  pub quarantined : List QuarantinedEvent

pub record Client : Type 0 where
  pub record_table : Table AuditRecord
  pub checkpoint_table : Table Checkpoint
  pub quarantine_table : Table QuarantinedEvent
  -- `findMany({ where: { organizationId }, orderBy: [{ ingestedAt: "asc" }, { id: "asc" }] })`.
  pub find_ordered : String → List AuditRecord → List AuditRecord
  -- `findFirst` with the same `where` and both orders descending.
  pub find_last : String → List AuditRecord → Option AuditRecord

-- `EventEnvelope`, with an organization.
pub record Event : Type 0 where
  pub event_id : String
  pub event_type : String
  pub event_version : String
  pub occurred_at : ℕ
  pub correlation_id : String
  pub causation_id : Option String
  pub producer : String
  pub organization_id : String
  pub actor_type : String
  pub actor_id : String
  pub aggregate_type : String
  pub aggregate_id : String
  pub payload : Json

-- What the code calls of the platform.
pub record Platform : Type 0 where
  -- `left.localeCompare(right) < 0`.
  pub before : String → String → Bool
  -- `JSON.stringify`.
  pub stringify : Json → String
  -- `createHash("sha256").update(text).digest("hex")`.
  pub sha256 : String → String
  -- `toISOString` of a time.
  pub iso : ℕ → String
  -- A number's text.
  pub digits : ℕ → String

-- What the chain relies on: no two JSON values have one text, and no two texts one hash.
pub record IsInjective (platform : Platform) : Type 0 where
  pub stringify : (a b : Json) → platform.stringify a ≡ platform.stringify b → a ≡ b
  pub sha256 : (a b : String) → platform.sha256 a ≡ platform.sha256 b → a ≡ b
  pub digits : (m n : ℕ) → platform.digits m ≡ platform.digits n → m ≡ n
