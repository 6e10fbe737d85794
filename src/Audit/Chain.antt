-- ===== src/Audit/Chain.antt =====
-- The hash chain of audit records (`auditRecordHash` of audit-crypto.ts, `verifyChain` and
-- `appendControlRecord` of audit.service.ts, `append` of event.consumer.ts).
pub mod Tamper
pub mod Append
use team_nivaran.Common.{
  ℕ, zero, suc, ◌+◌, ◌*◌, min, max, String, Bool, true, false, not, ◌&&◌, ◌||◌, Option, none, some,
  List, [], ◌∷◌, ◌++◌, ◌==◌, ltb, eqb, is_none, if◌then◌else◌,
}
use team_nivaran.Common.Lists.{length}
use mathlib.Core.Option
use team_nivaran.Audit.Json.{Json, null, bool, num, str, obj, Fields, end, field, canonical_value}
use team_nivaran.Audit.Patterns.{
  Outcome, success, failure, denied, pending, informational, infer_outcome, infer_classification,
}
use team_nivaran.Audit.Sanitize.{sanitize_audit_metadata}
use team_nivaran.Audit.Model.{
  AuditRecord, Checkpoint, QuarantinedEvent, Db, Client, Event, Platform,
}

abbrev pub or_null : Option String → Json
or_null none = null
or_null (some text) = str text

abbrev pub outcome_text : Outcome → String
outcome_text success = "SUCCESS"
outcome_text failure = "FAILURE"
outcome_text denied = "DENIED"
outcome_text pending = "PENDING"
outcome_text informational = "INFORMATIONAL"

-- `row.previousRecordHash === previous`.
abbrev pub same_hash : Option String → Option String → Bool
same_hash none none = true
same_hash (some a) (some b) = a == b
same_hash _ _ = false

-- The result of a verification.
pub data Verdict : Type 0 where
  verified : (checked : ℕ) → (first_record last_record : Option String) → Verdict
  broken_at : (checked : ℕ) → (failure : String) → Verdict

abbrev last_id : List AuditRecord → Option String
last_id [] = none
last_id (r ∷ []) = some r.id
last_id (r ∷ s ∷ rows) = last_id (s ∷ rows)

abbrev first_id : List AuditRecord → Option String
first_id [] = none
first_id (r ∷ rows) = some r.id

abbrev pub take_rows : ℕ → List AuditRecord → List AuditRecord
take_rows zero rows = []
take_rows (suc n) [] = []
take_rows (suc n) (r ∷ rows) = r ∷ take_rows n rows

module _ (platform : Platform) where
  open platform use {before, stringify, sha256, iso, digits}

  -- What the hash of a record is made of.
  abbrev pub material : AuditRecord → Fields
  material r = field "id" (str r.id) (
      field "eventId" (str r.event_id) (
        field "organizationId" (str r.organization_id) (
          field "occurredAt" (str (iso r.occurred_at)) (
            field "sourceService" (str r.source_service) (
              field "eventType" (str r.event_type) (
                field "schemaVersion" (str r.schema_version) (
                  field "actorType" (str r.actor_type) (
                    field "actorId" (str r.actor_id) (
                      field "correlationId" (str r.correlation_id) (
                        field "causationId" (or_null r.causation_id) (
                          field "resourceType" (str r.resource_type) (
                            field "resourceId" (str r.resource_id) (
                              field "action" (str r.action) (
                                field "outcome" (str (outcome_text r.outcome)) (
                                  field "classification" (str r.classification) (
                                    field "metadata" r.metadata (
                                      field "previousRecordHash" (or_null r.previous_record_hash) (
                                        field "sourceTopic" (str r.source_topic) (
                                          field "sourcePartition" (num (digits r.source_partition))
                                            (field "sourceOffset" (str (digits r.source_offset)) (
                                              field "projectionVersion"
                                                (num (digits r.projection_version))
                                                (field "lateArrival" (bool r.late_arrival)
                                                  end))))))))))))))))))))))

  abbrev pub canonical_json : Json → String
  canonical_json value = stringify (canonical_value before value)

  unfoldable pub audit_record_hash : AuditRecord → String
  audit_record_hash r = sha256 (canonical_json (obj (material r)))

  -- The test of a row, after one with the hash `previous`, negated.
  abbrev pub is_linked : Option String → AuditRecord → Bool
  is_linked previous r =
      same_hash r.previous_record_hash previous && audit_record_hash r == r.record_hash

  -- The loop: the index and the id of the first row that fails.
  unfoldable pub find_broken : Option String → ℕ → List AuditRecord → Option (ℕ × String)
  find_broken previous i [] = none
  find_broken previous i (r ∷ rows) =
      let rest = find_broken (some r.record_hash) (i + 1) rows in
      if is_linked previous r then rest else some (i, r.id)

  unfoldable pub verify_rows : List AuditRecord → Verdict
  verify_rows rows = elim (find_broken none 0 rows) [
    | some (i, id) ↦ broken_at i id
    | none ↦ verified (length rows) (first_id rows) (last_id rows)
  ]

  -- A record after the last one of its organization, with the hash of its columns.
  abbrev pub linked : Option AuditRecord → AuditRecord → AuditRecord
  linked previous r =
      let chained : AuditRecord = record r {
        previous_record_hash = Option.map (λ (p : AuditRecord). p.record_hash) previous;
        late_arrival = elim previous [ none ↦ false | some p ↦ ltb r.occurred_at p.occurred_at ];
      } in
      record chained { record_hash = audit_record_hash chained }

  -- The columns of a control record before it is linked; `id`, `event_id`, `random` and the
  -- default correlation id are fresh values.
  abbrev pub control_record :
      (organization_id user_id event_type resource_type resource_id : String)
      → (outcome : Outcome) → (metadata : Json) → (correlation_id id event_id : String)
      → (random now : ℕ) → AuditRecord
  control_record organization user event_type resource_type resource_id outcome metadata correlation
        id event_id random now =
      record {
        id = id;
        event_id = event_id;
        organization_id = organization;
        occurred_at = now;
        ingested_at = now;
        source_service = "audit-query-service";
        event_type = event_type;
        schema_version = "1.0";
        actor_type = "USER";
        actor_id = user;
        correlation_id = correlation;
        causation_id = none;
        resource_type = resource_type;
        resource_id = resource_id;
        action = event_type;
        outcome = outcome;
        classification = "CONFIDENTIAL";
        metadata = metadata;
        previous_record_hash = none;
        record_hash = "";
        source_topic = "cdep.audit.events.v1";
        source_partition = 0;
        source_offset = now * 1000000 + random;
        projection_version = 1;
        late_arrival = false;
      }

  -- The columns of a consumed event before they are linked.
  abbrev pub event_record :
      Event → (topic : String) → (partition offset : ℕ) → (id : String) → (now : ℕ) → AuditRecord
  event_record e topic partition offset id now = record {
    id = id;
    event_id = e.event_id;
    organization_id = e.organization_id;
    occurred_at = e.occurred_at;
    ingested_at = now;
    source_service = e.producer;
    event_type = e.event_type;
    schema_version = e.event_version;
    actor_type = e.actor_type;
    actor_id = e.actor_id;
    correlation_id = e.correlation_id;
    causation_id = e.causation_id;
    resource_type = e.aggregate_type;
    resource_id = e.aggregate_id;
    action = e.event_type;
    outcome = infer_outcome e.event_type;
    classification = infer_classification e.event_type;
    metadata = sanitize_audit_metadata e.payload;
    previous_record_hash = none;
    record_hash = "";
    source_topic = topic;
    source_partition = partition;
    source_offset = offset;
    projection_version = 1;
    late_arrival = false;
  }

  module _ (prisma : Client) where
    open prisma use {record_table, checkpoint_table, quarantine_table, find_ordered, find_last}

    unfoldable pub verify_chain : (organization_id : String) → (limit : ℕ) → Db → Verdict
    verify_chain organization limit db =
        verify_rows (take_rows (min (max limit 1) 5000) (find_ordered organization db.records))

    -- `appendControlRecord`, without the unique constraints on fresh values.
    unfoldable pub append_control_record : AuditRecord → Db → Db
    append_control_record r db = record db {
      records = db.records ++ linked (find_last r.organization_id db.records) r ∷ [];
    }

    -- `consumerCheckpoint.upsert`.
    abbrev keep_checkpoint : Event → String → ℕ → ℕ → List Checkpoint → List Checkpoint
    keep_checkpoint e topic partition offset rows =
        checkpoint_table.upsert (λ c. c.topic == topic && eqb c.partition partition)
          (λ c. record c { offset = offset; last_event_id = some e.event_id })
          (record {
            topic = topic;
            partition = partition;
            offset = offset;
            last_event_id = some e.event_id;
          })
          rows

    -- `append` of the consumer.
    unfoldable pub append :
        Event → (topic : String) → (partition offset : ℕ) → (id : String) → (now : ℕ) → Db → Db
    append e topic partition offset id now db =
        let checkpoints = keep_checkpoint e topic partition offset db.checkpoints in
        elim (record_table.find_first (λ r. r.event_id == e.event_id) db.records) [
          | some existing ↦ record db { checkpoints = checkpoints }
          | none ↦ record db {
            records =
                db.records
                ++ linked (find_last e.organization_id db.records)
                    (event_record e topic partition offset id now)
                  ∷ [];
            checkpoints = checkpoints;
            quarantined =
                (quarantine_table.update_many
                  (λ q.
                    q.topic == topic
                    && eqb q.partition partition
                    && eqb q.offset offset
                    && is_none q.resolved_at)
                  (λ q. record q { resolved_at = some now }) db.quarantined).1;
          }
        ]
