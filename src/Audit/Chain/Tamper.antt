-- ===== src/Audit/Chain/Tamper.antt =====
-- That a verified chain cannot be changed without a change of its last hash.
use team_nivaran.Common.{
  ℕ, ◌+◌, String, ◌≡◌, ◌∙◌, refl, sym, ap, inl, inr, Bool, true, Option, none, some, List, [], ◌∷◌,
  arith, ◌==◌, eq_iff, Bool-cases, Option-cases, if◌then◌else◌,
}
use team_nivaran.Common.Lists.{length}
use mathlib.Core.Option
use team_nivaran.Audit.Json.{
  Json, bool, num, str, obj, lookup, fields_of, canonical_value, lookup-canonical_value,
}
use team_nivaran.Audit.Patterns.{Outcome, success, failure, denied, pending, informational}
use team_nivaran.Audit.Model.{AuditRecord, Platform, IsInjective}
use team_nivaran.Audit.Chain.{
  or_null, outcome_text, same_hash, verified, material, canonical_json, audit_record_hash,
  is_linked, find_broken, verify_rows,
}

str_injective : (a b : String) → some (str a) ≡ some (str b) → a ≡ b
str_injective a b h = cc

num_injective : (a b : String) → some (num a) ≡ some (num b) → a ≡ b
num_injective a b h = cc

bool_injective : (a b : Bool) → some (bool a) ≡ some (bool b) → a ≡ b
bool_injective a b h = cc

or_null_injective : (a b : Option String) → or_null a ≡ or_null b → a ≡ b
or_null_injective none none h = refl
or_null_injective none (some b) h = cc
or_null_injective (some a) none h = cc
or_null_injective (some a) (some b) h = cc

some_injective : (a b : Json) → some a ≡ some b → a ≡ b
some_injective a b h = cc

outcome_of : String → Outcome
outcome_of text =
    if text == "SUCCESS"
    then success
    else if text == "FAILURE"
    then failure
    else if text == "DENIED"
    then denied
    else if text == "PENDING"
    then pending
    else informational

outcome_of-outcome_text : (a : Outcome) → outcome_of (outcome_text a) ≡ a
unfolding outcome_of
outcome_of-outcome_text success = refl
outcome_of-outcome_text failure = refl
outcome_of-outcome_text denied = refl
outcome_of-outcome_text pending = refl
outcome_of-outcome_text informational = refl

outcome_text_injective : (a b : Outcome) → outcome_text a ≡ outcome_text b → a ≡ b
outcome_text_injective a b h =
    sym (outcome_of-outcome_text a) ∙ ap outcome_of h ∙ outcome_of-outcome_text b

same_hash_path : (a b : Option String) → same_hash a b ≡ true → a ≡ b
same_hash_path none none h = refl
same_hash_path none (some b) h = cc
same_hash_path (some a) none h = cc
same_hash_path (some a) (some b) h = ap some ((eq_iff a b).0 h)

module _ (platform : Platform) where
  canonical_or_null : (o : Option String) → canonical_value platform.before (or_null o) ≡ or_null o
  unfolding canonical_value
  canonical_or_null none = refl
  canonical_or_null (some text) = refl

  -- Two rows that agree in every column that the hash covers, and in the hash: the time as its ISO
  -- text, and the metadata up to the order of the keys.
  pub record IsSame (r s : AuditRecord) : Type 0 where
    pub id : r.id ≡ s.id
    pub event_id : r.event_id ≡ s.event_id
    pub organization_id : r.organization_id ≡ s.organization_id
    pub occurred_at : platform.iso r.occurred_at ≡ platform.iso s.occurred_at
    pub source_service : r.source_service ≡ s.source_service
    pub event_type : r.event_type ≡ s.event_type
    pub schema_version : r.schema_version ≡ s.schema_version
    pub actor_type : r.actor_type ≡ s.actor_type
    pub actor_id : r.actor_id ≡ s.actor_id
    pub correlation_id : r.correlation_id ≡ s.correlation_id
    pub causation_id : r.causation_id ≡ s.causation_id
    pub resource_type : r.resource_type ≡ s.resource_type
    pub resource_id : r.resource_id ≡ s.resource_id
    pub action : r.action ≡ s.action
    pub outcome : r.outcome ≡ s.outcome
    pub classification : r.classification ≡ s.classification
    pub metadata :
        canonical_value platform.before r.metadata ≡ canonical_value platform.before s.metadata
    pub previous : r.previous_record_hash ≡ s.previous_record_hash
    pub source_topic : r.source_topic ≡ s.source_topic
    pub source_partition : r.source_partition ≡ s.source_partition
    pub source_offset : r.source_offset ≡ s.source_offset
    pub projection_version : r.projection_version ≡ s.projection_version
    pub late_arrival : r.late_arrival ≡ s.late_arrival
    pub record_hash : r.record_hash ≡ s.record_hash

  module _ (injective : IsInjective platform) where
    hash_fields :
        (r s : AuditRecord)
        → audit_record_hash platform r ≡ audit_record_hash platform s
        → (key : String)
        → Option.map (canonical_value platform.before) (lookup key (material platform r))
          ≡ Option.map (canonical_value platform.before) (lookup key (material platform s))
    unfolding audit_record_hash
    hash_fields r s h key =
        let before = platform.before in
        let a = canonical_value before (obj (material platform r)) in
        let b = canonical_value before (obj (material platform s)) in
        let text =
          injective.sha256 (canonical_json platform (obj (material platform r)))
            (canonical_json platform (obj (material platform s))) h in
        let same : a ≡ b = injective.stringify a b text in
        sym (lookup-canonical_value before key (material platform r) refl)
        ∙ ap (λ (v : Json). lookup key (fields_of v)) same
        ∙ lookup-canonical_value before key (material platform s) refl

    hash-IsSame :
        (r s : AuditRecord)
        → audit_record_hash platform r ≡ audit_record_hash platform s
        → r.record_hash ≡ s.record_hash
        → IsSame r s
    unfolding canonical_value
    hash-IsSame r s h same =
        let at = hash_fields r s h in
        record {
          id = str_injective r.id s.id (at "id");
          event_id = str_injective r.event_id s.event_id (at "eventId");
          organization_id = str_injective r.organization_id s.organization_id (at "organizationId");
          occurred_at =
              str_injective (platform.iso r.occurred_at) (platform.iso s.occurred_at)
                (at "occurredAt");
          source_service = str_injective r.source_service s.source_service (at "sourceService");
          event_type = str_injective r.event_type s.event_type (at "eventType");
          schema_version = str_injective r.schema_version s.schema_version (at "schemaVersion");
          actor_type = str_injective r.actor_type s.actor_type (at "actorType");
          actor_id = str_injective r.actor_id s.actor_id (at "actorId");
          correlation_id = str_injective r.correlation_id s.correlation_id (at "correlationId");
          causation_id = text_or_null r.causation_id s.causation_id (at "causationId");
          resource_type = str_injective r.resource_type s.resource_type (at "resourceType");
          resource_id = str_injective r.resource_id s.resource_id (at "resourceId");
          action = str_injective r.action s.action (at "action");
          outcome =
              outcome_text_injective r.outcome s.outcome
                (str_injective (outcome_text r.outcome) (outcome_text s.outcome) (at "outcome"));
          classification = str_injective r.classification s.classification (at "classification");
          metadata =
              some_injective (canonical_value platform.before r.metadata)
                (canonical_value platform.before s.metadata) (at "metadata");
          previous =
              text_or_null r.previous_record_hash s.previous_record_hash (at "previousRecordHash");
          source_topic = str_injective r.source_topic s.source_topic (at "sourceTopic");
          source_partition = injective.digits r.source_partition s.source_partition (
              num_injective (platform.digits r.source_partition)
                (platform.digits s.source_partition) (at "sourcePartition"));
          source_offset = injective.digits r.source_offset s.source_offset (
              str_injective (platform.digits r.source_offset) (platform.digits s.source_offset)
                (at "sourceOffset"));
          projection_version = injective.digits r.projection_version s.projection_version (
              num_injective (platform.digits r.projection_version)
                (platform.digits s.projection_version) (at "projectionVersion"));
          late_arrival = bool_injective r.late_arrival s.late_arrival (at "lateArrival");
          record_hash = same;
        }
      where
        text_or_null :
            (a b : Option String)
            → some (canonical_value platform.before (or_null a))
              ≡ some (canonical_value platform.before (or_null b))
            → a ≡ b
        text_or_null a b e = or_null_injective a b (
            sym (canonical_or_null a)
            ∙ some_injective (canonical_value platform.before (or_null a))
                (canonical_value platform.before (or_null b)) e
            ∙ canonical_or_null b)

  -- The hash of the last row, after a row with the hash `previous`.
  abbrev pub last_hash : Option String → List AuditRecord → Option String
  last_hash previous [] = previous
  last_hash previous (r ∷ rows) = last_hash (some r.record_hash) rows

  -- Two chains of the same length, with the same rows.
  abbrev pub AllSame : List AuditRecord → List AuditRecord → Type 0
  AllSame [] [] = Unit
  AllSame (r ∷ rows) (s ∷ rows') = IsSame r s × AllSame rows rows'
  AllSame _ _ = ⊥

  find_broken_parts :
      (previous : Option String) (i : ℕ) (r : AuditRecord) (rows : List AuditRecord)
      → find_broken platform previous i (r ∷ rows) ≡ none
      → (r.previous_record_hash ≡ previous)
        × (audit_record_hash platform r ≡ r.record_hash)
        × (find_broken platform (some r.record_hash) (i + 1) rows ≡ none)
  unfolding find_broken
  find_broken_parts previous i r rows h = elim (Bool-cases (is_linked platform previous r)) [
    | inr broken ↦ absurd (ground arith)
    | inl met ↦ (
      same_hash_path r.previous_record_hash previous (ground arith),
      (eq_iff (audit_record_hash platform r) r.record_hash).0 (ground arith),
      ground arith,
    )
  ]

  chain_same :
      IsInjective platform
      → (previous previous' : Option String) (i i' : ℕ) (rows rows' : List AuditRecord)
      → find_broken platform previous i rows ≡ none
      → find_broken platform previous' i' rows' ≡ none
      → length rows ≡ length rows'
      → last_hash previous rows ≡ last_hash previous' rows'
      → (previous ≡ previous') × AllSame rows rows'
  chain_same injective previous previous' i i' [] [] v v' n h = (h, tt)
  chain_same injective previous previous' i i' [] (s ∷ rows') v v' n h = absurd (omega (arith, n))
  chain_same injective previous previous' i i' (r ∷ rows) [] v v' n h = absurd (omega (arith, n))
  chain_same injective previous previous' i i' (r ∷ rows) (s ∷ rows') v v' n h =
      let (before_r, hash_r, rest) = find_broken_parts previous i r rows v in
      let (before_s, hash_s, rest') = find_broken_parts previous' i' s rows' v' in
      let (same, all_same) =
        chain_same injective (some r.record_hash) (some s.record_hash) (i + 1) (i' + 1) rows rows'
          rest rest' (omega (arith, n)) h in
      let same_hash : r.record_hash ≡ s.record_hash = cc in
      let same_row = hash-IsSame injective r s (hash_r ∙ same_hash ∙ sym hash_s) same_hash in
      (sym before_r ∙ same_row.previous ∙ before_s, (same_row, all_same))

  verify_rows_parts :
      (rows : List AuditRecord) (n : ℕ) (f l : Option String)
      → verify_rows platform rows ≡ verified n f l
      → (find_broken platform none 0 rows ≡ none) × (length rows ≡ n)
  unfolding verify_rows
  verify_rows_parts rows n f l h = elim (Option-cases (find_broken platform none 0 rows)) [
    | inr ((i, id), broken) ↦ absurd (ground arith)
    | inl whole ↦ (whole, ground arith)
  ]

  -- Two chains that are both verified, with the same number of records and the same hash of the last
  -- one, agree record by record in every column that a hash covers, the time as its ISO text and the
  -- metadata in canonical form; where JSON texts, hashes and the digits of numbers do not collide.
  pub verify_rows-AllSame :
      IsInjective platform
      → (rows rows' : List AuditRecord) (n : ℕ) (f f' l l' : Option String)
      → verify_rows platform rows ≡ verified n f l
      → verify_rows platform rows' ≡ verified n f' l'
      → last_hash none rows ≡ last_hash none rows'
      → AllSame rows rows'
  verify_rows-AllSame injective rows rows' n f f' l l' v v' h =
      let (whole, count) = verify_rows_parts rows n f l v in
      let (whole', count') = verify_rows_parts rows' n f' l' v' in
      (chain_same injective none none 0 0 rows rows' whole whole' (count ∙ sym count') h).1
