-- ===== src/Workflow/Rules.antt =====
-- rules.ts: the deterministic validation rules of a published Workflow definition.
-- Amounts and numeric bounds are natural numbers; negative or fractional bounds are left out.
pub mod Meaning
use Prim.Native.Char.{Char, code}
use team_nivaran.Common.{
  ℕ, ◌-◌, ◌*◌, String, Bool, true, false, not, ◌&&◌, ◌||◌, Option, none, some, List, [], ◌∷◌, map,
  ◌==◌, ltb, leb, eqb, if◌then◌else◌,
}
use team_nivaran.Common.Lists.{length, all, any, select}

-- `EvidenceSnapshotItem`; `available_at` is in milliseconds.
pub record EvidenceItem : Type 0 where
  pub evidence_asset_id : String
  pub evidence_version_id : String
  pub sha256 : String
  pub classification_code : String
  pub evidence_status : String
  pub processing_status : String
  pub malware_status : String
  pub authoritative : Bool
  pub available_at : ℕ
  pub created_by_id : String

-- The type `CaseSnapshot` of dependency-clients.ts.
pub record CaseSnapshot : Type 0 where
  pub id : String
  pub case_number : String
  pub title : String
  pub case_type : String
  pub status : String
  pub priority : String
  pub requested_amount_minor : Option ℕ
  pub currency : Option String

pub data CaseField : Type 0 where
  title case_type requested_amount_minor currency priority status : CaseField

-- What `caseSnapshot[field]` holds, and the literals of a rule.
pub data Scalar : Type 0 where
  null : Scalar
  text : String → Scalar
  number : ℕ → Scalar
  boolean : Bool → Scalar

pub data Check : Type 0 where
  required_evidence_present : (classification_code : String) → Check
  minimum_evidence_count : (classification_code : String) (minimum : ℕ) → Check
  evidence_status_in_set : Check
  evidence_not_expired : (classification_code : String) (maximum_age_days : ℕ) → Check
  case_field_present : CaseField → Check
  case_field_equals : CaseField → Scalar → Check
  case_field_in_set : CaseField → List Scalar → Check
  case_numeric_min : (value : ℕ) → Check
  case_numeric_max : (value : ℕ) → Check

pub record Rule : Type 0 where
  pub id : String
  pub check : Check

pub data References : Type 0 where
  nothing : References
  evidence_version_ids : List String → References
  case_field : CaseField → References

pub record EvaluatedRule : Type 0 where
  pub rule_definition_id : String
  pub rule_type : String
  pub pass : Bool
  pub message_code : String
  pub classification : Option String
  pub input_references : References

abbrev pub day_ms : ℕ
day_ms = 86400000

-- The characters that `String.prototype.trim` removes.
abbrev is_space : ℕ → Bool
is_space c =
    (leb 9 c && leb c 13)
    || eqb c 32
    || eqb c 160
    || eqb c 0x1680
    || (leb 0x2000 c && leb c 0x200a)
    || eqb c 0x2028
    || eqb c 0x2029
    || eqb c 0x202f
    || eqb c 0x205f
    || eqb c 0x3000
    || eqb c 0xfeff

-- `value.trim().length > 0`.
pub has_text : String → Bool
has_text String.[] = false
has_text (String.◌∷◌ c s) = not (is_space (code c)) || has_text s

abbrev or_null : Option String → Scalar
or_null none = null
or_null (some s) = text s

abbrev amount : Option ℕ → Scalar
amount none = null
amount (some n) = number n

abbrev pub field_value : CaseSnapshot → CaseField → Scalar
field_value c title = text c.title
field_value c case_type = text c.case_type
field_value c requested_amount_minor = amount c.requested_amount_minor
field_value c currency = or_null c.currency
field_value c priority = text c.priority
field_value c status = text c.status

-- `===` on scalars.
abbrev pub same : Scalar → Scalar → Bool
same null null = true
same (text s) (text t) = s == t
same (number n) (number m) = eqb n m
same (boolean true) (boolean b) = b
same (boolean false) (boolean b) = not b
same _ _ = false

abbrev pub is_present : Scalar → Bool
is_present null = false
is_present (text s) = has_text s
is_present _ = true

-- `Number(value)` of an amount: `Number(null)` is 0.
abbrev pub to_number : Option ℕ → ℕ
to_number none = 0
to_number (some n) = n

abbrev pub is_required : String → EvidenceItem → Bool
is_required c item =
    item.classification_code == c
    && item.processing_status == "AVAILABLE"
    && item.malware_status == "CLEAN"
    && item.authoritative

abbrev pub is_counted : String → EvidenceItem → Bool
is_counted c item =
    item.classification_code == c && item.processing_status == "AVAILABLE" && item.authoritative

abbrev pub is_classified : String → EvidenceItem → Bool
is_classified c item = item.classification_code == c

abbrev pub is_young : ℕ → ℕ → EvidenceItem → Bool
is_young now days item = leb (now - item.available_at) (days * day_ms)

module _ (snapshot : CaseSnapshot) (evidence : List EvidenceItem) (now : ℕ) where
  -- The variable `pass` of `evaluateRules`.
  unfoldable pub passes : Check → Bool
  passes (required_evidence_present c) = ltb 0 (length (select (is_required c) evidence))
  passes (minimum_evidence_count c n) = leb n (length (select (is_counted c) evidence))
  passes evidence_status_in_set = all (λ item. item.processing_status == "AVAILABLE") evidence
  passes (evidence_not_expired c days) =
      let matches = select (is_classified c) evidence in
      ltb 0 (length matches) && all (is_young now days) matches
  passes (case_field_present f) = is_present (field_value snapshot f)
  passes (case_field_equals f v) = same (field_value snapshot f) v
  passes (case_field_in_set f vs) = any (same (field_value snapshot f)) vs
  passes (case_numeric_min v) = leb v (to_number snapshot.requested_amount_minor)
  passes (case_numeric_max v) = leb (to_number snapshot.requested_amount_minor) v

  references : Check → References
  references (required_evidence_present c) =
      evidence_version_ids
        (map (λ item. item.evidence_version_id) (select (is_required c) evidence))
  references (minimum_evidence_count c n) =
      evidence_version_ids (map (λ item. item.evidence_version_id) (select (is_counted c) evidence))
  references evidence_status_in_set = nothing
  references (evidence_not_expired c days) = nothing
  references (case_field_present f) = case_field f
  references (case_field_equals f v) = case_field f
  references (case_field_in_set f vs) = case_field f
  references (case_numeric_min v) = case_field requested_amount_minor
  references (case_numeric_max v) = case_field requested_amount_minor

  rule_type : Check → String
  rule_type (required_evidence_present c) = "REQUIRED_EVIDENCE_PRESENT"
  rule_type (minimum_evidence_count c n) = "MINIMUM_EVIDENCE_COUNT"
  rule_type evidence_status_in_set = "EVIDENCE_STATUS_IN_SET"
  rule_type (evidence_not_expired c days) = "EVIDENCE_NOT_EXPIRED"
  rule_type (case_field_present f) = "CASE_FIELD_PRESENT"
  rule_type (case_field_equals f v) = "CASE_FIELD_EQUALS"
  rule_type (case_field_in_set f vs) = "CASE_FIELD_IN_SET"
  rule_type (case_numeric_min v) = "CASE_NUMERIC_MIN"
  rule_type (case_numeric_max v) = "CASE_NUMERIC_MAX"

  -- `"classificationCode" in rule`.
  classification_of : Check → Option String
  classification_of (required_evidence_present c) = some c
  classification_of (minimum_evidence_count c n) = some c
  classification_of (evidence_not_expired c days) = some c
  classification_of _ = none

  evaluate_rule : Rule → EvaluatedRule
  unfolding passes references rule_type classification_of
  evaluate_rule rule = record {
    rule_definition_id = rule.id;
    rule_type = rule_type rule.check;
    pass = passes rule.check;
    message_code = if passes rule.check then "RULE_PASSED" else "RULE_FAILED";
    classification = classification_of rule.check;
    input_references = references rule.check;
  }

  unfoldable pub evaluate_rules : List Rule → List EvaluatedRule
  unfolding evaluate_rule
  evaluate_rules rules = map evaluate_rule rules
