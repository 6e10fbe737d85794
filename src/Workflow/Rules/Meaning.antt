-- ===== src/Workflow/Rules/Meaning.antt =====
-- What it means that a rule is met, stated without the evaluator's tests.
use team_nivaran.Common.{
  ℕ, ◌-◌, ◌*◌, ◌≤◌, ◌<◌, String, ◌≡◌, refl, ◌≢◌, ◌↔◌, ◌⊎◌, inl, inr, Bool, true, false, not, Option,
  none, some, List, [], ◌∷◌, Memᴰ, arith, ◌==◌, eq_iff, leb, Bool-cases,
}
use team_nivaran.Common.Lists.{All, length, all, any, select, count}
use team_nivaran.Common.Rows.{count-Memᴰ}
use team_nivaran.Workflow.Rules.{
  EvidenceItem, CaseSnapshot, Scalar, null, text, number, boolean, Check, required_evidence_present,
  minimum_evidence_count, evidence_status_in_set, evidence_not_expired, case_field_present,
  case_field_equals, case_field_in_set, case_numeric_min, case_numeric_max, Rule, EvaluatedRule,
  day_ms, has_text, field_value, same, is_present, is_required, is_counted, is_classified, is_young,
  to_number, passes, evaluate_rules,
}

-- An item of the class, scanned, available and authoritative.
abbrev pub Requires : String → EvidenceItem → Type 0
Requires c item =
    (item.classification_code ≡ c)
    × (item.processing_status ≡ "AVAILABLE")
    × (item.malware_status ≡ "CLEAN")
    × (item.authoritative ≡ true)

-- An amount that is missing counts as 0.
abbrev pub Amount : Option ℕ → (ℕ → Type 0) → Type 0
Amount a P = (n : ℕ) × P n × ((a ≡ some n) ⊎ ((a ≡ none) × (n ≡ 0)))

module _ (snapshot : CaseSnapshot) (evidence : List EvidenceItem) (now : ℕ) where
  abbrev pub Meets : Check → Type 0
  Meets (required_evidence_present c) = (item : EvidenceItem) × Memᴰ item evidence × Requires c item
  Meets (minimum_evidence_count c n) = n ≤ count (is_counted c) evidence
  Meets evidence_status_in_set = All (λ item. item.processing_status ≡ "AVAILABLE") evidence
  Meets (evidence_not_expired c days) =
      ((item : EvidenceItem) × Memᴰ item evidence × (item.classification_code ≡ c))
      × All (λ item. item.classification_code ≡ c → now - item.available_at ≤ days * day_ms)
          evidence
  Meets (case_field_present f) =
      (field_value snapshot f ≢ null)
      × ((s : String) → field_value snapshot f ≡ text s → has_text s ≡ true)
  Meets (case_field_equals f v) = field_value snapshot f ≡ v
  Meets (case_field_in_set f vs) = Memᴰ (field_value snapshot f) vs
  Meets (case_numeric_min v) = Amount snapshot.requested_amount_minor (λ n. v ≤ n)
  Meets (case_numeric_max v) = Amount snapshot.requested_amount_minor (λ n. n ≤ v)

length-select : {A : Type 0} (p : A → Bool) (xs : List A) → length (select p xs) ≡ count p xs
length-select p [] = refl
length-select p (x ∷ xs) = ground (arith, length-select p xs)

-- A selected row, where one is counted.
selected :
    {A : Type 0} (p : A → Bool) (xs : List A) → 0 < count p xs → (x : A) × Memᴰ x xs × (p x ≡ true)
selected p [] h = absurd (omega arith)
selected p (x ∷ xs) h = elim (Bool-cases (p x)) [
  | inl met ↦ (x, Memᴰ.head refl, met)
  | inr other ↦ let (y, m, e) = selected p xs (ground arith) in (y, Memᴰ.tail m, e)
]

same_iff : (a b : Scalar) → (same a b ≡ true) ↔ (a ≡ b)
same_iff null null = (λ h. refl, λ h. refl)
same_iff null (text s) = (λ h. cc, λ h. cc)
same_iff null (number s) = (λ h. cc, λ h. cc)
same_iff null (boolean s) = (λ h. cc, λ h. cc)
same_iff (text s) (text t) = (λ h. ground (arith, eq_iff s t), λ h. ground (arith, eq_iff s t))
same_iff (text s) null = (λ h. cc, λ h. cc)
same_iff (text s) (number t) = (λ h. cc, λ h. cc)
same_iff (text s) (boolean t) = (λ h. cc, λ h. cc)
same_iff (number s) null = (λ h. cc, λ h. cc)
same_iff (number s) (text t) = (λ h. cc, λ h. cc)
same_iff (number s) (number t) = (λ h. ground arith, λ h. ground arith)
same_iff (number s) (boolean t) = (λ h. cc, λ h. cc)
same_iff (boolean s) null = (λ h. ground arith, λ h. cc)
same_iff (boolean s) (text t) = (λ h. ground arith, λ h. cc)
same_iff (boolean s) (number t) = (λ h. ground arith, λ h. cc)
same_iff (boolean s) (boolean t) = (λ h. ground arith, λ h. ground arith)

any-same_to : (a : Scalar) (vs : List Scalar) → any (same a) vs ≡ true → Memᴰ a vs
any-same_to a [] h = cc
any-same_to a (v ∷ vs) h = elim (Bool-cases (same a v)) [
  | inl e ↦ Memᴰ.head ((same_iff a v).0 e)
  | inr e ↦ Memᴰ.tail (any-same_to a vs (ground arith))
]

any-same_from : (a : Scalar) (vs : List Scalar) → Memᴰ a vs → any (same a) vs ≡ true
any-same_from a [] m = elim m [ ]
any-same_from a (v ∷ vs) (Memᴰ.head e) = ground (arith, (same_iff a v).1 e)
any-same_from a (v ∷ vs) (Memᴰ.tail m) = ground (arith, any-same_from a vs m)

amount_min : (a : Option ℕ) (v : ℕ) → (leb v (to_number a) ≡ true) ↔ Amount a (λ n. v ≤ n)
amount_min none v = (λ h. (0, ground arith, inr (refl, refl)), λ (n, p, q). ground arith)
amount_min (some m) v = (λ h. (m, ground arith, inl refl), λ (n, p, q). ground arith)

amount_max : (a : Option ℕ) (v : ℕ) → (leb (to_number a) v ≡ true) ↔ Amount a (λ n. n ≤ v)
amount_max none v = (λ h. (0, ground arith, inr (refl, refl)), λ (n, p, q). ground arith)
amount_max (some m) v = (λ h. (m, ground arith, inl refl), λ (n, p, q). ground arith)

count_pos_of_mem :
    {A : Type 0} (p : A → Bool) (xs : List A) (x : A) → Memᴰ x xs → p x ≡ true → 0 < count p xs
count_pos_of_mem p xs x m h = let some_row = count-Memᴰ p xs x m h in omega arith

is_required_iff : (c : String) (item : EvidenceItem) → (is_required c item ≡ true) ↔ Requires c item
is_required_iff c item = (
  λ h. (
    ground (arith, eq_iff item.classification_code c),
    ground (arith, eq_iff item.processing_status "AVAILABLE"),
    ground (arith, eq_iff item.malware_status "CLEAN"),
    ground arith,
  ),
  λ r. ground (
    arith,
    eq_iff item.classification_code c,
    eq_iff item.processing_status "AVAILABLE",
    eq_iff item.malware_status "CLEAN",
  ),
)

all_available_iff :
    (xs : List EvidenceItem)
    → (all (λ item. item.processing_status == "AVAILABLE") xs ≡ true)
      ↔ All (λ item. item.processing_status ≡ "AVAILABLE") xs
all_available_iff [] = (λ h. tt, λ h. refl)
all_available_iff (x ∷ xs) =
    let (to, from) = all_available_iff xs in
    (
      λ h. (ground (arith, eq_iff x.processing_status "AVAILABLE"), to (ground arith)),
      λ (here, later). ground (arith, eq_iff x.processing_status "AVAILABLE", from later),
    )

all_young_to :
    (c : String) (now days : ℕ) (xs : List EvidenceItem)
    → all (is_young now days) (select (is_classified c) xs) ≡ true
    → All (λ item. item.classification_code ≡ c → now - item.available_at ≤ days * day_ms) xs
all_young_to c now days [] h = tt
all_young_to c now days (x ∷ xs) h = (
  λ same_class. ground (arith, eq_iff x.classification_code c),
  all_young_to c now days xs (ground arith),
)

all_young_from :
    (c : String) (now days : ℕ) (xs : List EvidenceItem)
    → All (λ item. item.classification_code ≡ c → now - item.available_at ≤ days * day_ms) xs
    → all (is_young now days) (select (is_classified c) xs) ≡ true
all_young_from c now days [] h = refl
all_young_from c now days (x ∷ xs) (here, later) =
    ground (arith, eq_iff x.classification_code c, all_young_from c now days xs later)

present_iff :
    (v : Scalar)
    → (is_present v ≡ true) ↔ ((v ≢ null) × ((s : String) → v ≡ text s → has_text s ≡ true))
present_iff null = (λ h. cc, λ h. absurd (h.0 refl))
present_iff (text t) = (λ h. (λ e. cc, λ s e. ground arith), λ h. h.1 t refl)
present_iff (number n) = (λ h. (λ e. cc, λ s e. cc), λ h. refl)
present_iff (boolean b) = (λ h. (λ e. cc, λ s e. cc), λ h. refl)

module _ (snapshot : CaseSnapshot) (evidence : List EvidenceItem) (now : ℕ) where
  -- A rule passes exactly when it is met.
  pub passes_iff :
      (check : Check)
      → (passes snapshot evidence now check ≡ true) ↔ Meets snapshot evidence now check
  unfolding passes
  passes_iff (required_evidence_present c) = (
    λ h.
        let (item, listed, met) =
          selected (is_required c) evidence
            (ground (arith, length-select (is_required c) evidence)) in
        (item, listed, (is_required_iff c item).0 met),
    λ (item, listed, met). ground (
      arith,
      length-select (is_required c) evidence,
      count_pos_of_mem (is_required c) evidence item listed ((is_required_iff c item).1 met),
    ),
  )
  passes_iff (minimum_evidence_count c n) = (
    λ h. ground (arith, length-select (is_counted c) evidence),
    λ h. ground (arith, length-select (is_counted c) evidence),
  )
  passes_iff evidence_status_in_set = all_available_iff evidence
  passes_iff (evidence_not_expired c days) = (
    λ h.
        let (item, listed, met) =
          selected (is_classified c) evidence
            (ground (arith, length-select (is_classified c) evidence)) in
        (
          (item, listed, (eq_iff item.classification_code c).0 met),
          all_young_to c now days evidence (ground arith),
        ),
    λ ((item, listed, met), young). ground (
      arith,
      length-select (is_classified c) evidence,
      count_pos_of_mem (is_classified c) evidence item listed
          ((eq_iff item.classification_code c).1 met),
      all_young_from c now days evidence young,
    ),
  )
  passes_iff (case_field_present f) = present_iff (field_value snapshot f)
  passes_iff (case_field_equals f v) = same_iff (field_value snapshot f) v
  passes_iff (case_field_in_set f vs) =
      (any-same_to (field_value snapshot f) vs, any-same_from (field_value snapshot f) vs)
  passes_iff (case_numeric_min v) = amount_min snapshot.requested_amount_minor v
  passes_iff (case_numeric_max v) = amount_max snapshot.requested_amount_minor v

  pub any-fail_iff :
      (rules : List Rule)
      → (any (λ (r : EvaluatedRule). not r.pass) (evaluate_rules snapshot evidence now rules)
          ≡ false)
        ↔ All (λ rule. Meets snapshot evidence now rule.check) rules
  unfolding evaluate_rules
  any-fail_iff [] = (λ h. tt, λ h. refl)
  any-fail_iff (rule ∷ rules) =
      let (to, from) = any-fail_iff rules in
      let (to_met, from_met) = passes_iff rule.check in
      (
        λ h. (to_met (ground arith), to (ground arith)),
        λ (here, later). ground (arith, from_met here, from later),
      )
