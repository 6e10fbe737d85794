-- ===== src/Audit/Sanitize.antt =====
-- The metadata that a record keeps (`sanitizeValue` of audit-crypto.ts), and its bounds.
use team_nivaran.Common.{
  ℕ, zero, suc, ◌+◌, ◌≤◌, String, ◌≡◌, refl, Bool, true, false, not, ◌&&◌, arith, ltb, leb,
  truncate, units, is_wide, Bool-cases, if◌then◌else◌, inl, inr,
}
use team_nivaran.Audit.Json.{
  Json, null, bool, num, str, arr, obj, Items, nil, item, Fields, end, field,
}
use team_nivaran.Audit.Patterns.{is_blocked}

abbrev pub take_items : ℕ → Items → Items
take_items zero items = nil
take_items (suc n) nil = nil
take_items (suc n) (item value rest) = item value (take_items n rest)

abbrev pub take_fields : ℕ → Fields → Fields
take_fields zero fields = end
take_fields (suc n) end = end
take_fields (suc n) (field k value rest) = field k value (take_fields n rest)

-- Values are made safe before the first 20 or 40 are taken, which reads no value.
unfoldable mutual
  pub sanitize_value : ℕ → Json → Json
  sanitize_value depth null = if ltb 4 depth then str "[TRUNCATED]" else null
  sanitize_value depth (bool b) = if ltb 4 depth then str "[TRUNCATED]" else bool b
  sanitize_value depth (num text) = if ltb 4 depth then str "[TRUNCATED]" else num text
  sanitize_value depth (str text) =
      if ltb 4 depth then str "[TRUNCATED]" else str (truncate 500 text)
  sanitize_value depth (arr items) =
      let inner = sanitize_items (depth + 1) items in
      if ltb 4 depth then str "[TRUNCATED]" else arr (take_items 20 inner)
  sanitize_value depth (obj fields) =
      let inner = sanitize_fields (depth + 1) fields in
      if ltb 4 depth then str "[TRUNCATED]" else obj (take_fields 40 inner)

  pub sanitize_items : ℕ → Items → Items
  sanitize_items depth nil = nil
  sanitize_items depth (item value rest) =
      item (sanitize_value depth value) (sanitize_items depth rest)

  pub sanitize_fields : ℕ → Fields → Fields
  sanitize_fields depth end = end
  sanitize_fields depth (field k value rest) =
      let kept = sanitize_fields depth rest in
      let value' = sanitize_value depth value in if is_blocked k then kept else field k value' kept

unfoldable pub sanitize_audit_metadata : Json → Json
sanitize_audit_metadata value = sanitize_value 0 value

abbrev pub count_items : Items → ℕ
count_items nil = 0
count_items (item value rest) = suc (count_items rest)

abbrev pub count_fields : Fields → ℕ
count_fields end = 0
count_fields (field k value rest) = suc (count_fields rest)

-- At most `n` levels of arrays and objects, with short texts, few entries and no blocked key.
unfoldable mutual
  pub is_bounded : ℕ → Json → Bool
  is_bounded n null = true
  is_bounded n (bool b) = true
  is_bounded n (num text) = true
  is_bounded n (str text) = leb (units text) 500
  is_bounded zero (arr items) = false
  is_bounded (suc n) (arr items) = leb (count_items items) 20 && bounded_items n items
  is_bounded zero (obj fields) = false
  is_bounded (suc n) (obj fields) = leb (count_fields fields) 40 && bounded_fields n fields

  pub bounded_items : ℕ → Items → Bool
  bounded_items n nil = true
  bounded_items n (item value rest) = is_bounded n value && bounded_items n rest

  pub bounded_fields : ℕ → Fields → Bool
  bounded_fields n end = true
  bounded_fields n (field k value rest) =
      not (is_blocked k) && is_bounded n value && bounded_fields n rest

units-truncate : (n : ℕ) (s : String) → units (truncate n s) ≤ n
unfolding truncate
units-truncate n String.[] = omega arith
units-truncate zero (String.◌∷◌ c s) = omega arith
units-truncate (suc zero) (String.◌∷◌ c s) = elim (Bool-cases (is_wide c)) [
  | inl e ↦ rw e (omega arith)
  | inr e ↦ rw (e, e) (omega arith)
]
units-truncate (suc (suc n)) (String.◌∷◌ c s) = elim (Bool-cases (is_wide c)) [
  | inl e ↦ rw e (omega (arith, units-truncate n s))
  | inr e ↦ rw e (omega (arith, units-truncate (suc n) s))
]

take_items_bounded :
    (m n : ℕ) (items : Items)
    → bounded_items n items ≡ true
    → (leb (count_items (take_items m items)) m && bounded_items n (take_items m items)) ≡ true
unfolding is_bounded
take_items_bounded zero n items h = refl
take_items_bounded (suc m) n nil h = ground arith
take_items_bounded (suc m) n (item value rest) h = ground (arith, take_items_bounded m n rest)

take_fields_bounded :
    (m n : ℕ) (fields : Fields)
    → bounded_fields n fields ≡ true
    → (leb (count_fields (take_fields m fields)) m && bounded_fields n (take_fields m fields))
      ≡ true
unfolding is_bounded
take_fields_bounded zero n fields h = refl
take_fields_bounded (suc m) n end h = ground arith
take_fields_bounded (suc m) n (field k value rest) h = ground (arith, take_fields_bounded m n rest)

is_deep : (depth : ℕ) → zero + depth ≡ 5 → ltb 4 depth ≡ true
is_deep depth h = ground arith

is_shallow : (n depth : ℕ) → suc n + depth ≡ 5 → ltb 4 depth ≡ false
is_shallow n depth h = ground arith

mutual
  unfolding sanitize_value is_bounded

  sanitize_bounded :
      (n depth : ℕ) (value : Json)
      → n + depth ≡ 5
      → is_bounded n (sanitize_value depth value) ≡ true
  sanitize_bounded n depth null h = elim (Bool-cases (ltb 4 depth)) [
    | inl deep ↦ rw deep refl
    | inr other ↦ rw other refl
  ]
  sanitize_bounded n depth (bool b) h = elim (Bool-cases (ltb 4 depth)) [
    | inl deep ↦ rw deep refl
    | inr other ↦ rw other refl
  ]
  sanitize_bounded n depth (num text) h = elim (Bool-cases (ltb 4 depth)) [
    | inl deep ↦ rw deep refl
    | inr other ↦ rw other refl
  ]
  sanitize_bounded n depth (str text) h = elim (Bool-cases (ltb 4 depth)) [
    | inl deep ↦ rw deep refl
    | inr other ↦ rw other (ground (arith, units-truncate 500 text))
  ]
  sanitize_bounded zero depth (arr items) h = rw (is_deep depth h) refl
  sanitize_bounded (suc n) depth (arr items) h = rw (is_shallow n depth h) (
      take_items_bounded 20 n (sanitize_items (depth + 1) items)
        (sanitize_items_bounded n (depth + 1) items (omega (arith, h))))
  sanitize_bounded zero depth (obj fields) h = rw (is_deep depth h) refl
  sanitize_bounded (suc n) depth (obj fields) h = rw (is_shallow n depth h) (
      take_fields_bounded 40 n (sanitize_fields (depth + 1) fields)
        (sanitize_fields_bounded n (depth + 1) fields (omega (arith, h))))

  sanitize_items_bounded :
      (n depth : ℕ) (items : Items)
      → n + depth ≡ 5
      → bounded_items n (sanitize_items depth items) ≡ true
  sanitize_items_bounded n depth nil h = refl
  sanitize_items_bounded n depth (item value rest) h =
      rw (sanitize_bounded n depth value h, sanitize_items_bounded n depth rest h) refl

  sanitize_fields_bounded :
      (n depth : ℕ) (fields : Fields)
      → n + depth ≡ 5
      → bounded_fields n (sanitize_fields depth fields) ≡ true
  sanitize_fields_bounded n depth end h = refl
  sanitize_fields_bounded n depth (field k value rest) h = elim (Bool-cases (is_blocked k)) [
    | inl blocked ↦ rw blocked (sanitize_fields_bounded n depth rest h)
    | inr kept ↦
        rw (kept, kept, sanitize_bounded n depth value h, sanitize_fields_bounded n depth rest h)
          refl
  ]

-- Whatever the payload of an event, the metadata kept of it is bounded: at most five levels, arrays
-- of at most 20 and objects of at most 40 entries, texts of at most 500 UTF-16 units, and no key of a
-- blocked kind at any level.
pub sanitize_audit_metadata_bounded :
    (value : Json) → is_bounded 5 (sanitize_audit_metadata value) ≡ true
unfolding sanitize_audit_metadata
sanitize_audit_metadata_bounded value = sanitize_bounded 5 0 value refl
