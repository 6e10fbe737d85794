-- ===== src/Audit/Json.antt =====
-- JSON values and their canonical form (`canonicalValue` of audit-crypto.ts). A number is its text
-- in JSON. Keys that are array indexes, which JavaScript moves to the front, are left out.
use team_nivaran.Common.{
  String, ◌≡◌, ◌∙◌, refl, ap, Bool, true, ◌&&◌, Option, none, some, arith, ◌==◌, eq_iff, inl, inr,
  Bool-cases, is_none, if◌then◌else◌,
}
use mathlib.Core.Option

mutual
  pub data Json : Type 0 where
    null : Json
    bool : Bool → Json
    num : String → Json
    str : String → Json
    arr : Items → Json
    obj : Fields → Json

  pub data Items : Type 0 where
    nil : Items
    item : Json → Items → Items

  pub data Fields : Type 0 where
    end : Fields
    field : String → Json → Fields → Fields

-- The value under a key.
abbrev pub lookup : String → Fields → Option Json
lookup key end = none
lookup key (field k value rest) = if k == key then some value else lookup key rest

-- No key stands twice.
abbrev pub is_distinct : Fields → Bool
is_distinct end = true
is_distinct (field k value rest) = is_none (lookup k rest) && is_distinct rest

abbrev pub fields_of : Json → Fields
fields_of (obj fields) = fields
fields_of _ = end

-- `left.localeCompare(right)`, of the platform: the left key sorts before the right one.
module _ (before : String → String → Bool) where
  abbrev pub insert_field : String → Json → Fields → Fields
  insert_field key value end = field key value end
  insert_field key value (field k v rest) =
      let inserted = insert_field key value rest in
      if before k key then field k v inserted else field key value (field k v rest)

  -- `sort`, which is stable.
  abbrev pub sort_fields : Fields → Fields
  sort_fields end = end
  sort_fields (field k v rest) = insert_field k v (sort_fields rest)

  -- The values are made canonical before the sort, which reads the keys alone.
  unfoldable mutual
    pub canonical_value : Json → Json
    canonical_value null = null
    canonical_value (bool b) = bool b
    canonical_value (num text) = num text
    canonical_value (str text) = str text
    canonical_value (arr items) = arr (canonical_items items)
    canonical_value (obj fields) = obj (sort_fields (canonical_fields fields))

    pub canonical_items : Items → Items
    canonical_items nil = nil
    canonical_items (item value rest) = item (canonical_value value) (canonical_items rest)

    pub canonical_fields : Fields → Fields
    canonical_fields end = end
    canonical_fields (field k value rest) = field k (canonical_value value) (canonical_fields rest)

  lookup-insert_field :
      (key k : String) (value : Json) (fields : Fields)
      → lookup k fields ≡ none
      → lookup key (insert_field k value fields)
        ≡ (if k == key then some value else lookup key fields)
  lookup-insert_field key k value end h = refl
  lookup-insert_field key k value (field l v rest) h = elim (Bool-cases (l == k)) [
    | inl met ↦ absurd (ground arith)
    | inr other ↦ elim (Bool-cases (before l k)) [
      | inr first ↦ rw first refl
      | inl after ↦ rw after (
          ground
            (arith, lookup-insert_field key k value rest, eq_iff l k, eq_iff l key, eq_iff k key))
    ]
  ]

  lookup-sort_fields :
      (key : String) (fields : Fields)
      → is_distinct fields ≡ true
      → lookup key (sort_fields fields) ≡ lookup key fields
  lookup-sort_fields key end h = refl
  lookup-sort_fields key (field k v rest) h =
      let kept : lookup k (sort_fields rest) ≡ none =
        lookup-sort_fields k rest (ground arith) ∙ ground arith in
      lookup-insert_field key k v (sort_fields rest) kept
      ∙ ap (λ (o : Option Json). if k == key then some v else o)
          (lookup-sort_fields key rest (ground arith))

  lookup-canonical_fields :
      (key : String) (fields : Fields)
      → lookup key (canonical_fields fields) ≡ Option.map canonical_value (lookup key fields)
  unfolding canonical_value
  lookup-canonical_fields key end = refl
  lookup-canonical_fields key (field k v rest) = elim (Bool-cases (k == key)) [
    | inl met ↦ rw met refl
    | inr other ↦ rw other (lookup-canonical_fields key rest)
  ]

  is_distinct-canonical_fields :
      (fields : Fields) → is_distinct (canonical_fields fields) ≡ is_distinct fields
  unfolding canonical_value
  is_distinct-canonical_fields end = refl
  is_distinct-canonical_fields (field k v rest) =
      rw (lookup-canonical_fields k rest, is_distinct-canonical_fields rest) (ground arith)

  -- The canonical form of an object has the canonical value under each key.
  pub lookup-canonical_value :
      (key : String) (fields : Fields)
      → is_distinct fields ≡ true
      → lookup key (fields_of (canonical_value (obj fields)))
        ≡ Option.map canonical_value (lookup key fields)
  unfolding canonical_value
  lookup-canonical_value key fields h =
      lookup-sort_fields key (canonical_fields fields) (is_distinct-canonical_fields fields ∙ h)
      ∙ lookup-canonical_fields key fields
