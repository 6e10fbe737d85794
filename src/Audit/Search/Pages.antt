-- ===== src/Audit/Search/Pages.antt =====
-- The pages of a search follow one another without a gap and without a row twice.
use team_nivaran.Common.{
  ℕ, zero, suc, ◌+◌, ◌≤◌, ◌<◌, String, ◌≡◌, ◌∙◌, refl, ap, inl, inr, Bool, true, false, ◌&&◌,
  Option, none, some, List, [], ◌∷◌, ◌++◌, Memᴰ, arith, ltb, Bool-cases,
}
use team_nivaran.Common.Lists.{length, select, All, All-Memᴰ, Memᴰ-select}
use team_nivaran.Audit.Model.{AuditRecord}
use team_nivaran.Audit.Chain.{take_rows}
use team_nivaran.Audit.Search.{
  Sort, occurred_desc, occurred_asc, Filters, Boundary, place_of, last_place, is_match, is_after,
  starts_after, search,
}

abbrev pub drop_rows : ℕ → List AuditRecord → List AuditRecord
drop_rows zero rows = rows
drop_rows (suc n) [] = []
drop_rows (suc n) (r ∷ rows) = drop_rows n rows

-- A strict order of the ids.
pub record IsOrder (id_before : String → String → Bool) : Type 0 where
  pub irreflexive : (a : String) → id_before a a ≡ false
  pub asymmetric : (a b : String) → id_before a b ≡ true → id_before b a ≡ false
  pub transitive :
      (a b c : String) → id_before a b ≡ true → id_before b c ≡ true → id_before a c ≡ true

module _ (id_before : String → String → Bool) (contains_insensitive : (column text : String) → Bool)
    (order : IsOrder id_before) where
  abbrev after : Sort → Boundary → AuditRecord → Bool
  after sort b r = is_after id_before contains_insensitive sort b r

  -- Each row stands after those before it.
  abbrev pub IsSorted : Sort → List AuditRecord → Type 0
  IsSorted sort [] = Unit
  IsSorted sort (r ∷ rows) =
      All (λ (s : AuditRecord). after sort (place_of r) s ≡ true) rows × IsSorted sort rows

  after_self : (sort : Sort) (r : AuditRecord) → after sort (place_of r) r ≡ false
  unfolding is_after
  after_self occurred_desc r = ground (arith, order.irreflexive r.id)
  after_self occurred_asc r = ground (arith, order.irreflexive r.id)

  after_back :
      (sort : Sort) (r s : AuditRecord)
      → after sort (place_of r) s ≡ true
      → after sort (place_of s) r ≡ false
  unfolding is_after
  after_back occurred_desc r s h = ground (arith, order.asymmetric s.id r.id)
  after_back occurred_asc r s h = ground (arith, order.asymmetric r.id s.id)

  after_trans :
      (sort : Sort) (b : Boundary) (r s : AuditRecord)
      → after sort b r ≡ true
      → after sort (place_of r) s ≡ true
      → after sort b s ≡ true
  unfolding is_after
  after_trans occurred_desc b r s h k = ground (arith, order.transitive s.id r.id b.id)
  after_trans occurred_asc b r s h k = ground (arith, order.transitive b.id r.id s.id)

  select_kept :
      (p : AuditRecord → Bool) (rows : List AuditRecord)
      → All (λ (s : AuditRecord). p s ≡ true) rows
      → select p rows ≡ rows
  select_kept p [] h = refl
  select_kept p (r ∷ rows) (met, rest) = rw (met, select_kept p rows rest) refl

  All-select :
      (P : AuditRecord → Type 0) (q : AuditRecord → Bool) (rows : List AuditRecord)
      → All P rows
      → All P (select q rows)
  All-select P q [] h = h
  All-select P q (r ∷ rows) (met, rest) = elim (Bool-cases (q r)) [
    | inl kept ↦ rw kept (met, All-select P q rows rest)
    | inr left ↦ rw left (All-select P q rows rest)
  ]

  select-IsSorted :
      (sort : Sort) (q : AuditRecord → Bool) (rows : List AuditRecord)
      → IsSorted sort rows
      → IsSorted sort (select q rows)
  select-IsSorted sort q [] h = h
  select-IsSorted sort q (r ∷ rows) (first, rest) = elim (Bool-cases (q r)) [
    | inl kept ↦ rw kept (
      All-select (λ (s : AuditRecord). after sort (place_of r) s ≡ true) q rows first,
      select-IsSorted sort q rows rest,
    )
    | inr left ↦ rw left (select-IsSorted sort q rows rest)
  ]

  select-select :
      (p q both : AuditRecord → Bool) (rows : List AuditRecord)
      → ((r : AuditRecord) → both r ≡ (p r && q r))
      → select both rows ≡ select q (select p rows)
  select-select p q both [] same = refl
  select-select p q both (r ∷ rows) same = elim (Bool-cases (p r)) [
    | inl met ↦ ground (arith, same r, select-select p q both rows same)
    | inr other ↦ ground (arith, same r, select-select p q both rows same)
  ]

  -- The rows after the last one of a page are those that the page leaves.
  sorted_after :
      (sort : Sort) (n : ℕ) (rows : List AuditRecord)
      → IsSorted sort rows
      → n < length rows
      → (l : AuditRecord) × Memᴰ l rows
        × (last_place (take_rows (suc n) rows) ≡ some (place_of l))
        × (select (after sort (place_of l)) rows ≡ drop_rows (suc n) rows)
  sorted_after sort n [] sorted long = absurd (omega (arith, long))
  sorted_after sort zero (r ∷ rows) (first, rest) long = (
    r,
    Memᴰ.head refl,
    refl,
    rw (after_self sort r) (select_kept (after sort (place_of r)) rows first),
  )
  sorted_after sort (suc n) (r ∷ []) sorted long = absurd (omega (arith, long))
  sorted_after sort (suc n) (r ∷ s ∷ rows) (first, rest) long =
      let (l, listed, found, dropped) = sorted_after sort n (s ∷ rows) rest (omega (arith, long)) in
      let later =
        All-Memᴰ (λ (t : AuditRecord). after sort (place_of r) t ≡ true) (s ∷ rows) first listed in
      (l, Memᴰ.tail listed, found, rw (after_back sort r l later) dropped)

  take_drop : (n : ℕ) (rows : List AuditRecord) → rows ≡ take_rows n rows ++ drop_rows n rows
  take_drop zero rows = refl
  take_drop (suc n) [] = refl
  take_drop (suc n) (r ∷ rows) = ap (λ rest. r ∷ rest) (take_drop n rows)

  take_short : (n : ℕ) (rows : List AuditRecord) → length rows ≤ n → rows ≡ take_rows n rows ++ []
  take_short zero [] h = refl
  take_short zero (r ∷ rows) h = absurd (omega (arith, h))
  take_short (suc n) [] h = refl
  take_short (suc n) (r ∷ rows) h = ap (λ rest. r ∷ rest) (take_short n rows (omega (arith, h)))

  take_take :
      (n : ℕ) (rows : List AuditRecord) → take_rows n (take_rows (suc n) rows) ≡ take_rows n rows
  take_take zero rows = refl
  take_take (suc n) [] = refl
  take_take (suc n) (r ∷ rows) = ap (λ rest. r ∷ rest) (take_take n rows)

  length-take_rows :
      (n : ℕ) (rows : List AuditRecord)
      → ltb n (length (take_rows (suc n) rows)) ≡ ltb n (length rows)
  length-take_rows zero [] = refl
  length-take_rows zero (r ∷ rows) = ground arith
  length-take_rows (suc n) [] = refl
  length-take_rows (suc n) (r ∷ rows) = ground (arith, length-take_rows n rows)

  -- What a search relies on of `findMany`, for its sort and its records: the rows that meet the
  -- condition, in order, up to the number asked for; in that order each row stands after those
  -- before it, as no two records have one id.
  pub record IsQuery
      (find_many : (AuditRecord → Bool) → Sort → ℕ → List AuditRecord → List AuditRecord)
      (ordered : Sort → List AuditRecord → List AuditRecord) (sort : Sort)
      (records : List AuditRecord) : Type 0 where
    pub found :
        (q : AuditRecord → Bool) (n : ℕ)
        → find_many q sort n records ≡ take_rows n (select q (ordered sort records))
    pub sorted : IsSorted sort (ordered sort records)

  starts_after_next :
      (sort : Sort) (boundary : Option Boundary) (l r : AuditRecord)
      → starts_after id_before contains_insensitive sort boundary l ≡ true
      → after sort (place_of l) r ≡ true
      → starts_after id_before contains_insensitive sort boundary r ≡ true
  starts_after_next sort none l r h k = refl
  starts_after_next sort (some b) l r h k = after_trans sort b l r h k

  narrowed : (m p q : Bool) → (q ≡ true → p ≡ true) → (m && q) ≡ ((m && p) && q)
  narrowed true true q h = refl
  narrowed true false true h = let bad = h refl in cc
  narrowed true false false h = refl
  narrowed false p q h = refl

  module _ (find_many : (AuditRecord → Bool) → Sort → ℕ → List AuditRecord → List AuditRecord)
      (ordered : Sort → List AuditRecord → List AuditRecord) where
    -- All rows of a search from a place on, in order.
    abbrev pub rows_from : String → Filters → Option Boundary → List AuditRecord → List AuditRecord
    rows_from organization f boundary records =
        select
          (λ r.
            is_match id_before contains_insensitive organization f r
            && starts_after id_before contains_insensitive f.sort boundary r)
          (ordered f.sort records)

    -- The rows that the next pages hold.
    abbrev pub rows_next : String → Filters → Option Boundary → List AuditRecord → List AuditRecord
    rows_next organization f none records = []
    rows_next organization f (some b) records = rows_from organization f (some b) records

    rows_after :
        (organization : String) (f : Filters) (n : ℕ) (boundary : Option Boundary)
        (records : List AuditRecord)
        → IsQuery find_many ordered f.sort records
        → n < length (rows_from organization f boundary records)
        → (b : Boundary) × (last_place
              (take_rows (suc n) (rows_from organization f boundary records))
            ≡ some b)
          × (rows_from organization f (some b) records
              ≡ drop_rows (suc n) (rows_from organization f boundary records))
    rows_after organization f n boundary records query long =
        let sort = f.sort in
        let m = λ (r : AuditRecord). is_match id_before contains_insensitive organization f r in
        let from_place =
          λ (r : AuditRecord). starts_after id_before contains_insensitive sort boundary r in
        let q = λ (r : AuditRecord). m r && from_place r in
        let rows = ordered sort records in
        let all = rows_from organization f boundary records in
        let (l, listed, last, dropped) =
          sorted_after sort n all (select-IsSorted sort q rows query.sorted) long in
        let (stored, met) = (Memᴰ-select q rows l).0 listed in
        let next = after sort (place_of l) in
        let starts : from_place l ≡ true = ground arith in
        let same : (r : AuditRecord) → (m r && next r) ≡ (q r && next r) = λ r.
          narrowed (m r) (from_place r) (next r) (starts_after_next sort boundary l r starts) in
        (place_of l, last, select-select q next (λ r. m r && next r) rows same ∙ dropped)

    -- The rows of a search from a place on are those of its page, followed by those from the page's
    -- own next place on, or by none where the page has no next place: so the pages hold each row of
    -- the search once, in order. A page has at least one row.
    pub search-rows_from :
        (organization : String) (f : Filters) (n : ℕ) (boundary : Option Boundary)
        (records : List AuditRecord)
        → IsQuery find_many ordered f.sort records
        → rows_from organization f boundary records
          ≡ (search id_before contains_insensitive find_many organization f
              (suc n)
              boundary
              records).items
            ++ rows_next organization f
                (search id_before contains_insensitive find_many organization f
                  (suc n)
                  boundary
                  records).next
                records
    unfolding search
    search-rows_from organization f n boundary records query =
        let all = rows_from organization f boundary records in
        let q = λ (r : AuditRecord).
          is_match id_before contains_insensitive organization f r
          && starts_after id_before contains_insensitive f.sort boundary r in
        let more : suc n + 1 ≡ suc (suc n) = omega arith in
        let read : find_many q f.sort (suc n + 1) records ≡ take_rows (suc (suc n)) all =
          query.found q (suc n + 1) ∙ ap (λ (k : ℕ). take_rows k all) more in
        elim (Bool-cases (ltb (suc n) (length all))) [
          | inr short ↦
              rw (search, read, take_take (suc n) all, length-take_rows (suc n) all, short)
                (take_short (suc n) all (ground arith))
          | inl long ↦
              let (b, last, dropped) =
                rows_after organization f n boundary records query (ground arith) in
              rw
                (
                  search,
                  read,
                  take_take (suc n) all,
                  length-take_rows (suc n) all,
                  long,
                  last,
                  dropped,
                )
                (take_drop (suc n) all)
        ]
