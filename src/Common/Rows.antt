-- ===== src/Common/Rows.antt =====
-- The rows that a condition selects, and those that an update or an insertion leaves.
use Prim.Native.Nat.{◌≤◌}
use mathlib.Core.Path.{◌≡◌, ◌∙◌, refl, sym, subst, ap}
use mathlib.Core.Logic.{◌≢◌, ◌⊎◌, inl, inr}
use mathlib.Core.Bool.{Bool, true, false}
use mathlib.Core.Option.{none, some}
use mathlib.Core.List.{List, [], ◌∷◌, ◌++◌, Memᴰ}
use native.Mathlib.Omega.{arith}
use team_nivaran.Common.Lists.{
  Memᴰ-cons, Memᴰ-append, Memᴰ-update_where, count-append, count, update_where, first,
}
use team_nivaran.Common.{Bool-cases, Option-cases}
use team_nivaran.Common.Tables.{Table}

module _ {Row : Type 0} where
  pub first-some :
      (p : Row → Bool) (rows : List Row) (r : Row)
      → first p rows ≡ some r
      → (p r ≡ true) × Memᴰ r rows
  first-some p [] r h = cc
  first-some p (x ∷ xs) r h = elim (Bool-cases (p x)) [
    | inl e ↦ let s : x ≡ r = ground arith in (subst (λ z. p z ≡ true) s e, Memᴰ.head (sym s))
    | inr e ↦ let t = first-some p xs r (ground arith) in (t.0, Memᴰ.tail t.1)
  ]

  pub first-none : (p : Row → Bool) (rows : List Row) → first p rows ≡ none → count p rows ≡ 0
  first-none p [] h = refl
  first-none p (x ∷ xs) h = ground (arith, first-none p xs)

  pub count-Memᴰ :
      (p : Row → Bool) (rows : List Row) (s : Row) → Memᴰ s rows → p s ≡ true → count p rows ≢ 0
  count-Memᴰ p [] s m e = elim m [ ]
  count-Memᴰ p (x ∷ xs) s m e = elim (Memᴰ-cons m) [
    | inl k ↦ let at_x : p x ≡ true = rw (← k) e in rw at_x (omega arith)
    | inr k ↦ λ z. count-Memᴰ p xs s k e (omega arith)
  ]

  -- Of a condition that at most one row meets, the row.
  pub unique_row :
      (p : Row → Bool) (rows : List Row) (x s : Row)
      → count p rows ≤ 1
      → Memᴰ x rows
      → p x ≡ true
      → Memᴰ s rows
      → p s ≡ true
      → x ≡ s
  unique_row p [] x s one mx px ms ps = elim mx [ ]
  unique_row p (y ∷ ys) x s one mx px ms ps = elim (Memᴰ-cons mx) [
    | inl ex ↦ elim (Memᴰ-cons ms) [
      | inl es ↦ ex ∙ sym es
      | inr ks ↦
          let met : p y ≡ true = rw (← ex) px in absurd (count-Memᴰ p ys s ks ps (ground arith))
    ]
    | inr kx ↦ elim (Memᴰ-cons ms) [
      | inl es ↦
          let met : p y ≡ true = rw (← es) ps in absurd (count-Memᴰ p ys x kx px (ground arith))
      | inr ks ↦ unique_row p ys x s (ground arith) kx px ks ps
    ]
  ]

-- A row after an update is a selected row, changed, or a row that was not selected.
pub updated_row :
    {Row : Type 0} (p : Row → Bool) (f : Row → Row) (rows : List Row) (y : Row)
    → Memᴰ y (update_where p f rows)
    → ((x : Row) × Memᴰ x rows × (p x ≡ true) × (y ≡ f x)) ⊎ (Memᴰ y rows × (p y ≡ false))
updated_row p f rows y m =
    let (x, listed, made) = Memᴰ-update_where p f rows y m in
    elim (Bool-cases (p x)) [
      | inl met ↦ inl (x, listed, met, rw met at made)
      | inr other ↦ let same : y ≡ x = rw other at made in inr (rw same listed, rw same other)
    ]

-- An update by key: the row written is an old row of the key, changed.
pub update_found :
    {Row : Type 0} (table : Table Row) (p : Row → Bool) (f : Row → Row) (rows : List Row) (r : Row)
    (rest : List Row)
    → table.update p f rows ≡ some (r, rest)
    → (rest ≡ update_where p f rows) × (s : Row) × Memᴰ s rows × (p s ≡ true) × (r ≡ f s)
update_found table p f rows r rest h =
    let (changed, s, found, same) = table.update_some p f rows r rest h in
    let (met, listed) = first-some p rows s found in (changed, s, listed, met, same)

-- An update by a key that a row has succeeds.
pub update_there :
    {Row : Type 0} (table : Table Row) (p : Row → Bool) (f : Row → Row) (rows : List Row)
    → count p rows ≢ 0
    → (r : Row) × (rest : List Row) × (table.update p f rows ≡ some (r, rest))
      × (rest ≡ update_where p f rows)
update_there table p f rows there = elim (Option-cases (table.update p f rows)) [
  | inl gone ↦ absurd (there (table.update_none p f rows gone))
  | inr ((r, rest), done) ↦ (r, rest, done, (table.update_some p f rows r rest done).0)
]

-- The only row that a condition selects is found, when it is added last.
pub find_added :
    {Row : Type 0} (table : Table Row) (p : Row → Bool) (rows : List Row) (new : Row)
    → table.find_first p rows ≡ none
    → p new ≡ true
    → table.find_first p (rows ++ new ∷ []) ≡ some new
find_added table p rows new missing h =
    elim (Option-cases (table.find_first p (rows ++ new ∷ []))) [
      | inl n ↦ absurd (
          ground
            (arith, table.find_first_none p (rows ++ new ∷ []) n, count-append p rows (new ∷ [])))
      | inr (r, found) ↦
          let (met, listed) = table.find_first_some p (rows ++ new ∷ []) r found in
          elim (Memᴰ-append rows listed) [
            | inl old ↦ absurd (count-Memᴰ p rows r old met (table.find_first_none p rows missing))
            | inr same ↦ found ∙ ap some same
          ]
    ]
