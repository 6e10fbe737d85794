-- ===== src/Common/Ordered.antt =====
-- Of the rows that a condition selects, the one with the greatest or the least key.
use Prim.Native.Nat.{ℕ, compare, Ordering, ◌≤◌}
use mathlib.Core.Path.{◌≡◌, refl, sym, subst}
use mathlib.Core.Logic.{◌≢◌, ◌⊎◌, inl, inr}
use mathlib.Core.Bool.{Bool, true, cond}
use mathlib.Core.Option.{Option, none, some}
use mathlib.Core.List.{List, [], ◌∷◌, Memᴰ}
use native.Mathlib.Omega.{arith}
use team_nivaran.Common.Lists.{Memᴰ-cons, count}
use team_nivaran.Common.{Bool-cases, Option-cases}
use native.Mathlib.Nat.{le_trans}
use team_nivaran.Common.Rows.{count-Memᴰ}

module _ {Row : Type 0} where
  abbrev pub newer : (Row → ℕ) → Row → Option Row → Option Row
  newer key x none = some x
  newer key x (some y) = elim (compare (key x) (key y)) [ Ordering.lt ↦ some y | _ ↦ some x ]

  abbrev pub latest : (Row → Bool) → (Row → ℕ) → List Row → Option Row
  latest p key [] = none
  latest p key (x ∷ xs) = let rest = latest p key xs in cond (p x) (newer key x rest) rest

  abbrev pub older : (Row → ℕ) → Row → Option Row → Option Row
  older key x none = some x
  older key x (some y) = elim (compare (key x) (key y)) [ Ordering.gt ↦ some y | _ ↦ some x ]

  abbrev pub earliest : (Row → Bool) → (Row → ℕ) → List Row → Option Row
  earliest p key [] = none
  earliest p key (x ∷ xs) = let rest = earliest p key xs in cond (p x) (older key x rest) rest

  newer_cases :
      (key : Row → ℕ) (x : Row) (o : Option Row) (r : Row)
      → newer key x o ≡ some r
      → (x ≡ r) ⊎ (o ≡ some r)
  newer_cases key x none r h = inl (ground arith)
  newer_cases key x (some y) r h = ground arith

  newer-none : (key : Row → ℕ) (x : Row) (o : Option Row) → newer key x o ≢ none
  newer-none key x none h = cc
  newer-none key x (some y) h = ground arith

  newer_max :
      (key : Row → ℕ) (x : Row) (o : Option Row) (r : Row)
      → newer key x o ≡ some r
      → (key x ≤ key r) × ((y : Row) → o ≡ some y → key y ≤ key r)
  newer_max key x none r h = (ground arith, λ y e. cc)
  newer_max key x (some z) r h = (ground arith, λ y e. ground arith)

  pub latest-some :
      (p : Row → Bool) (key : Row → ℕ) (rows : List Row) (r : Row)
      → latest p key rows ≡ some r
      → (p r ≡ true) × Memᴰ r rows
  latest-some p key [] r h = cc
  latest-some p key (x ∷ xs) r h = elim (Bool-cases (p x)) [
    | inl e ↦ elim (newer_cases key x (latest p key xs) r (rw e at h)) [
      | inl s ↦ (subst (λ z. p z ≡ true) s e, Memᴰ.head (sym s))
      | inr k ↦ let t = latest-some p key xs r k in (t.0, Memᴰ.tail t.1)
    ]
    | inr e ↦ let t = latest-some p key xs r (rw e at h) in (t.0, Memᴰ.tail t.1)
  ]

  pub latest-none :
      (p : Row → Bool) (key : Row → ℕ) (rows : List Row)
      → latest p key rows ≡ none
      → count p rows ≡ 0
  latest-none p key [] h = refl
  latest-none p key (x ∷ xs) h = elim (Bool-cases (p x)) [
    | inl e ↦ absurd (newer-none key x (latest p key xs) (rw e at h))
    | inr e ↦ rw e (omega (arith, latest-none p key xs (rw e at h)))
  ]

  pub latest_max :
      (p : Row → Bool) (key : Row → ℕ) (rows : List Row) (r s : Row)
      → latest p key rows ≡ some r
      → Memᴰ s rows
      → p s ≡ true
      → key s ≤ key r
  latest_max p key [] r s h m q = cc
  latest_max p key (x ∷ xs) r s h m q = elim (Bool-cases (p x)) [
    | inl e ↦
        let (above_x, above) = newer_max key x (latest p key xs) r (rw e at h) in
        elim (Memᴰ-cons m) [
          | inl k ↦ rw k above_x
          | inr k ↦ elim (Option-cases (latest p key xs)) [
            | inl n ↦ absurd (count-Memᴰ p xs s k q (latest-none p key xs n))
            | inr (y, f) ↦ le_trans (latest_max p key xs y s f k q) (above y f)
          ]
        ]
    | inr e ↦ elim (Memᴰ-cons m) [
      | inl k ↦ let at_x : p x ≡ true = rw (← k) q in cc
      | inr k ↦ latest_max p key xs r s (rw e at h) k q
    ]
  ]

  older_cases :
      (key : Row → ℕ) (x : Row) (o : Option Row) (r : Row)
      → older key x o ≡ some r
      → (x ≡ r) ⊎ (o ≡ some r)
  older_cases key x none r h = inl (ground arith)
  older_cases key x (some y) r h = ground arith

  older-none : (key : Row → ℕ) (x : Row) (o : Option Row) → older key x o ≢ none
  older-none key x none h = cc
  older-none key x (some y) h = ground arith

  older_min :
      (key : Row → ℕ) (x : Row) (o : Option Row) (r : Row)
      → older key x o ≡ some r
      → (key r ≤ key x) × ((y : Row) → o ≡ some y → key r ≤ key y)
  older_min key x none r h = (ground arith, λ y e. cc)
  older_min key x (some z) r h = (ground arith, λ y e. ground arith)

  pub earliest-some :
      (p : Row → Bool) (key : Row → ℕ) (rows : List Row) (r : Row)
      → earliest p key rows ≡ some r
      → (p r ≡ true) × Memᴰ r rows
  earliest-some p key [] r h = cc
  earliest-some p key (x ∷ xs) r h = elim (Bool-cases (p x)) [
    | inl e ↦ elim (older_cases key x (earliest p key xs) r (rw e at h)) [
      | inl s ↦ (subst (λ z. p z ≡ true) s e, Memᴰ.head (sym s))
      | inr k ↦ let t = earliest-some p key xs r k in (t.0, Memᴰ.tail t.1)
    ]
    | inr e ↦ let t = earliest-some p key xs r (rw e at h) in (t.0, Memᴰ.tail t.1)
  ]

  pub earliest-none :
      (p : Row → Bool) (key : Row → ℕ) (rows : List Row)
      → earliest p key rows ≡ none
      → count p rows ≡ 0
  earliest-none p key [] h = refl
  earliest-none p key (x ∷ xs) h = elim (Bool-cases (p x)) [
    | inl e ↦ absurd (older-none key x (earliest p key xs) (rw e at h))
    | inr e ↦ rw e (omega (arith, earliest-none p key xs (rw e at h)))
  ]

  pub earliest_min :
      (p : Row → Bool) (key : Row → ℕ) (rows : List Row) (r s : Row)
      → earliest p key rows ≡ some r
      → Memᴰ s rows
      → p s ≡ true
      → key r ≤ key s
  earliest_min p key [] r s h m q = cc
  earliest_min p key (x ∷ xs) r s h m q = elim (Bool-cases (p x)) [
    | inl e ↦
        let (above_x, above) = older_min key x (earliest p key xs) r (rw e at h) in
        elim (Memᴰ-cons m) [
          | inl k ↦ rw k above_x
          | inr k ↦ elim (Option-cases (earliest p key xs)) [
            | inl n ↦ absurd (count-Memᴰ p xs s k q (earliest-none p key xs n))
            | inr (y, f) ↦ le_trans (above y f) (earliest_min p key xs y s f k q)
          ]
        ]
    | inr e ↦ elim (Memᴰ-cons m) [
      | inl k ↦ let at_x : p x ≡ true = rw (← k) q in cc
      | inr k ↦ earliest_min p key xs r s (rw e at h) k q
    ]
  ]
