-- ===== src/Common/Lists.antt =====
-- Lists over the native numbers, and the rows of a table that a condition selects.
use Prim.Native.Nat.{ℕ, suc, ◌+◌, ◌≤◌}
use mathlib.Core.Path.{◌≡◌, refl, sym, ap, subst}
use mathlib.Core.Logic.{◌⊎◌, inl, inr, ◌↔◌}
use team_nivaran.Common.{Bool-cases}
use mathlib.Core.Bool.{Bool, true, false, ◌&&◌, ◌||◌}
use mathlib.Core.Option.{Option, none, some}
use mathlib.Core.List.{List, [], ◌∷◌, ◌++◌, map, Memᴰ}
use native.Mathlib.Omega.{arith}

-- `test ? x : y`.
abbrev pub choose {ℓ} : {A : Type ℓ} → Bool → A → A → A
choose true x y = x
choose false x y = y

module _ {ℓ} {A : Type ℓ} where
  abbrev pub length : List A → ℕ
  length [] = 0
  length (x ∷ xs) = suc (length xs)

  abbrev pub all : (A → Bool) → List A → Bool
  all p [] = true
  all p (x ∷ xs) = p x && all p xs

  abbrev pub any : (A → Bool) → List A → Bool
  any p [] = false
  any p (x ∷ xs) = p x || any p xs

  -- `Array.filter`, and the rows that a `where` selects.
  abbrev pub select : (A → Bool) → List A → List A
  select p [] = []
  select p (x ∷ xs) = let rest = select p xs in choose (p x) (x ∷ rest) rest

  -- How many rows a `where` selects.
  abbrev pub count : (A → Bool) → List A → ℕ
  count p [] = 0
  count p (x ∷ xs) = choose (p x) 1 0 + count p xs

  -- Each selected row changed, the others kept, in place.
  abbrev pub update_where : (A → Bool) → (A → A) → List A → List A
  update_where p f [] = []
  update_where p f (x ∷ xs) = choose (p x) (f x) x ∷ update_where p f xs

  -- The first selected row.
  abbrev pub first : (A → Bool) → List A → Option A
  first p [] = none
  first p (x ∷ xs) = choose (p x) (some x) (first p xs)

module _ {ℓ κ} {A : Type ℓ} (P : A → Type κ) where
  abbrev pub All : List A → Type κ
  All [] = Unit
  All (x ∷ xs) = P x × All xs

  pub All-Memᴰ : {x : A} (xs : List A) → All xs → Memᴰ x xs → P x
  All-Memᴰ [] h m = elim m [ ]
  All-Memᴰ (y ∷ ys) h (Memᴰ.head e) = subst P (sym e) h.0
  All-Memᴰ (y ∷ ys) h (Memᴰ.tail m) = All-Memᴰ ys h.1 m

  pub All-append : (xs ys : List A) → All xs → All ys → All (xs ++ ys)
  All-append [] ys hx hy = hy
  All-append (x ∷ xs) ys hx hy = (hx.0, All-append xs ys hx.1 hy)

module _ {ℓ} {A : Type ℓ} (p : A → Bool) where
  pub count-append : (xs ys : List A) → count p (xs ++ ys) ≡ count p xs + count p ys
  count-append [] ys = omega arith
  count-append (x ∷ xs) ys = omega (arith, count-append xs ys)

  pub all-Memᴰ : {x : A} (xs : List A) → all p xs ≡ true → Memᴰ x xs → p x ≡ true
  all-Memᴰ [] h m = elim m [ ]
  all-Memᴰ (y ∷ ys) h (Memᴰ.head e) = subst (λ z. p z ≡ true) (sym e) (ground arith)
  all-Memᴰ (y ∷ ys) h (Memᴰ.tail m) = all-Memᴰ ys (ground arith) m

  pub any-Memᴰ : {x : A} (xs : List A) → any p xs ≡ false → Memᴰ x xs → p x ≡ false
  any-Memᴰ [] h m = elim m [ ]
  any-Memᴰ (y ∷ ys) h (Memᴰ.head e) = subst (λ z. p z ≡ false) (sym e) (ground arith)
  any-Memᴰ (y ∷ ys) h (Memᴰ.tail m) = any-Memᴰ ys (ground arith) m

  pub length-update_where : (f : A → A) (xs : List A) → length (update_where p f xs) ≡ length xs
  length-update_where f [] = refl
  length-update_where f (x ∷ xs) = ap suc (length-update_where f xs)

  -- An update whose result no longer satisfies a second condition leaves no row that satisfies both.
  pub count-update_where_zero :
      (q : A → Bool) (f : A → A) (xs : List A)
      → ((x : A) → q (f x) ≡ false)
      → ((x : A) → q x ≡ true → p x ≡ true)
      → count q (update_where p f xs) ≡ 0
  count-update_where_zero q f [] away inside = refl
  count-update_where_zero q f (x ∷ xs) away inside =
      ground (arith, away x, inside x, count-update_where_zero q f xs away inside)

pub count-le_of {ℓ} :
    {A : Type ℓ} (p k : A → Bool) (xs : List A)
    → ((x : A) → p x ≡ true → k x ≡ true)
    → count p xs ≤ count k xs
count-le_of p k [] narrow = omega arith
count-le_of p k (x ∷ xs) narrow = ground (arith, narrow x, count-le_of p k xs narrow)

-- Conditions that are narrower than a key `k`.
module _ {ℓ} {A : Type ℓ} (p q k : A → Bool) (f : A → A) where
  update_absent :
      (xs : List A)
      → ((x : A) → p x ≡ true → k x ≡ true)
      → ((x : A) → q x ≡ true → k x ≡ true)
      → count k xs ≡ 0
      → count q (update_where p f xs) ≡ 0
  update_absent [] p_narrow q_narrow h = refl
  update_absent (x ∷ xs) p_narrow q_narrow h =
      ground (arith, p_narrow x, q_narrow x, update_absent xs p_narrow q_narrow)

  -- Where the one row of a key is updated out of a condition, no row of the key meets the condition.
  pub count-update_where_key :
      (xs : List A)
      → ((x : A) → p x ≡ true → k x ≡ true)
      → ((x : A) → q x ≡ true → k x ≡ true)
      → ((x : A) → p x ≡ true → q (f x) ≡ false)
      → count k xs ≤ 1
      → count p xs ≡ 1
      → count q (update_where p f xs) ≡ 0
  count-update_where_key [] p_narrow q_narrow away unique h = refl
  count-update_where_key (x ∷ xs) p_narrow q_narrow away unique h = elim (Bool-cases (p x)) [
    | inl met ↦ ground (arith, p_narrow x met, away x met, update_absent xs p_narrow q_narrow)
    | inr other ↦ ground (
      arith,
      q_narrow x,
      count-le_of p k xs p_narrow,
      count-update_where_key xs p_narrow q_narrow away,
    )
  ]

module _ {ℓ} {A : Type ℓ} where
  pub length-append : (xs ys : List A) → length (xs ++ ys) ≡ length xs + length ys
  length-append [] ys = omega arith
  length-append (x ∷ xs) ys = omega (arith, length-append xs ys)

  pub Memᴰ-cons : {x s : A} {xs : List A} → Memᴰ s (x ∷ xs) → (s ≡ x) ⊎ Memᴰ s xs
  Memᴰ-cons (Memᴰ.head e) = inl e
  Memᴰ-cons (Memᴰ.tail m) = inr m

  pub Memᴰ-append_to : {x : A} (xs ys : List A) → Memᴰ x (xs ++ ys) → Memᴰ x xs ⊎ Memᴰ x ys
  Memᴰ-append_to [] ys m = inr m
  Memᴰ-append_to (z ∷ zs) ys m = elim (Memᴰ-cons m) [
    | inl e ↦ inl (Memᴰ.head e)
    | inr k ↦ elim (Memᴰ-append_to zs ys k) [ inl l ↦ inl (Memᴰ.tail l) | inr r ↦ inr r ]
  ]

  pub Memᴰ-append_left : {x : A} (xs ys : List A) → Memᴰ x xs → Memᴰ x (xs ++ ys)
  Memᴰ-append_left [] ys m = elim m [ ]
  Memᴰ-append_left (z ∷ zs) ys (Memᴰ.head e) = Memᴰ.head e
  Memᴰ-append_left (z ∷ zs) ys (Memᴰ.tail m) = Memᴰ.tail (Memᴰ-append_left zs ys m)

  pub Memᴰ-append_right : {x : A} (xs ys : List A) → Memᴰ x ys → Memᴰ x (xs ++ ys)
  Memᴰ-append_right [] ys m = m
  Memᴰ-append_right (z ∷ zs) ys m = Memᴰ.tail (Memᴰ-append_right zs ys m)

  pub Memᴰ-append : {x y : A} (xs : List A) → Memᴰ x (xs ++ y ∷ []) → Memᴰ x xs ⊎ (x ≡ y)
  Memᴰ-append [] (Memᴰ.head e) = inr e
  Memᴰ-append [] (Memᴰ.tail m) = elim m [ ]
  Memᴰ-append (z ∷ zs) (Memᴰ.head e) = inl (Memᴰ.head e)
  Memᴰ-append (z ∷ zs) (Memᴰ.tail m) = elim (Memᴰ-append zs m) [
    | inl k ↦ inl (Memᴰ.tail k)
    | inr e ↦ inr e
  ]

pub length-map {ℓ κ} :
    {A : Type ℓ} {B : Type κ} (f : A → B) (xs : List A) → length (map f xs) ≡ length xs
length-map f [] = refl
length-map f (x ∷ xs) = ap suc (length-map f xs)

-- `Array.flatMap`.
abbrev pub flat {ℓ κ} : {A : Type ℓ} {B : Type κ} → (A → List B) → List A → List B
flat f [] = []
flat f (x ∷ xs) = f x ++ flat f xs

module _ {ℓ} {A : Type ℓ} where
  select_to : (p : A → Bool) (xs : List A) (x : A) → Memᴰ x (select p xs) → Memᴰ x xs × (p x ≡ true)
  select_to p [] x m = elim m [ ]
  select_to p (y ∷ ys) x m = elim (Bool-cases (p y)) [
    | inl met ↦ elim (Memᴰ-cons (rw met at m)) [
      | inl e ↦ (Memᴰ.head e, rw e met)
      | inr k ↦ let (listed, h) = select_to p ys x k in (Memᴰ.tail listed, h)
    ]
    | inr other ↦ let (listed, h) = select_to p ys x (rw other at m) in (Memᴰ.tail listed, h)
  ]

  select_from : (p : A → Bool) (xs : List A) (x : A) → Memᴰ x xs → p x ≡ true → Memᴰ x (select p xs)
  select_from p [] x m h = elim m [ ]
  select_from p (y ∷ ys) x m h = elim (Memᴰ-cons m) [
    | inl e ↦ let met : p y ≡ true = rw (← e) h in rw met (Memᴰ.head e)
    | inr k ↦ elim (Bool-cases (p y)) [
      | inl met ↦ rw met (Memᴰ.tail (select_from p ys x k h))
      | inr other ↦ rw other (select_from p ys x k h)
    ]
  ]

  -- A row after an update is an old row, changed if it was selected.
  pub Memᴰ-update_where :
      (p : A → Bool) (f : A → A) (xs : List A) (y : A)
      → Memᴰ y (update_where p f xs)
      → (x : A) × Memᴰ x xs × (y ≡ choose (p x) (f x) x)
  Memᴰ-update_where p f [] y m = elim m [ ]
  Memᴰ-update_where p f (x ∷ xs) y m = elim (Memᴰ-cons m) [
    | inl e ↦ (x, Memᴰ.head refl, e)
    | inr k ↦ let (z, listed, e) = Memᴰ-update_where p f xs y k in (z, Memᴰ.tail listed, e)
  ]

  pub Memᴰ-select :
      (p : A → Bool) (xs : List A) (x : A) → Memᴰ x (select p xs) ↔ (Memᴰ x xs × (p x ≡ true))
  Memᴰ-select p xs x = (select_to p xs x, λ (m, h). select_from p xs x m h)

  pub Memᴰ-update_where_self :
      (p : A → Bool) (f : A → A) (xs : List A) (x : A)
      → Memᴰ x xs
      → p x ≡ true
      → Memᴰ (f x) (update_where p f xs)
  Memᴰ-update_where_self p f [] x m h = elim m [ ]
  Memᴰ-update_where_self p f (y ∷ ys) x m h = elim (Memᴰ-cons m) [
    | inl e ↦ let met : p y ≡ true = rw (← e) h in rw met (Memᴰ.head (ap f e))
    | inr k ↦ Memᴰ.tail (Memᴰ-update_where_self p f ys x k h)
  ]
