-- ===== src/Common.antt =====
-- The names that the other modules share: the libraries', passed on, Boolean tests on native
-- numbers and options, and the lists and results of the children.
pub mod Lists
pub mod Results
pub mod Tables
pub mod Rows
pub mod Ordered
pub mod LatestBy
pub mod ListTable
use Prim.Native.Nat.{compare, Ordering}
pub use Prim.Native.Nat.{ℕ, zero, suc, ◌+◌, ◌-◌, ◌*◌, ◌/◌, ◌%◌, ◌^◌, ◌≤◌, ◌<◌, min, max}
use Prim.Native.Char.{Char, code}
pub use Prim.Native.String.{String}
pub use mathlib.Core.Path.{◌≡◌, refl, sym, ap, ◌∙◌, subst}
pub use mathlib.Core.Logic.{◌≢◌, ◌↔◌, ◌⊎◌, inl, inr}
pub use mathlib.Core.Bool.{Bool, true, false, not, ◌&&◌, ◌||◌, and-eq-true_iff}
pub use mathlib.Core.Option.{Option, none, some}
pub use mathlib.Core.List.{List, [], ◌∷◌, ◌++◌, map, Memᴰ}
pub use native.Mathlib.Omega.{arith}
pub use text.Mathlib.Text.{◌==◌}
pub use text.Mathlib.TextEquality.{eq_iff}

abbrev pub ltb : ℕ → ℕ → Bool
ltb a b = elim (compare a b) [ Ordering.lt ↦ true | _ ↦ false ]

abbrev pub leb : ℕ → ℕ → Bool
leb a b = elim (compare a b) [ Ordering.gt ↦ false | _ ↦ true ]

-- Equality of numbers; `==` is that of texts.
abbrev pub eqb : ℕ → ℕ → Bool
eqb a b = elim (compare a b) [ Ordering.eq ↦ true | _ ↦ false ]

infix 1 if◌then◌else◌
abbrev pub if◌then◌else◌ {ℓ} : {A : Type ℓ} → Bool → A → A → A
if true then x else y = x
if false then x else y = y

-- `value === text`, false on `null`.
abbrev pub is_text : Option String → String → Bool
is_text none s = false
is_text (some t) s = t == s

-- `!value`: missing or empty.
abbrev pub filled : Option String → Option String
filled none = none
filled (some text) = if text == "" then none else some text

abbrev pub is_none {ℓ} : {A : Type ℓ} → Option A → Bool
is_none none = true
is_none (some a) = false

pub Bool-cases : (b : Bool) → (b ≡ true) ⊎ (b ≡ false)
Bool-cases true = inl refl
Bool-cases false = inr refl

pub Option-cases {ℓ} : {A : Type ℓ} (o : Option A) → (o ≡ none) ⊎ ((a : A) × (o ≡ some a))
Option-cases none = inl refl
Option-cases (some a) = inr (a, refl)

pub eqb_iff : (a b : ℕ) → (eqb a b ≡ true) ↔ (a ≡ b)
eqb_iff a b = (λ h. ground arith, λ h. ground arith)

-- Equal texts pass the test.
pub eq_self : (s : String) → (s == s) ≡ true
eq_self s = (eq_iff s s).1 refl

-- Whether a character takes two of the UTF-16 code units that JavaScript counts.
abbrev pub is_wide : Char → Bool
is_wide c = leb 65536 (code c)

-- `text.length`.
abbrev pub units : String → ℕ
units String.[] = 0
units (String.◌∷◌ c s) = (if is_wide c then 2 else 1) + units s

-- `text.slice(0, n)`, by code units. Of a character that is cut in two a half is left, which is no
-- character: U+FFFD stands for it, as in the UTF-8 that is stored.
unfoldable pub truncate : ℕ → String → String
truncate n String.[] = String.[]
truncate zero (String.◌∷◌ c s) = String.[]
truncate (suc zero) (String.◌∷◌ c s) = String.◌∷◌ (if is_wide c then "�" else c) String.[]
truncate (suc (suc n)) (String.◌∷◌ c s) = String.◌∷◌ c (truncate (if is_wide c then n else suc n) s)
