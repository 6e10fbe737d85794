-- ===== src/Common/LatestBy.antt =====
-- The first row of a list in a descending order of a nullable text column and then of a number: rows
-- without the text come first; of the texts, the one that stands first in the list is taken.
use Prim.Native.Nat.{ℕ, ◌≤◌}
use Prim.Native.String.{String}
use mathlib.Core.Path.{◌≡◌}
use mathlib.Core.Logic.{inl, inr}
use mathlib.Core.Bool.{Bool, true, ◌&&◌}
use mathlib.Core.Option.{Option, none, some}
use mathlib.Core.List.{List, Memᴰ}
use native.Mathlib.Omega.{arith}
use team_nivaran.Common.{Option-cases, is_none, is_text, eq_self}
use team_nivaran.Common.Lists.{count, first}
use team_nivaran.Common.Rows.{first-some, first-none, count-Memᴰ}
use team_nivaran.Common.Ordered.{latest, latest-some, latest_max, latest-none}

module _ {Row : Type 0} (p : Row → Bool) (column : Row → Option String) (number : Row → ℕ) where
  abbrev has_none : Row → Bool
  has_none r = p r && is_none (column r)

  abbrev has_text : String → Row → Bool
  has_text t r = p r && is_text (column r) t

  abbrev by_text : Option Row → List Row → Option Row
  by_text none rows = none
  by_text (some s) rows = elim (column s) [ none ↦ none | some t ↦ latest (has_text t) number rows ]

  abbrev pub latest_by : List Row → Option Row
  latest_by rows = elim (latest has_none number rows) [
    | some r ↦ some r
    | none ↦ by_text (first p rows) rows
  ]

  -- Where no row lacks the text, a row that is found is the latest with some text.
  by_text_parts :
      (rows : List Row) (r : Row)
      → by_text (first p rows) rows ≡ some r
      → (t : String) × (latest (has_text t) number rows ≡ some r)
  by_text_parts rows r h = elim (Option-cases (first p rows)) [
    | inl e ↦ absurd (ground arith)
    | inr (s, e) ↦ elim (Option-cases (column s)) [
      | inl c ↦ absurd (ground arith)
      | inr (t, c) ↦ (t, ground arith)
    ]
  ]

  pub latest_by-some :
      (rows : List Row) (r : Row) → latest_by rows ≡ some r → (p r ≡ true) × Memᴰ r rows
  latest_by-some rows r h = elim (Option-cases (latest has_none number rows)) [
    | inr (s, e) ↦
        let (met, listed) = latest-some has_none number rows r (ground arith) in
        (ground arith, listed)
    | inl e ↦
        let (t, found) = by_text_parts rows r (ground arith) in
        let (met, listed) = latest-some (has_text t) number rows r found in (ground arith, listed)
  ]

  pub latest_by-none : (rows : List Row) → latest_by rows ≡ none → count p rows ≡ 0
  latest_by-none rows h = elim (Option-cases (latest has_none number rows)) [
    | inr (s, e) ↦ absurd (ground arith)
    | inl e ↦ elim (Option-cases (first p rows)) [
      | inl f ↦ first-none p rows f
      | inr (s, f) ↦
          let (met, listed) = first-some p rows s f in
          elim (Option-cases (column s)) [
            | inl c ↦ absurd (
                count-Memᴰ has_none rows s listed (ground arith)
                  (latest-none has_none number rows e))
            | inr (t, c) ↦ absurd (
                count-Memᴰ (has_text t) rows s listed (rw (met, c) (eq_self t))
                  (latest-none (has_text t) number rows (ground arith)))
          ]
    ]
  ]

  pub latest_by_null :
      (rows : List Row) (r s : Row)
      → latest_by rows ≡ some r
      → Memᴰ s rows
      → p s ≡ true
      → column s ≡ none
      → column r ≡ none
  latest_by_null rows r s h m e c = elim (Option-cases (latest has_none number rows)) [
    | inr (x, found) ↦
        let (met, listed) = latest-some has_none number rows r (ground arith) in ground arith
    | inl missing ↦
        absurd
          (count-Memᴰ has_none rows s m (ground arith) (latest-none has_none number rows missing))
  ]

  pub latest_by_max :
      (rows : List Row) (r s : Row)
      → latest_by rows ≡ some r
      → Memᴰ s rows
      → p s ≡ true
      → column s ≡ column r
      → number s ≤ number r
  latest_by_max rows r s h m e c = elim (Option-cases (latest has_none number rows)) [
    | inr (x, found) ↦
        let (met, listed) = latest-some has_none number rows r (ground arith) in
        latest_max has_none number rows r s (ground arith) m (rw c (ground arith))
    | inl missing ↦
        let (t, found) = by_text_parts rows r (ground arith) in
        let (met, listed) = latest-some (has_text t) number rows r found in
        latest_max (has_text t) number rows r s found m (rw (c, e) (ground arith))
  ]
