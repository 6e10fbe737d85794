-- ===== src/Common/Tables.antt =====
-- The database client that the services call (Prisma, a third-party package), as an interface: the
-- operations on one table, and the documented behaviour that the services rely on. A table is the
-- list of its rows; which matching row an unordered query returns is left open.
use Prim.Native.Nat.{ℕ, ◌≤◌}
use Prim.Native.String.{String}
use mathlib.Core.Path.{◌≡◌}
use mathlib.Core.Logic.{◌≢◌}
use mathlib.Core.Bool.{not, Bool, true}
use mathlib.Core.Option.{Option, none, some}
use mathlib.Core.List.{List, [], ◌∷◌, ◌++◌, Memᴰ}
use team_nivaran.Common.Lists.{select, count, update_where, first}

pub record Table (Row : Type 0) : Type 0 where
  -- `findFirst({ where })` and `findUnique`.
  pub find_first : (Row → Bool) → List Row → Option Row
  -- `findFirst({ where, orderBy: { key: "desc" } })`.
  pub find_latest : (Row → Bool) → (Row → ℕ) → List Row → Option Row
  -- `findFirst({ where, orderBy: { key: "asc" } })`.
  pub find_earliest : (Row → Bool) → (Row → ℕ) → List Row → Option Row
  -- `findFirst({ where, orderBy: [{ column: "desc" }, { number: "desc" }] })`, where the column is a
  -- text or NULL. PostgreSQL sorts NULL first in a descending order; how texts sort is left open.
  pub find_latest_by : (Row → Bool) → (Row → Option String) → (Row → ℕ) → List Row → Option Row
  -- `updateMany({ where, data })`: the number of rows changed, and the table after it.
  pub update_many : (Row → Bool) → (Row → Row) → List Row → ℕ × List Row
  -- `update({ where, data })` by a unique key: the row written and the table, or an error (`none`)
  -- where no row has the key.
  pub update : (Row → Bool) → (Row → Row) → List Row → Option (Row × List Row)
  -- `delete({ where })` by a unique key: the table without the row, or an error (`none`) where no row
  -- has the key.
  pub delete : (Row → Bool) → List Row → Option (List Row)
  -- `upsert({ where, update, create })` by a unique key.
  pub upsert : (Row → Bool) → (Row → Row) → Row → List Row → List Row
  -- `count({ where })`.
  pub count_rows : (Row → Bool) → List Row → ℕ
  -- The id that the database gives to the next row.
  pub new_id : List Row → String
  pub find_first_some :
      (p : Row → Bool) (rows : List Row) (r : Row)
      → find_first p rows ≡ some r
      → (p r ≡ true) × Memᴰ r rows
  pub find_first_none :
      (p : Row → Bool) (rows : List Row) → find_first p rows ≡ none → count p rows ≡ 0
  pub find_latest_some :
      (p : Row → Bool) (key : Row → ℕ) (rows : List Row) (r : Row)
      → find_latest p key rows ≡ some r
      → (p r ≡ true) × Memᴰ r rows
  pub find_latest_max :
      (p : Row → Bool) (key : Row → ℕ) (rows : List Row) (r s : Row)
      → find_latest p key rows ≡ some r
      → Memᴰ s rows
      → p s ≡ true
      → key s ≤ key r
  pub find_latest_none :
      (p : Row → Bool) (key : Row → ℕ) (rows : List Row)
      → find_latest p key rows ≡ none
      → count p rows ≡ 0
  pub find_earliest_some :
      (p : Row → Bool) (key : Row → ℕ) (rows : List Row) (r : Row)
      → find_earliest p key rows ≡ some r
      → (p r ≡ true) × Memᴰ r rows
  pub find_earliest_min :
      (p : Row → Bool) (key : Row → ℕ) (rows : List Row) (r s : Row)
      → find_earliest p key rows ≡ some r
      → Memᴰ s rows
      → p s ≡ true
      → key r ≤ key s
  pub find_earliest_none :
      (p : Row → Bool) (key : Row → ℕ) (rows : List Row)
      → find_earliest p key rows ≡ none
      → count p rows ≡ 0
  pub find_latest_by_some :
      (p : Row → Bool) (column : Row → Option String) (number : Row → ℕ) (rows : List Row) (r : Row)
      → find_latest_by p column number rows ≡ some r
      → (p r ≡ true) × Memᴰ r rows
  pub find_latest_by_none :
      (p : Row → Bool) (column : Row → Option String) (number : Row → ℕ) (rows : List Row)
      → find_latest_by p column number rows ≡ none
      → count p rows ≡ 0
  pub find_latest_by_null :
      (p : Row → Bool) (column : Row → Option String) (number : Row → ℕ) (rows : List Row)
      (r s : Row)
      → find_latest_by p column number rows ≡ some r
      → Memᴰ s rows
      → p s ≡ true
      → column s ≡ none
      → column r ≡ none
  pub find_latest_by_max :
      (p : Row → Bool) (column : Row → Option String) (number : Row → ℕ) (rows : List Row)
      (r s : Row)
      → find_latest_by p column number rows ≡ some r
      → Memᴰ s rows
      → p s ≡ true
      → column s ≡ column r
      → number s ≤ number r
  pub update_many_lem :
      (p : Row → Bool) (f : Row → Row) (rows : List Row)
      → update_many p f rows ≡ (count p rows, update_where p f rows)
  pub update_some :
      (p : Row → Bool) (f : Row → Row) (rows : List Row) (r : Row) (rest : List Row)
      → update p f rows ≡ some (r, rest)
      → (rest ≡ update_where p f rows) × (s : Row) × (first p rows ≡ some s) × (r ≡ f s)
  pub update_none :
      (p : Row → Bool) (f : Row → Row) (rows : List Row) → update p f rows ≡ none → count p rows ≡ 0
  pub delete_some :
      (p : Row → Bool) (rows rest : List Row)
      → delete p rows ≡ some rest
      → (rest ≡ select (λ r. not (p r)) rows) × (count p rows ≢ 0)
  pub delete_none : (p : Row → Bool) (rows : List Row) → delete p rows ≡ none → count p rows ≡ 0
  pub upsert_old :
      (p : Row → Bool) (f : Row → Row) (new : Row) (rows : List Row)
      → count p rows ≢ 0
      → upsert p f new rows ≡ update_where p f rows
  pub upsert_new :
      (p : Row → Bool) (f : Row → Row) (new : Row) (rows : List Row)
      → count p rows ≡ 0
      → upsert p f new rows ≡ rows ++ new ∷ []
  pub count_rows_lem : (p : Row → Bool) (rows : List Row) → count_rows p rows ≡ count p rows
