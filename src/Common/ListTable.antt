-- ===== src/Common/ListTable.antt =====
-- A table kept as a plain list, which meets the interface of `Tables`: the tests run on it.
use Prim.Native.Nat.{zero, suc}
use Prim.Native.String.{String}
use mathlib.Core.Path.{◌≡◌, refl}
use mathlib.Core.Logic.{◌≢◌, inl, inr}
use mathlib.Core.Bool.{not, Bool}
use mathlib.Core.Option.{Option, none, some}
use mathlib.Core.List.{List, [], ◌∷◌, ◌++◌}
use native.Mathlib.Omega.{arith}
use team_nivaran.Common.Lists.{select, count, update_where, first}
use team_nivaran.Common.LatestBy.{
  latest_by, latest_by-some, latest_by-none, latest_by_null, latest_by_max,
}
use team_nivaran.Common.{Option-cases}
use team_nivaran.Common.Tables.{Table}
use team_nivaran.Common.Rows.{first-some, first-none}
use team_nivaran.Common.Ordered.{
  latest, earliest, latest-some, latest_max, latest-none, earliest-some, earliest_min,
  earliest-none,
}

module _ {Row : Type 0} where
  abbrev pub update_list : (Row → Bool) → (Row → Row) → List Row → Option (Row × List Row)
  update_list p f rows = elim (first p rows) [
    | none ↦ none
    | some s ↦ some (f s, update_where p f rows)
  ]

  pub update_list-some :
      (p : Row → Bool) (f : Row → Row) (rows : List Row) (r : Row) (rest : List Row)
      → update_list p f rows ≡ some (r, rest)
      → (rest ≡ update_where p f rows) × (s : Row) × (first p rows ≡ some s) × (r ≡ f s)
  update_list-some p f rows r rest h = elim (Option-cases (first p rows)) [
    | inl e ↦ ground arith
    | inr (s, e) ↦ (ground arith, s, e, ground arith)
  ]

  pub update_list-none :
      (p : Row → Bool) (f : Row → Row) (rows : List Row)
      → update_list p f rows ≡ none
      → count p rows ≡ 0
  update_list-none p f rows h = first-none p rows (ground arith)

  abbrev pub delete_list : (Row → Bool) → List Row → Option (List Row)
  delete_list p rows = elim (count p rows) [
    | zero ↦ none
    | suc n ↦ some (select (λ r. not (p r)) rows)
  ]

  pub delete_list-some :
      (p : Row → Bool) (rows rest : List Row)
      → delete_list p rows ≡ some rest
      → (rest ≡ select (λ r. not (p r)) rows) × (count p rows ≢ 0)
  delete_list-some p rows rest h = (ground arith, ground arith)

  pub delete_list-none :
      (p : Row → Bool) (rows : List Row) → delete_list p rows ≡ none → count p rows ≡ 0
  delete_list-none p rows h = ground arith

  abbrev pub upsert_list : (Row → Bool) → (Row → Row) → Row → List Row → List Row
  upsert_list p f new rows = elim (count p rows) [
    | zero ↦ rows ++ new ∷ []
    | suc n ↦ update_where p f rows
  ]

  pub upsert_list_old :
      (p : Row → Bool) (f : Row → Row) (new : Row) (rows : List Row)
      → count p rows ≢ 0
      → upsert_list p f new rows ≡ update_where p f rows
  upsert_list_old p f new rows h = ground arith

  pub upsert_list_new :
      (p : Row → Bool) (f : Row → Row) (new : Row) (rows : List Row)
      → count p rows ≡ 0
      → upsert_list p f new rows ≡ rows ++ new ∷ []
  upsert_list_new p f new rows h = rw (h, upsert_list)

  -- A table whose next row gets the given id.
  abbrev pub list_table : String → Table Row
  list_table id = record {
    find_first = first;
    find_latest = latest;
    find_earliest = earliest;
    find_latest_by = latest_by;
    update_many = λ p f rows. (count p rows, update_where p f rows);
    update = update_list;
    delete = delete_list;
    upsert = upsert_list;
    count_rows = count;
    new_id = λ rows. id;
    find_first_some = first-some;
    find_first_none = first-none;
    find_latest_some = latest-some;
    find_latest_max = latest_max;
    find_latest_none = latest-none;
    find_earliest_some = earliest-some;
    find_earliest_min = earliest_min;
    find_earliest_none = earliest-none;
    find_latest_by_some = latest_by-some;
    find_latest_by_none = latest_by-none;
    find_latest_by_null = latest_by_null;
    find_latest_by_max = latest_by_max;
    update_many_lem = λ p f rows. refl;
    update_some = update_list-some;
    update_none = update_list-none;
    delete_some = delete_list-some;
    delete_none = delete_list-none;
    upsert_old = upsert_list_old;
    upsert_new = upsert_list_new;
    count_rows_lem = λ p rows. refl;
  }
