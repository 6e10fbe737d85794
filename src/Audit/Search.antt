-- ===== src/Audit/Search.antt =====
-- The pages of a search (`where` and `search` of audit.service.ts), for a cursor that has been
-- decoded to its time and id (Audit/Cursor).
pub mod Pages
use team_nivaran.Common.{
  ℕ, zero, suc, ◌+◌, String, Bool, true, false, ◌&&◌, ◌||◌, Option, none, some, List, [], ◌∷◌, ◌==◌,
  ltb, leb, eqb, filled, if◌then◌else◌,
}
use team_nivaran.Common.Lists.{length}
use team_nivaran.Audit.Patterns.{Outcome}
use team_nivaran.Audit.Model.{AuditRecord}
use team_nivaran.Audit.Chain.{outcome_text, take_rows}

pub data Sort : Type 0 where
  occurred_desc occurred_asc : Sort

-- `AuditSearch`, without the cursor.
pub record Filters : Type 0 where
  pub from_time : Option ℕ
  pub to_time : Option ℕ
  pub event_type : Option String
  pub source_service : Option String
  pub outcome : Option Outcome
  pub classification : Option String
  pub resource_type : Option String
  pub resource_id : Option String
  pub correlation_id : Option String
  pub text : Option String
  pub sort : Sort

-- The place after which a page starts.
pub record Boundary : Type 0 where
  pub occurred_at : ℕ
  pub id : String

pub record Page : Type 0 where
  pub items : List AuditRecord
  pub next : Option Boundary

abbrev not_before : Option ℕ → ℕ → Bool
not_before none t = true
not_before (some from_time) t = leb from_time t

abbrev not_after : Option ℕ → ℕ → Bool
not_after none t = true
not_after (some to_time) t = leb t to_time

abbrev is_equal : Option String → String → Bool
is_equal value text = elim (filled value) [ none ↦ true | some v ↦ text == v ]

abbrev is_outcome : Option Outcome → Outcome → Bool
is_outcome none o = true
is_outcome (some p) o = outcome_text o == outcome_text p

abbrev place_of : AuditRecord → Boundary
place_of r = record { occurred_at = r.occurred_at; id = r.id }

abbrev pub last_place : List AuditRecord → Option Boundary
last_place [] = none
last_place (r ∷ []) = some (place_of r)
last_place (r ∷ s ∷ rows) = last_place (s ∷ rows)

-- The order of ids in the database, and its test whether a text contains another in any case.
module _ (id_before : String → String → Bool)
    (contains_insensitive : (column text : String) → Bool) where
  abbrev has_text : Option String → AuditRecord → Bool
  has_text value r = elim (filled value) [
    | none ↦ true
    | some text ↦
        contains_insensitive r.event_type text
        || contains_insensitive r.source_service text
        || contains_insensitive r.resource_id text
        || contains_insensitive r.actor_id text
  ]

  -- `where`.
  unfoldable pub is_match : String → Filters → AuditRecord → Bool
  is_match organization f r =
      r.organization_id == organization
      && not_before f.from_time r.occurred_at
      && not_after f.to_time r.occurred_at
      && is_equal f.event_type r.event_type
      && is_equal f.source_service r.source_service
      && is_outcome f.outcome r.outcome
      && is_equal f.classification r.classification
      && is_equal f.resource_type r.resource_type
      && is_equal f.resource_id r.resource_id
      && is_equal f.correlation_id r.correlation_id
      && has_text f.text r

  -- The condition `boundary`.
  unfoldable pub is_after : Sort → Boundary → AuditRecord → Bool
  is_after occurred_desc b r =
      ltb r.occurred_at b.occurred_at || (eqb r.occurred_at b.occurred_at && id_before r.id b.id)
  is_after occurred_asc b r =
      ltb b.occurred_at r.occurred_at || (eqb r.occurred_at b.occurred_at && id_before b.id r.id)

  abbrev pub starts_after : Sort → Option Boundary → AuditRecord → Bool
  starts_after sort none r = true
  starts_after sort (some b) r = is_after sort b r

  -- `findMany({ where, orderBy: [{ occurredAt }, { id }], take })` is a parameter.
  module _ (find_many : (AuditRecord → Bool) → Sort → ℕ → List AuditRecord → List AuditRecord) where
    unfoldable pub search :
        String → Filters → (page_size : ℕ) → Option Boundary → List AuditRecord → Page
    search organization f page_size boundary records =
        let rows =
          find_many (λ r. is_match organization f r && starts_after f.sort boundary r) f.sort
            (page_size + 1) records in
        let page = take_rows page_size rows in
        record {
          items = page;
          next = if ltb page_size (length rows) then last_place page else none;
        }
