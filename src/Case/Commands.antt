-- ===== src/Case/Commands.antt =====
-- The commands of case.service.ts, but for the synchronization with a Workflow. The unique
-- constraints on the number and the external reference of a case are left out.
use team_nivaran.Common.{
  ℕ, ◌+◌, String, Bool, ◌&&◌, ◌||◌, not, Option, none, some, List, [], ◌∷◌, ◌++◌, ◌==◌, eqb,
  if◌then◌else◌,
}
use team_nivaran.Common.Results.{
  Result, ok, err, conflict, internal, not_found, unprocessable, require, or_throw, ◌>>=◌, ◌>>◌,
  written,
}
use team_nivaran.Case.Model.{
  CaseStatus, draft, cancelled, DecisionCase, ExternalReference, CaseParty, CaseAssignment,
  StatusRow, IdempotencyRow, Db, Client, Call, event, case_of,
}
use team_nivaran.Case.Rows.{
  CreateInput, ReferenceInput, UpdateInput, cancel_row, is_final, is_version, keeps, opens,
  same_status, touch_row, update_row,
}

-- `hash(input)` and the case number, from a sequence of the database, are parameters.
module _ (prisma : Client) (hash : CreateInput → String) (case_number : Db → String) where
  open prisma use {case_table, reference_table, party_table, assignment_table, idempotency_table}

  abbrev pub new_case : CreateInput → Call → Db → DecisionCase
  new_case input call db = record {
    id = case_table.new_id db.cases;
    organization_id = call.organization_id;
    case_number = case_number db;
    external_reference = input.external_reference;
    case_type = input.case_type;
    title = input.title;
    status = draft;
    priority = input.priority;
    requested_amount_minor = input.requested_amount_minor;
    currency = input.currency;
    opened_at = none;
    decision_due_at = input.decision_due_at;
    closed_at = none;
    version = 1;
    created_by = call.user_id;
    updated_by = call.user_id;
  }

  abbrev keep_response :
      Option String → CreateInput → DecisionCase → Call → List IdempotencyRow → List IdempotencyRow
  keep_response none input created call rows = rows
  keep_response (some key) input created call rows =
      rows
      ++ record {
        organization_id = call.organization_id;
        idempotency_key = key;
        request_hash = hash input;
        response_body = created;
      }
        ∷ []

  -- The writes of `create`.
  unfoldable pub record_case : CreateInput → Option String → Call → Db → Db × DecisionCase
  record_case input key call db =
      let created = new_case input call db in
      (
        event created call "case.created" (record db {
          cases = db.cases ++ created ∷ [];
          history =
              db.history
              ++ record {
                case_id = created.id;
                from_status = none;
                to_status = draft;
                reason = none;
                changed_by = call.user_id;
                version = 1;
              }
                ∷ [];
          idempotency = keep_response key input created call db.idempotency;
        }),
        created,
      )

  abbrev pub is_kept : String → Call → IdempotencyRow → Bool
  is_kept key call r = r.organization_id == call.organization_id && r.idempotency_key == key

  abbrev prior_of : Option String → Call → Db → Option IdempotencyRow
  prior_of none call db = none
  prior_of (some key) call db =
      if key == "" then none else idempotency_table.find_first (is_kept key call) db.idempotency

  -- `if (key)`: an empty key is none.
  abbrev given : Option String → Option String
  given none = none
  given (some key) = if key == "" then none else some key

  unfoldable pub create : CreateInput → Option String → Call → Db → Db × Result DecisionCase
  create input key call db = elim (prior_of key call db) [
    | some r ↦
        if r.request_hash == hash input
        then (db, ok r.response_body)
        else (db, err (conflict "Idempotency key was used for a different request."))
    | none ↦ let (after, created) = record_case input (given key) call db in (after, ok created)
  ]

  -- The case as it is after a write by its primary key.
  abbrev read_back : String → List DecisionCase → Result DecisionCase
  read_back id cases = written (case_table.find_first (λ c. c.id == id) cases)

  abbrev status_row : DecisionCase → CaseStatus → Option String → String → ℕ → StatusRow
  status_row current to reason by version = record {
    case_id = current.id;
    from_status = some current.status;
    to_status = to;
    reason = reason;
    changed_by = by;
    version = version;
  }

  unfoldable pub update : String → UpdateInput → Call → Db → Result (Db × DecisionCase)
  update id input call db = do
    current ← case_of prisma id call.organization_id db
    require (eqb current.version input.version) (conflict "The case was updated by another user.")
    require (opens input.status current.status || keeps input.status current.status)
        (unprocessable "This status transition is workflow-owned or invalid.")
    let (changed, cases) =
        case_table.update_many (is_version id input.version call) (update_row input current call)
          db.cases
    require (eqb changed 1) (conflict "The case was updated by another user.")
    updated ← read_back id cases
    let after : Db = record db { cases = cases }
    if same_status updated.status current.status
        then ok (event updated call "case.updated" after, updated)
        else ok (
          event updated call "case.status.changed" (record after {
            history =
                db.history
                ++ status_row current updated.status none call.user_id (current.version + 1) ∷ [];
          }),
          updated,
        )

  unfoldable pub cancel :
      String → (version : ℕ) → (reason : String) → Call → Db → Result (Db × DecisionCase)
  cancel id version reason call db = do
    current ← case_of prisma id call.organization_id db
    require (eqb current.version version) (conflict "The case was updated by another user.")
    require (not (is_final current.status)) (unprocessable "The case cannot be cancelled.")
    let (changed, cases) =
        case_table.update_many (is_version id version call) (cancel_row call) db.cases
    require (eqb changed 1) (conflict "The case was updated by another user.")
    updated ← read_back id cases
    ok (
      event updated call "case.cancelled" (record db {
        cases = cases;
        history =
            db.history
            ++ status_row current cancelled (some reason) call.user_id updated.version ∷ [];
      }),
      updated,
    )

  -- The next version of the case, and the event of the change.
  abbrev pub touch : String → String → Call → Db → Result Db
  touch id event_type call db = do
    (updated, cases) ← written (case_table.update (λ c. c.id == id) (touch_row call) db.cases)
    ok (event updated call event_type (record db { cases = cases }))

  unfoldable pub add_party :
      String
      → (party_type display_name : String) → Option String
      → Call
      → Db
      → Result (Db × CaseParty)
  add_party id party_type display_name external_reference call db = do
    found ← case_of prisma id call.organization_id db
    let party : CaseParty = record {
      id = party_table.new_id db.parties;
      case_id = id;
      party_type = party_type;
      display_name = display_name;
      external_reference = external_reference;
      created_by = call.user_id;
    }
    after ← touch id "case.updated" call (record db { parties = db.parties ++ party ∷ [] })
    ok (after, party)

  unfoldable pub add_assignment :
      String → (user_id role : String) → Call → Db → Result (Db × CaseAssignment)
  add_assignment id user_id role call db = do
    found ← case_of prisma id call.organization_id db
    require
        (eqb
          (assignment_table.count_rows
            (λ a. a.case_id == id && a.user_id == user_id && a.role == role) db.assignments)
          0)
        (internal "Unique constraint failed.")
    let assignment : CaseAssignment = record {
      id = assignment_table.new_id db.assignments;
      case_id = id;
      user_id = user_id;
      role = role;
      created_by = call.user_id;
    }
    after ←
        touch id "case.assignment.changed" call
          (record db { assignments = db.assignments ++ assignment ∷ [] })
    ok (after, assignment)

  unfoldable pub remove_assignment :
      String → (assignment_id : String) → Call → Db → Result (Db × Unit {0})
  remove_assignment id assignment_id call db = do
    found ← case_of prisma id call.organization_id db
    assignment ←
        or_throw
          (assignment_table.find_first (λ a. a.id == assignment_id && a.case_id == id)
            db.assignments)
          (not_found "Assignment not found.")
    assignments ← written (assignment_table.delete (λ a. a.id == assignment_id) db.assignments)
    after ← touch id "case.assignment.changed" call (record db { assignments = assignments })
    ok (after, tt)

  unfoldable pub add_external_reference :
      String → ReferenceInput → Call → Db → Result (Db × ExternalReference)
  add_external_reference id input call db = do
    found ← case_of prisma id call.organization_id db
    require
        (eqb
          (reference_table.count_rows
            (λ r.
              r.organization_id == call.organization_id
              && r.source_system_id == input.source_system_id
              && r.reference_type == input.reference_type
              && r.reference_value == input.reference_value)
            db.references)
          0)
        (internal "Unique constraint failed.")
    let reference : ExternalReference = record {
      id = reference_table.new_id db.references;
      organization_id = call.organization_id;
      case_id = id;
      source_system_id = input.source_system_id;
      reference_type = input.reference_type;
      reference_value = input.reference_value;
      is_primary = input.is_primary;
      created_by = call.user_id;
    }
    ok (record db { references = db.references ++ reference ∷ [] }, reference)

  unfoldable pub remove_external_reference :
      String → (reference_id : String) → Call → Db → Result (Db × Unit {0})
  remove_external_reference id reference_id call db = do
    found ← case_of prisma id call.organization_id db
    reference ←
        or_throw
          (reference_table.find_first
            (λ r.
              r.id == reference_id && r.case_id == id && r.organization_id == call.organization_id)
            db.references)
          (not_found "External reference not found.")
    references ← written (reference_table.delete (λ r. r.id == reference_id) db.references)
    ok (record db { references = references }, tt)

  -- `resolveExternalReference`: the case that a reference names.
  unfoldable pub resolve_external_reference :
      (organization_id source_system_id reference_type reference_value : String)
      → Db
      → Result DecisionCase
  resolve_external_reference org source type value db = do
    found ←
        or_throw
          (reference_table.find_first
            (λ r.
              r.organization_id == org
              && r.source_system_id == source
              && r.reference_type == type
              && r.reference_value == value)
            db.references)
          (not_found "External reference not found.")
    written (case_table.find_first (λ c. c.id == found.case_id) db.cases)
