-- ===== src/Case/Lifecycle/Commands.antt =====
-- Each command of the Case Service, with the synchronization, keeps to the life of a case.
use team_nivaran.Common.{
  ℕ, ◌+◌, String, ◌≡◌, ap, sym, refl, inl, inr, true, false, not, ◌&&◌, ◌||◌, Option, none, some,
  [], ◌∷◌, ◌++◌, arith, ◌==◌, eq_iff, Bool-cases, Option-cases, eq_self,
}
use team_nivaran.Common.Rows.{update_found, unique_row}
use team_nivaran.Common.Results.{Result, ok, err, settle, Result-cases}
use team_nivaran.Case.Model.{
  CaseStatus, DecisionCase, CaseParty, CaseAssignment, ExternalReference, Db, Client, Call, is_case,
  case_of,
}
use team_nivaran.Case.Rows.{CreateInput, UpdateInput, ReferenceInput, touch_row, same_status}
use team_nivaran.Case.Commands.{
  new_case, is_kept, record_case, create, update, cancel, touch, add_party, add_assignment,
  remove_assignment, add_external_reference, remove_external_reference,
}
use team_nivaran.Case.Sync.{
  SyncInput, SyncOutcome, is_allowed, is_shut, is_decided, is_operation, sync_row, apply_sync,
  internal_workflow_sync,
}
use team_nivaran.Case.Lifecycle.{
  Moves, synced, Evolves, Evolves-same, Evolves-update, Evolves-append, IsNext-touch,
}
use team_nivaran.Case.Lifecycle.Edits.{IsKeyed, update-Evolves, cancel-Evolves}

-- The commands that write.
pub data Command : Type 0 where
  to_create : CreateInput → Option String → Command
  to_update : String → UpdateInput → Command
  to_cancel : String → ℕ → String → Command
  to_add_party : String → String → String → Option String → Command
  to_add_assignment : String → String → String → Command
  to_remove_assignment : String → String → Command
  to_add_reference : String → ReferenceInput → Command
  to_remove_reference : String → String → Command
  to_sync : SyncInput → Command

-- A status that the synchronization lets through.
sync_step :
    (s t : CaseStatus)
    → is_allowed t ≡ true
    → (is_shut s || (is_decided s && not (is_decided t))) ≡ false
    → same_status s t ≡ false
    → Moves s t
sync_step s t allowed permitted moved =
    synced s t allowed (ground arith) (undecided s t permitted moved)
  where
    undecided :
        (s t : CaseStatus)
        → (is_shut s || (is_decided s && not (is_decided t))) ≡ false
        → same_status s t ≡ false
        → is_decided s ≡ false
    undecided s t p m = ground arith

module _ (prisma : Client) (hash : CreateInput → String) (case_number : Db → String) where
  touch-Evolves :
      (id event_type : String) (call : Call) (db after : Db)
      → touch prisma hash case_number id event_type call db ≡ ok after
      → Evolves db.cases after.cases
  touch-Evolves id event_type call db after h =
      elim (Option-cases (prisma.case_table.update (λ c. c.id == id) (touch_row call) db.cases)) [
        | inl gone ↦ absurd (ground arith)
        | inr ((r, rows), changed) ↦
            let same : after.cases ≡ rows = ground arith in
            rw (same, (update_found prisma.case_table _ _ db.cases r rows changed).0)
              (Evolves-update (λ c. c.id == id) (touch_row call) db.cases
                (λ b m met. IsNext-touch call b))
      ]

  abbrev with_party : String → String → String → Option String → Call → Db → Db
  with_party id type name reference call db = record db {
    parties =
        db.parties
        ++ record {
          id = prisma.party_table.new_id db.parties;
          case_id = id;
          party_type = type;
          display_name = name;
          external_reference = reference;
          created_by = call.user_id;
        }
          ∷ [];
  }

  add_party-Evolves :
      (id type name : String) (reference : Option String) (call : Call) (db after : Db)
      (p : CaseParty)
      → add_party prisma hash case_number id type name reference call db ≡ ok (after, p)
      → Evolves db.cases after.cases
  unfolding add_party
  add_party-Evolves id type name reference call db after p h =
      elim (Result-cases (
        touch prisma hash case_number id "case.updated" call
          (with_party id type name reference call db))) [
            | inl (e, refused) ↦ absurd (ground arith)
            | inr (t, done) ↦
                let same : after ≡ t = ground arith in
                rw same (
                  touch-Evolves id "case.updated" call (with_party id type name reference call db) t
                    done)
          ]

  -- A command that touches the case in the end, after writes to other tables.
  touched :
      (id type : String) (call : Call) (db between after : Db)
      → between.cases ≡ db.cases
      → touch prisma hash case_number id type call between ≡ ok after
      → Evolves db.cases after.cases
  touched id type call db between after same h =
      rw same at (touch-Evolves id type call between after h)

  add_assignment-Evolves :
      (id user role : String) (call : Call) (db after : Db) (a : CaseAssignment)
      → add_assignment prisma hash case_number id user role call db ≡ ok (after, a)
      → Evolves db.cases after.cases
  unfolding add_assignment
  add_assignment-Evolves id user role call db after a h =
      let between : Db = record db {
        assignments =
            db.assignments
            ++ record {
              id = prisma.assignment_table.new_id db.assignments;
              case_id = id;
              user_id = user;
              role = role;
              created_by = call.user_id;
            }
              ∷ [];
      } in
      elim (Result-cases
        (touch prisma hash case_number id "case.assignment.changed" call between)) [
          | inl (e, refused) ↦ absurd (ground arith)
          | inr (t, done) ↦
              let same : after ≡ t = ground arith in
              rw same (touched id "case.assignment.changed" call db between t refl done)
        ]

  remove_assignment-Evolves :
      (id key : String) (call : Call) (db after : Db)
      → remove_assignment prisma hash case_number id key call db ≡ ok (after, tt)
      → Evolves db.cases after.cases
  unfolding remove_assignment
  remove_assignment-Evolves id key call db after h =
      elim (Option-cases (prisma.assignment_table.delete (λ a. a.id == key) db.assignments)) [
        | inl gone ↦ absurd (ground arith)
        | inr (rest, deleted) ↦
            let between : Db = record db { assignments = rest } in
            elim (Result-cases
              (touch prisma hash case_number id "case.assignment.changed" call between)) [
                | inl (e, refused) ↦ absurd (ground arith)
                | inr (t, done) ↦
                    let same : after ≡ t = ground arith in
                    rw same (touched id "case.assignment.changed" call db between t refl done)
              ]
      ]

  add_reference-Evolves :
      (id : String) (input : ReferenceInput) (call : Call) (db after : Db) (r : ExternalReference)
      → add_external_reference prisma hash case_number id input call db ≡ ok (after, r)
      → Evolves db.cases after.cases
  unfolding add_external_reference
  add_reference-Evolves id input call db after r h =
      Evolves-same db.cases after.cases (ground arith)

  remove_reference-Evolves :
      (id key : String) (call : Call) (db after : Db)
      → remove_external_reference prisma hash case_number id key call db ≡ ok (after, tt)
      → Evolves db.cases after.cases
  unfolding remove_external_reference
  remove_reference-Evolves id key call db after h = Evolves-same db.cases after.cases (ground arith)

  create-Evolves :
      (input : CreateInput) (key : Option String) (call : Call) (db : Db)
      → Evolves db.cases (create prisma hash case_number input key call db).0.cases
  unfolding create record_case
  create-Evolves input none call db =
      Evolves-append db.cases (new_case prisma hash case_number input call db)
        (record { status = refl; version = refl })
  create-Evolves input (some key) call db =
      let added =
        Evolves-append db.cases (new_case prisma hash case_number input call db)
          (record { status = refl; version = refl }) in
      elim (Bool-cases (key == "")) [
        | inl empty ↦ rw (create, empty, record_case) added
        | inr named ↦
            elim (Option-cases (
              prisma.idempotency_table.find_first (is_kept prisma hash case_number key call)
                db.idempotency)) [
                  | inl new ↦ rw (create, named, new, record_case) added
                  | inr (r, kept) ↦ elim (Bool-cases (r.request_hash == hash input)) [
                    | inl same ↦
                        rw (create, named, kept, same) (Evolves-same db.cases db.cases refl)
                    | inr other ↦
                        rw (create, named, kept, other) (Evolves-same db.cases db.cases refl)
                  ]
                ]
      ]

  apply_sync-Evolves :
      (input : SyncInput) (db after : Db) (o : SyncOutcome)
      → IsKeyed prisma hash case_number db
      → is_allowed input.target_status ≡ true
      → apply_sync prisma input db ≡ ok (after, o)
      → Evolves db.cases after.cases
  unfolding apply_sync
  apply_sync-Evolves input db after o keyed allowed h =
      elim (Option-cases
        (prisma.case_table.find_first (is_case input.case_id input.organization_id) db.cases)) [
          | inl gone ↦ absurd (ground arith)
          | inr (current, found) ↦
              elim (Bool-cases (same_status current.status input.target_status)) [
                | inl there ↦ Evolves-same db.cases after.cases (ground arith)
                | inr moved ↦
                    let f = sync_row input (current.version + 1) in
                    elim (Option-cases
                      (prisma.case_table.update (λ c. c.id == current.id) f db.cases)) [
                        | inl gone ↦ absurd (ground arith)
                        | inr ((r, rows), changed) ↦
                            let same : after.cases ≡ rows = ground arith in
                            let (met, listed) =
                              prisma.case_table.find_first_some
                                (is_case input.case_id input.organization_id) db.cases current
                                found in
                            let step =
                              sync_step current.status input.target_status allowed (ground arith)
                                moved in
                            rw
                              (same, (update_found prisma.case_table _ _ db.cases r rows changed).0)
                              (Evolves-update (λ c. c.id == current.id) f db.cases
                                (λ b m named.
                                  let is_current =
                                    unique_row (λ c. c.id == b.id) db.cases b current (keyed b m) m
                                      (eq_self b.id) listed
                                      ((eq_iff current.id b.id).1
                                        (sym ((eq_iff b.id current.id).0 named))) in
                                  record {
                                    id = refl;
                                    organization = refl;
                                    version =
                                        ap (λ (x : DecisionCase). x.version + 1) (sym is_current);
                                    status = inr (rw is_current step);
                                  }))
                      ]
              ]
        ]

  sync-Evolves :
      (input : SyncInput) (db : Db)
      → IsKeyed prisma hash case_number db
      → Evolves db.cases (internal_workflow_sync prisma input db).0.cases
  unfolding internal_workflow_sync
  sync-Evolves input db keyed =
      let same = Evolves-same db.cases db.cases refl in
      elim (Bool-cases (is_allowed input.target_status)) [
        | inr refused ↦ rw (internal_workflow_sync, refused) same
        | inl allowed ↦
            elim (Option-cases
              (prisma.inbox_table.find_first (is_operation prisma input.operation_id) db.inbox)) [
                | inl new ↦ elim (Result-cases (apply_sync prisma input db)) [
                  | inl (e, refused) ↦ rw (internal_workflow_sync, allowed, new, refused) same
                  | inr ((after, o), done) ↦
                      rw (internal_workflow_sync, allowed, new, done)
                        (apply_sync-Evolves input db after o keyed allowed done)
                ]
                | inr (r, seen) ↦
                    elim (Result-cases (case_of prisma input.case_id input.organization_id db)) [
                      | inl (e, gone) ↦ rw (internal_workflow_sync, allowed, seen, gone) same
                      | inr (c, found) ↦ rw (internal_workflow_sync, allowed, seen, found) same
                    ]
              ]
      ]

  -- The database after a command; one that throws leaves it as it was.
  abbrev commit : {A : Type 0} → Db → Result (Db × A) → Db
  commit db m = (settle db m).0

  abbrev pub run : Command → Call → Db → Db
  run (to_create input key) call db = (create prisma hash case_number input key call db).0
  run (to_update id input) call db = commit db (update prisma hash case_number id input call db)
  run (to_cancel id version reason) call db =
      commit db (cancel prisma hash case_number id version reason call db)
  run (to_add_party id type name reference) call db =
      commit db (add_party prisma hash case_number id type name reference call db)
  run (to_add_assignment id user role) call db =
      commit db (add_assignment prisma hash case_number id user role call db)
  run (to_remove_assignment id key) call db =
      commit db (remove_assignment prisma hash case_number id key call db)
  run (to_add_reference id input) call db =
      commit db (add_external_reference prisma hash case_number id input call db)
  run (to_remove_reference id key) call db =
      commit db (remove_external_reference prisma hash case_number id key call db)
  run (to_sync input) call db = (internal_workflow_sync prisma input db).0

  commit-Evolves :
      {A : Type 0} (db : Db) (m : Result (Db × A))
      → ((after : Db) (a : A) → m ≡ ok (after, a) → Evolves db.cases after.cases)
      → Evolves db.cases (commit db m).cases
  commit-Evolves db (err e) h = Evolves-same db.cases db.cases refl
  commit-Evolves db (ok (after, a)) h = h after a refl

  -- Every command keeps to the life of a case: afterwards each case is as it was, is the next
  -- version of what it was, in the same status or moved as the life allows, or is a new draft in its
  -- first version. The id is the primary key of the table.
  pub run-Evolves :
      (c : Command) (call : Call) (db : Db)
      → IsKeyed prisma hash case_number db
      → Evolves db.cases (run c call db).cases
  run-Evolves (to_create input key) call db keyed = create-Evolves input key call db
  run-Evolves (to_update id input) call db keyed =
      commit-Evolves db _
        (λ after c h. update-Evolves prisma hash case_number id input call db after c keyed h)
  run-Evolves (to_cancel id version reason) call db keyed = commit-Evolves db _ (λ after c h.
      cancel-Evolves prisma hash case_number id version reason call db after c keyed h)
  run-Evolves (to_add_party id type name reference) call db keyed =
      commit-Evolves db _ (add_party-Evolves id type name reference call db)
  run-Evolves (to_add_assignment id user role) call db keyed =
      commit-Evolves db _ (add_assignment-Evolves id user role call db)
  run-Evolves (to_remove_assignment id key) call db keyed =
      commit-Evolves db _ (λ after a h. remove_assignment-Evolves id key call db after h)
  run-Evolves (to_add_reference id input) call db keyed =
      commit-Evolves db _ (add_reference-Evolves id input call db)
  run-Evolves (to_remove_reference id key) call db keyed =
      commit-Evolves db _ (λ after a h. remove_reference-Evolves id key call db after h)
  run-Evolves (to_sync input) call db keyed = sync-Evolves input db keyed
