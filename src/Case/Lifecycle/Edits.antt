-- ===== src/Case/Lifecycle/Edits.antt =====
-- Updates and cancellations keep to the life of a case.
use team_nivaran.Common.{
  ℕ, ◌+◌, ◌≤◌, String, ◌≡◌, ◌∙◌, ap, sym, refl, ◌⊎◌, inl, inr, true, false, ◌||◌, some, Memᴰ, arith,
  ◌==◌, eq_iff, Bool-cases, Option-cases, eq_self,
}
use team_nivaran.Common.Lists.{count, update_where}
use team_nivaran.Common.Rows.{unique_row}
use team_nivaran.Common.Results.{ok}
use team_nivaran.Case.Model.{
  CaseStatus, draft, open_case, decided, DecisionCase, Db, Client, Call, is_case,
}
use team_nivaran.Case.Rows.{
  CreateInput, UpdateInput, Change, keep, set, AskedStatus, ask_draft, ask_open, opens, keeps,
  next_status, update_row, cancel_row, is_final, is_version,
}
use team_nivaran.Case.Commands.{update, cancel}
use team_nivaran.Case.Lifecycle.{Moves, opened, ended, Evolves, Evolves-update}

-- A status that `update` lets through.
opens_step :
    (s : Change AskedStatus) (old : CaseStatus) → opens s old ≡ true → Moves old (next_status s old)
opens_step keep old h = cc
opens_step (set ask_draft) old h = cc
opens_step (set ask_open) draft h = opened
opens_step (set ask_open) open_case h = cc
opens_step (set ask_open) CaseStatus.evidence_collection h = cc
opens_step (set ask_open) CaseStatus.under_review h = cc
opens_step (set ask_open) CaseStatus.decision_pending h = cc
opens_step (set ask_open) decided h = cc
opens_step (set ask_open) CaseStatus.closed h = cc
opens_step (set ask_open) CaseStatus.cancelled h = cc

keeps_step :
    (s : Change AskedStatus) (old : CaseStatus) → keeps s old ≡ true → next_status s old ≡ old
keeps_step keep old h = refl
keeps_step (set ask_draft) old h = ground arith
keeps_step (set ask_open) old h = ground arith

update_step :
    (s : Change AskedStatus) (old : CaseStatus)
    → (opens s old || keeps s old) ≡ true
    → (next_status s old ≡ old) ⊎ Moves old (next_status s old)
update_step s old h = elim (Bool-cases (opens s old)) [
  | inl met ↦ inr (opens_step s old met)
  | inr other ↦ inl (keeps_step s old (ground arith))
]

module _ (prisma : Client) (hash : CreateInput → String) (case_number : Db → String) where
  update_parts :
      (id : String) (input : UpdateInput) (call : Call) (db after : Db) (c : DecisionCase)
      → update prisma hash case_number id input call db ≡ ok (after, c)
      → (current : DecisionCase) × (prisma.case_table.find_first
            (is_case id call.organization_id)
            db.cases
          ≡ some current)
        × ((opens input.status current.status || keeps input.status current.status) ≡ true)
        × (current.version ≡ input.version)
        × (after.cases
            ≡ update_where
                (is_version id input.version call)
                (update_row input current call)
                db.cases)
  unfolding update
  update_parts id input call db after c h =
      elim (Option-cases
        (prisma.case_table.find_first (is_case id call.organization_id) db.cases)) [
          | inl gone ↦ absurd (ground arith)
          | inr (current, found) ↦
              let rows =
                prisma.case_table.update_many_lem (is_version id input.version call)
                  (update_row input current call) db.cases in
              (current, found, ground arith, ground arith, ground (arith, rows))
        ]

  cancel_parts :
      (id : String) (version : ℕ) (reason : String) (call : Call) (db after : Db) (c : DecisionCase)
      → cancel prisma hash case_number id version reason call db ≡ ok (after, c)
      → (current : DecisionCase) × (prisma.case_table.find_first
            (is_case id call.organization_id)
            db.cases
          ≡ some current)
        × (is_final current.status ≡ false)
        × (after.cases ≡ update_where (is_version id version call) (cancel_row call) db.cases)
  unfolding cancel
  cancel_parts id version reason call db after c h =
      elim (Option-cases
        (prisma.case_table.find_first (is_case id call.organization_id) db.cases)) [
          | inl gone ↦ absurd (ground arith)
          | inr (current, found) ↦
              let rows =
                prisma.case_table.update_many_lem (is_version id version call) (cancel_row call)
                  db.cases in
              (current, found, ground arith, ground (arith, rows))
        ]

  -- The key of the table: no two cases have one id.
  abbrev pub IsKeyed : Db → Type 0
  IsKeyed db = (b : DecisionCase) → Memᴰ b db.cases → count (λ c. c.id == b.id) db.cases ≤ 1

  same_case :
      (db : Db) (id org : String) (b current : DecisionCase)
      → IsKeyed db
      → Memᴰ b db.cases
      → (b.id == id) ≡ true
      → prisma.case_table.find_first (is_case id org) db.cases ≡ some current
      → b ≡ current
  same_case db id org b current keyed m named found =
      let (met, listed) =
        prisma.case_table.find_first_some (is_case id org) db.cases current found in
      let at_b = (eq_iff b.id id).0 named in
      let at_current = (eq_iff current.id id).0 (ground arith) in
      unique_row (λ c. c.id == b.id) db.cases b current (keyed b m) m (eq_self b.id) listed
        ((eq_iff current.id b.id).1 (at_current ∙ sym at_b))

  pub update-Evolves :
      (id : String) (input : UpdateInput) (call : Call) (db after : Db) (c : DecisionCase)
      → IsKeyed db
      → update prisma hash case_number id input call db ≡ ok (after, c)
      → Evolves db.cases after.cases
  update-Evolves id input call db after c keyed h =
      let (current, found, allowed, seen, rows) = update_parts id input call db after c h in
      rw rows (
        Evolves-update (is_version id input.version call) (update_row input current call) db.cases
          (λ b m met.
            let same =
              same_case db id call.organization_id b current keyed m (ground arith) found in
            record {
              id = refl;
              organization = refl;
              version = ap (λ (x : DecisionCase). x.version + 1) (sym same);
              status = update_step input.status b.status (rw same allowed);
            }))

  pub cancel-Evolves :
      (id : String) (version : ℕ) (reason : String) (call : Call) (db after : Db) (c : DecisionCase)
      → IsKeyed db
      → cancel prisma hash case_number id version reason call db ≡ ok (after, c)
      → Evolves db.cases after.cases
  cancel-Evolves id version reason call db after c keyed h =
      let (current, found, running, rows) = cancel_parts id version reason call db after c h in
      rw rows (
        Evolves-update (is_version id version call) (cancel_row call) db.cases (λ b m met.
          let same = same_case db id call.organization_id b current keyed m (ground arith) found in
          record {
            id = refl;
            organization = refl;
            version = refl;
            status = inr (ended b.status (rw same running));
          }))
