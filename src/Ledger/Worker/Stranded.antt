-- ===== src/Ledger/Worker/Stranded.antt =====
-- A tick touches only the request that it leases.
use team_nivaran.Common.{
  ℕ, ◌+◌, ◌≤◌, String, ◌≡◌, refl, sym, subst, Bool, false, ◌&&◌, List, [], ◌∷◌, Memᴰ, none, some,
  arith, ◌==◌, eq_iff, eq_self, inl, inr, Bool-cases, Option-cases, eqb,
}
use team_nivaran.Common.Lists.{count, update_where, Memᴰ-cons}
use team_nivaran.Common.Rows.{update_found, unique_row}
use team_nivaran.Common.Results.{Result, ok, settle, Result-cases}
use team_nivaran.Ledger.Model.{
  ProofState, submitting, ProofRequest, Db, Client, ProviderError, Answer, anchored, refused,
  broken, Provider, Settings,
}
use team_nivaran.Ledger.Requests.{
  is_candidate, may_lease, lease_row, begin_row, submission_failed, is_finalized, is_confirmed,
}
use team_nivaran.Ledger.Worker.{
  acquire, confirm_existing, begin_attempt, record_submission, record_failure, conclude, submit,
  bound, process_with, process, tick,
}
use team_nivaran.Ledger.Worker.Outcomes.{record_failure-IsFailed, record_submission-IsAnchored}

-- The requests with another id are still there.
abbrev Kept : String → List ProofRequest → List ProofRequest → Type 0
Kept id before after = (r : ProofRequest) → (r.id == id) ≡ false → Memᴰ r before → Memᴰ r after

update_where-Kept :
    (p : ProofRequest → Bool) (f : ProofRequest → ProofRequest) (id : String)
    (rows : List ProofRequest)
    → ((r : ProofRequest) → (r.id == id) ≡ false → p r ≡ false)
    → Kept id rows (update_where p f rows)
update_where-Kept p f id [] narrow r other m = elim m [ ]
update_where-Kept p f id (x ∷ xs) narrow r other m = elim (Memᴰ-cons m) [
  | inl here ↦ let kept : p x ≡ false = rw (← here) (narrow r other) in rw kept (Memᴰ.head here)
  | inr there ↦ Memᴰ.tail (update_where-Kept p f id xs narrow r other there)
]

module _ (prisma : Client) (active : Provider) (settings : Settings) (now : ℕ) where
  acquire-Kept :
      (id : String) (rows : List ProofRequest)
      → Kept id rows (acquire prisma active settings id now rows).1
  unfolding acquire
  acquire-Kept id rows = rw (prisma.request_table.update_many_lem) (
      update_where-Kept (λ r. r.id == id && may_lease settings.owner now r) (lease_row settings now)
        id rows (λ r other. ground arith))

  confirm_existing-Kept :
      (id : String) (db after : Db)
      → confirm_existing prisma active settings id now db ≡ ok (after, tt)
      → Kept id db.requests after.requests
  unfolding confirm_existing
  confirm_existing-Kept id db after h =
      elim (Option-cases (
        prisma.request_table.update (λ r. r.id == id)
          (λ r. record r {
            state = ProofState.confirmed;
            confirmed_at = some now;
            lease_owner = none;
            lease_expires_at = none;
            row_version = r.row_version + 1;
          })
          db.requests)) [
            | inl gone ↦ absurd (ground arith)
            | inr ((s, rows), changed) ↦
                let same : after.requests ≡ rows = ground arith in
                rw (same, (update_found prisma.request_table _ _ db.requests s rows changed).0)
                  (update_where-Kept _ _ id db.requests (λ r other. other))
          ]

  begin_attempt-Kept :
      (request : ProofRequest) (db after : Db) (o : Result (Unit {0}))
      → begin_attempt prisma active settings request db ≡ (after, o)
      → Kept request.id db.requests after.requests
  unfolding begin_attempt
  begin_attempt-Kept request db after o h =
      elim (Option-cases
        (prisma.request_table.update (λ r. r.id == request.id) begin_row db.requests)) [
          | inl gone ↦
              let same : after.requests ≡ db.requests = ground arith in rw same (λ r other m. m)
          | inr ((s, rows), changed) ↦
              let same : after.requests ≡ rows = ground arith in
              rw (same, (update_found prisma.request_table _ _ db.requests s rows changed).0)
                (update_where-Kept _ _ request.id db.requests (λ r other. other))
        ]

  fail-Kept :
      (request : ProofRequest) (e : ProviderError) (db after : Db) (o : Result (Unit {0}))
      → (settle db (record_failure prisma active settings request e now db)) ≡ (after, o)
      → Kept request.id db.requests after.requests
  fail-Kept request e db after o h =
      elim (Result-cases (record_failure prisma active settings request e now db)) [
        | inl (x, broke) ↦
            let same : after.requests ≡ db.requests = ground arith in rw same (λ r other m. m)
        | inr ((t, done), wrote) ↦
            let same : after.requests ≡ t.requests = ground arith in
            rw
              (same, (record_failure-IsFailed prisma active settings request now e db t wrote).rows)
              (update_where-Kept _ _ request.id db.requests (λ r other. other))
      ]

  conclude-Kept :
      (request : ProofRequest) (a : Answer) (db after : Db) (o : Result (Unit {0}))
      → conclude prisma active settings request a now db ≡ (after, o)
      → Kept request.id db.requests after.requests
  unfolding conclude
  conclude-Kept request (refused e) db after o h = fail-Kept request e db after o h
  conclude-Kept request broken db after o h = fail-Kept request submission_failed db after o h
  conclude-Kept request (anchored s) db after o h =
      elim (Result-cases (record_submission prisma active settings request s now db)) [
        | inl (x, broke) ↦
            fail-Kept request submission_failed db after o (rw (conclude, broke) at h)
        | inr ((t, done), wrote) ↦
            let same : after.requests ≡ t.requests = ground arith in
            rw
              (
                same,
                (record_submission-IsAnchored prisma active settings request now s db t wrote).rows,
              )
              (update_where-Kept _ _ request.id db.requests (λ r other. other))
      ]

  submit-Kept :
      (request : ProofRequest) (db after : Db) (o : Result (Unit {0}))
      → submit prisma active settings active request now db ≡ (after, o)
      → Kept request.id db.requests after.requests
  unfolding submit
  submit-Kept request db after o h =
      let begun = begin_attempt prisma active settings request db in
      let first = begin_attempt-Kept request db begun.0 begun.1 refl in
      elim (Result-cases begun.1) [
        | inl (e, failed) ↦
            let same : after.requests ≡ begun.0.requests = ground arith in rw same first
        | inr (done, fine) ↦
            let last =
              conclude-Kept request (active.submit request) begun.0 after o
                (rw (submit, fine) at h) in
            λ r other m. last r other (first r other m)
      ]

  process_with-Kept :
      (request : ProofRequest) (db after : Db) (o : Result (Unit {0}))
      → process_with prisma active settings active request now db ≡ (after, o)
      → Kept request.id db.requests after.requests
  unfolding process_with
  process_with-Kept request db after o h =
      elim (Option-cases (bound prisma active settings request db)) [
        | inl free ↦ submit-Kept request db after o (rw (process_with, free) at h)
        | inr ((id, reference), found) ↦ elim (Result-cases (active.get_transaction id reference)) [
          | inl (e, failed) ↦
              let same : after.requests ≡ db.requests = ground arith in rw same (λ r other m. m)
          | inr (state, known) ↦ elim (Bool-cases (is_finalized state)) [
            | inr open_still ↦
                submit-Kept request db after o (rw (process_with, found, known, open_still) at h)
            | inl final ↦
                elim (Result-cases (confirm_existing prisma active settings request.id now db)) [
                  | inl (e, broke) ↦
                      let same : after.requests ≡ db.requests = ground arith in
                      rw same (λ r other m. m)
                  | inr ((t, done), wrote) ↦
                      let same : after.requests ≡ t.requests = ground arith in
                      rw same (confirm_existing-Kept request.id db t wrote)
                ]
          ]
        ]
      ]

  process-Kept :
      (id : String) (db after : Db) (o : Result (Unit {0}))
      → process prisma active settings id now db ≡ (after, o)
      → Kept id db.requests after.requests
  unfolding process
  process-Kept id db after o h =
      elim (Option-cases (prisma.request_table.find_first (λ r. r.id == id) db.requests)) [
        | inl gone ↦
            let same : after.requests ≡ db.requests = ground arith in rw same (λ r other m. m)
        | inr (request, found) ↦
            let (met, listed) =
              prisma.request_table.find_first_some (λ r. r.id == id) db.requests request found in
            let names = (eq_iff request.id id).0 met in
            elim (Bool-cases (is_confirmed request.state)) [
              | inl final ↦
                  let same : after.requests ≡ db.requests = ground arith in rw same (λ r other m. m)
              | inr more ↦ elim (Bool-cases (request.provider_type == active.provider_type)) [
                | inr foreign ↦
                    let same : after.requests ≡ db.requests = ground arith in
                    rw same (λ r other m. m)
                | inl ours ↦
                    subst (λ i. Kept i db.requests after.requests) names
                      (process_with-Kept request db after o (ground arith))
              ]
            ]
      ]

  -- A request that is in the state SUBMITTING before a tick is left as it is by that tick, of any
  -- worker at any time. The id is the primary key of the table.
  pub tick_stranded :
      (db : Db) (r : ProofRequest)
      → count (λ s. s.id == r.id) db.requests ≤ 1
      → Memᴰ r db.requests
      → r.state ≡ submitting
      → Memᴰ r (tick prisma active settings now db).0.requests
  unfolding tick
  tick_stranded db r unique m busy =
      elim (Option-cases (
        prisma.request_table.find_earliest (is_candidate settings.owner now) (λ r. r.requested_at)
          db.requests)) [
            | inl idle ↦ rw (tick, idle) m
            | inr (c, found) ↦
                let (met, listed) =
                  prisma.request_table.find_earliest_some (is_candidate settings.owner now)
                    (λ r. r.requested_at) db.requests c found in
                elim (Bool-cases (r.id == c.id)) [
                  | inl same_id ↦
                      let same =
                        unique_row (λ s. s.id == r.id) db.requests c r unique listed
                          ((eq_iff c.id r.id).1 (sym ((eq_iff r.id c.id).0 same_id))) m
                          (eq_self r.id) in
                      absurd (ground (arith, same))
                  | inr other ↦
                      let leased = acquire prisma active settings c.id now db.requests in
                      let kept = acquire-Kept c.id db.requests r other m in
                      let run =
                        process prisma active settings c.id now
                          (record db { requests = leased.1 }) in
                      elim (Bool-cases (eqb leased.0 1)) [
                        | inl mine ↦
                            rw (tick, found, mine)
                              (process-Kept c.id (record db { requests = leased.1 }) run.0 run.1
                                refl r other kept)
                        | inr taken ↦ rw (tick, found, taken) kept
                      ]
                ]
          ]
