-- ===== src/Evidence/Jobs/Retries.antt =====
-- The retries of a job: their delay, and that they end.
use team_nivaran.Common.{
  ℕ, suc, ◌+◌, ◌*◌, ◌^◌, ◌≤◌, ◌<◌, String, ◌≡◌, ◌≢◌, ◌∙◌, ap, ◌⊎◌, ◌↔◌, inl, inr, Bool, true, false,
  Option, none, some, List, [], ◌∷◌, Memᴰ, arith, ◌==◌, eq_iff, Bool-cases, Option-cases,
}
use team_nivaran.Common.Lists.{length}
use team_nivaran.Common.Rows.{updated_row}
use team_nivaran.Common.Results.{ok, Result-cases}
use team_nivaran.Evidence.Model.{
  JobStatus, failed_job, EvidenceAsset, EvidenceVersion, ProcessingJob, Db, Client, Settings,
}
use team_nivaran.Evidence.Jobs.{
  is_waiting, is_candidate, lease_row, is_exhausted, backoff, fail_row, fail_target, record_failure,
}

-- What a failure makes of the job's row `after`: without attempts left it is never a candidate again;
-- otherwise it is none until the delay has passed, and one from the end of the delay, which doubles
-- with each attempt up to a minute.
pub record IsRescheduled (job : ProcessingJob) (now : ℕ) (after : ProcessingJob) : Type 0 where
  pub over : job.max_attempts ≤ job.attempts → (t : ℕ) → is_candidate t after ≡ false
  pub delayed :
      job.attempts < job.max_attempts
      → (t : ℕ) → t < now + backoff job.attempts
      → is_candidate t after ≡ false
  pub due :
      job.attempts < job.max_attempts
      → (t : ℕ) → now + backoff job.attempts ≤ t
      → is_candidate t after ≡ true
  pub capped : backoff job.attempts ≤ 60000
  pub doubled : 1000 * 2 ^ job.attempts ≤ 60000 → backoff job.attempts ≡ 1000 * 2 ^ job.attempts

fail_row-IsRescheduled :
    (job : ProcessingJob) (code : String) (now : ℕ) (j : ProcessingJob)
    → IsRescheduled job now (fail_row job code now j)
fail_row-IsRescheduled job code now j = record {
  over = λ h t. ground arith;
  delayed = λ h t early. ground arith;
  due = λ h t late. ground arith;
  capped = ground arith;
  doubled = λ small. ground arith;
}

fail_row_id :
    (job : ProcessingJob) (code : String) (now : ℕ) (j : ProcessingJob)
    → (fail_row job code now j).id ≡ j.id
fail_row_id job code now j = ground arith

module _ (prisma : Client) (settings : Settings) where
  fail_target_jobs :
      (job : ProcessingJob) (code : String) (asset : Option EvidenceAsset)
      (version : EvidenceVersion) (db after : Db)
      → fail_target prisma settings job code asset version db ≡ ok after
      → after.jobs ≡ db.jobs
  fail_target_jobs job code none version db after h = ground arith
  fail_target_jobs job code (some a) version db after h = ground arith

  record_failure_jobs :
      (job : ProcessingJob) (code : String) (asset : Option EvidenceAsset)
      (version : Option EvidenceVersion) (now : ℕ) (db after : Db) (u : Unit {0})
      (row : ProcessingJob) (jobs : List ProcessingJob)
      → record_failure prisma settings job code asset version now db ≡ ok (after, u)
      → prisma.job_table.update (λ k. k.id == job.id) (fail_row job code now) db.jobs
        ≡ some (row, jobs)
      → after.jobs ≡ jobs
  unfolding record_failure
  record_failure_jobs job code asset none now db after u row jobs h done = ground arith
  record_failure_jobs job code asset (some v) now db after u row jobs h done =
      elim (Bool-cases (is_exhausted job)) [
        | inr going ↦ ground arith
        | inl last ↦
            let noted : Db = record db { jobs = jobs } in
            elim (Result-cases (fail_target prisma settings job code asset v noted)) [
              | inl (e, refused) ↦ absurd (ground arith)
              | inr (finished, ended) ↦
                  let same = fail_target_jobs job code asset v noted finished ended in ground arith
            ]
      ]

  -- A recorded failure reschedules the job: without attempts left the job is never claimed again, and
  -- otherwise it can be claimed again from the end of its delay, and not before; the delay is
  -- `1000 * 2 ^ attempts`, and a minute where that is more. The other jobs stay as they are.
  pub record_failure-IsRescheduled :
      (job : ProcessingJob) (code : String) (asset : Option EvidenceAsset)
      (version : Option EvidenceVersion) (now : ℕ) (db after : Db) (u : Unit {0})
      → record_failure prisma settings job code asset version now db ≡ ok (after, u)
      → (j : ProcessingJob) → Memᴰ j after.jobs
      → ((j.id ≡ job.id) × IsRescheduled job now j) ⊎ ((j.id ≢ job.id) × Memᴰ j db.jobs)
  unfolding record_failure
  record_failure-IsRescheduled job code asset version now db after u h j m =
      let p = λ (k : ProcessingJob). k.id == job.id in
      elim (Option-cases (prisma.job_table.update p (fail_row job code now) db.jobs)) [
        | inl gone ↦ absurd (ground arith)
        | inr ((row, jobs), done) ↦
            let parts =
              prisma.job_table.update_some p (fail_row job code now) db.jobs row jobs done in
            let same : after.jobs ≡ jobs =
              record_failure_jobs job code asset version now db after u row jobs h done in
            elim (updated_row p (fail_row job code now) db.jobs j (rw (same, parts.0) at m)) [
              | inl (x, listed, met, at_x) ↦ inl (
                ap (λ (r : ProcessingJob). r.id) at_x
                    ∙ fail_row_id job code now x
                    ∙ (eq_iff x.id job.id).0 met,
                rw at_x (fail_row-IsRescheduled job code now x),
              )
              | inr (kept, other) ↦ inr (λ e. ground (arith, eq_iff j.id job.id), kept)
            ]
      ]

-- One attempt at a job that fails: the job is leased, and the failure recorded.
abbrev pub failed_attempt : Settings → String → ProcessingJob → ℕ → ProcessingJob
failed_attempt settings code j now =
    let claimed = lease_row settings now j in fail_row claimed code now claimed

-- Attempts that fail one after the other, at the given times.
abbrev pub failed_attempts : Settings → String → ProcessingJob → List ℕ → ProcessingJob
failed_attempts settings code j [] = j
failed_attempts settings code j (now ∷ times) =
    failed_attempts settings code (failed_attempt settings code j now) times

abbrev pub is_over : JobStatus → Bool
is_over failed_job = true
is_over _ = false

failed_attempt_counts :
    (settings : Settings) (code : String) (j : ProcessingJob) (now : ℕ)
    → ((failed_attempt settings code j now).attempts ≡ suc j.attempts)
      × ((failed_attempt settings code j now).max_attempts ≡ j.max_attempts)
failed_attempt_counts settings code j now = (ground arith, ground arith)

-- A job whose attempts all fail ends: after each attempt, up to the last that it has, it is over
-- exactly when that was the last one, and until then it waits for the next.
pub failed_attempts-end :
    (settings : Settings) (code : String) (j : ProcessingJob) (now : ℕ) (times : List ℕ)
    → j.attempts + suc (length times) ≤ j.max_attempts
    → ((is_over (failed_attempts settings code j (now ∷ times)).status ≡ true)
        ↔ (j.attempts + suc (length times) ≡ j.max_attempts))
      × (is_over (failed_attempts settings code j (now ∷ times)).status ≡ false
          → is_waiting (failed_attempts settings code j (now ∷ times)).status ≡ true)
failed_attempts-end settings code j now [] h =
    ((λ e. ground arith, λ e. ground arith), λ e. ground arith)
failed_attempts-end settings code j now (next ∷ times) h =
    let (counted, limit) = failed_attempt_counts settings code j now in
    let (iff, waits) =
      failed_attempts-end settings code (failed_attempt settings code j now) next times
        (omega (arith, counted, limit)) in
    (
      (λ e. omega (arith, counted, limit, iff.0 e), λ e. iff.1 (omega (arith, counted, limit, e))),
      waits,
    )
