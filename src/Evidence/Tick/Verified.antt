-- ===== src/Evidence/Tick/Verified.antt =====
-- That a tick makes a version available only after the checks.
use team_nivaran.Common.{ℕ, String, ◌≡◌, refl, inl, inr, none, some, arith, Option-cases, filled}
use team_nivaran.Common.Results.{ok, Result-cases}
use team_nivaran.Evidence.Model.{
  JobType, malware_scan, integrity_check, reconcile, ProcessingJob, Db, Client, Services, Settings,
}
use team_nivaran.Evidence.Jobs.{claim, fail}
use team_nivaran.Evidence.Worker.{hash_object}
use team_nivaran.Evidence.Worker.Kept.{Keeps, Keeps-same, fail_versions}
use team_nivaran.Evidence.Worker.Scanned.{
  IsExplained, IsExplained-Keeps, complete_versions, scan-IsExplained,
}
use team_nivaran.Evidence.Integrity.{
  Checked, record_check, check_failed, fail_check, check_version, checked_for, integrity,
}
use team_nivaran.Evidence.Tick.{run_job, tick}

module _ {Stream : Type 0} (prisma : Client) (services : Services Stream)
    (settings : Settings) where
  record_check_versions :
      (job : ProcessingJob) (c : Checked) (calculated : String) (now : ℕ) (db after : Db)
      (u : Unit {0})
      → record_check prisma services settings job c calculated now db ≡ ok (after, u)
      → after.versions ≡ db.versions
  unfolding record_check
  record_check_versions job c calculated now db after u h = ground arith

  pub fail_check_versions :
      (c : Checked) (now : ℕ) (db after : Db) (u : Unit {0})
      → fail_check prisma services settings c now db ≡ ok (after, u)
      → after.versions ≡ db.versions
  fail_check_versions c now db after u h = ground arith

  check_failed-Keeps :
      (job : ProcessingJob) (c : Checked) (now : ℕ) (db : Db)
      → Keeps db.versions (check_failed prisma services settings job c now db).0.versions
  unfolding check_failed
  check_failed-Keeps job c now db =
      let failed =
        fail prisma settings job "INTEGRITY_CHECK_FAILED" (some c.asset) (some c.version) now db in
      let kept =
        fail_versions prisma services settings job "INTEGRITY_CHECK_FAILED" (some c.asset)
          (some c.version) now db in
      elim (Result-cases failed.1) [
        | inl (e, refused) ↦ rw (check_failed, refused) kept
        | inr (u, done) ↦ elim (Result-cases (fail_check prisma services settings c now failed.0)) [
          | inl (e, refused) ↦ rw (check_failed, done, refused) kept
          | inr ((after, u'), ended) ↦
              let same = fail_check_versions c now failed.0 after u' ended in
              rw (check_failed, done, ended) (λ v m h. kept v (rw same at m) h)
        ]
      ]

  check_version-Keeps :
      (job : ProcessingJob) (c : Checked) (now : ℕ) (db : Db)
      → Keeps db.versions (check_version prisma services settings job c now db).0.versions
  unfolding check_version
  check_version-Keeps job c now db =
      elim (Result-cases (hash_object prisma services settings c.bucket c.key)) [
        | inl (e, refused) ↦ rw (check_version, refused) (check_failed-Keeps job c now db)
        | inr (calculated, hashed) ↦
            elim (Result-cases (record_check prisma services settings job c calculated now db)) [
              | inl (e, refused) ↦
                  rw (check_version, hashed, refused) (check_failed-Keeps job c now db)
              | inr ((after, u), done) ↦
                  rw (check_version, hashed, done)
                    (Keeps-same db.versions after.versions
                      (record_check_versions job c calculated now db after u done))
            ]
      ]

  integrity-Keeps :
      (job : ProcessingJob) (now : ℕ) (db : Db)
      → Keeps db.versions (integrity prisma services settings job now db).0.versions
  unfolding integrity
  integrity-Keeps job now db =
      let failed =
        λ (code : String). fail_versions prisma services settings job code none none now db in
      elim (Option-cases (filled job.integrity_check_id)) [
        | inl missing ↦ rw (integrity, missing) (failed "INTEGRITY_REFERENCE_MISSING")
        | inr (check_id, checked) ↦ elim (Option-cases (filled job.evidence_version_id)) [
          | inl missing ↦ rw (integrity, checked, missing) (failed "INTEGRITY_REFERENCE_MISSING")
          | inr (version_id, named) ↦
              elim (Option-cases
                (checked_for prisma services settings job check_id version_id db)) [
                  | inl missing ↦
                      rw (integrity, checked, named, missing)
                        (failed "INTEGRITY_VERSION_UNAVAILABLE")
                  | inr (c, ready) ↦
                      rw (integrity, checked, named, ready) (check_version-Keeps job c now db)
                ]
        ]
      ]

  claim_versions : (now : ℕ) (db : Db) → (claim prisma settings now db).0.versions ≡ db.versions
  unfolding claim
  claim_versions now db = ground arith

  run_job-IsExplained :
      (job : ProcessingJob) (now : ℕ) (db : Db)
      → IsExplained prisma services settings db.versions
          (run_job prisma services settings job now db).versions
  unfolding run_job
  run_job-IsExplained job now db = by_type job.job_type refl
    where
      by_type :
          (t : JobType)
          → job.job_type ≡ t
          → IsExplained prisma services settings db.versions
              (run_job prisma services settings job now db).versions
      by_type malware_scan e =
          rw (run_job, e) (scan-IsExplained prisma services settings job now db)
      by_type integrity_check e =
          rw (run_job, e)
            (IsExplained-Keeps prisma services settings db.versions _ (integrity-Keeps job now db))
      by_type reconcile e =
          rw (run_job, e)
            (IsExplained-Keeps prisma services settings db.versions _
              (Keeps-same db.versions _ (complete_versions prisma services settings job.id now db)))

  -- A tick of the worker makes a version available only when its upload was scanned as clean and its
  -- copy has the recorded size and the recorded hash: every version that is available afterwards was
  -- in the table before, or comes from one with the same id for which this is so, and names that copy.
  pub tick-IsExplained :
      (now : ℕ) (db : Db)
      → IsExplained prisma services settings db.versions
          (tick prisma services settings now db).versions
  unfolding tick
  tick-IsExplained now db =
      let claimed = claim prisma settings now db in
      let same = claim_versions now db in
      let unchanged =
        IsExplained-Keeps prisma services settings db.versions claimed.0.versions
          (Keeps-same db.versions claimed.0.versions same) in
      elim (Result-cases claimed.1) [
        | inl (e, refused) ↦ rw (tick, refused) unchanged
        | inr (found, ready) ↦ elim (Option-cases found) [
          | inl idle ↦ rw (tick, ready, idle) unchanged
          | inr (job, next) ↦
              rw (tick, ready, next)
                (λ v m h. rw same at (run_job-IsExplained job now claimed.0 v m h))
        ]
      ]
