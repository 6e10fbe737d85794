-- ===== src/Evidence/Tick/Retired.antt =====
-- What a failing check of an available version leaves.
use team_nivaran.Common.{
  ℕ, ◌≤◌, String, ◌≡◌, refl, inl, inr, Bool, true, ◌&&◌, Option, some, arith, ◌==◌, Option-cases,
  filled,
}
use team_nivaran.Common.Lists.{count, count-update_where_zero}
use team_nivaran.Common.Results.{Exception, ok, err, Result-cases}
use team_nivaran.Evidence.Model.{
  EvidenceVersion, EvidenceAsset, ProcessingJob, Db, Client, Services, Settings,
}
use team_nivaran.Evidence.Jobs.{is_exhausted, fail_version, record_failure, fail}
use team_nivaran.Evidence.Rows.{is_available}
use team_nivaran.Evidence.Worker.{hash_object}
use team_nivaran.Evidence.Tick.Verified.{fail_check_versions}
use team_nivaran.Evidence.Integrity.{
  Checked, checked_for, fail_check, check_failed, check_version, integrity,
}

module _ {Stream : Type 0} (prisma : Client) (services : Services Stream)
    (settings : Settings) where
  abbrev pub is_available_of : String → EvidenceVersion → Bool
  is_available_of id v = v.id == id && is_available v.processing_status

  record_failure_retires :
      (job : ProcessingJob) (code : String) (asset : Option EvidenceAsset)
      (version : EvidenceVersion) (now : ℕ) (db after : Db) (u : Unit {0})
      → is_exhausted job ≡ true
      → record_failure prisma settings job code asset (some version) now db ≡ ok (after, u)
      → count (is_available_of version.id) after.versions ≡ 0
  unfolding record_failure
  record_failure_retires job code asset version now db after u last h =
      let p = λ (v : EvidenceVersion). v.id == version.id in
      elim (Option-cases (prisma.version_table.update p (fail_version code) db.versions)) [
        | inl gone ↦ absurd (ground arith)
        | inr ((row, versions), done) ↦
            let parts =
              prisma.version_table.update_some p (fail_version code) db.versions row versions
                done in
            let same : after.versions ≡ versions = ground arith in
            rw (same, parts.0)
              (count-update_where_zero p (is_available_of version.id) (fail_version code)
                db.versions (λ x. ground arith) (λ x e. ground arith))
      ]

  fail_retires :
      (job : ProcessingJob) (code : String) (asset : Option EvidenceAsset)
      (version : EvidenceVersion) (now : ℕ) (db : Db) (u : Unit {0})
      → is_exhausted job ≡ true
      → (fail prisma settings job code asset (some version) now db).1 ≡ ok u
      → count
          (is_available_of version.id)
          (fail prisma settings job code asset (some version) now db).0.versions
        ≡ 0
  unfolding fail
  fail_retires job code asset version now db u last h =
      elim (Result-cases (record_failure prisma settings job code asset (some version) now db)) [
        | inl (e, refused) ↦ absurd (ground arith)
        | inr ((after, u'), done) ↦
            rw (fail, done)
              (record_failure_retires job code asset version now db after u' last done)
      ]

  check_failed_retires :
      (job : ProcessingJob) (c : Checked) (now : ℕ) (db : Db) (u : Unit {0})
      → is_exhausted job ≡ true
      → (check_failed prisma services settings job c now db).1 ≡ ok u
      → count
          (is_available_of c.version.id)
          (check_failed prisma services settings job c now db).0.versions
        ≡ 0
  unfolding check_failed
  check_failed_retires job c now db u last h =
      let failed =
        fail prisma settings job "INTEGRITY_CHECK_FAILED" (some c.asset) (some c.version) now db in
      elim (Result-cases failed.1) [
        | inl (e, refused) ↦ absurd (ground arith)
        | inr (u', done) ↦
            let retired =
              fail_retires job "INTEGRITY_CHECK_FAILED" (some c.asset) c.version now db u' last
                done in
            elim (Result-cases (fail_check prisma services settings c now failed.0)) [
              | inl (e, refused) ↦ rw (check_failed, done, refused) retired
              | inr ((after, u''), ended) ↦
                  let same : after.versions ≡ failed.0.versions =
                    fail_check_versions prisma services settings c now failed.0 after u'' ended in
                  rw (check_failed, done, ended, same) retired
            ]
      ]

  -- When the storage fails in the last attempt of an integrity check, the version that was checked
  -- is no longer available, whatever its content: no row with its id is.
  pub integrity_retires :
      (job : ProcessingJob) (check_id version_id : String) (c : Checked) (e : Exception) (now : ℕ)
      (db : Db) (u : Unit {0})
      → filled job.integrity_check_id ≡ some check_id
      → filled job.evidence_version_id ≡ some version_id
      → checked_for prisma services settings job check_id version_id db ≡ some c
      → hash_object prisma services settings c.bucket c.key ≡ err e
      → job.max_attempts ≤ job.attempts
      → (integrity prisma services settings job now db).1 ≡ ok u
      → count
          (is_available_of c.version.id)
          (integrity prisma services settings job now db).0.versions
        ≡ 0
  unfolding integrity check_version
  integrity_retires job check_id version_id c e now db u checked named ready broken last h =
      let ends : integrity prisma services settings job now db
          ≡ check_failed prisma services settings job c now db =
        rw (integrity, checked, named, ready, check_version, broken) refl in
      let failing : (check_failed prisma services settings job c now db).1 ≡ ok u = rw ends at h in
      rw ends (check_failed_retires job c now db u (ground arith) failing)
