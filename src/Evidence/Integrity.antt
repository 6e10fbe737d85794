-- ===== src/Evidence/Integrity.antt =====
-- The integrity check of an available version (`integrity` of processing.worker.ts).
use team_nivaran.Common.{ℕ, String, Option, none, some, ◌==◌, filled, if◌then◌else◌}
use team_nivaran.Common.Results.{Result, ok, err, written, settle, ◌>>=◌}
use team_nivaran.Evidence.Model.{
  check_error, EvidenceAsset, EvidenceVersion, ProcessingJob, IntegrityCheck, Db, Client, Services,
  Settings, event,
}
use team_nivaran.Evidence.Jobs.{complete_row, fail}
use team_nivaran.Evidence.Rows.{is_available, check_row}
use team_nivaran.Evidence.Worker.{hash_object, hashes_match}

-- What a check reads.
pub record Checked : Type 0 where
  pub check : IntegrityCheck
  pub version : EvidenceVersion
  pub asset : EvidenceAsset
  pub bucket : String
  pub key : String

-- The guards on what was read.
abbrev pub checked_of :
    Option IntegrityCheck → Option EvidenceVersion → Option EvidenceAsset → Option Checked
checked_of none version asset = none
checked_of (some c) none asset = none
checked_of (some c) (some v) none = none
checked_of (some c) (some v) (some a) =
    if is_available v.processing_status
    then elim (filled v.canonical_bucket) [
      | none ↦ none
      | some bucket ↦ elim (filled v.canonical_key) [
        | none ↦ none
        | some key ↦ elim (filled v.sha256) [
          | none ↦ none
          | some hash ↦
              some (record { check = c; version = v; asset = a; bucket = bucket; key = key })
        ]
      ]
    ]
    else none

module _ {Stream : Type 0} (prisma : Client) (services : Services Stream)
    (settings : Settings) where
  open prisma use {asset_table, version_table, job_table, check_table}

  -- The transaction, for a calculated hash.
  unfoldable pub record_check : ProcessingJob → Checked → String → ℕ → Db → Result (Db × Unit {0})
  record_check job c calculated now db = do
    let same = hashes_match prisma services settings c.check.expected_sha256 calculated
    (check, checks) ←
        written
          (check_table.update (λ k. k.id == c.check.id) (check_row same calculated now) db.checks)
    (row, jobs) ← written (job_table.update (λ j. j.id == job.id) (complete_row now) db.jobs)
    ok (
      event c.asset (some c.version.id) "evidence-integrity-worker" job.correlation_id
          job.causation_id
          (if same then "evidence.integrity.verified" else "evidence.integrity.failed")
          (record db { checks = checks; jobs = jobs }),
      tt,
    )

  -- The end of the check in an error.
  abbrev pub fail_check : Checked → ℕ → Db → Result (Db × Unit {0})
  fail_check c now db = do
    (check, checks) ← written (
        check_table.update (λ k. k.id == c.check.id)
          (λ k. record k { status = check_error; completed_at = some now }) db.checks)
    ok (record db { checks = checks }, tt)

  -- The `catch`.
  unfoldable pub check_failed : ProcessingJob → Checked → ℕ → Db → Db × Result (Unit {0})
  check_failed job c now db =
      let (failed, outcome) =
        fail prisma settings job "INTEGRITY_CHECK_FAILED" (some c.asset) (some c.version) now db in
      elim outcome [ err e ↦ (failed, err e) | ok done ↦ settle failed (fail_check c now failed) ]

  unfoldable pub check_version : ProcessingJob → Checked → ℕ → Db → Db × Result (Unit {0})
  check_version job c now db =
      elim (hash_object prisma services settings c.bucket c.key >>= λ calculated.
      record_check job c calculated now db) [
        | ok (after, done) ↦ (after, ok done)
        | err e ↦ check_failed job c now db
      ]

  abbrev pub checked_for : ProcessingJob → String → String → Db → Option Checked
  checked_for job check_id version_id db =
      checked_of (check_table.find_first (λ k. k.id == check_id) db.checks)
        (version_table.find_first (λ v. v.id == version_id) db.versions)
        (asset_table.find_first (λ a. a.id == job.evidence_asset_id) db.assets)

  unfoldable pub integrity : ProcessingJob → ℕ → Db → Db × Result (Unit {0})
  integrity job now db = elim (filled job.integrity_check_id) [
    | none ↦ fail prisma settings job "INTEGRITY_REFERENCE_MISSING" none none now db
    | some check_id ↦ elim (filled job.evidence_version_id) [
      | none ↦ fail prisma settings job "INTEGRITY_REFERENCE_MISSING" none none now db
      | some version_id ↦ elim (checked_for job check_id version_id db) [
        | none ↦ fail prisma settings job "INTEGRITY_VERSION_UNAVAILABLE" none none now db
        | some c ↦ check_version job c now db
      ]
    ]
  ]
