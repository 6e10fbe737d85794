-- ===== src/Evidence/Jobs.antt =====
-- The jobs of the worker: their lease, their end and their failure (`claim`, `complete` and `fail`
-- of processing.worker.ts).
pub mod Retries
use team_nivaran.Common.{
  ℕ, ◌+◌, ◌*◌, ◌^◌, min, String, Bool, true, false, ◌&&◌, ◌||◌, not, Option, none, some, List, [],
  ◌∷◌, ◌++◌, ◌==◌, ltb, leb, eqb, is_text, filled, if◌then◌else◌,
}
use team_nivaran.Common.Results.{
  Exception, Result, ok, err, internal, require, or_throw, written, settle, ◌>>=◌, ◌>>◌,
}
use team_nivaran.Evidence.Model.{
  AssetStatus, rejected_asset, VersionStatus, failed, JobStatus, pending, leased, retry, completed,
  failed_job, EvidenceAsset, EvidenceVersion, ProcessingJob, Db, Client, Settings, event,
}

abbrev pub is_waiting : JobStatus → Bool
is_waiting pending = true
is_waiting retry = true
is_waiting _ = false

abbrev pub is_leased : JobStatus → Bool
is_leased leased = true
is_leased _ = false

-- `leaseExpiresAt: { lt: now }`, false on NULL.
abbrev pub is_expired : ℕ → Option ℕ → Bool
is_expired now none = false
is_expired now (some t) = ltb t now

abbrev pub may_claim : ℕ → ProcessingJob → Bool
may_claim now j = is_waiting j.status || (is_leased j.status && is_expired now j.lease_expires_at)

abbrev pub is_candidate : ℕ → ProcessingJob → Bool
is_candidate now j = leb j.available_at now && may_claim now j

abbrev pub lease_row : Settings → ℕ → ProcessingJob → ProcessingJob
lease_row settings now j = record j {
  status = leased;
  lease_owner = some settings.owner;
  lease_expires_at = some (now + settings.lease_seconds * 1000);
  attempts = j.attempts + 1;
}

abbrev pub complete_row : ℕ → ProcessingJob → ProcessingJob
complete_row now j = record j {
  status = completed;
  completed_at = some now;
  lease_owner = none;
  lease_expires_at = none;
}

-- `job.attempts >= job.maxAttempts`.
abbrev pub is_exhausted : ProcessingJob → Bool
is_exhausted job = leb job.max_attempts job.attempts

abbrev pub backoff : ℕ → ℕ
backoff attempts = min 60000 (1000 * 2 ^ attempts)

abbrev pub fail_row : ProcessingJob → String → ℕ → ProcessingJob → ProcessingJob
fail_row job code now j =
    if is_exhausted job
    then record j {
      status = failed_job;
      last_error_code = some code;
      completed_at = some now;
      lease_owner = none;
      lease_expires_at = none;
    }
    else record j {
      status = retry;
      last_error_code = some code;
      available_at = now + backoff job.attempts;
      lease_owner = none;
      lease_expires_at = none;
    }

abbrev pub fail_version : String → EvidenceVersion → EvidenceVersion
fail_version code v = record v { processing_status = failed; failure_code = some code }

-- `asset.currentVersionId ? asset.status : "REJECTED"`.
abbrev pub status_without : EvidenceAsset → AssetStatus
status_without asset = elim (filled asset.current_version_id) [
  | none ↦ rejected_asset
  | some id ↦ asset.status
]

abbrev pub asset_row : AssetStatus → EvidenceAsset → EvidenceAsset
asset_row status a = record a {
  status = status;
  row_version = a.row_version + 1;
  updated_by = "evidence-processing-worker";
}

module _ (prisma : Client) (settings : Settings) where
  open prisma use {asset_table, version_table, job_table}

  -- The lease of the next job.
  unfoldable pub claim : ℕ → Db → Db × Result (Option ProcessingJob)
  claim now db = elim (job_table.find_earliest (is_candidate now) (λ j. j.available_at) db.jobs) [
    | none ↦ (db, ok none)
    | some candidate ↦
        let (count, jobs) =
          job_table.update_many (λ j. j.id == candidate.id && may_claim now j)
            (lease_row settings now) db.jobs in
        let after : Db = record db { jobs = jobs } in
        if eqb count 1
        then (
          after,
          (do job ← written (job_table.find_first (λ j. j.id == candidate.id) jobs); ok (some job)),
        )
        else (after, ok none)
  ]

  unfoldable pub complete : String → ℕ → Db → Db
  complete id now db = record db {
    jobs =
        (job_table.update_many
          (λ j. j.id == id && is_text j.lease_owner settings.owner && is_leased j.status)
          (complete_row now) db.jobs).1;
  }

  -- The version of a job that has used up its attempts, with its asset.
  abbrev pub fail_target :
      ProcessingJob → String → Option EvidenceAsset → EvidenceVersion → Db → Result Db
  fail_target job code asset version db = do
    (failed_version, versions) ←
        written (version_table.update (λ v. v.id == version.id) (fail_version code) db.versions)
    let after : Db = record db { versions = versions }
    elim asset [
      | none ↦ ok after
      | some a ↦ do
        (updated, assets) ←
            written
              (asset_table.update (λ b. b.id == a.id) (asset_row (status_without a)) db.assets)
        ok (
            event updated (some failed_version.id) "evidence-processing-worker" job.correlation_id
              none "evidence.version.failed" (record after { assets = assets }))
    ]

  -- The transaction of `fail`.
  unfoldable pub record_failure :
      ProcessingJob
      → String
      → Option EvidenceAsset
      → Option EvidenceVersion
      → ℕ
      → Db
      → Result (Db × Unit {0})
  record_failure job code asset version now db = do
    (row, jobs) ← written (job_table.update (λ j. j.id == job.id) (fail_row job code now) db.jobs)
    let after : Db = record db { jobs = jobs }
    elim version [
      | none ↦ ok (after, tt)
      | some v ↦
          if is_exhausted job
          then (do finished ← fail_target job code asset v after; ok (finished, tt))
          else ok (after, tt)
    ]

  unfoldable pub fail :
      ProcessingJob
      → String
      → Option EvidenceAsset
      → Option EvidenceVersion
      → ℕ
      → Db
      → Db × Result (Unit {0})
  fail job code asset version now db = settle db (record_failure job code asset version now db)
