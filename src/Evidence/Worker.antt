-- ===== src/Evidence/Worker.antt =====
-- One tick of the evidence worker (`tick`, `scan`, `rejectInfected`, `promote`, `integrity` and
-- `hashObject` of processing.worker.ts). The timers and the flags that keep a tick from starting
-- are left out.
pub mod Kept
pub mod Promotion
pub mod Scanned
use team_nivaran.Common.{
  ℕ, ◌+◌, ◌*◌, String, Bool, true, false, ◌&&◌, ◌||◌, not, Option, none, some, List, [], ◌∷◌, ◌++◌,
  ◌==◌, eqb, is_none, filled, truncate, if◌then◌else◌,
}
use team_nivaran.Common.Results.{
  Exception, bad_request, not_found, conflict, forbidden, unauthorized, unprocessable, internal,
  Result, ok, err, require, or_throw, written, settle, ◌>>=◌, ◌>>◌,
}
use team_nivaran.Evidence.Model.{
  AssetStatus, active, on_hold, VersionStatus, uploaded, scanning, available, rejected, ScanStatus,
  clean, infected, error, JobType, malware_scan, integrity_check, CheckStatus, match, mismatch,
  check_error, OrphanKind, OrphanStatus, EvidenceAsset, EvidenceVersion, ScanAttempt, ProcessingJob,
  IntegrityCheck, OrphanCandidate, Db, Client, ScanResult, CanonicalObject, Services, Settings,
  event,
}
use team_nivaran.Evidence.Jobs.{complete_row, asset_row, status_without, claim, complete, fail}
use team_nivaran.Evidence.Rows.{
  Expected, Target, available_row, bytes_equal, expected_of, is_available, is_canonical,
  is_scannable, message, promoted_status, reject_row, target_of,
}

module _ {Stream : Type 0} (prisma : Client) (services : Services Stream)
    (settings : Settings) where
  open prisma use {asset_table, version_table, scan_table, job_table, check_table, orphan_table}

  -- `hashObject`.
  abbrev pub hash_object : (bucket key : String) → Result String
  hash_object bucket key = do stream ← services.get_object_stream bucket key; services.digest stream

  -- `hashesMatch` of evidence.service.ts.
  abbrev pub hashes_match : (expected calculated : String) → Bool
  hashes_match expected calculated =
      bytes_equal (services.from_hex expected) (services.from_hex calculated)

  abbrev complete_by_id : ProcessingJob → ℕ → Db → Result Db
  complete_by_id job now db = do
    (row, jobs) ← written (job_table.update (λ j. j.id == job.id) (complete_row now) db.jobs)
    ok (record db { jobs = jobs })

  unfoldable pub reject_infected : ProcessingJob → Target → String → ℕ → Db → Result (Db × Unit {0})
  reject_infected job target engine now db = do
    (rejected_version, versions) ←
        written (
          version_table.update (λ v. v.id == target.version.id) (reject_row engine now) db.versions)
    (updated, assets) ← written (
        asset_table.update (λ a. a.id == target.asset.id) (asset_row (status_without target.asset))
          db.assets)
    after ← complete_by_id job now (record db { versions = versions; assets = assets })
    ok (
      event updated (some rejected_version.id) "evidence-processing-worker" job.correlation_id
          job.causation_id "evidence.version.rejected" after,
      tt,
    )

  -- The checks of the copy.
  unfoldable pub check_copy : CanonicalObject → Expected → Result (Unit {0})
  check_copy copy expected = do
    size ← services.head_size copy.bucket copy.key
    require (eqb size expected.size_bytes) (internal "CANONICAL_SIZE_MISMATCH")
    calculated ← hash_object copy.bucket copy.key
    require (hashes_match expected.sha256 calculated) (internal "CANONICAL_HASH_MISMATCH")

  -- The transaction of `promote`.
  unfoldable pub make_available :
      ProcessingJob → Target → CanonicalObject → String → ℕ → Db → Result (Db × Unit {0})
  make_available job target copy engine now db = do
    (available_version, versions) ← written (
        version_table.update (λ v. v.id == target.version.id)
          (available_row target.version copy engine now) db.versions)
    (updated, assets) ← written (
        asset_table.update (λ a. a.id == target.asset.id)
          (λ a.
            asset_row (promoted_status target.asset.status)
              (record a { current_version_id = some available_version.id }))
          db.assets)
    after ← complete_by_id job now (record db { versions = versions; assets = assets })
    ok (
      event updated (some available_version.id) "evidence-processing-worker" job.correlation_id
          job.causation_id "evidence.version.available"
          (event updated (some available_version.id) "evidence-processing-worker" job.correlation_id
            job.causation_id "evidence.version.scan.completed" after),
      tt,
    )

  abbrev pub keep_orphan : Target → CanonicalObject → ℕ → Db → Db
  keep_orphan target copy now db = record db {
    orphans =
        orphan_table.upsert
          (λ o. o.bucket == copy.bucket && o.object_key == copy.key && is_canonical o.kind)
          (λ o. record o { last_checked_at = some now })
          (record {
            id = orphan_table.new_id db.orphans;
            organization_id = some target.asset.organization_id;
            evidence_version_id = some target.version.id;
            bucket = copy.bucket;
            object_key = copy.key;
            kind = OrphanKind.canonical;
            status = OrphanStatus.candidate;
            eligible_after = now + settings.orphan_hours * 60 * 60 * 1000;
            last_checked_at = none;
          })
          db.orphans;
  }

  abbrev fail_target_with : ProcessingJob → String → Target → ℕ → Db → Db × Result (Unit {0})
  fail_target_with job code target now db =
      fail prisma settings job code (some target.asset) (some target.version) now db

  -- The `try` of `promote` after the copy, and its `catch`. That the deletion of the upload fails is
  -- caught and only logged.
  unfoldable pub finish_promotion :
      ProcessingJob → Target → Expected → CanonicalObject → String → ℕ → Db → Db × Result (Unit {0})
  finish_promotion job target expected copy engine now db =
      elim (check_copy copy expected >> make_available job target copy engine now db) [
        | ok (after, done) ↦ (after, ok done)
        | err e ↦
            fail_target_with job (truncate 80 (message e)) target now
              (keep_orphan target copy now db)
      ]

  unfoldable pub promote : ProcessingJob → Target → String → ℕ → Db → Db × Result (Unit {0})
  promote job target engine now db = elim (expected_of target.version) [
    | none ↦ fail_target_with job "VERSION_METADATA_INCOMPLETE" target now db
    | some expected ↦
        elim (services.promote_to_canonical target.bucket target.key expected.canonical_key) [
          | err e ↦ fail_target_with job (truncate 80 (message e)) target now db
          | ok copy ↦ finish_promotion job target expected copy engine now db
        ]
  ]

  abbrev pub is_attempt : ProcessingJob → Target → ScanAttempt → Bool
  is_attempt job target s =
      s.evidence_version_id == target.version.id && eqb s.attempt_number job.attempts

  -- The row of an attempt, where the version has none of that number.
  abbrev pub add_attempt : ProcessingJob → Target → ScanResult → Db → Result Db
  add_attempt job target result db = do
    require (eqb (scan_table.count_rows (is_attempt job target) db.scans) 0)
        (internal "Unique constraint failed.")
    ok (record db {
      scans =
          db.scans
          ++ record {
            organization_id = job.organization_id;
            evidence_version_id = target.version.id;
            attempt_number = job.attempts;
            status = result.status;
            engine = result.engine;
            signature_version = result.signature_version;
            finding_codes = result.finding_codes;
          }
            ∷ [];
    })

  -- What follows the answer of the scanner.
  unfoldable pub after_scan : ProcessingJob → Target → ScanResult → ℕ → Db → Db × Result (Unit {0})
  after_scan job target result now db = elim result.status [
    | infected ↦ settle db (reject_infected job target result.engine now db)
    | clean ↦ promote job target result.engine now db
    | error ↦ fail_target_with job "SCAN_ERROR" target now db
  ]

  -- The `try` of `scan`.
  unfoldable pub try_scan : ProcessingJob → Target → ℕ → Db → Db × Result (Unit {0})
  try_scan job target now db =
      elim (services.get_object_stream target.bucket target.key >>= services.scan) [
        | err e ↦ (db, err e)
        | ok result ↦ elim (add_attempt job target result db) [
          | err e ↦ (db, err e)
          | ok noted ↦ after_scan job target result now noted
        ]
      ]

  abbrev pub unavailable_scan : ScanResult
  unavailable_scan = record {
    status = error;
    engine = "ClamAV";
    signature_version = none;
    finding_codes = "SCAN_ERROR" ∷ [];
  }

  -- The `catch` of `scan`, where a second row of the attempt is not written.
  unfoldable pub scan_unavailable : ProcessingJob → Target → ℕ → Db → Db × Result (Unit {0})
  scan_unavailable job target now db =
      fail_target_with job "SCAN_UNAVAILABLE" target now
        (elim (add_attempt job target unavailable_scan db) [ ok noted ↦ noted | err e ↦ db ])

  abbrev pub mark_scanning : Target → Db → Db
  mark_scanning target db = record db {
    versions =
        (version_table.update_many
          (λ v. v.id == target.version.id && is_scannable v.processing_status)
          (λ v. record v { processing_status = scanning }) db.versions).1;
  }

  unfoldable pub scan_target : ProcessingJob → Target → ℕ → Db → Db × Result (Unit {0})
  scan_target job target now db =
      let (tried, outcome) = try_scan job target now (mark_scanning target db) in
      elim outcome [ ok done ↦ (tried, ok done) | err e ↦ scan_unavailable job target now tried ]

  abbrev pub version_of : ProcessingJob → String → Db → Option EvidenceVersion
  version_of job id db =
      version_table.find_first (λ v. v.id == id && v.organization_id == job.organization_id)
        db.versions

  abbrev pub asset_of : ProcessingJob → Db → Option EvidenceAsset
  asset_of job db =
      asset_table.find_first
        (λ a. a.id == job.evidence_asset_id && a.organization_id == job.organization_id) db.assets

  unfoldable pub scan : ProcessingJob → ℕ → Db → Db × Result (Unit {0})
  scan job now db = elim (filled job.evidence_version_id) [
    | none ↦ fail prisma settings job "VERSION_MISSING" none none now db
    | some id ↦ elim (target_of (version_of job id db) (asset_of job db)) [
      | none ↦ fail prisma settings job "QUARANTINE_REFERENCE_MISSING" none none now db
      | some target ↦
          if is_available target.version.processing_status
          then (complete prisma settings job.id now db, ok tt)
          else scan_target job target now db
    ]
  ]
