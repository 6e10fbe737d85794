-- ===== src/Evidence/Tests.antt =====
-- Runs of the evidence worker on a small database, kept as lists. A stream is its text.
use team_nivaran.Common.{
  ℕ, ◌<◌, String, ◌≡◌, refl, ◌≢◌, ◌⊎◌, ◌↔◌, true, false, none, some, [], ◌∷◌, map, Memᴰ, arith,
  ◌==◌, if◌then◌else◌,
}
use team_nivaran.Common.Lists.{count}
use team_nivaran.Common.Results.{Result, ok, err, internal}
use team_nivaran.Common.ListTable.{list_table}
use team_nivaran.Evidence.Model.{
  AssetStatus, VersionStatus, ScanStatus, JobType, JobStatus, CheckStatus, EvidenceAsset,
  EvidenceVersion, OrphanKind, OrphanStatus, OrphanCandidate, LegalHold, ProcessingJob,
  IntegrityCheck, Db, Client, Services, Settings,
}
use team_nivaran.Evidence.Jobs.{claim, is_waiting, record_failure, fail}
use team_nivaran.Evidence.Jobs.Retries.{
  IsRescheduled, record_failure-IsRescheduled, is_over, failed_attempts, failed_attempts-end,
}
use team_nivaran.Evidence.Rows.{is_available}
use team_nivaran.Evidence.Worker.{
  check_copy, make_available, finish_promotion, promote, after_scan, try_scan, scan_target, scan,
}
use team_nivaran.Evidence.Worker.Scanned.{IsExplained}
use team_nivaran.Evidence.Integrity.{Checked, check_failed, check_version, integrity}
use team_nivaran.Evidence.Holds.{Caller}
use team_nivaran.Evidence.Holds.Settled.{IsSettled, to_place, run_hold, run_hold-IsSettled}
use team_nivaran.Evidence.Orphans.{judge, is_held, reconcile_orphans}
use team_nivaran.Evidence.Orphans.Safe.{IsFree, reconcile_orphans-IsFree}
use team_nivaran.Evidence.Tick.{run_job, tick}
use team_nivaran.Evidence.Tick.Verified.{tick-IsExplained}
use team_nivaran.Evidence.Tick.Retired.{integrity_retires, is_available_of}

abbrev client : Client
client = record {
  asset_table = list_table "a";
  version_table = list_table "v";
  scan_table = list_table "s";
  job_table = list_table "j";
  check_table = list_table "k";
  orphan_table = list_table "p";
  hold_table = list_table "h";
}

abbrev settings : Settings
settings = record { owner = "w"; lease_seconds = 60; orphan_hours = 24 }

-- A storage that keeps one text, and a scanner that finds everything clean.
abbrev services : Services String
services = record {
  get_object_stream = λ bucket key. ok "content";
  scan = λ stream. ok (record {
    status = ScanStatus.clean;
    engine = "ClamAV";
    signature_version = none;
    finding_codes = [];
  });
  promote_to_canonical = λ bucket key copy_key.
      ok (record { bucket = "canonical"; key = copy_key; provider_version_id = none });
  head_size = λ bucket key. ok 7;
  digest = λ stream. ok "abcd";
  from_hex = λ text. if text == "abcd" then 171 ∷ 205 ∷ [] else [];
}

-- A storage that cannot be read.
abbrev broken_services : Services String
broken_services = record services {
  get_object_stream = λ bucket key. err (internal "STORAGE_DOWN");
}

abbrev asset : EvidenceAsset
asset = record {
  id = "a";
  organization_id = "o";
  primary_case_id = "c";
  status = AssetStatus.processing;
  current_version_id = none;
  latest_version_number = 1;
  row_version = 1;
  updated_by = "u";
}

abbrev version_in : VersionStatus → EvidenceVersion
version_in status = record {
  id = "v";
  organization_id = "o";
  evidence_asset_id = "a";
  processing_status = status;
  quarantine_bucket = some "quarantine";
  quarantine_key = some "quarantine/1";
  canonical_bucket = some "canonical";
  canonical_key = some "canonical/1";
  object_version_id = none;
  size_bytes = some 7;
  sha256 = some "abcd";
  scan_engine = none;
  scan_completed_at = none;
  available_at = none;
  failure_code = none;
}

abbrev job_of : JobType → ℕ → ProcessingJob
job_of type attempts = record {
  id = "j";
  organization_id = "o";
  evidence_asset_id = "a";
  evidence_version_id = some "v";
  integrity_check_id = some "k";
  job_type = type;
  status = JobStatus.pending;
  attempts = attempts;
  max_attempts = 3;
  available_at = 0;
  lease_owner = none;
  lease_expires_at = none;
  correlation_id = "r";
  causation_id = none;
  last_error_code = none;
  completed_at = none;
}

abbrev check : IntegrityCheck
check = record {
  id = "k";
  status = CheckStatus.check_pending;
  expected_sha256 = "abcd";
  calculated_sha256 = none;
  completed_at = none;
}

abbrev db_of : VersionStatus → ProcessingJob → Db
db_of status job = record {
  assets = asset ∷ [];
  versions = version_in status ∷ [];
  scans = [];
  jobs = job ∷ [];
  checks = check ∷ [];
  orphans = [];
  holds = [];
  outbox = [];
}

abbrev uploaded_db : Db
uploaded_db = db_of VersionStatus.uploaded (job_of JobType.malware_scan 0)

-- One tick scans the upload, copies it and makes the version available.
tick_test :
    map
      (λ (v : EvidenceVersion). is_available v.processing_status)
      (tick client services settings 5 uploaded_db).versions
    ≡ true ∷ []
unfolding tick run_job claim scan scan_target try_scan after_scan promote finish_promotion
    check_copy make_available
tick_test = refl

tick_makes_available_example :
    IsExplained client services settings uploaded_db.versions
      (tick client services settings 5 uploaded_db).versions
tick_makes_available_example = tick-IsExplained client services settings 5 uploaded_db

abbrev last_check : ProcessingJob
last_check = job_of JobType.integrity_check 3

abbrev available_db : Db
available_db = db_of VersionStatus.available last_check

abbrev checked : Checked
checked = record {
  check = check;
  version = version_in VersionStatus.available;
  asset = asset;
  bucket = "canonical";
  key = "canonical/1";
}

integrity_ends : (integrity client broken_services settings last_check 5 available_db).1 ≡ ok tt
unfolding integrity check_version check_failed fail record_failure
integrity_ends = refl

integrity_example :
    count
      (is_available_of client broken_services settings "v")
      (integrity client broken_services settings last_check 5 available_db).0.versions
    ≡ 0
integrity_example =
    integrity_retires client broken_services settings last_check "k" "v" checked
      (internal "STORAGE_DOWN") 5 available_db tt refl refl refl refl (omega arith) integrity_ends

abbrev running : ProcessingJob
running = job_of JobType.malware_scan 1

abbrev running_db : Db
running_db = db_of VersionStatus.uploaded running

abbrev rescheduled : ProcessingJob
rescheduled = record running {
  status = JobStatus.retry;
  available_at = 2005;
  last_error_code = some "SCAN_ERROR";
}

abbrev failed_db : Db
failed_db = record running_db { jobs = rescheduled ∷ [] }

record_failure_lem :
    record_failure client settings running "SCAN_ERROR" none none 5 running_db ≡ ok (failed_db, tt)
unfolding record_failure
record_failure_lem = refl

rescheduled_example :
    ((rescheduled.id ≡ running.id) × IsRescheduled running 5 rescheduled)
    ⊎ ((rescheduled.id ≢ running.id) × Memᴰ rescheduled running_db.jobs)
rescheduled_example =
    record_failure-IsRescheduled client settings running "SCAN_ERROR" none none 5 running_db
      failed_db tt record_failure_lem rescheduled (Memᴰ.head refl)

attempts_example :
    ((is_over (failed_attempts settings "E" running (5 ∷ 9000 ∷ [])).status ≡ true)
      ↔ (◌≡◌ {A = ℕ} 3 3))
    × (is_over (failed_attempts settings "E" running (5 ∷ 9000 ∷ [])).status ≡ false
        → is_waiting (failed_attempts settings "E" running (5 ∷ 9000 ∷ [])).status ≡ true)
attempts_example = failed_attempts-end settings "E" running 5 (9000 ∷ []) (omega arith)

abbrev caller : Caller
caller = record { user_id = "u"; organization_id = "o"; correlation_id = "r"; now = 7 }

abbrev accessible : String → String → Result (Unit {0})
accessible case_id organization = ok tt

no_holds : (asset_id organization : String) → IsSettled asset_id organization []
no_holds asset_id organization h k m met unreleased l met' = elim m [ ]

earlier_than : (now : ℕ) (k : LegalHold) → Memᴰ k [] → k.acted_at < now
earlier_than now k m = elim m [ ]

hold_example :
    IsSettled "a" "o" (run_hold client accessible (to_place "a" "dispute") caller uploaded_db).holds
hold_example =
    run_hold-IsSettled client accessible (to_place "a" "dispute") caller uploaded_db
      (no_holds "a" "o") (earlier_than 7)

-- An upload that was abandoned.
abbrev abandoned : OrphanCandidate
abandoned = record {
  id = "p";
  organization_id = some "o";
  evidence_version_id = some "v";
  bucket = "quarantine";
  object_key = "quarantine/1";
  kind = OrphanKind.abandoned_upload;
  status = OrphanStatus.candidate;
  eligible_after = 0;
  last_checked_at = none;
}

abbrev orphan_db : Db
orphan_db = record uploaded_db { orphans = abandoned ∷ [] }

deleted_lem : Memᴰ abandoned (reconcile_orphans client (abandoned ∷ []) 9 orphan_db).0.1
unfolding reconcile_orphans judge is_held
deleted_lem = Memᴰ.head refl

orphan_example : IsFree client abandoned orphan_db
orphan_example =
    reconcile_orphans-IsFree client (abandoned ∷ []) 9 orphan_db abandoned no_holds deleted_lem
