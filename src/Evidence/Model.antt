-- ===== src/Evidence/Model.antt =====
-- The rows of the Evidence database (prisma/schema.prisma), with the columns that
-- processing.worker.ts reads or writes, and the services that the worker calls. Times are in
-- milliseconds.
use team_nivaran.Common.{ℕ, String, Option, List, [], ◌∷◌, ◌++◌}
use team_nivaran.Common.Results.{Result}
use team_nivaran.Common.Tables.{Table}

pub data AssetStatus : Type 0 where
  awaiting_content processing active on_hold archived rejected_asset : AssetStatus

pub data VersionStatus : Type 0 where
  upload_pending uploaded scanning available rejected failed : VersionStatus

pub data ScanStatus : Type 0 where
  clean infected error : ScanStatus

pub data JobType : Type 0 where
  malware_scan integrity_check reconcile : JobType

pub data JobStatus : Type 0 where
  pending leased retry completed failed_job : JobStatus

pub data CheckStatus : Type 0 where
  check_pending match mismatch check_error : CheckStatus

pub data OrphanKind : Type 0 where
  quarantine canonical missing_canonical abandoned_upload : OrphanKind

pub data OrphanStatus : Type 0 where
  candidate retained cleaned resolved : OrphanStatus

pub data HoldAction : Type 0 where
  placed released : HoldAction

pub record LegalHold : Type 0 where
  pub id : String
  pub organization_id : String
  pub evidence_asset_id : String
  pub action : HoldAction
  pub reason : String
  pub actor_id : String
  pub acted_at : ℕ
  pub related_hold_id : Option String

pub record EvidenceAsset : Type 0 where
  pub id : String
  pub organization_id : String
  pub primary_case_id : String
  pub status : AssetStatus
  pub current_version_id : Option String
  pub latest_version_number : ℕ
  pub row_version : ℕ
  pub updated_by : String

pub record EvidenceVersion : Type 0 where
  pub id : String
  pub organization_id : String
  pub evidence_asset_id : String
  pub processing_status : VersionStatus
  pub quarantine_bucket : Option String
  pub quarantine_key : Option String
  pub canonical_bucket : Option String
  pub canonical_key : Option String
  pub object_version_id : Option String
  pub size_bytes : Option ℕ
  pub sha256 : Option String
  pub scan_engine : Option String
  pub scan_completed_at : Option ℕ
  pub available_at : Option ℕ
  pub failure_code : Option String

pub record ScanAttempt : Type 0 where
  pub organization_id : String
  pub evidence_version_id : String
  pub attempt_number : ℕ
  pub status : ScanStatus
  pub engine : String
  pub signature_version : Option String
  pub finding_codes : List String

pub record ProcessingJob : Type 0 where
  pub id : String
  pub organization_id : String
  pub evidence_asset_id : String
  pub evidence_version_id : Option String
  pub integrity_check_id : Option String
  pub job_type : JobType
  pub status : JobStatus
  pub attempts : ℕ
  pub max_attempts : ℕ
  pub available_at : ℕ
  pub lease_owner : Option String
  pub lease_expires_at : Option ℕ
  pub correlation_id : String
  pub causation_id : Option String
  pub last_error_code : Option String
  pub completed_at : Option ℕ

pub record IntegrityCheck : Type 0 where
  pub id : String
  pub status : CheckStatus
  pub expected_sha256 : String
  pub calculated_sha256 : Option String
  pub completed_at : Option ℕ

pub record OrphanCandidate : Type 0 where
  pub id : String
  pub organization_id : Option String
  pub evidence_version_id : Option String
  pub bucket : String
  pub object_key : String
  pub kind : OrphanKind
  pub status : OrphanStatus
  pub eligible_after : ℕ
  pub last_checked_at : Option ℕ

pub record OutboxRow : Type 0 where
  pub aggregate_id : String
  pub aggregate_version : ℕ
  pub evidence_version_id : Option String
  pub event_type : String
  pub correlation_id : String
  pub causation_id : Option String
  pub organization_id : String
  pub actor_id : String

pub record Db : Type 0 where
  pub assets : List EvidenceAsset
  pub versions : List EvidenceVersion
  pub scans : List ScanAttempt
  pub jobs : List ProcessingJob
  pub checks : List IntegrityCheck
  pub orphans : List OrphanCandidate
  pub holds : List LegalHold
  pub outbox : List OutboxRow

pub record Client : Type 0 where
  pub asset_table : Table EvidenceAsset
  pub version_table : Table EvidenceVersion
  pub scan_table : Table ScanAttempt
  pub job_table : Table ProcessingJob
  pub check_table : Table IntegrityCheck
  pub orphan_table : Table OrphanCandidate
  pub hold_table : Table LegalHold

-- What a scan answers.
pub record ScanResult : Type 0 where
  pub status : ScanStatus
  pub engine : String
  pub signature_version : Option String
  pub finding_codes : List String

-- The copy that `promoteToCanonical` makes.
pub record CanonicalObject : Type 0 where
  pub bucket : String
  pub key : String
  pub provider_version_id : Option String

-- The object storage, the scanner and the hash, which fail with an exception. A stream is read once;
-- one tick asks for each object at most once, so an answer depends on the object alone. The copy
-- that a tick reads back is the one that it made before.
pub record Services (Stream : Type 0) : Type 0 where
  pub get_object_stream : (bucket key : String) → Result Stream
  pub scan : Stream → Result ScanResult
  pub promote_to_canonical :
      (quarantine_bucket quarantine_key canonical_key : String) → Result CanonicalObject
  pub head_size : (bucket key : String) → Result ℕ
  pub digest : Stream → Result String
  -- `Buffer.from(text, "hex")`.
  pub from_hex : String → List ℕ

pub record Settings : Type 0 where
  pub owner : String
  pub lease_seconds : ℕ
  pub orphan_hours : ℕ

-- `event` of evidence.service.ts, without the payload of the event.
abbrev pub event :
    EvidenceAsset
    → Option String
    → (user_id correlation_id : String) → Option String
    → String
    → Db
    → Db
event asset version_id user correlation causation event_type db = record db {
  outbox =
      db.outbox
      ++ record {
        aggregate_id = asset.id;
        aggregate_version = asset.row_version;
        evidence_version_id = version_id;
        event_type = event_type;
        correlation_id = correlation;
        causation_id = causation;
        organization_id = asset.organization_id;
        actor_id = user;
      }
        ∷ [];
}
