-- ===== src/Evidence/Rows.antt =====
-- What the worker needs of a version and its asset, and the rows that it writes (processing.worker.ts).
use team_nivaran.Common.{
  ℕ, String, Bool, true, false, ◌&&◌, Option, none, some, List, [], ◌∷◌, eqb, filled, if◌then◌else◌,
}
use team_nivaran.Common.Results.{
  Exception, bad_request, not_found, conflict, forbidden, unauthorized, unprocessable, internal,
}
use team_nivaran.Evidence.Model.{
  AssetStatus, active, on_hold, VersionStatus, uploaded, scanning, available, rejected, match,
  mismatch, OrphanKind, EvidenceAsset, EvidenceVersion, IntegrityCheck, CanonicalObject,
}

-- A scan's target: the rows, and where the upload is kept.
pub record Target : Type 0 where
  pub asset : EvidenceAsset
  pub version : EvidenceVersion
  pub bucket : String
  pub key : String

abbrev pub is_available : VersionStatus → Bool
is_available available = true
is_available _ = false

abbrev pub is_scannable : VersionStatus → Bool
is_scannable uploaded = true
is_scannable scanning = true
is_scannable _ = false

-- `!version || !asset || !version.quarantineBucket || !version.quarantineKey`, negated.
abbrev pub target_of : Option EvidenceVersion → Option EvidenceAsset → Option Target
target_of none asset = none
target_of (some v) none = none
target_of (some v) (some a) = elim (filled v.quarantine_bucket) [
  | none ↦ none
  | some bucket ↦ elim (filled v.quarantine_key) [
    | none ↦ none
    | some key ↦ some (record { asset = a; version = v; bucket = bucket; key = key })
  ]
]

-- `error.message`.
abbrev pub message : Exception → String
message (bad_request text) = text
message (not_found text) = text
message (conflict text) = text
message (forbidden text) = text
message (unauthorized text) = text
message (unprocessable text) = text
message (internal text) = text

abbrev pub bytes_equal : List ℕ → List ℕ → Bool
bytes_equal [] [] = true
bytes_equal (b ∷ bs) (c ∷ cs) = eqb b c && bytes_equal bs cs
bytes_equal _ _ = false

abbrev pub reject_row : String → ℕ → EvidenceVersion → EvidenceVersion
reject_row engine now v = record v {
  processing_status = rejected;
  scan_engine = some engine;
  scan_completed_at = some now;
  failure_code = some "MALWARE_DETECTED";
}

abbrev pub or_else : Option String → Option String → Option String
or_else none old = old
or_else (some id) old = some id

abbrev pub available_row :
    EvidenceVersion → CanonicalObject → String → ℕ → EvidenceVersion → EvidenceVersion
available_row version copy engine now v = record v {
  processing_status = available;
  canonical_bucket = some copy.bucket;
  canonical_key = some copy.key;
  object_version_id = or_else copy.provider_version_id version.object_version_id;
  scan_engine = some engine;
  scan_completed_at = some now;
  available_at = some now;
  failure_code = none;
}

-- `asset.status === "ON_HOLD" ? "ON_HOLD" : "ACTIVE"`.
abbrev pub promoted_status : AssetStatus → AssetStatus
promoted_status on_hold = on_hold
promoted_status _ = active

abbrev pub check_row : Bool → String → ℕ → IntegrityCheck → IntegrityCheck
check_row same calculated now c = record c {
  status = if same then match else mismatch;
  calculated_sha256 = some calculated;
  completed_at = some now;
}

abbrev pub is_canonical : OrphanKind → Bool
is_canonical OrphanKind.canonical = true
is_canonical _ = false

-- What `promote` needs of the version's own columns.
pub record Expected : Type 0 where
  pub canonical_key : String
  pub sha256 : String
  pub size_bytes : ℕ

abbrev pub expected_of : EvidenceVersion → Option Expected
expected_of v = elim (filled v.canonical_key) [
  | none ↦ none
  | some key ↦ elim (filled v.sha256) [
    | none ↦ none
    | some hash ↦ elim v.size_bytes [
      | none ↦ none
      | some size ↦ some (record { canonical_key = key; sha256 = hash; size_bytes = size })
    ]
  ]
]
