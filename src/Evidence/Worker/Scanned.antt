-- ===== src/Evidence/Worker/Scanned.antt =====
-- A scan makes a version available only after the checks.
use team_nivaran.Common.{
  ℕ, String, ◌≡◌, refl, ◌⊎◌, inl, inr, true, ◌&&◌, Option, none, some, List, Memᴰ, arith, ◌==◌,
  Bool-cases, Option-cases, filled,
}
use team_nivaran.Common.Results.{ok, Result-cases}
use team_nivaran.Evidence.Model.{
  scanning, ScanStatus, clean, infected, error, EvidenceAsset, EvidenceVersion, ProcessingJob, Db,
  Client, ScanResult, Services, Settings,
}
use team_nivaran.Evidence.Jobs.{complete}
use team_nivaran.Evidence.Rows.{Target, is_available, is_scannable, target_of}
use team_nivaran.Evidence.Worker.{
  reject_infected, after_scan, add_attempt, unavailable_scan, mark_scanning, asset_of, try_scan,
  scan_unavailable, scan_target, version_of, scan,
}
use team_nivaran.Evidence.Worker.Kept.{
  Keeps, Keeps-same, Keeps-update, fail_versions, reject_infected_versions,
}
use team_nivaran.Evidence.Worker.Promotion.{
  IsMade, KeepsOr, KeepsOr-Keeps, failed-KeepsOr, KeepsOr-after, KeepsOr-then, promote-KeepsOr,
}

ScanStatus-cases : (s : ScanStatus) → (s ≡ clean) ⊎ ((s ≡ error) ⊎ (s ≡ infected))
ScanStatus-cases clean = inl refl
ScanStatus-cases error = inr (inl refl)
ScanStatus-cases infected = inr (inr refl)

target_of_parts :
    (version : Option EvidenceVersion) (asset : Option EvidenceAsset) (target : Target)
    → target_of version asset ≡ some target
    → (version ≡ some target.version)
      × (filled target.version.quarantine_bucket ≡ some target.bucket)
      × (filled target.version.quarantine_key ≡ some target.key)
target_of_parts none asset target h = cc
target_of_parts (some v) none target h = cc
target_of_parts (some v) (some a) target h = elim (Option-cases (filled v.quarantine_bucket)) [
  | inl gone ↦ absurd (ground arith)
  | inr (bucket, in_bucket) ↦ elim (Option-cases (filled v.quarantine_key)) [
    | inl gone ↦ absurd (ground arith)
    | inr (key, at_key) ↦
        let same : some (record { asset = a; version = v; bucket = bucket; key = key })
            ≡ some target =
          rw (target_of, in_bucket, at_key) at h in
        (ground arith, ground arith, ground arith)
  ]
]

module _ {Stream : Type 0} (prisma : Client) (services : Services Stream)
    (settings : Settings) where
  after_scan-KeepsOr :
      (job : ProcessingJob) (target : Target) (result : ScanResult) (now : ℕ) (db : Db)
      (upload : Stream)
      → filled target.version.quarantine_bucket ≡ some target.bucket
      → filled target.version.quarantine_key ≡ some target.key
      → services.get_object_stream target.bucket target.key ≡ ok upload
      → services.scan upload ≡ ok result
      → KeepsOr prisma services settings target.version db.versions
          (after_scan prisma services settings job target result now db).0.versions
  unfolding after_scan
  after_scan-KeepsOr job target result now db upload in_bucket at_key opened scanned =
      elim (ScanStatus-cases result.status) [
        | inl is_clean ↦
            rw (after_scan, is_clean)
              (promote-KeepsOr prisma services settings job target result.engine now db (record {
                in_bucket = in_bucket;
                at_key = at_key;
                upload = upload;
                opened = opened;
                result = result;
                scanned = scanned;
                is_clean = is_clean;
              }))
        | inr (inl is_error) ↦
            rw (after_scan, is_error)
              (failed-KeepsOr prisma services settings job "SCAN_ERROR" target now db)
        | inr (inr is_infected) ↦
            elim (Result-cases
              (reject_infected prisma services settings job target result.engine now db)) [
                | inl (e, refused) ↦ rw (after_scan, is_infected, refused) (λ v m h. inl m)
                | inr ((after, u), done) ↦
                    rw (after_scan, is_infected, done)
                      (KeepsOr-Keeps prisma services settings target.version db.versions
                        after.versions
                        (reject_infected_versions prisma services settings job target result.engine
                          now db after u done))
              ]
      ]

  add_attempt_versions :
      (job : ProcessingJob) (target : Target) (result : ScanResult) (db noted : Db)
      → add_attempt prisma services settings job target result db ≡ ok noted
      → noted.versions ≡ db.versions
  add_attempt_versions job target result db noted h = ground arith

  try_scan-KeepsOr :
      (job : ProcessingJob) (target : Target) (now : ℕ) (db : Db)
      → filled target.version.quarantine_bucket ≡ some target.bucket
      → filled target.version.quarantine_key ≡ some target.key
      → KeepsOr prisma services settings target.version db.versions
          (try_scan prisma services settings job target now db).0.versions
  unfolding try_scan
  try_scan-KeepsOr job target now db in_bucket at_key =
      elim (Result-cases (services.get_object_stream target.bucket target.key)) [
        | inl (e, refused) ↦ rw (try_scan, refused) (λ v m h. inl m)
        | inr (upload, opened) ↦ elim (Result-cases (services.scan upload)) [
          | inl (e, refused) ↦ rw (try_scan, opened, refused) (λ v m h. inl m)
          | inr (result, scanned) ↦
              elim (Result-cases (add_attempt prisma services settings job target result db)) [
                | inl (e, refused) ↦ rw (try_scan, opened, scanned, refused) (λ v m h. inl m)
                | inr (noted, done) ↦
                    let same = add_attempt_versions job target result db noted done in
                    rw (try_scan, opened, scanned, done)
                      (KeepsOr-after prisma services settings target.version db.versions
                        noted.versions _ (Keeps-same db.versions noted.versions same)
                        (after_scan-KeepsOr job target result now noted upload in_bucket at_key
                          opened scanned))
              ]
        ]
      ]

  scan_unavailable-Keeps :
      (job : ProcessingJob) (target : Target) (now : ℕ) (db : Db)
      → Keeps db.versions (scan_unavailable prisma services settings job target now db).0.versions
  unfolding scan_unavailable
  scan_unavailable-Keeps job target now db =
      let failed = λ (d : Db).
        fail_versions prisma services settings job "SCAN_UNAVAILABLE" (some target.asset)
          (some target.version) now d in
      elim (Result-cases (
        add_attempt prisma services settings job target (unavailable_scan prisma services settings)
          db)) [
            | inl (e, refused) ↦ rw (scan_unavailable, refused) (failed db)
            | inr (noted, done) ↦
                let same =
                  add_attempt_versions job target (unavailable_scan prisma services settings) db
                    noted done in
                rw (scan_unavailable, done) (λ v m h. rw same at (failed noted v m h))
          ]

  mark_scanning-Keeps :
      (target : Target) (db : Db)
      → Keeps db.versions (mark_scanning prisma services settings target db).versions
  mark_scanning-Keeps target db =
      let p =
        λ (v : EvidenceVersion). v.id == target.version.id && is_scannable v.processing_status in
      let f = λ (v : EvidenceVersion). record v { processing_status = scanning } in
      rw (prisma.version_table.update_many_lem p f db.versions)
        (Keeps-update p f db.versions (λ x. refl))

  scan_target-KeepsOr :
      (job : ProcessingJob) (target : Target) (now : ℕ) (db : Db)
      → filled target.version.quarantine_bucket ≡ some target.bucket
      → filled target.version.quarantine_key ≡ some target.key
      → KeepsOr prisma services settings target.version db.versions
          (scan_target prisma services settings job target now db).0.versions
  unfolding scan_target
  scan_target-KeepsOr job target now db in_bucket at_key =
      let marked = mark_scanning prisma services settings target db in
      let tried = try_scan prisma services settings job target now marked in
      let first = try_scan-KeepsOr job target now marked in_bucket at_key in
      let from_start =
        λ (after : List EvidenceVersion)
            (rest : KeepsOr prisma services settings target.version marked.versions after).
          KeepsOr-after prisma services settings target.version db.versions marked.versions after
            (mark_scanning-Keeps target db) rest in
      elim (Result-cases tried.1) [
        | inr (u, done) ↦ rw (scan_target, done) (from_start tried.0.versions first)
        | inl (e, refused) ↦
            rw (scan_target, refused)
              (from_start _ (
                KeepsOr-then prisma services settings target.version marked.versions
                  tried.0.versions _ first (scan_unavailable-Keeps job target now tried.0)))
      ]

  -- Every available version of the later list stands in the earlier one, or was made from one of its
  -- versions.
  abbrev pub IsExplained : List EvidenceVersion → List EvidenceVersion → Type 0
  IsExplained before after =
      (v : EvidenceVersion)
      → Memᴰ v after
      → is_available v.processing_status ≡ true
      → Memᴰ v before
        ⊎ ((b : EvidenceVersion) × Memᴰ b before × IsMade prisma services settings b v)

  pub IsExplained-Keeps :
      (before after : List EvidenceVersion) → Keeps before after → IsExplained before after
  IsExplained-Keeps before after keeps v m h = inl (keeps v m h)

  pub complete_versions :
      (id : String) (now : ℕ) (db : Db)
      → (complete prisma settings id now db).versions ≡ db.versions
  unfolding complete
  complete_versions id now db = refl

  pub scan-IsExplained :
      (job : ProcessingJob) (now : ℕ) (db : Db)
      → IsExplained db.versions (scan prisma services settings job now db).0.versions
  unfolding scan
  scan-IsExplained job now db = elim (Option-cases (filled job.evidence_version_id)) [
    | inl missing ↦
        rw (scan, missing)
          (IsExplained-Keeps db.versions _
            (fail_versions prisma services settings job "VERSION_MISSING" none none now db))
    | inr (id, named) ↦
        let version = version_of prisma services settings job id db in
        let asset = asset_of prisma services settings job db in
        elim (Option-cases (target_of version asset)) [
          | inl missing ↦
              rw (scan, named, missing)
                (IsExplained-Keeps db.versions _ (
                  fail_versions prisma services settings job "QUARANTINE_REFERENCE_MISSING" none
                    none now db))
          | inr (target, ready) ↦
              let (found, in_bucket, at_key) = target_of_parts version asset target ready in
              let (met, listed) =
                prisma.version_table.find_first_some
                  (λ v. v.id == id && v.organization_id == job.organization_id) db.versions
                  target.version found in
              elim (Bool-cases (is_available target.version.processing_status)) [
                | inl done ↦
                    rw (scan, named, ready, done)
                      (IsExplained-Keeps db.versions _
                        (Keeps-same db.versions _ (complete_versions job.id now db)))
                | inr waiting ↦
                    rw (scan, named, ready, waiting)
                      (λ v m h.
                        elim (scan_target-KeepsOr job target now db in_bucket at_key v m h) [
                          | inl old ↦ inl old
                          | inr made ↦ inr (target.version, listed, made)
                        ])
              ]
        ]
  ]
