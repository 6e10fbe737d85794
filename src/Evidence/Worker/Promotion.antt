-- ===== src/Evidence/Worker/Promotion.antt =====
-- The promotion of a version whose upload was scanned as clean.
use team_nivaran.Common.{
  ℕ, String, ◌≡◌, ◌∙◌, ap, refl, ◌⊎◌, inl, inr, true, some, List, [], ◌∷◌, Memᴰ, arith, ◌==◌,
  eq_iff, Bool-cases, Option-cases, filled, truncate,
}
use team_nivaran.Common.Lists.{update_where, Memᴰ-update_where}
use team_nivaran.Common.Results.{ok, Result-cases}
use team_nivaran.Evidence.Model.{
  clean, EvidenceVersion, ProcessingJob, Db, Client, ScanResult, CanonicalObject, Services,
  Settings,
}
use team_nivaran.Evidence.Jobs.{fail}
use team_nivaran.Evidence.Rows.{
  Target, is_available, bytes_equal, Expected, expected_of, available_row, message,
}
use team_nivaran.Evidence.Worker.{
  hash_object, check_copy, make_available, keep_orphan, finish_promotion, promote,
}
use team_nivaran.Evidence.Worker.Kept.{Keeps, fail_versions}

bytes_equal_path : (xs ys : List ℕ) → bytes_equal xs ys ≡ true → xs ≡ ys
bytes_equal_path [] [] h = refl
bytes_equal_path [] (y ∷ ys) h = cc
bytes_equal_path (x ∷ xs) [] h = cc
bytes_equal_path (x ∷ xs) (y ∷ ys) h = ground (arith, bytes_equal_path xs ys)

module _ {Stream : Type 0} (prisma : Client) (services : Services Stream)
    (settings : Settings) where
  -- A scan of a version's upload that found it clean.
  pub record IsScanned (b : EvidenceVersion) (bucket key : String) : Type 0 where
    pub in_bucket : filled b.quarantine_bucket ≡ some bucket
    pub at_key : filled b.quarantine_key ≡ some key
    pub upload : Stream
    pub opened : services.get_object_stream bucket key ≡ ok upload
    pub result : ScanResult
    pub scanned : services.scan upload ≡ ok result
    pub is_clean : result.status ≡ clean

  -- What the worker has seen of a version that it makes available: its upload was scanned as clean,
  -- and its copy has the recorded size and hash.
  pub record IsVerified (b : EvidenceVersion) (copy : CanonicalObject) : Type 0 where
    pub bucket : String
    pub key : String
    pub scan : IsScanned b bucket key
    pub expected : Expected
    pub recorded : expected_of b ≡ some expected
    pub copied : services.promote_to_canonical bucket key expected.canonical_key ≡ ok copy
    pub size : services.head_size copy.bucket copy.key ≡ ok expected.size_bytes
    pub calculated : String
    pub hashed : hash_object prisma services settings copy.bucket copy.key ≡ ok calculated
    pub same_hash : services.from_hex expected.sha256 ≡ services.from_hex calculated

  -- A version that the worker makes available from the version `b`: it names the copy.
  pub record IsMade (b v : EvidenceVersion) : Type 0 where
    pub copy : CanonicalObject
    pub verified : IsVerified b copy
    pub id : v.id ≡ b.id
    pub canonical_bucket : v.canonical_bucket ≡ some copy.bucket
    pub canonical_key : v.canonical_key ≡ some copy.key

  -- Every available version of a list stands in an earlier list, or is made from `b`.
  abbrev pub KeepsOr : EvidenceVersion → List EvidenceVersion → List EvidenceVersion → Type 0
  KeepsOr b before after =
      (v : EvidenceVersion)
      → Memᴰ v after
      → is_available v.processing_status ≡ true
      → Memᴰ v before ⊎ IsMade b v

  pub KeepsOr-Keeps :
      (b : EvidenceVersion) (before after : List EvidenceVersion)
      → Keeps before after
      → KeepsOr b before after
  KeepsOr-Keeps b before after keeps v m h = inl (keeps v m h)

  pub KeepsOr-after :
      (b : EvidenceVersion) (before middle after : List EvidenceVersion)
      → Keeps before middle
      → KeepsOr b middle after
      → KeepsOr b before after
  KeepsOr-after b before middle after keeps rest v m h = elim (rest v m h) [
    | inl old ↦ inl (keeps v old h)
    | inr made ↦ inr made
  ]

  pub KeepsOr-then :
      (b : EvidenceVersion) (before middle after : List EvidenceVersion)
      → KeepsOr b before middle
      → Keeps middle after
      → KeepsOr b before after
  KeepsOr-then b before middle after first keeps v m h = first v (keeps v m h) h

  -- A failure on a target makes nothing available.
  pub failed-KeepsOr :
      (job : ProcessingJob) (code : String) (target : Target) (now : ℕ) (db : Db)
      → KeepsOr target.version db.versions
          (fail prisma settings job code
            (some target.asset)
            (some target.version)
            now
            db).0.versions
  failed-KeepsOr job code target now db = KeepsOr-Keeps target.version db.versions _ (
      fail_versions prisma services settings job code (some target.asset) (some target.version) now
        db)

  check_copy_parts :
      (copy : CanonicalObject) (expected : Expected) (u : Unit {0})
      → check_copy prisma services settings copy expected ≡ ok u
      → (services.head_size copy.bucket copy.key ≡ ok expected.size_bytes)
        × (calculated : String) × (hash_object prisma services settings copy.bucket copy.key
            ≡ ok calculated)
        × (services.from_hex expected.sha256 ≡ services.from_hex calculated)
  unfolding check_copy
  check_copy_parts copy expected u h =
      elim (Result-cases (services.head_size copy.bucket copy.key)) [
        | inl (e, broken) ↦ absurd (ground arith)
        | inr (size, sized) ↦
            elim (Result-cases (hash_object prisma services settings copy.bucket copy.key)) [
              | inl (e, broken) ↦ absurd (ground arith)
              | inr (calculated, hashed) ↦ (
                ground arith,
                calculated,
                hashed,
                bytes_equal_path (services.from_hex expected.sha256) (services.from_hex calculated)
                    (ground arith),
              )
            ]
      ]

  make_available_versions :
      (job : ProcessingJob) (target : Target) (copy : CanonicalObject) (engine : String) (now : ℕ)
      (db after : Db) (u : Unit {0})
      → make_available prisma services settings job target copy engine now db ≡ ok (after, u)
      → after.versions
        ≡ update_where
            (λ v. v.id == target.version.id)
            (available_row target.version copy engine now)
            db.versions
  unfolding make_available
  make_available_versions job target copy engine now db after u h =
      let p = λ (v : EvidenceVersion). v.id == target.version.id in
      let f = available_row target.version copy engine now in
      elim (Option-cases (prisma.version_table.update p f db.versions)) [
        | inl gone ↦ absurd (ground arith)
        | inr ((row, versions), done) ↦
            let parts = prisma.version_table.update_some p f db.versions row versions done in
            let same : after.versions ≡ versions = ground arith in same ∙ parts.0
      ]

  make_available-KeepsOr :
      (job : ProcessingJob) (target : Target) (copy : CanonicalObject) (engine : String) (now : ℕ)
      (db after : Db) (u : Unit {0})
      → make_available prisma services settings job target copy engine now db ≡ ok (after, u)
      → IsVerified target.version copy
      → KeepsOr target.version db.versions after.versions
  make_available-KeepsOr job target copy engine now db after u h verified v m available_v =
      let same = make_available_versions job target copy engine now db after u h in
      let p = λ (w : EvidenceVersion). w.id == target.version.id in
      let f = available_row target.version copy engine now in
      let (x, listed, made) = Memᴰ-update_where p f db.versions v (rw same at m) in
      elim (Bool-cases (p x)) [
        | inl met ↦
            let at_x : v ≡ f x = rw met at made in
            inr (record {
              copy = copy;
              verified = verified;
              id = ap (λ (r : EvidenceVersion). r.id) at_x ∙ (eq_iff x.id target.version.id).0 met;
              canonical_bucket = ap (λ (r : EvidenceVersion). r.canonical_bucket) at_x;
              canonical_key = ap (λ (r : EvidenceVersion). r.canonical_key) at_x;
            })
        | inr other ↦ let at_x : v ≡ x = rw other at made in inl (rw at_x listed)
      ]

  finish-KeepsOr :
      (job : ProcessingJob) (target : Target) (expected : Expected) (copy : CanonicalObject)
      (engine : String) (now : ℕ) (db : Db)
      → IsScanned target.version target.bucket target.key
      → expected_of target.version ≡ some expected
      → services.promote_to_canonical target.bucket target.key expected.canonical_key ≡ ok copy
      → KeepsOr target.version db.versions
          (finish_promotion prisma services settings job target expected copy engine now
            db).0.versions
  unfolding finish_promotion
  finish-KeepsOr job target expected copy engine now db scanned recorded copied =
      elim (Result-cases (check_copy prisma services settings copy expected)) [
        | inl (e, refused) ↦
            rw (finish_promotion, refused)
              (failed-KeepsOr job (truncate 80 (message e)) target now
                (keep_orphan prisma services settings target copy now db))
        | inr (u, passed) ↦
            elim (Result-cases
              (make_available prisma services settings job target copy engine now db)) [
                | inl (e, refused) ↦
                    rw (finish_promotion, passed, refused)
                      (failed-KeepsOr job (truncate 80 (message e)) target now
                        (keep_orphan prisma services settings target copy now db))
                | inr ((after, u'), done) ↦
                    let (size, calculated, hashed, same) =
                      check_copy_parts copy expected u passed in
                    rw (finish_promotion, passed, done)
                      (make_available-KeepsOr job target copy engine now db after u' done (record {
                        bucket = target.bucket;
                        key = target.key;
                        scan = scanned;
                        expected = expected;
                        recorded = recorded;
                        copied = copied;
                        size = size;
                        calculated = calculated;
                        hashed = hashed;
                        same_hash = same;
                      }))
              ]
      ]

  pub promote-KeepsOr :
      (job : ProcessingJob) (target : Target) (engine : String) (now : ℕ) (db : Db)
      → IsScanned target.version target.bucket target.key
      → KeepsOr target.version db.versions
          (promote prisma services settings job target engine now db).0.versions
  unfolding promote
  promote-KeepsOr job target engine now db scanned =
      elim (Option-cases (expected_of target.version)) [
        | inl incomplete ↦
            rw (promote, incomplete)
              (failed-KeepsOr job "VERSION_METADATA_INCOMPLETE" target now db)
        | inr (expected, recorded) ↦
            elim (Result-cases
              (services.promote_to_canonical target.bucket target.key expected.canonical_key)) [
                | inl (e, refused) ↦
                    rw (promote, recorded, refused)
                      (failed-KeepsOr job (truncate 80 (message e)) target now db)
                | inr (copy, copied) ↦
                    rw (promote, recorded, copied)
                      (finish-KeepsOr job target expected copy engine now db scanned recorded
                        copied)
              ]
      ]
