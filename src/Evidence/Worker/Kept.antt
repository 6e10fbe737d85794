-- ===== src/Evidence/Worker/Kept.antt =====
-- The writes of the worker that make no version available.
use team_nivaran.Common.{
  ℕ, String, ◌≡◌, ap, refl, inl, inr, Bool, true, false, Option, none, some, List, Memᴰ, arith,
  ◌==◌, Bool-cases, Option-cases,
}
use team_nivaran.Common.Lists.{update_where, Memᴰ-update_where}
use team_nivaran.Common.Results.{ok, Result-cases}
use team_nivaran.Common.Tables.{Table}
use team_nivaran.Evidence.Model.{
  EvidenceAsset, EvidenceVersion, ProcessingJob, Db, Client, Services, Settings,
}
use team_nivaran.Evidence.Jobs.{fail_version, is_exhausted, record_failure, fail}
use team_nivaran.Evidence.Rows.{Target, is_available, reject_row}
use team_nivaran.Evidence.Worker.{reject_infected}

-- Every available version of a list stands in an earlier list.
abbrev pub Keeps : List EvidenceVersion → List EvidenceVersion → Type 0
Keeps before after =
    (v : EvidenceVersion) → Memᴰ v after → is_available v.processing_status ≡ true → Memᴰ v before

pub Keeps-same : (before after : List EvidenceVersion) → after ≡ before → Keeps before after
Keeps-same before after same v m h = rw same at m

pub Keeps-trans : (a b c : List EvidenceVersion) → Keeps a b → Keeps b c → Keeps a c
Keeps-trans a b c first then_ v m h = first v (then_ v m h) h

-- An update to a status other than AVAILABLE.
pub Keeps-update :
    (p : EvidenceVersion → Bool) (f : EvidenceVersion → EvidenceVersion)
    (rows : List EvidenceVersion)
    → ((x : EvidenceVersion) → is_available (f x).processing_status ≡ false)
    → Keeps rows (update_where p f rows)
Keeps-update p f rows away v m h =
    let (x, listed, made) = Memᴰ-update_where p f rows v m in
    elim (Bool-cases (p x)) [
      | inl met ↦
          let at_x : v ≡ f x = rw met at made in
          absurd
            (cc (away x, h, ap (λ (r : EvidenceVersion). is_available r.processing_status) at_x))
      | inr other ↦ let at_x : v ≡ x = rw other at made in rw at_x listed
    ]

-- What one write by key leaves of a status other than AVAILABLE.
Keeps-written :
    (table : Table EvidenceVersion) (p : EvidenceVersion → Bool)
    (f : EvidenceVersion → EvidenceVersion) (rows : List EvidenceVersion) (row : EvidenceVersion)
    (rest after : List EvidenceVersion)
    → table.update p f rows ≡ some (row, rest)
    → after ≡ rest
    → ((x : EvidenceVersion) → is_available (f x).processing_status ≡ false)
    → Keeps rows after
Keeps-written table p f rows row rest after done same away =
    let parts = table.update_some p f rows row rest done in
    rw (same, parts.0) (Keeps-update p f rows away)

module _ {Stream : Type 0} (prisma : Client) (services : Services Stream)
    (settings : Settings) where
  record_failure_versions :
      (job : ProcessingJob) (code : String) (asset : Option EvidenceAsset)
      (version : Option EvidenceVersion) (now : ℕ) (db after : Db) (u : Unit {0})
      → record_failure prisma settings job code asset version now db ≡ ok (after, u)
      → Keeps db.versions after.versions
  unfolding record_failure
  record_failure_versions job code asset none now db after u h =
      Keeps-same db.versions after.versions (ground arith)
  record_failure_versions job code asset (some version) now db after u h =
      elim (Bool-cases (is_exhausted job)) [
        | inr going ↦ Keeps-same db.versions after.versions (ground arith)
        | inl last ↦
            elim (Option-cases (
              prisma.version_table.update (λ v. v.id == version.id) (fail_version code)
                db.versions)) [
                  | inl gone ↦ absurd (ground arith)
                  | inr ((row, versions), done) ↦
                      Keeps-written prisma.version_table (λ v. v.id == version.id)
                        (fail_version code) db.versions row versions after.versions done
                        (ground arith) (λ x. refl)
                ]
      ]

  pub fail_versions :
      (job : ProcessingJob) (code : String) (asset : Option EvidenceAsset)
      (version : Option EvidenceVersion) (now : ℕ) (db : Db)
      → Keeps db.versions (fail prisma settings job code asset version now db).0.versions
  unfolding fail
  fail_versions job code asset version now db =
      elim (Result-cases (record_failure prisma settings job code asset version now db)) [
        | inl (e, refused) ↦ Keeps-same db.versions _ (rw refused refl)
        | inr ((after, u), done) ↦
            rw done (record_failure_versions job code asset version now db after u done)
      ]

  pub reject_infected_versions :
      (job : ProcessingJob) (target : Target) (engine : String) (now : ℕ) (db after : Db)
      (u : Unit {0})
      → reject_infected prisma services settings job target engine now db ≡ ok (after, u)
      → Keeps db.versions after.versions
  unfolding reject_infected
  reject_infected_versions job target engine now db after u h =
      elim (Option-cases (
        prisma.version_table.update (λ v. v.id == target.version.id) (reject_row engine now)
          db.versions)) [
            | inl gone ↦ absurd (ground arith)
            | inr ((row, versions), done) ↦
                Keeps-written prisma.version_table (λ v. v.id == target.version.id)
                  (reject_row engine now) db.versions row versions after.versions done
                  (ground arith) (λ x. refl)
          ]
