-- ===== src/Evidence/Orphans/Safe.antt =====
-- The reconciliation deletes no object that is in use or under a legal hold.
use team_nivaran.Common.{
  ℕ, String, ◌≡◌, ◌≢◌, ◌∙◌, refl, sym, subst, ◌⊎◌, inl, inr, Bool, true, false, Option, none, some,
  List, [], ◌∷◌, Memᴰ, arith, ◌==◌, if◌then◌else◌, Option-cases,
}
use team_nivaran.Common.Lists.{count, count-le_of, Memᴰ-cons}
use team_nivaran.Common.Rows.{count-Memᴰ}
use team_nivaran.Common.Results.{written, Result-cases}
use team_nivaran.Evidence.Model.{
  LegalHold, EvidenceAsset, EvidenceVersion, OrphanCandidate, Db, Client,
}
use team_nivaran.Evidence.Rows.{is_canonical}
use team_nivaran.Evidence.Holds.{is_placed_on, is_release_on}
use team_nivaran.Evidence.Holds.Settled.{IsSettled}
use team_nivaran.Evidence.Orphans.{
  is_release_of, version_of_orphan, asset_of_version, is_held, is_in_use, judge, is_cleaned,
  reconcile_orphans,
}

-- The holds of every asset.
abbrev pub AllSettled : List LegalHold → Type 0
AllSettled holds = (asset_id organization : String) → IsSettled asset_id organization holds

Memᴰ-if :
    (b : Bool) (d : OrphanCandidate) (xs : List OrphanCandidate) (c : OrphanCandidate)
    → Memᴰ c (if b then d ∷ xs else xs)
    → ((b ≡ true) × (c ≡ d)) ⊎ Memᴰ c xs
Memᴰ-if true d xs c m = elim (Memᴰ-cons m) [ inl same ↦ inl (refl, same) | inr old ↦ inr old ]
Memᴰ-if false d xs c m = inr m

module _ (prisma : Client) where
  -- A candidate whose object may go: it is no canonical copy, no version uses it, and every hold of
  -- its asset has been released.
  pub record IsFree (c : OrphanCandidate) (db : Db) : Type 0 where
    pub kind : is_canonical c.kind ≡ false
    pub unused : is_in_use prisma (version_of_orphan prisma c db) c ≡ false
    pub unheld :
        (a : EvidenceAsset)
        → asset_of_version prisma (version_of_orphan prisma c db) db ≡ some a
        → (h : LegalHold) → Memᴰ h db.holds
        → is_placed_on a.id a.organization_id h ≡ true
        → count (is_release_of h.id) db.holds ≢ 0

  held_unless_released :
      (a : EvidenceAsset) (db : Db) (h : LegalHold)
      → IsSettled a.id a.organization_id db.holds
      → is_held prisma (some a) db ≡ false
      → Memᴰ h db.holds
      → is_placed_on a.id a.organization_id h ≡ true
      → count (is_release_of h.id) db.holds ≢ 0
  unfolding is_held
  held_unless_released a db h settled free m met unreleased =
      let p = is_placed_on a.id a.organization_id in
      let key = λ (k : LegalHold). k.acted_at in
      let strict : count (is_release_on a.id a.organization_id h.id) db.holds ≡ 0 = omega (
        arith,
        count-le_of (is_release_on a.id a.organization_id h.id) (is_release_of h.id) db.holds
            (λ (k : LegalHold) (e : is_release_on a.id a.organization_id h.id k ≡ true).
              ground arith),
        unreleased,
      ) in
      elim (Option-cases (prisma.hold_table.find_latest p key db.holds)) [
        | inl missing ↦
            count-Memᴰ p db.holds h m met
              (prisma.hold_table.find_latest_none p key db.holds missing)
        | inr (last, found) ↦
            let (last_met, listed) = prisma.hold_table.find_latest_some p key db.holds last found in
            let late = prisma.hold_table.find_latest_max p key db.holds last h found m met in
            elim (Option-cases (prisma.hold_table.find_first (is_release_of last.id) db.holds)) [
              | inl none_found ↦ absurd (ground arith)
              | inr (r, release) ↦
                  let (r_met, r_listed) =
                    prisma.hold_table.find_first_some (is_release_of last.id) db.holds r release in
                  elim (settled h last m met strict listed last_met) [
                    | inl earlier ↦ absurd (omega (arith, late, earlier))
                    | inr same ↦ count-Memᴰ (is_release_of last.id) db.holds r r_listed r_met (
                        subst (λ (k : LegalHold). count (is_release_of k.id) db.holds ≡ 0)
                          (sym same) unreleased)
                  ]
            ]
      ]

  judge-IsFree :
      (c : OrphanCandidate) (db : Db)
      → AllSettled db.holds
      → is_cleaned prisma (judge prisma c db) ≡ true
      → IsFree c db
  unfolding judge
  judge-IsFree c db settled h =
      let version = version_of_orphan prisma c db in
      let free : is_held prisma (asset_of_version prisma version db) db ≡ false = ground arith in
      record {
        kind = ground arith;
        unused = ground arith;
        unheld = λ a found k m met.
            held_unless_released a db k (settled a.id a.organization_id) (rw found at free) m met;
      }

  asset_of_version-orphans :
      (version : Option EvidenceVersion) (db : Db) (orphans : List OrphanCandidate)
      → asset_of_version prisma version (record db { orphans = orphans })
        ≡ asset_of_version prisma version db
  asset_of_version-orphans none db orphans = refl
  asset_of_version-orphans (some v) db orphans = refl

  -- Every object that the reconciliation deletes is no canonical copy, is used by no version that
  -- it is looked up for, and belongs to an asset, if any, whose holds have all been released; where
  -- of each asset a hold that is not released was placed after all others.
  pub reconcile_orphans-IsFree :
      (candidates : List OrphanCandidate) (now : ℕ) (db : Db) (c : OrphanCandidate)
      → AllSettled db.holds
      → Memᴰ c (reconcile_orphans prisma candidates now db).0.1
      → IsFree c db
  unfolding reconcile_orphans
  reconcile_orphans-IsFree [] now db c settled m = elim m [ ]
  reconcile_orphans-IsFree (d ∷ rest) now db c settled m =
      elim (Result-cases (
        written (
          prisma.orphan_table.update (λ o. o.id == d.id)
            (λ o. record o { status = judge prisma d db; last_checked_at = some now })
            db.orphans))) [
              | inl (e, gone) ↦
                  elim (Memᴰ-if (is_cleaned prisma (judge prisma d db)) d [] c
                    (rw (reconcile_orphans, gone) at m)) [
                      | inl (clean, same) ↦ rw same (judge-IsFree d db settled clean)
                      | inr old ↦ elim old [ ]
                    ]
              | inr ((row, orphans), done) ↦
                  let next : Db = record db { orphans = orphans } in
                  let rest_deleted = (reconcile_orphans prisma rest now next).0.1 in
                  elim (Memᴰ-if (is_cleaned prisma (judge prisma d db)) d rest_deleted c
                    (rw (reconcile_orphans, done) at m)) [
                      | inl (clean, same) ↦ rw same (judge-IsFree d db settled clean)
                      | inr old ↦
                          let later = reconcile_orphans-IsFree rest now next c settled old in
                          record {
                            kind = later.kind;
                            unused = later.unused;
                            unheld = λ a found. later.unheld a (
                                asset_of_version-orphans (version_of_orphan prisma c db) db orphans
                                ∙ found);
                          }
                    ]
            ]
