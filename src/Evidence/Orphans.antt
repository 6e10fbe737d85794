-- ===== src/Evidence/Orphans.antt =====
-- The objects that the reconciliation of the worker deletes (the last loop of `reconcile` of
-- processing.worker.ts).
pub mod Safe
use team_nivaran.Common.{
  ℕ, String, Bool, true, false, ◌&&◌, ◌||◌, not, Option, none, some, List, [], ◌∷◌, ◌++◌, ◌==◌,
  is_none, is_text, filled, if◌then◌else◌,
}
use team_nivaran.Common.Results.{Result, ok, err, written, ◌>>=◌}
use team_nivaran.Evidence.Model.{
  OrphanStatus, retained, cleaned, resolved, HoldAction, LegalHold, EvidenceAsset, EvidenceVersion,
  OrphanCandidate, Db, Client,
}
use team_nivaran.Evidence.Rows.{is_available, is_canonical}
use team_nivaran.Evidence.Holds.{is_placed, is_placed_on}

abbrev pub is_release_of : String → LegalHold → Bool
is_release_of hold_id h = is_text h.related_hold_id hold_id && not (is_placed h.action)

module _ (prisma : Client) where
  open prisma use {asset_table, version_table, orphan_table, hold_table}

  abbrev pub version_of_orphan : OrphanCandidate → Db → Option EvidenceVersion
  version_of_orphan c db = elim (filled c.evidence_version_id) [
    | none ↦ none
    | some id ↦ version_table.find_first (λ v. v.id == id) db.versions
  ]

  abbrev pub asset_of_version : Option EvidenceVersion → Db → Option EvidenceAsset
  asset_of_version none db = none
  asset_of_version (some v) db = asset_table.find_first (λ a. a.id == v.evidence_asset_id) db.assets

  -- `placed && !released`.
  unfoldable pub is_held : Option EvidenceAsset → Db → Bool
  is_held none db = false
  is_held (some a) db =
      elim (hold_table.find_latest (is_placed_on a.id a.organization_id) (λ h. h.acted_at)
        db.holds) [
          | none ↦ false
          | some p ↦ is_none (hold_table.find_first (is_release_of p.id) db.holds)
        ]

  -- `version?.canonicalKey === candidate.objectKey || version?.processingStatus === "AVAILABLE"`.
  abbrev pub is_in_use : Option EvidenceVersion → OrphanCandidate → Bool
  is_in_use none c = false
  is_in_use (some v) c = is_text v.canonical_key c.object_key || is_available v.processing_status

  -- The new status of a candidate; the object of a cleaned one is deleted.
  unfoldable pub judge : OrphanCandidate → Db → OrphanStatus
  judge c db =
      let version = version_of_orphan c db in
      if is_canonical c.kind
      then retained
      else if is_held (asset_of_version version db) db
      then retained
      else if is_in_use version c
      then resolved
      else cleaned

  abbrev pub is_cleaned : OrphanStatus → Bool
  is_cleaned cleaned = true
  is_cleaned _ = false

  -- The loop over the candidates, with those whose objects have been deleted, in order. That a
  -- deletion fails is caught.
  unfoldable pub reconcile_orphans :
      List OrphanCandidate → ℕ → Db → (Db × List OrphanCandidate) × Result (Unit {0})
  reconcile_orphans [] now db = ((db, []), ok tt)
  reconcile_orphans (c ∷ rest) now db =
      elim (written (
        orphan_table.update (λ o. o.id == c.id)
          (λ o. record o { status = judge c db; last_checked_at = some now }) db.orphans)) [
            | err e ↦ ((db, (if is_cleaned (judge c db) then c ∷ [] else [])), err e)
            | ok (row, orphans) ↦
                let ((after, deleted), outcome) =
                  reconcile_orphans rest now (record db { orphans = orphans }) in
                ((after, (if is_cleaned (judge c db) then c ∷ deleted else deleted)), outcome)
          ]
