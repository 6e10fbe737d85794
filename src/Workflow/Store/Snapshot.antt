-- ===== src/Workflow/Store/Snapshot.antt =====
-- When the evidence that was validated still stands.
use team_nivaran.Common.{
  String, ◌≡◌, refl, ◌↔◌, inl, inr, true, some, List, [], ◌∷◌, arith, eq_iff, Option-cases,
}
use team_nivaran.Common.Lists.{All}
use team_nivaran.Common.Results.{ok}
use team_nivaran.Workflow.Rules.{EvidenceItem}
use team_nivaran.Workflow.Store.{item_by_id, is_unchanged, assert_snapshot_current}

-- The version is pinned and present, with the same content, and is available, clean and authoritative.
pub record IsUnchanged (pinned current : List EvidenceItem) (id : String) : Type 0 where
  pub before : EvidenceItem
  pub now : EvidenceItem
  pub was_pinned : item_by_id id pinned ≡ some before
  pub is_present : item_by_id id current ≡ some now
  pub content : before.sha256 ≡ now.sha256
  pub available : now.processing_status ≡ "AVAILABLE"
  pub clean : now.malware_status ≡ "CLEAN"
  pub authoritative : now.authoritative ≡ true

module _ (pinned current : List EvidenceItem) where
  IsUnchanged-to :
      (id : String)
      → is_unchanged (item_by_id id pinned) (item_by_id id current) ≡ true
      → IsUnchanged pinned current id
  IsUnchanged-to id h = elim (Option-cases (item_by_id id pinned)) [
    | inl e ↦ absurd (ground arith)
    | inr (before, e) ↦ elim (Option-cases (item_by_id id current)) [
      | inl f ↦ absurd (ground arith)
      | inr (now, f) ↦ record {
        before = before;
        now = now;
        was_pinned = e;
        is_present = f;
        content = ground (arith, eq_iff before.sha256 now.sha256);
        available = ground (arith, eq_iff now.processing_status "AVAILABLE");
        clean = ground (arith, eq_iff now.malware_status "CLEAN");
        authoritative = ground arith;
      }
    ]
  ]

  IsUnchanged-from :
      (id : String)
      → IsUnchanged pinned current id
      → is_unchanged (item_by_id id pinned) (item_by_id id current) ≡ true
  IsUnchanged-from id u =
      rw (u.was_pinned, u.is_present)
        (ground (
          arith,
          eq_iff u.before.sha256 u.now.sha256,
          eq_iff u.now.processing_status "AVAILABLE",
          eq_iff u.now.malware_status "CLEAN",
        ))

  -- `assertSnapshotCurrent` passes exactly when every selected version is unchanged.
  pub assert_snapshot_current_iff :
      (selected : List String)
      → (assert_snapshot_current pinned current selected ≡ ok tt)
        ↔ All (IsUnchanged pinned current) selected
  unfolding assert_snapshot_current
  assert_snapshot_current_iff [] = (λ h. tt, λ h. refl)
  assert_snapshot_current_iff (id ∷ selected) =
      let (to, from) = assert_snapshot_current_iff selected in
      (
        λ h. (IsUnchanged-to id (ground arith), to (ground arith)),
        λ u. rw (IsUnchanged-from id u.0) (from u.1),
      )
