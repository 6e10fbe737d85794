-- ===== src/Evidence/Holds.antt =====
-- The legal holds of an asset (`placeHold`, `releaseHold` and `activeHold` of evidence.service.ts).
pub mod Settled
use team_nivaran.Common.{
  ℕ, ◌+◌, String, Bool, true, false, ◌&&◌, not, Option, none, some, List, [], ◌∷◌, ◌++◌, ◌==◌, eqb,
  is_none, is_text, filled, if◌then◌else◌,
}
use team_nivaran.Common.Results.{
  Result, ok, err, conflict, not_found, require, or_throw, written, ◌>>=◌, ◌>>◌,
}
use team_nivaran.Evidence.Model.{
  AssetStatus, awaiting_content, processing, active, on_hold, HoldAction, placed, released,
  LegalHold, EvidenceAsset, Db, Client, event,
}

-- The caller of a command, and the clock.
pub record Caller : Type 0 where
  pub user_id : String
  pub organization_id : String
  pub correlation_id : String
  pub now : ℕ

abbrev pub is_placed : HoldAction → Bool
is_placed placed = true
is_placed released = false

abbrev pub is_placed_on : String → String → LegalHold → Bool
is_placed_on asset_id organization_id h =
    h.organization_id == organization_id && h.evidence_asset_id == asset_id && is_placed h.action

abbrev pub is_release_on : String → String → String → LegalHold → Bool
is_release_on asset_id organization_id hold_id h =
    h.organization_id == organization_id
    && h.evidence_asset_id == asset_id
    && not (is_placed h.action)
    && is_text h.related_hold_id hold_id

abbrev pub is_asset : String → String → EvidenceAsset → Bool
is_asset id organization_id a = a.id == id && a.organization_id == organization_id

abbrev pub hold_row : AssetStatus → Caller → EvidenceAsset → EvidenceAsset
hold_row status caller a = record a {
  status = status;
  row_version = a.row_version + 1;
  updated_by = caller.user_id;
}

abbrev pub released_status : EvidenceAsset → AssetStatus
released_status asset =
    if is_none (filled asset.current_version_id)
    then (if eqb asset.latest_version_number 0 then awaiting_content else processing)
    else active

-- `cases.assertAccessible` asks the Case Service, and may fail.
module _ (prisma : Client)
    (assert_accessible : (case_id organization_id : String) → Result (Unit {0})) where
  open prisma use {asset_table, hold_table}

  unfoldable pub active_hold : String → String → List LegalHold → Option LegalHold
  active_hold asset_id organization holds =
      elim (hold_table.find_latest (is_placed_on asset_id organization) (λ h. h.acted_at) holds) [
        | none ↦ none
        | some p ↦ elim (hold_table.find_first (is_release_on asset_id organization p.id) holds) [
          | some r ↦ none
          | none ↦ some p
        ]
      ]

  -- A row of the table of holds, and the new status of the asset.
  abbrev pub add_hold :
      EvidenceAsset → LegalHold → AssetStatus → Caller → Db → Result (Db × LegalHold)
  add_hold asset hold status caller db = do
    (updated, assets) ←
        written (asset_table.update (λ a. a.id == asset.id) (hold_row status caller) db.assets)
    ok (
      event updated none caller.user_id caller.correlation_id none "evidence.legal_hold.changed"
          (record db { assets = assets; holds = db.holds ++ hold ∷ [] }),
      hold,
    )

  abbrev pub placed_hold : String → String → Caller → Db → LegalHold
  placed_hold id reason caller db = record {
    id = hold_table.new_id db.holds;
    organization_id = caller.organization_id;
    evidence_asset_id = id;
    action = placed;
    reason = reason;
    actor_id = caller.user_id;
    acted_at = caller.now;
    related_hold_id = none;
  }

  unfoldable pub place_hold : String → (reason : String) → Caller → Db → Result (Db × LegalHold)
  place_hold id reason caller db = do
    asset ←
        or_throw (asset_table.find_first (is_asset id caller.organization_id) db.assets)
          (not_found "Evidence not found.")
    assert_accessible asset.primary_case_id caller.organization_id
    require (is_none (active_hold id caller.organization_id db.holds))
        (conflict "Evidence is already on legal hold.")
    add_hold asset (placed_hold id reason caller db) on_hold caller db

  abbrev pub release_of : String → String → String → Caller → Db → LegalHold
  release_of id hold_id reason caller db = record (placed_hold id reason caller db) {
    action = released;
    related_hold_id = some hold_id;
  }

  abbrev pub is_hold : String → Option LegalHold → Bool
  is_hold hold_id none = false
  is_hold hold_id (some h) = h.id == hold_id

  unfoldable pub release_hold :
      String → (hold_id reason : String) → Caller → Db → Result (Db × LegalHold)
  release_hold id hold_id reason caller db = do
    asset ←
        or_throw (asset_table.find_first (is_asset id caller.organization_id) db.assets)
          (not_found "Evidence not found.")
    assert_accessible asset.primary_case_id caller.organization_id
    require (is_hold hold_id (active_hold id caller.organization_id db.holds))
        (conflict "The legal hold is not active.")
    add_hold asset (release_of id hold_id reason caller db) (released_status asset) caller db
