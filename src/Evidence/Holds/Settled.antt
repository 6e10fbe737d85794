-- ===== src/Evidence/Holds/Settled.antt =====
-- An asset has at most one hold that is not released, and it is its latest.
use team_nivaran.Common.{
  ◌<◌, String, ◌≡◌, ◌≢◌, ◌∙◌, sym, subst, ap, ◌⊎◌, inl, inr, true, none, List, [], ◌∷◌, ◌++◌, Memᴰ,
  arith, Option-cases,
}
use team_nivaran.Common.Lists.{count, Memᴰ-append, count-append}
use team_nivaran.Common.Rows.{count-Memᴰ}
use team_nivaran.Common.Results.{Result, ok, err, Result-cases}
use team_nivaran.Evidence.Model.{LegalHold, Db, Client}
use team_nivaran.Evidence.Holds.{
  Caller, is_placed_on, is_release_on, active_hold, placed_hold, place_hold, release_of,
  release_hold,
}

-- Of an asset's holds, one that is not released is placed after all others.
abbrev pub IsSettled : String → String → List LegalHold → Type 0
IsSettled asset_id organization holds =
    (h k : LegalHold)
    → Memᴰ h holds
    → is_placed_on asset_id organization h ≡ true
    → count (is_release_on asset_id organization h.id) holds ≡ 0
    → Memᴰ k holds
    → is_placed_on asset_id organization k ≡ true
    → (k.acted_at < h.acted_at) ⊎ (k ≡ h)

module _ (prisma : Client)
    (assert_accessible : (case_id organization_id : String) → Result (Unit {0})) where
  -- Where no hold is active, every hold is released.
  all_released :
      (asset_id organization : String) (holds : List LegalHold) (h : LegalHold)
      → IsSettled asset_id organization holds
      → active_hold prisma assert_accessible asset_id organization holds ≡ none
      → Memᴰ h holds
      → is_placed_on asset_id organization h ≡ true
      → count (is_release_on asset_id organization h.id) holds ≢ 0
  unfolding active_hold
  all_released asset_id organization holds h settled idle m met unreleased =
      let p = is_placed_on asset_id organization in
      let key = λ (k : LegalHold). k.acted_at in
      elim (Option-cases (prisma.hold_table.find_latest p key holds)) [
        | inl missing ↦
            count-Memᴰ p holds h m met (prisma.hold_table.find_latest_none p key holds missing)
        | inr (last, found) ↦
            let (last_met, listed) = prisma.hold_table.find_latest_some p key holds last found in
            let late = prisma.hold_table.find_latest_max p key holds last h found m met in
            let q = is_release_on asset_id organization last.id in
            elim (Option-cases (prisma.hold_table.find_first q holds)) [
              | inl none_found ↦ absurd (ground arith)
              | inr (r, release) ↦
                  let (r_met, r_listed) = prisma.hold_table.find_first_some q holds r release in
                  elim (settled h last m met unreleased listed last_met) [
                    | inl earlier ↦ absurd (omega (arith, late, earlier))
                    | inr same ↦ count-Memᴰ q holds r r_listed r_met (
                        subst
                          (λ (k : LegalHold).
                            count (is_release_on asset_id organization k.id) holds ≡ 0)
                          (sym same) unreleased)
                  ]
            ]
      ]

  place_hold_parts :
      (id reason : String) (caller : Caller) (db after : Db) (hold : LegalHold)
      → place_hold prisma assert_accessible id reason caller db ≡ ok (after, hold)
      → (active_hold prisma assert_accessible id caller.organization_id db.holds ≡ none)
        × (after.holds ≡ db.holds ++ placed_hold prisma assert_accessible id reason caller db ∷ [])
  unfolding place_hold
  place_hold_parts id reason caller db after hold h =
      elim (Option-cases
        (active_hold prisma assert_accessible id caller.organization_id db.holds)) [
          | inl idle ↦ (idle, ground arith)
          | inr (other, busy) ↦ absurd (ground arith)
        ]

  release_hold_holds :
      (id hold_id reason : String) (caller : Caller) (db after : Db) (hold : LegalHold)
      → release_hold prisma assert_accessible id hold_id reason caller db ≡ ok (after, hold)
      → after.holds
        ≡ db.holds ++ release_of prisma assert_accessible id hold_id reason caller db ∷ []
  unfolding release_hold
  release_hold_holds id hold_id reason caller db after hold h = ground arith

  place_hold-IsSettled :
      (id reason : String) (caller : Caller) (db after : Db) (hold : LegalHold)
      → IsSettled id caller.organization_id db.holds
      → ((k : LegalHold) → Memᴰ k db.holds → k.acted_at < caller.now)
      → place_hold prisma assert_accessible id reason caller db ≡ ok (after, hold)
      → IsSettled id caller.organization_id after.holds
  place_hold-IsSettled id reason caller db after hold settled newest done h k mh ph unreleased mk
        pk =
      let (idle, grown) = place_hold_parts id reason caller db after hold done in
      let new = placed_hold prisma assert_accessible id reason caller db in
      let q = is_release_on id caller.organization_id h.id in
      let counted : count q db.holds ≡ 0 =
        omega (arith, count-append q db.holds (new ∷ []), ap (count q) grown, unreleased) in
      elim (Memᴰ-append db.holds (rw grown at mh)) [
        | inl old ↦
            absurd (all_released id caller.organization_id db.holds h settled idle old ph counted)
        | inr at_new ↦ elim (Memᴰ-append db.holds (rw grown at mk)) [
          | inl old ↦
              let time : h.acted_at ≡ caller.now = ap (λ (r : LegalHold). r.acted_at) at_new in
              inl (omega (arith, newest k old, time))
          | inr also ↦ inr (also ∙ sym at_new)
        ]
      ]

  release_not_placed :
      (id hold_id reason : String) (caller : Caller) (db : Db)
      → is_placed_on id caller.organization_id
          (release_of prisma assert_accessible id hold_id reason caller db)
        ≢ true
  release_not_placed id hold_id reason caller db h = ground arith

  release_hold-IsSettled :
      (id hold_id reason : String) (caller : Caller) (db after : Db) (hold : LegalHold)
      → IsSettled id caller.organization_id db.holds
      → release_hold prisma assert_accessible id hold_id reason caller db ≡ ok (after, hold)
      → IsSettled id caller.organization_id after.holds
  release_hold-IsSettled id hold_id reason caller db after hold settled done h k mh ph unreleased mk
        pk =
      let grown = release_hold_holds id hold_id reason caller db after hold done in
      let new = release_of prisma assert_accessible id hold_id reason caller db in
      let q = is_release_on id caller.organization_id h.id in
      let counted : count q db.holds ≡ 0 =
        omega (arith, count-append q db.holds (new ∷ []), ap (count q) grown, unreleased) in
      elim (Memᴰ-append db.holds (rw grown at mh)) [
        | inr at_new ↦ absurd (
            release_not_placed id hold_id reason caller db (
              subst (λ (r : LegalHold). is_placed_on id caller.organization_id r ≡ true) at_new ph))
        | inl old_h ↦ elim (Memᴰ-append db.holds (rw grown at mk)) [
          | inr at_new ↦ absurd (
              release_not_placed id hold_id reason caller db (
                subst (λ (r : LegalHold). is_placed_on id caller.organization_id r ≡ true) at_new
                  pk))
          | inl old_k ↦ settled h k old_h ph counted old_k pk
        ]
      ]

  -- The two commands, and the asset of each.
  pub data HoldCommand : Type 0 where
    to_place : (id reason : String) → HoldCommand
    to_release : (id hold_id reason : String) → HoldCommand

  abbrev pub asset_of_command : HoldCommand → String
  asset_of_command (to_place id reason) = id
  asset_of_command (to_release id hold_id reason) = id

  abbrev commit : Db → Result (Db × LegalHold) → Db
  commit db (ok (after, hold)) = after
  commit db (err e) = db

  -- The database after a command, which stays as it is where the command throws.
  abbrev pub run_hold : HoldCommand → Caller → Db → Db
  run_hold (to_place id reason) caller db =
      commit db (place_hold prisma assert_accessible id reason caller db)
  run_hold (to_release id hold_id reason) caller db =
      commit db (release_hold prisma assert_accessible id hold_id reason caller db)

  -- Placing and releasing a hold keep that, of the holds of the asset, one that is not released was
  -- placed after all others, so that there is one at most; where the command comes after all holds.
  pub run_hold-IsSettled :
      (c : HoldCommand) (caller : Caller) (db : Db)
      → IsSettled (asset_of_command c) caller.organization_id db.holds
      → ((k : LegalHold) → Memᴰ k db.holds → k.acted_at < caller.now)
      → IsSettled (asset_of_command c) caller.organization_id (run_hold c caller db).holds
  run_hold-IsSettled (to_place id reason) caller db settled newest =
      elim (Result-cases (place_hold prisma assert_accessible id reason caller db)) [
        | inl (e, refused) ↦ rw refused settled
        | inr ((after, hold), done) ↦
            rw done (place_hold-IsSettled id reason caller db after hold settled newest done)
      ]
  run_hold-IsSettled (to_release id hold_id reason) caller db settled newest =
      elim (Result-cases (release_hold prisma assert_accessible id hold_id reason caller db)) [
        | inl (e, refused) ↦ rw refused settled
        | inr ((after, hold), done) ↦
            rw done (release_hold-IsSettled id hold_id reason caller db after hold settled done)
      ]
