-- ===== src/Identity/Auth/Rotation.antt =====
-- What rotation guarantees: who gets a new pair, and what a used token is good for.
use team_nivaran.Common.{
  ◌≤◌, ◌<◌, String, ◌≡◌, ◌≢◌, ap, ◌∙◌, inl, inr, true, false, ◌&&◌, none, some, List, Memᴰ, arith,
  ◌==◌, eq_iff, eq_self, is_none, is_text, Option-cases, Bool-cases,
}
use team_nivaran.Common.Lists.{
  count, update_where, count-update_where_zero, Memᴰ-update_where, Memᴰ-update_where_self, choose,
}
use team_nivaran.Common.Rows.{update_found, unique_row, count-Memᴰ}
use team_nivaran.Common.Results.{ok, err}
use team_nivaran.Identity.Access.{User, to_effective_identity}
use team_nivaran.Identity.Auth.{
  Session, Db, Client, Crypto, Fresh, TokenPair, Settings, has_token, is_live_of, revoke, rotate,
  reuse_detected, refresh, logout,
}

module _ (prisma : Client) (crypto : Crypto) (settings : Settings) (raw : String) where
  -- The session and the user behind a refresh that succeeds.
  pub record IsRefreshed (fresh : Fresh) (db after : Db) (pair : TokenPair) : Type 0 where
    pub session : Session
    pub listed : Memᴰ session db.sessions
    pub current : session.token_hash ≡ crypto.sha256 raw
    pub unrevoked : session.revoked_at ≡ none
    pub unexpired : fresh.now < session.expires_at
    pub user : User
    pub user_listed : Memᴰ user db.users
    pub owner : user.id ≡ session.user_id
    pub active : user.is_active ≡ true
    pub identity : to_effective_identity user ≡ ok pair.identity
    pub rotated :
        after.sessions
        ≡ update_where
            (λ s. s.id == session.id)
            (rotate (crypto.sha256 raw) (crypto.sha256 fresh.refresh_token) fresh.now)
            db.sessions

  refresh_parts :
      (fresh : Fresh) (db : Db) (pair : TokenPair)
      → (refresh prisma crypto settings raw fresh db).1 ≡ ok pair
      → (s : Session) × (u : User) × (r : Session) × (rows : List Session)
        × (prisma.session_table.find_first (has_token (crypto.sha256 raw)) db.sessions ≡ some s)
        × (prisma.user_table.find_first (λ u. u.id == s.user_id) db.users ≡ some u)
        × (prisma.session_table.update
              (λ x. x.id == s.id)
              (rotate s.token_hash (crypto.sha256 fresh.refresh_token) fresh.now)
              db.sessions
            ≡ some (r, rows))
        × ((refresh prisma crypto settings raw fresh db).0.sessions ≡ rows)
        × (is_text s.previous_token_hash (crypto.sha256 raw) ≡ false)
        × (s.revoked_at ≡ none)
        × (fresh.now < s.expires_at)
        × (u.is_active ≡ true)
        × (to_effective_identity u ≡ ok pair.identity)
  unfolding refresh
  refresh_parts fresh db pair h =
      elim (Option-cases
        (prisma.session_table.find_first (has_token (crypto.sha256 raw)) db.sessions)) [
          | inl e ↦ absurd (ground arith)
          | inr (s, found) ↦
              elim (Option-cases (prisma.user_table.find_first (λ u. u.id == s.user_id) db.users)) [
                | inl e ↦ absurd (ground arith)
                | inr (u, owner) ↦
                    elim (Option-cases (
                      prisma.session_table.update (λ x. x.id == s.id)
                        (rotate s.token_hash (crypto.sha256 fresh.refresh_token) fresh.now)
                        db.sessions)) [
                          | inl e ↦ absurd (ground arith)
                          | inr ((r, rows), changed) ↦ (
                            s,
                            u,
                            r,
                            rows,
                            found,
                            owner,
                            changed,
                            ground arith,
                            ground arith,
                            ground arith,
                            ground arith,
                            ground arith,
                            ground arith,
                          )
                        ]
              ]
        ]

  has_token_current :
      (s : Session)
      → has_token (crypto.sha256 raw) s ≡ true
      → is_text s.previous_token_hash (crypto.sha256 raw) ≡ false
      → s.token_hash ≡ crypto.sha256 raw
  has_token_current s h other = ground (arith, eq_iff s.token_hash (crypto.sha256 raw))

  pub refresh-IsRefreshed :
      (fresh : Fresh) (db : Db) (pair : TokenPair)
      → (refresh prisma crypto settings raw fresh db).1 ≡ ok pair
      → IsRefreshed fresh db (refresh prisma crypto settings raw fresh db).0 pair
  refresh-IsRefreshed fresh db pair h =
      let (s, u, r, rows, found, owner, changed, same, other, unrevoked, unexpired, active, known) =
        refresh_parts fresh db pair h in
      let (met, listed) = prisma.session_table.find_first_some _ db.sessions s found in
      let (owner_met, user_listed) = prisma.user_table.find_first_some _ db.users u owner in
      let current = has_token_current s met other in
      record {
        session = s;
        listed = listed;
        current = current;
        unrevoked = unrevoked;
        unexpired = unexpired;
        user = u;
        user_listed = user_listed;
        owner = (eq_iff u.id s.user_id).0 owner_met;
        active = active;
        identity = known;
        rotated =
            same
            ∙ (update_found prisma.session_table _ _ db.sessions r rows changed).0
            ∙ ap
                (λ used.
                  update_where (λ (x : Session). x.id == s.id)
                    (rotate used (crypto.sha256 fresh.refresh_token) fresh.now) db.sessions)
                current;
      }

  -- A presented token that is a session's previous one is a reuse: it is refused, and no session of
  -- that session's family is left alive.
  refresh_previous :
      (fresh : Fresh) (db : Db) (r : Session)
      → prisma.session_table.find_first (has_token (crypto.sha256 raw)) db.sessions ≡ some r
      → is_text r.previous_token_hash (crypto.sha256 raw) ≡ true
      → ((refresh prisma crypto settings raw fresh db).1 ≡ err reuse_detected)
        × (count (is_live_of r.family_id) (refresh prisma crypto settings raw fresh db).0.sessions
            ≡ 0)
  unfolding refresh
  refresh_previous fresh db r found previous =
      let dead : (refresh prisma crypto settings raw fresh db).0.sessions
          ≡ update_where (is_live_of r.family_id) (revoke fresh.now "REFRESH_TOKEN_REUSE")
              db.sessions =
        ground (
          arith,
          prisma.session_table.update_many_lem (is_live_of r.family_id)
              (revoke fresh.now "REFRESH_TOKEN_REUSE") db.sessions,
        ) in
      (
        ground arith,
        rw dead (
            count-update_where_zero (is_live_of r.family_id) (is_live_of r.family_id)
              (revoke fresh.now "REFRESH_TOKEN_REUSE") db.sessions (λ s. ground arith) (λ s m. m)),
      )

  -- The session that knows the token after the rotation knows it as its previous one.
  previous_of :
      (sessions : List Session) (s x r : Session) (fresh : Fresh)
      → count (has_token (crypto.sha256 raw)) sessions ≤ 1
      → Memᴰ s sessions
      → s.token_hash ≡ crypto.sha256 raw
      → Memᴰ x sessions
      → r
        ≡ choose
            (x.id == s.id)
            (rotate (crypto.sha256 raw) (crypto.sha256 fresh.refresh_token) fresh.now x)
            x
      → has_token (crypto.sha256 raw) r ≡ true
      → is_text r.previous_token_hash (crypto.sha256 raw) ≡ true
  previous_of sessions s x r fresh unique s_listed current x_listed made met =
      elim (Bool-cases (x.id == s.id)) [
        | inl same ↦ let changed = rw same at made in rw changed (eq_self (crypto.sha256 raw))
        | inr other ↦
            let kept : r ≡ x = rw other at made in
            let x_is_s =
              unique_row (has_token (crypto.sha256 raw)) sessions x s unique x_listed
                (rw (← kept) met) s_listed
                (ground (arith, (eq_iff s.token_hash (crypto.sha256 raw)).1 current)) in
            let clash : (x.id == s.id) ≡ true =
              (eq_iff x.id s.id).1 (ap (λ (y : Session). y.id) x_is_s) in
            cc
      ]

  -- A refresh token works once: when it is presented again after a refresh with it succeeded, the
  -- request is refused as a reuse and every session of the family is revoked. At most one session
  -- knows the token beforehand.
  pub refresh_once :
      (fresh fresh' : Fresh) (db : Db) (pair : TokenPair)
      → count (has_token (crypto.sha256 raw)) db.sessions ≤ 1
      → (refresh prisma crypto settings raw fresh db).1 ≡ ok pair
      → let after = (refresh prisma crypto settings raw fresh db).0 in
        let again = refresh prisma crypto settings raw fresh' after in
        (again.1 ≡ err reuse_detected)
        × (r : Session) × Memᴰ r after.sessions
        × (has_token (crypto.sha256 raw) r ≡ true)
        × (count (is_live_of r.family_id) again.0.sessions ≡ 0)
  refresh_once fresh fresh' db pair unique h =
      let done = refresh-IsRefreshed fresh db pair h in
      let after = (refresh prisma crypto settings raw fresh db).0 in
      let s = done.session in
      let rot = rotate (crypto.sha256 raw) (crypto.sha256 fresh.refresh_token) fresh.now in
      let knows = has_token (crypto.sha256 raw) in
      let kept : Memᴰ (rot s) after.sessions = rw done.rotated (
        Memᴰ-update_where_self (λ (x : Session). x.id == s.id) rot db.sessions s done.listed
          (eq_self s.id)) in
      elim (Option-cases (prisma.session_table.find_first knows after.sessions)) [
        | inl missing ↦ absurd (
            count-Memᴰ knows after.sessions (rot s) kept
              (ground (arith, eq_self (crypto.sha256 raw)))
              (prisma.session_table.find_first_none knows after.sessions missing))
        | inr (r, found) ↦
            let (met, listed) = prisma.session_table.find_first_some knows after.sessions r found in
            let (x, x_listed, made) =
              Memᴰ-update_where (λ (x : Session). x.id == s.id) rot db.sessions r
                (rw done.rotated at listed) in
            let previous =
              previous_of db.sessions s x r fresh unique done.listed done.current x_listed made
                met in
            let (refused, dead) = refresh_previous fresh' after r found previous in
            (refused, r, listed, met, dead)
      ]

  -- After a logout with a token, no refresh with it succeeds.
  pub refresh-ne-ok_after_logout :
      (fresh fresh' : Fresh) (db : Db) (pair : TokenPair)
      → (refresh prisma crypto settings raw fresh' (logout prisma crypto settings raw fresh db)).1
        ≢ ok pair
  unfolding logout
  refresh-ne-ok_after_logout fresh fresh' db pair h =
      let after = logout prisma crypto settings raw fresh db in
      let done = refresh-IsRefreshed fresh' after pair h in
      let ends = λ (s : Session). s.token_hash == crypto.sha256 raw && is_none s.revoked_at in
      let (x, listed, made) =
        Memᴰ-update_where ends (revoke fresh.now "USER_LOGOUT") db.sessions done.session
          (rw prisma.session_table.update_many_lem at done.listed) in
      elim (Bool-cases (ends x)) [
        | inl ended ↦ cc (rw ended at made, done.unrevoked)
        | inr kept ↦
            let same : done.session ≡ x = rw kept at made in
            ground (
              arith,
              same,
              done.unrevoked,
              (eq_iff done.session.token_hash (crypto.sha256 raw)).1 done.current,
            )
      ]
