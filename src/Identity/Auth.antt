-- ===== src/Identity/Auth.antt =====
-- `login`, `refresh` and `logout` of auth.service.ts: sessions of refresh tokens, rotated at each
-- use. Times are in milliseconds.
pub mod Rotation
use team_nivaran.Common.{
  ℕ, ◌+◌, ◌*◌, String, Bool, true, false, not, ◌&&◌, ◌||◌, Option, none, some, List, [], ◌∷◌, ◌++◌,
  ◌==◌, leb, is_none, is_text, if◌then◌else◌,
}
use team_nivaran.Common.Results.{
  Exception, Result, ok, err, unauthorized, forbidden, internal, or_throw, settle, ◌>>=◌, ◌>>◌,
}
use team_nivaran.Common.Tables.{Table}
use team_nivaran.Identity.Access.{User, EffectiveIdentity, to_effective_identity}

pub record Session : Type 0 where
  pub id : String
  pub user_id : String
  pub family_id : String
  pub token_hash : String
  pub previous_token_hash : Option String
  pub expires_at : ℕ
  pub rotated_at : Option ℕ
  pub revoked_at : Option ℕ
  pub revocation_reason : Option String

pub record OutboxRow : Type 0 where
  pub aggregate_id : String
  pub event_type : String
  pub organization_id : String

pub record Db : Type 0 where
  pub users : List User
  pub sessions : List Session
  pub outbox : List OutboxRow

pub record Client : Type 0 where
  pub user_table : Table User
  pub session_table : Table Session

-- What the libraries compute: the normal form of an e-mail address, the check of a password against
-- its Argon2 hash, the SHA-256 of a token, and the signed access token of a session.
pub record Crypto : Type 0 where
  pub normalize : String → String
  pub verify : (hash password : String) → Bool
  pub sha256 : String → String
  pub sign : EffectiveIdentity → (session_id : String) → String

-- The fresh random values and the clock of a call.
pub record Fresh : Type 0 where
  pub refresh_token : String
  pub family_id : String
  pub now : ℕ

pub record TokenPair : Type 0 where
  pub access_token : String
  pub refresh_token : String
  pub expires_in : ℕ
  pub identity : EffectiveIdentity

pub record Settings : Type 0 where
  pub refresh_ttl_seconds : ℕ
  pub access_ttl_seconds : ℕ

abbrev pub has_token : String → Session → Bool
has_token hash s = s.token_hash == hash || is_text s.previous_token_hash hash

abbrev pub is_live_of : String → Session → Bool
is_live_of family_id s = s.family_id == family_id && is_none s.revoked_at

abbrev pub revoke : ℕ → String → Session → Session
revoke now reason s = record s { revoked_at = some now; revocation_reason = some reason }

-- The session with the next token in place of the one used.
abbrev pub rotate : String → String → ℕ → Session → Session
rotate used next now s = record s {
  previous_token_hash = some used;
  token_hash = next;
  rotated_at = some now;
}

-- `!user?.passwordHash || !(await verify(user.passwordHash, password))`, negated.
abbrev pub password_fits : Crypto → User → String → Bool
password_fits crypto user password = elim user.password_hash [
  | none ↦ false
  | some hash ↦ crypto.verify hash password
]

abbrev invalid_credentials : Exception
invalid_credentials = unauthorized "Invalid credentials."

abbrev pub reuse_detected : Exception
reuse_detected = unauthorized "Refresh token reuse detected."

module _ (prisma : Client) (crypto : Crypto) (settings : Settings) where
  open prisma use {user_table, session_table}

  -- The transaction of `login`.
  open_session : User → EffectiveIdentity → Fresh → Db → Result (Db × TokenPair)
  open_session user identity fresh db = do
    let session : Session = record {
      id = session_table.new_id db.sessions;
      user_id = user.id;
      family_id = fresh.family_id;
      token_hash = crypto.sha256 fresh.refresh_token;
      previous_token_hash = none;
      expires_at = fresh.now + settings.refresh_ttl_seconds * 1000;
      rotated_at = none;
      revoked_at = none;
      revocation_reason = none;
    }
    (updated, users) ←
        or_throw
          (user_table.update (λ u. u.id == user.id)
            (λ u. record u {
              failed_login_count = 0;
              locked_until = none;
              last_login_at = some fresh.now;
            })
            db.users)
          (internal "No record was found for an update.")
    ok (
      record db {
        users = users;
        sessions = db.sessions ++ session ∷ [];
        outbox =
            db.outbox
            ++ record {
              aggregate_id = user.id;
              event_type = "identity.authentication.succeeded";
              organization_id = identity.organization_id;
            }
              ∷ [];
      },
      record {
        access_token = crypto.sign identity session.id;
        refresh_token = fresh.refresh_token;
        expires_in = settings.access_ttl_seconds;
        identity = identity;
      },
    )

  -- A failed login is counted on the account, outside any transaction.
  count_failure : User → Db → Db × Result TokenPair
  count_failure user db =
      elim (user_table.update (λ u. u.id == user.id)
        (λ u. record u { failed_login_count = u.failed_login_count + 1 }) db.users) [
          | none ↦ (db, err (internal "No record was found for an update."))
          | some (updated, users) ↦ (record db { users = users }, err invalid_credentials)
        ]

  unfoldable pub login : (email password : String) → Fresh → Db → Db × Result TokenPair
  unfolding open_session count_failure
  login email password fresh db =
      elim (user_table.find_first (λ u. u.email_normalized == crypto.normalize email) db.users) [
        | none ↦ (db, err invalid_credentials)
        | some user ↦
            if not (password_fits crypto user password)
            then count_failure user db
            else if not user.is_active
            then (db, err (forbidden "The account is not active."))
            else settle db
                (do identity ← to_effective_identity user; open_session user identity fresh db)
      ]

  -- `refresh` on a session whose current token was presented.
  rotate_session : Session → Fresh → Db → Db × Result TokenPair
  rotate_session session fresh db =
      if not (is_none session.revoked_at) || leb session.expires_at fresh.now
      then (db, err (unauthorized "Refresh session has expired or been revoked."))
      else elim (user_table.find_first (λ u. u.id == session.user_id) db.users) [
        | none ↦ (db, err (internal "Inconsistent query result."))
        | some user ↦
            if not user.is_active
            then (db, err (forbidden "The account is not active."))
            else settle db (do
              identity ← to_effective_identity user
              (updated, sessions) ←
                  or_throw
                    (session_table.update (λ s. s.id == session.id)
                      (rotate session.token_hash (crypto.sha256 fresh.refresh_token) fresh.now)
                      db.sessions)
                    (internal "No record was found for an update.")
              ok (
                record db { sessions = sessions },
                record {
                  access_token = crypto.sign identity session.id;
                  refresh_token = fresh.refresh_token;
                  expires_in = settings.access_ttl_seconds;
                  identity = identity;
                },
              ))
      ]

  unfoldable pub refresh : (raw_token : String) → Fresh → Db → Db × Result TokenPair
  unfolding rotate_session
  refresh raw_token fresh db =
      let hash = crypto.sha256 raw_token in
      elim (session_table.find_first (has_token hash) db.sessions) [
        | none ↦ (db, err (unauthorized "Invalid refresh token."))
        | some session ↦
            if is_text session.previous_token_hash hash
            then (
              record db {
                sessions =
                    (session_table.update_many (is_live_of session.family_id)
                      (revoke fresh.now "REFRESH_TOKEN_REUSE") db.sessions).1;
              },
              err reuse_detected,
            )
            else rotate_session session fresh db
      ]

  unfoldable pub logout : (raw_token : String) → Fresh → Db → Db
  logout raw_token fresh db = record db {
    sessions =
        (session_table.update_many
          (λ s. s.token_hash == crypto.sha256 raw_token && is_none s.revoked_at)
          (revoke fresh.now "USER_LOGOUT") db.sessions).1;
  }
