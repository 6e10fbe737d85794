-- ===== src/Identity/Tests.antt =====
-- Runs of the sign-in commands of auth.service.ts.
use team_nivaran.Common.{◌≡◌, ◌≢◌, ◌↔◌, refl, true, none, some, List, [], ◌∷◌, Memᴰ, arith, ◌==◌}
use team_nivaran.Common.Lists.{count}
use team_nivaran.Common.Results.{ok, err}
use team_nivaran.Common.ListTable.{list_table}
use team_nivaran.Identity.Access.{
  Assignment, User, EffectiveIdentity, to_effective_identity, sorted_set, insert_text,
}
use team_nivaran.Identity.Access.Scope.{permission_iff}
use team_nivaran.Identity.Auth.{
  Session, Db, Client, Crypto, Fresh, TokenPair, Settings, has_token, is_live_of, reuse_detected,
  refresh, logout,
}
use team_nivaran.Identity.Auth.Rotation.{refresh_once, refresh-ne-ok_after_logout}

abbrev client : Client
client = record { user_table = list_table "user-2"; session_table = list_table "session-2" }

abbrev crypto : Crypto
crypto = record {
  normalize = λ email. email;
  verify = λ hash password. hash == password;
  sha256 = λ token. token;
  sign = λ identity session. session;
}

abbrev settings : Settings
settings = record { refresh_ttl_seconds = 600; access_ttl_seconds = 60 }

abbrev assignments : List Assignment
assignments =
    record {
      organization_id = "o";
      role = record { name = "analyst"; permissions = "case:read" ∷ [] };
    }
    ∷ record { organization_id = "p"; role = record { name = "admin"; permissions = "all" ∷ [] } }
    ∷ []

abbrev user : User
user = record {
  id = "u";
  email_normalized = "a@b";
  email_display = "A@b";
  display_name = "A";
  password_hash = some "secret";
  is_active = true;
  failed_login_count = 0;
  locked_until = none;
  last_login_at = none;
  memberships = "o" ∷ [];
  user_roles = assignments;
}

abbrev identity : EffectiveIdentity
identity = record {
  user_id = "u";
  organization_id = "o";
  display_name = "A";
  email = "A@b";
  roles = "analyst" ∷ [];
  permissions = "case:read" ∷ [];
}

identified : to_effective_identity user ≡ ok identity
unfolding to_effective_identity sorted_set insert_text
identified = refl

permission_example : Memᴰ "all" identity.permissions ↔ (
    (a : Assignment) × Memᴰ a assignments
    × (a.organization_id ≡ "o")
    × Memᴰ "all" a.role.permissions)
permission_example = permission_iff user identity "all" identified

abbrev before : Db
before = record {
  users = user ∷ [];
  sessions =
      record {
        id = "s";
        user_id = "u";
        family_id = "f";
        token_hash = "first";
        previous_token_hash = none;
        expires_at = 1000;
        rotated_at = none;
        revoked_at = none;
        revocation_reason = none;
      }
      ∷ [];
  outbox = [];
}

abbrev fresh : Fresh
fresh = record { refresh_token = "second"; family_id = "f"; now = 10 }

abbrev later : Fresh
later = record { refresh_token = "third"; family_id = "f"; now = 20 }

abbrev pair : TokenPair
pair = record { access_token = "s"; refresh_token = "second"; expires_in = 60; identity = identity }

refreshed : (refresh client crypto settings "first" fresh before).1 ≡ ok pair
unfolding refresh to_effective_identity sorted_set insert_text
refreshed = refl

refresh_once_example :
    let after = (refresh client crypto settings "first" fresh before).0 in
    let again = refresh client crypto settings "first" later after in
    (again.1 ≡ err reuse_detected)
    × (r : Session) × Memᴰ r after.sessions
    × (has_token "first" r ≡ true)
    × (count (is_live_of r.family_id) again.0.sessions ≡ 0)
refresh_once_example =
    refresh_once client crypto settings "first" fresh later before pair (omega arith) refreshed

logout_example :
    (refresh client crypto settings "first" later
      (logout client crypto settings "first" fresh before)).1
    ≢ ok pair
logout_example = refresh-ne-ok_after_logout client crypto settings "first" fresh later before pair
