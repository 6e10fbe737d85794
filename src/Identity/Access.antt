-- ===== src/Identity/Access.antt =====
-- `toEffectiveIdentity` of auth.service.ts: the roles and permissions of a user in an organization.
pub mod Scope
use Prim.Native.Char.{Char, code}
use team_nivaran.Common.{
  ℕ, String, Bool, true, false, Option, none, some, List, [], ◌∷◌, ◌++◌, map, ◌==◌, ltb, leb, ◌+◌,
  ◌&&◌, if◌then◌else◌,
}
use team_nivaran.Common.Lists.{select, flat}
use team_nivaran.Common.Results.{Result, ok, err, forbidden}

pub record Role : Type 0 where
  pub name : String
  pub permissions : List String

pub record Assignment : Type 0 where
  pub organization_id : String
  pub role : Role

pub record User : Type 0 where
  pub id : String
  pub email_normalized : String
  pub email_display : String
  pub display_name : String
  pub password_hash : Option String
  pub is_active : Bool  -- the status is ACTIVE
  pub failed_login_count : ℕ
  pub locked_until : Option ℕ
  pub last_login_at : Option ℕ
  pub memberships : List String  -- the organizations of the ACTIVE ones, at most one (`take: 1`)
  pub user_roles : List Assignment

pub record EffectiveIdentity : Type 0 where
  pub user_id : String
  pub organization_id : String
  pub display_name : String
  pub email : String
  pub roles : List String
  pub permissions : List String

-- The place of a character in the order of UTF-16 code units: the characters of two units stand
-- where the surrogates do, before U+E000.
abbrev unit_order : ℕ → ℕ
unit_order n = if leb 57344 n && ltb n 65536 then n + 1114112 else n

-- The order of `Array.prototype.sort` on texts, by code units.
unfoldable pub text_lt : String → String → Bool
text_lt String.[] String.[] = false
text_lt String.[] (String.◌∷◌ d t) = true
text_lt (String.◌∷◌ c s) String.[] = false
text_lt (String.◌∷◌ c s) (String.◌∷◌ d t) =
    let rest = text_lt s t in
    let left = unit_order (code c) in
    let right = unit_order (code d) in
    if ltb left right then true else if ltb right left then false else rest

-- A text put into a sorted list without repetitions.
unfoldable pub insert_text : String → List String → List String
insert_text s [] = s ∷ []
insert_text s (x ∷ xs) =
    let rest = insert_text s xs in
    if s == x then x ∷ xs else if text_lt s x then s ∷ x ∷ xs else x ∷ rest

-- `[...new Set(texts)].sort()`.
unfoldable pub sorted_set : List String → List String
sorted_set [] = []
sorted_set (x ∷ xs) = insert_text x (sorted_set xs)

abbrev pub in_organization : String → Assignment → Bool
in_organization organization_id a = a.organization_id == organization_id

-- The permissions of the roles that the organization has assigned.
abbrev pub granted : String → List Assignment → List String
granted organization_id assignments =
    flat (λ (a : Assignment). a.role.permissions)
      (select (in_organization organization_id) assignments)

unfoldable pub to_effective_identity : User → Result EffectiveIdentity
to_effective_identity user = elim user.memberships [
  | [] ↦ err (forbidden "No active organization membership.")
  | organization_id ∷ more ↦ ok (record {
    user_id = user.id;
    organization_id = organization_id;
    display_name = user.display_name;
    email = user.email_display;
    roles = sorted_set (
        map (λ (a : Assignment). a.role.name)
          (select (in_organization organization_id) user.user_roles));
    permissions = sorted_set (granted organization_id user.user_roles);
  })
]
