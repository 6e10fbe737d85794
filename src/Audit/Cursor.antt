-- ===== src/Audit/Cursor.antt =====
-- The cursors of a search (`encodeCursor` and `decodeCursor` of audit-crypto.ts).
use Prim.Native.Char.{Char, code}
use Prim.Native.String.{◌++◌ as text_append}
use text.Mathlib.TextLemmas.{nil-append, cons-append}
use team_nivaran.Common.{
  ℕ, ◌+◌, ◌/◌, String, ◌≡◌, ◌∙◌, refl, ap, Bool, true, false, not, ◌&&◌, ◌||◌, Option, none, some,
  List, [], ◌∷◌, arith, ◌==◌, eq_self, eqb, ltb, leb, if◌then◌else◌,
}
use team_nivaran.Common.Results.{Result, ok, err, internal, require, or_throw, ◌>>=◌, ◌>>◌}
use mathlib.Core.Option
use team_nivaran.Audit.Json.{
  Json, num, str, obj, Fields, end, field, lookup, fields_of, canonical_value,
  lookup-canonical_value,
}
use team_nivaran.Audit.Model.{Platform}
use team_nivaran.Audit.Chain.{canonical_json}

-- What the code calls of the platform for a cursor.
pub record Codec : Type 0 where
  -- `Buffer.from(text).toString("base64url")` and back.
  pub to_base64url : String → String
  pub of_base64url : String → String
  -- `createHmac("sha256", secret).update(body).digest("base64url")`.
  pub hmac : (secret body : String) → String
  -- `JSON.parse`.
  pub parse : String → Result Json
  -- The number that a JSON text stands for.
  pub number : String → ℕ

pub record CursorInput : Type 0 where
  pub organization_id : String
  pub filters_hash : String
  pub occurred_at : String
  pub id : String

abbrev is_dot : Char → Bool
is_dot c = eqb (code c) b'.'

abbrev pub has_no_dot : String → Bool
has_no_dot String.[] = true
has_no_dot (String.◌∷◌ c s) = not (is_dot c) && has_no_dot s

abbrev put_first : Char → List String → List String
put_first c [] = String.◌∷◌ c String.[] ∷ []
put_first c (part ∷ parts) = String.◌∷◌ c part ∷ parts

-- `value.split(".")`.
abbrev pub split_dot : String → List String
split_dot String.[] = String.[] ∷ []
split_dot (String.◌∷◌ c s) =
    let rest = split_dot s in if is_dot c then String.[] ∷ rest else put_first c rest

-- The first two parts, where both are there and not empty.
abbrev pub two_parts : List String → Option (String × String)
two_parts [] = none
two_parts (body ∷ []) = none
two_parts (body ∷ signature ∷ rest) =
    if body == "" || signature == "" then none else some (body, signature)

-- `parsed.key !== text`, negated.
abbrev pub is_str : Option Json → String → Bool
is_str (some (str a)) b = a == b
is_str _ b = false

abbrev pub is_num : Option Json → String → Bool
is_num (some (num a)) b = a == b
is_num _ b = false

module _ (platform : Platform) (codec : Codec) where
  open codec use {to_base64url, of_base64url, hmac, parse, number}

  abbrev pub payload : CursorInput → ℕ → Fields
  payload input expires_at = field "v" (num "1") (
      field "organizationId" (str input.organization_id) (
        field "filtersHash" (str input.filters_hash) (
          field "occurredAt" (str input.occurred_at) (
            field "id" (str input.id) (field "expiresAt" (num (platform.digits expires_at)) end)))))

  unfoldable pub encode_cursor : CursorInput → (secret : String) → (ttl_seconds now : ℕ) → String
  encode_cursor input secret ttl_seconds now =
      let body =
        to_base64url (canonical_json platform (obj (payload input (now / 1000 + ttl_seconds)))) in
      text_append body (String.◌∷◌ "." (hmac secret body))

  -- `parsed.expiresAt < now`, false where it is no number.
  abbrev is_past : Option Json → ℕ → Bool
  is_past (some (num text)) seconds = ltb (number text) seconds
  is_past _ seconds = false

  unfoldable pub decode_cursor :
      String → (organization_id filters_hash secret : String) → (now : ℕ) → Result Json
  decode_cursor value organization filters secret now = do
    (body, signature) ← or_throw (two_parts (split_dot value)) (internal "CURSOR_INVALID")
    require (signature == hmac secret body) (internal "CURSOR_INVALID")
    parsed ← parse (of_base64url body)
    require
        (is_num (lookup "v" (fields_of parsed)) "1"
          && is_str (lookup "organizationId" (fields_of parsed)) organization
          && is_str (lookup "filtersHash" (fields_of parsed)) filters
          && not (is_past (lookup "expiresAt" (fields_of parsed)) (now / 1000)))
        (internal "CURSOR_INVALID")
    ok parsed

  -- The value that a cursor holds.
  abbrev pub encoded : CursorInput → ℕ → Json
  encoded input expires_at = canonical_value platform.before (obj (payload input expires_at))

  -- What a cursor relies on, for the value that it holds: the encodings undo each other, and
  -- base64url and a signature are not empty and have no dot.
  pub record IsCodec (input : CursorInput) (secret : String) (expires_at : ℕ) : Type 0 where
    pub base64url :
        of_base64url (to_base64url (platform.stringify (encoded input expires_at)))
        ≡ platform.stringify (encoded input expires_at)
    pub json : parse (platform.stringify (encoded input expires_at)) ≡ ok (encoded input expires_at)
    pub numbers : number (platform.digits expires_at) ≡ expires_at
    pub body_filled : (to_base64url (platform.stringify (encoded input expires_at)) == "") ≡ false
    pub body_plain :
        has_no_dot (to_base64url (platform.stringify (encoded input expires_at))) ≡ true
    pub signature_filled :
        (hmac secret (to_base64url (platform.stringify (encoded input expires_at))) == "") ≡ false
    pub signature_plain :
        has_no_dot (hmac secret (to_base64url (platform.stringify (encoded input expires_at))))
        ≡ true

split_dot_plain : (s : String) → has_no_dot s ≡ true → split_dot s ≡ s ∷ []
split_dot_plain String.[] h = refl
split_dot_plain (String.◌∷◌ c s) h = rw (split_dot_plain s (ground arith)) (ground arith)

split_dot_cons :
    (c : Char) (s : String)
    → is_dot c ≡ false
    → split_dot (String.◌∷◌ c s) ≡ put_first c (split_dot s)
split_dot_cons c s h = rw h refl

split_dot_append :
    (s t : String)
    → has_no_dot s ≡ true
    → has_no_dot t ≡ true
    → split_dot (text_append s (String.◌∷◌ "." t)) ≡ s ∷ t ∷ []
split_dot_append String.[] t h k =
    ap split_dot (nil-append (String.◌∷◌ "." t))
    ∙ ap (λ parts. String.[] ∷ parts) (split_dot_plain t k)
split_dot_append (String.◌∷◌ c s) t h k =
    ap split_dot (cons-append c s (String.◌∷◌ "." t))
    ∙ split_dot_cons c (text_append s (String.◌∷◌ "." t)) (ground arith)
    ∙ ap (put_first c) (split_dot_append s t (ground arith) k)

module _ (platform : Platform) (codec : Codec) where
  encode_cursor-parts :
      (input : CursorInput) (secret : String) (ttl_seconds now : ℕ)
      → IsCodec platform codec input secret (now / 1000 + ttl_seconds)
      → two_parts (split_dot (encode_cursor platform codec input secret ttl_seconds now))
        ≡ some (
          codec.to_base64url
              (platform.stringify (encoded platform codec input (now / 1000 + ttl_seconds))),
          codec.hmac secret (
              codec.to_base64url
                (platform.stringify (encoded platform codec input (now / 1000 + ttl_seconds)))),
        )
  unfolding encode_cursor
  encode_cursor-parts input secret ttl_seconds now laws =
      let value = encoded platform codec input (now / 1000 + ttl_seconds) in
      let body = codec.to_base64url (platform.stringify value) in
      ap two_parts
        (split_dot_append body (codec.hmac secret body) laws.body_plain laws.signature_plain)
      ∙ (rw (laws.body_filled, laws.signature_filled) refl)

  -- The value under a key of an encoded cursor.
  encoded_at :
      (input : CursorInput) (expires_at : ℕ) (key : String)
      → lookup key (fields_of (encoded platform codec input expires_at))
        ≡ Option.map
            (canonical_value platform.before)
            (lookup key (payload platform codec input expires_at))
  encoded_at input expires_at key =
      lookup-canonical_value platform.before key (payload platform codec input expires_at) refl

  -- A cursor that is decoded with the secret of its encoding gives back the encoded value, with the
  -- time and the id, exactly where the organization and the filters are the same and the cursor has
  -- not expired; otherwise it is refused.
  pub decode_cursor-encode_cursor :
      (input : CursorInput) (organization filters secret : String) (ttl_seconds now later : ℕ)
      → IsCodec platform codec input secret (now / 1000 + ttl_seconds)
      → (decode_cursor platform codec
            (encode_cursor platform codec input secret ttl_seconds now)
            organization
            filters
            secret
            later
          ≡ (if input.organization_id == organization
                && input.filters_hash == filters
                && leb (later / 1000) (now / 1000 + ttl_seconds)
              then ok (encoded platform codec input (now / 1000 + ttl_seconds))
              else err (internal "CURSOR_INVALID")))
        × (lookup "occurredAt" (fields_of (encoded platform codec input (now / 1000 + ttl_seconds)))
            ≡ some (str input.occurred_at))
        × (lookup "id" (fields_of (encoded platform codec input (now / 1000 + ttl_seconds)))
            ≡ some (str input.id))
  unfolding decode_cursor canonical_value
  decode_cursor-encode_cursor input organization filters secret ttl_seconds now later laws =
      let expires = now / 1000 + ttl_seconds in
      let value = encoded platform codec input expires in
      let body = codec.to_base64url (platform.stringify value) in
      let at = encoded_at input expires in
      let version = at "v" in
      let own = at "organizationId" in
      let same = at "filtersHash" in
      let ends = at "expiresAt" in
      let parts = encode_cursor-parts input secret ttl_seconds now laws in
      (
        rw
            (
              decode_cursor,
              parts,
              eq_self (codec.hmac secret body),
              laws.base64url,
              laws.json,
              version,
              own,
              same,
              ends,
              laws.numbers,
            )
            (ground arith),
        at "occurredAt",
        at "id",
      )
