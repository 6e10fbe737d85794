-- ===== src/Audit/Patterns.antt =====
-- The patterns that the audit service tests texts by, ignoring the case of ASCII letters
-- (`blockedKey` of audit-crypto.ts, `inferOutcome` and `inferClassification` of event.consumer.ts).
use Prim.Native.Char.{code}
use team_nivaran.Common.{
  ℕ, ◌+◌, String, Bool, true, false, not, ◌&&◌, ◌||◌, List, [], ◌∷◌, map, ltb, leb, eqb,
  if◌then◌else◌,
}
use team_nivaran.Common.Lists.{any}

abbrev pub codes : String → List ℕ
codes String.[] = []
codes (String.◌∷◌ c s) = code c ∷ codes s

abbrev pub lower : ℕ → ℕ
lower c = if leb b'A' c && leb c b'Z' then c + 32 else c

abbrev pub is_prefix : List ℕ → List ℕ → Bool
is_prefix [] text = true
is_prefix (c ∷ word) [] = false
is_prefix (c ∷ word) (d ∷ text) = eqb c d && is_prefix word text

abbrev pub is_word : List ℕ → List ℕ → Bool
is_word [] [] = true
is_word (c ∷ word) (d ∷ text) = eqb c d && is_word word text
is_word _ _ = false

-- A part of the text starts with the word.
abbrev pub contains : List ℕ → List ℕ → Bool
contains word [] = is_prefix word []
contains word (c ∷ text) = is_prefix word (c ∷ text) || contains word text

-- `/(word|...)/i.test(text)`.
abbrev pub matches : List String → String → Bool
matches words text =
    let lowered = map lower (codes text) in any (λ word. contains (codes word) lowered) words

-- `.`: any unit but a line terminator. A character beyond the basic plane has two units.
abbrev pub is_unit : ℕ → Bool
is_unit c = ltb c 65536 && not (eqb c 10 || eqb c 13 || eqb c 8232 || eqb c 8233)

-- `first.?second`, as a whole.
abbrev pub is_pair : List ℕ → List ℕ → List ℕ → Bool
is_pair [] second [] = is_word second []
is_pair [] second (c ∷ text) = is_word second (c ∷ text) || (is_unit c && is_word second text)
is_pair (f ∷ first) second [] = false
is_pair (f ∷ first) second (c ∷ text) = eqb f c && is_pair first second text

abbrev pub is_blocked_word : List ℕ → Bool
is_blocked_word text =
    any (λ word. is_word (codes word) text)
      ("password" ∷ "secret" ∷ "token" ∷ "authorization" ∷ "cookie" ∷ "credential" ∷ "binary"
        ∷ "content" ∷ [])
    || is_pair (codes "private") (codes "key") text
    || is_pair (codes "raw") (codes "body") text

-- An end of the text is a blocked word.
abbrev pub ends_blocked : List ℕ → Bool
ends_blocked [] = is_blocked_word []
ends_blocked (c ∷ text) = is_blocked_word (c ∷ text) || ends_blocked text

-- `blockedKey.test(key)`.
unfoldable pub is_blocked : String → Bool
is_blocked key = ends_blocked (map lower (codes key))

pub data Outcome : Type 0 where
  success failure denied pending informational : Outcome

unfoldable pub infer_outcome : String → Outcome
infer_outcome type =
    if matches ("denied" ∷ "forbidden" ∷ "rejected" ∷ []) type
    then denied
    else if matches ("failed" ∷ "error" ∷ "invalid" ∷ "quarantined" ∷ []) type
    then failure
    else if matches ("requested" ∷ "queued" ∷ "submitted" ∷ "started" ∷ "pending" ∷ []) type
    then pending
    else if matches
        ("created" ∷ "completed" ∷ "approved" ∷ "confirmed" ∷ "verified" ∷ "available" ∷ "recorded"
          ∷ [])
        type
    then success
    else informational

unfoldable pub infer_classification : String → String
infer_classification type =
    if matches ("evidence" ∷ "decision" ∷ "assessment" ∷ "proof" ∷ []) type
    then "CONFIDENTIAL"
    else "INTERNAL"
