-- ===== src/Audit/Tests/Encoding.antt =====
-- A text for each JSON value, from which the value can be told: the tests take it for
-- `JSON.stringify`. Each part is followed by the rest of the text.
use Prim.Native.Char.{Char, code}
use team_nivaran.Common.{
  ℕ, zero, suc, ◌+◌, ◌*◌, ◌/◌, ◌%◌, ◌≤◌, String, ◌≡◌, ◌∙◌, sym, inl, inr, eqb, Bool-cases,
  if◌then◌else◌, refl, ap, Bool, true, false, arith,
}
use team_nivaran.Audit.Json.{
  Json, null, bool, num, str, arr, obj, Items, nil, item, Fields, end, field,
}

-- Each character after a `1`, and a `0` at the end.
abbrev pub put_text : String → String → String
put_text String.[] rest = String.◌∷◌ "0" rest
put_text (String.◌∷◌ c s) rest = String.◌∷◌ "1" (String.◌∷◌ c (put_text s rest))

abbrev tag : Char → String → String
tag c rest = String.◌∷◌ c rest

abbrev pub put_bool : Bool → String → String
put_bool true rest = tag "1" rest
put_bool false rest = tag "0" rest

abbrev mutual
  pub put : Json → String → String
  put null rest = tag "n" rest
  put (bool b) rest = tag "b" (put_bool b rest)
  put (num text) rest = tag "d" (put_text text rest)
  put (str text) rest = tag "s" (put_text text rest)
  put (arr items) rest = tag "a" (put_items items rest)
  put (obj fields) rest = tag "o" (put_fields fields rest)

  pub put_items : Items → String → String
  put_items nil rest = tag "0" rest
  put_items (item value items) rest = tag "1" (put value (put_items items rest))

  pub put_fields : Fields → String → String
  put_fields end rest = tag "0" rest
  put_fields (field k value fields) rest = tag "1" (put_text k (put value (put_fields fields rest)))

abbrev pub first_code : String → ℕ
first_code String.[] = 0
first_code (String.◌∷◌ c s) = code c

abbrev rest_of : String → String
rest_of String.[] = String.[]
rest_of (String.◌∷◌ c s) = s

abbrev first_char : String → Char
first_char String.[] = "0"
first_char (String.◌∷◌ c s) = c

put_text_injective : (s t r u : String) → put_text s r ≡ put_text t u → (s ≡ t) × (r ≡ u)
put_text_injective String.[] String.[] r u h = (refl, ap rest_of h)
put_text_injective String.[] (String.◌∷◌ c t) r u h = absurd (omega (arith, ap first_code h))
put_text_injective (String.◌∷◌ c s) String.[] r u h = absurd (omega (arith, ap first_code h))
put_text_injective (String.◌∷◌ c s) (String.◌∷◌ d t) r u h =
    let inner = ap rest_of h in
    let (same, rest) = put_text_injective s t r u (ap rest_of inner) in
    ((λ i. String.◌∷◌ (ap first_char inner i) (same i)), rest)

put_bool_injective : (b c : Bool) (r u : String) → put_bool b r ≡ put_bool c u → (b ≡ c) × (r ≡ u)
put_bool_injective true true r u h = (refl, ap rest_of h)
put_bool_injective true false r u h = absurd (omega (arith, ap first_code h))
put_bool_injective false true r u h = absurd (omega (arith, ap first_code h))
put_bool_injective false false r u h = (refl, ap rest_of h)

mutual
  put_injective : (a b : Json) (r u : String) → put a r ≡ put b u → (a ≡ b) × (r ≡ u)
  put_injective null null r u h = (refl, ap rest_of h)
  put_injective null (bool c) r u h = absurd (omega (arith, ap first_code h))
  put_injective null (num w) r u h = absurd (omega (arith, ap first_code h))
  put_injective null (str w) r u h = absurd (omega (arith, ap first_code h))
  put_injective null (arr w) r u h = absurd (omega (arith, ap first_code h))
  put_injective null (obj w) r u h = absurd (omega (arith, ap first_code h))
  put_injective (bool b) null r u h = absurd (omega (arith, ap first_code h))
  put_injective (bool b) (bool c) r u h =
      let (same, rest) = put_bool_injective b c r u (ap rest_of h) in (ap bool same, rest)
  put_injective (bool b) (num w) r u h = absurd (omega (arith, ap first_code h))
  put_injective (bool b) (str w) r u h = absurd (omega (arith, ap first_code h))
  put_injective (bool b) (arr w) r u h = absurd (omega (arith, ap first_code h))
  put_injective (bool b) (obj w) r u h = absurd (omega (arith, ap first_code h))
  put_injective (num v) null r u h = absurd (omega (arith, ap first_code h))
  put_injective (num v) (bool c) r u h = absurd (omega (arith, ap first_code h))
  put_injective (num v) (num w) r u h =
      let (same, rest) = put_text_injective v w r u (ap rest_of h) in (ap num same, rest)
  put_injective (num v) (str w) r u h = absurd (omega (arith, ap first_code h))
  put_injective (num v) (arr w) r u h = absurd (omega (arith, ap first_code h))
  put_injective (num v) (obj w) r u h = absurd (omega (arith, ap first_code h))
  put_injective (str v) null r u h = absurd (omega (arith, ap first_code h))
  put_injective (str v) (bool c) r u h = absurd (omega (arith, ap first_code h))
  put_injective (str v) (num w) r u h = absurd (omega (arith, ap first_code h))
  put_injective (str v) (str w) r u h =
      let (same, rest) = put_text_injective v w r u (ap rest_of h) in (ap str same, rest)
  put_injective (str v) (arr w) r u h = absurd (omega (arith, ap first_code h))
  put_injective (str v) (obj w) r u h = absurd (omega (arith, ap first_code h))
  put_injective (arr v) null r u h = absurd (omega (arith, ap first_code h))
  put_injective (arr v) (bool c) r u h = absurd (omega (arith, ap first_code h))
  put_injective (arr v) (num w) r u h = absurd (omega (arith, ap first_code h))
  put_injective (arr v) (str w) r u h = absurd (omega (arith, ap first_code h))
  put_injective (arr v) (arr w) r u h =
      let (same, rest) = put_items_injective v w r u (ap rest_of h) in (ap arr same, rest)
  put_injective (arr v) (obj w) r u h = absurd (omega (arith, ap first_code h))
  put_injective (obj v) null r u h = absurd (omega (arith, ap first_code h))
  put_injective (obj v) (bool c) r u h = absurd (omega (arith, ap first_code h))
  put_injective (obj v) (num w) r u h = absurd (omega (arith, ap first_code h))
  put_injective (obj v) (str w) r u h = absurd (omega (arith, ap first_code h))
  put_injective (obj v) (arr w) r u h = absurd (omega (arith, ap first_code h))
  put_injective (obj v) (obj w) r u h =
      let (same, rest) = put_fields_injective v w r u (ap rest_of h) in (ap obj same, rest)

  put_items_injective :
      (a b : Items) (r u : String) → put_items a r ≡ put_items b u → (a ≡ b) × (r ≡ u)
  put_items_injective nil nil r u h = (refl, ap rest_of h)
  put_items_injective nil (item w b) r u h = absurd (omega (arith, ap first_code h))
  put_items_injective (item v a) nil r u h = absurd (omega (arith, ap first_code h))
  put_items_injective (item v a) (item w b) r u h =
      let (first, more) = put_injective v w (put_items a r) (put_items b u) (ap rest_of h) in
      let (same, rest) = put_items_injective a b r u more in ((λ i. item (first i) (same i)), rest)

  put_fields_injective :
      (a b : Fields) (r u : String) → put_fields a r ≡ put_fields b u → (a ≡ b) × (r ≡ u)
  put_fields_injective end end r u h = (refl, ap rest_of h)
  put_fields_injective end (field l w b) r u h = absurd (omega (arith, ap first_code h))
  put_fields_injective (field k v a) end r u h = absurd (omega (arith, ap first_code h))
  put_fields_injective (field k v a) (field l w b) r u h =
      let (key, after) =
        put_text_injective k l (put v (put_fields a r)) (put w (put_fields b u)) (ap rest_of h) in
      let (first, more) = put_injective v w (put_fields a r) (put_fields b u) after in
      let (same, rest) = put_fields_injective a b r u more in
      ((λ i. field (key i) (first i) (same i)), rest)

abbrev pub encode : Json → String
encode value = put value String.[]

pub encode_injective : (a b : Json) → encode a ≡ encode b → a ≡ b
encode_injective a b h = (put_injective a b String.[] String.[] h).0

-- Binary digits, the lowest first, and the number that they stand for.
abbrev put_bits : ℕ → ℕ → String
put_bits zero n = String.[]
put_bits (suc fuel) zero = String.[]
put_bits (suc fuel) (suc n) =
    String.◌∷◌ (if eqb (suc n % 2) 1 then "1" else "0") (put_bits fuel (suc n / 2))

abbrev number_of : String → ℕ
number_of String.[] = 0
number_of (String.◌∷◌ c s) = (if eqb (code c) 49 then 1 else 0) + 2 * number_of s

abbrev pub binary : ℕ → String
binary n = put_bits n n

number_of-put_bits : (fuel n : ℕ) → n ≤ fuel → number_of (put_bits fuel n) ≡ n
number_of-put_bits zero n h = omega arith
number_of-put_bits (suc fuel) zero h = refl
number_of-put_bits (suc fuel) (suc n) h =
    let rest = number_of-put_bits fuel (suc n / 2) (omega arith) in
    elim (Bool-cases (eqb (suc n % 2) 1)) [
      | inl odd ↦
          let is_odd : suc n % 2 ≡ 1 = ground arith in rw (odd, rest) (omega (arith, is_odd))
      | inr even ↦
          let is_even : suc n % 2 ≡ 0 = ground arith in rw (even, rest) (omega (arith, is_even))
    ]

pub binary_injective : (m n : ℕ) → binary m ≡ binary n → m ≡ n
binary_injective m n h =
    sym (number_of-put_bits m m (omega arith))
    ∙ ap number_of h
    ∙ number_of-put_bits n n (omega arith)
