-- ===== src/Protocol/Base64.antt =====
-- Unpadded base64url as Node's Buffer codes it, and `validateB64u32` of protocol/v1/pairing.ts.
use hugin_agent.Prelude.{
  ℕ, ◌+◌, ◌-◌, ◌*◌, ◌/◌, ◌%◌, ◌<◌, ◌≡◌, refl, Bool, true, ◌&&◌, ◌||◌, List, [], ◌∷◌, leb, ltb, ◌==◌,
  if◌then◌else◌, length, arith,
}
use hugin_agent.Protocol.Version.{codes_eq, codes_eq_iff, all_chars}

-- The value of a character of the alphabet A–Z a–z 0–9 - _.
unfoldable pub sextet : ℕ → ℕ
sextet c =
    if leb b'A' c && leb c b'Z'
    then c - b'A'
    else if leb b'a' c && leb c b'z'
    then c - b'a' + 26
    else if leb b'0' c && leb c b'9'
    then c - b'0' + 52
    else if c == b'-'
    then 62
    else 63

-- The character of a value below 64.
unfoldable pub symbol : ℕ → ℕ
symbol v =
    if ltb v 26
    then v + b'A'
    else if ltb v 52
    then v - 26 + b'a'
    else if ltb v 62
    then v - 52 + b'0'
    else if v == 62
    then b'-'
    else b'_'

abbrev pub in_alphabet : ℕ → Bool
in_alphabet c =
    (leb b'A' c && leb c b'Z')
    || ((leb b'a' c && leb c b'z') || ((leb b'0' c && leb c b'9') || (c == b'-' || c == b'_')))

-- `Buffer.from(s, "base64url")`, for texts over the alphabet.
unfoldable pub decode : List ℕ → List ℕ
decode [] = []
decode (a ∷ []) = []
decode (a ∷ b ∷ []) = (sextet a * 4 + sextet b / 16) ∷ []
decode (a ∷ b ∷ c ∷ []) = (sextet a * 4 + sextet b / 16) ∷ (sextet b % 16 * 16 + sextet c / 4) ∷ []
decode (a ∷ b ∷ c ∷ d ∷ rest) =
    (sextet a * 4 + sextet b / 16)
    ∷ (sextet b % 16 * 16 + sextet c / 4)
    ∷ (sextet c % 4 * 64 + sextet d)
    ∷ decode rest

-- `b64u`
unfoldable pub encode : List ℕ → List ℕ
encode [] = []
encode (x ∷ []) = symbol (x / 4) ∷ symbol (x % 4 * 16) ∷ []
encode (x ∷ y ∷ []) = symbol (x / 4) ∷ symbol (x % 4 * 16 + y / 16) ∷ symbol (y % 16 * 4) ∷ []
encode (x ∷ y ∷ z ∷ rest) =
    symbol (x / 4)
    ∷ symbol (x % 4 * 16 + y / 16)
    ∷ symbol (y % 16 * 4 + z / 64)
    ∷ symbol (z % 64)
    ∷ encode rest

-- `PAIRING_SECRET_RE`, and decode → encode gives the same text.
unfoldable pub validate_b64u32 : List ℕ → Bool
unfolding all_chars
validate_b64u32 s =
    (all_chars in_alphabet s && length s == 43)
    && (length (decode s) == 32 && codes_eq (encode (decode s)) s)

sextet-symbol : (v : ℕ) → v < 64 → sextet (symbol v) ≡ v
unfolding sextet symbol
sextet-symbol v h = ground arith

symbol-in_alphabet : (v : ℕ) → v < 64 → in_alphabet (symbol v) ≡ true
unfolding symbol
symbol-in_alphabet v h = ground arith

abbrev pub Bytes : List ℕ → Type 0
Bytes [] = Unit
Bytes (x ∷ xs) = (x < 256) × Bytes xs

-- What was encoded is decoded again, for every number of bytes.
pub decode-encode : (xs : List ℕ) → Bytes xs → decode (encode xs) ≡ xs
unfolding decode encode
decode-encode [] b = refl
decode-encode (x ∷ []) b =
    ground (arith, sextet-symbol (x / 4) (omega arith), sextet-symbol (x % 4 * 16) (omega arith))
decode-encode (x ∷ y ∷ []) b = ground (
  arith,
  sextet-symbol (x / 4) (omega arith),
  sextet-symbol (x % 4 * 16 + y / 16) (omega arith),
  sextet-symbol (y % 16 * 4) (omega arith),
)
decode-encode (x ∷ y ∷ z ∷ rest) b = ground (
  arith,
  sextet-symbol (x / 4) (omega arith),
  sextet-symbol (x % 4 * 16 + y / 16) (omega arith),
  sextet-symbol (y % 16 * 4 + z / 64) (omega arith),
  sextet-symbol (z % 64) (omega arith),
  decode-encode rest b.1.1.1,
)

pub encode-in_alphabet : (xs : List ℕ) → Bytes xs → all_chars in_alphabet (encode xs) ≡ true
unfolding encode all_chars
encode-in_alphabet [] b = refl
encode-in_alphabet (x ∷ []) b =
    simp (symbol-in_alphabet (x / 4) (omega arith), symbol-in_alphabet (x % 4 * 16) (omega arith))
encode-in_alphabet (x ∷ y ∷ []) b = simp (
  symbol-in_alphabet (x / 4) (omega arith),
  symbol-in_alphabet (x % 4 * 16 + y / 16) (omega arith),
  symbol-in_alphabet (y % 16 * 4) (omega arith),
)
encode-in_alphabet (x ∷ y ∷ z ∷ rest) b = simp (
  symbol-in_alphabet (x / 4) (omega arith),
  symbol-in_alphabet (x % 4 * 16 + y / 16) (omega arith),
  symbol-in_alphabet (y % 16 * 4 + z / 64) (omega arith),
  symbol-in_alphabet (z % 64) (omega arith),
  encode-in_alphabet rest b.1.1.1,
)

length-encode : (xs : List ℕ) → length (encode xs) ≡ (length xs * 4 + 2) / 3
unfolding encode
length-encode [] = omega arith
length-encode (x ∷ []) = omega arith
length-encode (x ∷ y ∷ []) = omega arith
length-encode (x ∷ y ∷ z ∷ rest) = omega (arith, length-encode rest)

-- The canonical texts are exactly one for every 32 bytes: the encoding of 32 bytes is accepted and
-- decodes to them, and two accepted texts that decode to the same bytes are the same text.
pub validate_b64u32_canonical :
    (xs s t : List ℕ)
    → Bytes xs
    → length xs ≡ 32
    → (validate_b64u32 (encode xs) ≡ true)
      × (decode (encode xs) ≡ xs)
      × (validate_b64u32 s ≡ true → validate_b64u32 t ≡ true → decode s ≡ decode t → s ≡ t)
unfolding validate_b64u32
validate_b64u32_canonical xs s t b n = (
  ground (
    arith,
    decode-encode xs b,
    encode-in_alphabet xs b,
    length-encode xs,
    codes_eq_iff (encode xs) (encode xs),
  ),
  decode-encode xs b,
  λ p q e. ground (arith, codes_eq_iff (encode (decode s)) s, codes_eq_iff (encode (decode t)) t),
)
