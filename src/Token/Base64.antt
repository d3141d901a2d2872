-- ===== src/Token/Base64.antt =====
-- Go's encoding/base64: RawURLEncoding, and its Strict decoder, as token/token.go uses them.
use mathlib.Core.Option
use authlier.Common.{
  ℕ, ◌+◌, ◌-◌, ◌*◌, ◌/◌, ◌%◌, ◌<◌, ◌≡◌, refl, Bool, not, ◌&&◌, ◌||◌, List, [], ◌∷◌, map, Option,
  none, some, true, arith, All, Bytes, Yields, Yields-map, Yields-bind, Yields-intro, ltb, leb,
  nat_beq, select, if◌then◌else◌,
}
use authlier.Host.{IsByte}

-- The alphabet A-Z a-z 0-9 - _
unfoldable pub encode_char : ℕ → ℕ
encode_char v =
    if ltb v 26
    then 65 + v
    else if ltb v 52
    then 97 + (v - 26)
    else if ltb v 62
    then 48 + (v - 52)
    else if nat_beq v 62
    then b'-'
    else b'_'

unfoldable pub decode_char : ℕ → Option ℕ
decode_char c =
    if leb b'A' c && leb c b'Z'
    then some (c - 65)
    else if leb b'a' c && leb c b'z'
    then some (c - 97 + 26)
    else if leb b'0' c && leb c b'9'
    then some (c - 48 + 52)
    else if nat_beq c b'-'
    then some 62
    else if nat_beq c b'_'
    then some 63
    else none

-- Three bytes are four groups of six bits; a rest of two or one is padded with zero bits.
unfoldable pub split : Bytes → List ℕ
split (a ∷ b ∷ c ∷ rest) =
    a / 4 ∷ (a % 4 * 16 + b / 16) ∷ (b % 16 * 4 + c / 64) ∷ c % 64 ∷ split rest
split (a ∷ b ∷ []) = a / 4 ∷ (a % 4 * 16 + b / 16) ∷ b % 16 * 4 ∷ []
split (a ∷ []) = a / 4 ∷ a % 4 * 16 ∷ []
split [] = []

-- EncodeToString
unfoldable pub encode_to_string : Bytes → Bytes
unfolding encode_char split
encode_to_string bytes = map encode_char (split bytes)

-- The strict decoder refuses bits that are not zero behind the last byte.
unfoldable pub join : List ℕ → Option Bytes
join (s ∷ t ∷ u ∷ v ∷ rest) =
    Option.map (λ bytes. (s * 4 + t / 16) ∷ (t % 16 * 16 + u / 4) ∷ (u % 4 * 64 + v) ∷ bytes)
      (join rest)
join (s ∷ t ∷ u ∷ []) =
    if nat_beq (u % 4) 0 then some ((s * 4 + t / 16) ∷ (t % 16 * 16 + u / 4) ∷ []) else none
join (s ∷ t ∷ []) = if nat_beq (t % 16) 0 then some ((s * 4 + t / 16) ∷ []) else none
join (s ∷ []) = none
join [] = some []

is_newline : ℕ → Bool
is_newline c = nat_beq c 10 || nat_beq c 13

unfoldable pub sextets : Bytes → Option (List ℕ)
unfolding Option.bind
sextets [] = some []
sextets (c ∷ cs) = Option.bind (decode_char c) (λ v. Option.map (λ vs. v ∷ vs) (sextets cs))

-- DecodeString: line breaks are skipped, any other byte outside the alphabet is an error.
unfoldable pub decode_string : Bytes → Option Bytes
unfolding is_newline sextets join
decode_string raw = Option.bind (sextets (select (λ c. not (is_newline c)) raw)) join

abbrev IsSextet : ℕ → Type 0
IsSextet v = v < 64

encode_char-decode : (v : ℕ) → v < 64 → decode_char (encode_char v) ≡ some v
unfolding decode_char encode_char
encode_char-decode v h = ground arith

encode_char-visible : (v : ℕ) → v < 64 → not (is_newline (encode_char v)) ≡ true
unfolding is_newline encode_char
encode_char-visible v h = ground arith

split-IsSextet : (bytes : Bytes) → All IsByte bytes → All IsSextet (split bytes)
unfolding split
split-IsSextet (a ∷ b ∷ c ∷ rest) h =
    (omega arith, (omega arith, (omega arith, (omega arith, split-IsSextet rest h.1.1.1))))
split-IsSextet (a ∷ b ∷ []) h = omega arith
split-IsSextet (a ∷ []) h = omega arith
split-IsSextet [] h = tt

join-split : (bytes : Bytes) → All IsByte bytes → join (split bytes) ≡ some bytes
unfolding split join
join-split (a ∷ b ∷ c ∷ rest) h = rw (join-split rest h.1.1.1) (ground arith)
join-split (a ∷ b ∷ []) h = ground arith
join-split (a ∷ []) h = ground arith
join-split [] h = refl

sextets-encode : (vs : List ℕ) → All IsSextet vs → sextets (map encode_char vs) ≡ some vs
unfolding sextets
sextets-encode [] h = refl
sextets-encode (v ∷ vs) h = rw (encode_char-decode v h.0, sextets-encode vs h.1)

select-visible :
    (vs : List ℕ)
    → All IsSextet vs
    → select (λ c. not (is_newline c)) (map encode_char vs) ≡ map encode_char vs
select-visible [] h = refl
select-visible (v ∷ vs) h = ground (arith, encode_char-visible v, select-visible vs)

-- The strict decoder reads back every byte string that the encoder writes.
pub decode-encode :
    (bytes : Bytes) → All IsByte bytes → decode_string (encode_to_string bytes) ≡ some bytes
unfolding decode_string encode_to_string
decode-encode bytes h =
    rw (select-visible (split bytes) (split-IsSextet bytes h))
      (rw (sextets-encode (split bytes) (split-IsSextet bytes h)) (join-split bytes h))

decode_char-IsSextet : (c v : ℕ) → decode_char c ≡ some v → v < 64
unfolding decode_char
decode_char-IsSextet c v h = ground arith

sextets-IsSextet : (cs : Bytes) → Yields (All IsSextet) (sextets cs)
unfolding sextets
sextets-IsSextet [] = tt
sextets-IsSextet (c ∷ cs) =
    Yields-bind IsSextet (All IsSextet) _ (decode_char c)
      (λ v hv.
        Yields-map (All IsSextet) (All IsSextet) _ (sextets cs) (λ vs hvs. (hv, hvs))
          (sextets-IsSextet cs))
      (Yields-intro IsSextet (decode_char c) (decode_char-IsSextet c))

join-IsByte : (vs : List ℕ) → All IsSextet vs → Yields (All IsByte) (join vs)
unfolding join
join-IsByte (s ∷ t ∷ u ∷ v ∷ rest) h =
    Yields-map (All IsByte) (All IsByte) _ (join rest)
      (λ bytes hb. (omega arith, (omega arith, (omega arith, hb)))) (join-IsByte rest h.1.1.1.1)
join-IsByte (s ∷ t ∷ u ∷ []) h = ground arith
join-IsByte (s ∷ t ∷ []) h = ground arith
join-IsByte (s ∷ []) h = tt
join-IsByte [] h = tt

-- What the decoder returns are bytes.
pub decode-IsByte : (raw : Bytes) → Yields (All IsByte) (decode_string raw)
unfolding decode_string
decode-IsByte raw =
    Yields-bind (All IsSextet) (All IsByte) _ (sextets (select (λ c. not (is_newline c)) raw))
      join-IsByte (sextets-IsSextet (select (λ c. not (is_newline c)) raw))
