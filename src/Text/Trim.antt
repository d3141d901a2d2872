-- ===== src/Text/Trim.antt =====
-- strings.TrimSpace on a Go string seen as its bytes. White space of more than one byte is told by its
-- UTF-8 encoding, read forwards at the front and backwards at the end.
use mathlib.Core.List.{reverse}
use authlier.Common.{ℕ, Bool, ◌&&◌, ◌||◌, [], ◌∷◌, Bytes, leb, nat_beq, if◌then◌else◌}

abbrev pub is_space1 : ℕ → Bool
is_space1 a = (leb 9 a && leb a 13) || nat_beq a 32

-- U+0085 and U+00A0
abbrev pub is_space2 : ℕ → ℕ → Bool
is_space2 a b = nat_beq a 0xc2 && (nat_beq b 0x85 || nat_beq b 0xa0)

-- U+1680, U+2000 to U+200A, U+2028, U+2029, U+202F, U+205F and U+3000
abbrev pub is_space3 : ℕ → ℕ → ℕ → Bool
is_space3 a b c =
    (nat_beq a 0xe1 && nat_beq b 0x9a && nat_beq c 0x80)
    || (nat_beq a 0xe2
        && nat_beq b 0x80
        && ((leb 0x80 c && leb c 0x8a) || nat_beq c 0xa8 || nat_beq c 0xa9 || nat_beq c 0xaf))
    || (nat_beq a 0xe2 && nat_beq b 0x81 && nat_beq c 0x9f)
    || (nat_beq a 0xe3 && nat_beq b 0x80 && nat_beq c 0x80)

-- Drops white space from the front; the tests say which bytes, in this order, are white space.
unfoldable pub trim_front : (ℕ → ℕ → Bool) → (ℕ → ℕ → ℕ → Bool) → Bytes → Bytes
trim_front two three [] = []
trim_front two three (a ∷ []) = if is_space1 a then [] else a ∷ []
trim_front two three (a ∷ b ∷ []) =
    let rest = trim_front two three (b ∷ []) in
    if is_space1 a then rest else if two a b then [] else a ∷ b ∷ []
trim_front two three (a ∷ b ∷ c ∷ bytes) =
    let rest1 = trim_front two three (b ∷ c ∷ bytes) in
    let rest2 = trim_front two three (c ∷ bytes) in
    let rest3 = trim_front two three bytes in
    if is_space1 a
    then rest1
    else if two a b
    then rest2
    else if three a b c
    then rest3
    else a ∷ b ∷ c ∷ bytes

-- strings.TrimSpace
unfoldable pub trim_bytes : Bytes → Bytes
unfolding trim_front
trim_bytes bytes = reverse (
    trim_front (λ b a. is_space2 a b) (λ c b a. is_space3 a b c)
      (reverse (trim_front is_space2 is_space3 bytes)))
