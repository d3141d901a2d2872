-- ===== src/EmailAddress.antt =====
-- emailaddress/emailaddress.go. Case mapping and the address parser of net/mail are parameters. A text
-- is a list of code points, so it is valid UTF-8.
use Prim.Native.Char.{code}
use Prim.Native.String.{[], ◌∷◌}
use authlier.Common.{
  ℕ, ◌+◌, String, Bool, false, not, ◌||◌, Option, none, some, ltb, ◌==◌, string_eq, if◌then◌else◌,
}
use authlier.Text.{trim_space}

pub record Mail : Type 0 where
  -- strings.ToLower
  pub to_lower : String → String
  -- mail.ParseAddress: the Address field of the result
  pub parse_address : String → Option String

-- Bytes of a code point in UTF-8.
abbrev char_size : ℕ → ℕ
char_size c = if ltb c 0x80 then 1 else if ltb c 0x800 then 2 else if ltb c 0x10000 then 3 else 4

-- len(s)
unfoldable pub byte_length : String → ℕ
byte_length [] = 0
byte_length (c ∷ s) = char_size (code c) + byte_length s

abbrev pub maximum_length : ℕ
maximum_length = 254

abbrev is_same : String → Option String → Bool
is_same address none = false
is_same address (some parsed) = parsed == address

module _ (mail : Mail) where
  -- Valid
  unfoldable pub valid : String → Bool
  unfolding byte_length
  valid address =
      if address == ""
        || not (address == trim_space address)
        || ltb maximum_length (byte_length address)
      then false
      else is_same address (mail.parse_address address)

  -- Normalize; `none` is ErrInvalid
  unfoldable pub normalize : String → Option String
  unfolding valid
  normalize raw_email =
      let normalized = mail.to_lower (trim_space raw_email) in
      if not (valid normalized) then none else some normalized
