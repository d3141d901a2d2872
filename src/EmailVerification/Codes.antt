-- ===== src/EmailVerification/Codes.antt =====
-- The credentials of emailverification/emailverification.go: a token of the token package, or a code
-- of six digits whose keyed hash is stored.
use authlier.Common.{
  ℕ, zero, suc, ◌+◌, ◌/◌, ◌%◌, ◌^◌, String, Bool, not, ◌&&◌, ◌||◌, [], ◌∷◌, ◌++◌, Bytes, length,
  any, leb, nat_beq, ◌==◌, string_eq, if◌then◌else◌,
}
use authlier.Exec.{Result, ok, err, Fault, Exec, pure, map_err, ◌>>=◌}
use authlier.Host.{Host, Hash, Reads}
use authlier.Token
use authlier.EmailVerification.{Error, invalid_token, DeliveryMethod, link, otp, Keyed, VerifyInput}

abbrev pub otp_digits : ℕ
otp_digits = 6

-- The decimal digits of a number, none for 0; as many steps as the number are enough.
unfoldable pub digits : ℕ → ℕ → Bytes
digits zero value = []
digits (suc steps) value =
    let leading = digits steps (value / 10) in
    if nat_beq value 0 then [] else leading ++ (48 + value % 10) ∷ []

-- `%0*d` with a positive width: the decimal digits, and zeros before them up to the width
unfoldable pub padded : ℕ → ℕ → Bytes
unfolding digits
padded zero value = digits value value
padded (suc width) value = padded width (value / 10) ++ (48 + value % 10) ∷ []

abbrev pub is_digit : ℕ → Bool
is_digit c = leb 48 c && leb c 57

-- validOTP
unfoldable pub valid_otp : Bytes → Bool
valid_otp code = nat_beq (length code) otp_digits && not (any (λ c. not (is_digit c)) code)

pub record Credential : Type 0 where
  pub token : Bytes
  pub code : Bytes

module _ (host : Host) (keyed : Keyed) where
  -- generateOTP
  unfoldable pub generate_otp : Exec Reads Fault Bytes
  unfolding padded
  generate_otp = do value ← keyed.rand_int (10 ^ otp_digits); pure (padded otp_digits value)

  -- hashOTP, with the manager's secret
  unfoldable pub hash_otp : Bytes → String → Bytes → Hash
  hash_otp otp_secret email code = keyed.hmac_sha256 otp_secret (keyed.bytes_of email ++ 0 ∷ code)

  -- generateCredential
  unfoldable pub generate_credential :
      DeliveryMethod → Bytes → String → Exec Reads Fault (Credential × Hash)
  unfolding generate_otp hash_otp
  generate_credential otp otp_secret email = do
    code ← generate_otp
    pure (record { token = []; code = code }, hash_otp otp_secret email code)
  generate_credential link otp_secret email = do
    (raw_token, hash) ← Token.generate host
    pure (record { token = raw_token; code = [] }, hash)

  -- hashVerificationInput
  unfoldable pub hash_verification_input :
      DeliveryMethod → Bytes → VerifyInput → String → Result Error Hash
  unfolding valid_otp hash_otp
  hash_verification_input otp otp_secret input address =
      if address == "" || not (valid_otp input.code)
      then err invalid_token
      else ok (hash_otp otp_secret address input.code)
  hash_verification_input link otp_secret input address =
      map_err (λ _. invalid_token) (Token.hash_token host input.token)
