-- ===== src/EmailVerification/RoundTrip.antt =====
-- The credential that is sent beside the input that is verified.
use authlier.Common.{
  ◌<◌, nat_beq, Bool-cases, ℕ, zero, suc, ◌+◌, ◌/◌, ◌%◌, ◌^◌, ◌≡◌, ◌≢◌, refl, String, Bool, true,
  false, not, [], ◌∷◌, ◌++◌, Bytes, length, any, string_eq, eq_iff, length-append, arith, inl, inr,
}
use authlier.Exec.{ok, Result-cases}
use authlier.Host.{Host, Hash, Reads, FillsBuffer}
use authlier.Token
use authlier.Token.RoundTrip.{hash_token-generate}
use authlier.EmailVerification.{DeliveryMethod, link, otp, Keyed, DrawsBelow}
use authlier.EmailVerification.Codes.{
  otp_digits, digits, padded, is_digit, valid_otp, Credential, generate_otp, generate_credential,
  hash_verification_input,
}

tenth : (width value : ℕ) → value < 10 ^ suc width → value / 10 < 10 ^ width
tenth width value small = omega arith

-- A number below the power of ten that belongs to the width has no more digits than the width.
length-padded : (width value : ℕ) → value < 10 ^ width → length (padded width value) ≡ width
unfolding padded digits
length-padded zero value small = let none_left : value ≡ 0 = omega arith in rw none_left refl
length-padded (suc width) value small = omega (
  arith,
  length-append (padded width (value / 10)) ((48 + value % 10) ∷ []),
  length-padded width (value / 10) (tenth width value small),
)

any-append_false :
    (p : ℕ → Bool) (xs : Bytes) (y : ℕ)
    → any p xs ≡ false
    → p y ≡ false
    → any p (xs ++ y ∷ []) ≡ false
any-append_false p [] y a b = ground arith
any-append_false p (x ∷ xs) y a b = ground (arith, any-append_false p xs y)

any-digits : (steps value : ℕ) → any (λ c. not (is_digit c)) (digits steps value) ≡ false
unfolding digits
any-digits zero value = refl
any-digits (suc steps) value = elim (Bool-cases (nat_beq value 0)) [
  | inl none_left ↦ rw none_left refl
  | inr some_left ↦ rw some_left (
      any-append_false (λ c. not (is_digit c)) (digits steps (value / 10)) (48 + value % 10)
        (any-digits steps (value / 10)) (ground arith))
]

any-padded : (width value : ℕ) → any (λ c. not (is_digit c)) (padded width value) ≡ false
unfolding padded
any-padded zero value = any-digits value value
any-padded (suc width) value =
    any-append_false (λ c. not (is_digit c)) (padded width (value / 10)) (48 + value % 10)
      (any-padded width (value / 10)) (ground arith)

valid_otp-padded :
    (value : ℕ) → value < 10 ^ otp_digits → valid_otp (padded otp_digits value) ≡ true
unfolding valid_otp
valid_otp-padded value small =
    ground (arith, length-padded otp_digits value small, any-padded otp_digits value)

module _ (host : Host) (keyed : Keyed) where
  -- A credential that `Request` generates for an address has a hash that `Verify` computes again from
  -- it: from the token for a link, where the random source fills its buffer, and from the code and the
  -- same address, which is not empty, for a code, where `rand.Int` answers a number below its bound.
  pub hash_verification_input-generate_credential :
      (delivery : DeliveryMethod) (otp_secret : Bytes) (address source_key : String)
      (credential : Credential) (hash : Hash) (r : Reads)
      → FillsBuffer host
      → DrawsBelow keyed
      → address ≢ ""
      → (generate_credential host keyed delivery otp_secret address r).0 ≡ ok (credential, hash)
      → hash_verification_input host keyed delivery otp_secret
          (record {
            token = credential.token;
            email = address;
            code = credential.code;
            source_key = source_key;
          })
          address
        ≡ ok hash
  unfolding generate_credential hash_verification_input generate_otp
  hash_verification_input-generate_credential otp otp_secret address source_key credential hash r
        fills below some_address e =
      elim (Result-cases (keyed.rand_int (10 ^ otp_digits) r).0) [
        | inl (value, drawn) ↦
            let small = below (10 ^ otp_digits) value r (omega arith) drawn in
            let valid = valid_otp-padded value small in ground (arith, valid, eq_iff address "")
        | inr (f, failed) ↦ absurd (ground arith)
      ]
  hash_verification_input-generate_credential link otp_secret address source_key credential hash r
        fills below some_address e =
      elim (Result-cases (Token.generate host r).0) [
        | inl ((raw, h), drawn) ↦ ground (arith, hash_token-generate host r raw h fills drawn)
        | inr (f, failed) ↦ absurd (ground arith)
      ]
