-- ===== src/Tests/Verification.antt =====
-- A code for an email address: the random number 42, and a keyed hash that is its message.
use authlier.Common.{
  ltb, if◌then◌else◌, eq_iff, string_eq, arith, String, ◌≡◌, ◌≢◌, refl, [], ◌∷◌, arith, string_eq,
}
use authlier.Exec.{ok, err, unavailable}
use authlier.Host.{Hash}
use authlier.EmailVerification.{Keyed, otp, DrawsBelow}
use authlier.EmailVerification.Codes.{Credential, generate_credential, hash_verification_input}
use authlier.EmailVerification.RoundTrip.{hash_verification_input-generate_credential}
use authlier.Tests.Samples.{test_host, test_host-FillsBuffer, start}

abbrev keyed : Keyed
keyed = record {
  rand_int = λ bound r. (if ltb 42 bound then ok 42 else err unavailable, r);
  bytes_of = λ s. 1 ∷ [];
  hmac_sha256 = λ key message. message;
}

draws_below : DrawsBelow keyed
draws_below bound value r positive e = ground arith

abbrev sent : Credential
sent = record { token = []; code = 48 ∷ 48 ∷ 48 ∷ 48 ∷ 52 ∷ 50 ∷ [] }

abbrev sent_hash : Hash
sent_hash = 1 ∷ 0 ∷ 48 ∷ 48 ∷ 48 ∷ 48 ∷ 52 ∷ 50 ∷ []

generated :
    (generate_credential test_host keyed otp [] "alice@example.com" start.reads).0
    ≡ ok (sent, sent_hash)
unfolding generate_credential
generated = refl

abbrev alice_address : String
alice_address = "alice@example.com"

not_empty : alice_address ≢ ""
not_empty e = absurd (ground (arith, eq_iff alice_address ""))

hash_verification_input-generate_credential_example :
    hash_verification_input test_host keyed otp []
      (record {
        token = [];
        email = "alice@example.com";
        code = 48 ∷ 48 ∷ 48 ∷ 48 ∷ 52 ∷ 50 ∷ [];
        source_key = "1";
      })
      "alice@example.com"
    ≡ ok sent_hash
hash_verification_input-generate_credential_example =
    hash_verification_input-generate_credential test_host keyed otp [] "alice@example.com" "1" sent
      sent_hash start.reads test_host-FillsBuffer draws_below not_empty generated
