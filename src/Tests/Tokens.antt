-- ===== src/Tests/Tokens.antt =====
-- Opaque tokens.
use authlier.Common.{◌≡◌, refl, ◌↔◌, Bytes, ◌∷◌, []}
use authlier.Exec.{ok, err}
use authlier.Token.Base64.{encode_to_string, decode_string, decode_char}
use authlier.Token.{generate, hash_token, invalid_token}
use authlier.Token.RoundTrip.{IsTokenOf, hash_token_iff, hash_token-generate}
use authlier.Tests.Samples.{
  replicate, test_host, alice_hash, alice_token, start, test_host-FillsBuffer,
}

hash_token_iff_example :
    (hash_token test_host alice_token ≡ ok alice_hash)
    ↔ ((random : Bytes) × IsTokenOf test_host alice_token alice_hash random)
hash_token_iff_example = hash_token_iff test_host alice_token alice_hash

generated :
    (generate test_host start.reads).0 ≡ ok (encode_to_string (replicate 32 1), replicate 32 1)
unfolding generate
generated = refl

hash_token-generate_example :
    hash_token test_host (encode_to_string (replicate 32 1)) ≡ ok (replicate 32 1)
hash_token-generate_example =
    hash_token-generate test_host start.reads (encode_to_string (replicate 32 1)) (replicate 32 1)
      test_host-FillsBuffer generated

-- An empty text is no token.
empty_refused : hash_token test_host [] ≡ err invalid_token
unfolding hash_token decode_string decode_char
empty_refused = refl

-- "hi" in base64 as Go's RawURLEncoding writes it.
encode_hi : encode_to_string (b'h' ∷ b'i' ∷ []) ≡ b'a' ∷ b'G' ∷ b'k' ∷ []
unfolding encode_to_string
encode_hi = refl
