-- ===== src/Token/RoundTrip.antt =====
-- Which raw tokens `HashToken` accepts, and what it returns for them.
use authlier.Common.{
  ◌≡◌, refl, ◌↔◌, sym, Option, none, some, arith, All, Yields-elim, Bytes, length, ==-refl,
  bytes_eq, bytes_beq_iff, Option-cases, inl, inr,
}
use authlier.Exec.{ok}
use authlier.Host.{Host, Hash, Reads, IsByte, FillsBuffer}
use authlier.Token.Base64.{encode_to_string, decode_string, decode-encode, decode-IsByte}
use authlier.Token.{generate, hash_token, entropy_bytes, accept_decoded}

module _ (host : Host) where
  -- `random` is the content of the token `raw`, and `hash` its durable form.
  pub record IsTokenOf (raw : Bytes) (hash : Hash) (random : Bytes) : Type 0 where
    pub sized : length random ≡ entropy_bytes
    pub bytes : All IsByte random
    pub encoded : raw ≡ encode_to_string random
    pub hashed : hash ≡ host.sum256 random

  hash_token-of :
      (raw hash random : Bytes) → IsTokenOf raw hash random → hash_token host raw ≡ ok hash
  unfolding hash_token
  hash_token-of raw hash random t =
      rw (t.encoded, t.hashed, decode-encode random t.bytes)
        (ground (arith, t.sized, ==-refl {K = Bytes} (encode_to_string random)))

  accepted :
      (raw hash : Bytes) (decoded : Option Bytes)
      → decode_string raw ≡ decoded
      → accept_decoded host raw decoded ≡ ok hash
      → (random : Bytes) × IsTokenOf raw hash random
  unfolding accept_decoded
  accepted raw hash none e h = cc
  accepted raw hash (some random) e h = (
    random,
    record {
      sized = ground arith;
      bytes = Yields-elim (All IsByte) (decode_string raw) (decode-IsByte raw) e;
      encoded = sym (ground (arith, (bytes_beq_iff (encode_to_string random) raw).0));
      hashed = ground arith;
    },
  )

  -- A raw token is accepted exactly when it is the canonical text of 32 bytes, and then the hash of
  -- those bytes is returned: no second spelling of a token is accepted.
  pub hash_token_iff :
      (raw hash : Bytes)
      → (hash_token host raw ≡ ok hash) ↔ ((random : Bytes) × IsTokenOf raw hash random)
  unfolding hash_token
  hash_token_iff raw hash =
      (accepted raw hash (decode_string raw) refl, λ t. hash_token-of raw hash t.0 t.1)

  pub generate-IsTokenOf :
      (r : Reads) (raw hash : Bytes)
      → FillsBuffer host
      → (generate host r).0 ≡ ok (raw, hash)
      → (random : Bytes) × IsTokenOf raw hash random
  unfolding generate
  generate-IsTokenOf r raw hash fills h =
      elim (Option-cases (host.rand_read r.draws entropy_bytes)) [
        | inl e ↦ ground arith
        | inr (random, e) ↦
            let (sized, bytes) = fills r.draws entropy_bytes random e in
            (
              random,
              record {
                sized = sized;
                bytes = bytes;
                encoded = ground arith;
                hashed = ground arith;
              },
            )
      ]

  -- A token that `Generate` returns is accepted by `HashToken`, with the hash that came with it.
  pub hash_token-generate :
      (r : Reads) (raw hash : Bytes)
      → FillsBuffer host
      → (generate host r).0 ≡ ok (raw, hash)
      → hash_token host raw ≡ ok hash
  hash_token-generate r raw hash fills h =
      (hash_token_iff raw hash).1 (generate-IsTokenOf r raw hash fills h)
