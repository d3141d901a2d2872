-- ===== src/Token.antt =====
-- token/token.go: opaque bearer credentials. A raw token is the base64 text of 32 random bytes, and
-- the server keeps the SHA-256 hash of those bytes.
pub mod Base64
pub mod RoundTrip
use authlier.Common.{
  ℕ, ◌&&◌, Bytes, ◌==◌, nat_eq, bytes_eq, [], ◌∷◌, Option, none, some, length, if◌then◌else◌,
}
use authlier.Exec.{Result, ok, err, Fault, Exec, pure, ◌>>=◌}
use authlier.Host.{Host, Hash, Reads, read_random}
use Base64.{encode_to_string, decode_string}

abbrev pub entropy_bytes : ℕ
entropy_bytes = 32

-- ErrInvalidToken, the only error of the package's own.
pub data Error : Type 0 where
  invalid_token : Error

-- Hash{}
abbrev pub zero_hash : Hash
zero_hash =
    0 ∷ 0 ∷ 0 ∷ 0 ∷ 0 ∷ 0 ∷ 0 ∷ 0 ∷ 0 ∷ 0 ∷ 0 ∷ 0 ∷ 0 ∷ 0 ∷ 0 ∷ 0 ∷ 0 ∷ 0 ∷ 0 ∷ 0 ∷ 0 ∷ 0 ∷ 0 ∷ 0
    ∷ 0 ∷ 0 ∷ 0 ∷ 0 ∷ 0 ∷ 0 ∷ 0 ∷ 0 ∷ []

module _ (host : Host) where
  -- Generate
  unfoldable pub generate : Exec Reads Fault (Bytes × Hash)
  generate = do
    random ← read_random host entropy_bytes
    pure (encode_to_string random, host.sum256 random)

  accept_decoded : Bytes → Option Bytes → Result Error Hash
  accept_decoded raw_token none = err invalid_token
  accept_decoded raw_token (some decoded) =
      if length decoded == entropy_bytes && encode_to_string decoded == raw_token
      then ok (host.sum256 decoded)
      else err invalid_token

  -- HashToken
  unfoldable pub hash_token : Bytes → Result Error Hash
  unfolding accept_decoded
  hash_token raw_token = accept_decoded raw_token (decode_string raw_token)
