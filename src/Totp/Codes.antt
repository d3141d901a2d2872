-- ===== src/Totp/Codes.antt =====
-- matchCounter, HashRecoveryCode and generateRecoveryCodes of totp/totp.go.
pub mod Window
pub mod Recovery
use authlier.Common.{
  String, ℕ, zero, suc, ◌+◌, ◌-◌, ◌/◌, Bool, true, false, not, ◌&&◌, ◌||◌, Option, none, some, List,
  [], ◌∷◌, Bytes, length, ◌++◌, any, leb, ltb, nat_beq, ◌==◌, bytes_eq, if◌then◌else◌,
}
use authlier.Text.Trim.{trim_bytes}
use authlier.Clock.{Time, second}
use authlier.Exec.{Result, ok, err, Fault, Exec, pure, ◌>>=◌}
use authlier.Host.{Host, Hash, Reads, read_random}
use authlier.Token.Base64.{encode_to_string}
use authlier.Token.{zero_hash}
use authlier.Totp.{Error, invalid_code, Otp}

abbrev pub period_seconds : ℕ
period_seconds = 30

-- The seconds from Go's zero time to the start of Unix time.
abbrev pub unix_epoch : ℕ
unix_epoch = 62135596800

-- t.Unix() / periodSeconds, and 0 where that is negative
unfoldable pub counter_at : Time → ℕ
counter_at at = (at / second - unix_epoch) / period_seconds

abbrev pub is_digit : ℕ → Bool
is_digit c = leb 48 c && leb c 57

-- The first counter that validates, in the given order; `none` is an error of the library.
unfoldable pub first_match : Otp → String → Bytes → List ℕ → Option (Option ℕ)
first_match otp secret code [] = some none
first_match otp secret code (counter ∷ counters) =
    let rest = first_match otp secret code counters in
    elim (otp.validate_custom code counter secret) [
      | none ↦ none
      | some true ↦ some (some counter)
      | some false ↦ rest
    ]

-- matchCounter: the counter that matched, if any; `none` is an error.
unfoldable pub match_counter : Otp → String → Bytes → Time → Option (Option ℕ)
unfolding first_match counter_at
match_counter otp secret code at =
    if not (nat_beq (length code) 6)
    then some none
    else if any (λ c. not (is_digit c)) code
    then some none
    else let current = counter_at at in
      if ltb current 1
      then some none
      else first_match otp secret code (current ∷ (current - 1) ∷ (current + 1) ∷ [])

abbrev pub recovery_code_bytes : ℕ
recovery_code_bytes = 16

abbrev is_empty : Bytes → Bool
is_empty [] = true
is_empty _ = false

module _ (host : Host) where
  -- HashRecoveryCode
  unfoldable pub hash_recovery_code : Bytes → Result Error Hash
  hash_recovery_code raw_code =
      let code = trim_bytes raw_code in
      if is_empty code then err invalid_code else ok (host.sum256 code)

  -- The hash that the loop takes: Hash{} beside an error, which it ignores.
  abbrev pub loop_hash : Bytes → Hash
  loop_hash code = elim (hash_recovery_code code) [ ok hash ↦ hash | err e ↦ zero_hash ]

  -- The rounds of generateRecoveryCodes with `missing` codes to go; `none` where the fuel has run
  -- out.
  unfoldable pub recovery_loop :
      ℕ → ℕ → List Bytes → List Hash → Exec Reads Fault (Option (List Bytes × List Hash))
  recovery_loop fuel zero codes hashes = pure (some (codes, hashes))
  recovery_loop zero (suc missing) codes hashes = pure none
  recovery_loop (suc fuel) (suc missing) codes hashes = do
    random ← read_random host recovery_code_bytes
    let code = encode_to_string random
    let hash = loop_hash code
    if any (λ seen. seen == hash) hashes
        then recovery_loop fuel (suc missing) codes hashes
        else recovery_loop fuel missing (codes ++ code ∷ []) (hashes ++ hash ∷ [])

  -- generateRecoveryCodes
  unfoldable pub generate_recovery_codes :
      ℕ → ℕ → Exec Reads Fault (Option (List Bytes × List Hash))
  unfolding recovery_loop
  generate_recovery_codes fuel count = recovery_loop fuel count [] []
