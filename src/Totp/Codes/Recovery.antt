-- ===== src/Totp/Codes/Recovery.antt =====
-- What generateRecoveryCodes returns, and when it returns.
use authlier.Common.{
  ℕ, zero, suc, ◌+◌, ◌≡◌, ◌≤◌, refl, sym, ap, Bool, false, some, List, [], ◌∷◌, ◌++◌, map, Bytes,
  arith, length, any, bytes_beq, bytes_beq_iff, ◌==◌, bytes_eq, if◌then◌else◌, Bool-cases,
  Option-cases, inl, inr, length-append,
}
use authlier.Exec.{ok}
use authlier.Host.{Host, Hash, Reads}
use authlier.Token.Base64.{encode_to_string}
use authlier.Totp.Codes.{recovery_code_bytes, loop_hash, recovery_loop, generate_recovery_codes}

abbrev pub is_seen : Hash → List Hash → Bool
is_seen hash hashes = any (λ seen. seen == hash) hashes

-- No hash stands twice in the list.
abbrev pub AllDifferent : List Hash → Type 0
AllDifferent [] = Unit {0}
AllDifferent (hash ∷ hashes) = (is_seen hash hashes ≡ false) × AllDifferent hashes

bytes_beq_swap : (x y : Bytes) → bytes_beq x y ≡ false → bytes_beq y x ≡ false
bytes_beq_swap x y h = elim (Bool-cases (bytes_beq y x)) [
  | inl same ↦ let e : y ≡ x = (bytes_beq_iff y x).0 same in cc ((bytes_beq_iff x y).1 (sym e), h)
  | inr differ ↦ differ
]

is_seen-append :
    (hash new : Hash) (hashes : List Hash)
    → is_seen hash hashes ≡ false
    → bytes_beq new hash ≡ false
    → is_seen hash (hashes ++ new ∷ []) ≡ false
is_seen-append hash new [] h differ = ground arith
is_seen-append hash new (x ∷ hashes) h differ = ground (arith, is_seen-append hash new hashes)

AllDifferent-append :
    (new : Hash) (hashes : List Hash)
    → AllDifferent hashes
    → is_seen new hashes ≡ false
    → AllDifferent (hashes ++ new ∷ [])
AllDifferent-append new [] d h = (refl, tt)
AllDifferent-append new (x ∷ hashes) (unseen, d) h = (
  is_seen-append x new hashes unseen (bytes_beq_swap x new (ground arith)),
  AllDifferent-append new hashes d (ground arith),
)

map-append_one {ℓ κ} :
    {A : Type ℓ} {B : Type κ} (f : A → B) (xs : List A) (x : A)
    → map f (xs ++ x ∷ []) ≡ map f xs ++ f x ∷ []
map-append_one f [] x = refl
map-append_one f (y ∷ xs) x = ap (λ rest. f y ∷ rest) (map-append_one f xs x)

module _ (host : Host) where
  -- The codes so far belong to the hashes so far, which all differ.
  pub record IsRecovery (count : ℕ) (codes : List Bytes) (hashes : List Hash) : Type 0 where
    pub sized : length codes ≡ count
    pub hashed : hashes ≡ map (loop_hash host) codes
    pub different : AllDifferent hashes

  IsRecovery-append :
      (count : ℕ) (codes : List Bytes) (hashes : List Hash) (code : Bytes)
      → IsRecovery count codes hashes
      → is_seen (loop_hash host code) hashes ≡ false
      → IsRecovery (suc count) (codes ++ code ∷ []) (hashes ++ loop_hash host code ∷ [])
  IsRecovery-append count codes hashes code r unseen = record {
    sized = omega (arith, length-append codes (code ∷ []), r.sized);
    hashed = rw (map-append_one (loop_hash host) codes code, ← r.hashed) refl;
    different = AllDifferent-append (loop_hash host code) hashes r.different unseen;
  }

  recovery_loop-IsRecovery :
      (fuel missing count total : ℕ) (codes codes' : List Bytes) (hashes hashes' : List Hash)
      (r : Reads)
      → count + missing ≡ total
      → IsRecovery count codes hashes
      → (recovery_loop host fuel missing codes hashes r).0 ≡ ok (some (codes', hashes'))
      → IsRecovery total codes' hashes'
  unfolding recovery_loop
  recovery_loop-IsRecovery fuel zero count total codes codes' hashes hashes' r sum i e =
      let same_codes : codes ≡ codes' = cc in
      let same_hashes : hashes ≡ hashes' = cc in
      let all : total ≡ count = omega arith in rw (all, ← same_codes, ← same_hashes) i
  recovery_loop-IsRecovery zero (suc missing) count total codes codes' hashes hashes' r sum i e =
      absurd (ground arith)
  recovery_loop-IsRecovery (suc fuel) (suc missing) count total codes codes' hashes hashes' r sum i
        e =
      elim (Option-cases (host.rand_read r.draws recovery_code_bytes)) [
        | inl failed ↦ absurd (ground arith)
        | inr (random, drawn) ↦
            let code = encode_to_string random in
            let r' : Reads = record r { draws = suc r.draws } in
            (elim (Bool-cases (is_seen (loop_hash host code) hashes)) [
              | inl seen ↦
                  recovery_loop-IsRecovery fuel (suc missing) count total codes codes' hashes
                    hashes' r' sum i (ground arith)
              | inr unseen ↦
                  recovery_loop-IsRecovery fuel missing (suc count) total (codes ++ code ∷ [])
                    codes' (hashes ++ loop_hash host code ∷ []) hashes' r' (omega arith)
                    (IsRecovery-append count codes hashes code i unseen) (ground arith)
            ])
      ]

  -- The recovery codes that are returned are as many as were asked for, the hashes are theirs in the
  -- same order, and no two hashes are the same.
  pub generate_recovery_codes-IsRecovery :
      (fuel count : ℕ) (codes : List Bytes) (hashes : List Hash) (r : Reads)
      → (generate_recovery_codes host fuel count r).0 ≡ ok (some (codes, hashes))
      → IsRecovery count codes hashes
  unfolding generate_recovery_codes
  generate_recovery_codes-IsRecovery fuel count codes hashes r e =
      recovery_loop-IsRecovery fuel count 0 count [] codes [] hashes r (omega arith)
        (record { sized = refl; hashed = refl; different = tt }) e

-- How many of the next draws give a hash that was not seen before, from the draw `k` on.
unfoldable pub fresh_draws : Host → (ℕ → Bytes) → ℕ → ℕ → List Hash → ℕ
fresh_draws host random zero k hashes = 0
fresh_draws host random (suc draws) k hashes =
    let hash = loop_hash host (encode_to_string (random k)) in
    let seen = fresh_draws host random draws (suc k) hashes in
    let fresh = suc (fresh_draws host random draws (suc k) (hashes ++ hash ∷ [])) in
    if is_seen hash hashes then seen else fresh

module _ (host : Host) (random : ℕ → Bytes)
    (draws : (k : ℕ) → host.rand_read k recovery_code_bytes ≡ some (random k)) where
  recovery_loop-returns :
      (fuel missing : ℕ) (codes : List Bytes) (hashes : List Hash) (r : Reads)
      → missing ≤ fresh_draws host random fuel r.draws hashes
      → (found : List Bytes × List Hash) × ((recovery_loop host fuel missing codes hashes r).0
          ≡ ok (some found))
  unfolding recovery_loop fresh_draws
  recovery_loop-returns fuel zero codes hashes r enough = ((codes, hashes), refl)
  recovery_loop-returns zero (suc missing) codes hashes r enough = absurd (omega arith)
  recovery_loop-returns (suc fuel) (suc missing) codes hashes r enough =
      let code = encode_to_string (random r.draws) in
      let hash = loop_hash host code in
      let r' : Reads = record r { draws = suc r.draws } in
      elim (Bool-cases (is_seen hash hashes)) [
        | inl seen ↦
            let (found, e) =
              recovery_loop-returns fuel (suc missing) codes hashes r' (ground arith) in
            (found, ground (arith, draws r.draws))
        | inr unseen ↦
            let (found, e) =
              recovery_loop-returns fuel missing (codes ++ code ∷ []) (hashes ++ hash ∷ []) r'
                (ground arith) in
            (found, ground (arith, draws r.draws))
      ]

  -- With a random source that answers, once as many codes with different hashes have been drawn as
  -- were asked for, that many codes are returned, with their hashes in the same order, no two of which
  -- are the same.
  pub generate_recovery_codes-returns :
      (fuel count : ℕ) (r : Reads)
      → count ≤ fresh_draws host random fuel r.draws []
      → (codes : List Bytes) × (hashes : List Hash) × ((generate_recovery_codes host fuel count r).0
          ≡ ok (some (codes, hashes)))
        × IsRecovery host count codes hashes
  unfolding generate_recovery_codes
  generate_recovery_codes-returns fuel count r enough =
      let ((codes, hashes), e) = recovery_loop-returns fuel count [] [] r enough in
      (codes, hashes, e, generate_recovery_codes-IsRecovery host fuel count codes hashes r e)
