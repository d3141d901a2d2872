-- ===== src/Postgres/Totp/Replay.antt =====
-- One-time use in the TOTP store: counters, recovery codes and challenges.
use authlier.Common.{
  ℕ, ◌≡◌, ◌≢◌, ◌≤◌, true, false, String, Option, List, [], ◌∷◌, arith, string_eq, bytes_eq, any,
  find?, update_where, any-update_clear, any-find?, Option-cases, inl, inr,
}
use authlier.Clock.{Time}
use authlier.Exec.{ok}
use authlier.Host.{Hash}
use authlier.Totp.{other}
use authlier.Postgres.{CredentialRow, RecoveryRow, ChallengeRow, Tables, Db, Server}
use authlier.Postgres.Statements.{transaction-ok, after_begin}
use authlier.Postgres.Totp.{
  Codec, has_hash, consumable, usable, advances, use_counter, use_code, consume, update_consumed,
  update_counter, update_used, consume_challenge, complete_code_body, complete_code,
  complete_recovery_body, complete_recovery,
}
use authlier.Postgres.Totp.Life.{IsSpent, IsUsed, IsClosed}
use authlier.Postgres.Totp.Life.Steps.{Reach, Reach-Keeps}

clears_counter :
    (subject_id : String) (counter c : ℕ) (rows : List CredentialRow)
    → c ≤ counter
    → any
        (advances subject_id c)
        (update_where (advances subject_id counter) (use_counter counter) rows)
      ≡ false
clears_counter subject_id counter c rows le =
    any-update_clear (advances subject_id c) (advances subject_id counter) (use_counter counter)
      rows (λ r. ground arith)

clears_code :
    (subject_id : String) (code_hash : Hash) (at : Time) (rows : List RecoveryRow)
    → any
        (usable subject_id code_hash)
        (update_where (usable subject_id code_hash) (use_code at) rows)
      ≡ false
clears_code subject_id code_hash at rows =
    any-update_clear (usable subject_id code_hash) (usable subject_id code_hash) (use_code at) rows
      (λ r. ground arith)

clears_challenge :
    (token_hash : Hash) (at at' : Time) (rows : List ChallengeRow)
    → at ≤ at'
    → any (consumable token_hash at') (update_where (consumable token_hash at) (consume at) rows)
      ≡ false
clears_challenge token_hash at at' rows le =
    any-update_clear (consumable token_hash at') (consumable token_hash at) (consume at) rows
      (λ r. ground arith)

consumable-there :
    (token_hash : Hash) (at : Time) (rows : List ChallengeRow)
    → any (consumable token_hash at) rows ≡ true
    → any (has_hash token_hash) (update_where (consumable token_hash at) (consume at) rows) ≡ true
consumable-there token_hash at [] h = ground arith
consumable-there token_hash at (x ∷ rows) h = ground (arith, consumable-there token_hash at rows)

module _ (server : Server) (secrets : Option Codec) where
  -- What a completed code found and left.
  pub record CodeTaken (token_hash : Hash) (counter : ℕ) (at : Time) (subject_id : String)
      (t t' : Tables) : Type 0 where
    pub open_challenge : any (consumable token_hash at) t.totp.challenges ≡ true
    pub fresh : any (advances subject_id counter) t.totp.credentials ≡ true
    pub spent : (c : ℕ) → c ≤ counter → IsSpent subject_id c t'
    pub closed : (at' : Time) → at ≤ at' → IsClosed token_hash at' t'

  complete_code_body-left :
      (token_hash : Hash) (counter : ℕ) (at : Time) (subject_id : String) (db : Db)
      → (complete_code_body server secrets token_hash counter at db).0 ≡ ok subject_id
      → let t = db.tables.totp in
        let t' = (complete_code_body server secrets token_hash counter at db).1.tables.totp in
        (any (consumable token_hash at) t.challenges ≡ true)
        × (any (advances subject_id counter) t.credentials ≡ true)
        × (t'.credentials
            ≡ update_where (advances subject_id counter) (use_counter counter) t.credentials)
        × (t'.challenges ≡ update_where (consumable token_hash at) (consume at) t.challenges)
  unfolding complete_code_body consume_challenge update_consumed update_counter
  complete_code_body-left token_hash counter at subject_id db e =
      elim (Option-cases (find? (consumable token_hash at) db.tables.totp.challenges)) [
        | inl missing ↦ absurd (ground arith)
        | inr (row, found) ↦ (
          any-find? (consumable token_hash at) db.tables.totp.challenges row found,
          ground arith,
          ground arith,
          ground arith,
        )
      ]

  -- A completed code has found the challenge open and the counter fresh for the challenge's subject.
  -- It leaves every counter up to it spent, and the challenge closed from then on.
  pub complete_code-CodeTaken :
      (token_hash : Hash) (counter : ℕ) (at : Time) (subject_id : String) (db : Db)
      → (complete_code server secrets token_hash counter at db).0 ≡ ok subject_id
      → CodeTaken token_hash counter at subject_id db.tables
          (complete_code server secrets token_hash counter at db).1.tables
  unfolding complete_code
  complete_code-CodeTaken token_hash counter at subject_id db e =
      let body = complete_code_body server secrets token_hash counter at in
      let (ran, kept) = transaction-ok server other body db e in
      let (open_challenge, fresh, credentials, challenges) =
        complete_code_body-left token_hash counter at subject_id (after_begin db) ran in
      let rows = db.tables.totp.challenges in
      record {
        open_challenge = open_challenge;
        fresh = fresh;
        spent = λ c le.
            rw (kept, credentials)
              (clears_counter subject_id counter c db.tables.totp.credentials le);
        closed = λ at' le. (
          rw (kept, challenges) (consumable-there token_hash at rows open_challenge),
          rw (kept, challenges) (clears_challenge token_hash at at' rows le),
        );
      }

  complete_recovery_body-left :
      (token_hash code : Hash) (at : Time) (subject_id : String) (db : Db)
      → (complete_recovery_body server secrets token_hash code at db).0 ≡ ok subject_id
      → let t = db.tables.totp in
        let t' = (complete_recovery_body server secrets token_hash code at db).1.tables.totp in
        (any (consumable token_hash at) t.challenges ≡ true)
        × (any (usable subject_id code) t.recovery_codes ≡ true)
        × (t'.recovery_codes ≡ update_where (usable subject_id code) (use_code at) t.recovery_codes)
        × (t'.challenges ≡ update_where (consumable token_hash at) (consume at) t.challenges)
  unfolding complete_recovery_body consume_challenge update_consumed update_used
  complete_recovery_body-left token_hash code at subject_id db e =
      elim (Option-cases (find? (consumable token_hash at) db.tables.totp.challenges)) [
        | inl missing ↦ absurd (ground arith)
        | inr (row, found) ↦ (
          any-find? (consumable token_hash at) db.tables.totp.challenges row found,
          ground arith,
          ground arith,
          ground arith,
        )
      ]

  -- What a used recovery code found and left.
  pub record RecoveryTaken (token_hash code : Hash) (at : Time) (subject_id : String)
      (t t' : Tables) : Type 0 where
    pub open_challenge : any (consumable token_hash at) t.totp.challenges ≡ true
    pub fresh : any (usable subject_id code) t.totp.recovery_codes ≡ true
    pub used : IsUsed subject_id code t'
    pub closed : (at' : Time) → at ≤ at' → IsClosed token_hash at' t'

  -- A completed recovery has found the challenge open and the code unused by the challenge's subject.
  -- It leaves the code used, and the challenge closed from then on.
  pub complete_recovery-RecoveryTaken :
      (token_hash code : Hash) (at : Time) (subject_id : String) (db : Db)
      → (complete_recovery server secrets token_hash code at db).0 ≡ ok subject_id
      → RecoveryTaken token_hash code at subject_id db.tables
          (complete_recovery server secrets token_hash code at db).1.tables
  unfolding complete_recovery
  complete_recovery-RecoveryTaken token_hash code at subject_id db e =
      let body = complete_recovery_body server secrets token_hash code at in
      let (ran, kept) = transaction-ok server other body db e in
      let (open_challenge, fresh, codes, challenges) =
        complete_recovery_body-left token_hash code at subject_id (after_begin db) ran in
      let rows = db.tables.totp.challenges in
      record {
        open_challenge = open_challenge;
        fresh = fresh;
        used = rw (kept, codes) (clears_code subject_id code at db.tables.totp.recovery_codes);
        closed = λ at' le. (
          rw (kept, challenges) (consumable-there token_hash at rows open_challenge),
          rw (kept, challenges) (clears_challenge token_hash at at' rows le),
        );
      }

  -- After a code was accepted at a counter, and any history of operations without an `Enable` of the
  -- subject, no code of that counter or an earlier one is accepted for the subject, on any challenge.
  pub counter_once :
      (subject_id : String) (h h' : Hash) (counter counter' : ℕ) (at at' : Time) (a b : Db)
      → (complete_code server secrets h counter at a).0 ≡ ok subject_id
      → Reach server secrets subject_id (complete_code server secrets h counter at a).1 b
      → counter' ≤ counter
      → (complete_code server secrets h' counter' at' b).0 ≢ ok subject_id
  counter_once subject_id h h' counter counter' at at' a b done reach le again =
      let first = complete_code-CodeTaken h counter at subject_id a done in
      let kept = Reach-Keeps server secrets subject_id reach in
      let second = complete_code-CodeTaken h' counter' at' subject_id b again in
      cc (kept.spent counter' (first.spent counter' le), second.fresh)

  -- After a recovery code was accepted, and any history of operations without an `Enable` of the
  -- subject, the same code is not accepted for the subject again, on any challenge.
  pub recovery_once :
      (subject_id : String) (h h' code : Hash) (at at' : Time) (a b : Db)
      → (complete_recovery server secrets h code at a).0 ≡ ok subject_id
      → Reach server secrets subject_id (complete_recovery server secrets h code at a).1 b
      → (complete_recovery server secrets h' code at' b).0 ≢ ok subject_id
  recovery_once subject_id h h' code at at' a b done reach again =
      let first = complete_recovery-RecoveryTaken h code at subject_id a done in
      let kept = Reach-Keeps server secrets subject_id reach in
      let second = complete_recovery-RecoveryTaken h' code at' subject_id b again in
      cc (kept.used code first.used, second.fresh)

  -- After a code was accepted on a challenge, and any history of operations without an `Enable` of
  -- the subject, no code and no recovery code completes that challenge at the same time or later.
  pub challenge_once :
      (subject_id s : String) (h code : Hash) (counter counter' : ℕ) (at at' : Time) (a b : Db)
      → (complete_code server secrets h counter at a).0 ≡ ok subject_id
      → Reach server secrets subject_id (complete_code server secrets h counter at a).1 b
      → at ≤ at'
      → ((complete_code server secrets h counter' at' b).0 ≢ ok s)
        × ((complete_recovery server secrets h code at' b).0 ≢ ok s)
  challenge_once subject_id s h code counter counter' at at' a b done reach le =
      let first = complete_code-CodeTaken h counter at subject_id a done in
      let kept = Reach-Keeps server secrets subject_id reach in
      let (_, shut) = kept.closed h at' (first.closed at' le) in
      (
        λ again.
            let second = complete_code-CodeTaken h counter' at' s b again in
            cc (shut, second.open_challenge),
        λ again.
            let second = complete_recovery-RecoveryTaken h code at' s b again in
            cc (shut, second.open_challenge),
      )
