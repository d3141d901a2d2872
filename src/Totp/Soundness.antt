-- ===== src/Totp/Soundness.antt =====
-- What an accepted code proves, over any store.
use authlier.Common.{
  ℕ, suc, ◌≡◌, ◌≢◌, refl, ◌∙◌, ap, Bool, true, false, Option, none, some, String, Bytes, arith,
  string_eq, eq_iff, Bool-cases, Option-cases, inl, inr,
}
use authlier.Clock.{Time, before}
use authlier.Exec.{Result, ok, err, Result-cases, bind-ok, ◌>>=◌}
use authlier.Host.{Host, Hash}
use authlier.Token
use authlier.Service.{World}
use authlier.Totp.{
  Error, Otp, Manager, VerifyInput, Authentication, valid_challenge, valid_credential,
  verify_operation, Operation, verified_event, failed_event, EventType,
}
use authlier.Totp.Codes.{counter_at, match_counter}
use authlier.Totp.Codes.Window.{IsMatch, IsNear, match_counter-IsMatch}
use authlier.Totp.Methods.{
  Found, is_replayed, check_attempt, Act, read_now, record_event, find_by_hash, find_challenge,
  completed, refuse, verify_matched, verify,
}

module _ {S O : Type 0} (host : Host) (otp : Otp) (fuel : ℕ) (manager : Manager S O) where
  -- The challenge of a token, as it was found: valid, with a valid credential of its subject, and not
  -- expired when the clock was read.
  pub record IsFound (raw_token : Bytes) (found : Found) (w : World S O) : Type 0 where
    pub of_token : Token.hash_token host raw_token ≡ ok found.challenge_hash
    pub stored :
        (manager.store.find_challenge found.challenge_hash w.stored).0
        ≡ ok (found.challenge, found.credential)
    pub valid : valid_challenge found.challenge found.challenge_hash ≡ true
    pub owned : valid_credential found.credential found.challenge.subject_id ≡ true
    pub live : before (host.now w.reads.clock) found.challenge.expires_at ≡ true

  find_by_hash-found :
      (h : Hash) (found : Found) (w : World S O)
      → (find_by_hash host otp fuel manager h w).0 ≡ ok found
      → (h ≡ found.challenge_hash)
        × ((manager.store.find_challenge h w.stored).0 ≡ ok (found.challenge, found.credential))
        × (valid_challenge found.challenge h ≡ true)
        × (valid_credential found.credential found.challenge.subject_id ≡ true)
        × (before (host.now w.reads.clock) found.challenge.expires_at ≡ true)
        × ((find_by_hash host otp fuel manager h w).1.stored
            ≡ (manager.store.find_challenge h w.stored).1)
        × ((find_by_hash host otp fuel manager h w).1.reads.clock ≡ suc w.reads.clock)
  unfolding find_by_hash
  find_by_hash-found h found w e = elim (Result-cases (manager.store.find_challenge h w.stored).0) [
    | inl ((challenge, credential), answer) ↦ (
      ground arith,
      ground arith,
      ground arith,
      ground arith,
      ground arith,
      ground arith,
      ground arith,
    )
    | inr (failure, answer) ↦ absurd (ground arith)
  ]

  find_challenge-IsFound :
      (raw_token : Bytes) (found : Found) (w : World S O)
      → (find_challenge host otp fuel manager raw_token w).0 ≡ ok found
      → IsFound raw_token found w
        × ((find_challenge host otp fuel manager raw_token w).1.stored
            ≡ (manager.store.find_challenge found.challenge_hash w.stored).1)
        × ((find_challenge host otp fuel manager raw_token w).1.reads.clock ≡ suc w.reads.clock)
  unfolding find_challenge
  find_challenge-IsFound raw_token found w e =
      elim (Result-cases (Token.hash_token host raw_token)) [
        | inl (h, hashed) ↦
            let (same, stored, valid, owned, live, left, read) =
              find_by_hash-found h found w (ground arith) in
            (
              record {
                of_token = rw (← same) hashed;
                stored = rw (← same) stored;
                valid = rw (← same) valid;
                owned = owned;
                live = live;
              },
              rw (hashed, ← same) left,
              rw hashed read,
            )
        | inr (failure, refused) ↦ absurd (ground arith)
      ]

  record_event-stored :
      (event_type : EventType) (subject_id source_key : String) (w : World S O)
      → ((record_event host otp fuel manager event_type subject_id source_key w).0 ≡ ok tt)
        × ((record_event host otp fuel manager event_type subject_id source_key w).1.stored
            ≡ w.stored)
  unfolding record_event
  record_event-stored event_type subject_id source_key w =
      elim (Option-cases manager.security_events) [
        | inl e ↦ rw e (refl, refl)
        | inr (sink, e) ↦ rw e (refl, refl)
      ]

  completed-ok :
      (expected source_key : String) (event_type : EventType) (used : Bool)
      (answer : Result Error String) (auth : Authentication) (w : World S O)
      → (completed host otp fuel manager expected source_key event_type used answer w).0 ≡ ok auth
      → (answer ≡ ok expected)
        × (auth.subject_id ≡ expected)
        × ((completed host otp fuel manager expected source_key event_type used answer w).1.stored
            ≡ w.stored)
  unfolding completed
  completed-ok expected source_key event_type used (err failure) auth w e = absurd (ground arith)
  completed-ok expected source_key event_type used (ok subject_id) auth w e =
      let (recorded, kept) = record_event-stored event_type subject_id source_key w in
      (
        ground (arith, eq_iff subject_id expected),
        ground (arith, eq_iff subject_id expected),
        ground arith,
      )

  refuse-failed :
      (subject_id source_key : String) (auth : Authentication) (w : World S O)
      → (refuse host otp fuel manager subject_id source_key w).0 ≢ ok auth
  unfolding refuse
  refuse-failed subject_id source_key auth w e =
      let (recorded, _) = record_event-stored failed_event subject_id source_key w in
      absurd (ground (arith, recorded))

  -- The code was accepted at a counter next to the time `now`, later than the last one that the
  -- credential had used, and the store completed the challenge of the found subject with it.
  pub record IsAccepted (found : Found) (code : Bytes) (now : Time) (stored : S)
      (subject_id : String) (left : S) : Type 0 where
    pub counter : ℕ
    pub matched : IsMatch otp found.credential.secret code counter
    pub near : IsNear counter (counter_at now)
    pub fresh : is_replayed found.credential.last_used_counter counter ≡ false
    pub same_subject : subject_id ≡ found.challenge.subject_id
    pub completes :
        (manager.store.complete_code found.challenge_hash counter now stored).0 ≡ ok subject_id
    pub leaves : left ≡ (manager.store.complete_code found.challenge_hash counter now stored).1

  verify_matched-IsAccepted :
      (found : Found) (code : Bytes) (source_key : String) (now : Time) (m : Option (Option ℕ))
      (auth : Authentication) (w : World S O)
      → match_counter otp found.credential.secret code now ≡ m
      → (verify_matched host otp fuel manager found source_key now m w).0 ≡ ok auth
      → IsAccepted found code now w.stored auth.subject_id
          (verify_matched host otp fuel manager found source_key now m w).1.stored
  unfolding verify_matched
  verify_matched-IsAccepted found code source_key now none auth w same e = absurd (ground arith)
  verify_matched-IsAccepted found code source_key now (some none) auth w same e =
      absurd (refuse-failed found.challenge.subject_id source_key auth w e)
  verify_matched-IsAccepted found code source_key now (some (some counter)) auth w same e =
      elim (Bool-cases (is_replayed found.credential.last_used_counter counter)) [
        | inl replayed ↦
            absurd (ground (arith, refuse-failed found.challenge.subject_id source_key auth w))
        | inr fresh ↦
            let (answer, s) =
              manager.store.complete_code found.challenge_hash counter now w.stored in
            let (matched, near) =
              match_counter-IsMatch otp found.credential.secret code now counter same in
            let (done, expected, left) =
              completed-ok found.challenge.subject_id source_key verified_event false answer auth
                (record w { stored = s }) (rw fresh at e) in
            record {
              counter = counter;
              matched = matched;
              near = near;
              fresh = fresh;
              same_subject = expected;
              completes = rw expected done;
              leaves = rw (fresh, left) refl;
            }
      ]

  check_attempt-kept :
      (a : Operation) (subject_id source_key : String) (w : World S O)
      → ((check_attempt host otp fuel manager a subject_id source_key w).1.stored ≡ w.stored)
        × ((check_attempt host otp fuel manager a subject_id source_key w).1.reads ≡ w.reads)
  check_attempt-kept a subject_id source_key w = elim (Option-cases manager.attempt_guard) [
    | inl e ↦ rw e (refl, refl)
    | inr (guard, e) ↦ rw e (refl, refl)
  ]

  abbrev read_and_match : Found → VerifyInput → Time → Act S O Authentication
  read_and_match found input now =
      verify_matched host otp fuel manager found input.source_key now
        (match_counter otp found.credential.secret input.code now)

  -- What a success of Verify stands on.
  pub record IsVerified (input : VerifyInput) (auth : Authentication) (w : World S O) (left : S)
      : Type 0 where
    pub found : Found
    pub is_found : IsFound input.challenge_token found w
    pub accepted :
        IsAccepted found input.code
          (host.now (suc w.reads.clock))
          (manager.store.find_challenge found.challenge_hash w.stored).1
          auth.subject_id
          left

  accepted_after :
      (found : Found) (input : VerifyInput) (auth : Authentication) (stored : S) (clock : ℕ)
      (w : World S O)
      → w.stored ≡ stored
      → w.reads.clock ≡ clock
      → ((read_now host otp fuel manager >>= read_and_match found input) w).0 ≡ ok auth
      → IsAccepted found input.code
          (host.now clock)
          stored
          auth.subject_id
          ((read_now host otp fuel manager >>= read_and_match found input) w).1.stored
  accepted_after found input auth stored clock w p q e =
      rw (← p, ← q)
        (verify_matched-IsAccepted found input.code input.source_key (host.now w.reads.clock) _ auth
          (record w { reads = record w.reads { clock = suc w.reads.clock } }) refl e)

  -- ok
  pub verify-IsVerified :
      (input : VerifyInput) (auth : Authentication) (w : World S O)
      → (verify host otp fuel manager input w).0 ≡ ok auth
      → IsVerified input auth w (verify host otp fuel manager input w).1.stored
  unfolding verify
  verify-IsVerified input auth w e =
      let (found, e1, rest, same) =
        bind-ok (find_challenge host otp fuel manager input.challenge_token) _ w e in
      let (is_found, stored, clock) = find_challenge-IsFound input.challenge_token found w e1 in
      let w1 = (find_challenge host otp fuel manager input.challenge_token w).1 in
      let checking =
        check_attempt host otp fuel manager verify_operation found.challenge.subject_id
          input.source_key in
      let (checked, _, rest2, same2) =
        bind-ok checking (λ _. read_now host otp fuel manager >>= read_and_match found input) w1
          rest in
      let (kept, unread) =
        check_attempt-kept verify_operation found.challenge.subject_id input.source_key w1 in
      record {
        found = found;
        is_found = is_found;
        accepted =
            rw (same, same2)
              (accepted_after found input auth _ _ (checking w1).1 (kept ∙ stored)
                (ap (λ r. r.clock) unread ∙ clock) rest2);
      }
