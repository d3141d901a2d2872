-- ===== src/Postgres/Totp/Later.antt =====
-- Verify of totp/totp.go over the PostgreSQL store: what two accepted codes of a subject have.
use authlier.Common.{ℕ, Bytes, String, ◌+◌, ◌≡◌, ◌≤◌, Option, arith, leb, Bool-cases, inl, inr}
use authlier.Exec.{ok}
use authlier.Host.{Host}
use authlier.Clock.{Time}
use authlier.Postgres.{Db, Server}
use authlier.Service.{World}
use authlier.Totp.{Otp, Manager, VerifyInput, Authentication}
use authlier.Totp.Methods.{Found, verify}
use authlier.Totp.Soundness.{IsAccepted, IsVerified, verify-IsVerified}
use authlier.Postgres.Totp.{Codec, complete_code, totp_store}
use authlier.Postgres.Totp.Life.Steps.{Reach, next, finds_challenge}
use authlier.Postgres.Totp.Replay.{counter_once}

module _ {O : Type 0} (server : Server) (secrets : Option Codec) (host : Host) (otp : Otp)
    (fuel : ℕ) (manager : Manager Db O) (adapter : manager.store ≡ totp_store server secrets) where
  completed :
      (found : Found) (code : Bytes) (now : Time) (stored left : Db) (subject_id : String)
      → (a : IsAccepted host otp fuel manager found code now stored subject_id left)
      → ((complete_code server secrets found.challenge_hash a.counter now stored).0 ≡ ok subject_id)
        × (left ≡ (complete_code server secrets found.challenge_hash a.counter now stored).1)
  completed found code now stored left subject_id a =
      (rw adapter at a.completes, rw adapter at a.leaves)

  -- Two codes that Verify accepted for one subject, with any history of store operations in between
  -- but an `Enable` of the subject, stand for counters of which the second is the later one.
  pub verify-later :
      (input input' : VerifyInput) (auth auth' : Authentication) (w w' : World Db O)
      → (verify host otp fuel manager input w).0 ≡ ok auth
      → Reach server secrets auth.subject_id
          (verify host otp fuel manager input w).1.stored
          w'.stored
      → (verify host otp fuel manager input' w').0 ≡ ok auth'
      → auth'.subject_id ≡ auth.subject_id
      → (v : IsVerified host otp fuel manager input auth w
          (verify host otp fuel manager input w).1.stored)
        × (v' : IsVerified host otp fuel manager input' auth' w'
            (verify host otp fuel manager input' w').1.stored)
        × (v.accepted.counter + 1 ≤ v'.accepted.counter)
  verify-later input input' auth auth' w w' done reach again same =
      let v = verify-IsVerified host otp fuel manager input auth w done in
      let v' = verify-IsVerified host otp fuel manager input' auth' w' again in
      let (first, left) = completed v.found input.code _ _ _ auth.subject_id v.accepted in
      let (second, _) = completed v'.found input'.code _ _ _ auth'.subject_id v'.accepted in
      elim (Bool-cases (leb v'.accepted.counter v.accepted.counter)) [
        | inl early ↦ absurd (
            counter_once server secrets auth.subject_id v.found.challenge_hash
              v'.found.challenge_hash v.accepted.counter v'.accepted.counter _ _ _ _ first
              (next (rw left at reach)
                (rw adapter (finds_challenge v'.found.challenge_hash w'.stored)))
              (ground arith) (rw same at second))
        | inr later ↦ (v, v', ground arith)
      ]
