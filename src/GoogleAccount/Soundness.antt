-- ===== src/GoogleAccount/Soundness.antt =====
-- What a completed sign-in with Google stands on, over any store and any exchange.
use authlier.Common.{
  ◌≡◌, refl, true, ◌||◌, some, String, Bytes, arith, string_eq, bytes_eq, bytes_beq_iff, Bool-cases,
  Option-cases, inl, inr, suc,
}
use authlier.Text.{trim_space}
use authlier.Text.Trim.{trim_bytes}
use authlier.Clock.{Time}
use authlier.Exec.{Result, ok, err, bind-ok}
use authlier.Host.{Host, Hash}
use authlier.Service.{World, on_outside}
use authlier.EmailAddress.{Mail, normalize}
use authlier.GoogleAccount.{Error, Challenge, User, Identity, Urls, Manager, ExchangeInput}
use authlier.GoogleAccount.Methods.{valid_challenge, is_none, resolve, complete_with, complete}

module _ {S O U : Type 0} (host : Host) (mail : Mail) (urls : Urls U) (bytes_of : String → Bytes)
    (manager : Manager S O U) where
  -- The identity is one for the challenge, with an address that its provider has verified, and the
  -- store resolved it to the user.
  pub record IsResolved (challenge : Challenge) (identity : Identity) (user : User) (stored : S)
      : Type 0 where
    pub address : String
    pub same_nonce : identity.nonce ≡ challenge.nonce
    pub verified : identity.email_verified ≡ true
    pub normal : normalize mail identity.email ≡ some address
    pub resolved :
        (manager.store.resolve_identity
          (record {
            provider_subject = trim_space identity.provider_subject;
            email = address;
            subject_id = challenge.subject_id;
          })
          stored).0
        ≡ ok user

  resolve-IsResolved :
      (challenge : Challenge) (identity : Identity) (user : User) (w : World S O)
      → (resolve host mail urls bytes_of manager challenge identity w).0 ≡ ok user
      → IsResolved challenge identity user w.stored
  unfolding resolve
  resolve-IsResolved challenge identity user w e =
      elim (Option-cases (normalize mail identity.email)) [
        | inl invalid ↦ absurd (ground arith)
        | inr (address, normal) ↦ record {
          address = address;
          same_nonce = ground (arith, bytes_beq_iff identity.nonce challenge.nonce);
          verified = ground arith;
          normal = normal;
          resolved = ground arith;
        }
      ]

  -- What a completed sign-in has found.
  pub record IsCompleted (raw_state raw_code : Bytes) (user : User) (w : World S O) : Type 0 where
    pub challenge : Challenge
    pub identity : Identity
    pub consumed :
        (manager.store.consume_challenge
          (host.sum256 (trim_bytes raw_state))
          (host.now w.reads.clock)
          w.stored).0
        ≡ ok challenge
    pub valid :
        valid_challenge challenge (host.sum256 (trim_bytes raw_state)) (host.now w.reads.clock)
        ≡ true
    pub exchanged :
        (manager.exchange
          (record {
            code = trim_bytes raw_code;
            code_verifier = challenge.code_verifier;
            redirect_url = manager.redirect_url;
            audience = manager.client_id;
          })
          w.outside).0
        ≡ ok identity
    pub resolved :
        IsResolved challenge identity user
          (manager.store.consume_challenge
            (host.sum256 (trim_bytes raw_state))
            (host.now w.reads.clock)
            w.stored).1

  complete_with-ok :
      (state_hash : Hash) (now : Time) (code : Bytes) (answer : Result Error Challenge)
      (user : User) (w : World S O)
      → (complete_with host mail urls bytes_of manager state_hash now code answer w).0 ≡ ok user
      → (challenge : Challenge) × (identity : Identity) × (answer ≡ ok challenge)
        × (valid_challenge challenge state_hash now ≡ true)
        × ((manager.exchange
              (record {
                code = code;
                code_verifier = challenge.code_verifier;
                redirect_url = manager.redirect_url;
                audience = manager.client_id;
              })
              w.outside).0
            ≡ ok identity)
        × IsResolved challenge identity user w.stored
  unfolding complete_with
  complete_with-ok state_hash now code (err x) user w e = absurd (ground arith)
  complete_with-ok state_hash now code (ok challenge) user w e =
      elim (Bool-cases (valid_challenge challenge state_hash now)) [
        | inl valid ↦
            let input : ExchangeInput = record {
              code = code;
              code_verifier = challenge.code_verifier;
              redirect_url = manager.redirect_url;
              audience = manager.client_id;
            } in
            let (identity, exchanged, rest, _) =
              bind-ok (on_outside (manager.exchange input))
                (resolve host mail urls bytes_of manager challenge) w (rw valid at e) in
            (
              challenge,
              identity,
              refl,
              valid,
              exchanged,
              resolve-IsResolved challenge identity user _ rest,
            )
        | inr bad ↦ absurd (ground arith)
      ]

  -- Over any store and any exchange, whatever they answer: when `Complete` succeeds, the store consumed
  -- a challenge under the hash of the state that is valid at the time read from the clock, the exchange
  -- of the code answered an identity with the nonce of the challenge and a verified address, and the
  -- store resolved it, for the subject of the challenge, to the user that is returned.
  pub complete-IsCompleted :
      (raw_state raw_code : Bytes) (user : User) (w : World S O)
      → (complete host mail urls bytes_of manager raw_state raw_code w).0 ≡ ok user
      → IsCompleted raw_state raw_code user w
  unfolding complete
  complete-IsCompleted raw_state raw_code user w e =
      elim (Bool-cases (is_none (trim_bytes raw_state) || is_none (trim_bytes raw_code))) [
        | inl blank ↦ absurd (ground arith)
        | inr given ↦
            let state_hash = host.sum256 (trim_bytes raw_state) in
            let (answer, s) =
              manager.store.consume_challenge state_hash (host.now w.reads.clock) w.stored in
            let (challenge, identity, consumed, valid, exchanged, resolved) =
              complete_with-ok state_hash (host.now w.reads.clock) (trim_bytes raw_code) answer user
                (record w { stored = s; reads = record w.reads { clock = suc w.reads.clock } })
                (rw given at e) in
            record {
              challenge = challenge;
              identity = identity;
              consumed = consumed;
              valid = valid;
              exchanged = exchanged;
              resolved = resolved;
            }
      ]
