-- ===== src/PasswordReset/Soundness.antt =====
-- What a successful `Request` has sent.
use authlier.Common.{
  ℕ, zero, suc, ◌≡◌, ◌⊎◌, refl, String, true, Bytes, arith, ◌==◌, string_eq, eq_iff, Bool-cases,
  inl, inr,
}
use authlier.Clock.{add_to}
use authlier.Exec.{ok, err, Result-cases}
use authlier.Host.{Host, Reads}
use authlier.Token
use authlier.EmailAddress.{Mail}
use authlier.PasswordReset.{
  conflict, not_found, User, Record, Manager, World, RequestInput, Attempt, request_operation,
}
use authlier.PasswordReset.Methods.{
  issue_loop, after_issue, issue_attempts, request_found, request, normalized, check_attempt,
  valid_user,
}

module _ {S O : Type 0} (host : Host) (mail : Mail) (manager : Manager S O) where
  -- The store has accepted a record of the user under the hash of a generated token, and the sender
  -- has sent that token, with the record's expiry, to the user's address.
  pub record IsSent (user : User) : Type 0 where
    pub raw_token : Bytes
    pub issued : Record
    pub reads : Reads
    pub stored : S
    pub outside : O
    pub generated : (Token.generate host reads).0 ≡ ok (raw_token, issued.token_hash)
    pub owner : issued.user_id ≡ user.id
    pub address : issued.email ≡ user.email
    pub expiry : issued.expires_at ≡ add_to issued.created_at manager.lifetime
    pub accepted : (manager.store.issue issued stored).0 ≡ ok tt
    pub sent :
        (manager.send_password_reset
          (record {
            user_id = user.id;
            email = user.email;
            token = raw_token;
            expires_at = issued.expires_at;
          })
          outside).0
        ≡ ok tt

  issue_loop-IsSent :
      (n : ℕ) (user : User) (source_key : String) (w : World S O)
      → (issue_loop host mail manager n user source_key w).0 ≡ ok tt
      → IsSent user
  unfolding issue_loop after_issue
  issue_loop-IsSent zero user source_key w e = absurd (ground arith)
  issue_loop-IsSent (suc n) user source_key w e =
      elim (Result-cases (Token.generate host w.reads).0) [
        | inr (x, failed) ↦ absurd (ground arith)
        | inl ((raw_token, token_hash), generated) ↦
            let reads = (Token.generate host w.reads).1 in
            let now = host.now reads.clock in
            let issued : Record = record {
              user_id = user.id;
              email = user.email;
              token_hash = token_hash;
              created_at = now;
              expires_at = add_to now manager.lifetime;
            } in
            (elim (Result-cases (manager.store.issue issued w.stored).0) [
              | inl (_, accepted) ↦
                  (elim (Result-cases
                    (manager.send_password_reset
                      (record {
                        user_id = user.id;
                        email = user.email;
                        token = raw_token;
                        expires_at = issued.expires_at;
                      })
                      w.outside).0) [
                        | inr (x, failed) ↦ absurd (ground arith)
                        | inl (_, sent) ↦ record {
                          raw_token = raw_token;
                          issued = issued;
                          reads = w.reads;
                          stored = w.stored;
                          outside = w.outside;
                          generated = generated;
                          owner = refl;
                          address = refl;
                          expiry = refl;
                          accepted = accepted;
                          sent = sent;
                        }
                      ])
              | inr (conflict, taken) ↦
                  let w' : World S O = record {
                    stored = (manager.store.issue issued w.stored).1;
                    outside = w.outside;
                    reads = record reads { clock = suc reads.clock };
                  } in
                  issue_loop-IsSent n user source_key w' (ground arith)
              | inr (x, failed) ↦ absurd (ground arith)
            ])
      ]

  -- When `Request` succeeds, either the normalized address is empty or unknown to the store and
  -- nothing is sent after the attempt guard's check; or the store has found a user with that address,
  -- has accepted a record of that user under the hash of a generated token, and that token was sent to
  -- the address.
  pub request-IsSent :
      (input : RequestInput) (w : World S O)
      → (request host mail manager input w).0 ≡ ok tt
      → let address = normalized host mail manager input.email in
        let (_, checked) =
          check_attempt host mail manager
            (record {
              operation = request_operation;
              email = address;
              source_key = input.source_key;
            })
            w in
        (((address ≡ "")
            ⊎ ((manager.store.find_user_by_email address checked.stored).0 ≡ err not_found))
          × ((request host mail manager input w).1.outside ≡ checked.outside))
        ⊎ ((user : User) × ((manager.store.find_user_by_email address checked.stored).0 ≡ ok user)
            × (user.email ≡ address)
            × IsSent user)
  unfolding request request_found valid_user
  request-IsSent input w e =
      let address = normalized host mail manager input.email in
      let a : Attempt = record {
        operation = request_operation;
        email = address;
        source_key = input.source_key;
      } in
      let (passed, checked) = check_attempt host mail manager a w in
      elim (Result-cases passed) [
        | inr (x, failed) ↦ absurd (ground arith)
        | inl (_, open_guard) ↦ elim (Bool-cases (address == "")) [
          | inl blank ↦ inl (inl ((eq_iff address "").0 blank), ground arith)
          | inr given ↦
              let (answer, s) = manager.store.find_user_by_email address checked.stored in
              let w' : World S O = record checked { stored = s } in
              (elim (Result-cases answer) [
                | inl (user, found) ↦
                    let valid : valid_user host mail manager user address ≡ true = ground arith in
                    inr (
                      user,
                      found,
                      (eq_iff user.email address).0 (ground arith),
                      issue_loop-IsSent issue_attempts user input.source_key w' (ground arith),
                    )
                | inr (not_found, unknown) ↦ inl (inr unknown, ground arith)
                | inr (x, failed) ↦ absurd (ground arith)
              ])
        ]
      ]
