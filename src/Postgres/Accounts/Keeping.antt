-- ===== src/Postgres/Accounts/Keeping.antt =====
-- The operations of the stores of accounts.go and the sign-in methods of an account.
use authlier.Common.{
  ◌≡◌, refl, Bool, true, not, ◌||◌, ◌&&◌, String, arith, string_eq, bytes_eq, ◌==◌,
}
use authlier.Clock.{Time, before}
use authlier.Exec.{
  Result, ok, err, Fault, no_rows, unique_violation, foreign_key_violation, unavailable, pure,
}
use authlier.Host.{Hash}
use authlier.Postgres.{PasswordRow, IdentityRow, UserRow, Tables, Server}
use authlier.Postgres.Preserving.{
  IsHistory, Preserves, pure-Preserves, raise-Preserves, statement-Preserves, read-Preserves,
  bind-Preserves, if-Preserves, transaction-Preserves, rethrow-Preserves,
}
use authlier.Postgres.Accounts.{
  insert_user_row, insert_password, upsert_password, select_user, lock_user, draw_user, insert_user,
  select_email,
}
use authlier.Postgres.Accounts.Passwords
use authlier.Postgres.Accounts.Resets
use authlier.Postgres.Accounts.Verifications
use authlier.Postgres.Accounts.Identities
use authlier.Postgres.{statement}
use authlier.Exec.{rethrow}
use authlier.EmailPassword.{Registration, other, conflict}
use authlier.PasswordReset
use authlier.EmailVerification
use authlier.GoogleAccount
use authlier.GoogleAccount.{IdentityResolution}
use authlier.Postgres.Accounts.Methods
use authlier.Postgres.Accounts.Methods.{HasMethod, KeepsMethod, history}

module _ (server : Server) (subject_id : String) where
  keeps : IsHistory (KeepsMethod subject_id)
  keeps = history subject_id

  remove_body-Preserves :
      (s current : String)
      → Preserves (KeepsMethod subject_id) (Passwords.remove_body server s current)
  unfolding Passwords.remove_body lock_user select_user Passwords.select_hash
      Passwords.select_others
  remove_body-Preserves s current = record {
    keeps = λ db h. ground (arith, Methods.keeps_delete_password subject_id s db.tables);
  }

  unlink_body-Preserves :
      (s : String) → Preserves (KeepsMethod subject_id) (Identities.unlink_body server s)
  unfolding Identities.unlink_body lock_user select_user Identities.select_linked
      Identities.select_methods
  unlink_body-Preserves s = record {
    keeps = λ db h. ground (arith, Methods.keeps_delete_identity subject_id s db.tables);
  }

  insert_password-Preserves :
      (row : PasswordRow)
      → Preserves (KeepsMethod subject_id) (statement server (insert_password row))
  insert_password-Preserves row =
      statement-Preserves keeps server (insert_password row)
        (Methods.keeps_insert_password subject_id row)

  insert_user_row-Preserves :
      (row : UserRow) → Preserves (KeepsMethod subject_id) (statement server (insert_user_row row))
  insert_user_row-Preserves row =
      statement-Preserves keeps server (insert_user_row row)
        (Methods.keeps_insert_user subject_id row)

  lock_user-Preserves : (s : String) → Preserves (KeepsMethod subject_id) (lock_user server s)
  unfolding lock_user select_user
  lock_user-Preserves s = read-Preserves keeps server (select_user s) (λ t. refl)

  draw_user-Preserves : Preserves (KeepsMethod subject_id) (draw_user server)
  unfolding draw_user
  draw_user-Preserves = record { keeps = λ db h. ground arith }

  pub register-Preserves :
      (r : Registration) → Preserves (KeepsMethod subject_id) (Passwords.register server r)
  unfolding Passwords.register Passwords.register_body
  register-Preserves r = transaction-Preserves keeps server other _ (
      bind-Preserves keeps (rethrow other (draw_user server)) _
        (rethrow-Preserves other _ draw_user-Preserves)
        (λ (user_id, handle).
          bind-Preserves keeps _ _
            (rethrow-Preserves Passwords.conflict_if_unique _ (insert_user_row-Preserves _))
            (λ _.
              bind-Preserves keeps _ _ (rethrow-Preserves other _ (insert_password-Preserves _))
                (λ _. pure-Preserves keeps _))))

  pub add_password-Preserves :
      (s password_hash : String) (at : Time)
      → Preserves (KeepsMethod subject_id) (Passwords.add_password server s password_hash at)
  unfolding Passwords.add_password Passwords.add_body
  add_password-Preserves s password_hash at = transaction-Preserves keeps server other _ (
      bind-Preserves keeps (rethrow Passwords.not_found_if_none (lock_user server s)) _
        (rethrow-Preserves Passwords.not_found_if_none _ (lock_user-Preserves s))
        (λ u.
          bind-Preserves keeps _ _
            (rethrow-Preserves Passwords.conflict_if_unique _ (insert_password-Preserves _))
            (λ _. pure-Preserves keeps _)))

  pub replace_password_hash-Preserves :
      (s current replacement : String) (at : Time)
      → Preserves
          (KeepsMethod subject_id)
          (Passwords.replace_password_hash server s current replacement at)
  unfolding Passwords.replace_password_hash
  replace_password_hash-Preserves s current replacement at =
      bind-Preserves keeps
        (rethrow other (statement server (Passwords.update_hash s current replacement at))) _
        (rethrow-Preserves other _ (
          statement-Preserves keeps server (Passwords.update_hash s current replacement at)
            (Methods.keeps_update_hash subject_id s current replacement at)))
        (λ affected.
          if-Preserves keeps (not affected) _ _ (raise-Preserves keeps conflict)
            (pure-Preserves keeps tt))

  pub remove_password-Preserves :
      (s current : String) (at : Time)
      → Preserves (KeepsMethod subject_id) (Passwords.remove_password server s current at)
  unfolding Passwords.remove_password
  remove_password-Preserves s current at =
      transaction-Preserves keeps server other _ (remove_body-Preserves s current)

  pub reset_password-Preserves :
      (h : Hash) (password_hash : String) (at : Time)
      → Preserves (KeepsMethod subject_id) (Resets.reset_password server h password_hash at)
  unfolding Resets.reset_password Resets.reset_body Resets.select_reset Resets.delete_reset
  reset_password-Preserves h password_hash at =
      transaction-Preserves keeps server PasswordReset.other _ (
        bind-Preserves keeps
          (rethrow Resets.not_found_if_none (statement server (Resets.select_reset h))) _
          (rethrow-Preserves Resets.not_found_if_none _
            (read-Preserves keeps server (Resets.select_reset h) (λ t. refl)))
          (λ (u, r).
            if-Preserves keeps (not (before at r.expires_at)) _ _
              (raise-Preserves keeps PasswordReset.inactive_token)
              (bind-Preserves keeps _ _
                (rethrow-Preserves PasswordReset.other _ (
                  statement-Preserves keeps server (upsert_password _)
                    (Methods.keeps_upsert_password subject_id _)))
                (λ _.
                  bind-Preserves keeps _ _
                    (rethrow-Preserves PasswordReset.other _
                      (statement-Preserves keeps server (Resets.delete_reset u.id) (λ t h. h)))
                    (λ _. pure-Preserves keeps _)))))

  answered-Preserves :
      {A : Type 0} (body : Tables → Result Fault A × Tables)
      → ((t : Tables) → (body t).1 ≡ t)
      → Preserves (KeepsMethod subject_id) (Identities.answered server body)
  answered-Preserves body reads = record { keeps = (read-Preserves keeps server body reads).keeps }

  unless_found-Preserves :
      {A : Type 0} (taken : GoogleAccount.Error) (answer : Result Fault A)
      → Preserves (KeepsMethod subject_id) (Identities.unless_found server taken answer)
  unfolding Identities.unless_found
  unless_found-Preserves taken (ok row) = raise-Preserves keeps taken
  unless_found-Preserves taken (err no_rows) = pure-Preserves keeps tt
  unless_found-Preserves taken (err unique_violation) = raise-Preserves keeps _
  unless_found-Preserves taken (err foreign_key_violation) = raise-Preserves keeps _
  unless_found-Preserves taken (err unavailable) = raise-Preserves keeps _

  insert_user-Preserves :
      (email : String) (verified : Bool) (at : Time)
      → Preserves (KeepsMethod subject_id) (insert_user server email verified at)
  unfolding insert_user
  insert_user-Preserves email verified at =
      bind-Preserves keeps (draw_user server) _ draw_user-Preserves (λ (user_id, handle).
        bind-Preserves keeps _ _ (insert_user_row-Preserves _) (λ _. pure-Preserves keeps user_id))

  link_target-Preserves :
      (r : IdentityResolution)
      → Preserves (KeepsMethod subject_id) (Identities.link_target server r)
  unfolding Identities.link_target Identities.select_linked select_email
  link_target-Preserves r =
      if-Preserves keeps (not (r.subject_id == "")) _ _
        (bind-Preserves keeps (rethrow Identities.not_found_if_none (lock_user server r.subject_id))
          _ (rethrow-Preserves Identities.not_found_if_none _ (lock_user-Preserves r.subject_id))
          (λ u.
            bind-Preserves keeps
              (Identities.answered server (Identities.select_linked r.subject_id)) _
              (answered-Preserves (Identities.select_linked r.subject_id) (λ t. refl))
              (λ existing.
                bind-Preserves keeps
                  (Identities.unless_found server GoogleAccount.conflict existing) _
                  (unless_found-Preserves GoogleAccount.conflict existing)
                  (λ _. pure-Preserves keeps r.subject_id))))
        (bind-Preserves keeps (Identities.answered server (select_email r.email)) _
          (answered-Preserves (select_email r.email) (λ t. refl))
          (λ owner.
            bind-Preserves keeps (Identities.unless_found server GoogleAccount.link_required owner)
              (λ _ db.
                rethrow Identities.link_if_unique
                  (insert_user server r.email true (server.now db.statements)) db)
              (unless_found-Preserves GoogleAccount.link_required owner)
              (λ _. record {
                keeps =
                    λ db. (insert_user-Preserves r.email true (server.now db.statements)).keeps db;
              })))

  resolve_new-Preserves :
      (r : IdentityResolution)
      → Preserves (KeepsMethod subject_id) (Identities.resolve_new server r)
  unfolding Identities.resolve_new
  resolve_new-Preserves r =
      bind-Preserves keeps (Identities.link_target server r) _ (link_target-Preserves r) (λ user_id.
        record {
          keeps = λ db.
              let row : IdentityRow = record {
                provider_subject = r.provider_subject;
                user_id = user_id;
                email = r.email;
                linked_at = server.current_timestamp db.statements;
              } in
              (bind-Preserves keeps
                  (rethrow Identities.conflict_if_unique
                    (statement server (Identities.insert_identity row)))
                  (λ _. pure {E = GoogleAccount.Error} (record { id = user_id }))
                  (rethrow-Preserves Identities.conflict_if_unique _ (
                    statement-Preserves keeps server (Identities.insert_identity row)
                      (Methods.keeps_insert_identity subject_id row)))
                  (λ _. pure-Preserves keeps _)).keeps
                db;
        })

  resolve_linked-Preserves :
      (r : IdentityResolution) (row : IdentityRow)
      → Preserves (KeepsMethod subject_id) (Identities.resolve_linked server r row)
  unfolding Identities.resolve_linked
  resolve_linked-Preserves r row =
      if-Preserves keeps (not (r.subject_id == "") && not (row.user_id == r.subject_id)) _ _
        (raise-Preserves keeps GoogleAccount.conflict)
        (bind-Preserves keeps
          (rethrow GoogleAccount.other
            (statement server (Identities.update_email r.email r.provider_subject)))
          _
          (rethrow-Preserves GoogleAccount.other _ (
            statement-Preserves keeps server (Identities.update_email r.email r.provider_subject)
              (Methods.keeps_update_email subject_id r.email r.provider_subject)))
          (λ _. pure-Preserves keeps _))

  resolve_found-Preserves :
      (r : IdentityResolution) (answer : Result Fault IdentityRow)
      → Preserves (KeepsMethod subject_id) (Identities.resolve_found server r answer)
  unfolding Identities.resolve_found
  resolve_found-Preserves r (ok row) = resolve_linked-Preserves r row
  resolve_found-Preserves r (err no_rows) = resolve_new-Preserves r
  resolve_found-Preserves r (err unique_violation) = raise-Preserves keeps _
  resolve_found-Preserves r (err foreign_key_violation) = raise-Preserves keeps _
  resolve_found-Preserves r (err unavailable) = raise-Preserves keeps _

  pub resolve_identity-Preserves :
      (r : IdentityResolution)
      → Preserves (KeepsMethod subject_id) (Identities.resolve_identity server r)
  unfolding Identities.resolve_identity Identities.resolve_body Identities.select_identity
  resolve_identity-Preserves r = transaction-Preserves keeps server GoogleAccount.other _ (
      bind-Preserves keeps
        (Identities.answered server (Identities.select_identity r.provider_subject)) _
        (answered-Preserves (Identities.select_identity r.provider_subject) (λ t. refl))
        (resolve_found-Preserves r))

  pub unlink_identity-Preserves :
      (s : String) (at : Time)
      → Preserves (KeepsMethod subject_id) (Identities.unlink_identity server s at)
  unfolding Identities.unlink_identity
  unlink_identity-Preserves s at =
      transaction-Preserves keeps server GoogleAccount.other _ (unlink_body-Preserves s)

  pub issue_reset-Preserves :
      (r : PasswordReset.Record) → Preserves (KeepsMethod subject_id) (Resets.issue server r)
  unfolding Resets.issue Resets.upsert_reset
  issue_reset-Preserves r =
      rethrow-Preserves Resets.conflict_if_unique _
        (statement-Preserves keeps server (Resets.upsert_reset _) (λ t h. ground arith))

  pub issue_verification-Preserves :
      (r : EmailVerification.Record)
      → Preserves (KeepsMethod subject_id) (Verifications.issue server r)
  unfolding Verifications.issue Verifications.upsert_verification
  issue_verification-Preserves r =
      rethrow-Preserves Verifications.conflict_if_unique _ (
        statement-Preserves keeps server (Verifications.upsert_verification _)
          (λ t h. ground arith))

  pub verify-Preserves :
      (h : Hash) (at : Time) → Preserves (KeepsMethod subject_id) (Verifications.verify server h at)
  unfolding Verifications.verify Verifications.verify_body Verifications.select_verification
      Verifications.update_verified Verifications.delete_verification
  verify-Preserves h at = transaction-Preserves keeps server EmailVerification.other _ (
      bind-Preserves keeps
        (rethrow Verifications.not_found_if_none
          (statement server (Verifications.select_verification h)))
        _
        (rethrow-Preserves Verifications.not_found_if_none _
          (read-Preserves keeps server (Verifications.select_verification h) (λ t. refl)))
        (λ (u, r).
          if-Preserves keeps (u.email_verified || not (before at r.expires_at)) _ _
            (raise-Preserves keeps EmailVerification.inactive_token)
            (bind-Preserves keeps
              (rethrow EmailVerification.other
                (statement server (Verifications.update_verified u.id)))
              _
              (rethrow-Preserves EmailVerification.other _
                (statement-Preserves keeps server (Verifications.update_verified u.id) (λ t h. h)))
              (λ _.
                bind-Preserves keeps
                  (rethrow EmailVerification.other
                    (statement server (Verifications.delete_verification u.id)))
                  _
                  (rethrow-Preserves EmailVerification.other _ (
                    statement-Preserves keeps server (Verifications.delete_verification u.id)
                      (λ t h. h)))
                  (λ _. pure-Preserves keeps _)))))

  pub create_challenge-Preserves :
      (c : GoogleAccount.Challenge)
      → Preserves (KeepsMethod subject_id) (Identities.create_challenge server c)
  unfolding Identities.create_challenge Identities.insert_challenge
  create_challenge-Preserves c =
      rethrow-Preserves Identities.conflict_if_unique _
        (statement-Preserves keeps server (Identities.insert_challenge c) (λ t h. ground arith))

  pub consume_challenge-Preserves :
      (state_hash : Hash) (at : Time)
      → Preserves (KeepsMethod subject_id) (Identities.consume_challenge server state_hash at)
  unfolding Identities.consume_challenge Identities.delete_challenge
  consume_challenge-Preserves state_hash at =
      bind-Preserves keeps
        (rethrow Identities.not_found_if_none
          (statement server (Identities.delete_challenge state_hash)))
        _
        (rethrow-Preserves Identities.not_found_if_none _
          (statement-Preserves keeps server (Identities.delete_challenge state_hash) (λ t h. h)))
        (λ r.
          if-Preserves keeps (not (before at r.expires_at)) _ _
            (raise-Preserves keeps GoogleAccount.invalid_state) (pure-Preserves keeps _))
