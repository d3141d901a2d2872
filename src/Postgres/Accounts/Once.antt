-- ===== src/Postgres/Accounts/Once.antt =====
-- Password resets of one user over a history of the reset store.
use authlier.Common.{
  ◌≡◌, ◌≢◌, refl, true, false, not, String, List, [], ◌∷◌, arith, string_eq, bytes_eq, eq_iff, any,
  any-select_none, any-update_none, inl, inr,
}
use authlier.Clock.{Time, before}
use authlier.Exec.{ok, Result-cases, rethrow}
use authlier.Host.{Hash}
use authlier.PasswordReset.{User, Record, other, inactive_token}
use authlier.Postgres.{UserRow, TokenRow, Tables, Db, Server, statement}
use authlier.Postgres.Preserving.{
  IsHistory, Preserves, pure-Preserves, raise-Preserves, statement-Preserves, read-Preserves,
  bind-Preserves, if-Preserves, transaction-Preserves, rethrow-Preserves,
}
use authlier.Postgres.Accounts.{token_of, upserted, upsert_password, select_email}
use authlier.Postgres.Accounts.Resets.{
  conflict_if_unique, not_found_if_none, upsert_reset, select_reset, delete_reset, issue,
  reset_body, reset_password, find_user_by_email,
}
use authlier.Postgres.Accounts.Resetting.{live_token, IsClear, reset_password-IsReset}

abbrev KeepsClear : String → Tables → Tables → Type 0
KeepsClear user_id t t' = IsClear user_id t → IsClear user_id t'

upserted-clear :
    (user_id : String) (row : TokenRow) (users : List UserRow) (rows rows' : List TokenRow)
    → row.user_id ≢ user_id
    → upserted row users rows ≡ ok rows'
    → any (token_of user_id) rows ≡ false
    → any (token_of user_id) rows' ≡ false
unfolding upserted
upserted-clear user_id row users rows rows' others e h =
    let kept =
      any-update_none (token_of user_id) (token_of row.user_id) (λ r. row) rows
        (λ r _ _. ground (arith, eq_iff row.user_id user_id)) h in
    ground (arith, kept, eq_iff row.user_id user_id)

module _ (server : Server) (user_id : String) where
  keeps : IsHistory (KeepsClear user_id)
  keeps = record { same = λ t t' e h. rw e h; trans = λ t t' t'' a b h. b (a h) }

  issue-Preserves :
      (r : Record) → r.user_id ≢ user_id → Preserves (KeepsClear user_id) (issue server r)
  unfolding issue upsert_reset
  issue-Preserves r others =
      let row : TokenRow = record {
        user_id = r.user_id;
        email = r.email;
        token_hash = r.token_hash;
        created_at = r.created_at;
        expires_at = r.expires_at;
      } in
      rethrow-Preserves conflict_if_unique _ (
        statement-Preserves keeps server (upsert_reset row) (λ t h.
          elim (Result-cases (upserted row t.accounts.users t.accounts.password_resets)) [
            | inl (rows, e) ↦ rw e (
                upserted-clear user_id row t.accounts.users t.accounts.password_resets rows others e
                  h)
            | inr (f, e) ↦ rw e h
          ]))

  reset_password-Preserves :
      (h : Hash) (password_hash : String) (at : Time)
      → Preserves (KeepsClear user_id) (reset_password server h password_hash at)
  unfolding reset_password reset_body select_reset upsert_password delete_reset
  reset_password-Preserves h password_hash at = transaction-Preserves keeps server other _ (
      bind-Preserves keeps (rethrow not_found_if_none (statement server (select_reset h))) _
        (rethrow-Preserves not_found_if_none _
          (read-Preserves keeps server (select_reset h) (λ t. refl)))
        (λ (u, r).
          if-Preserves keeps (not (before at r.expires_at)) _ _
            (raise-Preserves keeps inactive_token)
            (bind-Preserves keeps _ _
              (rethrow-Preserves other _
                (statement-Preserves keeps server (upsert_password _) (λ t c. ground arith)))
              (λ _.
                bind-Preserves keeps (rethrow other (statement server (delete_reset u.id))) _
                  (rethrow-Preserves other _ (
                    statement-Preserves keeps server (delete_reset u.id) (λ t c.
                      any-select_none (token_of user_id) (λ x. not (token_of u.id x))
                        t.accounts.password_resets c)))
                  (λ _. pure-Preserves keeps _)))))

  find_user-Preserves :
      (email : String) → Preserves (KeepsClear user_id) (find_user_by_email server email)
  unfolding find_user_by_email select_email
  find_user-Preserves email =
      bind-Preserves keeps (rethrow not_found_if_none (statement server (select_email email))) _
        (rethrow-Preserves not_found_if_none _
          (read-Preserves keeps server (select_email email) (λ t. refl)))
        (λ u. pure-Preserves keeps _)

  -- One call of PasswordResetStore, whatever it returned, but no `Issue` for the user.
  pub data Step : Db → Db → Type 0 where
    finds : (email : String) (db : Db) → Step db (find_user_by_email server email db).1
    issues : (r : Record) (db : Db) → r.user_id ≢ user_id → Step db (issue server r db).1
    resets :
        (h : Hash) (password_hash : String) (at : Time) (db : Db)
        → Step db (reset_password server h password_hash at db).1

  pub data Reach (db : Db) : Db → Type 0 where
    here : Reach db db
    next : {a b : Db} → Reach db a → Step a b → Reach db b

  Step-IsClear : {a b : Db} → Step a b → KeepsClear user_id a.tables b.tables
  Step-IsClear (finds email db) = (find_user-Preserves email).keeps db
  Step-IsClear (issues r db others) = (issue-Preserves r others).keeps db
  Step-IsClear (resets h password_hash at db) =
      (reset_password-Preserves h password_hash at).keeps db

  pub Reach-IsClear : {a b : Db} → Reach a b → KeepsClear user_id a.tables b.tables
  Reach-IsClear here c = c
  Reach-IsClear (next r s) c = Step-IsClear s (Reach-IsClear r c)

live-owned :
    (user_id : String) (h : Hash) (at : Time) (rows : List TokenRow)
    → any (live_token user_id h at) rows ≡ true
    → any (token_of user_id) rows ≡ true
live-owned user_id h at [] e = ground arith
live-owned user_id h at (x ∷ rows) e = ground (arith, live-owned user_id h at rows)

module _ (server : Server) where
  -- After a successful `ResetPassword`, and any history of calls of the store without an `Issue` for
  -- its user, no token resets that user's password.
  pub reset_once :
      (h h' : Hash) (first second : String) (at at' : Time) (user user' : User) (a b : Db)
      → (reset_password server h first at a).0 ≡ ok user
      → Reach server user.id (reset_password server h first at a).1 b
      → user'.id ≡ user.id
      → (reset_password server h' second at' b).0 ≢ ok user'
  reset_once h h' first second at at' user user' a b done reach same again =
      let left = reset_password-IsReset server h first at user a done in
      let clear = Reach-IsClear server user.id reach left.clear in
      let found = reset_password-IsReset server h' second at' user' b again in
      let owned = live-owned user'.id h' at' b.tables.accounts.password_resets found.live in
      cc (clear, rw same at owned)
