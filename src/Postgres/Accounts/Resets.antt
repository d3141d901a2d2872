-- ===== src/Postgres/Accounts/Resets.antt =====
-- PasswordResetStore of storage/postgres/accounts.go.
use authlier.Common.{String, not, List, select, if◌then◌else◌}
use authlier.Clock.{Time, before}
use authlier.Exec.{
  Result, ok, err, Fault, no_rows, unique_violation, Exec, pure, raise, rethrow, ◌>>=◌, ◌>>◌,
}
use authlier.Host.{Hash}
use authlier.PasswordReset.{Error, conflict, inactive_token, not_found, other, User, Record, Store}
use authlier.Postgres.{UserRow, TokenRow, Tables, Db, Server, statement, transaction}
use authlier.Postgres.Accounts.{token_of, select_email, upsert_password, upserted, joined_token}

abbrev pub conflict_if_unique : Fault → Error
conflict_if_unique unique_violation = conflict
conflict_if_unique f = other f

abbrev pub not_found_if_none : Fault → Error
not_found_if_none no_rows = not_found
not_found_if_none f = other f

abbrev stored_rows : Tables → Result Fault (List TokenRow) → Result Fault (Unit {0}) × Tables
stored_rows t (ok rows) =
    (ok tt, record t { accounts = record t.accounts { password_resets = rows } })
stored_rows t (err f) = (err f, t)

-- INSERT INTO authlier_password_resets … ON CONFLICT (user_id) DO UPDATE
unfoldable pub upsert_reset : TokenRow → Tables → Result Fault (Unit {0}) × Tables
unfolding upserted
upsert_reset row t = stored_rows t (upserted row t.accounts.users t.accounts.password_resets)

-- SELECT … JOIN … WHERE r.token_hash = $1 FOR UPDATE OF r, u
unfoldable pub select_reset : Hash → Tables → Result Fault (UserRow × TokenRow) × Tables
unfolding joined_token
select_reset token_hash t = (joined_token token_hash t.accounts.users t.accounts.password_resets, t)

-- DELETE FROM authlier_password_resets WHERE user_id = $1
unfoldable pub delete_reset : String → Tables → Result Fault (Unit {0}) × Tables
delete_reset user_id t = (
  ok tt,
  record t {
    accounts = record t.accounts {
      password_resets = select (λ r. not (token_of user_id r)) t.accounts.password_resets;
    };
  },
)

module _ (server : Server) where
  -- FindUserByEmail
  unfoldable pub find_user_by_email : String → Exec Db Error User
  unfolding select_email
  find_user_by_email email = do
    u ← rethrow not_found_if_none (statement server (select_email email))
    pure (record { id = u.id; email = u.email })

  -- Issue
  unfoldable pub issue : Record → Exec Db Error (Unit {0})
  unfolding upsert_reset
  issue r = rethrow conflict_if_unique (
      statement server (
        upsert_reset (record {
          user_id = r.user_id;
          email = r.email;
          token_hash = r.token_hash;
          created_at = r.created_at;
          expires_at = r.expires_at;
        })))

  -- ResetPassword, between Begin and Commit
  unfoldable pub reset_body : Hash → String → Time → Exec Db Error User
  unfolding select_reset upsert_password delete_reset
  reset_body token_hash password_hash reset_at = do
    (u, r) ← rethrow not_found_if_none (statement server (select_reset token_hash))
    if not (before reset_at r.expires_at) then raise inactive_token else (do
      rethrow other (
          statement server (
            upsert_password
              (record { user_id = u.id; password_hash = password_hash; updated_at = reset_at })))
      rethrow other (statement server (delete_reset u.id))
      pure (record { id = u.id; email = u.email }))

  -- ResetPassword
  unfoldable pub reset_password : Hash → String → Time → Exec Db Error User
  unfolding reset_body
  reset_password token_hash password_hash reset_at =
      transaction server other (reset_body token_hash password_hash reset_at)

  abbrev pub reset_store : Store Db
  reset_store = record {
    find_user_by_email = find_user_by_email;
    issue = issue;
    reset_password = reset_password;
  }
