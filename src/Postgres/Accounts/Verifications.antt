-- ===== src/Postgres/Accounts/Verifications.antt =====
-- EmailVerificationStore of storage/postgres/accounts.go.
use authlier.Common.{String, true, not, ◌||◌, List, select, update_where, string_eq, if◌then◌else◌}
use authlier.Clock.{Time, before}
use authlier.Exec.{
  Result, ok, err, Fault, no_rows, unique_violation, Exec, pure, raise, rethrow, ◌>>=◌, ◌>>◌,
}
use authlier.Host.{Hash}
use authlier.EmailVerification.{
  Error, conflict, inactive_token, not_found, other, User, Record, Store,
}
use authlier.Postgres.{UserRow, TokenRow, Tables, Db, Server, statement, transaction}
use authlier.Postgres.Accounts.{has_id, token_of, select_email, upserted, joined_token}

abbrev pub conflict_if_unique : Fault → Error
conflict_if_unique unique_violation = conflict
conflict_if_unique f = other f

abbrev pub not_found_if_none : Fault → Error
not_found_if_none no_rows = not_found
not_found_if_none f = other f

abbrev stored_rows : Tables → Result Fault (List TokenRow) → Result Fault (Unit {0}) × Tables
stored_rows t (ok rows) =
    (ok tt, record t { accounts = record t.accounts { email_verifications = rows } })
stored_rows t (err f) = (err f, t)

-- INSERT INTO authlier_email_verifications … ON CONFLICT (user_id) DO UPDATE
unfoldable pub upsert_verification : TokenRow → Tables → Result Fault (Unit {0}) × Tables
unfolding upserted
upsert_verification row t =
    stored_rows t (upserted row t.accounts.users t.accounts.email_verifications)

-- SELECT … JOIN … WHERE v.token_hash = $1 FOR UPDATE OF v, u
unfoldable pub select_verification : Hash → Tables → Result Fault (UserRow × TokenRow) × Tables
unfolding joined_token
select_verification token_hash t =
    (joined_token token_hash t.accounts.users t.accounts.email_verifications, t)

abbrev pub mark_verified : UserRow → UserRow
mark_verified u = record u { email_verified = true }

-- UPDATE authlier_users SET email_verified = true WHERE id = $1
unfoldable pub update_verified : String → Tables → Result Fault (Unit {0}) × Tables
update_verified id t = (
  ok tt,
  record t {
    accounts = record t.accounts {
      users = update_where (has_id id) mark_verified t.accounts.users;
    };
  },
)

-- DELETE FROM authlier_email_verifications WHERE user_id = $1
unfoldable pub delete_verification : String → Tables → Result Fault (Unit {0}) × Tables
delete_verification user_id t = (
  ok tt,
  record t {
    accounts = record t.accounts {
      email_verifications = select (λ r. not (token_of user_id r)) t.accounts.email_verifications;
    };
  },
)

module _ (server : Server) where
  -- FindUserByEmail
  unfoldable pub find_user_by_email : String → Exec Db Error User
  unfolding select_email
  find_user_by_email email = do
    u ← rethrow not_found_if_none (statement server (select_email email))
    pure (record { id = u.id; email = u.email; verified = u.email_verified })

  -- Issue
  unfoldable pub issue : Record → Exec Db Error (Unit {0})
  unfolding upsert_verification
  issue r = rethrow conflict_if_unique (
      statement server (
        upsert_verification (record {
          user_id = r.user_id;
          email = r.email;
          token_hash = r.token_hash;
          created_at = r.created_at;
          expires_at = r.expires_at;
        })))

  -- Verify, between Begin and Commit
  unfoldable pub verify_body : Hash → Time → Exec Db Error User
  unfolding select_verification update_verified delete_verification
  verify_body token_hash verified_at = do
    (u, r) ← rethrow not_found_if_none (statement server (select_verification token_hash))
    if u.email_verified || not (before verified_at r.expires_at) then raise inactive_token else (do
      rethrow other (statement server (update_verified u.id))
      rethrow other (statement server (delete_verification u.id))
      pure (record { id = u.id; email = u.email; verified = true }))

  -- Verify
  unfoldable pub verify : Hash → Time → Exec Db Error User
  unfolding verify_body
  verify token_hash verified_at = transaction server other (verify_body token_hash verified_at)

  abbrev pub verification_store : Store Db
  verification_store = record {
    find_user_by_email = find_user_by_email;
    issue = issue;
    verify = verify;
  }
