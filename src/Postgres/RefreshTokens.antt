-- ===== src/Postgres/RefreshTokens.antt =====
-- RefreshTokenStore of storage/postgres/sessions.go: the rows of authlier_refresh_tokens, whose
-- primary key is the token hash and whose session must be a row of authlier_access_sessions.
pub mod Outcomes
pub mod Life
use authlier.Common.{
  String, Bool, not, ◌||◌, none, some, ◌∷◌, ◌==◌, bytes_eq, string_eq, any, find?, update_where,
  is_set, if◌then◌else◌,
}
use authlier.Clock.{Time, before}
use authlier.Exec.{
  Result, ok, err, Fault, no_rows, unique_violation, foreign_key_violation, Exec, pure, raise,
  rethrow, ◌>>=◌, ◌>>◌,
}
use authlier.Host.{Hash}
use authlier.RefreshToken.{Error, conflict, not_found, reuse_detected, other, Record, Store}
use authlier.Postgres.{AccessSession, Tables, Db, Server, statement, transaction}
use authlier.Postgres.Sessions.{coalesce, scanned}

abbrev pub has_hash : Hash → Record → Bool
has_hash token_hash r = r.token_hash == token_hash

abbrev pub of_session : String → Record → Bool
of_session session_id r = r.session_id == session_id

abbrev pub revoke_token : Time → Record → Record
revoke_token revoked_at r = record r { revoked_at = coalesce r.revoked_at revoked_at }

abbrev pub revoke_access : Time → AccessSession → AccessSession
revoke_access revoked_at s = record s { revoked_at = coalesce s.revoked_at revoked_at }

-- INSERT INTO authlier_refresh_tokens
unfoldable pub insert_token : Record → Tables → Result Fault (Unit {0}) × Tables
insert_token r t =
    if any (has_hash r.token_hash) t.refresh_tokens
    then (err unique_violation, t)
    else if any (λ s. s.id == r.session_id) t.access_sessions
    then (ok tt, record t { refresh_tokens = r ∷ t.refresh_tokens })
    else (err foreign_key_violation, t)

-- SELECT … WHERE token_hash = $1
unfoldable pub select_token : Hash → Tables → Result Fault Record × Tables
select_token token_hash t = (scanned (find? (has_hash token_hash) t.refresh_tokens), t)

-- UPDATE … SET rotated_at = $1 WHERE token_hash = $2
unfoldable pub set_rotated : Hash → Time → Tables → Result Fault (Unit {0}) × Tables
set_rotated token_hash rotated_at t = (
  ok tt,
  record t {
    refresh_tokens =
        update_where (has_hash token_hash) (λ r. record r { rotated_at = some rotated_at })
          t.refresh_tokens;
  },
)

-- UPDATE authlier_access_sessions SET revoked_at = COALESCE(…) WHERE id = $2
unfoldable pub update_session : String → Time → Tables → Result Fault (Unit {0}) × Tables
update_session session_id revoked_at t = (
  ok tt,
  record t {
    access_sessions =
        update_where (λ s. s.id == session_id) (revoke_access revoked_at) t.access_sessions;
  },
)

-- UPDATE authlier_refresh_tokens SET revoked_at = COALESCE(…) WHERE session_id = $2
unfoldable pub update_tokens : String → Time → Tables → Result Fault (Unit {0}) × Tables
update_tokens session_id revoked_at t = (
  ok tt,
  record t {
    refresh_tokens =
        update_where (of_session session_id) (revoke_token revoked_at) t.refresh_tokens;
  },
)

abbrev pub conflict_if_unique : Fault → Error
conflict_if_unique unique_violation = conflict
conflict_if_unique f = other f

abbrev pub not_found_if_none : Fault → Error
not_found_if_none no_rows = not_found
not_found_if_none f = other f

-- What a rotation committed: a replacement, or the end of a session whose token came back.
pub data Outcome : Type 0 where
  replaced reused : Outcome

abbrev pub reuse_error : Outcome → Exec Db Error (Unit {0})
reuse_error replaced = pure tt
reuse_error reused = raise reuse_detected

-- The row that Rotate inserts leaves rotated_at and revoked_at NULL.
abbrev pub fresh_row : Record → Record
fresh_row r = record r { rotated_at = none; revoked_at = none }

module _ (server : Server) where
  -- RefreshTokenStore.Create
  unfoldable pub create : Record → Exec Db Error (Unit {0})
  unfolding insert_token
  create r = rethrow conflict_if_unique (statement server (insert_token r))

  -- RefreshTokenStore.FindByTokenHash
  unfoldable pub find_by_token_hash : Hash → Exec Db Error Record
  unfolding select_token
  find_by_token_hash token_hash =
      rethrow not_found_if_none (statement server (select_token token_hash))

  -- revokeAccessSession, inside a transaction
  unfoldable pub revoke_access_session : String → Time → Exec Db Fault (Unit {0})
  unfolding update_session update_tokens
  revoke_access_session session_id revoked_at = do
    statement server (update_session session_id revoked_at)
    statement server (update_tokens session_id revoked_at)

  unfoldable pub rotate_body : Hash → Record → Time → Exec Db Error Outcome
  unfolding select_token insert_token set_rotated revoke_access_session
  rotate_body current replacement rotated_at = do
    row ← rethrow not_found_if_none (statement server (select_token current))
    if is_set row.rotated_at || is_set row.revoked_at || not (before rotated_at row.expires_at)
        then (do rethrow other (revoke_access_session row.session_id rotated_at); pure reused)
        else (do
          rethrow conflict_if_unique (statement server (insert_token (fresh_row replacement)))
          rethrow other (statement server (set_rotated current rotated_at))
          pure replaced)

  unfoldable pub rotate_transaction : Hash → Record → Time → Exec Db Error Outcome
  rotate_transaction current replacement rotated_at =
      transaction server other (rotate_body current replacement rotated_at)

  -- RefreshTokenStore.Rotate: a reuse is committed before it is reported.
  unfoldable pub rotate : Hash → Record → Time → Exec Db Error (Unit {0})
  rotate current replacement rotated_at = do
    outcome ← rotate_transaction current replacement rotated_at
    reuse_error outcome

  -- RefreshTokenStore.RevokeSession
  unfoldable pub revoke_session : String → Time → Exec Db Error (Unit {0})
  unfolding revoke_access_session
  revoke_session session_id revoked_at =
      transaction server other (rethrow other (revoke_access_session session_id revoked_at))

  -- The adapter's RefreshTokens() as a refreshtoken.Store.
  abbrev pub refresh_store : Store Db
  refresh_store = record {
    create = create;
    find_by_token_hash = find_by_token_hash;
    rotate = rotate;
    revoke_session = revoke_session;
  }
