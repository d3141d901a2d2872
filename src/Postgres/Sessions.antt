-- ===== src/Postgres/Sessions.antt =====
-- SessionStore of storage/postgres/sessions.go: the durable sessions as rows of authlier_sessions.
-- The table has unique token hashes (its primary key) and unique ids (migration 002).
pub mod View
pub mod Extending
pub mod Life
pub mod Unique
use authlier.Common.{
  String, Bool, not, ◌&&◌, ◌||◌, Option, none, some, List, [], ◌∷◌, map, ◌==◌, bytes_eq, string_eq,
  any, find?, select, update_where, sort_by, ltb, is_set, if◌then◌else◌,
}
use authlier.Clock.{Time, before, after}
use authlier.Exec.{
  Result, ok, err, Fault, no_rows, unique_violation, Exec, pure, raise, rethrow, ◌>>=◌, ◌>>◌,
}
use authlier.Host.{Hash}
use authlier.SessionToken.{Error, conflict, inactive, not_found, other, Record, Store}
use authlier.Postgres.{Tables, Db, Server, statement, transaction}

-- COALESCE(revoked_at, $1)
abbrev pub coalesce : Option Time → Time → Option Time
coalesce none t = some t
coalesce (some u) t = some u

abbrev pub has_hash : Hash → Record → Bool
has_hash token_hash r = r.token_hash == token_hash

abbrev pub of_subject : String → Record → Bool
of_subject subject_id r = r.subject_id == subject_id

abbrev pub mark_revoked : Time → Record → Record
mark_revoked revoked_at r = record r { revoked_at = coalesce r.revoked_at revoked_at }

abbrev pub revoke_now : Time → Record → Record
revoke_now revoked_at r = record r { revoked_at = some revoked_at }

-- A row as QueryRow scans it: the first of the answer.
abbrev pub scanned {ℓ} : {A : Type ℓ} → Option A → Result Fault A
scanned none = err no_rows
scanned (some r) = ok r

abbrev pub head_row {ℓ} : {A : Type ℓ} → List A → Option A
head_row [] = none
head_row (r ∷ rs) = some r

-- INSERT INTO authlier_sessions
unfoldable pub insert_session : Record → Tables → Result Fault (Unit {0}) × Tables
insert_session r t =
    if any (λ s. s.token_hash == r.token_hash || s.id == r.id) t.sessions
    then (err unique_violation, t)
    else (ok tt, record t { sessions = r ∷ t.sessions })

-- SELECT … WHERE token_hash = $1
unfoldable pub select_session : Hash → Tables → Result Fault Record × Tables
select_session token_hash t = (scanned (find? (has_hash token_hash) t.sessions), t)

-- SELECT … WHERE subject_id = $1 ORDER BY created_at DESC
unfoldable pub select_subject : String → Tables → Result Fault (List Record) × Tables
select_subject subject_id t = (
  ok (sort_by (λ r s. ltb s.created_at r.created_at) (select (of_subject subject_id) t.sessions)),
  t,
)

abbrev pub extendable : Hash → Time → Time → Record → Bool
extendable token_hash extended_at expires_at r =
    has_hash token_hash r
    && not (is_set r.revoked_at)
    && after r.expires_at extended_at
    && before r.expires_at expires_at

abbrev pub extended_row : Time → Time → Record → Record
extended_row extended_at expires_at r = record r {
  extended_at = some extended_at;
  expires_at = expires_at;
}

-- UPDATE … SET extended_at, expires_at WHERE … RETURNING …
unfoldable pub update_extended : Hash → Time → Time → Tables → Result Fault Record × Tables
update_extended token_hash extended_at expires_at t =
    let p = extendable token_hash extended_at expires_at in
    let f = extended_row extended_at expires_at in
    (
      scanned (head_row (map f (select p t.sessions))),
      record t { sessions = update_where p f t.sessions },
    )

-- UPDATE … SET revoked_at = $1 WHERE token_hash = $2
unfoldable pub set_revoked : Hash → Time → Tables → Result Fault (Unit {0}) × Tables
set_revoked token_hash revoked_at t = (
  ok tt,
  record t {
    sessions =
        update_where (has_hash token_hash) (λ r. record r { revoked_at = some revoked_at })
          t.sessions;
  },
)

-- UPDATE … SET revoked_at = COALESCE(revoked_at, $1) WHERE token_hash = $2: was a row affected?
unfoldable pub update_revoked : Hash → Time → Tables → Result Fault Bool × Tables
update_revoked token_hash revoked_at t = (
  ok (any (has_hash token_hash) t.sessions),
  record t { sessions = update_where (has_hash token_hash) (mark_revoked revoked_at) t.sessions },
)

-- UPDATE … WHERE subject_id = $2 RETURNING …
unfoldable pub update_subject : String → Time → Tables → Result Fault (List Record) × Tables
update_subject subject_id revoked_at t = (
  ok (map (mark_revoked revoked_at) (select (of_subject subject_id) t.sessions)),
  record t { sessions = update_where (of_subject subject_id) (mark_revoked revoked_at) t.sessions },
)

-- `if uniqueViolation(err) { return ErrConflict }; return err`
abbrev pub conflict_if_unique : Fault → Error
conflict_if_unique unique_violation = conflict
conflict_if_unique f = other f

abbrev pub not_found_if_none : Fault → Error
not_found_if_none no_rows = not_found
not_found_if_none f = other f

abbrev pub inactive_if_none : Fault → Error
inactive_if_none no_rows = inactive
inactive_if_none f = other f

module _ (server : Server) where
  -- SessionStore.Create
  unfoldable pub create : Record → Exec Db Error (Unit {0})
  unfolding insert_session
  create r = rethrow conflict_if_unique (statement server (insert_session r))

  -- SessionStore.FindByTokenHash
  unfoldable pub find_by_token_hash : Hash → Exec Db Error Record
  unfolding select_session
  find_by_token_hash token_hash =
      rethrow not_found_if_none (statement server (select_session token_hash))

  -- SessionStore.ListBySubject
  unfoldable pub list_by_subject : String → Exec Db Error (List Record)
  unfolding select_subject
  list_by_subject subject_id = rethrow other (statement server (select_subject subject_id))

  -- SessionStore.Extend
  unfoldable pub extend : Hash → Time → Time → Exec Db Error Record
  unfolding update_extended
  extend token_hash extended_at expires_at =
      rethrow inactive_if_none
        (statement server (update_extended token_hash extended_at expires_at))

  -- The statements of Rotate between BEGIN and COMMIT.
  unfoldable pub rotate_body : Hash → Record → Time → Exec Db Error (Unit {0})
  unfolding select_session insert_session set_revoked
  rotate_body current replacement rotated_at = do
    row ← rethrow not_found_if_none (statement server (select_session current))
    if is_set row.revoked_at || not (before rotated_at row.expires_at) then raise inactive else (do
      rethrow conflict_if_unique (statement server (insert_session replacement))
      rethrow other (statement server (set_revoked current rotated_at)))

  -- SessionStore.Rotate
  unfoldable pub rotate : Hash → Record → Time → Exec Db Error (Unit {0})
  unfolding rotate_body
  rotate current replacement rotated_at =
      transaction server other (rotate_body current replacement rotated_at)

  -- SessionStore.Revoke
  unfoldable pub revoke : Hash → Time → Exec Db Error (Unit {0})
  unfolding update_revoked
  revoke token_hash revoked_at = do
    affected ← rethrow other (statement server (update_revoked token_hash revoked_at))
    if affected then pure tt else raise not_found

  -- SessionStore.RevokeAll
  unfoldable pub revoke_all : String → Time → Exec Db Error (List Record)
  unfolding update_subject
  revoke_all subject_id revoked_at =
      rethrow other (statement server (update_subject subject_id revoked_at))

  -- The adapter's Sessions() as a sessiontoken.Store.
  abbrev pub session_store : Store Db
  session_store = record {
    create = create;
    find_by_token_hash = find_by_token_hash;
    list_by_subject = list_by_subject;
    extend = extend;
    rotate = rotate;
    revoke = revoke;
    revoke_all = revoke_all;
  }
