-- ===== src/Postgres/AccessSessions.antt =====
-- AccessSessionStore of storage/postgres/sessions.go: the rows of authlier_access_sessions, one for
-- each family of refresh tokens. The store passes the driver's errors on as they are.
use authlier.Common.{
  String, Bool, not, ◌&&◌, List, ◌∷◌, ◌==◌, string_eq, any, find?, select, update_where, sort_by,
  is_set, ltb, if◌then◌else◌,
}
use authlier.Clock.{Time, after}
use authlier.Exec.{Result, ok, err, Fault, unique_violation, Exec, ◌>>◌}
use authlier.RefreshToken
use authlier.AccessToken.{Session}
use authlier.Postgres.{AccessSession, Tables, Db, Server, statement, transaction}
use authlier.Postgres.Sessions.{scanned}
use authlier.Postgres.RefreshTokens.{
  insert_token, revoke_token, revoke_access, revoke_access_session,
}

abbrev pub has_id : String → AccessSession → Bool
has_id session_id s = s.id == session_id

abbrev pub of_subject : String → AccessSession → Bool
of_subject subject_id s = s.subject_id == subject_id

abbrev pub to_session : AccessSession → Session
to_session s = record {
  id = s.id;
  subject_id = s.subject_id;
  created_at = s.created_at;
  expires_at = s.expires_at;
}

abbrev pub map_scanned : Result Fault AccessSession → Result Fault Session
map_scanned (ok s) = ok (to_session s)
map_scanned (err f) = err f

-- INSERT INTO authlier_access_sessions
unfoldable pub insert_access_session : AccessSession → Tables → Result Fault (Unit {0}) × Tables
insert_access_session s t =
    if any (has_id s.id) t.access_sessions
    then (err unique_violation, t)
    else (ok tt, record t { access_sessions = s ∷ t.access_sessions })

-- SELECT … WHERE id = $1 AND revoked_at IS NULL AND expires_at > CURRENT_TIMESTAMP
abbrev pub live_at : String → Time → AccessSession → Bool
live_at session_id now s =
    has_id session_id s && not (is_set s.revoked_at) && after s.expires_at now

unfoldable pub select_live : String → Time → Tables → Result Fault Session × Tables
select_live session_id now t =
    (map_scanned (scanned (find? (live_at session_id now) t.access_sessions)), t)

-- SELECT … WHERE subject_id = $1 ORDER BY created_at DESC
unfoldable pub select_subject : String → Tables → Result Fault (List AccessSession) × Tables
select_subject subject_id t = (
  ok (
      sort_by (λ r s. ltb s.created_at r.created_at)
        (select (of_subject subject_id) t.access_sessions)),
  t,
)

-- UPDATE authlier_refresh_tokens … WHERE session_id IN (SELECT id … WHERE subject_id = $2)
unfoldable pub update_tokens_of : String → Time → Tables → Result Fault (Unit {0}) × Tables
update_tokens_of subject_id revoked_at t = (
  ok tt,
  record t {
    refresh_tokens =
        update_where
          (λ r. any (λ s. has_id r.session_id s && of_subject subject_id s) t.access_sessions)
          (revoke_token revoked_at) t.refresh_tokens;
  },
)

-- UPDATE authlier_access_sessions … WHERE subject_id = $2
unfoldable pub update_sessions_of : String → Time → Tables → Result Fault (Unit {0}) × Tables
update_sessions_of subject_id revoked_at t = (
  ok tt,
  record t {
    access_sessions =
        update_where (of_subject subject_id) (revoke_access revoked_at) t.access_sessions;
  },
)

abbrev pub unchanged : Fault → Fault
unchanged f = f

module _ (server : Server) where
  unfoldable pub create_session_body :
      AccessSession → RefreshToken.Record → Exec Db Fault (Unit {0})
  unfolding insert_access_session insert_token
  create_session_body session refresh_token = do
    statement server (insert_access_session session)
    statement server (insert_token refresh_token)

  -- AccessSessionStore.CreateSession
  unfoldable pub create_session : AccessSession → RefreshToken.Record → Exec Db Fault (Unit {0})
  unfolding create_session_body
  create_session session refresh_token =
      transaction server unchanged (create_session_body session refresh_token)

  -- AccessSessionStore.ResolveSession
  unfoldable pub resolve_session : String → Exec Db Fault Session
  unfolding select_live
  resolve_session session_id db =
      statement server (select_live session_id (server.current_timestamp db.statements)) db

  -- AccessSessionStore.ListBySubject
  unfoldable pub list_by_subject : String → Exec Db Fault (List AccessSession)
  unfolding select_subject
  list_by_subject subject_id = statement server (select_subject subject_id)

  -- AccessSessionStore.Revoke
  unfoldable pub revoke : String → Time → Exec Db Fault (Unit {0})
  unfolding revoke_access_session
  revoke session_id revoked_at =
      transaction server unchanged (revoke_access_session server session_id revoked_at)

  unfoldable pub revoke_all_body : String → Time → Exec Db Fault (Unit {0})
  unfolding update_tokens_of update_sessions_of
  revoke_all_body subject_id revoked_at = do
    statement server (update_tokens_of subject_id revoked_at)
    statement server (update_sessions_of subject_id revoked_at)

  -- AccessSessionStore.RevokeAll
  unfoldable pub revoke_all : String → Time → Exec Db Fault (Unit {0})
  unfolding revoke_all_body
  revoke_all subject_id revoked_at =
      transaction server unchanged (revoke_all_body subject_id revoked_at)
