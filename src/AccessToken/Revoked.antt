-- ===== src/AccessToken/Revoked.antt =====
-- Access tokens of a session that the durable store has ended.
use authlier.Common.{
  ◌≡◌, ◌≢◌, String, none, Bytes, List, [], ◌∷◌, arith, refl, sym, ◌∙◌, ap, string_eq, ◌==◌,
  update_where, find?,
}
use authlier.Clock.{Time}
use authlier.Exec.{ok}
use authlier.Host.{Host, Reads}
use authlier.AccessToken.{Session, Jwt, Claims}
use authlier.AccessToken.Verifying.{Config, Verifier, verify_session}
use authlier.AccessToken.Soundness.{verify_session-IsVerified}
use authlier.Postgres.{AccessSession, Tables, Db, Server}
use authlier.Postgres.Statements.{transaction-ok, after_begin}
use authlier.Postgres.RefreshTokens.{revoke_access, revoke_access_session}
use authlier.Postgres.RefreshTokens.Outcomes.{end_session, revoke_access_session-left}
use authlier.Postgres.AccessSessions.{live_at, unchanged, resolve_session, revoke, select_live}

-- No row of an ended session is live.
live-ended :
    (id : String) (at t : Time) (xs : List AccessSession)
    → find? (live_at id t) (update_where (λ s. s.id == id) (revoke_access at) xs) ≡ none
live-ended id at t [] = refl
live-ended id at t (x ∷ xs) = ground (arith, live-ended id at t xs)

-- VerifySession over the durable access sessions
abbrev pub durable_verifier : Server → Config → Verifier Db
durable_verifier server config = record { config = config; resolver = resolve_session server }

module _ (jwt : Jwt) (host : Host) (server : Server) (config : Config) where
  ended-unresolved :
      (id : String) (at : Time) (db : Db) (t : Tables) (session : Session)
      → db.tables ≡ end_session id at t
      → (resolve_session server id db).0 ≢ ok session
  unfolding resolve_session select_live
  ended-unresolved id at db t session ended resolved =
      let gone =
        ap
          (λ (x : Tables).
            find? (live_at id (server.current_timestamp db.statements)) x.access_sessions)
          ended
        ∙ live-ended id at (server.current_timestamp db.statements) t.access_sessions in
      ground arith

  revoke-left :
      (id : String) (at : Time) (db : Db)
      → (revoke server id at db).0 ≡ ok tt
      → (revoke server id at db).1.tables ≡ end_session id at db.tables
  unfolding revoke
  revoke-left id at db done =
      let (ran, kept) =
        transaction-ok server unchanged (revoke_access_session server id at) db done in
      kept ∙ revoke_access_session-left server id at (after_begin db) ran

  -- After a successful `Revoke` of an access session, `VerifySession` accepts no access token of it,
  -- whatever the parser answers and whenever the token expires.
  pub verify_session-revoke :
      (id : String) (at : Time) (db : Db) (reads : Reads) (raw_token : Bytes) (claims : Claims)
      (session : Session)
      → (revoke server id at db).0 ≡ ok tt
      → claims.session_id ≡ id
      → (verify_session jwt host
          (durable_verifier server config)
          raw_token
          (record { stored = (revoke server id at db).1; reads = reads })).0
        ≢ ok (claims, session)
  verify_session-revoke id at db reads raw_token claims session done of_id verified =
      let v =
        verify_session-IsVerified jwt host (durable_verifier server config) raw_token claims session
          _ verified in
      ended-unresolved id at (revoke server id at db).1 db.tables session
        (revoke-left id at db done)
        (ap (λ x. (resolve_session server x (revoke server id at db).1).0) (sym of_id) ∙ v.resolved)
