-- ===== src/Bearer/Methods.antt =====
-- The methods of bearerSessionManager of token_session.go.
use authlier.Common.{
  String, Bool, true, false, not, ◌||◌, none, List, [], ◌∷◌, Bytes, ◌==◌, string_eq, is_set, map,
  select, if◌then◌else◌,
}
use authlier.Text.{is_blank}
use authlier.Clock.{Time, before, add_to, truncate_second}
use authlier.Exec.{Result, ok, err, Exec, pure, raise, rethrow, ◌>>=◌, ◌>>◌}
use authlier.Host.{Host, Reads, read_clock, read_uuid}
use authlier.Token
use authlier.RefreshToken
use authlier.RefreshToken.{World}
use authlier.RefreshToken.Methods
use authlier.AccessToken
use authlier.AccessToken.{Session, Jwt, inactive_session, active_at}
use authlier.AccessToken.Issuing.{issue_until}
use authlier.AccessToken.Verifying.{verify_session}
use authlier.Postgres.{AccessSession}
use authlier.Bearer.{Error, refresh_error, access_error, driver, missing_subject, Manager, Issued}

abbrev pub Act : Type 0 → Type 0 → Type 0
Act S A = Exec (World S) Error A

-- A call on one part of the world.
module _ {S A : Type 0} where
  abbrev pub on_store : Exec S Error A → Act S A
  on_store m w = let (r, s) = m w.stored in (r, record w { stored = s })

  abbrev pub on_host : Exec Reads Error A → Act S A
  on_host m w = let (r, reads) = m w.reads in (r, record w { reads = reads })

  -- A call of the verifier, whose world has the same parts.
  abbrev pub on_verifier : Exec (AccessToken.Verifying.World S) Error A → Act S A
  on_verifier m w =
      let (r, w') = m (record { stored = w.stored; reads = w.reads }) in
      (r, record { stored = w'.stored; reads = w'.reads })

-- The session of a row, as Go copies it.
abbrev pub session_of : AccessSession → Session
session_of s = record {
  id = s.id;
  subject_id = s.subject_id;
  created_at = s.created_at;
  expires_at = s.expires_at;
}

-- List keeps what is neither revoked nor expired.
unfoldable pub is_live : Time → AccessSession → Bool
is_live now s = if is_set s.revoked_at || not (before now s.expires_at) then false else true

unfoldable pub has_session : String → List AccessSession → Bool
has_session session_id [] = false
has_session session_id (s ∷ rest) = if s.id == session_id then true else has_session session_id rest

module _ {S : Type 0} (jwt : Jwt) (host : Host) (manager : Manager S) where
  open manager use {store, issuer, verifier, refresh_tokens, refresh_lifetime}

  abbrev now : Act S Time
  now = on_host (read_clock host)

  abbrev access_token : String → String → Time → Act S AccessToken.Issued
  access_token subject_id session_id expires_at =
      on_host (rethrow access_error (issue_until jwt host issuer subject_id session_id expires_at))

  -- Create, from the session on
  unfoldable pub create_for : AccessSession → Act S Issued
  create_for session = do
    (raw_refresh_token, refresh_hash) ← on_host (rethrow driver (Token.generate host))
    access ← access_token session.subject_id session.id session.expires_at
    on_store (
        rethrow driver (
          store.create_session session (record {
            session_id = session.id;
            token_hash = refresh_hash;
            created_at = session.created_at;
            expires_at = session.expires_at;
            rotated_at = none;
            revoked_at = none;
          })))
    pure (record {
      session = session_of session;
      access_token = access.token;
      access_token_expires_at = access.expires_at;
      refresh_token = raw_refresh_token;
      refresh_token_expires_at = session.expires_at;
    })

  -- Create
  unfoldable pub create : String → Act S Issued
  unfolding create_for
  create subject_id = if is_blank subject_id then raise missing_subject else do
    session_id ← on_host (rethrow driver (read_uuid host))
    t ← now
    create_for (record {
      id = session_id;
      subject_id = subject_id;
      created_at = truncate_second t;
      expires_at = add_to (truncate_second t) refresh_lifetime;
      revoked_at = none;
    })

  -- The durable session of a refresh token, if it is active.
  unfoldable pub durable_session : String → Act S Session
  durable_session session_id = do
    durable ←
        on_store (rethrow (λ _. access_error inactive_session) (store.resolve_session session_id))
    if not (durable.id == session_id) then raise (access_error inactive_session) else (do
      t ← now
      if not (active_at durable t) then raise (access_error inactive_session) else pure durable)

  abbrev rotate_token : Bytes → Act S RefreshToken.Issued
  rotate_token raw = rethrow refresh_error (RefreshToken.Methods.rotate host refresh_tokens raw)

  -- Refresh, of a token that resolves
  unfoldable pub refresh_active : Bytes → RefreshToken.Record → Act S Issued
  unfolding durable_session
  refresh_active raw_refresh_token current = do
    durable ← durable_session current.session_id
    access ← access_token durable.subject_id durable.id durable.expires_at
    replacement ← rotate_token raw_refresh_token
    pure (record {
      session = durable;
      access_token = access.token;
      access_token_expires_at = access.expires_at;
      refresh_token = replacement.token;
      refresh_token_expires_at = replacement.issued_record.expires_at;
    })

  -- Refresh, by what Resolve answered: an inactive token is rotated, so that its reuse is detected.
  unfoldable pub refresh_resolved :
      Bytes → Result RefreshToken.Error RefreshToken.Record → Act S Issued
  unfolding refresh_active
  refresh_resolved raw_refresh_token (ok current) = refresh_active raw_refresh_token current
  refresh_resolved raw_refresh_token (err RefreshToken.inactive) = do
    _ ← rotate_token raw_refresh_token
    raise (refresh_error RefreshToken.inactive)
  refresh_resolved raw_refresh_token (err e) = raise (refresh_error e)

  -- The call of Resolve, whose error Refresh inspects.
  abbrev pub resolve_token :
      Bytes → World S → Result RefreshToken.Error RefreshToken.Record × World S
  resolve_token raw_refresh_token =
      RefreshToken.Methods.resolve host refresh_tokens raw_refresh_token

  -- Refresh
  unfoldable pub refresh : Bytes → Act S Issued
  unfolding refresh_resolved
  refresh raw_refresh_token w =
      let (answer, w') = resolve_token raw_refresh_token w in
      refresh_resolved raw_refresh_token answer w'

  -- Resolve
  unfoldable pub resolve : Bytes → Act S Session
  resolve raw_access_token = do
    (_, durable) ←
        on_verifier (rethrow access_error (verify_session jwt host verifier raw_access_token))
    pure durable

  -- List
  unfoldable pub list : String → Act S (List Session)
  unfolding is_live
  list subject_id = do
    records ← on_store (rethrow driver (store.list_by_subject subject_id))
    t ← now
    pure (map session_of (select (is_live t) records))

  -- Revoke
  unfoldable pub revoke : String → Act S (Unit {0})
  revoke session_id =
      rethrow refresh_error (RefreshToken.Methods.revoke_session_id host refresh_tokens session_id)

  -- RevokeByRefreshToken
  unfoldable pub revoke_by_refresh_token : Bytes → Act S (Unit {0})
  revoke_by_refresh_token raw_refresh_token =
      rethrow refresh_error
        (RefreshToken.Methods.revoke_session host refresh_tokens raw_refresh_token)

  -- RevokeByID
  unfoldable pub revoke_by_id : String → String → Act S (Unit {0})
  unfolding has_session revoke
  revoke_by_id subject_id session_id = do
    records ← on_store (rethrow driver (store.list_by_subject subject_id))
    if has_session session_id records
        then revoke session_id
        else raise (refresh_error RefreshToken.not_found)

  -- RevokeAll
  unfoldable pub revoke_all : String → Act S (Unit {0})
  revoke_all subject_id = do t ← now; on_store (rethrow driver (store.revoke_all subject_id t))
