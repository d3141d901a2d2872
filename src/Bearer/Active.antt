-- ===== src/Bearer/Active.antt =====
-- What a refreshed bearer session is.
use authlier.Common.{String, refl, ◌≡◌, Bytes, true, arith, string_eq}
use text.Mathlib.TextEquality.{eq_iff}
use authlier.Exec.{ok, err, Result}
use authlier.Host.{Host}
use authlier.RefreshToken
use authlier.RefreshToken.{World}
use authlier.AccessToken.{Jwt, Session, active_at}
use authlier.Bearer.{Manager, Issued}
use authlier.Bearer.Methods.{
  durable_session, refresh_active, refresh_resolved, refresh, resolve_token,
}

module _ {S : Type 0} (jwt : Jwt) (host : Host) (manager : Manager S) where
  -- The session that a refresh token leads to is the one that the store returned for its ID, and is
  -- active when the clock is read.
  pub durable_session-active :
      (session_id : String) (session : Session) (w : World S)
      → (durable_session jwt host manager session_id w).0 ≡ ok session
      → ((manager.store.resolve_session session_id w.stored).0 ≡ ok session)
        × (session.id ≡ session_id)
        × (active_at session (host.now w.reads.clock) ≡ true)
  unfolding durable_session
  durable_session-active session_id session w e =
      (ground arith, ground (arith, eq_iff session.id session_id), ground arith)

  refresh_active-session :
      (raw : Bytes) (current : RefreshToken.Record) (issued : Issued) (w : World S)
      → (refresh_active jwt host manager raw current w).0 ≡ ok issued
      → (durable_session jwt host manager current.session_id w).0 ≡ ok issued.session
  unfolding refresh_active
  refresh_active-session raw current issued w e = ground arith

  refresh_resolved-session :
      (raw : Bytes) (answer : Result RefreshToken.Error RefreshToken.Record) (issued : Issued)
      (w : World S)
      → (refresh_resolved jwt host manager raw answer w).0 ≡ ok issued
      → (current : RefreshToken.Record) × (answer ≡ ok current)
        × ((durable_session jwt host manager current.session_id w).0 ≡ ok issued.session)
  unfolding refresh_resolved
  refresh_resolved-session raw (ok current) issued w e =
      (current, refl, refresh_active-session raw current issued w e)
  refresh_resolved-session raw (err e) issued w h = absurd (ground arith)

  -- A refreshed session is an active one: the refresh token resolved, the store returned the session
  -- that it names, and that session is active at the time that the clock showed next.
  pub refresh-active :
      (raw : Bytes) (issued : Issued) (w : World S)
      → (refresh jwt host manager raw w).0 ≡ ok issued
      → let (answer, w') = resolve_token jwt host manager raw w in
        (current : RefreshToken.Record) × (answer ≡ ok current)
        × ((manager.store.resolve_session current.session_id w'.stored).0 ≡ ok issued.session)
        × (issued.session.id ≡ current.session_id)
        × (active_at issued.session (host.now w'.reads.clock) ≡ true)
  unfolding refresh
  refresh-active raw issued w e =
      let (answer, w') = resolve_token jwt host manager raw w in
      let (current, resolved, durable) = refresh_resolved-session raw answer issued w' e in
      let (found, same, active) =
        durable_session-active current.session_id issued.session w' durable in
      (current, resolved, found, same, active)
