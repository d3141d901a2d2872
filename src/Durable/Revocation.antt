-- ===== src/Durable/Revocation.antt =====
-- A revoked or rotated session token authenticates nobody, whatever happens afterwards.
use authlier.Common.{
  refl, bytes_beq_iff, ◌≡◌, ◌≢◌, true, some, Bytes, arith, Option-cases, inl, inr, is_set,
}
use authlier.Clock.{Time}
use authlier.Exec.{ok, bind-ok, Result-cases}
use authlier.Host.{Host, Hash}
use authlier.Token
use authlier.SessionToken.{Record, active_at, Settings}
use authlier.SessionToken.Methods.{on_store, read_now, delete_cached}
use authlier.SessionToken.Lookup.{
  resolve, resolve_hash, resolve_with, resolve_durable, resolve_found, consult_cache,
}
use authlier.SessionToken.Ending.{revoke, revoke_hash}
use authlier.Postgres.{Db, Server}
use authlier.Postgres.Sessions
use authlier.Postgres.Sessions.{find_by_token_hash, select_session, has_hash, mark_revoked}
use authlier.Postgres.Sessions.View.{view, revoked_once, find-view, view-revoke}
use authlier.Postgres.Sessions.Life.{Reach, revoked_forever}
use authlier.Durable.{durable, DurableWorld}

module _ (host : Host) (server : Server) (settings : Settings) where
  resolve_found-active :
      (h : Hash) (now : Time) (r r' : Record) (w : DurableWorld)
      → (resolve_found host (durable server settings) h now r w).0 ≡ ok r'
      → active_at r now ≡ true
  unfolding resolve_found
  resolve_found-active h now r r' w e = ground arith

  resolve_durable-view :
      (h : Hash) (now : Time) (r' : Record) (w : DurableWorld)
      → (resolve_durable host (durable server settings) h now w).0 ≡ ok r'
      → (r : Record) × (view w.stored.tables h ≡ some r) × (active_at r now ≡ true)
  unfolding resolve_durable
  resolve_durable-view h now r' w e =
      let (r, found, rest, _) =
        bind-ok (on_store (find_by_token_hash server h))
          (resolve_found host (durable server settings) h now) w e in
      (r, (find-view server h r w.stored found).0, resolve_found-active h now r r' _ rest)

  -- What a successful `Resolve` has read: an active row of the token.
  pub resolve-view :
      (raw : Bytes) (r' : Record) (w : DurableWorld)
      → (resolve host (durable server settings) raw w).0 ≡ ok r'
      → (h : Hash) × (r : Record) × (Token.hash_token host raw ≡ ok h)
        × (view w.stored.tables h ≡ some r)
        × (active_at r (host.now w.reads.clock) ≡ true)
  unfolding resolve resolve_hash consult_cache resolve_with
  resolve-view raw r' w e = elim (Result-cases (Token.hash_token host raw)) [
    | inr (x, bad) ↦ absurd (ground arith)
    | inl (h, good) ↦
        let m = durable server settings in
        let (r, found, active) =
          resolve_durable-view h (host.now w.reads.clock) r' (read_now host m w).1 (ground arith) in
        (h, r, good, found, active)
  ]

  -- A token whose session is revoked is refused by `Resolve` after any history of the store.
  pub resolve_revoked :
      (raw : Bytes) (h : Hash) (r : Record) (t : Time) (before : Db) (w : DurableWorld)
      → Token.hash_token host raw ≡ ok h
      → view before.tables h ≡ some r
      → r.revoked_at ≡ some t
      → Reach server before w.stored
      → (r' : Record) → (resolve host (durable server settings) raw w).0 ≢ ok r'
  resolve_revoked raw h r t before w hashed found revoked reach r' e =
      let now = host.now w.reads.clock in
      let (h', x, hashed', found', active) = resolve-view raw r' w e in
      let (y, kept, _, inactive) =
        revoked_forever server before w.stored h r t now reach found revoked in
      ground arith

  revoke_hash-ok :
      (h : Hash) (w : DurableWorld)
      → (revoke_hash host (durable server settings) h w).0 ≡ ok tt
      → ((Sessions.revoke server h (host.now w.reads.clock) w.stored).0 ≡ ok tt)
        × ((revoke_hash host (durable server settings) h w).1.stored
            ≡ (Sessions.revoke server h (host.now w.reads.clock) w.stored).1)
  unfolding revoke_hash delete_cached
  revoke_hash-ok h w e = ground arith

  revoke_hash-view :
      (h : Hash) (w : DurableWorld)
      → (revoke_hash host (durable server settings) h w).0 ≡ ok tt
      → (r : Record) × (view (revoke_hash host (durable server settings) h w).1.stored.tables h
          ≡ some r)
        × (is_set r.revoked_at ≡ true)
  revoke_hash-view h w e =
      let at = host.now w.reads.clock in
      let (done, left) = revoke_hash-ok h w e in
      let (row, found, shows) = view-revoke server h at w.stored done in
      let same = (bytes_beq_iff h h).1 refl in
      (revoked_once at row, rw left (ground (arith, shows h)), ground arith)

  revoke-hashed :
      (raw : Bytes) (h : Hash) (w : DurableWorld)
      → Token.hash_token host raw ≡ ok h
      → revoke host (durable server settings) raw w ≡ revoke_hash host (durable server settings) h w
  unfolding revoke
  revoke-hashed raw h w e = rw e

  revoke-accepted :
      (raw : Bytes) (w : DurableWorld)
      → (revoke host (durable server settings) raw w).0 ≡ ok tt
      → (h : Hash) × (Token.hash_token host raw ≡ ok h)
  unfolding revoke
  revoke-accepted raw w e = elim (Result-cases (Token.hash_token host raw)) [
    | inl t ↦ t
    | inr (x, bad) ↦ absurd (ground arith)
  ]

  -- After a successful `Revoke`, and any history of the store that follows, `Resolve` refuses the
  -- token.
  pub resolve-revoke :
      (raw : Bytes) (w w' : DurableWorld)
      → (revoke host (durable server settings) raw w).0 ≡ ok tt
      → Reach server (revoke host (durable server settings) raw w).1.stored w'.stored
      → (r : Record) → (resolve host (durable server settings) raw w').0 ≢ ok r
  resolve-revoke raw w w' done reach r e =
      let (h, good) = revoke-accepted raw w done in
      let same = revoke-hashed raw h w good in
      let (row, found, ended) = revoke_hash-view h w (rw same at done) in
      elim (Option-cases row.revoked_at) [
        | inl never ↦ cc
        | inr (t, at) ↦
            resolve_revoked raw h row t (revoke_hash host (durable server settings) h w).1.stored w'
              good found at (rw same at reach) r e
      ]
