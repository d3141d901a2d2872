-- ===== src/SessionToken/Lookup/Soundness.antt =====
-- What `Resolve` guarantees of the record that it returns, whatever the store and the cache answer.
use authlier.Common.{◌≡◌, refl, true, Option, none, some, Bytes, arith, bytes_beq_iff, inl, inr}
use authlier.Clock.{Time}
use authlier.Exec.{Result, ok, err, bind-ok, Result-cases}
use authlier.Host.{Host, Hash}
use authlier.Token
use authlier.SessionToken.{
  Error, Record, active_at, valid_record, Cache, ExtensionConfig, Manager, World,
}
use authlier.SessionToken.Methods.{on_store, read_now}
use authlier.SessionToken.Lookup.{
  extension_result, extend_with, extend_if_due, cached_record, keep_active, consult_cache,
  resolve_durable, resolve_with, resolve, extended_expiry, resolve_found, resolve_hash,
}

-- A valid record of the given token that can authenticate at the given time.
pub record IsCurrent (token_hash : Hash) (now : Time) (r : Record) : Type 0 where
  pub valid : valid_record r ≡ true
  pub of_token : r.token_hash ≡ token_hash
  pub active : active_at r now ≡ true

module _ {S C : Type 0} (host : Host) (manager : Manager S C) (token_hash : Hash) (now : Time) where
  extension_result-IsCurrent :
      (r r' : Record) (answer : Result Error Record) (w : World S C)
      → IsCurrent token_hash now r
      → (extension_result host manager r now answer w).0 ≡ ok r'
      → IsCurrent token_hash now r'
  unfolding extension_result
  extension_result-IsCurrent r r' (err e) w c h = ground arith
  extension_result-IsCurrent r r' (ok x) w c h =
      ground (arith, bytes_beq_iff x.token_hash r.token_hash)

  extend_with-IsCurrent :
      (e : Option ExtensionConfig) (r r' : Record) (w : World S C)
      → IsCurrent token_hash now r
      → (extend_with host manager e r now w).0 ≡ ok r'
      → IsCurrent token_hash now r'
  unfolding extend_with
  extend_with-IsCurrent none r r' w c h = ground arith
  extend_with-IsCurrent (some e) r r' w c h =
      let expires_at = extended_expiry e manager.lifetime r now in
      let (answer, s) = manager.store.extend r.token_hash now expires_at w.stored in
      ground (arith, extension_result-IsCurrent r r' answer (record w { stored = s }))

  extend_if_due-IsCurrent :
      (r r' : Record) (w : World S C)
      → IsCurrent token_hash now r
      → (extend_if_due host manager r now w).0 ≡ ok r'
      → IsCurrent token_hash now r'
  unfolding extend_if_due
  extend_if_due-IsCurrent r r' w c h = extend_with-IsCurrent manager.extension r r' w c h

  keep_active-IsCurrent :
      (answer : Result Error Record) (cached : Record) (w : World S C)
      → (keep_active host manager token_hash now (cached_record host manager token_hash answer) w).0
        ≡ ok (some cached)
      → IsCurrent token_hash now cached
  unfolding keep_active cached_record
  keep_active-IsCurrent (err e) cached w h = ground arith
  keep_active-IsCurrent (ok x) cached w h = ground (arith, bytes_beq_iff x.token_hash token_hash)

  consult_cache-IsCurrent :
      (c : Option (Cache C)) (cached : Record) (w : World S C)
      → (consult_cache host manager c token_hash now w).0 ≡ ok (some cached)
      → IsCurrent token_hash now cached
  unfolding consult_cache
  consult_cache-IsCurrent none cached w h = ground arith
  consult_cache-IsCurrent (some c) cached w h =
      let (answer, s) = c.get token_hash w.cached in
      keep_active-IsCurrent answer cached (record w { cached = s }) h

  resolve_found-IsCurrent :
      (r r' : Record) (w : World S C)
      → (resolve_found host manager token_hash now r w).0 ≡ ok r'
      → IsCurrent token_hash now r'
  unfolding resolve_found
  resolve_found-IsCurrent r r' w h =
      ground (arith, bytes_beq_iff r.token_hash token_hash, extend_if_due-IsCurrent r r' w)

  resolve_durable-IsCurrent :
      (r' : Record) (w : World S C)
      → (resolve_durable host manager token_hash now w).0 ≡ ok r'
      → IsCurrent token_hash now r'
  unfolding resolve_durable
  resolve_durable-IsCurrent r' w h =
      let found =
        bind-ok (on_store (manager.store.find_by_token_hash token_hash))
          (resolve_found host manager token_hash now) w h in
      resolve_found-IsCurrent found.0 r' _ found.2

  resolve_with-IsCurrent :
      (cached : Option Record) (r' : Record) (w : World S C)
      → ((c : Record) → cached ≡ some c → IsCurrent token_hash now c)
      → (resolve_with host manager token_hash now cached w).0 ≡ ok r'
      → IsCurrent token_hash now r'
  unfolding resolve_with
  resolve_with-IsCurrent none r' w hc h = resolve_durable-IsCurrent r' w h
  resolve_with-IsCurrent (some c) r' w hc h = extend_if_due-IsCurrent c r' w (hc c refl) h

module _ {S C : Type 0} (host : Host) (manager : Manager S C) where
  resolve_hash-IsCurrent :
      (token_hash : Hash) (r : Record) (w : World S C)
      → (resolve_hash host manager token_hash w).0 ≡ ok r
      → IsCurrent token_hash (host.now w.reads.clock) r
  unfolding resolve_hash
  resolve_hash-IsCurrent token_hash r w h =
      let now = host.now w.reads.clock in
      let w₁ : World S C = (read_now host manager w).1 in
      let consulted =
        bind-ok (consult_cache host manager manager.cache token_hash now)
          (resolve_with host manager token_hash now) w₁ h in
      resolve_with-IsCurrent host manager token_hash now consulted.0 r _
        (λ c e.
          consult_cache-IsCurrent host manager token_hash now manager.cache c w₁ (ground arith))
        consulted.2

  -- A record that `Resolve` returns is valid, belongs to the presented token and is active at the
  -- time that the call read, whatever the store and the cache answered.
  pub resolve-IsCurrent :
      (raw : Bytes) (r : Record) (w : World S C)
      → (resolve host manager raw w).0 ≡ ok r
      → (token_hash : Hash) × (Token.hash_token host raw ≡ ok token_hash)
        × IsCurrent token_hash (host.now w.reads.clock) r
  unfolding resolve
  resolve-IsCurrent raw r w h = elim (Result-cases (Token.hash_token host raw)) [
    | inl (x, e) ↦ (x, e, resolve_hash-IsCurrent x r w (ground arith))
    | inr (x, e) ↦ absurd (ground arith)
  ]
