-- ===== src/SessionToken/Lookup.antt =====
-- `Resolve` of sessiontoken/sessiontoken.go, with the sliding extension of a session.

pub mod Soundness
use authlier.Common.{not, ◌&&◌, ◌||◌, Option, none, some, Bytes, ◌==◌, bytes_eq, if◌then◌else◌}
use authlier.Clock.{Time, before, after, add_to}
use authlier.Exec.{Result, ok, err, pure, raise, lift, attempt, ◌>>=◌, ◌>>◌}
use authlier.Host.{Host, Hash}
use authlier.SessionToken.{
  Error, inactive, invalid_record, Record, active_at, valid_record, Cache, ExtensionConfig, Manager,
}
use authlier.SessionToken.Methods.{
  Act, on_store, on_cache, is_gone, read_now, hash_token, forget_cached, delete_cached,
  populate_cache,
}

abbrev pub or_else_time : Option Time → Time → Time
or_else_time none t = t
or_else_time (some u) t = u

-- lastExtendedAt
abbrev pub last_extended_at : Record → Time
last_extended_at r = or_else_time r.extended_at r.created_at

-- The expiry that an extension at `now` asks for: a lifetime ahead, capped by the absolute lifetime.
unfoldable pub extended_expiry :
    ExtensionConfig → (lifetime : authlier.Clock.Duration) → Record → Time → Time
extended_expiry e lifetime r now =
    let expires_at = add_to now lifetime in
    let absolute_expiry = add_to r.created_at e.absolute_lifetime in
    if after expires_at absolute_expiry then absolute_expiry else expires_at

module _ {S C : Type 0} (host : Host) (manager : Manager S C) where
  open manager use {store, cache, lifetime, extension}

  -- What `extendIfDue` makes of the store's answer to `Extend`.
  unfoldable pub extension_result : Record → Time → Result Error Record → Act S C Record
  extension_result r now (err e) =
      if is_gone e then (do attempt (delete_cached host manager r.token_hash); raise e) else pure r
  extension_result r now (ok extended) =
      if not (valid_record extended)
        || not (extended.token_hash == r.token_hash)
        || not (active_at extended now)
      then raise invalid_record
      else (do populate_cache host manager extended; pure extended)

  unfoldable pub extend_with : Option ExtensionConfig → Record → Time → Act S C Record
  extend_with none r now = pure r
  extend_with (some e) r now =
      let expires_at = extended_expiry e lifetime r now in
      if before now (add_to (last_extended_at r) e.extend_after)
      then pure r
      else if not (after expires_at r.expires_at)
      then pure r
      else do
        extended ← attempt (on_store (store.extend r.token_hash now expires_at))
        extension_result r now extended

  unfoldable pub extend_if_due : Record → Time → Act S C Record
  extend_if_due = extend_with extension

  -- A cached record counts if it is valid and of this token.
  unfoldable pub cached_record : Hash → Result Error Record → Option Record
  cached_record token_hash (err e) = none
  cached_record token_hash (ok cached) =
      if valid_record cached && cached.token_hash == token_hash then some cached else none

  -- An inactive cached record is dropped, and the store is asked.
  unfoldable pub keep_active : Hash → Time → Option Record → Act S C (Option Record)
  keep_active token_hash now none = pure none
  keep_active token_hash now (some cached) =
      if active_at cached now
      then pure (some cached)
      else (do forget_cached host manager cache token_hash; pure none)

  unfoldable pub consult_cache : Option (Cache C) → Hash → Time → Act S C (Option Record)
  consult_cache none token_hash now = pure none
  consult_cache (some c) token_hash now = do
    answer ← attempt (on_cache (c.get token_hash))
    keep_active token_hash now (cached_record token_hash answer)

  -- What `Resolve` does with a durable record.
  unfoldable pub resolve_found : Hash → Time → Record → Act S C Record
  resolve_found token_hash now r =
      if not (valid_record r) || not (r.token_hash == token_hash)
      then raise invalid_record
      else if not (active_at r now)
      then (do forget_cached host manager cache token_hash; raise inactive)
      else (do r' ← extend_if_due r now; populate_cache host manager r'; pure r')

  -- The path through the durable authority.
  unfoldable pub resolve_durable : Hash → Time → Act S C Record
  resolve_durable token_hash now = do
    r ← on_store (store.find_by_token_hash token_hash)
    resolve_found token_hash now r

  unfoldable pub resolve_with : Hash → Time → Option Record → Act S C Record
  resolve_with token_hash now (some cached) = extend_if_due cached now
  resolve_with token_hash now none = resolve_durable token_hash now

  unfoldable pub resolve_hash : Hash → Act S C Record
  resolve_hash token_hash = do
    now ← read_now host manager
    cached ← consult_cache cache token_hash now
    resolve_with token_hash now cached

  -- Resolve
  unfoldable pub resolve : Bytes → Act S C Record
  resolve raw_token = do
    token_hash ← lift (hash_token host manager raw_token)
    resolve_hash token_hash
