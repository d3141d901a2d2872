-- ===== src/SessionToken/Methods.antt =====
-- The methods of the session manager, sessiontoken/sessiontoken.go.
use authlier.Common.{
  ℕ, zero, suc, String, Bool, true, false, not, Option, none, some, Bytes, bytes_eq, string_eq,
  if◌then◌else◌,
}
use authlier.Text.{is_blank}
use authlier.Clock.{Time, add_to, sub_from, is_positive, shortest}
use authlier.Exec.{
  Result, ok, err, Fault, Exec, pure, raise, attempt, rethrow, map_err, ◌>>=◌, ◌>>◌,
}
use authlier.Host.{Host, Hash, Reads, read_clock, read_uuid}
use authlier.Token
use authlier.SessionToken.{
  Error, conflict, inactive, invalid_record, invalid_token, not_found, cache_sync, other, Record,
  Issued, Cache, Manager, World,
}

abbrev pub creation_attempts : ℕ
creation_attempts = 3

abbrev pub Act : Type 0 → Type 0 → Type 0 → Type 0
Act S C A = Exec (World S C) Error A

-- A call on one part of the world.
module _ {S C A : Type 0} where
  abbrev pub on_store : Exec S Error A → Act S C A
  on_store m w = let (r, s) = m w.stored in (r, record w { stored = s })

  abbrev pub on_cache : Exec C Error A → Act S C A
  on_cache m w = let (r, c) = m w.cached in (r, record w { cached = c })

  abbrev pub on_host : Exec Reads Fault A → Act S C A
  on_host m w = let (r, reads) = m w.reads in (map_err other r, record w { reads = reads })

abbrev token_error : Token.Error → Error
token_error Token.invalid_token = invalid_token

-- errors.Is(err, ErrConflict)
abbrev pub is_conflict : Error → Bool
is_conflict conflict = true
is_conflict _ = false

-- errors.Is(err, ErrInactive) || errors.Is(err, ErrNotFound)
abbrev pub is_gone : Error → Bool
is_gone inactive = true
is_gone not_found = true
is_gone _ = false

module _ {S C : Type 0} (host : Host) (manager : Manager S C) where
  open manager use {store, cache, lifetime, cache_ttl, extension}

  -- manager.now().UTC()
  abbrev pub read_now : Act S C Time
  read_now = on_host (read_clock host)

  -- HashToken
  abbrev pub hash_token : Bytes → Result Error Hash
  hash_token raw_token = map_err token_error (Token.hash_token host raw_token)

  unfoldable pub new_issued : String → Act S C Issued
  new_issued subject_id = do
    session_id ← on_host (read_uuid host)
    (raw_token, token_hash) ← on_host (Token.generate host)
    now ← read_now
    pure (record {
      token = raw_token;
      issued_record = record {
        id = session_id;
        subject_id = subject_id;
        token_hash = token_hash;
        created_at = now;
        expires_at = add_to now lifetime;
        extended_at = none;
        revoked_at = none;
      };
    })

  -- `_ = manager.cache.Delete(…)`, where a cache is configured
  unfoldable pub forget_cached : Option (Cache C) → Hash → Act S C (Unit {0})
  forget_cached none token_hash = pure tt
  forget_cached (some c) token_hash = do attempt (on_cache (c.delete token_hash)); pure tt

  delete_from : Option (Cache C) → Hash → Act S C (Unit {0})
  delete_from none token_hash = pure tt
  delete_from (some c) token_hash = rethrow cache_sync (on_cache (c.delete token_hash))

  unfoldable pub delete_cached : Hash → Act S C (Unit {0})
  unfolding delete_from
  delete_cached = delete_from cache

  populate : Option (Cache C) → Record → Act S C (Unit {0})
  populate none r = pure tt
  populate (some c) r = do
    now ← read_now
    let remaining = sub_from r.expires_at now
    if not (is_positive remaining)
        then pure tt
        else do attempt (on_cache (c.set r (shortest cache_ttl remaining))); pure tt

  unfoldable pub populate_cache : Record → Act S C (Unit {0})
  unfolding populate
  populate_cache = populate cache

  -- What is left of `Create` after a call of the store, `rest` being the further attempts.
  create_attempt : Act S C Issued → Issued → Result Error (Unit {0}) → Act S C Issued
  create_attempt rest issued (ok _) = do populate_cache issued.issued_record; pure issued
  create_attempt rest issued (err e) = if is_conflict e then rest else raise e

  unfoldable pub create_with : Act S C Issued → Issued → Act S C Issued
  unfolding create_attempt
  create_with rest issued = do
    stored ← attempt (on_store (store.create issued.issued_record))
    create_attempt rest issued stored

  unfoldable pub create_loop : ℕ → String → Act S C Issued
  create_loop zero subject_id = raise conflict
  create_loop (suc n) subject_id =
      let rest = create_loop n subject_id in
      do issued ← new_issued subject_id; create_with rest issued

  unfoldable pub create : String → Act S C Issued
  create subject_id =
      if is_blank subject_id then raise invalid_record else create_loop creation_attempts subject_id
