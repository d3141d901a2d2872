-- ===== src/RefreshToken/Methods.antt =====
-- The manager of refreshtoken/refreshtoken.go: `NewManager` and the methods.
use authlier.Common.{
  ℕ, zero, suc, String, Bool, true, false, not, ◌||◌, Option, none, some, Bytes, ◌==◌, bytes_eq,
  if◌then◌else◌,
}
use authlier.Text.{is_blank}
use authlier.Clock.{Time, zero_time, is_zero, is_positive, Duration, add_to}
use authlier.Exec.{Result, ok, err, Fault, Exec, pure, raise, lift, attempt, map_err, ◌>>=◌}
use authlier.Host.{Host, Hash, Reads, read_clock}
use authlier.Token
use authlier.RefreshToken.{
  Error, conflict, inactive, invalid_config, invalid_record, invalid_token, other, Record,
  active_at, Issued, valid_record, Store, Manager, World,
}

abbrev pub creation_attempts : ℕ
creation_attempts = 3

abbrev pub Act : Type 0 → Type 0 → Type 0
Act S A = Exec (World S) Error A

-- A call on one part of the world.
module _ {S A : Type 0} where
  abbrev pub on_store : Exec S Error A → Act S A
  on_store m w = let (r, s) = m w.stored in (r, record w { stored = s })

  abbrev pub on_host : Exec Reads Fault A → Act S A
  on_host m w = let (r, reads) = m w.reads in (map_err other r, record w { reads = reads })

abbrev pub token_error : Token.Error → Error
token_error Token.invalid_token = invalid_token

-- errors.Is(err, ErrConflict)
abbrev pub is_conflict : Error → Bool
is_conflict conflict = true
is_conflict _ = false

-- NewManager; `Config.Now` is the host's clock.
unfoldable pub new_manager : {S : Type 0} → Option (Store S) → Duration → Result Error (Manager S)
new_manager none lifetime = err invalid_config
new_manager (some store) lifetime =
    if not (is_positive lifetime)
    then err invalid_config
    else ok (record { store = store; lifetime = lifetime })

module _ {S : Type 0} (host : Host) (manager : Manager S) where
  open manager use {store, lifetime}

  abbrev pub read_now : Act S Time
  read_now = on_host (read_clock host)

  abbrev pub hash_token : Bytes → Result Error Hash
  hash_token raw_token = map_err token_error (Token.hash_token host raw_token)

  -- A zero `expires_at` asks for a lifetime from now.
  unfoldable pub new_issued : String → Time → Act S Issued
  new_issued session_id expires_at = do
    (raw_token, token_hash) ← on_host (Token.generate host)
    now ← read_now
    pure (record {
      token = raw_token;
      issued_record = record {
        session_id = session_id;
        token_hash = token_hash;
        created_at = now;
        expires_at = if is_zero expires_at then add_to now lifetime else expires_at;
        rotated_at = none;
        revoked_at = none;
      };
    })

  -- After a call of the store: the new token, another attempt, or the error.
  unfoldable pub issue_attempt : Act S Issued → Issued → Result Error (Unit {0}) → Act S Issued
  issue_attempt rest issued (ok _) = pure issued
  issue_attempt rest issued (err e) = if is_conflict e then rest else raise e

  unfoldable pub create_loop : ℕ → String → Act S Issued
  unfolding issue_attempt
  create_loop zero session_id = raise conflict
  create_loop (suc n) session_id =
      let rest = create_loop n session_id in
      do
        issued ← new_issued session_id zero_time
        stored ← attempt (on_store (store.create issued.issued_record))
        issue_attempt rest issued stored

  -- Create
  unfoldable pub create : String → Act S Issued
  unfolding create_loop
  create session_id =
      if is_blank session_id then raise invalid_record else create_loop creation_attempts session_id

  -- The record of a token, as Resolve and Rotate look it up.
  unfoldable pub lookup : Hash → Act S Record
  lookup token_hash = do
    r ← on_store (store.find_by_token_hash token_hash)
    if not (valid_record r) || not (r.token_hash == token_hash)
        then raise invalid_record
        else pure r

  -- Resolve
  unfoldable pub resolve : Bytes → Act S Record
  unfolding lookup
  resolve raw_token = do
    token_hash ← lift (hash_token raw_token)
    r ← lookup token_hash
    now ← read_now
    if not (active_at r now) then raise inactive else pure r

  unfoldable pub rotate_loop : ℕ → Hash → Record → Act S Issued
  unfolding issue_attempt
  rotate_loop zero token_hash current = raise conflict
  rotate_loop (suc n) token_hash current =
      let rest = rotate_loop n token_hash current in
      do
        replacement ← new_issued current.session_id current.expires_at
        now ← read_now
        stored ← attempt (on_store (store.rotate token_hash replacement.issued_record now))
        issue_attempt rest replacement stored

  -- Rotate
  unfoldable pub rotate : Bytes → Act S Issued
  unfolding lookup rotate_loop
  rotate raw_token = do
    token_hash ← lift (hash_token raw_token)
    current ← lookup token_hash
    rotate_loop creation_attempts token_hash current

  -- RevokeSessionID
  unfoldable pub revoke_session_id : String → Act S (Unit {0})
  revoke_session_id session_id =
      if is_blank session_id
      then raise invalid_record
      else do now ← read_now; on_store (store.revoke_session session_id now)

  -- RevokeSession
  unfoldable pub revoke_session : Bytes → Act S (Unit {0})
  unfolding resolve revoke_session_id
  revoke_session raw_token = do r ← resolve raw_token; revoke_session_id r.session_id
