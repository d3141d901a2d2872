-- ===== src/SessionToken/Ending.antt =====
-- `Rotate`, `Revoke`, `RevokeByID`, `List` and `RevokeAll` of sessiontoken/sessiontoken.go.
use authlier.Common.{
  ℕ, zero, suc, String, Bool, true, not, ◌&&◌, ◌||◌, Option, none, some, List, [], ◌∷◌, Bytes, ◌==◌,
  bytes_eq, string_eq, if◌then◌else◌,
}
use authlier.Text.{is_blank}
use authlier.Clock.{Time}
use authlier.Exec.{Result, ok, err, pure, raise, lift, attempt, ◌>>=◌, ◌>>◌}
use authlier.Host.{Host, Hash}
use authlier.SessionToken.{
  Error, conflict, inactive, invalid_record, not_found, Record, active_at, Issued, valid_record,
  Manager,
}
use authlier.SessionToken.Methods.{
  Act, creation_attempts, on_store, is_conflict, read_now, hash_token, new_issued, delete_cached,
  populate_cache,
}

-- Go returns the new token beside `ErrCacheSync` where only the cache could not be brought up to
-- date: `rotated` carries that error.
pub record Rotated : Type 0 where
  pub replacement : Issued
  pub sync_error : Option Error

abbrev pub error_of {ℓ} : {A : Type ℓ} → Result Error A → Option Error
error_of (ok a) = none
error_of (err e) = some e

module _ {S C : Type 0} (host : Host) (manager : Manager S C) where
  open manager use {store}

  rotate_attempt : Act S C Rotated → Hash → Issued → Result Error (Unit {0}) → Act S C Rotated
  rotate_attempt rest current replacement (ok _) = do
    populate_cache host manager replacement.issued_record
    synced ← attempt (delete_cached host manager current)
    pure (record { replacement = replacement; sync_error = error_of synced })
  rotate_attempt rest current replacement (err e) = if is_conflict e then rest else raise e

  -- One attempt with a new token, `rest` being the further attempts.
  unfoldable pub rotate_with : Act S C Rotated → Hash → Time → Issued → Act S C Rotated
  unfolding rotate_attempt
  rotate_with rest current at replacement = do
    stored ← attempt (on_store (store.rotate current replacement.issued_record at))
    rotate_attempt rest current replacement stored

  unfoldable pub rotate_loop : ℕ → Hash → String → Time → Act S C Rotated
  rotate_loop zero current subject_id at = raise conflict
  rotate_loop (suc n) current subject_id at =
      let rest = rotate_loop n current subject_id at in
      do replacement ← new_issued host manager subject_id; rotate_with rest current at replacement

  -- `Rotate` with the record that was found.
  unfoldable pub rotate_found : Hash → Record → Act S C Rotated
  rotate_found current r =
      if not (valid_record r) || not (r.token_hash == current) then raise invalid_record else do
        at ← read_now host manager
        if not (active_at r at)
            then raise inactive
            else rotate_loop creation_attempts current r.subject_id at

  unfoldable pub rotate_hash : Hash → Act S C Rotated
  rotate_hash current = do r ← on_store (store.find_by_token_hash current); rotate_found current r

  -- Rotate
  unfoldable pub rotate : Bytes → Act S C Rotated
  rotate raw_token = do current ← lift (hash_token host manager raw_token); rotate_hash current

  unfoldable pub revoke_hash : Hash → Act S C (Unit {0})
  revoke_hash token_hash = do
    at ← read_now host manager
    on_store (store.revoke token_hash at)
    delete_cached host manager token_hash

  -- Revoke
  unfoldable pub revoke : Bytes → Act S C (Unit {0})
  unfolding revoke_hash
  revoke raw_token = do
    token_hash ← lift (hash_token host manager raw_token)
    revoke_hash token_hash

  -- Is every record valid and of this subject?
  unfoldable pub all_of_subject : String → List Record → Bool
  all_of_subject subject_id [] = true
  all_of_subject subject_id (r ∷ records) =
      (valid_record r && r.subject_id == subject_id) && all_of_subject subject_id records

  -- List
  unfoldable pub list : String → Act S C (List Record)
  unfolding all_of_subject
  list subject_id = if is_blank subject_id then raise invalid_record else do
    records ← on_store (store.list_by_subject subject_id)
    if all_of_subject subject_id records then pure records else raise invalid_record

  revoke_first : String → List Record → Act S C (Unit {0})
  revoke_first session_id [] = raise not_found
  revoke_first session_id (r ∷ records) =
      if r.id == session_id then revoke_hash r.token_hash else revoke_first session_id records

  -- RevokeByID
  unfoldable pub revoke_by_id : String → String → Act S C (Unit {0})
  unfolding revoke_first revoke_hash list
  revoke_by_id subject_id session_id =
      if is_blank subject_id || is_blank session_id
      then raise invalid_record
      else (do records ← list subject_id; revoke_first session_id records)

  abbrev keep_first : Option Error → Option Error → Option Error
  keep_first none e = e
  keep_first (some e) f = some e

  -- The loop over the revoked records: the first cache error is kept, an invalid record ends it.
  invalidate : String → List Record → Option Error → Act S C (Unit {0})
  invalidate subject_id [] none = pure tt
  invalidate subject_id [] (some e) = raise e
  invalidate subject_id (r ∷ records) cache_err =
      if not (valid_record r) || not (r.subject_id == subject_id) then raise invalid_record else (do
        synced ← attempt (delete_cached host manager r.token_hash)
        invalidate subject_id records (keep_first cache_err (error_of synced)))

  -- RevokeAll
  unfoldable pub revoke_all : String → Act S C (Unit {0})
  unfolding invalidate
  revoke_all subject_id = if is_blank subject_id then raise invalid_record else do
    at ← read_now host manager
    records ← on_store (store.revoke_all subject_id at)
    invalidate subject_id records none
