-- ===== src/Durable/Rotation.antt =====
-- `Rotate` over the durable store: the old token ends and the new one takes its place.
use authlier.Common.{
  ◌≡◌, ◌≢◌, refl, ◌∙◌, ap, ℕ, zero, suc, subst, Bool, if◌then◌else◌, true, false, none, some, Bytes,
  String, arith, Option-cases, inl, inr, is_set, ==-refl, bytes_eq, bytes_beq_iff, find?-passes,
}
use authlier.Clock.{Time}
use authlier.Exec.{Result, ok, err, bind-ok, ok-injective, Result-cases, raise}
use authlier.Host.{Host, Hash, read_uuid, FillsBuffer}
use authlier.Token
use authlier.Token.RoundTrip.{hash_token-generate}
use authlier.SessionToken.{Error, Record, active_at, Issued, Settings}
use authlier.SessionToken.Methods.{
  Act, on_store, on_host, read_now, new_issued, populate_cache, delete_cached, creation_attempts,
  is_conflict,
}
use authlier.SessionToken.Lookup.{resolve}
use authlier.SessionToken.Ending.{
  Rotated, rotate_with, rotate_loop, rotate_found, rotate_hash, rotate,
}
use authlier.Postgres.{Tables, Db, Server}
use authlier.Postgres.Sessions
use authlier.Postgres.Sessions.{has_hash, revoke_now, find_by_token_hash}
use authlier.Postgres.Sessions.View.{view, find-view, view-rotate}
use authlier.Postgres.Sessions.Life.{Reach}
use authlier.Durable.{durable, DurableWorld}
use authlier.Durable.Revocation.{resolve_revoked}

-- A token just made for a subject: `HashToken` accepts it, with the hash of its record.
pub record IsNew (host : Host) (subject_id : String) (issued : Issued) : Type 0 where
  pub subject : issued.issued_record.subject_id ≡ subject_id
  pub accepted : Token.hash_token host issued.token ≡ ok issued.issued_record.token_hash

-- What a rotation leaves in the tables.
pub record IsRotated (host : Host) (current : Hash) (subject_id : String) (rotated : Rotated)
    (t : Tables) : Type 0 where
  pub old : Record
  pub old_found : view t current ≡ some old
  pub old_ended : is_set old.revoked_at ≡ true
  pub new_found :
      view t rotated.replacement.issued_record.token_hash ≡ some rotated.replacement.issued_record
  pub new_token : IsNew host subject_id rotated.replacement

module _ (host : Host) (server : Server) (settings : Settings) (fills : FillsBuffer host) where
  new_issued-IsNew :
      (subject_id : String) (w : DurableWorld) (issued : Issued)
      → (new_issued host (durable server settings) subject_id w).0 ≡ ok issued
      → IsNew host subject_id issued
  unfolding new_issued
  new_issued-IsNew subject_id w issued e = record {
    subject = ground arith;
    accepted =
        hash_token-generate host (on_host {C = Unit {0}} (read_uuid host) w).1.reads issued.token
          issued.issued_record.token_hash fills (ground arith);
  }

  stored-IsRotated :
      (current : Hash) (at : Time) (replacement : Issued) (db : Db) (subject_id : String)
      → IsNew host subject_id replacement
      → (Sessions.rotate server current replacement.issued_record at db).0 ≡ ok tt
      → IsRotated host current subject_id
          (record { replacement = replacement; sync_error = none })
          (Sessions.rotate server current replacement.issued_record at db).1.tables
  stored-IsRotated current at replacement db subject_id same done =
      let new = replacement.issued_record in
      let (row, found, active, free, shows) = view-rotate server current new at db done in
      let of_current = find?-passes (has_hash current) db.tables.sessions row found in
      let fresh = (bytes_beq_iff new.token_hash current).0 in
      record {
        old = revoke_now at row;
        old_found = ground (arith, shows current, of_current, fresh, ap (view db.tables));
        old_ended = refl;
        new_found = ground (arith, shows new.token_hash, ==-refl {K = Bytes} new.token_hash);
        new_token = same;
      }

  -- The world after the store's call.
  abbrev left_by : Hash → Time → Issued → DurableWorld → DurableWorld
  left_by current at replacement w = record w {
    stored = (Sessions.rotate server current replacement.issued_record at w.stored).1;
  }

  rotate_with-stored :
      (rest : Act Db (Unit {0}) Rotated) (current : Hash) (at : Time) (replacement : Issued)
      → (w : DurableWorld)
      → (Sessions.rotate server current replacement.issued_record at w.stored).0 ≡ ok tt
      → rotate_with host (durable server settings) rest current at replacement w ≡ (
        ok (record { replacement = replacement; sync_error = none }),
        left_by current at replacement w,
      )
  unfolding rotate_with populate_cache delete_cached
  rotate_with-stored rest current at replacement w done = rw done

  rotate_with-refused :
      (rest : Act Db (Unit {0}) Rotated) (current : Hash) (at : Time) (replacement : Issued)
      → (w : DurableWorld) (f : Error)
      → (Sessions.rotate server current replacement.issued_record at w.stored).0 ≡ err f
      → rotate_with host (durable server settings) rest current at replacement w
        ≡ (if is_conflict f then rest else raise f) (left_by current at replacement w)
  unfolding rotate_with
  rotate_with-refused rest current at replacement w f failed = rw failed

  -- What the caller may rely on when the call returned `rotated`.
  abbrev Ends : Hash → String → Rotated → Result Error Rotated × DurableWorld → Type 0
  Ends current subject_id rotated result =
      result.0 ≡ ok rotated → IsRotated host current subject_id rotated result.1.stored.tables

  retry-Ends :
      (b : Bool) (f : Error) (rest : Act Db (Unit {0}) Rotated) (current : Hash)
      → (subject_id : String) (rotated : Rotated) (w : DurableWorld)
      → Ends current subject_id rotated (rest w)
      → Ends current subject_id rotated ((if b then rest else raise f) w)
  retry-Ends true f rest current subject_id rotated w again = again
  retry-Ends false f rest current subject_id rotated w again = λ e. absurd (ground arith)

  rotate_with-Ends :
      (rest : Act Db (Unit {0}) Rotated) (current : Hash) (at : Time) (replacement : Issued)
      → (w : DurableWorld) (rotated : Rotated) (subject_id : String)
      → IsNew host subject_id replacement
      → ((w' : DurableWorld) → Ends current subject_id rotated (rest w'))
      → Ends current subject_id rotated
          (rotate_with host (durable server settings) rest current at replacement w)
  rotate_with-Ends rest current at replacement w rotated subject_id same again =
      elim (Result-cases (Sessions.rotate server current replacement.issued_record at w.stored).0) [
        | inl (_, done) ↦ rw (rotate_with-stored rest current at replacement w done) (λ e.
            subst
              (λ x.
                IsRotated host current subject_id x
                  (left_by current at replacement w).stored.tables)
              (ok-injective e)
              (stored-IsRotated current at replacement w.stored subject_id same done))
        | inr (f, failed) ↦ rw (rotate_with-refused rest current at replacement w f failed) (
            retry-Ends (is_conflict f) f rest current subject_id rotated _
              (again (left_by current at replacement w)))
      ]

  rotate_loop-Ends :
      (n : ℕ) (current : Hash) (subject_id : String) (at : Time) (w : DurableWorld)
      → (rotated : Rotated)
      → Ends current subject_id rotated
          (rotate_loop host (durable server settings) n current subject_id at w)
  unfolding rotate_loop
  rotate_loop-Ends zero current subject_id at w rotated = λ e. absurd (ground arith)
  rotate_loop-Ends (suc n) current subject_id at w rotated = λ e.
      let m = durable server settings in
      let rest = rotate_loop host m n current subject_id at in
      let (issued, made, ran, left) =
        bind-ok (new_issued host m subject_id) (rotate_with host m rest current at) w e in
      rw left (
        rotate_with-Ends rest current at issued (new_issued host m subject_id w).1 rotated
          subject_id (new_issued-IsNew subject_id w issued made)
          (λ w'. rotate_loop-Ends n current subject_id at w' rotated) ran)

  -- What a successful call has read, besides what it leaves.
  pub record Rotates (current : Hash) (rotated : Rotated) (w w' : DurableWorld) : Type 0 where
    pub row : Record
    pub found : view w.stored.tables current ≡ some row
    pub active : active_at row (host.now w.reads.clock) ≡ true
    pub leaves : IsRotated host current row.subject_id rotated w'.stored.tables

  rotate_found-runs :
      (current : Hash) (r : Record) (w : DurableWorld) (rotated : Rotated)
      → (rotate_found host (durable server settings) current r w).0 ≡ ok rotated
      → (active_at r (host.now w.reads.clock) ≡ true)
        × (rotate_found host (durable server settings) current r w
            ≡ rotate_loop host
                (durable server settings)
                creation_attempts
                current
                r.subject_id
                (host.now w.reads.clock)
                (read_now host (durable server settings) w).1)
  unfolding rotate_found
  rotate_found-runs current r w rotated e = (ground arith, ground arith)

  rotate_hash-Rotates :
      (current : Hash) (w : DurableWorld) (rotated : Rotated)
      → (rotate_hash host (durable server settings) current w).0 ≡ ok rotated
      → Rotates current rotated w (rotate_hash host (durable server settings) current w).1
  unfolding rotate_hash
  rotate_hash-Rotates current w rotated e =
      let m = durable server settings in
      let (row, found, rest, left) =
        bind-ok (on_store (find_by_token_hash server current)) (rotate_found host m current) w e in
      let w₁ : DurableWorld = record w {
        stored = (find_by_token_hash server current w.stored).1;
      } in
      let (active, runs) = rotate_found-runs current row w₁ rotated rest in
      record {
        row = row;
        found = (find-view server current row w.stored found).0;
        active = active;
        leaves = rw (left ∙ runs) (
            rotate_loop-Ends creation_attempts current row.subject_id _ _ rotated
              (rw runs at rest));
      }

  rotate-hashed :
      (raw : Bytes) (h : Hash) (w : DurableWorld)
      → Token.hash_token host raw ≡ ok h
      → rotate host (durable server settings) raw w ≡ rotate_hash host (durable server settings) h w
  unfolding rotate
  rotate-hashed raw h w e = rw e

  -- A successful `Rotate` has found an active session under the presented token. It leaves that
  -- session revoked, and a session of the same subject under the returned token, which `HashToken`
  -- accepts.
  pub rotate-Rotates :
      (raw : Bytes) (w : DurableWorld) (rotated : Rotated)
      → (rotate host (durable server settings) raw w).0 ≡ ok rotated
      → (h : Hash) × (Token.hash_token host raw ≡ ok h)
        × Rotates h rotated w (rotate host (durable server settings) raw w).1
  rotate-Rotates raw w rotated e = elim (Result-cases (Token.hash_token host raw)) [
    | inr (x, bad) ↦ absurd (unfold rotate in ground arith)
    | inl (h, good) ↦
        let same = rotate-hashed raw h w good in
        (h, good, rw same (rotate_hash-Rotates h w rotated (rw same at e)))
  ]

  -- After a successful `Rotate`, and any history of the store that follows, `Resolve` refuses the
  -- old token.
  pub resolve-rotate :
      (raw : Bytes) (w w' : DurableWorld) (rotated : Rotated)
      → (rotate host (durable server settings) raw w).0 ≡ ok rotated
      → Reach server (rotate host (durable server settings) raw w).1.stored w'.stored
      → (r : Record) → (resolve host (durable server settings) raw w').0 ≢ ok r
  resolve-rotate raw w w' rotated e reach r found =
      let (h, good, ends) = rotate-Rotates raw w rotated e in
      let left = ends.leaves in
      elim (Option-cases left.old.revoked_at) [
        | inl never ↦ cc left.old_ended
        | inr (t, at) ↦
            resolve_revoked host server settings raw h left.old t
              (rotate host (durable server settings) raw w).1.stored w' good left.old_found at reach
              r found
      ]
