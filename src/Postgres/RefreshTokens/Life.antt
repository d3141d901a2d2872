-- ===== src/Postgres/RefreshTokens/Life.antt =====
-- The life of a refresh token over any history of the store's operations: once rotated or revoked it
-- stays so, and its session and expiry never change.
pub mod Steps
pub mod Reuse
use authlier.Common.{
  ◌≡◌, ◌≢◌, refl, ◌∙◌, sym, ap, Bool, true, false, ◌&&◌, Option, none, some, String, List, [], ◌∷◌,
  arith, ◌==◌, bytes_eq, string_eq, bytes_beq_iff, any, find?, update_where, is_set, Bool-cases,
  inl, inr, find?-update_where, find?-none, find?-passes, if◌then◌else◌,
}
use authlier.Clock.{Time}
use authlier.Exec.{Result, ok, err, Exec, rethrow, Result-cases}
use authlier.Host.{Hash}
use authlier.RefreshToken.{
  Error, conflict, inactive, invalid_config, invalid_record, invalid_token, not_found,
  reuse_detected, other, Record, active_at,
}
use authlier.Postgres.{AccessSession, Tables, Db, Server, transaction}
use authlier.Postgres.RefreshTokens.{
  has_hash, of_session, revoke_token, fresh_row, insert_token, revoke_access_session, create,
  rotate, revoke_session,
}
use authlier.Postgres.AccessSessions
use authlier.Postgres.AccessSessions.{unchanged, has_id, of_subject}
use authlier.Postgres.RefreshTokens.Outcomes.{
  token_view, end_session, rotate_now, replace_token, revoke_access_session-left, rotate-replaces,
  rotate-reuse,
}

-- `r'` is a later state of the token `r`.
pub record Evolves (r r' : Record) : Type 0 where
  pub same_session : r'.session_id ≡ r.session_id
  pub same_hash : r'.token_hash ≡ r.token_hash
  pub same_creation : r'.created_at ≡ r.created_at
  pub same_expiry : r'.expires_at ≡ r.expires_at
  pub rotation : is_set r.rotated_at ≡ true → is_set r'.rotated_at ≡ true
  pub revocation : (t : Time) → r.revoked_at ≡ some t → r'.revoked_at ≡ some t

pub Evolves-refl : (r : Record) → Evolves r r
Evolves-refl r = record {
  same_session = refl;
  same_hash = refl;
  same_creation = refl;
  same_expiry = refl;
  rotation = λ e. e;
  revocation = λ t e. e;
}

Evolves-trans : (r r' r'' : Record) → Evolves r r' → Evolves r' r'' → Evolves r r''
Evolves-trans r r' r'' a b = record {
  same_session = cc;
  same_hash = cc;
  same_creation = cc;
  same_expiry = cc;
  rotation = λ e. b.rotation (a.rotation e);
  revocation = λ t e. b.revocation t (a.revocation t e);
}

-- Every token of `t` is still there in `t'`, in a later state.
pub Later : Tables → Tables → Type 0
Later t t' =
    (h : Hash) (r : Record)
    → token_view t h ≡ some r
    → (r' : Record) × (token_view t' h ≡ some r') × Evolves r r'

pub Later-same : (t t' : Tables) → t'.refresh_tokens ≡ t.refresh_tokens → Later t t'
unfolding Later
Later-same t t' e h r found = (r, rw e found, Evolves-refl r)

pub Later-trans : (t t' t'' : Tables) → Later t t' → Later t' t'' → Later t t''
unfolding Later
Later-trans t t' t'' a b h r e =
    let (r', e', v') = a h r e in
    let (r'', e'', v'') = b h r' e' in (r'', e'', Evolves-trans r r' r'' v' v'')

-- A new token under a free hash.
pub Later-insert :
    (t t' : Tables) (new : Record)
    → t'.refresh_tokens ≡ new ∷ t.refresh_tokens
    → any (has_hash new.token_hash) t.refresh_tokens ≡ false
    → Later t t'
unfolding Later
Later-insert t t' new added free h r e =
    let absent = find?-none (has_hash new.token_hash) t.refresh_tokens free in
    (
      r,
      rw added (ground (arith, e, absent, bytes_beq_iff new.token_hash h, ap (token_view t))),
      Evolves-refl r,
    )

-- An update of some rows, each of which evolves.
pub Later-update :
    (t t' : Tables) (q : Record → Bool) (f : Record → Record)
    → t'.refresh_tokens ≡ update_where q f t.refresh_tokens
    → ((r : Record) → Evolves r (f r))
    → ((h : Hash) (r : Record) → has_hash h (f r) ≡ has_hash h r)
    → Later t t'
unfolding Later
Later-update t t' q f updated grows keeps h r e =
    let shows = find?-update_where (has_hash h) q f t.refresh_tokens (keeps h) in
    elim (Bool-cases (q r)) [
      | inl hit ↦ (f r, rw updated (ground arith), grows r)
      | inr miss ↦ (r, rw updated (ground arith), Evolves-refl r)
    ]

pub revoke_token-Evolves : (at : Time) (r : Record) → Evolves r (revoke_token at r)
revoke_token-Evolves at r = record {
  same_session = refl;
  same_hash = refl;
  same_creation = refl;
  same_expiry = refl;
  rotation = λ e. e;
  revocation = λ t e. ground arith;
}

rotate_now-Evolves : (at : Time) (r : Record) → Evolves r (rotate_now at r)
rotate_now-Evolves at r = record {
  same_session = refl;
  same_hash = refl;
  same_creation = refl;
  same_expiry = refl;
  rotation = λ e. refl;
  revocation = λ t e. e;
}

pub end_session-Later :
    (id : String) (at : Time) (t t' : Tables) → t' ≡ end_session id at t → Later t t'
end_session-Later id at t t' e =
    Later-update t t' (of_session id) (revoke_token at) (ap (λ (x : Tables). x.refresh_tokens) e)
      (revoke_token-Evolves at) (λ h r. refl)

pub replace_token-Later :
    (current : Hash) (new : Record) (at : Time) (t t' : Tables)
    → any (has_hash new.token_hash) t.refresh_tokens ≡ false
    → t' ≡ replace_token current new at t
    → Later t t'
replace_token-Later current new at t t' free e =
    let added : Tables = record t { refresh_tokens = fresh_row new ∷ t.refresh_tokens } in
    Later-trans t added t' (Later-insert t added (fresh_row new) refl free) (
      Later-update added t' (has_hash current) (rotate_now at)
        (ap (λ (x : Tables). x.refresh_tokens) e) (rotate_now-Evolves at) (λ h r. refl))
