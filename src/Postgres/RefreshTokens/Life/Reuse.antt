-- ===== src/Postgres/RefreshTokens/Life/Reuse.antt =====
-- Reuse of refresh tokens over any history of the store's operations.
use authlier.Common.{
  ◌≡◌, ◌≢◌, refl, ◌∙◌, sym, ap, true, false, Option, none, some, String, arith, bytes_eq, string_eq,
  bytes_beq_iff, any, ==-refl, Bool-cases, inl, inr, find?-update_where, any-find?, find?-passes,
}
use mathlib.Core.Option.{some-injective}
use authlier.Clock.{Time}
use authlier.Exec.{ok, err}
use authlier.Host.{Hash}
use authlier.RefreshToken.{reuse_detected, Record, active_at}
use authlier.Postgres.{Tables, Db, Server}
use authlier.Postgres.RefreshTokens.{has_hash, of_session, revoke_token, rotate}
use authlier.Postgres.Sessions.{coalesce}
use authlier.Postgres.RefreshTokens.Outcomes.{
  token_view, end_session, replace_token, rotate_now, rotate-replaces, rotate-reuse,
}
use authlier.Postgres.RefreshTokens.Life.{Later}
use authlier.Postgres.RefreshTokens.Life.Steps.{Reach, tokens-Later}

-- After a rotation, the old token is there and is rotated.
replace_token-marks :
    (h : Hash) (new : Record) (at : Time) (t : Tables) (row : Record)
    → token_view t h ≡ some row
    → any (has_hash new.token_hash) t.refresh_tokens ≡ false
    → token_view (replace_token h new at t) h ≡ some (rotate_now at row)
replace_token-marks h new at t row found free =
    let hit = find?-passes (has_hash h) t.refresh_tokens row found in
    let shows =
      find?-update_where (has_hash h) (has_hash h) (rotate_now at) t.refresh_tokens (λ r. refl) in
    elim (Bool-cases (has_hash h new)) [
      | inl same ↦
          let present = any-find? (has_hash h) t.refresh_tokens row found in
          absurd (
            ground (
              arith,
              ap (λ x. any (has_hash x) t.refresh_tokens) ((bytes_beq_iff new.token_hash h).0 same),
            ))
      | inr differs ↦ ground arith
    ]

coalesce-set : (o : Option Time) (at : Time) → (t : Time) × (coalesce o at ≡ some t)
coalesce-set none at = (at, refl)
coalesce-set (some t) at = (t, refl)

-- After the end of a session, each of its tokens is there and is revoked.
end_session-marks :
    (h : Hash) (at : Time) (t : Tables) (row : Record) (id : String)
    → row.session_id ≡ id
    → token_view t h ≡ some row
    → token_view (end_session id at t) h ≡ some (revoke_token at row)
end_session-marks h at t row id same found =
    let shows =
      find?-update_where (has_hash h) (of_session id) (revoke_token at) t.refresh_tokens
        (λ r. refl) in
    let chosen : of_session id row ≡ true = rw same (==-refl id) in ground (arith, chosen)

module _ (server : Server) where
  -- A refresh token rotates once: after a successful `Rotate` and any history of operations, another
  -- `Rotate` of the same token does not succeed.
  pub rotate_once :
      (h : Hash) (new new' : Record) (at at' : Time) (a b : Db)
      → (rotate server h new at a).0 ≡ ok tt
      → Reach server (rotate server h new at a).1 b
      → (rotate server h new' at' b).0 ≢ ok tt
  unfolding Later active_at
  rotate_once h new new' at at' a b done reach again =
      let (row, found, _, free, left) = rotate-replaces server h new at a done in
      let marked =
        ap (λ t. token_view t h) left ∙ replace_token-marks h new at a.tables row found free in
      let (row', found', v) = tokens-Later server reach h (rotate_now at row) marked in
      let (row'', found'', active, _, _) = rotate-replaces server h new' at' b again in
      let same = some-injective _ _ (sym found' ∙ found'') in ground (arith, v.rotation refl)

  -- When a reuse is detected, after any history of operations no token that the session had then
  -- rotates.
  pub family_dead :
      (h h' : Hash) (new new' row row' : Record) (at at' : Time) (a b : Db)
      → (rotate server h new at a).0 ≡ err reuse_detected
      → token_view a.tables h ≡ some row
      → token_view a.tables h' ≡ some row'
      → row'.session_id ≡ row.session_id
      → Reach server (rotate server h new at a).1 b
      → (rotate server h' new' at' b).0 ≢ ok tt
  unfolding Later active_at
  family_dead h h' new new' row row' at at' a b reused found found' same reach again =
      let (first, found_first, _, left) = rotate-reuse server h new at a reused in
      let same_row = some-injective _ _ (sym found_first ∙ found) in
      let ended =
        end_session-marks h' at a.tables row' first.session_id
          (same ∙ ap (λ (r : Record). r.session_id) (sym same_row)) found' in
      let (later, found_later, v) =
        tokens-Later server reach h' (revoke_token at row')
          (ap (λ t. token_view t h') left ∙ ended) in
      let (last, found_last, active, _, _) = rotate-replaces server h' new' at' b again in
      let same_last = some-injective _ _ (sym found_later ∙ found_last) in
      let (t, revoked) = coalesce-set row'.revoked_at at in ground (arith, v.revocation t revoked)
