-- ===== src/Postgres/RefreshTokens/Outcomes.antt =====
-- What `Rotate` and `RevokeSession` of the refresh-token store do to the tables, on every outcome.
use authlier.Common.{
  ℕ, ◌+◌, ◌≡◌, ◌≢◌, true, false, Option, some, String, ◌∷◌, arith, ◌==◌, ◌⊎◌, ◌||◌, bytes_eq,
  string_eq, any, find?, update_where, Option-cases, inl, inr,
}
use authlier.Clock.{Time}
use authlier.Exec.{ok, err, Result-cases}
use authlier.Host.{Hash}
use authlier.RefreshToken.{Record, active_at, other, reuse_detected}
use authlier.Postgres.{AccessSession, Tables, Db, Server, transaction}
use authlier.Postgres.Statements.{transaction-ok, transaction-err, transaction-left, after_begin}
use authlier.Postgres.RefreshTokens.{
  has_hash, of_session, revoke_token, revoke_access, fresh_row, select_token, insert_token,
  set_rotated, update_session, update_tokens, revoke_access_session, rotate_body,
  rotate_transaction, rotate, Outcome, replaced, reused,
}

-- The refresh token of a hash, and the access session of an id.
abbrev pub token_view : Tables → Hash → Option Record
token_view t h = find? (has_hash h) t.refresh_tokens

abbrev pub session_view : Tables → String → Option AccessSession
session_view t id = find? (λ s. s.id == id) t.access_sessions

-- The tables after the end of a session: its row and all its tokens are revoked.
abbrev pub end_session : String → Time → Tables → Tables
end_session session_id at t = record t {
  access_sessions = update_where (λ s. s.id == session_id) (revoke_access at) t.access_sessions;
  refresh_tokens = update_where (of_session session_id) (revoke_token at) t.refresh_tokens;
}

abbrev pub rotate_now : Time → Record → Record
rotate_now at r = record r { rotated_at = some at }

-- The tables after a rotation.
abbrev pub replace_token : Hash → Record → Time → Tables → Tables
replace_token current replacement at t = record t {
  refresh_tokens =
      update_where (has_hash current) (rotate_now at) (fresh_row replacement ∷ t.refresh_tokens);
}

-- What the statements of a rotation have found and left, by their outcome.
abbrev Ran : Hash → Record → Time → Tables → Record → Tables → Outcome → Type 0
Ran current replacement at t row t' replaced =
    (active_at row at ≡ true)
    × (any (has_hash replacement.token_hash) t.refresh_tokens ≡ false)
    × (t' ≡ replace_token current replacement at t)
Ran current replacement at t row t' reused =
    (active_at row at ≡ false) × (t' ≡ end_session row.session_id at t)

module _ (server : Server) where
  pub revoke_access_session-left :
      (id : String) (at : Time) (db : Db)
      → (revoke_access_session server id at db).0 ≡ ok tt
      → (revoke_access_session server id at db).1.tables ≡ end_session id at db.tables
  unfolding revoke_access_session update_session update_tokens
  revoke_access_session-left id at db e = ground arith

  rotate_body-Ran :
      (current : Hash) (replacement : Record) (at : Time) (db : Db) (outcome : Outcome)
      → (rotate_body server current replacement at db).0 ≡ ok outcome
      → (row : Record) × (token_view db.tables current ≡ some row)
        × Ran current replacement at db.tables row
            (rotate_body server current replacement at db).1.tables
            outcome
  unfolding rotate_body select_token insert_token set_rotated active_at
  rotate_body-Ran current replacement at db replaced e =
      elim (Option-cases (token_view db.tables current)) [
        | inl none_found ↦ absurd (ground arith)
        | inr (row, found) ↦ (row, found, ground arith)
      ]
  rotate_body-Ran current replacement at db reused e =
      elim (Option-cases (token_view db.tables current)) [
        | inl none_found ↦ absurd (ground arith)
        | inr (row, found) ↦ (row, found, ground arith)
      ]

  rotate_body-ne-reuse :
      (current : Hash) (replacement : Record) (at : Time) (db : Db)
      → (rotate_body server current replacement at db).0 ≢ err reuse_detected
  unfolding rotate_body
  rotate_body-ne-reuse current replacement at db e = ground arith

  rotate_transaction-Ran :
      (current : Hash) (replacement : Record) (at : Time) (db : Db) (outcome : Outcome)
      → (rotate_transaction server current replacement at db).0 ≡ ok outcome
      → (row : Record) × (token_view db.tables current ≡ some row)
        × Ran current replacement at db.tables row
            (rotate_transaction server current replacement at db).1.tables
            outcome
  unfolding rotate_transaction
  rotate_transaction-Ran current replacement at db outcome e =
      let (ran, kept) =
        transaction-ok server other (rotate_body server current replacement at) db e in
      let (row, found, left) =
        rotate_body-Ran current replacement at (after_begin db) outcome ran in
      (row, found, rw kept left)

  pub rotate-replaces :
      (current : Hash) (replacement : Record) (at : Time) (db : Db)
      → (rotate server current replacement at db).0 ≡ ok tt
      → (row : Record) × (token_view db.tables current ≡ some row)
        × (active_at row at ≡ true)
        × (any (has_hash replacement.token_hash) db.tables.refresh_tokens ≡ false)
        × ((rotate server current replacement at db).1.tables
            ≡ replace_token current replacement at db.tables)
  unfolding rotate
  rotate-replaces current replacement at db e =
      let ran : (rotate_transaction server current replacement at db).0 ≡ ok replaced =
        ground arith in
      let (row, found, left) = rotate_transaction-Ran current replacement at db replaced ran in
      (row, found, left.0, left.1, ground (arith, left.2))

  pub rotate-reuse :
      (current : Hash) (replacement : Record) (at : Time) (db : Db)
      → (rotate server current replacement at db).0 ≡ err reuse_detected
      → (row : Record) × (token_view db.tables current ≡ some row)
        × (active_at row at ≡ false)
        × ((rotate server current replacement at db).1.tables
            ≡ end_session row.session_id at db.tables)
  unfolding rotate
  rotate-reuse current replacement at db e =
      elim (Result-cases (rotate_transaction server current replacement at db).0) [
        | inl (replaced, ran) ↦ absurd (ground arith)
        | inl (reused, ran) ↦
            let (row, found, left) = rotate_transaction-Ran current replacement at db reused ran in
            (row, found, left.0, ground (arith, left.1))
        | inr (f, failed) ↦
            (elim (transaction-err server other (rotate_body server current replacement at) db f
              (unfold rotate_transaction in failed)) [
                | inl (x, wrapped) ↦ absurd (ground arith)
                | inr body ↦
                    absurd
                      (rotate_body-ne-reuse current replacement at (after_begin db) (ground arith))
              ])
      ]

  pub rotate-leaves :
      (current : Hash) (replacement : Record) (at : Time) (db : Db)
      → let after = (rotate server current replacement at db).1 in
        (after.tables ≡ db.tables)
        ⊎ ((row : Record) × (token_view db.tables current ≡ some row)
            × (((active_at row at ≡ true)
                  × (any (has_hash replacement.token_hash) db.tables.refresh_tokens ≡ false)
                  × (after.tables ≡ replace_token current replacement at db.tables))
                ⊎ ((active_at row at ≡ false)
                    × (after.tables ≡ end_session row.session_id at db.tables))))
  unfolding rotate rotate_transaction
  rotate-leaves current replacement at db =
      let body = rotate_body server current replacement at in
      elim (transaction-left server other body db) [
        | inl same ↦ inl (ground arith)
        | inr (replaced, ran, e) ↦
            let (row, found, left) =
              rotate_body-Ran current replacement at (after_begin db) replaced ran in
            inr (row, found, inl (left.0, left.1, ground (arith, left.2)))
        | inr (reused, ran, e) ↦
            let (row, found, left) =
              rotate_body-Ran current replacement at (after_begin db) reused ran in
            inr (row, found, inr (left.0, ground (arith, left.1)))
      ]

  -- On a server that answers every statement, `Rotate` of a token that was rotated, revoked or has
  -- expired reports the reuse.
  pub rotate-detects :
      (current : Hash) (replacement row : Record) (at : Time) (db : Db)
      → ((n : ℕ) → server.fails n || server.loses n ≡ false)
      → token_view db.tables current ≡ some row
      → active_at row at ≡ false
      → (rotate server current replacement at db).0 ≡ err reuse_detected
  unfolding rotate rotate_transaction transaction rotate_body select_token active_at
      revoke_access_session update_session update_tokens
  rotate-detects current replacement row at db up found ended =
      let n = db.statements in ground (arith, up n, up (1 + n), up (2 + n), up (3 + n), up (4 + n))

  -- On a server that answers every statement, `Rotate` of an active token to a free hash of a stored
  -- session succeeds.
  pub rotate-succeeds :
      (current : Hash) (replacement row : Record) (at : Time) (db : Db)
      → ((n : ℕ) → server.fails n || server.loses n ≡ false)
      → token_view db.tables current ≡ some row
      → active_at row at ≡ true
      → any (has_hash replacement.token_hash) db.tables.refresh_tokens ≡ false
      → any (λ s. s.id == replacement.session_id) db.tables.access_sessions ≡ true
      → (rotate server current replacement at db).0 ≡ ok tt
  unfolding rotate rotate_transaction transaction rotate_body select_token active_at insert_token
      set_rotated
  rotate-succeeds current replacement row at db up found active free stored =
      let n = db.statements in ground (arith, up n, up (1 + n), up (2 + n), up (3 + n), up (4 + n))
