-- ===== src/Postgres/RefreshTokens/Life/Steps.antt =====
-- Every operation on refresh tokens and access sessions, seen as a step in the life of each token.
use authlier.Common.{
  Bool-cases, ◌==◌, ◌≡◌, refl, ◌∙◌, ap, ◌&&◌, String, arith, bytes_eq, string_eq, any, inl, inr,
}
use authlier.Clock.{Time}
use authlier.Exec.{ok, Fault, Exec, rethrow}
use authlier.Host.{Hash}
use authlier.RefreshToken.{other, Record}
use authlier.Postgres.{AccessSession, Tables, Db, Server, statement, transaction}
use authlier.Postgres.Statements.{rethrow-ok}
use authlier.Postgres.Preserving.{
  IsHistory, Preserves, statement-Preserves, bind-Preserves, transaction-Preserves,
  committed-Preserves, rethrow-Preserves,
}
use authlier.Postgres.RefreshTokens.{
  has_hash, revoke_token, insert_token, revoke_access_session, create, find_by_token_hash, rotate,
  revoke_session, conflict_if_unique,
}
use authlier.Postgres.AccessSessions
use authlier.Postgres.AccessSessions.{unchanged, has_id, of_subject}
use authlier.Postgres.RefreshTokens.Outcomes.{revoke_access_session-left, rotate-leaves}
use authlier.Postgres.RefreshTokens.Life.{
  Later, Later-same, Later-trans, Later-insert, Later-update, revoke_token-Evolves,
  end_session-Later, replace_token-Later,
}

Later-history : IsHistory Later
Later-history = record {
  same = λ t t' e. Later-same t t' (ap (λ (x : Tables). x.refresh_tokens) e);
  trans = Later-trans;
}

insert_token-Later : (r : Record) (t : Tables) → Later t (insert_token r t).1
unfolding insert_token
insert_token-Later r t = elim (Bool-cases (any (has_hash r.token_hash) t.refresh_tokens)) [
  | inl taken ↦ Later-same t _ (ground arith)
  | inr free ↦ elim (Bool-cases (any (λ s. s.id == r.session_id) t.access_sessions)) [
    | inl stored ↦ Later-insert t _ r (ground arith) free
    | inr absent ↦ Later-same t _ (ground arith)
  ]
]

update_tokens_of-Later :
    (subject_id : String) (at : Time) (t : Tables)
    → Later t (AccessSessions.update_tokens_of subject_id at t).1
unfolding AccessSessions.update_tokens_of
update_tokens_of-Later subject_id at t =
    Later-update t _
      (λ r. any (λ s. has_id r.session_id s && of_subject subject_id s) t.access_sessions)
      (revoke_token at) refl (revoke_token-Evolves at) (λ h r. refl)

module _ (server : Server) where
  create-Later : (r : Record) → Preserves Later (create server r)
  unfolding create
  create-Later r =
      rethrow-Preserves conflict_if_unique (statement server (insert_token r))
        (statement-Preserves Later-history server (insert_token r) (insert_token-Later r))

  rotate-Later :
      (current : Hash) (new : Record) (at : Time) (db : Db)
      → Later db.tables (rotate server current new at db).1.tables
  rotate-Later current new at db = elim (rotate-leaves server current new at db) [
    | inl e ↦ Later-history.same db.tables _ e
    | inr (row, _, inl (_, free, e)) ↦ replace_token-Later current new at db.tables _ free e
    | inr (row, _, inr (_, e)) ↦ end_session-Later row.session_id at db.tables _ e
  ]

  -- The transaction that ends one session, with its errors wrapped or not.
  ending-Later :
      {E : Type 0} (wrap : Fault → E) (body : Exec Db E (Unit {0})) (id : String) (at : Time)
      → ((db : Db)
          → (body db).0 ≡ ok tt
          → (revoke_access_session server id at db).0 ≡ ok tt
            × ((body db).1.tables ≡ (revoke_access_session server id at db).1.tables))
      → Preserves Later (transaction server wrap body)
  ending-Later wrap body id at same =
      committed-Preserves Later-history server wrap body (λ db _ ran.
        let (ended, e) = same db ran in
        end_session-Later id at db.tables _ (e ∙ revoke_access_session-left server id at db ended))

  revoke_session-Later : (id : String) (at : Time) → Preserves Later (revoke_session server id at)
  unfolding revoke_session
  revoke_session-Later id at =
      ending-Later other (rethrow other (revoke_access_session server id at)) id at
        (λ db ran. (rethrow-ok other (revoke_access_session server id at) db ran, refl))

  revoke-Later : (id : String) (at : Time) → Preserves Later (AccessSessions.revoke server id at)
  unfolding AccessSessions.revoke
  revoke-Later id at =
      ending-Later unchanged (revoke_access_session server id at) id at (λ db ran. (ran, refl))

  create_session-Later :
      (s : AccessSession) (r : Record) → Preserves Later (AccessSessions.create_session server s r)
  unfolding AccessSessions.create_session AccessSessions.create_session_body
      AccessSessions.insert_access_session
  create_session-Later s r =
      let add = AccessSessions.insert_access_session s in
      transaction-Preserves Later-history server unchanged _ (
        bind-Preserves Later-history (statement server add) (λ _. statement server (insert_token r))
          (statement-Preserves Later-history server add (λ t. Later-same t _ (ground arith)))
          (λ _. statement-Preserves Later-history server (insert_token r) (insert_token-Later r)))

  revoke_all-Later :
      (subject_id : String) (at : Time)
      → Preserves Later (AccessSessions.revoke_all server subject_id at)
  unfolding AccessSessions.revoke_all AccessSessions.revoke_all_body
      AccessSessions.update_sessions_of
  revoke_all-Later subject_id at =
      let tokens = AccessSessions.update_tokens_of subject_id at in
      let sessions = AccessSessions.update_sessions_of subject_id at in
      transaction-Preserves Later-history server unchanged _ (
        bind-Preserves Later-history (statement server tokens) (λ _. statement server sessions)
          (statement-Preserves Later-history server tokens (update_tokens_of-Later subject_id at))
          (λ _. statement-Preserves Later-history server sessions (λ t. Later-same t _ refl)))

  -- One call of an operation on refresh tokens or access sessions, whatever it returned.
  pub data Step : Db → Db → Type 0 where
    creates : (r : Record) (db : Db) → Step db (create server r db).1
    finds : (h : Hash) (db : Db) → Step db (find_by_token_hash server h db).1
    rotates : (h : Hash) (r : Record) (t : Time) (db : Db) → Step db (rotate server h r t db).1
    revokes : (id : String) (t : Time) (db : Db) → Step db (revoke_session server id t db).1
    creates_session :
        (s : AccessSession) (r : Record) (db : Db)
        → Step db (AccessSessions.create_session server s r db).1
    resolves_session :
        (id : String) (db : Db) → Step db (AccessSessions.resolve_session server id db).1
    lists_sessions : (s : String) (db : Db) → Step db (AccessSessions.list_by_subject server s db).1
    revokes_session :
        (id : String) (t : Time) (db : Db) → Step db (AccessSessions.revoke server id t db).1
    revokes_all :
        (s : String) (t : Time) (db : Db) → Step db (AccessSessions.revoke_all server s t db).1

  pub data Reach (db : Db) : Db → Type 0 where
    here : Reach db db
    next : {a b : Db} → Reach db a → Step a b → Reach db b

  find-Later : (h : Hash) (db : Db) → Later db.tables (find_by_token_hash server h db).1.tables
  unfolding find_by_token_hash
  find-Later h db = Later-same db.tables _ (ground arith)

  resolve_session-Later :
      (id : String) (db : Db)
      → Later db.tables (AccessSessions.resolve_session server id db).1.tables
  unfolding AccessSessions.resolve_session
  resolve_session-Later id db = Later-same db.tables _ (ground arith)

  list-Later :
      (s : String) (db : Db) → Later db.tables (AccessSessions.list_by_subject server s db).1.tables
  unfolding AccessSessions.list_by_subject
  list-Later s db = Later-same db.tables _ (ground arith)

  Step-Later : {a b : Db} → Step a b → Later a.tables b.tables
  Step-Later (creates r db) = (create-Later r).keeps db
  Step-Later (finds h db) = find-Later h db
  Step-Later (rotates h r t db) = rotate-Later h r t db
  Step-Later (revokes id t db) = (revoke_session-Later id t).keeps db
  Step-Later (creates_session s r db) = (create_session-Later s r).keeps db
  Step-Later (resolves_session id db) = resolve_session-Later id db
  Step-Later (lists_sessions s db) = list-Later s db
  Step-Later (revokes_session id t db) = (revoke-Later id t).keeps db
  Step-Later (revokes_all s t db) = (revoke_all-Later s t).keeps db

  -- Over any history of operations, successful or not, every refresh token is kept, with its session
  -- and its expiry; a rotation or a revocation is for ever.
  pub tokens-Later : {a b : Db} → Reach a b → Later a.tables b.tables
  tokens-Later {a} here = Later-same a.tables a.tables refl
  tokens-Later {a} {b} (next {a = m} r s) =
      Later-trans a.tables m.tables b.tables (tokens-Later r) (Step-Later s)
