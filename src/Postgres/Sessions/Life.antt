-- ===== src/Postgres/Sessions/Life.antt =====
-- The life of a stored session over any history of the store's operations: it is never deleted, its
-- identity never changes, its expiry never moves back, and a revocation is for ever.
use mathlib.Core.Option
use authlier.Common.{
  ◌≡◌, refl, ap, ◌≤◌, Bool, true, false, none, some, String, arith, bytes_eq, bytes_beq_iff,
  find?-none, any-or_left, sym, ◌∙◌, ◌==◌, string_eq, if◌then◌else◌, inl, inr, Bool-cases,
}
use authlier.Clock.{Time}
use authlier.Exec.{ok, pure, raise, rethrow}
use authlier.Host.{Hash}
use authlier.SessionToken.{Record, active_at, other, not_found}
use authlier.Postgres.{Tables, Db, Server, statement}
use authlier.Postgres.Preserving.{
  IsHistory, Preserves, pure-Preserves, raise-Preserves, statement-Preserves, bind-Preserves,
  if-Preserves, committed-Preserves, rethrow-Preserves,
}
use authlier.Postgres.Sessions.{
  has_hash, mark_revoked, revoke_now, extendable, extended_row, of_subject, insert_session,
  update_revoked, update_subject, update_extended, conflict_if_unique, inactive_if_none, create,
  extend, rotate, rotate_body, revoke, revoke_all, find_by_token_hash, list_by_subject,
}
use authlier.Postgres.Sessions.View.{view, view-update_where, hash_of_view, rotate_body-view}

-- `r'` is a later state of the session `r`.
pub record Evolves (r r' : Record) : Type 0 where
  pub same_id : r'.id ≡ r.id
  pub same_subject : r'.subject_id ≡ r.subject_id
  pub same_hash : r'.token_hash ≡ r.token_hash
  pub same_creation : r'.created_at ≡ r.created_at
  pub expiry : r.expires_at ≤ r'.expires_at
  pub revocation : (t : Time) → r.revoked_at ≡ some t → r'.revoked_at ≡ some t
  pub end_of_life : (t : Time) → r.revoked_at ≡ some t → r'.expires_at ≡ r.expires_at

Evolves-refl : (r : Record) → Evolves r r
Evolves-refl r = record {
  same_id = refl;
  same_subject = refl;
  same_hash = refl;
  same_creation = refl;
  expiry = omega arith;
  revocation = λ t e. e;
  end_of_life = λ t e. refl;
}

Evolves-trans : (r r' r'' : Record) → Evolves r r' → Evolves r' r'' → Evolves r r''
Evolves-trans r r' r'' a b = record {
  same_id = cc;
  same_subject = cc;
  same_hash = cc;
  same_creation = cc;
  expiry = omega arith;
  revocation = λ t e. b.revocation t (a.revocation t e);
  end_of_life = λ t e. cc (b.end_of_life t (a.revocation t e), a.end_of_life t e);
}

-- Every session of `t` is still there in `t'`, in a later state.
pub Later : Tables → Tables → Type 0
Later t t' =
    (h : Hash) (r : Record)
    → view t h ≡ some r
    → (r' : Record) × (view t' h ≡ some r') × Evolves r r'

Later-refl : (t : Tables) → Later t t
unfolding Later
Later-refl t h r e = (r, e, Evolves-refl r)

Later-same : (t t' : Tables) → t' ≡ t → Later t t'
Later-same t t' e = rw e (Later-refl t)

Later-trans : (t t' t'' : Tables) → Later t t' → Later t' t'' → Later t t''
unfolding Later
Later-trans t t' t'' a b h r e =
    let (r', e', v') = a h r e in
    let (r'', e'', v'') = b h r' e' in (r'', e'', Evolves-trans r r' r'' v' v'')

-- An update of some rows, each of which evolves.
Later-map :
    (t t' : Tables) (q : Record → Bool) (f : Record → Record)
    → ((r : Record) → q r ≡ true → Evolves r (f r))
    → ((h : Hash) → view t' h ≡ Option.map (λ r. if q r then f r else r) (view t h))
    → Later t t'
unfolding Later
Later-map t t' q f grows shows h r e = elim (Bool-cases (q r)) [
  | inl hit ↦ (f r, ground (arith, shows h), grows r hit)
  | inr miss ↦ (r, ground (arith, shows h), Evolves-refl r)
]

mark_revoked-Evolves : (at : Time) (r : Record) → Evolves r (mark_revoked at r)
mark_revoked-Evolves at r = record {
  same_id = refl;
  same_subject = refl;
  same_hash = refl;
  same_creation = refl;
  expiry = omega arith;
  revocation = λ t e. ground arith;
  end_of_life = λ t e. refl;
}

extended_row-Evolves :
    (h : Hash) (t u : Time) (r : Record)
    → extendable h t u r ≡ true
    → Evolves r (extended_row t u r)
extended_row-Evolves h t u r e = record {
  same_id = refl;
  same_subject = refl;
  same_hash = refl;
  same_creation = refl;
  expiry = ground arith;
  revocation = λ x y. y;
  end_of_life = λ x y. absurd (ground arith);
}

revoke_now-Evolves : (at : Time) (r : Record) → r.revoked_at ≡ none → Evolves r (revoke_now at r)
revoke_now-Evolves at r fresh = record {
  same_id = refl;
  same_subject = refl;
  same_hash = refl;
  same_creation = refl;
  expiry = omega arith;
  revocation = λ t e. absurd (ground arith);
  end_of_life = λ t e. refl;
}

Later-history : IsHistory Later
Later-history = record { same = Later-same; trans = Later-trans }

insert-Later : (r : Record) (t : Tables) → Later t (insert_session r t).1
unfolding Later insert_session
insert-Later r t h x e = (
  x,
  ground (
    arith,
    any-or_left (has_hash r.token_hash) (λ s. s.id == r.id) t.sessions,
    find?-none (has_hash r.token_hash) t.sessions,
    bytes_beq_iff r.token_hash h,
    ap (view t),
  ),
  Evolves-refl x,
)

module _ (server : Server) where
  create-Later : (r : Record) → Preserves Later (create server r)
  unfolding create
  create-Later r =
      rethrow-Preserves conflict_if_unique (statement server (insert_session r))
        (statement-Preserves Later-history server (insert_session r) (insert-Later r))

  revoke-Later : (h : Hash) (at : Time) → Preserves Later (revoke server h at)
  unfolding revoke update_revoked
  revoke-Later h at =
      bind-Preserves Later-history (rethrow other (statement server (update_revoked h at))) _
        (rethrow-Preserves other (statement server (update_revoked h at)) (
          statement-Preserves Later-history server (update_revoked h at) (λ t.
            Later-map t _ (has_hash h) (mark_revoked at) (λ r _. mark_revoked-Evolves at r)
              (λ x. view-update_where x (has_hash h) (mark_revoked at) (λ r. refl) t))))
        (λ affected.
          if-Preserves Later-history affected (pure tt) (raise not_found)
            (pure-Preserves Later-history tt) (raise-Preserves Later-history not_found))

  revoke_all-Later : (s : String) (at : Time) → Preserves Later (revoke_all server s at)
  unfolding revoke_all update_subject
  revoke_all-Later s at = rethrow-Preserves other (statement server (update_subject s at)) (
      statement-Preserves Later-history server (update_subject s at) (λ t.
        Later-map t _ (of_subject s) (mark_revoked at) (λ r _. mark_revoked-Evolves at r)
          (λ x. view-update_where x (of_subject s) (mark_revoked at) (λ r. refl) t)))

  extend-Later : (h : Hash) (t u : Time) → Preserves Later (extend server h t u)
  unfolding extend update_extended
  extend-Later h t u =
      rethrow-Preserves inactive_if_none (statement server (update_extended h t u)) (
        statement-Preserves Later-history server (update_extended h t u) (λ x.
          Later-map x _ (extendable h t u) (extended_row t u) (extended_row-Evolves h t u)
            (λ y. view-update_where y (extendable h t u) (extended_row t u) (λ r. refl) x)))

  rotate-Later :
      (current : Hash) (replacement : Record) (at : Time)
      → Preserves Later (rotate server current replacement at)
  unfolding rotate
  rotate-Later current replacement at =
      committed-Preserves Later-history server other (rotate_body server current replacement at)
        (λ db _ done. rotated db done)
    where
      rotated :
          (db : Db)
          → (rotate_body server current replacement at db).0 ≡ ok tt
          → Later db.tables (rotate_body server current replacement at db).1.tables
      rotated db done =
          let (row, found, active, free, shows) =
            rotate_body-view server current replacement at db done in
          unfold Later active_at in
          λ h x e.
            let of_h = hash_of_view db.tables h x e in
            let other = (bytes_beq_iff replacement.token_hash h).0 in
            elim (Bool-cases (has_hash current x)) [
              | inl hit ↦
                  let same : h ≡ current = sym of_h ∙ (bytes_beq_iff x.token_hash current).0 hit in
                  (
                    revoke_now at x,
                    ground (arith, shows h, other, ap (view db.tables)),
                    revoke_now-Evolves at x (ground (arith, ap (view db.tables) same)),
                  )
              | inr miss ↦ (x, ground (arith, shows h, other, ap (view db.tables)), Evolves-refl x)
            ]

  -- One call of a session store's operation, whatever it returned.
  pub data Step : Db → Db → Type 0 where
    creates : (r : Record) (db : Db) → Step db (create server r db).1
    finds : (h : Hash) (db : Db) → Step db (find_by_token_hash server h db).1
    lists : (s : String) (db : Db) → Step db (list_by_subject server s db).1
    extends : (h : Hash) (t u : Time) (db : Db) → Step db (extend server h t u db).1
    rotates : (h : Hash) (r : Record) (t : Time) (db : Db) → Step db (rotate server h r t db).1
    revokes : (h : Hash) (t : Time) (db : Db) → Step db (revoke server h t db).1
    revokes_all : (s : String) (t : Time) (db : Db) → Step db (revoke_all server s t db).1

  pub data Reach (db : Db) : Db → Type 0 where
    here : Reach db db
    next : {a b : Db} → Reach db a → Step a b → Reach db b

  find-Later : (h : Hash) (db : Db) → Later db.tables (find_by_token_hash server h db).1.tables
  unfolding find_by_token_hash
  find-Later h db = Later-same db.tables _ (ground arith)

  list-Later : (s : String) (db : Db) → Later db.tables (list_by_subject server s db).1.tables
  unfolding list_by_subject
  list-Later s db = Later-same db.tables _ (ground arith)

  pub Step-Later : {a b : Db} → Step a b → Later a.tables b.tables
  Step-Later (creates r db) = (create-Later r).keeps db
  Step-Later (finds h db) = find-Later h db
  Step-Later (lists s db) = list-Later s db
  Step-Later (extends h t u db) = (extend-Later h t u).keeps db
  Step-Later (rotates h r t db) = (rotate-Later h r t).keeps db
  Step-Later (revokes h t db) = (revoke-Later h t).keeps db
  Step-Later (revokes_all s t db) = (revoke_all-Later s t).keeps db

  -- Over any history of operations, successful or not, every stored session is kept: the same
  -- identity, an expiry that is never earlier, and a revocation that stays.
  pub Reach-Later : {a b : Db} → Reach a b → Later a.tables b.tables
  Reach-Later {a} here = Later-refl a.tables
  Reach-Later {a} {b} (next {a = m} r s) =
      Later-trans a.tables m.tables b.tables (Reach-Later r) (Step-Later s)

  -- Once a session is revoked, after any history the record under its hash is revoked at the same
  -- time, and can authenticate at no time.
  pub revoked_forever :
      (a b : Db) (h : Hash) (r : Record) (t at : Time)
      → Reach a b
      → view a.tables h ≡ some r
      → r.revoked_at ≡ some t
      → (r' : Record) × (view b.tables h ≡ some r')
        × (r'.revoked_at ≡ some t)
        × (active_at r' at ≡ false)
  unfolding Later active_at
  revoked_forever a b h r t at reach found revoked =
      let (r', e, v) = Reach-Later reach h r found in
      (r', e, v.revocation t revoked, ground (arith, v.revocation t revoked))
