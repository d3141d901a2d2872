-- ===== src/Postgres/Sessions/Extending.antt =====
-- `Extend` of the durable session store, and the unique index on token hashes that it relies on.
use authlier.Common.{
  ◌≡◌, ◌≤◌, refl, Bool, true, none, some, List, [], ◌∷◌, arith, ◌==◌, bytes_eq, find?, select, map,
  length, Option-cases, inl, inr, find?-passes, if◌then◌else◌,
}
use mathlib.Core.Option
use authlier.Clock.{Time, before, after}
use authlier.Exec.{ok}
use authlier.Host.{Hash}
use authlier.SessionToken.{Record}
use authlier.Postgres.{Tables, Db, Server}
use authlier.Postgres.Sessions.{
  head_row, has_hash, update_extended, extendable, extended_row, extend,
}
use authlier.Postgres.Sessions.View.{view, view-update_one}

-- No two rows have the same token hash.
abbrev pub IsUnique : Tables → Type 0
IsUnique t = (h : Hash) → length (select (has_hash h) t.sessions) ≤ 1

head_row-select {ℓ} :
    {A : Type ℓ} (p : A → Bool) (f : A → A) (xs : List A)
    → head_row (map f (select p xs)) ≡ Option.map f (find? p xs)
head_row-select p f [] = refl
head_row-select p f (x ∷ xs) = ground (arith, head_row-select p f xs)

module _ {ℓ} {A : Type ℓ} (p q : A → Bool) (implies : (a : A) → q a ≡ true → p a ≡ true) where
  find?-empty : (xs : List A) → length (select p xs) ≡ 0 → find? q xs ≡ none
  find?-empty [] e = refl
  find?-empty (x ∷ xs) e = ground (arith, implies x, find?-empty xs)

  -- Where at most one element passes a test, it is found by any stronger one that it passes.
  find?-unique :
      (xs : List A) (a : A) → length (select p xs) ≤ 1 → find? q xs ≡ some a → find? p xs ≡ some a
  find?-unique [] a one found = ground arith
  find?-unique (x ∷ xs) a one found = ground (arith, implies x, find?-empty xs, find?-unique xs a)

module _ (server : Server) where
  -- Where no two rows have the same token hash, a successful `Extend` has found a record under the
  -- hash that was not revoked, not expired and due to expire before the new time. It returns that
  -- record with the new expiry and the time of the extension; this record stands under the hash
  -- afterwards, and every other record is as before.
  pub view-extend :
      (token_hash : Hash) (extended_at expires_at : Time) (db : Db) (r : Record)
      → IsUnique db.tables
      → (extend server token_hash extended_at expires_at db).0 ≡ ok r
      → (row : Record) × (view db.tables token_hash ≡ some row)
        × (row.revoked_at ≡ none)
        × (after row.expires_at extended_at ≡ true)
        × (before row.expires_at expires_at ≡ true)
        × (r ≡ record {
          id = row.id;
          subject_id = row.subject_id;
          token_hash = row.token_hash;
          created_at = row.created_at;
          expires_at = expires_at;
          extended_at = some extended_at;
          revoked_at = none;
        })
        × ((h : Hash)
            → view (extend server token_hash extended_at expires_at db).1.tables h
              ≡ (if token_hash == h then some r else view db.tables h))
  unfolding extend update_extended
  view-extend token_hash extended_at expires_at db r unique done =
      let p = extendable token_hash extended_at expires_at in
      let f = extended_row extended_at expires_at in
      let first = head_row-select p f db.tables.sessions in
      elim (Option-cases (find? p db.tables.sessions)) [
        | inl e ↦ absurd (ground (arith, first))
        | inr (row, e) ↦
            let found =
              find?-unique (has_hash token_hash) p (λ a h. ground arith) db.tables.sessions row
                (unique token_hash) e in
            let passes = find?-passes p db.tables.sessions row e in
            let not_revoked : row.revoked_at ≡ none = ground arith in
            let same : r ≡ f row = ground (arith, first) in
            (
              row,
              found,
              not_revoked,
              ground arith,
              ground arith,
              rw (same, ← not_revoked) refl,
              λ h. ground (
                arith,
                view-update_one token_hash h p f (λ r e. ground arith) (λ r. refl) db.tables row
                    found passes,
              ),
            )
      ]
