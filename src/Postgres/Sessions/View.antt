-- ===== src/Postgres/Sessions/View.antt =====
-- What the operations of the durable session store do, seen as a map from token hashes to records.
use mathlib.Core.Option
use authlier.Common.{
  ◌≡◌, refl, ap, true, false, ◌||◌, Option, none, some, String, ◌∷◌, arith, ◌==◌, bytes_eq,
  string_eq, bytes_beq_iff, any, find?, update_where, Bool-cases, Option-cases, inl, inr,
  find?-update_where, find?-none, any-find?, any-or_left, if◌then◌else◌, List, [], map, select,
  Bool, find?-passes, find?-some,
}
use authlier.Clock.{Time, before}
use authlier.Exec.{ok}
use authlier.Host.{Hash}
use authlier.SessionToken.{Record, active_at, other}
use authlier.Postgres.{Tables, Db, Server}
use authlier.Postgres.Statements.{transaction-ok, after_begin}
use authlier.Postgres.Sessions.{
  has_hash, revoke_now, of_subject, mark_revoked, insert_session, update_revoked, update_subject,
  set_revoked, select_session, create, rotate, rotate_body, find_by_token_hash, revoke, revoke_all,
}

-- The record of a token hash.
abbrev pub view : Tables → Hash → Option Record
view t h = find? (has_hash h) t.sessions

-- No stored row has the record's hash: what the unique index demands.
absent :
    (r : Record) (t : Tables)
    → any (λ s. s.token_hash == r.token_hash || s.id == r.id) t.sessions ≡ false
    → any (has_hash r.token_hash) t.sessions ≡ false
absent r t = any-or_left (has_hash r.token_hash) (λ s. s.id == r.id) t.sessions

-- The record with this time of revocation, unless it has one already.
abbrev pub revoked_once : Time → Record → Record
revoked_once at r = elim r.revoked_at [
  | none ↦ record {
    id = r.id;
    subject_id = r.subject_id;
    token_hash = r.token_hash;
    created_at = r.created_at;
    expires_at = r.expires_at;
    extended_at = r.extended_at;
    revoked_at = some at;
  }
  | some earlier ↦ r
]

mark_revoked-once : (at : Time) (r : Record) → mark_revoked at r ≡ revoked_once at r
mark_revoked-once at r = ground arith

mark_revoked-all :
    (at : Time) (rs : List Record) → map (mark_revoked at) rs ≡ map (revoked_once at) rs
mark_revoked-all at [] = refl
mark_revoked-all at (r ∷ rs) = ground (arith, mark_revoked-once at r, mark_revoked-all at rs)

pub hash_of_view : (t : Tables) (h : Hash) (r : Record) → view t h ≡ some r → r.token_hash ≡ h
hash_of_view t h r found =
    (bytes_beq_iff r.token_hash h).0 (find?-passes (has_hash h) t.sessions r found)

-- An update of rows that keeps their hashes.
pub view-update_where :
    (h : Hash) (q : Record → Bool) (f : Record → Record)
    → ((r : Record) → has_hash h (f r) ≡ has_hash h r)
    → (t : Tables)
    → find? (has_hash h) (update_where q f t.sessions)
      ≡ Option.map (λ r. if q r then f r else r) (view t h)
view-update_where h q f keeps t = find?-update_where (has_hash h) q f t.sessions keeps

-- An update of rows of one hash that meets the row found there.
pub view-update_one :
    (token_hash h : Hash) (q : Record → Bool) (f : Record → Record)
    → ((r : Record) → q r ≡ true → has_hash token_hash r ≡ true)
    → ((r : Record) → has_hash h (f r) ≡ has_hash h r)
    → (t : Tables) (row : Record) → view t token_hash ≡ some row
    → q row ≡ true
    → find? (has_hash h) (update_where q f t.sessions)
      ≡ (if token_hash == h then some (f row) else view t h)
view-update_one token_hash h q f only keeps t row found hits =
    let shows = view-update_where h q f keeps t in
    elim (Bool-cases (token_hash == h)) [
      | inl hit ↦
          let found' = ap (view t) ((bytes_beq_iff token_hash h).0 hit) in ground (arith, shows)
      | inr miss ↦ elim (Option-cases (view t h)) [
        | inl absent ↦ ground (arith, shows)
        | inr (r, there) ↦
            let of_h = hash_of_view t h r there in
            ground (
              arith,
              shows,
              only r,
              bytes_beq_iff r.token_hash token_hash,
              bytes_beq_iff token_hash h,
            )
      ]
    ]

module _ (server : Server) where
  pub find-view :
      (h : Hash) (r : Record) (db : Db)
      → (find_by_token_hash server h db).0 ≡ ok r
      → (view db.tables h ≡ some r) × ((find_by_token_hash server h db).1.tables ≡ db.tables)
  unfolding find_by_token_hash select_session
  find-view h r db e = ground arith

  -- A successful `Create` adds the record under its hash, which was free, and nothing else.
  pub view-create :
      (r : Record) (db : Db)
      → (create server r db).0 ≡ ok tt
      → (view db.tables r.token_hash ≡ none)
        × ((h : Hash)
            → view (create server r db).1.tables h
              ≡ (if r.token_hash == h then some r else view db.tables h))
  unfolding create insert_session
  view-create r db h = (
    find?-none (has_hash r.token_hash) db.tables.sessions (absent r db.tables (ground arith)),
    λ x. ground arith,
  )

  -- A successful `Revoke` has found a record under the token's hash. Afterwards that record has the
  -- given time of revocation, or is as before where it had one, and every other record is as before.
  pub view-revoke :
      (token_hash : Hash) (at : Time) (db : Db)
      → (revoke server token_hash at db).0 ≡ ok tt
      → (row : Record) × (view db.tables token_hash ≡ some row)
        × ((h : Hash)
            → view (revoke server token_hash at db).1.tables h
              ≡ (if token_hash == h then some (revoked_once at row) else view db.tables h))
  unfolding revoke update_revoked
  view-revoke token_hash at db h =
      let (row, found) = find?-some (has_hash token_hash) db.tables.sessions (ground arith) in
      (
        row,
        found,
        λ x. ground (
          arith,
          view-update_one token_hash x (has_hash token_hash) (mark_revoked at) (λ r e. e)
              (λ r. refl) db.tables row found
              (find?-passes (has_hash token_hash) db.tables.sessions row found),
          mark_revoked-once at row,
        ),
      )

  -- A successful `RevokeAll` returns the records of the subject as they are afterwards: with the given
  -- time of revocation, or as before where they had one. Every other record is as before.
  pub view-revoke_all :
      (subject_id : String) (at : Time) (db : Db) (revoked : List Record)
      → (revoke_all server subject_id at db).0 ≡ ok revoked
      → (revoked
          ≡ map (revoked_once at) (select (λ r. r.subject_id == subject_id) db.tables.sessions))
        × ((h : Hash)
            → view (revoke_all server subject_id at db).1.tables h
              ≡ Option.map
                  (λ r. if r.subject_id == subject_id then revoked_once at r else r)
                  (view db.tables h))
  unfolding revoke_all update_subject
  view-revoke_all subject_id at db revoked sent =
      let once = mark_revoked-all at (select (of_subject subject_id) db.tables.sessions) in
      (
        ground (arith, once),
        λ h. ground (
          arith,
          view-update_where h (of_subject subject_id) (mark_revoked at) (λ r. refl) db.tables,
          mark_revoked-once at,
        ),
      )

  -- What a rotation's statements have found when they all succeed, and the rows that they leave.
  record Rotation (current : Hash) (replacement : Record) (at : Time) (db after : Db) : Type 0 where
    row : Record
    found : view db.tables current ≡ some row
    not_revoked : row.revoked_at ≡ none
    in_time : before at row.expires_at ≡ true
    free : any (has_hash replacement.token_hash) db.tables.sessions ≡ false
    left : after.tables ≡ record db.tables {
      sessions = update_where (has_hash current) (revoke_now at) (replacement ∷ db.tables.sessions);
    }

  rotate_body-Rotation :
      (current : Hash) (replacement : Record) (at : Time) (db : Db)
      → (rotate_body server current replacement at db).0 ≡ ok tt
      → Rotation current replacement at db (rotate_body server current replacement at db).1
  unfolding rotate_body select_session insert_session set_revoked
  rotate_body-Rotation current replacement at db h = elim (Option-cases (view db.tables current)) [
    | inl e ↦ absurd (ground arith)
    | inr (r, e) ↦ record {
      row = r;
      found = e;
      not_revoked = ground arith;
      in_time = ground arith;
      free = absent replacement db.tables (ground arith);
      left = ground arith;
    }
  ]

  replacement-new :
      {current : Hash} {replacement : Record} {at : Time} {db after : Db}
      → Rotation current replacement at db after
      → has_hash current replacement ≡ false
  replacement-new {current} {replacement} {at} {db} r =
      elim (Bool-cases (has_hash current replacement)) [
        | inl same ↦
            let e : replacement.token_hash ≡ current =
              (bytes_beq_iff replacement.token_hash current).0 same in
            let held = any-find? (has_hash current) db.tables.sessions r.row r.found in
            let free = rw e at (r.free) in absurd (ground arith)
        | inr new ↦ new
      ]

  pub rotate_body-view :
      (current : Hash) (replacement : Record) (at : Time) (db : Db)
      → (rotate_body server current replacement at db).0 ≡ ok tt
      → (row : Record) × (view db.tables current ≡ some row)
        × (active_at row at ≡ true)
        × (view db.tables replacement.token_hash ≡ none)
        × ((h : Hash)
            → view (rotate_body server current replacement at db).1.tables h ≡ (
                if replacement.token_hash == h
                then some replacement
                else Option.map
                    (λ r. if has_hash current r then revoke_now at r else r)
                    (view db.tables h)))
  unfolding active_at
  rotate_body-view current replacement at db h =
      let r = rotate_body-Rotation current replacement at db h in
      (
        r.row,
        r.found,
        ground arith,
        find?-none (has_hash replacement.token_hash) db.tables.sessions r.free,
        λ x. ground (
          arith,
          ap (λ (t : Tables). view t x) r.left,
          replacement-new r,
          find?-update_where (has_hash x) (has_hash current) (revoke_now at)
              (replacement ∷ db.tables.sessions) (λ y. refl),
        ),
      )

  -- A successful `Rotate` has found an active record under `current`; afterwards the replacement
  -- stands under its hash, the record of `current` is revoked, and every other record is as before.
  pub view-rotate :
      (current : Hash) (replacement : Record) (at : Time) (db : Db)
      → (rotate server current replacement at db).0 ≡ ok tt
      → (row : Record) × (view db.tables current ≡ some row)
        × (active_at row at ≡ true)
        × (view db.tables replacement.token_hash ≡ none)
        × ((h : Hash)
            → view (rotate server current replacement at db).1.tables h ≡ (
                if replacement.token_hash == h
                then some replacement
                else Option.map
                    (λ r. if has_hash current r then revoke_now at r else r)
                    (view db.tables h)))
  unfolding rotate
  view-rotate current replacement at db h =
      let (ran, kept) =
        transaction-ok server other (rotate_body server current replacement at) db h in
      rw kept (rotate_body-view current replacement at (after_begin db) ran)
