-- ===== src/Postgres/Accounts/Resetting.antt =====
-- What a successful password reset found and left.
use authlier.Common.{
  ◌≡◌, Bool, true, false, not, ◌&&◌, some, String, List, [], ◌∷◌, arith, ◌==◌, string_eq, bytes_eq,
  eq_iff, any, find?, update_where, find?-passes, any-select_clear, Option-cases, inl, inr,
}
use authlier.Clock.{Time, before}
use authlier.Exec.{ok, Result-cases}
use authlier.Host.{Hash}
use authlier.PasswordReset.{User, other}
use authlier.Postgres.{UserRow, PasswordRow, TokenRow, Tables, Db, Server}
use authlier.Postgres.Statements.{transaction-ok, after_begin}
use authlier.Postgres.Accounts.{has_id, of_user, token_of, has_token, upsert_password, joined_token}
use authlier.Postgres.Accounts.Resets.{select_reset, delete_reset, reset_body, reset_password}

joined_token-ok :
    (h : Hash) (users : List UserRow) (rows : List TokenRow) (u : UserRow) (r : TokenRow)
    → joined_token h users rows ≡ ok (u, r)
    → (find? (has_token h) rows ≡ some r) × (r.user_id ≡ u.id)
unfolding joined_token
joined_token-ok h users rows u r e = elim (Option-cases (find? (has_token h) rows)) [
  | inl missing ↦ absurd (ground arith)
  | inr (row, found) ↦ elim (Option-cases (find? (has_id row.user_id) users)) [
    | inl unknown ↦ absurd (ground arith)
    | inr (v, owner) ↦
        let same = find?-passes (has_id row.user_id) users v owner in
        (ground arith, ground (arith, same, eq_iff v.id row.user_id))
  ]
]

-- A live reset token of this user under this hash.
abbrev pub live_token : String → Hash → Time → TokenRow → Bool
live_token user_id h at r = token_of user_id r && has_token h r && before at r.expires_at

abbrev pub hashed_as : String → String → PasswordRow → Bool
hashed_as user_id password_hash r = of_user user_id r && r.password_hash == password_hash

-- No reset token of the user is left.
abbrev pub IsClear : String → Tables → Type 0
IsClear user_id t = any (token_of user_id) t.accounts.password_resets ≡ false

-- What a reset found and left.
pub record IsReset (h : Hash) (password_hash : String) (at : Time) (user : User) (t t' : Tables)
    : Type 0 where
  pub live : any (live_token user.id h at) t.accounts.password_resets ≡ true
  pub hashed : any (hashed_as user.id password_hash) t'.accounts.password_credentials ≡ true
  pub clear : IsClear user.id t'

any-find_live :
    (h : Hash) (at : Time) (rows : List TokenRow) (r : TokenRow)
    → find? (has_token h) rows ≡ some r
    → before at r.expires_at ≡ true
    → any (live_token r.user_id h at) rows ≡ true
any-find_live h at [] r found live = absurd (ground arith)
any-find_live h at (x ∷ rows) r found live =
    ground (arith, any-find_live h at rows r, eq_iff r.user_id r.user_id)

upsert-hashed :
    (user_id password_hash : String) (at : Time) (rows : List PasswordRow)
    → any (of_user user_id) rows ≡ true
    → any (hashed_as user_id password_hash) (
        update_where
          (of_user user_id)
          (λ r. record { user_id = user_id; password_hash = password_hash; updated_at = at })
          rows)
      ≡ true
upsert-hashed user_id password_hash at [] h = ground arith
upsert-hashed user_id password_hash at (x ∷ rows) h = ground (
  arith,
  upsert-hashed user_id password_hash at rows,
  eq_iff user_id user_id,
  eq_iff password_hash password_hash,
)

module _ (server : Server) where
  reset_body-IsReset :
      (h : Hash) (password_hash : String) (at : Time) (user : User) (db : Db)
      → (reset_body server h password_hash at db).0 ≡ ok user
      → IsReset h password_hash at user db.tables (reset_body server h password_hash at db).1.tables
  unfolding reset_body select_reset upsert_password delete_reset
  reset_body-IsReset h password_hash at user db e =
      elim (Result-cases
        (joined_token h db.tables.accounts.users db.tables.accounts.password_resets)) [
          | inl ((u, r), joined) ↦
              let (found, owner) =
                joined_token-ok h db.tables.accounts.users db.tables.accounts.password_resets u r
                  joined in
              let cleared =
                any-select_clear (token_of u.id) (λ x. not (token_of u.id x))
                  db.tables.accounts.password_resets (λ x q. ground arith) in
              let same : user.id ≡ r.user_id = ground arith in
              let alive : before at r.expires_at ≡ true = ground arith in
              record {
                live =
                    rw same (any-find_live h at db.tables.accounts.password_resets r found alive);
                hashed = ground (
                  arith,
                  eq_iff u.id u.id,
                  eq_iff password_hash password_hash,
                  upsert-hashed u.id password_hash at db.tables.accounts.password_credentials,
                );
                clear = ground arith;
              }
          | inr (f, failed) ↦ absurd (ground arith)
        ]

  -- A successful `ResetPassword` has found a token of the returned user under the hash, not expired. It
  -- leaves the user a password with the given hash, and no reset token.
  pub reset_password-IsReset :
      (h : Hash) (password_hash : String) (at : Time) (user : User) (db : Db)
      → (reset_password server h password_hash at db).0 ≡ ok user
      → IsReset h password_hash at user db.tables
          (reset_password server h password_hash at db).1.tables
  unfolding reset_password
  reset_password-IsReset h password_hash at user db e =
      let (ran, kept) = transaction-ok server other (reset_body server h password_hash at) db e in
      rw kept (reset_body-IsReset h password_hash at user (after_begin db) ran)
