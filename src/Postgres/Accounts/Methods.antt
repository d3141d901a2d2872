-- ===== src/Postgres/Accounts/Methods.antt =====
-- The sign-in methods of an account, and the statements of accounts.go that touch them.
use authlier.Common.{
  Bool, List, [], ◌∷◌, ◌&&◌, ◌≡◌, true, not, ◌||◌, String, arith, string_eq, bytes_eq, eq_iff, any,
  any-update_keep, any-select_keep, Bool-cases, inl, inr, ◌==◌,
}
use authlier.Clock.{Time}
use authlier.Postgres.{PasswordRow, PasskeyRow, IdentityRow, UserRow, Tables}
use authlier.Postgres.Preserving.{IsHistory}
use authlier.Postgres.Accounts.{
  of_user, identity_of, passkey_of, insert_user_row, insert_password, upsert_password,
}
use authlier.Postgres.Accounts.Passwords
use authlier.Postgres.Accounts.Passkeys.{has_credential}
use authlier.Postgres.Accounts.Identities

-- The account has a password, a Google identity or a passkey.
abbrev pub HasMethod : String → Tables → Type 0
HasMethod subject_id t =
    any (of_user subject_id) t.accounts.password_credentials
      || any (identity_of subject_id) t.accounts.google_identities
      || any (passkey_of subject_id) t.accounts.passkeys
    ≡ true

-- No two passkeys have the same credential ID.
unfoldable pub keyed : List PasskeyRow → Bool
keyed [] = true
keyed (r ∷ rows) = not (any (has_credential r.credential_id) rows) && keyed rows

abbrev pub IsKeyed : Tables → Type 0
IsKeyed t = keyed t.accounts.passkeys ≡ true

-- The account has a sign-in method, in tables that respect the passkeys' primary key.
abbrev IsSound : String → Tables → Type 0
IsSound subject_id t =
    keyed t.accounts.passkeys
      && (any (of_user subject_id) t.accounts.password_credentials
          || any (identity_of subject_id) t.accounts.google_identities
          || any (passkey_of subject_id) t.accounts.passkeys)
    ≡ true

abbrev pub KeepsMethod : String → Tables → Tables → Type 0
KeepsMethod subject_id t t' = IsSound subject_id t → IsSound subject_id t'

pub has_method :
    (subject_id : String) (t t' : Tables)
    → KeepsMethod subject_id t t'
    → IsKeyed t
    → HasMethod subject_id t
    → IsKeyed t' × HasMethod subject_id t'
has_method subject_id t t' keeps key has = ground arith

pub history : (subject_id : String) → IsHistory (KeepsMethod subject_id)
history subject_id = record { same = λ t t' e h. rw e h; trans = λ t t' t'' a b h. b (a h) }

module _ (subject_id : String) where
  pub keeps_insert_user :
      (row : UserRow) (t : Tables) → KeepsMethod subject_id t (insert_user_row row t).1
  unfolding insert_user_row
  keeps_insert_user row t h = ground arith

  pub keeps_insert_password :
      (row : PasswordRow) (t : Tables) → KeepsMethod subject_id t (insert_password row t).1
  unfolding insert_password
  keeps_insert_password row t h = ground arith

  pub keeps_upsert_password :
      (row : PasswordRow) (t : Tables) → KeepsMethod subject_id t (upsert_password row t).1
  unfolding upsert_password
  keeps_upsert_password row t h =
      let kept =
        any-update_keep (of_user subject_id) (of_user row.user_id) (λ r. row)
          t.accounts.password_credentials
          (λ r a b. ground (
            arith,
            eq_iff r.user_id subject_id,
            eq_iff r.user_id row.user_id,
            eq_iff row.user_id subject_id,
          )) in
      ground (arith, kept)

  pub keeps_update_hash :
      (user_id current replacement : String) (at : Time) (t : Tables)
      → KeepsMethod subject_id t (Passwords.update_hash user_id current replacement at t).1
  unfolding Passwords.update_hash
  keeps_update_hash user_id current replacement at t h =
      let kept =
        any-update_keep (of_user subject_id) (Passwords.has_hash user_id current)
          (Passwords.new_hash replacement at) t.accounts.password_credentials (λ r a b. a) in
      ground (arith, kept)

  pub keeps_update_email :
      (email provider_subject : String) (t : Tables)
      → KeepsMethod subject_id t (Identities.update_email email provider_subject t).1
  unfolding Identities.update_email
  keeps_update_email email provider_subject t h =
      let kept =
        any-update_keep (identity_of subject_id) (Identities.has_subject provider_subject)
          (Identities.set_email email) t.accounts.google_identities (λ r a b. a) in
      ground (arith, kept)

  pub keeps_insert_identity :
      (row : IdentityRow) (t : Tables)
      → KeepsMethod subject_id t (Identities.insert_identity row t).1
  unfolding Identities.insert_identity
  keeps_insert_identity row t h = ground arith

  -- Another method of the account outlives its password.
  pub keeps_delete_password :
      (s : String) (t : Tables)
      → any (identity_of s) t.accounts.google_identities || any (passkey_of s) t.accounts.passkeys
        ≡ true
      → KeepsMethod subject_id t (Passwords.delete_password s t).1
  unfolding Passwords.delete_password
  keeps_delete_password s t others h = elim (Bool-cases (s == subject_id)) [
    | inl same ↦ ground (arith, eq_iff s subject_id)
    | inr different ↦
        let kept =
          any-select_keep (of_user subject_id) (λ r. not (of_user s r))
            t.accounts.password_credentials
            (λ r a.
              ground
                (arith, eq_iff r.user_id s, eq_iff r.user_id subject_id, eq_iff s subject_id)) in
        ground (arith, kept)
  ]

  -- Another method of the account outlives its Google identity.
  pub keeps_delete_identity :
      (s : String) (t : Tables)
      → any (of_user s) t.accounts.password_credentials || any (passkey_of s) t.accounts.passkeys
        ≡ true
      → KeepsMethod subject_id t (Identities.delete_identity s t).1
  unfolding Identities.delete_identity
  keeps_delete_identity s t others h = elim (Bool-cases (s == subject_id)) [
    | inl same ↦ ground (arith, eq_iff s subject_id)
    | inr different ↦
        let kept =
          any-select_keep (identity_of subject_id) (λ r. not (identity_of s r))
            t.accounts.google_identities
            (λ r a.
              ground
                (arith, eq_iff r.user_id s, eq_iff r.user_id subject_id, eq_iff s subject_id)) in
        ground (arith, kept)
  ]
