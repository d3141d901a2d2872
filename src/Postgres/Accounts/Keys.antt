-- ===== src/Postgres/Accounts/Keys.antt =====
-- The operations of the passkey store and the sign-in methods of an account: a passkey is deleted only
-- beside another method, since its primary key lets the statement delete one row at most.
use authlier.Common.{
  ◌+◌, ◌≡◌, refl, ◌≤◌, Bool, true, false, not, ◌&&◌, ◌||◌, Option, none, some, String, List, [],
  ◌∷◌, Bytes, arith, ◌==◌, bytes_eq, string_eq, bytes_beq_iff, eq_iff, any, select, update_where,
  length, nat_beq, any-update_where, any-select_none, any-select_keep, Bool-cases, inl, inr,
}
use authlier.Clock.{Time}
use authlier.Exec.{ok, pure, raise, rethrow}
use authlier.Host.{Hash}
use authlier.Passkey.{
  CeremonyType, registration, authentication, Ceremony, WebAuthn, other, inactive_ceremony,
  conflict,
}
use authlier.Postgres.{PasskeyRow, Tables, Db, Server, statement}
use authlier.Postgres.Preserving.{
  IsHistory, Preserves, pure-Preserves, raise-Preserves, statement-Preserves, bind-Preserves,
  if-Preserves, transaction-Preserves, committed-Preserves, rethrow-Preserves,
}
use authlier.Postgres.Accounts.{of_user, identity_of, passkey_of, lock_user, select_user}
use authlier.Postgres.Accounts.Passkeys
use authlier.Postgres.Accounts.Passkeys.{has_credential, passkey_is, new_version, marshalled}
use authlier.Postgres.Accounts.Methods.{KeepsMethod, keyed, history}

keyed-select :
    (q : PasskeyRow → Bool) (rows : List PasskeyRow)
    → keyed rows ≡ true
    → keyed (select q rows) ≡ true
unfolding keyed
keyed-select q [] h = refl
keyed-select q (r ∷ rows) h =
    ground (arith, any-select_none (has_credential r.credential_id) q rows, keyed-select q rows)

keyed-new_version :
    (q : PasskeyRow → Bool) (updated : Bytes) (at : Time) (rows : List PasskeyRow)
    → keyed (update_where q (new_version updated at) rows) ≡ keyed rows
unfolding keyed
keyed-new_version q updated at [] = refl
keyed-new_version q updated at (r ∷ rows) =
    let rest = keyed-new_version q updated at rows in
    let others =
      any-update_where (has_credential r.credential_id) q (new_version updated at) rows
        (λ x. refl) in
    ground arith

-- Rows without the credential are not touched by its deletion.
any-others :
    (s : String) (id : Bytes) (rows : List PasskeyRow)
    → any (has_credential id) rows ≡ false
    → any (passkey_of s) (select (λ r. not (passkey_is s id r)) rows) ≡ any (passkey_of s) rows
any-others s id [] h = refl
any-others s id (r ∷ rows) h = ground (arith, any-others s id rows)

module _ {ℓ} {A : Type ℓ} (p : A → Bool) where
  any-counted : (xs : List A) → 1 ≤ length (select p xs) → any p xs ≡ true
  any-counted [] h = absurd (omega arith)
  any-counted (x ∷ xs) h = ground (arith, any-counted xs)

  length-counted :
      (q : A → Bool) (xs : List A)
      → ((a : A) → q a ≡ true → p a ≡ true)
      → any q xs ≡ true
      → 1 ≤ length (select p xs)
  length-counted q [] implies h = absurd (ground arith)
  length-counted q (x ∷ xs) implies h = ground (arith, implies x, length-counted q xs implies)

-- Of two passkeys or more, one stays.
any-deleted :
    (s : String) (id : Bytes) (rows : List PasskeyRow)
    → keyed rows ≡ true
    → 2 ≤ length (select (passkey_of s) rows)
    → any (passkey_of s) (select (λ r. not (passkey_is s id r)) rows) ≡ true
unfolding keyed
any-deleted s id [] key two = absurd (omega arith)
any-deleted s id (r ∷ rows) key two = elim (Bool-cases (passkey_is s id r)) [
  | inl hit ↦
      let others = any-others s id rows in
      let counted = any-counted (passkey_of s) rows in
      ground (arith, bytes_beq_iff r.credential_id id)
  | inr miss ↦ ground (arith, any-deleted s id rows)
]

module _ (server : Server) (subject_id : String) where
  keeps : IsHistory (KeepsMethod subject_id)
  keeps = history subject_id

  keeps_insert_passkey :
      (row : PasskeyRow) (t : Tables) → KeepsMethod subject_id t (Passkeys.insert_passkey row t).1
  unfolding Passkeys.insert_passkey keyed
  keeps_insert_passkey row t h = ground arith

  keeps_update_credential :
      (id : Bytes) (s : String) (previous updated : Bytes) (at : Time) (t : Tables)
      → KeepsMethod subject_id t (Passkeys.update_credential id s previous updated at t).1
  unfolding Passkeys.update_credential
  keeps_update_credential id s previous updated at t h =
      let q = Passkeys.is_version id s previous in
      let f = new_version updated at in
      ground (
        arith,
        keyed-new_version q updated at t.accounts.passkeys,
        any-update_where (passkey_of subject_id) q f t.accounts.passkeys (λ r. refl),
      )

  -- Another method of the account outlives the passkey.
  keeps_delete_passkey :
      (s : String) (id : Bytes) (t : Tables)
      → (any (of_user s) t.accounts.password_credentials
            || any (identity_of s) t.accounts.google_identities
            || any (passkey_of s) (select (λ r. not (passkey_is s id r)) t.accounts.passkeys)
          ≡ true)
      → KeepsMethod subject_id t (Passkeys.delete_passkey s id t).1
  unfolding Passkeys.delete_passkey
  keeps_delete_passkey s id t others h =
      let key = keyed-select (λ r. not (passkey_is s id r)) t.accounts.passkeys in
      elim (Bool-cases (s == subject_id)) [
        | inl same ↦ ground (arith, key, eq_iff s subject_id)
        | inr different ↦
            let kept =
              any-select_keep (passkey_of subject_id) (λ r. not (passkey_is s id r))
                t.accounts.passkeys
                (λ r a. ground (
                  arith,
                  eq_iff r.subject_id s,
                  eq_iff r.subject_id subject_id,
                  eq_iff s subject_id,
                )) in
            ground (arith, key, kept)
      ]

  marshalled-Preserves :
      {A : Type 0} (a : Option A) → Preserves (KeepsMethod subject_id) (marshalled a)
  marshalled-Preserves none = raise-Preserves keeps _
  marshalled-Preserves (some encoded) = pure-Preserves keeps encoded

  consume_ceremony-Preserves :
      (h : Hash) (s : String) (ceremony_type : CeremonyType) (at : Time)
      → Preserves (KeepsMethod subject_id) (Passkeys.consume_ceremony server h s ceremony_type at)
  unfolding Passkeys.consume_ceremony Passkeys.update_consumed
  consume_ceremony-Preserves h s ceremony_type at =
      let update = statement server (Passkeys.update_consumed h s ceremony_type at) in
      bind-Preserves keeps (rethrow other update) _
        (rethrow-Preserves other update (
          statement-Preserves keeps server (Passkeys.update_consumed h s ceremony_type at)
            (λ t x. x)))
        (λ affected.
          if-Preserves keeps affected (pure tt) (raise inactive_ceremony) (pure-Preserves keeps tt)
            (raise-Preserves keeps inactive_ceremony))

  registration_body-Preserves :
      (h : Hash) (s : String) (row : PasskeyRow) (at : Time)
      → Preserves (KeepsMethod subject_id) (Passkeys.registration_body server h s row at)
  unfolding Passkeys.registration_body
  registration_body-Preserves h s row at =
      bind-Preserves keeps (Passkeys.consume_ceremony server h s registration at) _
        (consume_ceremony-Preserves h s registration at)
        (λ _. rethrow-Preserves Passkeys.conflict_if_unique _ (
          statement-Preserves keeps server (Passkeys.insert_passkey row)
            (keeps_insert_passkey row)))

  authentication_body-Preserves :
      (h : Hash) (s : String) (id previous updated : Bytes) (at : Time)
      → Preserves
          (KeepsMethod subject_id)
          (Passkeys.authentication_body server h s id previous updated at)
  unfolding Passkeys.authentication_body
  authentication_body-Preserves h s id previous updated at =
      let body = Passkeys.update_credential id s previous updated at in
      bind-Preserves keeps (Passkeys.consume_ceremony server h s authentication at) _
        (consume_ceremony-Preserves h s authentication at)
        (λ _.
          bind-Preserves keeps (rethrow other (statement server body)) _
            (rethrow-Preserves other (statement server body) (
              statement-Preserves keeps server body
                (keeps_update_credential id s previous updated at)))
            (λ affected.
              if-Preserves keeps affected (pure tt) (raise conflict) (pure-Preserves keeps tt)
                (raise-Preserves keeps conflict)))

  -- What a deletion's statements have counted and found when they all succeed.
  delete_body-ran :
      (s : String) (id : Bytes) (db : Db)
      → (Passkeys.delete_body server s id db).0 ≡ ok tt
      → let t = db.tables in
        (nat_beq (length (select (passkey_of s) t.accounts.passkeys)) 1
            && nat_beq
                (length (select (of_user s) t.accounts.password_credentials)
                  + length (select (identity_of s) t.accounts.google_identities))
                0
          ≡ false)
        × (any (passkey_is s id) t.accounts.passkeys ≡ true)
        × ((Passkeys.delete_body server s id db).1.tables ≡ (Passkeys.delete_passkey s id t).1)
  unfolding Passkeys.delete_body lock_user select_user Passkeys.select_counts
      Passkeys.delete_passkey
  delete_body-ran s id db done = (ground arith, ground arith, ground arith)

  delete_body-keeps :
      (s : String) (id : Bytes) (db : Db)
      → (Passkeys.delete_body server s id db).0 ≡ ok tt
      → KeepsMethod subject_id db.tables (Passkeys.delete_body server s id db).1.tables
  delete_body-keeps s id db done h =
      let (several, held, left) = delete_body-ran s id db done in
      let accounts = db.tables.accounts in
      let counted =
        length-counted (passkey_of s) (passkey_is s id) accounts.passkeys (λ r e. ground arith)
          held in
      let deleted = any-deleted s id accounts.passkeys (ground arith) in
      let passwords = any-counted (of_user s) accounts.password_credentials in
      let identities = any-counted (identity_of s) accounts.google_identities in
      rw left (keeps_delete_passkey s id db.tables (ground arith) h)

  pub delete_credential-Preserves :
      (s : String) (id : Bytes) (at : Time)
      → Preserves (KeepsMethod subject_id) (Passkeys.delete_credential server s id at)
  unfolding Passkeys.delete_credential
  delete_credential-Preserves s id at =
      committed-Preserves keeps server other (Passkeys.delete_body server s id)
        (λ db _ done. delete_body-keeps s id db done)

  module _ {C S : Type 0} (webauthn : WebAuthn C S) where
    pub create_ceremony-Preserves :
        (c : Ceremony S)
        → Preserves (KeepsMethod subject_id) (Passkeys.create_ceremony server webauthn c)
    unfolding Passkeys.create_ceremony Passkeys.insert_ceremony
    create_ceremony-Preserves c =
        bind-Preserves keeps (marshalled (webauthn.marshal_session c.session)) _
          (marshalled-Preserves (webauthn.marshal_session c.session))
          (λ session_data.
            rethrow-Preserves Passkeys.conflict_if_unique _
              (statement-Preserves keeps server (Passkeys.insert_ceremony _) (λ t h. ground arith)))

    pub complete_registration-Preserves :
        (h : Hash) (s : String) (credential : C) (at : Time)
        → Preserves
            (KeepsMethod subject_id)
            (Passkeys.complete_registration server webauthn h s credential at)
    unfolding Passkeys.complete_registration
    complete_registration-Preserves h s credential at =
        bind-Preserves keeps (marshalled (webauthn.marshal_credential credential)) _
          (marshalled-Preserves (webauthn.marshal_credential credential))
          (λ encoded.
            transaction-Preserves keeps server other _ (registration_body-Preserves h s _ at))

    pub complete_authentication-Preserves :
        (h : Hash) (s : String) (previous updated : C) (at : Time)
        → Preserves
            (KeepsMethod subject_id)
            (Passkeys.complete_authentication server webauthn h s previous updated at)
    unfolding Passkeys.complete_authentication
    complete_authentication-Preserves h s previous updated at =
        bind-Preserves keeps (marshalled (webauthn.marshal_credential previous)) _
          (marshalled-Preserves (webauthn.marshal_credential previous))
          (λ previous_json.
            bind-Preserves keeps (marshalled (webauthn.marshal_credential updated)) _
              (marshalled-Preserves (webauthn.marshal_credential updated))
              (λ updated_json.
                transaction-Preserves keeps server other _
                  (authentication_body-Preserves h s _ previous_json updated_json at)))
