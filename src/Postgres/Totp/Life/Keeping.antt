-- ===== src/Postgres/Totp/Life/Keeping.antt =====
-- The operations of the TOTP store: counters, recovery codes and challenges before and after.
use authlier.Common.{
  ℕ, ◌≡◌, ◌≢◌, refl, true, not, String, Option, List, [], ◌∷◌, Bytes, arith, string_eq, bytes_eq,
  eq_iff, bytes_beq, bytes_beq_iff, any, any-select_none, Bool-cases, Option-cases, inl, inr,
}
use authlier.Clock.{Time, before}
use authlier.Host.{Hash}
use authlier.Totp.{Enrollment, Challenge, other, inactive_enrollment, invalid_code, not_found}
use authlier.Postgres.{CredentialRow, Tables, Server}
use authlier.Postgres.Preserving.{
  IsHistory, Preserves, pure-Preserves, raise-Preserves, statement-Preserves, read-Preserves,
  bind-Preserves, if-Preserves, transaction-Preserves, rethrow-Preserves,
}
use authlier.Postgres.Totp.{
  Codec, recovers, usable, has_hash, conflict_if_unique, not_found_if_none, inactive_if_none,
  update_consumed, update_counter, update_used, update_disabled, delete_codes, insert_code,
  insert_challenge, upsert_credential, upsert_enrollment, delete_enrollment, select_enrollment,
  select_enabled, select_challenge, encrypt, decrypt, is_enabled, begin_enrollment, find_enrollment,
  insert_codes, enable_body, enable, disable_body, disable, create_challenge, find_challenge,
  consume_challenge, complete_code_body, complete_code, complete_recovery_body, complete_recovery,
}
use authlier.Postgres.Totp.Life.{
  Keeps, Keeps-same, Keeps-refl, Keeps-trans, spends, disables, uses, consumes, replaces,
}

module _ (server : Server) (secrets : Option Codec) (subject_id : String) where
  history : IsHistory (Keeps subject_id)
  history = record { same = Keeps-refl subject_id; trans = Keeps-trans subject_id }

  consume_challenge-Preserves :
      (h : Hash) (at : Time) → Preserves (Keeps subject_id) (consume_challenge server secrets h at)
  unfolding consume_challenge update_consumed
  consume_challenge-Preserves h at = rethrow-Preserves inactive_if_none _ (
      statement-Preserves history server (update_consumed h at) (λ t. record {
        spent = λ c s. s;
        used = λ code s. s;
        closed = λ token u x. consumes h token at u t.totp.challenges x;
      }))

  pub complete_code-Preserves :
      (h : Hash) (counter : ℕ) (at : Time)
      → Preserves (Keeps subject_id) (complete_code server secrets h counter at)
  unfolding complete_code complete_code_body update_counter
  complete_code-Preserves h counter at = transaction-Preserves history server other _ (
      bind-Preserves history (consume_challenge server secrets h at) _
        (consume_challenge-Preserves h at)
        (λ s.
          bind-Preserves history _ _
            (rethrow-Preserves other _ (
              statement-Preserves history server (update_counter s counter) (λ t. record {
                spent = λ c x. spends subject_id s counter c t.totp.credentials x;
                used = λ code x. x;
                closed = λ token u x. x;
              })))
            (λ affected.
              if-Preserves history (not affected) _ _ (raise-Preserves history invalid_code)
                (pure-Preserves history s))))

  pub complete_recovery-Preserves :
      (h code : Hash) (at : Time)
      → Preserves (Keeps subject_id) (complete_recovery server secrets h code at)
  unfolding complete_recovery complete_recovery_body update_used
  complete_recovery-Preserves h code at = transaction-Preserves history server other _ (
      bind-Preserves history (consume_challenge server secrets h at) _
        (consume_challenge-Preserves h at)
        (λ s.
          bind-Preserves history _ _
            (rethrow-Preserves other _ (
              statement-Preserves history server (update_used s code at) (λ t. record {
                spent = λ c x. x;
                used = λ c x. uses subject_id s code c at t.totp.recovery_codes x;
                closed = λ token u x. x;
              })))
            (λ affected.
              if-Preserves history (not affected) _ _ (raise-Preserves history invalid_code)
                (pure-Preserves history s))))

  deletes : (s : String) (t : Tables) → Keeps subject_id t (delete_codes s t).1
  unfolding delete_codes
  deletes s t = record {
    spent = λ c x. x;
    used = λ code x.
        any-select_none (usable subject_id code) (λ r. not (recovers s r)) t.totp.recovery_codes x;
    closed = λ token u x. x;
  }

  pub disable-Preserves :
      (s : String) (at : Time) → Preserves (Keeps subject_id) (disable server secrets s at)
  unfolding disable disable_body update_disabled
  disable-Preserves s at = transaction-Preserves history server other _ (
      bind-Preserves history _ _
        (rethrow-Preserves other _ (
          statement-Preserves history server (update_disabled s at) (λ t. record {
            spent = λ c x. disables subject_id s at c t.totp.credentials x;
            used = λ code x. x;
            closed = λ token u x. x;
          })))
        (λ affected. if-Preserves history (not affected) _ _ (raise-Preserves history not_found) (
          rethrow-Preserves other _
            (statement-Preserves history server (delete_codes s) (deletes s)))))

  -- The codes of another subject.
  insert_code-Keeps :
      (s : String) (code : Hash) (t : Tables)
      → s ≢ subject_id
      → Keeps subject_id t (insert_code s code t).1
  unfolding insert_code
  insert_code-Keeps s code t others = record {
    spent = λ c x. ground (arith, x);
    used = λ h x. ground (arith, eq_iff s subject_id);
    closed = λ token u x. (ground (arith, x.0), ground (arith, x.1));
  }

  insert_codes-Preserves :
      (s : String) (codes : List Hash)
      → s ≢ subject_id
      → Preserves (Keeps subject_id) (insert_codes server secrets s codes)
  unfolding insert_codes
  insert_codes-Preserves s [] others = pure-Preserves history tt
  insert_codes-Preserves s (code ∷ codes) others =
      bind-Preserves history _ _
        (rethrow-Preserves other _ (
          statement-Preserves history server (insert_code s code)
            (λ t. insert_code-Keeps s code t others)))
        (λ _. insert_codes-Preserves s codes others)

  upsert_credential-Keeps :
      (row : CredentialRow) (t : Tables)
      → row.subject_id ≢ subject_id
      → Keeps subject_id t (upsert_credential row t).1
  unfolding upsert_credential
  upsert_credential-Keeps row t others = record {
    spent = λ c x. replaces subject_id row c t.totp.credentials others x;
    used = λ h x. x;
    closed = λ token u x. x;
  }

  -- `Enable` of another subject.
  pub enable-Preserves :
      (s : String) (counter : ℕ) (codes : List Hash) (at : Time)
      → s ≢ subject_id
      → Preserves (Keeps subject_id) (enable server secrets s counter codes at)
  unfolding enable enable_body select_enrollment delete_enrollment
  enable-Preserves s counter codes at others = transaction-Preserves history server other _ (
      bind-Preserves history _ _
        (rethrow-Preserves not_found_if_none _
          (read-Preserves history server (select_enrollment s) (λ t. refl)))
        (λ row.
          if-Preserves history (not (before at row.expires_at)) _ _
            (raise-Preserves history inactive_enrollment)
            (bind-Preserves history _ _
              (rethrow-Preserves other _ (
                statement-Preserves history server (upsert_credential _)
                  (λ t. upsert_credential-Keeps _ t others)))
              (λ _.
                bind-Preserves history _ _
                  (rethrow-Preserves other _
                    (statement-Preserves history server (delete_codes s) (deletes s)))
                  (λ _. bind-Preserves history _ _ (insert_codes-Preserves s codes others) (λ _.
                    rethrow-Preserves other _ (
                      statement-Preserves history server (delete_enrollment s)
                        (λ t. Keeps-same subject_id t _ refl refl refl))))))))

  insert_challenge-Keeps :
      (c : Challenge) (t : Tables) → Keeps subject_id t (insert_challenge c t).1
  unfolding insert_challenge
  insert_challenge-Keeps c t = record {
    spent = λ k x. ground (arith, x);
    used = λ h x. ground (arith, x);
    closed = λ token u x. elim (Bool-cases (bytes_beq c.token_hash token)) [
      | inl same ↦
          let there : any (has_hash c.token_hash) t.totp.challenges ≡ true =
            rw ((bytes_beq_iff c.token_hash token).0 same) x.0 in
          (ground (arith, x.0), ground (arith, x.1))
      | inr differs ↦ (ground (arith, x.0), ground (arith, x.1))
    ];
  }

  pub create_challenge-Preserves :
      (c : Challenge) → Preserves (Keeps subject_id) (create_challenge server secrets c)
  unfolding create_challenge
  create_challenge-Preserves c =
      rethrow-Preserves conflict_if_unique _
        (statement-Preserves history server (insert_challenge c) (insert_challenge-Keeps c))

  pub is_enabled-Preserves :
      (s : String) → Preserves (Keeps subject_id) (is_enabled server secrets s)
  unfolding is_enabled select_enabled
  is_enabled-Preserves s =
      rethrow-Preserves other _ (read-Preserves history server (select_enabled s) (λ t. refl))

  -- The codec's calls change nothing.
  encrypt-Preserves :
      (secret : String) → Preserves (Keeps subject_id) (encrypt server secrets secret)
  unfolding encrypt
  encrypt-Preserves secret = record {
    keeps = λ db.
        Keeps-refl subject_id db.tables _
          (elim (Option-cases secrets) [ inl e ↦ rw e refl | inr (codec, e) ↦ rw e refl ]);
  }

  decrypt-Preserves :
      (encrypted : Bytes) → Preserves (Keeps subject_id) (decrypt server secrets encrypted)
  unfolding decrypt
  decrypt-Preserves encrypted = record {
    keeps = λ db.
        Keeps-refl subject_id db.tables _
          (elim (Option-cases secrets) [ inl e ↦ rw e refl | inr (codec, e) ↦ rw e refl ]);
  }

  pub begin_enrollment-Preserves :
      (e : Enrollment) → Preserves (Keeps subject_id) (begin_enrollment server secrets e)
  unfolding begin_enrollment upsert_enrollment
  begin_enrollment-Preserves e =
      bind-Preserves history (encrypt server secrets e.secret) _ (encrypt-Preserves e.secret)
        (λ secret. rethrow-Preserves other _ (
          statement-Preserves history server (upsert_enrollment _)
            (λ t. Keeps-same subject_id t _ refl refl refl)))

  pub find_enrollment-Preserves :
      (s : String) → Preserves (Keeps subject_id) (find_enrollment server secrets s)
  unfolding find_enrollment select_enrollment
  find_enrollment-Preserves s =
      bind-Preserves history _ _
        (rethrow-Preserves not_found_if_none _
          (read-Preserves history server (select_enrollment s) (λ t. refl)))
        (λ row.
          bind-Preserves history (decrypt server secrets row.encrypted_secret) _
            (decrypt-Preserves row.encrypted_secret) (λ secret. pure-Preserves history _))

  pub find_challenge-Preserves :
      (h : Hash) → Preserves (Keeps subject_id) (find_challenge server secrets h)
  unfolding find_challenge select_challenge
  find_challenge-Preserves h =
      bind-Preserves history _ _
        (rethrow-Preserves not_found_if_none _
          (read-Preserves history server (select_challenge h) (λ t. refl)))
        (λ (c, r).
          bind-Preserves history (decrypt server secrets r.encrypted_secret) _
            (decrypt-Preserves r.encrypted_secret) (λ secret. pure-Preserves history _))
