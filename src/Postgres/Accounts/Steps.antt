-- ===== src/Postgres/Accounts/Steps.antt =====
-- Histories of the stores of accounts.go.
use authlier.Common.{String, Bytes}
use authlier.Clock.{Time}
use authlier.Host.{Hash}
use authlier.EmailPassword.{Registration}
use authlier.EmailVerification
use authlier.PasswordReset
use authlier.GoogleAccount.{Challenge, IdentityResolution}
use authlier.Postgres.{Db, Server}
use authlier.Postgres.Accounts.Passwords
use authlier.Postgres.Accounts.Resets
use authlier.Postgres.Accounts.Verifications
use authlier.Postgres.Accounts.Identities
use authlier.Postgres.Accounts.Methods.{HasMethod, KeepsMethod, IsKeyed, has_method}
use authlier.Postgres.Accounts.Passkeys
use authlier.Postgres.Accounts.Keys.{
  create_ceremony-Preserves, complete_registration-Preserves, complete_authentication-Preserves,
  delete_credential-Preserves,
}
use authlier.Passkey.{Ceremony, WebAuthn}
use authlier.Postgres.Accounts.Keeping.{
  register-Preserves, add_password-Preserves, replace_password_hash-Preserves,
  remove_password-Preserves, reset_password-Preserves, resolve_identity-Preserves,
  unlink_identity-Preserves, issue_reset-Preserves, issue_verification-Preserves, verify-Preserves,
  create_challenge-Preserves, consume_challenge-Preserves,
}

module _ (server : Server) {C S : Type 0} (webauthn : WebAuthn C S) where
  -- One call that writes, of EmailPasswordStore, EmailVerificationStore, PasswordResetStore,
  -- GoogleStore or PasskeyStore, whatever it returned.
  pub data Step : Db → Db → Type 0 where
    registers : (r : Registration) (db : Db) → Step db (Passwords.register server r db).1
    adds :
        (s password_hash : String) (at : Time) (db : Db)
        → Step db (Passwords.add_password server s password_hash at db).1
    replaces :
        (s current replacement : String) (at : Time) (db : Db)
        → Step db (Passwords.replace_password_hash server s current replacement at db).1
    removes :
        (s current : String) (at : Time) (db : Db)
        → Step db (Passwords.remove_password server s current at db).1
    issues_reset : (r : PasswordReset.Record) (db : Db) → Step db (Resets.issue server r db).1
    resets :
        (h : Hash) (password_hash : String) (at : Time) (db : Db)
        → Step db (Resets.reset_password server h password_hash at db).1
    issues_verification :
        (r : EmailVerification.Record) (db : Db) → Step db (Verifications.issue server r db).1
    verifies : (h : Hash) (at : Time) (db : Db) → Step db (Verifications.verify server h at db).1
    challenges : (c : Challenge) (db : Db) → Step db (Identities.create_challenge server c db).1
    consumes :
        (h : Hash) (at : Time) (db : Db) → Step db (Identities.consume_challenge server h at db).1
    resolves :
        (r : IdentityResolution) (db : Db) → Step db (Identities.resolve_identity server r db).1
    unlinks :
        (s : String) (at : Time) (db : Db) → Step db (Identities.unlink_identity server s at db).1
    creates_ceremony :
        (c : Ceremony S) (db : Db) → Step db (Passkeys.create_ceremony server webauthn c db).1
    adds_passkey :
        (h : Hash) (s : String) (credential : C) (at : Time) (db : Db)
        → Step db (Passkeys.complete_registration server webauthn h s credential at db).1
    updates_passkey :
        (h : Hash) (s : String) (previous updated : C) (at : Time) (db : Db)
        → Step db (Passkeys.complete_authentication server webauthn h s previous updated at db).1
    deletes_passkey :
        (s : String) (id : Bytes) (at : Time) (db : Db)
        → Step db (Passkeys.delete_credential server s id at db).1

  pub data Reach (db : Db) : Db → Type 0 where
    here : Reach db db
    next : {a b : Db} → Reach db a → Step a b → Reach db b

  Step-HasMethod :
      (subject_id : String) {a b : Db} → Step a b → KeepsMethod subject_id a.tables b.tables
  Step-HasMethod subject_id (registers r db) = (register-Preserves server subject_id r).keeps db
  Step-HasMethod subject_id (adds s password_hash at db) =
      (add_password-Preserves server subject_id s password_hash at).keeps db
  Step-HasMethod subject_id (replaces s current replacement at db) =
      (replace_password_hash-Preserves server subject_id s current replacement at).keeps db
  Step-HasMethod subject_id (removes s current at db) =
      (remove_password-Preserves server subject_id s current at).keeps db
  Step-HasMethod subject_id (issues_reset r db) =
      (issue_reset-Preserves server subject_id r).keeps db
  Step-HasMethod subject_id (resets h password_hash at db) =
      (reset_password-Preserves server subject_id h password_hash at).keeps db
  Step-HasMethod subject_id (issues_verification r db) =
      (issue_verification-Preserves server subject_id r).keeps db
  Step-HasMethod subject_id (verifies h at db) = (verify-Preserves server subject_id h at).keeps db
  Step-HasMethod subject_id (challenges c db) =
      (create_challenge-Preserves server subject_id c).keeps db
  Step-HasMethod subject_id (consumes h at db) =
      (consume_challenge-Preserves server subject_id h at).keeps db
  Step-HasMethod subject_id (resolves r db) =
      (resolve_identity-Preserves server subject_id r).keeps db
  Step-HasMethod subject_id (unlinks s at db) =
      (unlink_identity-Preserves server subject_id s at).keeps db
  Step-HasMethod subject_id (creates_ceremony c db) =
      (create_ceremony-Preserves server subject_id webauthn c).keeps db
  Step-HasMethod subject_id (adds_passkey h s credential at db) =
      (complete_registration-Preserves server subject_id webauthn h s credential at).keeps db
  Step-HasMethod subject_id (updates_passkey h s previous updated at db) =
      (complete_authentication-Preserves server subject_id webauthn h s previous updated at).keeps
        db
  Step-HasMethod subject_id (deletes_passkey s id at db) =
      (delete_credential-Preserves server subject_id s id at).keeps db

  -- Over any history of operations of the stores of accounts and of the passkey store that write,
  -- successful or not, an account that has a password, a Google identity or a passkey keeps one of
  -- them, and the passkeys keep different credential IDs if they had them at the start.
  pub Reach-HasMethod :
      (subject_id : String) {a b : Db}
      → IsKeyed a.tables
      → HasMethod subject_id a.tables
      → Reach a b
      → HasMethod subject_id b.tables × IsKeyed b.tables
  Reach-HasMethod subject_id key has here = (has, key)
  Reach-HasMethod subject_id key has (next {a} {b} r s) =
      let (has', key') = Reach-HasMethod subject_id key has r in
      let (key'', has'') =
        has_method subject_id a.tables b.tables (Step-HasMethod subject_id s) key' has' in
      (has'', key'')
