-- ===== src/EmailPassword/Changing.antt =====
-- ChangePassword and RemovePassword of emailpassword/emailpassword.go.
use authlier.Common.{String, not, ◌||◌, Option, none, some, ◌==◌, string_eq, if◌then◌else◌}
use authlier.Text.{trim_space}
use authlier.Exec.{Result, ok, err, pure, raise, attempt, rethrow, ◌>>=◌, ◌>>◌}
use authlier.Host.{Host}
use authlier.Service.{on_store, on_outside}
use authlier.EmailAddress.{Mail}
use authlier.EmailPassword.{
  Error, invalid_config, invalid_input, invalid_record, password_unchanged, other, User,
  PasswordCredential, CredentialStore, change_operation, remove_operation, EventType,
  password_change_failed, password_changed, password_removal_failed, password_removed, Manager,
  ChangePasswordInput, RemovePasswordInput, valid_user, valid_credential,
}
use authlier.EmailPassword.Methods.{
  validate, check_attempt, record_event, refuse, hash_password, read_now, settled, verify_password,
  Act, is_not_found, is_rejected,
}

module _ {S O : Type 0} (host : Host) (mail : Mail) (manager : Manager S O) where
  open manager use {store, settings}

  -- The credential of the subject, if the current password is the one that it stands for; with it the
  -- common part of ChangePassword and RemovePassword.
  unfoldable pub found_current :
      EventType
      → String
      → String
      → String
      → Result Error (User × PasswordCredential)
      → Act S O (User × PasswordCredential)
  unfolding refuse
  found_current failure subject_id current_password source_key (err e) =
      if is_not_found e then refuse host mail manager failure subject_id source_key else raise e
  found_current failure subject_id current_password source_key (ok (user, credential)) =
      if not (valid_user user)
        || not (user.id == subject_id)
        || not (valid_credential user credential)
      then raise invalid_record
      else (do
        verification ← verify_password host mail manager current_password credential.password_hash
        if is_rejected host mail manager verification
            then refuse host mail manager failure subject_id source_key
            else pure (user, credential))

  unfoldable pub find_current :
      CredentialStore S → EventType → String → String → String → Act S O (User × PasswordCredential)
  unfolding found_current
  find_current credentials failure subject_id current_password source_key = do
    found ← attempt (on_store (credentials.find_by_subject subject_id))
    found_current failure subject_id current_password source_key found

  -- ChangePassword, of a credential store and a trimmed subject
  unfoldable pub change_with : CredentialStore S → String → ChangePasswordInput → Act S O User
  unfolding validate find_current settled record_event
  change_with credentials subject_id input = do
    validate host mail manager input.new_password
    check_attempt host mail manager (record {
      operation = change_operation;
      email = "";
      subject_id = subject_id;
      source_key = input.source_key;
    })
    (user, credential) ←
        find_current credentials password_change_failed subject_id input.current_password
          input.source_key
    unchanged ←
        on_outside
          (rethrow other (settings.passwords.verify input.new_password credential.password_hash))
    if unchanged.matches then raise password_unchanged else (do
      replacement_hash ← hash_password host mail manager input.new_password
      now ← read_now host mail manager
      settled host mail manager password_change_failed subject_id input.source_key (
          on_store (
            credentials.replace_password_hash subject_id credential.password_hash replacement_hash
              now))
      record_event host mail manager password_changed subject_id input.source_key
      pure user)

  changing : Option (CredentialStore S) → ChangePasswordInput → Act S O User
  unfolding change_with
  changing none input = raise invalid_config
  changing (some credentials) input =
      let subject_id = trim_space input.subject_id in
      if subject_id == "" || input.current_password == "" || input.new_password == ""
      then raise invalid_input
      else change_with credentials subject_id input

  -- ChangePassword
  unfoldable pub change_password : ChangePasswordInput → Act S O User
  unfolding changing
  change_password input = changing manager.credentials input

  -- RemovePassword, of a credential store and a trimmed subject
  unfoldable pub remove_with : CredentialStore S → String → RemovePasswordInput → Act S O (Unit {0})
  unfolding find_current settled record_event
  remove_with credentials subject_id input = do
    check_attempt host mail manager (record {
      operation = remove_operation;
      email = "";
      subject_id = subject_id;
      source_key = input.source_key;
    })
    (user, credential) ←
        find_current credentials password_removal_failed subject_id input.current_password
          input.source_key
    now ← read_now host mail manager
    settled host mail manager password_removal_failed subject_id input.source_key
        (on_store (credentials.remove_password subject_id credential.password_hash now))
    record_event host mail manager password_removed subject_id input.source_key

  removing : Option (CredentialStore S) → RemovePasswordInput → Act S O (Unit {0})
  unfolding remove_with
  removing none input = raise invalid_config
  removing (some credentials) input =
      let subject_id = trim_space input.subject_id in
      if subject_id == "" || input.current_password == ""
      then raise invalid_input
      else remove_with credentials subject_id input

  -- RemovePassword
  unfoldable pub remove_password : RemovePasswordInput → Act S O (Unit {0})
  unfolding removing
  remove_password input = removing manager.credentials input
