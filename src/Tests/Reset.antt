-- ===== src/Tests/Reset.antt =====
-- Password recovery with a store that has one account, whose first token is taken.
use authlier.Common.{
  ◌⊎◌, String, ◌==◌, string_eq, nat_beq, if◌then◌else◌, ℕ, suc, ◌≡◌, refl, none, some, Bool, true,
}
use authlier.Clock.{pos}
use authlier.Exec.{ok, err}
use authlier.EmailAddress.{Mail, valid, byte_length, normalize}
use authlier.PasswordReset.{Manager, World, RequestInput, User, not_found, conflict}
use authlier.PasswordReset.Methods.{
  request, normalized, request_found, issue_loop, after_issue, valid_user, record_event,
  check_attempt,
}
use authlier.Token
use authlier.PasswordReset.Soundness.{IsSent, request-IsSent}
use authlier.Text.{is_blank, trim_space}
use authlier.Tests.Samples.{test_host, start}

abbrev test_mail : Mail
test_mail = record { to_lower = λ s. s; parse_address = λ s. some s }

abbrev alice : User
alice = record { id = "u"; email = "alice@example.com" }

-- The store counts the calls of Issue, the outside the messages.
abbrev test_manager : Manager ℕ ℕ
test_manager = record {
  store = record {
    find_user_by_email =
        λ address s. (if address == "alice@example.com" then ok alice else err not_found, s);
    issue = λ r issues. (if nat_beq issues 0 then err conflict else ok tt, suc issues);
    reset_password = λ h p t s. (err not_found, s);
  };
  send_password_reset = λ message sent. (ok tt, suc sent);
  hash_password = λ password sent. (ok password, sent);
  validate_password = none;
  attempt_guard = none;
  security_events = none;
  normalize_email = normalize test_mail;
  lifetime = pos 3600;
}

abbrev known : RequestInput
known = record { email = "alice@example.com"; source_key = "1" }

abbrev world : World ℕ ℕ
world = record { stored = 0; outside = 0; reads = start.reads }

-- What a run looks into.
runs : Bool
unfolding normalize valid byte_length trim_space request normalized request_found issue_loop
    after_issue valid_user record_event check_attempt Token.generate is_blank
runs = true

abbrev address : String
address = normalized test_host test_mail test_manager "alice@example.com"

requested : (request test_host test_mail test_manager known world).0 ≡ ok tt
unfolding runs
requested = refl

-- The second token is sent.
sends_one : (request test_host test_mail test_manager known world).1.outside ≡ 1
unfolding runs
sends_one = refl

request-IsSent_example :
    (((address ≡ "") ⊎ ((test_manager.store.find_user_by_email address 0).0 ≡ err not_found))
      × ((request test_host test_mail test_manager known world).1.outside ≡ 0))
    ⊎ ((user : User) × ((test_manager.store.find_user_by_email address 0).0 ≡ ok user)
        × (user.email ≡ address)
        × IsSent test_host test_mail test_manager user)
unfolding check_attempt
request-IsSent_example = request-IsSent test_host test_mail test_manager known world requested
