-- ===== src/Lib.antt =====
-- Authlier: composable authentication for Go servers. This library models its sessions (opaque
-- tokens, the session manager, one-time refresh tokens, access tokens, bearer sessions), accounts
-- with an email address and a password, verification of addresses, password recovery, sign-in with
-- Google, authenticator apps with recovery codes, and the PostgreSQL stores behind them.
--
-- The parts and their files:
--   token/token.go                Token, Token/Base64; proofs in Token/RoundTrip. A raw token is the
--                                 base64 text of 32 random bytes; the hash is a parameter.
--   sessiontoken/sessiontoken.go  SessionToken (records and interfaces), SessionToken/Config
--                                 (NewManager), SessionToken/Methods (Create and shared helpers),
--                                 SessionToken/Lookup (Resolve), SessionToken/Ending (Rotate, Revoke,
--                                 RevokeByID, List, RevokeAll). The proof on Resolve over any store
--                                 and any cache is in SessionToken/Lookup/Soundness.
--   refreshtoken/refreshtoken.go  RefreshToken, RefreshToken/Methods.
--   accesstoken/accesstoken.go    AccessToken, AccessToken/Issuing, AccessToken/Verifying; proofs in
--                                 AccessToken/Expiry, AccessToken/Soundness, AccessToken/Revoked. The
--                                 JWT library is a parameter (Jwt) that signs and parses.
--   emailaddress/emailaddress.go  EmailAddress.
--   emailpassword/…               EmailPassword, EmailPassword/Methods (NewManager, AddPassword,
--                                 Register), EmailPassword/Changing (ChangePassword, RemovePassword),
--                                 EmailPassword/Login; proofs in EmailPassword/Soundness and
--                                 EmailPassword/Disclosure. The password hash is an interface.
--   passwordreset/…               PasswordReset, PasswordReset/Methods; PasswordReset/Soundness.
--   passkey/passkey.go            Passkey: the errors and records that its store is given.
--   totp/totp.go                  Totp, Totp/Codes (the window of counters, recovery codes; proofs in
--                                 its children), Totp/Methods; Totp/Soundness. The one-time-password
--                                 library is a parameter (Otp).
--   emailverification/…           EmailVerification, EmailVerification/Codes, EmailVerification/Methods;
--                                 EmailVerification/RoundTrip. The keyed hash and the random numbers
--                                 are parameters (Keyed).
--   googleoauth/googleoauth.go    GoogleAccount, GoogleAccount/Methods; GoogleAccount/Soundness. net/url
--                                 and the exchange of a code for an identity are parameters.
--   token_session.go              Bearer, Bearer/Config, Bearer/Methods; Bearer/Active.
--   storage/postgres/sessions.go  Postgres (tables, statements, transactions), Postgres/Sessions
--                                 (SessionStore), Postgres/RefreshTokens (RefreshTokenStore),
--                                 Postgres/AccessSessions (AccessSessionStore). Postgres/Sessions/View
--                                 and Postgres/Sessions/Extending see the table of sessions as a map.
--   storage/postgres/totp.go      Postgres/Totp (TOTPStore); Postgres/Totp/Life (what operations keep),
--                                 Postgres/Totp/Replay, and Postgres/Totp/Later, which composes the
--                                 manager with the store.
--   storage/postgres/accounts.go  Postgres/Accounts (shared statements) and its children Passwords,
--                                 Verifications, Resets and Identities (the four stores); proofs in
--                                 Outcomes, Resetting, Once, Methods, Keeping and Steps.
--   storage/postgres/passkeys.go  Postgres/Accounts/Passkeys (PasskeyStore, the operations that write);
--                                 proofs in Postgres/Accounts/Keys.
-- Service is the world of the managers that call a sender, a guard or an event sink too.
-- Postgres/Preserving carries a relation between tables through the code of an operation.
-- Durable composes the session manager with the PostgreSQL store, without a cache; its children hold
-- the end-to-end theorems. A method is a function from the world to a Go result and the world that it
-- leaves (Exec): the world holds the store's state, the cache's state, and the number of readings of
-- the clock, the random source and the UUID generator (Host), which are parameters.
--
-- Conventions: a time counts microseconds from Go's zero time; a duration is signed. An error is one
-- of the package's sentinels, as far as errors.Is tells them apart, or some fault of the driver. A
-- database statement may be refused at any point (Server.fails), or take effect and have its answer
-- lost (Server.loses: a lost connection, an error of Scan or rows.Err), BEGIN and COMMIT too. A
-- transaction runs alone, as the row lock (FOR UPDATE) makes it on the rows that it decides on. An
-- error of its body, or a refused COMMIT, leaves the tables as they were; a lost COMMIT answers an
-- error and leaves what the body wrote. Loops run three attempts, as the source's
-- creationAttempts, issueAttempts and challengeAttempts say. The one open loop, which draws recovery
-- codes until enough are different, runs on fuel given by the caller, one unit for each draw,
-- so that it is enough to give as many as it takes to draw that many different codes; `spinning`
-- stands for a call that has not returned within it. TOTP counters are below 2^63, as Unix time over
-- 30 is, so that the conversions to int64 and back keep them.
--
-- Not modelled: net/http handlers, the MySQL, MongoDB and Redis adapters, the default password hash,
-- the passkey manager and the queries of its store, single sign-on, migrations, and the website.
pub mod Common
pub mod Text
pub mod Clock
pub mod Exec
pub mod Host
pub mod Service
pub mod Token
pub mod SessionToken
pub mod RefreshToken
pub mod AccessToken
pub mod Postgres
pub mod Bearer
pub mod EmailAddress
pub mod EmailPassword
pub mod EmailVerification
pub mod GoogleAccount
pub mod Passkey
pub mod PasswordReset
pub mod Totp
pub mod Durable
pub mod Tests
