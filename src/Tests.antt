-- ===== src/Tests.antt =====
-- Runs of the model at small inputs, and the theorems at inputs that meet their hypotheses.
pub mod Samples
mod Tokens
mod Sessions
mod Access
mod Bearers
mod Refresh
mod Reset
mod Revoked
mod Totp
mod Accounts
mod Verification
mod Google
