-- ===== src/Postgres/Totp/Life.antt =====
-- What the operations of the TOTP store leave of three facts about a subject: a counter is spent, a
-- recovery code is used, and a challenge is closed.
pub mod Keeping
pub mod Steps
use authlier.Common.{
  ℕ, ◌≡◌, ◌≢◌, refl, ap, Bool, true, false, not, ◌&&◌, String, List, [], ◌∷◌, arith, ◌==◌,
  string_eq, bytes_eq, eq_iff, bytes_beq_iff, any, is_set, ltb, update_where, any-update_none,
  any-update_where, any-select_none, if◌then◌else◌, Bool-cases, inl, inr,
}
use authlier.Clock.{Time}
use authlier.Host.{Hash}
use authlier.Postgres.{CredentialRow, RecoveryRow, ChallengeRow, Tables}
use authlier.Postgres.Totp.{
  owns, recovers, usable, has_hash, consumable, is_later, advances, use_counter, use_code, consume,
  disable_now,
}

-- No credential of the subject would take the counter.
abbrev pub IsSpent : String → ℕ → Tables → Type 0
IsSpent subject_id counter t = any (advances subject_id counter) t.totp.credentials ≡ false

-- No recovery code of the subject under this hash is left.
abbrev pub IsUsed : String → Hash → Tables → Type 0
IsUsed subject_id code_hash t = any (usable subject_id code_hash) t.totp.recovery_codes ≡ false

-- The challenge is there, and cannot be consumed at this time.
abbrev pub IsClosed : Hash → Time → Tables → Type 0
IsClosed token_hash at t =
    (any (has_hash token_hash) t.totp.challenges ≡ true)
    × (any (consumable token_hash at) t.totp.challenges ≡ false)

-- From `t` to `t'`, nothing that was spent, used or closed comes back.
pub record Keeps (subject_id : String) (t t' : Tables) : Type 0 where
  pub spent : (counter : ℕ) → IsSpent subject_id counter t → IsSpent subject_id counter t'
  pub used : (code_hash : Hash) → IsUsed subject_id code_hash t → IsUsed subject_id code_hash t'
  pub closed :
      (token_hash : Hash) (at : Time) → IsClosed token_hash at t → IsClosed token_hash at t'

-- What does not touch these three tables.
pub Keeps-same :
    (subject_id : String) (t t' : Tables)
    → t'.totp.credentials ≡ t.totp.credentials
    → t'.totp.recovery_codes ≡ t.totp.recovery_codes
    → t'.totp.challenges ≡ t.totp.challenges
    → Keeps subject_id t t'
Keeps-same subject_id t t' a b c = record {
  spent = λ counter h. rw a h;
  used = λ code_hash h. rw b h;
  closed = λ token_hash at h. rw c h;
}

pub Keeps-refl : (subject_id : String) (t t' : Tables) → t' ≡ t → Keeps subject_id t t'
Keeps-refl subject_id t t' e =
    Keeps-same subject_id t t' (ap (λ (x : Tables). x.totp.credentials) e)
      (ap (λ (x : Tables). x.totp.recovery_codes) e) (ap (λ (x : Tables). x.totp.challenges) e)

pub Keeps-trans :
    (subject_id : String) (t t' t'' : Tables)
    → Keeps subject_id t t'
    → Keeps subject_id t' t''
    → Keeps subject_id t t''
Keeps-trans subject_id t t' t'' a b = record {
  spent = λ counter h. b.spent counter (a.spent counter h);
  used = λ code_hash h. b.used code_hash (a.used code_hash h);
  closed = λ token_hash at h. b.closed token_hash at (a.closed token_hash at h);
}

-- A row takes a later counter than one that it has spent.
use_counter-spent :
    (subject_id s : String) (counter c : ℕ) (r : CredentialRow)
    → advances subject_id c r ≡ false
    → advances s counter r ≡ true
    → advances subject_id c (use_counter counter r) ≡ false
use_counter-spent subject_id s counter c r h q =
    ground (arith, eq_iff r.subject_id subject_id, eq_iff r.subject_id s)

disable_now-spent :
    (subject_id : String) (at : Time) (c : ℕ) (r : CredentialRow)
    → advances subject_id c (disable_now at r) ≡ false
disable_now-spent subject_id at c r = ground arith

-- The parts of `Keeps` for each kind of update.
pub spends :
    (subject_id s : String) (counter c : ℕ) (rows : List CredentialRow)
    → any (advances subject_id c) rows ≡ false
    → any (advances subject_id c) (update_where (advances s counter) (use_counter counter) rows)
      ≡ false
spends subject_id s counter c rows =
    any-update_none (advances subject_id c) (advances s counter) (use_counter counter) rows
      (use_counter-spent subject_id s counter c)

pub disables :
    (subject_id s : String) (at : Time) (c : ℕ) (rows : List CredentialRow)
    → any (advances subject_id c) rows ≡ false
    → any (advances subject_id c) (update_where (owns s) (disable_now at) rows) ≡ false
disables subject_id s at c rows =
    any-update_none (advances subject_id c) (owns s) (disable_now at) rows
      (λ r _ _. disable_now-spent subject_id at c r)

pub uses :
    (subject_id s : String) (code_hash h : Hash) (at : Time) (rows : List RecoveryRow)
    → any (usable subject_id h) rows ≡ false
    → any (usable subject_id h) (update_where (usable s code_hash) (use_code at) rows) ≡ false
uses subject_id s code_hash h at rows =
    any-update_none (usable subject_id h) (usable s code_hash) (use_code at) rows
      (λ r _ _. ground arith)

pub consumes :
    (token_hash h : Hash) (at at' : Time) (rows : List ChallengeRow)
    → (any (has_hash h) rows ≡ true) × (any (consumable h at') rows ≡ false)
    → let rows' = update_where (consumable token_hash at) (consume at) rows in
      (any (has_hash h) rows' ≡ true) × (any (consumable h at') rows' ≡ false)
consumes token_hash h at at' rows (there, none_open) = (
  rw (any-update_where (has_hash h) (consumable token_hash at) (consume at) rows (λ r. refl)) there,
  any-update_none (consumable h at') (consumable token_hash at) (consume at) rows
      (λ r _ _. ground arith) none_open,
)

-- Another subject's credential.
pub replaces :
    (subject_id : String) (row : CredentialRow) (c : ℕ) (rows : List CredentialRow)
    → row.subject_id ≢ subject_id
    → any (advances subject_id c) rows ≡ false
    → any (advances subject_id c) (
        if any (owns row.subject_id) rows
        then update_where (owns row.subject_id) (λ r. row) rows
        else row ∷ rows)
      ≡ false
replaces subject_id row c rows others h =
    let updated =
      any-update_none (advances subject_id c) (owns row.subject_id) (λ r. row) rows
        (λ r _ _. ground (arith, eq_iff row.subject_id subject_id)) h in
    ground (arith, eq_iff row.subject_id subject_id)
