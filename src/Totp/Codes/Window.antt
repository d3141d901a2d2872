-- ===== src/Totp/Codes/Window.antt =====
-- The window of matchCounter: the current period and one on each side.
use authlier.Common.{ℕ, ◌+◌, ◌≡◌, ◌≤◌, true, false, not, some, Bytes, String, arith, length, any}
use authlier.Clock.{Time}
use authlier.Totp.{Otp}
use authlier.Totp.Codes.{counter_at, is_digit, first_match, match_counter}

-- A code of six digits that the library accepts for this counter and secret.
pub record IsMatch (otp : Otp) (secret : String) (code : Bytes) (counter : ℕ) : Type 0 where
  pub sized : length code ≡ 6
  pub digits : any (λ c. not (is_digit c)) code ≡ false
  pub accepted : otp.validate_custom code counter secret ≡ some true

-- The counter is the one of the time, or next to it.
pub record IsNear (counter current : ℕ) : Type 0 where
  pub started : 1 ≤ current
  pub not_early : current ≤ counter + 1
  pub not_late : counter ≤ current + 1

module _ (otp : Otp) (secret : String) (code : Bytes) (at : Time) where
  -- A counter that matches belongs to a code of six digits that the library accepts for it, and is
  -- at most one period from the time.
  pub match_counter-IsMatch :
      (counter : ℕ)
      → match_counter otp secret code at ≡ some (some counter)
      → IsMatch otp secret code counter × IsNear counter (counter_at at)
  unfolding match_counter first_match
  match_counter-IsMatch counter e = (
    record { sized = ground arith; digits = ground arith; accepted = ground arith },
    record { started = ground arith; not_early = ground arith; not_late = ground arith },
  )

  -- A code that the library accepts for the counter of the time matches there.
  pub match_counter-current :
      1 ≤ counter_at at
      → IsMatch otp secret code (counter_at at)
      → match_counter otp secret code at ≡ some (some (counter_at at))
  unfolding match_counter first_match
  match_counter-current started m = ground (arith, m.sized, m.digits, m.accepted)
