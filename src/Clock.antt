-- ===== src/Clock.antt =====
-- Go's time package, as far as the program uses it.
-- A `Time` counts microseconds (the resolution of the database's timestamps) from Go's zero time,
-- so `IsZero` is a comparison with 0. A `Duration` is a signed count of the same unit.
use authlier.Common.{ℕ, suc, ◌+◌, ◌-◌, ◌*◌, ◌/◌, Bool, ltb, leb, if◌then◌else◌, nat_beq}

abbrev pub Time : Type 0
Time = ℕ

abbrev pub zero_time : Time
zero_time = 0

-- t.Before(u), t.After(u), t.IsZero()
abbrev pub before : Time → Time → Bool
before t u = ltb t u

abbrev pub after : Time → Time → Bool
after t u = ltb u t

abbrev pub is_zero : Time → Bool
is_zero t = nat_beq t 0

-- `negsuc n` is -(n + 1).
pub data Duration : Type 0 where
  pos : ℕ → Duration
  negsuc : ℕ → Duration

abbrev pub pos_part : Duration → ℕ
pos_part (pos n) = n
pos_part (negsuc n) = 0

abbrev pub neg_part : Duration → ℕ
neg_part (pos n) = 0
neg_part (negsuc n) = suc n

-- d > 0
abbrev pub is_positive : Duration → Bool
is_positive d = ltb 0 (pos_part d)

-- d < e
abbrev pub shorter : Duration → Duration → Bool
shorter d e = ltb (pos_part d + neg_part e) (pos_part e + neg_part d)

-- t.Add(d)
abbrev pub add_to : Time → Duration → Time
add_to t d = t + pos_part d - neg_part d

-- t.Sub(u). Go's result saturates after 292 years; the program only compares it with a shorter one.
abbrev pub sub_from : Time → Time → Duration
sub_from t u = if leb u t then pos (t - u) else negsuc (u - t - 1)

-- min(d, e)
abbrev pub shortest : Duration → Duration → Duration
shortest d e = if shorter e d then e else d

-- One second.
abbrev pub second : ℕ
second = 1000000

-- t.Truncate(time.Second)
abbrev pub truncate_second : Time → Time
truncate_second t = t / second * second
