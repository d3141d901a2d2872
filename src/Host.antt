-- ===== src/Host.antt =====
-- What a process reads from outside: the clock, the random source, the UUID generator and the hash.
-- The n-th reading of each is a function of n; `Reads` counts the readings made so far.
use authlier.Common.{ℕ, suc, ◌<◌, ◌≤◌, ◌≡◌, String, Bytes, Option, none, some, All, length}
use authlier.Clock.{Time}
use authlier.Exec.{Result, ok, err, Fault, unavailable, Exec}

-- [sha256.Size]byte, the durable form of a token.
abbrev pub Hash : Type 0
Hash = Bytes

pub record Host : Type 0 where
  -- time.Now().UTC(), or the function that a configuration sets in its place
  pub now : ℕ → Time
  -- crypto/rand.Read into a buffer of the given size; `none` is an error
  pub rand_read : ℕ → ℕ → Option Bytes
  -- uuid.NewV7().String(); `none` is an error
  pub new_uuid : ℕ → Option String
  -- crypto/sha256.Sum256
  pub sum256 : Bytes → Hash

abbrev pub IsByte : ℕ → Type 0
IsByte b = b < 256

-- rand.Read fills the buffer that it is given.
abbrev pub FillsBuffer : Host → Type 0
FillsBuffer host =
    (k n : ℕ) (random : Bytes)
    → host.rand_read k n ≡ some random
    → (length random ≡ n) × All IsByte random

-- The clock does not go back.
abbrev pub IsMonotone : Host → Type 0
IsMonotone host = (i j : ℕ) → i ≤ j → host.now i ≤ host.now j

pub record Reads : Type 0 where
  pub clock : ℕ
  pub draws : ℕ
  pub uuids : ℕ

module _ (host : Host) where
  abbrev pub read_clock : {E : Type 0} → Exec Reads E Time
  read_clock r = (ok (host.now r.clock), record r { clock = suc r.clock })

  abbrev or_unavailable : {A : Type 0} → Option A → Result Fault A
  or_unavailable none = err unavailable
  or_unavailable (some a) = ok a

  abbrev pub read_random : ℕ → Exec Reads Fault Bytes
  read_random n r = (or_unavailable (host.rand_read r.draws n), record r { draws = suc r.draws })

  abbrev pub read_uuid : Exec Reads Fault String
  read_uuid r = (or_unavailable (host.new_uuid r.uuids), record r { uuids = suc r.uuids })
