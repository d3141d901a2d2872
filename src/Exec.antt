-- ===== src/Exec.antt =====
-- Methods that read and change state and may return an error: Go's `(T, error)` results beside the
-- state that the call left. What was done before an error stays done.

use mathlib.Core.Path.{◌≡◌, refl}
use mathlib.Core.Logic.{◌⊎◌, inl, inr}

pub data Result {ℓ κ} (E : Type ℓ) (A : Type κ) : Type (ℓ ⊔ κ) where
  ok : A → Result E A
  err : E → Result E A

-- What a driver or another package returns, which the packages pass on without looking into it.
pub data Fault : Type 0 where
  no_rows unique_violation foreign_key_violation unavailable : Fault

abbrev pub Exec {ℓ} : Type ℓ → Type ℓ → Type ℓ → Type ℓ
Exec W E A = W → Result E A × W

module _ {ℓ} {W E A : Type ℓ} where
  abbrev pub pure : A → Exec W E A
  pure a w = (ok a, w)

  abbrev pub raise : E → Exec W E A
  raise e w = (err e, w)

  abbrev pub lift : Result E A → Exec W E A
  lift r w = (r, w)

  -- The call's error as a value, for code that inspects it.
  abbrev pub attempt : Exec W E A → Exec W E (Result E A)
  attempt m w = let (r, w') = m w in (ok r, w')

module _ {ℓ} {W E A B : Type ℓ} where
  abbrev pub continue : Result E A → (A → Exec W E B) → Exec W E B
  continue (ok a) f w = f a w
  continue (err e) f w = (err e, w)

  infixl 10 ◌>>=◌ ◌>>◌
  abbrev pub ◌>>=◌ : Exec W E A → (A → Exec W E B) → Exec W E B
  ◌>>=◌ m f w = let (r, w') = m w in continue r f w'

  abbrev pub ◌>>◌ : Exec W E A → Exec W E B → Exec W E B
  m >> n = m >>= λ _. n

abbrev pub map_err {ℓ} : {E F A : Type ℓ} → (E → F) → Result E A → Result F A
map_err g (ok a) = ok a
map_err g (err e) = err (g e)

-- The same call with its error translated: `fmt.Errorf("…: %w", err)` and the like.
abbrev pub rethrow {ℓ} : {W E F A : Type ℓ} → (E → F) → Exec W E A → Exec W F A
rethrow g m w = let (r, w') = m w in (map_err g r, w')

-- Inversion of a successful bind, for proofs where the parts stay shut: the first part succeeded,
-- and the rest ran on what it left.
module _ {ℓ} {W E A B : Type ℓ} where
  continue-ok :
      (r : Result E A) (f : A → Exec W E B) (w : W) {b : B}
      → (continue r f w).0 ≡ ok b
      → (a : A) × (r ≡ ok a) × ((f a w).0 ≡ ok b) × (continue r f w ≡ f a w)
  continue-ok (ok a) f w h = (a, refl, h, refl)
  continue-ok (err e) f w h = cc

  pub bind-ok :
      (m : Exec W E A) (f : A → Exec W E B) (w : W) {b : B}
      → ((m >>= f) w).0 ≡ ok b
      → (a : A) × ((m w).0 ≡ ok a) × ((f a (m w).1).0 ≡ ok b) × ((m >>= f) w ≡ f a (m w).1)
  bind-ok m f w h = continue-ok (m w).0 f (m w).1 h

pub Result-cases {ℓ κ} :
    {E : Type ℓ} {A : Type κ} (r : Result E A) → ((a : A) × (r ≡ ok a)) ⊎ ((e : E) × (r ≡ err e))
Result-cases (ok a) = inl (a, refl)
Result-cases (err e) = inr (e, refl)

pub ok-injective {ℓ κ} :
    {E : Type ℓ} {A : Type κ} {a b : A} → ◌≡◌ {A = Result E A} (ok a) (ok b) → a ≡ b
ok-injective e = cc

-- What every answer of a call that succeeds has, whatever the world.
pub record Answers {ℓ} {W E A : Type ℓ} (P : A → Type ℓ) (m : Exec W E A) : Type ℓ where
  pub holds : (w : W) (a : A) → (m w).0 ≡ ok a → P a

pub bind-Answers {ℓ} :
    {W E A B : Type ℓ} {P : B → Type ℓ} (m : Exec W E A) (f : A → Exec W E B)
    → ((a : A) → Answers P (f a))
    → Answers P (m >>= f)
bind-Answers m f rest = record {
  holds = λ w b h. let (a, _, ran, _) = bind-ok m f w h in (rest a).holds (m w).1 b ran;
}
