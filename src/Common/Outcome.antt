-- ===== src/Common/Outcome.antt =====
-- A property of the value that an option holds, if it holds one.
use mathlib.Core.Path.{◌≡◌, subst}
use mathlib.Core.Option
use mathlib.Core.Option.{Option, none, some}

module _ {ℓ κ} {A : Type ℓ} where
  abbrev pub Yields : (A → Type κ) → Option A → Type κ
  Yields P none = Unit {κ}
  Yields P (some a) = P a

  pub Yields-elim : (P : A → Type κ) (o : Option A) {a : A} → Yields P o → o ≡ some a → P a
  Yields-elim P o {a} h e = subst (Yields P) e h

  pub Yields-intro : (P : A → Type κ) (o : Option A) → ((a : A) → o ≡ some a → P a) → Yields P o
  Yields-intro P none h = tt
  Yields-intro P (some a) h = h a (λ i. some a)

module _ {ℓ κ} {A B : Type ℓ} (P : A → Type κ) (Q : B → Type κ) where
  pub Yields-map :
      (f : A → B) (o : Option A)
      → ((a : A) → P a → Q (f a))
      → Yields P o
      → Yields Q (Option.map f o)
  Yields-map f none h y = tt
  Yields-map f (some a) h y = h a y

  pub Yields-bind :
      (f : A → Option B) (o : Option A)
      → ((a : A) → P a → Yields Q (f a))
      → Yields P o
      → Yields Q (Option.bind o f)
  unfolding Option.bind
  Yields-bind f none h y = tt
  Yields-bind f (some a) h y = h a y
