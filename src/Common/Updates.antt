-- ===== src/Common/Updates.antt =====
-- How searches see an update of some rows of a list.
use mathlib.Core.Option
use mathlib.Core.Option.{Option, none, some}
use mathlib.Core.Path.{◌≡◌, refl}
use mathlib.Core.Logic.{inl, inr}
use mathlib.Core.Bool.{Bool, true, false, ◌||◌}
use mathlib.Core.List.{List, [], ◌∷◌}
use native.Mathlib.Omega.{arith}
use authlier.Common.Tests.{if◌then◌else◌, Bool-cases}
use authlier.Common.Lists.{any, find?, select, update_where}

module _ {ℓ} {A : Type ℓ} where
  -- An update that a search does not notice: it changes the row found, and no row's key.
  pub find?-update_where :
      (p q : A → Bool) (f : A → A) (xs : List A)
      → ((a : A) → p (f a) ≡ p a)
      → find? p (update_where q f xs) ≡ Option.map (λ a. if q a then f a else a) (find? p xs)
  find?-update_where p q f [] h = refl
  find?-update_where p q f (x ∷ xs) h = ground (arith, h x, find?-update_where p q f xs h)

  pub any-update_where :
      (p q : A → Bool) (f : A → A) (xs : List A)
      → ((a : A) → p (f a) ≡ p a)
      → any p (update_where q f xs) ≡ any p xs
  any-update_where p q f [] h = refl
  any-update_where p q f (x ∷ xs) h = ground (arith, h x, any-update_where p q f xs h)

  -- An update that no row asks for changes nothing.
  pub update_where_none :
      (p : A → Bool) (f : A → A) (xs : List A) → any p xs ≡ false → update_where p f xs ≡ xs
  update_where_none p f [] h = refl
  update_where_none p f (x ∷ xs) h = ground (arith, update_where_none p f xs)

  pub find?-none : (p : A → Bool) (xs : List A) → any p xs ≡ false → find? p xs ≡ none
  find?-none p [] h = refl
  find?-none p (x ∷ xs) h = ground (arith, find?-none p xs)

  pub any-find? : (p : A → Bool) (xs : List A) (a : A) → find? p xs ≡ some a → any p xs ≡ true
  any-find? p [] a h = ground arith
  any-find? p (x ∷ xs) a h = ground (arith, any-find? p xs a)

  -- What is found passes the test.
  pub find?-passes : (p : A → Bool) (xs : List A) (a : A) → find? p xs ≡ some a → p a ≡ true
  find?-passes p [] a h = ground arith
  find?-passes p (x ∷ xs) a h = ground (arith, find?-passes p xs a)

  pub any-or_left :
      (p q : A → Bool) (xs : List A) → any (λ a. p a || q a) xs ≡ false → any p xs ≡ false
  any-or_left p q [] h = refl
  any-or_left p q (x ∷ xs) h = ground (arith, any-or_left p q xs)

  pub find?-some : (p : A → Bool) (xs : List A) → any p xs ≡ true → (a : A) × (find? p xs ≡ some a)
  find?-some p [] h = absurd (ground arith)
  find?-some p (x ∷ xs) h = elim (Bool-cases (p x)) [
    | inl hit ↦ (x, rw hit)
    | inr miss ↦ rw miss (find?-some p xs (ground arith))
  ]

  -- An update after which no row passes a test that none passed before.
  pub any-update_none :
      (p q : A → Bool) (f : A → A) (xs : List A)
      → ((a : A) → p a ≡ false → q a ≡ true → p (f a) ≡ false)
      → any p xs ≡ false
      → any p (update_where q f xs) ≡ false
  any-update_none p q f [] keeps h = refl
  any-update_none p q f (x ∷ xs) keeps h = ground (arith, keeps x, any-update_none p q f xs keeps)

  -- An update after which no row passes the test, whatever passed before.
  pub any-update_clear :
      (p q : A → Bool) (f : A → A) (xs : List A)
      → ((a : A) → (if q a then p (f a) else p a) ≡ false)
      → any p (update_where q f xs) ≡ false
  any-update_clear p q f [] clears = refl
  any-update_clear p q f (x ∷ xs) clears =
      ground (arith, clears x, any-update_clear p q f xs clears)

  pub any-select_none :
      (p q : A → Bool) (xs : List A) → any p xs ≡ false → any p (select q xs) ≡ false
  any-select_none p q [] h = refl
  any-select_none p q (x ∷ xs) h = ground (arith, any-select_none p q xs)

  -- An update that a passing row passes through.
  pub any-update_keep :
      (p q : A → Bool) (f : A → A) (xs : List A)
      → ((a : A) → p a ≡ true → q a ≡ true → p (f a) ≡ true)
      → any p xs ≡ true
      → any p (update_where q f xs) ≡ true
  any-update_keep p q f [] keeps h = ground arith
  any-update_keep p q f (x ∷ xs) keeps h = ground (arith, keeps x, any-update_keep p q f xs keeps)

  -- Rows that are taken out are not there.
  pub any-select_clear :
      (p q : A → Bool) (xs : List A)
      → ((a : A) → q a ≡ true → p a ≡ false)
      → any p (select q xs) ≡ false
  any-select_clear p q [] clears = refl
  any-select_clear p q (x ∷ xs) clears = ground (arith, clears x, any-select_clear p q xs clears)

  pub any-select_keep :
      (p q : A → Bool) (xs : List A)
      → ((a : A) → p a ≡ true → q a ≡ true)
      → any p xs ≡ true
      → any p (select q xs) ≡ true
  any-select_keep p q [] keeps h = ground arith
  any-select_keep p q (x ∷ xs) keeps h = ground (arith, keeps x, any-select_keep p q xs keeps)
