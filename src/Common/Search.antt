-- ===== src/Common/Search.antt =====
-- Loops that stop at the first element that passes a test.
use mathlib.Core.Path.{◌≡◌, refl}
use mathlib.Core.Bool.{Bool, true, false, ◌||◌}
use mathlib.Core.List.{List, [], ◌∷◌, ◌++◌}
use mathlib.Core.Option.{Option, none, some}
use native.Mathlib.Omega.{arith}
use one_tool.Common.Tests.{if◌then◌else◌}

module _ {ℓ} {A : Type ℓ} (p : A → Bool) where
  unfoldable pub any : List A → Bool
  any [] = false
  any (x ∷ xs) = p x || any xs

  abbrev pub first : List A → Option A
  first [] = none
  first (x ∷ xs) = if p x then some x else first xs

  pub first_snoc :
      (xs : List A) (x : A)
      → first (xs ++ x ∷ [])
        ≡ elim (first xs) [ some y ↦ some y | none ↦ if p x then some x else none ]
  first_snoc [] x = ground arith
  first_snoc (y ∷ xs) x = ground (arith, first_snoc xs x)

  pub first_holds : (xs : List A) (x : A) → first xs ≡ some x → p x ≡ true
  first_holds [] x h = cc
  first_holds (y ∷ xs) x h = ground (arith, first_holds xs x)

  pub any-first : (xs : List A) → any xs ≡ elim (first xs) [ some y ↦ true | none ↦ false ]
  unfolding any
  any-first [] = refl
  any-first (x ∷ xs) = ground (arith, any-first xs)

  pub any_snoc : (xs : List A) (x : A) → any (xs ++ x ∷ []) ≡ (any xs || p x)
  unfolding any
  any_snoc [] x = ground arith
  any_snoc (y ∷ xs) x = ground (arith, any_snoc xs x)

module _ {ℓ} {A : Type ℓ} (p q : A → Bool) where
  pub first_missing : (xs : List A) (x : A) → first p xs ≡ none → first q xs ≡ some x → p x ≡ false
  first_missing [] x missing found = cc
  first_missing (y ∷ xs) x missing found = ground (arith, first_missing xs x)
