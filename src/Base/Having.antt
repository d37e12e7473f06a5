-- ===== src/Base/Having.antt =====
-- A list that has an element with a property, for the loops of the source that look for one.
use mathlib.Core.Bool.{Bool, true}
use mathlib.Core.List.{List, [], ◌∷◌}
use mathlib.Core.Logic.{◌↔◌, ◌⊎◌, inl, inr}
use mathlib.Core.Path.{◌≡◌}
use native.Mathlib.Omega.{arith}
use go_certs_manager.Base.Lists.{any}
use go_certs_manager.Base.Tests.{Bool-cases}

module _ {ℓ} {A : Type ℓ} (P : A → Type 0) where
  abbrev pub Has : List A → Type 0
  Has [] = ⊥
  Has (x ∷ xs) = P x ⊎ Has xs

  module _ (p : A → Bool) (tells : (x : A) → (p x ≡ true) ↔ P x) where
    any-Has : (xs : List A) → any p xs ≡ true → Has xs
    any-Has [] h = absurd (ground (arith, h))
    any-Has (x ∷ xs) h = elim (Bool-cases (p x)) [
      | inl is ↦ inl ((tells x).0 is)
      | inr other ↦ inr (any-Has xs (ground (arith, h, other)))
    ]

    Has-any : (xs : List A) → Has xs → any p xs ≡ true
    Has-any [] h = absurd h
    Has-any (x ∷ xs) (inl is) = ground (arith, (tells x).1 is)
    Has-any (x ∷ xs) (inr later) = ground (arith, Has-any xs later)

    pub any_iff : (xs : List A) → (any p xs ≡ true) ↔ Has xs
    any_iff xs = (any-Has xs, Has-any xs)
