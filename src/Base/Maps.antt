-- ===== src/Base/Maps.antt =====
-- Go's maps keyed by strings, as association lists. `insert` is `m[k] = v`, `remove` is
-- `delete(m, k)`, and `lookup` is `v, ok := m[k]`.
use Prim.Native.Nat.{suc, ◌≤◌}
use mathlib.Core.Bool.{Bool, true, false}
use mathlib.Core.List.{List, [], ◌∷◌}
use mathlib.Core.Option.{Option, none, some}
use mathlib.Core.Path.{◌≡◌, refl}
use native.Mathlib.Omega.{arith}
use go_certs_manager.Base.Lists.{any, length}
use go_certs_manager.Base.Tests.{if◌then◌else◌}
use go_certs_manager.Base.Strings.{Text, text_eq, text_eq_refl}

abbrev pub Map {ℓ} : Type ℓ → Type ℓ
Map V = List (Text × V)

module _ {ℓ} {V : Type ℓ} where
  unfoldable pub lookup : Text → Map V → Option V
  lookup k [] = none
  lookup k ((j, v) ∷ m) = if text_eq j k then some v else lookup k m

  unfoldable pub insert : Text → V → Map V → Map V
  insert k v [] = (k, v) ∷ []
  insert k v ((j, w) ∷ m) = if text_eq j k then (k, v) ∷ m else (j, w) ∷ insert k v m

  unfoldable pub remove : Text → Map V → Map V
  remove k [] = []
  remove k ((j, w) ∷ m) = if text_eq j k then remove k m else (j, w) ∷ remove k m

  -- The loop `for k := range m { if !keep(k) { delete(m, k) } }`.
  unfoldable pub keep_keys : (Text → Bool) → Map V → Map V
  keep_keys keep [] = []
  keep_keys keep ((j, w) ∷ m) = if keep j then (j, w) ∷ keep_keys keep m else keep_keys keep m

  -- `_, ok := m[k]`.
  unfoldable pub has_key : Text → Map V → Bool
  has_key k [] = false
  has_key k ((j, w) ∷ m) = if text_eq j k then true else has_key k m

  unfoldable pub keys : Map V → List Text
  keys [] = []
  keys ((j, w) ∷ m) = j ∷ keys m

  pub any-keys : (k : Text) (m : Map V) → any (λ j. text_eq j k) (keys m) ≡ has_key k m
  unfolding has_key keys
  any-keys k [] = refl
  any-keys k (e ∷ m) = ground (arith, any-keys k m)

  pub has_key-insert :
      (k j : Text) (v : V) (m : Map V)
      → has_key j (insert k v m) ≡ (if text_eq k j then true else has_key j m)
  unfolding has_key insert
  has_key-insert k j v [] = refl
  has_key-insert k j v ((i, w) ∷ m) = ground (arith, has_key-insert k j v m)

  pub has_key-keep_keys :
      (keep : Text → Bool) (j : Text) (m : Map V)
      → has_key j (keep_keys keep m) ≡ (if keep j then has_key j m else false)
  unfolding has_key keep_keys
  has_key-keep_keys keep j [] = ground arith
  has_key-keep_keys keep j ((i, w) ∷ m) = ground (arith, has_key-keep_keys keep j m)

  pub lookup-insert :
      (k j : Text) (v : V) (m : Map V)
      → lookup j (insert k v m) ≡ (if text_eq k j then some v else lookup j m)
  unfolding lookup insert
  lookup-insert k j v [] = refl
  lookup-insert k j v ((i, w) ∷ m) = ground (arith, lookup-insert k j v m)

  pub lookup-remove :
      (k j : Text) (m : Map V) → lookup j (remove k m) ≡ (if text_eq k j then none else lookup j m)
  unfolding lookup remove
  lookup-remove k j [] = ground arith
  lookup-remove k j ((i, w) ∷ m) = ground (arith, lookup-remove k j m)

  pub lookup-keep_keys :
      (keep : Text → Bool) (j : Text) (m : Map V)
      → lookup j (keep_keys keep m) ≡ (if keep j then lookup j m else none)
  unfolding lookup keep_keys
  lookup-keep_keys keep j [] = ground arith
  lookup-keep_keys keep j ((i, w) ∷ m) = ground (arith, lookup-keep_keys keep j m)

  pub length-insert-le : (k : Text) (v : V) (m : Map V) → length (insert k v m) ≤ suc (length m)
  unfolding insert
  length-insert-le k v [] = omega arith
  length-insert-le k v ((j, w) ∷ m) = ground (arith, length-insert-le k v m)

  pub lookup-insert_self : (k : Text) (v : V) (m : Map V) → lookup k (insert k v m) ≡ some v
  lookup-insert_self k v m = rw (lookup-insert k k v m, text_eq_refl k)

  pub lookup-insert_ne :
      (k j : Text) (v : V) (m : Map V) → text_eq k j ≡ false → lookup j (insert k v m) ≡ lookup j m
  lookup-insert_ne k j v m h = rw (lookup-insert k j v m, h)

  pub lookup-remove_self : (k : Text) (m : Map V) → lookup k (remove k m) ≡ none
  lookup-remove_self k m = rw (lookup-remove k k m, text_eq_refl k)

  pub lookup-remove_ne :
      (k j : Text) (m : Map V) → text_eq k j ≡ false → lookup j (remove k m) ≡ lookup j m
  lookup-remove_ne k j m h = rw (lookup-remove k j m, h)
