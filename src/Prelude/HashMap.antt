-- ===== src/Prelude/HashMap.antt =====
-- `std::collections::HashMap`, as an association list. The order in which a hash map is iterated
-- is not specified: a function that iterates one takes the order as an argument.
use mathlib.Core.Path.{◌≡◌, refl}
use mathlib.Core.Bool.{Bool, true, false}
use mathlib.Core.Option
use mathlib.Core.Option.{Option, none, some}
use mathlib.Core.List.{List, [], ◌∷◌, map}
use native.Mathlib.Omega.{arith}
use fork_observer.Prelude.Tests.{if◌then◌else◌, Key}

abbrev pub HashMap {ℓ κ} : Type ℓ → Type κ → Type (ℓ ⊔ κ)
HashMap K V = List (K × V)

module _ {ℓ κ} {K : Type ℓ} {V : Type κ} ⦃key : Key K⦄ where
  unfoldable pub get : K → HashMap K V → Option V
  get k [] = none
  get k ((j, v) ∷ m) = if key.same j k then some v else get k m

  unfoldable pub insert : K → V → HashMap K V → HashMap K V
  insert k v [] = (k, v) ∷ []
  insert k v ((j, w) ∷ m) = if key.same j k then (j, v) ∷ m else (j, w) ∷ insert k v m

  -- `entry(k).and_modify(f)`
  unfoldable pub and_modify : K → (V → V) → HashMap K V → HashMap K V
  and_modify k f [] = []
  and_modify k f ((j, w) ∷ m) = if key.same j k then (j, f w) ∷ m else (j, w) ∷ and_modify k f m

  pub get-insert :
      (k i : K) (v : V) (m : HashMap K V)
      → get i (insert k v m) ≡ (if key.same k i then some v else get i m)
  unfolding get insert
  get-insert k i v [] = refl
  get-insert k i v ((j, w) ∷ m) =
      ground (arith, key.same_iff j k, key.same_iff j i, key.same_iff k i, get-insert k i v m)

  pub get-and_modify :
      (k i : K) (f : V → V) (m : HashMap K V)
      → get i (and_modify k f m) ≡ (if key.same k i then Option.map f (get i m) else get i m)
  unfolding get and_modify
  get-and_modify k i f [] = ground arith
  get-and_modify k i f ((j, w) ∷ m) =
      ground (arith, key.same_iff j k, key.same_iff j i, key.same_iff k i, get-and_modify k i f m)

  pub keys-and_modify :
      (k : K) (f : V → V) (m : HashMap K V) → map (λ e. e.0) (and_modify k f m) ≡ map (λ e. e.0) m
  unfolding and_modify
  keys-and_modify k f [] = refl
  keys-and_modify k f ((j, w) ∷ m) = ground (arith, keys-and_modify k f m)

abbrev pub is_some {ℓ} : {A : Type ℓ} → Option A → Bool
is_some none = false
is_some (some _) = true

-- `contains_key`
module _ {ℓ κ} {K : Type ℓ} {V : Type κ} ⦃key : Key K⦄ where
  abbrev pub contains_key : K → HashMap K V → Bool
  contains_key k m = is_some (get k m)
