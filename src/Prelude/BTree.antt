-- ===== src/Prelude/BTree.antt =====
-- `std::collections::{BTreeMap, BTreeSet}` over integer keys: lists in ascending order of the keys,
-- which is the order of iteration.
use Prim.Native.Nat.{ℕ, ◌<◌}
use mathlib.Core.Path.{◌≡◌, refl, sym, subst}
use mathlib.Core.Option
use mathlib.Core.Option.{Option, none, some}
use mathlib.Core.List.{List, [], ◌∷◌, ◌++◌, map}
use native.Mathlib.Omega.{arith}
use native.Mathlib.Decide.{ℕ_discrete}
use fork_observer.Prelude.Tests.{if◌then◌else◌, ltb, ◌==◌, ==_iff, Bool-cases}
use fork_observer.Prelude.Lists.{All, In}
use mathlib.Core.Logic.{◌⊎◌, inl, inr, ◌↔◌}

abbrev pub BTreeMap {ℓ} : Type ℓ → Type ℓ
BTreeMap V = List (ℕ × V)

module _ {ℓ} {V : Type ℓ} where
  unfoldable pub get : ℕ → BTreeMap V → Option V
  get k [] = none
  get k ((j, v) ∷ m) = if j == k then some v else get k m

  unfoldable pub insert : ℕ → V → BTreeMap V → BTreeMap V
  insert k v [] = (k, v) ∷ []
  insert k v ((j, w) ∷ m) =
      if ltb k j then (k, v) ∷ (j, w) ∷ m else if j == k then (j, v) ∷ m else (j, w) ∷ insert k v m

  -- `entry(k).and_modify(f)`
  unfoldable pub and_modify : ℕ → (V → V) → BTreeMap V → BTreeMap V
  and_modify k f [] = []
  and_modify k f ((j, w) ∷ m) = if j == k then (j, f w) ∷ m else (j, w) ∷ and_modify k f m

  abbrev pub keys : BTreeMap V → List ℕ
  keys m = map (λ e. e.0) m

  abbrev pub values : BTreeMap V → List V
  values m = map (λ e. e.1) m

  pub get-insert :
      (k i : ℕ) (v : V) (m : BTreeMap V)
      → get i (insert k v m) ≡ (if k == i then some v else get i m)
  unfolding get insert
  get-insert k i v [] = refl
  get-insert k i v ((j, w) ∷ m) = ground (arith, get-insert k i v m)

  pub get-and_modify :
      (k i : ℕ) (f : V → V) (m : BTreeMap V)
      → get i (and_modify k f m) ≡ (if k == i then Option.map f (get i m) else get i m)
  unfolding get and_modify
  get-and_modify k i f [] = ground arith
  get-and_modify k i f ((j, w) ∷ m) = ground (arith, get-and_modify k i f m)

  pub keys-and_modify : (k : ℕ) (f : V → V) (m : BTreeMap V) → keys (and_modify k f m) ≡ keys m
  unfolding and_modify
  keys-and_modify k f [] = refl
  keys-and_modify k f ((j, w) ∷ m) = ground (arith, keys-and_modify k f m)

-- A set is the list of its members.
abbrev pub BTreeSet : Type 0
BTreeSet = List ℕ

unfoldable pub add : ℕ → BTreeSet → BTreeSet
add k [] = k ∷ []
add k (j ∷ s) = if ltb k j then k ∷ j ∷ s else if j == k then j ∷ s else j ∷ add k s

-- Every item is above `n`.
abbrev pub AllAbove : ℕ → List ℕ → Type 0
AllAbove n = All (λ x. n < x)

-- In strictly ascending order.
abbrev pub IsAscending : List ℕ → Type 0
IsAscending [] = Unit
IsAscending (x ∷ xs) = AllAbove x xs × IsAscending xs

AllAbove-add : (n k : ℕ) (s : BTreeSet) → n < k → AllAbove n s → AllAbove n (add k s)
unfolding add
AllAbove-add n k [] h a = (h, tt)
AllAbove-add n k (j ∷ s) h a = ground (arith, AllAbove-add n k s h a.1)

AllAbove-trans : (m n : ℕ) (s : BTreeSet) → m < n → AllAbove n s → AllAbove m s
AllAbove-trans m n [] h a = tt
AllAbove-trans m n (j ∷ s) h a = (omega (arith, a.0), AllAbove-trans m n s h a.1)

pub add-IsAscending : (k : ℕ) (s : BTreeSet) → IsAscending s → IsAscending (add k s)
unfolding add
add-IsAscending k [] h = (tt, tt)
add-IsAscending k (j ∷ s) h = ground (
  arith,
  λ (lt : k < j). AllAbove-trans k j s lt h.0,
  λ (lt : j < k). AllAbove-add j k s lt h.0,
  add-IsAscending k s h.1,
)

pub in-add : (x k : ℕ) (s : BTreeSet) → In x (add k s) ↔ ((x ≡ k) ⊎ In x s)
unfolding add
in-add x k [] = (λ h. h, λ h. h)
in-add x k (j ∷ s) = ground (arith, in-add x k s)

module _ {ℓ} {V : Type ℓ} where
  -- A key that is listed has a value.
  pub get_of_in-keys : (k : ℕ) (m : BTreeMap V) → In k (keys m) → (v : V) × (get k m ≡ some v)
  unfolding get
  get_of_in-keys k [] h = absurd h
  get_of_in-keys k ((j, w) ∷ m) (inl e) = (w, ground arith)
  get_of_in-keys k ((j, w) ∷ m) (inr h) = elim (ℕ_discrete j k) [
    | yes e ↦ (w, ground arith)
    | no ne ↦ let (v, found) = get_of_in-keys k m h in (v, ground arith)
  ]

  pub in-keys-insert :
      (k i : ℕ) (v : V) (m : BTreeMap V) → In i (keys (insert k v m)) ↔ ((i ≡ k) ⊎ In i (keys m))
  unfolding insert
  in-keys-insert k i v [] = (λ h. h, λ h. h)
  in-keys-insert k i v ((j, w) ∷ m) = ground (arith, in-keys-insert k i v m)

-- Each entry, the key with its value, satisfies `P`.
module _ {ℓ κ} {V : Type ℓ} (P : ℕ → V → Type κ) where
  abbrev pub Entries : BTreeMap V → Type κ
  Entries = All (λ e. P e.0 e.1)

  pub Entries-insert : (k : ℕ) (v : V) (m : BTreeMap V) → P k v → Entries m → Entries (insert k v m)
  unfolding insert
  Entries-insert k v [] p h = (p, tt)
  Entries-insert k v ((j, w) ∷ m) p h = elim (Bool-cases (ltb k j)) [
    | inl lt ↦ rw lt (p, h)
    | inr ge ↦ rw ge (elim (Bool-cases (j == k)) [
      | inl e ↦ rw e (subst (λ i. P i v) (sym ((==_iff j k).0 e)) p, h.1)
      | inr ne ↦ rw ne (h.0, Entries-insert k v m p h.1)
    ])
  ]

  pub Entries-and_modify :
      (k : ℕ) (f : V → V) (m : BTreeMap V)
      → ((v : V) → P k v → P k (f v))
      → Entries m
      → Entries (and_modify k f m)
  unfolding and_modify
  Entries-and_modify k f [] keep h = tt
  Entries-and_modify k f ((j, w) ∷ m) keep h = elim (Bool-cases (j == k)) [
    | inl e ↦
        let same = (==_iff j k).0 e in
        rw e (subst (λ i. P i (f w)) (sym same) (keep w (subst (λ i. P i w) same h.0)), h.1)
    | inr ne ↦ rw ne (h.0, Entries-and_modify k f m keep h.1)
  ]

  pub Entries-get : (k : ℕ) (v : V) (m : BTreeMap V) → Entries m → get k m ≡ some v → P k v
  unfolding get
  Entries-get k v [] h e = absurd (cc)
  Entries-get k v ((j, w) ∷ m) h e = elim (Bool-cases (j == k)) [
    | inl same ↦
        let at_k = subst (λ i. P i w) ((==_iff j k).0 same) h.0 in subst (P k) (ground arith) at_k
    | inr other ↦ Entries-get k v m h.1 (rw other at e)
  ]

module _ {ℓ} {V : Type ℓ} where
  pub keys-insert : (k : ℕ) (v : V) (m : BTreeMap V) → keys (insert k v m) ≡ add k (keys m)
  unfolding insert add
  keys-insert k v [] = refl
  keys-insert k v ((j, w) ∷ m) = ground (arith, keys-insert k v m)

  pub in-keys_of_get : (k : ℕ) (v : V) (m : BTreeMap V) → get k m ≡ some v → In k (keys m)
  unfolding get
  in-keys_of_get k v [] e = absurd (cc)
  in-keys_of_get k v ((j, w) ∷ m) e = elim (ℕ_discrete j k) [
    | yes same ↦ inl (sym same)
    | no other ↦ inr (in-keys_of_get k v m (ground arith))
  ]

pub IsAscending-append_right : (xs ys : List ℕ) → IsAscending (xs ++ ys) → IsAscending ys
IsAscending-append_right [] ys h = h
IsAscending-append_right (x ∷ xs) ys h = IsAscending-append_right xs ys h.1

pub AllAbove-in : (n x : ℕ) (xs : List ℕ) → AllAbove n xs → In x xs → n < x
AllAbove-in n x [] a h = absurd h
AllAbove-in n x (y ∷ ys) a (inl e) = rw e a.0
AllAbove-in n x (y ∷ ys) a (inr m) = AllAbove-in n x ys a.1 m
