-- ===== src/Prelude/Sort.antt =====
-- The stable `sort_by_key` of a vector, by insertion.
use mathlib.Core.List.Perm
use mathlib.Core.List.{List, [], ◌∷◌, Perm}
use mathlib.Core.Path.{◌≡◌, refl, sym}
use mathlib.Core.Logic.{inl, inr, ◌↔◌, ◌⊎◌}
use Prim.Native.Nat.{ℕ, ◌≤◌, ◌<◌}
use native.Mathlib.Omega.{arith}
use fork_observer.Prelude.Tests.{if◌then◌else◌, leb, Bool-cases, leb→le}
use fork_observer.Prelude.Lists.{All, In, Distinct}
use fork_observer.Prelude.BTree.{IsAscending}

module _ {ℓ} {A : Type ℓ} (key : A → ℕ) where
  unfoldable pub insert_by : A → List A → List A
  insert_by x [] = x ∷ []
  insert_by x (y ∷ ys) = if leb (key x) (key y) then x ∷ y ∷ ys else y ∷ insert_by x ys

  unfoldable pub sort_by_key : List A → List A
  unfolding insert_by
  sort_by_key [] = []
  sort_by_key (x ∷ xs) = insert_by x (sort_by_key xs)

  -- No item has a smaller key than an item before it.
  abbrev pub IsSortedBy : List A → Type 0
  IsSortedBy [] = Unit
  IsSortedBy (x ∷ xs) = All (λ y. key x ≤ key y) xs × IsSortedBy xs

  All-insert_by :
      (n : ℕ) (x : A) (xs : List A)
      → n ≤ key x
      → All (λ y. n ≤ key y) xs
      → All (λ y. n ≤ key y) (insert_by x xs)
  unfolding insert_by
  All-insert_by n x [] h a = (h, tt)
  All-insert_by n x (y ∷ ys) h a = elim (Bool-cases (leb (key x) (key y))) [
    | inl le ↦ rw le (h, a)
    | inr gt ↦ rw gt (a.0, All-insert_by n x ys h a.1)
  ]

  All-le_trans : (m n : ℕ) (xs : List A) → m ≤ n → All (λ y. n ≤ key y) xs → All (λ y. m ≤ key y) xs
  All-le_trans m n [] h a = tt
  All-le_trans m n (x ∷ xs) h a = (omega (arith, a.0), All-le_trans m n xs h a.1)

  insert_by-IsSortedBy : (x : A) (xs : List A) → IsSortedBy xs → IsSortedBy (insert_by x xs)
  unfolding insert_by
  insert_by-IsSortedBy x [] s = (tt, tt)
  insert_by-IsSortedBy x (y ∷ ys) s = elim (Bool-cases (leb (key x) (key y))) [
    | inl le ↦
        let h = leb→le (key x) (key y) le in rw le ((h, All-le_trans (key x) (key y) ys h s.0), s)
    | inr gt ↦ rw gt (All-insert_by (key y) x ys (ground arith) s.0, insert_by-IsSortedBy x ys s.1)
  ]

  pub sort_by_key-IsSortedBy : (xs : List A) → IsSortedBy (sort_by_key xs)
  unfolding sort_by_key
  sort_by_key-IsSortedBy [] = tt
  sort_by_key-IsSortedBy (x ∷ xs) =
      insert_by-IsSortedBy x (sort_by_key xs) (sort_by_key-IsSortedBy xs)

  insert_by-perm : (x : A) (xs : List A) → Perm (insert_by x xs) (x ∷ xs)
  unfolding insert_by
  insert_by-perm x [] = Perm.refl (x ∷ [])
  insert_by-perm x (y ∷ ys) = elim (Bool-cases (leb (key x) (key y))) [
    | inl le ↦ rw le (Perm.refl (x ∷ y ∷ ys))
    | inr gt ↦ rw gt (Perm.trans (Perm.cons y (insert_by-perm x ys)) (Perm.swap x y ys))
  ]

  pub sort_by_key-perm : (xs : List A) → Perm (sort_by_key xs) xs
  unfolding sort_by_key
  sort_by_key-perm [] = Perm.refl []
  sort_by_key-perm (x ∷ xs) =
      Perm.trans (insert_by-perm x (sort_by_key xs)) (Perm.cons x (sort_by_key-perm xs))

  insert_by-front : (x : A) (xs : List A) → All (λ y. key x ≤ key y) xs → insert_by x xs ≡ x ∷ xs
  unfolding insert_by
  insert_by-front x [] a = refl
  insert_by-front x (y ∷ ys) a = ground (arith, a.0)

  -- A list that is sorted already stays as it is.
  pub sort_by_key-sorted : (xs : List A) → IsSortedBy xs → sort_by_key xs ≡ xs
  unfolding sort_by_key
  sort_by_key-sorted [] s = refl
  sort_by_key-sorted (x ∷ xs) s = rw (sort_by_key-sorted xs s.1) (insert_by-front x xs s.0)

-- `sort()` of a vector of integers
abbrev pub sort : List ℕ → List ℕ
sort = sort_by_key (λ n. n)

pub sort-ascending : (xs : List ℕ) → IsAscending xs → sort xs ≡ xs
sort-ascending xs h = sort_by_key-sorted (λ n. n) xs (weaken xs h)
  where
    weaken_all : (n : ℕ) (ys : List ℕ) → All (λ y. n < y) ys → All (λ y. n ≤ y) ys
    weaken_all n [] a = tt
    weaken_all n (y ∷ ys) a = (omega (arith, a.0), weaken_all n ys a.1)

    weaken : (ys : List ℕ) → IsAscending ys → IsSortedBy (λ n. n) ys
    weaken [] a = tt
    weaken (y ∷ ys) a = (weaken_all y ys a.0, weaken ys a.1)

module _ {A : Type 0} (key : A → ℕ) where
  pub in-insert_by : (r x : A) (ys : List A) → In r (insert_by key x ys) ↔ ((r ≡ x) ⊎ In r ys)
  unfolding insert_by
  in-insert_by r x [] = (λ h. h, λ h. h)
  in-insert_by r x (y ∷ ys) = elim (Bool-cases (leb (key x) (key y))) [
    | inl le ↦ rw le (λ h. h, λ h. h)
    | inr gt ↦
        let rest = in-insert_by r x ys in
        rw gt (
          λ h. elim h [
            | inl e ↦ inr (inl e)
            | inr m ↦ elim (rest.0 m) [ inl e ↦ inl e | inr l ↦ inr (inr l) ]
          ],
          λ h. elim h [
            | inl e ↦ inr (rest.1 (inl e))
            | inr (inl e) ↦ inl e
            | inr (inr l) ↦ inr (rest.1 (inr l))
          ],
        )
  ]

  -- Sorting keeps the items.
  pub in-sort_by_key : (r : A) (xs : List A) → In r (sort_by_key key xs) ↔ In r xs
  unfolding sort_by_key
  in-sort_by_key r [] = (λ h. h, λ h. h)
  in-sort_by_key r (x ∷ xs) =
      let new = in-insert_by r x (sort_by_key key xs) in
      let rest = in-sort_by_key r xs in
      (
        λ h. elim (new.0 h) [ inl e ↦ inl e | inr m ↦ inr (rest.0 m) ],
        λ h. new.1 (elim h [ inl e ↦ inl e | inr m ↦ inr (rest.1 m) ]),
      )

module _ (key : ℕ → ℕ) where
  Distinct-insert_by :
      (x : ℕ) (ys : List ℕ) → (¬ In x ys) → Distinct ys → Distinct (insert_by key x ys)
  unfolding insert_by
  Distinct-insert_by x [] new d = (new, tt)
  Distinct-insert_by x (y ∷ ys) new d = elim (Bool-cases (leb (key x) (key y))) [
    | inl le ↦ rw le (new, d)
    | inr gt ↦ rw gt (
      λ m. elim ((in-insert_by key y x ys).0 m) [ inl e ↦ new (inl (sym e)) | inr l ↦ d.0 l ],
      Distinct-insert_by x ys (λ m. new (inr m)) d.1,
    )
  ]

  pub Distinct-sort_by_key : (xs : List ℕ) → Distinct xs → Distinct (sort_by_key key xs)
  unfolding sort_by_key
  Distinct-sort_by_key [] d = tt
  Distinct-sort_by_key (x ∷ xs) d =
      Distinct-insert_by x (sort_by_key key xs) (λ m. d.0 ((in-sort_by_key key x xs).0 m))
        (Distinct-sort_by_key xs d.1)
