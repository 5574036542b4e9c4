-- ===== src/Prelude/Lists.antt =====
-- Lists measured by native numbers, and the iterator methods that the source uses.
use Prim.Native.Nat.{min, ℕ, zero, suc, ◌+◌, ◌<◌}
use mathlib.Core.Path.{◌∙◌, ◌≡◌, refl, sym, ap, subst}
use mathlib.Core.Logic.{◌⊎◌, inl, inr, ◌↔◌, ◌≢◌}
use mathlib.Core.Bool.{Bool, true}
use mathlib.Core.List.{map, reverse, reverse-append, List, [], ◌∷◌, ◌++◌}
use mathlib.Core.Option.{Option, none, some}
use native.Mathlib.Omega.{arith}
use fork_observer.Prelude.Tests.{if◌then◌else◌, Bool-cases}

module _ {ℓ} {A : Type ℓ} where
  abbrev pub length : List A → ℕ
  length [] = 0
  length (x ∷ xs) = suc (length xs)

  abbrev pub get_elem? : List A → ℕ → Option A
  get_elem? [] i = none
  get_elem? (x ∷ xs) zero = some x
  get_elem? (x ∷ xs) (suc i) = get_elem? xs i

  -- The list with another item at an index; the same list if the index is out of bounds.
  abbrev pub set_elem : List A → ℕ → A → List A
  set_elem [] i y = []
  set_elem (x ∷ xs) zero y = y ∷ xs
  set_elem (x ∷ xs) (suc i) y = x ∷ set_elem xs i y

  abbrev pub take : ℕ → List A → List A
  take zero xs = []
  take (suc n) [] = []
  take (suc n) (x ∷ xs) = x ∷ take n xs

  abbrev pub drop : ℕ → List A → List A
  drop zero xs = xs
  drop (suc n) [] = []
  drop (suc n) (x ∷ xs) = drop n xs

  -- `iter().filter(p)`
  abbrev pub select : (A → Bool) → List A → List A
  select p [] = []
  select p (x ∷ xs) = if p x then x ∷ select p xs else select p xs

  -- `iter().last()`
  abbrev pub last : List A → Option A
  last [] = none
  last (x ∷ []) = some x
  last (x ∷ y ∷ xs) = last (y ∷ xs)

  abbrev pub All {κ} : (A → Type κ) → List A → Type κ
  All P [] = Unit
  All P (x ∷ xs) = P x × All P xs

  pub length-append : (xs ys : List A) → length (xs ++ ys) ≡ length xs + length ys
  length-append [] ys = omega arith
  length-append (x ∷ xs) ys = omega (arith, length-append xs ys)

-- `a` is an item of the list.
abbrev pub In : {A : Type 0} → A → List A → Type 0
In a [] = ⊥
In a (x ∷ xs) = (a ≡ x) ⊎ In a xs

module _ {ℓ} {A : Type ℓ} where
  pub get_elem?-lt : (xs : List A) (i : ℕ) {x : A} → get_elem? xs i ≡ some x → i < length xs
  get_elem?-lt [] i h = absurd (cc)
  get_elem?-lt (x ∷ xs) zero h = omega arith
  get_elem?-lt (x ∷ xs) (suc i) h = omega (arith, get_elem?-lt xs i h)

  pub get_elem?-append :
      (xs ys : List A) (i : ℕ) {x : A} → get_elem? xs i ≡ some x → get_elem? (xs ++ ys) i ≡ some x
  get_elem?-append [] ys i h = absurd (cc)
  get_elem?-append (x ∷ xs) ys zero h = h
  get_elem?-append (x ∷ xs) ys (suc i) h = get_elem?-append xs ys i h

  pub get_elem?-snoc : (xs : List A) (x : A) → get_elem? (xs ++ x ∷ []) (length xs) ≡ some x
  get_elem?-snoc [] x = refl
  get_elem?-snoc (y ∷ xs) x = get_elem?-snoc xs x

  -- An item of a list with one more item is an old one, or the new one at the end.
  pub get_elem?-snoc_cases :
      (xs : List A) (x : A) (i : ℕ) {y : A}
      → get_elem? (xs ++ x ∷ []) i ≡ some y
      → (get_elem? xs i ≡ some y) ⊎ ((i ≡ length xs) × (y ≡ x))
  get_elem?-snoc_cases [] x zero h = inr (refl, ground arith)
  get_elem?-snoc_cases [] x (suc i) h = absurd (cc)
  get_elem?-snoc_cases (z ∷ xs) x zero h = inl h
  get_elem?-snoc_cases (z ∷ xs) x (suc i) h = elim (get_elem?-snoc_cases xs x i h) [
    | inl old ↦ inl old
    | inr (e, same) ↦ inr (ap suc e, same)
  ]

module _ {A : Type 0} where
  pub in-append : (a : A) (xs ys : List A) → In a (xs ++ ys) ↔ (In a xs ⊎ In a ys)
  in-append a [] ys = (λ h. inr h, λ h. elim h [ inl m ↦ absurd m | inr m ↦ m ])
  in-append a (x ∷ xs) ys =
      let ih = in-append a xs ys in
      (
        λ h. elim h [
          | inl e ↦ inl (inl e)
          | inr m ↦ elim (ih.0 m) [ inl l ↦ inl (inr l) | inr r ↦ inr r ]
        ],
        λ h. elim h [
          | inl m ↦ elim m [ inl e ↦ inl e | inr l ↦ inr (ih.1 (inl l)) ]
          | inr r ↦ inr (ih.1 (inr r))
        ],
      )

  pub All-in {κ} : (P : A → Type κ) (xs : List A) {a : A} → All P xs → In a xs → P a
  All-in P [] h m = absurd m
  All-in P (x ∷ xs) h (inl e) = subst P (sym e) h.0
  All-in P (x ∷ xs) h (inr m) = All-in P xs h.1 m

  pub in_of_get_elem? : (xs : List A) (i : ℕ) {x : A} → get_elem? xs i ≡ some x → In x xs
  in_of_get_elem? [] i e = absurd (cc)
  in_of_get_elem? (y ∷ ys) zero e = inl (ground arith)
  in_of_get_elem? (y ∷ ys) (suc i) e = inr (in_of_get_elem? ys i e)

module _ {ℓ} {A : Type ℓ} where
  pub take-append-drop : (n : ℕ) (xs : List A) → take n xs ++ drop n xs ≡ xs
  take-append-drop zero xs = refl
  take-append-drop (suc n) [] = refl
  take-append-drop (suc n) (x ∷ xs) = rw (take-append-drop n xs)

  pub length-take : (n : ℕ) (xs : List A) → length (take n xs) ≡ min n (length xs)
  length-take zero xs = omega arith
  length-take (suc n) [] = omega arith
  length-take (suc n) (x ∷ xs) = omega (arith, length-take n xs)

  pub length-reverse : (xs : List A) → length (reverse xs) ≡ length xs
  length-reverse [] = refl
  length-reverse (x ∷ xs) =
      ap length (reverse-append (x ∷ []) xs)
      ∙ length-append (reverse xs) (x ∷ [])
      ∙ omega (arith, length-reverse xs)

pub in-select :
    {A : Type 0} (p : A → Bool) (x : A) (xs : List A)
    → In x (select p xs) ↔ (In x xs × (p x ≡ true))
in-select p x [] = (λ h. absurd h, λ h. h.0)
in-select p x (y ∷ ys) = elim (Bool-cases (p y)) [
  | inl e ↦ rw e (
    λ h. elim h [
      | inl same ↦ (inl same, rw same e)
      | inr rest ↦ let (m, q) = (in-select p x ys).0 rest in (inr m, q)
    ],
    λ (m, q). elim m [ inl same ↦ inl same | inr rest ↦ inr ((in-select p x ys).1 (rest, q)) ],
  )
  | inr e ↦ rw e (
    λ h. let (m, q) = (in-select p x ys).0 h in (inr m, q),
    λ (m, q). elim m [
      | inl same ↦ absurd (ground arith)
      | inr rest ↦ (in-select p x ys).1 (rest, q)
    ],
  )
]

pub in-map :
    {A B : Type 0} (f : A → B) (y : B) (xs : List A)
    → In y (map f xs) ↔ ((x : A) × In x xs × (y ≡ f x))
in-map f y [] = (λ h. absurd h, λ h. absurd (h.1))
in-map f y (x ∷ xs) =
    let rest = in-map f y xs in
    (
      λ h. elim h [
        | inl e ↦ (x, inl refl, e)
        | inr m ↦ let (a, listed, e) = rest.0 m in (a, inr listed, e)
      ],
      λ (a, listed, e). elim listed [
        | inl same ↦ inl (e ∙ ap f same)
        | inr m ↦ inr (rest.1 (a, m, e))
      ],
    )

-- No number twice
abbrev pub Distinct : List ℕ → Type 0
Distinct [] = Unit
Distinct (x ∷ xs) = (¬ In x xs) × Distinct xs

pub Distinct-snoc : (xs : List ℕ) (x : ℕ) → Distinct xs → (¬ In x xs) → Distinct (xs ++ x ∷ [])
Distinct-snoc [] x d new = (λ m. m, tt)
Distinct-snoc (y ∷ ys) x d new = (
  λ m. elim ((in-append y ys (x ∷ [])).0 m) [
    | inl old ↦ d.0 old
    | inr (inl e) ↦ new (inl (sym e))
    | inr (inr absent) ↦ absent
  ],
  Distinct-snoc ys x d.1 (λ m. new (inr m)),
)

module _ {ℓ} {A : Type ℓ} where
  pub get_elem?-set_elem_self :
      (xs : List A) (i : ℕ) (y : A) → i < length xs → get_elem? (set_elem xs i y) i ≡ some y
  get_elem?-set_elem_self [] i y lt = absurd (omega arith)
  get_elem?-set_elem_self (x ∷ xs) zero y lt = refl
  get_elem?-set_elem_self (x ∷ xs) (suc i) y lt = get_elem?-set_elem_self xs i y (omega arith)

  pub get_elem?-set_elem_other :
      (xs : List A) (i j : ℕ) (y : A) → i ≢ j → get_elem? (set_elem xs i y) j ≡ get_elem? xs j
  get_elem?-set_elem_other [] i j y ne = refl
  get_elem?-set_elem_other (x ∷ xs) zero zero y ne = absurd (ne refl)
  get_elem?-set_elem_other (x ∷ xs) zero (suc j) y ne = refl
  get_elem?-set_elem_other (x ∷ xs) (suc i) zero y ne = refl
  get_elem?-set_elem_other (x ∷ xs) (suc i) (suc j) y ne =
      get_elem?-set_elem_other xs i j y (λ e. ne (ap suc e))

pub in-set_elem :
    {A : Type 0} (a : A) (xs : List A) (i : ℕ) (y : A) → In a (set_elem xs i y) → (a ≡ y) ⊎ In a xs
in-set_elem a [] i y m = inr m
in-set_elem a (x ∷ xs) zero y m = elim m [ inl e ↦ inl e | inr l ↦ inr (inr l) ]
in-set_elem a (x ∷ xs) (suc i) y m = elim m [
  | inl e ↦ inr (inl e)
  | inr l ↦ elim (in-set_elem a xs i y l) [ inl e ↦ inl e | inr l' ↦ inr (inr l') ]
]

-- `ys` has the elements of `xs` with the property, in their order, and no others.
pub data Selected {A : Type 0} (P : A → Type 0) : List A → List A → Type 0 where
  done : Selected P [] []
  keep : {x : A} {xs ys : List A} → P x → Selected P xs ys → Selected P (x ∷ xs) (x ∷ ys)
  drop_one : {x : A} {xs ys : List A} → (¬ P x) → Selected P xs ys → Selected P (x ∷ xs) ys

-- That determines `ys`: a test of the property selects it.
pub select-Selected :
    {A : Type 0} (P : A → Type 0) (p : A → Bool) (xs ys : List A)
    → ((x : A) → In x xs → (p x ≡ true) ↔ P x)
    → Selected P xs ys
    → select p xs ≡ ys
select-Selected P p _ _ tests done = refl
select-Selected P p (x ∷ xs) (_ ∷ ys) tests (keep holds rest) =
    rw ((tests x (inl refl)).1 holds)
      (ap (λ l. x ∷ l) (select-Selected P p xs ys (λ y m. tests y (inr m)) rest))
select-Selected P p (x ∷ xs) ys tests (drop_one fails rest) = elim (Bool-cases (p x)) [
  | inl e ↦ absurd (fails ((tests x (inl refl)).0 e))
  | inr e ↦ rw e (select-Selected P p xs ys (λ y m. tests y (inr m)) rest)
]
