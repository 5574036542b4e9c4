-- ===== src/Config/Loading.antt =====
-- The loops of `parse_config` in src/config.rs: what they load, and when.
use mathlib.Core.List.{append_assoc, append-nil}
use fork_observer.Prelude.{
  Distinct, ℕ, ◌≡◌, ◌↔◌, refl, sym, ap, subst, ◌∙◌, inl, inr, true, false, List, [], ◌∷◌, ◌++◌, map,
  arith, ◌==◌, ==_iff, Bool-cases, In, in-append,
}
use fork_observer.Prelude.Results.{Result, ok, err, Result-cases}
use fork_observer.Config.{contains, load_each}

pub contains-true : (x : ℕ) (ys : List ℕ) → contains x ys ≡ true → In x ys
contains-true x [] e = absurd (cc)
contains-true x (y ∷ ys) e = elim (Bool-cases (x == y)) [
  | inl same ↦ inl ((==_iff x y).0 same)
  | inr other ↦ inr (contains-true x ys (ground (arith, e, other)))
]

pub contains-false : (x : ℕ) (ys : List ℕ) → contains x ys ≡ false → ¬ In x ys
contains-false x [] e m = m
contains-false x (y ∷ ys) e (inl same) = ground (arith, ==_iff x y)
contains-false x (y ∷ ys) e (inr m) = contains-false x ys (ground (arith, e)) m

pub contains-absent : (x : ℕ) (ys : List ℕ) → ¬ In x ys → contains x ys ≡ false
contains-absent x ys absent = elim (Bool-cases (contains x ys)) [
  | inl c ↦ absurd (absent (contains-true x ys c))
  | inr c ↦ c
]

abbrev Fresh : List ℕ → List ℕ → Type 0
Fresh ids [] = Unit
Fresh ids (x ∷ xs) = (¬ In x ids) × Fresh (ids ++ x ∷ []) xs

Fresh-disjoint : (ids xs : List ℕ) (x : ℕ) → Fresh ids xs → In x xs → ¬ In x ids
Fresh-disjoint ids [] x f m old = m
Fresh-disjoint ids (y ∷ ys) x f (inl e) old = f.0 (subst (λ z. In z ids) e old)
Fresh-disjoint ids (y ∷ ys) x f (inr m) old =
    Fresh-disjoint (ids ++ y ∷ []) ys x f.1 m ((in-append x ids (y ∷ [])).1 (inl old))

Fresh-Distinct : (ids xs : List ℕ) → Fresh ids xs → Distinct xs
Fresh-Distinct ids [] f = tt
Fresh-Distinct ids (x ∷ xs) f = (
  λ m. Fresh-disjoint (ids ++ x ∷ []) xs x f.1 m ((in-append x ids (x ∷ [])).1 (inr (inl refl))),
  Fresh-Distinct (ids ++ x ∷ []) xs f.1,
)

Distinct-Fresh : (ids xs : List ℕ) → Distinct xs → ((x : ℕ) → In x xs → ¬ In x ids) → Fresh ids xs
Distinct-Fresh ids [] d apart = tt
Distinct-Fresh ids (x ∷ xs) d apart = (
  apart x (inl refl),
  Distinct-Fresh (ids ++ x ∷ []) xs d.1 (λ y m old. elim ((in-append y ids (x ∷ [])).0 old) [
    | inl o ↦ apart y (inr m) o
    | inr (inl e) ↦ d.0 (subst (λ z. In z xs) e m)
    | inr (inr n) ↦ n
  ]),
)

module _ {T A F : Type 0} (parse : T → Result F A) (id_of : A → ℕ) (duplicate : F) where
  -- Each of `items` is what its item of `ts` parses to.
  abbrev pub Loads : List T → List A → Type 0
  Loads [] [] = Unit
  Loads [] (a ∷ items) = ⊥
  Loads (t ∷ ts) [] = ⊥
  Loads (t ∷ ts) (a ∷ items) = (parse t ≡ ok a) × Loads ts items

  step_loads :
      (t : T) (ts : List T) (ids : List ℕ) (loaded : List A) (a : A)
      → parse t ≡ ok a
      → contains (id_of a) ids ≡ false
      → load_each parse id_of duplicate (t ∷ ts) ids loaded
        ≡ load_each parse id_of duplicate ts (ids ++ id_of a ∷ []) (loaded ++ a ∷ [])
  unfolding load_each
  step_loads t ts ids loaded a e c = rw (e, c, load_each)

  step_duplicate :
      (t : T) (ts : List T) (ids : List ℕ) (loaded : List A) (a : A)
      → parse t ≡ ok a
      → contains (id_of a) ids ≡ true
      → load_each parse id_of duplicate (t ∷ ts) ids loaded ≡ err duplicate
  unfolding load_each
  step_duplicate t ts ids loaded a e c = rw (e, c, load_each)

  step_refused :
      (t : T) (ts : List T) (ids : List ℕ) (loaded : List A) (e : F)
      → parse t ≡ err e
      → load_each parse id_of duplicate (t ∷ ts) ids loaded ≡ err e
  unfolding load_each
  step_refused t ts ids loaded e r = rw (r, load_each)

  abbrev Loaded : List T → List ℕ → List A → List A → Type 0
  Loaded ts ids loaded result =
      (items : List A) × (result ≡ loaded ++ items) × Loads ts items × Fresh ids (map id_of items)

  load_each-Loaded :
      (ts : List T) (ids : List ℕ) (loaded result : List A)
      → load_each parse id_of duplicate ts ids loaded ≡ ok result
      → Loaded ts ids loaded result
  unfolding load_each
  load_each-Loaded [] ids loaded result e = ([], ground (arith, append-nil loaded), tt, tt)
  load_each-Loaded (t ∷ ts) ids loaded result e = elim (Result-cases (parse t)) [
    | inr (f, refused) ↦ absurd (cc (e, step_refused t ts ids loaded f refused))
    | inl (a, parsed) ↦ elim (Bool-cases (contains (id_of a) ids)) [
      | inl seen ↦ absurd (cc (e, step_duplicate t ts ids loaded a parsed seen))
      | inr new ↦
          let (items, split, loads, fresh) =
            load_each-Loaded ts (ids ++ id_of a ∷ []) (loaded ++ a ∷ []) result
              (sym (step_loads t ts ids loaded a parsed new) ∙ e) in
          (
            a ∷ items,
            split ∙ append_assoc loaded (a ∷ []) items,
            (parsed, loads),
            (contains-false (id_of a) ids new, fresh),
          )
    ]
  ]

  load_each_complete :
      (ts : List T) (ids : List ℕ) (loaded items : List A)
      → Loads ts items
      → Fresh ids (map id_of items)
      → load_each parse id_of duplicate ts ids loaded ≡ ok (loaded ++ items)
  unfolding load_each
  load_each_complete [] ids loaded [] l f = ap ok (sym (append-nil loaded))
  load_each_complete [] ids loaded (a ∷ items) l f = absurd l
  load_each_complete (t ∷ ts) ids loaded [] l f = absurd l
  load_each_complete (t ∷ ts) ids loaded (a ∷ items) (parsed, loads) (new, fresh) =
      step_loads t ts ids loaded a parsed (contains-absent (id_of a) ids new)
      ∙ load_each_complete ts (ids ++ id_of a ∷ []) (loaded ++ a ∷ []) items loads fresh
      ∙ ap ok (append_assoc loaded (a ∷ []) items)

  -- The loop loads exactly the lists whose items parse one by one and whose ids are distinct.
  pub load_each_iff :
      (ts : List T) (items : List A)
      → (load_each parse id_of duplicate ts [] [] ≡ ok items)
        ↔ (Loads ts items × Distinct (map id_of items))
  load_each_iff ts items = (
    λ e.
        let (bs, split, loads, fresh) = load_each-Loaded ts [] [] items e in
        (
          subst (Loads ts) (sym split) loads,
          Fresh-Distinct [] (map id_of items)
              (subst (λ l. Fresh [] (map id_of l)) (sym split) fresh),
        ),
    λ h.
        load_each_complete ts [] [] items h.0
          (Distinct-Fresh [] (map id_of items) h.1 (λ x m n. n)),
  )
