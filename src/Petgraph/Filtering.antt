-- ===== src/Petgraph/Filtering.antt =====
-- In the graph of the kept nodes, no node has more incoming edges than before.
use fork_observer.Prelude.{
  Distinct, ℕ, zero, suc, ◌<◌, ◌≡◌, refl, sym, ap, ◌∙◌, inl, inr, Bool, true, false, List, [], ◌∷◌,
  map, length, select, in-select, in-map, In, arith, if◌then◌else◌, Bool-cases, ◌==◌, ==_iff, take,
  get_elem?, in_of_get_elem?, Option-cases,
}
use mathlib.Core.Path.{fun_ext}
use fork_observer.Petgraph.Walk.{is_kept, new_index, kept_edges, target, edges_into}

module _ {N : Type 0} (keep : N → Bool) where
  new_index-injective :
      (nodes : List N) (a b : ℕ)
      → is_kept keep nodes a ≡ true
      → is_kept keep nodes b ≡ true
      → new_index keep nodes a ≡ new_index keep nodes b
      → a ≡ b
  new_index-injective [] a b ka kb e = absurd (cc)
  new_index-injective (n ∷ ns) zero zero ka kb e = refl
  new_index-injective (n ∷ ns) zero (suc b) ka kb e = absurd (ground arith)
  new_index-injective (n ∷ ns) (suc a) zero ka kb e = absurd (ground arith)
  new_index-injective (n ∷ ns) (suc a) (suc b) ka kb e = ap suc (
      new_index-injective ns a b ka kb (elim (Bool-cases (keep n)) [
        | inl k ↦ ground (arith, e, k)
        | inr d ↦ ground (arith, e, d)
      ]))

  module _ (nodes : List N) where
    abbrev both_kept : ℕ × ℕ → Bool
    both_kept e = if is_kept keep nodes e.0 then is_kept keep nodes e.1 else false

    abbrev renamed : ℕ × ℕ → ℕ × ℕ
    renamed e = (new_index keep nodes e.0, new_index keep nodes e.1)

    target_kept : (e : ℕ × ℕ) → both_kept e ≡ true → is_kept keep nodes e.1 ≡ true
    target_kept e k = elim (Bool-cases (is_kept keep nodes e.0)) [
      | inl a ↦ ground (arith, k, a)
      | inr b ↦ absurd (ground (arith, k, b))
    ]

    in-target : (x : ℕ) (es : List (ℕ × ℕ)) (e : ℕ × ℕ) → In e es → x ≡ e.1 → In x (map target es)
    in-target x es e m same = (in-map target x es).1 (e, m, same)

    pub kept_edges-Distinct :
        (es : List (ℕ × ℕ))
        → Distinct (map target es)
        → Distinct (map target (kept_edges keep nodes es))
    kept_edges-Distinct [] d = tt
    kept_edges-Distinct (e ∷ es) d = elim (Bool-cases (both_kept e)) [
      | inr dropped ↦ rw dropped (kept_edges-Distinct es d.1)
      | inl kept ↦ rw kept (
        λ m.
            let (r, inside, same) =
              (in-map target (new_index keep nodes e.1) (map renamed (select both_kept es))).0 m in
            let (f, chosen, is_f) = (in-map renamed r (select both_kept es)).0 inside in
            let (listed, k) = (in-select both_kept f es).0 chosen in
            let equal : new_index keep nodes e.1 ≡ new_index keep nodes f.1 =
              same ∙ ap target is_f in
            d.0 (
              in-target e.1 es f listed
                (new_index-injective nodes e.1 f.1 (target_kept e kept) (target_kept f k) equal)),
        kept_edges-Distinct es d.1,
      )
    ]

no_edges_into : (i : ℕ) (es : List (ℕ × ℕ)) → (¬ In i (map target es)) → edges_into i es ≡ []
no_edges_into i [] absent = refl
no_edges_into i (e ∷ es) absent = elim (Bool-cases (e.1 == i)) [
  | inl here ↦ absurd (absent (inl (sym ((==_iff e.1 i).0 here))))
  | inr other ↦ rw other (no_edges_into i es (λ m. absent (inr m)))
]

-- If no two edges have the same target, a node has one incoming edge or none.
pub length-edges_into :
    (i : ℕ) (es : List (ℕ × ℕ)) → Distinct (map target es) → length (edges_into i es) < 2
length-edges_into i [] d = omega arith
length-edges_into i (e ∷ es) d = elim (Bool-cases (e.1 == i)) [
  | inl here ↦
      let same : e.1 ≡ i = (==_iff e.1 i).0 here in
      let rest = no_edges_into e.1 es d.0 in ground (arith, here, same, rest)
  | inr other ↦ rw other (length-edges_into i es d.1)
]

pub in-edges_into :
    (i : ℕ) (es : List (ℕ × ℕ)) → In i (map target es) → 0 < length (edges_into i es)
in-edges_into i [] m = absurd m
in-edges_into i (e ∷ es) m = elim (Bool-cases (e.1 == i)) [
  | inl here ↦ rw here (omega arith)
  | inr other ↦ rw other (
      in-edges_into i es
        (elim m [ inl same ↦ absurd (ground (arith, same, other)) | inr later ↦ later ]))
]

select-same :
    {N : Type 0} (p q : N → Bool) (xs : List N)
    → ((x : N) → In x xs → p x ≡ q x)
    → select p xs ≡ select q xs
select-same p q [] same = refl
select-same p q (x ∷ xs) same =
    let rest = select-same p q xs (λ y m. same y (inr m)) in
    elim (Bool-cases (p x)) [
      | inl e ↦ rw (e, sym (same x (inl refl)) ∙ e) (ap (λ l. x ∷ l) rest)
      | inr e ↦ rw (e, sym (same x (inl refl)) ∙ e) rest
    ]

in-take : {N : Type 0} (x : N) (i : ℕ) (xs : List N) → In x (take i xs) → In x xs
in-take x zero xs m = absurd m
in-take x (suc i) [] m = m
in-take x (suc i) (y ∷ ys) (inl e) = inl e
in-take x (suc i) (y ∷ ys) (inr m) = inr (in-take x i ys m)

-- Two tests that agree on the nodes keep the same nodes and edges.
module _ {N : Type 0} (p q : N → Bool) (nodes : List N)
    (same : (n : N) → In n nodes → p n ≡ q n) where
  is_kept-same : (i : ℕ) → is_kept p nodes i ≡ is_kept q nodes i
  is_kept-same i = elim (Option-cases (get_elem? nodes i)) [
    | inl e ↦ rw (e, is_kept) refl
    | inr (n, e) ↦ rw (e, is_kept) (same n (in_of_get_elem? nodes i e))
  ]

  new_index-same : (i : ℕ) → new_index p nodes i ≡ new_index q nodes i
  new_index-same i =
      ap length (select-same p q (take i nodes) (λ n m. same n (in-take n i nodes m)))

  pub kept_nodes-same : select p nodes ≡ select q nodes
  kept_nodes-same = select-same p q nodes same

  pub kept_edges-same : (es : List (ℕ × ℕ)) → kept_edges p nodes es ≡ kept_edges q nodes es
  kept_edges-same es =
      let chosen : (ℕ → Bool) → (ℕ → ℕ) → List (ℕ × ℕ) =
        λ k n. map (λ e. (n e.0, n e.1)) (select (λ e. if k e.0 then k e.1 else false) es) in
      ap (λ k. chosen k (new_index p nodes)) (fun_ext is_kept-same)
      ∙ ap (chosen (is_kept q nodes)) (fun_ext new_index-same)
