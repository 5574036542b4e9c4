-- ===== src/Headertree/Strip/Connects.antt =====
-- How `strip_tree` of src/headertree.rs connects the starts of the chains that it keeps.
use fork_observer.Prelude.{
  ℕ, ◌≤◌, ◌<◌, ◌≡◌, ◌⊎◌, refl, ap, inl, inr, subst, sym, Option, none, some, List, [], ◌∷◌, ◌++◌,
  length, ltb, ltb→lt, get_elem?, All, In, arith, Bool-cases,
}
use fork_observer.Bitcoin.{Bitcoin}
use fork_observer.Petgraph.{DiGraph}
use fork_observer.Petgraph.Walk.{Walk}
use fork_observer.Types.{HeaderInfo}
use fork_observer.Headertree.Strip.{height_at, highest, connect_root, connect_roots}

module _ {B : Bitcoin} {P : DiGraph (HeaderInfo B)} (W : Walk P) where
  -- The height of the header at the index, or 0 if there is none
  abbrev pub height_of : P.Graph → ℕ → ℕ
  height_of g i = elim (get_elem? (P.raw_nodes g) i) [ none ↦ 0 | some h ↦ h.height ]

  -- Of what a search from the root visits, the node is the first of the greatest height, which is
  -- not 0; `none` if everything there has the height 0.
  abbrev pub Highest : P.Graph → ℕ → Option ℕ → Type 0
  Highest g root none = All (λ i. height_of g i ≤ 0) (W.dfs g root)
  Highest g root (some q) =
      (before after : List ℕ) × (W.dfs g root ≡ before ++ q ∷ after)
      × (0 < height_of g q)
      × All (λ i. height_of g i < height_of g q) before
      × All (λ i. height_of g i ≤ height_of g q) after

  -- The roots are visited in turn. Each but the first gets an edge from the highest node that a
  -- search from the root before it visits, if that has a height above 0.
  pub data Connects : P.Graph → Option ℕ → List ℕ → P.Graph → Type 0 where
    finished : (g : P.Graph) (prev : Option ℕ) → Connects g prev [] g
    unlinked :
        (g after : P.Graph) (root : ℕ) (roots : List ℕ) (best : Option ℕ)
        → Highest g root best
        → Connects g best roots after
        → Connects g none (root ∷ roots) after
    linked :
        (g with_edge after : P.Graph) (prev root : ℕ) (roots : List ℕ) (best : Option ℕ)
        → P.raw_nodes with_edge ≡ P.raw_nodes g
        → P.edges with_edge ≡ P.edges g ++ (prev, root) ∷ []
        → Highest with_edge root best
        → Connects with_edge best roots after
        → Connects g (some prev) (root ∷ roots) after

  highest-split :
      (g : P.Graph) (is : List ℕ) (top : ℕ) (best : Option ℕ)
      → (All (λ i. height_of g i ≤ top) is × (highest W g is top best ≡ best))
        ⊎ ((q : ℕ) × (before after : List ℕ) × (is ≡ before ++ q ∷ after)
            × (highest W g is top best ≡ some q)
            × (top < height_of g q)
            × All (λ i. height_of g i < height_of g q) before
            × All (λ i. height_of g i ≤ height_of g q) after)
  unfolding highest height_at
  highest-split g [] top best = inl (tt, refl)
  highest-split g (i ∷ is) top best = elim (Bool-cases (ltb top (height_of g i))) [
    | inl higher ↦ elim (highest-split g is (height_of g i) (some i)) [
      | inl (low, e) ↦
          inr (i, [], is, refl, rw higher e, ltb→lt top (height_of g i) higher, tt, low)
      | inr (q, before, after, split, e, above, lower, rest) ↦ inr (
        q,
        i ∷ before,
        after,
        ap (λ l. i ∷ l) split,
        rw higher e,
        omega (arith, above, ltb→lt top (height_of g i) higher),
        (above, lower),
        rest,
      )
    ]
    | inr lower_i ↦ elim (highest-split g is top best) [
      | inl (low, e) ↦ inl ((ground (arith, lower_i), low), rw lower_i e)
      | inr (q, before, after, split, e, above, lower, rest) ↦
          let le : height_of g i ≤ top = ground (arith, lower_i) in
          inr (
            q,
            i ∷ before,
            after,
            ap (λ l. i ∷ l) split,
            rw lower_i e,
            above,
            (omega (arith, above, le), lower),
            rest,
          )
    ]
  ]

  highest-Highest : (g : P.Graph) (root : ℕ) → Highest g root (highest W g (W.dfs g root) 0 none)
  highest-Highest g root = elim (highest-split g (W.dfs g root) 0 none) [
    | inl (low, e) ↦ subst (Highest g root) (sym e) low
    | inr (q, before, after, split, e, above, lower, rest) ↦
        subst (Highest g root) (sym e) (before, after, split, above, lower, rest)
  ]

  pub connect_roots-Connects :
      (g : P.Graph) (roots : List ℕ) (prev : Option ℕ)
      → ((r : ℕ) → In r roots → r < length (P.raw_nodes g))
      → ((i : ℕ) → prev ≡ some i → i < length (P.raw_nodes g))
      → ((g' : P.Graph) (root i : ℕ)
          → root < length (P.raw_nodes g')
          → highest W g' (W.dfs g' root) 0 none ≡ some i
          → i < length (P.raw_nodes g'))
      → Connects g prev roots (connect_roots W g roots prev)
  unfolding connect_roots connect_root
  connect_roots-Connects g [] prev each bound inside = finished g prev
  connect_roots-Connects g (root ∷ roots) none each bound inside =
      unlinked g _ root roots (highest W g (W.dfs g root) 0 none) (highest-Highest g root) (
        connect_roots-Connects g roots (highest W g (W.dfs g root) 0 none) (λ r m. each r (inr m))
          (λ i e. inside g root i (each root (inl refl)) e) inside)
  connect_roots-Connects g (root ∷ roots) (some p) each bound inside =
      let g' : P.Graph = W.add_edge g p root in
      let from = bound p refl in
      let to = each root (inl refl) in
      let same = W.raw_nodes-add_edge g p root from to in
      let within =
        λ (r : ℕ) (lt : r < length (P.raw_nodes g)). subst (λ l. r < length l) (sym same) lt in
      linked g g' _ p root roots (highest W g' (W.dfs g' root) 0 none) same
        (W.edges-add_edge g p root from to) (highest-Highest g' root)
        (connect_roots-Connects g' roots (highest W g' (W.dfs g' root) 0 none)
          (λ r m. within r (each r (inr m))) (λ i e. inside g' root i (within root to) e) inside)
