-- ===== src/Headertree/Strip/Entries.antt =====
-- `strip_tree` of src/headertree.rs does not panic, and returns an entry for each header that it keeps.
use mathlib.Core.List.{map-append}
use fork_observer.Prelude.{
  Distinct, Distinct-snoc, ℕ, suc, ◌-◌, ◌^◌, ◌<◌, ◌≡◌, ◌⊎◌, refl, sym, ap, subst, ◌∙◌, inl, inr,
  Bool, Option, none, some, List, [], ◌∷◌, ◌++◌, map, length, select, In, in-append, arith,
  Bool-cases, ltb,
}
use fork_observer.Prelude.BTree.{BTreeSet}
use fork_observer.Prelude.Sort.{sort_by_key, in-sort_by_key, Distinct-sort_by_key}
use fork_observer.Bitcoin.{Bitcoin}
use fork_observer.Petgraph.{DiGraph}
use fork_observer.Petgraph.Filtering.{kept_edges-Distinct, length-edges_into, in-edges_into}
use fork_observer.Petgraph.Walk.{Walk, target}
use fork_observer.Types.{HeaderInfo, HeaderInfoJson, header_info_json}
use fork_observer.Tree.{TreeInfo, nodes}
use fork_observer.Headertree.{sorted_interesting_heights}
use fork_observer.Headertree.Interesting.{sorted_interesting_heights-Selects}
use fork_observer.Headertree.Strip.{
  is_near, usize_max, height_at, highest, connect_root, connect_roots, prev_index,
  collect_headers_json, reconnect, strip_tree,
}

module _ {B : Bitcoin} {P : DiGraph (HeaderInfo B)} (W : Walk P) where
  -- No node has two incoming edges.
  abbrev pub OneParent : P.Graph → Type 0
  OneParent g = Distinct (map target (P.edges g))

  abbrev pub InBounds : P.Graph → Option ℕ → Type 0
  InBounds g prev = (i : ℕ) → prev ≡ some i → i < length (P.raw_nodes g)

  abbrev IsRoot : P.Graph → ℕ → Type 0
  IsRoot g r = (r < length (P.raw_nodes g)) × (¬ In r (map target (P.edges g)))

  highest-in :
      (g : P.Graph) (is : List ℕ) (top : ℕ) (best : Option ℕ) (i : ℕ)
      → highest W g is top best ≡ some i
      → (best ≡ some i) ⊎ In i is
  unfolding highest
  highest-in g [] top best i e = inl e
  highest-in g (j ∷ js) top best i e = elim (Bool-cases (ltb top (height_at W g j))) [
    | inl higher ↦ elim (highest-in g js (height_at W g j) (some j) i (ground (arith, e, higher))) [
      | inl here ↦ inr (inl (ground (arith, here)))
      | inr later ↦ inr (inr later)
    ]
    | inr lower ↦ elim (highest-in g js top best i (ground (arith, e, lower))) [
      | inl old ↦ inl old
      | inr later ↦ inr (inr later)
    ]
  ]

  pub highest-InBounds :
      (g : P.Graph) (root : ℕ)
      → root < length (P.raw_nodes g)
      → InBounds g (highest W g (W.dfs g root) 0 none)
  highest-InBounds g root lt i e = elim (highest-in g (W.dfs g root) 0 none i e) [
    | inl nothing ↦ absurd (cc)
    | inr visited ↦ W.dfs-bounds g root i lt visited
  ]

  -- One connection keeps the nodes and adds the root at most to the targets.
  connect_root-targets :
      (g : P.Graph) (prev : Option ℕ) (root : ℕ)
      → InBounds g prev
      → root < length (P.raw_nodes g)
      → (P.raw_nodes (connect_root W g prev root) ≡ P.raw_nodes g)
        × ((map target (P.edges (connect_root W g prev root)) ≡ map target (P.edges g))
            ⊎ (map target (P.edges (connect_root W g prev root))
                ≡ map target (P.edges g) ++ root ∷ []))
  unfolding connect_root
  connect_root-targets g none root bound lt = (refl, inl refl)
  connect_root-targets g (some p) root bound lt =
      let from = bound p refl in
      (
        W.raw_nodes-add_edge g p root from lt,
        inr (
            ap (map target) (W.edges-add_edge g p root from lt)
            ∙ map-append target (P.edges g) ((p, root) ∷ [])),
      )

  absent-snoc : (r x : ℕ) (xs : List ℕ) → (¬ In r xs) → (¬ r ≡ x) → ¬ In r (xs ++ x ∷ [])
  absent-snoc r x xs absent other m = elim ((in-append r xs (x ∷ [])).0 m) [
    | inl old ↦ absent old
    | inr (inl e) ↦ other e
    | inr (inr nothing) ↦ nothing
  ]

  connect_roots-OneParent :
      (g : P.Graph) (roots : List ℕ) (prev : Option ℕ)
      → OneParent g
      → Distinct roots
      → ((r : ℕ) → In r roots → IsRoot g r)
      → InBounds g prev
      → OneParent (connect_roots W g roots prev)
        × (P.raw_nodes (connect_roots W g roots prev) ≡ P.raw_nodes g)
  unfolding connect_roots
  connect_roots-OneParent g [] prev one d each bound = (one, refl)
  connect_roots-OneParent g (root ∷ roots) prev one d each bound =
      let g' = connect_root W g prev root in
      let (lt, external) = each root (inl refl) in
      let (same, targets) = connect_root-targets g prev root bound lt in
      let lt' : root < length (P.raw_nodes g') = subst (λ l. root < length l) (sym same) lt in
      let one' : OneParent g' = elim targets [
        | inl e ↦ subst Distinct (sym e) one
        | inr e ↦ subst Distinct (sym e) (Distinct-snoc (map target (P.edges g)) root one external)
      ] in
      let each' : (r : ℕ) → In r roots → IsRoot g' r = λ r m.
        let (r_lt, r_external) = each r (inr m) in
        (
          subst (λ l. r < length l) (sym same) r_lt,
          elim targets [
            | inl e ↦ subst (λ l. ¬ In r l) (sym e) r_external
            | inr e ↦
                subst (λ l. ¬ In r l) (sym e)
                  (absent-snoc r root (map target (P.edges g)) r_external
                    (λ eq. d.0 (subst (λ x. In x roots) eq m)))
          ],
        ) in
      let (one'', same') =
        connect_roots-OneParent g' roots (highest W g' (W.dfs g' root) 0 none) one' d.1 each'
          (highest-InBounds g' root lt') in
      (one'', same' ∙ same)

  reconnect-OneParent :
      (g : P.Graph)
      → OneParent g
      → OneParent (reconnect W g) × (P.raw_nodes (reconnect W g) ≡ P.raw_nodes g)
  unfolding reconnect
  reconnect-OneParent g one =
      connect_roots-OneParent g (sort_by_key (height_at W g) (W.externals g)) none one
        (Distinct-sort_by_key (height_at W g) (W.externals g) (W.externals-once g))
        (λ r m. (W.in-externals g r).0 ((in-sort_by_key (height_at W g) r (W.externals g)).0 m))
        (λ i e. absurd (cc))

  -- The parent of a node, as the page is told: the source of an edge to the node, or `usize::MAX`
  -- if there is no such edge
  abbrev pub IsParent : P.Graph → ℕ → ℕ → Type 0
  IsParent g i p = ((p ≡ 2 ^ 64 - 1) × (¬ In i (map target (P.edges g)))) ⊎ In (p, i) (P.edges g)

  -- The entries for the nodes from the index `i` on, each with its index and its parent
  abbrev pub AreEntries : P.Graph → List (HeaderInfo B) → ℕ → List HeaderInfoJson → Type 0
  AreEntries g [] i [] = Unit
  AreEntries g [] i (j ∷ js) = ⊥
  AreEntries g (h ∷ hs) i [] = ⊥
  AreEntries g (h ∷ hs) i (j ∷ js) =
      ((p : ℕ) × (j ≡ header_info_json h i p) × IsParent g i p) × AreEntries g hs (suc i) js

  prev_index_lem :
      (ps : List ℕ)
      → length ps < 2
      → (p : ℕ) × (prev_index W ps ≡ some p) × (((p ≡ usize_max) × (ps ≡ [])) ⊎ In p ps)
  unfolding prev_index
  prev_index_lem [] few = (usize_max, refl, inl (refl, refl))
  prev_index_lem (p ∷ []) few = (p, refl, inr (inl refl))
  prev_index_lem (p ∷ q ∷ ps) few = absurd (omega arith)

  collect-AreEntries :
      (g : P.Graph) (hs : List (HeaderInfo B)) (i : ℕ)
      → OneParent g
      → (js : List HeaderInfoJson) × (collect_headers_json W g hs i ≡ some js)
        × AreEntries g hs i js
  unfolding collect_headers_json
  collect-AreEntries g [] i one = ([], refl, tt)
  collect-AreEntries g (h ∷ hs) i one =
      let few : length (W.incoming g i) < 2 =
        subst (λ n. n < 2) (sym (W.length-incoming g i)) (length-edges_into i (P.edges g) one) in
      let (p, found, parent) = prev_index_lem (W.incoming g i) few in
      let (js, rest, entries) = collect-AreEntries g hs (suc i) one in
      let is_parent : IsParent g i p = elim parent [
        | inl (e, empty) ↦ inl (
          e,
          λ m.
              let some_edge = in-edges_into i (P.edges g) m in
              let count = W.length-incoming g i in
              let no_edge : length (W.incoming g i) ≡ 0 = ap length empty in
              omega (arith, some_edge, count, no_edge),
        )
        | inr m ↦ inr (W.in-incoming g i p m)
      ] in
      (header_info_json h i p ∷ js, rw (found, rest), ((p, refl, is_parent), entries))

  -- If no node of the tree has two parents, `strip_tree` does not panic. It returns an entry for
  -- each header that is near an interesting height, in the order of the tree, numbered from 0, whose
  -- `prev_id` is the number of the node that the reconnected graph links it to, or `usize::MAX` if it
  -- links it to none.
  pub strip_tree_runs :
      (t : TreeInfo B P) (max_interesting_heights : ℕ) (tip_heights : BTreeSet)
      → OneParent t.graph
      → (heights : List ℕ) × (js : List HeaderInfoJson) × (sorted_interesting_heights t
            max_interesting_heights tip_heights
          ≡ some heights)
        × (strip_tree W t max_interesting_heights tip_heights ≡ some js)
        × AreEntries
            (reconnect W (W.filter_nodes (is_near heights) t.graph))
            (select (is_near heights) (nodes t))
            0
            js
  unfolding strip_tree
  strip_tree_runs t n tips one =
      let (heights, found) =
        elim (sorted_interesting_heights-Selects t n tips)
          as (λ _. (heights : List ℕ) × (sorted_interesting_heights t n tips ≡ some heights)) [
            | inl (empty, e) ↦ ([], e)
            | inr (some_node, (heights, e, greatest)) ↦ (heights, e)
          ] in
      let keep : HeaderInfo B → Bool = is_near heights in
      let kept : P.Graph = W.filter_nodes keep t.graph in
      let one_kept : OneParent kept =
        subst (λ es. Distinct (map target es)) (sym (W.edges-filter_nodes keep t.graph))
          (kept_edges-Distinct keep (nodes t) (P.edges t.graph) one) in
      let (one', same) = reconnect-OneParent kept one_kept in
      let (js, runs, entries) =
        collect-AreEntries (reconnect W kept) (P.raw_nodes (reconnect W kept)) 0 one' in
      (
        heights,
        js,
        found,
        rw found runs,
        subst (λ hs. AreEntries (reconnect W kept) hs 0 js)
            (same ∙ W.raw_nodes-filter_nodes keep t.graph) entries,
      )
