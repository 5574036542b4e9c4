-- ===== src/Tree/Load.antt =====
-- `load_treeinfos` of src/db.rs rebuilds the tree that the insertion of the same headers builds.
use mathlib.Core.Option
use fork_observer.Prelude.{
  ℕ, ◌≡◌, ◌≢◌, refl, sym, ap, subst, ◌∙◌, inr, Bool, true, false, Option, none, some, List, [], ◌∷◌,
  ◌++◌, arith, All, In, get_elem?, in_of_get_elem?,
}
use mathlib.Core.List.{append-nil, append_assoc}
use fork_observer.Prelude.Options.{◌>>=◌}
use fork_observer.Prelude.HashMap
use fork_observer.Bitcoin.{Bitcoin}
use fork_observer.Petgraph.{DiGraph}
use fork_observer.Types.{HeaderInfo, hash_of}
use fork_observer.Tree.{
  TreeInfo, index_of, nodes, add_header, insert_nodes, connect, insert_new_headers_into_tree,
  empty_tree, load_nodes, load_treeinfos,
}
use fork_observer.Tree.Indexed.{IsIndexed, index_of-add_header, nodes-add_header}
use fork_observer.Tree.Growth.{insert_nodes-new, insert_nodes-Grown}
use fork_observer.Tree.Edges.{connect-Connected, IsIndexed-same}

module _ {B : Bitcoin} where
  -- No two headers have the same hash: (network, hash, header) is the primary key of the table.
  abbrev pub DistinctHeaders : List (HeaderInfo B) → Type 0
  DistinctHeaders [] = Unit
  DistinctHeaders (h ∷ hs) = All (λ g. hash_of g ≢ hash_of h) hs × DistinctHeaders hs

module _ {B : Bitcoin} {P : DiGraph (HeaderInfo B)} where
  abbrev Unknown : TreeInfo B P → List (HeaderInfo B) → Type 0
  Unknown t hs = All (λ h. index_of t (hash_of h) ≡ none) hs

  still_Unknown :
      (t : TreeInfo B P) (h : HeaderInfo B) (hs : List (HeaderInfo B))
      → Unknown t hs
      → All (λ g. hash_of g ≢ hash_of h) hs
      → Unknown (add_header t h) hs
  still_Unknown t h [] u d = tt
  still_Unknown t h (g ∷ gs) u d = (
    ground (
      arith,
      index_of-add_header t h (hash_of g),
      B.hash_key.same_iff (hash_of h) (hash_of g),
      d.0,
      u.0,
    ),
    still_Unknown t h gs u.1 d.1,
  )

  load_nodes-eq-insert_nodes :
      (hs : List (HeaderInfo B)) (t : TreeInfo B P) (c : Bool)
      → Unknown t hs
      → DistinctHeaders hs
      → load_nodes hs t ≡ (insert_nodes hs t c).0
  unfolding load_nodes insert_nodes
  load_nodes-eq-insert_nodes [] t c u d = refl
  load_nodes-eq-insert_nodes (h ∷ hs) t c u d =
      load_nodes-eq-insert_nodes hs (add_header t h) true (still_Unknown t h hs u.1 d.0) d.1
      ∙ ap (λ r. r.0) (insert_nodes-new h hs t c u.0)

  nodes-load_nodes :
      (hs : List (HeaderInfo B)) (t : TreeInfo B P) → nodes (load_nodes hs t) ≡ nodes t ++ hs
  unfolding load_nodes
  nodes-load_nodes [] t = sym (append-nil (nodes t))
  nodes-load_nodes (h ∷ hs) t =
      nodes-load_nodes hs (add_header t h)
      ∙ ap (λ l. l ++ hs) (nodes-add_header t h)
      ∙ append_assoc (nodes t) (h ∷ []) hs

  pub empty_tree-IsIndexed : IsIndexed (empty_tree {B = B} {P = P})
  unfolding HashMap.get
  empty_tree-IsIndexed = record {
    sound = λ k i e. absurd (cc);
    complete = λ i h e. absurd (no_node i (rw P.raw_nodes-new at e));
  }
    where
      no_node : (i : ℕ) {h : HeaderInfo B} → get_elem? [] i ≡ some h → ⊥
      no_node i e = cc

  Unknown-empty : (t : TreeInfo B P) (hs : List (HeaderInfo B)) → t.index ≡ [] → Unknown t hs
  unfolding HashMap.get
  Unknown-empty t [] e = tt
  Unknown-empty t (h ∷ hs) e = (ground (arith, e), Unknown-empty t hs e)

  -- Loading headers with distinct hashes builds the tree that inserting them into an empty
  -- tree builds.
  pub load_treeinfos-eq-insert :
      (hs : List (HeaderInfo B))
      → DistinctHeaders hs
      → load_treeinfos {P = P} hs
        ≡ Option.map
            (λ (r : TreeInfo B P × Bool). r.0)
            (insert_new_headers_into_tree (empty_tree {P = P}) hs)
  unfolding load_treeinfos insert_new_headers_into_tree
  load_treeinfos-eq-insert hs d =
      rw (load_nodes-eq-insert_nodes hs empty_tree false (Unknown-empty empty_tree hs refl) d)
        (first_of_pair (connect hs (insert_nodes hs empty_tree false).0) _)
    where
      first_of_pair :
          (o : Option (TreeInfo B P)) (b : Bool)
          → o ≡ Option.map (λ (r : TreeInfo B P × Bool). r.0) (o >>= λ t. some (t, b))
      first_of_pair none b = refl
      first_of_pair (some t) b = refl

  -- Each node whose previous block is in the tree has the edge from it.
  abbrev pub IsComplete : TreeInfo B P → Type 0
  IsComplete t =
      (i p : ℕ) (h : HeaderInfo B)
      → get_elem? (nodes t) i ≡ some h
      → index_of t (B.prev_blockhash h.header) ≡ some p
      → In (p, i) (P.edges t.graph)

  -- Loading headers with distinct hashes does not panic. The tree has the headers as its nodes,
  -- in their order, a correct index, and the edge to each node whose previous block is there.
  pub load_treeinfos-IsComplete :
      (hs : List (HeaderInfo B))
      → DistinctHeaders hs
      → (t : TreeInfo B P) × (load_treeinfos hs ≡ some t)
        × (nodes t ≡ hs)
        × IsIndexed t
        × IsComplete t
  unfolding load_treeinfos
  load_treeinfos-IsComplete hs d =
      let loaded = load_nodes hs empty_tree in
      let same =
        load_nodes-eq-insert_nodes hs empty_tree false (Unknown-empty empty_tree hs refl) d in
      let (g, _) = insert_nodes-Grown hs empty_tree false empty_tree-IsIndexed in
      let indexed = subst IsIndexed (sym same) g.indexed in
      let covers =
        subst
          (λ (u : TreeInfo B P).
            (h : HeaderInfo B) → In h hs → (i : ℕ) × (index_of u (hash_of h) ≡ some i))
          (sym same) g.covered in
      let (t, runs, c) = connect-Connected hs loaded indexed covers in
      let all_nodes =
        c.same_nodes ∙ nodes-load_nodes hs empty_tree ∙ ap (λ l. l ++ hs) P.raw_nodes-new in
      let indexed_after = IsIndexed-same loaded t c.same_index c.same_nodes indexed in
      (
        t,
        runs,
        all_nodes,
        indexed_after,
        λ i p h at prev. (c.linked (p, i)).1 (
            inr (
              h,
              in_of_get_elem? hs i (rw (← all_nodes) at),
              record {
                source = rw (← c.same_index) prev;
                target = rw (← c.same_index) (indexed_after.complete i h at);
              },
            )),
      )
