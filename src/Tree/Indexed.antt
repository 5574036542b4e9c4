-- ===== src/Tree/Indexed.antt =====
-- The index of a header tree points at the nodes of its graph, and at all of them; inserting
-- headers keeps it so (`insert_new_headers_into_tree` of src/main.rs, `load_treeinfos` of src/db.rs).
use fork_observer.Prelude.{
  ℕ, ◌≡◌, subst, inl, inr, none, some, [], ◌∷◌, ◌++◌, arith, length, get_elem?, get_elem?-append,
  get_elem?-snoc, get_elem?-snoc_cases, Bool-cases, if◌then◌else◌,
}
use fork_observer.Prelude.HashMap
use fork_observer.Bitcoin.{Bitcoin}
use fork_observer.Petgraph.{DiGraph}
use fork_observer.Types.{HeaderInfo, hash_of}
use fork_observer.Tree.{TreeInfo, index_of, nodes, add_header}

module _ {B : Bitcoin} {P : DiGraph (HeaderInfo B)} where
  pub record IsIndexed (t : TreeInfo B P) : Type 0 where
    pub sound :
        (k : B.BlockHash) (i : ℕ)
        → index_of t k ≡ some i
        → (h : HeaderInfo B) × (get_elem? (nodes t) i ≡ some h) × (hash_of h ≡ k)
    pub complete :
        (i : ℕ) (h : HeaderInfo B)
        → get_elem? (nodes t) i ≡ some h
        → index_of t (hash_of h) ≡ some i

  -- The index of a tree with one more header.
  pub index_of-add_header :
      (t : TreeInfo B P) (h : HeaderInfo B) (k : B.BlockHash)
      → index_of (add_header t h) k
        ≡ (if B.hash_key.same (hash_of h) k then some (length (nodes t)) else index_of t k)
  unfolding add_header
  index_of-add_header t h k =
      rw (← P.next_index-eq t.graph)
        (HashMap.get-insert ⦃key = B.hash_key⦄ (hash_of h) k (P.next_index t.graph) t.index)

  pub nodes-add_header :
      (t : TreeInfo B P) (h : HeaderInfo B) → nodes (add_header t h) ≡ nodes t ++ h ∷ []
  unfolding add_header
  nodes-add_header t h = P.raw_nodes-add_node t.graph h

  pub edges-add_header :
      (t : TreeInfo B P) (h : HeaderInfo B) → P.edges (add_header t h).graph ≡ P.edges t.graph
  unfolding add_header
  edges-add_header t h = P.edges-add_node t.graph h

  pub add_header-IsIndexed :
      (t : TreeInfo B P) (h : HeaderInfo B)
      → index_of t (hash_of h) ≡ none
      → IsIndexed t
      → IsIndexed (add_header t h)
  add_header-IsIndexed t h fresh v = record {
    sound = λ k i e. elim (Bool-cases (B.hash_key.same (hash_of h) k)) [
      | inl same ↦ (
        h,
        rw nodes-add_header (
            subst (λ j. get_elem? (nodes t ++ h ∷ []) j ≡ some h)
              (ground (arith, index_of-add_header t h k)) (get_elem?-snoc (nodes t) h)),
        (B.hash_key.same_iff (hash_of h) k).0 same,
      )
      | inr other ↦
          let (g, at, named) = v.sound k i (ground (arith, index_of-add_header t h k)) in
          (g, rw nodes-add_header (get_elem?-append (nodes t) (h ∷ []) i at), named)
    ];
    complete = λ i g e. elim (get_elem?-snoc_cases (nodes t) h i (rw (nodes-add_header t h) at e)) [
      | inl old ↦ ground (
        arith,
        index_of-add_header t h (hash_of g),
        v.complete i g old,
        fresh,
        B.hash_key.same_iff (hash_of h) (hash_of g),
      )
      | inr (last, same) ↦
          rw (same, last)
            (ground (
              arith,
              index_of-add_header t h (hash_of h),
              B.hash_key.same_iff (hash_of h) (hash_of h),
            ))
    ];
  }

  -- The nodes determine the index.
  pub index_of-same_nodes :
      (t u : TreeInfo B P) (k : B.BlockHash) (i : ℕ)
      → nodes u ≡ nodes t
      → IsIndexed t
      → IsIndexed u
      → index_of u k ≡ some i
      → index_of t k ≡ some i
  index_of-same_nodes t u k i same v w e =
      let (h, at, named) = w.sound k i e in
      subst (λ j. index_of t j ≡ some i) named (v.complete i h (rw (← same) at))
