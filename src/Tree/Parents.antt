-- ===== src/Tree/Parents.antt =====
-- No node of the header tree has two incoming edges: the graph of `insert_new_headers_into_tree` of
-- src/main.rs and of `load_treeinfos` of src/db.rs is a forest.
use fork_observer.Prelude.{
  ℕ, Bool, false, ◌≡◌, refl, sym, ap, subst, ◌∙◌, inl, inr, some, List, [], ◌∷◌, ◌++◌, map, arith,
  get_elem?-append, In, in-map, Distinct, Distinct-snoc, Option-cases,
}
use mathlib.Core.List.{map-append}
use mathlib.Core.Option
use fork_observer.Prelude.Options.{>>=-eq-some}
use fork_observer.Bitcoin.{Bitcoin}
use fork_observer.Petgraph.{DiGraph}
use fork_observer.Petgraph.Walk.{target}
use fork_observer.Types.{HeaderInfo, hash_of}
use fork_observer.Tree.{
  TreeInfo, index_of, nodes, connect, connect_to, insert_nodes, insert_new_headers_into_tree,
  empty_tree, load_treeinfos,
}
use fork_observer.Tree.Indexed.{IsIndexed}
use fork_observer.Tree.Edges.{dec_in, Connected, connect_to-Connected, IsIndexed-same, index_of-lt}
use fork_observer.Tree.Growth.{insert_nodes-Grown}
use fork_observer.Tree.Insert.{insert_new_headers_into_tree-Inserted}
use fork_observer.Tree.Links.{HashCommits, IsParent, IsLinked, Links-IsParent, one_parent}
use fork_observer.Tree.Load.{DistinctHeaders, empty_tree-IsIndexed, load_treeinfos-eq-insert}

module _ {B : Bitcoin} {P : DiGraph (HeaderInfo B)} where
  -- The index is correct, the edges follow the previous blocks, and no node has two parents.
  pub record IsForest (t : TreeInfo B P) : Type 0 where
    pub indexed : IsIndexed t
    pub linked : IsLinked t
    pub parents : Distinct (map target (P.edges t.graph))

  pub empty_tree-IsForest : IsForest (empty_tree {P = P})
  empty_tree-IsForest = record {
    indexed = empty_tree-IsIndexed;
    linked = λ e m. absurd (subst (In e) P.edges-new m);
    parents = subst (λ l. Distinct (map target l)) (sym P.edges-new) tt;
  }

  IsParent-same : (t u : TreeInfo B P) (e : ℕ × ℕ) → nodes u ≡ nodes t → IsParent t e → IsParent u e
  IsParent-same t u e same p = record {
    parent = p.parent;
    child = p.child;
    at_source = rw same p.at_source;
    at_target = rw same p.at_target;
    follows = p.follows;
  }

  module _ (commits : HashCommits B) where
    connect_to-IsLinked :
        (t : TreeInfo B P) (h : HeaderInfo B) (current : ℕ)
        → IsForest t
        → index_of t (hash_of h) ≡ some current
        → IsLinked (connect_to current (index_of t (B.prev_blockhash h.header)) t)
    connect_to-IsLinked t h current v at e m =
        let u = connect_to current (index_of t (B.prev_blockhash h.header)) t in
        let one = connect_to-Connected t h current v.indexed at in
        elim ((one.linked e).0 m) [
          | inl old ↦ IsParent-same t u e one.same_nodes (v.linked e old)
          | inr (g, listed, l) ↦
              IsParent-same t u e one.same_nodes (Links-IsParent t g e commits v.indexed l)
        ]

    connect_to-parents :
        (t : TreeInfo B P) (h : HeaderInfo B) (current : ℕ)
        → IsForest t
        → index_of t (hash_of h) ≡ some current
        → Distinct (
            map target
              (P.edges (connect_to current (index_of t (B.prev_blockhash h.header)) t).graph))
    connect_to-parents t h current v at =
        elim (Option-cases (index_of t (B.prev_blockhash h.header))) [
          | inl root ↦ rw root (unfold connect_to in v.parents)
          | inr (prev, found) ↦
              let u = connect_to current (some prev) t in
              let lp = index_of-lt t _ prev v.indexed found in
              let lc = index_of-lt t _ current v.indexed at in
              let one : Connected (h ∷ []) t u =
                subst (λ o. Connected (h ∷ []) t (connect_to current o t)) found
                  (connect_to-Connected t h current v.indexed at) in
              let linked : IsLinked u =
                subst (λ o. IsLinked (connect_to current o t)) found
                  (connect_to-IsLinked t h current v at) in
              let indexed = IsIndexed-same t u one.same_index one.same_nodes v.indexed in
              rw found (elim (dec_in (prev, current) (P.edges t.graph)) [
                | yes old ↦
                    let same : P.edges u.graph ≡ P.edges t.graph =
                      unfold connect_to in
                      P.edges-update_edge_old t.graph prev current false lp lc old in
                    subst (λ l. Distinct (map target l)) (sym same) v.parents
                | no new ↦
                    let grown : P.edges u.graph ≡ P.edges t.graph ++ (prev, current) ∷ [] =
                      unfold connect_to in
                      P.edges-update_edge_new t.graph prev current false lp lc new in
                    let drawn : In (prev, current) (P.edges u.graph) =
                      (one.linked (prev, current)).1
                        (inr (h, inl refl, record { source = found; target = at })) in
                    let absent : ¬ In current (map target (P.edges t.graph)) = λ m.
                      let (e, listed, is_current) = (in-map target current (P.edges t.graph)).0 m in
                      let here : (e.0, current) ≡ e = ap (λ k. (e.0, k)) is_current in
                      let kept : In (e.0, current) (P.edges u.graph) =
                        (one.linked (e.0, current)).1
                          (inl (subst (λ x. In x (P.edges t.graph)) (sym here) listed)) in
                      let same = one_parent u e.0 prev current indexed linked kept drawn in
                      new (
                        subst (λ x. In x (P.edges t.graph)) (sym here ∙ ap (λ k. (k, current)) same)
                          listed) in
                    subst (λ l. Distinct (map target l)) (sym grown)
                      (subst Distinct (sym (map-append target (P.edges t.graph) _))
                        (Distinct-snoc (map target (P.edges t.graph)) current v.parents absent))
              ])
        ]

    -- The second loop keeps a forest.
    pub connect-IsForest :
        (hs : List (HeaderInfo B)) (t after : TreeInfo B P)
        → IsForest t
        → connect hs t ≡ some after
        → IsForest after
    unfolding connect
    connect-IsForest [] t after v e =
        let same : t ≡ after = ground (arith, e) in subst IsForest same v
    connect-IsForest (h ∷ hs) t after v e =
        let (current, at, rest) = >>=-eq-some (index_of t (hash_of h)) _ e in
        let u = connect_to current (index_of t (B.prev_blockhash h.header)) t in
        let one = connect_to-Connected t h current v.indexed at in
        connect-IsForest hs u after
          (record {
            indexed = IsIndexed-same t u one.same_index one.same_nodes v.indexed;
            linked = connect_to-IsLinked t h current v at;
            parents = connect_to-parents t h current v at;
          })
          rest

    insert_nodes-IsForest :
        (hs : List (HeaderInfo B)) (t : TreeInfo B P)
        → IsForest t
        → IsForest (insert_nodes hs t false).0
    insert_nodes-IsForest hs t v =
        let (g, _) = insert_nodes-Grown hs t false v.indexed in
        record {
          indexed = g.indexed;
          linked = λ e m.
              let p = v.linked e (subst (In e) g.same_edges m) in
              record {
                parent = p.parent;
                child = p.child;
                at_source = rw g.appended (get_elem?-append (nodes t) g.added e.0 p.at_source);
                at_target = rw g.appended (get_elem?-append (nodes t) g.added e.1 p.at_target);
                follows = p.follows;
              };
          parents = subst (λ l. Distinct (map target l)) (sym g.same_edges) v.parents;
        }

    -- Insertion keeps a forest, if hashes commit to the previous block: the index stays correct, each
    -- edge joins a block with the block before it, and no node has two parents.
    pub insert_new_headers_into_tree-IsForest :
        (hs : List (HeaderInfo B)) (t after : TreeInfo B P) (changed : Bool)
        → IsForest t
        → insert_new_headers_into_tree t hs ≡ some (after, changed)
        → IsForest after
    unfolding insert_new_headers_into_tree
    insert_new_headers_into_tree-IsForest hs t after changed v e =
        let (u, runs, r) = >>=-eq-some (connect hs (insert_nodes hs t false).0) _ e in
        let same : u ≡ after = ground (arith, r) in
        subst IsForest same
          (connect-IsForest hs (insert_nodes hs t false).0 u (insert_nodes-IsForest hs t v) runs)

    -- So is the tree that is loaded at the start, from headers with distinct hashes.
    pub load_treeinfos-IsForest :
        (hs : List (HeaderInfo B)) (t : TreeInfo B P)
        → DistinctHeaders hs
        → load_treeinfos hs ≡ some t
        → IsForest t
    load_treeinfos-IsForest hs t d e =
        let (after, changed, runs, _) =
          insert_new_headers_into_tree-Inserted hs (empty_tree {P = P}) empty_tree-IsIndexed in
        let loaded : some after ≡ some t =
          ap (Option.map (λ (r : TreeInfo B P × Bool). r.0)) (sym runs)
          ∙ sym (load_treeinfos-eq-insert hs d)
          ∙ e in
        let same : after ≡ t = ground (arith, loaded) in
        subst IsForest same (
          insert_new_headers_into_tree-IsForest hs empty_tree after changed empty_tree-IsForest
            runs)
