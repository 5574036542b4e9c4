-- ===== src/Tree/Insert.antt =====
-- `insert_new_headers_into_tree` of src/main.rs as a whole.
use mathlib.Core.List.{append-nil}
use fork_observer.Prelude.{
  ℕ, ◌≡◌, ◌↔◌, ◌⊎◌, refl, sym, ap, subst, ◌∙◌, inl, inr, Bool, false, none, some, List, [], ◌∷◌,
  ◌++◌, arith, All, In, Option-cases,
}
use fork_observer.Bitcoin.{Bitcoin}
use fork_observer.Petgraph.{DiGraph}
use fork_observer.Types.{HeaderInfo, hash_of}
use fork_observer.Tree.{TreeInfo, index_of, nodes, insert_nodes, insert_new_headers_into_tree}
use fork_observer.Tree.Indexed.{IsIndexed, index_of-same_nodes}
use fork_observer.Tree.Growth.{nonempty, insert_nodes-Grown}
use fork_observer.Tree.Edges.{Links, connect-Connected, IsIndexed-same}

module _ {B : Bitcoin} {P : DiGraph (HeaderInfo B)} where
  -- What an insertion of `hs` into `t` makes of it.
  pub record Inserted (hs : List (HeaderInfo B)) (t after : TreeInfo B P) (changed : Bool)
      : Type 0 where
    pub added : List (HeaderInfo B)
    pub appended : nodes after ≡ nodes t ++ added
    pub reported : changed ≡ nonempty added
    pub indexed : IsIndexed after
    pub fresh : All (λ h. index_of t (hash_of h) ≡ none) added
    pub listed : (h : HeaderInfo B) → In h added → In h hs
    pub covered : (h : HeaderInfo B) → In h hs → (i : ℕ) × (index_of after (hash_of h) ≡ some i)
    pub kept : (k : B.BlockHash) (i : ℕ) → index_of t k ≡ some i → index_of after k ≡ some i
    pub linked :
        (e : ℕ × ℕ)
        → In e (P.edges after.graph)
          ↔ (In e (P.edges t.graph) ⊎ ((h : HeaderInfo B) × In h hs × Links after h e))

  -- An insertion into a tree with a correct index does not panic, and leaves a tree with a correct
  -- index. It appends only headers of the batch whose hash was unknown, and reports a change
  -- exactly if it appends one; afterwards the tree knows every header of the batch, and at the
  -- same place each block it knew. The new edges are those from the previous block to a
  -- header of the batch, where the tree knows the previous block.
  pub insert_new_headers_into_tree-Inserted :
      (hs : List (HeaderInfo B)) (t : TreeInfo B P)
      → IsIndexed t
      → (after : TreeInfo B P) × (changed : Bool) × (insert_new_headers_into_tree t hs
          ≡ some (after, changed))
        × Inserted hs t after changed
  unfolding insert_new_headers_into_tree
  insert_new_headers_into_tree-Inserted hs t v =
      let grown = insert_nodes hs t false in
      let (g, reported) = insert_nodes-Grown hs t false v in
      let (after, runs, c) = connect-Connected hs grown.0 g.indexed g.covered in
      (
        after,
        grown.1,
        rw runs,
        record {
          added = g.added;
          appended = c.same_nodes ∙ g.appended;
          reported = reported;
          indexed = IsIndexed-same grown.0 after c.same_index c.same_nodes g.indexed;
          fresh = g.fresh;
          listed = g.listed;
          covered = λ h m. let (i, e) = g.covered h m in (i, rw c.same_index e);
          kept = λ k i e. rw c.same_index (g.kept k i e);
          linked = λ e. (
            λ m. elim ((c.linked e).0 m) [
              | inl old ↦ inl (rw g.same_edges at old)
              | inr (h, listed, l) ↦ inr (
                h,
                listed,
                record { source = rw c.same_index l.source; target = rw c.same_index l.target },
              )
            ],
            λ m. (c.linked e).1 (elim m [
              | inl old ↦ inl (rw g.same_edges old)
              | inr (h, listed, l) ↦ inr (
                h,
                listed,
                record {
                  source = rw (← c.same_index) l.source;
                  target = rw (← c.same_index) l.target;
                },
              )
            ]),
          );
        },
      )

  nothing_added :
      (t : TreeInfo B P) (hs added : List (HeaderInfo B))
      → ((h : HeaderInfo B) → In h hs → (i : ℕ) × (index_of t (hash_of h) ≡ some i))
      → All (λ h. index_of t (hash_of h) ≡ none) added
      → ((h : HeaderInfo B) → In h added → In h hs)
      → added ≡ []
  nothing_added t hs [] known fresh listed = refl
  nothing_added t hs (h ∷ added) known fresh listed =
      let (i, e) = known h (listed h (inl refl)) in absurd (ground (arith, fresh.0, e))

  -- A second insertion of the same headers changes nothing: it reports no change, and leaves the
  -- nodes, the index and the set of edges as they were.
  pub insert_new_headers_into_tree_again :
      (hs : List (HeaderInfo B)) (t once : TreeInfo B P) (changed : Bool)
      → IsIndexed t
      → insert_new_headers_into_tree t hs ≡ some (once, changed)
      → (twice : TreeInfo B P) × (insert_new_headers_into_tree once hs ≡ some (twice, false))
        × (nodes twice ≡ nodes once)
        × ((k : B.BlockHash) → index_of twice k ≡ index_of once k)
        × ((e : ℕ × ℕ) → In e (P.edges twice.graph) ↔ In e (P.edges once.graph))
  insert_new_headers_into_tree_again hs t once changed v first =
      let (after, c, runs, i) = insert_new_headers_into_tree-Inserted hs t v in
      let same : after ≡ once = cc in
      let (twice, c', runs', i') = insert_new_headers_into_tree-Inserted hs after i.indexed in
      let none_new = nothing_added after hs i'.added i.covered i'.fresh i'.listed in
      let same_nodes =
        i'.appended ∙ ap (λ l. nodes after ++ l) none_new ∙ append-nil (nodes after) in
      let earlier = λ (k : B.BlockHash) (j : ℕ).
        index_of-same_nodes after twice k j same_nodes i.indexed i'.indexed in
      let quiet : c' ≡ false = i'.reported ∙ ap nonempty none_new in
      subst
        (λ (o : TreeInfo B P).
          (twice : TreeInfo B P) × (insert_new_headers_into_tree o hs ≡ some (twice, false))
          × (nodes twice ≡ nodes o)
          × ((k : B.BlockHash) → index_of twice k ≡ index_of o k)
          × ((e : ℕ × ℕ) → In e (P.edges twice.graph) ↔ In e (P.edges o.graph)))
        same
        (
          twice,
          runs' ∙ ap (λ b. some (twice, b)) quiet,
          same_nodes,
          λ k. elim (Option-cases (index_of after k)) [
            | inr (j, known) ↦ i'.kept k j known ∙ sym known
            | inl unknown ↦ elim (Option-cases (index_of twice k)) [
              | inl still ↦ still ∙ sym unknown
              | inr (j, found) ↦ absurd (cc (earlier k j found, unknown))
            ]
          ],
          λ e. (
            λ m. elim ((i'.linked e).0 m) [
              | inl old ↦ old
              | inr (h, listed, l) ↦ (i.linked e).1 (
                  inr (
                    h,
                    listed,
                    record { source = earlier _ _ l.source; target = earlier _ _ l.target },
                  ))
            ],
            λ m. (i'.linked e).1 (inl m),
          ),
        )
