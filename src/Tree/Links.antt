-- ===== src/Tree/Links.antt =====
-- The edges of the header tree follow the headers' `prev_blockhash`, so that no block has two
-- parents (`insert_new_headers_into_tree` of src/main.rs).
use fork_observer.Prelude.{
  ℕ, Bool, ◌≡◌, sym, ap, subst, ◌∙◌, inl, inr, some, List, arith, get_elem?, get_elem?-append, In,
}
use fork_observer.Bitcoin.{Bitcoin}
use fork_observer.Petgraph.{DiGraph}
use fork_observer.Types.{HeaderInfo, hash_of}
use fork_observer.Tree.{TreeInfo, index_of, nodes, insert_new_headers_into_tree}
use fork_observer.Tree.Indexed.{IsIndexed}
use fork_observer.Tree.Edges.{Links}
use fork_observer.Tree.Insert.{insert_new_headers_into_tree-Inserted}

-- A block hash commits to the hash of the previous block.
abbrev pub HashCommits : Bitcoin → Type 0
HashCommits B =
    (g h : B.Header) → B.block_hash g ≡ B.block_hash h → B.prev_blockhash g ≡ B.prev_blockhash h

module _ {B : Bitcoin} {P : DiGraph (HeaderInfo B)} where
  -- The edge joins two nodes, of which the first is the previous block of the second.
  pub record IsParent (t : TreeInfo B P) (e : ℕ × ℕ) : Type 0 where
    pub parent : HeaderInfo B
    pub child : HeaderInfo B
    pub at_source : get_elem? (nodes t) e.0 ≡ some parent
    pub at_target : get_elem? (nodes t) e.1 ≡ some child
    pub follows : B.prev_blockhash child.header ≡ hash_of parent

  abbrev pub IsLinked : TreeInfo B P → Type 0
  IsLinked t = (e : ℕ × ℕ) → In e (P.edges t.graph) → IsParent t e

  pub Links-IsParent :
      (t : TreeInfo B P) (h : HeaderInfo B) (e : ℕ × ℕ)
      → HashCommits B
      → IsIndexed t
      → Links t h e
      → IsParent t e
  Links-IsParent t h e commits v l =
      let (p, at_p, named_p) = v.sound _ e.0 l.source in
      let (c, at_c, named_c) = v.sound _ e.1 l.target in
      record {
        parent = p;
        child = c;
        at_source = at_p;
        at_target = at_c;
        follows = commits c.header h.header named_c ∙ sym named_p;
      }

  -- Insertion keeps the edges along `prev_blockhash`, if hashes commit to the previous block.
  pub insert_new_headers_into_tree-IsLinked :
      (hs : List (HeaderInfo B)) (t after : TreeInfo B P) (changed : Bool)
      → HashCommits B
      → IsIndexed t
      → IsLinked t
      → insert_new_headers_into_tree t hs ≡ some (after, changed)
      → IsLinked after
  insert_new_headers_into_tree-IsLinked hs t after changed commits v linked runs =
      let (u, c, runs', i) = insert_new_headers_into_tree-Inserted hs t v in
      let same : u ≡ after = cc in
      subst IsLinked same (λ e m. elim ((i.linked e).0 m) [
        | inl old ↦
            let p = linked e old in
            record {
              parent = p.parent;
              child = p.child;
              at_source = rw i.appended (get_elem?-append (nodes t) i.added e.0 p.at_source);
              at_target = rw i.appended (get_elem?-append (nodes t) i.added e.1 p.at_target);
              follows = p.follows;
            }
        | inr (h, _, l) ↦ Links-IsParent u h e commits i.indexed l
      ])

  -- In a tree with a correct index and edges along `prev_blockhash`, no node has two parents.
  pub one_parent :
      (t : TreeInfo B P) (a b c : ℕ)
      → IsIndexed t
      → IsLinked t
      → In (a, c) (P.edges t.graph)
      → In (b, c) (P.edges t.graph)
      → a ≡ b
  one_parent t a b c v linked m n =
      let p = linked (a, c) m in
      let q = linked (b, c) n in
      let same_child : p.child ≡ q.child = ground (arith, p.at_target, q.at_target) in
      let same_hash : hash_of p.parent ≡ hash_of q.parent =
        sym p.follows
        ∙ ap (λ (h : HeaderInfo B). B.prev_blockhash h.header) same_child
        ∙ q.follows in
      let at_a = v.complete a p.parent p.at_source in
      let at_b = v.complete b q.parent q.at_source in
      ground (arith, at_a, at_b, same_hash, ap (index_of t) same_hash)
