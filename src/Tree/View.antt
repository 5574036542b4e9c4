-- ===== src/Tree/View.antt =====
-- The abstract view of a header tree: the header of each block hash. It forgets the order of the nodes,
-- the graph and the miners. `insert_new_headers_into_tree` of src/main.rs is the operation `learn` on
-- it: a hash keeps the header it has, and any other gets the first header of the batch with it.
use mathlib.Core.Option
use mathlib.Core.Path.{fun_ext}
use fork_observer.Prelude.{
  ℕ, ◌≡◌, refl, sym, ap, ◌∙◌, inl, inr, Bool, true, false, Option, none, some, List, [], ◌∷◌, ◌++◌,
  map, arith, length, get_elem?, get_elem?-append, get_elem?-snoc, if◌then◌else◌, Bool-cases,
  Option-cases,
}
use fork_observer.Prelude.Options.{◌>>=◌, >>=-eq-some}
use fork_observer.Bitcoin.{Bitcoin}
use fork_observer.Petgraph.{DiGraph}
use fork_observer.Types.{HeaderInfo, hash_of}
use fork_observer.Tree.{
  TreeInfo, index_of, nodes, add_header, insert_nodes, connect, insert_new_headers_into_tree,
}
use fork_observer.Tree.Edges.{connect-Connected}
use fork_observer.Tree.Growth.{insert_nodes-Grown, insert_nodes-new, insert_nodes-known}
use fork_observer.Tree.Indexed.{
  IsIndexed, index_of-add_header, nodes-add_header, add_header-IsIndexed,
}

-- The header of each block hash
abbrev pub View : Bitcoin → Type 0
View B = B.BlockHash → Option B.Header

module _ (B : Bitcoin) where
  -- A header is learned under its hash, unless a header is known there.
  abbrev pub learn_one : B.Header → View B → View B
  learn_one header known hash = elim (known hash) [
    | some h ↦ some h
    | none ↦ if B.hash_key.same (B.block_hash header) hash then some header else none
  ]

  abbrev pub learn : List B.Header → View B → View B
  learn [] known = known
  learn (header ∷ headers) known = learn headers (learn_one header known)

  pub learn-append :
      (xs ys : List B.Header) (known : View B) → learn (xs ++ ys) known ≡ learn ys (learn xs known)
  learn-append [] ys known = refl
  learn-append (x ∷ xs) ys known = learn-append xs ys (learn_one x known)

  learn_one_known :
      (x : B.Header) (known : View B) (hash : B.BlockHash) (h : B.Header)
      → known hash ≡ some h
      → learn_one x known hash ≡ some h
  learn_one_known x known hash h e = rw (e, learn_one) refl

  learn_one_new :
      (x : B.Header) (known : View B) (hash : B.BlockHash)
      → known hash ≡ none
      → B.hash_key.same (B.block_hash x) hash ≡ true
      → learn_one x known hash ≡ some x
  learn_one_new x known hash e same = rw (e, learn_one) (rw same refl)

  learn_one_other :
      (x : B.Header) (known : View B) (hash : B.BlockHash)
      → known hash ≡ none
      → B.hash_key.same (B.block_hash x) hash ≡ false
      → learn_one x known hash ≡ none
  learn_one_other x known hash e other = rw (e, learn_one) (rw other refl)

  -- What is known stays known.
  pub learn-keeps :
      (xs : List B.Header) (known : View B) (hash : B.BlockHash) (h : B.Header)
      → known hash ≡ some h
      → learn xs known hash ≡ some h
  learn-keeps [] known hash h e = e
  learn-keeps (x ∷ xs) known hash h e =
      learn-keeps xs (learn_one x known) hash h (learn_one_known x known hash h e)

module _ {B : Bitcoin} {P : DiGraph (HeaderInfo B)} where
  pub view : TreeInfo B P → View B
  view t hash = index_of t hash >>= λ i. Option.map (λ h. h.header) (get_elem? (nodes t) i)

  pub view-same : (t u : TreeInfo B P) → u.index ≡ t.index → nodes u ≡ nodes t → view u ≡ view t
  unfolding view
  view-same t u same_index same_nodes = fun_ext (λ hash. rw (same_index, same_nodes) refl)

  pub view-at :
      (t : TreeInfo B P) (hash : B.BlockHash) (i : ℕ) (h : HeaderInfo B)
      → index_of t hash ≡ some i
      → get_elem? (nodes t) i ≡ some h
      → view t hash ≡ some h.header
  unfolding view
  view-at t hash i h e at_i = rw (e, at_i) refl

  pub view-none :
      (t : TreeInfo B P) (hash : B.BlockHash) → index_of t hash ≡ none → view t hash ≡ none
  unfolding view
  view-none t hash e = rw e refl

  -- An unknown header is learned.
  view-add_header :
      (t : TreeInfo B P) (h : HeaderInfo B)
      → index_of t (hash_of h) ≡ none
      → IsIndexed t
      → view (add_header t h) ≡ learn_one B h.header (view t)
  view-add_header t h unknown v = fun_ext λ hash.
      elim (Bool-cases (B.hash_key.same (hash_of h) hash)) [
        | inl same ↦
            let here : hash_of h ≡ hash = (B.hash_key.same_iff (hash_of h) hash).0 same in
            let at_new : index_of (add_header t h) hash ≡ some (length (nodes t)) =
              index_of-add_header t h hash ∙ rw same refl in
            let there : get_elem? (nodes (add_header t h)) (length (nodes t)) ≡ some h =
              ap (λ l. get_elem? l (length (nodes t))) (nodes-add_header t h)
              ∙ get_elem?-snoc (nodes t) h in
            view-at (add_header t h) hash (length (nodes t)) h at_new there
            ∙ sym (
                learn_one_new B h.header (view t) hash
                  (view-none t hash (ap (index_of t) (sym here) ∙ unknown)) same)
        | inr other ↦
            let at_old : index_of (add_header t h) hash ≡ index_of t hash =
              index_of-add_header t h hash ∙ rw other refl in
            elim (Option-cases (index_of t hash)) [
              | inl none_old ↦
                  view-none (add_header t h) hash (at_old ∙ none_old)
                  ∙ sym (learn_one_other B h.header (view t) hash (view-none t hash none_old) other)
              | inr (i, found) ↦
                  let (g, at_i, _) = v.sound hash i found in
                  let kept : get_elem? (nodes (add_header t h)) i ≡ some g =
                    ap (λ l. get_elem? l i) (nodes-add_header t h)
                    ∙ get_elem?-append (nodes t) (h ∷ []) i at_i in
                  view-at (add_header t h) hash i g (at_old ∙ found) kept
                  ∙ sym (
                      learn_one_known B h.header (view t) hash g.header
                        (view-at t hash i g found at_i))
            ]
      ]

  -- A known one changes nothing.
  view-known :
      (t : TreeInfo B P) (h : HeaderInfo B) (i : ℕ)
      → index_of t (hash_of h) ≡ some i
      → IsIndexed t
      → view t ≡ learn_one B h.header (view t)
  view-known t h i known v = fun_ext λ hash. elim (Option-cases (view t hash)) [
    | inr (g, e) ↦ e ∙ sym (learn_one_known B h.header (view t) hash g e)
    | inl nothing ↦ elim (Bool-cases (B.hash_key.same (hash_of h) hash)) [
      | inl same ↦
          let here : hash_of h ≡ hash = (B.hash_key.same_iff (hash_of h) hash).0 same in
          let (g, at_i, _) = v.sound (hash_of h) i known in
          let something = view-at t hash i g (ap (index_of t) (sym here) ∙ known) at_i in
          absurd (cc)
      | inr other ↦ nothing ∙ sym (learn_one_other B h.header (view t) hash nothing other)
    ]
  ]

  view-insert_nodes :
      (hs : List (HeaderInfo B)) (t : TreeInfo B P) (c : Bool)
      → IsIndexed t
      → view (insert_nodes hs t c).0 ≡ learn B (map (λ (h : HeaderInfo B). h.header) hs) (view t)
  unfolding insert_nodes
  view-insert_nodes [] t c v = refl
  view-insert_nodes (h ∷ hs) t c v = elim (Option-cases (index_of t (hash_of h))) [
    | inl unknown ↦
        ap (λ r. view r.0) (sym (insert_nodes-new h hs t c unknown))
        ∙ view-insert_nodes hs (add_header t h) true (add_header-IsIndexed t h unknown v)
        ∙ ap (learn B (map (λ (h : HeaderInfo B). h.header) hs)) (view-add_header t h unknown v)
    | inr (i, known) ↦
        ap (λ r. view r.0) (sym (insert_nodes-known h hs t c i known))
        ∙ view-insert_nodes hs t c v
        ∙ ap (learn B (map (λ (h : HeaderInfo B). h.header) hs)) (view-known t h i known v)
  ]

  -- Insertion is `learn` of the headers of the batch, one after the other, and nothing else.
  pub view-insert_new_headers_into_tree :
      (hs : List (HeaderInfo B)) (t after : TreeInfo B P) (changed : Bool)
      → IsIndexed t
      → insert_new_headers_into_tree t hs ≡ some (after, changed)
      → view after ≡ learn B (map (λ (h : HeaderInfo B). h.header) hs) (view t)
  unfolding insert_new_headers_into_tree
  view-insert_new_headers_into_tree hs t after changed v e =
      let grown = (insert_nodes hs t false).0 in
      let (g, _) = insert_nodes-Grown hs t false v in
      let (u, runs, c) = connect-Connected hs grown g.indexed g.covered in
      let (u', runs', r) = >>=-eq-some (connect hs grown) _ e in
      let same : u ≡ after = ground (arith, r, runs, runs') in
      ap view (sym same)
      ∙ view-same grown u c.same_index c.same_nodes
      ∙ view-insert_nodes hs t false v
