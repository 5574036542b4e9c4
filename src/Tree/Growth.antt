-- ===== src/Tree/Growth.antt =====
-- The first loop of `insert_new_headers_into_tree` in src/main.rs adds exactly the headers whose
-- hash the tree does not know.
use mathlib.Core.List.{append-nil, append_assoc}
use fork_observer.Prelude.{
  ℕ, ◌≡◌, refl, sym, ap, subst, ◌∙◌, inl, inr, Bool, true, false, none, some, List, [], ◌∷◌, ◌++◌,
  arith, length, All, In, Option-cases, if◌then◌else◌,
}
use fork_observer.Bitcoin.{Bitcoin}
use fork_observer.Petgraph.{DiGraph}
use fork_observer.Types.{HeaderInfo, hash_of}
use fork_observer.Tree.{TreeInfo, index_of, nodes, add_header, insert_nodes}
use fork_observer.Tree.Indexed.{
  IsIndexed, index_of-add_header, nodes-add_header, edges-add_header, add_header-IsIndexed,
}

-- `true` for a list with an item.
abbrev pub nonempty : {A : Type 0} → List A → Bool
nonempty [] = false
nonempty (x ∷ xs) = true

either_true : (c : Bool) → true ≡ (if c then true else true)
either_true true = refl
either_true false = refl

module _ {B : Bitcoin} {P : DiGraph (HeaderInfo B)} where
  -- What the loop over `hs` makes of the tree `t`.
  pub record Grown (hs : List (HeaderInfo B)) (t after : TreeInfo B P) : Type 0 where
    pub added : List (HeaderInfo B)
    pub appended : nodes after ≡ nodes t ++ added
    pub same_edges : P.edges after.graph ≡ P.edges t.graph
    pub indexed : IsIndexed after
    pub kept : (k : B.BlockHash) (i : ℕ) → index_of t k ≡ some i → index_of after k ≡ some i
    pub covered : (h : HeaderInfo B) → In h hs → (i : ℕ) × (index_of after (hash_of h) ≡ some i)
    pub fresh : All (λ h. index_of t (hash_of h) ≡ none) added
    pub listed : (h : HeaderInfo B) → In h added → In h hs

  fresh_earlier :
      (t : TreeInfo B P) (h : HeaderInfo B) (added : List (HeaderInfo B))
      → All (λ g. index_of (add_header t h) (hash_of g) ≡ none) added
      → All (λ g. index_of t (hash_of g) ≡ none) added
  fresh_earlier t h [] a = tt
  fresh_earlier t h (g ∷ gs) a =
      (ground (arith, index_of-add_header t h (hash_of g), a.0), fresh_earlier t h gs a.1)

  -- A header that the tree knows is skipped.
  Grown-known :
      (h : HeaderInfo B) (hs : List (HeaderInfo B)) (t after : TreeInfo B P) (i : ℕ)
      → index_of t (hash_of h) ≡ some i
      → Grown hs t after
      → Grown (h ∷ hs) t after
  Grown-known h hs t after i known g = record {
    added = g.added;
    appended = g.appended;
    same_edges = g.same_edges;
    indexed = g.indexed;
    kept = g.kept;
    covered = λ k m. elim m [
      | inl e ↦ (i, rw e (g.kept (hash_of h) i known))
      | inr later ↦ g.covered k later
    ];
    fresh = g.fresh;
    listed = λ k m. inr (g.listed k m);
  }

  -- Any other header is added first.
  Grown-new :
      (h : HeaderInfo B) (hs : List (HeaderInfo B)) (t after : TreeInfo B P)
      → index_of t (hash_of h) ≡ none
      → Grown hs (add_header t h) after
      → Grown (h ∷ hs) t after
  Grown-new h hs t after unknown g =
      let at_h : index_of (add_header t h) (hash_of h) ≡ some (length (nodes t)) =
        ground (
          arith,
          index_of-add_header t h (hash_of h),
          B.hash_key.same_iff (hash_of h) (hash_of h),
        ) in
      record {
        added = h ∷ g.added;
        appended =
            g.appended
            ∙ ap (λ l. l ++ g.added) (nodes-add_header t h)
            ∙ append_assoc (nodes t) (h ∷ []) g.added;
        same_edges = g.same_edges ∙ edges-add_header t h;
        indexed = g.indexed;
        kept = λ k i e. g.kept k i (
            ground
              (arith, index_of-add_header t h k, B.hash_key.same_iff (hash_of h) k, unknown, e));
        covered = λ k m. elim m [
          | inl e ↦ (length (nodes t), rw e (g.kept (hash_of h) _ at_h))
          | inr later ↦ g.covered k later
        ];
        fresh = (unknown, fresh_earlier t h g.added g.fresh);
        listed = λ k m. elim m [ inl e ↦ inl e | inr later ↦ inr (g.listed k later) ];
      }

  pub insert_nodes-known :
      (h : HeaderInfo B) (hs : List (HeaderInfo B)) (t : TreeInfo B P) (c : Bool) (i : ℕ)
      → index_of t (hash_of h) ≡ some i
      → insert_nodes hs t c ≡ insert_nodes (h ∷ hs) t c
  unfolding insert_nodes
  insert_nodes-known h hs t c i e = rw e

  pub insert_nodes-new :
      (h : HeaderInfo B) (hs : List (HeaderInfo B)) (t : TreeInfo B P) (c : Bool)
      → index_of t (hash_of h) ≡ none
      → insert_nodes hs (add_header t h) true ≡ insert_nodes (h ∷ hs) t c
  unfolding insert_nodes
  insert_nodes-new h hs t c e = rw e

  abbrev Inserts : List (HeaderInfo B) → TreeInfo B P → Bool → TreeInfo B P × Bool → Type 0
  Inserts hs t c r = (g : Grown hs t r.0) × (r.1 ≡ (if c then true else nonempty g.added))

  -- The loop adds what is new, and reports whether that was anything.
  pub insert_nodes-Grown :
      (hs : List (HeaderInfo B)) (t : TreeInfo B P) (c : Bool)
      → IsIndexed t
      → Inserts hs t c (insert_nodes hs t c)
  unfolding insert_nodes Grown-known Grown-new
  insert_nodes-Grown [] t c v = (
    record {
      added = [];
      appended = sym (append-nil (nodes t));
      same_edges = refl;
      indexed = v;
      kept = λ k i e. e;
      covered = λ h m. absurd m;
      fresh = tt;
      listed = λ h m. m;
    },
    ground arith,
  )
  insert_nodes-Grown (h ∷ hs) t c v = elim (Option-cases (index_of t (hash_of h))) [
    | inl unknown ↦
        let (g, changed) =
          insert_nodes-Grown hs (add_header t h) true (add_header-IsIndexed t h unknown v) in
        subst (Inserts (h ∷ hs) t c) (insert_nodes-new h hs t c unknown)
          (Grown-new h hs t _ unknown g, changed ∙ either_true c)
    | inr (i, known) ↦
        let (g, changed) = insert_nodes-Grown hs t c v in
        subst (Inserts (h ∷ hs) t c) (insert_nodes-known h hs t c i known)
          (Grown-known h hs t _ i known g, changed)
  ]
