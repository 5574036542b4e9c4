-- ===== src/Tree/Edges.antt =====
-- The second loop of `insert_new_headers_into_tree` in src/main.rs (and of `load_treeinfos` in
-- src/db.rs) does not panic, and links each header to the previous block.
use fork_observer.Prelude.{
  ap, ℕ, ◌<◌, ◌≡◌, ◌↔◌, ◌⊎◌, refl, ◌∙◌, inl, inr, false, some, List, [], ◌∷◌, arith, length,
  get_elem?-lt, In, in-append, Option-cases,
}
use native.Mathlib.Decide.{ℕ_discrete}
use fork_observer.Bitcoin.{Bitcoin}
use fork_observer.Petgraph.{DiGraph}
use fork_observer.Types.{HeaderInfo, hash_of}
use fork_observer.Tree.{TreeInfo, index_of, nodes, connect, connect_to}
use fork_observer.Tree.Indexed.{IsIndexed}

unfoldable pub pair_discrete : (p q : ℕ × ℕ) → Dec (p ≡ q)
pair_discrete (a, b) (c, d) = elim (ℕ_discrete a c) [
  | yes e ↦ elim (ℕ_discrete b d) [
    | yes f ↦ yes (λ i. (e i, f i))
    | no g ↦ no (λ h. g (ap (λ r. r.1) h))
  ]
  | no f ↦ no (λ h. f (ap (λ r. r.0) h))
]

unfoldable pub dec_in : (p : ℕ × ℕ) (l : List (ℕ × ℕ)) → Dec (In p l)
dec_in p [] = no (λ m. m)
dec_in p (q ∷ l) = elim (pair_discrete p q) [
  | yes same ↦ yes (inl same)
  | no other ↦ elim (dec_in p l) [
    | yes m ↦ yes (inr m)
    | no absent ↦ no (λ m. elim m [ inl same ↦ other same | inr m' ↦ absent m' ])
  ]
]

module _ {B : Bitcoin} {P : DiGraph (HeaderInfo B)} where
  -- The pair is the edge that the loop draws for the header.
  pub record Links (t : TreeInfo B P) (h : HeaderInfo B) (e : ℕ × ℕ) : Type 0 where
    pub source : index_of t (B.prev_blockhash h.header) ≡ some e.0
    pub target : index_of t (hash_of h) ≡ some e.1

  -- What the loop over `hs` makes of the tree `t`.
  pub record Connected (hs : List (HeaderInfo B)) (t after : TreeInfo B P) : Type 0 where
    pub same_index : after.index ≡ t.index
    pub same_nodes : nodes after ≡ nodes t
    pub linked :
        (e : ℕ × ℕ)
        → In e (P.edges after.graph)
          ↔ (In e (P.edges t.graph) ⊎ ((h : HeaderInfo B) × In h hs × Links t h e))

  abbrev pub Covers : TreeInfo B P → List (HeaderInfo B) → Type 0
  Covers t hs = (h : HeaderInfo B) → In h hs → (i : ℕ) × (index_of t (hash_of h) ≡ some i)

  pub IsIndexed-same :
      (t u : TreeInfo B P) → u.index ≡ t.index → nodes u ≡ nodes t → IsIndexed t → IsIndexed u
  IsIndexed-same t u same_index same_nodes v = record {
    sound = λ k i e.
        let (h, at, named) = v.sound k i (rw (← same_index) e) in (h, rw same_nodes at, named);
    complete = λ i h e. rw same_index (v.complete i h (rw (← same_nodes) e));
  }

  pub index_of-lt :
      (t : TreeInfo B P) (k : B.BlockHash) (i : ℕ)
      → IsIndexed t
      → index_of t k ≡ some i
      → i < length (nodes t)
  index_of-lt t k i v e = let (h, at, _) = v.sound k i e in get_elem?-lt (nodes t) i at

  -- One edge more.
  connect_to-edges :
      (t : TreeInfo B P) (prev current : ℕ)
      → prev < length (nodes t)
      → current < length (nodes t)
      → (e : ℕ × ℕ)
      → In e (P.edges (connect_to current (some prev) t).graph)
        ↔ (In e (P.edges t.graph) ⊎ (e ≡ (prev, current)))
  unfolding connect_to
  connect_to-edges t prev current lp lc e = elim (dec_in (prev, current) (P.edges t.graph)) [
    | yes old ↦
        rw (P.edges-update_edge_old t.graph prev current false lp lc old)
          (λ m. inl m, λ h. elim h [ inl m ↦ m | inr same ↦ rw same old ])
    | no new ↦ rw (P.edges-update_edge_new t.graph prev current false lp lc new) (
      λ m. elim ((in-append e (P.edges t.graph) ((prev, current) ∷ [])).0 m) [
        | inl old ↦ inl old
        | inr last ↦ elim last [ inl same ↦ inr same | inr none_left ↦ absurd none_left ]
      ],
      λ h.
          (in-append e (P.edges t.graph) ((prev, current) ∷ [])).1
            (elim h [ inl old ↦ inl old | inr same ↦ inr (inl same) ]),
    )
  ]

  pub connect_to-Connected :
      (t : TreeInfo B P) (h : HeaderInfo B) (current : ℕ)
      → IsIndexed t
      → index_of t (hash_of h) ≡ some current
      → Connected (h ∷ []) t (connect_to current (index_of t (B.prev_blockhash h.header)) t)
  connect_to-Connected t h current v at =
      elim (Option-cases (index_of t (B.prev_blockhash h.header))) [
        | inl root ↦ rw root (
            unfold connect_to in
            record {
              same_index = refl;
              same_nodes = refl;
              linked = λ e. (
                λ m. inl m,
                λ c. elim c [
                  | inl m ↦ m
                  | inr (g, m, l) ↦ elim m [
                    | inl same ↦ absurd (ground (arith, l.source, same))
                    | inr none_left ↦ absurd none_left
                  ]
                ],
              );
            })
        | inr (prev, linked) ↦
            let lp = index_of-lt t _ prev v linked in
            let lc = index_of-lt t _ current v at in
            let one = connect_to-edges t prev current lp lc in
            rw linked (record {
              same_index = unfold connect_to in refl;
              same_nodes =
                  unfold connect_to in P.raw_nodes-update_edge t.graph prev current false lp lc;
              linked = λ e. (
                λ m. elim ((one e).0 m) [
                  | inl old ↦ inl old
                  | inr new ↦
                      inr (h, inl refl, record { source = rw new linked; target = rw new at })
                ],
                λ c. (one e).1 (elim c [
                  | inl old ↦ inl old
                  | inr (g, m, l) ↦ elim m [
                    | inl same ↦ inr (ground (arith, l.source, l.target, same))
                    | inr none_left ↦ absurd none_left
                  ]
                ]),
              );
            })
      ]

  Connected-append :
      (h : HeaderInfo B) (hs : List (HeaderInfo B)) (t u after : TreeInfo B P)
      → Connected (h ∷ []) t u
      → Connected hs u after
      → Connected (h ∷ hs) t after
  Connected-append h hs t u after one rest = record {
    same_index = rest.same_index ∙ one.same_index;
    same_nodes = rest.same_nodes ∙ one.same_nodes;
    linked = λ e. (
      λ m. elim ((rest.linked e).0 m) [
        | inl old ↦ elim ((one.linked e).0 old) [
          | inl older ↦ inl older
          | inr (g, listed, l) ↦ elim listed [
            | inl same ↦ inr (g, inl same, l)
            | inr none_left ↦ absurd none_left
          ]
        ]
        | inr (g, listed, l) ↦ inr (
          g,
          inr listed,
          record {
            source = rw (← one.same_index) l.source;
            target = rw (← one.same_index) l.target;
          },
        )
      ],
      λ c. (rest.linked e).1 (elim c [
        | inl old ↦ inl ((one.linked e).1 (inl old))
        | inr (g, listed, l) ↦ elim listed [
          | inl same ↦ inl ((one.linked e).1 (inr (g, inl same, l)))
          | inr later ↦ inr (
            g,
            later,
            record { source = rw one.same_index l.source; target = rw one.same_index l.target },
          )
        ]
      ]),
    );
  }

  -- If the tree knows all the headers, the loop runs through, and adds for each header the edge
  -- from the previous block, where the tree knows that block, and no other edge.
  pub connect-Connected :
      (hs : List (HeaderInfo B)) (t : TreeInfo B P)
      → IsIndexed t
      → Covers t hs
      → (after : TreeInfo B P) × (connect hs t ≡ some after) × Connected hs t after
  unfolding connect
  connect-Connected [] t v known = (
    t,
    refl,
    record {
      same_index = refl;
      same_nodes = refl;
      linked = λ e. (λ m. inl m, λ c. elim c [ inl m ↦ m | inr (h, m, l) ↦ absurd m ]);
    },
  )
  connect-Connected (h ∷ hs) t v known =
      let (current, at) = known h (inl refl) in
      let u = connect_to current (index_of t (B.prev_blockhash h.header)) t in
      let one = connect_to-Connected t h current v at in
      let (after, runs, rest) =
        connect-Connected hs u (IsIndexed-same t u one.same_index one.same_nodes v)
          (λ g m. let (i, e) = known g (inr m) in (i, rw one.same_index e)) in
      (after, rw at runs, Connected-append h hs t u after one rest)
