-- ===== src/Rss/InvalidBlocks.antt =====
-- `invalid_blocks_response` of src/rss.rs: which nodes it names for an invalid block.
use mathlib.Core.List.{append-nil}
use fork_observer.Prelude.{
  ◌≡◌, ◌↔◌, ◌⊎◌, sym, ap, subst, ◌∙◌, inl, inr, true, Option, none, some, List, [], ◌∷◌, ◌++◌,
  arith, In, in-append, if◌then◌else◌, Bool-cases, Option-cases,
}
use fork_observer.Prelude.HashMap
use fork_observer.Types.{TipInfoJson, NodeDataJson}
use fork_observer.Rss.{
  InvalidBlocks, tip_key, same_tip, same_tip_iff, is_invalid, add_invalid, add_tips_of,
  invalid_blocks_to_node_id,
}

abbrev list_of : Option (List NodeDataJson) → List NodeDataJson
list_of none = []
list_of (some nodes) = nodes

-- The nodes collected for a tip; none, if the tip is no key.
abbrev pub nodes_of : TipInfoJson → InvalidBlocks → List NodeDataJson
nodes_of tip m = list_of (HashMap.get tip m)

abbrev when_same : TipInfoJson → TipInfoJson → NodeDataJson → List NodeDataJson
when_same t tip node = if same_tip t tip then node ∷ [] else []

add_invalid-eq-insert :
    (node : NodeDataJson) (t : TipInfoJson) (m : InvalidBlocks)
    → add_invalid node t m ≡ HashMap.insert t (nodes_of t m ++ node ∷ []) m
unfolding add_invalid
add_invalid-eq-insert node t m = elim (Option-cases (HashMap.get t m)) [
  | inl e ↦ rw (e, add_invalid)
  | inr (nodes, e) ↦ rw (e, add_invalid)
]

nodes_of-add_invalid :
    (node : NodeDataJson) (t tip : TipInfoJson) (m : InvalidBlocks)
    → nodes_of tip (add_invalid node t m) ≡ nodes_of tip m ++ when_same t tip node
nodes_of-add_invalid node t tip m =
    let grown = nodes_of t m ++ node ∷ [] in
    ap (nodes_of tip) (add_invalid-eq-insert node t m)
    ∙ ap list_of (HashMap.get-insert t tip grown m)
    ∙ elim (Bool-cases (same_tip t tip)) [
      | inl same ↦
          let e : t ≡ tip = (same_tip_iff t tip).0 same in
          rw same (ap (λ k. nodes_of k m ++ node ∷ []) e)
      | inr other ↦ rw other (sym (append-nil (nodes_of tip m)))
    ]

-- A node with the tip among `tips`, which is invalid
abbrev pub Reports : TipInfoJson → List TipInfoJson → Type 0
Reports tip tips = In tip tips × (is_invalid tip ≡ true)

in-when_same :
    (t tip : TipInfoJson) (n node : NodeDataJson)
    → In n (when_same t tip node) ↔ ((tip ≡ t) × (n ≡ node))
in-when_same t tip n node = elim (Bool-cases (same_tip t tip)) [
  | inl same ↦
      let e : t ≡ tip = (same_tip_iff t tip).0 same in
      rw same (λ h. (sym e, elim h [ inl m ↦ m | inr m ↦ absurd m ]), λ h. inl (h.1))
  | inr other ↦ rw other (λ h. absurd h, λ h. absurd (cc (other, (same_tip_iff t tip).1 (sym h.0))))
]

in-one_tip :
    (n node : NodeDataJson) (t tip : TipInfoJson) (m : InvalidBlocks)
    → In n (nodes_of tip (if is_invalid t then add_invalid node t m else m))
      ↔ (In n (nodes_of tip m) ⊎ ((n ≡ node) × (tip ≡ t) × (is_invalid tip ≡ true)))
in-one_tip n node t tip m = elim (Bool-cases (is_invalid t)) [
  | inl bad ↦
      let parts = in-append n (nodes_of tip m) (when_same t tip node) in
      let new = in-when_same t tip n node in
      let grown = nodes_of-add_invalid node t tip m in
      rw bad (
        λ h. elim (parts.0 (subst (In n) grown h)) [
          | inl old ↦ inl old
          | inr fresh ↦
              let (e, same) = new.0 fresh in
              inr (same, e, subst (λ x. is_invalid x ≡ true) (sym e) bad)
        ],
        λ h.
            subst (In n) (sym grown)
              (parts.1 (elim h [ inl old ↦ inl old | inr (same, e, b) ↦ inr (new.1 (e, same)) ])),
      )
  | inr good ↦ rw good (
    λ h. inl h,
    λ h. elim h [
      | inl old ↦ old
      | inr (same, e, b) ↦
          let b' = subst (λ x. is_invalid x ≡ true) e b in absurd (ground (arith, good, b'))
    ],
  )
]

in-add_tips_of :
    (n node : NodeDataJson) (tip : TipInfoJson) (tips : List TipInfoJson) (m : InvalidBlocks)
    → In n (nodes_of tip (add_tips_of node tips m))
      ↔ (In n (nodes_of tip m) ⊎ ((n ≡ node) × Reports tip tips))
unfolding add_tips_of
in-add_tips_of n node tip [] m = (λ h. inl h, λ h. elim h [ inl l ↦ l | inr r ↦ absurd (r.1.0) ])
in-add_tips_of n node tip (t ∷ tips) m =
    let rest = in-add_tips_of n node tip tips (if is_invalid t then add_invalid node t m else m) in
    let one = in-one_tip n node t tip m in
    (
      λ h. elim (rest.0 h) [
        | inl l ↦ elim (one.0 l) [ inl old ↦ inl old | inr (same, e, b) ↦ inr (same, (inl e, b)) ]
        | inr (same, (listed, b)) ↦ inr (same, (inr listed, b))
      ],
      λ h. rest.1 (elim h [
        | inl old ↦ inl (one.1 (inl old))
        | inr (same, (inl e, b)) ↦ inl (one.1 (inr (same, e, b)))
        | inr (same, (inr listed, b)) ↦ inr (same, (listed, b))
      ]),
    )

in-collected :
    (n : NodeDataJson) (tip : TipInfoJson) (nodes : List NodeDataJson) (m : InvalidBlocks)
    → In n (nodes_of tip (invalid_blocks_to_node_id nodes m))
      ↔ (In n (nodes_of tip m) ⊎ (In n nodes × Reports tip n.tips))
unfolding invalid_blocks_to_node_id
in-collected n tip [] m = (λ h. inl h, λ h. elim h [ inl l ↦ l | inr r ↦ absurd (r.0) ])
in-collected n tip (x ∷ xs) m =
    let rest = in-collected n tip xs (add_tips_of x x.tips m) in
    let one = in-add_tips_of n x tip x.tips m in
    (
      λ h. elim (rest.0 h) [
        | inl l ↦ elim (one.0 l) [
          | inl old ↦ inl old
          | inr (same, r) ↦
              inr (inl same, subst (λ (y : NodeDataJson). Reports tip y.tips) (sym same) r)
        ]
        | inr (listed, r) ↦ inr (inr listed, r)
      ],
      λ h. rest.1 (elim h [
        | inl old ↦ inl (one.1 (inl old))
        | inr (inl same, r) ↦
            inl (one.1 (inr (same, subst (λ (y : NodeDataJson). Reports tip y.tips) same r)))
        | inr (inr listed, r) ↦ inr (listed, r)
      ]),
    )

-- For each tip, the nodes that the feed of invalid blocks collects are exactly the nodes of the
-- network that show this tip with the status `invalid`.
pub in-invalid_blocks_to_node_id :
    (n : NodeDataJson) (tip : TipInfoJson) (nodes : List NodeDataJson)
    → In n (nodes_of tip (invalid_blocks_to_node_id nodes [])) ↔ (In n nodes × Reports tip n.tips)
unfolding HashMap.get
in-invalid_blocks_to_node_id n tip nodes =
    let all = in-collected n tip nodes [] in
    (λ h. elim (all.0 h) [ inl l ↦ absurd l | inr r ↦ r ], λ r. all.1 (inr r))
