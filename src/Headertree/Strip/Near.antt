-- ===== src/Headertree/Strip/Near.antt =====
-- Which headers `strip_tree` of src/headertree.rs keeps: its casts and its wrapping difference only say
-- that an interesting height is near, as long as heights fit 63 bits.
use fork_observer.Prelude.{
  ℕ, ◌+◌, ◌-◌, ◌^◌, ◌≤◌, ◌<◌, ◌≡◌, ◌↔◌, refl, sym, subst, ◌∙◌, inl, inr, Bool, true, false, some,
  List, [], ◌∷◌, ◌==◌, ==_iff, leb, leb→le, In, in-append, arith, if◌then◌else◌, Bool-cases,
}
use fork_observer.Prelude.BTree.{BTreeSet}
use fork_observer.Prelude.Int.{pos, negsuc, as_i64, as_unsigned}
use fork_observer.Bitcoin.{Bitcoin}
use fork_observer.Petgraph.{DiGraph}
use fork_observer.Types.{HeaderInfo}
use fork_observer.Tree.{TreeInfo, nodes}
use fork_observer.Headertree.{sorted_interesting_heights}
use fork_observer.Headertree.Counts.{blocks_at}
use fork_observer.Headertree.Interesting.{sorted_interesting_heights-Selects}
use fork_observer.Headertree.Strip.{int_sub, has_height, any_offset, is_near}

-- One of the heights is at most two above `h`, and at most one below it.
abbrev pub near : List ℕ → ℕ → Bool
near [] h = false
near (x ∷ xs) h = if leb x (h + 2) then (if leb h (x + 1) then true else near xs h) else near xs h

near_iff :
    (xs : List ℕ) (h : ℕ) → (near xs h ≡ true) ↔ ((x : ℕ) × In x xs × (x ≤ h + 2) × (h ≤ x + 1))
near_iff [] h = (λ e. absurd (cc), λ (x, m, _, _). absurd m)
near_iff (x ∷ xs) h =
    let rest = near_iff xs h in
    (
      λ e. elim (Bool-cases (leb x (h + 2))) [
        | inl low ↦ elim (Bool-cases (leb h (x + 1))) [
          | inl high ↦ (x, inl refl, leb→le _ _ low, leb→le _ _ high)
          | inr far ↦
              let (y, m, above, below) = rest.0 (ground (arith, e, low, far)) in
              (y, inr m, above, below)
        ]
        | inr far ↦
            let (y, m, above, below) = rest.0 (ground (arith, e, far)) in (y, inr m, above, below)
      ],
      λ (y, m, above, below). elim m [
        | inl same ↦ ground (arith, same, above, below)
        | inr later ↦ let found = rest.1 (y, later, above, below) in ground (arith, found)
      ],
    )

has_height_iff : (xs : List ℕ) (h : ℕ) → (has_height xs h ≡ true) ↔ In h xs
unfolding has_height
has_height_iff [] h = (λ e. absurd (cc), λ m. absurd m)
has_height_iff (x ∷ xs) h =
    let rest = has_height_iff xs h in
    (
      λ e. elim (Bool-cases (x == h)) [
        | inl here ↦ inl (sym ((==_iff x h).0 here))
        | inr other ↦ inr (rest.0 (ground (arith, e, other)))
      ],
      λ m. elim m [
        | inl same ↦ ground (arith, same)
        | inr later ↦ let found = rest.1 later in ground (arith, found)
      ],
    )

-- The heights that `strip_tree` looks for
offset_up_two : (n : ℕ) → n < 2 ^ 63 → as_unsigned 64 (int_sub (as_i64 n) (negsuc 1)) ≡ n + 2
offset_up_two n lt = ground arith

offset_up_one : (n : ℕ) → n < 2 ^ 63 → as_unsigned 64 (int_sub (as_i64 n) (negsuc 0)) ≡ n + 1
offset_up_one n lt = ground arith

offset_none : (n : ℕ) → n < 2 ^ 63 → as_unsigned 64 (int_sub (as_i64 n) (pos 0)) ≡ n
offset_none n lt = ground arith

offset_down_one :
    (n : ℕ)
    → n < 2 ^ 63
    → as_unsigned 64 (int_sub (as_i64 n) (pos 1)) ≡ (if leb 1 n then n - 1 else 2 ^ 64 - 1)
offset_down_one n lt = ground arith

module _ {B : Bitcoin} (heights : List ℕ) (bounded : (x : ℕ) → In x heights → x < 2 ^ 63)
    (h : HeaderInfo B) (lt : h.height < 2 ^ 63) where
  is_near-lookups : is_near heights h ≡ (
      if has_height heights (h.height + 2)
      then true
      else if has_height heights (h.height + 1)
      then true
      else if has_height heights h.height
      then true
      else if has_height heights (if leb 1 h.height then h.height - 1 else 2 ^ 64 - 1)
      then true
      else false)
  unfolding is_near any_offset
  is_near-lookups =
      rw
        (
          offset_up_two h.height lt,
          offset_up_one h.height lt,
          offset_none h.height lt,
          offset_down_one h.height lt,
        )
        refl

  near_of_in :
      (x : ℕ) → In x heights → x ≤ h.height + 2 → h.height ≤ x + 1 → near heights h.height ≡ true
  near_of_in x m above below = (near_iff heights h.height).1 (x, m, above, below)

  is_near_sound : is_near heights h ≡ true → near heights h.height ≡ true
  is_near_sound e =
      let found = sym is_near-lookups ∙ e in
      let n = h.height in
      elim (Bool-cases (has_height heights (n + 2))) [
        | inl two ↦
            near_of_in (n + 2) ((has_height_iff heights (n + 2)).0 two) (omega arith) (omega arith)
        | inr not_two ↦ elim (Bool-cases (has_height heights (n + 1))) [
          | inl one ↦
              near_of_in (n + 1) ((has_height_iff heights (n + 1)).0 one) (omega arith)
                (omega arith)
          | inr not_one ↦ elim (Bool-cases (has_height heights n)) [
            | inl same ↦
                near_of_in n ((has_height_iff heights n).0 same) (omega arith) (omega arith)
            | inr not_same ↦
                let below : has_height heights (if leb 1 n then n - 1 else 2 ^ 64 - 1) ≡ true =
                  ground (arith, found, not_two, not_one, not_same) in
                elim (Bool-cases (leb 1 n)) [
                  | inl some_below ↦
                      let at : In (n - 1) heights =
                        (has_height_iff heights (n - 1)).0 (ground (arith, below, some_below)) in
                      near_of_in (n - 1) at (omega arith) (omega arith)
                  | inr at_zero ↦
                      let wrapped : In (2 ^ 64 - 1) heights =
                        (has_height_iff heights (2 ^ 64 - 1)).0 (ground (arith, below, at_zero)) in
                      absurd (omega (arith, bounded (2 ^ 64 - 1) wrapped))
                ]
          ]
        ]
      ]

  is_near_complete : near heights h.height ≡ true → is_near heights h ≡ true
  is_near_complete e =
      let n = h.height in
      let (x, m, above, below) = (near_iff heights n).0 e in
      let there = (has_height_iff heights x).1 m in
      is_near-lookups ∙ ground (arith, there, above, below)

  pub is_near-near : is_near heights h ≡ near heights h.height
  is_near-near = elim (Bool-cases (is_near heights h)) [
    | inl yes' ↦ yes' ∙ sym (is_near_sound yes')
    | inr no' ↦ elim (Bool-cases (near heights h.height)) [
      | inl yes' ↦ absurd (cc (is_near_complete yes', no'))
      | inr no'' ↦ no' ∙ sym no''
    ]
  ]

in_of_blocks_at :
    {B : Bitcoin} (k : ℕ) (ns : List (HeaderInfo B))
    → 0 < blocks_at k ns
    → (n : HeaderInfo B) × In n ns × (n.height ≡ k)
in_of_blocks_at k [] lt = absurd (omega arith)
in_of_blocks_at k (n ∷ ns) lt = elim (Bool-cases (n.height == k)) [
  | inl here ↦ (n, inl refl, (==_iff n.height k).0 here)
  | inr other ↦ let (g, m, e) = in_of_blocks_at k ns (ground (arith, lt, other)) in (g, inr m, e)
]

-- The interesting heights are heights of blocks or of tips.
pub heights-bounded :
    {B : Bitcoin} {P : DiGraph (HeaderInfo B)} (t : TreeInfo B P) (n : ℕ) (tips : BTreeSet)
    (heights : List ℕ)
    → ((h : HeaderInfo B) → In h (nodes t) → h.height < 2 ^ 63)
    → ((x : ℕ) → In x tips → x < 2 ^ 63)
    → sorted_interesting_heights t n tips ≡ some heights
    → (x : ℕ) → In x heights
    → x < 2 ^ 63
heights-bounded t n tips heights low low_tips e x m =
    let of_block : 0 < blocks_at x (nodes t) → x < 2 ^ 63 = λ some_block.
      let (h, listed, same) = in_of_blocks_at x (nodes t) some_block in
      subst (λ k. k < 2 ^ 63) same (low h listed) in
    elim (sorted_interesting_heights-Selects t n tips) [
      | inl (empty, e') ↦
          let same : heights ≡ [] = ground (arith, e, e') in absurd (subst (In x) same m)
      | inr (some_node, (result, e', g)) ↦
          let same : heights ≡ result = ground (arith, e, e') in
          let listed = (in-append x g.before result).1 (inr (subst (In x) same m)) in
          elim ((g.members x).0 listed) [
            | inl several ↦ of_block (omega (arith, several))
            | inr (inl tip) ↦ low_tips x tip
            | inr (inr top) ↦ of_block top.0
          ]
    ]
