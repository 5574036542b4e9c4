-- ===== src/Headertree/Interesting.antt =====
-- `sorted_interesting_heights` of src/headertree.rs returns the greatest interesting heights.
use fork_observer.Prelude.{
  ℕ, ◌+◌, ◌≤◌, ◌<◌, ◌≡◌, ◌≢◌, ◌↔◌, ◌⊎◌, refl, sym, ap, subst, ◌∙◌, inl, inr, Option, some, List, [],
  ◌∷◌, ◌++◌, length, arith, min, All-in, In, in-append,
}
use fork_observer.Prelude.BTree
use fork_observer.Prelude.BTree.{
  BTreeMap, BTreeSet, IsAscending, IsAscending-append_right, in-add, add-IsAscending,
}
use fork_observer.Prelude.Sort.{sort, sort-ascending}
use fork_observer.Bitcoin.{Bitcoin}
use fork_observer.Petgraph.{DiGraph}
use fork_observer.Types.{HeaderInfo}
use fork_observer.Tree.{TreeInfo, nodes}
use fork_observer.Headertree.{
  height_occurences, heights_with_multiple_blocks, collect_set, max_of, take_last, heights_of,
  sorted_interesting_heights,
}
use fork_observer.Headertree.Counts.{
  value, blocks_at, value-height_occurences, IsCount, height_occurences-IsCount, in-keys-IsCount,
  in-heights_with_multiple_blocks, in-collect_set, collect_set-IsAscending, max_of-cons,
  take_last-split,
}

-- The height of some block, and no block is higher.
abbrev pub IsTop : {B : Bitcoin} → List (HeaderInfo B) → ℕ → Type 0
IsTop ns h = (0 < blocks_at h ns) × ((k : ℕ) → 0 < blocks_at k ns → k ≤ h)

-- A height is interesting if it has several blocks, if it is the height of a tip, or if it is the
-- greatest height.
abbrev pub Interesting : {B : Bitcoin} → List (HeaderInfo B) → BTreeSet → ℕ → Type 0
Interesting ns tips h = (1 < blocks_at h ns) ⊎ (In h tips ⊎ IsTop ns h)

-- `result` holds, in ascending order, the `n` greatest numbers with the property, or all of them
-- if there are no more than `n`: those below are `before`.
pub record Greatest (n : ℕ) (P : ℕ → Type 0) (result : List ℕ) : Type 0 where
  pub before : List ℕ
  pub ascending : IsAscending (before ++ result)
  pub members : (h : ℕ) → In h (before ++ result) ↔ P h
  pub size : length result ≡ min n (length (before ++ result))

take_last-Greatest :
    (n : ℕ) (P : ℕ → Type 0) (all : List ℕ)
    → IsAscending all
    → ((h : ℕ) → In h all ↔ P h)
    → Greatest n P (sort (take_last n all))
take_last-Greatest n P all asc members =
    let (before, split, size) = take_last-split n all in
    let sorted =
      sort-ascending (take_last n all)
        (IsAscending-append_right before (take_last n all) (subst IsAscending split asc)) in
    subst (Greatest n P) (sym sorted) (record {
      before = before;
      ascending = subst IsAscending split asc;
      members = λ h. subst (λ l. In h l ↔ P h) split (members h);
      size = size ∙ ap (λ l. min n (length l)) split;
    })

no_counts : IsCount []
no_counts = record { ascending = tt; positive = tt }

module _ {B : Bitcoin} (ns : List (HeaderInfo B)) where
  abbrev counts : BTreeMap ℕ
  counts = height_occurences ns []

  counts-IsCount : IsCount counts
  counts-IsCount = height_occurences-IsCount ns [] no_counts

  value-counts : (k : ℕ) → value k counts ≡ blocks_at k ns
  value-counts k = value-height_occurences k ns [] ∙ none_yet k
    where
      none_yet : (i : ℕ) → value i [] + blocks_at i ns ≡ blocks_at i ns
      none_yet i = unfold BTree.get in omega arith

  in-counts : (k : ℕ) → In k (BTree.keys counts) ↔ (0 < blocks_at k ns)
  in-counts k =
      subst (λ v. In k (BTree.keys counts) ↔ (0 < v)) (value-counts k)
        (in-keys-IsCount k counts counts-IsCount)

  in-multiple : (k : ℕ) → In k (heights_with_multiple_blocks counts) ↔ (1 < blocks_at k ns)
  in-multiple k =
      subst (λ v. In k (heights_with_multiple_blocks counts) ↔ (1 < v)) (value-counts k)
        (in-heights_with_multiple_blocks k counts counts-IsCount.ascending)

  abbrev set_with : BTreeSet → ℕ → BTreeSet
  set_with tips top = BTree.add top (collect_set (heights_with_multiple_blocks counts ++ tips) [])

  IsTop-max : (k m : ℕ) → IsTop ns m → IsTop ns k → k ≡ m
  IsTop-max k m (pm, above_m) (pk, above_k) = omega (arith, above_m k pk, above_k m pm)

  in-set_with :
      (tips : BTreeSet) (top : ℕ)
      → IsTop ns top
      → (h : ℕ) → In h (set_with tips top) ↔ Interesting ns tips h
  in-set_with tips top is_top h =
      let multiple = heights_with_multiple_blocks counts in
      let outer = in-add h top (collect_set (multiple ++ tips) []) in
      let inner = in-collect_set h (multiple ++ tips) [] in
      let parts = in-append h multiple tips in
      (
        λ m. elim (outer.0 m) [
          | inl e ↦ inr (inr (rw e is_top))
          | inr m' ↦ elim (inner.0 m') [
            | inl listed ↦ elim (parts.0 listed) [
              | inl many ↦ inl ((in-multiple h).0 many)
              | inr tip ↦ inr (inl tip)
            ]
            | inr none_left ↦ absurd none_left
          ]
        ],
        λ i. elim i [
          | inl many ↦ outer.1 (inr (inner.1 (inl (parts.1 (inl ((in-multiple h).1 many))))))
          | inr other ↦ elim other [
            | inl tip ↦ outer.1 (inr (inner.1 (inl (parts.1 (inr tip)))))
            | inr top' ↦ outer.1 (inl (IsTop-max h top is_top top'))
          ]
        ],
      )

  -- The `expect` is never reached: a tree with a block has a greatest height.
  IsTop-of :
      (n : HeaderInfo B) (rest : List (HeaderInfo B))
      → ns ≡ n ∷ rest
      → (top : ℕ) × (max_of (BTree.keys counts) ≡ some top) × IsTop ns top
  IsTop-of n rest e = go (BTree.keys counts) refl
    where
      some_block : 0 < blocks_at n.height ns
      some_block = rw e (ground arith)

      go :
          (ks : List ℕ) → BTree.keys counts ≡ ks → (top : ℕ) × (max_of ks ≡ some top) × IsTop ns top
      go [] none_there = absurd (subst (In n.height) none_there ((in-counts n.height).1 some_block))
      go (k ∷ ks) there =
          let (m, found, listed, above) = max_of-cons k ks in
          (
            m,
            found,
            (
              (in-counts m).0 (subst (In m) (sym there) listed),
              λ j p. All-in (λ y. y ≤ m) (k ∷ ks) above (subst (In j) there ((in-counts j).1 p)),
            ),
          )

-- What the function returns for the nodes `ns`.
abbrev pub Selects : {B : Bitcoin} → List (HeaderInfo B) → ℕ → BTreeSet → Option (List ℕ) → Type 0
Selects ns n tips returned =
    (ns ≡ []) × (returned ≡ some [])
    ⊎ ((ns ≢ [])
        × ((result : List ℕ) × (returned ≡ some result) × Greatest n (Interesting ns tips) result))

heights_of-Selects :
    {B : Bitcoin} (ns : List (HeaderInfo B)) (n : ℕ) (tips : BTreeSet)
    → Selects ns n tips (heights_of ns n tips)
unfolding heights_of
heights_of-Selects [] n tips = inl (refl, refl)
heights_of-Selects (x ∷ xs) n tips =
    let (top, found, is_top) = IsTop-of (x ∷ xs) x xs refl in
    let set = set_with (x ∷ xs) tips top in
    inr (
      (λ e. absurd (cc)),
      (
        sort (take_last n set),
        rw found,
        take_last-Greatest n (Interesting (x ∷ xs) tips) set
            (add-IsAscending top _ (collect_set-IsAscending _ [] tt))
            (in-set_with (x ∷ xs) tips top is_top),
      ),
    )

-- An empty tree has no interesting height. For any other tree the function does not panic, and
-- returns, in ascending order, the greatest `max_interesting_heights` of the heights that have
-- several blocks, have a tip, or are the greatest; all of them, if there are not more.
pub sorted_interesting_heights-Selects :
    {B : Bitcoin} {P : DiGraph (HeaderInfo B)} (t : TreeInfo B P) (max_interesting_heights : ℕ)
    (tips : BTreeSet)
    → Selects
        (nodes t)
        max_interesting_heights
        tips
        (sorted_interesting_heights t max_interesting_heights tips)
unfolding sorted_interesting_heights
sorted_interesting_heights-Selects t n tips = heights_of-Selects (nodes t) n tips
