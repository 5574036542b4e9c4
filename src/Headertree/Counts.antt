-- ===== src/Headertree/Counts.antt =====
-- What `sorted_interesting_heights` of src/headertree.rs counts and collects.
use fork_observer.Prelude.{
  ℕ, suc, ◌+◌, ◌≤◌, ◌<◌, ◌≡◌, ◌↔◌, ◌⊎◌, refl, sym, ap, ◌∙◌, inl, inr, Option, none, some, List, [],
  ◌∷◌, ◌++◌, reverse, length, take, drop, arith, ltb, min, ◌==◌, if◌then◌else◌, All, In,
  Option-cases, Bool-cases, length-take, length-reverse, take-append-drop,
}
use mathlib.Core.List.{reverse-append, reverse-reverse}
use native.Mathlib.Decide.{ℕ_discrete}
use fork_observer.Prelude.BTree
use fork_observer.Prelude.BTree.{
  BTreeMap, BTreeSet, IsAscending, Entries, Entries-insert, keys-insert, in-keys_of_get,
  AllAbove-in, in-add, add-IsAscending,
}
use fork_observer.Bitcoin.{Bitcoin}
use fork_observer.Types.{HeaderInfo}
use fork_observer.Headertree.{
  count_one, height_occurences, heights_with_multiple_blocks, collect_set, max_of, take_last,
}

abbrev value_or_zero : Option ℕ → ℕ
value_or_zero none = 0
value_or_zero (some n) = n

abbrev pub value : ℕ → BTreeMap ℕ → ℕ
value k m = value_or_zero (BTree.get k m)

-- The number of blocks at a height.
abbrev pub blocks_at : {B : Bitcoin} → ℕ → List (HeaderInfo B) → ℕ
blocks_at h [] = 0
blocks_at h (n ∷ ns) = if n.height == h then suc (blocks_at h ns) else blocks_at h ns

count_one-eq-insert : (h : ℕ) (m : BTreeMap ℕ) → count_one h m ≡ BTree.insert h (value h m + 1) m
unfolding count_one
count_one-eq-insert h m = elim (Option-cases (BTree.get h m)) [
  | inl e ↦ rw (e, count_one)
  | inr (n, e) ↦ rw (e, count_one)
]

value-count_one :
    (h k : ℕ) (m : BTreeMap ℕ)
    → value k (count_one h m) ≡ (if h == k then suc (value k m) else value k m)
value-count_one h k m =
    rw count_one-eq-insert (ground (arith, BTree.get-insert h k (value h m + 1) m))

pub value-height_occurences :
    {B : Bitcoin} (k : ℕ) (ns : List (HeaderInfo B)) (m : BTreeMap ℕ)
    → value k (height_occurences ns m) ≡ value k m + blocks_at k ns
unfolding height_occurences
value-height_occurences k [] m = omega arith
value-height_occurences k (n ∷ ns) m =
    ground
      (arith, value-height_occurences k ns (count_one n.height m), value-count_one n.height k m)

-- The counts are positive, and the heights ascend.
pub record IsCount (m : BTreeMap ℕ) : Type 0 where
  pub ascending : IsAscending (BTree.keys m)
  pub positive : Entries (λ _ n. 0 < n) m

count_one-IsCount : (h : ℕ) (m : BTreeMap ℕ) → IsCount m → IsCount (count_one h m)
count_one-IsCount h m c = rw count_one-eq-insert (record {
  ascending = rw keys-insert (add-IsAscending h (BTree.keys m) c.ascending);
  positive = Entries-insert _ h (value h m + 1) m (omega arith) c.positive;
})

pub height_occurences-IsCount :
    {B : Bitcoin} (ns : List (HeaderInfo B)) (m : BTreeMap ℕ)
    → IsCount m
    → IsCount (height_occurences ns m)
unfolding height_occurences
height_occurences-IsCount [] m c = c
height_occurences-IsCount (n ∷ ns) m c =
    height_occurences-IsCount ns (count_one n.height m) (count_one-IsCount n.height m c)

-- A height has an entry exactly if its count is positive.
pub in-keys-IsCount : (k : ℕ) (m : BTreeMap ℕ) → IsCount m → In k (BTree.keys m) ↔ (0 < value k m)
in-keys-IsCount k m c = (
  λ h.
      let (v, e) = BTree.get_of_in-keys k m h in
      let p : 0 < v = BTree.Entries-get _ k v m c.positive e in rw e p,
  λ h. elim (Option-cases (BTree.get k m)) [
    | inl e ↦ absurd (ground arith)
    | inr (v, e) ↦ in-keys_of_get k v m e
  ],
)

value_of_head : (j w : ℕ) (m : BTreeMap ℕ) → value j ((j, w) ∷ m) ≡ w
unfolding BTree.get
value_of_head j w m = ground arith

value_of_tail : (j w k : ℕ) (m : BTreeMap ℕ) → ¬ (j ≡ k) → value k ((j, w) ∷ m) ≡ value k m
unfolding BTree.get
value_of_tail j w k m ne = ground arith

-- A height that is counted further on is not the first one.
value_later :
    (j w k : ℕ) (m : BTreeMap ℕ)
    → BTree.AllAbove j (BTree.keys m)
    → 1 < value k m
    → 1 < value k ((j, w) ∷ m)
value_later j w k m above p = elim (Option-cases (BTree.get k m)) [
  | inl e ↦ absurd (ground arith)
  | inr (v, e) ↦
      let lt = AllAbove-in j k (BTree.keys m) above (in-keys_of_get k v m e) in
      rw (value_of_tail j w k m (λ (same : j ≡ k). omega arith)) p
]

pub in-heights_with_multiple_blocks :
    (k : ℕ) (m : BTreeMap ℕ)
    → IsAscending (BTree.keys m)
    → In k (heights_with_multiple_blocks m) ↔ (1 < value k m)
unfolding heights_with_multiple_blocks
in-heights_with_multiple_blocks k [] asc =
    unfold BTree.get in (λ h. absurd h, λ h. absurd (omega arith))
in-heights_with_multiple_blocks k ((j, w) ∷ m) asc =
    let ih = in-heights_with_multiple_blocks k m asc.1 in
    let tail_up = λ (p : 1 < value k m). value_later j w k m asc.0 p in
    elim (Bool-cases (ltb 1 w)) [
      | inl many ↦ rw many (
        λ h. elim h [
          | inl e ↦ rw (e, value_of_head j w m) (ground arith)
          | inr m' ↦ tail_up (ih.0 m')
        ],
        λ p. elim (ℕ_discrete j k) [
          | yes e ↦ inl (sym e)
          | no ne ↦ inr (ih.1 (rw (value_of_tail j w k m ne) at p))
        ],
      )
      | inr few ↦ rw few (
        λ h. tail_up (ih.0 h),
        λ p. elim (ℕ_discrete j k) [
          | yes e ↦ absurd (ground (arith, value_of_head j w m))
          | no ne ↦ ih.1 (rw (value_of_tail j w k m ne) at p)
        ],
      )
    ]

pub in-collect_set :
    (x : ℕ) (hs : List ℕ) (s : BTreeSet) → In x (collect_set hs s) ↔ (In x hs ⊎ In x s)
unfolding collect_set
in-collect_set x [] s = (λ h. inr h, λ h. elim h [ inl m ↦ absurd m | inr m ↦ m ])
in-collect_set x (h ∷ hs) s =
    let ih = in-collect_set x hs (BTree.add h s) in
    let one = in-add x h s in
    (
      λ m. elim (ih.0 m) [
        | inl later ↦ inl (inr later)
        | inr m' ↦ elim (one.0 m') [ inl e ↦ inl (inl e) | inr old ↦ inr old ]
      ],
      λ m. elim m [
        | inl listed ↦ elim listed [
          | inl e ↦ ih.1 (inr (one.1 (inl e)))
          | inr later ↦ ih.1 (inl later)
        ]
        | inr old ↦ ih.1 (inr (one.1 (inr old)))
      ],
    )

pub collect_set-IsAscending :
    (hs : List ℕ) (s : BTreeSet) → IsAscending s → IsAscending (collect_set hs s)
unfolding collect_set
collect_set-IsAscending [] s a = a
collect_set-IsAscending (h ∷ hs) s a =
    collect_set-IsAscending hs (BTree.add h s) (add-IsAscending h s a)

-- The maximum of a list with an item is an item, and none is greater.
pub max_of-cons :
    (x : ℕ) (xs : List ℕ)
    → (m : ℕ) × (max_of (x ∷ xs) ≡ some m) × In m (x ∷ xs) × All (λ y. y ≤ m) (x ∷ xs)
unfolding max_of
max_of-cons x [] = (x, refl, inl refl, (omega arith, tt))
max_of-cons x (y ∷ ys) =
    let (m, e, listed, above) = max_of-cons y ys in
    elim (Bool-cases (ltb m x)) [
      | inl gt ↦ (
        x,
        rw (e, max_of) (ground arith),
        inl refl,
        (omega arith, All-le m x (y ∷ ys) (ground arith) above),
      )
      | inr le ↦ (m, rw (e, max_of) (ground arith), inr listed, (ground arith, above))
    ]
  where
    All-le : (a b : ℕ) (l : List ℕ) → a ≤ b → All (λ z. z ≤ a) l → All (λ z. z ≤ b) l
    All-le a b [] h t = tt
    All-le a b (z ∷ l) h t = (omega (arith, t.0), All-le a b l h t.1)

-- The last `n` items of a list.
pub take_last-split :
    (n : ℕ) (xs : List ℕ)
    → (before : List ℕ) × (xs ≡ before ++ take_last n xs)
      × (length (take_last n xs) ≡ min n (length xs))
unfolding take_last
take_last-split n xs = (
  reverse (drop n (reverse xs)),
  sym (reverse-reverse xs)
      ∙ ap reverse (sym (take-append-drop n (reverse xs)))
      ∙ reverse-append (take n (reverse xs)) (drop n (reverse xs)),
  length-reverse (take n (reverse xs))
      ∙ length-take n (reverse xs)
      ∙ ap (min n) (length-reverse xs),
)
