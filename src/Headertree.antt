-- ===== src/Headertree.antt =====
-- src/headertree.rs: which heights of the header tree are interesting.
pub mod Counts
pub mod Interesting
pub mod Strip
pub mod Forks
mod Examples
use fork_observer.Prelude.{
  ℕ, ◌+◌, Option, none, some, List, [], ◌∷◌, ◌++◌, map, reverse, length, select, take, ltb, max,
}
use fork_observer.Prelude.Options.{◌>>=◌}
use fork_observer.Prelude.BTree
use fork_observer.Prelude.BTree.{BTreeMap, BTreeSet}
use fork_observer.Prelude.Sort.{sort}
use fork_observer.Bitcoin.{Bitcoin}
use fork_observer.Petgraph.{DiGraph}
use fork_observer.Types.{HeaderInfo}
use fork_observer.Tree.{TreeInfo, nodes}

-- `*entry(height).or_insert(0) += 1`
count_one : ℕ → BTreeMap ℕ → BTreeMap ℕ
count_one height m = elim (BTree.get height m) [
  | none ↦ BTree.insert height 1 m
  | some n ↦ BTree.insert height (n + 1) m
]

-- The number of blocks at each height.
pub height_occurences : {B : Bitcoin} → List (HeaderInfo B) → BTreeMap ℕ → BTreeMap ℕ
unfolding count_one
height_occurences [] m = m
height_occurences (n ∷ ns) m = height_occurences ns (count_one n.height m)

pub heights_with_multiple_blocks : BTreeMap ℕ → List ℕ
heights_with_multiple_blocks occurences = map (λ e. e.0) (select (λ e. ltb 1 e.1) occurences)

-- `collect()` of the heights into a set that holds `s`
pub collect_set : List ℕ → BTreeSet → BTreeSet
collect_set [] s = s
collect_set (h ∷ hs) s = collect_set hs (BTree.add h s)

-- `iter().max()`
pub max_of : List ℕ → Option ℕ
max_of [] = none
max_of (x ∷ xs) = elim (max_of xs) [ none ↦ some x | some m ↦ some (max x m) ]

-- `iter().rev().take(n).rev()`
pub take_last : ℕ → List ℕ → List ℕ
take_last n xs = reverse (take n (reverse xs))

-- `sorted_interesting_heights` of the weights of the nodes. `none` stands for the panic of
-- `expect`.
pub heights_of : {B : Bitcoin} → List (HeaderInfo B) → ℕ → BTreeSet → Option (List ℕ)
heights_of [] max_interesting_heights tip_heights = some []
heights_of (n ∷ ns) max_interesting_heights tip_heights =
    let occurences = height_occurences (n ∷ ns) [] in
    let set = collect_set (heights_with_multiple_blocks occurences ++ tip_heights) [] in
    do
      max_height ← max_of (BTree.keys occurences)
      some (sort (take_last max_interesting_heights (BTree.add max_height set)))

pub sorted_interesting_heights :
    {B : Bitcoin} {P : DiGraph (HeaderInfo B)} → TreeInfo B P → ℕ → BTreeSet → Option (List ℕ)
sorted_interesting_heights tree max_interesting_heights tip_heights =
    heights_of (nodes tree) max_interesting_heights tip_heights
