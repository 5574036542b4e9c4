-- ===== src/Tree/Examples.antt =====
-- Small header trees, tests on them, and the theorems of the header tree at them.
use fork_observer.Prelude.{
  ℕ, ◌≡◌, ◌↔◌, refl, ap, Bool, true, false, some, List, [], ◌∷◌, arith, In, str_eq_iff,
}
use fork_observer.Prelude.HashMap
use fork_observer.Petgraph.{DiGraph}
use fork_observer.Types.{HeaderInfo}
use fork_observer.Samples.{btc, header, without_first}
use fork_observer.Samples.Graph.{list_graph, with_edge}
use fork_observer.Tree.{
  TreeInfo, index_of, nodes, add_header, connect_to, connect, insert_nodes,
  insert_new_headers_into_tree, empty_tree, load_nodes, load_treeinfos,
}
use fork_observer.Tree.Indexed.{IsIndexed}
use fork_observer.Tree.Insert.{
  Inserted, insert_new_headers_into_tree-Inserted, insert_new_headers_into_tree_again,
}
use fork_observer.Tree.Links.{HashCommits}
use fork_observer.Tree.Parents.{
  IsForest, empty_tree-IsForest, insert_new_headers_into_tree-IsForest,
}
use fork_observer.Tree.Load.{
  DistinctHeaders, empty_tree-IsIndexed, IsComplete, load_treeinfos-IsComplete,
}

abbrev graph : DiGraph (HeaderInfo btc)
graph = list_graph (HeaderInfo btc)

abbrev Sample : Type 0
Sample = TreeInfo btc graph

abbrev nothing : Sample
nothing = empty_tree

-- A fork: two blocks after "a".
abbrev fork : List (HeaderInfo btc)
fork = header 1 "a" ∷ header 2 "ba" ∷ header 2 "ca" ∷ []

abbrev fork_tree : Sample
fork_tree = record {
  graph = record { nodes = fork; edges = (0, 1) ∷ (0, 2) ∷ [] };
  index = ("a", 0) ∷ ("ba", 1) ∷ ("ca", 2) ∷ [];
}

insert_all : Unit {0}
unfolding insert_new_headers_into_tree insert_nodes add_header connect connect_to load_treeinfos
    load_nodes HashMap.get HashMap.insert with_edge
insert_all = tt

insert_fork : insert_new_headers_into_tree nothing fork ≡ some (fork_tree, true)
unfolding insert_all
insert_fork = refl

insert_new_headers_into_tree-Inserted_example :
    (after : Sample) × (changed : Bool) × (insert_new_headers_into_tree nothing fork
      ≡ some (after, changed))
    × Inserted fork nothing after changed
insert_new_headers_into_tree-Inserted_example =
    insert_new_headers_into_tree-Inserted fork nothing empty_tree-IsIndexed

insert_new_headers_into_tree_again_example :
    (twice : Sample) × (insert_new_headers_into_tree fork_tree fork ≡ some (twice, false))
    × (nodes twice ≡ nodes fork_tree)
    × ((k : btc.BlockHash) → index_of twice k ≡ index_of fork_tree k)
    × ((e : ℕ × ℕ) → In e (graph.edges twice.graph) ↔ In e (graph.edges fork_tree.graph))
insert_new_headers_into_tree_again_example =
    insert_new_headers_into_tree_again fork nothing fork_tree true empty_tree-IsIndexed insert_fork

commits : HashCommits btc
commits g h e = ap without_first e

insert_new_headers_into_tree-IsForest_example : IsForest fork_tree
insert_new_headers_into_tree-IsForest_example =
    insert_new_headers_into_tree-IsForest commits fork nothing fork_tree true empty_tree-IsForest
      insert_fork

distinct_fork : DistinctHeaders fork
distinct_fork = (
  (ground (arith, str_eq_iff "ba" "a"), (ground (arith, str_eq_iff "ca" "a"), tt)),
  ((ground (arith, str_eq_iff "ca" "ba"), tt), (tt, tt)),
)

load_treeinfos-IsComplete_example :
    (t : Sample) × (load_treeinfos fork ≡ some t) × (nodes t ≡ fork) × IsIndexed t × IsComplete t
load_treeinfos-IsComplete_example = load_treeinfos-IsComplete fork distinct_fork

load_fork : load_treeinfos fork ≡ some fork_tree
unfolding insert_all
load_fork = refl
