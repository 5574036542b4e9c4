-- ===== src/Headertree/Examples.antt =====
-- The interesting heights of a small tree, and the theorem about them there.
use fork_observer.Prelude.{◌≡◌, some, arith, List, [], ◌∷◌}
use fork_observer.Petgraph.{DiGraph}
use fork_observer.Types.{HeaderInfo, HeaderInfoJson, Fork}
use fork_observer.Headertree.Forks.{recent_forks}
use fork_observer.Headertree.Forks.Recent.{AreRecent, recent_forks-AreRecent}
use fork_observer.Samples.Walking.{list_walk}
use fork_observer.Headertree.Strip.{strip_tree}
use fork_observer.Headertree.Strip.Entries.{OneParent}
use fork_observer.Headertree.Strip.Shown.{Shown, strip_tree-Shown}
use fork_observer.Samples.{btc, header}
use fork_observer.Samples.Graph.{list_graph}
use fork_observer.Tree.{TreeInfo}
use fork_observer.Headertree.{sorted_interesting_heights}
use fork_observer.Headertree.Interesting.{Selects, sorted_interesting_heights-Selects}

abbrev graph : DiGraph (HeaderInfo btc)
graph = list_graph (HeaderInfo btc)

-- A chain of the heights 1 to 4 with a second block at the height 2.
abbrev blocks : List (HeaderInfo btc)
blocks = header 1 "a" ∷ header 2 "ba" ∷ header 2 "ca" ∷ header 3 "dba" ∷ header 4 "edba" ∷ []

abbrev tree : TreeInfo btc graph
tree = record {
  graph = record { nodes = blocks; edges = (0, 1) ∷ (0, 2) ∷ (1, 3) ∷ (3, 4) ∷ [] };
  index = [];
}

sorted_interesting_heights-Selects_example :
    Selects blocks 2 (3 ∷ []) (sorted_interesting_heights tree 2 (3 ∷ []))
sorted_interesting_heights-Selects_example = sorted_interesting_heights-Selects tree 2 (3 ∷ [])

tree-OneParent : OneParent list_walk tree.graph
tree-OneParent = (ground arith, (ground arith, (ground arith, (ground arith, tt))))

strip_tree-Shown_example :
    (js : List HeaderInfoJson) × (strip_tree list_walk tree 1 (4 ∷ []) ≡ some js)
    × Shown list_walk tree 1 (4 ∷ []) js
strip_tree-Shown_example =
    strip_tree-Shown list_walk tree 1 (4 ∷ []) tree-OneParent
      (omega arith, (omega arith, (omega arith, (omega arith, (omega arith, tt)))))
      (omega arith, tt)

recent_forks-AreRecent_example :
    (fs : List (Fork btc)) × (recent_forks list_walk tree 50 ≡ some fs)
    × AreRecent list_walk tree 50 fs
recent_forks-AreRecent_example = recent_forks-AreRecent list_walk tree 50
