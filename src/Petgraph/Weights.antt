-- ===== src/Petgraph/Weights.antt =====
-- `IndexMut` of a `petgraph` graph, `graph[i] = weight`, a parameter as the graph itself is. It panics
-- on an index that is out of bounds, so its laws speak of indices in bounds only.
use fork_observer.Prelude.{ℕ, ◌<◌, ◌≡◌, length, set_elem}
use fork_observer.Petgraph.{DiGraph}

pub record Weights {N : Type 0} (P : DiGraph N) : Type 0 where
  pub set_weight : P.Graph → ℕ → N → P.Graph
  pub raw_nodes-set_weight :
      (g : P.Graph) (i : ℕ) (n : N)
      → i < length (P.raw_nodes g)
      → P.raw_nodes (set_weight g i n) ≡ set_elem (P.raw_nodes g) i n
  pub edges-set_weight :
      (g : P.Graph) (i : ℕ) (n : N)
      → i < length (P.raw_nodes g)
      → P.edges (set_weight g i n) ≡ P.edges g
