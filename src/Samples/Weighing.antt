-- ===== src/Samples/Weighing.antt =====
-- Weights of the nodes of a graph that is the list of its nodes.
use fork_observer.Prelude.{refl, set_elem}
use fork_observer.Petgraph.Weights.{Weights}
use fork_observer.Samples.Graph.{list_graph}

abbrev pub list_weights : {N : Type 0} → Weights (list_graph N)
list_weights = record {
  set_weight = λ g i n. record g { nodes = set_elem g.nodes i n };
  raw_nodes-set_weight = λ g i n lt. refl;
  edges-set_weight = λ g i n lt. refl;
}
