-- ===== src/Petgraph.antt =====
-- What the program takes from the crate `petgraph`: a directed graph with node weights. It is a
-- parameter of the model. A graph is observed through the weights of its nodes in the order of
-- their indices, and through the (source, target) pairs of its edges; the laws say what the
-- documentation says of each operation. `update_edge` panics on an index that is out of bounds,
-- so its laws speak of indices in bounds only.
pub mod Walk
pub mod Filtering
pub mod Weights
use fork_observer.Prelude.{ℕ, ◌<◌, ◌≡◌, Bool, List, [], ◌∷◌, ◌++◌, length, In}

pub record DiGraph (N : Type 0) : Type 1 where
  pub Graph : Type 0
  pub new : Graph
  pub add_node : Graph → N → Graph
  -- the index that `add_node` returns
  pub next_index : Graph → ℕ
  pub update_edge : Graph → ℕ → ℕ → Bool → Graph
  pub raw_nodes : Graph → List N
  pub edges : Graph → List (ℕ × ℕ)
  pub raw_nodes-new : raw_nodes new ≡ []
  pub edges-new : edges new ≡ []
  pub next_index-eq : (g : Graph) → next_index g ≡ length (raw_nodes g)
  pub raw_nodes-add_node : (g : Graph) (n : N) → raw_nodes (add_node g n) ≡ raw_nodes g ++ n ∷ []
  pub edges-add_node : (g : Graph) (n : N) → edges (add_node g n) ≡ edges g
  pub raw_nodes-update_edge :
      (g : Graph) (a b : ℕ) (w : Bool)
      → a < length (raw_nodes g)
      → b < length (raw_nodes g)
      → raw_nodes (update_edge g a b w) ≡ raw_nodes g
  pub edges-update_edge_old :
      (g : Graph) (a b : ℕ) (w : Bool)
      → a < length (raw_nodes g)
      → b < length (raw_nodes g)
      → In (a, b) (edges g)
      → edges (update_edge g a b w) ≡ edges g
  pub edges-update_edge_new :
      (g : Graph) (a b : ℕ) (w : Bool)
      → a < length (raw_nodes g)
      → b < length (raw_nodes g)
      → ¬ In (a, b) (edges g)
      → edges (update_edge g a b w) ≡ edges g ++ (a, b) ∷ []
