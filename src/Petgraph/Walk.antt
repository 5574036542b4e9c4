-- ===== src/Petgraph/Walk.antt =====
-- The operations of `petgraph` that filter and walk a graph, a parameter as the graph itself is.
use fork_observer.Prelude.{
  Distinct, ℕ, ◌<◌, ◌≡◌, ◌↔◌, Bool, false, none, some, List, [], ◌∷◌, ◌++◌, map, length, select,
  take, get_elem?, In, ◌==◌, if◌then◌else◌,
}
use fork_observer.Petgraph.{DiGraph}

module _ {N : Type 0} (keep : N → Bool) (nodes : List N) where
  -- The node at the index is kept.
  abbrev pub is_kept : ℕ → Bool
  is_kept i = elim (get_elem? nodes i) [ none ↦ false | some n ↦ keep n ]

  -- The index of a kept node in the graph of the kept nodes: those before it, counted
  abbrev pub new_index : ℕ → ℕ
  new_index i = length (select keep (take i nodes))

  abbrev pub kept_edges : List (ℕ × ℕ) → List (ℕ × ℕ)
  kept_edges es =
      map (λ e. (new_index e.0, new_index e.1))
        (select (λ e. if is_kept e.0 then is_kept e.1 else false) es)

abbrev pub target : ℕ × ℕ → ℕ
target e = e.1

abbrev pub edges_into : ℕ → List (ℕ × ℕ) → List (ℕ × ℕ)
edges_into i es = select (λ e. e.1 == i) es

pub record Walk {N : Type 0} (P : DiGraph N) : Type 0 where
  -- `filter_map` that keeps the weights: the kept nodes in their order, with the edges between them
  pub filter_nodes : (N → Bool) → P.Graph → P.Graph
  -- `externals(Incoming)`: the nodes without an incoming edge
  pub externals : P.Graph → List ℕ
  pub add_edge : P.Graph → ℕ → ℕ → P.Graph
  -- the nodes that a `Dfs` from the start visits, in its order
  pub dfs : P.Graph → ℕ → List ℕ
  -- `neighbors_directed(i, Incoming)`
  pub incoming : P.Graph → ℕ → List ℕ
  -- the targets of `edges_directed(i, Outgoing)`
  pub outgoing : P.Graph → ℕ → List ℕ
  pub raw_nodes-filter_nodes :
      (keep : N → Bool) (g : P.Graph)
      → P.raw_nodes (filter_nodes keep g) ≡ select keep (P.raw_nodes g)
  pub edges-filter_nodes :
      (keep : N → Bool) (g : P.Graph)
      → P.edges (filter_nodes keep g) ≡ kept_edges keep (P.raw_nodes g) (P.edges g)
  pub externals-once : (g : P.Graph) → Distinct (externals g)
  pub in-externals :
      (g : P.Graph) (i : ℕ)
      → In i (externals g) ↔ ((i < length (P.raw_nodes g)) × (¬ In i (map target (P.edges g))))
  pub raw_nodes-add_edge :
      (g : P.Graph) (a b : ℕ)
      → a < length (P.raw_nodes g)
      → b < length (P.raw_nodes g)
      → P.raw_nodes (add_edge g a b) ≡ P.raw_nodes g
  pub edges-add_edge :
      (g : P.Graph) (a b : ℕ)
      → a < length (P.raw_nodes g)
      → b < length (P.raw_nodes g)
      → P.edges (add_edge g a b) ≡ P.edges g ++ (a, b) ∷ []
  pub dfs-bounds :
      (g : P.Graph) (start i : ℕ)
      → start < length (P.raw_nodes g)
      → In i (dfs g start)
      → i < length (P.raw_nodes g)
  pub length-incoming :
      (g : P.Graph) (i : ℕ) → length (incoming g i) ≡ length (edges_into i (P.edges g))
  pub in-incoming : (g : P.Graph) (i p : ℕ) → In p (incoming g i) → In (p, i) (P.edges g)
  pub in-outgoing : (g : P.Graph) (i c : ℕ) → In c (outgoing g i) → In (i, c) (P.edges g)
  pub outgoing-bounds : (g : P.Graph) (i c : ℕ) → In c (outgoing g i) → c < length (P.raw_nodes g)
