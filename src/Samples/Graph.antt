-- ===== src/Samples/Graph.antt =====
-- A graph that is the list of its nodes and the list of its edges.
use native.Mathlib.Decide.{ℕ_discrete}
use fork_observer.Prelude.{ℕ, ◌≡◌, refl, List, [], ◌∷◌, ◌++◌, length, In}
use fork_observer.Petgraph.{DiGraph}
use fork_observer.Tree.Edges.{dec_in, pair_discrete}

pub record ListGraph (N : Type 0) : Type 0 where
  pub nodes : List N
  pub edges : List (ℕ × ℕ)

unfoldable pub with_edge : (a b : ℕ) (l : List (ℕ × ℕ)) → List (ℕ × ℕ)
unfolding dec_in pair_discrete ℕ_discrete
with_edge a b l = elim (dec_in (a, b) l) [ yes m ↦ l | no m ↦ l ++ (a, b) ∷ [] ]

pub with_edge_old : (a b : ℕ) (l : List (ℕ × ℕ)) → In (a, b) l → with_edge a b l ≡ l
unfolding with_edge
with_edge_old a b l m = go (dec_in (a, b) l)
  where
    go :
        (d : Dec (In (a, b) l))
        → elim d as (λ _. List (ℕ × ℕ)) [ yes _ ↦ l | no _ ↦ l ++ (a, b) ∷ [] ] ≡ l
    go (yes _) = refl
    go (no absent) = absurd (absent m)

pub with_edge_new :
    (a b : ℕ) (l : List (ℕ × ℕ)) → ¬ In (a, b) l → with_edge a b l ≡ l ++ (a, b) ∷ []
unfolding with_edge
with_edge_new a b l new = go (dec_in (a, b) l)
  where
    go :
        (d : Dec (In (a, b) l))
        → elim d as (λ _. List (ℕ × ℕ)) [ yes _ ↦ l | no _ ↦ l ++ (a, b) ∷ [] ] ≡ l ++ (a, b) ∷ []
    go (yes m) = absurd (new m)
    go (no _) = refl

abbrev pub list_graph : (N : Type 0) → DiGraph N
list_graph N = record {
  Graph = ListGraph N;
  new = record { nodes = []; edges = [] };
  add_node = λ g n. record g { nodes = g.nodes ++ n ∷ [] };
  next_index = λ g. length g.nodes;
  update_edge = λ g a b w. record g { edges = with_edge a b g.edges };
  raw_nodes = λ g. g.nodes;
  edges = λ g. g.edges;
  raw_nodes-new = refl;
  edges-new = refl;
  next_index-eq = λ g. refl;
  raw_nodes-add_node = λ g n. refl;
  edges-add_node = λ g n. refl;
  raw_nodes-update_edge = λ g a b w la lb. refl;
  edges-update_edge_old = λ g a b w la lb m. with_edge_old a b g.edges m;
  edges-update_edge_new = λ g a b w la lb m. with_edge_new a b g.edges m;
}
