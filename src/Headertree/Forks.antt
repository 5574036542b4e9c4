-- ===== src/Headertree/Forks.antt =====
-- `recent_forks` of src/headertree.rs; `none` stands for the panic of an index out of bounds.
pub mod Recent
use fork_observer.Prelude.{
  ℕ, Option, none, some, List, [], ◌∷◌, ◌++◌, length, get_elem?, ltb, true, false, take, reverse,
}
use fork_observer.Prelude.Options.{◌>>=◌}
use fork_observer.Prelude.Sort.{sort_by_key}
use fork_observer.Bitcoin.{Bitcoin}
use fork_observer.Petgraph.{DiGraph}
use fork_observer.Petgraph.Walk.{Walk}
use fork_observer.Types.{HeaderInfo, Fork}
use fork_observer.Tree.{TreeInfo}

module _ {B : Bitcoin} {P : DiGraph (HeaderInfo B)} (W : Walk P) where
  -- `tree[edge.target()].clone()` of each target
  pub weights_at : P.Graph → List ℕ → Option (List (HeaderInfo B))
  weights_at g [] = some []
  weights_at g (i ∷ is) = do h ← get_elem? (P.raw_nodes g) i; hs ← weights_at g is; some (h ∷ hs)

  pub fork_at : P.Graph → ℕ → Option (Fork B)
  fork_at g i = do
    common ← get_elem? (P.raw_nodes g) i
    children ← weights_at g (W.outgoing g i)
    some (record { common = common; children = children })

  -- The loop over the nodes that the search from a root visits
  pub forks_of : P.Graph → List ℕ → List (Fork B) → Option (List (Fork B))
  forks_of g [] forks = some forks
  forks_of g (i ∷ is) forks = elim (ltb 1 (length (W.outgoing g i))) [
    | false ↦ forks_of g is forks
    | true ↦ fork_at g i >>= λ fork. forks_of g is (forks ++ fork ∷ [])
  ]

  -- The loop over the roots
  pub all_forks : P.Graph → List ℕ → List (Fork B) → Option (List (Fork B))
  all_forks g [] forks = some forks
  all_forks g (root ∷ roots) forks = forks_of g (W.dfs g root) forks >>= all_forks g roots

  pub recent_forks : TreeInfo B P → ℕ → Option (List (Fork B))
  recent_forks tree how_many = do
    forks ← all_forks tree.graph (W.externals tree.graph) []
    some (take how_many (reverse (sort_by_key (λ (f : Fork B). f.common.height) forks)))
