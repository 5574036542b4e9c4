-- ===== src/Headertree/Strip.antt =====
-- `strip_tree` of src/headertree.rs: the headers near interesting heights, as one tree. `none`
-- stands for a panic.
pub mod Near
pub mod Connects
pub mod Entries
pub mod Shown
use fork_observer.Prelude.{
  ℕ, zero, suc, ◌+◌, ◌-◌, ◌^◌, ◌<◌, ◌≡◌, Bool, true, false, Option, none, some, List, [], ◌∷◌, ◌++◌,
  length, get_elem?, ltb, ◌==◌, if◌then◌else◌, last,
}
use fork_observer.Prelude.BTree.{BTreeSet}
use fork_observer.Prelude.Int.{ℤ, pos, negsuc, ◌-ℤ◌, ◌+ℤ◌, as_i64, as_unsigned}
use fork_observer.Prelude.Options.{◌>>=◌}
use fork_observer.Prelude.Sort.{sort_by_key}
use fork_observer.Bitcoin.{Bitcoin}
use fork_observer.Petgraph.{DiGraph}
use fork_observer.Petgraph.Walk.{Walk}
use fork_observer.Types.{HeaderInfo, HeaderInfoJson, header_info_json}
use fork_observer.Tree.{TreeInfo}
use fork_observer.Headertree.{sorted_interesting_heights}

abbrev pub int_sub : ℤ → ℤ → ℤ
int_sub a (pos k) = a -ℤ k
int_sub a (negsuc k) = a +ℤ (k + 1)

pub has_height : List ℕ → ℕ → Bool
has_height [] h = false
has_height (x ∷ xs) h = if x == h then true else has_height xs h

pub any_offset : List ℕ → ℕ → List ℤ → Bool
any_offset heights height [] = false
any_offset heights height (x ∷ xs) =
    if has_height heights (as_unsigned 64 (int_sub (as_i64 height) x))
    then true
    else any_offset heights height xs

-- The header is near an interesting height: the offsets are `-2..=1`.
pub is_near : {B : Bitcoin} → List ℕ → HeaderInfo B → Bool
is_near heights h = any_offset heights h.height (negsuc 1 ∷ negsuc 0 ∷ pos 0 ∷ pos 1 ∷ [])

abbrev pub usize_max : ℕ
usize_max = 2 ^ 64 - 1

module _ {B : Bitcoin} {P : DiGraph (HeaderInfo B)} (W : Walk P) where
  pub height_at : P.Graph → ℕ → ℕ
  height_at g i = elim (get_elem? (P.raw_nodes g) i) [ none ↦ 0 | some h ↦ h.height ]

  -- The loop over the nodes that the search visits, with `max_height` and the node to connect to
  pub highest : P.Graph → List ℕ → ℕ → Option ℕ → Option ℕ
  highest g [] max_height best = best
  highest g (i ∷ is) max_height best =
      let higher = ltb max_height (height_at g i) in
      highest g is (if higher then height_at g i else max_height) (if higher then some i else best)

  pub connect_root : P.Graph → Option ℕ → ℕ → P.Graph
  connect_root g none root = g
  connect_root g (some prev) root = W.add_edge g prev root

  -- The loop over the roots, with the node to connect the next root to
  pub connect_roots : P.Graph → List ℕ → Option ℕ → P.Graph
  connect_roots g [] prev = g
  connect_roots g (root ∷ roots) prev =
      let connected = connect_root g prev root in
      connect_roots connected roots (highest connected (W.dfs connected root) 0 none)

  pub prev_index : List ℕ → Option ℕ
  prev_index [] = some usize_max
  prev_index (p ∷ []) = some p
  prev_index (p ∷ q ∷ ps) = none

  -- The loop over the node indices from `i`
  pub collect_headers_json : P.Graph → List (HeaderInfo B) → ℕ → Option (List HeaderInfoJson)
  collect_headers_json g [] i = some []
  collect_headers_json g (h ∷ hs) i = do
    prev ← prev_index (W.incoming g i)
    rest ← collect_headers_json g hs (suc i)
    some (header_info_json h i prev ∷ rest)

  pub reconnect : P.Graph → P.Graph
  reconnect g = connect_roots g (sort_by_key (height_at g) (W.externals g)) none

  pub strip_tree : TreeInfo B P → ℕ → BTreeSet → Option (List HeaderInfoJson)
  strip_tree tree max_interesting_heights tip_heights = do
    heights ← sorted_interesting_heights tree max_interesting_heights tip_heights
    let striped = reconnect (W.filter_nodes (is_near heights) tree.graph)
    collect_headers_json striped (P.raw_nodes striped) 0
