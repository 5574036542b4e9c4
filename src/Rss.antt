-- ===== src/Rss.antt =====
-- src/rss.rs: which nodes and blocks the feeds of a network list.
mod Examples
pub mod Items
pub mod Responses
pub mod Lagging
pub mod Unreachable
pub mod InvalidBlocks
use Prim.Native.String.{◌++◌ as ◌+str◌}
use fork_observer.Prelude.{
  ℕ, ◌+◌, ◌-◌, ◌%◌, ◌^◌, String, Bool, true, false, not, Option, none, some, List, [], ◌∷◌, ◌++◌,
  map, length, reverse, select, last, ltb, leb, ◌==◌, str_eq, if◌then◌else◌, max, Key, ◌≡◌, ◌↔◌,
  arith, str_eq_iff,
}
use fork_observer.Prelude.BTree
use fork_observer.Prelude.HashMap
use fork_observer.Prelude.HashMap.{HashMap}
use fork_observer.Prelude.Sort.{sort_by_key}
use fork_observer.Prelude.Text.{decimal}
use fork_observer.Bitcoin.{Bitcoin}
use fork_observer.Types.{TipInfoJson, NodeDataJson, Cache, Caches}
use fork_observer.Types.Status.{invalid, status_to_string}
use Items.{
  Item, Channel, concat, join_comma, feed_to_string, fork_item, invalid_block_item,
  lagging_node_item, unreachable_node_item, threashold_node_lagging,
}

abbrev dummy_tip : TipInfoJson
dummy_tip = record { hash = "dummy"; status = "active"; height = 0 }

tip_or_dummy : Option TipInfoJson → TipInfoJson
tip_or_dummy none = dummy_tip
tip_or_dummy (some tip) = tip

-- The height of the last tip of a node that is active, or 0
pub active_height : NodeDataJson → ℕ
unfolding tip_or_dummy
active_height node =
    (tip_or_dummy
      (last (select (λ (tip : TipInfoJson). str_eq tip.status "active") node.tips))).height

-- `max().unwrap_or(&0)` of the heights
pub max_height : List (NodeDataJson × ℕ) → ℕ
max_height [] = 0
max_height ((node, height) ∷ rest) = max height (max_height rest)

abbrev pub is_lagging : ℕ → NodeDataJson × ℕ → Bool
is_lagging top e = ltb ((e.1 + threashold_node_lagging) % 2 ^ 64) top

-- The nodes that `lagging_nodes_response` lists, with their heights
pub lagging_nodes : {B : Bitcoin} → Cache B → List (NodeDataJson × ℕ)
lagging_nodes cache =
    let nodes_with_active_height =
      map (λ (n : NodeDataJson). (n, active_height n)) (BTree.values cache.node_data) in
    if ltb 1 (length cache.node_data)
    then select (is_lagging (max_height nodes_with_active_height)) nodes_with_active_height
    else []

pub unreachable_nodes : {B : Bitcoin} → Cache B → List NodeDataJson
unreachable_nodes cache =
    select (λ (n : NodeDataJson). not n.reachable) (BTree.values cache.node_data)

-- `Eq` of `TipInfoJson`
pub same_tip : TipInfoJson → TipInfoJson → Bool
same_tip a b =
    if str_eq a.hash b.hash
    then if str_eq a.status b.status then a.height == b.height else false
    else false

pub same_tip_iff : (a b : TipInfoJson) → (same_tip a b ≡ true) ↔ (a ≡ b)
unfolding same_tip
same_tip_iff a b = ground (arith, str_eq_iff a.hash b.hash, str_eq_iff a.status b.status)

instance abbrev pub tip_key : Key TipInfoJson
tip_key = record { same = same_tip; same_iff = same_tip_iff }

abbrev pub InvalidBlocks : Type 0
InvalidBlocks = HashMap TipInfoJson (List NodeDataJson)

-- `entry(tip).and_modify(|k| k.push(node)).or_insert(vec![node])`
pub add_invalid : NodeDataJson → TipInfoJson → InvalidBlocks → InvalidBlocks
add_invalid node tip m = elim (HashMap.get tip m) [
  | none ↦ HashMap.insert tip (node ∷ []) m
  | some nodes ↦ HashMap.insert tip (nodes ++ node ∷ []) m
]

abbrev pub is_invalid : TipInfoJson → Bool
is_invalid tip = str_eq tip.status (status_to_string invalid)

-- The loop over the tips of a node
pub add_tips_of : NodeDataJson → List TipInfoJson → InvalidBlocks → InvalidBlocks
add_tips_of node [] m = m
add_tips_of node (tip ∷ tips) m =
    add_tips_of node tips (if is_invalid tip then add_invalid node tip m else m)

pub invalid_blocks_to_node_id : List NodeDataJson → InvalidBlocks → InvalidBlocks
invalid_blocks_to_node_id [] m = m
invalid_blocks_to_node_id (node ∷ nodes) m =
    invalid_blocks_to_node_id nodes (add_tips_of node node.tips m)

-- `sort_by(|a, b| b.0.height.cmp(&a.0.height))`, which is stable
insert_descending :
    TipInfoJson × List NodeDataJson
    → List (TipInfoJson × List NodeDataJson)
    → List (TipInfoJson × List NodeDataJson)
insert_descending x [] = x ∷ []
insert_descending x (y ∷ ys) =
    if leb y.0.height x.0.height then x ∷ y ∷ ys else y ∷ insert_descending x ys

pub sort_descending :
    List (TipInfoJson × List NodeDataJson) → List (TipInfoJson × List NodeDataJson)
unfolding insert_descending
sort_descending [] = []
sort_descending (x ∷ xs) = insert_descending x (sort_descending xs)

-- The order in which the hash map of the invalid blocks is iterated
abbrev pub BlockOrder : Type 0
BlockOrder = InvalidBlocks → List (TipInfoJson × List NodeDataJson)

pub invalid_blocks : {B : Bitcoin} → BlockOrder → Cache B → List (TipInfoJson × List NodeDataJson)
invalid_blocks order cache =
    sort_descending (order (invalid_blocks_to_node_id (BTree.values cache.node_data) []))
