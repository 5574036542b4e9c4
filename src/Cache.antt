-- ===== src/Cache.antt =====
-- The caches of src/main.rs: `update_cache`, `is_node_reachable`, `tip_heights`, and what
-- `populate_cache` stores. Each function locks the caches once, so each is one atomic step;
-- `none` stands for the panic of an `expect`. The proofs are in the modules below.
pub mod Frame
pub mod Steps
pub mod Invariant
pub mod Panics
pub mod Nodes
pub mod Miners
pub mod Identified
mod Texts
pub mod Survival
pub mod Heights
mod Examples
use mathlib.Core.Option
use fork_observer.Prelude.{
  ℕ, ◌+◌, String, Bool, true, Option, none, some, List, [], ◌∷◌, ◌++◌, map, length, select, drop,
  ltb, leb, str_eq, string_key, if◌then◌else◌, min,
}
use fork_observer.Prelude.HashMap
use fork_observer.Prelude.HashMap.{HashMap}
use fork_observer.Prelude.Options.{◌>>=◌}
use fork_observer.Prelude.BTree
use fork_observer.Prelude.BTree.{BTreeMap, BTreeSet}
use fork_observer.Bitcoin.{Bitcoin}
use fork_observer.Types.{
  ChainTip, TipInfoJson, NodeInfo, NodeDataJson, node_data_json, set_reachable, set_version,
  set_tips, Clock, HeaderInfoJson, set_json_miner, HeaderInfo, Fork, Cache, Caches, hash_of,
}

abbrev pub version_unknown : String
version_unknown = "unknown"

pub data CacheUpdate (B : Bitcoin) : Type 0 where
  header_miner : (header_info : HeaderInfo B) → CacheUpdate B
  header_tree : (header_infos_json : List HeaderInfoJson) (forks : List (Fork B)) → CacheUpdate B
  node_tips : (node_id : ℕ) (tips : List ChainTip) → CacheUpdate B
  node_reachability : (node_id : ℕ) (reachable : Bool) → CacheUpdate B
  node_version : (node_id : ℕ) (version : String) → CacheUpdate B

-- `position` and the update of the header that it finds: the first one with the hash.
update_first_miner : String → String → List HeaderInfoJson → List HeaderInfoJson
update_first_miner hash miner [] = []
update_first_miner hash miner (h ∷ hs) =
    if str_eq h.hash hash then set_json_miner miner h ∷ hs else h ∷ update_first_miner hash miner hs

-- `push`, and `remove(0)` if more than five are there.
push_recent : String × String → List (String × String) → List (String × String)
push_recent entry miners =
    let pushed = miners ++ entry ∷ [] in if ltb 5 (length pushed) then drop 1 pushed else pushed

-- `iter().map(|h| (h.hash, h)).collect()` into a hash map that holds `m`.
pub collect_headers :
    HashMap String HeaderInfoJson → List HeaderInfoJson → HashMap String HeaderInfoJson
collect_headers m [] = m
collect_headers m (h ∷ hs) = collect_headers (HashMap.insert h.hash h m) hs

pub apply_miners :
    List (String × String) → HashMap String HeaderInfoJson → HashMap String HeaderInfoJson
apply_miners [] m = m
apply_miners ((hash, miner) ∷ rest) m =
    apply_miners rest (HashMap.and_modify hash (set_json_miner miner) m)

-- The order in which the hash map of the headers is iterated.
abbrev pub Order : Type 0
Order = HashMap String HeaderInfoJson → List (String × HeaderInfoJson)

min_by_height : HeaderInfoJson → List HeaderInfoJson → ℕ
min_by_height h [] = h.height
min_by_height h (g ∷ gs) = min h.height (min_by_height g gs)

-- The height of `min_by_key(|h| h.height)`, or 0 if there is no header.
min_height : List HeaderInfoJson → ℕ
unfolding min_by_height
min_height [] = 0
min_height (h ∷ hs) = min_by_height h hs

pub relevant_tips : List HeaderInfoJson → List ChainTip → List ChainTip
unfolding min_height
relevant_tips headers tips = select (λ t. leb (min_height headers) t.height) tips

modify_node : {B : Bitcoin} → ℕ → (NodeDataJson → NodeDataJson) → Cache B → Cache B
modify_node node_id f c = record c { node_data = BTree.and_modify node_id f c.node_data }

module _ {B : Bitcoin} (order : Order) (now : Clock) where
  -- The arms of the `match` of `update_cache`, at the cache of the network.
  pub apply_update : CacheUpdate B → Cache B → Cache B
  unfolding modify_node
  apply_update (header_miner header_info) c =
      let hash = B.hash_to_string (hash_of header_info) in
      record c {
        header_infos_json = update_first_miner hash header_info.miner c.header_infos_json;
        recent_miners = push_recent (hash, header_info.miner) c.recent_miners;
      }
  apply_update (header_tree header_infos_json forks) c =
      let new_header_infos_map =
        apply_miners c.recent_miners (collect_headers [] header_infos_json) in
      record c { header_infos_json = map (λ e. e.1) (order new_header_infos_map); forks = forks }
  apply_update (node_tips node_id tips) c =
      modify_node node_id (set_tips now (relevant_tips c.header_infos_json tips)) c
  apply_update (node_reachability node_id reachable) c =
      modify_node node_id (set_reachable reachable) c
  apply_update (node_version node_id version) c = modify_node node_id (set_version version) c

  pub update_cache : ℕ → CacheUpdate B → Caches B → Option (Caches B)
  update_cache network_id update caches =
      Option.map (λ _. BTree.and_modify network_id (apply_update update) caches)
        (BTree.get network_id caches)

add_tips : List TipInfoJson → BTreeSet → BTreeSet
add_tips [] heights = heights
add_tips (t ∷ ts) heights = add_tips ts (BTree.add t.height heights)

add_nodes : List NodeDataJson → BTreeSet → BTreeSet
unfolding add_tips
add_nodes [] heights = heights
add_nodes (n ∷ ns) heights = add_nodes ns (add_tips n.tips heights)

module _ {B : Bitcoin} where
  unfoldable pub is_node_reachable : ℕ → ℕ → Caches B → Option Bool
  is_node_reachable network_id node_id caches = do
    network ← BTree.get network_id caches
    node ← BTree.get node_id network.node_data
    some node.reachable

  pub tip_heights : ℕ → Caches B → Option BTreeSet
  tip_heights network_id caches =
      Option.map (λ c. add_nodes (BTree.values c.node_data) []) (BTree.get network_id caches)

-- `collect()` of the nodes of a network, which are not heard of yet, into `m`.
pub initial_node_data : List NodeInfo → BTreeMap NodeDataJson → BTreeMap NodeDataJson
initial_node_data [] m = m
initial_node_data (info ∷ infos) m =
    initial_node_data infos (BTree.insert info.id (node_data_json info [] version_unknown 0 true) m)

-- The cache that `populate_cache` inserts, from the stripped tree and the forks of the network.
pub initial_cache : {B : Bitcoin} → List NodeInfo → List HeaderInfoJson → List (Fork B) → Cache B
initial_cache infos hij forks = record {
  header_infos_json = hij;
  node_data = initial_node_data infos [];
  forks = forks;
  recent_miners = [];
}
