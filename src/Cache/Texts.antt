-- ===== src/Cache/Texts.antt =====
-- The texts of the updates of the caches (`Display` of `CacheUpdate` in src/main.rs), which the program
-- logs.
use Prim.Native.String.{◌++◌ as cat}
use fork_observer.Prelude.{Bool, true, false, String, Option, none, some, last}
use fork_observer.Prelude.Text.{decimal}
use fork_observer.Bitcoin.{Bitcoin}
use fork_observer.Cache.{
  CacheUpdate, header_miner, header_tree, node_tips, node_reachability, node_version,
}
use fork_observer.Types.{HeaderInfoJson, hash_of}

unfoldable pub bool_to_string : Bool → String
bool_to_string true = "true"
bool_to_string false = "false"

-- The text for the last header of a new tree
last_to_string : Option HeaderInfoJson → String
last_to_string none = "Updating headertree with empty header list"
last_to_string (some h) =
    cat "Updating headertree with last header hash=" (cat h.hash (cat " and miner=" h.miner))

unfoldable pub cache_update_to_string : {B : Bitcoin} → CacheUpdate B → String
unfolding bool_to_string last_to_string
cache_update_to_string {B} (header_miner h) =
    cat "Setting miner of block " (cat (B.hash_to_string (hash_of h)) (cat " to miner=" h.miner))
cache_update_to_string (header_tree header_infos_json forks) =
    last_to_string (last header_infos_json)
cache_update_to_string (node_tips node_id tips) = cat "Update tips of node=" (decimal node_id)
cache_update_to_string (node_version node_id version) =
    cat "Update node=" (cat (decimal node_id) (cat " version=" version))
cache_update_to_string (node_reachability node_id reachable) =
    cat "Setting node " (cat (decimal node_id) (cat " to reachable=" (bool_to_string reachable)))
