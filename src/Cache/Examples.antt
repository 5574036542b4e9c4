-- ===== src/Cache/Examples.antt =====
-- Small inputs for the caches of src/main.rs, tests on them, and the theorems at them.
use mathlib.Core.List.Perm
use mathlib.Core.List.{Mem, Perm, mem-cons_self}
use fork_observer.Prelude.{
  ℕ, ◌≡◌, ◌≢◌, ◌↔◌, ◌⊎◌, refl, inl, String, true, false, Option, none, some, [], ◌∷◌, map, arith,
  In, str_eq_iff,
}
use fork_observer.Prelude.BTree
use fork_observer.Prelude.BTree.{BTreeSet, IsAscending}
use fork_observer.Types.{
  ChainTip, NodeInfo, node_data_json, tip_info, set_tips, set_reachable, set_version,
  set_json_miner, HeaderInfoJson, HeaderInfo, Cache, Caches,
}
use fork_observer.Types.Status.{ChainTipStatus, status_to_string}
use fork_observer.Samples.{btc, header}
use fork_observer.Cache.{
  Order, header_miner, header_tree, node_tips, node_reachability, node_version, update_cache,
  apply_update, is_node_reachable, tip_heights, initial_cache, initial_node_data, push_recent,
  update_first_miner, modify_node, relevant_tips, min_height, min_by_height, add_nodes, add_tips,
}
use fork_observer.Cache.Frame.{Updated, update_cache-frame}
use fork_observer.Cache.Steps.{populate, update, Reach, here, next}
use fork_observer.Cache.Invariant.{IsValid, Reach-IsValid}
use fork_observer.Cache.Panics.{populated_never_panics}
use fork_observer.Cache.Nodes.{TipsUpdated, apply_update-node_tips}
use fork_observer.Cache.Miners.{DistinctHashes, relabel}
use fork_observer.Cache.Survival.{IsIteration, apply_update-header_tree, miner_survives, identify}
use fork_observer.Cache.Texts.{bool_to_string, cache_update_to_string}
use fork_observer.Prelude.Text.{decimal}
use fork_observer.Cache.Heights.{Shows, tip_heights-Shows}

abbrev in_order : Order
in_order m = m

in_order-IsIteration : IsIteration in_order
in_order-IsIteration m = Perm.refl m

abbrev node_a : NodeInfo
node_a = record { id = 0; name = "A"; description = ""; implementation = "Bitcoin Core" }

abbrev node_b : NodeInfo
node_b = record { id = 1; name = "B"; description = ""; implementation = "btcd" }

abbrev tip : ℕ → String → ChainTip
tip height hash = record {
  height = height;
  hash = hash;
  branchlen = 0;
  status = ChainTipStatus.active;
}

abbrev h10 : HeaderInfo btc
h10 = header 10 "aa"

abbrev j10 : HeaderInfoJson
j10 = record {
  id = 0;
  prev_id = 7;
  height = 10;
  hash = "aa";
  version = 2;
  prev_blockhash = "99";
  merkle_root = "";
  time = 0;
  bits = 0;
  difficulty_int = 1;
  nonce = 0;
  miner = "";
}

abbrev j11 : HeaderInfoJson
j11 = record j10 { id = 1; height = 11; hash = "bb"; prev_blockhash = "aa" }

abbrev start : Cache btc
start = record {
  header_infos_json = j10 ∷ [];
  node_data =
      (0, node_data_json node_a (tip 11 "bb" ∷ []) "v" 5 true)
      ∷ (1, node_data_json node_b [] "v" 0 true)
      ∷ [];
  forks = [];
  recent_miners = [];
}

abbrev caches : Caches btc
caches = (7, start) ∷ []

all_open : Unit {0}
unfolding update_cache apply_update modify_node is_node_reachable push_recent update_first_miner
    relevant_tips min_height min_by_height BTree.get BTree.and_modify BTree.insert BTree.add
    node_data_json tip_info set_tips set_reachable set_version set_json_miner status_to_string
    tip_heights add_nodes add_tips initial_cache initial_node_data relabel
all_open = tt

-- The unit test of the source: a node is set to be unreachable, and to be reachable again.
abbrev unreachable : Caches btc
unreachable = (7, modify_node 0 (set_reachable false) start) ∷ []

update_cache-unreachable :
    update_cache in_order none 7 (node_reachability 0 false) caches ≡ some unreachable
unfolding all_open
update_cache-unreachable = refl

test_node_reachable :
    (is_node_reachable 7 0 caches ≡ some true)
    × (is_node_reachable 7 0 unreachable ≡ some false)
    × (is_node_reachable 7 1 unreachable ≡ some true)
    × (is_node_reachable 7 2 unreachable ≡ none)
unfolding all_open
test_node_reachable = (refl, refl, refl, refl)

update_cache-frame_example :
    (BTree.get 7 caches ≡ none) × (update_cache in_order none 7 (node_version 1 "w") caches ≡ none)
    ⊎ ((c : Cache btc) × (BTree.get 7 caches ≡ some c)
        × ((after : Caches btc) × Updated in_order none 7 (node_version 1 "w") caches c after))
update_cache-frame_example = update_cache-frame in_order none 7 (node_version 1 "w") caches

-- The cache of a network with one node, and the update of its miners.
abbrev populated : Caches btc
populated = BTree.insert 7 (initial_cache (node_a ∷ []) (j10 ∷ []) []) []

abbrev mined : Cache btc
mined =
    apply_update in_order none (header_miner (record h10 { miner = "pool" }))
      (initial_cache (node_a ∷ []) (j10 ∷ []) [])

Reach-mined : Reach [] ((7, mined) ∷ [])
unfolding all_open
Reach-mined =
    next (next here (populate 7 (node_a ∷ []) (j10 ∷ []) [] refl refl))
      (update in_order none 7 (header_miner (record h10 { miner = "pool" })) refl)

Reach-IsValid_example : IsValid mined
unfolding all_open
Reach-IsValid_example = Reach-IsValid 7 mined Reach-mined refl

populated_never_panics_example :
    (is_node_reachable 7 0 populated ≢ none)
    × (tip_heights 7 populated ≢ none)
    × ((order : Order) (now : Option ℕ) (u : _) → update_cache order now 7 u populated ≢ none)
populated_never_panics_example =
    populated_never_panics 7 (node_a ∷ []) (j10 ∷ []) [] [] node_a (inl refl) here

apply_update-node_tips_example :
    TipsUpdated in_order
      (some 9)
      0
      (tip 11 "bb" ∷ tip 3 "cc" ∷ [])
      start
      (node_data_json node_a (tip 11 "bb" ∷ []) "v" 5 true)
      (apply_update in_order (some 9) (node_tips 0 (tip 11 "bb" ∷ tip 3 "cc" ∷ [])) start)
unfolding all_open
apply_update-node_tips_example =
    apply_update-node_tips in_order (some 9) 0 (tip 11 "bb" ∷ tip 3 "cc" ∷ []) start
      (node_data_json node_a (tip 11 "bb" ∷ []) "v" 5 true) refl

-- The tip below the cached header is dropped.
node_tips_drops :
    map
      (λ n. n.tips)
      (BTree.values
        (apply_update in_order
          (some 9)
          (node_tips 0 (tip 11 "bb" ∷ tip 3 "cc" ∷ []))
          start).node_data)
    ≡ (tip_info (tip 11 "bb") ∷ []) ∷ [] ∷ []
unfolding all_open
node_tips_drops = refl

distinct : DistinctHashes (j10 ∷ j11 ∷ [])
distinct = ((ground (arith, str_eq_iff "bb" "aa"), tt), (tt, tt))

apply_update-header_tree_example :
    Perm
      (apply_update {B = btc} in_order none
        (header_tree (j10 ∷ j11 ∷ []) [])
        mined).header_infos_json
      (map (relabel mined.recent_miners) (j10 ∷ j11 ∷ []))
    × ((apply_update {B = btc} in_order none (header_tree (j10 ∷ j11 ∷ []) []) mined).forks ≡ [])
    × ((apply_update {B = btc} in_order none (header_tree (j10 ∷ j11 ∷ []) []) mined).node_data
        ≡ mined.node_data)
    × ((apply_update {B = btc} in_order none (header_tree (j10 ∷ j11 ∷ []) []) mined).recent_miners
        ≡ mined.recent_miners)
apply_update-header_tree_example =
    apply_update-header_tree in_order in_order-IsIteration none (j10 ∷ j11 ∷ []) [] mined distinct

miner_survives_example :
    Mem
      (set_json_miner "pool" j10)
      (apply_update in_order none (header_tree (j10 ∷ j11 ∷ []) []) (
        identify in_order none
          (record h10 { miner = "pool" } ∷ header 11 "bb" ∷ [])
          start)).header_infos_json
miner_survives_example =
    miner_survives in_order none in_order-IsIteration (record h10 { miner = "pool" })
      (header 11 "bb" ∷ []) (j10 ∷ j11 ∷ []) [] j10 start (omega arith) (omega arith)
      (ground (arith, str_eq_iff "bb" "aa"), tt) distinct mem-cons_self refl

tip_heights-Shows_example :
    (heights : BTreeSet) × (tip_heights 7 caches ≡ some heights)
    × IsAscending heights
    × ((x : ℕ) → In x heights ↔ Shows (BTree.values start.node_data) x)
unfolding all_open
tip_heights-Shows_example = tip_heights-Shows 7 caches start refl

tip_heights_test : tip_heights 7 caches ≡ some (11 ∷ [])
unfolding all_open
tip_heights_test = refl

unreachable_text :
    cache_update_to_string {B = btc} (node_reachability 12 false)
    ≡ "Setting node 12 to reachable=false"
unfolding cache_update_to_string bool_to_string decimal
unreachable_text = refl
