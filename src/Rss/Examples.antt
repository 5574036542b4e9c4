-- ===== src/Rss/Examples.antt =====
-- Nodes of a small network, tests on the feeds, and the theorems on the feeds at them.
use fork_observer.Prelude.{ℕ, ◌≡◌, ◌↔◌, refl, Bool, true, false, List, [], ◌∷◌, arith, In, String}
use fork_observer.Types.{TipInfoJson, NodeDataJson, Cache, Caches}
use fork_observer.Samples.{btc}
use fork_observer.Cache.Invariant.{IsValid}
use fork_observer.Rss.{
  active_height, lagging_nodes, invalid_blocks_to_node_id, tip_or_dummy, max_height,
}
use fork_observer.Rss.Lagging.{IsAhead, in-lagging_nodes}
use fork_observer.Rss.InvalidBlocks.{nodes_of, Reports, in-invalid_blocks_to_node_id}

abbrev tip : String → String → ℕ → TipInfoJson
tip hash status height = record { hash = hash; status = status; height = height }

abbrev node : ℕ → Bool → List TipInfoJson → NodeDataJson
node id reachable tips = record {
  id = id;
  name = "n";
  description = "";
  implementation = "btcd";
  tips = tips;
  last_changed_timestamp = 0;
  version = "unknown";
  reachable = reachable;
}

abbrev behind : NodeDataJson
behind = node 1 true (tip "a" "active" 10 ∷ tip "x" "invalid" 9 ∷ [])

abbrev ahead : NodeDataJson
ahead = node 2 false (tip "b" "active" 14 ∷ [])

abbrev cache : Cache btc
cache = record {
  header_infos_json = [];
  node_data = (1, behind) ∷ (2, ahead) ∷ [];
  forks = [];
  recent_miners = [];
}

abbrev caches : Caches btc
caches = (7, cache) ∷ []

lagging : lagging_nodes cache ≡ (behind, 10) ∷ []
unfolding lagging_nodes active_height tip_or_dummy max_height
lagging = refl

cache-IsValid : IsValid cache
cache-IsValid = record {
  few_miners = omega arith;
  ordered = ((omega arith, tt), (tt, tt));
  named = (refl, (refl, tt));
}

in-lagging_nodes_example : In (behind, 10) (lagging_nodes cache) ↔ (
    In behind (behind ∷ ahead ∷ [])
    × (10 ≡ active_height behind)
    × IsAhead (behind ∷ ahead ∷ []) 10)
unfolding active_height tip_or_dummy
in-lagging_nodes_example = in-lagging_nodes cache behind 10 (omega arith, (omega arith, tt))

in-invalid_blocks_to_node_id_example :
    In behind (nodes_of (tip "x" "invalid" 9) (invalid_blocks_to_node_id (behind ∷ ahead ∷ []) []))
    ↔ (In behind (behind ∷ ahead ∷ []) × Reports (tip "x" "invalid" 9) behind.tips)
in-invalid_blocks_to_node_id_example =
    in-invalid_blocks_to_node_id behind (tip "x" "invalid" 9) (behind ∷ ahead ∷ [])
