-- ===== src/Identify/Examples.antt =====
-- Three nodes that are asked for a coinbase, of which the second knows the pool, and a world in which
-- the miner of a block is identified.
use fork_observer.Prelude.{
  ◌≡◌, ◌⊎◌, refl, Option, none, some, List, [], ◌∷◌, String, str_eq, if◌then◌else◌, All,
}
use fork_observer.Prelude.Results.{Result, ok, err}
use fork_observer.Prelude.BTree
use fork_observer.Identify.{
  Answers, asking, receiving, identify, miner_unknown, pool_name, miner_after, ask_nodes,
}
use fork_observer.Identify.Agree.{Agrees, run, identified-Agrees}
use fork_observer.Identify.Naming.{Fails, FirstNamed, ask_nodes-FirstNamed}
use fork_observer.Petgraph.{DiGraph}
use fork_observer.Poll.{World}
use fork_observer.Samples.{btc, crates, header}
use fork_observer.Samples.Graph.{list_graph}
use fork_observer.Samples.Running.{network, table}
use fork_observer.Samples.Table.{list_table}
use fork_observer.Samples.Weighing.{list_weights}
use fork_observer.Types.{Cache, HeaderInfo, HeaderInfoJson}

abbrev pools : String → Option String
pools coinbase = if str_eq coinbase "/slush/" then some "SlushPool" else none

abbrev replies : List (Result String String)
replies = err "not found" ∷ ok "/slush/" ∷ ok "/other/" ∷ []

slush : ask_nodes pools replies miner_unknown ≡ "SlushPool"
unfolding ask_nodes miner_after pool_name
slush = refl

ask_nodes-FirstNamed_example :
    (ask_nodes pools replies miner_unknown ≡ miner_unknown × All (Fails pools) replies)
    ⊎ FirstNamed pools replies (ask_nodes pools replies miner_unknown)
ask_nodes-FirstNamed_example = ask_nodes-FirstNamed pools replies

abbrev graph : DiGraph (HeaderInfo btc)
graph = list_graph (HeaderInfo btc)

abbrev shown : HeaderInfoJson
shown = record {
  id = 0;
  prev_id = 0;
  height = 0;
  hash = "a";
  version = 0;
  prev_blockhash = "";
  merkle_root = "";
  time = 0;
  bits = 0;
  nonce = 0;
  difficulty_int = 0;
  miner = "";
}

abbrev cache : Cache btc
cache = record { header_infos_json = shown ∷ []; node_data = []; forks = []; recent_miners = [] }

-- The tree, the table and the cache have the block "a", whose miner is unknown.
abbrev world : World graph list_table
world = record {
  tree = record { graph = record { nodes = header 0 "a" ∷ []; edges = [] }; index = ("a", 0) ∷ [] };
  db = table;
  caches = (1, cache) ∷ [];
  queue = [];
  announced = [];
}

abbrev answers : Answers btc crates
answers = record {
  coinbases = λ hash. ok "/slush/" ∷ [];
  identify_pool = pools;
  order = λ m. m;
  now = some 7;
}

identified-Agrees_example :
    (after : World graph list_table) × (run list_weights list_table network answers 4
        (asking 0 (header 0 "a"))
        world
      ≡ some (receiving, after))
    × Agrees list_weights list_table network answers 0
        (identify list_weights list_table network answers (header 0 "a"))
        world
        after
unfolding BTree.get
identified-Agrees_example =
    identified-Agrees list_weights list_table network answers world 0 (header 0 "a") cache refl refl
      (tt, tt)
