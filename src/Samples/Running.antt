-- ===== src/Samples/Running.antt =====
-- A network with one node, and its tasks, started from a table with two headers.
use fork_observer.Prelude.{
  ◌≡◌, refl, ap, true, false, none, some, List, [], ◌∷◌, inl, inr, arith, In, Option-cases,
}
use fork_observer.Prelude.Results.{ok}
use fork_observer.Config.Settings.{Network, BoxedNode, btcd_node, node_info}
use fork_observer.Db.{Row, row_of}
use fork_observer.Db.Reading.{NoCollisions}
use fork_observer.Db.Stored.{IsStored}
use fork_observer.Identify
use fork_observer.Node.{Node}
use fork_observer.Petgraph.{DiGraph}
use fork_observer.Poll
use fork_observer.Poll.{World, Poller}
use fork_observer.Poll.Progress.{TipsAreSound, advance_runs}
use fork_observer.Samples.{btc, crates, header}
use fork_observer.Samples.Graph.{list_graph}
use fork_observer.Samples.Table.{list_table, query}
use fork_observer.Samples.Walking.{list_walk}
use fork_observer.Samples.Weighing.{list_weights}
use fork_observer.Startup.{new_system, new_poller, start_network}
use fork_observer.Startup.Started.{Started, ids_of, start_network-Started}
use fork_observer.Tasks.{System, task, poll, Reach, here, next, moved}
use fork_observer.Tree.Links.{HashCommits}
use fork_observer.Types.{NodeInfo, ChainTip, HeaderInfo}
use fork_observer.Types.Status.{ChainTipStatus}

abbrev pub graph : DiGraph (HeaderInfo btc)
graph = list_graph (HeaderInfo btc)

abbrev pub info : NodeInfo
info = record { id = 0; name = "n"; description = ""; implementation = "btcd" }

abbrev pub boxed : BoxedNode
boxed = btcd_node (record { info = info; rpc_url = ""; rpc_user = ""; rpc_password = "" })

abbrev pub network : Network
network = record {
  id = 1;
  description = "";
  name = "net";
  min_fork_height = 0;
  max_interesting_heights = 3;
  nodes = boxed ∷ [];
  pool_identification = record { enable = true; network = none };
}

abbrev pub table : List Row
unfolding row_of
table = row_of list_table 1 (header 0 "a") ∷ row_of list_table 1 (header 1 "ba") ∷ []

pub table-IsStored : IsStored list_table table
unfolding row_of
table-IsStored = record {
  readable = ((header 0 "a", refl), ((header 1 "ba", refl), tt));
  once = ((refl, tt), (tt, tt));
}

pub btc-NoCollisions : NoCollisions btc
btc-NoCollisions g h e = e

pub btc-HashCommits : HashCommits btc
btc-HashCommits g h e = ap btc.prev_blockhash e

abbrev pub tip : ChainTip
tip = record { height = 2; hash = "cba"; branchlen = 0; status = ChainTipStatus.active }

-- The node, when it reports the tips
abbrev pub node : List ChainTip → Node btc crates
node tips = record {
  info = info;
  use_rest = false;
  rpc_url = "";
  version = ok "1";
  block_header = λ h. ok h;
  block_hash = λ h. ok "cba";
  tips = ok tips;
  coinbase = λ h. ok h;
  active_chain_headers_rest = λ n h. ok [];
}

abbrev pub answers : List ChainTip → Poll.Answers btc crates
answers tips = record {
  node = node tips;
  versions = λ n. ok "1";
  is_json_rpc = λ e. false;
  order = λ m. m;
  now = some 7;
}

pub begun :
    (w : World graph list_table) × (start_network list_walk list_table network table []
      ≡ some (ok w))
    × Started list_walk list_table network table w
begun =
    start_network-Started list_walk list_table network table [] (query 1 table) btc-NoCollisions
      table-IsStored refl

abbrev pub start : System graph list_table
start = new_system begun.0

pub node_listed : In 0 (ids_of network)
unfolding node_info
node_listed = begun.2.listed boxed (inl refl)

-- The next step of a task of the node
pub turn_of :
    (tips : List ChainTip) (p : Poller btc crates)
    → TipsAreSound p.phase
    → (r : Poller btc crates × World graph list_table) × (Poll.advance list_walk list_table network
          (answers tips)
          p
          start.world
        ≡ some r)
turn_of tips p sound =
    elim (Option-cases (Poll.advance list_walk list_table network (answers tips) p start.world)) [
      | inl stuck ↦ absurd (
          advance_runs list_walk list_table network (answers tips) p start.world (ids_of network)
            node_listed begun.2.holds begun.2.forest (omega arith) sound stuck)
      | inr r ↦ r
    ]

-- The step in which it asks for its version
abbrev pub first_turn :
    (r : Poller btc crates × World graph list_table) × (Poll.advance list_walk list_table network
        (answers [])
        new_poller
        start.world
      ≡ some r)
first_turn = turn_of [] new_poller tt

abbrev pub later : System graph list_table
later = record {
  world = first_turn.0.1;
  pollers = moved start.pollers 0 first_turn.0.0;
  identifier = Identify.receiving;
}

pub reached : Reach list_walk list_weights list_table network start later
reached = next here (task (poll 0 (answers []) first_turn.0.0 first_turn.0.1 first_turn.1 refl))
