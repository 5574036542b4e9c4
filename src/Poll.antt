-- ===== src/Poll.antt =====
-- The task that `main` of src/main.rs spawns for each node: it asks for the version of the node, and
-- then polls its tips. A phase is a place between two critical sections, where other tasks may run;
-- `none` stands for a panic.
pub mod Effect
pub mod Moves
pub mod Progress
pub mod Turns
pub mod Ticks
mod Examples
use fork_observer.Prelude.{
  ℕ, Bool, true, false, not, String, Option, none, some, List, [], ◌∷◌, ◌++◌, if◌then◌else◌,
}
use fork_observer.Prelude.BTree
use fork_observer.Prelude.BTree.{BTreeSet}
use fork_observer.Prelude.Options.{◌>>=◌}
use fork_observer.Prelude.Results.{Result, ok, err}
use fork_observer.Bitcoin.{Bitcoin}
use fork_observer.Errors.{Crates, FetchError, DbError}
use fork_observer.Petgraph.{DiGraph}
use fork_observer.Petgraph.Walk.{Walk}
use fork_observer.Types.{ChainTip, Clock, HeaderInfo, HeaderInfoJson, Fork, Caches}
use fork_observer.Types.Equality.{same_tips}
use fork_observer.Cache.{
  Order, CacheUpdate, header_tree, node_tips, node_reachability, node_version, update_cache,
  is_node_reachable, tip_heights,
}
use fork_observer.Config.Settings.{Network}
use fork_observer.Db.{Sqlite, write_to_db}
use fork_observer.Headertree.Forks.{recent_forks}
use fork_observer.Headertree.Strip.{strip_tree}
use fork_observer.Node.{Node, Fetch, fetch, panicked, out_of_fuel, new_headers}
use fork_observer.Tree.{TreeInfo, insert_new_headers_into_tree}
use fork_observer.Version.{load_node_version}

abbrev pub max_forks_in_cache : ℕ
max_forks_in_cache = 50

-- What the tasks of a network share: its tree, the database and the caches, the channel to the
-- task that identifies miners, and the ids of the networks whose changes were announced.
pub record World {B : Bitcoin} {E : Crates} (P : DiGraph (HeaderInfo B)) (S : Sqlite B E)
    : Type 0 where
  pub tree : TreeInfo B P
  pub db : S.Db
  pub caches : Caches B
  pub queue : List B.BlockHash
  pub announced : List ℕ

-- Where the task stands, with the local variables that are live there.
pub data Phase (B : Bitcoin) (E : Crates) : Type 0 where
  starting waiting : Phase B E
  fetching : (tips : List ChainTip) → Phase B E
  inserting : (tips : List ChainTip) (headers : List (HeaderInfo B)) → Phase B E
  writing : (tips : List ChainTip) (headers : List (HeaderInfo B)) (tree_changed : Bool) → Phase B E
  publishing : (tips : List ChainTip) (tree_changed : Bool) → Phase B E
  measuring : (tips : List ChainTip) → Phase B E
  stripping : (heights : BTreeSet) → Phase B E
  forking : (header_infos_json : List HeaderInfoJson) → Phase B E
  refreshing : (header_infos_json : List HeaderInfoJson) (forks : List (Fork B)) → Phase B E
  stopped : DbError E → Phase B E

pub record Poller (B : Bitcoin) (E : Crates) : Type 0 where
  pub last_tips : List ChainTip
  pub phase : Phase B E

-- What the surroundings answer during a step: the node, the clock, and the order of a hash map.
pub record Answers (B : Bitcoin) (E : Crates) : Type 0 where
  pub node : Node B E
  pub versions : ℕ → Result (FetchError E) String
  pub is_json_rpc : E.RpcError → Bool
  pub order : Order
  pub now : Clock

-- `insert` of the height of each tip
add_heights : List ChainTip → BTreeSet → BTreeSet
add_heights [] heights = heights
add_heights (tip ∷ tips) heights = add_heights tips (BTree.add tip.height heights)

module _ {B : Bitcoin} {E : Crates} (network : Network) (a : Answers B E) where
  abbrev pub node_id : ℕ
  node_id = a.node.info.id

  abbrev pub update : CacheUpdate B → Caches B → Option (Caches B)
  update u caches = update_cache a.order a.now network.id u caches

  -- `is_node_reachable` and, if that differs, the update of the reachability. No other task writes
  -- the reachability of the node.
  pub mark_reachable : Bool → Caches B → Option (Caches B)
  mark_reachable r caches = is_node_reachable network.id node_id caches >>= λ was.
      if (if r then not was else was)
      then update (node_reachability node_id r) caches
      else some caches

module _ {B : Bitcoin} {E : Crates} {P : DiGraph (HeaderInfo B)} (W : Walk P) (S : Sqlite B E)
    (network : Network) (a : Answers B E) where
  abbrev pub Outcome : Type 0
  Outcome = Option (Poller B E × World P S)

  pub load_version : Poller B E → World P S → Outcome
  load_version p w = do
    let version = load_node_version a.is_json_rpc a.versions
    caches ← update network a (node_version (node_id network a) version) w.caches
    some (record p { phase = waiting }, record w { caches = caches })

  -- What follows an answer to `tips`
  pub tips_answered : Result (FetchError E) (List ChainTip) → Poller B E → World P S → Outcome
  tips_answered (err e) p w = do
    caches ← mark_reachable network a false w.caches
    some (record p { phase = waiting }, record w { caches = caches })
  tips_answered (ok tips) p w = do
    caches ← mark_reachable network a true w.caches
    let phase = if same_tips p.last_tips tips then waiting else fetching tips
    some (record p { phase = phase }, record w { caches = caches })

  -- After the headers are loaded, `insert_new_headers_into_tree` is skipped if there are none.
  pub after_fetch : List ChainTip → List (HeaderInfo B) → Phase B E
  after_fetch tips [] = publishing tips false
  after_fetch tips (h ∷ hs) = inserting tips (h ∷ hs)

  -- What follows a result of `new_headers`
  pub headers_fetched :
      List ChainTip
      → Fetch E (List (HeaderInfo B) × List B.BlockHash)
      → Poller B E
      → World P S
      → Outcome
  headers_fetched tips (err (fetch e)) p w = some (record p { phase = waiting }, w)
  headers_fetched tips (err panicked) p w = none
  headers_fetched tips (err out_of_fuel) p w = none
  headers_fetched tips (ok (headers, miners_needed)) p w = some (
    record { last_tips = tips; phase = after_fetch tips headers },
    record w { queue = w.queue ++ miners_needed },
  )

  pub insert_headers : List ChainTip → List (HeaderInfo B) → Poller B E → World P S → Outcome
  insert_headers tips headers p w = do
    inserted ← insert_new_headers_into_tree w.tree headers
    some (record p { phase = writing tips headers inserted.1 }, record w { tree = inserted.0 })

  -- What follows a result of `write_to_db`
  pub headers_written :
      List ChainTip → Bool → Result (DbError E) S.Db → Poller B E → World P S → Outcome
  headers_written tips changed (err e) p w = some (record p { phase = stopped e }, w)
  headers_written tips changed (ok db) p w =
      some (record p { phase = publishing tips changed }, record w { db = db })

  pub publish_tips : List ChainTip → Bool → Poller B E → World P S → Outcome
  publish_tips tips changed p w = do
    caches ← update network a (node_tips (node_id network a) tips) w.caches
    some (
      record p { phase = if changed then measuring tips else waiting },
      record w { caches = caches },
    )

  pub measure_tips : List ChainTip → Poller B E → World P S → Outcome
  measure_tips tips p w = do
    heights ← tip_heights network.id w.caches
    some (record p { phase = stripping (add_heights tips heights) }, w)

  pub strip : BTreeSet → Poller B E → World P S → Outcome
  strip heights p w = do
    headers ← strip_tree W w.tree network.max_interesting_heights heights
    some (record p { phase = forking headers }, w)

  pub find_forks : List HeaderInfoJson → Poller B E → World P S → Outcome
  find_forks headers p w = do
    forks ← recent_forks W w.tree max_forks_in_cache
    some (record p { phase = refreshing headers forks }, w)

  pub refresh : List HeaderInfoJson → List (Fork B) → Poller B E → World P S → Outcome
  refresh headers forks p w = do
    caches ← update network a (header_tree headers forks) w.caches
    some (
      record p { phase = waiting },
      record w { caches = caches; announced = w.announced ++ network.id ∷ [] },
    )

  -- The step from each phase to the next. A task that has stopped stays so.
  pub step_of : Phase B E → Poller B E → World P S → Outcome
  step_of starting = load_version
  step_of waiting = tips_answered a.node.tips
  step_of (fetching tips) =
      λ p w. headers_fetched tips (new_headers a.node w.tree tips network.min_fork_height) p w
  step_of (inserting tips headers) = insert_headers tips headers
  step_of (writing tips headers changed) =
      λ p w. headers_written tips changed (write_to_db S headers network.id w.db) p w
  step_of (publishing tips changed) = publish_tips tips changed
  step_of (measuring tips) = measure_tips tips
  step_of (stripping heights) = strip heights
  step_of (forking headers) = find_forks headers
  step_of (refreshing headers forks) = refresh headers forks
  step_of (stopped e) = λ p w. some (p, w)

  pub advance : Poller B E → World P S → Outcome
  advance p w = step_of p.phase p w
