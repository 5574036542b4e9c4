-- ===== src/Startup.antt =====
-- `startup`, `populate_cache` and the part of `main` in src/main.rs that starts the tasks of a network;
-- `setup_db` of src/db.rs. `none` stands for a panic.
pub mod Started
mod Examples
use fork_observer.Prelude.{ℕ, String, Option, some, List, [], map}
use fork_observer.Prelude.BTree
use fork_observer.Prelude.Options.{◌>>=◌}
use fork_observer.Prelude.Results.{Result, ok, err, map_err}
use fork_observer.Bitcoin.{Bitcoin}
use fork_observer.Cache.{initial_cache}
use fork_observer.Config.Settings.{Network, Config, Host, node_info}
use fork_observer.Db.{Sqlite, load_header_infos}
use fork_observer.Errors.{Crates, ConfigError, DbError, rusqlite, MainError, config, db}
use fork_observer.Headertree.Forks.{recent_forks}
use fork_observer.Headertree.Strip.{strip_tree}
use fork_observer.Identify
use fork_observer.Petgraph.{DiGraph}
use fork_observer.Petgraph.Walk.{Walk}
use fork_observer.Poll
use fork_observer.Poll.{World, Poller, max_forks_in_cache}
use fork_observer.Tasks.{System}
use fork_observer.Tree.{TreeInfo, load_treeinfos}
use fork_observer.Types.{HeaderInfo, Caches}

-- `Connection::open`, and the execution of `CREATE TABLE IF NOT EXISTS headers`
pub record Opening {B : Bitcoin} {E : Crates} (S : Sqlite B E) : Type 0 where
  pub open_path : String → Result E.RusqliteError S.Db
  pub create_table : S.Db → Result E.RusqliteError S.Db

module _ {B : Bitcoin} {E : Crates} {S : Sqlite B E} (O : Opening S) where
  pub setup_db : S.Db → Result (DbError E) S.Db
  setup_db d = map_err rusqlite (O.create_table d)

  -- What follows a result of `setup_db`, with the empty caches
  pub database_ready :
      {H : Host E}
      → Config H
      → Result (DbError E) S.Db
      → Result (MainError E) (Config H × S.Db × Caches B)
  database_ready configuration (err e) = err (db e)
  database_ready configuration (ok d) = ok (configuration, d, [])

  -- What follows a result of `Connection::open`
  pub database_opened :
      {H : Host E}
      → Config H
      → Result E.RusqliteError S.Db
      → Result (MainError E) (Config H × S.Db × Caches B)
  database_opened configuration (err e) = err (db (rusqlite e))
  database_opened configuration (ok d) = database_ready configuration (setup_db d)

  -- `startup`, from the result of `load_config`
  pub startup :
      {H : Host E}
      → Result (ConfigError E) (Config H)
      → Result (MainError E) (Config H × S.Db × Caches B)
  startup (err e) = err (config e)
  startup (ok configuration) =
      database_opened configuration (O.open_path configuration.database_path)

module _ {B : Bitcoin} {P : DiGraph (HeaderInfo B)} (W : Walk P) (network : Network) where
  pub populate_cache : TreeInfo B P → Caches B → Option (Caches B)
  populate_cache tree caches = do
    forks ← recent_forks W tree max_forks_in_cache
    hij ← strip_tree W tree network.max_interesting_heights []
    some (BTree.insert network.id (initial_cache (map node_info network.nodes) hij forks) caches)

module _ {B : Bitcoin} {E : Crates} {P : DiGraph (HeaderInfo B)} (W : Walk P) (S : Sqlite B E)
    (network : Network) where
  -- What the tasks of the network share at first, given the headers from the database
  pub loaded : S.Db → Caches B → List (HeaderInfo B) → Option (World P S)
  loaded d caches infos = do
    tree ← load_treeinfos infos
    populated ← populate_cache W network tree caches
    some (record { tree = tree; db = d; caches = populated; queue = []; announced = [] })

  headers_loaded :
      S.Db
      → Caches B
      → Result (DbError E) (List (HeaderInfo B))
      → Option (Result (MainError E) (World P S))
  headers_loaded d caches (err e) = some (err (db e))
  headers_loaded d caches (ok infos) = do w ← loaded d caches infos; some (ok w)

  -- The body of the loop over the networks, up to the tasks
  pub start_network : S.Db → Caches B → Option (Result (MainError E) (World P S))
  unfolding headers_loaded
  start_network d caches = headers_loaded d caches (load_header_infos S network.id d)

abbrev pub new_poller : {B : Bitcoin} {E : Crates} → Poller B E
new_poller = record { last_tips = []; phase = Poll.starting }

-- The tasks of the network before their first step
abbrev pub new_system :
    {B : Bitcoin} {E : Crates} {P : DiGraph (HeaderInfo B)} {S : Sqlite B E}
    → World P S
    → System P S
new_system w = record { world = w; pollers = λ i. new_poller; identifier = Identify.receiving }
