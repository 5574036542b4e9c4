-- ===== src/Tasks.antt =====
-- The tasks of one network that `main` of src/main.rs spawns, interleaved in any order over what they
-- share: one that polls each node, one that identifies miners, and one that asks for miners once.
-- The tasks of the other networks share the database and the caches; what they do to the tables of
-- headers is to add rows and to set miners, so that no primary key disappears, and they leave the
-- cache of this network alone.
pub mod Elsewhere
pub mod Persisted
pub mod Panics
pub mod Refinement
mod Examples
use fork_observer.Prelude.{ℕ, ◌≡◌, some, ◌==◌, if◌then◌else◌}
use fork_observer.Prelude.BTree
use fork_observer.Bitcoin.{Bitcoin}
use fork_observer.Errors.{Crates}
use fork_observer.Petgraph.{DiGraph}
use fork_observer.Petgraph.Walk.{Walk}
use fork_observer.Petgraph.Weights.{Weights}
use fork_observer.Types.{HeaderInfo, Caches}
use fork_observer.Config.Settings.{Network}
use fork_observer.Db.{Sqlite}
use fork_observer.Db.Keys.{KeepsKeys}
use fork_observer.Identify
use fork_observer.Identify.{request_unidentified}
use fork_observer.Poll
use fork_observer.Poll.{World, Poller}

-- The tasks by the number of their node, with what they share.
pub record System {B : Bitcoin} {E : Crates} (P : DiGraph (HeaderInfo B)) (S : Sqlite B E)
    : Type 0 where
  pub world : World P S
  pub pollers : ℕ → Poller B E
  pub identifier : Identify.Phase B

-- The tasks after one of them has moved
abbrev pub moved : {B : Bitcoin} {E : Crates} → (ℕ → Poller B E) → ℕ → Poller B E → ℕ → Poller B E
moved pollers i p j = if i == j then p else pollers j

module _ {B : Bitcoin} {E : Crates} {P : DiGraph (HeaderInfo B)} (W : Walk P) (G : Weights P)
    (S : Sqlite B E) (network : Network) where
  -- A step of one of the tasks of the network
  pub data TaskStep (s t : System P S) : Type 0 where
    poll :
        (i : ℕ) (a : Poll.Answers B E) (p : Poller B E) (w : World P S)
        → Poll.advance W S network a (s.pollers i) s.world ≡ some (p, w)
        → t ≡ record { world = w; pollers = moved s.pollers i p; identifier = s.identifier }
        → TaskStep s t
    identify :
        (a : Identify.Answers B E) (phase : Identify.Phase B) (w : World P S)
        → Identify.advance G S network a s.identifier s.world ≡ some (phase, w)
        → t ≡ record { world = w; pollers = s.pollers; identifier = phase }
        → TaskStep s t
    request :
        (w : World P S)
        → request_unidentified S network s.world ≡ some w
        → t ≡ record s { world = w }
        → TaskStep s t

  -- Such a step, or steps of the tasks of other networks
  pub data Step (s t : System P S) : Type 0 where
    task : TaskStep s t → Step s t
    elsewhere :
        (db : S.Db) (caches : Caches B)
        → KeepsKeys S s.world.db db
        → BTree.get network.id caches ≡ BTree.get network.id s.world.caches
        → t ≡ record s { world = record (s.world) { db = db; caches = caches } }
        → Step s t

  pub data Reach (start : System P S) : System P S → Type 0 where
    here : Reach start start
    next : {s t : System P S} → Reach start s → Step s t → Reach start t
