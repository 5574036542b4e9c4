-- ===== src/Tasks/Examples.antt =====
-- The theorems on the interleavings, at the sample network after a first step.
use fork_observer.Prelude.{ℕ, ◌≡◌, ◌≢◌, refl, none, some, [], In, arith}
use fork_observer.Identify
use fork_observer.Identify.{request_unidentified}
use fork_observer.Poll
use fork_observer.Poll.Progress.{TipsAreSound}
use fork_observer.Config.Settings.{Network}
use fork_observer.Db.Keys.{KeepsKeys}
use fork_observer.Prelude.BTree
use fork_observer.Samples.{btc, crates}
use fork_observer.Samples.Running.{
  answers, first_turn, network, table, begun, start, later, reached, btc-HashCommits,
}
use fork_observer.Samples.Table.{list_table}
use fork_observer.Samples.Walking.{list_walk}
use fork_observer.Samples.Weighing.{list_weights}
use fork_observer.Startup.Started.{ids_of, Started-HasHeader}
use fork_observer.Tasks.{poll}
use fork_observer.Tasks.Elsewhere.{TaskStep-elsewhere}
use fork_observer.Tasks.Panics.{reached_never_panics}
use fork_observer.Tasks.Persisted.{Accounted, reached_persisted}
use fork_observer.Tasks.Refinement.{Learns, reached-Learns}
use fork_observer.Tree.{nodes}
use fork_observer.Tree.Indexed.{IsIndexed}
use fork_observer.Tree.View.{view}
use fork_observer.Types.{HeaderInfo}

reached_persisted_example :
    IsIndexed later.world.tree
    × ((h : HeaderInfo btc) → In h (nodes later.world.tree) → Accounted list_table network later h)
reached_persisted_example =
    reached_persisted list_walk list_weights list_table network begun.2.forest.indexed refl
      (λ h m. Started-HasHeader list_walk list_table network table begun.0 h begun.2 m) reached

reached_never_panics_example :
    ((i : ℕ) (a : Poll.Answers btc crates)
      → In a.node.info.id (ids_of network)
      → TipsAreSound (later.pollers i).phase
      → Poll.advance list_walk list_table network a (later.pollers i) later.world ≢ none)
    × ((a : Identify.Answers btc crates)
        → Identify.advance list_weights list_table network a later.identifier later.world ≢ none)
    × (request_unidentified list_table network later.world ≢ none)
reached_never_panics_example =
    reached_never_panics list_walk list_weights list_table network (ids_of network) btc-HashCommits
      begun.2.forest refl begun.2.holds (omega arith) reached

reached-Learns_example :
    Learns start.world.tree later.world.tree
    × ((hash h : btc.BlockHash)
        → view start.world.tree hash ≡ some h
        → view later.world.tree hash ≡ some h)
reached-Learns_example =
    reached-Learns list_walk list_weights list_table network (ids_of network) btc-HashCommits
      begun.2.forest refl begun.2.holds reached

-- Another network
abbrev testnet : Network
testnet = record network { id = 2 }

apart : testnet.id ≢ network.id
apart e = absurd (omega (arith, e))

TaskStep-elsewhere_example :
    KeepsKeys list_table start.world.db later.world.db
    × (BTree.get testnet.id later.world.caches ≡ BTree.get testnet.id start.world.caches)
TaskStep-elsewhere_example =
    TaskStep-elsewhere list_walk list_weights list_table testnet network {s = start} {t = later}
      apart begun.2.forest tt (poll 0 (answers []) first_turn.0.0 first_turn.0.1 first_turn.1 refl)
