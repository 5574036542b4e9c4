-- ===== src/Tasks/Elsewhere.antt =====
-- What the tasks of src/main.rs of one network do to another: they share the database and the caches.
use fork_observer.Prelude.{ℕ, ◌≡◌, ◌≢◌, sym, ap, subst, ◌∙◌, inl, inr}
use fork_observer.Prelude.BTree
use fork_observer.Bitcoin.{Bitcoin}
use fork_observer.Cache.Frame.{update_cache-frame}
use fork_observer.Config.Settings.{Network}
use fork_observer.Db.{Sqlite}
use fork_observer.Db.Keys.{KeepsKeys}
use fork_observer.Errors.{Crates}
use fork_observer.Identify.Effect as Identified
use fork_observer.Identify.Effect.{InPlace, request_unidentified_same}
use fork_observer.Identify.Moves as IdentifyMoves
use fork_observer.Petgraph.{DiGraph}
use fork_observer.Petgraph.Walk.{Walk}
use fork_observer.Petgraph.Weights.{Weights}
use fork_observer.Poll.Effect as Polled
use fork_observer.Poll.Moves.{CachesMove, advance-Moves}
use fork_observer.Tasks.{System, TaskStep, poll, identify, request}
use fork_observer.Tree.Parents.{IsForest}
use fork_observer.Types.{HeaderInfo, Caches}

-- A move of the caches of one network leaves the cache of another alone.
CachesMove-other :
    {B : Bitcoin} (id other : ℕ) (cs cs' : Caches B)
    → id ≢ other
    → CachesMove other cs cs'
    → BTree.get id cs' ≡ BTree.get id cs
CachesMove-other id other cs cs' apart (inl same) = ap (BTree.get id) same
CachesMove-other id other cs cs' apart (inr (order, now, u, done)) =
    elim (update_cache-frame order now other u cs) [
      | inl (missing, panics) ↦ absurd (cc)
      | inr (c, there, (after, updated)) ↦
          let same : after ≡ cs' = cc (updated.runs, done) in
          subst (λ x. BTree.get id x ≡ BTree.get id cs) same (updated.others id apart)
    ]

module _ {B : Bitcoin} {E : Crates} {P : DiGraph (HeaderInfo B)} (W : Walk P) (G : Weights P)
    (S : Sqlite B E) (network other : Network) where
  -- A step of a task of one network is, for another network, the step `elsewhere`: it removes no
  -- primary key from the table and leaves the other network's cache alone, if the tree of the
  -- network of the task is a forest with the header of its identification in place.
  pub TaskStep-elsewhere :
      {s t : System P S}
      → network.id ≢ other.id
      → IsForest s.world.tree
      → InPlace s.world.tree s.identifier
      → TaskStep W G S other s t
      → KeepsKeys S s.world.db t.world.db
        × (BTree.get network.id t.world.caches ≡ BTree.get network.id s.world.caches)
  TaskStep-elsewhere {s} {t} apart forest here (poll i a p w runs e) =
      let effect = Polled.advance-Effect W S other a (s.pollers i) p s.world w runs in
      let (moved_caches, _) = advance-Moves W S other a (s.pollers i) p s.world w runs in
      let same = ap (λ x. x.world) (sym e) in
      (
        subst (λ x. KeepsKeys S s.world.db x.db) same effect.keys,
        ap (λ x. BTree.get network.id x.caches) (sym same)
            ∙ CachesMove-other network.id other.id s.world.caches w.caches apart moved_caches,
      )
  TaskStep-elsewhere {s} {t} apart forest here (identify a phase w runs e) =
      let effect =
        Identified.advance-Effect G S other a s.world w phase forest.indexed s.identifier here
          runs in
      let (moved_caches, _, _) =
        IdentifyMoves.advance-Moves G S other a s.world w phase forest s.identifier here runs in
      let same = ap (λ x. x.world) (sym e) in
      (
        subst (λ x. KeepsKeys S s.world.db x.db) same effect.keys,
        ap (λ x. BTree.get network.id x.caches) (sym same)
            ∙ CachesMove-other network.id other.id s.world.caches w.caches apart moved_caches,
      )
  TaskStep-elsewhere {s} {t} apart forest here (request w runs e) =
      let (_, same_db, same_caches) = request_unidentified_same S other s.world w runs in
      let same = ap (λ x. x.world) (sym e) in
      (
        subst (λ x. KeepsKeys S s.world.db x.db) same
            (subst (KeepsKeys S s.world.db) (sym same_db) (λ r k. k)),
        ap (λ x. BTree.get network.id x.caches) (sym same) ∙ ap (BTree.get network.id) same_caches,
      )
