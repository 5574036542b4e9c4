-- ===== src/Tasks/Panics.antt =====
-- No task of a network panics, whatever the interleaving: the `expect`s and the indexing on the paths
-- of the tasks of src/main.rs hold in every reachable state.
use fork_observer.Prelude.{ℕ, ◌^◌, ◌<◌, ◌≡◌, ◌≢◌, sym, subst, ◌∙◌, inl, inr, none, List, In}
use fork_observer.Prelude.BTree
use fork_observer.Bitcoin.{Bitcoin}
use fork_observer.Cache.Panics.{Holds, Step-Holds}
use fork_observer.Cache.Steps.{update}
use fork_observer.Config.Settings.{Network}
use fork_observer.Db.{Sqlite}
use fork_observer.Errors.{Crates}
use fork_observer.Identify
use fork_observer.Identify.{request_unidentified}
use fork_observer.Identify.Effect as Identified
use fork_observer.Identify.Effect.{InPlace, request_unidentified_same}
use fork_observer.Identify.Moves as IdentifyMoves
use fork_observer.Identify.Progress as IdentifyProgress
use fork_observer.Petgraph.{DiGraph}
use fork_observer.Petgraph.Walk.{Walk}
use fork_observer.Petgraph.Weights.{Weights}
use fork_observer.Poll
use fork_observer.Poll.{World, Poller}
use fork_observer.Poll.Effect as Polled
use fork_observer.Poll.Moves.{CachesMove, TreeMove, advance-Moves}
use fork_observer.Poll.Progress.{TipsAreSound, advance_runs}
use fork_observer.Tasks.{System, Step, task, poll, identify, request, elsewhere, Reach, here, next}
use fork_observer.Tasks.Persisted.{kept-InPlace}
use fork_observer.Tree.{TreeInfo}
use fork_observer.Tree.Links.{HashCommits}
use fork_observer.Tree.Parents.{IsForest, insert_new_headers_into_tree-IsForest}
use fork_observer.Types.{HeaderInfo, Caches}

module _ {B : Bitcoin} (id : ℕ) (nodes : List ℕ) where
  CachesMove-Holds :
      (cs cs' : Caches B) → CachesMove id cs cs' → Holds id nodes cs → Holds id nodes cs'
  CachesMove-Holds cs cs' (inl same) h = subst (Holds id nodes) (sym same) h
  CachesMove-Holds cs cs' (inr (order, now, u, done)) h =
      Step-Holds id nodes (update order now id u done) h

  Holds-same :
      (cs cs' : Caches B)
      → BTree.get id cs' ≡ BTree.get id cs
      → Holds id nodes cs
      → Holds id nodes cs'
  Holds-same cs cs' same h = record {
    cache = h.cache;
    found = same ∙ h.found;
    node_ids = h.node_ids;
  }

module _ {B : Bitcoin} {P : DiGraph (HeaderInfo B)} (commits : HashCommits B) where
  TreeMove-IsForest : (t t' : TreeInfo B P) → TreeMove t t' → IsForest t → IsForest t'
  TreeMove-IsForest t t' (inl same) v = subst IsForest (sym same) v
  TreeMove-IsForest t t' (inr (hs, changed, runs)) v =
      insert_new_headers_into_tree-IsForest commits hs t t' changed v runs

module _ {B : Bitcoin} {E : Crates} {P : DiGraph (HeaderInfo B)} (W : Walk P) (G : Weights P)
    (S : Sqlite B E) (network : Network) (ids : List ℕ) (commits : HashCommits B) where
  pub record IsSafe (s : System P S) : Type 0 where
    pub forest : IsForest s.world.tree
    pub in_place : InPlace s.world.tree s.identifier
    pub holds : Holds network.id ids s.world.caches

  Step-IsSafe : {s t : System P S} → Step W G S network s t → IsSafe s → IsSafe t
  Step-IsSafe {s} (task (poll i a p w runs e)) v =
      let (caches, tree) = advance-Moves W S network a (s.pollers i) p s.world w runs in
      let effect = Polled.advance-Effect W S network a (s.pollers i) p s.world w runs in
      subst IsSafe (sym e) (record {
        forest = TreeMove-IsForest commits s.world.tree w.tree tree v.forest;
        in_place =
            kept-InPlace S network s.world.tree w.tree s.identifier (effect.kept v.forest.indexed)
              v.in_place;
        holds = CachesMove-Holds network.id ids s.world.caches w.caches caches v.holds;
      })
  Step-IsSafe {s} (task (identify a phase w runs e)) v =
      let (caches, forest, same_view) =
        IdentifyMoves.advance-Moves G S network a s.world w phase v.forest s.identifier v.in_place
          runs in
      let effect =
        Identified.advance-Effect G S network a s.world w phase v.forest.indexed s.identifier
          v.in_place runs in
      subst IsSafe (sym e) (record {
        forest = forest;
        in_place = effect.in_place;
        holds = CachesMove-Holds network.id ids s.world.caches w.caches caches v.holds;
      })
  Step-IsSafe {s} (task (request w runs e)) v =
      let (t, d, c) = request_unidentified_same S network s.world w runs in
      subst IsSafe (sym e) (record {
        forest = subst IsForest (sym t) v.forest;
        in_place = subst (λ x. InPlace x s.identifier) (sym t) v.in_place;
        holds = subst (Holds network.id ids) (sym c) v.holds;
      })
  Step-IsSafe {s} (elsewhere db caches keeps same e) v = subst IsSafe (sym e) (record {
    forest = v.forest;
    in_place = v.in_place;
    holds = Holds-same network.id ids s.world.caches caches same v.holds;
  })

  pub Reach-IsSafe : {start s : System P S} → Reach W G S network start s → IsSafe start → IsSafe s
  Reach-IsSafe here v = v
  Reach-IsSafe (next r step) v = Step-IsSafe step (Reach-IsSafe r v)

  -- From a start in which the tree is a forest, no miner is being identified and the cache of the
  -- network has the nodes `ids`, where block hashes commit to the previous block, no interleaving
  -- leads to a state in which a task panics: the next step of each polling task of such a node has
  -- a result, if the tips whose headers it is about to load have well-formed hashes and 63-bit
  -- heights, as has the next step of the task that identifies miners, and the one-shot request.
  pub reached_never_panics :
      {start s : System P S}
      → IsForest start.world.tree
      → start.identifier ≡ Identify.receiving
      → Holds network.id ids start.world.caches
      → network.min_fork_height < 2 ^ 63
      → Reach W G S network start s
      → ((i : ℕ) (a : Poll.Answers B E)
          → In a.node.info.id ids
          → TipsAreSound (s.pollers i).phase
          → Poll.advance W S network a (s.pollers i) s.world ≢ none)
        × ((a : Identify.Answers B E) → Identify.advance G S network a s.identifier s.world ≢ none)
        × (request_unidentified S network s.world ≢ none)
  reached_never_panics {start} {s} forest idle holds low r =
      let v = Reach-IsSafe r (record {
        forest = forest;
        in_place = subst (InPlace start.world.tree) (sym idle) tt;
        holds = holds;
      }) in
      (
        λ i a listed sound.
            advance_runs W S network a (s.pollers i) s.world ids listed v.holds v.forest low sound,
        λ a.
            IdentifyProgress.advance_runs G S network a s.world ids v.forest.indexed v.holds
              s.identifier,
        IdentifyProgress.request_unidentified_runs S network s.world ids v.holds,
      )
