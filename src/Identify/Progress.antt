-- ===== src/Identify/Progress.antt =====
-- No step of the tasks of src/main.rs that identify miners panics while their network is in the caches
-- and the index of its tree is correct; and what such a step may change.
use fork_observer.Prelude.{ℕ, ◌≢◌, inl, inr, none, List, [], ◌∷◌, arith, Bool-cases, Option-cases}
use fork_observer.Prelude.Results.{Result, ok, err}
use fork_observer.Bitcoin.{Bitcoin}
use fork_observer.Cache.{header_miner, update_cache, tip_heights}
use fork_observer.Cache.Panics.{Holds, Holds-updates}
use fork_observer.Config.Settings.{Network}
use fork_observer.Db.{Sqlite, update_miner}
use fork_observer.Errors.{Crates, DbError}
use fork_observer.Headertree.{sorted_interesting_heights}
use fork_observer.Headertree.Interesting.{sorted_interesting_heights-Selects}
use fork_observer.Identify.{
  Phase, receiving, asking, storing, persisting, caching, Answers, look_up, receive, store,
  persisted, cache_miner, advance, request_unidentified,
}
use fork_observer.Petgraph.{DiGraph}
use fork_observer.Petgraph.Weights.{Weights}
use fork_observer.Poll.{World}
use fork_observer.Poll.Progress.{some_chain, some-ne-none}
use fork_observer.Tree.{TreeInfo, index_of}
use fork_observer.Tree.Indexed.{IsIndexed}
use fork_observer.Types.{HeaderInfo, hash_of}

module _ {B : Bitcoin} {E : Crates} {P : DiGraph (HeaderInfo B)} (G : Weights P) (S : Sqlite B E)
    (network : Network) (a : Answers B E) (w : World P S) (ids : List ℕ) (v : IsIndexed w.tree)
    (holds : Holds network.id ids w.caches) where
  look_up_runs : (hash : B.BlockHash) → look_up G S network a (index_of w.tree hash) w.tree ≢ none
  unfolding look_up
  look_up_runs hash = elim (Option-cases (index_of w.tree hash)) [
    | inl unknown ↦ rw unknown (some-ne-none _)
    | inr (idx, found) ↦
        let (h, there, _) = v.sound hash idx found in rw (found, there) (some-ne-none _)
  ]

  receive_runs : (queue : List B.BlockHash) → receive G S network a queue w ≢ none
  unfolding receive
  receive_runs [] = some-ne-none _
  receive_runs (hash ∷ hashes) = elim (Bool-cases network.pool_identification.enable) [
    | inl enabled ↦ elim (Option-cases (look_up G S network a (index_of w.tree hash) w.tree)) [
      | inl nothing ↦ absurd (look_up_runs hash nothing)
      | inr (phase, found) ↦ λ e. absurd (ground (arith, e, enabled, found))
    ]
    | inr disabled ↦ λ e. absurd (ground (arith, e, disabled))
  ]

  persisted_runs :
      (h : HeaderInfo B) (result : Result (DbError E) S.Db)
      → persisted G S network a h result w ≢ none
  unfolding persisted
  persisted_runs h (ok db) = some-ne-none _
  persisted_runs h (err f) = some-ne-none _

  pub advance_runs : (phase : Phase B) → advance G S network a phase w ≢ none
  unfolding advance store cache_miner
  advance_runs receiving = receive_runs w.queue
  advance_runs (asking idx h) = some-ne-none _
  advance_runs (storing idx h) = some-ne-none _
  advance_runs (persisting h) = persisted_runs h (update_miner S (hash_of h) h.miner w.db)
  advance_runs (caching h) =
      some_chain (update_cache a.order a.now network.id (header_miner h) w.caches) _
        ((Holds-updates network.id ids w.caches holds).1 a.order a.now (header_miner h))
        (λ c. some-ne-none _)

module _ {B : Bitcoin} {P : DiGraph (HeaderInfo B)} (t : TreeInfo B P) where
  heights_run : (n : ℕ) (tops : List ℕ) → sorted_interesting_heights t n tops ≢ none
  heights_run n tops = elim (sorted_interesting_heights-Selects t n tops) [
    | inl (empty, e) ↦ λ e'. absurd (cc)
    | inr (some_node, (heights, e, greatest)) ↦ λ e'. absurd (cc)
  ]

module _ {B : Bitcoin} {E : Crates} {P : DiGraph (HeaderInfo B)} (S : Sqlite B E)
    (network : Network) (w : World P S) (ids : List ℕ) (holds : Holds network.id ids w.caches) where
  pub request_unidentified_runs : request_unidentified S network w ≢ none
  unfolding request_unidentified
  request_unidentified_runs =
      some_chain (tip_heights network.id w.caches) _ (Holds-updates network.id ids w.caches holds).0
        (λ tops.
          some_chain (sorted_interesting_heights w.tree network.max_interesting_heights tops) _
            (heights_run w.tree network.max_interesting_heights tops) (λ heights. some-ne-none _))
