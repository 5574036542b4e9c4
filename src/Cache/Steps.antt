-- ===== src/Cache/Steps.antt =====
-- The tasks that `main` of src/main.rs spawns share the caches behind a mutex. Whatever their
-- interleaving, the caches go through a sequence of the steps below: each is one critical section.
-- `main` populates the cache of a network before it spawns the tasks of that network, and once,
-- since the configuration has no network id twice; tasks of other networks may run already.
use fork_observer.Prelude.{ℕ, ◌≡◌, none, some, List}
use fork_observer.Prelude.BTree
use fork_observer.Bitcoin.{Bitcoin}
use fork_observer.Types.{NodeInfo, Clock, HeaderInfoJson, Fork, Caches}
use fork_observer.Cache.{Order, CacheUpdate, update_cache, initial_cache}

pub data Step {B : Bitcoin} (before after : Caches B) : Type 0 where
  populate :
      (network_id : ℕ) (infos : List NodeInfo) (hij : List HeaderInfoJson) (forks : List (Fork B))
      → BTree.get network_id before ≡ none
      → after ≡ BTree.insert network_id (initial_cache infos hij forks) before
      → Step before after
  update :
      (order : Order) (now : Clock) (network_id : ℕ) (u : CacheUpdate B)
      → update_cache order now network_id u before ≡ some after
      → Step before after

pub data Reach {B : Bitcoin} (start : Caches B) : Caches B → Type 0 where
  here : Reach start start
  next : {before after : Caches B} → Reach start before → Step before after → Reach start after
