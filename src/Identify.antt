-- ===== src/Identify.antt =====
-- The tasks of src/main.rs that identify miners: the one that serves the channel of block hashes,
-- and the one that asks once, after the start, for the miners of the interesting blocks. A phase is
-- a place between two critical sections, where other tasks may run; `none` stands for a panic.
pub mod Effect
pub mod Progress
pub mod Moves
pub mod Naming
pub mod Agree
mod Examples
use mathlib.Core.Option
use fork_observer.Prelude.{
  ℕ, ◌+◌, ◌-◌, ◌%◌, ◌^◌, Bool, true, false, String, Option, none, some, List, [], ◌∷◌, ◌++◌, map,
  select, get_elem?, str_eq, max, if◌then◌else◌,
}
use fork_observer.Prelude.Options.{◌>>=◌}
use fork_observer.Prelude.Results.{Result, ok, err}
use fork_observer.Bitcoin.{Bitcoin}
use fork_observer.Errors.{Crates, FetchError, DbError}
use fork_observer.Petgraph.{DiGraph}
use fork_observer.Petgraph.Weights.{Weights}
use fork_observer.Types.{Clock, HeaderInfo, set_miner, hash_of}
use fork_observer.Cache.{Order, header_miner, update_cache, tip_heights}
use fork_observer.Config.Settings.{Network}
use fork_observer.Db.{Sqlite, update_miner}
use fork_observer.Headertree.{sorted_interesting_heights}
use fork_observer.Headertree.Strip.{has_height}
use fork_observer.Tree.{TreeInfo, index_of, nodes}
use fork_observer.Poll.{World}

abbrev pub miner_unknown : String
miner_unknown = "Unknown"

-- The miner was not identified yet.
unfoldable pub is_unidentified : {B : Bitcoin} → HeaderInfo B → Bool
is_unidentified h = if str_eq h.miner miner_unknown then true else str_eq h.miner ""

pub pool_name : {Transaction : Type 0} → (Transaction → Option String) → Transaction → String
pool_name identify_pool coinbase = elim (identify_pool coinbase) [
  | none ↦ miner_unknown
  | some name ↦ name
]

module _ {Transaction Failure : Type 0} (identify_pool : Transaction → Option String) where
  -- The miner after the answer of one node
  pub miner_after : Result Failure Transaction → String → String
  miner_after (err e) miner = miner
  miner_after (ok coinbase) miner = pool_name identify_pool coinbase

  -- The loop over the nodes, which answer with the coinbase of the block or an error
  pub ask_nodes : List (Result Failure Transaction) → String → String
  ask_nodes [] miner = miner
  ask_nodes (answer ∷ answers) miner = elim (str_eq (miner_after answer miner) miner_unknown) [
    | true ↦ ask_nodes answers (miner_after answer miner)
    | false ↦ miner_after answer miner
  ]

-- Where the task stands, with the header that it identifies and the index of its node.
pub data Phase (B : Bitcoin) : Type 0 where
  receiving : Phase B
  asking storing : (idx : ℕ) (header_info : HeaderInfo B) → Phase B
  persisting caching : (header_info : HeaderInfo B) → Phase B

-- What the surroundings answer during a step: each node for the coinbase of a block, the clock, and
-- the order of a hash map.
pub record Answers (B : Bitcoin) (E : Crates) : Type 0 where
  pub coinbases : B.BlockHash → List (Result (FetchError E) B.Transaction)
  pub identify_pool : B.Transaction → Option String
  pub order : Order
  pub now : Clock

module _ {B : Bitcoin} {E : Crates} {P : DiGraph (HeaderInfo B)} (G : Weights P) (S : Sqlite B E)
    (network : Network) (a : Answers B E) where
  abbrev pub Outcome : Type 0
  Outcome = Option (Phase B × World P S)

  -- What becomes of a hash, given the index of its node: a hash that the tree does not have and a
  -- block whose miner is known are skipped. Both reads of the tree are in one step, since no other
  -- task changes the index or the header of a node.
  pub look_up : Option ℕ → TreeInfo B P → Option (Phase B)
  look_up none tree = some receiving
  look_up (some idx) tree =
      Option.map (λ h. if is_unidentified h then asking idx h else receiving)
        (get_elem? (nodes tree) idx)

  -- The next hash of the channel; `recv_many` waits if there is none.
  pub receive : List B.BlockHash → World P S → Outcome
  receive [] w = some (receiving, w)
  receive (hash ∷ hashes) w =
      let rest : World P S = record w { queue = hashes } in
      if network.pool_identification.enable
      then Option.map (λ phase. (phase, rest)) (look_up (index_of w.tree hash) w.tree)
      else some (receiving, rest)

  pub identify : HeaderInfo B → HeaderInfo B
  identify h = set_miner (ask_nodes a.identify_pool (a.coinbases (hash_of h)) miner_unknown) h

  pub store : ℕ → HeaderInfo B → World P S → Outcome
  store idx h w = some (
    persisting h,
    record w { tree = record (w.tree) { graph = G.set_weight w.tree.graph idx h } },
  )

  -- What follows a result of `update_miner`: an error is only logged.
  pub persisted : HeaderInfo B → Result (DbError E) S.Db → World P S → Outcome
  persisted h (err e) w = some (caching h, w)
  persisted h (ok db) w = some (caching h, record w { db = db })

  pub cache_miner : HeaderInfo B → World P S → Outcome
  cache_miner h w = do
    caches ← update_cache a.order a.now network.id (header_miner h) w.caches
    some (receiving, record w { caches = caches })

  -- The step from each phase to the next
  pub advance : Phase B → World P S → Outcome
  advance receiving w = receive w.queue w
  advance (asking idx h) w = some (storing idx (identify h), w)
  advance (storing idx h) w = store idx h w
  advance (persisting h) w = persisted h (update_miner S (hash_of h) h.miner w.db) w
  advance (caching h) w = cache_miner h w

-- The block is at an interesting height, or one or two below or one above it.
pub is_wanted : {B : Bitcoin} → List ℕ → HeaderInfo B → Bool
is_wanted heights h =
    if has_height heights h.height
    then true
    else if has_height heights ((h.height + 1) % 2 ^ 64)
    then true
    else if has_height heights ((h.height + 2) % 2 ^ 64)
    then true
    else has_height heights (max h.height 1 - 1)

module _ {B : Bitcoin} {E : Crates} {P : DiGraph (HeaderInfo B)} (S : Sqlite B E)
    (network : Network) where
  -- The one-shot task, after its wait, as one step
  pub request_unidentified : World P S → Option (World P S)
  request_unidentified w = do
    tip_heights ← tip_heights network.id w.caches
    heights ← sorted_interesting_heights w.tree network.max_interesting_heights tip_heights
    let wanted = select (is_wanted heights) (select is_unidentified (nodes w.tree))
    some (record w { queue = w.queue ++ map hash_of wanted })
