-- ===== src/Identify/Agree.antt =====
-- One identification by the task of src/main.rs, from the question to the nodes to the update of the
-- cache: the tree, the database and the cache agree on the miner afterwards.
use fork_observer.Prelude.{
  ℕ, zero, suc, ◌≡◌, ◌≢◌, ◌⊎◌, refl, inl, inr, String, Option, some, List, map, arith, In, in-map,
  get_elem?, str_eq, str_eq_iff, Bool-cases,
}
use fork_observer.Prelude.BTree
use fork_observer.Prelude.Options.{◌>>=◌}
use fork_observer.Prelude.Results.{err, Result-cases}
use fork_observer.Bitcoin.{Bitcoin}
use fork_observer.Cache.{header_miner, apply_update}
use fork_observer.Cache.Frame.{update_cache-updated}
use fork_observer.Cache.Identified.{apply_update-header_miner}
use fork_observer.Cache.Miners.{DistinctHashes}
use fork_observer.Config.Settings.{Network}
use fork_observer.Db.{Row, Sqlite, put_miner, update_miner}
use fork_observer.Db.Stored.{rows-update_miner}
use fork_observer.Errors.{Crates, DbError}
use fork_observer.Identify.{
  Phase, receiving, asking, storing, Answers, identify, store, persisted, cache_miner, advance,
}
use fork_observer.Identify.Effect.{HeaderAt, relabelled, at_self, at_other}
use fork_observer.Petgraph.{DiGraph}
use fork_observer.Petgraph.Weights.{Weights}
use fork_observer.Poll.{World}
use fork_observer.Tree.{TreeInfo, nodes}
use fork_observer.Types.{HeaderInfo, HeaderInfoJson, Cache, hash_of, set_miner}

-- After the update of a miner, the rows with the hash have it.
put_miner-labelled :
    (miner hash : String) (rows : List Row) (r : Row)
    → In r (map (put_miner miner hash) rows)
    → r.hash ≡ hash
    → r.miner ≡ miner
put_miner-labelled miner hash rows r m e =
    let (s, _, put) = (in-map (put_miner miner hash) r rows).0 m in
    elim (Bool-cases (str_eq s.hash hash)) [
      | inl here ↦ ground (arith, put, here)
      | inr other ↦ absurd (ground (arith, put, other, str_eq_iff s.hash hash, e))
    ]

module _ {B : Bitcoin} {E : Crates} {P : DiGraph (HeaderInfo B)} (G : Weights P) (S : Sqlite B E)
    (network : Network) (a : Answers B E) where
  -- `n` steps of the task
  abbrev pub run : ℕ → Phase B → World P S → Option (Phase B × World P S)
  run zero phase w = some (phase, w)
  run (suc n) phase w = advance G S network a phase w >>= λ r. run n r.0 r.1

  -- The node has the header `h`, whose miner each row of its hash has, unless the update of the
  -- database failed, and the cache shows; the other nodes are as before.
  pub record Agrees (idx : ℕ) (h : HeaderInfo B) (w w' : World P S) : Type 0 where
    pub in_tree : get_elem? (nodes w'.tree) idx ≡ some h
    pub others : (j : ℕ) → idx ≢ j → get_elem? (nodes w'.tree) j ≡ get_elem? (nodes w.tree) j
    pub in_db :
        ((r : Row)
          → In r (S.rows w'.db)
          → r.hash ≡ B.hash_to_string (hash_of h)
          → r.miner ≡ h.miner)
        ⊎ ((w'.db ≡ w.db) × ((f : DbError E) × (update_miner S (hash_of h) h.miner w.db ≡ err f)))
    pub cache : Cache B
    pub found : BTree.get network.id w'.caches ≡ some cache
    pub recent : In (B.hash_to_string (hash_of h), h.miner) cache.recent_miners
    pub shown :
        (g : HeaderInfoJson)
        → In g cache.header_infos_json
        → g.hash ≡ B.hash_to_string (hash_of h)
        → g.miner ≡ h.miner

  module _ (w : World P S) (idx : ℕ) (h : HeaderInfo B) (c : Cache B)
      (cached : BTree.get network.id w.caches ≡ some c)
      (distinct : DistinctHashes c.header_infos_json) where
    -- The last three steps, by the result of the update of the database
    stored_runs :
        (there : HeaderAt w.tree idx h)
        → (w' : World P S) × (run 3 (storing idx h) w ≡ some (receiving, w')) × Agrees idx h w w'
    unfolding advance store persisted cache_miner
    stored_runs there =
        let (after, runs, updated) =
          update_cache-updated a.order a.now network.id (header_miner h) w.caches c cached in
        let (recent, shown) = apply_update-header_miner a.order a.now h c distinct in
        let kept : TreeInfo B P = relabelled G w.tree idx h in
        let rest : (db : S.Db) → World P S =
          λ db. record w { tree = kept; db = db; caches = after } in
        elim (Result-cases (update_miner S (hash_of h) h.miner w.db)) [
          | inl (db, done) ↦ (
            rest db,
            rw (done, runs) refl,
            record {
              in_tree = at_self G w.tree idx h there;
              others = at_other G w.tree idx h there;
              in_db = inl (λ r m same.
                  put_miner-labelled h.miner (B.hash_to_string (hash_of h)) (S.rows w.db) r
                    (rw (← rows-update_miner S (hash_of h) h.miner w.db db done) m) same);
              cache = apply_update a.order a.now (header_miner h) c;
              found = updated;
              recent = recent;
              shown = shown;
            },
          )
          | inr (f, failed) ↦ (
            rest w.db,
            rw (failed, runs) refl,
            record {
              in_tree = at_self G w.tree idx h there;
              others = at_other G w.tree idx h there;
              in_db = inr (refl, (f, failed));
              cache = apply_update a.order a.now (header_miner h) c;
              found = updated;
              recent = recent;
              shown = shown;
            },
          )
        ]

  -- The four steps from the question for the miner of a header in the tree return to the channel
  -- without a panic. Then the node has the miner that the answers of the nodes give, each row of
  -- its hash has it, unless the update of the database failed, and so does the cache: in its
  -- recent miners and at the header, if no two headers of the cache have the same hash. The
  -- other nodes of the tree are as before.
  pub identified-Agrees :
      (w : World P S) (idx : ℕ) (h : HeaderInfo B) (c : Cache B)
      → get_elem? (nodes w.tree) idx ≡ some h
      → BTree.get network.id w.caches ≡ some c
      → DistinctHashes c.header_infos_json
      → (w' : World P S) × (run 4 (asking idx h) w ≡ some (receiving, w'))
        × Agrees idx (identify G S network a h) w w'
  unfolding advance identify set_miner
  identified-Agrees w idx h c at cached distinct =
      stored_runs w idx (identify G S network a h) c cached distinct
        (record { there = h; at_idx = at; same_header = refl; same_height = refl })
