-- ===== src/Cache/Frame.antt =====
-- What an update of the caches leaves alone, and when it panics (`update_cache` of src/main.rs).
use fork_observer.Prelude.{ℕ, ◌≡◌, ◌≢◌, ◌⊎◌, refl, inl, inr, none, some, arith, Option-cases}
use fork_observer.Prelude.BTree
use fork_observer.Bitcoin.{Bitcoin}
use fork_observer.Types.{Clock, Cache, Caches}
use fork_observer.Cache.{Order, CacheUpdate, apply_update, update_cache}

module _ {B : Bitcoin} (order : Order) (now : Clock) (network_id : ℕ) (update : CacheUpdate B)
    (caches : Caches B) where
  -- An update of the network, whose cache is `c`, led to the caches `after`.
  pub record Updated (c : Cache B) (after : Caches B) : Type 0 where
    pub runs : update_cache order now network_id update caches ≡ some after
    pub same_networks : BTree.keys after ≡ BTree.keys caches
    pub updated : BTree.get network_id after ≡ some (apply_update order now update c)
    pub others : (i : ℕ) → i ≢ network_id → BTree.get i after ≡ BTree.get i caches

  -- An update panics exactly if the caches do not hold the network. Otherwise it replaces the
  -- cache of that network by the updated one, leaves the cache of each other network as it was,
  -- and adds and removes no network.
  pub update_cache-frame :
      (BTree.get network_id caches ≡ none)
        × (update_cache order now network_id update caches ≡ none)
      ⊎ ((c : Cache B) × (BTree.get network_id caches ≡ some c)
          × ((after : Caches B) × Updated c after))
  unfolding update_cache
  update_cache-frame = elim (Option-cases (BTree.get network_id caches)) [
    | inl e ↦ inl (e, rw e)
    | inr (c, h) ↦
        let f : Cache B → Cache B = apply_update order now update in
        inr (
          c,
          h,
          (
            BTree.and_modify network_id f caches,
            record {
              runs = rw h;
              same_networks = BTree.keys-and_modify network_id f caches;
              updated = ground (arith, BTree.get-and_modify network_id network_id f caches);
              others = λ i ne. ground (arith, BTree.get-and_modify network_id i f caches);
            },
          ),
        )
  ]

  -- The caches after an update of a cache that is there
  pub update_cache-updated :
      (c : Cache B)
      → BTree.get network_id caches ≡ some c
      → (after : Caches B) × (update_cache order now network_id update caches ≡ some after)
        × (BTree.get network_id after ≡ some (apply_update order now update c))
  unfolding update_cache
  update_cache-updated c there =
      let f : Cache B → Cache B = apply_update order now update in
      (
        BTree.and_modify network_id f caches,
        rw there refl,
        ground (arith, there, BTree.get-and_modify network_id network_id f caches),
      )
