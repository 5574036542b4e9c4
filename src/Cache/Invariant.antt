-- ===== src/Cache/Invariant.antt =====
-- What holds of the caches of src/main.rs at all times, whatever the tasks do.
use fork_observer.Prelude.{
  ℕ, ◌≤◌, ◌≡◌, refl, sym, subst, ◌∙◌, inl, inr, String, some, List, [], ◌∷◌, arith, length,
  length-append, Option-cases,
}
use fork_observer.Prelude.BTree
use fork_observer.Prelude.BTree.{
  BTreeMap, Entries, Entries-insert, Entries-and_modify, IsAscending, add-IsAscending,
}
use fork_observer.Bitcoin.{Bitcoin}
use fork_observer.Types.{
  NodeInfo, NodeDataJson, node_data_json, set_reachable, set_version, set_tips, Clock,
  HeaderInfoJson, Fork, Cache, Caches,
}
use fork_observer.Cache.{
  Order, CacheUpdate, header_miner, header_tree, node_tips, node_reachability, node_version,
  push_recent, modify_node, apply_update, update_cache, initial_node_data, initial_cache,
}
use fork_observer.Cache.Steps.{Step, populate, update, Reach, here, next}

abbrev pub IsNamed : ℕ → NodeDataJson → Type 0
IsNamed k n = n.id ≡ k

-- At most five recent miners are kept, the nodes are in the order of their ids, each id once, and
-- the entry of each node carries the node's id.
pub record IsValid {B : Bitcoin} (c : Cache B) : Type 0 where
  pub few_miners : length c.recent_miners ≤ 5
  pub ordered : IsAscending (BTree.keys c.node_data)
  pub named : Entries IsNamed c.node_data

length-push_recent-le :
    (e : String × String) (ms : List (String × String))
    → length ms ≤ 5
    → length (push_recent e ms) ≤ 5
unfolding push_recent
length-push_recent-le e [] h = ground arith
length-push_recent-le e (m ∷ ms) h = ground (arith, length-append ms (e ∷ []))

initial_node_data-IsNamed :
    (infos : List NodeInfo) (m : BTreeMap NodeDataJson)
    → Entries IsNamed m
    → Entries IsNamed (initial_node_data infos m)
unfolding initial_node_data node_data_json
initial_node_data-IsNamed [] m h = h
initial_node_data-IsNamed (info ∷ infos) m h =
    initial_node_data-IsNamed infos _ (Entries-insert IsNamed info.id _ m refl h)

initial_node_data-IsAscending :
    (infos : List NodeInfo) (m : BTreeMap NodeDataJson)
    → IsAscending (BTree.keys m)
    → IsAscending (BTree.keys (initial_node_data infos m))
unfolding initial_node_data
initial_node_data-IsAscending [] m h = h
initial_node_data-IsAscending (info ∷ infos) m h =
    initial_node_data-IsAscending infos _
      (subst IsAscending (sym (BTree.keys-insert info.id _ m)) (add-IsAscending info.id _ h))

module _ {B : Bitcoin} where
  modify_node-IsValid :
      (id : ℕ) (f : NodeDataJson → NodeDataJson) (c : Cache B)
      → ((n : NodeDataJson) → (f n).id ≡ n.id)
      → IsValid c
      → IsValid (modify_node id f c)
  unfolding modify_node
  modify_node-IsValid id f c same v = record {
    few_miners = v.few_miners;
    ordered = subst IsAscending (sym (BTree.keys-and_modify id f c.node_data)) v.ordered;
    named = Entries-and_modify IsNamed id f c.node_data (λ n h. same n ∙ h) v.named;
  }

  apply_update-IsValid :
      (order : Order) (now : Clock) (u : CacheUpdate B) (c : Cache B)
      → IsValid c
      → IsValid (apply_update order now u c)
  unfolding apply_update set_tips set_reachable set_version
  apply_update-IsValid order now (header_miner hi) c v = record {
    few_miners = length-push_recent-le _ c.recent_miners v.few_miners;
    ordered = v.ordered;
    named = v.named;
  }
  apply_update-IsValid order now (header_tree hs forks) c v = record {
    few_miners = v.few_miners;
    ordered = v.ordered;
    named = v.named;
  }
  apply_update-IsValid order now (node_tips id tips) c v = modify_node-IsValid id _ c (λ n. refl) v
  apply_update-IsValid order now (node_reachability id r) c v =
      modify_node-IsValid id _ c (λ n. refl) v
  apply_update-IsValid order now (node_version id version) c v =
      modify_node-IsValid id _ c (λ n. refl) v

  pub keys-apply_update :
      (order : Order) (now : Clock) (u : CacheUpdate B) (c : Cache B)
      → BTree.keys (apply_update order now u c).node_data ≡ BTree.keys c.node_data
  unfolding apply_update
  keys-apply_update order now (header_miner hi) c = refl
  keys-apply_update order now (header_tree hs forks) c = refl
  keys-apply_update order now (node_tips id tips) c = BTree.keys-and_modify id _ c.node_data
  keys-apply_update order now (node_reachability id r) c = BTree.keys-and_modify id _ c.node_data
  keys-apply_update order now (node_version id version) c = BTree.keys-and_modify id _ c.node_data

  initial_cache-IsValid :
      (infos : List NodeInfo) (hij : List HeaderInfoJson) (forks : List (Fork B))
      → IsValid (initial_cache infos hij forks)
  unfolding initial_cache
  initial_cache-IsValid infos hij forks = record {
    few_miners = omega arith;
    ordered = initial_node_data-IsAscending infos [] tt;
    named = initial_node_data-IsNamed infos [] tt;
  }

  abbrev AllValid : Caches B → Type 0
  AllValid = Entries (λ _ c. IsValid c)

  pub get-update_cache :
      (order : Order) (now : Clock) (id : ℕ) (u : CacheUpdate B) (before after : Caches B)
      → update_cache order now id u before ≡ some after
      → (c : Cache B) × (BTree.get id before ≡ some c)
        × (after ≡ BTree.and_modify id (apply_update order now u) before)
  unfolding update_cache
  get-update_cache order now id u before after h = elim (Option-cases (BTree.get id before)) [
    | inl e ↦ absurd (ground arith)
    | inr (c, e) ↦ (c, e, ground arith)
  ]

  Step-AllValid : {before after : Caches B} → Step before after → AllValid before → AllValid after
  Step-AllValid {before} (populate id infos hij forks fresh e) v =
      subst AllValid (sym e)
        (Entries-insert _ id _ before (initial_cache-IsValid infos hij forks) v)
  Step-AllValid {before} {after} (update order now id u e) v =
      let (c, found, changed) = get-update_cache order now id u before after e in
      subst AllValid (sym changed)
        (Entries-and_modify _ id _ before (apply_update-IsValid order now u) v)

  Reach-AllValid : {cs : Caches B} → Reach [] cs → AllValid cs
  Reach-AllValid here = tt
  Reach-AllValid (next r s) = Step-AllValid s (Reach-AllValid r)

  -- In every reachable state each cache is valid: it keeps at most five recent miners, its nodes
  -- are in the order of their ids, each id once, and each entry carries the id of its node.
  pub Reach-IsValid :
      {cs : Caches B} (network_id : ℕ) (c : Cache B)
      → Reach [] cs
      → BTree.get network_id cs ≡ some c
      → IsValid c
  Reach-IsValid {cs} id c r e = BTree.Entries-get _ id c cs (Reach-AllValid r) e
