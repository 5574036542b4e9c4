-- ===== src/Cache/Panics.antt =====
-- The `expect`s of src/main.rs on the caches: none fails once the network is populated.
use fork_observer.Prelude.{
  ℕ, ◌≡◌, ◌≢◌, refl, sym, subst, ap, ◌∙◌, inl, inr, none, some, List, [], ◌∷◌, ◌⊎◌, ◌↔◌, map, arith,
  In, ◌==◌, Bool-cases,
}
use fork_observer.Prelude.BTree
use fork_observer.Prelude.BTree.{BTreeMap}
use fork_observer.Bitcoin.{Bitcoin}
use fork_observer.Types.{NodeInfo, NodeDataJson, Clock, HeaderInfoJson, Fork, Cache, Caches}
use fork_observer.Cache.{
  Order, CacheUpdate, apply_update, update_cache, is_node_reachable, tip_heights, initial_node_data,
  initial_cache,
}
use fork_observer.Cache.Invariant.{keys-apply_update, get-update_cache}
use fork_observer.Cache.Steps.{Step, populate, update, Reach, here, next}

module _ {B : Bitcoin} where
  -- The network is in the caches, with these nodes.
  pub record Holds (id : ℕ) (nodes : List ℕ) (cs : Caches B) : Type 0 where
    pub cache : Cache B
    pub found : BTree.get id cs ≡ some cache
    pub node_ids : BTree.keys cache.node_data ≡ nodes

  pub Step-Holds :
      {before after : Caches B} (id : ℕ) (nodes : List ℕ)
      → Step before after
      → Holds id nodes before
      → Holds id nodes after
  Step-Holds {before} id nodes (populate j infos hij forks fresh e) h = record {
    cache = h.cache;
    found = rw e (
        ground
          (arith, BTree.get-insert j id (initial_cache infos hij forks) before, h.found, fresh));
    node_ids = h.node_ids;
  }
  Step-Holds {before} id nodes (update order now j u e) h =
      let (c, found, changed) = get-update_cache order now j u before _ e in
      let f : Cache B → Cache B = apply_update order now u in
      elim (Bool-cases (j == id)) [
        | inl same ↦ record {
          cache = f h.cache;
          found = rw changed (ground (arith, BTree.get-and_modify j id f before, h.found));
          node_ids = keys-apply_update order now u h.cache ∙ h.node_ids;
        }
        | inr other ↦ record {
          cache = h.cache;
          found = rw changed (ground (arith, BTree.get-and_modify j id f before, h.found));
          node_ids = h.node_ids;
        }
      ]

  pub Reach-Holds :
      {from to : Caches B} (id : ℕ) (nodes : List ℕ)
      → Reach from to
      → Holds id nodes from
      → Holds id nodes to
  Reach-Holds id nodes here h = h
  Reach-Holds id nodes (next r s) h = Step-Holds id nodes s (Reach-Holds id nodes r h)

-- In caches that hold the network, its tip heights can be collected, and it can be updated.
pub Holds-updates :
    {B : Bitcoin} (id : ℕ) (nodes : List ℕ) (cs : Caches B)
    → Holds id nodes cs
    → (tip_heights id cs ≢ none)
      × ((order : Order) (now : Clock) (u : CacheUpdate B) → update_cache order now id u cs ≢ none)
unfolding tip_heights update_cache
Holds-updates id nodes cs h = (ground (arith, h.found), λ order now u. ground (arith, h.found))

pub Holds-is_node_reachable :
    {B : Bitcoin} (id node_id : ℕ) (nodes : List ℕ) (cs : Caches B)
    → In node_id nodes
    → Holds id nodes cs
    → is_node_reachable id node_id cs ≢ none
unfolding is_node_reachable
Holds-is_node_reachable id node_id nodes cs listed h =
    let (n, found) =
      BTree.get_of_in-keys node_id h.cache.node_data (subst (In node_id) (sym h.node_ids) listed) in
    ground (arith, h.found, found)

pub in-initial_node_data :
    (info : NodeInfo) (infos : List NodeInfo) (m : BTreeMap NodeDataJson)
    → In info infos ⊎ In info.id (BTree.keys m)
    → In info.id (BTree.keys (initial_node_data infos m))
unfolding initial_node_data
in-initial_node_data info [] m (inl h) = absurd h
in-initial_node_data info [] m (inr h) = h
in-initial_node_data info (i ∷ infos) m (inl (inl e)) =
    in-initial_node_data info infos _
      (inr ((BTree.in-keys-insert i.id info.id _ m).1 (inl (ap (λ n. n.id) e))))
in-initial_node_data info (i ∷ infos) m (inl (inr h)) = in-initial_node_data info infos _ (inl h)
in-initial_node_data info (i ∷ infos) m (inr h) =
    in-initial_node_data info infos _ (inr ((BTree.in-keys-insert i.id info.id _ m).1 (inr h)))

-- The keys are the ids of the nodes, and those that were there.
pub in-keys-initial_node_data :
    (i : ℕ) (infos : List NodeInfo) (m : BTreeMap NodeDataJson)
    → In i (BTree.keys (initial_node_data infos m))
      ↔ (In i (map (λ (n : NodeInfo). n.id) infos) ⊎ In i (BTree.keys m))
unfolding initial_node_data
in-keys-initial_node_data i [] m =
    (λ h. inr h, λ h. elim h [ inl none' ↦ absurd none' | inr k ↦ k ])
in-keys-initial_node_data i (info ∷ infos) m =
    let rest = in-keys-initial_node_data i infos _ in
    let inserted = BTree.in-keys-insert info.id i _ m in
    (
      λ h. elim (rest.0 h) [
        | inl later ↦ inl (inr later)
        | inr now ↦ elim (inserted.0 now) [ inl same ↦ inl (inl same) | inr old ↦ inr old ]
      ],
      λ h. elim h [
        | inl (inl same) ↦ rest.1 (inr (inserted.1 (inl same)))
        | inl (inr later) ↦ rest.1 (inl later)
        | inr old ↦ rest.1 (inr (inserted.1 (inr old)))
      ],
    )

module _ {B : Bitcoin} (id : ℕ) (infos : List NodeInfo) (hij : List HeaderInfoJson)
    (forks : List (Fork B)) (cs : Caches B) where
  abbrev pub populated : Caches B
  populated = BTree.insert id (initial_cache infos hij forks) cs

  pub populated-Holds : Holds id (BTree.keys (initial_node_data infos [])) populated
  unfolding initial_cache
  populated-Holds = record {
    cache = initial_cache infos hij forks;
    found = ground (arith, BTree.get-insert id id (initial_cache infos hij forks) cs);
    node_ids = refl;
  }

  -- After the cache of a network is populated, no sequence of steps leads to a state in which a
  -- task of that network panics: the reachability of each configured node can be read, the tip
  -- heights can be collected, and every update of the network is carried out.
  pub populated_never_panics :
      {later : Caches B} (info : NodeInfo)
      → In info infos
      → Reach populated later
      → (is_node_reachable id info.id later ≢ none)
        × (tip_heights id later ≢ none)
        × ((order : Order) (now : Clock) (u : CacheUpdate B)
            → update_cache order now id u later ≢ none)
  populated_never_panics {later} info listed r =
      let h = Reach-Holds id _ r populated-Holds in
      (
        Holds-is_node_reachable id info.id _ later (in-initial_node_data info infos [] (inl listed))
            h,
        (Holds-updates id _ later h).0,
        (Holds-updates id _ later h).1,
      )
