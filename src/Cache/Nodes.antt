-- ===== src/Cache/Nodes.antt =====
-- The updates of a node's entry: NodeTips and NodeReachability of src/main.rs.
use fork_observer.Prelude.{
  ℕ, ◌≤◌, ◌≡◌, ◌↔◌, ◌⊎◌, refl, inl, inr, Bool, some, List, [], ◌∷◌, ◌≢◌, map, arith, In, in-select,
  leb, leb→le, Bool-cases,
}
use fork_observer.Prelude.BTree
use fork_observer.Bitcoin.{Bitcoin}
use fork_observer.Types.{
  ChainTip, NodeDataJson, tip_info, set_tips, as_secs, set_reachable, Clock, HeaderInfoJson, Cache,
}
use fork_observer.Cache.{
  Order, node_tips, node_reachability, modify_node, apply_update, relevant_tips, min_height,
  min_by_height,
}

-- A header of the list is no higher than `n`, or the list is empty.
abbrev pub Covers : List HeaderInfoJson → ℕ → Type 0
Covers headers n = (headers ≡ []) ⊎ ((h : HeaderInfoJson) × In h headers × (h.height ≤ n))

min_by_height-Covers :
    (h : HeaderInfoJson) (hs : List HeaderInfoJson) (n : ℕ)
    → (min_by_height h hs ≤ n) ↔ ((g : HeaderInfoJson) × In g (h ∷ hs) × (g.height ≤ n))
unfolding min_by_height
min_by_height-Covers h [] n =
    (λ le. (h, inl refl, le), λ (g, m, le). elim m [ inl e ↦ rw e at le | inr m' ↦ absurd m' ])
min_by_height-Covers h (k ∷ ks) n = (
  λ le. elim (Bool-cases (leb h.height n)) [
    | inl low ↦ (h, inl refl, leb→le _ _ low)
    | inr high ↦ let (g, m, le') = (min_by_height-Covers k ks n).0 (ground arith) in (g, inr m, le')
  ],
  λ (g, m, le). elim m [
    | inl e ↦ let low : h.height ≤ n = rw e at le in omega arith
    | inr m' ↦ omega (arith, (min_by_height-Covers k ks n).1 (g, m', le))
  ],
)

min_height-Covers : (hs : List HeaderInfoJson) (n : ℕ) → (min_height hs ≤ n) ↔ Covers hs n
unfolding min_height
min_height-Covers [] n = (λ _. inl refl, λ _. omega arith)
min_height-Covers (h ∷ hs) n = (
  λ le. inr ((min_by_height-Covers h hs n).0 le),
  λ c. elim c [ inl e ↦ absurd (cc) | inr found ↦ (min_by_height-Covers h hs n).1 found ],
)

-- A tip is relevant exactly if it is one of the tips and some cached header is no higher than the
-- tip, or no header is cached.
pub in-relevant_tips :
    (headers : List HeaderInfoJson) (tips : List ChainTip) (t : ChainTip)
    → In t (relevant_tips headers tips) ↔ (In t tips × Covers headers t.height)
unfolding relevant_tips
in-relevant_tips headers tips t =
    let member = in-select (λ (u : ChainTip). leb (min_height headers) u.height) t tips in
    let covers = min_height-Covers headers t.height in
    (
      λ m. let (listed, low) = member.0 m in (listed, covers.0 (leb→le _ _ low)),
      λ (listed, c). let low = covers.1 c in member.1 (listed, ground arith),
    )

module _ {B : Bitcoin} (order : Order) (now : Clock) (node_id : ℕ) (tips : List ChainTip)
    (c : Cache B) (n : NodeDataJson) where
  -- What NodeTips makes of the cache `c` and of the entry `n` of the node.
  pub record TipsUpdated (after : Cache B) : Type 0 where
    pub shown : NodeDataJson
    pub kept : List ChainTip
    pub found : BTree.get node_id after.node_data ≡ some shown
    pub shows : shown.tips ≡ map tip_info kept
    pub relevant : (t : ChainTip) → In t kept ↔ (In t tips × Covers c.header_infos_json t.height)
    pub stamped : shown.last_changed_timestamp ≡ as_secs now
    pub same_id : shown.id ≡ n.id
    pub same_name : shown.name ≡ n.name
    pub same_description : shown.description ≡ n.description
    pub same_implementation : shown.implementation ≡ n.implementation
    pub same_version : shown.version ≡ n.version
    pub same_reachable : shown.reachable ≡ n.reachable
    pub others : (i : ℕ) → i ≢ node_id → BTree.get i after.node_data ≡ BTree.get i c.node_data
    pub same_nodes : BTree.keys after.node_data ≡ BTree.keys c.node_data
    pub same_headers : after.header_infos_json ≡ c.header_infos_json
    pub same_forks : after.forks ≡ c.forks
    pub same_miners : after.recent_miners ≡ c.recent_miners

  -- After NodeTips for a node that the cache holds, the node shows exactly those of the tips that
  -- some cached header is no higher than (all of them, if no header is cached), with the time of
  -- the update. The rest of its entry stays, and so do the other nodes, the cached headers, the
  -- forks and the recent miners.
  pub apply_update-node_tips :
      BTree.get node_id c.node_data ≡ some n
      → TipsUpdated (apply_update order now (node_tips node_id tips) c)
  unfolding apply_update modify_node set_tips
  apply_update-node_tips known =
      let kept = relevant_tips c.header_infos_json tips in
      let f : NodeDataJson → NodeDataJson = set_tips now kept in
      record {
        shown = f n;
        kept = kept;
        found = ground (arith, BTree.get-and_modify node_id node_id f c.node_data);
        shows = refl;
        relevant = in-relevant_tips c.header_infos_json tips;
        stamped = refl;
        same_id = refl;
        same_name = refl;
        same_description = refl;
        same_implementation = refl;
        same_version = refl;
        same_reachable = refl;
        others = λ i ne. ground (arith, BTree.get-and_modify node_id i f c.node_data);
        same_nodes = BTree.keys-and_modify node_id f c.node_data;
        same_headers = refl;
        same_forks = refl;
        same_miners = refl;
      }

module _ {B : Bitcoin} (node_id : ℕ) (r : Bool) (n : NodeDataJson) where
  -- The cache `after` is `c`, with the entry `n` of the node made reachable or not.
  pub record ReachabilitySet (c after : Cache B) : Type 0 where
    pub marked : BTree.get node_id after.node_data ≡ some (record n { reachable = r })
    pub others : (i : ℕ) → i ≢ node_id → BTree.get i after.node_data ≡ BTree.get i c.node_data
    pub same_nodes : BTree.keys after.node_data ≡ BTree.keys c.node_data
    pub same_headers : after.header_infos_json ≡ c.header_infos_json
    pub same_forks : after.forks ≡ c.forks
    pub same_miners : after.recent_miners ≡ c.recent_miners

  pub apply_update-node_reachability :
      (order : Order) (now : Clock) (c : Cache B)
      → BTree.get node_id c.node_data ≡ some n
      → ReachabilitySet c (apply_update order now (node_reachability node_id r) c)
  unfolding apply_update modify_node set_reachable
  apply_update-node_reachability order now c known =
      let f : NodeDataJson → NodeDataJson = set_reachable r in
      record {
        marked = ground (arith, known, BTree.get-and_modify node_id node_id f c.node_data);
        others = λ i ne. ground (arith, BTree.get-and_modify node_id i f c.node_data);
        same_nodes = BTree.keys-and_modify node_id f c.node_data;
        same_headers = refl;
        same_forks = refl;
        same_miners = refl;
      }
