-- ===== src/Rss/Lagging.antt =====
-- `lagging_nodes_response` of src/rss.rs: which nodes it lists.
use fork_observer.Prelude.{
  ℕ, ◌+◌, ◌%◌, ◌^◌, ◌<◌, ◌≡◌, ◌↔◌, refl, sym, ap, subst, ◌∙◌, inl, inr, true, List, [], ◌∷◌, map,
  arith, In, All, All-in, select, in-select, in-map, ltb, length, Bool-cases, ltb→lt,
}
use fork_observer.Prelude.BTree
use fork_observer.Prelude.BTree.{BTreeMap}
use fork_observer.Bitcoin.{Bitcoin}
use fork_observer.Types.{NodeDataJson, Cache}
use fork_observer.Rss.{active_height, max_height, is_lagging, lagging_nodes}

abbrev with_height : NodeDataJson → NodeDataJson × ℕ
with_height n = (n, active_height n)

-- A node whose active tip is more than three blocks higher than `h`
abbrev pub IsAhead : List NodeDataJson → ℕ → Type 0
IsAhead ns h = (m : NodeDataJson) × In m ns × (h + 3 < active_height m)

lt-max_height :
    (k : ℕ) (ns : List NodeDataJson)
    → (k < max_height (map with_height ns)) ↔ ((m : NodeDataJson) × In m ns × (k < active_height m))
unfolding max_height
lt-max_height k [] = (λ h. absurd (omega arith), λ h. absurd (h.1))
lt-max_height k (n ∷ ns) =
    let rest = lt-max_height k ns in
    (
      λ h. elim (Bool-cases (ltb k (active_height n))) [
        | inl here ↦ (n, inl refl, ltb→lt k (active_height n) here)
        | inr lower ↦ let (m, listed, above) = rest.0 (ground arith) in (m, inr listed, above)
      ],
      λ (m, listed, above). elim listed [
        | inl same ↦
            let here : k < active_height n = subst (λ x. k < active_height x) same above in
            omega arith
        | inr listed ↦ let later = rest.1 (m, listed, above) in omega arith
      ],
    )

-- A node that is the only one has no other ahead of it.
two_nodes :
    (m : BTreeMap NodeDataJson) (n : NodeDataJson)
    → In n (BTree.values m)
    → IsAhead (BTree.values m) (active_height n)
    → ltb 1 (length m) ≡ true
two_nodes [] n listed ahead = absurd listed
two_nodes (e ∷ []) n (inl same) (m, inl same', above) =
    let equal : active_height n ≡ active_height m = ap active_height (same ∙ sym same') in
    absurd (omega arith)
two_nodes (e ∷ []) n (inl same) (m, inr listed, above) = absurd listed
two_nodes (e ∷ []) n (inr listed) ahead = absurd listed
two_nodes (e ∷ f ∷ m) n listed ahead = ground arith

no_wrap : (h top : ℕ) → h + 3 < 2 ^ 64 → (ltb ((h + 3) % 2 ^ 64) top ≡ true) ↔ (h + 3 < top)
no_wrap h top bound = ground arith

in-candidates :
    (ns : List NodeDataJson) (n : NodeDataJson) (h : ℕ)
    → All (λ m. active_height m + 3 < 2 ^ 64) ns
    → In (n, h) (select (is_lagging (max_height (map with_height ns))) (map with_height ns))
      ↔ (In n ns × (h ≡ active_height n) × IsAhead ns h)
in-candidates ns n h bounded =
    let top = max_height (map with_height ns) in
    let member = in-select (is_lagging top) (n, h) (map with_height ns) in
    let pairs = in-map with_height (n, h) ns in
    let ahead = lt-max_height (h + 3) ns in
    let bound : In n ns → h ≡ active_height n → h + 3 < 2 ^ 64 = λ m e.
      subst (λ k. k + 3 < 2 ^ 64) (sym e)
        (All-in (λ m. active_height m + 3 < 2 ^ 64) ns bounded m) in
    (
      λ listed.
          let (m, lags) = member.0 listed in
          let (x, inside, e) = pairs.0 m in
          let same : n ≡ x = ap (λ (q : NodeDataJson × ℕ). q.0) e in
          let here : In n ns = subst (λ y. In y ns) (sym same) inside in
          let height : h ≡ active_height n =
            ap (λ (q : NodeDataJson × ℕ). q.1) e ∙ ap active_height (sym same) in
          (here, height, ahead.0 ((no_wrap h top (bound here height)).0 lags)),
      λ (here, height, above). member.1 (
        pairs.1 (n, here, ap (λ k. (n, k)) height),
        (no_wrap h top (bound here height)).1 (ahead.1 above),
      ),
    )

-- `lagging_nodes_response` lists, where all heights are more than three below 2 ^ 64, exactly
-- the nodes of the network that another node's active tip exceeds by more than three blocks, each
-- with the height of its own active tip.
pub in-lagging_nodes :
    {B : Bitcoin} (c : Cache B) (n : NodeDataJson) (h : ℕ)
    → All (λ m. active_height m + 3 < 2 ^ 64) (BTree.values c.node_data)
    → In (n, h) (lagging_nodes c) ↔ (
        In n (BTree.values c.node_data)
        × (h ≡ active_height n)
        × IsAhead (BTree.values c.node_data) h)
unfolding lagging_nodes
in-lagging_nodes c n h bounded =
    let ns = BTree.values c.node_data in
    let candidates = in-candidates ns n h bounded in
    elim (Bool-cases (ltb 1 (length c.node_data))) [
      | inl several ↦ rw several candidates
      | inr few ↦ rw few (
        λ m. absurd m,
        λ (here, height, ahead).
            let several = two_nodes c.node_data n here (subst (λ k. IsAhead ns k) height ahead) in
            absurd (ground arith),
      )
    ]
