-- ===== src/Cache/Heights.antt =====
-- `tip_heights` of src/main.rs collects the heights of all tips of all nodes of a network.
use fork_observer.Prelude.{ℕ, ◌≡◌, ◌↔◌, ◌⊎◌, refl, sym, subst, inl, inr, some, List, [], ◌∷◌, In}
use fork_observer.Prelude.BTree
use fork_observer.Prelude.BTree.{BTreeSet, IsAscending, add-IsAscending, in-add}
use fork_observer.Bitcoin.{Bitcoin}
use fork_observer.Types.{TipInfoJson, NodeDataJson, Cache, Caches}
use fork_observer.Cache.{add_tips, add_nodes, tip_heights}

add_tips-IsAscending :
    (ts : List TipInfoJson) (s : BTreeSet) → IsAscending s → IsAscending (add_tips ts s)
unfolding add_tips
add_tips-IsAscending [] s h = h
add_tips-IsAscending (t ∷ ts) s h = add_tips-IsAscending ts _ (add-IsAscending t.height s h)

add_nodes-IsAscending :
    (ns : List NodeDataJson) (s : BTreeSet) → IsAscending s → IsAscending (add_nodes ns s)
unfolding add_nodes
add_nodes-IsAscending [] s h = h
add_nodes-IsAscending (n ∷ ns) s h = add_nodes-IsAscending ns _ (add_tips-IsAscending n.tips s h)

-- A tip of the list has the height.
abbrev HasTip : List TipInfoJson → ℕ → Type 0
HasTip ts x = (t : TipInfoJson) × In t ts × (t.height ≡ x)

-- A node of the list shows a tip of the height.
abbrev pub Shows : List NodeDataJson → ℕ → Type 0
Shows ns x = (n : NodeDataJson) × In n ns × ((t : TipInfoJson) × In t n.tips × (t.height ≡ x))

in-add_tips :
    (ts : List TipInfoJson) (s : BTreeSet) (x : ℕ) → In x (add_tips ts s) ↔ (HasTip ts x ⊎ In x s)
unfolding add_tips
in-add_tips [] s x = (λ h. inr h, λ h. elim h [ inl (t, m, e) ↦ absurd m | inr m ↦ m ])
in-add_tips (t ∷ ts) s x =
    let ih = in-add_tips ts (BTree.add t.height s) x in
    let here = in-add x t.height s in
    (
      λ m. elim (ih.0 m) [
        | inl (u, listed, e) ↦ inl (u, inr listed, e)
        | inr m' ↦ elim (here.0 m') [ inl e ↦ inl (t, inl refl, sym e) | inr old ↦ inr old ]
      ],
      λ h. elim h [
        | inl (u, listed, e) ↦ elim listed [
          | inl same ↦ ih.1 (inr (here.1 (inl (rw same at (sym e)))))
          | inr later ↦ ih.1 (inl (u, later, e))
        ]
        | inr old ↦ ih.1 (inr (here.1 (inr old)))
      ],
    )

in-add_nodes :
    (ns : List NodeDataJson) (s : BTreeSet) (x : ℕ) → In x (add_nodes ns s) ↔ (Shows ns x ⊎ In x s)
unfolding add_nodes
in-add_nodes [] s x = (λ h. inr h, λ h. elim h [ inl (n, m, e) ↦ absurd m | inr m ↦ m ])
in-add_nodes (n ∷ ns) s x =
    let ih = in-add_nodes ns (add_tips n.tips s) x in
    let here = in-add_tips n.tips s x in
    (
      λ m. elim (ih.0 m) [
        | inl (k, listed, shown) ↦ inl (k, inr listed, shown)
        | inr m' ↦ elim (here.0 m') [ inl has ↦ inl (n, inl refl, has) | inr old ↦ inr old ]
      ],
      λ h. elim h [
        | inl (k, listed, shown) ↦ elim listed [
          | inl same ↦
              ih.1 (inr (here.1 (inl (subst (λ (j : NodeDataJson). HasTip j.tips x) same shown))))
          | inr later ↦ ih.1 (inl (k, later, shown))
        ]
        | inr old ↦ ih.1 (inr (here.1 (inr old)))
      ],
    )

-- For a network in the caches, `tip_heights` returns, in ascending order and each once, exactly
-- the heights at which some node of the network shows a tip.
pub tip_heights-Shows :
    {B : Bitcoin} (network_id : ℕ) (cs : Caches B) (c : Cache B)
    → BTree.get network_id cs ≡ some c
    → (heights : BTreeSet) × (tip_heights network_id cs ≡ some heights)
      × IsAscending heights
      × ((x : ℕ) → In x heights ↔ Shows (BTree.values c.node_data) x)
unfolding tip_heights
tip_heights-Shows network_id cs c found =
    let ns = BTree.values c.node_data in
    (
      add_nodes ns [],
      rw found,
      add_nodes-IsAscending ns [] tt,
      λ x. (
        λ m. elim ((in-add_nodes ns [] x).0 m) [ inl shown ↦ shown | inr h ↦ absurd h ],
        λ shown. (in-add_nodes ns [] x).1 (inl shown),
      ),
    )
