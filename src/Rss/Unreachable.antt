-- ===== src/Rss/Unreachable.antt =====
-- `unreachable_nodes_response` of src/rss.rs: which nodes it lists.
use fork_observer.Prelude.{
  ℕ, ◌<◌, ◌≡◌, ◌↔◌, sym, ap, subst, ◌∙◌, inl, inr, true, false, not, some, none, [], ◌∷◌, arith, In,
  in-select, ◌==◌, Bool-cases, ==_iff, Option-cases,
}
use fork_observer.Prelude.BTree
use fork_observer.Prelude.BTree.{BTreeMap, Entries, IsAscending, AllAbove-in}
use fork_observer.Bitcoin.{Bitcoin}
use fork_observer.Types.{NodeDataJson, Cache, Caches}
use fork_observer.Cache.{is_node_reachable}
use fork_observer.Cache.Invariant.{IsValid, IsNamed}
use fork_observer.Rss.{unreachable_nodes}

in-values_of_get :
    (i : ℕ) (n : NodeDataJson) (m : BTreeMap NodeDataJson)
    → BTree.get i m ≡ some n
    → In n (BTree.values m)
unfolding BTree.get
in-values_of_get i n [] e = absurd (cc)
in-values_of_get i n ((j, w) ∷ m) e = elim (Bool-cases (j == i)) [
  | inl here ↦ inl (ground (arith, e, here))
  | inr later ↦ inr (in-values_of_get i n m (ground (arith, e, later)))
]

id-in-keys :
    (n : NodeDataJson) (m : BTreeMap NodeDataJson)
    → Entries IsNamed m
    → In n (BTree.values m)
    → In n.id (BTree.keys m)
id-in-keys n [] named listed = listed
id-in-keys n ((j, w) ∷ m) named (inl e) = inl (ap (λ (x : NodeDataJson). x.id) e ∙ named.0)
id-in-keys n ((j, w) ∷ m) named (inr l) = inr (id-in-keys n m named.1 l)

-- The id of a node that is listed leads to that node.
get_of_in-values :
    (n : NodeDataJson) (m : BTreeMap NodeDataJson)
    → IsAscending (BTree.keys m)
    → Entries IsNamed m
    → In n (BTree.values m)
    → BTree.get n.id m ≡ some n
unfolding BTree.get
get_of_in-values n [] asc named listed = absurd listed
get_of_in-values n ((j, w) ∷ m) asc named (inl e) =
    let same : (j == n.id) ≡ true =
      (==_iff j n.id).1 (sym (ap (λ (x : NodeDataJson). x.id) e ∙ named.0)) in
    rw same (ap some (sym e))
get_of_in-values n ((j, w) ∷ m) asc named (inr listed) =
    let above : j < n.id =
      AllAbove-in j n.id (BTree.keys m) asc.0 (id-in-keys n m named.1 listed) in
    let other : (j == n.id) ≡ false = ground arith in
    rw other (get_of_in-values n m asc.1 named.1 listed)

reads_as :
    {B : Bitcoin} (net i : ℕ) (cs : Caches B) (c : Cache B) (n : NodeDataJson)
    → BTree.get net cs ≡ some c
    → BTree.get i c.node_data ≡ some n
    → is_node_reachable net i cs ≡ some n.reachable
unfolding is_node_reachable
reads_as net i cs c n found entry = rw (found, entry)

no_reading :
    {B : Bitcoin} (net i : ℕ) (cs : Caches B) (c : Cache B)
    → BTree.get net cs ≡ some c
    → BTree.get i c.node_data ≡ none
    → is_node_reachable net i cs ≡ none
unfolding is_node_reachable
no_reading net i cs c found missing = rw (found, missing)

-- In valid caches, the feed of a network lists a node with the id `i` exactly if that node reads
-- as unreachable.
pub in-unreachable_nodes :
    {B : Bitcoin} (net i : ℕ) (cs : Caches B) (c : Cache B)
    → BTree.get net cs ≡ some c
    → IsValid c
    → ((n : NodeDataJson) × In n (unreachable_nodes c) × (n.id ≡ i))
      ↔ (is_node_reachable net i cs ≡ some false)
unfolding unreachable_nodes
in-unreachable_nodes net i cs c found v = (
  λ (n, listed, e).
      let (inside, down) =
        (in-select (λ (x : NodeDataJson). not x.reachable) n (BTree.values c.node_data)).0 listed in
      let entry = get_of_in-values n c.node_data v.ordered v.named inside in
      let off : n.reachable ≡ false = ground (arith, down) in
      subst (λ k. is_node_reachable net k cs ≡ some false) e
        (reads_as net n.id cs c n found entry ∙ ap some off),
  λ reads. elim (Option-cases (BTree.get i c.node_data)) [
    | inl missing ↦ absurd (cc (reads, no_reading net i cs c found missing))
    | inr (n, entry) ↦
        let off : n.reachable ≡ false = ground (arith, reads, reads_as net i cs c n found entry) in
        (
          n,
          (in-select (λ (x : NodeDataJson). not x.reachable) n (BTree.values c.node_data)).1
              (in-values_of_get i n c.node_data entry, rw off),
          BTree.Entries-get IsNamed i n c.node_data v.named entry,
        )
  ],
)
