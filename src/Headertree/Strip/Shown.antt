-- ===== src/Headertree/Strip/Shown.antt =====
-- What `strip_tree` of src/headertree.rs returns, apart from how it finds it.
use fork_observer.Prelude.{
  Distinct, ℕ, ◌^◌, ◌<◌, ◌≡◌, ◌↔◌, subst, ◌∙◌, none, some, List, length, map, select, In, Bool, All,
  All-in,
}
use fork_observer.Prelude.BTree.{BTreeSet}
use fork_observer.Prelude.Sort.{
  IsSortedBy, sort_by_key, in-sort_by_key, Distinct-sort_by_key, sort_by_key-IsSortedBy,
}
use fork_observer.Bitcoin.{Bitcoin}
use fork_observer.Petgraph.{DiGraph}
use fork_observer.Petgraph.Filtering.{kept_nodes-same, kept_edges-same}
use fork_observer.Petgraph.Walk.{Walk, target, kept_edges}
use fork_observer.Types.{HeaderInfo, HeaderInfoJson}
use fork_observer.Tree.{TreeInfo, nodes}
use fork_observer.Headertree.{sorted_interesting_heights}
use fork_observer.Headertree.Strip.{is_near, height_at, reconnect, strip_tree}
use fork_observer.Headertree.Strip.Connects.{height_of, Connects, connect_roots-Connects}
use fork_observer.Headertree.Strip.Entries.{
  OneParent, AreEntries, highest-InBounds, strip_tree_runs,
}
use fork_observer.Headertree.Strip.Near.{near, is_near-near, heights-bounded}

module _ {B : Bitcoin} {P : DiGraph (HeaderInfo B)} (W : Walk P) where
  -- The nodes of the graph without an incoming edge, each once and lowest first
  pub record AreRoots (g : P.Graph) (roots : List ℕ) : Type 0 where
    pub sorted : IsSortedBy (height_of W g) roots
    pub once : Distinct roots
    pub members :
        (r : ℕ) → In r roots ↔ ((r < length (P.raw_nodes g)) × (¬ In r (map target (P.edges g))))

  sorted_externals-AreRoots :
      (g : P.Graph) → AreRoots g (sort_by_key (height_of W g) (W.externals g))
  sorted_externals-AreRoots g = record {
    sorted = sort_by_key-IsSortedBy (height_of W g) (W.externals g);
    once = Distinct-sort_by_key (height_of W g) (W.externals g) (W.externals-once g);
    members = λ r.
        let listed = in-sort_by_key (height_of W g) r (W.externals g) in
        let external = W.in-externals g r in
        (λ m. external.0 (listed.0 m), λ e. listed.1 (external.1 e));
  }

  reconnect-Connects :
      (g : P.Graph)
      → Connects W g none (sort_by_key (height_of W g) (W.externals g)) (reconnect W g)
  unfolding reconnect height_at
  reconnect-Connects g =
      let roots = sorted_externals-AreRoots g in
      connect_roots-Connects W g (sort_by_key (height_of W g) (W.externals g)) none
        (λ r m. ((roots.members r).0 m).0) (λ i e. absurd (cc))
        (λ g' root i lt e. highest-InBounds W g' root lt i e)

  -- The entries `js` are those of the headers near the interesting heights of the tree.
  pub record Shown (t : TreeInfo B P) (max_interesting_heights : ℕ) (tip_heights : BTreeSet)
      (js : List HeaderInfoJson) : Type 0 where
    pub heights : List ℕ
    pub found : sorted_interesting_heights t max_interesting_heights tip_heights ≡ some heights
    -- The graph of these headers, and the same with its roots connected
    pub kept : P.Graph
    pub roots : List ℕ
    pub connected : P.Graph
    pub kept_nodes : P.raw_nodes kept ≡ select (λ h. near heights h.height) (nodes t)
    pub kept_links :
        P.edges kept ≡ kept_edges (λ h. near heights h.height) (nodes t) (P.edges t.graph)
    pub are_roots : AreRoots kept roots
    pub connects : Connects W kept none roots connected
    pub entries : AreEntries W connected (select (λ h. near heights h.height) (nodes t)) 0 js

  -- If no node of the tree has two parents, and heights are below 2 ^ 63, `strip_tree` does not
  -- panic. It returns an entry for each header of which an interesting height is at most two above
  -- or one below, in the order of the tree and numbered from 0. Such headers stay linked as in the
  -- tree. Of those without a parent then, lowest first, each but the first is linked to the highest
  -- header that a search from the one before it visits, if that has a height above 0. The `prev_id`
  -- of an entry is the number of the header that it is linked to, or `usize::MAX` if there is none.
  pub strip_tree-Shown :
      (t : TreeInfo B P) (max_interesting_heights : ℕ) (tip_heights : BTreeSet)
      → OneParent W t.graph
      → All (λ h. h.height < 2 ^ 63) (nodes t)
      → All (λ x. x < 2 ^ 63) tip_heights
      → (js : List HeaderInfoJson) × (strip_tree W t max_interesting_heights tip_heights ≡ some js)
        × Shown t max_interesting_heights tip_heights js
  strip_tree-Shown t n tips one low low_tips =
      let (heights, js, found, runs, entries) = strip_tree_runs W t n tips one in
      let low_node = λ (h : HeaderInfo B) (m : In h (nodes t)).
        All-in (λ (x : HeaderInfo B). x.height < 2 ^ 63) (nodes t) low m in
      let bounded =
        heights-bounded t n tips heights low_node (λ x m. All-in (λ y. y < 2 ^ 63) tips low_tips m)
          found in
      let near' : HeaderInfo B → Bool = λ h. near heights h.height in
      let same =
        λ (h : HeaderInfo B) (m : In h (nodes t)). is_near-near heights bounded h (low_node h m) in
      let same_nodes = kept_nodes-same (is_near heights) near' (nodes t) same in
      let kept : P.Graph = W.filter_nodes (is_near heights) t.graph in
      (
        js,
        runs,
        record {
          heights = heights;
          found = found;
          kept = kept;
          roots = sort_by_key (height_of W kept) (W.externals kept);
          connected = reconnect W kept;
          kept_nodes = W.raw_nodes-filter_nodes (is_near heights) t.graph ∙ same_nodes;
          kept_links =
              W.edges-filter_nodes (is_near heights) t.graph
              ∙ kept_edges-same (is_near heights) near' (nodes t) same (P.edges t.graph);
          are_roots = sorted_externals-AreRoots kept;
          connects = reconnect-Connects kept;
          entries = subst (λ hs. AreEntries W (reconnect W kept) hs 0 js) same_nodes entries;
        },
      )
