-- ===== src/Startup/Started.antt =====
-- The start of a network by `main` of src/main.rs, from a well-formed table of headers.
use fork_observer.Prelude.{ℕ, ◌≡◌, ◌↔◌, refl, sym, ap, subst, inl, some, List, [], map, In, in-map}
use fork_observer.Prelude.BTree
use fork_observer.Prelude.Results.{ok}
use fork_observer.Bitcoin.{Bitcoin}
use fork_observer.Cache.{initial_node_data}
use fork_observer.Cache.Panics.{Holds, populated-Holds, in-initial_node_data}
use fork_observer.Config.Settings.{Network, BoxedNode, node_info}
use fork_observer.Db.{Row, Sqlite, row_of}
use fork_observer.Db.Keys.{HasHeader, has_key-in}
use fork_observer.Db.Reading.{NoCollisions, load_header_infos-Loaded}
use fork_observer.Db.Stored.{IsStored}
use fork_observer.Errors.{Crates}
use fork_observer.Headertree.Forks.Recent.{recent_forks-AreRecent}
use fork_observer.Headertree.Strip.Entries.{strip_tree_runs}
use fork_observer.Petgraph.{DiGraph}
use fork_observer.Petgraph.Walk.{Walk}
use fork_observer.Poll.{World, max_forks_in_cache}
use fork_observer.Startup.{populate_cache, loaded, headers_loaded, start_network}
use fork_observer.Tree.{TreeInfo, nodes}
use fork_observer.Tree.Links.{HashCommits}
use fork_observer.Tree.Load.{load_treeinfos-IsComplete}
use fork_observer.Tree.Parents.{IsForest, load_treeinfos-IsForest}
use fork_observer.Types.{HeaderInfo, Caches}

NoCollisions-HashCommits : (B : Bitcoin) → NoCollisions B → HashCommits B
NoCollisions-HashCommits B unique g h e = ap B.prev_blockhash (unique g h e)

-- The ids of the nodes of a network, as the cache has them.
abbrev pub ids_of : Network → List ℕ
ids_of network = BTree.keys (initial_node_data (map node_info network.nodes) [])

module _ {B : Bitcoin} {E : Crates} {P : DiGraph (HeaderInfo B)} (W : Walk P) (S : Sqlite B E)
    (network : Network) where
  -- What the tasks of the network share when they are started
  pub record Started (d : S.Db) (w : World P S) : Type 0 where
    pub forest : IsForest w.tree
    pub headers : (h : HeaderInfo B) → In h (nodes w.tree) ↔ In (row_of S network.id h) (S.rows d)
    pub same_db : w.db ≡ d
    pub holds : Holds network.id (ids_of network) w.caches
    pub listed : (n : BoxedNode) → In n network.nodes → In (node_info n).id (ids_of network)
    pub nothing_queued : w.queue ≡ []

  populate_cache-Holds :
      (tree : TreeInfo B P) (caches : Caches B)
      → IsForest tree
      → (cs : Caches B) × (populate_cache W network tree caches ≡ some cs)
        × Holds network.id (ids_of network) cs
  unfolding populate_cache
  populate_cache-Holds tree caches forest =
      let (fs, found, _) = recent_forks-AreRecent W tree max_forks_in_cache in
      let (_, hij, _, stripped, _) =
        strip_tree_runs W tree network.max_interesting_heights [] forest.parents in
      (
        _,
        rw (found, stripped) refl,
        populated-Holds network.id (map node_info network.nodes) hij fs caches,
      )

  listed_node : (n : BoxedNode) → In n network.nodes → In (node_info n).id (ids_of network)
  listed_node n m =
      in-initial_node_data (node_info n) (map node_info network.nodes) []
        (inl ((in-map node_info (node_info n) network.nodes).1 (n, m, refl)))

  -- From a well-formed table, if its query succeeds and no two headers have the same hash, the start
  -- of a network does not panic: the tree is a forest of exactly the headers that have a row in
  -- the network, and the caches hold the network with each of its nodes.
  pub start_network-Started :
      (d : S.Db) (caches : Caches B) (rs : List Row)
      → NoCollisions B
      → IsStored S (S.rows d)
      → S.select_headers network.id d ≡ ok rs
      → (w : World P S) × (start_network W S network d caches ≡ some (ok w)) × Started d w
  unfolding start_network headers_loaded loaded
  start_network-Started d caches rs unique v query =
      let (hs, read, distinct, _, members) =
        load_header_infos-Loaded S network.id d rs unique v query in
      let (tree, built, same, _, _) = load_treeinfos-IsComplete hs distinct in
      let forest =
        load_treeinfos-IsForest (NoCollisions-HashCommits B unique) hs tree distinct built in
      let (cs, populated, holds) = populate_cache-Holds tree caches forest in
      (
        record { tree = tree; db = d; caches = cs; queue = []; announced = [] },
        rw (read, built, populated) refl,
        record {
          forest = forest;
          headers = λ h. (
            λ m. (members h).0 (subst (In h) same m),
            λ m. subst (In h) (sym same) ((members h).1 m),
          );
          same_db = refl;
          holds = holds;
          listed = listed_node;
          nothing_queued = refl;
        },
      )

  -- In particular the table has every header of the tree.
  pub Started-HasHeader :
      (d : S.Db) (w : World P S) (h : HeaderInfo B)
      → Started d w
      → In h (nodes w.tree)
      → HasHeader S network.id w.db h
  Started-HasHeader d w h s m =
      subst (λ x. HasHeader S network.id x h) (sym s.same_db)
        (has_key-in (row_of S network.id h) (S.rows d) ((s.headers h).0 m))
