-- ===== src/Tree.antt =====
-- The header tree: `TreeInfo` of src/types.rs, `insert_new_headers_into_tree` of src/main.rs and
-- the part of `load_treeinfos` of src/db.rs that builds the tree from the loaded headers. A tree is
-- locked for the whole of each function; `none` stands for the panic of an `expect`.
pub mod Indexed
pub mod Growth
pub mod Edges
pub mod Insert
pub mod Load
pub mod Links
pub mod Parents
pub mod View
mod Examples
use fork_observer.Prelude.{
  ℕ, Bool, true, false, Option, none, some, List, [], ◌∷◌, if◌then◌else◌, Key,
}
use fork_observer.Prelude.Options.{◌>>=◌}
use fork_observer.Prelude.HashMap
use fork_observer.Prelude.HashMap.{HashMap, contains_key}
use fork_observer.Bitcoin.{Bitcoin}
use fork_observer.Petgraph.{DiGraph}
use fork_observer.Types.{HeaderInfo, hash_of}

-- The graph of the headers, and the index of the node of each block hash.
pub record TreeInfo (B : Bitcoin) (P : DiGraph (HeaderInfo B)) : Type 0 where
  pub graph : P.Graph
  pub index : HashMap B.BlockHash ℕ

module _ {B : Bitcoin} {P : DiGraph (HeaderInfo B)} where
  abbrev pub index_of : TreeInfo B P → B.BlockHash → Option ℕ
  index_of t hash = HashMap.get ⦃key = B.hash_key⦄ hash t.index

  abbrev pub nodes : TreeInfo B P → List (HeaderInfo B)
  nodes t = P.raw_nodes t.graph

  -- `add_node`, and `insert` of the index that it returns
  pub add_header : TreeInfo B P → HeaderInfo B → TreeInfo B P
  add_header t h = record {
    graph = P.add_node t.graph h;
    index = HashMap.insert ⦃key = B.hash_key⦄ (hash_of h) (P.next_index t.graph) t.index;
  }

  -- The first loop of `insert_new_headers_into_tree`, with `tree_changed`.
  pub insert_nodes : List (HeaderInfo B) → TreeInfo B P → Bool → TreeInfo B P × Bool
  insert_nodes [] t changed = (t, changed)
  insert_nodes (h ∷ hs) t changed =
      let known = contains_key ⦃key = B.hash_key⦄ (hash_of h) t.index in
      insert_nodes hs (if known then t else add_header t h) (if known then changed else true)

  pub connect_to : ℕ → Option ℕ → TreeInfo B P → TreeInfo B P
  connect_to current none t = t
  connect_to current (some prev) t = record t { graph = P.update_edge t.graph prev current false }

  -- The second loop: an edge from the previous block to each header, if the tree has that block.
  pub connect : List (HeaderInfo B) → TreeInfo B P → Option (TreeInfo B P)
  connect [] t = some t
  connect (h ∷ hs) t = do
    current ← index_of t (hash_of h)
    connect hs (connect_to current (index_of t (B.prev_blockhash h.header)) t)

  pub insert_new_headers_into_tree :
      TreeInfo B P → List (HeaderInfo B) → Option (TreeInfo B P × Bool)
  insert_new_headers_into_tree t hs =
      let (inserted, changed) = insert_nodes hs t false in
      do connected ← connect hs inserted; some (connected, changed)

  abbrev pub empty_tree : TreeInfo B P
  empty_tree = record { graph = P.new; index = [] }

  pub load_nodes : List (HeaderInfo B) → TreeInfo B P → TreeInfo B P
  load_nodes [] t = t
  load_nodes (h ∷ hs) t = load_nodes hs (add_header t h)

  -- `load_treeinfos`, from the headers that were read from the database.
  pub load_treeinfos : List (HeaderInfo B) → Option (TreeInfo B P)
  load_treeinfos header_infos = connect header_infos (load_nodes header_infos empty_tree)
