-- ===== src/Rss/Responses.antt =====
-- src/rss.rs: the responses with the feeds of a network. Each locks the caches once.
use fork_observer.Prelude.{ℕ, String, none, some, List, [], ◌∷◌, map, ◌==◌, if◌then◌else◌}
use fork_observer.Prelude.BTree
use fork_observer.Prelude.Text.{decimal}
use fork_observer.Bitcoin.{Bitcoin}
use fork_observer.Types.{TipInfoJson, NodeDataJson, Cache, Caches}
use fork_observer.Rss.{BlockOrder, lagging_nodes, invalid_blocks, unreachable_nodes}
use fork_observer.Rss.Items.{
  Channel, concat, join_comma, feed_to_string, fork_item, invalid_block_item, lagging_node_item,
  unreachable_node_item,
}

pub record NetworkJson : Type 0 where
  pub id : ℕ
  pub name : String
  pub description : String

-- The response: its status, its content type and its body.
pub record Response : Type 0 where
  pub status : ℕ
  pub content_type : String
  pub body : String

-- The name of the first network with the id, or nothing
pub name_of_network : ℕ → List NetworkJson → String
name_of_network id [] = ""
name_of_network id (n ∷ ns) = if n.id == id then n.name else name_of_network id ns

pub response_unknown_network : List NetworkJson → Response
response_unknown_network network_infos = record {
  status = 404;
  content_type = "text/plain";
  body = concat (
      "Unknown network. Avaliable networks are: "
      ∷ join_comma (
          map (λ (n : NetworkJson). concat (decimal n.id ∷ " (" ∷ n.name ∷ ")" ∷ [])) network_infos)
      ∷ "."
      ∷ []);
}

pub feed_response : Channel → Response
feed_response channel = record {
  status = 200;
  content_type = "application/rss+xml";
  body = feed_to_string channel;
}

module _ {B : Bitcoin} (network_id : ℕ) (caches : Caches B) (network_infos : List NetworkJson)
    (base_url : String) where
  abbrev network_name : String
  network_name = name_of_network network_id network_infos

  abbrev link_of : String → String
  link_of source = concat (base_url ∷ "?network=" ∷ decimal network_id ∷ "?src=" ∷ source ∷ [])

  abbrev href_of : String → String
  href_of file = concat (base_url ∷ "/rss/" ∷ decimal network_id ∷ "/" ∷ file ∷ [])

  -- The feed of the network's cache, or the answer for an unknown network
  respond : (Cache B → Channel) → Response
  respond channel = elim (BTree.get network_id caches) [
    | none ↦ response_unknown_network network_infos
    | some cache ↦ feed_response (channel cache)
  ]

  pub forks_response : Response
  unfolding respond
  forks_response = respond (λ cache. record {
    title = concat ("Recent Forks - " ∷ network_name ∷ []);
    description =
        concat ("Recent forks that occured on the Bitcoin " ∷ network_name ∷ " network" ∷ []);
    link = link_of "forks-rss";
    items = map fork_item cache.forks;
    href = href_of "forks.xml";
  })

  pub lagging_nodes_response : Response
  unfolding respond
  lagging_nodes_response = respond (λ cache. record {
    title = concat ("Lagging nodes on " ∷ network_name ∷ []);
    description = concat (
        "List of nodes that are more than 3 blocks behind the chain tip on the " ∷ network_name
        ∷ " network." ∷ []);
    link = link_of "lagging-rss";
    items = map (λ (e : NodeDataJson × ℕ). lagging_node_item e.0 e.1) (lagging_nodes cache);
    href = href_of "lagging.xml";
  })

  pub invalid_blocks_response : BlockOrder → Response
  unfolding respond
  invalid_blocks_response order = respond (λ cache. record {
    title = concat ("Invalid Blocks - " ∷ network_name ∷ []);
    description = concat ("Recent invalid blocks on the Bitcoin " ∷ network_name ∷ " network" ∷ []);
    link = link_of "invalid-rss";
    items =
        map (λ (e : TipInfoJson × List NodeDataJson). invalid_block_item e.0 e.1)
          (invalid_blocks order cache);
    href = href_of "invalid.xml";
  })

  pub unreachable_nodes_response : Response
  unfolding respond
  unreachable_nodes_response = respond (λ cache. record {
    title = concat ("Unreachable nodes - " ∷ network_name ∷ []);
    description = concat ("Nodes on the " ∷ network_name ∷ " network that can't be reached" ∷ []);
    link = link_of "unreachable-nodes";
    items = map unreachable_node_item (unreachable_nodes cache);
    href = href_of "unreachable.xml";
  })
