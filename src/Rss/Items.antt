-- ===== src/Rss/Items.antt =====
-- src/rss.rs: items, channels and feeds, and their texts.
use Prim.Native.String.{◌++◌}
use fork_observer.Prelude.{ℕ, String, List, [], ◌∷◌, map, length, leb, ltb, if◌then◌else◌}
use fork_observer.Prelude.Sort.{sort_by_key}
use fork_observer.Prelude.Text.{decimal}
use fork_observer.Bitcoin.{Bitcoin}
use fork_observer.Types.{TipInfoJson, NodeDataJson, Fork, hash_of}

abbrev pub threashold_node_lagging : ℕ
threashold_node_lagging = 3

pub record Item : Type 0 where
  pub title : String
  pub description : String
  pub guid : String

pub record Channel : Type 0 where
  pub title : String
  pub description : String
  pub link : String
  pub items : List Item
  pub href : String

-- `collect::<String>()`
unfoldable pub concat : List String → String
concat [] = ""
concat (s ∷ ss) = s ++ concat ss

-- `join(", ")`
unfoldable pub join_comma : List String → String
join_comma [] = ""
join_comma (s ∷ []) = s
join_comma (s ∷ t ∷ ss) = s ++ ", " ++ join_comma (t ∷ ss)

pub item_to_string : Item → String
unfolding concat
item_to_string item = concat (
    "\n  <item>\n\t<title>" ∷ item.title ∷ "</title>\n\t<description>" ∷ item.description
    ∷ "</description>\n\t<guid isPermaLink=\"false\">" ∷ item.guid ∷ "</guid>\n  </item>" ∷ [])

pub channel_to_string : Channel → String
unfolding concat
channel_to_string channel = concat (
    "<channel>\n  <title>"
    ∷ channel.title
    ∷ "</title>\n  <description>"
    ∷ channel.description
    ∷ "</description>\n  <link>"
    ∷ channel.link
    ∷ "</link>\n  <atom:link href=\""
    ∷ channel.href
    ∷ "\" rel=\"self\" type=\"application/rss+xml\" />\n  "
    ∷ concat (map item_to_string channel.items)
    ∷ "\n</channel>"
    ∷ [])

-- `Display` of the feed with this channel
pub feed_to_string : Channel → String
unfolding concat
feed_to_string channel = concat (
    "<?xml version=\"1.0\" encoding=\"UTF-8\" ?>\n<rss version=\"2.0\" xmlns:atom=\"http://www.w3.org/2005/Atom\">\n"
    ∷ channel_to_string channel
    ∷ "\n</rss>\n"
    ∷ [])

unfoldable pub fork_item : {B : Bitcoin} → Fork B → Item
unfolding concat
fork_item {B} fork = record {
  title = concat (
      (if leb (length fork.children) 2 then "Fork" else "Multi-fork")
      ∷ " at height "
      ∷ decimal fork.common.height
      ∷ []);
  description = concat (
      "There are "
      ∷ decimal (length fork.children)
      ∷ " blocks building on-top of block "
      ∷ B.hash_to_string (hash_of fork.common)
      ∷ "."
      ∷ []);
  guid = B.hash_to_string (hash_of fork.common);
}

node_name : NodeDataJson → String
unfolding concat
node_name node = concat (node.name ∷ " (id=" ∷ decimal node.id ∷ ")" ∷ [])

unfoldable pub invalid_block_item : TipInfoJson → List NodeDataJson → Item
unfolding concat join_comma node_name
invalid_block_item tip nodes = record {
  title = "Invalid block at height " ++ decimal tip.height;
  description = concat (
      "Invalid block "
      ∷ tip.hash
      ∷ " at height "
      ∷ decimal tip.height
      ∷ " seen by node"
      ∷ (if ltb 1 (length nodes) then "s" else "")
      ∷ ": "
      ∷ join_comma (map node_name (sort_by_key (λ (n : NodeDataJson). n.id) nodes))
      ∷ []);
  guid = tip.hash;
}

unfoldable pub lagging_node_item : NodeDataJson → ℕ → Item
unfolding concat
lagging_node_item node height = record {
  title = concat ("Node '" ∷ node.name ∷ "' is lagging behind" ∷ []);
  description = concat (
      "The node's active tip is on height "
      ∷ decimal height
      ∷ ", while other nodes consider a block with a height at least "
      ∷ decimal threashold_node_lagging
      ∷ " blocks higher their active tip. The node might still be synchronizing with the network or stuck."
      ∷ []);
  guid = concat ("lagging-node-" ∷ node.name ∷ "-on-" ∷ decimal height ∷ []);
}

unfoldable pub unreachable_node_item : NodeDataJson → Item
unfolding concat
unreachable_node_item node = record {
  title = concat ("Node '" ∷ node.name ∷ "' (id=" ∷ decimal node.id ∷ ") is unreachable" ∷ []);
  description = concat (
      "The RPC server of this node is not reachable. The node might be offline or there might be other networking issues. The nodes tip data was last updated at timestamp "
      ∷ decimal node.last_changed_timestamp
      ∷ " (zero indicates never)."
      ∷ []);
  guid =
      concat (
        "unreachable-node-"
        ∷ decimal node.id
        ∷ "-last-"
        ∷ decimal node.last_changed_timestamp
        ∷ []);
}
