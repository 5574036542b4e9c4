-- ===== src/Api.antt =====
-- src/api.rs: the JSON responses and the event of the event stream, with `NetworkJson::new` of
-- src/types.rs and the part of `main` in src/main.rs that makes events of the announced changes. What is
-- serialised is modelled, not its text.
pub mod Nodes
mod Examples
use fork_observer.Prelude.{ℕ, ◌-◌, ◌^◌, String, Option, none, some, List, []}
use fork_observer.Prelude.BTree
use fork_observer.Prelude.Results.{Result, ok, err}
use fork_observer.Bitcoin.{Bitcoin}
use fork_observer.Config.Settings.{Network}
use fork_observer.Rss.Responses.{NetworkJson}
use fork_observer.Types.{HeaderInfoJson, NodeDataJson, Cache, Caches}

pub record InfoJsonResponse : Type 0 where
  pub footer : String

pub record DataJsonResponse : Type 0 where
  pub header_infos : List HeaderInfoJson
  pub nodes : List NodeDataJson

pub record NetworksJsonResponse : Type 0 where
  pub networks : List NetworkJson

pub record DataChanged : Type 0 where
  pub network_id : ℕ

-- An event with a name and data
pub record Event : Type 0 where
  pub event : String
  pub json_data : DataChanged

pub network_json : Network → NetworkJson
network_json network = record {
  id = network.id;
  name = network.name;
  description = network.description;
}

pub info_response : String → InfoJsonResponse
info_response footer = record { footer = footer }

-- The response for a cache, or for a network that has none
pub data_of : {B : Bitcoin} → Option (Cache B) → DataJsonResponse
data_of (some cache) = record {
  header_infos = cache.header_infos_json;
  nodes = BTree.values cache.node_data;
}
data_of none = record { header_infos = []; nodes = [] }

pub data_response : {B : Bitcoin} → ℕ → Caches B → DataJsonResponse
data_response network caches = data_of (BTree.get network caches)

pub networks_response : List NetworkJson → NetworksJsonResponse
networks_response network_infos = record { networks = network_infos }

pub data_changed_sse : ℕ → Event
data_changed_sse network_id = record {
  event = "tip_changed";
  json_data = record { network_id = network_id };
}

-- The event for what a client receives: the id of a network, or the error that it lagged behind
pub received_event : {Lagged : Type 0} → Result Lagged ℕ → Event
received_event (ok network_id) = data_changed_sse network_id
received_event (err lagged) = data_changed_sse (2 ^ 32 - 1)
