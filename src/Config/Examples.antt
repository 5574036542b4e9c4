-- ===== src/Config/Examples.antt =====
-- A small configuration file, tests on it, and the theorems on configurations at it.
use fork_observer.Prelude.{
  ◌≡◌, ◌↔◌, refl, String, false, some, none, List, [], ◌∷◌, str_eq, if◌then◌else◌, ℕ,
}
use fork_observer.Prelude.Results.{ok, err}
use fork_observer.Prelude.Text.{decimal, host_port}
use fork_observer.Errors.{duplicate_node_id}
use fork_observer.Samples.{crates}
use fork_observer.Config.{
  Host, Config, TomlNode, TomlNetwork, TomlConfig, Network, BoxedNode, btcd_node,
  NodeImplementation, node_info, default_pool_identification, load_each, implementation_to_string,
  implementation_from_str, parse_toml_node, parse_toml_network, parse_network, finish,
  load_networks, parse_config, node_of, info_of, btcd_of,
}
use fork_observer.Config.Networks.{IsConfigOf, parse_config_iff}
use fork_observer.Config.Nodes.{HasCredentials, implementation_of, Succeeds, parse_toml_node_iff}

abbrev toml_node : ℕ → TomlNode
toml_node id = record {
  id = id;
  description = "";
  name = "A";
  rpc_host = "127.0.0.1";
  rpc_port = 8334;
  rpc_cookie_file = none;
  rpc_user = some "u";
  rpc_password = some "p";
  use_rest = none;
  implementation = some "btcd";
}

abbrev toml_network : List TomlNode → TomlNetwork
toml_network nodes = record {
  id = 1;
  name = "net";
  description = "";
  min_fork_height = 0;
  max_interesting_heights = 100;
  nodes = nodes;
  pool_identification = none;
}

abbrev toml_config : TomlConfig
toml_config = record {
  address = "127.0.0.1:2323";
  database_path = "db";
  www_path = "www";
  rss_base_url = none;
  query_interval = 15;
  networks = toml_network (toml_node 0 ∷ []) ∷ [];
  footer_html = "";
}

-- Every text is read as the file above, every address is good, and no file exists.
abbrev host : Host crates
host = record {
  SocketAddr = String;
  exists_file = λ f. false;
  toml_from_str = λ s. ok toml_config;
  socket_addr_from_str = λ s. ok s;
  to_lowercase = λ s. if str_eq s "Bitcoin Core" then "bitcoin core" else s;
  to_lowercase-core = refl;
  to_lowercase-btcd = refl;
}

abbrev node : ℕ → BoxedNode
node id = btcd_node (record {
  info = record { id = id; name = "A"; description = ""; implementation = "btcd" };
  rpc_url = host_port "127.0.0.1" 8334;
  rpc_user = "u";
  rpc_password = "p";
})

abbrev network : Network
network = record {
  id = 1;
  description = "";
  name = "net";
  min_fork_height = 0;
  max_interesting_heights = 100;
  nodes = node 0 ∷ [];
  pool_identification = default_pool_identification;
}

abbrev config : Config host
config = record {
  database_path = "db";
  www_path = "www";
  query_interval = 15;
  address = "127.0.0.1:2323";
  networks = network ∷ [];
  footer_html = "";
  rss_base_url = "";
}

decimal_8334 : decimal 8334 ≡ "8334"
unfolding decimal
decimal_8334 = refl

accepted : parse_config host "the file" ≡ ok config
unfolding parse_config load_networks load_each parse_network parse_toml_node parse_toml_network
    implementation_from_str finish node_of btcd_of info_of implementation_to_string node_info
accepted = refl

duplicate :
    parse_network host (toml_network (toml_node 3 ∷ toml_node 3 ∷ [])) ≡ err duplicate_node_id
unfolding load_each parse_network parse_toml_node parse_toml_network implementation_from_str node_of
    btcd_of info_of implementation_to_string node_info
duplicate = refl

parse_config_iff_example :
    (parse_config host "the file" ≡ ok config)
    ↔ ((t : TomlConfig) × (host.toml_from_str "the file" ≡ ok t) × IsConfigOf host t config)
parse_config_iff_example = parse_config_iff host "the file" config

parse_toml_node_iff_example : Succeeds host (parse_toml_node host (toml_node 7)) ↔ (
    (i : NodeImplementation) × (implementation_of host (toml_node 7) ≡ ok i)
    × HasCredentials host i (toml_node 7))
parse_toml_node_iff_example = parse_toml_node_iff host (toml_node 7)
