-- ===== src/Config.antt =====
-- src/config.rs: the configuration file, and the node types of src/node.rs that it makes.
pub mod Loading
mod Examples
pub mod Networks
pub mod Nodes
pub mod Settings
use fork_observer.Prelude.{
  ℕ, String, Bool, true, false, Option, none, some, List, [], ◌∷◌, ◌++◌, str_eq, ◌==◌,
  if◌then◌else◌, ◌≡◌,
}
use fork_observer.Prelude.Results.{Result, ok, err, ◌>>=◌}
use fork_observer.Prelude.Text.{host_port}
use fork_observer.Errors.{
  Crates, ConfigError, cookie_file_does_not_exist, no_bitcoin_core_rpc_auth, no_btcd_rpc_auth,
  no_networks, unknown_implementation, duplicate_node_id, duplicate_network_id, toml_error,
  addr_error,
}
use fork_observer.Types.{NodeInfo}
unfoldable pub use Settings.*

abbrev pub unwrap_or {ℓ} : {A : Type ℓ} → A → Option A → A
unwrap_or d none = d
unwrap_or d (some a) = a

abbrev pub default_use_rest : Bool
default_use_rest = true

pub implementation_to_string : NodeImplementation → String
implementation_to_string bitcoin_core = "Bitcoin Core"
implementation_to_string btcd = "btcd"

abbrev pub contains : ℕ → List ℕ → Bool
contains x [] = false
contains x (y ∷ ys) = if x == y then true else contains x ys

module _ {ℓ} {T A F : Type ℓ} (parse : T → Result F A) (id_of : A → ℕ) (duplicate : F) where
  -- The two loops of `parse_config`: each item is parsed, and refused if its id was seen before.
  pub load_each : List T → List ℕ → List A → Result F (List A)
  load_each [] ids loaded = ok loaded
  load_each (t ∷ ts) ids loaded = elim (parse t) [
    | err e ↦ err e
    | ok a ↦ elim (contains (id_of a) ids) [
      | true ↦ err duplicate
      | false ↦ load_each ts (ids ++ id_of a ∷ []) (loaded ++ a ∷ [])
    ]
  ]

module _ {E : Crates} (H : Host E) where
  pub implementation_from_str : String → Result (ConfigError E) NodeImplementation
  implementation_from_str s =
      let lower = H.to_lowercase s in
      if str_eq lower "bitcoincore"
      then ok bitcoin_core
      else if str_eq lower "bitcoin core"
      then ok bitcoin_core
      else if str_eq lower "core"
      then ok bitcoin_core
      else if str_eq lower "btcd"
      then ok btcd
      else err unknown_implementation

  -- By `rpc_cookie_file`, `rpc_user` and `rpc_password`
  pub rpc_auth_of : Option String → Option String → Option String → Result (ConfigError E) Auth
  rpc_auth_of (some file) user password =
      if H.exists_file file then ok (cookie_file file) else err cookie_file_does_not_exist
  rpc_auth_of none (some user) (some password) = ok (user_pass user password)
  rpc_auth_of none (some user) none = err no_bitcoin_core_rpc_auth
  rpc_auth_of none none password = err no_bitcoin_core_rpc_auth

  pub parse_rpc_auth : TomlNode → Result (ConfigError E) Auth
  parse_rpc_auth n = rpc_auth_of n.rpc_cookie_file n.rpc_user n.rpc_password

  -- The `Btcd` case, by `rpc_user` and `rpc_password`
  pub btcd_of : NodeInfo → String → Option String → Option String → Result (ConfigError E) BoxedNode
  btcd_of info url (some user) (some password) =
      ok (
        btcd_node (record { info = info; rpc_url = url; rpc_user = user; rpc_password = password }))
  btcd_of info url (some user) none = err no_btcd_rpc_auth
  btcd_of info url none password = err no_btcd_rpc_auth

  abbrev pub core_of : TomlNode → NodeInfo → Auth → BoxedNode
  core_of n info auth = core_node (record {
    info = info;
    rpc_url = host_port n.rpc_host n.rpc_port;
    rpc_auth = auth;
    use_rest = unwrap_or default_use_rest n.use_rest;
  })

  -- The `match` on the implementation in `parse_toml_node`
  pub node_of : TomlNode → NodeImplementation → NodeInfo → Result (ConfigError E) BoxedNode
  node_of n bitcoin_core info = do auth ← parse_rpc_auth n; ok (core_of n info auth)
  node_of n btcd info = btcd_of info (host_port n.rpc_host n.rpc_port) n.rpc_user n.rpc_password

  pub info_of : TomlNode → NodeImplementation → NodeInfo
  info_of n implementation = record {
    id = n.id;
    name = n.name;
    description = n.description;
    implementation = implementation_to_string implementation;
  }

  pub parse_toml_node : TomlNode → Result (ConfigError E) BoxedNode
  parse_toml_node n = do
    implementation ←
        implementation_from_str (unwrap_or (implementation_to_string bitcoin_core) n.implementation)
    node_of n implementation (info_of n implementation)

  pub parse_toml_network : TomlNetwork → List BoxedNode → Result (ConfigError E) Network
  parse_toml_network t nodes = ok (record {
    id = t.id;
    description = t.description;
    name = t.name;
    min_fork_height = t.min_fork_height;
    max_interesting_heights = t.max_interesting_heights;
    nodes = nodes;
    pool_identification = unwrap_or default_pool_identification t.pool_identification;
  })

  -- A round of the loop over the networks, without the test on the network's id
  pub parse_network : TomlNetwork → Result (ConfigError E) Network
  parse_network t = do
    nodes ← load_each parse_toml_node (λ n. (node_info n).id) duplicate_node_id t.nodes [] []
    parse_toml_network t nodes

  abbrev pub config_of : TomlConfig → H.SocketAddr → List Network → Config H
  config_of t address networks = record {
    database_path = t.database_path;
    www_path = t.www_path;
    query_interval = t.query_interval;
    address = address;
    networks = networks;
    footer_html = t.footer_html;
    rss_base_url = unwrap_or "" t.rss_base_url;
  }

  -- The end of `parse_config`
  pub finish : TomlConfig → List Network → Result (ConfigError E) (Config H)
  finish t [] = err no_networks
  finish t (n ∷ ns) = elim (H.socket_addr_from_str t.address) [
    | err e ↦ err (addr_error e)
    | ok address ↦ ok (config_of t address (n ∷ ns))
  ]

  pub load_networks : TomlConfig → Result (ConfigError E) (Config H)
  load_networks t = do
    networks ← load_each parse_network (λ n. n.id) duplicate_network_id t.networks [] []
    finish t networks

  pub parse_config : String → Result (ConfigError E) (Config H)
  parse_config config_str = elim (H.toml_from_str config_str) [
    | err e ↦ err (toml_error e)
    | ok t ↦ load_networks t
  ]
