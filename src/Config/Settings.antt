-- ===== src/Config/Settings.antt =====
-- The types of src/config.rs, the nodes of src/node.rs that a configuration makes, and what the code
-- takes from its surroundings.
use fork_observer.Prelude.{ℕ, String, Bool, false, Option, none, List, ◌≡◌}
use fork_observer.Prelude.Results.{Result}
use fork_observer.Errors.{Crates}
use fork_observer.Types.{NodeInfo}

pub data PoolIdentificationNetwork : Type 0 where
  mainnet testnet signet regtest : PoolIdentificationNetwork

-- `Network` of the `bitcoin` crate
pub data BitcoinNetwork : Type 0 where
  bitcoin testnet signet regtest : BitcoinNetwork

pub to_network : PoolIdentificationNetwork → BitcoinNetwork
to_network PoolIdentificationNetwork.mainnet = BitcoinNetwork.bitcoin
to_network PoolIdentificationNetwork.testnet = BitcoinNetwork.testnet
to_network PoolIdentificationNetwork.signet = BitcoinNetwork.signet
to_network PoolIdentificationNetwork.regtest = BitcoinNetwork.regtest

pub record PoolIdentification : Type 0 where
  pub enable : Bool
  pub network : Option PoolIdentificationNetwork

abbrev pub default_pool_identification : PoolIdentification
default_pool_identification = record { enable = false; network = none }

pub record TomlNode : Type 0 where
  pub id : ℕ
  pub description : String
  pub name : String
  pub rpc_host : String
  pub rpc_port : ℕ
  pub rpc_cookie_file : Option String
  pub rpc_user : Option String
  pub rpc_password : Option String
  pub use_rest : Option Bool
  pub implementation : Option String

pub record TomlNetwork : Type 0 where
  pub id : ℕ
  pub name : String
  pub description : String
  pub min_fork_height : ℕ
  pub max_interesting_heights : ℕ
  pub nodes : List TomlNode
  pub pool_identification : Option PoolIdentification

pub record TomlConfig : Type 0 where
  pub address : String
  pub database_path : String
  pub www_path : String
  pub rss_base_url : Option String
  pub query_interval : ℕ
  pub networks : List TomlNetwork
  pub footer_html : String

pub data NodeImplementation : Type 0 where
  bitcoin_core btcd : NodeImplementation

-- `Auth` of the `bitcoincore_rpc` crate: the cases that the program makes
pub data Auth : Type 0 where
  cookie_file : String → Auth
  user_pass : String → String → Auth

pub record BitcoinCoreNode : Type 0 where
  pub info : NodeInfo
  pub rpc_url : String
  pub rpc_auth : Auth
  pub use_rest : Bool

pub record BtcdNode : Type 0 where
  pub info : NodeInfo
  pub rpc_url : String
  pub rpc_user : String
  pub rpc_password : String

-- The nodes behind `dyn Node`
pub data BoxedNode : Type 0 where
  core_node : BitcoinCoreNode → BoxedNode
  btcd_node : BtcdNode → BoxedNode

-- `info` of the two implementations
unfoldable pub node_info : BoxedNode → NodeInfo
node_info (core_node n) = n.info
node_info (btcd_node n) = n.info

abbrev pub btcd_use_rest : Bool
btcd_use_rest = false

-- `use_rest` of the two implementations
pub node_use_rest : BoxedNode → Bool
node_use_rest (core_node n) = n.use_rest
node_use_rest (btcd_node n) = btcd_use_rest

pub record Network : Type 0 where
  pub id : ℕ
  pub description : String
  pub name : String
  pub min_fork_height : ℕ
  pub max_interesting_heights : ℕ
  pub nodes : List BoxedNode
  pub pool_identification : PoolIdentification

-- What the code takes from its surroundings: the file system, the crate `toml`, the parser of
-- socket addresses, and `to_lowercase`, with its results at the two names that the program prints.
pub record Host (E : Crates) : Type 1 where
  pub SocketAddr : Type 0
  pub exists_file : String → Bool
  pub toml_from_str : String → Result E.TomlError TomlConfig
  pub socket_addr_from_str : String → Result E.AddrParseError SocketAddr
  pub to_lowercase : String → String
  pub to_lowercase-core : to_lowercase "Bitcoin Core" ≡ "bitcoin core"
  pub to_lowercase-btcd : to_lowercase "btcd" ≡ "btcd"

pub record Config {E : Crates} (H : Host E) : Type 0 where
  pub database_path : String
  pub www_path : String
  pub query_interval : ℕ
  pub address : H.SocketAddr
  pub networks : List Network
  pub footer_html : String
  pub rss_base_url : String
