-- ===== src/Errors.antt =====
-- The error types of src/error.rs. The errors of other crates that they wrap are a parameter.
pub mod Texts
pub mod Sources
use fork_observer.Prelude.{String}

-- The error types of tokio, bitcoincore_rpc, minreq, hex, bitcoin, rusqlite, toml and std.
pub record Crates : Type 1 where
  pub JoinError : Type 0
  pub RpcError : Type 0
  pub MinReqError : Type 0
  pub FromHexError : Type 0
  pub HexToArrayError : Type 0
  pub EncodeError : Type 0
  pub RusqliteError : Type 0
  pub TomlError : Type 0
  pub IoError : Type 0
  pub AddrParseError : Type 0

pub data JsonRpcError (E : Crates) : Type 0 where
  http : String → JsonRpcError E
  json_rpc : String → JsonRpcError E
  rpc_unexpected_response_contents : String → JsonRpcError E
  min_req : E.MinReqError → JsonRpcError E
  from_hex : E.FromHexError → JsonRpcError E
  bitcoin_from_hex : E.HexToArrayError → JsonRpcError E
  bitcoin_deserialize_error : E.EncodeError → JsonRpcError E
  not_implemented : JsonRpcError E

pub data FetchError (E : Crates) : Type 0 where
  tokio_join : E.JoinError → FetchError E
  bitcoin_core_rpc : E.RpcError → FetchError E
  bitcoin_core_rest : String → FetchError E
  btcd_rpc : JsonRpcError E → FetchError E
  min_req : E.MinReqError → FetchError E
  data_error : String → FetchError E

pub data DbError (E : Crates) : Type 0 where
  rusqlite : E.RusqliteError → DbError E
  decode_hex : E.FromHexError → DbError E
  bitcoin_deserialize : E.EncodeError → DbError E

pub data ConfigError (E : Crates) : Type 0 where
  cookie_file_does_not_exist no_bitcoin_core_rpc_auth no_btcd_rpc_auth no_networks : ConfigError E
  unknown_implementation duplicate_node_id duplicate_network_id : ConfigError E
  toml_error : E.TomlError → ConfigError E
  read_error : E.IoError → ConfigError E
  addr_error : E.AddrParseError → ConfigError E

pub data MainError (E : Crates) : Type 0 where
  db : DbError E → MainError E
  fetch : FetchError E → MainError E
  config : ConfigError E → MainError E
