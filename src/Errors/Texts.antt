-- ===== src/Errors/Texts.antt =====
-- The texts of the errors of src/error.rs (`Display`). Those of the errors of other crates that they wrap
-- are a parameter. The text of `MainError` is made of derived debug texts and is left out.
use Prim.Native.String.{◌++◌ as cat}
use fork_observer.Prelude.{String}
use fork_observer.Errors.{
  Crates, JsonRpcError, http, json_rpc, rpc_unexpected_response_contents, min_req, from_hex,
  bitcoin_from_hex, bitcoin_deserialize_error, not_implemented, FetchError, tokio_join,
  bitcoin_core_rpc, bitcoin_core_rest, btcd_rpc, data_error, DbError, rusqlite, decode_hex,
  bitcoin_deserialize, ConfigError, cookie_file_does_not_exist, no_bitcoin_core_rpc_auth,
  no_btcd_rpc_auth, no_networks, unknown_implementation, duplicate_node_id, duplicate_network_id,
  toml_error, read_error, addr_error,
}

-- `{}` and `{:?}` of the errors of other crates, as far as the program prints them
pub record CrateTexts (E : Crates) : Type 0 where
  pub debug_join_error : E.JoinError → String
  pub rpc_error : E.RpcError → String
  pub debug_min_req_error : E.MinReqError → String
  pub from_hex_error : E.FromHexError → String
  pub debug_from_hex_error : E.FromHexError → String
  pub hex_to_array_error : E.HexToArrayError → String
  pub encode_error : E.EncodeError → String
  pub debug_encode_error : E.EncodeError → String
  pub debug_rusqlite_error : E.RusqliteError → String
  pub toml_error : E.TomlError → String
  pub io_error : E.IoError → String
  pub addr_parse_error : E.AddrParseError → String

module _ {E : Crates} (T : CrateTexts E) where
  pub json_rpc_error_to_string : JsonRpcError E → String
  json_rpc_error_to_string (min_req e) = cat "minreq error: " (T.debug_min_req_error e)
  json_rpc_error_to_string (http s) = cat "HTTP error: " s
  json_rpc_error_to_string (json_rpc s) = cat "json-rpc error: " s
  json_rpc_error_to_string (rpc_unexpected_response_contents s) =
      cat "unexpected contents in RPC response: " s
  json_rpc_error_to_string (bitcoin_deserialize_error e) =
      cat "bitcoin deserialize error: " (T.encode_error e)
  json_rpc_error_to_string (from_hex e) = cat "from-hex error: " (T.from_hex_error e)
  json_rpc_error_to_string (bitcoin_from_hex e) =
      cat "bitcoin from-hex error: " (T.hex_to_array_error e)
  json_rpc_error_to_string not_implemented = "NotImplemented"

  pub fetch_error_to_string : FetchError E → String
  fetch_error_to_string (tokio_join e) = cat "TokioJoin Error: " (T.debug_join_error e)
  fetch_error_to_string (bitcoin_core_rpc e) = cat "Bitcoin Core RPC Error: " (T.rpc_error e)
  fetch_error_to_string (btcd_rpc e) = cat "btcd Error: " (json_rpc_error_to_string e)
  fetch_error_to_string (bitcoin_core_rest e) = cat "Bitcoin Core REST Error: " e
  fetch_error_to_string (FetchError.min_req e) =
      cat "MinReq HTTP GET request error: " (T.debug_min_req_error e)
  fetch_error_to_string (data_error e) = cat "Invalid data response error " e

  pub db_error_to_string : DbError E → String
  db_error_to_string (decode_hex e) = cat "hex decoding error: " (T.debug_from_hex_error e)
  db_error_to_string (bitcoin_deserialize e) =
      cat "Bitcoin deserialization error: " (T.debug_encode_error e)
  db_error_to_string (rusqlite e) = cat "Rusqlite SQL error: " (T.debug_rusqlite_error e)

  pub config_error_to_string : ConfigError E → String
  config_error_to_string cookie_file_does_not_exist =
      "the .cookie file path set via rpc_cookie_file does not exist"
  config_error_to_string no_bitcoin_core_rpc_auth =
      "please specify a Bitcoin Core RPC .cookie file (option: 'rpc_cookie_file') or a rpc_user and rpc_password"
  config_error_to_string no_btcd_rpc_auth = "no values for rpc_user and rpc_password"
  config_error_to_string no_networks = "no networks defined in the configuration"
  config_error_to_string unknown_implementation =
      "the node implementation defined in the config is not supported"
  config_error_to_string duplicate_node_id =
      "a node id has been used multiple times in the same network"
  config_error_to_string duplicate_network_id = "a network id has been used multiple times"
  config_error_to_string (toml_error e) =
      cat "the TOML in the configuration file could not be parsed: " (T.toml_error e)
  config_error_to_string (read_error e) =
      cat "the configuration file could not be read: " (T.io_error e)
  config_error_to_string (addr_error e) =
      cat "the address could not be parsed: " (T.addr_parse_error e)
