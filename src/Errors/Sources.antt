-- ===== src/Errors/Sources.antt =====
-- The sources of the errors of src/error.rs: which error an error was made from.
use fork_observer.Prelude.{
  ℕ, zero, suc, ◌≤◌, ◌≡◌, refl, Option, none, some, List, [], ◌∷◌, length, arith,
}
use fork_observer.Errors.{
  Crates, JsonRpcError, http, json_rpc, rpc_unexpected_response_contents, min_req, from_hex,
  bitcoin_from_hex, bitcoin_deserialize_error, not_implemented, FetchError, tokio_join,
  bitcoin_core_rpc, bitcoin_core_rest, btcd_rpc, data_error, DbError, rusqlite, decode_hex,
  bitcoin_deserialize, ConfigError, cookie_file_does_not_exist, no_bitcoin_core_rpc_auth,
  no_btcd_rpc_auth, no_networks, unknown_implementation, duplicate_node_id, duplicate_network_id,
  toml_error, read_error, addr_error, MainError, db, fetch, config,
}

-- The errors of other crates
pub data CrateError (E : Crates) : Type 0 where
  join : E.JoinError → CrateError E
  rpc : E.RpcError → CrateError E
  minreq : E.MinReqError → CrateError E
  hex : E.FromHexError → CrateError E
  hash_hex : E.HexToArrayError → CrateError E
  encode : E.EncodeError → CrateError E
  sqlite : E.RusqliteError → CrateError E
  toml : E.TomlError → CrateError E
  io : E.IoError → CrateError E
  addr : E.AddrParseError → CrateError E

-- `dyn Error`: an error of the program or of another crate
pub data AnyError (E : Crates) : Type 0 where
  of_json_rpc : JsonRpcError E → AnyError E
  of_fetch : FetchError E → AnyError E
  of_db : DbError E → AnyError E
  of_config : ConfigError E → AnyError E
  of_main : MainError E → AnyError E
  of_crate : CrateError E → AnyError E

module _ {E : Crates} where
  pub json_rpc_error_source : JsonRpcError E → Option (AnyError E)
  json_rpc_error_source (http s) = none
  json_rpc_error_source (json_rpc s) = none
  json_rpc_error_source (rpc_unexpected_response_contents s) = none
  json_rpc_error_source not_implemented = none
  json_rpc_error_source (min_req e) = some (of_crate (minreq e))
  json_rpc_error_source (from_hex e) = some (of_crate (hex e))
  json_rpc_error_source (bitcoin_from_hex e) = some (of_crate (hash_hex e))
  json_rpc_error_source (bitcoin_deserialize_error e) = some (of_crate (encode e))

  pub fetch_error_source : FetchError E → Option (AnyError E)
  fetch_error_source (tokio_join e) = some (of_crate (join e))
  fetch_error_source (bitcoin_core_rpc e) = some (of_crate (rpc e))
  fetch_error_source (btcd_rpc e) = some (of_json_rpc e)
  fetch_error_source (bitcoin_core_rest e) = none
  fetch_error_source (FetchError.min_req e) = some (of_crate (minreq e))
  fetch_error_source (data_error e) = none

  pub db_error_source : DbError E → Option (AnyError E)
  db_error_source (decode_hex e) = some (of_crate (hex e))
  db_error_source (bitcoin_deserialize e) = some (of_crate (encode e))
  db_error_source (rusqlite e) = some (of_crate (sqlite e))

  pub config_error_source : ConfigError E → Option (AnyError E)
  config_error_source no_bitcoin_core_rpc_auth = none
  config_error_source no_btcd_rpc_auth = none
  config_error_source cookie_file_does_not_exist = none
  config_error_source no_networks = none
  config_error_source unknown_implementation = none
  config_error_source (toml_error e) = some (of_crate (toml e))
  config_error_source (read_error e) = some (of_crate (io e))
  config_error_source (addr_error e) = some (of_crate (addr e))
  config_error_source duplicate_node_id = none
  config_error_source duplicate_network_id = none

  pub main_error_source : MainError E → Option (AnyError E)
  main_error_source (db e) = some (of_db e)
  main_error_source (fetch e) = some (of_fetch e)
  main_error_source (config e) = some (of_config e)

  -- `source`; what an error of another crate was made from is not looked at.
  pub source : AnyError E → Option (AnyError E)
  source (of_json_rpc e) = json_rpc_error_source e
  source (of_fetch e) = fetch_error_source e
  source (of_db e) = db_error_source e
  source (of_config e) = config_error_source e
  source (of_main e) = main_error_source e
  source (of_crate e) = none

  -- The number of sources below an error, at most
  abbrev pub depth : AnyError E → ℕ
  depth (of_main e) = 3
  depth (of_fetch e) = 2
  depth (of_json_rpc e) = 1
  depth (of_db e) = 1
  depth (of_config e) = 1
  depth (of_crate e) = 0

  abbrev Below : ℕ → Option (AnyError E) → Type 0
  Below n none = Unit
  Below n (some e) = suc (depth e) ≤ n

  json_rpc_error_source-Below : (e : JsonRpcError E) → Below 1 (json_rpc_error_source e)
  unfolding json_rpc_error_source
  json_rpc_error_source-Below (http s) = tt
  json_rpc_error_source-Below (json_rpc s) = tt
  json_rpc_error_source-Below (rpc_unexpected_response_contents s) = tt
  json_rpc_error_source-Below not_implemented = tt
  json_rpc_error_source-Below (min_req e) = omega arith
  json_rpc_error_source-Below (from_hex e) = omega arith
  json_rpc_error_source-Below (bitcoin_from_hex e) = omega arith
  json_rpc_error_source-Below (bitcoin_deserialize_error e) = omega arith

  fetch_error_source-Below : (e : FetchError E) → Below 2 (fetch_error_source e)
  unfolding fetch_error_source
  fetch_error_source-Below (tokio_join e) = omega arith
  fetch_error_source-Below (bitcoin_core_rpc e) = omega arith
  fetch_error_source-Below (btcd_rpc e) = omega arith
  fetch_error_source-Below (bitcoin_core_rest e) = tt
  fetch_error_source-Below (FetchError.min_req e) = omega arith
  fetch_error_source-Below (data_error e) = tt

  db_error_source-Below : (e : DbError E) → Below 1 (db_error_source e)
  unfolding db_error_source
  db_error_source-Below (decode_hex e) = omega arith
  db_error_source-Below (bitcoin_deserialize e) = omega arith
  db_error_source-Below (rusqlite e) = omega arith

  config_error_source-Below : (e : ConfigError E) → Below 1 (config_error_source e)
  unfolding config_error_source
  config_error_source-Below no_bitcoin_core_rpc_auth = tt
  config_error_source-Below no_btcd_rpc_auth = tt
  config_error_source-Below cookie_file_does_not_exist = tt
  config_error_source-Below no_networks = tt
  config_error_source-Below unknown_implementation = tt
  config_error_source-Below (toml_error e) = omega arith
  config_error_source-Below (read_error e) = omega arith
  config_error_source-Below (addr_error e) = omega arith
  config_error_source-Below duplicate_node_id = tt
  config_error_source-Below duplicate_network_id = tt

  main_error_source-Below : (e : MainError E) → Below 3 (main_error_source e)
  unfolding main_error_source
  main_error_source-Below (db e) = omega arith
  main_error_source-Below (fetch e) = omega arith
  main_error_source-Below (config e) = omega arith

  -- The source of an error is closer to the end of the chain.
  source-Below : (e : AnyError E) → Below (depth e) (source e)
  unfolding source
  source-Below (of_json_rpc e) = json_rpc_error_source-Below e
  source-Below (of_fetch e) = fetch_error_source-Below e
  source-Below (of_db e) = db_error_source-Below e
  source-Below (of_config e) = config_error_source-Below e
  source-Below (of_main e) = main_error_source-Below e
  source-Below (of_crate e) = tt

  -- The errors of a chain, each the source of the one before, up to one without a source
  pub data Chain : AnyError E → List (AnyError E) → Type 0 where
    ends : (e : AnyError E) → source e ≡ none → Chain e (e ∷ [])
    more :
        (e s : AnyError E) (es : List (AnyError E))
        → source e ≡ some s
        → Chain s es
        → Chain e (e ∷ es)

  source-Chain_upto :
      (n : ℕ) (e : AnyError E)
      → depth e ≤ n
      → (es : List (AnyError E)) × Chain e es × (length es ≤ suc n)
  source-Chain_upto n e le = go n e le (source e) refl (source-Below e)
    where
      go :
          (n : ℕ) (e : AnyError E)
          → depth e ≤ n
          → (o : Option (AnyError E)) → source e ≡ o
          → Below (depth e) o
          → (es : List (AnyError E)) × Chain e es × (length es ≤ suc n)
      go n e le none at below = (e ∷ [], ends e at, omega arith)
      go zero e le (some s) at below = absurd (omega (arith, below, le))
      go (suc n) e le (some s) at below =
          let (es, chain, short) =
            go n s (omega (arith, below, le)) (source s) refl (source-Below s) in
          (e ∷ es, more e s es at chain, omega (arith, short))

  -- The chain of sources of every error ends: it has at most four errors, the first of which is the
  -- error itself and the last of which has no source.
  pub source-Chain : (e : AnyError E) → (es : List (AnyError E)) × Chain e es × (length es ≤ 4)
  source-Chain e =
      let (es, chain, short) = source-Chain_upto 3 e (at_most_three e) in
      (es, chain, omega (arith, short))
    where
      at_most_three : (e : AnyError E) → depth e ≤ 3
      at_most_three (of_main e) = omega arith
      at_most_three (of_fetch e) = omega arith
      at_most_three (of_json_rpc e) = omega arith
      at_most_three (of_db e) = omega arith
      at_most_three (of_config e) = omega arith
      at_most_three (of_crate e) = omega arith
