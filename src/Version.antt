-- ===== src/Version.antt =====
-- `load_node_version` of src/main.rs: the version of a node, requested five times at most.
pub mod Attempts
mod Examples
use fork_observer.Prelude.{ℕ, zero, suc, String, Bool, true, false}
use fork_observer.Prelude.Results.{Result, ok, err}
use fork_observer.Errors.{Crates, FetchError, bitcoin_core_rpc}
use fork_observer.Cache.{version_unknown}

module _ {E : Crates} (is_json_rpc : E.RpcError → Bool) where
  -- The error is `BitcoinCoreRPC(JsonRpc(_))`, after which the request is made again.
  pub is_retried : FetchError E → Bool
  is_retried (bitcoin_core_rpc e) = is_json_rpc e
  is_retried _ = false

  -- The loop, with the attempts that are left and the number of the next one; `answers` are
  -- the answers of the node to the attempts.
  pub try_version : ℕ → ℕ → (ℕ → Result (FetchError E) String) → String
  try_version zero attempt answers = version_unknown
  try_version (suc left) attempt answers = elim (answers attempt) [
    | ok version ↦ version
    | err e ↦ elim (is_retried e) [
      | true ↦ try_version left (suc attempt) answers
      | false ↦ version_unknown
    ]
  ]

  pub load_node_version : (ℕ → Result (FetchError E) String) → String
  load_node_version answers = try_version 5 0 answers
