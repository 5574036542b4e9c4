-- ===== src/Node/Rest.antt =====
-- `active_chain_headers_rest` of src/node.rs: headers over the REST interface of Bitcoin Core, as bytes.
-- Its assertion holds, since only the rounds of nodes that use REST call it.
pub mod Chunks
use Prim.Native.String.{◌++◌ as cat}
use fork_observer.Prelude.{
  ℕ, zero, suc, String, List, [], ◌∷◌, length, take, drop, ◌==◌, if◌then◌else◌,
}
use fork_observer.Prelude.Results.{Result, ok, err, ◌>>=◌, map_err}
use fork_observer.Prelude.Text.{decimal}
use fork_observer.Bitcoin.{Bitcoin}
use fork_observer.Errors.{Crates, FetchError, bitcoin_core_rest, min_req}
use fork_observer.Jsonrpc.{Web}

-- `chunks(80)`, with fuel for a chunk of each byte
pub chunks_upto : ℕ → List ℕ → List (List ℕ)
chunks_upto zero bytes = []
chunks_upto (suc fuel) [] = []
chunks_upto (suc fuel) (b ∷ bytes) = take 80 (b ∷ bytes) ∷ chunks_upto fuel (drop 80 (b ∷ bytes))

pub chunks : List ℕ → List (List ℕ)
chunks bytes = chunks_upto (length bytes) bytes

module _ {B : Bitcoin} {E : Crates} (W : Web B E) where
  -- `map(deserialize).collect()`: the headers, or the first error
  pub deserialize_all : List (List ℕ) → Result E.EncodeError (List B.Header)
  deserialize_all [] = ok []
  deserialize_all (c ∷ cs) = do
    header ← W.deserialize_header c
    headers ← deserialize_all cs
    ok (header ∷ headers)

  pub rest_url : String → ℕ → B.BlockHash → String
  rest_url rpc_url count start = cat "http://" (
      cat rpc_url (
        cat "/rest/headers/" (cat (decimal count) (cat "/" (cat (B.hash_to_string start) ".bin")))))

  -- What follows a response
  pub headers_of_response : String → W.HttpResponse → Result (FetchError E) (List B.Header)
  headers_of_response url res =
      if W.status_code res == 200
      then map_err
          (λ e.
            bitcoin_core_rest
              (cat "could not deserialize REST header response: " (W.encode_error_to_string e)))
          (deserialize_all (chunks (W.as_bytes res)))
      else err (
          bitcoin_core_rest (
            cat "could not load headers from REST URL (" (
              cat url (
                cat "): " (
                  cat (decimal (W.status_code res))
                    (cat " " (cat (W.reason_phrase res) (cat ": " (W.debug_as_str res)))))))))

  pub active_chain_headers_rest : String → ℕ → B.BlockHash → Result (FetchError E) (List B.Header)
  active_chain_headers_rest rpc_url count start = do
    res ← map_err min_req (W.get (rest_url rpc_url count start))
    headers_of_response (rest_url rpc_url count start) res
