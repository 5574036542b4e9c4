-- ===== src/Jsonrpc.antt =====
-- src/jsonrpc.rs: the JSON-RPC requests to btcd, and how their responses are read. The HTTP client, the
-- JSON parser and the decoders are those of the crates minreq, base64, hex and bitcoin, a parameter.
pub mod Answers
mod Examples
use Prim.Native.String.{◌++◌ as cat}
use mathlib.Core.Option
use fork_observer.Prelude.{
  ℕ, ◌*◌, String, Bool, true, false, Option, none, some, List, [], ◌∷◌, ◌==◌, if◌then◌else◌,
}
use fork_observer.Prelude.Int.{ℤ}
use fork_observer.Prelude.Results.{Result, ok, err, ◌>>=◌, map_err}
use fork_observer.Prelude.Text.{decimal, signed_decimal, byte_len}
use fork_observer.Bitcoin.{Bitcoin}
use fork_observer.Errors.{
  Crates, JsonRpcError, http, json_rpc, rpc_unexpected_response_contents, min_req, from_hex,
  bitcoin_from_hex, bitcoin_deserialize_error,
}
use fork_observer.Types.{ChainTip}

abbrev pub json_rpc_version : String
json_rpc_version = "1.0"

abbrev pub json_rpc_id : ℕ
json_rpc_id = 45324

abbrev pub bitcoin_block_header_hex_length : ℕ
bitcoin_block_header_hex_length = 80 * 2

abbrev pub bitcoin_block_hash_hex_length : ℕ
bitcoin_block_hash_hex_length = 32 * 2

-- `Value` of `serde_json`: the cases that the program makes
pub data Value : Type 0 where
  text : String → Value
  number : ℕ → Value
  flag : Bool → Value

pub record Request : Type 0 where
  pub jsonrpc : String
  pub id : ℕ
  pub method : String
  pub params : List Value

pub record Error : Type 0 where
  pub code : ℤ
  pub message : String

pub error_to_string : Error → String
error_to_string e =
    cat "Error(code=" (cat (signed_decimal e.code) (cat ", message='" (cat e.message "')")))

pub record Response (T : Type 0) : Type 0 where
  pub jsonrpc : String
  pub result : Option T
  pub error : Option Error
  pub id : ℕ

abbrev pub unwrap_or_default : Option String → String
unwrap_or_default none = ""
unwrap_or_default (some t) = t

-- What the code takes from other crates: `post` and `get` send a request and have a response, of
-- which the status, the body and its parts can be read.
pub record Web (B : Bitcoin) (E : Crates) : Type 1 where
  pub HttpResponse : Type 0
  pub Block : Type 0
  pub post : (url authorization : String) → Request → Result E.MinReqError HttpResponse
  pub get : (url : String) → Result E.MinReqError HttpResponse
  pub status_code : HttpResponse → ℕ
  pub reason_phrase : HttpResponse → String
  pub as_str : HttpResponse → Result E.MinReqError String
  pub as_bytes : HttpResponse → List ℕ
  -- `{:?}` of `as_str`, and `Display` of the error of the decoder
  pub debug_as_str : HttpResponse → String
  pub encode_error_to_string : E.EncodeError → String
  pub json_tips : HttpResponse → Result E.MinReqError (Response (List ChainTip))
  pub json_text : HttpResponse → Result E.MinReqError (Response String)
  pub base64 : String → String
  pub hex_decode : String → Result E.FromHexError (List ℕ)
  pub deserialize_header : List ℕ → Result E.EncodeError B.Header
  pub deserialize_block : List ℕ → Result E.EncodeError Block
  pub hash_from_hex : String → Result E.HexToArrayError B.BlockHash
  pub txdata : Block → List B.Transaction

module _ {E : Crates} where
  -- `check`: the id and the version are only logged.
  pub check : {T : Type 0} → String → Response T → Option (JsonRpcError E)
  check method response =
      Option.map
        (λ error. json_rpc (
          cat "JSON RPC response for request '"
            (cat method (cat "' contains error: " (error_to_string error)))))
        response.error

  -- The value, unless there is an error
  pub unless : {A : Type 0} → Option (JsonRpcError E) → A → Result (JsonRpcError E) A
  unless none a = ok a
  unless (some e) a = err e

  -- The text of the response, or the empty text, if it has the length
  pub of_length : String → ℕ → ℕ → String → Response String → Result (JsonRpcError E) String
  of_length method length told what response =
      let content = unwrap_or_default response.result in
      if byte_len content == length
      then ok content
      else err (
          rpc_unexpected_response_contents (
            cat "JSON RPC response for request '" (
              cat method (
                cat "' has not the correct length for a Bitcoin block " (
                  cat what (
                    cat ". Expected " (
                      cat (decimal told) (
                        cat " hex chars but got " (
                          cat (decimal (byte_len content))
                            (cat " chars. Content: " content))))))))))

  -- The result of a response, which must be there
  pub present : {T : Type 0} → String → Option T → Result (JsonRpcError E) T
  present method (some result) = ok result
  present method none =
      err (json_rpc (cat "JSON RPC response for request '" (cat method "' was empty.")))

module _ {B : Bitcoin} {E : Crates} (W : Web B E) where
  -- The response is passed on if its status is 200.
  pub accepted : W.HttpResponse → Result (JsonRpcError E) W.HttpResponse
  accepted res =
      if W.status_code res == 200
      then ok res
      else map_err min_req (W.as_str res) >>= λ body. err (
          http (
            cat "HTTP request failed: " (
              cat (decimal (W.status_code res))
                (cat " " (cat (W.reason_phrase res) (cat ": " body))))))

  pub request :
      (method : String) (params : List Value) (url user password : String)
      → Result (JsonRpcError E) W.HttpResponse
  request method params url user password = do
    let token = cat user (cat ":" password)
    let jsonrpc_request : Request = record {
      jsonrpc = json_rpc_version;
      id = json_rpc_id;
      method = method;
      params = params;
    }
    res ← map_err min_req (W.post url (cat "Basic " (W.base64 token)) jsonrpc_request)
    accepted res

  -- The first part of each of the functions below: the request, its parsed response, and the check
  -- for an error in it
  pub answer_of :
      {T : Type 0}
      → (W.HttpResponse → Result E.MinReqError (Response T))
      → (method : String) (params : List Value) (url user password : String)
      → Result (JsonRpcError E) (Response T)
  answer_of json method params url user password = do
    res ← request method params url user password
    response ← map_err min_req (json res)
    unless (check method response) response

  pub btcd_chaintips : (url user password : String) → Result (JsonRpcError E) (List ChainTip)
  btcd_chaintips url user password = do
    answer ← answer_of W.json_tips "getchaintips" [] url user password
    present "getchaintips" answer.result

  pub btcd_blockheader : (url user password hash : String) → Result (JsonRpcError E) B.Header
  btcd_blockheader url user password hash = do
    answer ← answer_of W.json_text "getblockheader" (text hash ∷ flag false ∷ []) url user password
    header_hex ←
        of_length "getblockheader" bitcoin_block_header_hex_length bitcoin_block_header_hex_length
          "header" answer
    header_bytes ← map_err from_hex (W.hex_decode header_hex)
    map_err bitcoin_deserialize_error (W.deserialize_header header_bytes)

  pub btcd_block : (url user password hash : String) → Result (JsonRpcError E) W.Block
  btcd_block url user password hash = do
    answer ← answer_of W.json_text "getblock" (text hash ∷ number 0 ∷ []) url user password
    block_bytes ← map_err from_hex (W.hex_decode (unwrap_or_default answer.result))
    map_err bitcoin_deserialize_error (W.deserialize_block block_bytes)

  -- The error message tells the length of a header.
  pub btcd_blockhash :
      (url user password : String) (height : ℕ) → Result (JsonRpcError E) B.BlockHash
  btcd_blockhash url user password height = do
    answer ← answer_of W.json_text "getblockhash" (number height ∷ []) url user password
    hash_hex ←
        of_length "getblockhash" bitcoin_block_hash_hex_length bitcoin_block_header_hex_length
          "hash" answer
    map_err bitcoin_from_hex (W.hash_from_hex hash_hex)
