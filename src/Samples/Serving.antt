-- ===== src/Samples/Serving.antt =====
-- A server of one header, over JSON-RPC and over REST.
use Prim.Native.String.{◌++◌ as cat}
use fork_observer.Prelude.{ℕ, zero, suc, String, none, some, List, [], ◌∷◌, str_eq, if◌then◌else◌}
use fork_observer.Prelude.Results.{ok}
use fork_observer.Jsonrpc.{Web, Response}
use fork_observer.Samples.{btc, crates}

-- `n` times the digit "0"
abbrev pub zeros : ℕ → String
zeros zero = ""
zeros (suc n) = cat "0" (zeros n)

abbrev pub zero_bytes : ℕ → List ℕ
zero_bytes zero = []
zero_bytes (suc n) = 0 ∷ zero_bytes n

abbrev pub response : String → Response String
response content = record { jsonrpc = "1.0"; result = some content; error = none; id = 45324 }

abbrev pub web : Web btc crates
web = record {
  HttpResponse = String;
  Block = String;
  post = λ url authorization req.
      ok (if str_eq req.method "getblockheader" then zeros 160 else zeros 64);
  get = λ url. ok "";
  status_code = λ res. 200;
  reason_phrase = λ res. "OK";
  as_str = λ res. ok res;
  as_bytes = λ res. zero_bytes 160;
  debug_as_str = λ res. res;
  encode_error_to_string = λ e. "";
  json_tips = λ res. ok (record { jsonrpc = "1.0"; result = some []; error = none; id = 45324 });
  json_text = λ res. ok (response res);
  base64 = λ s. s;
  hex_decode = λ s. ok (zero_bytes 80);
  deserialize_header = λ bytes. ok "a";
  deserialize_block = λ bytes. ok "a";
  hash_from_hex = λ s. ok "a";
  txdata = λ block. block ∷ [];
}
