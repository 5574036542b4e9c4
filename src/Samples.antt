-- ===== src/Samples.antt =====
-- Values for the parameters of the model, which show that their laws can hold, and small inputs
-- for the tests and the examples.
pub mod Graph
pub mod Table
pub mod Walking
pub mod Weighing
pub mod Running
pub mod Serving
use fork_observer.Prelude.{ℕ, String, refl, some, string_key}
use fork_observer.Prelude.Int.{pos}
use fork_observer.Bitcoin.{Bitcoin}
use fork_observer.Errors.{Crates}
use fork_observer.Types.{HeaderInfo}

-- The text without its first character.
abbrev pub without_first : String → String
without_first String.[] = String.[]
without_first (String.◌∷◌ c s) = s

-- Headers that are no more than their hash, a text; the block before "cab" is "ab".
abbrev pub btc : Bitcoin
btc = record {
  BlockHash = String;
  Header = String;
  Transaction = String;
  hash_key = string_key;
  block_hash = λ h. h;
  prev_blockhash = without_first;
  hash_to_string = λ s. s;
  hash_from_str = λ s. some s;
  from_str-to_string = λ h. refl;
  version = λ h. pos 2;
  merkle_root = λ h. "";
  time = λ h. 0;
  bits = λ h. 0;
  difficulty_int = λ h. 1;
  nonce = λ h. 0;
}

abbrev pub header : ℕ → String → HeaderInfo btc
header height hash = record { height = height; header = hash; miner = "" }

abbrev pub crates : Crates
crates = record {
  JoinError = Unit;
  RpcError = Unit;
  MinReqError = Unit;
  FromHexError = Unit;
  HexToArrayError = Unit;
  EncodeError = Unit;
  RusqliteError = Unit;
  TomlError = Unit;
  IoError = Unit;
  AddrParseError = Unit;
}
