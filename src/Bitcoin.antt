-- ===== src/Bitcoin.antt =====
-- What the program takes from the crates `bitcoin` and `bitcoincore_rpc`: block hashes and headers.
-- They are a parameter of the model; the laws are the documented behaviour.
use fork_observer.Prelude.{ℕ, String, ◌≡◌, Option, some, Key}
use fork_observer.Prelude.Int.{ℤ}

pub record Bitcoin : Type 1 where
  pub BlockHash : Type 0
  pub Header : Type 0
  pub Transaction : Type 0
  -- `Eq` of `BlockHash`
  pub hash_key : Key BlockHash
  pub block_hash : Header → BlockHash
  pub prev_blockhash : Header → BlockHash
  -- `Display` and `FromStr` of `BlockHash`
  pub hash_to_string : BlockHash → String
  pub hash_from_str : String → Option BlockHash
  pub from_str-to_string : (h : BlockHash) → hash_from_str (hash_to_string h) ≡ some h
  -- `version.to_consensus()`, an `i32`
  pub version : Header → ℤ
  -- `merkle_root.to_string()`
  pub merkle_root : Header → String
  pub time : Header → ℕ
  -- `bits.to_consensus()`
  pub bits : Header → ℕ
  -- `difficulty_float() as u64`
  pub difficulty_int : Header → ℕ
  pub nonce : Header → ℕ
