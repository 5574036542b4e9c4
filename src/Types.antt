-- ===== src/Types.antt =====
-- src/types.rs: the data that the parts of the program share, and `NodeInfo` of src/node.rs.
pub mod Status
pub mod Equality
use Prim.Native.String.{◌++◌ as cat}
use fork_observer.Prelude.{ℕ, String, Bool, Option, none, some, List, map, arith}
use fork_observer.Prelude.BTree.{BTreeMap}
use fork_observer.Prelude.Text.{decimal}
use fork_observer.Prelude.Int.{as_unsigned}
use fork_observer.Bitcoin.{Bitcoin}
use Status.{ChainTipStatus, Reply, from_reply, status_to_string}

pub record ChainTip : Type 0 where
  pub height : ℕ
  pub hash : String
  pub branchlen : ℕ
  pub status : ChainTipStatus

pub record TipInfoJson : Type 0 where
  pub hash : String
  pub status : String
  pub height : ℕ

unfoldable pub tip_info : ChainTip → TipInfoJson
tip_info tip = record { hash = tip.hash; status = status_to_string tip.status; height = tip.height }

pub record NodeInfo : Type 0 where
  pub id : ℕ
  pub name : String
  pub description : String
  pub implementation : String

-- `Display` of `NodeInfo`
pub node_info_to_string : NodeInfo → String
node_info_to_string info = cat "Node(id=" (
    cat (decimal info.id)
      (cat ", name='" (cat info.name (cat "', implementation='" (cat info.implementation "')")))))

pub record NodeDataJson : Type 0 where
  pub id : ℕ
  pub name : String
  pub description : String
  pub implementation : String
  pub tips : List TipInfoJson
  pub last_changed_timestamp : ℕ
  pub version : String
  pub reachable : Bool

unfoldable pub node_data_json : NodeInfo → List ChainTip → String → ℕ → Bool → NodeDataJson
node_data_json info tips version last_changed_timestamp reachable = record {
  id = info.id;
  name = info.name;
  description = info.description;
  implementation = info.implementation;
  tips = map tip_info tips;
  last_changed_timestamp = last_changed_timestamp;
  version = version;
  reachable = reachable;
}

unfoldable pub set_reachable : Bool → NodeDataJson → NodeDataJson
set_reachable r e = record e { reachable = r }

unfoldable pub set_version : String → NodeDataJson → NodeDataJson
set_version v e = record e { version = v }

-- `SystemTime::now().duration_since(UNIX_EPOCH)` in seconds; `none` before the epoch.
abbrev pub Clock : Type 0
Clock = Option ℕ

unfoldable pub as_secs : Clock → ℕ
as_secs (some n) = n
as_secs none = 0

unfoldable pub set_tips : Clock → List ChainTip → NodeDataJson → NodeDataJson
unfolding as_secs
set_tips now tips e = record e { tips = map tip_info tips; last_changed_timestamp = as_secs now }

pub record HeaderInfoJson : Type 0 where
  pub id : ℕ
  pub prev_id : ℕ
  pub height : ℕ
  pub hash : String
  pub version : ℕ
  pub prev_blockhash : String
  pub merkle_root : String
  pub time : ℕ
  pub bits : ℕ
  pub difficulty_int : ℕ
  pub nonce : ℕ
  pub miner : String

unfoldable pub set_json_miner : String → HeaderInfoJson → HeaderInfoJson
set_json_miner miner h = record h { miner = miner }

pub record HeaderInfo (B : Bitcoin) : Type 0 where
  pub height : ℕ
  pub header : B.Header
  pub miner : String

pub record Fork (B : Bitcoin) : Type 0 where
  pub common : HeaderInfo B
  pub children : List (HeaderInfo B)

pub record Cache (B : Bitcoin) : Type 0 where
  pub header_infos_json : List HeaderInfoJson
  pub node_data : BTreeMap NodeDataJson
  pub forks : List (Fork B)
  pub recent_miners : List (String × String)

-- The caches by the id of their network.
abbrev pub Caches : Bitcoin → Type 0
Caches B = BTreeMap (Cache B)

module _ {B : Bitcoin} where
  unfoldable pub set_miner : String → HeaderInfo B → HeaderInfo B
  set_miner miner h = record h { miner = miner }

  abbrev pub hash_of : HeaderInfo B → B.BlockHash
  hash_of h = B.block_hash h.header

  unfoldable pub header_info_json : HeaderInfo B → ℕ → ℕ → HeaderInfoJson
  header_info_json hi id prev_id = record {
    id = id;
    prev_id = prev_id;
    height = hi.height;
    hash = B.hash_to_string (B.block_hash hi.header);
    version = as_unsigned 32 (B.version hi.header);
    prev_blockhash = B.hash_to_string (B.prev_blockhash hi.header);
    merkle_root = B.merkle_root hi.header;
    time = B.time hi.header;
    bits = B.bits hi.header;
    difficulty_int = B.difficulty_int hi.header;
    nonce = B.nonce hi.header;
    miner = hi.miner;
  }

-- `GetChainTipsResultTip` of the `bitcoincore_rpc` crate, as far as the program reads it.
pub record TipReply (B : Bitcoin) : Type 0 where
  pub height : ℕ
  pub hash : B.BlockHash
  pub branch_length : ℕ
  pub status : Reply

module _ {B : Bitcoin} where
  unfoldable pub chain_tip : TipReply B → ChainTip
  chain_tip t = record {
    height = t.height;
    hash = B.hash_to_string t.hash;
    branchlen = t.branch_length;
    status = from_reply t.status;
  }

-- `ChainTip::block_hash`; `none` stands for the panic of `unwrap`.
unfoldable pub tip_block_hash : (B : Bitcoin) → ChainTip → Option B.BlockHash
tip_block_hash B tip = B.hash_from_str tip.hash
