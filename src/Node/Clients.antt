-- ===== src/Node/Clients.antt =====
-- The implementations of the trait `Node` of src/node.rs: `BitcoinCoreNode`, over the RPC client of the
-- crate bitcoincore_rpc, a parameter, and `BtcdNode`, over src/jsonrpc.rs.
pub mod Served
use Prim.Native.String.{◌++◌ as cat}
use fork_observer.Prelude.{ℕ, String, List, [], ◌∷◌, map}
use fork_observer.Prelude.Results.{Result, ok, err, ◌>>=◌, map_err}
use fork_observer.Bitcoin.{Bitcoin}
use fork_observer.Config.Settings.{Auth, BitcoinCoreNode, BtcdNode, btcd_use_rest}
use fork_observer.Errors.{
  Crates, FetchError, tokio_join, bitcoin_core_rpc, btcd_rpc, JsonRpcError, not_implemented,
}
use fork_observer.Jsonrpc.{Web, btcd_chaintips, btcd_blockheader, btcd_block, btcd_blockhash}
use fork_observer.Node.{Node, Fetch, fetch, panicked}
use fork_observer.Node.Rest.{active_chain_headers_rest}
use fork_observer.Types.{ChainTip, TipReply, chain_tip}

-- `Client` of bitcoincore_rpc. Each call is made by `spawn_blocking`, whose join may fail.
pub record Rpc (B : Bitcoin) (E : Crates) : Type 1 where
  pub Client : Type 0
  pub new : String → Auth → Result E.RpcError Client
  -- the field `subversion`
  pub get_network_info : Client → Result E.JoinError (Result E.RpcError String)
  pub get_block_hash : Client → ℕ → Result E.JoinError (Result E.RpcError B.BlockHash)
  pub get_block_header : Client → B.BlockHash → Result E.JoinError (Result E.RpcError B.Header)
  -- the field `txdata`
  pub get_block : Client → B.BlockHash → Result E.JoinError (Result E.RpcError (List B.Transaction))
  pub get_chain_tips : Client → Result E.JoinError (Result E.RpcError (List (TipReply B)))

-- `first().expect(…)`
pub first_transaction : {E : Crates} {T : Type 0} → List T → Fetch E T
first_transaction [] = err panicked
first_transaction (tx ∷ txs) = ok tx

-- The conversion of both errors by `into`
pub joined :
    {E : Crates} {A : Type 0} → Result E.JoinError (Result E.RpcError A) → Result (FetchError E) A
joined (err e) = err (tokio_join e)
joined (ok (err e)) = err (bitcoin_core_rpc e)
joined (ok (ok a)) = ok a

module _ {B : Bitcoin} {E : Crates} (R : Rpc B E) (W : Web B E) (n : BitcoinCoreNode) where
  pub rpc_client : Result (FetchError E) R.Client
  rpc_client = map_err bitcoin_core_rpc (R.new n.rpc_url n.rpc_auth)

  -- `impl Node for BitcoinCoreNode`
  pub bitcoin_core_node : Node B E
  bitcoin_core_node = record {
    info = n.info;
    use_rest = n.use_rest;
    rpc_url = n.rpc_url;
    version = rpc_client >>= λ rpc. joined (R.get_network_info rpc);
    block_header = λ hash. rpc_client >>= λ rpc. joined (R.get_block_header rpc hash);
    block_hash = λ height. rpc_client >>= λ rpc. joined (R.get_block_hash rpc height);
    tips = rpc_client >>= λ rpc. joined (R.get_chain_tips rpc) >>= λ tips. ok (map chain_tip tips);
    coinbase = λ hash.
        map_err fetch (rpc_client >>= λ rpc. joined (R.get_block rpc hash)) >>= first_transaction;
    active_chain_headers_rest = active_chain_headers_rest W n.rpc_url;
  }

module _ {B : Bitcoin} {E : Crates} (W : Web B E) (n : BtcdNode) where
  pub btcd_url : String
  btcd_url = cat "http://" (cat n.rpc_url "/")

  -- `impl Node for BtcdNode`
  pub btcd : Node B E
  btcd = record {
    info = n.info;
    use_rest = btcd_use_rest;
    rpc_url = n.rpc_url;
    version = err (btcd_rpc not_implemented);
    block_header = λ hash.
        map_err btcd_rpc
          (btcd_blockheader W btcd_url n.rpc_user n.rpc_password (B.hash_to_string hash));
    block_hash =
        λ height. map_err btcd_rpc (btcd_blockhash W btcd_url n.rpc_user n.rpc_password height);
    tips = map_err btcd_rpc (btcd_chaintips W btcd_url n.rpc_user n.rpc_password);
    coinbase = λ hash.
        map_err (λ e. fetch (btcd_rpc e))
          (btcd_block W btcd_url n.rpc_user n.rpc_password (B.hash_to_string hash))
        >>= λ block. first_transaction (W.txdata block);
    active_chain_headers_rest = active_chain_headers_rest W n.rpc_url;
  }
