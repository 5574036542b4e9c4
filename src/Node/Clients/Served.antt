-- ===== src/Node/Clients/Served.antt =====
-- A btcd or Bitcoin Core node whose interface delivers a chain serves that chain as a `Node`, so that the
-- new headers of its active chain are loaded.
use fork_observer.Prelude.{ℕ, ◌≤◌, ◌<◌, ◌^◌, ◌≡◌, refl, ap, some, List, false, select, last}
use fork_observer.Prelude.Results.{ok, map_err}
use fork_observer.Bitcoin.{Bitcoin}
use fork_observer.Config.Settings.{BitcoinCoreNode, BtcdNode}
use fork_observer.Errors.{Crates, btcd_rpc}
use fork_observer.Jsonrpc.{Web}
use fork_observer.Jsonrpc.Answers.{
  DeliversHeader, DeliversHash, btcd_blockheader_iff, btcd_blockhash_iff,
}
use fork_observer.Node.{Node, new_active_headers}
use fork_observer.Node.Clients.{Rpc, rpc_client, joined, bitcoin_core_node, btcd_url, btcd}
use fork_observer.Node.Rpc.{new_active_headers-UnknownRun}
use fork_observer.Node.Runs.{Serves, up, UnknownRun}
use fork_observer.Petgraph.{DiGraph}
use fork_observer.Tree.{TreeInfo}
use fork_observer.Types.{ChainTip, HeaderInfo}
use fork_observer.Types.Status.{is_active}

module _ {B : Bitcoin} {E : Crates} (W : Web B E) (n : BtcdNode) (chain : ℕ → B.Header)
    (top : ℕ) where
  -- btcd delivers the hash and the header of each height of the chain up to `top`.
  pub record BtcdDelivers : Type 0 where
    pub hashes :
        (h : ℕ)
        → h ≤ top
        → DeliversHash W (btcd_url W n) n.rpc_user n.rpc_password h (B.block_hash (chain h))
    pub headers :
        (h : ℕ)
        → h ≤ top
        → DeliversHeader W
            (btcd_url W n)
            n.rpc_user
            n.rpc_password
            (B.hash_to_string (B.block_hash (chain h)))
            (chain h)

  btcd-Serves : BtcdDelivers → Serves (btcd W n) chain top
  unfolding btcd
  btcd-Serves d = record {
    hashes = λ h le. ap (map_err btcd_rpc) (
        (btcd_blockhash_iff W (btcd_url W n) n.rpc_user n.rpc_password h (B.block_hash (chain h))).1
          (d.hashes h le));
    headers = λ h le. ap (map_err btcd_rpc) (
        (btcd_blockheader_iff W (btcd_url W n) n.rpc_user n.rpc_password
            (B.hash_to_string (B.block_hash (chain h))) (chain h)).1
          (d.headers h le));
  }

module _ {B : Bitcoin} {E : Crates} (R : Rpc B E) (W : Web B E) (n : BitcoinCoreNode)
    (chain : ℕ → B.Header) (top : ℕ) where
  -- The client can be made, and its calls return the hash and the header of each height.
  pub record CoreDelivers : Type 0 where
    pub client : R.Client
    pub made : R.new n.rpc_url n.rpc_auth ≡ ok client
    pub hashes : (h : ℕ) → h ≤ top → R.get_block_hash client h ≡ ok (ok (B.block_hash (chain h)))
    pub headers :
        (h : ℕ) → h ≤ top → R.get_block_header client (B.block_hash (chain h)) ≡ ok (ok (chain h))

  bitcoin_core_node-Serves : CoreDelivers → Serves (bitcoin_core_node R W n) chain top
  unfolding bitcoin_core_node rpc_client joined
  bitcoin_core_node-Serves d = record {
    hashes = λ h le. rw (d.made, d.hashes h le) refl;
    headers = λ h le. rw (d.made, d.headers h le) refl;
  }

-- From the node, `new_active_headers` loads the run of unknown headers of the chain below `top`.
abbrev pub LoadsRun :
    {B : Bitcoin} {E : Crates} {P : DiGraph (HeaderInfo B)}
    → TreeInfo B P
    → (ℕ → B.Header)
    → ℕ
    → ℕ
    → List ChainTip
    → Node B E
    → Type 0
LoadsRun tree chain top lowest tips node =
    (low n : ℕ) × (new_active_headers node tree tips lowest ≡ ok (up chain low n))
    × UnknownRun tree chain lowest top low n

module _ {B : Bitcoin} {E : Crates} {P : DiGraph (HeaderInfo B)} (tree : TreeInfo B P)
    (chain : ℕ → B.Header) (top lowest : ℕ) (top_i64 : top < 2 ^ 63) (lowest_i64 : lowest < 2 ^ 63)
    (tips : List ChainTip) (tip : ChainTip)
    (active : last (select (λ t. is_active t.status) tips) ≡ some tip) (at_top : tip.height ≡ top)
    (ge : lowest ≤ top) where
  -- If btcd answers every request for a hash or a header of a chain with a response that contains it,
  -- then from its active tip, which is no lower than `min_fork_height`, with heights below 2 ^ 63,
  -- exactly the run of unknown headers below the tip is loaded, in ascending order.
  pub btcd-LoadsRun :
      (W : Web B E) (n : BtcdNode)
      → BtcdDelivers W n chain top
      → LoadsRun tree chain top lowest tips (btcd W n)
  unfolding btcd
  btcd-LoadsRun W n delivers =
      new_active_headers-UnknownRun (btcd W n) tree chain top lowest refl
        (btcd-Serves W n chain top delivers) top_i64 lowest_i64 tips tip active at_top ge

  -- So it is for Bitcoin Core over RPC, if its client can be made and its calls return the chain.
  pub bitcoin_core_node-LoadsRun :
      (R : Rpc B E) (W : Web B E) (n : BitcoinCoreNode)
      → n.use_rest ≡ false
      → CoreDelivers R W n chain top
      → LoadsRun tree chain top lowest tips (bitcoin_core_node R W n)
  unfolding bitcoin_core_node
  bitcoin_core_node-LoadsRun R W n over_rpc delivers =
      new_active_headers-UnknownRun (bitcoin_core_node R W n) tree chain top lowest over_rpc
        (bitcoin_core_node-Serves R W n chain top delivers) top_i64 lowest_i64 tips tip active
        at_top ge
