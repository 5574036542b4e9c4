-- ===== src/Node/Examples.antt =====
-- A node with a short chain and a fork of two blocks, and the theorems on new headers at it.
use fork_observer.Prelude.{
  ℕ, zero, suc, ◌+◌, ◌*◌, ◌≤◌, ◌<◌, length, ◌≡◌, refl, false, List, [], ◌∷◌, String, arith,
  Selected, done, keep, drop_one,
}
use fork_observer.Prelude.Results.{ok}
use fork_observer.Petgraph.{DiGraph}
use fork_observer.Types.{HeaderInfo, ChainTip, tip_block_hash}
use fork_observer.Types.Status.{ChainTipStatus, is_active}
use fork_observer.Samples.{btc, header, crates, without_first}
use fork_observer.Samples.Graph.{list_graph}
use fork_observer.Tree.{TreeInfo, empty_tree}
use fork_observer.Node.{Node, new_headers, new_active_headers, new_nonactive_headers}
use fork_observer.Node.Branch.{
  ServesBranch, IsForkAbove, branches_of, new_nonactive_headers-branches_of,
}
use fork_observer.Config.Settings.{BtcdNode}
use fork_observer.Node.Clients.{btcd}
use fork_observer.Node.Clients.Served.{BtcdDelivers, LoadsRun, btcd-LoadsRun}
use fork_observer.Node.Rest.{rest_url, active_chain_headers_rest}
use fork_observer.Node.Rest.Chunks.{
  length-active_chain_headers_rest, active_chain_headers_rest-concat,
}
use fork_observer.Prelude.Text.{byte_len}
use fork_observer.Samples.Serving.{web, response, zeros, zero_bytes}
use fork_observer.Node.Ends.{Answered, new_headers-Answered}
use fork_observer.Node.Rpc.{new_active_headers-UnknownRun}
use fork_observer.Node.Runs.{Serves, UnknownRun, up}

abbrev graph : DiGraph (HeaderInfo btc)
graph = list_graph (HeaderInfo btc)

-- The block of a height of the active chain: "a" on every block before it.
abbrev chain : ℕ → String
chain zero = "a"
chain (suc h) = String.◌∷◌ "a" (chain h)

abbrev node : Node btc crates
node = record {
  info = record { id = 0; name = "n"; description = ""; implementation = "btcd" };
  use_rest = false;
  rpc_url = "localhost:8334";
  version = ok "1";
  block_header = λ h. ok h;
  block_hash = λ h. ok (chain h);
  tips = ok [];
  coinbase = λ h. ok h;
  active_chain_headers_rest = λ n h. ok [];
}

-- The tree knows the blocks of the heights 0 and 1.
abbrev tree : TreeInfo btc graph
tree = record {
  graph = record { nodes = header 0 "a" ∷ header 1 "aa" ∷ []; edges = (0, 1) ∷ [] };
  index = ("a", 0) ∷ ("aa", 1) ∷ [];
}

abbrev active_tip : ChainTip
active_tip = record { height = 3; hash = "aaaa"; branchlen = 0; status = ChainTipStatus.active }

-- A branch of two blocks on the block of the height 1.
abbrev fork_tip : ChainTip
fork_tip = record { height = 3; hash = "cbaa"; branchlen = 2; status = ChainTipStatus.valid_fork }

abbrev tips : List ChainTip
tips = active_tip ∷ fork_tip ∷ []

node-Serves : Serves node chain 3
node-Serves = record { hashes = λ h le. refl; headers = λ h le. refl }

new_active_headers-UnknownRun_example :
    (low n : ℕ) × (new_active_headers node tree tips 0 ≡ ok (up chain low n))
    × UnknownRun tree chain 0 3 low n
unfolding is_active
new_active_headers-UnknownRun_example =
    new_active_headers-UnknownRun node tree chain 3 0 refl node-Serves (omega arith) (omega arith)
      tips active_tip refl refl (omega arith)

abbrev branch : ChainTip → ℕ → String
branch tip zero = tip.hash
branch tip (suc i) = without_first (branch tip i)

fork-ServesBranch : ServesBranch node (branch fork_tip) fork_tip
unfolding tip_block_hash
fork-ServesBranch = record {
  hash = refl;
  headers = λ i le. refl;
  links = λ i lt. refl;
  not_deeper = omega arith;
  is_u64 = omega arith;
}

-- The active tip is passed over.
the_fork : Selected (IsForkAbove 0) tips (fork_tip ∷ [])
the_fork = drop_one (λ p. p.1 refl) (keep (omega arith, λ e. absurd (cc)) done)

new_nonactive_headers-branches_of_example :
    new_nonactive_headers node tree tips 0 ≡ ok (branches_of node tree branch (fork_tip ∷ []))
new_nonactive_headers-branches_of_example =
    new_nonactive_headers-branches_of node tree branch tips (fork_tip ∷ []) 0
      ((omega arith, omega arith), ((omega arith, omega arith), tt)) the_fork
      (fork-ServesBranch, tt)

new_headers-Answered_example : Answered (new_headers node tree tips 0)
unfolding tip_block_hash
new_headers-Answered_example =
    new_headers-Answered node tree tips 0 (("aaaa", refl), (("cbaa", refl), tt)) (omega arith)
      (omega arith)

-- The sample server serves the header "a" at the heights 0 and 1.
abbrev served : ℕ → String
served h = "a"

abbrev web_node : BtcdNode
web_node = record {
  info = node.info;
  rpc_url = "localhost:8334";
  rpc_user = "user";
  rpc_password = "pass";
}

web-BtcdDelivers : BtcdDelivers web web_node served 1
unfolding byte_len
web-BtcdDelivers = record {
  hashes = λ h le. (
    response (zeros 64),
    zeros 64,
    record { res = zeros 64; sent = refl; accepted = refl; parsed = refl; no_error = refl },
    refl,
    refl,
    refl,
  );
  headers = λ h le. (
    response (zeros 160),
    zeros 160,
    zero_bytes 80,
    record { res = zeros 160; sent = refl; accepted = refl; parsed = refl; no_error = refl },
    refl,
    refl,
    refl,
    refl,
  );
}

abbrev served_tip : ChainTip
served_tip = record { height = 1; hash = "a"; branchlen = 0; status = ChainTipStatus.active }

btcd-LoadsRun_example :
    LoadsRun {P = graph} empty_tree served 1 0 (served_tip ∷ []) (btcd web web_node)
unfolding is_active
btcd-LoadsRun_example =
    btcd-LoadsRun {P = graph} empty_tree served 1 0 (omega arith) (omega arith) (served_tip ∷ [])
      served_tip refl refl (omega arith) web web_node web-BtcdDelivers

active_chain_headers_rest-concat_example :
    active_chain_headers_rest web "localhost" 2000 "a" ≡ ok ("a" ∷ "a" ∷ [])
active_chain_headers_rest-concat_example =
    active_chain_headers_rest-concat web "localhost" 2000 "a" "" (λ h. zero_bytes 80)
      ("a" ∷ "a" ∷ []) ((refl, refl), ((refl, refl), tt)) refl refl refl

length-active_chain_headers_rest_example :
    (res : String) × (web.get (rest_url web "localhost" 2000 "a") ≡ ok res)
    × (web.status_code res ≡ 200)
    × (length (web.as_bytes res) ≤ 80 * 2)
    × (80 * 2 < length (web.as_bytes res) + 80)
length-active_chain_headers_rest_example =
    length-active_chain_headers_rest web "localhost" 2000 "a" ("a" ∷ "a" ∷ []) (
      active_chain_headers_rest-concat web "localhost" 2000 "a" "" (λ h. zero_bytes 80)
        ("a" ∷ "a" ∷ []) ((refl, refl), ((refl, refl), tt)) refl refl refl)
