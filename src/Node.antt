-- ===== src/Node.antt =====
-- The trait `Node` of src/node.rs, and its default methods that decide which headers to load.
-- A node answers the RPCs of one poll by a function of the request. The tree is not changed by
-- other tasks while the headers are loaded, and unsigned subtraction wraps, as in a release build.
pub mod Branch
mod Examples
pub mod Runs
pub mod Rpc
pub mod Ends
pub mod Rest
pub mod Clients
use fork_observer.Prelude.{
  ℕ, zero, suc, ◌+◌, ◌-◌, ◌%◌, ◌^◌, String, Bool, true, false, not, Option, none, some, List, [],
  ◌∷◌, ◌++◌, map, length, select, last, leb, ltb, if◌then◌else◌,
}
use fork_observer.Prelude.HashMap.{contains_key}
use fork_observer.Prelude.Int.{ℤ, pos, ◌+ℤ◌, ◌-ℤ◌, lt_int, max_int, as_i64, as_unsigned}
use fork_observer.Prelude.Results.{Result, ok, err, ◌>>=◌, map_err}
use fork_observer.Prelude.Sort.{sort_by_key}
use fork_observer.Bitcoin.{Bitcoin}
use fork_observer.Errors.{Crates, FetchError, data_error}
use fork_observer.Petgraph.{DiGraph}
use fork_observer.Types.{ChainTip, NodeInfo, HeaderInfo, hash_of, tip_block_hash}
use fork_observer.Types.Status.{is_active}
use fork_observer.Tree.{TreeInfo}

-- A method returns an error, or panics at an `unwrap`; the model can also run out of fuel.
pub data Failure (E : Crates) : Type 0 where
  fetch : FetchError E → Failure E
  panicked out_of_fuel : Failure E

abbrev pub Fetch : Crates → Type 0 → Type 0
Fetch E A = Result (Failure E) A

pub record Node (B : Bitcoin) (E : Crates) : Type 0 where
  pub info : NodeInfo
  pub use_rest : Bool
  pub rpc_url : String
  pub version : Result (FetchError E) String
  pub block_header : B.BlockHash → Result (FetchError E) B.Header
  pub block_hash : ℕ → Result (FetchError E) B.BlockHash
  pub tips : Result (FetchError E) (List ChainTip)
  pub coinbase : B.BlockHash → Fetch E B.Transaction
  pub active_chain_headers_rest : ℕ → B.BlockHash → Result (FetchError E) (List B.Header)

abbrev pub default_empty_miner : String
default_empty_miner = ""

abbrev pub step_size : ℕ
step_size = 2000

abbrev pub u64_sub : ℕ → ℕ → ℕ
u64_sub a b = (a + 2 ^ 64 - b) % 2 ^ 64

module _ {B : Bitcoin} {P : DiGraph (HeaderInfo B)} where
  abbrev pub knows : TreeInfo B P → B.BlockHash → Bool
  knows tree hash = contains_key ⦃key = B.hash_key⦄ hash tree.index

module _ {B : Bitcoin} where
  abbrev pub new_header : ℕ → B.Header → HeaderInfo B
  new_header height header = record {
    height = height;
    header = header;
    miner = default_empty_miner;
  }

module _ {B : Bitcoin} {E : Crates} {P : DiGraph (HeaderInfo B)} (node : Node B E)
    (tree : TreeInfo B P) where
  -- The loop over the headers of a REST response, with `new_headers` and `already_knew_a_header`.
  rest_headers : ℤ → List B.Header → List (HeaderInfo B) → Bool → List (HeaderInfo B) × Bool
  rest_headers height [] found knew = (found, knew)
  rest_headers height (h ∷ hs) found knew =
      let known = knows tree (B.block_hash h) in
      rest_headers (height +ℤ 1) hs
        (if known then found else found ++ new_header (as_unsigned 64 height) h ∷ [])
        (if known then true else knew)

  -- A round of the loop of `new_active_headers`: the headers found so far, and the next
  -- `query_height`, or `none` where the source breaks out of the loop.
  rest_round : ℕ → ℤ → List (HeaderInfo B) → Fetch E (List (HeaderInfo B) × Option ℤ)
  unfolding rest_headers
  rest_round min_fork_height query_height found = do
    let rest_query_height = max_int (as_i64 min_fork_height) ((query_height -ℤ step_size) +ℤ 1)
    header_hash ← map_err fetch (node.block_hash (as_unsigned 64 rest_query_height))
    headers ← map_err fetch (node.active_chain_headers_rest step_size header_hash)
    let (found', knew) = rest_headers rest_query_height headers found false
    ok (found', (if knew then none else some (query_height -ℤ step_size)))

  rpc_round : ℤ → List (HeaderInfo B) → Fetch E (List (HeaderInfo B) × Option ℤ)
  rpc_round query_height found = do
    header_hash ← map_err fetch (node.block_hash (as_unsigned 64 query_height))
    if knows tree header_hash then ok (found, none) else do
      header ← map_err fetch (node.block_header header_hash)
      ok (found ++ new_header (as_unsigned 64 query_height) header ∷ [], some (query_height -ℤ 1))

  round : ℕ → ℤ → List (HeaderInfo B) → Fetch E (List (HeaderInfo B) × Option ℤ)
  round min_fork_height query_height found =
      if node.use_rest
      then rest_round min_fork_height query_height found
      else rpc_round query_height found

  active_loop : ℕ → ℕ → ℤ → List (HeaderInfo B) → Fetch E (List (HeaderInfo B))
  active_loop zero min_fork_height query_height found = err out_of_fuel
  active_loop (suc fuel) min_fork_height query_height found =
      elim (round min_fork_height query_height found) [
        | err e ↦ err e
        | ok (found', next) ↦ elim next [
          | none ↦ ok found'
          | some next_height ↦ elim (lt_int next_height (as_i64 min_fork_height)) [
            | true ↦ ok found'
            | false ↦ active_loop fuel min_fork_height next_height found'
          ]
        ]
      ]

  -- The fuel is one round for each height from the tip down to 0.
  pub headers_below : ℕ → Option ChainTip → Fetch E (List (HeaderInfo B))
  unfolding active_loop
  headers_below min_fork_height none = err (fetch (data_error "No 'active' chain tip returned"))
  headers_below min_fork_height (some active_tip) = do
    found ← active_loop (suc active_tip.height) min_fork_height (as_i64 active_tip.height) []
    ok (sort_by_key (λ h. h.height) found)

  pub new_active_headers : List ChainTip → ℕ → Fetch E (List (HeaderInfo B))
  new_active_headers tips min_fork_height =
      headers_below min_fork_height (last (select (λ tip. is_active tip.status) tips))

  -- The loop over `i` in `0..=branchlen`, with the rounds that are left.
  pub branch_headers :
      ℕ → ChainTip → ℕ → B.BlockHash → List (HeaderInfo B) → Fetch E (List (HeaderInfo B))
  branch_headers zero tip i next_header found = ok found
  branch_headers (suc left) tip i next_header found = elim (tip_block_hash B tip) [
    | none ↦ err panicked
    | some tip_hash ↦ elim (knows tree tip_hash) [
      | true ↦ ok found
      | false ↦ do
        header ← map_err fetch (node.block_header next_header)
        branch_headers left tip (i + 1) (B.prev_blockhash header)
            (found ++ new_header (u64_sub tip.height i) header ∷ [])
    ]
  ]

  pub inactive_tip : ℕ → ChainTip → Bool
  inactive_tip min_fork_height tip =
      if ltb min_fork_height (u64_sub tip.height tip.branchlen)
      then not (is_active tip.status)
      else false

  pub tip_headers : List ChainTip → List (HeaderInfo B) → Fetch E (List (HeaderInfo B))
  tip_headers [] found = ok found
  tip_headers (tip ∷ tips) found = elim (tip_block_hash B tip) [
    | none ↦ err panicked
    | some tip_hash ↦ do
      found' ← branch_headers (suc tip.branchlen) tip 0 tip_hash found
      tip_headers tips found'
  ]

  pub new_nonactive_headers : List ChainTip → ℕ → Fetch E (List (HeaderInfo B))
  new_nonactive_headers tips min_fork_height =
      tip_headers (select (inactive_tip min_fork_height) tips) []

  -- The new headers, and the hashes of those that need a miner.
  pub new_headers : List ChainTip → ℕ → Fetch E (List (HeaderInfo B) × List B.BlockHash)
  new_headers tips min_fork_height = do
    active ← new_active_headers tips min_fork_height
    nonactive ← new_nonactive_headers tips min_fork_height
    ok (
      active ++ nonactive,
      (if leb (length active) 20 then map hash_of active else []) ++ map hash_of nonactive,
    )
