-- ===== src/Node/Branch.antt =====
-- `new_nonactive_headers` of src/node.rs: the headers it loads for each inactive tip.
use mathlib.Core.List.{append_assoc, append-nil}
use fork_observer.Prelude.{
  ℕ, zero, suc, ◌+◌, ◌-◌, ◌^◌, ◌≤◌, ◌<◌, ◌≡◌, ◌≢◌, ◌↔◌, refl, sym, ap, subst, ◌∙◌, inl, inr, true,
  false, some, List, [], ◌∷◌, ◌++◌, select, arith, if◌then◌else◌, Bool-cases, All, All-in, ltb,
  ltb→lt, Selected, select-Selected,
}
use fork_observer.Prelude.Results.{ok}
use fork_observer.Bitcoin.{Bitcoin}
use fork_observer.Errors.{Crates}
use fork_observer.Petgraph.{DiGraph}
use fork_observer.Types.{ChainTip, HeaderInfo, tip_block_hash}
use fork_observer.Types.Status.{ChainTipStatus, is_active, is_active_iff}
use fork_observer.Tree.{TreeInfo}
use fork_observer.Node.{
  Node, knows, new_header, u64_sub, branch_headers, inactive_tip, tip_headers,
  new_nonactive_headers,
}

-- The node serves the branch that ends in `tip`: `branch 0` is the header of the tip, and
-- `branch (i + 1)` the header of the block before `branch i`.
pub record ServesBranch {B : Bitcoin} {E : Crates} (node : Node B E) (branch : ℕ → B.Header)
    (tip : ChainTip) : Type 0 where
  pub hash : tip_block_hash B tip ≡ some (B.block_hash (branch 0))
  pub headers :
      (i : ℕ) → i ≤ tip.branchlen → node.block_header (B.block_hash (branch i)) ≡ ok (branch i)
  pub links :
      (i : ℕ) → i < tip.branchlen → B.prev_blockhash (branch i) ≡ B.block_hash (branch (suc i))
  pub not_deeper : tip.branchlen ≤ tip.height
  pub is_u64 : tip.height < 2 ^ 64

-- The tip is not active, and its branch starts above the height.
abbrev pub IsForkAbove : ℕ → ChainTip → Type 0
IsForkAbove low tip = (low < tip.height - tip.branchlen) × (tip.status ≢ ChainTipStatus.active)

module _ {B : Bitcoin} (branch : ℕ → B.Header) where
  -- The headers `branch i`, …, `n` of them, at the heights `height`, `height - 1`, ….
  abbrev pub descent : ℕ → ℕ → ℕ → List (HeaderInfo B)
  descent height i zero = []
  descent height i (suc n) = new_header (height - i) (branch i) ∷ descent height (suc i) n

module _ {B : Bitcoin} {E : Crates} {P : DiGraph (HeaderInfo B)} (node : Node B E)
    (tree : TreeInfo B P) where
  -- The headers from the tip down to the one `branchlen` below it; none where the tree has the tip.
  abbrev pub branch_of : (ChainTip → ℕ → B.Header) → ChainTip → List (HeaderInfo B)
  branch_of branch tip =
      if knows tree (B.block_hash (branch tip 0))
      then []
      else descent (branch tip) tip.height 0 (suc tip.branchlen)

  abbrev pub branches_of : (ChainTip → ℕ → B.Header) → List ChainTip → List (HeaderInfo B)
  branches_of branch [] = []
  branches_of branch (tip ∷ tips) = branch_of branch tip ++ branches_of branch tips

  u64_sub_lem : (a b : ℕ) → b ≤ a → a < 2 ^ 64 → u64_sub a b ≡ a - b
  u64_sub_lem a b le lt = ground arith

  known_branch :
      (left : ℕ) (tip : ChainTip) (i : ℕ) (next h : B.BlockHash) (found : List (HeaderInfo B))
      → tip_block_hash B tip ≡ some h
      → knows tree h ≡ true
      → branch_headers node tree left tip i next found ≡ ok found
  unfolding branch_headers
  known_branch zero tip i next h found e k = refl
  known_branch (suc left) tip i next h found e k = rw (e, k, branch_headers)

  branch_step :
      (left : ℕ) (tip : ChainTip) (i : ℕ) (next h : B.BlockHash) (header : B.Header)
      (found : List (HeaderInfo B))
      → tip_block_hash B tip ≡ some h
      → knows tree h ≡ false
      → node.block_header next ≡ ok header
      → branch_headers node tree (suc left) tip i next found
        ≡ branch_headers node tree left tip
            (i + 1)
            (B.prev_blockhash header)
            (found ++ new_header (u64_sub tip.height i) header ∷ [])
  unfolding branch_headers
  branch_step left tip i next h header found e u r = rw (e, u, r, branch_headers)

  module _ (branch : ℕ → B.Header) (tip : ChainTip) (serves : ServesBranch node branch tip)
      (unknown : knows tree (B.block_hash (branch 0)) ≡ false) where
    unknown_branch :
        (left i : ℕ) (next : B.BlockHash) (found : List (HeaderInfo B))
        → i + left ≡ suc tip.branchlen
        → (i ≤ tip.branchlen → next ≡ B.block_hash (branch i))
        → branch_headers node tree left tip i next found
          ≡ ok (found ++ descent branch tip.height i left)
    unfolding branch_headers
    unknown_branch zero i next found e at = ap ok (sym (append-nil found))
    unknown_branch (suc left) i next found e at =
        let le : i ≤ tip.branchlen = omega arith in
        let height = u64_sub_lem tip.height i (omega (arith, serves.not_deeper)) serves.is_u64 in
        let next_index : i + 1 ≡ suc i = omega arith in
        branch_step left tip i next (B.block_hash (branch 0)) (branch i) found serves.hash unknown
          (ap node.block_header (at le) ∙ serves.headers i le)
        ∙ ap
            (λ j.
              branch_headers node tree left tip j (B.prev_blockhash (branch i))
                (found ++ new_header (u64_sub tip.height i) (branch i) ∷ []))
            next_index
        ∙ unknown_branch left (suc i) (B.prev_blockhash (branch i))
            (found ++ new_header (u64_sub tip.height i) (branch i) ∷ []) (omega arith)
            (λ lt. serves.links i (omega arith))
        ∙ ap ok (
            append_assoc found (new_header (u64_sub tip.height i) (branch i) ∷ [])
              (descent branch tip.height (suc i) left))
        ∙ ap (λ h. ok (found ++ new_header h (branch i) ∷ descent branch tip.height (suc i) left))
            height

  branch_headers-branch_of :
      (branch : ChainTip → ℕ → B.Header) (tip : ChainTip) (found : List (HeaderInfo B))
      → ServesBranch node (branch tip) tip
      → branch_headers node tree (suc tip.branchlen) tip 0 (B.block_hash (branch tip 0)) found
        ≡ ok (found ++ branch_of branch tip)
  branch_headers-branch_of branch tip found serves =
      elim (Bool-cases (knows tree (B.block_hash (branch tip 0)))) [
        | inl k ↦
            known_branch (suc tip.branchlen) tip 0 (B.block_hash (branch tip 0))
              (B.block_hash (branch tip 0)) found serves.hash k
            ∙ rw k (ap ok (sym (append-nil found)))
        | inr u ↦
            unknown_branch (branch tip) tip serves u (suc tip.branchlen) 0
              (B.block_hash (branch tip 0)) found (omega arith) (λ le. refl)
            ∙ rw u
      ]

  tip_headers_step :
      (tip : ChainTip) (tips : List ChainTip) (h : B.BlockHash) (found found' : List (HeaderInfo B))
      → tip_block_hash B tip ≡ some h
      → branch_headers node tree (suc tip.branchlen) tip 0 h found ≡ ok found'
      → tip_headers node tree (tip ∷ tips) found ≡ tip_headers node tree tips found'
  unfolding tip_headers
  tip_headers_step tip tips h found found' e r = rw (e, r, tip_headers)

  tip_headers-branches_of :
      (branch : ChainTip → ℕ → B.Header) (tips : List ChainTip) (found : List (HeaderInfo B))
      → All (λ tip. ServesBranch node (branch tip) tip) tips
      → tip_headers node tree tips found ≡ ok (found ++ branches_of branch tips)
  unfolding tip_headers
  tip_headers-branches_of branch [] found all = ap ok (sym (append-nil found))
  tip_headers-branches_of branch (tip ∷ tips) found (serves, all) =
      tip_headers_step tip tips (B.block_hash (branch tip 0)) found (found ++ branch_of branch tip)
        serves.hash (branch_headers-branch_of branch tip found serves)
      ∙ tip_headers-branches_of branch tips (found ++ branch_of branch tip) all
      ∙ ap ok (append_assoc found (branch_of branch tip) (branches_of branch tips))

  inactive_tip_iff :
      (low : ℕ) (tip : ChainTip)
      → tip.branchlen ≤ tip.height
      → tip.height < 2 ^ 64
      → (inactive_tip node tree low tip ≡ true) ↔ IsForkAbove low tip
  unfolding inactive_tip
  inactive_tip_iff low tip not_deeper is_u64 =
      let height = u64_sub_lem tip.height tip.branchlen not_deeper is_u64 in
      let active = is_active_iff tip.status in
      (
        λ e. elim (Bool-cases (ltb low (u64_sub tip.height tip.branchlen))) [
          | inl above ↦ (
            subst (λ n. low < n) height (ltb→lt low (u64_sub tip.height tip.branchlen) above),
            λ same. absurd (ground (arith, e, above, active.1 same)),
          )
          | inr below ↦ absurd (ground (arith, e, below))
        ],
        λ (above, other). elim (Bool-cases (is_active tip.status)) [
          | inl same ↦ absurd (other (active.0 same))
          | inr inactive ↦ ground (arith, above, height, inactive)
        ],
      )

  -- With a node that serves the branch of each of `forks`, the tips that are not active and whose
  -- branches start above `min_fork_height`, in their order; where no branch is longer than its
  -- tip is high, and heights fit 64 bits: `new_nonactive_headers` returns, for each of `forks` in
  -- turn, nothing when the tree has the tip, and otherwise the headers from the tip down to the
  -- one `branchlen` blocks below it, each at its height.
  pub new_nonactive_headers-branches_of :
      (branch : ChainTip → ℕ → B.Header) (tips forks : List ChainTip) (min_fork_height : ℕ)
      → All (λ tip. (tip.branchlen ≤ tip.height) × (tip.height < 2 ^ 64)) tips
      → Selected (IsForkAbove min_fork_height) tips forks
      → All (λ tip. ServesBranch node (branch tip) tip) forks
      → new_nonactive_headers node tree tips min_fork_height ≡ ok (branches_of branch forks)
  unfolding new_nonactive_headers
  new_nonactive_headers-branches_of branch tips forks low sound selected all =
      let chosen : select (inactive_tip node tree low) tips ≡ forks =
        select-Selected (IsForkAbove low) (inactive_tip node tree low) tips forks
          (λ tip m.
            let (not_deeper, is_u64) =
              All-in (λ (t : ChainTip). (t.branchlen ≤ t.height) × (t.height < 2 ^ 64)) tips sound
                m in
            inactive_tip_iff low tip not_deeper is_u64)
          selected in
      ap (λ ts. tip_headers node tree ts []) chosen ∙ tip_headers-branches_of branch forks [] all
