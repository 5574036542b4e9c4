-- ===== src/Node/Rpc.antt =====
-- `new_active_headers` of src/node.rs over RPC: it loads the run of unknown headers below the tip.
use mathlib.Core.List.{append_assoc, append-nil}
use native.Mathlib.Nat.{mod-eq_of_lt}
use fork_observer.Prelude.{
  ℕ, zero, suc, ◌^◌, ◌≤◌, ◌<◌, ◌≡◌, sym, ap, ◌∙◌, inl, inr, true, false, none, some, List, [], ◌∷◌,
  ◌++◌, select, last, arith, leb, Bool-cases,
}
use fork_observer.Prelude.Int.{ℤ, pos, ◌-ℤ◌, lt_int, as_i64, as_unsigned}
use fork_observer.Prelude.Results.{ok}
use fork_observer.Bitcoin.{Bitcoin}
use fork_observer.Errors.{Crates}
use fork_observer.Petgraph.{DiGraph}
use fork_observer.Types.{ChainTip, HeaderInfo}
use fork_observer.Types.Status.{is_active}
use fork_observer.Tree.{TreeInfo}
use fork_observer.Node.{
  Node, new_header, rpc_round, round, active_loop, headers_below, new_active_headers,
}
use fork_observer.Node.Runs.{
  Serves, up, down, sort_by_key-down, known, UnknownRun, run_of_known, run_of_last, run_of_more,
}

module _ {B : Bitcoin} {E : Crates} {P : DiGraph (HeaderInfo B)} (node : Node B E)
    (tree : TreeInfo B P) (chain : ℕ → B.Header) (top lowest : ℕ) (over_rpc : node.use_rest ≡ false)
    (serves : Serves node chain top) (top_i64 : top < 2 ^ 63) (lowest_i64 : lowest < 2 ^ 63) where
  cast_height : (q : ℕ) → q ≤ top → as_unsigned 64 (pos q) ≡ q
  cast_height q le = mod-eq_of_lt (omega arith)

  round-known :
      (q : ℕ) (found : List (HeaderInfo B))
      → q ≤ top
      → known tree chain q ≡ true
      → round node tree lowest (pos q) found ≡ ok (found, none)
  unfolding round rpc_round
  round-known q found le k = rw (over_rpc, cast_height q le, serves.hashes q le, k)

  round-unknown :
      (q : ℕ) (found : List (HeaderInfo B))
      → q ≤ top
      → known tree chain q ≡ false
      → round node tree lowest (pos q) found
        ≡ ok (found ++ new_header q (chain q) ∷ [], some (pos q -ℤ 1))
  unfolding round rpc_round
  round-unknown q found le u =
      rw (over_rpc, cast_height q le, serves.hashes q le, u, serves.headers q le)

  abbrev LoopResult : ℕ → ℕ → List (HeaderInfo B) → Type 0
  LoopResult fuel q found =
      (low n : ℕ) × (active_loop node tree fuel lowest (pos q) found
        ≡ ok (found ++ down chain low n))
      × UnknownRun tree chain lowest q low n

  cast_lowest : as_i64 lowest ≡ pos lowest
  cast_lowest = ground arith

  loop-known :
      (fuel q : ℕ) (found : List (HeaderInfo B))
      → lowest ≤ q
      → q ≤ top
      → known tree chain q ≡ true
      → LoopResult (suc fuel) q found
  unfolding active_loop
  loop-known fuel q found ge le k = (
    suc q,
    0,
    rw (round-known q found le k, active_loop) (ap ok (sym (append-nil found))),
    run_of_known tree chain lowest q ge k,
  )

  loop-stops :
      (fuel : ℕ) (q next : ℤ) (found found' : List (HeaderInfo B))
      → round node tree lowest q found ≡ ok (found', some next)
      → lt_int next (as_i64 lowest) ≡ true
      → active_loop node tree (suc fuel) lowest q found ≡ ok found'
  unfolding active_loop
  loop-stops fuel q next found found' r below = rw (r, below, active_loop)

  loop-continues :
      (fuel : ℕ) (q next : ℤ) (found found' : List (HeaderInfo B))
      → round node tree lowest q found ≡ ok (found', some next)
      → lt_int next (as_i64 lowest) ≡ false
      → active_loop node tree (suc fuel) lowest q found
        ≡ active_loop node tree fuel lowest next found'
  unfolding active_loop
  loop-continues fuel q next found found' r above = rw (r, above, active_loop)

  -- Below the lowest height the loop ends.
  below_lowest : (q : ℕ) → lowest ≡ q → lt_int (pos q -ℤ 1) (as_i64 lowest) ≡ true
  below_lowest zero e = rw cast_lowest
  below_lowest (suc q) e = rw cast_lowest (ground arith)

  not_below_lowest : (q : ℕ) → lowest ≤ q → lt_int (pos (suc q) -ℤ 1) (as_i64 lowest) ≡ false
  not_below_lowest q le = rw cast_lowest (ground arith)

  one_header :
      (q : ℕ) → ◌≡◌ {A = List (HeaderInfo B)} (new_header q (chain q) ∷ []) (down chain q 1)
  one_header q = ap (λ h. new_header h (chain h) ∷ []) (omega arith)

  loop-last :
      (fuel q : ℕ) (found : List (HeaderInfo B))
      → lowest ≡ q
      → q ≤ top
      → known tree chain q ≡ false
      → LoopResult (suc fuel) q found
  loop-last fuel q found e le u = (
    q,
    1,
    loop-stops fuel (pos q) (pos q -ℤ 1) found (found ++ new_header q (chain q) ∷ [])
          (round-unknown q found le u) (below_lowest q e)
        ∙ ap (λ l. ok (found ++ l)) (one_header q),
    run_of_last tree chain lowest q e u,
  )

  pred_pos : (q : ℕ) → pos (suc q) -ℤ 1 ≡ pos q
  pred_pos q = ground arith

  loop-more :
      (fuel q : ℕ) (found : List (HeaderInfo B))
      → lowest ≤ q
      → suc q ≤ top
      → known tree chain (suc q) ≡ false
      → LoopResult fuel q (found ++ new_header (suc q) (chain (suc q)) ∷ [])
      → LoopResult (suc fuel) (suc q) found
  loop-more fuel q found ge le u (low, n, runs, run) =
      let found' = found ++ new_header (suc q) (chain (suc q)) ∷ [] in
      (
        low,
        suc n,
        loop-continues fuel (pos (suc q)) (pos (suc q) -ℤ 1) found found'
              (round-unknown (suc q) found le u) (not_below_lowest q ge)
            ∙ ap (λ i. active_loop node tree fuel lowest i found') (pred_pos q)
            ∙ runs
            ∙ ap ok
                (append_assoc found (new_header (suc q) (chain (suc q)) ∷ []) (down chain low n))
            ∙ ap (λ h. ok (found ++ new_header h (chain h) ∷ down chain low n)) (sym run.span),
        run_of_more tree chain lowest q low n u run,
      )

  loop_lem :
      (fuel q : ℕ) (found : List (HeaderInfo B))
      → q < fuel
      → lowest ≤ q
      → q ≤ top
      → LoopResult fuel q found
  loop_lem zero q found f ge le = elim f [ ]
  loop_lem (suc fuel) zero found f ge le = elim (Bool-cases (known tree chain 0)) [
    | inl k ↦ loop-known fuel 0 found ge le k
    | inr u ↦ loop-last fuel 0 found (omega arith) le u
  ]
  loop_lem (suc fuel) (suc q) found f ge le = elim (Bool-cases (known tree chain (suc q))) [
    | inl k ↦ loop-known fuel (suc q) found ge le k
    | inr u ↦ elim (Bool-cases (leb lowest q)) [
      | inl more ↦ loop-more fuel q found (ground arith) le u (
          loop_lem fuel q (found ++ new_header (suc q) (chain (suc q)) ∷ []) (omega arith)
            (ground arith) (omega arith))
      | inr done ↦ loop-last fuel (suc q) found (ground arith) le u
    ]
  ]

  headers_below_top :
      (tip : ChainTip) (low n : ℕ)
      → tip.height ≡ top
      → active_loop node tree (suc top) lowest (pos top) [] ≡ ok (down chain low n)
      → headers_below node tree lowest (some tip) ≡ ok (up chain low n)
  unfolding headers_below
  headers_below_top tip low n at_top runs =
      let cast_top : as_i64 top ≡ pos top = ground arith in
      rw (at_top, cast_top, runs, headers_below) (ap ok (sort_by_key-down chain low n))

  -- Over RPC, with a node whose active chain ends in the active tip, and with heights below
  -- 2 ^ 63 and the tip no lower than `min_fork_height`: the loop ends, within the fuel, and
  -- returns exactly the headers of the run of unknown heights that ends in the tip, each
  -- at its height, in ascending order. The run goes down to a known header or `min_fork_height`.
  pub new_active_headers-UnknownRun :
      (tips : List ChainTip) (tip : ChainTip)
      → last (select (λ t. is_active t.status) tips) ≡ some tip
      → tip.height ≡ top
      → lowest ≤ top
      → (low n : ℕ) × (new_active_headers node tree tips lowest ≡ ok (up chain low n))
        × UnknownRun tree chain lowest top low n
  unfolding new_active_headers
  new_active_headers-UnknownRun tips tip active at_top ge =
      let (low, n, runs, run) = loop_lem (suc top) top [] (omega arith) ge (omega arith) in
      (
        low,
        n,
        ap (headers_below node tree lowest) active ∙ headers_below_top tip low n at_top runs,
        run,
      )
