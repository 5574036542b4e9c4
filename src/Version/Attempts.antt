-- ===== src/Version/Attempts.antt =====
-- Which answer `load_node_version` of src/main.rs uses.
use fork_observer.Prelude.{
  ℕ, zero, suc, ◌+◌, ◌≤◌, ◌<◌, ◌≡◌, ◌⊎◌, ◌↔◌, refl, sym, subst, inl, inr, String, Bool, true, arith,
  Bool-cases,
}
use fork_observer.Prelude.Results.{Result, ok, err, Result-cases}
use fork_observer.Errors.{
  Crates, FetchError, bitcoin_core_rpc, tokio_join, bitcoin_core_rest, btcd_rpc, min_req,
  data_error,
}
use fork_observer.Cache.{version_unknown}
use fork_observer.Version.{is_retried, try_version, load_node_version}

module _ {E : Crates} (is_json_rpc : E.RpcError → Bool)
    (answers : ℕ → Result (FetchError E) String) where
  -- The error is one of JSON-RPC, from the RPC client of Bitcoin Core.
  abbrev IsJsonRpc : FetchError E → Type 0
  IsJsonRpc e = (x : E.RpcError) × (e ≡ bitcoin_core_rpc x) × (is_json_rpc x ≡ true)

  is_retried_iff : (e : FetchError E) → (is_retried is_json_rpc e ≡ true) ↔ IsJsonRpc e
  unfolding is_retried
  is_retried_iff (bitcoin_core_rpc x) =
      (λ yes'. (x, refl, yes'), λ (y, same, yes'). ground (arith, same, yes'))
  is_retried_iff (tokio_join x) = (λ e. absurd (cc), λ (y, same, _). absurd (cc))
  is_retried_iff (bitcoin_core_rest x) = (λ e. absurd (cc), λ (y, same, _). absurd (cc))
  is_retried_iff (btcd_rpc x) = (λ e. absurd (cc), λ (y, same, _). absurd (cc))
  is_retried_iff (min_req x) = (λ e. absurd (cc), λ (y, same, _). absurd (cc))
  is_retried_iff (data_error x) = (λ e. absurd (cc), λ (y, same, _). absurd (cc))

  abbrev Retried : ℕ → Type 0
  Retried n = (e : FetchError E) × (answers n ≡ err e) × IsJsonRpc e

  -- The answer to the attempt `n` decides: it is the version, or an error that ends the attempts.
  abbrev Decides : ℕ → String → Type 0
  Decides n result =
      (answers n ≡ ok result)
      ⊎ ((result ≡ version_unknown) × ((e : FetchError E) × (answers n ≡ err e) × (¬ IsJsonRpc e)))

  -- Of the attempts from `first` on, `count` of them, the first that is not retried decides; if
  -- all are retried, the version is unknown.
  abbrev pub Outcome : ℕ → ℕ → String → Type 0
  Outcome first count result =
      ((n : ℕ) × (first ≤ n)
        × (n < first + count)
        × ((m : ℕ) → first ≤ m → m < n → Retried m)
        × Decides n result)
      ⊎ (((m : ℕ) → first ≤ m → m < first + count → Retried m) × (result ≡ version_unknown))

  at_or_after : (first m : ℕ) → first ≤ m → (m ≡ first) ⊎ (suc first ≤ m)
  at_or_after first m le = ground arith

  try_version-Outcome :
      (left first : ℕ) → Outcome first left (try_version is_json_rpc left first answers)
  unfolding try_version
  try_version-Outcome zero first = inr (λ m a b. absurd (omega arith), refl)
  try_version-Outcome (suc left) first = elim (Result-cases (answers first)) [
    | inl (v, e) ↦
        inl (
          first,
          omega arith,
          omega arith,
          λ m a b. absurd (omega arith),
          inl (rw (e, try_version)),
        )
    | inr (f, e) ↦ elim (Bool-cases (is_retried is_json_rpc f)) [
      | inr fatal ↦ inl (
        first,
        omega arith,
        omega arith,
        λ m a b. absurd (omega arith),
        inr (
          rw (e, fatal, try_version),
          (f, e, λ json_rpc. absurd (cc ((is_retried_iff f).1 json_rpc, fatal))),
        ),
      )
      | inl again ↦
          let step : try_version is_json_rpc (suc left) first answers
              ≡ try_version is_json_rpc left (suc first) answers =
            rw (e, again, try_version) in
          let earlier : (m : ℕ) → m ≡ first → Retried m =
            λ m same. subst Retried (sym same) (f, e, (is_retried_iff f).0 again) in
          subst (Outcome first (suc left)) (sym step) (elim (try_version-Outcome left (suc first)) [
            | inl (n, lo, hi, before, decides) ↦ inl (
              n,
              omega arith,
              omega arith,
              λ m a b. elim (at_or_after first m a) [
                | inl same ↦ earlier m same
                | inr after ↦ before m after b
              ],
              decides,
            )
            | inr (all, unknown) ↦ inr (
              λ m a b. elim (at_or_after first m a) [
                | inl same ↦ earlier m same
                | inr after ↦ all m after (omega arith)
              ],
              unknown,
            )
          ])
    ]
  ]

  -- At most five attempts are made. The first whose answer is not a JSON-RPC error of Bitcoin Core
  -- decides: its version is returned, or "unknown" for any other error. If all five are JSON-RPC
  -- errors, the version is "unknown".
  pub load_node_version-Outcome : Outcome 0 5 (load_node_version is_json_rpc answers)
  unfolding load_node_version
  load_node_version-Outcome = try_version-Outcome 5 0
