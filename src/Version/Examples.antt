-- ===== src/Version/Examples.antt =====
-- A node that answers at the third attempt, and the theorem on its version.
use fork_observer.Prelude.{ℕ, zero, suc, String, ◌≡◌, refl, true}
use fork_observer.Prelude.Results.{Result, ok, err}
use fork_observer.Errors.{FetchError, bitcoin_core_rpc}
use fork_observer.Samples.{crates}
use fork_observer.Version.{load_node_version, try_version, is_retried}
use fork_observer.Version.Attempts.{Outcome, load_node_version-Outcome}

abbrev answers : ℕ → Result (FetchError crates) String
answers zero = err (bitcoin_core_rpc tt)
answers (suc zero) = err (bitcoin_core_rpc tt)
answers (suc (suc n)) = ok "25.0"

third : load_node_version {E = crates} (λ e. true) answers ≡ "25.0"
unfolding load_node_version try_version is_retried
third = refl

load_node_version-Outcome_example :
    Outcome {E = crates}
      (λ e. true)
      answers
      0
      5
      (load_node_version {E = crates} (λ e. true) answers)
load_node_version-Outcome_example = load_node_version-Outcome {E = crates} (λ e. true) answers
