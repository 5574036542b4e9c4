-- ===== src/Identify/Naming.antt =====
-- The loop over the nodes in the task of src/main.rs that identifies miners: the first node whose
-- answer identifies the pool decides.
use fork_observer.Prelude.{
  ◌≡◌, ◌≢◌, ◌⊎◌, refl, sym, ap, ◌∙◌, inl, inr, String, Option, List, [], ◌∷◌, ◌++◌, All, str_eq,
  str_eq_iff, Bool-cases,
}
use fork_observer.Prelude.Results.{Result, ok, err}
use fork_observer.Identify.{miner_unknown, pool_name, miner_after, ask_nodes}

module _ {Transaction Failure : Type 0} (identify_pool : Transaction → Option String) where
  -- The answer does not identify a pool: it is an error, or a coinbase of no known pool.
  abbrev pub Fails : Result Failure Transaction → Type 0
  Fails (err e) = Unit
  Fails (ok coinbase) = pool_name identify_pool coinbase ≡ miner_unknown

  -- Some answer identifies the pool, and those before it do not.
  pub record FirstNamed (answers : List (Result Failure Transaction)) (miner : String)
      : Type 0 where
    pub before : List (Result Failure Transaction)
    pub coinbase : Transaction
    pub after : List (Result Failure Transaction)
    pub split : answers ≡ before ++ ok coinbase ∷ after
    pub earlier_fail : All Fails before
    pub named : pool_name identify_pool coinbase ≡ miner
    pub is_known : miner ≢ miner_unknown

  failed_of_unknown :
      (answer : Result Failure Transaction)
      → miner_after identify_pool answer miner_unknown ≡ miner_unknown
      → Fails answer
  unfolding miner_after
  failed_of_unknown (err e) h = tt
  failed_of_unknown (ok coinbase) h = h

  named_of_known :
      (answer : Result Failure Transaction)
      → miner_after identify_pool answer miner_unknown ≢ miner_unknown
      → (coinbase : Transaction) × (answer ≡ ok coinbase)
        × (pool_name identify_pool coinbase ≡ miner_after identify_pool answer miner_unknown)
  unfolding miner_after
  named_of_known (err e) h = absurd (h refl)
  named_of_known (ok coinbase) h = (coinbase, refl, refl)

  -- The miner is the pool that the first answer with a known pool names, whatever the answers after
  -- it say; and it is "Unknown" exactly if every answer is an error or a coinbase of no known pool.
  pub ask_nodes-FirstNamed :
      (answers : List (Result Failure Transaction))
      → (ask_nodes identify_pool answers miner_unknown ≡ miner_unknown × All Fails answers)
        ⊎ FirstNamed answers (ask_nodes identify_pool answers miner_unknown)
  unfolding ask_nodes
  ask_nodes-FirstNamed [] = inl (refl, tt)
  ask_nodes-FirstNamed (answer ∷ answers) =
      let miner = miner_after identify_pool answer miner_unknown in
      elim (Bool-cases (str_eq miner miner_unknown)) [
        | inl unknown ↦
            let is_unknown : miner ≡ miner_unknown = (str_eq_iff miner miner_unknown).0 unknown in
            let failed = failed_of_unknown answer is_unknown in
            let rest : ask_nodes identify_pool (answer ∷ answers) miner_unknown
                ≡ ask_nodes identify_pool answers miner_unknown =
              rw (unknown, ask_nodes) (ap (ask_nodes identify_pool answers) is_unknown) in
            elim (ask_nodes-FirstNamed answers) [
              | inl (none_known, all_fail) ↦ inl (rest ∙ none_known, (failed, all_fail))
              | inr f ↦ inr (record {
                before = answer ∷ f.before;
                coinbase = f.coinbase;
                after = f.after;
                split = ap (λ l. answer ∷ l) f.split;
                earlier_fail = (failed, f.earlier_fail);
                named = f.named ∙ sym rest;
                is_known = λ e. f.is_known (sym rest ∙ e);
              })
            ]
        | inr known ↦
            let is_known : miner ≢ miner_unknown =
              λ e. let same = (str_eq_iff miner miner_unknown).1 e in absurd (cc) in
            let (coinbase, is_ok, named) = named_of_known answer is_known in
            let stops : ask_nodes identify_pool (answer ∷ answers) miner_unknown ≡ miner =
              rw (known, ask_nodes) refl in
            inr (record {
              before = [];
              coinbase = coinbase;
              after = answers;
              split = ap (λ a. a ∷ answers) is_ok;
              earlier_fail = tt;
              named = named ∙ sym stops;
              is_known = λ e. is_known (sym stops ∙ e);
            })
      ]
