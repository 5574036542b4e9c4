-- ===== src/Node/Runs.antt =====
-- Runs of headers of an active chain, by which the results of `new_active_headers` of src/node.rs
-- are described.
use fork_observer.Prelude.{
  ℕ, zero, suc, ◌+◌, ◌≤◌, ◌≡◌, ◌⊎◌, refl, sym, ap, subst, ◌∙◌, inl, inr, Bool, true, false, List,
  [], ◌∷◌, ◌++◌, arith, leb, Bool-cases,
}
use fork_observer.Prelude.Results.{ok}
use fork_observer.Prelude.Sort.{sort_by_key, insert_by}
use fork_observer.Bitcoin.{Bitcoin}
use fork_observer.Errors.{Crates}
use fork_observer.Petgraph.{DiGraph}
use fork_observer.Types.{HeaderInfo}
use fork_observer.Tree.{TreeInfo}
use fork_observer.Node.{Node, knows, new_header}

-- The node's active chain up to the height `top` is `chain`: it answers the RPCs by that chain.
pub record Serves {B : Bitcoin} {E : Crates} (node : Node B E) (chain : ℕ → B.Header) (top : ℕ)
    : Type 0 where
  pub hashes : (h : ℕ) → h ≤ top → node.block_hash h ≡ ok (B.block_hash (chain h))
  pub headers : (h : ℕ) → h ≤ top → node.block_header (B.block_hash (chain h)) ≡ ok (chain h)

module _ {B : Bitcoin} (chain : ℕ → B.Header) where
  -- The headers at the heights `low`, `low + 1`, …, `n` of them.
  abbrev pub up : ℕ → ℕ → List (HeaderInfo B)
  up low zero = []
  up low (suc n) = new_header low (chain low) ∷ up (suc low) n

  -- The headers at the heights `low + n - 1`, …, `low`.
  abbrev pub down : ℕ → ℕ → List (HeaderInfo B)
  down low zero = []
  down low (suc n) = new_header (low + n) (chain (low + n)) ∷ down low n

  up-snoc : (low n : ℕ) → up low n ++ new_header (low + n) (chain (low + n)) ∷ [] ≡ up low (suc n)
  up-snoc low zero = ap (λ h. new_header h (chain h) ∷ []) (omega arith)
  up-snoc low (suc n) =
      ap (λ l. new_header low (chain low) ∷ l)
        (ap (λ h. up (suc low) n ++ new_header h (chain h) ∷ []) (omega arith)
          ∙ up-snoc (suc low) n)

  insert_by-up :
      (low n top : ℕ)
      → low + n ≤ top
      → insert_by (λ (h : HeaderInfo B). h.height) (new_header top (chain top)) (up low n)
        ≡ up low n ++ new_header top (chain top) ∷ []
  unfolding insert_by
  insert_by-up low zero top h = refl
  insert_by-up low (suc n) top h = ground (arith, insert_by-up (suc low) n top (omega arith))

  -- Sorting by height turns the descending run into the ascending one.
  pub sort_by_key-down :
      (low n : ℕ) → sort_by_key (λ (h : HeaderInfo B). h.height) (down low n) ≡ up low n
  unfolding sort_by_key
  sort_by_key-down low zero = refl
  sort_by_key-down low (suc n) =
      rw (sort_by_key-down low n) (insert_by-up low n (low + n) (omega arith) ∙ up-snoc low n)

module _ {B : Bitcoin} {P : DiGraph (HeaderInfo B)} (tree : TreeInfo B P)
    (chain : ℕ → B.Header) where
  abbrev pub known : ℕ → Bool
  known h = knows tree (B.block_hash (chain h))

  -- The `n` heights from `low` to `top` are unknown to the tree, and the run of unknown heights
  -- ends below them: there is the limit `lowest`, or a known header.
  pub record UnknownRun (lowest top low n : ℕ) : Type 0 where
    pub span : low + n ≡ suc top
    pub above : lowest ≤ low
    pub unknown : (h : ℕ) → low ≤ h → h ≤ top → known h ≡ false
    pub ends : (low ≡ lowest) ⊎ ((p : ℕ) × (suc p ≡ low) × (known p ≡ true))

  pub run_of_known :
      (lowest top : ℕ) → lowest ≤ top → known top ≡ true → UnknownRun lowest top (suc top) 0
  run_of_known lowest top le k = record {
    span = omega arith;
    above = omega arith;
    unknown = λ h a b. absurd (omega arith);
    ends = inr (top, refl, k);
  }

  pub run_of_last :
      (lowest top : ℕ) → lowest ≡ top → known top ≡ false → UnknownRun lowest top top 1
  run_of_last lowest top e u = record {
    span = omega arith;
    above = omega arith;
    unknown = λ h a b. subst (λ i. known i ≡ false) (omega arith) u;
    ends = inl (sym e);
  }

  pub run_of_more :
      (lowest top low n : ℕ)
      → known (suc top) ≡ false
      → UnknownRun lowest top low n
      → UnknownRun lowest (suc top) low (suc n)
  run_of_more lowest top low n u r = record {
    span = omega (arith, r.span);
    above = r.above;
    unknown = λ h a b. elim (Bool-cases (leb h top)) [
      | inl le ↦ r.unknown h a (ground arith)
      | inr gt ↦ subst (λ i. known i ≡ false) (ground arith) u
    ];
    ends = r.ends;
  }
