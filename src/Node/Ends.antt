-- ===== src/Node/Ends.antt =====
-- `new_headers` of src/node.rs ends with headers or with an error of the node, whatever the node
-- answers, over RPC and over REST: it does not panic, and the fuel of the model is enough.
use fork_observer.Prelude.{
  ℕ, zero, suc, ◌+◌, ◌-◌, ◌^◌, ◌<◌, ◌≡◌, ◌⊎◌, refl, sym, ap, subst, ◌∙◌, inl, inr, Bool, true,
  false, Option, none, some, List, [], ◌∷◌, arith, All, select, last, In, leb, if◌then◌else◌,
  Bool-cases, in-select, All-in, leb→le,
}
use fork_observer.Prelude.Int.{ℤ, pos, negsuc, ◌-ℤ◌, ◌+ℤ◌, lt_int, max_int, as_i64, as_unsigned}
use fork_observer.Prelude.Results.{Result, ok, err, ◌>>=◌, map_err}
use fork_observer.Bitcoin.{Bitcoin}
use fork_observer.Errors.{Crates, FetchError, data_error}
use fork_observer.Node.{
  Node, Fetch, fetch, panicked, out_of_fuel, knows, step_size, rest_headers, rest_round, rpc_round,
  round, active_loop, headers_below, new_active_headers, branch_headers, inactive_tip, tip_headers,
  new_nonactive_headers, new_headers,
}
use fork_observer.Petgraph.{DiGraph}
use fork_observer.Tree.{TreeInfo}
use fork_observer.Types.{ChainTip, HeaderInfo, tip_block_hash}
use fork_observer.Types.Status.{is_active}

-- A result or an error of the node: no panic, and the fuel of the model did not run out.
abbrev pub Answered : {E : Crates} {A : Type 0} → Fetch E A → Type 0
Answered (ok x) = Unit
Answered (err (fetch e)) = Unit
Answered (err panicked) = ⊥
Answered (err out_of_fuel) = ⊥

-- The hash of each tip is the text of a block hash.
abbrev pub AllParse : (B : Bitcoin) → List ChainTip → Type 0
AllParse B = All (λ tip. (hash : B.BlockHash) × (tip_block_hash B tip ≡ some hash))

module _ {E : Crates} {A C : Type 0} where
  Answered-bind :
      (r : Fetch E A) (next : A → Fetch E C)
      → Answered r
      → ((x : A) → r ≡ ok x → Answered (next x))
      → Answered (r >>= next)
  Answered-bind (ok x) next h rest = rest x refl
  Answered-bind (err (fetch e)) next h rest = tt
  Answered-bind (err panicked) next h rest = h
  Answered-bind (err out_of_fuel) next h rest = h

Answered-fetch :
    {E : Crates} {A : Type 0} (r : Result (FetchError E) A)
    → Answered {E = E} {A = A} (map_err fetch r)
Answered-fetch (ok x) = tt
Answered-fetch (err e) = tt

module _ {B : Bitcoin} {E : Crates} {P : DiGraph (HeaderInfo B)} (node : Node B E)
    (tree : TreeInfo B P) where
  -- The next height of a round is one lower, or 2000.
  abbrev Lower : ℤ → Fetch E (List (HeaderInfo B) × Option ℤ) → Type 0
  Lower q (ok (found, none)) = Unit
  Lower q (ok (found, some next)) = (next ≡ q -ℤ 1) ⊎ (next ≡ q -ℤ 2000)
  Lower q (err (fetch e)) = Unit
  Lower q (err panicked) = ⊥
  Lower q (err out_of_fuel) = ⊥

  Lower-bind :
      {A : Type 0} (q : ℤ) (r : Result (FetchError E) A)
      (next : A → Fetch E (List (HeaderInfo B) × Option ℤ))
      → ((x : A) → Lower q (next x))
      → Lower q (map_err fetch r >>= next)
  Lower-bind q (ok x) next rest = rest x
  Lower-bind q (err e) next rest = tt

  rpc_round-Lower : (q : ℤ) (found : List (HeaderInfo B)) → Lower q (rpc_round node tree q found)
  unfolding rpc_round
  rpc_round-Lower q found = Lower-bind q (node.block_hash (as_unsigned 64 q)) _ (λ hash.
      elim (Bool-cases (knows tree hash)) [
        | inl known ↦ rw known tt
        | inr unknown ↦ rw unknown (Lower-bind q (node.block_header hash) _ (λ header. inl refl))
      ])

  rest_round-Lower :
      (low : ℕ) (q : ℤ) (found : List (HeaderInfo B)) → Lower q (rest_round node tree low q found)
  unfolding rest_round
  rest_round-Lower low q found =
      let start = max_int (as_i64 low) ((q -ℤ step_size) +ℤ 1) in
      Lower-bind q (node.block_hash (as_unsigned 64 start)) _ (λ hash.
        Lower-bind q (node.active_chain_headers_rest step_size hash) _ (λ headers.
          elim (Bool-cases (rest_headers node tree start headers found false).1) [
            | inl knew ↦ rw knew tt
            | inr new ↦ rw new (inr refl)
          ]))

  round-Lower :
      (low : ℕ) (q : ℤ) (found : List (HeaderInfo B)) → Lower q (round node tree low q found)
  unfolding round
  round-Lower low q found = either node.use_rest
    where
      either :
          (b : Bool)
          → Lower q (if b then rest_round node tree low q found else rpc_round node tree q found)
      either true = rest_round-Lower low q found
      either false = rpc_round-Lower q found

  -- The next height is below 0, or a height below the last one.
  next_cases :
      (k : ℕ) (next : ℤ)
      → (next ≡ pos k -ℤ 1) ⊎ (next ≡ pos k -ℤ 2000)
      → ((j : ℕ) × (next ≡ negsuc j)) ⊎ ((j : ℕ) × (next ≡ pos j) × (j < k))
  next_cases k next (inl e) = elim (Bool-cases (leb 1 k)) [
    | inl le ↦ inr (k - 1, e ∙ rw le, omega (arith, leb→le 1 k le))
    | inr gt ↦ inl (1 - k - 1, e ∙ rw gt)
  ]
  next_cases k next (inr e) = elim (Bool-cases (leb 2000 k)) [
    | inl le ↦ inr (k - 2000, e ∙ rw le, omega (arith, leb→le 2000 k le))
    | inr gt ↦ inl (2000 - k - 1, e ∙ rw gt)
  ]

  negative_stops : (low j : ℕ) → low < 2 ^ 63 → lt_int (negsuc j) (as_i64 low) ≡ true
  negative_stops low j lt = ground arith

  settled :
      (below : Bool) (found : List (HeaderInfo B)) (rest : Fetch E (List (HeaderInfo B)))
      → (below ≡ false → Answered rest)
      → Answered {E = E} (elim below [ true ↦ ok found | false ↦ rest ])
  settled true found rest h = tt
  settled false found rest h = h refl

  -- What the loop does after a round
  abbrev after_round :
      (ℤ → List (HeaderInfo B) → Fetch E (List (HeaderInfo B)))
      → ℕ
      → Fetch E (List (HeaderInfo B) × Option ℤ)
      → Fetch E (List (HeaderInfo B))
  after_round again low r = elim r [
    | err e ↦ err e
    | ok (found', next) ↦ elim next [
      | none ↦ ok found'
      | some next_height ↦ elim (lt_int next_height (as_i64 low)) [
        | true ↦ ok found'
        | false ↦ again next_height found'
      ]
    ]
  ]

  after_round-Answered :
      (again : ℤ → List (HeaderInfo B) → Fetch E (List (HeaderInfo B))) (low k : ℕ)
      (r : Fetch E (List (HeaderInfo B) × Option ℤ))
      → low < 2 ^ 63
      → ((j : ℕ) (found : List (HeaderInfo B)) → j < k → Answered (again (pos j) found))
      → Lower (pos k) r
      → Answered (after_round again low r)
  after_round-Answered again low k (ok (found, none)) low_i64 ih h = tt
  after_round-Answered again low k (ok (found, some next)) low_i64 ih h =
      settled (lt_int next (as_i64 low)) found (again next found) (λ above.
        elim (next_cases k next h) [
          | inl (j, e) ↦
              let stops = ap (λ n. lt_int n (as_i64 low)) e ∙ negative_stops low j low_i64 in
              absurd (cc)
          | inr (j, e, lt) ↦ subst (λ n. Answered (again n found)) (sym e) (ih j found lt)
        ])
  after_round-Answered again low k (err (fetch e)) low_i64 ih h = tt
  after_round-Answered again low k (err panicked) low_i64 ih h = h
  after_round-Answered again low k (err out_of_fuel) low_i64 ih h = h

  -- A loop with a round for each height down to 0 ends.
  active_loop-Answered :
      (fuel low k : ℕ) (found : List (HeaderInfo B))
      → low < 2 ^ 63
      → k < fuel
      → Answered (active_loop node tree fuel low (pos k) found)
  unfolding active_loop
  active_loop-Answered zero low k found low_i64 lt = absurd (omega arith)
  active_loop-Answered (suc fuel) low k found low_i64 lt =
      after_round-Answered (active_loop node tree fuel low) low k
        (round node tree low (pos k) found) low_i64
        (λ j found' below. active_loop-Answered fuel low j found' low_i64 (omega arith))
        (round-Lower low (pos k) found)

  headers_below-Answered :
      (low : ℕ) (tip : Option ChainTip)
      → low < 2 ^ 63
      → ((t : ChainTip) → tip ≡ some t → t.height < 2 ^ 63)
      → Answered (headers_below node tree low tip)
  unfolding headers_below
  headers_below-Answered low none low_i64 tops = tt
  headers_below-Answered low (some tip) low_i64 tops =
      let at_height : as_i64 tip.height ≡ pos tip.height = ground (arith, tops tip refl) in
      Answered-bind (active_loop node tree (suc tip.height) low (as_i64 tip.height) []) _
        (subst (λ q. Answered (active_loop node tree (suc tip.height) low q [])) (sym at_height)
          (active_loop-Answered (suc tip.height) low tip.height [] low_i64 (omega arith)))
        (λ found e. tt)

  branch_headers-Answered :
      (left : ℕ) (tip : ChainTip) (i : ℕ) (next_header : B.BlockHash) (found : List (HeaderInfo B))
      (hash : B.BlockHash)
      → tip_block_hash B tip ≡ some hash
      → Answered (branch_headers node tree left tip i next_header found)
  unfolding branch_headers
  branch_headers-Answered zero tip i next_header found hash parses = tt
  branch_headers-Answered (suc left) tip i next_header found hash parses =
      elim (Bool-cases (knows tree hash)) [
        | inl known ↦ rw (parses, known, branch_headers) tt
        | inr unknown ↦
            rw (parses, unknown, branch_headers)
              (Answered-bind (map_err fetch (node.block_header next_header)) _
                (Answered-fetch (node.block_header next_header))
                (λ header e.
                  branch_headers-Answered left tip (i + 1) (B.prev_blockhash header) _ hash parses))
      ]

  tip_headers-Answered :
      (tips : List ChainTip) (found : List (HeaderInfo B))
      → AllParse B tips
      → Answered (tip_headers node tree tips found)
  unfolding tip_headers
  tip_headers-Answered [] found parse = tt
  tip_headers-Answered (tip ∷ tips) found ((hash, parses), rest) =
      rw (parses, tip_headers)
        (Answered-bind (branch_headers node tree (suc tip.branchlen) tip 0 hash found) _
          (branch_headers-Answered (suc tip.branchlen) tip 0 hash found hash parses)
          (λ found' e. tip_headers-Answered tips found' rest))

  AllParse-select :
      (p : ChainTip → Bool) (tips : List ChainTip) → AllParse B tips → AllParse B (select p tips)
  AllParse-select p [] parse = tt
  AllParse-select p (tip ∷ tips) parse = elim (Bool-cases (p tip)) [
    | inl keep ↦ rw keep (parse.0, AllParse-select p tips parse.1)
    | inr skip ↦ rw skip (AllParse-select p tips parse.1)
  ]

  last-in : (tips : List ChainTip) (tip : ChainTip) → last tips ≡ some tip → In tip tips
  last-in [] tip e = absurd (cc)
  last-in (t ∷ []) tip e = inl (ground (arith, e))
  last-in (t ∷ u ∷ tips) tip e = inr (last-in (u ∷ tips) tip e)

  -- If the hash of each tip is the text of a block hash, and the heights are below 2 ^ 63, the
  -- loading of new headers ends with headers or with an error of the node, whatever the node
  -- answers, over RPC and over REST. It does not panic, and a round for each height is enough.
  pub new_headers-Answered :
      (tips : List ChainTip) (low : ℕ)
      → AllParse B tips
      → All (λ tip. tip.height < 2 ^ 63) tips
      → low < 2 ^ 63
      → Answered (new_headers node tree tips low)
  unfolding new_headers new_active_headers new_nonactive_headers
  new_headers-Answered tips low parse heights low_i64 =
      let active = select (λ tip. is_active tip.status) tips in
      Answered-bind (headers_below node tree low (last active)) _
        (headers_below-Answered low (last active) low_i64 (λ t e.
          All-in (λ tip. tip.height < 2 ^ 63) tips heights
            ((in-select (λ tip. is_active tip.status) t tips).0 (last-in active t e)).0))
        (λ found e.
          Answered-bind (tip_headers node tree (select (inactive_tip node tree low) tips) []) _
            (tip_headers-Answered (select (inactive_tip node tree low) tips) []
              (AllParse-select (inactive_tip node tree low) tips parse))
            (λ others e'. tt))

  -- Without an active tip there is nothing to load, and an error says so.
  pub new_headers_without_active :
      (tips : List ChainTip) (low : ℕ)
      → last (select (λ tip. is_active tip.status) tips) ≡ none
      → new_headers node tree tips low ≡ err (fetch (data_error "No 'active' chain tip returned"))
  unfolding new_headers new_active_headers headers_below
  new_headers_without_active tips low e = rw e refl
