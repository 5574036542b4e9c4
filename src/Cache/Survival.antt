-- ===== src/Cache/Survival.antt =====
-- An identified miner is still there after the header tree is replaced (`update_cache` of
-- src/main.rs), if at most four other miners were identified in between.
use mathlib.Core.List.Perm
use mathlib.Core.List.{Mem, Perm, append-nil, append_assoc, mem-map_of_mem}
use fork_observer.Prelude.{
  ◌+◌, ◌≤◌, ◌<◌, ◌≡◌, ◌≢◌, refl, sym, ap, subst, ◌∙◌, inl, inr, String, List, [], ◌∷◌, ◌++◌, map,
  arith, length, length-append, ltb, All, suc, str_eq, str_eq_iff, string_key, Bool-cases,
}
use fork_observer.Prelude.HashMap.{HashMap}
use fork_observer.Bitcoin.{Bitcoin}
use fork_observer.Types.{Clock, HeaderInfoJson, set_json_miner, HeaderInfo, Fork, Cache, hash_of}
use fork_observer.Cache.{
  Order, header_miner, header_tree, apply_update, apply_miners, collect_headers, push_recent,
}
use fork_observer.Cache.Miners.{
  DistinctHashes, relabel, entries, collect_headers-entries, apply_miners-entries, Apart-nil,
}

-- A hash map is iterated in some order: each entry once.
abbrev pub IsIteration : Order → Type 0
IsIteration order = (m : HashMap String HeaderInfoJson) → Perm (order m) m

map-entries : (hs : List HeaderInfoJson) → map (λ e. e.1) (entries hs) ≡ hs
map-entries [] = refl
map-entries (h ∷ hs) = ap (λ t. h ∷ t) (map-entries hs)

module _ {B : Bitcoin} (order : Order) (iterates : IsIteration order) (now : Clock)
    (hs : List HeaderInfoJson) (forks : List (Fork B)) where
  -- HeaderTree: if no two new headers have the same hash, the cache then holds the new headers, in
  -- some order, each with the miner that was last identified for it among the recent ones; its
  -- forks are the new ones, its nodes and recent miners are as before.
  pub apply_update-header_tree :
      (c : Cache B)
      → DistinctHashes hs
      → Perm
          (apply_update order now (header_tree hs forks) c).header_infos_json
          (map (relabel c.recent_miners) hs)
        × ((apply_update order now (header_tree hs forks) c).forks ≡ forks)
        × ((apply_update order now (header_tree hs forks) c).node_data ≡ c.node_data)
        × ((apply_update order now (header_tree hs forks) c).recent_miners ≡ c.recent_miners)
  unfolding apply_update
  apply_update-header_tree c distinct =
      let collected = apply_miners c.recent_miners (collect_headers [] hs) in
      let as_entries =
        ap (apply_miners c.recent_miners) (collect_headers-entries [] hs (Apart-nil hs) distinct)
        ∙ apply_miners-entries c.recent_miners hs distinct in
      let labelled = map (relabel c.recent_miners) hs in
      (
        subst (λ l. Perm (map (λ e. e.1) (order collected)) l)
            (ap (map (λ e. e.1)) as_entries ∙ map-entries labelled)
            (Perm.map (λ (e : String × HeaderInfoJson). e.1) (iterates collected)),
        refl,
        refl,
        refl,
      )

relabel-append :
    (ms ns : List (String × String)) (h : HeaderInfoJson)
    → relabel (ms ++ ns) h ≡ relabel ns (relabel ms h)
unfolding relabel
relabel-append [] ns h = refl
relabel-append ((hash, miner) ∷ rest) ns h = relabel-append rest ns _

-- Relabelling changes the miner only.
relabel-set :
    (ms : List (String × String)) (h : HeaderInfoJson)
    → (m : String) × (relabel ms h ≡ set_json_miner m h)
unfolding relabel set_json_miner
relabel-set [] h = (h.miner, refl)
relabel-set ((hash, miner) ∷ rest) h = elim (Bool-cases (str_eq h.hash hash)) [
  | inl e ↦ let (m, q) = relabel-set rest (set_json_miner miner h) in (m, rw e q)
  | inr e ↦ let (m, q) = relabel-set rest h in (m, rw e q)
]

relabel-others :
    (ms : List (String × String)) (h : HeaderInfoJson)
    → All (λ e. e.0 ≢ h.hash) ms
    → relabel ms h ≡ h
unfolding relabel
relabel-others [] h a = refl
relabel-others ((hash, miner) ∷ rest) h a =
    ground (arith, str_eq_iff h.hash hash, a.0, relabel-others rest h a.1)

relabel-last :
    (ms os : List (String × String)) (hash miner : String) (h : HeaderInfoJson)
    → h.hash ≡ hash
    → All (λ e. e.0 ≢ hash) os
    → relabel (ms ++ (hash, miner) ∷ os) h ≡ set_json_miner miner h
unfolding relabel set_json_miner
relabel-last ms os hash miner h same others =
    let (m, q) = relabel-set ms h in
    rw (relabel-append ms ((hash, miner) ∷ os) h, q, (str_eq_iff h.hash hash).1 same)
      (relabel-others os (set_json_miner miner h) (rw same others))

-- The recent miners end with `e` and then `os`.
record EndsWith (e : String × String) (os ms : List (String × String)) : Type 0 where
  before : List (String × String)
  split : ms ≡ before ++ e ∷ os
  few : length ms ≤ 5

push_recent_self :
    (e : String × String) (ms : List (String × String))
    → length ms ≤ 5
    → EndsWith e [] (push_recent e ms)
unfolding push_recent
push_recent_self e [] h = record { before = []; split = ground arith; few = ground arith }
push_recent_self e (m ∷ ms) h = elim (Bool-cases (ltb 5 (suc (length (ms ++ e ∷ []))))) [
  | inl over ↦ record {
    before = ms;
    split = rw over;
    few = rw over (omega (arith, length-append ms (e ∷ [])));
  }
  | inr fits ↦ record { before = m ∷ ms; split = rw fits; few = rw fits (ground arith) }
]

push_recent-other :
    (e o : String × String) (before os : List (String × String))
    → length os < 4
    → length (before ++ e ∷ os) ≤ 5
    → EndsWith e (os ++ o ∷ []) (push_recent o (before ++ e ∷ os))
unfolding push_recent
push_recent-other e o [] os room few = record {
  before = [];
  split = ground (arith, length-append os (o ∷ []));
  few = ground (arith, length-append os (o ∷ []));
}
push_recent-other e o (x ∷ xs) os room few =
    let more = append_assoc xs (e ∷ os) (o ∷ []) in
    let longer = length-append (xs ++ e ∷ os) (o ∷ []) in
    elim (Bool-cases (ltb 5 (length ((x ∷ xs ++ e ∷ os) ++ o ∷ [])))) [
      | inl over ↦ record {
        before = xs;
        split = rw over more;
        few = rw over (omega (arith, longer));
      }
      | inr fits ↦ record {
        before = x ∷ xs;
        split = rw fits (ap (λ t. x ∷ t) more);
        few = rw fits (ground arith);
      }
    ]

push_recent-EndsWith :
    (e o : String × String) (os ms : List (String × String))
    → length os < 4
    → EndsWith e os ms
    → EndsWith e (os ++ o ∷ []) (push_recent o ms)
push_recent-EndsWith e o os ms room w =
    subst (λ l. EndsWith e (os ++ o ∷ []) (push_recent o l)) (sym w.split)
      (push_recent-other e o w.before os room (rw (← w.split) w.few))

-- The hash and the miner that HeaderMiner records for a header.
abbrev pub identified : {B : Bitcoin} → HeaderInfo B → String × String
identified {B} hi = (B.hash_to_string (hash_of hi), hi.miner)

module _ {B : Bitcoin} (order : Order) (now : Clock) where
  -- HeaderMiner for each of the headers, in turn.
  pub identify : List (HeaderInfo B) → Cache B → Cache B
  identify [] c = c
  identify (hi ∷ his) c = identify his (apply_update order now (header_miner hi) c)

  identify-EndsWith :
      (e : String × String) (os : List (String × String)) (his : List (HeaderInfo B)) (c : Cache B)
      → length os + length his ≤ 4
      → EndsWith e os c.recent_miners
      → EndsWith e (os ++ map identified his) (identify his c).recent_miners
  unfolding identify apply_update
  identify-EndsWith e os [] c room w = rw append-nil w
  identify-EndsWith e os (hi ∷ his) c room w =
      subst (λ l. EndsWith e l (identify (hi ∷ his) c).recent_miners)
        (append_assoc os (identified hi ∷ []) (map identified his))
        (identify-EndsWith e (os ++ identified hi ∷ []) his _
          (omega (arith, length-append os (identified hi ∷ [])))
          (push_recent-EndsWith e (identified hi) os c.recent_miners (omega arith) w))

  -- A header's miner is identified, then at most four other headers' miners, and then the header
  -- tree is replaced, possibly by one that was stripped before all that: the cached header with
  -- that hash has the miner that was identified.
  pub miner_survives :
      (iterates : IsIteration order) (hi : HeaderInfo B) (others : List (HeaderInfo B))
      (hs : List HeaderInfoJson) (forks : List (Fork B)) (h : HeaderInfoJson) (c : Cache B)
      → length c.recent_miners ≤ 5
      → length others ≤ 4
      → All (λ e. e.0 ≢ (identified hi).0) (map identified others)
      → DistinctHashes hs
      → Mem h hs
      → h.hash ≡ (identified hi).0
      → Mem
          (set_json_miner hi.miner h)
          (apply_update order now
            (header_tree hs forks)
            (identify (hi ∷ others) c)).header_infos_json
  unfolding identify
  miner_survives iterates hi others hs forks h c few short apart distinct listed same =
      let first = apply_update order now (header_miner hi) c in
      let start : EndsWith (identified hi) [] first.recent_miners =
        unfold apply_update in push_recent_self (identified hi) c.recent_miners few in
      let w = identify-EndsWith (identified hi) [] others first (omega arith) start in
      let final = identify others first in
      let relabelled =
        ap (λ ms. relabel ms h) w.split
        ∙ relabel-last w.before (map identified others) (identified hi).0 hi.miner h same apart in
      let (kept, _, _, _) = apply_update-header_tree order iterates now hs forks final distinct in
      Perm.subset (Perm.symm kept) (set_json_miner hi.miner h) (
        subst (λ g. Mem g (map (relabel final.recent_miners) hs)) relabelled
          (mem-map_of_mem (relabel final.recent_miners) listed))
