-- ===== src/Identify/Moves.antt =====
-- What a step of the task of src/main.rs that identifies miners may change: the caches of its network
-- by one `update_cache`, and the miner of one node of the tree, which stays a forest with the same
-- headers.
use mathlib.Core.Path.{fun_ext}
use fork_observer.Prelude.{
  ℕ, ◌≡◌, refl, sym, ap, subst, ◌∙◌, inl, inr, Option, some, List, [], ◌∷◌, map, arith, In,
  get_elem?, get_elem?-lt, Distinct, Bool-cases, Option-cases,
}
use native.Mathlib.Decide.{ℕ_discrete}
use fork_observer.Prelude.Options.{>>=-eq-some}
use fork_observer.Prelude.Results.{Result, ok, err}
use fork_observer.Bitcoin.{Bitcoin}
use fork_observer.Cache.{header_miner, update_cache}
use fork_observer.Config.Settings.{Network}
use fork_observer.Db.{Sqlite, update_miner}
use fork_observer.Errors.{Crates, DbError}
use fork_observer.Identify.{
  Phase, receiving, asking, storing, persisting, caching, Answers, look_up, receive, store,
  persisted, cache_miner, advance,
}
use fork_observer.Identify.Effect.{
  HeaderAt, InPlace, relabelled, at_self, at_other, set_weight-IsIndexed,
}
use fork_observer.Petgraph.{DiGraph}
use fork_observer.Petgraph.Walk.{target}
use fork_observer.Petgraph.Weights.{Weights}
use fork_observer.Poll.{World}
use fork_observer.Poll.Moves.{CachesMove}
use fork_observer.Tree.{TreeInfo, index_of, nodes}
use fork_observer.Tree.Parents.{IsForest}
use fork_observer.Tree.View.{view, view-at, view-none}
use fork_observer.Types.{HeaderInfo, hash_of}

module _ {B : Bitcoin} {P : DiGraph (HeaderInfo B)} (G : Weights P) (t : TreeInfo B P) (idx : ℕ)
    (h : HeaderInfo B) (there : HeaderAt t idx h) where
  -- Each node has the header that it had.
  same_header_at :
      (j : ℕ) (g : HeaderInfo B)
      → get_elem? (nodes t) j ≡ some g
      → (k : HeaderInfo B) × (get_elem? (nodes (relabelled G t idx h)) j ≡ some k)
        × (k.header ≡ g.header)
  same_header_at j g e = elim (ℕ_discrete idx j) [
    | yes same ↦
        let at_g : some there.there ≡ some g =
          sym there.at_idx ∙ ap (get_elem? (nodes t)) same ∙ e in
        let same_g : there.there ≡ g = ground (arith, at_g) in
        (
          h,
          ap (get_elem? (nodes (relabelled G t idx h))) (sym same) ∙ at_self G t idx h there,
          sym there.same_header ∙ ap (λ (x : HeaderInfo B). x.header) same_g,
        )
    | no ne ↦ (g, at_other G t idx h there j ne ∙ e, refl)
  ]

  set_weight-IsForest : IsForest t → IsForest (relabelled G t idx h)
  set_weight-IsForest v =
      let same_edges : P.edges (relabelled G t idx h).graph ≡ P.edges t.graph =
        G.edges-set_weight t.graph idx h (get_elem?-lt (nodes t) idx there.at_idx) in
      record {
        indexed = set_weight-IsIndexed G t idx h there v.indexed;
        linked = λ e m.
            let p = v.linked e (subst (In e) same_edges m) in
            let (parent, at_source, same_parent) = same_header_at e.0 p.parent p.at_source in
            let (child, at_target, same_child) = same_header_at e.1 p.child p.at_target in
            record {
              parent = parent;
              child = child;
              at_source = at_source;
              at_target = at_target;
              follows =
                  ap B.prev_blockhash same_child ∙ p.follows ∙ sym (ap B.block_hash same_parent);
            };
        parents = subst (λ l. Distinct (map target l)) (sym same_edges) v.parents;
      }

  view-relabelled : IsForest t → view (relabelled G t idx h) ≡ view t
  view-relabelled v = fun_ext λ hash. elim (Option-cases (index_of t hash)) [
    | inl unknown ↦ view-none (relabelled G t idx h) hash unknown ∙ sym (view-none t hash unknown)
    | inr (i, found) ↦
        let (g, at_i, _) = v.indexed.sound hash i found in
        let (k, at_i', same) = same_header_at i g at_i in
        view-at (relabelled G t idx h) hash i k found at_i'
        ∙ ap some same
        ∙ sym (view-at t hash i g found at_i)
  ]

module _ {B : Bitcoin} {E : Crates} {P : DiGraph (HeaderInfo B)} (G : Weights P) (S : Sqlite B E)
    (network : Network) (a : Answers B E) (w w' : World P S) (phase' : Phase B)
    (v : IsForest w.tree) where
  -- One update of the caches at most, and a forest still, with the same headers
  abbrev pub Moves : Type 0
  Moves = CachesMove network.id w.caches w'.caches × IsForest w'.tree × (view w'.tree ≡ view w.tree)

  still :
      (phase : Phase B) (u : World P S)
      → ◌≡◌ {A = Option (Phase B × World P S)} (some (phase, u)) (some (phase', w'))
      → u.caches ≡ w.caches
      → IsForest u.tree
      → view u.tree ≡ view w.tree
      → Moves
  still phase u e same forest same_view =
      let ew : u ≡ w' = ground (arith, e) in
      (
        inl (ap (λ x. x.caches) (sym ew) ∙ same),
        subst (λ x. IsForest x.tree) ew forest,
        ap (λ x. view x.tree) (sym ew) ∙ same_view,
      )

  receive-Moves :
      (queue : List B.BlockHash) → receive G S network a queue w ≡ some (phase', w') → Moves
  unfolding receive
  receive-Moves [] e = still receiving w e refl v refl
  receive-Moves (hash ∷ hashes) e = elim (Bool-cases network.pool_identification.enable) [
    | inl enabled ↦ elim (Option-cases (look_up G S network a (index_of w.tree hash) w.tree)) [
      | inl nothing ↦ absurd (ground (arith, e, enabled, nothing))
      | inr (phase, found) ↦
          still phase (record w { queue = hashes }) (ground (arith, e, enabled, found)) refl v refl
    ]
    | inr disabled ↦
        still receiving (record w { queue = hashes }) (ground (arith, e, disabled)) refl v refl
  ]

  persisted-Moves :
      (h : HeaderInfo B) (result : Result (DbError E) S.Db)
      → persisted G S network a h result w ≡ some (phase', w')
      → Moves
  unfolding persisted
  persisted-Moves h (ok db) e = still (caching h) _ e refl v refl
  persisted-Moves h (err f) e = still (caching h) _ e refl v refl

  pub advance-Moves :
      (phase : Phase B)
      → InPlace w.tree phase
      → advance G S network a phase w ≡ some (phase', w')
      → Moves
  unfolding advance store cache_miner
  advance-Moves receiving here e = receive-Moves w.queue e
  advance-Moves (asking idx h) here e = still _ _ e refl v refl
  advance-Moves (storing idx h) here e =
      still (persisting h) (record w { tree = relabelled G w.tree idx h }) e refl
        (set_weight-IsForest G w.tree idx h here v) (view-relabelled G w.tree idx h here v)
  advance-Moves (persisting h) here e =
      persisted-Moves h (update_miner S (hash_of h) h.miner w.db) e
  advance-Moves (caching h) here e =
      let (c, done, r) =
        >>=-eq-some (update_cache a.order a.now network.id (header_miner h) w.caches) _ e in
      let ew : record w { caches = c } ≡ w' = ground (arith, r) in
      (
        inr (a.order, a.now, header_miner h, done ∙ ap some (ap (λ x. x.caches) ew)),
        subst (λ x. IsForest x.tree) ew v,
        ap (λ x. view x.tree) (sym ew),
      )
