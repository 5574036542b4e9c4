-- ===== src/Identify/Effect.antt =====
-- What a step of the task of src/main.rs that identifies miners does to the tree and the database.
use fork_observer.Prelude.{
  ℕ, ◌≡◌, refl, sym, ap, subst, ◌∙◌, inl, inr, Option, none, some, List, [], ◌∷◌, arith, In,
  get_elem?, get_elem?-lt, get_elem?-set_elem_self, get_elem?-set_elem_other, set_elem, ◌≢◌,
  in-set_elem, in_of_get_elem?, Option-cases, Bool-cases,
}
use native.Mathlib.Decide.{ℕ_discrete}
use fork_observer.Prelude.Options.{>>=-eq-some}
use fork_observer.Prelude.Results.{Result, ok, err}
use fork_observer.Bitcoin.{Bitcoin}
use fork_observer.Cache.{header_miner, update_cache, tip_heights}
use fork_observer.Config.Settings.{Network}
use fork_observer.Db.{Sqlite, update_miner}
use fork_observer.Db.Keys.{KeepsKeys, update_miner-KeepsKeys}
use fork_observer.Errors.{Crates, DbError}
use fork_observer.Identify.{
  Phase, receiving, asking, storing, persisting, caching, Answers, look_up, receive, identify,
  store, persisted, cache_miner, advance, is_unidentified, request_unidentified,
}
use fork_observer.Headertree.{sorted_interesting_heights}
use fork_observer.Petgraph.{DiGraph}
use fork_observer.Petgraph.Weights.{Weights}
use fork_observer.Poll.{World}
use fork_observer.Tree.{TreeInfo, index_of, nodes}
use fork_observer.Tree.Indexed.{IsIndexed}
use fork_observer.Types.{HeaderInfo, hash_of, set_miner}

module _ {B : Bitcoin} {P : DiGraph (HeaderInfo B)} where
  -- The node at the index has this header, perhaps with another miner.
  pub record HeaderAt (t : TreeInfo B P) (idx : ℕ) (h : HeaderInfo B) : Type 0 where
    pub there : HeaderInfo B
    pub at_idx : get_elem? (nodes t) idx ≡ some there
    pub same_header : there.header ≡ h.header
    pub same_height : there.height ≡ h.height

  -- A header that the task is to store belongs to the node at its index.
  abbrev pub InPlace : TreeInfo B P → Phase B → Type 0
  InPlace t (asking idx h) = HeaderAt t idx h
  InPlace t (storing idx h) = HeaderAt t idx h
  InPlace t _ = Unit

  module _ (G : Weights P) (t : TreeInfo B P) (idx : ℕ) (h : HeaderInfo B) where
    abbrev pub relabelled : TreeInfo B P
    relabelled = record t { graph = G.set_weight t.graph idx h }

    module _ (there : HeaderAt t idx h) where
      same_nodes : nodes relabelled ≡ set_elem (nodes t) idx h
      same_nodes = G.raw_nodes-set_weight t.graph idx h (get_elem?-lt (nodes t) idx there.at_idx)

      pub at_self : get_elem? (nodes relabelled) idx ≡ some h
      at_self =
          ap (λ l. get_elem? l idx) same_nodes
          ∙ get_elem?-set_elem_self (nodes t) idx h (get_elem?-lt (nodes t) idx there.at_idx)

      pub at_other : (j : ℕ) → idx ≢ j → get_elem? (nodes relabelled) j ≡ get_elem? (nodes t) j
      at_other j ne =
          ap (λ l. get_elem? l j) same_nodes ∙ get_elem?-set_elem_other (nodes t) idx j h ne

      same_hash : hash_of there.there ≡ hash_of h
      same_hash = ap B.block_hash there.same_header

      pub set_weight-IsIndexed : IsIndexed t → IsIndexed relabelled
      set_weight-IsIndexed v = record {
        sound = λ k i e.
            let (g, at_i, named) = v.sound k i e in
            elim (ℕ_discrete idx i) [
              | yes same ↦
                  let at_g : some there.there ≡ some g =
                    sym there.at_idx ∙ ap (get_elem? (nodes t)) same ∙ at_i in
                  let same_g : there.there ≡ g = ground (arith, at_g) in
                  (
                    h,
                    ap (get_elem? (nodes relabelled)) (sym same) ∙ at_self,
                    sym same_hash ∙ ap hash_of same_g ∙ named,
                  )
              | no ne ↦ (g, at_other i ne ∙ at_i, named)
            ];
        complete = λ i g e. elim (ℕ_discrete idx i) [
          | yes same ↦
              let at_g : some h ≡ some g =
                sym at_self ∙ ap (get_elem? (nodes relabelled)) same ∙ e in
              let same_g : h ≡ g = ground (arith, at_g) in
              ap (index_of t) (sym (ap hash_of same_g) ∙ sym same_hash)
              ∙ v.complete idx there.there there.at_idx
              ∙ ap some same
          | no ne ↦ v.complete i g (sym (at_other i ne) ∙ e)
        ];
      }

      pub in-relabelled :
          (g : HeaderInfo B)
          → In g (nodes relabelled)
          → (k : HeaderInfo B) × In k (nodes t) × (k.header ≡ g.header)
      in-relabelled g m = elim (in-set_elem g (nodes t) idx h (subst (In g) same_nodes m)) [
        | inl e ↦ (
          there.there,
          in_of_get_elem? (nodes t) idx there.at_idx,
          there.same_header ∙ ap (λ (x : HeaderInfo B). x.header) (sym e),
        )
        | inr l ↦ (g, l, refl)
      ]

module _ {B : Bitcoin} {E : Crates} {P : DiGraph (HeaderInfo B)} (S : Sqlite B E) where
  -- The headers of the tree stay, up to their miners, and the table keeps its keys.
  pub record Effect (phase' : Phase B) (w w' : World P S) : Type 0 where
    pub indexed : IsIndexed w'.tree
    pub headers :
        (h : HeaderInfo B)
        → In h (nodes w'.tree)
        → (g : HeaderInfo B) × In g (nodes w.tree) × (g.header ≡ h.header)
    pub keys : KeepsKeys S w.db w'.db
    pub in_place : InPlace w'.tree phase'

  Effect-same_tree :
      (phase phase' : Phase B) (w v w' : World P S)
      → ◌≡◌ {A = Option (Phase B × World P S)} (some (phase, v)) (some (phase', w'))
      → v.tree ≡ w.tree
      → KeepsKeys S w.db v.db
      → IsIndexed w.tree
      → InPlace w.tree phase
      → Effect phase' w w'
  Effect-same_tree phase phase' w v w' e t k i p =
      let ep : phase ≡ phase' = ground (arith, e) in
      let ew : v ≡ w' = ground (arith, e) in
      let same : w.tree ≡ w'.tree = sym t ∙ ap (λ x. x.tree) ew in
      record {
        indexed = subst IsIndexed same i;
        headers = λ h m. (h, subst (λ x. In h (nodes x)) (sym same) m, refl);
        keys = subst (λ x. KeepsKeys S w.db x.db) ew k;
        in_place = subst (λ x. InPlace x phase') same (subst (InPlace w.tree) ep p);
      }

module _ {B : Bitcoin} {E : Crates} {P : DiGraph (HeaderInfo B)} (G : Weights P) (S : Sqlite B E)
    (network : Network) (a : Answers B E) (w w' : World P S) (phase' : Phase B)
    (v : IsIndexed w.tree) where
  keeps_all : KeepsKeys S w.db w.db
  keeps_all r k = k

  look_up-InPlace :
      (at_hash : Option ℕ) (phase : Phase B)
      → look_up G S network a at_hash w.tree ≡ some phase
      → InPlace w.tree phase
  unfolding look_up
  look_up-InPlace none phase e =
      let same : receiving ≡ phase = ground (arith, e) in subst (InPlace w.tree) same tt
  look_up-InPlace (some idx) phase e = elim (Option-cases (get_elem? (nodes w.tree) idx)) [
    | inl nothing ↦ absurd (ground (arith, e, nothing))
    | inr (h, found) ↦ elim (Bool-cases (is_unidentified h)) [
      | inl yes' ↦
          let same : asking idx h ≡ phase = ground (arith, e, found, yes') in
          subst (InPlace w.tree) same
            (record { there = h; at_idx = found; same_header = refl; same_height = refl })
      | inr no' ↦
          let same : receiving ≡ phase = ground (arith, e, found, no') in
          subst (InPlace w.tree) same tt
    ]
  ]

  receive-Effect :
      (queue : List B.BlockHash)
      → receive G S network a queue w ≡ some (phase', w')
      → Effect S phase' w w'
  unfolding receive
  receive-Effect [] e = Effect-same_tree S receiving phase' w _ w' e refl keeps_all v tt
  receive-Effect (hash ∷ hashes) e = elim (Bool-cases network.pool_identification.enable) [
    | inl enabled ↦ elim (Option-cases (look_up G S network a (index_of w.tree hash) w.tree)) [
      | inl nothing ↦ absurd (ground (arith, e, enabled, nothing))
      | inr (phase, found) ↦
          Effect-same_tree S phase phase' w (record w { queue = hashes }) w'
            (ground (arith, e, enabled, found)) refl keeps_all v
            (look_up-InPlace (index_of w.tree hash) phase found)
    ]
    | inr disabled ↦
        Effect-same_tree S receiving phase' w (record w { queue = hashes }) w'
          (ground (arith, e, disabled)) refl keeps_all v tt
  ]

  store-Effect :
      (idx : ℕ) (h : HeaderInfo B)
      → HeaderAt w.tree idx h
      → store G S network a idx h w ≡ some (phase', w')
      → Effect S phase' w w'
  unfolding store
  store-Effect idx h there e =
      let ep : persisting h ≡ phase' = ground (arith, e) in
      let ew : record w { tree = relabelled G w.tree idx h } ≡ w' = ground (arith, e) in
      subst (λ x. Effect S x w w') ep
        (subst (Effect S (persisting h) w) ew (record {
          indexed = set_weight-IsIndexed G w.tree idx h there v;
          headers = in-relabelled G w.tree idx h there;
          keys = keeps_all;
          in_place = tt;
        }))

  persisted-Effect :
      (h : HeaderInfo B) (result : Result (DbError E) S.Db)
      → update_miner S (hash_of h) h.miner w.db ≡ result
      → persisted G S network a h result w ≡ some (phase', w')
      → Effect S phase' w w'
  unfolding persisted
  persisted-Effect h (ok db) runs e =
      Effect-same_tree S (caching h) phase' w _ w' e refl
        (update_miner-KeepsKeys S (hash_of h) h.miner w.db db runs) v tt
  persisted-Effect h (err f) runs e =
      Effect-same_tree S (caching h) phase' w _ w' e refl keeps_all v tt

  pub advance-Effect :
      (phase : Phase B)
      → InPlace w.tree phase
      → advance G S network a phase w ≡ some (phase', w')
      → Effect S phase' w w'
  unfolding advance cache_miner identify set_miner
  advance-Effect receiving here e = receive-Effect w.queue e
  advance-Effect (asking idx h) here e =
      Effect-same_tree S (storing idx (identify G S network a h)) phase' w _ w' e refl keeps_all v
        (record {
          there = here.there;
          at_idx = here.at_idx;
          same_header = here.same_header;
          same_height = here.same_height;
        })
  advance-Effect (storing idx h) here e = store-Effect idx h here e
  advance-Effect (persisting h) here e =
      persisted-Effect h (update_miner S (hash_of h) h.miner w.db) refl e
  advance-Effect (caching h) here e =
      let (c, done, r) =
        >>=-eq-some (update_cache a.order a.now network.id (header_miner h) w.caches) _ e in
      Effect-same_tree S receiving phase' w _ w' r refl keeps_all v tt

module _ {B : Bitcoin} {E : Crates} {P : DiGraph (HeaderInfo B)} (S : Sqlite B E)
    (network : Network) where
  -- The one-shot task only puts hashes into the channel.
  pub request_unidentified_same :
      (w w' : World P S)
      → request_unidentified S network w ≡ some w'
      → (w'.tree ≡ w.tree) × (w'.db ≡ w.db) × (w'.caches ≡ w.caches)
  unfolding request_unidentified
  request_unidentified_same w w' e =
      let (tops, got, r) = >>=-eq-some (tip_heights network.id w.caches) _ e in
      let (heights, got', r') =
        >>=-eq-some (sorted_interesting_heights w.tree network.max_interesting_heights tops) _ r in
      (ground (arith, r'), ground (arith, r'), ground (arith, r'))
