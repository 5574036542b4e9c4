-- ===== src/Poll/Ticks.antt =====
-- A tick of the polling task of src/main.rs: what the node answers to `tips` decides its reachability and
-- whether headers are loaded.
use fork_observer.Prelude.{
  ℕ, ◌≡◌, ◌≢◌, ◌⊎◌, refl, sym, ap, subst, ◌∙◌, inl, inr, Bool, true, false, not, some, List, arith,
  if◌then◌else◌, Bool-cases,
}
use fork_observer.Prelude.Options.{>>=-eq-some}
use fork_observer.Prelude.Results.{Result, ok, err}
use fork_observer.Bitcoin.{Bitcoin}
use fork_observer.Prelude.BTree
use fork_observer.Cache.{is_node_reachable, node_reachability, apply_update}
use fork_observer.Cache.Frame.{update_cache-frame}
use fork_observer.Cache.Nodes.{ReachabilitySet, apply_update-node_reachability}
use fork_observer.Config.Settings.{Network}
use fork_observer.Db.{Sqlite}
use fork_observer.Errors.{Crates, FetchError}
use fork_observer.Node.{Fetch, fetch, new_headers}
use fork_observer.Petgraph.{DiGraph}
use fork_observer.Petgraph.Walk.{Walk}
use fork_observer.Poll.{
  World, Phase, waiting, fetching, Poller, Answers, node_id, update, mark_reachable, tips_answered,
  headers_fetched, step_of, advance,
}
use fork_observer.Poll.Effect.{done-pair}
use fork_observer.Types.{ChainTip, HeaderInfo, NodeDataJson, Cache, Caches}
use fork_observer.Types.Equality.{same_tips, same_tips_iff}

module _ {B : Bitcoin} {E : Crates} (network : Network) (a : Answers B E) where
  -- The caches `cs'` are `cs` but for the entry of the node, which is made reachable or not, as `r`
  -- says, and otherwise stays as it is.
  pub record Marked (r : Bool) (cs cs' : Caches B) : Type 0 where
    pub cache : Cache B
    pub cache' : Cache B
    pub entry : NodeDataJson
    pub found : BTree.get network.id cs ≡ some cache
    pub found' : BTree.get network.id cs' ≡ some cache'
    pub known : BTree.get (node_id network a) cache.node_data ≡ some entry
    pub marked : ReachabilitySet (node_id network a) r entry cache cache'
    pub other_networks : (net : ℕ) → net ≢ network.id → BTree.get net cs' ≡ BTree.get net cs
    pub same_networks : BTree.keys cs' ≡ BTree.keys cs

  mark_reachable-Marked :
      (r : Bool) (cs cs' : Caches B) → mark_reachable network a r cs ≡ some cs' → Marked r cs cs'
  unfolding mark_reachable is_node_reachable
  mark_reachable-Marked r cs cs' e =
      let id = network.id in
      let nid = node_id network a in
      let (was, read, rest) = >>=-eq-some (is_node_reachable id nid cs) _ e in
      let (c, found, read') = >>=-eq-some (BTree.get id cs) _ read in
      let (n, known, reads) = >>=-eq-some (BTree.get nid c.node_data) _ read' in
      let is_was : n.reachable ≡ was = ground (arith, reads) in
      elim (Bool-cases (if r then not was else was)) [
        | inl differs ↦
            let runs : update network a (node_reachability nid r) cs ≡ some cs' =
              rw differs at rest in
            elim (update_cache-frame a.order a.now id (node_reachability nid r) cs) [
              | inl (missing, panics) ↦ absurd (cc)
              | inr (c', found', (after, updated)) ↦
                  let same : after ≡ cs' = cc (updated.runs, runs) in
                  let same_c : c' ≡ c = ground (arith, found, found') in
                  subst (Marked r cs) same (record {
                    cache = c;
                    cache' = apply_update a.order a.now (node_reachability nid r) c;
                    entry = n;
                    found = found;
                    found' = rw (← same_c) updated.updated;
                    known = known;
                    marked = apply_update-node_reachability nid r n a.order a.now c known;
                    other_networks = updated.others;
                    same_networks = updated.same_networks;
                  })
            ]
        | inr same ↦
            let kept : some cs ≡ some cs' = rw same at rest in
            let same_caches : cs ≡ cs' = ground (arith, kept) in
            let is_r : n.reachable ≡ r = is_was ∙ ground (arith, same) in
            subst (Marked r cs) same_caches (record {
              cache = c;
              cache' = c;
              entry = n;
              found = found;
              found' = found;
              known = known;
              marked = record {
                marked = known ∙ ap (λ x. some (record n { reachable = x })) is_r;
                others = λ i ne. refl;
                same_nodes = refl;
                same_headers = refl;
                same_forks = refl;
                same_miners = refl;
              };
              other_networks = λ net ne. refl;
              same_networks = refl;
            })
      ]

module _ {B : Bitcoin} {E : Crates} {P : DiGraph (HeaderInfo B)} (W : Walk P) (S : Sqlite B E)
    (network : Network) where
  -- What a tick with the answers `a` makes of the task `p` and of what the tasks share
  abbrev pub Ticked : Answers B E → Poller B E → Poller B E → World P S → World P S → Type 0
  Ticked a p p' w w' =
      (w' ≡ record w { caches = w'.caches })
      × (p'.last_tips ≡ p.last_tips)
      × (((tips : List ChainTip) × (a.node.tips ≡ ok tips)
            × Marked network a true w.caches w'.caches
            × (((tips ≢ p.last_tips) × (p'.phase ≡ fetching tips))
                ⊎ ((tips ≡ p.last_tips) × (p'.phase ≡ waiting))))
          ⊎ ((e : FetchError E) × (a.node.tips ≡ err e)
              × Marked network a false w.caches w'.caches
              × (p'.phase ≡ waiting)))

  module _ (a : Answers B E) (p p' : Poller B E) (w w' : World P S) where
    tips_answered-Ticked :
        (answer : Result (FetchError E) (List ChainTip))
        → a.node.tips ≡ answer
        → tips_answered W S network a answer p w ≡ some (p', w')
        → Ticked a p p' w w'
    unfolding tips_answered
    tips_answered-Ticked (ok tips) answered e =
        let (c, runs, r) = >>=-eq-some (mark_reachable network a true w.caches) _ e in
        let (ep, ew) = done-pair S network r in
        let at_caches = ap (λ x. x.caches) ew in
        let at_phase = ap (λ x. x.phase) (sym ep) in
        (
          sym ew ∙ ap (λ (x : Caches B). record w { caches = x }) at_caches,
          ap (λ x. x.last_tips) (sym ep),
          inl (
            tips,
            answered,
            subst (Marked network a true w.caches) at_caches
                (mark_reachable-Marked network a true w.caches c runs),
            elim (Bool-cases (same_tips p.last_tips tips)) [
              | inl same ↦
                  inr (sym ((same_tips_iff p.last_tips tips).0 same), at_phase ∙ rw same refl)
              | inr differ ↦ inl (
                λ e. let same = (same_tips_iff p.last_tips tips).1 (sym e) in absurd (cc),
                at_phase ∙ rw differ refl,
              )
            ],
          ),
        )
    tips_answered-Ticked (err f) answered e =
        let (c, runs, r) = >>=-eq-some (mark_reachable network a false w.caches) _ e in
        let (ep, ew) = done-pair S network r in
        let at_caches = ap (λ x. x.caches) ew in
        (
          sym ew ∙ ap (λ (x : Caches B). record w { caches = x }) at_caches,
          ap (λ x. x.last_tips) (sym ep),
          inr (
            f,
            answered,
            subst (Marked network a false w.caches) at_caches
                (mark_reachable-Marked network a false w.caches c runs),
            ap (λ x. x.phase) (sym ep),
          ),
        )

    -- A tick changes nothing that the tasks share but the reachability in the entry of the node, and
    -- keeps the last tips. If the node answers, its entry becomes reachable, and its headers are
    -- loaded exactly if the tips differ from the last ones; if it does not, its entry becomes
    -- unreachable and the task waits.
    pub tick : p.phase ≡ waiting → advance W S network a p w ≡ some (p', w') → Ticked a p p' w w'
    unfolding advance step_of
    tick waits e =
        tips_answered-Ticked a.node.tips refl
          (subst (λ (x : Phase B E). step_of W S network a x p w ≡ some (p', w')) waits e)

    pub fetch_fails :
        (tips : List ChainTip) (f : FetchError E)
        → p.phase ≡ fetching tips
        → new_headers a.node w.tree tips network.min_fork_height ≡ err (fetch f)
        → advance W S network a p w ≡ some (p', w')
        → (p' ≡ record p { phase = waiting }) × (w' ≡ w)
    unfolding advance step_of headers_fetched
    fetch_fails tips f at failed e =
        let e' = subst (λ (x : Phase B E). step_of W S network a x p w ≡ some (p', w')) at e in
        let e'' =
          subst
            (λ (r : Fetch E (List (HeaderInfo B) × List B.BlockHash)).
              headers_fetched W S network a tips r p w ≡ some (p', w'))
            failed e' in
        let (ep, ew) = done-pair S network e'' in (sym ep, sym ew)

  -- If the headers of new tips cannot be loaded, nothing changes but that the task waits; and at
  -- the next tick at which the node reports these tips, whatever the other tasks did in between,
  -- it loads their headers again.
  pub retried :
      (a a' : Answers B E) (p p' p'' : Poller B E) (w w' v v' : World P S) (tips : List ChainTip)
      (f : FetchError E)
      → p.phase ≡ fetching tips
      → tips ≢ p.last_tips
      → new_headers a.node w.tree tips network.min_fork_height ≡ err (fetch f)
      → advance W S network a p w ≡ some (p', w')
      → a'.node.tips ≡ ok tips
      → advance W S network a' p' v ≡ some (p'', v')
      → (w' ≡ w) × (p' ≡ record p { phase = waiting }) × (p''.phase ≡ fetching tips)
  retried a a' p p' p'' w w' v v' tips f at new failed e answered e' =
      let (same_p, same_w) = fetch_fails a p p' w w' tips f at failed e in
      let (_, _, outcome) = tick a' p' p'' v v' (ap (λ x. x.phase) same_p) e' in
      (
        same_w,
        same_p,
        elim outcome [
          | inl (tips', answered', _, inl (differ, loads)) ↦
              let same : tips' ≡ tips = ground (arith, answered, answered') in
              loads ∙ ap fetching same
          | inl (tips', answered', _, inr (same_tips', waits)) ↦
              let same : tips' ≡ tips = ground (arith, answered, answered') in
              absurd (new (sym same ∙ same_tips' ∙ ap (λ x. x.last_tips) same_p))
          | inr (g, failed', _, _) ↦ absurd (ground (arith, answered, failed'))
        ],
      )
