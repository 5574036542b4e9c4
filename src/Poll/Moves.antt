-- ===== src/Poll/Moves.antt =====
-- What a step of the polling task of src/main.rs may change: the caches of its network by one
-- `update_cache`, the tree by one `insert_new_headers_into_tree`.
use fork_observer.Prelude.{
  ℕ, ◌≡◌, ◌⊎◌, refl, sym, ap, ◌∙◌, inl, inr, Bool, true, false, not, Option, some, List, arith,
  if◌then◌else◌, Bool-cases,
}
use fork_observer.Prelude.Options.{>>=-eq-some}
use fork_observer.Prelude.Results.{Result, ok, err}
use fork_observer.Bitcoin.{Bitcoin}
use fork_observer.Cache.{
  Order, CacheUpdate, node_tips, node_version, node_reachability, header_tree, tip_heights,
  update_cache, is_node_reachable,
}
use fork_observer.Config.Settings.{Network}
use fork_observer.Db.{Sqlite, write_to_db}
use fork_observer.Errors.{Crates, DbError, FetchError}
use fork_observer.Headertree.Forks.{recent_forks}
use fork_observer.Headertree.Strip.{strip_tree}
use fork_observer.Node.{Fetch, fetch, panicked, out_of_fuel, new_headers}
use fork_observer.Petgraph.{DiGraph}
use fork_observer.Petgraph.Walk.{Walk}
use fork_observer.Poll.{
  World, Phase, starting, waiting, fetching, inserting, writing, publishing, measuring, stripping,
  forking, refreshing, stopped, Poller, Answers, node_id, update, mark_reachable,
  max_forks_in_cache, load_version, tips_answered, headers_fetched, insert_headers, headers_written,
  publish_tips, measure_tips, strip, find_forks, refresh, step_of, advance,
}
use fork_observer.Poll.Effect.{done-pair}
use fork_observer.Tree.{TreeInfo, insert_new_headers_into_tree}
use fork_observer.Types.{ChainTip, Clock, HeaderInfo, Caches}
use fork_observer.Version.{load_node_version}

module _ {B : Bitcoin} (network_id : ℕ) where
  -- One update of the caches at most
  abbrev pub CachesMove : Caches B → Caches B → Type 0
  CachesMove cs cs' =
      (cs' ≡ cs)
      ⊎ ((order : Order) × (now : Clock) × (u : CacheUpdate B) × (update_cache order now network_id
              u cs
            ≡ some cs'))

-- One insertion into the tree at most
abbrev pub TreeMove :
    {B : Bitcoin} {P : DiGraph (HeaderInfo B)} → TreeInfo B P → TreeInfo B P → Type 0
TreeMove {B} t t' =
    (t' ≡ t)
    ⊎ ((hs : List (HeaderInfo B)) × (changed : Bool) × (insert_new_headers_into_tree t hs
          ≡ some (t', changed)))

module _ {B : Bitcoin} {E : Crates} {P : DiGraph (HeaderInfo B)} (S : Sqlite B E)
    (network : Network) where
  abbrev pub Moves : World P S → World P S → Type 0
  Moves w w' = CachesMove network.id w.caches w'.caches × TreeMove w.tree w'.tree

  cache_move :
      (a : Answers B E) (u : CacheUpdate B) (c : Caches B) (p p' : Poller B E) (w v w' : World P S)
      → update network a u w.caches ≡ some c
      → ◌≡◌ {A = Option (Poller B E × World P S)} (some (p, v)) (some (p', w'))
      → v.caches ≡ c
      → v.tree ≡ w.tree
      → Moves w w'
  cache_move a u c p p' w v w' done e same_caches same_tree =
      let ew = (done-pair S network e).1 in
      (
        inr (a.order, a.now, u, done ∙ ap some (sym same_caches ∙ ap (λ x. x.caches) ew)),
        inl (ap (λ x. x.tree) (sym ew) ∙ same_tree),
      )

  no_move :
      (p p' : Poller B E) (w v w' : World P S)
      → ◌≡◌ {A = Option (Poller B E × World P S)} (some (p, v)) (some (p', w'))
      → v.caches ≡ w.caches
      → v.tree ≡ w.tree
      → Moves w w'
  no_move p p' w v w' e same_caches same_tree =
      let ew = (done-pair S network e).1 in
      (inl (ap (λ x. x.caches) (sym ew) ∙ same_caches), inl (ap (λ x. x.tree) (sym ew) ∙ same_tree))

module _ {B : Bitcoin} {E : Crates} (network : Network) (a : Answers B E) where
  mark_reachable-move :
      (r : Bool) (cs c : Caches B)
      → mark_reachable network a r cs ≡ some c
      → (c ≡ cs) ⊎ (update network a (node_reachability (node_id network a) r) cs ≡ some c)
  unfolding mark_reachable
  mark_reachable-move r cs c e =
      let (was, read, rest) =
        >>=-eq-some (is_node_reachable network.id (node_id network a) cs) _ e in
      elim (Bool-cases (if r then not was else was)) [
        | inl differs ↦ inr (rw differs at rest)
        | inr same ↦ let kept : some cs ≡ some c = rw same at rest in inl (ground (arith, kept))
      ]

module _ {B : Bitcoin} {E : Crates} {P : DiGraph (HeaderInfo B)} (W : Walk P) (S : Sqlite B E)
    (network : Network) (a : Answers B E) (p p' : Poller B E) (w w' : World P S) where
  marked-Moves :
      (r : Bool) (c : Caches B) (q : Poller B E)
      → mark_reachable network a r w.caches ≡ some c
      → ◌≡◌ {A = Option (Poller B E × World P S)}
          (some (q, record w { caches = c }))
          (some (p', w'))
      → Moves S network w w'
  marked-Moves r c q marked e = elim (mark_reachable-move network a r w.caches c marked) [
    | inl same ↦ no_move S network q p' w _ w' e same refl
    | inr done ↦ cache_move S network a _ c q p' w _ w' done e refl refl
  ]

  tips_answered-Moves :
      (answer : Result (FetchError E) (List ChainTip))
      → tips_answered W S network a answer p w ≡ some (p', w')
      → Moves S network w w'
  unfolding tips_answered
  tips_answered-Moves (ok tips) e =
      let (c, marked, r) = >>=-eq-some (mark_reachable network a true w.caches) _ e in
      marked-Moves true c _ marked r
  tips_answered-Moves (err f) e =
      let (c, marked, r) = >>=-eq-some (mark_reachable network a false w.caches) _ e in
      marked-Moves false c _ marked r

  headers_fetched-Moves :
      (tips : List ChainTip) (result : Fetch E (List (HeaderInfo B) × List B.BlockHash))
      → headers_fetched W S network a tips result p w ≡ some (p', w')
      → Moves S network w w'
  unfolding headers_fetched
  headers_fetched-Moves tips (ok (headers, miners)) e = no_move S network _ p' w _ w' e refl refl
  headers_fetched-Moves tips (err panicked) e = cc
  headers_fetched-Moves tips (err out_of_fuel) e = cc
  headers_fetched-Moves tips (err (fetch f)) e = no_move S network _ p' w _ w' e refl refl

  headers_written-Moves :
      (tips : List ChainTip) (changed : Bool) (result : Result (DbError E) S.Db)
      → headers_written W S network a tips changed result p w ≡ some (p', w')
      → Moves S network w w'
  unfolding headers_written
  headers_written-Moves tips changed (ok db) e = no_move S network _ p' w _ w' e refl refl
  headers_written-Moves tips changed (err f) e = no_move S network _ p' w _ w' e refl refl

  step_of-Moves :
      (phase : Phase B E) → step_of W S network a phase p w ≡ some (p', w') → Moves S network w w'
  unfolding step_of load_version insert_headers publish_tips measure_tips strip find_forks refresh
  step_of-Moves starting e =
      let (c, done, r) =
        >>=-eq-some
          (update network a
            (node_version (node_id network a) (load_node_version a.is_json_rpc a.versions))
            w.caches)
          _ e in
      cache_move S network a _ c _ p' w _ w' done r refl refl
  step_of-Moves waiting e = tips_answered-Moves a.node.tips e
  step_of-Moves (fetching tips) e =
      headers_fetched-Moves tips (new_headers a.node w.tree tips network.min_fork_height) e
  step_of-Moves (inserting tips hs) e =
      let ((t, changed), runs, r) = >>=-eq-some (insert_new_headers_into_tree w.tree hs) _ e in
      let (ep, ew) = done-pair S network r in
      (
        inl (ap (λ x. x.caches) (sym ew)),
        inr (hs, changed, runs ∙ ap (λ x. some (x, changed)) (ap (λ x. x.tree) ew)),
      )
  step_of-Moves (writing tips hs changed) e =
      headers_written-Moves tips changed (write_to_db S hs network.id w.db) e
  step_of-Moves (publishing tips changed) e =
      let (c, done, r) =
        >>=-eq-some (update network a (node_tips (node_id network a) tips) w.caches) _ e in
      cache_move S network a _ c _ p' w _ w' done r refl refl
  step_of-Moves (measuring tips) e =
      let (c, done, r) = >>=-eq-some (tip_heights network.id w.caches) _ e in
      no_move S network _ p' w _ w' r refl refl
  step_of-Moves (stripping heights) e =
      let (c, done, r) =
        >>=-eq-some (strip_tree W w.tree network.max_interesting_heights heights) _ e in
      no_move S network _ p' w _ w' r refl refl
  step_of-Moves (forking headers) e =
      let (c, done, r) = >>=-eq-some (recent_forks W w.tree max_forks_in_cache) _ e in
      no_move S network _ p' w _ w' r refl refl
  step_of-Moves (refreshing headers forks) e =
      let (c, done, r) = >>=-eq-some (update network a (header_tree headers forks) w.caches) _ e in
      cache_move S network a _ c _ p' w _ w' done r refl refl
  step_of-Moves (stopped f) e = no_move S network _ p' w _ w' e refl refl

  pub advance-Moves : advance W S network a p w ≡ some (p', w') → Moves S network w w'
  unfolding advance
  advance-Moves e = step_of-Moves p.phase e
