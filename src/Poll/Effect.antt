-- ===== src/Poll/Effect.antt =====
-- What a step of the polling task of src/main.rs does to the tree and the database.
use fork_observer.Prelude.{
  ℕ, ◌≡◌, ◌⊎◌, refl, sym, ap, subst, ◌∙◌, inl, inr, Bool, true, false, Option, some, List, [],
  arith, In, in-append, get_elem?, get_elem?-append,
}
use fork_observer.Prelude.Options.{>>=-eq-some}
use fork_observer.Prelude.Results.{Result, ok, err}
use fork_observer.Bitcoin.{Bitcoin}
use fork_observer.Cache.{node_tips, node_version, header_tree, tip_heights}
use fork_observer.Config.Settings.{Network}
use fork_observer.Db.{Sqlite, has_key, write_to_db}
use fork_observer.Db.Keys.{KeepsKeys, HasHeader, write_to_db-KeepsKeys}
use fork_observer.Errors.{Crates, DbError, FetchError}
use fork_observer.Headertree.Forks.{recent_forks}
use fork_observer.Headertree.Strip.{strip_tree}
use fork_observer.Node.{Fetch, fetch, panicked, out_of_fuel, new_headers}
use fork_observer.Petgraph.{DiGraph}
use fork_observer.Petgraph.Walk.{Walk}
use fork_observer.Poll.{
  World, Phase, starting, waiting, fetching, inserting, writing, publishing, measuring, stripping,
  forking, refreshing, stopped, Poller, Answers, node_id, update, mark_reachable,
  max_forks_in_cache, load_version, tips_answered, headers_fetched, insert_headers, headers_written,
  publish_tips, measure_tips, strip, find_forks, refresh, step_of, advance,
}
use fork_observer.Tree.{nodes, insert_new_headers_into_tree}
use fork_observer.Tree.Indexed.{IsIndexed}
use fork_observer.Tree.Insert.{Inserted, insert_new_headers_into_tree-Inserted}
use fork_observer.Types.{ChainTip, HeaderInfo}
use fork_observer.Version.{load_node_version}

module _ {B : Bitcoin} {E : Crates} where
  -- The headers that are in the tree but not yet in the database.
  abbrev pub unwritten : Phase B E → List (HeaderInfo B)
  unwritten (writing tips headers changed) = headers
  unwritten _ = []

  abbrev pub IsStopped : Phase B E → Type 0
  IsStopped phase = (e : DbError E) × (phase ≡ stopped e)

module _ {B : Bitcoin} {E : Crates} {P : DiGraph (HeaderInfo B)} (S : Sqlite B E)
    (network : Network) where
  -- The tree only grows, by headers that are to be written then, and the table keeps its keys.
  pub record Effect (phase phase' : Phase B E) (w w' : World P S) : Type 0 where
    pub indexed : IsIndexed w.tree → IsIndexed w'.tree
    pub grown :
        IsIndexed w.tree
        → (h : HeaderInfo B) → In h (nodes w'.tree)
        → In h (nodes w.tree) ⊎ In h (unwritten phase')
    pub kept :
        IsIndexed w.tree
        → (i : ℕ) (h : HeaderInfo B) → get_elem? (nodes w.tree) i ≡ some h
        → get_elem? (nodes w'.tree) i ≡ some h
    pub keys : KeepsKeys S w.db w'.db
    pub written :
        (h : HeaderInfo B)
        → In h (unwritten phase)
        → HasHeader S network.id w'.db h ⊎ IsStopped phase'
    pub stays : IsStopped phase → IsStopped phase'

  Effect-quiet :
      (phase phase' : Phase B E) (w w' : World P S)
      → w'.tree ≡ w.tree
      → w'.db ≡ w.db
      → unwritten phase ≡ []
      → (IsStopped phase → IsStopped phase')
      → Effect phase phase' w w'
  Effect-quiet phase phase' w w' t d u s = record {
    indexed = λ v. rw t v;
    grown = λ v h m. inl (rw t at m);
    kept = λ v i h e. rw t e;
    keys = λ r k. rw d k;
    written = λ h m. absurd (subst (In h) u m);
    stays = s;
  }

  pub done-pair :
      {p p' : Poller B E} {w w' : World P S}
      → ◌≡◌ {A = Option (Poller B E × World P S)} (some (p, w)) (some (p', w'))
      → (p ≡ p') × (w ≡ w')
  done-pair e = (ground (arith, e), ground (arith, e))

  -- A step that ends in `w'`, which differs from `w` in the caches and what is sent only
  quiet_end :
      (phase : Phase B E) (p p' : Poller B E) (w v w' : World P S)
      → ◌≡◌ {A = Option (Poller B E × World P S)} (some (p, v)) (some (p', w'))
      → v.tree ≡ w.tree
      → v.db ≡ w.db
      → unwritten phase ≡ []
      → ¬ IsStopped phase
      → Effect phase p'.phase w w'
  quiet_end phase p p' w v w' e t d u s =
      let same = (done-pair e).1 in
      Effect-quiet phase p'.phase w w' (ap (λ x. x.tree) (sym same) ∙ t)
        (ap (λ x. x.db) (sym same) ∙ d) u (λ h. absurd (s h))

module _ {B : Bitcoin} {E : Crates} {P : DiGraph (HeaderInfo B)} (W : Walk P) (S : Sqlite B E)
    (network : Network) (a : Answers B E) (p p' : Poller B E) (w w' : World P S) where
  tips_answered-Effect :
      (answer : Result (FetchError E) (List ChainTip))
      → tips_answered W S network a answer p w ≡ some (p', w')
      → Effect S network waiting p'.phase w w'
  unfolding tips_answered
  tips_answered-Effect (ok tips) e =
      let (c, marked, r) = >>=-eq-some (mark_reachable network a true w.caches) _ e in
      quiet_end S network waiting _ p' w _ w' r refl refl refl (λ s. cc)
  tips_answered-Effect (err f) e =
      let (c, marked, r) = >>=-eq-some (mark_reachable network a false w.caches) _ e in
      quiet_end S network waiting _ p' w _ w' r refl refl refl (λ s. cc)

  headers_fetched-Effect :
      (tips : List ChainTip) (result : Fetch E (List (HeaderInfo B) × List B.BlockHash))
      → headers_fetched W S network a tips result p w ≡ some (p', w')
      → Effect S network (fetching tips) p'.phase w w'
  unfolding headers_fetched
  headers_fetched-Effect tips (ok (headers, miners)) e =
      quiet_end S network (fetching tips) _ p' w _ w' e refl refl refl (λ s. cc)
  headers_fetched-Effect tips (err panicked) e = cc
  headers_fetched-Effect tips (err out_of_fuel) e = cc
  headers_fetched-Effect tips (err (fetch f)) e =
      quiet_end S network (fetching tips) _ p' w _ w' e refl refl refl (λ s. cc)

  insert_headers-Effect :
      (tips : List ChainTip) (hs : List (HeaderInfo B))
      → insert_headers W S network a tips hs p w ≡ some (p', w')
      → Effect S network (inserting tips hs) p'.phase w w'
  unfolding insert_headers
  insert_headers-Effect tips hs e =
      let ((t, changed), runs, r) = >>=-eq-some (insert_new_headers_into_tree w.tree hs) _ e in
      let (ep, ew) = done-pair S network r in
      let at_db : w.db ≡ w'.db = ap (λ x. x.db) ew in
      let at_phase : writing tips hs changed ≡ p'.phase = ap (λ x. x.phase) ep in
      let result : IsIndexed w.tree → (c : Bool) × Inserted hs w.tree w'.tree c = λ v.
        let (after, c, runs', i) = insert_new_headers_into_tree-Inserted hs w.tree v in
        let same : after ≡ t = cc in
        (c, subst (λ x. Inserted hs w.tree x c) (same ∙ ap (λ x. x.tree) ew) i) in
      record {
        indexed = λ v. (result v).1.indexed;
        grown = λ v h m.
            let i = (result v).1 in
            elim ((in-append h (nodes w.tree) i.added).0 (subst (In h) i.appended m)) [
              | inl old ↦ inl old
              | inr new ↦ inr (subst (λ x. In h (unwritten x)) at_phase (i.listed h new))
            ];
        kept = λ v j h at_j.
            let i = (result v).1 in
            subst (λ l. get_elem? l j ≡ some h) (sym i.appended)
              (get_elem?-append (nodes w.tree) i.added j at_j);
        keys = λ r k. subst (λ d. has_key r (S.rows d) ≡ true) at_db k;
        written = λ h m. absurd m;
        stays = λ s. absurd (cc);
      }

  headers_written-Effect :
      (tips : List ChainTip) (hs : List (HeaderInfo B)) (changed : Bool)
      (result : Result (DbError E) S.Db)
      → write_to_db S hs network.id w.db ≡ result
      → headers_written W S network a tips changed result p w ≡ some (p', w')
      → Effect S network (writing tips hs changed) p'.phase w w'
  unfolding headers_written
  headers_written-Effect tips hs changed (ok db) runs e =
      let (ep, ew) = done-pair S network e in
      let (keeps, stored) = write_to_db-KeepsKeys S hs network.id w.db db runs in
      let at_db : db ≡ w'.db = ap (λ x. x.db) ew in
      let at_tree : w.tree ≡ w'.tree = ap (λ x. x.tree) ew in
      record {
        indexed = λ v. subst IsIndexed at_tree v;
        grown = λ v h m. inl (subst (λ t. In h (nodes t)) (sym at_tree) m);
        kept = λ v i h at_i. subst (λ t. get_elem? (nodes t) i ≡ some h) at_tree at_i;
        keys = subst (KeepsKeys S w.db) at_db keeps;
        written = λ h m. inl (subst (λ d. HasHeader S network.id d h) at_db (stored h m));
        stays = λ s. absurd (cc);
      }
  headers_written-Effect tips hs changed (err f) runs e =
      let (ep, ew) = done-pair S network e in
      let at_db : w.db ≡ w'.db = ap (λ x. x.db) ew in
      let at_tree : w.tree ≡ w'.tree = ap (λ x. x.tree) ew in
      record {
        indexed = λ v. subst IsIndexed at_tree v;
        grown = λ v h m. inl (subst (λ t. In h (nodes t)) (sym at_tree) m);
        kept = λ v i h at_i. subst (λ t. get_elem? (nodes t) i ≡ some h) at_tree at_i;
        keys = subst (KeepsKeys S w.db) at_db (λ r k. k);
        written = λ h m. inr (f, ap (λ x. x.phase) (sym ep));
        stays = λ s. absurd (cc);
      }

  step_of-Effect :
      (phase : Phase B E)
      → p.phase ≡ phase
      → step_of W S network a phase p w ≡ some (p', w')
      → Effect S network phase p'.phase w w'
  unfolding step_of load_version publish_tips measure_tips strip find_forks refresh
  step_of-Effect starting at e =
      let version = load_node_version a.is_json_rpc a.versions in
      let (c, done, r) =
        >>=-eq-some (update network a (node_version (node_id network a) version) w.caches) _ e in
      quiet_end S network starting _ p' w _ w' r refl refl refl (λ s. cc)
  step_of-Effect waiting at e = tips_answered-Effect a.node.tips e
  step_of-Effect (fetching tips) at e =
      headers_fetched-Effect tips (new_headers a.node w.tree tips network.min_fork_height) e
  step_of-Effect (inserting tips hs) at e = insert_headers-Effect tips hs e
  step_of-Effect (writing tips hs changed) at e =
      headers_written-Effect tips hs changed (write_to_db S hs network.id w.db) refl e
  step_of-Effect (publishing tips changed) at e =
      let (c, done, r) =
        >>=-eq-some (update network a (node_tips (node_id network a) tips) w.caches) _ e in
      quiet_end S network (publishing tips changed) _ p' w _ w' r refl refl refl (λ s. cc)
  step_of-Effect (measuring tips) at e =
      let (c, done, r) = >>=-eq-some (tip_heights network.id w.caches) _ e in
      quiet_end S network (measuring tips) _ p' w _ w' r refl refl refl (λ s. cc)
  step_of-Effect (stripping heights) at e =
      let (c, done, r) =
        >>=-eq-some (strip_tree W w.tree network.max_interesting_heights heights) _ e in
      quiet_end S network (stripping heights) _ p' w _ w' r refl refl refl (λ s. cc)
  step_of-Effect (forking headers) at e =
      let (c, done, r) = >>=-eq-some (recent_forks W w.tree max_forks_in_cache) _ e in
      quiet_end S network (forking headers) _ p' w _ w' r refl refl refl (λ s. cc)
  step_of-Effect (refreshing headers forks) at e =
      let (c, done, r) = >>=-eq-some (update network a (header_tree headers forks) w.caches) _ e in
      quiet_end S network (refreshing headers forks) _ p' w _ w' r refl refl refl (λ s. cc)
  step_of-Effect (stopped f) at e =
      let (ep, ew) = done-pair S network e in
      Effect-quiet S network (stopped f) p'.phase w w' (ap (λ x. x.tree) (sym ew))
        (ap (λ x. x.db) (sym ew)) refl (λ s. (f, ap (λ x. x.phase) (sym ep) ∙ at))

  pub advance-Effect :
      advance W S network a p w ≡ some (p', w') → Effect S network p.phase p'.phase w w'
  unfolding advance
  advance-Effect e = step_of-Effect p.phase refl e
