-- ===== src/Poll/Progress.antt =====
-- No step of the polling task of src/main.rs panics while its network is in the caches and its tree is
-- a forest.
use fork_observer.Prelude.{
  ℕ, ◌≢◌, refl, inl, inr, Bool, true, false, not, Option, none, some, List, In, All, ◌<◌, ◌^◌,
  if◌then◌else◌, Bool-cases,
}
use fork_observer.Prelude.Options.{◌>>=◌}
use fork_observer.Prelude.Results.{Result, ok, err}
use fork_observer.Bitcoin.{Bitcoin}
use fork_observer.Cache.{
  CacheUpdate, node_tips, node_version, node_reachability, header_tree, tip_heights,
  is_node_reachable,
}
use fork_observer.Cache.Panics.{Holds, Holds-updates, Holds-is_node_reachable}
use fork_observer.Config.Settings.{Network}
use fork_observer.Db.{Sqlite, write_to_db}
use fork_observer.Errors.{Crates, DbError, FetchError}
use fork_observer.Headertree.Forks.Recent.{recent_forks-AreRecent}
use fork_observer.Headertree.Strip.Entries.{strip_tree_runs}
use fork_observer.Node.{Fetch, fetch, panicked, out_of_fuel, new_headers}
use fork_observer.Node.Ends.{Answered, AllParse, new_headers-Answered}
use fork_observer.Petgraph.{DiGraph}
use fork_observer.Petgraph.Walk.{Walk}
use fork_observer.Poll.{
  World, Phase, starting, waiting, fetching, inserting, writing, publishing, measuring, stripping,
  forking, refreshing, stopped, Poller, Answers, node_id, update, mark_reachable,
  max_forks_in_cache, load_version, tips_answered, headers_fetched, insert_headers, headers_written,
  publish_tips, measure_tips, strip, find_forks, refresh, step_of, advance,
}
use fork_observer.Tree.Insert.{insert_new_headers_into_tree-Inserted}
use fork_observer.Tree.Parents.{IsForest}
use fork_observer.Types.{ChainTip, HeaderInfo, Caches}
use fork_observer.Version.{load_node_version}

-- A chain has a result if its first step has one and the rest always has.
pub some_chain :
    {A B : Type 0} (o : Option A) (next : A → Option B)
    → o ≢ none
    → ((x : A) → next x ≢ none)
    → (o >>= next) ≢ none
some_chain none next ne rest = λ e. ne refl
some_chain (some x) next ne rest = rest x

pub some-ne-none : {A : Type 0} (x : A) → some x ≢ none
some-ne-none x e = cc

-- The tips whose headers the task is about to load have hashes that are the texts of block hashes,
-- and heights below 2 ^ 63.
abbrev pub TipsAreSound : {B : Bitcoin} {E : Crates} → Phase B E → Type 0
TipsAreSound {B} (fetching tips) = AllParse B tips × All (λ tip. tip.height < 2 ^ 63) tips
TipsAreSound _ = Unit

module _ {B : Bitcoin} {E : Crates} (network : Network) (a : Answers B E) (nodes : List ℕ)
    (cs : Caches B) (listed : In (node_id network a) nodes)
    (holds : Holds network.id nodes cs) where
  updates : (u : CacheUpdate B) → update network a u cs ≢ none
  updates u = (Holds-updates network.id nodes cs holds).1 a.order a.now u

  marks : (r : Bool) → mark_reachable network a r cs ≢ none
  unfolding mark_reachable
  marks r =
      some_chain (is_node_reachable network.id (node_id network a) cs) _
        (Holds-is_node_reachable network.id (node_id network a) nodes cs listed holds)
        (λ was. elim (Bool-cases (if r then not was else was)) [
          | inl differs ↦ rw differs (updates (node_reachability (node_id network a) r))
          | inr same ↦ rw same (some-ne-none cs)
        ])

module _ {B : Bitcoin} {E : Crates} {P : DiGraph (HeaderInfo B)} (W : Walk P) (S : Sqlite B E)
    (network : Network) (a : Answers B E) (p : Poller B E) (w : World P S) (nodes : List ℕ)
    (listed : In (node_id network a) nodes) (holds : Holds network.id nodes w.caches)
    (forest : IsForest w.tree) (low_i64 : network.min_fork_height < 2 ^ 63) where
  tips_answered_runs :
      (answer : Result (FetchError E) (List ChainTip))
      → tips_answered W S network a answer p w ≢ none
  unfolding tips_answered
  tips_answered_runs (ok tips) =
      some_chain (mark_reachable network a true w.caches) _
        (marks network a nodes w.caches listed holds true) (λ c. some-ne-none _)
  tips_answered_runs (err f) =
      some_chain (mark_reachable network a false w.caches) _
        (marks network a nodes w.caches listed holds false) (λ c. some-ne-none _)

  headers_fetched_runs :
      (tips : List ChainTip) (result : Fetch E (List (HeaderInfo B) × List B.BlockHash))
      → Answered result
      → headers_fetched W S network a tips result p w ≢ none
  unfolding headers_fetched
  headers_fetched_runs tips (ok (headers, miners)) h = some-ne-none _
  headers_fetched_runs tips (err (fetch e)) h = some-ne-none _
  headers_fetched_runs tips (err panicked) h = absurd h
  headers_fetched_runs tips (err out_of_fuel) h = absurd h

  headers_written_runs :
      (tips : List ChainTip) (changed : Bool) (result : Result (DbError E) S.Db)
      → headers_written W S network a tips changed result p w ≢ none
  unfolding headers_written
  headers_written_runs tips changed (ok db) = some-ne-none _
  headers_written_runs tips changed (err f) = some-ne-none _

  step_of_runs : (phase : Phase B E) → TipsAreSound phase → step_of W S network a phase p w ≢ none
  unfolding step_of load_version insert_headers publish_tips measure_tips strip find_forks refresh
  step_of_runs starting h =
      some_chain
        (update network a
          (node_version (node_id network a) (load_node_version a.is_json_rpc a.versions)) w.caches)
        _ (updates network a nodes w.caches listed holds _) (λ c. some-ne-none _)
  step_of_runs waiting h = tips_answered_runs a.node.tips
  step_of_runs (fetching tips) h =
      headers_fetched_runs tips (new_headers a.node w.tree tips network.min_fork_height)
        (new_headers-Answered a.node w.tree tips network.min_fork_height h.0 h.1 low_i64)
  step_of_runs (inserting tips hs) h =
      let (after, c, runs, i) = insert_new_headers_into_tree-Inserted hs w.tree forest.indexed in
      rw runs (some-ne-none _)
  step_of_runs (writing tips hs changed) h =
      headers_written_runs tips changed (write_to_db S hs network.id w.db)
  step_of_runs (publishing tips changed) h =
      some_chain (update network a (node_tips (node_id network a) tips) w.caches) _
        (updates network a nodes w.caches listed holds _) (λ c. some-ne-none _)
  step_of_runs (measuring tips) h =
      some_chain (tip_heights network.id w.caches) _
        (Holds-updates network.id nodes w.caches holds).0 (λ c. some-ne-none _)
  step_of_runs (stripping heights) h =
      let (_, js, _, runs, _) =
        strip_tree_runs W w.tree network.max_interesting_heights heights forest.parents in
      rw runs (some-ne-none _)
  step_of_runs (forking headers) h =
      let (fs, runs, _) = recent_forks-AreRecent W w.tree max_forks_in_cache in
      rw runs (some-ne-none _)
  step_of_runs (refreshing headers forks) h =
      some_chain (update network a (header_tree headers forks) w.caches) _
        (updates network a nodes w.caches listed holds _) (λ c. some-ne-none _)
  step_of_runs (stopped f) h = some-ne-none _

  pub advance_runs : TipsAreSound p.phase → advance W S network a p w ≢ none
  unfolding advance
  advance_runs h = step_of_runs p.phase h
