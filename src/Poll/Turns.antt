-- ===== src/Poll/Turns.antt =====
-- The polling task of src/main.rs comes back to the wait for its next tick, or stops, whatever the other
-- tasks do in between.
use fork_observer.Prelude.{
  ℕ, suc, ◌≤◌, ◌<◌, ◌≡◌, ap, subst, Bool, true, false, Option, some, List, [], ◌∷◌, arith,
  if◌then◌else◌,
}
use fork_observer.Prelude.Options.{>>=-eq-some}
use fork_observer.Prelude.Results.{Result, ok, err}
use fork_observer.Bitcoin.{Bitcoin}
use fork_observer.Cache.{node_tips, node_version, header_tree, tip_heights}
use fork_observer.Config.Settings.{Network}
use fork_observer.Db.{Sqlite, write_to_db}
use fork_observer.Errors.{Crates, DbError}
use fork_observer.Headertree.Forks.{recent_forks}
use fork_observer.Headertree.Strip.{strip_tree}
use fork_observer.Node.{Fetch, fetch, panicked, out_of_fuel, new_headers}
use fork_observer.Petgraph.{DiGraph}
use fork_observer.Petgraph.Walk.{Walk}
use fork_observer.Poll.{
  World, Phase, starting, waiting, fetching, inserting, writing, publishing, measuring, stripping,
  forking, refreshing, stopped, Poller, Answers, node_id, update, max_forks_in_cache, after_fetch,
  load_version, headers_fetched, insert_headers, headers_written, publish_tips, measure_tips, strip,
  find_forks, refresh, step_of, advance,
}
use fork_observer.Poll.Effect.{done-pair}
use fork_observer.Tree.{insert_new_headers_into_tree}
use fork_observer.Types.{ChainTip, HeaderInfo}
use fork_observer.Version.{load_node_version}

module _ {B : Bitcoin} {E : Crates} where
  -- The steps that are left until the task waits, at most
  abbrev pub left : Phase B E → ℕ
  left starting = 1
  left waiting = 0
  left (fetching tips) = 8
  left (inserting tips headers) = 7
  left (writing tips headers changed) = 6
  left (publishing tips changed) = 5
  left (measuring tips) = 4
  left (stripping heights) = 3
  left (forking headers) = 2
  left (refreshing headers forks) = 1
  left (stopped e) = 0

  -- The task neither waits nor has stopped.
  abbrev pub IsBusy : Phase B E → Type 0
  IsBusy phase = 0 < left phase

  at_most_eight : (phase : Phase B E) → left phase ≤ 8
  at_most_eight starting = omega arith
  at_most_eight waiting = omega arith
  at_most_eight (fetching tips) = omega arith
  at_most_eight (inserting tips headers) = omega arith
  at_most_eight (writing tips headers changed) = omega arith
  at_most_eight (publishing tips changed) = omega arith
  at_most_eight (measuring tips) = omega arith
  at_most_eight (stripping heights) = omega arith
  at_most_eight (forking headers) = omega arith
  at_most_eight (refreshing headers forks) = omega arith
  at_most_eight (stopped e) = omega arith

module _ {B : Bitcoin} {E : Crates} {P : DiGraph (HeaderInfo B)} (W : Walk P) (S : Sqlite B E)
    (network : Network) where
  module _ (a : Answers B E) (p p' : Poller B E) (w w' : World P S) where
    to_phase :
        (q : Poller B E) (v : World P S) (n : ℕ)
        → ◌≡◌ {A = Option (Poller B E × World P S)} (some (q, v)) (some (p', w'))
        → left q.phase < n
        → left p'.phase < n
    to_phase q v n e lt =
        subst (λ (x : Phase B E). left x < n) (ap (λ x. x.phase) (done-pair S network e).0) lt

    headers_fetched-left :
        (tips : List ChainTip) (result : Fetch E (List (HeaderInfo B) × List B.BlockHash))
        → headers_fetched W S network a tips result p w ≡ some (p', w')
        → left p'.phase < 8
    unfolding headers_fetched after_fetch
    headers_fetched-left tips (ok ([], miners)) e = to_phase _ _ 8 e (omega arith)
    headers_fetched-left tips (ok (h ∷ hs, miners)) e = to_phase _ _ 8 e (omega arith)
    headers_fetched-left tips (err panicked) e = absurd (cc)
    headers_fetched-left tips (err out_of_fuel) e = absurd (cc)
    headers_fetched-left tips (err (fetch f)) e = to_phase _ _ 8 e (omega arith)

    headers_written-left :
        (tips : List ChainTip) (changed : Bool) (result : Result (DbError E) S.Db)
        → headers_written W S network a tips changed result p w ≡ some (p', w')
        → left p'.phase < 6
    unfolding headers_written
    headers_written-left tips changed (ok db) e = to_phase _ _ 6 e (omega arith)
    headers_written-left tips changed (err f) e = to_phase _ _ 6 e (omega arith)

    next_left :
        (tips : List ChainTip) (changed : Bool)
        → left {B = B} {E = E} (if changed then measuring tips else waiting) < 5
    next_left tips true = omega arith
    next_left tips false = omega arith

    step_of-left :
        (phase : Phase B E)
        → IsBusy phase
        → step_of W S network a phase p w ≡ some (p', w')
        → left p'.phase < left phase
    unfolding step_of load_version insert_headers publish_tips measure_tips strip find_forks refresh
    step_of-left starting busy e =
        let (c, done, r) =
          >>=-eq-some
            (update network a
              (node_version (node_id network a) (load_node_version a.is_json_rpc a.versions))
              w.caches)
            _ e in
        to_phase _ _ 1 r (omega arith)
    step_of-left waiting busy e = absurd (omega arith)
    step_of-left (fetching tips) busy e =
        headers_fetched-left tips (new_headers a.node w.tree tips network.min_fork_height) e
    step_of-left (inserting tips hs) busy e =
        let ((t, changed), runs, r) = >>=-eq-some (insert_new_headers_into_tree w.tree hs) _ e in
        to_phase _ _ 7 r (omega arith)
    step_of-left (writing tips hs changed) busy e =
        headers_written-left tips changed (write_to_db S hs network.id w.db) e
    step_of-left (publishing tips changed) busy e =
        let (c, done, r) =
          >>=-eq-some (update network a (node_tips (node_id network a) tips) w.caches) _ e in
        to_phase _ _ 5 r (next_left tips changed)
    step_of-left (measuring tips) busy e =
        let (c, done, r) = >>=-eq-some (tip_heights network.id w.caches) _ e in
        to_phase _ _ 4 r (omega arith)
    step_of-left (stripping heights) busy e =
        let (c, done, r) =
          >>=-eq-some (strip_tree W w.tree network.max_interesting_heights heights) _ e in
        to_phase _ _ 3 r (omega arith)
    step_of-left (forking headers) busy e =
        let (c, done, r) = >>=-eq-some (recent_forks W w.tree max_forks_in_cache) _ e in
        to_phase _ _ 2 r (omega arith)
    step_of-left (refreshing headers forks) busy e =
        let (c, done, r) =
          >>=-eq-some (update network a (header_tree headers forks) w.caches) _ e in
        to_phase _ _ 1 r (omega arith)
    step_of-left (stopped f) busy e = absurd (omega arith)

    advance-left :
        IsBusy p.phase → advance W S network a p w ≡ some (p', w') → left p'.phase < left p.phase
    unfolding advance
    advance-left busy e = step_of-left p.phase busy e

  -- `n` steps of the task, each from a busy phase, between which the other tasks may change what
  -- they share.
  pub data BusyTurns : Poller B E → ℕ → Type 0 where
    rest : (p : Poller B E) → BusyTurns p 0
    turn :
        (a : Answers B E) (p p' : Poller B E) (w w' : World P S) (n : ℕ)
        → IsBusy p.phase
        → advance W S network a p w ≡ some (p', w')
        → BusyTurns p' n
        → BusyTurns p (suc n)

  -- The task takes at most as many steps as are left before it waits for its next tick or has
  -- stopped, whatever the other tasks do between the steps; so at most eight from any phase.
  pub BusyTurns-left : {p : Poller B E} {n : ℕ} → BusyTurns p n → (n ≤ left p.phase) × (n ≤ 8)
  BusyTurns-left (rest p) = (omega arith, omega arith)
  BusyTurns-left (turn a p p' w w' n busy runs turns) =
      let (below, _) = BusyTurns-left turns in
      let less = advance-left a p p' w w' busy runs in
      (omega (arith, below, less), omega (arith, below, less, at_most_eight p.phase))
