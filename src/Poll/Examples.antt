-- ===== src/Poll/Examples.antt =====
-- The theorems on the polling task, at the sample network.
use fork_observer.Prelude.{ap, ◌≤◌, ◌≡◌, ◌≢◌, refl, ◌∙◌, some, List, [], ◌∷◌, arith}
use fork_observer.Prelude.Results.{err}
use fork_observer.Errors.{data_error}
use fork_observer.Node.{fetch, new_headers}
use fork_observer.Node.Ends.{new_headers_without_active}
use fork_observer.Poll.{World, Poller, waiting, fetching, advance}
use fork_observer.Poll.Ticks.{Ticked, tick, fetch_fails, retried}
use fork_observer.Poll.Turns.{left, BusyTurns, rest, turn, BusyTurns-left}
use fork_observer.Samples.{btc, crates}
use fork_observer.Samples.Running.{graph, network, answers, node, tip, start, turn_of, first_turn}
use fork_observer.Samples.Table.{list_table}
use fork_observer.Samples.Walking.{list_walk}
use fork_observer.Startup.{new_poller}
use fork_observer.Types.{ChainTip}

one_turn : BusyTurns list_walk list_table network new_poller 1
one_turn =
    turn (answers []) new_poller first_turn.0.0 start.world first_turn.0.1 0 (omega arith)
      first_turn.1 (rest first_turn.0.0)

BusyTurns-left_example : (1 ≤ left {B = btc} {E = crates} new_poller.phase) × (1 ≤ 8)
BusyTurns-left_example = BusyTurns-left list_walk list_table network one_turn

abbrev idle : Poller btc crates
idle = record { last_tips = tip ∷ []; phase = waiting }

abbrev after_tick :
    (r : Poller btc crates × World graph list_table) × (advance list_walk list_table network
        (answers [])
        idle
        start.world
      ≡ some r)
after_tick = turn_of [] idle tt

tick_example :
    Ticked list_walk list_table network (answers []) idle after_tick.0.0 start.world after_tick.0.1
tick_example =
    tick list_walk list_table network (answers []) idle after_tick.0.0 start.world after_tick.0.1
      refl after_tick.1

-- The node reports no tips, of which the task knows one.
abbrev quiet : Poller btc crates
quiet = record { last_tips = tip ∷ []; phase = fetching [] }

no_tips : ◌≢◌ {A = List ChainTip} [] (tip ∷ [])
no_tips e = cc

no_active :
    new_headers (node []) start.world.tree [] 0
    ≡ err (fetch (data_error "No 'active' chain tip returned"))
no_active = new_headers_without_active (node []) start.world.tree [] 0 refl

failure :
    advance list_walk list_table network (answers []) quiet start.world ≡ some (idle, start.world)
failure =
    let (r, runs) = turn_of [] quiet (tt, tt) in
    let (same_p, same_w) =
      fetch_fails list_walk list_table network (answers []) quiet r.0 start.world r.1 [] _ refl
        no_active runs in
    runs ∙ ap (λ q. some (q, r.1)) same_p ∙ ap (λ v. some (idle, v)) same_w

retried_example :
    (start.world ≡ start.world)
    × (idle ≡ record quiet { phase = waiting })
    × (after_tick.0.0.phase ≡ fetching [])
retried_example =
    retried list_walk list_table network (answers []) (answers []) quiet idle after_tick.0.0
      start.world start.world start.world after_tick.0.1 [] _ refl no_tips no_active failure refl
      after_tick.1
