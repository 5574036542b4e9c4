-- ===== src/Startup/Examples.antt =====
-- The start of the sample network.
use fork_observer.Prelude.{◌≡◌, refl, some, []}
use fork_observer.Prelude.Results.{ok}
use fork_observer.Poll.{World}
use fork_observer.Samples.Running.{graph, network, table, table-IsStored, btc-NoCollisions}
use fork_observer.Samples.Table.{list_table, query}
use fork_observer.Samples.Walking.{list_walk}
use fork_observer.Startup.{start_network}
use fork_observer.Startup.Started.{Started, start_network-Started}

start_network-Started_example :
    (w : World graph list_table) × (start_network list_walk list_table network table []
      ≡ some (ok w))
    × Started list_walk list_table network table w
start_network-Started_example =
    start_network-Started list_walk list_table network table [] (query 1 table) btc-NoCollisions
      table-IsStored refl
