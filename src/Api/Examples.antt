-- ===== src/Api/Examples.antt =====
-- The data response for a network with two nodes.
use fork_observer.Prelude.{ℕ, ◌≡◌, ◌↔◌, In, refl, some, List, [], ◌∷◌, map}
use fork_observer.Prelude.BTree
use fork_observer.Prelude.BTree.{IsAscending}
use fork_observer.Api.{data_response}
use fork_observer.Api.Nodes.{data_response-nodes}
use fork_observer.Cache.Panics.{populated}
use fork_observer.Cache.Steps.{here}
use fork_observer.Samples.{btc}
use fork_observer.Types.{NodeInfo, NodeDataJson, Cache, Caches}

abbrev second : NodeInfo
second = record { id = 4; name = "b"; description = ""; implementation = "btcd" }

abbrev first : NodeInfo
first = record { id = 2; name = "a"; description = ""; implementation = "btcd" }

abbrev infos : List NodeInfo
infos = second ∷ first ∷ []

abbrev caches : Caches btc
caches = populated 1 infos [] [] []

data_response-nodes_example :
    ((i : ℕ)
      → In i (map (λ (n : NodeDataJson). n.id) (data_response 1 caches).nodes)
        ↔ In i (map (λ (info : NodeInfo). info.id) infos))
    × IsAscending (map (λ (n : NodeDataJson). n.id) (data_response 1 caches).nodes)
    × ((c : Cache btc)
        → BTree.get 1 caches ≡ some c
        → (data_response 1 caches).header_infos ≡ c.header_infos_json)
    × (data_response {B = btc} 1 [] ≡ record { header_infos = []; nodes = [] })
unfolding BTree.get
data_response-nodes_example = data_response-nodes 1 infos [] [] here refl here
