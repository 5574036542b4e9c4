-- ===== src/Api/Nodes.antt =====
-- The nodes that src/api.rs reports for a network.
use fork_observer.Prelude.{
  ℕ, ◌≡◌, ◌↔◌, refl, sym, ap, subst, ◌∙◌, inl, inr, none, some, List, [], ◌∷◌, map, In,
}
use fork_observer.Prelude.BTree
use fork_observer.Prelude.BTree.{BTreeMap, Entries, IsAscending}
use fork_observer.Api.{data_of, data_response}
use fork_observer.Bitcoin.{Bitcoin}
use fork_observer.Cache.Invariant.{IsNamed, Reach-IsValid}
use fork_observer.Cache.Panics.{populated, populated-Holds, Reach-Holds, in-keys-initial_node_data}
use fork_observer.Cache.Steps.{populate, Reach, here, next}
use fork_observer.Types.{NodeInfo, NodeDataJson, HeaderInfoJson, Fork, Cache, Caches}

ids_of_values :
    (m : BTreeMap NodeDataJson)
    → Entries IsNamed m
    → map (λ (n : NodeDataJson). n.id) (BTree.values m) ≡ BTree.keys m
ids_of_values [] named = refl
ids_of_values ((k, n) ∷ m) named =
    ap (λ x. x ∷ map (λ (n : NodeDataJson). n.id) (BTree.values m)) named.0
    ∙ ap (λ l. k ∷ l) (ids_of_values m named.1)

module _ {B : Bitcoin} where
  Reach-trans : {a b c : Caches B} → Reach a b → Reach b c → Reach a c
  Reach-trans r here = r
  Reach-trans r (next s step) = next (Reach-trans r s) step

  -- Once the cache of a network is populated, the data response of the network reports, whatever the
  -- tasks do, nodes with exactly the configured ids, each id once and in ascending order, and the
  -- headers of its cache; before that, the response has no headers and no nodes.
  pub data_response-nodes :
      {before later : Caches B} (id : ℕ) (infos : List NodeInfo) (hij : List HeaderInfoJson)
      (forks : List (Fork B))
      → Reach [] before
      → BTree.get id before ≡ none
      → Reach (populated id infos hij forks before) later
      → ((i : ℕ)
          → In i (map (λ (n : NodeDataJson). n.id) (data_response id later).nodes)
            ↔ In i (map (λ (info : NodeInfo). info.id) infos))
        × IsAscending (map (λ (n : NodeDataJson). n.id) (data_response id later).nodes)
        × ((c : Cache B)
            → BTree.get id later ≡ some c
            → (data_response id later).header_infos ≡ c.header_infos_json)
        × (data_response id before ≡ record { header_infos = []; nodes = [] })
  unfolding data_response data_of
  data_response-nodes {before} {later} id infos hij forks r fresh s =
      let h = Reach-Holds id _ s (populated-Holds id infos hij forks before) in
      let whole = Reach-trans (next r (populate id infos hij forks fresh refl)) s in
      let v = Reach-IsValid id h.cache whole h.found in
      let ids = ids_of_values h.cache.node_data v.named in
      let shown : map (λ (n : NodeDataJson). n.id) (data_response id later).nodes
          ≡ BTree.keys h.cache.node_data =
        ap (λ o. map (λ (n : NodeDataJson). n.id) (data_of o).nodes) h.found ∙ ids in
      (
        λ i.
            let configured = in-keys-initial_node_data i infos [] in
            let same = shown ∙ h.node_ids in
            (
              λ m. elim (configured.0 (subst (In i) same m)) [
                | inl listed ↦ listed
                | inr nothing ↦ absurd nothing
              ],
              λ m. subst (In i) (sym same) (configured.1 (inl m)),
            ),
        subst IsAscending (sym shown) v.ordered,
        λ c found. ap (λ o. (data_of o).header_infos) found,
        ap data_of fresh,
      )
