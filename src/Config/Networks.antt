-- ===== src/Config/Networks.antt =====
-- `parse_config` of src/config.rs: which configurations are accepted.
use fork_observer.Prelude.{
  Distinct, ◌≡◌, ◌≢◌, ◌↔◌, refl, sym, subst, ◌∙◌, String, List, [], ◌∷◌, map, arith, inl, inr, ℕ,
}
use fork_observer.Prelude.Results.{ok, Result-cases, >>=_ok}
use fork_observer.Errors.{Crates, duplicate_node_id, duplicate_network_id}
use fork_observer.Config.{
  Host, Config, TomlNetwork, TomlConfig, Network, BoxedNode, node_info, load_each, unwrap_or,
  default_pool_identification, parse_toml_node, parse_toml_network, parse_network, finish,
  config_of, load_networks, parse_config,
}
use fork_observer.Config.Loading.{Loads, load_each_iff}

module _ {E : Crates} (H : Host E) where
  abbrev pub node_id : BoxedNode → ℕ
  node_id n = (node_info n).id

  -- A network with the fields of the file, whose nodes are those of the file, one by one, and have
  -- distinct ids.
  pub record IsNetworkOf (t : TomlNetwork) (n : Network) : Type 0 where
    pub id : n.id ≡ t.id
    pub name : n.name ≡ t.name
    pub description : n.description ≡ t.description
    pub min_fork_height : n.min_fork_height ≡ t.min_fork_height
    pub max_interesting_heights : n.max_interesting_heights ≡ t.max_interesting_heights
    pub pool_identification :
        n.pool_identification ≡ unwrap_or default_pool_identification t.pool_identification
    pub nodes_load : Loads (parse_toml_node H) node_id duplicate_node_id t.nodes n.nodes
    pub distinct : Distinct (map node_id n.nodes)

  parse_network_iff : (t : TomlNetwork) (n : Network) → (parse_network H t ≡ ok n) ↔ IsNetworkOf t n
  unfolding parse_network parse_toml_network
  parse_network_iff t n = (
    λ e.
        let (nodes, loaded, made) =
          >>=_ok (load_each (parse_toml_node H) node_id duplicate_node_id t.nodes [] [])
            (parse_toml_network H t) e in
        let (loads, distinct) =
          (load_each_iff (parse_toml_node H) node_id duplicate_node_id t.nodes nodes).0 loaded in
        subst (IsNetworkOf t) (ground (arith, made)) (record {
          id = refl;
          name = refl;
          description = refl;
          min_fork_height = refl;
          max_interesting_heights = refl;
          pool_identification = refl;
          nodes_load = loads;
          distinct = distinct;
        }),
    λ w.
        let loaded =
          (load_each_iff (parse_toml_node H) node_id duplicate_node_id t.nodes n.nodes).1
            (w.nodes_load, w.distinct) in
        rw (
          loaded,
          sym w.id,
          sym w.name,
          sym w.description,
          sym w.min_fork_height,
          sym w.max_interesting_heights,
          sym w.pool_identification,
        ),
  )

  -- The networks are those of the file, one by one.
  abbrev pub AreNetworksOf : List TomlNetwork → List Network → Type 0
  AreNetworksOf [] [] = Unit
  AreNetworksOf [] (n ∷ ns) = ⊥
  AreNetworksOf (t ∷ ts) [] = ⊥
  AreNetworksOf (t ∷ ts) (n ∷ ns) = IsNetworkOf t n × AreNetworksOf ts ns

  AreNetworksOf-eq-Loads :
      (ts : List TomlNetwork) (ns : List Network)
      → Loads (parse_network H) (λ n. n.id) duplicate_network_id ts ns ↔ AreNetworksOf ts ns
  AreNetworksOf-eq-Loads [] [] = (λ h. h, λ h. h)
  AreNetworksOf-eq-Loads [] (n ∷ ns) = (λ h. h, λ h. h)
  AreNetworksOf-eq-Loads (t ∷ ts) [] = (λ h. h, λ h. h)
  AreNetworksOf-eq-Loads (t ∷ ts) (n ∷ ns) =
      let one = parse_network_iff t n in
      let rest = AreNetworksOf-eq-Loads ts ns in
      (λ h. (one.0 h.0, rest.0 h.1), λ h. (one.1 h.0, rest.1 h.1))

  -- The configuration that the file `t` describes: there is a network, the ids of the networks are
  -- distinct, the networks are those of the file, and the address is a socket address.
  pub record IsConfigOf (t : TomlConfig) (c : Config H) : Type 0 where
    pub some_network : c.networks ≢ []
    pub distinct : Distinct (map (λ n. n.id) c.networks)
    pub networks : AreNetworksOf t.networks c.networks
    pub address : H.socket_addr_from_str t.address ≡ ok c.address
    pub database_path : c.database_path ≡ t.database_path
    pub www_path : c.www_path ≡ t.www_path
    pub query_interval : c.query_interval ≡ t.query_interval
    pub footer_html : c.footer_html ≡ t.footer_html
    pub rss_base_url : c.rss_base_url ≡ unwrap_or "" t.rss_base_url

  finish_ok :
      (t : TomlConfig) (ns : List Network) (c : Config H)
      → AreNetworksOf t.networks ns
      → Distinct (map (λ n. n.id) ns)
      → finish H t ns ≡ ok c
      → IsConfigOf t c
  unfolding finish
  finish_ok t [] c a d e = absurd (cc)
  finish_ok t (n ∷ ns) c a d e = elim (Result-cases (H.socket_addr_from_str t.address)) [
    | inr (f, bad) ↦ absurd (ground (arith, e, bad))
    | inl (address, good) ↦ subst (IsConfigOf t) (ground (arith, e, good)) (record {
      some_network = λ h. absurd (cc);
      distinct = d;
      networks = a;
      address = good;
      database_path = refl;
      www_path = refl;
      query_interval = refl;
      footer_html = refl;
      rss_base_url = refl;
    })
  ]

  finish_address :
      (t : TomlConfig) (ns : List Network) (address : H.SocketAddr)
      → ns ≢ []
      → H.socket_addr_from_str t.address ≡ ok address
      → finish H t ns ≡ ok (config_of H t address ns)
  unfolding finish
  finish_address t [] address nonempty good = absurd (nonempty refl)
  finish_address t (n ∷ ns) address nonempty good = rw (good, finish)

  finish_complete : (t : TomlConfig) (c : Config H) → IsConfigOf t c → finish H t c.networks ≡ ok c
  finish_complete t c w =
      finish_address t c.networks c.address w.some_network w.address
      ∙ rw (
        sym w.database_path,
        sym w.www_path,
        sym w.query_interval,
        sym w.footer_html,
        sym w.rss_base_url,
      )

  load_networks_iff : (t : TomlConfig) (c : Config H) → (load_networks H t ≡ ok c) ↔ IsConfigOf t c
  unfolding load_networks
  load_networks_iff t c =
      let all = load_each_iff (parse_network H) (λ n. n.id) duplicate_network_id t.networks in
      (
        λ e.
            let (ns, loaded, made) =
              >>=_ok (load_each (parse_network H) (λ n. n.id) duplicate_network_id t.networks [] [])
                (finish H t) e in
            let (loads, distinct) = (all ns).0 loaded in
            finish_ok t ns c ((AreNetworksOf-eq-Loads t.networks ns).0 loads) distinct made,
        λ w.
            let loads = (AreNetworksOf-eq-Loads t.networks c.networks).1 w.networks in
            rw ((all c.networks).1 (loads, w.distinct)) (finish_complete t c w),
      )

  -- `parse_config` accepts a text with the result `c` exactly if the text is a TOML file and `c` is
  -- the configuration that this file describes: at least one network, no network id twice, in
  -- each network no node id twice, every node accepted and kept in order, a valid address.
  pub parse_config_iff :
      (text : String) (c : Config H)
      → (parse_config H text ≡ ok c)
        ↔ ((t : TomlConfig) × (H.toml_from_str text ≡ ok t) × IsConfigOf t c)
  unfolding parse_config
  parse_config_iff text c = (
    λ e. elim (Result-cases (H.toml_from_str text)) [
      | inr (f, bad) ↦ absurd (ground (arith, e, bad))
      | inl (t, good) ↦ (t, good, (load_networks_iff t c).0 (ground (arith, e, good)))
    ],
    λ (t, good, w). rw (good, parse_config) ((load_networks_iff t c).1 w),
  )
