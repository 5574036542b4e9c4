-- ===== src/Config/Nodes.antt =====
-- `parse_toml_node` of src/config.rs: which nodes of the configuration file are accepted.
use fork_observer.Prelude.{
  ◌≡◌, ◌↔◌, ◌⊎◌, refl, ap, inl, inr, String, true, Option, some, none, Bool-cases, arith,
}
use fork_observer.Prelude.Results.{Result, ok, >>=_ok}
use fork_observer.Prelude.Text.{host_port}
use fork_observer.Errors.{Crates, ConfigError}
use fork_observer.Types.{NodeInfo}
use fork_observer.Config.{
  Host, TomlNode, NodeImplementation, bitcoin_core, btcd, BoxedNode, node_info, node_of,
  cookie_file, user_pass, unwrap_or, rpc_auth_of, btcd_of, core_of, info_of,
  implementation_to_string, implementation_from_str, parse_rpc_auth, parse_toml_node,
}

module _ {E : Crates} (H : Host E) where
  -- The name that the program prints for an implementation reads back as that implementation.
  pub implementation_from_str-implementation_to_string :
      (i : NodeImplementation) → implementation_from_str H (implementation_to_string i) ≡ ok i
  unfolding implementation_from_str implementation_to_string
  implementation_from_str-implementation_to_string bitcoin_core = rw H.to_lowercase-core
  implementation_from_str-implementation_to_string btcd = rw H.to_lowercase-btcd

  abbrev pub Given : {A : Type 0} → Option A → Type 0
  Given {A} o = (a : A) × (o ≡ some a)

  -- What a node of each implementation needs: btcd a user and a password; Bitcoin Core a cookie
  -- file that exists or, if the file names no cookie file, a user and a password.
  abbrev pub CoreCredentials : Option String → Option String → Option String → Type 0
  CoreCredentials cookie user password =
      ((file : String) × (cookie ≡ some file) × (H.exists_file file ≡ true))
      ⊎ ((cookie ≡ none) × Given user × Given password)

  abbrev pub HasCredentials : NodeImplementation → TomlNode → Type 0
  HasCredentials bitcoin_core n = CoreCredentials n.rpc_cookie_file n.rpc_user n.rpc_password
  HasCredentials btcd n = Given n.rpc_user × Given n.rpc_password

  -- `Bitcoin Core` is the default.
  abbrev pub implementation_of : TomlNode → Result (ConfigError E) NodeImplementation
  implementation_of n =
      implementation_from_str H (unwrap_or (implementation_to_string bitcoin_core) n.implementation)

  abbrev pub Succeeds : {A : Type 0} → Result (ConfigError E) A → Type 0
  Succeeds {A} r = (a : A) × (r ≡ ok a)

  rpc_auth_of_iff :
      (cookie user password : Option String)
      → Succeeds (rpc_auth_of H cookie user password) ↔ CoreCredentials cookie user password
  unfolding rpc_auth_of
  rpc_auth_of_iff (some file) user password = (
    λ s. elim (Bool-cases (H.exists_file file)) [
      | inl e ↦ inl (file, refl, e)
      | inr e ↦ absurd (ground (arith, s, e))
    ],
    λ h. elim h [
      | inl (f, same, e) ↦ (cookie_file file, ground (arith, same, e))
      | inr h ↦ absurd (cc (h.0))
    ],
  )
  rpc_auth_of_iff none (some user) (some password) =
      (λ s. inr (refl, (user, refl), (password, refl)), λ h. (user_pass user password, refl))
  rpc_auth_of_iff none (some user) none = (
    λ s. absurd (cc (s.1)),
    λ h. elim h [ inl (f, same, e) ↦ absurd (cc) | inr (empty, u, p) ↦ absurd (cc (p.1)) ],
  )
  rpc_auth_of_iff none none password = (
    λ s. absurd (cc (s.1)),
    λ h. elim h [ inl (f, same, e) ↦ absurd (cc) | inr (empty, u, p) ↦ absurd (cc (u.1)) ],
  )

  btcd_of_iff :
      (info : NodeInfo) (url : String) (user password : Option String)
      → Succeeds (btcd_of H info url user password) ↔ (Given user × Given password)
  unfolding btcd_of
  btcd_of_iff info url (some user) (some password) =
      (λ s. ((user, refl), (password, refl)), λ h. (_, refl))
  btcd_of_iff info url (some user) none = (λ s. absurd (cc (s.1)), λ h. absurd (cc (h.1.1)))
  btcd_of_iff info url none password = (λ s. absurd (cc (s.1)), λ h. absurd (cc (h.0.1)))

  node_of_iff :
      (n : TomlNode) (i : NodeImplementation) (info : NodeInfo)
      → Succeeds (node_of H n i info) ↔ HasCredentials i n
  unfolding node_of parse_rpc_auth
  node_of_iff n bitcoin_core info =
      let auth = rpc_auth_of_iff n.rpc_cookie_file n.rpc_user n.rpc_password in
      (
        λ (node, e).
            let (a, made, same) = >>=_ok (parse_rpc_auth H n) (λ a. ok (core_of H n info a)) e in
            auth.0 (a, made),
        λ h. let (a, made) = auth.1 h in (core_of H n info a, rw made),
      )
  node_of_iff n btcd info =
      btcd_of_iff info (host_port n.rpc_host n.rpc_port) n.rpc_user n.rpc_password

  -- A node of the configuration file is accepted exactly if its implementation is a known one,
  -- and it has the credentials that this implementation needs.
  pub parse_toml_node_iff :
      (n : TomlNode)
      → Succeeds (parse_toml_node H n)
        ↔ ((i : NodeImplementation) × (implementation_of n ≡ ok i) × HasCredentials i n)
  unfolding parse_toml_node
  parse_toml_node_iff n = (
    λ (node, e).
        let (i, known, made) =
          >>=_ok (implementation_of n) (λ i. node_of H n i (info_of H n i)) e in
        (i, known, (node_of_iff n i (info_of H n i)).0 (node, made)),
    λ (i, known, h).
        let (node, made) = (node_of_iff n i (info_of H n i)).1 h in (node, rw (known, made)),
  )

  btcd_of-info :
      (info : NodeInfo) (url : String) (user password : Option String) (node : BoxedNode)
      → btcd_of H info url user password ≡ ok node
      → node_info node ≡ info
  unfolding btcd_of node_info
  btcd_of-info info url (some user) (some password) node e = ground (arith, e)
  btcd_of-info info url (some user) none node e = absurd (cc)
  btcd_of-info info url none password node e = absurd (cc)

  node_of-info :
      (n : TomlNode) (i : NodeImplementation) (info : NodeInfo) (node : BoxedNode)
      → node_of H n i info ≡ ok node
      → node_info node ≡ info
  unfolding node_of parse_rpc_auth node_info
  node_of-info n bitcoin_core info node e =
      let (a, made, same) = >>=_ok (parse_rpc_auth H n) (λ a. ok (core_of H n info a)) e in
      ground (arith, same)
  node_of-info n btcd info node e =
      btcd_of-info info (host_port n.rpc_host n.rpc_port) n.rpc_user n.rpc_password node e

  -- An accepted node keeps the id and the name that the file gives it.
  pub parse_toml_node-id :
      (n : TomlNode) (node : BoxedNode)
      → parse_toml_node H n ≡ ok node
      → ((node_info node).id ≡ n.id) × ((node_info node).name ≡ n.name)
  unfolding parse_toml_node info_of
  parse_toml_node-id n node e =
      let (i, known, made) = >>=_ok (implementation_of n) (λ i. node_of H n i (info_of H n i)) e in
      let same : node_info node ≡ info_of H n i = node_of-info n i (info_of H n i) node made in
      (ap (λ info. info.id) same, ap (λ info. info.name) same)
