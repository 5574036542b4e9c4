-- ===== src/Samples/Walking.antt =====
-- The walks of the graph that is a list of nodes and a list of edges.
use fork_observer.Prelude.{
  Distinct, ℕ, zero, suc, ◌+◌, ◌<◌, ◌≤◌, ◌≡◌, ◌↔◌, refl, sym, ap, subst, ◌∙◌, inl, inr, Bool, true,
  false, not, List, [], ◌∷◌, ◌++◌, map, length, select, in-select, In, arith, if◌then◌else◌,
  Bool-cases, ◌==◌, ==_iff, ltb, ltb→lt, in-map,
}
use fork_observer.Petgraph.Walk.{Walk, target, edges_into, kept_edges}
use fork_observer.Samples.Graph.{list_graph}

abbrev pub member : ℕ → List ℕ → Bool
member x [] = false
member x (y ∷ ys) = if x == y then true else member x ys

member_iff : (x : ℕ) (ys : List ℕ) → (member x ys ≡ true) ↔ In x ys
member_iff x [] = (λ e. absurd (cc), λ m. absurd m)
member_iff x (y ∷ ys) = ground (arith, member_iff x ys)

-- The `n` numbers from `i`
abbrev pub from : ℕ → ℕ → List ℕ
from i zero = []
from i (suc n) = i ∷ from (suc i) n

in-from : (x i n : ℕ) → In x (from i n) ↔ ((i ≤ x) × (x < i + n))
in-from x i zero = (λ m. absurd m, λ h. absurd (omega (arith, h.0, h.1)))
in-from x i (suc n) = ground (arith, in-from x (suc i) n)

Distinct-from : (i n : ℕ) → Distinct (from i n)
Distinct-from i zero = tt
Distinct-from i (suc n) =
    (λ m. let h = (in-from i (suc i) n).0 m in absurd (omega (arith, h.0)), Distinct-from (suc i) n)

Distinct-select : (p : ℕ → Bool) (xs : List ℕ) → Distinct xs → Distinct (select p xs)
Distinct-select p [] d = tt
Distinct-select p (x ∷ xs) d = elim (Bool-cases (p x)) [
  | inl e ↦ rw e (λ m. d.0 ((in-select p x xs).0 m).0, Distinct-select p xs d.1)
  | inr e ↦ rw e (Distinct-select p xs d.1)
]

abbrev pub is_external : List (ℕ × ℕ) → ℕ → Bool
is_external es i = not (member i (map target es))

not-true : (b : Bool) → (not b ≡ true) ↔ (¬ (b ≡ true))
not-true true = (λ e. absurd (cc), λ h. absurd (h refl))
not-true false = (λ e q. absurd (cc), λ h. refl)

pub in-externals :
    (n : ℕ) (es : List (ℕ × ℕ)) (i : ℕ)
    → In i (select (is_external es) (from 0 n)) ↔ ((i < n) × (¬ In i (map target es)))
in-externals n es i =
    let chosen = in-select (is_external es) i (from 0 n) in
    let listed = in-from i 0 n in
    let external = not-true (member i (map target es)) in
    let known = member_iff i (map target es) in
    (
      λ m.
          let (inside, e) = chosen.0 m in
          let h = listed.0 inside in (omega (arith, h.1), λ t. external.0 e (known.1 t)),
      λ (lt, absent).
          chosen.1 (listed.1 (omega arith, omega arith), external.1 (λ e. absent (known.0 e))),
    )

pub externals-once : (n : ℕ) (es : List (ℕ × ℕ)) → Distinct (select (is_external es) (from 0 n))
externals-once n es = Distinct-select (is_external es) (from 0 n) (Distinct-from 0 n)

abbrev pub successors : List (ℕ × ℕ) → ℕ → List ℕ
successors es i = map target (select (λ e. e.0 == i) es)

-- The nodes of a depth first search from the nodes of the stack, those seen before left out
pub search : List (ℕ × ℕ) → ℕ → List ℕ → List ℕ → List ℕ
search es zero stack seen = seen
search es (suc fuel) [] seen = seen
search es (suc fuel) (i ∷ stack) seen =
    let fresh = search es fuel (successors es i ++ stack) (seen ++ i ∷ []) in
    let rest = search es fuel stack seen in if member i seen then rest else fresh

abbrev pub visited : (n : ℕ) → List (ℕ × ℕ) → ℕ → List ℕ
visited n es start = select (λ i. ltb i n) (search es (length es + 1 + length es) (start ∷ []) [])

pub visited-bounds : (n : ℕ) (es : List (ℕ × ℕ)) (start i : ℕ) → In i (visited n es start) → i < n
visited-bounds n es start i m =
    ltb→lt i n
      ((in-select (λ j. ltb j n) i (search es (length es + 1 + length es) (start ∷ []) [])).0 m).1

abbrev pub sources : ℕ → List (ℕ × ℕ) → List ℕ
sources i es = map (λ e. e.0) (edges_into i es)

pub length-map : {A B : Type 0} (f : A → B) (xs : List A) → length (map f xs) ≡ length xs
length-map f [] = refl
length-map f (x ∷ xs) = ap suc (length-map f xs)

pub in-sources : (i p : ℕ) (es : List (ℕ × ℕ)) → In p (sources i es) → In (p, i) es
in-sources i p es m =
    let (e, inside, same) = (in-map (λ (e : ℕ × ℕ). e.0) p (edges_into i es)).0 m in
    let (listed, here) = (in-select (λ (e : ℕ × ℕ). e.1 == i) e es).0 inside in
    let is_i : e.1 ≡ i = (==_iff e.1 i).0 here in
    subst (λ x. In x es) (ap (λ k. (e.0, k)) is_i ∙ ap (λ k. (k, i)) (sym same)) listed

abbrev pub children : (n : ℕ) → List (ℕ × ℕ) → ℕ → List ℕ
children n es i = select (λ c. ltb c n) (successors es i)

pub in-children :
    (n : ℕ) (es : List (ℕ × ℕ)) (i c : ℕ) → In c (children n es i) → In (i, c) es × (c < n)
in-children n es i c m =
    let (listed, lt) = (in-select (λ c. ltb c n) c (successors es i)).0 m in
    let (e, inside, same) = (in-map target c (select (λ e. e.0 == i) es)).0 listed in
    let (stored, here) = (in-select (λ (e : ℕ × ℕ). e.0 == i) e es).0 inside in
    let is_i : e.0 ≡ i = (==_iff e.0 i).0 here in
    (
      subst (λ x. In x es) (ap (λ k. (k, e.1)) is_i ∙ ap (λ k. (i, k)) (sym same)) stored,
      ltb→lt c n lt,
    )

abbrev pub list_walk : {N : Type 0} → Walk (list_graph N)
list_walk = record {
  filter_nodes =
      λ keep g. record { nodes = select keep g.nodes; edges = kept_edges keep g.nodes g.edges };
  externals = λ g. select (is_external g.edges) (from 0 (length g.nodes));
  add_edge = λ g a b. record g { edges = g.edges ++ (a, b) ∷ [] };
  dfs = λ g start. visited (length g.nodes) g.edges start;
  incoming = λ g i. sources i g.edges;
  raw_nodes-filter_nodes = λ keep g. refl;
  edges-filter_nodes = λ keep g. refl;
  externals-once = λ g. externals-once (length g.nodes) g.edges;
  in-externals = λ g i. in-externals (length g.nodes) g.edges i;
  raw_nodes-add_edge = λ g a b la lb. refl;
  edges-add_edge = λ g a b la lb. refl;
  dfs-bounds = λ g start i lt m. visited-bounds (length g.nodes) g.edges start i m;
  length-incoming = λ g i. length-map (λ (e : ℕ × ℕ). e.0) (edges_into i g.edges);
  in-incoming = λ g i p m. in-sources i p g.edges m;
  outgoing = λ g i. children (length g.nodes) g.edges i;
  in-outgoing = λ g i c m. (in-children (length g.nodes) g.edges i c m).0;
  outgoing-bounds = λ g i c m. (in-children (length g.nodes) g.edges i c m).1;
}
