-- ===== src/Headertree/Forks/Recent.antt =====
-- `recent_forks` of src/headertree.rs returns forks of the tree, and does not panic.
use mathlib.Core.List.{reverse-append}
use fork_observer.Prelude.{
  ℕ, zero, suc, ◌<◌, ◌≤◌, ◌≡◌, ◌↔◌, refl, sym, ap, subst, inl, inr, true, some, List, [], ◌∷◌, ◌++◌,
  length, get_elem?, ltb, ltb→lt, take, drop, take-append-drop, reverse, ◌⊎◌, In, in-append, All,
  All-in, arith, Bool-cases,
}
use fork_observer.Prelude.Sort.{sort_by_key, in-sort_by_key, sort_by_key-IsSortedBy, IsSortedBy}
use fork_observer.Bitcoin.{Bitcoin}
use fork_observer.Petgraph.{DiGraph}
use fork_observer.Petgraph.Walk.{Walk}
use fork_observer.Types.{HeaderInfo, Fork}
use fork_observer.Tree.{TreeInfo}
use fork_observer.Headertree.Forks.{weights_at, fork_at, forks_of, all_forks, recent_forks}

get_elem?-some :
    {A : Type 0} (xs : List A) (i : ℕ) → i < length xs → (x : A) × (get_elem? xs i ≡ some x)
get_elem?-some [] i lt = absurd (omega arith)
get_elem?-some (x ∷ xs) zero lt = (x, refl)
get_elem?-some (x ∷ xs) (suc i) lt = get_elem?-some xs i (omega arith)

length-take-le : {A : Type 0} (n : ℕ) (xs : List A) → length (take n xs) ≤ n
length-take-le zero xs = omega arith
length-take-le (suc n) [] = omega arith
length-take-le (suc n) (x ∷ xs) = omega (arith, length-take-le n xs)

module _ {B : Bitcoin} {P : DiGraph (HeaderInfo B)} (W : Walk P) where
  -- A node of the graph with several outgoing edges, and the headers that these lead to
  pub record IsFork (g : P.Graph) (f : Fork B) : Type 0 where
    pub index : ℕ
    pub common : get_elem? (P.raw_nodes g) index ≡ some f.common
    pub several : 1 < length f.children
    pub children : weights_at W g (W.outgoing g index) ≡ some f.children

  weights-some :
      (g : P.Graph) (is : List ℕ)
      → ((i : ℕ) → In i is → i < length (P.raw_nodes g))
      → (hs : List (HeaderInfo B)) × (weights_at W g is ≡ some hs) × (length hs ≡ length is)
  unfolding weights_at
  weights-some g [] bound = ([], refl, refl)
  weights-some g (i ∷ is) bound =
      let (h, found) = get_elem?-some (P.raw_nodes g) i (bound i (inl refl)) in
      let (hs, rest, same) = weights-some g is (λ j m. bound j (inr m)) in
      (h ∷ hs, rw (found, rest), ap suc same)

  fork_at-IsFork :
      (g : P.Graph) (i : ℕ)
      → i < length (P.raw_nodes g)
      → ltb 1 (length (W.outgoing g i)) ≡ true
      → (f : Fork B) × (fork_at W g i ≡ some f) × IsFork g f
  unfolding fork_at
  fork_at-IsFork g i lt several =
      let (h, found) = get_elem?-some (P.raw_nodes g) i lt in
      let (hs, read, same) = weights-some g (W.outgoing g i) (λ c m. W.outgoing-bounds g i c m) in
      let more : 1 < length hs =
        subst (λ n. 1 < n) (sym same) (ltb→lt 1 (length (W.outgoing g i)) several) in
      (
        record { common = h; children = hs },
        rw (found, read),
        record { index = i; common = found; several = more; children = read },
      )

  abbrev AreForks : P.Graph → List (Fork B) → Type 0
  AreForks g = All (IsFork g)

  All-snoc :
      (g : P.Graph) (fs : List (Fork B)) (f : Fork B)
      → AreForks g fs
      → IsFork g f
      → AreForks g (fs ++ f ∷ [])
  All-snoc g [] f a p = (p, tt)
  All-snoc g (x ∷ fs) f a p = (a.0, All-snoc g fs f a.1 p)

  forks_of-AreForks :
      (g : P.Graph) (is : List ℕ) (forks : List (Fork B))
      → ((i : ℕ) → In i is → i < length (P.raw_nodes g))
      → AreForks g forks
      → (fs : List (Fork B)) × (forks_of W g is forks ≡ some fs) × AreForks g fs
  unfolding forks_of
  forks_of-AreForks g [] forks bound a = (forks, refl, a)
  forks_of-AreForks g (i ∷ is) forks bound a = elim (Bool-cases (ltb 1 (length (W.outgoing g i)))) [
    | inl several ↦
        let (f, made, fork) = fork_at-IsFork g i (bound i (inl refl)) several in
        let (fs, rest, all) =
          forks_of-AreForks g is (forks ++ f ∷ []) (λ j m. bound j (inr m))
            (All-snoc g forks f a fork) in
        (fs, rw (several, made, forks_of) rest, all)
    | inr single ↦
        let (fs, rest, all) = forks_of-AreForks g is forks (λ j m. bound j (inr m)) a in
        (fs, rw (single, forks_of) rest, all)
  ]

  all_forks-AreForks :
      (g : P.Graph) (roots : List ℕ) (forks : List (Fork B))
      → ((r : ℕ) → In r roots → r < length (P.raw_nodes g))
      → AreForks g forks
      → (fs : List (Fork B)) × (all_forks W g roots forks ≡ some fs) × AreForks g fs
  unfolding all_forks
  all_forks-AreForks g [] forks bound a = (forks, refl, a)
  all_forks-AreForks g (r ∷ roots) forks bound a =
      let (fs, made, all) =
        forks_of-AreForks g (W.dfs g r) forks (λ i m. W.dfs-bounds g r i (bound r (inl refl)) m)
          a in
      let (gs, rest, all') = all_forks-AreForks g roots fs (λ s m. bound s (inr m)) all in
      (gs, rw (made, all_forks) rest, all')

  in-reverse : (f : Fork B) (fs : List (Fork B)) → In f (reverse fs) ↔ In f fs
  in-reverse f [] = (λ m. m, λ m. m)
  in-reverse f (x ∷ fs) =
      let split : reverse (x ∷ fs) ≡ reverse fs ++ x ∷ [] = reverse-append (x ∷ []) fs in
      let parts = in-append f (reverse fs) (x ∷ []) in
      let rest = in-reverse f fs in
      (
        λ m. elim (parts.0 (subst (In f) split m)) [
          | inl old ↦ inr (rest.0 old)
          | inr (inl e) ↦ inl e
          | inr (inr nothing) ↦ absurd nothing
        ],
        λ m.
            subst (In f) (sym split)
              (parts.1 (elim m [ inl e ↦ inr (inl e) | inr old ↦ inl (rest.1 old) ])),
      )

  abbrev fork_height : Fork B → ℕ
  fork_height f = f.common.height

  -- No fork is higher than one before it.
  abbrev pub IsDescending : List (Fork B) → Type 0
  IsDescending [] = Unit
  IsDescending (f ∷ fs) = All (λ g. fork_height g ≤ fork_height f) fs × IsDescending fs

  IsDescending-snoc :
      (fs : List (Fork B)) (x : Fork B)
      → IsDescending fs
      → ((f : Fork B) → In f fs → fork_height x ≤ fork_height f)
      → IsDescending (fs ++ x ∷ [])
  IsDescending-snoc [] x d low = (tt, tt)
  IsDescending-snoc (f ∷ fs) x d low =
      (All-le_snoc fs d.0 (low f (inl refl)), IsDescending-snoc fs x d.1 (λ g m. low g (inr m)))
    where
      All-le_snoc :
          (gs : List (Fork B))
          → All (λ g. fork_height g ≤ fork_height f) gs
          → fork_height x ≤ fork_height f
          → All (λ g. fork_height g ≤ fork_height f) (gs ++ x ∷ [])
      All-le_snoc [] a le = (le, tt)
      All-le_snoc (g ∷ gs) a le = (a.0, All-le_snoc gs a.1 le)

  reverse-IsDescending :
      (fs : List (Fork B)) → IsSortedBy fork_height fs → IsDescending (reverse fs)
  reverse-IsDescending [] s = tt
  reverse-IsDescending (f ∷ fs) s = subst IsDescending (sym (reverse-append (f ∷ []) fs)) (
      IsDescending-snoc (reverse fs) f (reverse-IsDescending fs s.1)
        (λ g m. All-in (λ g. fork_height f ≤ fork_height g) fs s.0 ((in-reverse g fs).0 m)))

  -- `fs` are the first of all forks `found`, `how_many` at most, in descending order of the heights;
  -- the others are `older`.
  pub record AreRecent (t : TreeInfo B P) (how_many : ℕ) (fs : List (Fork B)) : Type 0 where
    pub found : List (Fork B)
    pub older : List (Fork B)
    pub all : all_forks W t.graph (W.externals t.graph) [] ≡ some found
    pub forks : All (IsFork t.graph) found
    pub members : (f : Fork B) → In f (fs ++ older) ↔ In f found
    pub descending : IsDescending (fs ++ older)
    pub size : length fs ≤ how_many
    pub full : (length fs ≡ how_many) ⊎ (older ≡ [])

  full_take : (n : ℕ) (xs : List (Fork B)) → (length (take n xs) ≡ n) ⊎ (drop n xs ≡ [])
  full_take zero xs = inl refl
  full_take (suc n) [] = inr refl
  full_take (suc n) (x ∷ xs) = elim (full_take n xs) [ inl e ↦ inl (ap suc e) | inr e ↦ inr e ]

  -- `recent_forks` does not panic. Of the forks that the searches from the roots find, which are
  -- nodes with several outgoing edges and the headers that these lead to, it returns those with
  -- the greatest heights, in descending order: `how_many`, or all if there are fewer.
  pub recent_forks-AreRecent :
      (t : TreeInfo B P) (how_many : ℕ)
      → (fs : List (Fork B)) × (recent_forks W t how_many ≡ some fs) × AreRecent t how_many fs
  unfolding recent_forks
  recent_forks-AreRecent t how_many =
      let g = t.graph in
      let (fs, made, all) =
        all_forks-AreForks g (W.externals g) [] (λ r m. ((W.in-externals g r).0 m).0) tt in
      let sorted : List (Fork B) = sort_by_key fork_height fs in
      let order = reverse sorted in
      let parts : take how_many order ++ drop how_many order ≡ order =
        take-append-drop how_many order in
      let same = in-sort_by_key fork_height in
      (
        take how_many order,
        rw made,
        record {
          found = fs;
          older = drop how_many order;
          all = made;
          forks = all;
          members = λ f.
              subst (λ l. In f l ↔ In f fs) (sym parts)
                (
                  λ m. (same f fs).0 ((in-reverse f sorted).0 m),
                  λ m. (in-reverse f sorted).1 ((same f fs).1 m),
                );
          descending =
              subst IsDescending (sym parts)
                (reverse-IsDescending sorted (sort_by_key-IsSortedBy fork_height fs));
          size = length-take-le how_many order;
          full = full_take how_many order;
        },
      )
