-- ===== src/Samples/Table.antt =====
-- A table of headers that is the list of its rows, and whose statements do not fail.
use fork_observer.Prelude.{
  ℕ, ◌≡◌, ◌↔◌, refl, sym, subst, ◌∙◌, inl, inr, Bool, false, String, List, [], ◌∷◌, ◌++◌, map,
  arith, ◌==◌, ==_iff, str_eq_iff, if◌then◌else◌, leb, Bool-cases, All, All-in, In, select,
  in-select,
}
use fork_observer.Prelude.Results.{Result, ok}
use fork_observer.Prelude.Sort.{
  insert_by, sort_by_key, IsSortedBy, sort_by_key-IsSortedBy, in-insert_by, in-sort_by_key,
}
use fork_observer.Samples.{btc, crates}
use fork_observer.Db.{Row, same_key, has_key, NoTwice, put_miner, Sqlite}

abbrev pub height_of : Row → ℕ
height_of r = r.height

same_key_comm : (r s : Row) → same_key r s ≡ same_key s r
same_key_comm r s = ground (
  arith,
  str_eq_iff r.hash s.hash,
  str_eq_iff s.hash r.hash,
  str_eq_iff r.header s.header,
  str_eq_iff s.header r.header,
)

abbrev Apart : Row → List Row → Type 0
Apart r = All (λ s. same_key s r ≡ false)

Apart-of_in : (r : Row) (rs : List Row) → ((s : Row) → In s rs → same_key s r ≡ false) → Apart r rs
Apart-of_in r [] h = tt
Apart-of_in r (s ∷ rs) h = (h s (inl refl), Apart-of_in r rs (λ t m. h t (inr m)))

NoTwice-insert_by :
    (x : Row) (ys : List Row) → Apart x ys → NoTwice ys → NoTwice (insert_by height_of x ys)
unfolding insert_by
NoTwice-insert_by x [] a once = (tt, tt)
NoTwice-insert_by x (y ∷ ys) a once = elim (Bool-cases (leb x.height y.height)) [
  | inl le ↦ rw le (a, once)
  | inr gt ↦ rw gt (
    Apart-of_in y (insert_by height_of x ys) (λ s m. elim ((in-insert_by height_of s x ys).0 m) [
      | inl e ↦ subst (λ t. same_key t y ≡ false) (sym e) (same_key_comm x y ∙ a.0)
      | inr l ↦ All-in (λ t. same_key t y ≡ false) ys once.0 l
    ]),
    NoTwice-insert_by x ys a.1 once.1,
  )
]

pub NoTwice-sort : (rs : List Row) → NoTwice rs → NoTwice (sort_by_key height_of rs)
unfolding sort_by_key
NoTwice-sort [] once = tt
NoTwice-sort (r ∷ rs) once =
    NoTwice-insert_by r (sort_by_key height_of rs)
      (Apart-of_in r (sort_by_key height_of rs)
        (λ s m. All-in (λ t. same_key t r ≡ false) rs once.0 ((in-sort_by_key height_of s rs).0 m)))
      (NoTwice-sort rs once.1)

abbrev pub of_network : ℕ → Row → Bool
of_network n r = r.network == n

pub NoTwice-select : (n : ℕ) (rs : List Row) → NoTwice rs → NoTwice (select (of_network n) rs)
NoTwice-select n [] once = tt
NoTwice-select n (r ∷ rs) once = elim (Bool-cases (of_network n r)) [
  | inl e ↦ rw e (
    Apart-of_in r (select (of_network n) rs) (λ s m.
        All-in (λ t. same_key t r ≡ false) rs once.0 ((in-select (of_network n) s rs).0 m).0),
    NoTwice-select n rs once.1,
  )
  | inr e ↦ rw e (NoTwice-select n rs once.1)
]

abbrev pub query : ℕ → List Row → List Row
query n rs = sort_by_key height_of (select (of_network n) rs)

pub in-query : (n : ℕ) (d : List Row) (r : Row) → In r (query n d) ↔ (In r d × (r.network ≡ n))
in-query n d r =
    let sorted = in-sort_by_key height_of r (select (of_network n) d) in
    let chosen = in-select (of_network n) r d in
    (
      λ m. let (l, e) = chosen.0 (sorted.0 m) in (l, (==_iff r.network n).0 e),
      λ (l, e). sorted.1 (chosen.1 (l, (==_iff r.network n).1 e)),
    )

pub value_of : {A : Type 0} {x y : A} → ◌≡◌ {A = Result (Unit {0}) A} (ok x) (ok y) → x ≡ y
value_of e = ground (arith, e)

abbrev pub insert_row : Row → List Row → List Row
insert_row r d = if has_key r d then d else d ++ r ∷ []

abbrev pub list_table : Sqlite btc crates
list_table = record {
  Db = List Row;
  Bytes = String;
  rows = λ d. d;
  insert_or_ignore = λ r d. ok (insert_row r d);
  update_miner_where = λ miner hash d. ok (map (put_miner miner hash) d);
  select_headers = λ n d. ok (query n d);
  commit = λ d. ok d;
  serialize_hex = λ h. h;
  decode_hex = λ s. ok s;
  deserialize = λ b. ok b;
  insert-known = λ r d d' k e. sym (value_of e) ∙ rw k;
  insert-new = λ r d d' k e. sym (value_of e) ∙ rw k;
  rows-update_miner_where = λ m h d d' e. sym (value_of e);
  rows-commit = λ d d' e. sym (value_of e);
  in-select =
      λ n d rs e r. subst (λ l. In r l ↔ (In r d × (r.network ≡ n))) (value_of e) (in-query n d r);
  select-once = λ n d rs e once.
      subst NoTwice (value_of e) (NoTwice-sort (select (of_network n) d) (NoTwice-select n d once));
  select-IsSortedBy = λ n d rs e.
      subst (IsSortedBy height_of) (value_of e)
        (sort_by_key-IsSortedBy height_of (select (of_network n) d));
  decode-serialize = λ h. (h, refl, refl);
}
