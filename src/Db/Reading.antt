-- ===== src/Db/Reading.antt =====
-- `load_header_infos` of src/db.rs reads back what was stored.
use mathlib.Core.List.{append-nil, append_assoc}
use fork_observer.Prelude.{
  ℕ, ◌≤◌, ◌≡◌, ◌≢◌, ◌↔◌, refl, sym, ap, subst, ◌∙◌, inl, inr, true, false, List, [], ◌∷◌, ◌++◌, map,
  arith, str_eq_iff, ==_refl, All, All-in, In, in-map,
}
use fork_observer.Prelude.Results.{Result, ok}
use fork_observer.Prelude.Sort.{IsSortedBy}
use fork_observer.Bitcoin.{Bitcoin}
use fork_observer.Errors.{Crates, DbError}
use fork_observer.Types.{HeaderInfo, hash_of}
use fork_observer.Tree.Load.{DistinctHeaders}
use fork_observer.Db.{
  Row, same_key, NoTwice, Sqlite, row_of, read_row, read_rows, load_header_infos,
}
use fork_observer.Db.Stored.{IsRow, IsStored}

-- Different headers have different hashes.
abbrev pub NoCollisions : Bitcoin → Type 0
NoCollisions B = (g h : B.Header) → B.block_hash g ≡ B.block_hash h → g ≡ h

module _ {B : Bitcoin} {E : Crates} (S : Sqlite B E) where
  read_row-row_of : (n : ℕ) (h : HeaderInfo B) → read_row S (row_of S n h) ≡ ok h
  unfolding read_row row_of
  read_row-row_of n h =
      let (bytes, decoded, parsed) = S.decode-serialize h.header in rw (decoded, parsed)

  row_of-injective : (n : ℕ) (g h : HeaderInfo B) → row_of S n g ≡ row_of S n h → g ≡ h
  row_of-injective n g h e =
      let same : ◌≡◌ {A = Result (DbError E) (HeaderInfo B)} (ok g) (ok h) =
        sym (read_row-row_of n g) ∙ ap (read_row S) e ∙ read_row-row_of n h in
      ground (arith, same)

  read_rows-rows :
      (n : ℕ) (hs found : List (HeaderInfo B))
      → read_rows S (map (row_of S n) hs) found ≡ ok (found ++ hs)
  unfolding read_rows
  read_rows-rows n [] found = ap ok (sym (append-nil found))
  read_rows-rows n (h ∷ hs) found =
      rw (read_row-row_of n h)
        (read_rows-rows n hs (found ++ h ∷ []) ∙ ap ok (append_assoc found (h ∷ []) hs))

  -- Rows of one network that are rows of headers are the rows of a list of headers.
  headers_of :
      (n : ℕ) (rs : List Row)
      → ((r : Row) → In r rs → IsRow S r × (r.network ≡ n))
      → (hs : List (HeaderInfo B)) × (map (row_of S n) hs ≡ rs)
  headers_of n [] each = ([], refl)
  headers_of n (r ∷ rs) each =
      let ((h, e), net) = each r (inl refl) in
      let (hs, rest) = headers_of n rs (λ s m. each s (inr m)) in
      let first : row_of S n h ≡ r = subst (λ k. row_of S k h ≡ r) net e in
      (h ∷ hs, ap (λ x. x ∷ map (row_of S n) hs) first ∙ ap (λ l. r ∷ l) rest)

  same_key-row_of :
      (n : ℕ) (g h : HeaderInfo B)
      → g.header ≡ h.header
      → same_key (row_of S n g) (row_of S n h) ≡ true
  unfolding row_of
  same_key-row_of n g h e =
      let hash = B.hash_to_string (hash_of h) in
      let hex = S.serialize_hex h.header in
      rw e (ground (arith, ==_refl n, str_eq_iff hash hash, str_eq_iff hex hex))

  hashes_apart :
      (no_collisions : NoCollisions B) (n : ℕ) (h : HeaderInfo B) (gs : List (HeaderInfo B))
      → All (λ s. same_key s (row_of S n h) ≡ false) (map (row_of S n) gs)
      → All (λ g. hash_of g ≢ hash_of h) gs
  hashes_apart no_collisions n h [] a = tt
  hashes_apart no_collisions n h (g ∷ gs) a = (
    λ e. absurd (cc (a.0, same_key-row_of n g h (no_collisions g.header h.header e))),
    hashes_apart no_collisions n h gs a.1,
  )

  distinct_headers :
      (no_collisions : NoCollisions B) (n : ℕ) (hs : List (HeaderInfo B))
      → NoTwice (map (row_of S n) hs)
      → DistinctHeaders hs
  distinct_headers no_collisions n [] once = tt
  distinct_headers no_collisions n (h ∷ hs) once =
      (hashes_apart no_collisions n h hs once.0, distinct_headers no_collisions n hs once.1)

  above_rows :
      (n k : ℕ) (hs : List (HeaderInfo B))
      → All (λ (r : Row). k ≤ r.height) (map (row_of S n) hs)
      → All (λ (h : HeaderInfo B). k ≤ h.height) hs
  unfolding row_of
  above_rows n k [] a = tt
  above_rows n k (h ∷ hs) a = (a.0, above_rows n k hs a.1)

  sorted_headers :
      (n : ℕ) (hs : List (HeaderInfo B))
      → IsSortedBy (λ (r : Row). r.height) (map (row_of S n) hs)
      → IsSortedBy (λ (h : HeaderInfo B). h.height) hs
  unfolding row_of
  sorted_headers n [] s = tt
  sorted_headers n (h ∷ hs) s = (above_rows n h.height hs s.0, sorted_headers n hs s.1)

  load_rows :
      (n : ℕ) (d : S.Db) (hs : List (HeaderInfo B))
      → S.select_headers n d ≡ ok (map (row_of S n) hs)
      → load_header_infos S n d ≡ ok hs
  unfolding load_header_infos
  load_rows n d hs e = rw e (read_rows-rows n hs [])

  network-row_of : (n : ℕ) (h : HeaderInfo B) → (row_of S n h).network ≡ n
  unfolding row_of
  network-row_of n h = refl

  -- From a well-formed table, if the query itself succeeds and no two headers have the same hash:
  -- `load_header_infos` returns exactly the headers that have a row in the network, with the
  -- heights and miners of the rows, in ascending order of the heights, and no hash twice.
  pub load_header_infos-Loaded :
      (n : ℕ) (d : S.Db) (rs : List Row)
      → NoCollisions B
      → IsStored S (S.rows d)
      → S.select_headers n d ≡ ok rs
      → (hs : List (HeaderInfo B)) × (load_header_infos S n d ≡ ok hs)
        × DistinctHeaders hs
        × IsSortedBy (λ (h : HeaderInfo B). h.height) hs
        × ((h : HeaderInfo B) → In h hs ↔ In (row_of S n h) (S.rows d))
  load_header_infos-Loaded n d rs no_collisions v e =
      let member = S.in-select n d rs e in
      let (hs, same) = headers_of n rs (λ r m.
        let (stored, net) = (member r).0 m in
        (All-in (IsRow S) (S.rows d) v.readable stored, net)) in
      let once = subst NoTwice (sym same) (S.select-once n d rs e v.once) in
      let sorted =
        subst (IsSortedBy (λ (r : Row). r.height)) (sym same) (S.select-IsSortedBy n d rs e) in
      (
        hs,
        load_rows n d hs (e ∙ ap ok (sym same)),
        distinct_headers no_collisions n hs once,
        sorted_headers n hs sorted,
        λ h. (
          λ m.
              let listed : In (row_of S n h) rs =
                subst (In (row_of S n h)) same
                  ((in-map (row_of S n) (row_of S n h) hs).1 (h, m, refl)) in
              ((member (row_of S n h)).0 listed).0,
          λ stored.
              let listed = (member (row_of S n h)).1 (stored, network-row_of n h) in
              let (g, m, e) =
                (in-map (row_of S n) (row_of S n h) hs).0
                  (subst (In (row_of S n h)) (sym same) listed) in
              subst (λ x. In x hs) (sym (row_of-injective n h g e)) m,
        ),
      )
