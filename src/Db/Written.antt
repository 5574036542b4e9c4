-- ===== src/Db/Written.antt =====
-- `write_to_db` of src/db.rs: which rows it adds.
use mathlib.Core.List.{append-nil, append_assoc}
use fork_observer.Prelude.{
  ℕ, ◌≡◌, refl, sym, ap, subst, ◌∙◌, inl, inr, true, List, [], ◌∷◌, ◌++◌, arith, str_eq_iff,
  Bool-cases, All, In, in-append,
}
use fork_observer.Prelude.Results.{ok, >>=_ok}
use fork_observer.Bitcoin.{Bitcoin}
use fork_observer.Errors.{Crates}
use fork_observer.Types.{HeaderInfo}
use fork_observer.Db.{Row, same_key, has_key, Sqlite, row_of, insert_all, write_to_db}
use fork_observer.Db.Stored.{strip_err}

same_key_refl : (r : Row) → same_key r r ≡ true
same_key_refl r = ground (arith, str_eq_iff r.hash r.hash, str_eq_iff r.header r.header)

has_key-append_left :
    (r : Row) (rows more : List Row) → has_key r rows ≡ true → has_key r (rows ++ more) ≡ true
has_key-append_left r [] more h = absurd (cc)
has_key-append_left r (s ∷ rows) more h = elim (Bool-cases (same_key r s)) [
  | inl same ↦ rw same
  | inr other ↦ rw other (has_key-append_left r rows more (ground (arith, h, other)))
]

has_key-snoc : (r : Row) (rows : List Row) → has_key r (rows ++ r ∷ []) ≡ true
has_key-snoc r [] = rw (same_key_refl r)
has_key-snoc r (s ∷ rows) = elim (Bool-cases (same_key r s)) [
  | inl same ↦ rw same
  | inr other ↦ rw other (has_key-snoc r rows)
]

module _ {B : Bitcoin} {E : Crates} (S : Sqlite B E) where
  -- The rows after `write_to_db`: the old ones, and rows of new headers; every header has a row.
  pub record IsWritten (network : ℕ) (hs : List (HeaderInfo B)) (before after : List Row)
      : Type 0 where
    pub added : List Row
    pub split : after ≡ before ++ added
    pub from : (r : Row) → In r added → (h : HeaderInfo B) × In h hs × (r ≡ row_of S network h)
    pub present : All (λ h. has_key (row_of S network h) after ≡ true) hs

  -- One statement of the loop adds the row of the header, or nothing if its key is known.
  insert_once :
      (network : ℕ) (h : HeaderInfo B) (d d' : S.Db)
      → S.insert_or_ignore (row_of S network h) d ≡ ok d'
      → (added : List Row) × (S.rows d' ≡ S.rows d ++ added)
        × ((r : Row) → In r added → r ≡ row_of S network h)
        × (has_key (row_of S network h) (S.rows d') ≡ true)
  insert_once network h d d' e =
      let r = row_of S network h in
      elim (Bool-cases (has_key r (S.rows d))) [
        | inl known ↦
            let same = S.insert-known r d d' known e in
            (
              [],
              same ∙ sym (append-nil (S.rows d)),
              λ x m. absurd m,
              subst (λ l. has_key r l ≡ true) (sym same) known,
            )
        | inr new ↦
            let grown = S.insert-new r d d' new e in
            (
              r ∷ [],
              grown,
              λ x m. elim m [ inl same ↦ same | inr none ↦ absurd none ],
              subst (λ l. has_key r l ≡ true) (sym grown) (has_key-snoc r (S.rows d)),
            )
      ]

  insert_all-IsWritten :
      (network : ℕ) (hs : List (HeaderInfo B)) (d d' : S.Db)
      → insert_all S network hs d ≡ ok d'
      → IsWritten network hs (S.rows d) (S.rows d')
  unfolding insert_all
  insert_all-IsWritten network [] d d' e =
      subst (λ x. IsWritten network [] (S.rows d) (S.rows x)) (ground (arith, e))
        (record {
          added = [];
          split = sym (append-nil (S.rows d));
          from = λ r m. absurd m;
          present = tt;
        })
  insert_all-IsWritten network (h ∷ hs) d d' e =
      let (m, first, rest) =
        >>=_ok (S.insert_or_ignore (row_of S network h) d) (insert_all S network hs) e in
      let (one, split, from, present) = insert_once network h d m first in
      let w = insert_all-IsWritten network hs m d' rest in
      record {
        added = one ++ w.added;
        split = w.split ∙ ap (λ l. l ++ w.added) split ∙ append_assoc (S.rows d) one w.added;
        from = λ r listed. elim ((in-append r one w.added).0 listed) [
          | inl mine ↦ (h, inl refl, from r mine)
          | inr later ↦ let (g, inside, same) = w.from r later in (g, inr inside, same)
        ];
        present = (
          subst (λ l. has_key (row_of S network h) l ≡ true) (sym w.split)
              (has_key-append_left (row_of S network h) (S.rows m) w.added present),
          w.present,
        );
      }

  -- `write_to_db`, when it succeeds, keeps all rows at their places, adds only rows of the given
  -- headers after them, and afterwards the key of each given header has a row.
  pub write_to_db-IsWritten :
      (hs : List (HeaderInfo B)) (network : ℕ) (d d' : S.Db)
      → write_to_db S hs network d ≡ ok d'
      → IsWritten network hs (S.rows d) (S.rows d')
  unfolding write_to_db
  write_to_db-IsWritten hs network d d' e =
      let (m, inserted, committed) =
        >>=_ok (insert_all S network hs d) S.commit (strip_err S _ d' e) in
      subst (IsWritten network hs (S.rows d)) (sym (S.rows-commit m d' committed))
        (insert_all-IsWritten network hs d m inserted)
