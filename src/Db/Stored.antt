-- ===== src/Db/Stored.antt =====
-- What holds of the table of src/db.rs at all times: `write_to_db` and `update_miner` keep it.
use fork_observer.Prelude.{
  ℕ, ◌≡◌, refl, sym, ap, subst, ◌∙◌, inl, inr, String, false, List, [], ◌∷◌, ◌++◌, map, arith,
  str_eq, Bool-cases, All,
}
use fork_observer.Prelude.Results.{Result, ok, err, map_err, >>=_ok}
use fork_observer.Bitcoin.{Bitcoin}
use fork_observer.Errors.{Crates, DbError, rusqlite}
use fork_observer.Types.{HeaderInfo}
use fork_observer.Db.{
  Row, same_key, has_key, NoTwice, put_miner, Sqlite, row_of, insert_all, write_to_db, update_miner,
}

All-snoc :
    {A : Type 0} (P : A → Type 0) (xs : List A) (a : A) → All P xs → P a → All P (xs ++ a ∷ [])
All-snoc P [] a h p = (p, tt)
All-snoc P (x ∷ xs) a h p = (h.0, All-snoc P xs a h.1 p)

NoTwice-snoc :
    (rows : List Row) (r : Row) → NoTwice rows → has_key r rows ≡ false → NoTwice (rows ++ r ∷ [])
NoTwice-snoc [] r once new = (tt, tt)
NoTwice-snoc (x ∷ rows) r once new =
    let other : same_key r x ≡ false = elim (Bool-cases (same_key r x)) [
      | inl same ↦ absurd (ground (arith, new, same))
      | inr e ↦ e
    ] in
    let rest : has_key r rows ≡ false = ground (arith, new, other) in
    (All-snoc (λ s. same_key s x ≡ false) rows r once.0 other, NoTwice-snoc rows r once.1 rest)

same_key-put_miner :
    (miner hash : String) (r s : Row)
    → same_key (put_miner miner hash r) (put_miner miner hash s) ≡ same_key r s
same_key-put_miner miner hash r s = elim (Bool-cases (str_eq r.hash hash)) [
  | inl a ↦ elim (Bool-cases (str_eq s.hash hash)) [ inl b ↦ rw (a, b) | inr b ↦ rw (a, b) ]
  | inr a ↦ elim (Bool-cases (str_eq s.hash hash)) [ inl b ↦ rw (a, b) | inr b ↦ rw (a, b) ]
]

NoTwice-put_miner :
    (miner hash : String) (rows : List Row)
    → NoTwice rows
    → NoTwice (map (put_miner miner hash) rows)
NoTwice-put_miner miner hash [] once = tt
NoTwice-put_miner miner hash (r ∷ rows) once =
    (apart rows once.0, NoTwice-put_miner miner hash rows once.1)
  where
    apart :
        (ss : List Row)
        → All (λ s. same_key s r ≡ false) ss
        → All (λ s. same_key s (put_miner miner hash r) ≡ false) (map (put_miner miner hash) ss)
    apart [] h = tt
    apart (s ∷ ss) h = (same_key-put_miner miner hash s r ∙ h.0, apart ss h.1)

module _ {B : Bitcoin} {E : Crates} (S : Sqlite B E) where
  -- The row of a header
  abbrev pub IsRow : Row → Type 0
  IsRow r = (h : HeaderInfo B) × (row_of S r.network h ≡ r)

  -- Each row is the row of a header, and no primary key occurs twice.
  pub record IsStored (rows : List Row) : Type 0 where
    pub readable : All IsRow rows
    pub once : NoTwice rows

  insert-IsStored :
      (network : ℕ) (h : HeaderInfo B) (d d' : S.Db)
      → S.insert_or_ignore (row_of S network h) d ≡ ok d'
      → IsStored (S.rows d)
      → IsStored (S.rows d')
  unfolding row_of
  insert-IsStored network h d d' e v =
      let r = row_of S network h in
      elim (Bool-cases (has_key r (S.rows d))) [
        | inl known ↦ subst IsStored (sym (S.insert-known r d d' known e)) v
        | inr new ↦ subst IsStored (sym (S.insert-new r d d' new e)) (record {
          readable = All-snoc IsRow (S.rows d) r v.readable (h, refl);
          once = NoTwice-snoc (S.rows d) r v.once new;
        })
      ]

  insert_all-IsStored :
      (network : ℕ) (hs : List (HeaderInfo B)) (d d' : S.Db)
      → insert_all S network hs d ≡ ok d'
      → IsStored (S.rows d)
      → IsStored (S.rows d')
  unfolding insert_all
  insert_all-IsStored network [] d d' e v = subst (λ x. IsStored (S.rows x)) (ground (arith, e)) v
  insert_all-IsStored network (h ∷ hs) d d' e v =
      let (m, first, rest) =
        >>=_ok (S.insert_or_ignore (row_of S network h) d) (insert_all S network hs) e in
      insert_all-IsStored network hs m d' rest (insert-IsStored network h d m first v)

  pub strip_err :
      (r : Result E.RusqliteError S.Db) (d : S.Db)
      → ◌≡◌ {A = Result (DbError E) S.Db} (map_err rusqlite r) (ok d)
      → r ≡ ok d
  strip_err (ok x) d e = ground (arith, e)
  strip_err (err x) d e = absurd (cc)

  -- `write_to_db` keeps the table well-formed, whatever headers it writes.
  pub write_to_db-IsStored :
      (hs : List (HeaderInfo B)) (network : ℕ) (d d' : S.Db)
      → write_to_db S hs network d ≡ ok d'
      → IsStored (S.rows d)
      → IsStored (S.rows d')
  unfolding write_to_db
  write_to_db-IsStored hs network d d' e v =
      let (m, inserted, committed) =
        >>=_ok (insert_all S network hs d) S.commit (strip_err _ d' e) in
      subst IsStored (sym (S.rows-commit m d' committed))
        (insert_all-IsStored network hs d m inserted v)

  IsRow-put_miner : (miner hash : String) (r : Row) → IsRow r → IsRow (put_miner miner hash r)
  unfolding row_of
  IsRow-put_miner miner hash r (h, e) = elim (Bool-cases (str_eq r.hash hash)) [
    | inl same ↦
        rw same (record h { miner = miner }, ap (λ (x : Row). record x { miner = miner }) e)
    | inr other ↦ rw other (h, e)
  ]

  All-IsRow-put_miner :
      (miner hash : String) (rows : List Row)
      → All IsRow rows
      → All IsRow (map (put_miner miner hash) rows)
  All-IsRow-put_miner miner hash [] a = tt
  All-IsRow-put_miner miner hash (r ∷ rows) a =
      (IsRow-put_miner miner hash r a.0, All-IsRow-put_miner miner hash rows a.1)

  pub rows-update_miner :
      (hash : B.BlockHash) (miner : String) (d d' : S.Db)
      → update_miner S hash miner d ≡ ok d'
      → S.rows d' ≡ map (put_miner miner (B.hash_to_string hash)) (S.rows d)
  unfolding update_miner
  rows-update_miner hash miner d d' e =
      let text = B.hash_to_string hash in
      let (m, changed, committed) =
        >>=_ok (S.update_miner_where miner text d) S.commit (strip_err _ d' e) in
      S.rows-commit m d' committed ∙ S.rows-update_miner_where miner text d m changed

  -- `update_miner` keeps the table well-formed, and changes only the miner of the rows with the
  -- hash.
  pub update_miner-IsStored :
      (hash : B.BlockHash) (miner : String) (d d' : S.Db)
      → update_miner S hash miner d ≡ ok d'
      → IsStored (S.rows d)
      → IsStored (S.rows d')
        × (S.rows d' ≡ map (put_miner miner (B.hash_to_string hash)) (S.rows d))
  update_miner-IsStored hash miner d d' e v =
      let text = B.hash_to_string hash in
      let rows = rows-update_miner hash miner d d' e in
      (
        subst IsStored (sym rows) (record {
          readable = All-IsRow-put_miner miner text (S.rows d) v.readable;
          once = NoTwice-put_miner miner text (S.rows d) v.once;
        }),
        rows,
      )
