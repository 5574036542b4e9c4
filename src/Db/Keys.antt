-- ===== src/Db/Keys.antt =====
-- The primary keys of the table of headers: `write_to_db` and `update_miner` of src/db.rs lose none.
use fork_observer.Prelude.{
  ℕ, ◌≡◌, refl, sym, ap, subst, ◌∙◌, inl, inr, true, String, List, [], ◌∷◌, ◌++◌, map, arith,
  Bool-cases, In, str_eq, str_eq_iff,
}
use fork_observer.Prelude.Results.{ok, >>=_ok}
use fork_observer.Bitcoin.{Bitcoin}
use fork_observer.Errors.{Crates}
use fork_observer.Types.{HeaderInfo}
use fork_observer.Db.{
  Row, same_key, has_key, put_miner, Sqlite, row_of, insert_all, write_to_db, update_miner,
}
use fork_observer.Db.Stored.{strip_err}

has_key-append :
    (r : Row) (rows more : List Row) → has_key r rows ≡ true → has_key r (rows ++ more) ≡ true
has_key-append r [] more e = cc
has_key-append r (s ∷ rows) more e = ground (arith, e, has_key-append r rows more)

same_key_refl : (r : Row) → same_key r r ≡ true
same_key_refl r = ground (arith, str_eq_iff r.hash r.hash, str_eq_iff r.header r.header)

pub has_key-in : (r : Row) (rows : List Row) → In r rows → has_key r rows ≡ true
has_key-in r [] m = absurd m
has_key-in r (s ∷ rows) (inl e) =
    let same = subst (λ x. same_key r x ≡ true) e (same_key_refl r) in rw same refl
has_key-in r (s ∷ rows) (inr m) = ground (arith, has_key-in r rows m)

has_key-snoc : (r : Row) (rows : List Row) → has_key r (rows ++ r ∷ []) ≡ true
has_key-snoc r [] = rw (same_key_refl r) refl
has_key-snoc r (s ∷ rows) = ground (arith, has_key-snoc r rows)

same_key-put_miner :
    (miner hash : String) (r s : Row) → same_key r (put_miner miner hash s) ≡ same_key r s
same_key-put_miner miner hash r s = elim (Bool-cases (str_eq s.hash hash)) [
  | inl e ↦ rw e refl
  | inr e ↦ rw e refl
]

has_key-put_miner :
    (miner hash : String) (r : Row) (rows : List Row)
    → has_key r (map (put_miner miner hash) rows) ≡ has_key r rows
has_key-put_miner miner hash r [] = refl
has_key-put_miner miner hash r (s ∷ rows) =
    rw (same_key-put_miner miner hash r s, has_key-put_miner miner hash r rows) refl

abbrev with : ℕ → String → ℕ × String × String → Row
with height miner (network, hash, header) = record {
  height = height;
  network = network;
  hash = hash;
  header = header;
  miner = miner;
}

has_key-other :
    (key : ℕ × String × String) (height height' : ℕ) (miner miner' : String) (rows : List Row)
    → has_key (with height' miner' key) rows ≡ has_key (with height miner key) rows
has_key-other key height height' miner miner' [] = refl
has_key-other key height height' miner miner' (s ∷ rows) =
    rw (has_key-other key height height' miner miner' rows) refl

module _ {B : Bitcoin} {E : Crates} (S : Sqlite B E) where
  -- No primary key of the table disappears.
  abbrev pub KeepsKeys : S.Db → S.Db → Type 0
  KeepsKeys d d' = (r : Row) → has_key r (S.rows d) ≡ true → has_key r (S.rows d') ≡ true

  -- The table has the header, perhaps with another miner.
  abbrev pub HasHeader : ℕ → S.Db → HeaderInfo B → Type 0
  HasHeader network d h = has_key (row_of S network h) (S.rows d) ≡ true

  pub HasHeader-same :
      (network : ℕ) (d : S.Db) (g h : HeaderInfo B)
      → g.header ≡ h.header
      → HasHeader network d g
      → HasHeader network d h
  unfolding row_of
  HasHeader-same network d g h e m =
      sym (has_key-other (keyed h.header) h.height g.height h.miner g.miner (S.rows d))
      ∙ sym (ap (λ (x : B.Header). has_key (with g.height g.miner (keyed x)) (S.rows d)) e)
      ∙ m
    where
      keyed : B.Header → ℕ × String × String
      keyed x = (network, B.hash_to_string (B.block_hash x), S.serialize_hex x)

  insert-KeepsKeys :
      (r : Row) (d d' : S.Db)
      → S.insert_or_ignore r d ≡ ok d'
      → KeepsKeys d d' × (has_key r (S.rows d') ≡ true)
  insert-KeepsKeys r d d' e = elim (Bool-cases (has_key r (S.rows d))) [
    | inl known ↦ let same = S.insert-known r d d' known e in (λ s m. rw same m, rw same known)
    | inr new ↦
        let grown = S.insert-new r d d' new e in
        (
          λ s m. rw grown (has_key-append s (S.rows d) (r ∷ []) m),
          rw grown (has_key-snoc r (S.rows d)),
        )
  ]

  insert_all-KeepsKeys :
      (network : ℕ) (hs : List (HeaderInfo B)) (d d' : S.Db)
      → insert_all S network hs d ≡ ok d'
      → KeepsKeys d d' × ((h : HeaderInfo B) → In h hs → HasHeader network d' h)
  unfolding insert_all
  insert_all-KeepsKeys network [] d d' e =
      (λ r m. subst (λ x. has_key r (S.rows x) ≡ true) (ground (arith, e)) m, λ h m. absurd m)
  insert_all-KeepsKeys network (h ∷ hs) d d' e =
      let (m, first, rest) =
        >>=_ok (S.insert_or_ignore (row_of S network h) d) (insert_all S network hs) e in
      let (keeps, here) = insert-KeepsKeys (row_of S network h) d m first in
      let (keeps', later) = insert_all-KeepsKeys network hs m d' rest in
      (
        λ r k. keeps' r (keeps r k),
        λ g listed. elim listed [
          | inl e ↦ rw e (keeps' (row_of S network h) here)
          | inr l ↦ later g l
        ],
      )

  -- A write that succeeds stores every header, and loses no key.
  pub write_to_db-KeepsKeys :
      (hs : List (HeaderInfo B)) (network : ℕ) (d d' : S.Db)
      → write_to_db S hs network d ≡ ok d'
      → KeepsKeys d d' × ((h : HeaderInfo B) → In h hs → HasHeader network d' h)
  unfolding write_to_db
  write_to_db-KeepsKeys hs network d d' e =
      let (m, inserted, committed) =
        >>=_ok (insert_all S network hs d) S.commit (strip_err S _ d' e) in
      let (keeps, stored) = insert_all-KeepsKeys network hs d m inserted in
      let same = S.rows-commit m d' committed in
      (λ r k. rw same (keeps r k), λ h l. rw same (stored h l))

  pub update_miner-KeepsKeys :
      (hash : B.BlockHash) (miner : String) (d d' : S.Db)
      → update_miner S hash miner d ≡ ok d'
      → KeepsKeys d d'
  unfolding update_miner
  update_miner-KeepsKeys hash miner d d' e =
      let text = B.hash_to_string hash in
      let (m, changed, committed) =
        >>=_ok (S.update_miner_where miner text d) S.commit (strip_err S _ d' e) in
      let rows = S.rows-commit m d' committed ∙ S.rows-update_miner_where miner text d m changed in
      λ r k. rw rows (has_key-put_miner miner text r (S.rows d) ∙ k)
