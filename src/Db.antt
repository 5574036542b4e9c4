-- ===== src/Db.antt =====
-- src/db.rs: the table of headers. The statements and the encodings are those of the crates
-- rusqlite, hex and bitcoin, a parameter with the laws of SQLite that the code relies on. An error
-- leaves the database as it was, since a transaction that is not committed is rolled back.
mod Examples
pub mod Stored
pub mod Written
pub mod Reading
pub mod Keys
use fork_observer.Prelude.{
  ℕ, String, Bool, true, false, List, [], ◌∷◌, ◌++◌, map, ◌≡◌, ◌≢◌, ◌↔◌, ◌==◌, str_eq,
  if◌then◌else◌, All, In,
}
use fork_observer.Prelude.Results.{Result, ok, err, ◌>>=◌, map_err}
use fork_observer.Prelude.Sort.{IsSortedBy}
use fork_observer.Bitcoin.{Bitcoin}
use fork_observer.Errors.{Crates, DbError, rusqlite, decode_hex, bitcoin_deserialize}
use fork_observer.Types.{HeaderInfo, hash_of}

-- A row of the table `headers`, of which the height is a number that SQLite's integers hold
pub record Row : Type 0 where
  pub height : ℕ
  pub network : ℕ
  pub hash : String
  pub header : String
  pub miner : String

-- `PRIMARY KEY (network, hash, header)`
abbrev pub same_key : Row → Row → Bool
same_key r s =
    if r.network == s.network
    then if str_eq r.hash s.hash then str_eq r.header s.header else false
    else false

abbrev pub has_key : Row → List Row → Bool
has_key r [] = false
has_key r (s ∷ rows) = if same_key r s then true else has_key r rows

-- No two rows have the same primary key.
abbrev pub NoTwice : List Row → Type 0
NoTwice [] = Unit
NoTwice (r ∷ rows) = All (λ s. same_key s r ≡ false) rows × NoTwice rows

abbrev pub put_miner : String → String → Row → Row
put_miner miner hash r = if str_eq r.hash hash then record r { miner = miner } else r

pub record Sqlite (B : Bitcoin) (E : Crates) : Type 1 where
  pub Db : Type 0
  pub Bytes : Type 0
  pub rows : Db → List Row
  -- `INSERT OR IGNORE INTO headers`
  pub insert_or_ignore : Row → Db → Result E.RusqliteError Db
  -- `UPDATE headers SET miner = ?1 WHERE hash = ?2`
  pub update_miner_where : String → String → Db → Result E.RusqliteError Db
  -- `SELECT … FROM headers WHERE network = ?1 ORDER BY height ASC`
  pub select_headers : ℕ → Db → Result E.RusqliteError (List Row)
  pub commit : Db → Result E.RusqliteError Db
  pub serialize_hex : B.Header → String
  pub decode_hex : String → Result E.FromHexError Bytes
  pub deserialize : Bytes → Result E.EncodeError B.Header
  pub insert-known :
      (r : Row) (d d' : Db)
      → has_key r (rows d) ≡ true
      → insert_or_ignore r d ≡ ok d'
      → rows d' ≡ rows d
  pub insert-new :
      (r : Row) (d d' : Db)
      → has_key r (rows d) ≡ false
      → insert_or_ignore r d ≡ ok d'
      → rows d' ≡ rows d ++ r ∷ []
  pub rows-update_miner_where :
      (miner hash : String) (d d' : Db)
      → update_miner_where miner hash d ≡ ok d'
      → rows d' ≡ map (put_miner miner hash) (rows d)
  pub rows-commit : (d d' : Db) → commit d ≡ ok d' → rows d' ≡ rows d
  -- A query returns exactly the rows of the network, each row once, in the order of the heights.
  pub in-select :
      (n : ℕ) (d : Db) (rs : List Row)
      → select_headers n d ≡ ok rs
      → (r : Row) → In r rs ↔ (In r (rows d) × (r.network ≡ n))
  pub select-once :
      (n : ℕ) (d : Db) (rs : List Row) → select_headers n d ≡ ok rs → NoTwice (rows d) → NoTwice rs
  pub select-IsSortedBy :
      (n : ℕ) (d : Db) (rs : List Row)
      → select_headers n d ≡ ok rs
      → IsSortedBy (λ (r : Row). r.height) rs
  pub decode-serialize :
      (h : B.Header) → (b : Bytes) × (decode_hex (serialize_hex h) ≡ ok b) × (deserialize b ≡ ok h)

module _ {B : Bitcoin} {E : Crates} (S : Sqlite B E) where
  unfoldable pub row_of : ℕ → HeaderInfo B → Row
  row_of network info = record {
    height = info.height;
    network = network;
    hash = B.hash_to_string (hash_of info);
    header = S.serialize_hex info.header;
    miner = info.miner;
  }

  -- The loop of `write_to_db`
  pub insert_all : ℕ → List (HeaderInfo B) → S.Db → Result E.RusqliteError S.Db
  insert_all network [] d = ok d
  insert_all network (info ∷ infos) d =
      S.insert_or_ignore (row_of network info) d >>= insert_all network infos

  pub write_to_db : List (HeaderInfo B) → ℕ → S.Db → Result (DbError E) S.Db
  write_to_db new_headers network d =
      map_err rusqlite (insert_all network new_headers d >>= S.commit)

  pub update_miner : B.BlockHash → String → S.Db → Result (DbError E) S.Db
  update_miner hash miner d =
      map_err rusqlite (S.update_miner_where miner (B.hash_to_string hash) d >>= S.commit)

  -- `row.get` reads each column as the type that the table has for it, so it does not fail on a row.
  pub read_row : Row → Result (DbError E) (HeaderInfo B)
  read_row r = do
    header_bytes ← map_err decode_hex (S.decode_hex r.header)
    header ← map_err bitcoin_deserialize (S.deserialize header_bytes)
    ok (record { height = r.height; header = header; miner = r.miner })

  -- The loop of `load_header_infos`
  pub read_rows : List Row → List (HeaderInfo B) → Result (DbError E) (List (HeaderInfo B))
  read_rows [] headers = ok headers
  read_rows (r ∷ rs) headers = read_row r >>= λ h. read_rows rs (headers ++ h ∷ [])

  pub load_header_infos : ℕ → S.Db → Result (DbError E) (List (HeaderInfo B))
  load_header_infos network d =
      map_err rusqlite (S.select_headers network d) >>= λ rs. read_rows rs []
