-- ===== src/Db/Examples.antt =====
-- A small table of headers, and the theorems on the database at it.
use fork_observer.Prelude.{ℕ, ◌≡◌, ◌↔◌, refl, List, [], ◌∷◌, In}
use fork_observer.Prelude.Results.{ok}
use fork_observer.Prelude.Sort.{IsSortedBy, sort_by_key}
use fork_observer.Types.{HeaderInfo}
use fork_observer.Samples.{btc, header}
use fork_observer.Samples.Table.{list_table}
use fork_observer.Tree.Load.{DistinctHeaders}
use fork_observer.Db.{Row, row_of, insert_all, write_to_db, update_miner, load_header_infos}
use fork_observer.Db.Reading.{NoCollisions, load_header_infos-Loaded}
use fork_observer.Db.Stored.{IsStored, write_to_db-IsStored}
use fork_observer.Db.Written.{IsWritten, write_to_db-IsWritten}

abbrev row : ℕ → HeaderInfo btc → Row
row n h = record {
  height = h.height;
  network = n;
  hash = h.header;
  header = h.header;
  miner = h.miner;
}

-- The blocks are written out of order, one of them twice.
abbrev blocks : List (HeaderInfo btc)
blocks = header 2 "ba" ∷ header 1 "a" ∷ header 2 "ba" ∷ []

abbrev table : List Row
table = row 1 (header 2 "ba") ∷ row 1 (header 1 "a") ∷ []

abbrev mined : List Row
mined = row 1 (header 2 "ba") ∷ row 1 (record (header 1 "a") { miner = "pool" }) ∷ []

written : write_to_db list_table blocks 1 [] ≡ ok table
unfolding write_to_db insert_all row_of
written = refl

empty-IsStored : IsStored list_table []
empty-IsStored = record { readable = tt; once = tt }

write_to_db-IsStored_example : IsStored list_table table
write_to_db-IsStored_example =
    write_to_db-IsStored list_table blocks 1 [] table written empty-IsStored

write_to_db-IsWritten_example : IsWritten list_table 1 blocks [] table
write_to_db-IsWritten_example = write_to_db-IsWritten list_table blocks 1 [] table written

mined_a : update_miner list_table "a" "pool" table ≡ ok mined
unfolding update_miner
mined_a = refl

no_collisions : NoCollisions btc
no_collisions g h e = e

load_header_infos-Loaded_example :
    (hs : List (HeaderInfo btc)) × (load_header_infos list_table 1 table ≡ ok hs)
    × DistinctHeaders hs
    × IsSortedBy (λ (h : HeaderInfo btc). h.height) hs
    × ((h : HeaderInfo btc) → In h hs ↔ In (row_of list_table 1 h) table)
unfolding sort_by_key
load_header_infos-Loaded_example =
    load_header_infos-Loaded list_table 1 table (row 1 (header 1 "a") ∷ row 1 (header 2 "ba") ∷ [])
      no_collisions write_to_db-IsStored_example refl
