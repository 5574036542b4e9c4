-- ===== src/Prelude/Text.antt =====
-- Texts: the decimal text of a number, and the length of a text in bytes.
use Prim.Native.Char.{len_utf8}
use Prim.Native.Nat.{ℕ, zero, suc, ◌+◌, ◌/◌, ◌%◌}
use Prim.Native.String.{String, ◌++◌}
use mathlib.Core.List.{[], ◌∷◌}
use mathlib.Core.Option.{none, some}
use fork_observer.Prelude.Int.{ℤ, pos, negsuc}
use fork_observer.Prelude.Lists.{get_elem?}
use fork_observer.Prelude.Tests.{ltb, if◌then◌else◌}

digit : ℕ → String
digit n =
    elim (get_elem? {A = String} ("0" ∷ "1" ∷ "2" ∷ "3" ∷ "4" ∷ "5" ∷ "6" ∷ "7" ∷ "8" ∷ "9" ∷ [])
      n) [ none ↦ "" | some d ↦ d ]

-- The last `n` digits at most.
digits : ℕ → ℕ → String
unfolding digit
digits zero n = ""
digits (suc fuel) n =
    let rest = digits fuel (n / 10) in if ltb n 10 then digit n else rest ++ digit (n % 10)

-- `to_string` of an unsigned number of up to 64 bits, which has at most 20 digits
unfoldable pub decimal : ℕ → String
unfolding digits
decimal n = digits 20 n

-- `format!("{}:{}", host, port)`
unfoldable pub host_port : String → ℕ → String
host_port host port = host ++ ":" ++ decimal port

-- `to_string` of a signed number
unfoldable pub signed_decimal : ℤ → String
signed_decimal (pos n) = decimal n
signed_decimal (negsuc n) = "-" ++ decimal (n + 1)

-- `len` of a text: the bytes of its UTF-8
unfoldable pub byte_len : String → ℕ
byte_len String.[] = 0
byte_len (String.◌∷◌ c s) = len_utf8 c + byte_len s
