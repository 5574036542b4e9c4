-- ===== src/Prelude/Int.antt =====
-- Signed machine integers: `i64` values are integers, and casts wrap as Rust's `as` does.
use Prim.Native.Nat.{ℕ, ◌+◌, ◌-◌, ◌%◌, ◌^◌}
use mathlib.Core.Bool.{Bool, true, false}
use fork_observer.Prelude.Tests.{if◌then◌else◌, leb, ltb}

-- `negsuc n` is -(n + 1).
pub data ℤ : Type 0 where
  pos : ℕ → ℤ
  negsuc : ℕ → ℤ

-- a - b, as an integer.
abbrev pub sub_ℕ : ℕ → ℕ → ℤ
sub_ℕ a b = if leb b a then pos (a - b) else negsuc (b - a - 1)

infixl 65 ◌+ℤ◌ ◌-ℤ◌
-- `x + k` and `x - k`, at a natural number `k`.
abbrev pub ◌+ℤ◌ : ℤ → ℕ → ℤ
◌+ℤ◌ (pos n) k = pos (n + k)
◌+ℤ◌ (negsuc n) k = sub_ℕ k (n + 1)

abbrev pub ◌-ℤ◌ : ℤ → ℕ → ℤ
◌-ℤ◌ (pos n) k = sub_ℕ n k
◌-ℤ◌ (negsuc n) k = negsuc (n + k)

abbrev pub lt_int : ℤ → ℤ → Bool
lt_int (pos a) (pos b) = ltb a b
lt_int (pos a) (negsuc b) = false
lt_int (negsuc a) (pos b) = true
lt_int (negsuc a) (negsuc b) = ltb b a

-- `std::cmp::max`, which returns its second argument if the two are equal.
abbrev pub max_int : ℤ → ℤ → ℤ
max_int a b = if lt_int b a then a else b

-- `x as u64` and `x as u32`, for a signed `x`: the low bits of the two's complement.
abbrev pub as_unsigned : ℕ → ℤ → ℕ
as_unsigned w (pos n) = n % 2 ^ w
as_unsigned w (negsuc n) = 2 ^ w - 1 - n % 2 ^ w

-- `n as i64`, for an unsigned `n` below `2 ^ 64`.
abbrev pub as_i64 : ℕ → ℤ
as_i64 n = if ltb n (2 ^ 63) then pos n else negsuc (2 ^ 64 - 1 - n)
