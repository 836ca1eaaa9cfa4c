-- ===== src/Common/Words.antt =====
-- A Go int64, with its wrap-around.
use Prim.Native.Nat.{ℕ, ◌+◌, ◌-◌, ◌*◌, ◌%◌}

-- A Go int64 x stands as x + 2^63, so that the order is the order of ℕ.
abbrev pub Int64 : Type 0
Int64 = ℕ

abbrev pub two_63 : ℕ
two_63 = 9223372036854775808

abbrev pub two_64 : ℕ
two_64 = 18446744073709551616

-- `x - w` with wrap-around, for a w that is not negative.
abbrev pub behind : Int64 → ℕ → Int64
behind x w = (x + two_64 - w) % two_64

-- The conversion `uint64(x)`.
abbrev pub as_uint64 : Int64 → ℕ
as_uint64 x = (x + two_63) % two_64

-- `2 * x`.
abbrev pub double : Int64 → Int64
double x = (2 * x + two_63) % two_64
