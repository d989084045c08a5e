-- ===== src/Prelude/Machine.antt =====
-- Machine integers as bit patterns. An `int64_t` is a number below 2 ^ 64, negative from 2 ^ 63 on;
-- an `int` is a number below 2 ^ 32, negative from 2 ^ 31 on.
use Prim.Native.Nat.{ℕ, ◌+◌, ◌-◌, ◌%◌, ◌^◌, ◌<◌}
use mathlib.Core.Path.{◌≡◌}
use mathlib.Core.Bool.{Bool}
use native.Mathlib.Omega.{arith}
use shrt_cpp.Prelude.Tests.{ltb, leb, if◌then◌else◌}

abbrev pub Int64 : Type 0
Int64 = ℕ

abbrev pub is_neg : Int64 → Bool
is_neg w = leb (2 ^ 63) w

-- Wrapping sum and difference.
abbrev pub add64 : Int64 → Int64 → Int64
add64 a b = (a + b) % 2 ^ 64

abbrev pub sub64 : Int64 → Int64 → Int64
sub64 a b = (a + 2 ^ 64 - b) % 2 ^ 64

-- Signed order: flip the sign bit and compare.
abbrev pub lt64 : Int64 → Int64 → Bool
lt64 a b = ltb ((a + 2 ^ 63) % 2 ^ 64) ((b + 2 ^ 63) % 2 ^ 64)

abbrev pub le64 : Int64 → Int64 → Bool
le64 a b = leb ((a + 2 ^ 63) % 2 ^ 64) ((b + 2 ^ 63) % 2 ^ 64)

abbrev pub is_pos : Int64 → Bool
is_pos w = lt64 0 w

abbrev pub min64 : Int64 → Int64 → Int64
min64 a b = if lt64 b a then b else a

-- `(int)w` of an int64_t, and the sign extension back.
abbrev pub to_int : Int64 → ℕ
to_int w = w % 2 ^ 32

abbrev pub from_int : ℕ → Int64
from_int i = if leb (2 ^ 31) i then i + (2 ^ 64 - 2 ^ 32) else i

pub add64_assoc : (a b c : Int64) → add64 (add64 a b) c ≡ add64 a (add64 b c)
add64_assoc a b c = omega arith

pub to_int-from_int : (i : ℕ) → i < 2 ^ 32 → to_int (from_int i) ≡ i
to_int-from_int i h = ground arith
