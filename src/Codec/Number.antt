-- ===== src/Codec/Number.antt =====
-- `itoa` of src/common.hpp, and the C library's `strtoll` and `strtoul` as the code uses them.
pub mod RoundTrip
use shrt_cpp.Prelude.{
  ℕ, zero, suc, ◌+◌, ◌-◌, ◌*◌, ◌/◌, ◌%◌, ◌^◌, Bool, true, false, ◌&&◌, ◌||◌, [], ◌∷◌, Option, none,
  some, ◌≡◌, refl, Bytes, codes, Int64, is_neg, ltb, leb, ◌==◌, if◌then◌else◌,
}

-- The `do … while (v)` of itoa; the fuel is the room left in `tmp`.
unfoldable pub digits : ℕ → ℕ → Bytes → Bytes
digits zero v out = out
digits (suc room) v out =
    let rest = digits room (v / 10) ((b'0' + v % 10) ∷ out) in
    if v / 10 == 0 then (b'0' + v % 10) ∷ out else rest

-- |n|, computed as the code does: (uint64_t)(-(n + 1)) + 1.
unfoldable pub magnitude : Int64 → ℕ
magnitude n = if is_neg n then 2 ^ 64 - (n + 1) + 1 else n

unfoldable pub itoa : Int64 → Bytes
itoa n = if is_neg n then b'-' ∷ digits 24 (magnitude n) [] else digits 24 (magnitude n) []

-- 10 ^ n.
abbrev pub ten_pow : ℕ → ℕ
ten_pow zero = 1
ten_pow (suc n) = 10 * ten_pow n

-- isspace in the "C" locale.
abbrev pub is_space : ℕ → Bool
is_space c = c == 32 || (leb 9 c && leb c 13)

unfoldable pub skip_space : Bytes → Bytes
skip_space [] = []
skip_space (c ∷ s) = if is_space c then skip_space s else c ∷ s

-- The value of the leading decimal digits, read behind `acc`.
unfoldable pub decimal : ℕ → Bytes → ℕ
decimal acc [] = acc
decimal acc (c ∷ s) =
    let rest = decimal (acc * 10 + (c - b'0')) s in if leb b'0' c && leb c b'9' then rest else acc

-- strtoll saturates at LLONG_MAX and LLONG_MIN.
unfoldable pub saturate : Bool → ℕ → Int64
saturate false v = if ltb v (2 ^ 63) then v else 2 ^ 63 - 1
saturate true v = if leb v (2 ^ 63) then (2 ^ 64 - v) % 2 ^ 64 else 2 ^ 63

unfoldable pub signed : Bytes → Int64
signed [] = 0
signed (c ∷ s) =
    if c == b'-'
    then saturate true (decimal 0 s)
    else if c == b'+'
    then saturate false (decimal 0 s)
    else saturate false (decimal 0 (c ∷ s))

unfoldable pub strtoll : Bytes → Int64
strtoll s = signed (skip_space s)

-- One hexadecimal digit.
unfoldable pub hex_value : ℕ → Option ℕ
hex_value c =
    if leb b'0' c && leb c b'9'
    then some (c - b'0')
    else if leb b'a' c && leb c b'f'
    then some (c - b'a' + 10)
    else if leb b'A' c && leb c b'F'
    then some (c - b'A' + 10)
    else none

unfoldable pub hexadecimal : ℕ → Bytes → ℕ
hexadecimal acc [] = acc
hexadecimal acc (c ∷ s) = elim (hex_value c) [ none ↦ acc | some d ↦ hexadecimal (acc * 16 + d) s ]

-- The optional `0x` in front of a hexadecimal number; it counts only before a digit.
unfoldable pub hex_body : Bytes → ℕ
hex_body (a ∷ x ∷ d ∷ s) =
    if a == b'0' && (x == b'x' || x == b'X')
    then elim (hex_value d) [ none ↦ 0 | some _ ↦ hexadecimal 0 (d ∷ s) ]
    else hexadecimal 0 (a ∷ x ∷ d ∷ s)
hex_body s = hexadecimal 0 s

-- strtoul(s, nullptr, 16) truncated to 32 bits, on at most four characters.
unfoldable pub hex_signed : Bytes → ℕ
hex_signed [] = 0
hex_signed (c ∷ r) =
    if c == b'-'
    then (2 ^ 32 - hex_body r) % 2 ^ 32
    else if c == b'+'
    then hex_body r
    else hex_body (c ∷ r)

unfoldable pub strtoul16 : Bytes → ℕ
strtoul16 s = hex_signed (skip_space s)

itoa_min : itoa (2 ^ 63) ≡ codes "-9223372036854775808"
unfolding itoa digits magnitude
itoa_min = refl

strtoll_spaces : strtoll (codes "  -42x") ≡ 2 ^ 64 - 42
unfolding strtoll signed saturate decimal skip_space
strtoll_spaces = refl

strtoul_prefix : strtoul16 (codes "0x1f") ≡ 31
unfolding strtoul16 hex_signed hex_body hexadecimal hex_value skip_space
strtoul_prefix = refl
