-- ===== src/Kv/Value.antt =====
-- `enc` and `dec` of src/store_kv.cpp (src/store_rocks.cpp has the same): the stored form of a link.
pub mod RoundTrip
use shrt_cpp.Prelude.{
  ◌-◌, ◌^◌, Bool, false, ◌&&◌, [], ◌∷◌, ◌++◌, Option, none, some, Bytes, codes, Int64, starts_with,
  split_at, drop, ltb, leb, ◌==◌, if◌then◌else◌,
}
use shrt_cpp.Codec.Number.{itoa, decimal, skip_space}

-- std::stoll throws where no digit follows the sign, and where the value is out of range.
unfoldable pub starts_with_digit : Bytes → Bool
starts_with_digit [] = false
starts_with_digit (c ∷ s) = leb b'0' c && leb c b'9'

unfoldable pub positive : Bytes → Option Int64
positive s = if starts_with_digit s && ltb (decimal 0 s) (2 ^ 63) then some (decimal 0 s) else none

unfoldable pub negative : Bytes → Option Int64
negative s =
    if starts_with_digit s && leb (decimal 0 s) (2 ^ 63)
    then some (if decimal 0 s == 0 then 0 else 2 ^ 64 - decimal 0 s)
    else none

unfoldable pub stoll_signed : Bytes → Option Int64
stoll_signed [] = none
stoll_signed (c ∷ s) =
    if c == b'-' then negative s else if c == b'+' then positive s else positive (c ∷ s)

unfoldable pub stoll : Bytes → Option Int64
stoll s = stoll_signed (skip_space s)

-- A decoded value: expiry, creation time and url.
pub record Value : Type 0 where
  pub e : Int64
  pub c : Int64
  pub u : Bytes

unfoldable pub enc : Int64 → Int64 → Bytes → Bytes
enc e c u = codes "v1|" ++ (itoa e ++ (b'|' ∷ (itoa c ++ (b'|' ∷ u))))

-- Behind the expiry: the creation time and the url, or the url alone.
unfoldable pub dec_rest : Int64 → Bytes → Option Value
dec_rest e rest = elim (split_at b'|' rest) [
  | none ↦ some (record { e = e; c = 0; u = rest })
  | some (x, u) ↦ elim (stoll x) [ none ↦ none | some c ↦ some (record { e = e; c = c; u = u }) ]
]

unfoldable pub dec_fields : Bytes → Option Value
dec_fields sv = elim (split_at b'|' sv) [
  | none ↦ none
  | some (x, rest) ↦ elim (stoll x) [ none ↦ none | some e ↦ dec_rest e rest ]
]

unfoldable pub dec : Bytes → Option Value
dec v = dec_fields (if starts_with v (codes "v1|") then drop 3 v else v)
