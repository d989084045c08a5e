-- ===== src/App/Checks.antt =====
-- The checks and readers of src/app.cpp: `code_ok`, `is_valid_url`, `ok_bulk_url`, `url_decode`,
-- `parse_query` and `admin_ok`.
pub mod Laws
use shrt_cpp.Prelude.{
  ℕ, zero, suc, ◌+◌, ◌*◌, Bool, true, false, not, ◌&&◌, ◌||◌, List, [], ◌∷◌, Option, none, some,
  Bytes, codes, length, is_empty, drop, bytes_eq, starts_with, split_at, Dict, put, ltb, leb, ◌==◌,
  if◌then◌else◌,
}
use shrt_cpp.Codec.Number.{hex_value}

abbrev pub isalnum : ℕ → Bool
isalnum c = (leb b'0' c && leb c b'9') || ((leb b'a' c && leb c b'z') || (leb b'A' c && leb c b'Z'))

unfoldable pub all_bytes : (ℕ → Bool) → Bytes → Bool
all_bytes p [] = true
all_bytes p (c ∷ s) = p c && all_bytes p s

abbrev pub code_byte : ℕ → Bool
code_byte c = isalnum c || (c == b'_' || c == b'-')

unfoldable pub code_ok : Bytes → Bool
code_ok s = not (is_empty s) && (leb (length s) 64 && all_bytes code_byte s)

-- The bytes before the first of "/?#".
unfoldable pub host_of : Bytes → Bytes
host_of [] = []
host_of (c ∷ s) = if c == b'/' || (c == b'?' || c == b'#') then [] else c ∷ host_of s

-- 0x22 is the quote and 0x5c the backslash; the space is below 0x21.
abbrev pub host_byte : ℕ → Bool
host_byte c = not (c == 0x22) && (not (c == 0x5c) && leb 0x21 c)

unfoldable pub host_ok : Bytes → Bool
host_ok host = not (is_empty host) && all_bytes host_byte host

-- The offset behind the scheme.
unfoldable pub scheme : Bytes → Option ℕ
scheme u =
    if starts_with u (codes "http://")
    then some 7
    else if starts_with u (codes "https://")
    then some 8
    else none

unfoldable pub is_valid_url : Bytes → Bool
is_valid_url u =
    leb (length u) 2048
    && elim (scheme u) [ none ↦ false | some pos ↦ host_ok (host_of (drop pos u)) ]

abbrev pub bulk_byte : ℕ → Bool
bulk_byte c = not (c == 0x22) && (not (c == 0x5c) && (not (c == 10) && not (c == 13)))

unfoldable pub ok_bulk_url : Bytes → Bool
ok_bulk_url u =
    ltb 7 (length u)
    && (leb (length u) 2048
        && ((starts_with u (codes "http://") || starts_with u (codes "https://"))
            && all_bytes bulk_byte u))

-- The value of the two digits behind a percent sign; none where they are not two digits.
unfoldable pub percent : ℕ → Bytes → Option ℕ
percent c (a ∷ b ∷ s) =
    if c == b'%'
    then elim (hex_value a) [
      | none ↦ none
      | some hi ↦ elim (hex_value b) [ none ↦ none | some lo ↦ some (hi * 16 + lo) ]
    ]
    else none
percent c _ = none

-- `k` characters are still to be passed over.
unfoldable pub url_decode : ℕ → Bytes → Bytes
url_decode k [] = []
url_decode (suc k) (c ∷ s) = url_decode k s
url_decode zero (c ∷ s) = elim (percent c s) [
  | some v ↦ v ∷ url_decode 2 s
  | none ↦ (if c == b'+' then b' ' else c) ∷ url_decode 0 s
]

-- The parts of the text between the separators.
unfoldable pub pieces : ℕ → Bytes → Bytes × List Bytes
pieces sep [] = ([], [])
pieces sep (c ∷ s) = let (x, xs) = pieces sep s in if c == sep then ([], x ∷ xs) else (c ∷ x, xs)

unfoldable pub add_pair : Bytes → Dict Bytes → Dict Bytes
add_pair kv m = elim (split_at b'=' kv) [
  | none ↦ m
  | some (k, v) ↦ put (url_decode 0 k) (url_decode 0 v) m
]

unfoldable pub add_pairs : List Bytes → Dict Bytes → Dict Bytes
add_pairs [] m = m
add_pairs (kv ∷ kvs) m = add_pairs kvs (add_pair kv m)

unfoldable pub parse_query : Bytes → Dict Bytes
parse_query q = let (x, xs) = pieces b'&' q in add_pairs (x ∷ xs) []

-- `want` is the setting ADMIN_TOKEN.
unfoldable pub admin_ok : Option Bytes → Bytes → Bool
admin_ok none token = false
admin_ok (some want) token = not (is_empty want) && bytes_eq token want
