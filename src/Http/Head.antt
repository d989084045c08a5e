-- ===== src/Http/Head.antt =====
-- The searches and trims on a request head that `parse_req` and `client_ip` of src/server.cpp use.
pub mod Search
use shrt_cpp.Prelude.{
  ℕ, Bool, true, false, ◌&&◌, ◌||◌, List, [], ◌∷◌, Option, none, some, Bytes, length, drop,
  starts_with, ◌==◌, if◌then◌else◌,
}

abbrev pub crlf : Bytes
crlf = 13 ∷ 10 ∷ []

abbrev pub cons_before : ℕ → Option (Bytes × Bytes) → Option (Bytes × Bytes)
cons_before c none = none
cons_before c (some (x, y)) = some (c ∷ x, y)

-- `s.find(q)`: what stands before the first `q`, and what stands behind it.
unfoldable pub split_seq : Bytes → Bytes → Option (Bytes × Bytes)
split_seq q [] = elim (starts_with [] q) [ true ↦ some ([], []) | false ↦ none ]
split_seq q (c ∷ s) = elim (starts_with (c ∷ s) q) [
  | true ↦ some ([], drop (length q) (c ∷ s))
  | false ↦ cons_before c (split_seq q s)
]

-- The lines of a text, the last one without a line end.
unfoldable pub crlf_lines : Bytes → Bytes × List Bytes
crlf_lines [] = ([], [])
crlf_lines (c ∷ []) = (c ∷ [], [])
crlf_lines (c ∷ d ∷ s) = elim (c == 13 && d == 10) [
  | true ↦ (let (x, xs) = crlf_lines s in ([], x ∷ xs))
  | false ↦ (let (x, xs) = crlf_lines (d ∷ s) in (c ∷ x, xs))
]

unfoldable pub drop_front : (ℕ → Bool) → Bytes → Bytes
drop_front p [] = []
drop_front p (c ∷ s) = if p c then drop_front p s else c ∷ s

-- Keeps a byte where a byte behind it is kept.
unfoldable pub drop_back : (ℕ → Bool) → Bytes → Bytes
drop_back p [] = []
drop_back p (c ∷ s) = elim (drop_back p s) [ [] ↦ if p c then [] else c ∷ [] | d ∷ t ↦ c ∷ d ∷ t ]

unfoldable pub trim : (ℕ → Bool) → Bytes → Bytes
trim p s = drop_back p (drop_front p s)

abbrev pub is_blank : ℕ → Bool
is_blank c = c == b' ' || c == 9
