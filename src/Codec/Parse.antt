-- ===== src/Codec/Parse.antt =====
-- `parse_op` of src/codec.cpp. The scan position is the rest of the line that is still unread.
pub mod Fields
pub mod Fuel
pub mod RoundTrip
use shrt_cpp.Prelude.{
  ℕ, zero, suc, Bool, true, false, not, ◌&&◌, ◌||◌, [], ◌∷◌, Option, none, some, ◌==◌, Bytes, codes,
  bytes_eq, is_empty, length, split_at, if◌then◌else◌,
}
use shrt_cpp.Codec.Number.{strtoll}
use shrt_cpp.Codec.Escape.{unescape}
use shrt_cpp.Codec.Line.{Op}

abbrev pub no_op : Op
no_op = record { c = []; u = []; h = []; x = []; a = 0; e = 0; i = 0; n = 0; d = 0; has_e = false }

-- A string value: its raw bytes, whether it holds an escape, and what stands behind its closing
-- quote. The Boolean says that the byte before was a backslash, so this one is passed over.
pub record Raw : Type 0 where
  pub val : Bytes
  pub escapes : Bool
  pub rest : Bytes

unfoldable pub scan_string : Bytes → Bool → Raw
scan_string [] skip = record { val = []; escapes = false; rest = [] }
scan_string (b ∷ s) skip =
    let r = scan_string s (not skip && b == b'\\') in
    if not skip && b == b'"'
    then record { val = []; escapes = false; rest = s }
    else record { val = b ∷ r.val; escapes = (not skip && b == b'\\') || r.escapes; rest = r.rest }

-- A number value ends before `,` or `}`.
unfoldable pub scan_number : Bytes → Bytes × Bytes
scan_number [] = ([], [])
scan_number (b ∷ s) =
    if b == b',' || b == b'}' then ([], b ∷ s) else let (x, y) = scan_number s in (b ∷ x, y)

abbrev pub is_blank : ℕ → Bool
is_blank b = b == b' ' || b == b'\t'

-- Blanks in front of a value are passed over, behind a number cut off.
unfoldable pub skip_blanks : Bytes → Bytes
skip_blanks [] = []
skip_blanks (b ∷ s) = if is_blank b then skip_blanks s else b ∷ s

unfoldable pub trim_end : Bytes → Bytes
trim_end [] = []
trim_end (b ∷ s) = let r = trim_end s in if is_empty r && is_blank b then [] else b ∷ r

-- The two switches on the key, a byte, or 0 for the empty key.
unfoldable pub store_string : ℕ → Bytes → Op → Op
store_string k s o =
    if k == b'c'
    then record o { c = s }
    else if k == b'u'
    then record o { u = s }
    else if k == b'h'
    then record o { h = s }
    else if k == b'x'
    then record o { x = s }
    else o

unfoldable pub store_number : ℕ → Bytes → Op → Op
store_number k num o =
    let null = bytes_eq num (codes "null") in
    let v = if null then 0 else strtoll num in
    if k == b'a'
    then record o { a = v }
    else if k == b'e'
    then (if null then o else record o { e = v; has_e = true })
    else if k == b'i'
    then record o { i = v }
    else if k == b'n'
    then record o { n = v }
    else if k == b'd'
    then record o { d = v }
    else o

unfoldable pub first_byte : Bytes → ℕ
first_byte [] = 0
first_byte (b ∷ s) = b

-- The value that starts at the first byte: the op with it stored, and what is unread.
unfoldable pub read_value : ℕ → Bytes → Op → Option (Op × Bytes)
read_value k [] o = none
read_value k (b ∷ s) o =
    if b == b'"'
    then (let r = scan_string s false in
        some (store_string k (if r.escapes then unescape r.val else r.val) o, r.rest))
    else let (num, rest) = scan_number (b ∷ s) in some (store_number k (trim_end num) o, rest)

-- One round of the outer loop behind the opening quote of a key; `none` is `return false`.
unfoldable pub read_field : Bytes → Op → Option (Op × Bytes)
read_field s o = elim (split_at b'"' s) [
  | none ↦ none
  | some (key, s₁) ↦ elim (split_at b':' s₁) [
    | none ↦ none
    | some (_, s₂) ↦ read_value (first_byte key) (skip_blanks s₂) o
  ]
]

-- The outer loop. Each round reads at least one byte, so the length of the line is fuel enough.
unfoldable pub read_fields : ℕ → Bytes → Op → Option Op
read_fields zero s o = some o
read_fields (suc fuel) s o = elim (split_at b'"' s) [
  | none ↦ some o
  | some (_, s₁) ↦ elim (read_field s₁ o) [ none ↦ none | some (o', s₂) ↦ read_fields fuel s₂ o' ]
]

abbrev pub has_subject : Op → Bool
has_subject o = not (is_empty o.c) || (not (is_empty o.h) || not (is_empty o.x))

-- The op, where the code returns true.
unfoldable pub parse_op : Bytes → Option Op
parse_op line = elim (read_fields (length line) line no_op) [
  | none ↦ none
  | some o ↦ if has_subject o then some o else none
]
