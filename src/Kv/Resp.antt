-- ===== src/Kv/Resp.antt =====
-- The wire format of src/kv.cpp: `Resp`, `warg`, the framing of `Kv::pipe` and `read_resp`. The bytes
-- that the connection yields are a list; where it ends early, the reader fails.
pub mod RoundTrip
use shrt_cpp.Prelude.{
  ℕ, zero, suc, ◌+◌, true, false, ◌&&◌, List, [], ◌∷◌, ◌++◌, Option, none, some, Bytes, Int64,
  is_neg, length, take, drop, ltb, ◌==◌, if◌then◌else◌,
}
use shrt_cpp.Codec.Number.{itoa}
use shrt_cpp.Kv.Value.{stoll}

mutual
  pub data Resp : Type 0 where
    text : ℕ → Bytes → Resp
    number : Int64 → Resp
    bulk : Bytes → Resp
    null_bulk : Resp
    array : Resps → Resp
    null_array : Resp

  pub data Resps : Type 0 where
    no_resps : Resps
    resp : Resp → Resps → Resps

abbrev pub crlf : Bytes
crlf = 13 ∷ 10 ∷ []

unfoldable pub warg : Bytes → Bytes
warg a = b'$' ∷ (itoa (length a) ++ (crlf ++ (a ++ crlf)))

unfoldable pub wargs : List Bytes → Bytes
wargs [] = []
wargs (a ∷ args) = warg a ++ wargs args

-- One command as `pipe` frames it.
unfoldable pub frame : List Bytes → Bytes
frame args = b'*' ∷ (itoa (length args) ++ (crlf ++ wargs args))

unfoldable pub frames : List (List Bytes) → Bytes
frames [] = []
frames (args ∷ cmds) = frame args ++ frames cmds

-- Reader::line: what stands before the first line end, and what stands behind it.
unfoldable pub line : Bytes → Option (Bytes × Bytes)
line [] = none
line (c ∷ []) = none
line (c ∷ d ∷ s) = elim (c == 13 && d == 10) [
  | true ↦ some ([], s)
  | false ↦ elim (line (d ∷ s)) [ none ↦ none | some (x, r) ↦ some (c ∷ x, r) ]
]

-- Reader::line and std::stoll, whose exception is a failure here.
unfoldable pub line_number : Bytes → Option (Int64 × Bytes)
line_number s = elim (line s) [
  | none ↦ none
  | some (x, r) ↦ elim (stoll x) [ none ↦ none | some n ↦ some (n, r) ]
]

-- A bulk string of `n` bytes and two more, which are not looked at.
unfoldable pub read_bulk : Int64 → Bytes → Option (Resp × Bytes)
read_bulk n s =
    if is_neg n
    then some (null_bulk, s)
    else if ltb (length s) (n + 2)
    then none
    else some (bulk (take n s), drop (n + 2) s)

unfoldable pub as_text : ℕ → Option (Bytes × Bytes) → Option (Resp × Bytes)
as_text k none = none
as_text k (some (x, r)) = some (text k x, r)

unfoldable pub as_number : Option (Int64 × Bytes) → Option (Resp × Bytes)
as_number none = none
as_number (some (n, r)) = some (number n, r)

unfoldable pub as_bulk : Option (Int64 × Bytes) → Option (Resp × Bytes)
as_bulk none = none
as_bulk (some (n, r)) = read_bulk n r

-- `n` replies in a row, read by `rd`.
unfoldable pub read_each : (Bytes → Option (Resp × Bytes)) → ℕ → Bytes → Option (Resps × Bytes)
read_each rd zero s = some (no_resps, s)
read_each rd (suc n) s = elim (rd s) [
  | none ↦ none
  | some (r, s₁) ↦ elim (read_each rd n s₁) [ none ↦ none | some (rs, s₂) ↦ some (resp r rs, s₂) ]
]

unfoldable pub as_array :
    (Bytes → Option (Resp × Bytes)) → Option (Int64 × Bytes) → Option (Resp × Bytes)
as_array rd none = none
as_array rd (some (n, s)) = elim (is_neg n) [
  | true ↦ some (null_array, s)
  | false ↦ elim (read_each rd n s) [ none ↦ none | some (rs, r) ↦ some (array rs, r) ]
]

-- `read_resp`; arrays nest at most `fuel` deep.
unfoldable pub read_resp : ℕ → Bytes → Option (Resp × Bytes)
read_resp zero s = none
read_resp (suc fuel) [] = none
read_resp (suc fuel) (k ∷ s) =
    if k == b'+'
    then as_text k (line s)
    else if k == b'-'
    then as_text k (line s)
    else if k == b':'
    then as_number (line_number s)
    else if k == b'$'
    then as_bulk (line_number s)
    else elim (k == b'*') [ true ↦ as_array (read_resp fuel) (line_number s) | false ↦ none ]
