-- ===== src/App/Json.antt =====
-- `J`, `Jp` and `jparse` of src/app.cpp: the reader of request bodies.
pub mod Sizes
pub mod Fuel
use shrt_cpp.Prelude.{
  ℕ, zero, suc, ◌+◌, Bool, true, false, not, ◌&&◌, ◌||◌, [], ◌∷◌, ◌++◌, Option, none, some, Bytes,
  codes, Int64, length, drop, is_empty, bytes_eq, starts_with, leb, ◌==◌, if◌then◌else◌,
}

-- What the code asks of a double: whether it is above 0, and its conversion to an int64_t.
pub record Num : Type 0 where
  pub is_positive : Bool
  pub to_int64 : Int64

-- strtod: the number, and the text from its end on; none where no number stands.
abbrev pub Strtod : Type 0
Strtod = Bytes → Option (Num × Bytes)

mutual
  pub data J : Type 0 where
    nul : J
    num : Num → J
    str : Bytes → J
    arr : Js → J
    obj : Members → J
    bool : Bool → J

  pub data Js : Type 0 where
    no_js : Js
    js : J → Js → Js

  pub data Members : Type 0 where
    no_members : Members
    member : Bytes → J → Members → Members

unfoldable pub find_member : Bytes → Members → Option J
find_member k no_members = none
find_member k (member key v ms) = if bytes_eq key k then some v else find_member k ms

-- J::find.
unfoldable pub find_key : Bytes → J → Option J
find_key k (obj ms) = find_member k ms
find_key k _ = none

-- push_back and emplace_back.
unfoldable pub push_js : Js → J → Js
push_js no_js v = js v no_js
push_js (js u us) v = js u (push_js us v)

unfoldable pub push_member : Members → Bytes → J → Members
push_member no_members k v = member k v no_members
push_member (member j u ms) k v = member j u (push_member ms k v)

unfoldable pub ws : Bytes → Bytes
ws [] = []
ws (c ∷ s) = if c == b' ' || (c == 9 || (c == 10 || c == 13)) then ws s else c ∷ s

-- Where the scan of a string stands: in the text, behind a backslash, or in characters to be left out.
pub data Scan : Type 0 where
  plain escaped : Scan
  skip : ℕ → Scan

unfoldable pub after_escaped : ℕ → Bytes → Scan
after_escaped c s = if c == b'u' && leb 4 (length s) then Scan.skip 4 else Scan.plain

unfoldable pub escaped_out : ℕ → Bytes → Bytes
escaped_out c s =
    if c == b'n'
    then 10 ∷ []
    else if c == b'r'
    then 13 ∷ []
    else if c == b't'
    then 9 ∷ []
    else if c == b'u'
    then (if leb 4 (length s) then b'?' ∷ [] else [])
    else c ∷ []

unfoldable pub out_before : Bytes → Option (Bytes × Bytes) → Option (Bytes × Bytes)
out_before xs none = none
out_before xs (some (out, rest)) = some (xs ++ out, rest)

-- Behind the opening quote: the string, and the text behind its closing quote.
unfoldable pub str_body : Scan → Bytes → Option (Bytes × Bytes)
str_body m [] = none
str_body (Scan.skip (suc k)) (c ∷ s) = str_body (if k == 0 then Scan.plain else Scan.skip k) s
str_body (Scan.skip zero) (c ∷ s) = str_body Scan.plain s
str_body Scan.escaped (c ∷ s) = out_before (escaped_out c s) (str_body (after_escaped c s) s)
str_body Scan.plain (c ∷ s) = elim (c == b'"') [
  | true ↦ some ([], s)
  | false ↦ elim (c == b'\\' && not (is_empty s)) [
    | true ↦ str_body Scan.escaped s
    | false ↦ out_before (c ∷ []) (str_body Scan.plain s)
  ]
]

unfoldable pub read_str : Bytes → Option (Bytes × Bytes)
read_str [] = none
read_str (c ∷ s) = if c == b'"' then str_body Scan.plain s else none

-- The result of a parse. A failure ends the whole parse, whatever was read.
pub data Got : Type 0 where
  out_of_fuel failed : Got
  got : J → Bytes → Got

-- `val`, and the loops of `arr` and `obj` with what they have collected.
pub data Mode : Type 0 where
  value : Mode
  items : Js → Mode
  members : Members → Mode

abbrev pub Parser : Type 0
Parser = Mode → Bytes → Got

unfoldable pub open_arr : Parser → Bytes → Got
open_arr rec_ [] = rec_ (Mode.items no_js) []
open_arr rec_ (c ∷ s) = if c == b']' then got (arr no_js) s else rec_ (Mode.items no_js) (c ∷ s)

unfoldable pub open_obj : Parser → Bytes → Got
open_obj rec_ [] = rec_ (Mode.members no_members) []
open_obj rec_ (c ∷ s) =
    if c == b'}' then got (obj no_members) s else rec_ (Mode.members no_members) (c ∷ s)

unfoldable pub as_num : Option (Num × Bytes) → Got
as_num none = failed
as_num (some (n, s)) = got (num n) s

unfoldable pub as_str : Option (Bytes × Bytes) → Got
as_str none = failed
as_str (some (x, s)) = got (str x) s

unfoldable pub lit : Bytes → J → Bytes → Got
lit word v s = if starts_with s word then got v (drop (length word) s) else failed

unfoldable pub read_value : Strtod → Parser → Bytes → Got
read_value strtod rec_ [] = failed
read_value strtod rec_ (c ∷ s) =
    if c == b'{'
    then open_obj rec_ (ws s)
    else if c == b'['
    then open_arr rec_ (ws s)
    else if c == b'"'
    then as_str (read_str (c ∷ s))
    else if c == b't'
    then lit (codes "true") (bool true) (c ∷ s)
    else if c == b'f'
    then lit (codes "false") (bool false) (c ∷ s)
    else if c == b'n'
    then lit (codes "null") nul (c ∷ s)
    else as_num (strtod (c ∷ s))

unfoldable pub after_item : Parser → Js → Bytes → Got
after_item rec_ acc [] = failed
after_item rec_ acc (c ∷ s) =
    if c == b',' then rec_ (Mode.items acc) s else if c == b']' then got (arr acc) s else failed

unfoldable pub add_item : Parser → Js → Got → Got
add_item rec_ acc out_of_fuel = out_of_fuel
add_item rec_ acc failed = failed
add_item rec_ acc (got v s) = after_item rec_ (push_js acc v) (ws s)

unfoldable pub after_member : Parser → Members → Bytes → Got
after_member rec_ acc [] = failed
after_member rec_ acc (c ∷ s) =
    if c == b',' then rec_ (Mode.members acc) s else if c == b'}' then got (obj acc) s else failed

unfoldable pub add_member : Parser → Members → Bytes → Got → Got
add_member rec_ acc k out_of_fuel = out_of_fuel
add_member rec_ acc k failed = failed
add_member rec_ acc k (got v s) = after_member rec_ (push_member acc k v) (ws s)

unfoldable pub after_key : Parser → Members → Bytes → Bytes → Got
after_key rec_ acc k [] = failed
after_key rec_ acc k (c ∷ s) =
    if c == b':' then add_member rec_ acc k (rec_ Mode.value s) else failed

unfoldable pub read_member : Parser → Members → Option (Bytes × Bytes) → Got
read_member rec_ acc none = failed
read_member rec_ acc (some (k, s)) = after_key rec_ acc k (ws s)

-- One round of a mode, with `rec_` for the calls.
unfoldable pub parse_step : Strtod → Parser → Mode → Bytes → Got
parse_step strtod rec_ Mode.value s = read_value strtod rec_ (ws s)
parse_step strtod rec_ (Mode.items acc) s = add_item rec_ acc (rec_ Mode.value s)
parse_step strtod rec_ (Mode.members acc) s = read_member rec_ acc (read_str (ws s))

unfoldable pub parse : Strtod → ℕ → Mode → Bytes → Got
parse strtod zero m s = out_of_fuel
parse strtod (suc fuel) m s = parse_step strtod (parse strtod fuel) m s

-- The fuel that a text of this length can need.
abbrev pub parse_fuel : Bytes → ℕ
parse_fuel s = length s + length s + 2

-- The whole text has to be one value.
unfoldable pub whole : Got → Option J
whole out_of_fuel = none
whole failed = none
whole (got v s) = if is_empty (ws s) then some v else none

unfoldable pub jparse : Strtod → Bytes → Option J
jparse strtod s = whole (parse strtod (parse_fuel s) Mode.value s)
