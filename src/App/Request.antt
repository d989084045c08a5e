-- ===== src/App/Request.antt =====
-- What the handlers of src/app.cpp read from a request: the fields of a JSON body and the parameters of
-- a list query, with their bounds.
use shrt_cpp.Prelude.{
  ℕ, suc, Bool, false, ◌||◌, List, [], ◌∷◌, Option, none, some, Bytes, codes, Int64, lt64, is_pos,
  min64, Dict, find, bytes_eq, ltb, ◌==◌, if◌then◌else◌,
}
use shrt_cpp.Codec.Number.{strtoll}
use shrt_cpp.App.Json.{J, Js, no_js, js, num, str, arr}
use shrt_cpp.App.Checks.{code_ok, is_valid_url, ok_bulk_url}

abbrev pub max_bulk_urls : ℕ
max_bulk_urls = 10000

abbrev pub max_list_limit : Int64
max_list_limit = 1000

abbrev pub bulk_msg : Bytes
bulk_msg = codes "urls must be 1-10000 valid http(s) urls"

-- The optional alias of a request: none is an alias that is refused.
unfoldable pub read_alias : Option J → Option (Option Bytes)
read_alias (some (str a)) = if code_ok a then some (some a) else none
read_alias _ = some none

unfoldable pub read_ttl : Int64 → Option J → Option Int64
read_ttl cap none = some cap
read_ttl cap (some (num n)) = if n.is_positive then some (min64 n.to_int64 cap) else none
read_ttl cap (some _) = none

unfoldable pub read_url : Option J → Option Bytes
read_url (some (str u)) = if is_valid_url u then some u else none
read_url _ = none

-- The urls of a bulk request: none where one is not a string or is refused.
unfoldable pub read_urls : Js → Option (List Bytes)
read_urls no_js = some []
read_urls (js (str u) us) = elim (read_urls us) [
  | none ↦ none
  | some rest ↦ if ok_bulk_url u then some (u ∷ rest) else none
]
read_urls (js _ us) = none

unfoldable pub count_js : Js → ℕ
count_js no_js = 0
count_js (js v us) = suc (count_js us)

unfoldable pub bulk_urls : Option J → Option (List Bytes)
bulk_urls (some (arr us)) =
    if count_js us == 0 || ltb max_bulk_urls (count_js us) then none else read_urls us
bulk_urls _ = none

unfoldable pub bulk_cost : Option J → ℕ
bulk_cost (some (arr us)) = if ltb (count_js us) 1 then 1 else count_js us
bulk_cost _ = 1

-- A parameter of the query: as a number, as a sort order, as a text.
unfoldable pub param_number : Option Bytes → Int64
param_number none = 0
param_number (some v) = strtoll v

unfoldable pub param_is_hits : Option Bytes → Bool
param_is_hits none = false
param_is_hits (some v) = bytes_eq v (codes "hits")

unfoldable pub param_text : Option Bytes → Bytes
param_text none = []
param_text (some v) = v

-- The query of a list request: the limit, between 1 and the largest, and the offset.
unfoldable pub list_limit : Dict Bytes → Int64
list_limit p =
    let n = param_number (find (codes "limit") p) in
    let limit = if n == 0 then 50 else n in
    if lt64 limit 1 then 1 else if lt64 max_list_limit limit then max_list_limit else limit

unfoldable pub list_offset : Dict Bytes → Int64
list_offset p = let n = param_number (find (codes "offset") p) in if is_pos n then n else 0
