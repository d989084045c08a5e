-- ===== src/Store/Listing.antt =====
-- `list` of src/store.cpp: the page of links that match a search text.
pub mod Matches
pub mod Order
use shrt_cpp.Prelude.{
  ℕ, zero, suc, ◌+◌, ◌-◌, ◌%◌, ◌^◌, Bool, ◌||◌, List, [], ◌∷◌, ◌++◌, Bytes, Int64, lt64, Dict,
  is_empty, length, take, drop, contains, ltb, leb, if◌then◌else◌,
}
use shrt_cpp.Store.State.{Link, Entry, Inner, num_shards}

abbrev pub matches : Bytes → Bytes → Entry → Bool
matches q code e = is_empty q || (contains code q || contains e.u q)

abbrev pub to_link : Bytes → Entry → Link
to_link code e = record { code = code; url = e.u; hits = e.h; created_at = e.a; expires_at = e.e }

unfoldable pub shard_links : Bytes → Dict Entry → List Link
shard_links q [] = []
shard_links q ((code, e) ∷ m) =
    if matches q code e then to_link code e ∷ shard_links q m else shard_links q m

-- The loop over `n` shards from the shard `k` on.
unfoldable pub links_from : ℕ → ℕ → Bytes → Inner → List Link
links_from zero k q s = []
links_from (suc n) k q s = shard_links q (s.shards k).entries ++ links_from n (k + 1) q s

-- The sort key, largest first; links with one key stand in some order.
abbrev pub sort_key : Bool → Link → Int64
sort_key by_hits l = if by_hits then l.hits else l.created_at

unfoldable pub insert_link : Bool → Link → List Link → List Link
insert_link by_hits l [] = l ∷ []
insert_link by_hits l (m ∷ ms) =
    if lt64 (sort_key by_hits l) (sort_key by_hits m)
    then m ∷ insert_link by_hits l ms
    else l ∷ m ∷ ms

unfoldable pub sort_links : Bool → List Link → List Link
sort_links by_hits [] = []
sort_links by_hits (l ∷ ls) = insert_link by_hits l (sort_links by_hits ls)

abbrev pub min_size : ℕ → ℕ → ℕ
min_size a b = if ltb b a then b else a

-- The page [offset, offset + limit) of the items; the sum is a size_t.
unfoldable pub page : ℕ → ℕ → List Link → List Link
page limit offset items =
    if leb (length items) offset
    then []
    else take (min_size ((offset + limit) % 2 ^ 64) (length items) - offset) (drop offset items)

-- `by_hits` is the test sort == "hits". The number is the total before the page is cut.
unfoldable pub list : ℕ → ℕ → Bool → Bytes → Inner → List Link × ℕ
list limit offset by_hits q s =
    let items = sort_links by_hits (links_from num_shards 0 q s) in
    (page limit offset items, length items)
