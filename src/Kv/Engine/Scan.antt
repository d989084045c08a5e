-- ===== src/Kv/Engine/Scan.antt =====
-- The scans of src/kv.cpp, and `list`, `empty` and `sweep_expired` of src/store_kv.cpp that run over them.
use shrt_cpp.Prelude.{
  ℕ, zero, suc, ◌+◌, ◌-◌, ◌%◌, ◌^◌, Bool, true, false, not, ◌&&◌, ◌||◌, List, [], ◌∷◌, ◌++◌, Option,
  none, some, Bytes, codes, Int64, Dict, find, put, bytes_eq, starts_with, is_empty, length, take,
  drop, contains, le64, ◌==◌, if◌then◌else◌,
}
use shrt_cpp.Store.State.{Link}
use shrt_cpp.Store.Listing.{sort_links, min_size}
use shrt_cpp.Kv.Value.{dec, stoll}
use shrt_cpp.Kv.Resp.{Resp, Resps, array, no_resps, resp}
use shrt_cpp.Kv.Client.{hkey, is_null, payload, cmd, sent}
use shrt_cpp.Kv.Engine.{KvInner, live}

abbrev scan_from : Bytes → Bytes → List Bytes
scan_from cursor pat =
    codes "SCAN" ∷ cursor ∷ codes "MATCH" ∷ pat ∷ codes "COUNT" ∷ codes "500" ∷ []

abbrev hscan_from : Bytes → Bytes → List Bytes
hscan_from k cursor = codes "HSCAN" ∷ k ∷ cursor ∷ codes "COUNT" ∷ codes "1000" ∷ []

unfoldable pub texts : Resps → List Bytes
texts no_resps = []
texts (resp r rs) = payload r ∷ texts rs

unfoldable pub items : Resp → Resps
items (array rs) = rs
items _ = no_resps

-- The cursor and the items of a reply with two elements.
unfoldable pub page_of : Resp → Option (Bytes × List Bytes)
page_of (array (resp c (resp a no_resps))) = some (payload c, texts (items a))
page_of _ = none

unfoldable pub pairs : List Bytes → List (Bytes × Bytes)
pairs (f ∷ v ∷ rest) = (f, v) ∷ pairs rest
pairs _ = []

-- `f.rfind("h:", 0) == 0`
abbrev is_hits_field : Bytes → Bool
is_hits_field f = starts_with f (codes "h:")

-- A link that is listed: decoded, live, and with the search text in its code or its url.
unfoldable pub listed : Int64 → Bytes → Bytes → Bytes → Int64 → Option Link
listed now q code v hits = elim (live now (some v)) [
  | none ↦ none
  | some x ↦
      if is_empty q || (contains code q || contains x.u q)
      then some (record { code = code; url = x.u; hits = hits; created_at = x.c; expires_at = x.e })
      else none
]

unfoldable pub add_link : Option Link → List Link → List Link
add_link none ls = ls
add_link (some l) ls = l ∷ ls

-- The fields of the buckets: the hits of the codes, and the links, without their hits.
unfoldable pub field_hits : List (Bytes × Bytes) → Dict Int64 → Dict Int64
field_hits [] m = m
field_hits ((f, v) ∷ fs) m =
    field_hits fs
      (if is_hits_field f then elim (stoll v) [ none ↦ m | some n ↦ put (drop 2 f) n m ] else m)

unfoldable pub field_links : Int64 → Bytes → List (Bytes × Bytes) → List Link
field_links now q [] = []
field_links now q ((f, v) ∷ fs) =
    let rest = field_links now q fs in
    if is_hits_field f then rest else add_link (listed now q f v 0) rest

unfoldable pub with_hits : Dict Int64 → List Link → List Link
with_hits m [] = []
with_hits m (l ∷ ls) =
    elim (find l.code m) [ none ↦ l | some n ↦ record l { hits = n } ] ∷ with_hits m ls

-- Two commands for every key, and the links of their replies, of which there may be none.
unfoldable pub get_both : List Bytes → List (List Bytes)
get_both [] = []
get_both (k ∷ ks) = (codes "GET" ∷ k ∷ []) ∷ (codes "GET" ∷ hkey (drop 2 k) ∷ []) ∷ get_both ks

unfoldable pub hits_text : Resp → Int64
hits_text r = if is_null r then 0 else elim (stoll (payload r)) [ none ↦ 0 | some n ↦ n ]

unfoldable pub key_link : Int64 → Bytes → Bytes → Resp → Int64 → Option Link
key_link now q k r hits = if is_null r then none else listed now q (drop 2 k) (payload r) hits

unfoldable pub key_links : Int64 → Bytes → List Bytes → List Resp → List Link
key_links now q (k ∷ ks) (r ∷ h ∷ rs) =
    add_link (key_link now q k r (hits_text h)) (key_links now q ks rs)
key_links now q (k ∷ ks) (r ∷ []) = add_link (key_link now q k r 0) []
key_links now q _ _ = []

-- The page of the items, which are sorted by their hits alone.
unfoldable pub page_of_items : ℕ → ℕ → Bool → List Link → List Link × ℕ
page_of_items limit offset by_hits ls =
    let sorted = if by_hits then sort_links true ls else ls in
    let total = length sorted in
    let from = min_size offset total in
    (take (min_size total ((from + limit) % 2 ^ 64) - from) (drop from sorted), total)

-- The fields of a bucket that are past their expiry, but for those of hits.
unfoldable pub dead_fields : Int64 → List (Bytes × Bytes) → List Bytes
dead_fields now [] = []
dead_fields now ((f, v) ∷ fs) =
    let rest = dead_fields now fs in
    if is_hits_field f then rest else elim (dec v) [
      | none ↦ rest
      | some x ↦ if not (x.e == 0) && le64 x.e now then f ∷ rest else rest
    ]

unfoldable pub deletions : Bytes → List Bytes → List (List Bytes)
deletions b [] = []
deletions b (f ∷ fs) = (codes "HDEL" ∷ b ∷ f ∷ []) ∷ deletions b fs

unfoldable pub joined : List (Bytes × List (Bytes × Bytes)) → List (Bytes × Bytes)
joined [] = []
joined ((b, fs) ∷ rest) = fs ++ joined rest

unfoldable pub all_deletions : Int64 → List (Bytes × List (Bytes × Bytes)) → List (List Bytes)
all_deletions now [] = []
all_deletions now ((b, fs) ∷ rest) = deletions b (dead_fields now fs) ++ all_deletions now rest

unfoldable pub after :
    {A W : Type 0} → List A → Option (Option (List A) × W) → Option (Option (List A) × W)
after xs none = none
after xs (some (none, w)) = some (none, w)
after xs (some (some ys, w)) = some (some (xs ++ ys), w)

abbrev all_links : Bytes
all_links = codes "l:*"

module _ {W : Type 0} (pipe : List (List Bytes) → W → Option (List Resp) × W) where
  -- The items that a scan hands to its callback, page after page until the cursor is "0" or a reply is no
  -- page. The inner option is none where an exchange throws, the outer one when `fuel` pages were not
  -- enough; `ask` is the command that continues from a cursor.
  unfoldable pub scan : (Bytes → List Bytes) → ℕ → Bytes → W → Option (Option (List Bytes) × W)
  scan ask zero cursor w = none
  scan ask (suc fuel) cursor w =
      let (r, w') = cmd pipe (ask cursor) w in
      elim r [
        | none ↦ some (none, w')
        | some x ↦ elim (page_of x) [
          | none ↦ some (some [], w')
          | some (next, keys) ↦ elim (bytes_eq next (codes "0")) [
            | true ↦ some (some keys, w')
            | false ↦ after keys (scan ask fuel next w')
          ]
        ]
      ]

  unfoldable pub scan_each : ℕ → W → Option (Option (List Bytes) × W)
  scan_each fuel = scan (λ cursor. scan_from cursor all_links) fuel (codes "0")

  unfoldable pub hscan_each : ℕ → Bytes → W → Option (Option (List Bytes) × W)
  hscan_each fuel k = scan (hscan_from k) fuel (codes "0")

  -- The fields of every bucket, one bucket after the other.
  unfoldable pub all_fields :
      ℕ → List Bytes → W → Option (Option (List (Bytes × List (Bytes × Bytes))) × W)
  all_fields fuel [] w = some (some [], w)
  all_fields fuel (b ∷ bs) w = elim (hscan_each fuel b w) [
    | none ↦ none
    | some (none, w') ↦ some (none, w')
    | some (some fs, w') ↦ after ((b, pairs fs) ∷ []) (all_fields fuel bs w')
  ]

  unfoldable pub list_hash :
      ℕ → Int64 → ℕ → ℕ → Bool → Bytes → W → Option (Option (List Link × ℕ) × W)
  list_hash fuel now limit offset by_hits q w = elim (scan_each fuel w) [
    | none ↦ none
    | some (none, w') ↦ some (none, w')
    | some (some bs, w') ↦ elim (all_fields fuel bs w') [
      | none ↦ none
      | some (none, w'') ↦ some (none, w'')
      | some (some fs, w'') ↦
          let all = joined fs in
          some (
            some (
                page_of_items limit offset by_hits
                  (with_hits (field_hits all []) (field_links now q all))),
            w'',
          )
    ]
  ]

  -- A pipeline that throws leaves no replies, and so no links.
  unfoldable pub list_keys :
      ℕ → Int64 → ℕ → ℕ → Bool → Bytes → W → Option (Option (List Link × ℕ) × W)
  list_keys fuel now limit offset by_hits q w = elim (scan_each fuel w) [
    | none ↦ none
    | some (none, w') ↦ some (none, w')
    | some (some ks, w') ↦
        let (rs, w'') = pipe (get_both ks) w' in
        some (
          some (
              page_of_items limit offset by_hits
                (key_links now q ks (elim rs [ none ↦ [] | some replies ↦ replies ]))),
          w'',
        )
  ]

  unfoldable pub empty : ℕ → W → Option (Option Bool × W)
  empty fuel w = elim (scan_each fuel w) [
    | none ↦ none
    | some (none, w') ↦ some (none, w')
    | some (some ks, w') ↦ some (some (is_empty ks), w')
  ]

  unfoldable pub sweep_expired : ℕ → Int64 → W → Option (Bool × W)
  sweep_expired fuel now w = elim (scan_each fuel w) [
    | none ↦ none
    | some (none, w') ↦ some (false, w')
    | some (some bs, w') ↦ elim (all_fields fuel bs w') [
      | none ↦ none
      | some (none, w'') ↦ some (false, w'')
      | some (some fs, w'') ↦ some (sent pipe (all_deletions now fs) w'')
    ]
  ]

module _ {W G : Type 0} (pipe : List (List Bytes) → W → Option (List Resp) × W) where
  unfoldable pub list :
      ℕ → Int64 → ℕ → ℕ → Bool → Bytes → KvInner W G → Option (Option (List Link × ℕ) × W)
  list fuel now limit offset by_hits q s =
      if s.layout_hash
      then list_hash pipe fuel now limit offset by_hits q s.server
      else list_keys pipe fuel now limit offset by_hits q s.server
