-- ===== src/Rocks/Listing.antt =====
-- `list` of src/store_rocks.cpp: the page of the live links that match a search text.
use shrt_cpp.Prelude.{
  ℕ, Bool, ◌||◌, ◌&&◌, not, List, [], ◌∷◌, none, some, Bytes, Int64, is_empty, length, contains,
  if◌then◌else◌,
}
use shrt_cpp.Store.State.{Link}
use shrt_cpp.Store.Listing.{sort_links, page}
use shrt_cpp.Kv.Value.{Value, dec}
use shrt_cpp.Rocks.Db.{Db, has_expired, u64_of}
use shrt_cpp.Rocks.State.{RocksInner}

abbrev matches : Bytes → Bytes → Value → Bool
matches q code x = is_empty q || (contains code q || contains x.u q)

module _ {D : Type 0} (db : Db D) where
  unfoldable pub to_link : D → Bytes → Value → Link
  to_link d code x = record {
    code = code;
    url = x.u;
    hits = u64_of (db.get_hits code d);
    created_at = x.c;
    expires_at = x.e;
  }

  -- The loop over the rows of the iterator.
  unfoldable pub live_links : Int64 → Bytes → D → List (Bytes × Bytes) → List Link
  live_links now q d [] = []
  live_links now q d ((code, v) ∷ rows) =
      let rest = live_links now q d rows in
      elim (dec v) [
        | none ↦ rest
        | some x ↦
            if not (has_expired now x.e) && matches q code x then to_link d code x ∷ rest else rest
      ]

module _ {D G : Type 0} (db : Db D) where
  unfoldable pub list : Int64 → ℕ → ℕ → Bool → Bytes → RocksInner D G → List Link × ℕ
  list now limit offset by_hits q s =
      let items = sort_links by_hits (live_links db now q s.rows (db.links s.rows)) in
      (page limit offset items, length items)
