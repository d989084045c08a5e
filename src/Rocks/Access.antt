-- ===== src/Rocks/Access.antt =====
-- `resolve`, `update`, `remove`, `stats`, `empty`, `healthy` and `compact` of src/store_rocks.cpp.
use shrt_cpp.Prelude.{
  Bool, [], ◌∷◌, Option, none, some, Bytes, Int64, add64, find, is_empty, if◌then◌else◌,
}
use shrt_cpp.Metrics
use shrt_cpp.Store.State.{MutResult, ok, missing, Link}
use shrt_cpp.Store.Create.{expires}
use shrt_cpp.Kv.Value.{Value, enc, dec}
use shrt_cpp.Kv.Client.{shard}
use shrt_cpp.Rocks.Db.{delete_link, delete_hits, Db, has_expired, filter}
use shrt_cpp.Rocks.State.{
  RocksInner, Moment, or_zero, counted, add_dirty, bump, cache_get, cache_put, cache_del, db_hits,
}

-- The decoded row of a code.
unfoldable pub decoded : Option Bytes → Option Value
decoded none = none
decoded (some v) = dec v

unfoldable pub link_of : {D : Type 0} → Db D → Bytes → D → Option Value
link_of db code d = decoded (db.get_link code d)

module _ {D G : Type 0} (db : Db D) where
  -- Behind the read of the row, on the row `x`.
  unfoldable pub found :
      Moment → Bytes → Option Value → RocksInner D G → Option Bytes × RocksInner D G
  found w code none s = (none, s)
  found w code (some x) s =
      if has_expired (w.now 1) x.e
      then (none, s)
      else (some x.u, bump w code (cache_put (w.now 2) code x.u x.e s))

  unfoldable pub miss : Moment → Bytes → RocksInner D G → Option Bytes × RocksInner D G
  miss w code s =
      found w code (link_of db code s.rows)
        (counted (λ m. Metrics.store_read w.read_us (Metrics.cache_miss m)) s)

  unfoldable pub cached :
      Moment → Bytes → Option Bytes → RocksInner D G → Option Bytes × RocksInner D G
  cached w code (some u) s = (some u, bump w code (counted Metrics.cache_hit s))
  cached w code none s = miss w code s

  unfoldable pub resolve : Moment → Bytes → RocksInner D G → Option Bytes × RocksInner D G
  resolve w code s = let (u, s') = cache_get w code s in cached w code u s'

  unfoldable pub update_row :
      Moment
      → Bytes
      → Bytes
      → Int64
      → Bool
      → Option Value
      → RocksInner D G
      → MutResult × RocksInner D G
  update_row w code url ttl_ms has_ttl none s = (missing, s)
  update_row w code url ttl_ms has_ttl (some x) s =
      let exp = if has_ttl then expires (w.now 0) ttl_ms else x.e in
      let (done, d) = db.put code (enc exp x.c url) s.rows in
      if done
      then (ok, cache_del code (record s { rows = d }))
      else (missing, record s { rows = d })

  unfoldable pub update :
      Moment → Bytes → Bytes → Int64 → Bool → RocksInner D G → MutResult × RocksInner D G
  update w code url ttl_ms has_ttl s =
      update_row w code url ttl_ms has_ttl (link_of db code s.rows) s

  -- The status of the write is not looked at.
  unfoldable pub remove : Bytes → RocksInner D G → MutResult × RocksInner D G
  remove code s = elim (db.get_link code s.rows) [
    | none ↦ (missing, s)
    | some _ ↦ (
      ok,
      cache_del code
          (record s { rows = (db.write (delete_link code ∷ delete_hits code ∷ []) s.rows).1 }),
    )
  ]

  -- `dirty[i][code]` makes the counter where there is none.
  unfoldable pub stats_row :
      Moment → Bytes → Option Value → RocksInner D G → Option Link × RocksInner D G
  stats_row w code none s = (none, s)
  stats_row w code (some x) s = if has_expired (w.now 0) x.e then (none, s) else (
    some (record {
      code = code;
      url = x.u;
      hits = add64 (db_hits db code s) (or_zero (find code (s.dirty (shard code))));
      created_at = x.c;
      expires_at = x.e;
    }),
    add_dirty 0 code s,
  )

  unfoldable pub stats : Moment → Bytes → RocksInner D G → Option Link × RocksInner D G
  stats w code s = stats_row w code (link_of db code s.rows) s

  unfoldable pub empty : RocksInner D G → Bool
  empty s = is_empty (db.links s.rows)

  unfoldable pub compact : Int64 → RocksInner D G → RocksInner D G
  compact now s = record s { rows = db.compact (filter now) s.rows }
