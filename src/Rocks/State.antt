-- ===== src/Rocks/State.antt =====
-- RocksInnerImpl of src/store_rocks.cpp and its helpers: the counters of hits that were not written
-- yet, and the cache.
use shrt_cpp.Prelude.{
  ℕ, zero, suc, ◌-◌, Bool, List, [], ◌∷◌, ◌++◌, Option, none, some, Bytes, Int64, add64, Dict, find,
  put, is_empty, ◌==◌, if◌then◌else◌,
}
use shrt_cpp.Metrics.{Counters}
use shrt_cpp.Store.Create.{byte_at}
use shrt_cpp.Store.State.{alphabet, code_len}
use shrt_cpp.Kv.Cache.{KvShard}
use shrt_cpp.Kv.Cache
use shrt_cpp.Kv.Client.{kv_shards, shard}
use shrt_cpp.Rocks.Db.{Write, merge_hits, Db, le_bytes, u64_of}

-- `counters` are those of src/metrics.cpp, which the operations move.
pub record RocksInner (D G : Type 0) : Type 0 where
  pub rows : D
  pub cache : ℕ → KvShard
  pub cap_per_shard : ℕ
  pub cache_ttl_ms : Int64
  pub dirty : ℕ → Dict Int64
  pub prefix : ℕ
  pub rng : G
  pub counters : Counters

-- What one call sees of the outside: its first, second and third reading of the clock, the TRACK_HITS
-- setting and the time that a read takes.
pub record Moment : Type 0 where
  pub now : ℕ → Int64
  pub track_hits : Bool
  pub read_us : Int64

unfoldable pub or_zero : Option Int64 → Int64
or_zero none = 0
or_zero (some n) = n

-- The writes of one shard's counters, and those of the `n` shards from `i` on.
unfoldable pub shard_writes : Dict Int64 → List Write
shard_writes [] = []
shard_writes ((code, n) ∷ m) = merge_hits code (le_bytes 8 n) ∷ shard_writes m

unfoldable pub dirty_writes : ℕ → ℕ → (ℕ → Dict Int64) → List Write
dirty_writes zero i dirty = []
dirty_writes (suc n) i dirty = shard_writes (dirty i) ++ dirty_writes n (suc i) dirty

module _ {D G : Type 0} where
  unfoldable pub at_cache : ℕ → (KvShard → KvShard) → RocksInner D G → RocksInner D G
  at_cache i f s = record s { cache = λ j. if j == i then f (s.cache j) else s.cache j }

  unfoldable pub at_dirty : ℕ → (Dict Int64 → Dict Int64) → RocksInner D G → RocksInner D G
  at_dirty i f s = record s { dirty = λ j. if j == i then f (s.dirty j) else s.dirty j }

  unfoldable pub counted : (Counters → Counters) → RocksInner D G → RocksInner D G
  counted f s = record s { counters = f s.counters }

  -- dirty[i][code] += n, which makes the counter where there is none.
  unfoldable pub add_dirty : Int64 → Bytes → RocksInner D G → RocksInner D G
  add_dirty n code = at_dirty (shard code) (λ m. put code (add64 (or_zero (find code m)) n) m)

  unfoldable pub bump : Moment → Bytes → RocksInner D G → RocksInner D G
  bump w code s = if w.track_hits then add_dirty 1 code s else s

  unfoldable pub cache_get : Moment → Bytes → RocksInner D G → Option Bytes × RocksInner D G
  cache_get w code s =
      let r = Cache.cache_get s.cache_ttl_ms (w.now 0) code (s.cache (shard code)) in
      (r.0, at_cache (shard code) (λ _. r.1) s)

  unfoldable pub cache_put : Int64 → Bytes → Bytes → Int64 → RocksInner D G → RocksInner D G
  cache_put now code u e s = at_cache (shard code) (Cache.cache_put s.cap_per_shard now code u e) s

  unfoldable pub cache_del : Bytes → RocksInner D G → RocksInner D G
  cache_del code = at_cache (shard code) (Cache.cache_del code)

module _ {D G : Type 0} (db : Db D) where
  -- The status of the write is not looked at.
  unfoldable pub flush_hits : RocksInner D G → RocksInner D G
  flush_hits s =
      let ws = dirty_writes kv_shards 0 s.dirty in
      record s { dirty = λ i. []; rows = if is_empty ws then s.rows else (db.write ws s.rows).1 }

  unfoldable pub db_hits : Bytes → RocksInner D G → Int64
  db_hits code s = u64_of (db.get_hits code s.rows)

-- The characters of a code; `draw` is a draw from 0 to 61.
module _ {G : Type 0} (draw : G → ℕ × G) where
  unfoldable pub gen_suffix : ℕ → G → Bytes × G
  gen_suffix zero g = ([], g)
  gen_suffix (suc k) g =
      let (i, g') = draw g in let (rest, g'') = gen_suffix k g' in (byte_at i alphabet ∷ rest, g'')

module _ {D G : Type 0} (draw : G → ℕ × G) where
  unfoldable pub gen_code : RocksInner D G → Bytes × RocksInner D G
  gen_code s =
      let (rest, g) = gen_suffix draw (code_len - 1) s.rng in
      (s.prefix ∷ rest, record s { rng = g })
