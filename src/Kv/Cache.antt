-- ===== src/Kv/Cache.antt =====
-- `cache_get`, `cache_put` and `cache_del` of src/store_kv.cpp: a cache, first in first out
-- (src/store_rocks.cpp has the same).
pub mod Held
pub mod Bounds
use shrt_cpp.Prelude.{
  ℕ, ◌&&◌, not, List, [], ◌∷◌, ◌++◌, Option, none, some, Bytes, length, Int64, sub64, lt64, le64,
  is_pos, Dict, find, erase, put, leb, ◌==◌, if◌then◌else◌,
}

-- `e` is the expiry, `at` the time of caching.
pub record KvEntry : Type 0 where
  pub u : Bytes
  pub e : Int64
  pub at : Int64

pub record KvShard : Type 0 where
  pub m : Dict KvEntry
  pub order : List Bytes

abbrev pub empty_shard : KvShard
empty_shard = record { m = []; order = [] }

unfoldable pub cache_entry : Int64 → Int64 → Bytes → KvEntry → KvShard → Option Bytes × KvShard
cache_entry cache_ttl_ms now code it sh =
    if is_pos cache_ttl_ms && lt64 cache_ttl_ms (sub64 now it.at)
    then (none, record sh { m = erase code sh.m })
    else if not (it.e == 0) && le64 it.e now
    then (none, sh)
    else (some it.u, sh)

unfoldable pub cache_get : Int64 → Int64 → Bytes → KvShard → Option Bytes × KvShard
cache_get cache_ttl_ms now code sh = elim (find code sh.m) [
  | none ↦ (none, sh)
  | some it ↦ cache_entry cache_ttl_ms now code it sh
]

-- The eviction loop: what is left of the map and of the order.
unfoldable pub evict : ℕ → List Bytes → Dict KvEntry → KvShard
evict cap [] m = record { m = m; order = [] }
evict cap (k ∷ order) m =
    let rest = evict cap order (erase k m) in
    if leb cap (length m) then rest else record { m = m; order = k ∷ order }

unfoldable pub cache_put : ℕ → Int64 → Bytes → Bytes → Int64 → KvShard → KvShard
cache_put cap now code u e sh = elim (find code sh.m) [
  | some it ↦ record sh { m = put code (record { u = u; e = e; at = now }) sh.m }
  | none ↦
      (let left = evict cap sh.order sh.m in
        record {
          m = put code (record { u = u; e = e; at = now }) left.m;
          order = left.order ++ code ∷ [];
        })
]

unfoldable pub cache_del : Bytes → KvShard → KvShard
cache_del code sh = record sh { m = erase code sh.m }
