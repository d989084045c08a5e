-- ===== src/Kv/Cache/Held.antt =====
-- What the operations of the cache leave in it.
use shrt_cpp.Prelude.{
  ℕ, true, false, List, [], ◌∷◌, some, ◌≡◌, ◌⊎◌, arith, Bytes, bytes_eq, Int64, find, erase,
  find-erase, find-put,
}
use shrt_cpp.Kv.Cache.{KvEntry, KvShard, cache_entry, cache_get, evict, cache_put, cache_del}

erase-found :
    (k j : Bytes) (m : List (Bytes × KvEntry)) (it : KvEntry)
    → find j (erase k m) ≡ some it
    → find j m ≡ some it
erase-found k j m it h = ground (arith, find-erase k j m, h)

evict-found :
    (cap : ℕ) (order : List Bytes) (m : List (Bytes × KvEntry)) (j : Bytes) (it : KvEntry)
    → find j (evict cap order m).m ≡ some it
    → find j m ≡ some it
unfolding evict
evict-found cap [] m j it h = h
evict-found cap (k ∷ order) m j it h =
    ground (arith, evict-found cap order (erase k m) j it, erase-found k j m it, h)

pub cache_get-found :
    (ttl now : Int64) (k j : Bytes) (sh : KvShard) (it : KvEntry)
    → find j (cache_get ttl now k sh).1.m ≡ some it
    → find j sh.m ≡ some it
unfolding cache_get cache_entry
cache_get-found ttl now k j sh it h = ground (arith, h, find-erase k j sh.m)

pub cache_put-found :
    (cap : ℕ) (now : Int64) (k u : Bytes) (e : Int64) (j : Bytes) (sh : KvShard) (it : KvEntry)
    → find j (cache_put cap now k u e sh).m ≡ some it
    → ((bytes_eq k j ≡ true) × (it ≡ record { u = u; e = e; at = now }))
      ⊎ ((bytes_eq k j ≡ false) × (find j sh.m ≡ some it))
unfolding cache_put
cache_put-found cap now k u e j sh it h = ground (
  arith,
  h,
  find-put k j (record { u = u; e = e; at = now }) sh.m,
  find-put k j (record { u = u; e = e; at = now }) (evict cap sh.order sh.m).m,
  evict-found cap sh.order sh.m j it,
)

pub cache_del-found :
    (k j : Bytes) (sh : KvShard) (it : KvEntry)
    → find j (cache_del k sh).m ≡ some it
    → (bytes_eq k j ≡ false) × (find j sh.m ≡ some it)
unfolding cache_del
cache_del-found k j sh it h = ground (arith, h, find-erase k j sh.m)
