-- ===== src/Rocks/Coherent/Reads.antt =====
-- The reads of the store keep the cache coherent, and a resolved url is the one of the row.
use shrt_cpp.Prelude.{
  ◌≡◌, ◌⊎◌, inl, inr, refl, arith, Option, none, some, Bytes, Int64, true, le64, Bool-cases,
  Option-cases, if◌then◌else◌,
}
use shrt_cpp.Kv.Cache.{KvEntry, cache_entry}
use shrt_cpp.Kv.Cache
use shrt_cpp.Kv.Value.{Value}
use shrt_cpp.Rocks.Db.{Db, has_expired}
use shrt_cpp.Rocks.State.{
  RocksInner, Moment, at_cache, counted, add_dirty, at_dirty, cache_get, cache_put,
}
use shrt_cpp.Rocks.Access.{link_of, found, miss, cached, resolve, stats, stats_row}
use shrt_cpp.Rocks.Coherent.{
  held, Backs, Coherent, bump-rows, bump-Coherent, cache_get-Coherent, cache_put-Coherent,
}

-- The url of a row that has not expired: what `resolve` is without a cache.
unfoldable pub live_url : Int64 → Option Value → Option Bytes
live_url now none = none
live_url now (some x) = if has_expired now x.e then none else some x.u

module _ {D G : Type 0} (P : Bytes → KvEntry → Type 0) (db : Db D) where
  found-Coherent :
      (w : Moment) (k : Bytes) (o : Option Value) (s : RocksInner D G)
      → link_of db k s.rows ≡ o
      → Coherent P db s
      → Coherent P db (found db w k o s).1
  unfolding found
  found-Coherent w k none s r co = co
  found-Coherent w k (some x) s r co = elim (Bool-cases (has_expired (w.now 1) x.e)) [
    | inl e ↦ rw (e, found) co
    | inr e ↦
        rw (e, found)
          (bump-Coherent P db w k _ (cache_put-Coherent P db (w.now 2) k x.u x.e x.c s r co))
  ]

  cached-Coherent :
      (w : Moment) (k : Bytes) (o : Option Bytes) (s : RocksInner D G)
      → Coherent P db s
      → Coherent P db (cached db w k o s).1
  unfolding cached miss counted Coherent
  cached-Coherent w k none s co = found-Coherent w k (link_of db k s.rows) _ refl co
  cached-Coherent w k (some u) s co = bump-Coherent P db w k _ co

  pub resolve-Coherent :
      (w : Moment) (k : Bytes) (s : RocksInner D G)
      → Coherent P db s
      → Coherent P db (resolve db w k s).1
  unfolding resolve
  resolve-Coherent w k s co = cached-Coherent w k _ _ (cache_get-Coherent P db w k s co)

-- The expiry of the entry has passed at the time `n`.
unfoldable pub Gone : Int64 → Bytes → KvEntry → Type 0
Gone n code it = has_expired n it.e ≡ true

pub has_expired-later :
    (n m e : Int64) → le64 n m ≡ true → has_expired n e ≡ true → has_expired m e ≡ true
has_expired-later n m e h g = ground (arith, h, g)

module _ {D G : Type 0} (db : Db D) (n : Int64) where
  found-live_url :
      (w : Moment) (k : Bytes) (o : Option Value) (s : RocksInner D G)
      → (found db w k o s).0 ≡ live_url (w.now 1) o
  unfolding found live_url
  found-live_url w k none s = refl
  found-live_url w k (some x) s = ground arith

  -- A url that the cache gives is that of an entry that has not expired.
  cache_get-Backs :
      (w : Moment) (k u : Bytes) (s : RocksInner D G) (o : Option Value)
      → ((it : KvEntry) → held k s ≡ some it → Backs (Gone n) k it o)
      → le64 n (w.now 0) ≡ true
      → (cache_get w k s).0 ≡ some u
      → some u ≡ live_url (w.now 0) o
  unfolding cache_get Cache.cache_get cache_entry live_url Backs Gone
  cache_get-Backs w k u s o co b h = elim (Option-cases (held k s)) [
    | inl e ↦ absurd (ground (arith, e, h))
    | inr (it, e) ↦ elim (co it e) [
      | inl (c, r) ↦ ground (arith, e, h, r)
      | inr f ↦ absurd (ground (arith, e, h, has_expired-later n (w.now 0) it.e b f))
    ]
  ]

  cached-live_url :
      (w : Moment) (k : Bytes) (o : Option Bytes) (s : RocksInner D G)
      → ((u : Bytes) → o ≡ some u → some u ≡ live_url (w.now 0) (link_of db k s.rows))
      → ((cached db w k o s).0 ≡ live_url (w.now 0) (link_of db k s.rows))
        ⊎ ((cached db w k o s).0 ≡ live_url (w.now 1) (link_of db k s.rows))
  unfolding cached miss counted
  cached-live_url w k none s h = inr (found-live_url w k (link_of db k s.rows) _)
  cached-live_url w k (some u) s h = inl (h u refl)

  pub resolve-live_url :
      (w : Moment) (k : Bytes) (s : RocksInner D G)
      → le64 n (w.now 0) ≡ true
      → Coherent (Gone n) db s
      → ((resolve db w k s).0 ≡ live_url (w.now 0) (link_of db k s.rows))
        ⊎ ((resolve db w k s).0 ≡ live_url (w.now 1) (link_of db k s.rows))
  unfolding resolve Coherent cache_get at_cache
  resolve-live_url w k s b co =
      cached-live_url w k (cache_get w k s).0 (cache_get w k s).1
        (λ u h. cache_get-Backs w k u s _ (co k) b h)

module _ {D G : Type 0} (db : Db D) where
  found-rows :
      (w : Moment) (k : Bytes) (o : Option Value) (s : RocksInner D G)
      → (found db w k o s).1.rows ≡ s.rows
  unfolding found cache_put at_cache
  found-rows w k none s = refl
  found-rows w k (some x) s = ground (arith, bump-rows w k (cache_put (w.now 2) k x.u x.e s))

  cached-rows :
      (w : Moment) (k : Bytes) (o : Option Bytes) (s : RocksInner D G)
      → (cached db w k o s).1.rows ≡ s.rows
  unfolding cached miss counted
  cached-rows w k none s = found-rows w k _ _
  cached-rows w k (some u) s = bump-rows w k _

  pub resolve-rows :
      (w : Moment) (k : Bytes) (s : RocksInner D G) → (resolve db w k s).1.rows ≡ s.rows
  unfolding resolve cache_get at_cache
  resolve-rows w k s = cached-rows w k _ _

module _ {D G : Type 0} (P : Bytes → KvEntry → Type 0) (db : Db D) where
  stats_row-Coherent :
      (w : Moment) (k : Bytes) (o : Option Value) (s : RocksInner D G)
      → Coherent P db s
      → Coherent P db (stats_row db w k o s).1
  unfolding stats_row add_dirty at_dirty Coherent
  stats_row-Coherent w k none s co = co
  stats_row-Coherent w k (some x) s co = elim (Bool-cases (has_expired (w.now 0) x.e)) [
    | inl e ↦ rw (e, stats_row) co
    | inr e ↦ rw (e, stats_row) co
  ]

  pub stats-Coherent :
      (w : Moment) (k : Bytes) (s : RocksInner D G)
      → Coherent P db s
      → Coherent P db (stats db w k s).1
  unfolding stats
  stats-Coherent w k s co = stats_row-Coherent w k (link_of db k s.rows) s co
