-- ===== src/Rocks/Coherent.antt =====
-- The cache in front of RocksDB, and the rows behind it.
pub mod Reads
pub mod Writes
pub mod Answers
pub mod Updates
pub mod Reached
pub mod Many
pub mod Drawn
use mathlib.Core.Path.{subst}
use shrt_cpp.Prelude.{
  true, false, Option, some, ◌≡◌, ◌⊎◌, inl, inr, sym, ap, ◌∙◌, arith, Bytes, bytes_eq, bytes_eq_iff,
  Int64, find, ◌==◌, ==_iff, Bool-cases,
}
use shrt_cpp.Kv.Cache.{KvEntry}
use shrt_cpp.Kv.Cache
use shrt_cpp.Kv.Cache.Held.{cache_get-found, cache_put-found, cache_del-found}
use shrt_cpp.Kv.Value.{Value}
use shrt_cpp.Kv.Client.{shard}
use shrt_cpp.Metrics
use shrt_cpp.Rocks.Db.{Db}
use shrt_cpp.Rocks.State.{
  RocksInner, Moment, at_cache, at_dirty, add_dirty, bump, cache_get, cache_put, cache_del,
}
use shrt_cpp.Rocks.Access.{link_of}

-- What the cache holds for a code, in the shard of the code.
abbrev pub held : {D G : Type 0} → Bytes → RocksInner D G → Option KvEntry
held code s = find code (s.cache (shard code)).m

-- The entry of `code` has the url and the expiry of the row, unless `P` holds of it.
pub Backs : (Bytes → KvEntry → Type 0) → Bytes → KvEntry → Option Value → Type 0
Backs P code it o = ((c : Int64) × (o ≡ some (record { e = it.e; c = c; u = it.u }))) ⊎ P code it

abbrev pub Nowhere : Bytes → KvEntry → Type 0
Nowhere code it = ⊥

other_shard : (k j : Bytes) → (shard j == shard k) ≡ false → bytes_eq k j ≡ false
other_shard k j h = elim (Bool-cases (bytes_eq k j)) [
  | inl e ↦
      absurd
        (ground (arith, h, ==_iff (shard j) (shard k), ap shard (sym ((bytes_eq_iff k j).0 e))))
  | inr e ↦ e
]

module _ {D G : Type 0} where
  pub cache_get-held :
      (w : Moment) (k j : Bytes) (s : RocksInner D G) (it : KvEntry)
      → held j (cache_get w k s).1 ≡ some it
      → held j s ≡ some it
  unfolding cache_get at_cache
  cache_get-held w k j s it h =
      ground (arith, h, cache_get-found s.cache_ttl_ms (w.now 0) k j (s.cache (shard k)) it)

  pub cache_put-held :
      (now : Int64) (k u : Bytes) (e : Int64) (j : Bytes) (s : RocksInner D G) (it : KvEntry)
      → held j (cache_put now k u e s) ≡ some it
      → ((bytes_eq k j ≡ true) × (it ≡ record { u = u; e = e; at = now }))
        ⊎ ((bytes_eq k j ≡ false) × (held j s ≡ some it))
  unfolding cache_put at_cache
  cache_put-held now k u e j s it h = ground (
    arith,
    h,
    other_shard k j,
    cache_put-found s.cap_per_shard now k u e j (s.cache (shard k)) it,
  )

  pub cache_del-held :
      (k j : Bytes) (s : RocksInner D G) (it : KvEntry)
      → held j (cache_del k s) ≡ some it
      → (bytes_eq k j ≡ false) × (held j s ≡ some it)
  unfolding cache_del at_cache
  cache_del-held k j s it h =
      ground (arith, h, other_shard k j, cache_del-found k j (s.cache (shard k)) it)

  pub bump-held : (w : Moment) (k j : Bytes) (s : RocksInner D G) → held j (bump w k s) ≡ held j s
  unfolding bump add_dirty at_dirty
  bump-held w k j s = ground arith

  pub bump-rows : (w : Moment) (k : Bytes) (s : RocksInner D G) → (bump w k s).rows ≡ s.rows
  unfolding bump add_dirty at_dirty
  bump-rows w k s = ground arith

-- Every entry that the cache holds is that of a row, but for those of `P`.
pub Coherent : {D G : Type 0} → (Bytes → KvEntry → Type 0) → Db D → RocksInner D G → Type 0
Coherent P db s =
    (code : Bytes) (it : KvEntry) → held code s ≡ some it → Backs P code it (link_of db code s.rows)

module _ {D G : Type 0} (P : Bytes → KvEntry → Type 0) (db : Db D) where
  pub bump-Coherent :
      (w : Moment) (k : Bytes) (s : RocksInner D G) → Coherent P db s → Coherent P db (bump w k s)
  unfolding Coherent
  bump-Coherent w k s co j it h =
      subst (λ d. Backs P j it (link_of db j d)) (sym (bump-rows w k s))
        (co j it (sym (bump-held w k j s) ∙ h))

  pub cache_get-Coherent :
      (w : Moment) (k : Bytes) (s : RocksInner D G)
      → Coherent P db s
      → Coherent P db (cache_get w k s).1
  unfolding Coherent
  cache_get-Coherent w k s co j it h =
      unfold cache_get at_cache in co j it (cache_get-held w k j s it h)

  -- An entry that is put in agrees with the row of its code.
  pub cache_put-Coherent :
      (now : Int64) (k u : Bytes) (e c : Int64) (s : RocksInner D G)
      → link_of db k s.rows ≡ some (record { e = e; c = c; u = u })
      → Coherent P db s
      → Coherent P db (cache_put now k u e s)
  unfolding Coherent Backs cache_put at_cache
  cache_put-Coherent now k u e c s r co j it h = elim (cache_put-held now k u e j s it h) [
    | inl (q, p) ↦
        subst (λ i. Backs P j i (link_of db j s.rows)) (sym p)
          (subst (λ i. Backs P i (record { u = u; e = e; at = now }) (link_of db i s.rows))
            ((bytes_eq_iff k j).0 q) (inl (c, r)))
    | inr (q, g) ↦ co j it g
  ]

  -- The row of one code changes, and its entry goes or is put in anew.
  pub cache_del-Coherent :
      (k : Bytes) (d : D) (s : RocksInner D G)
      → ((j : Bytes) → bytes_eq k j ≡ false → link_of db j d ≡ link_of db j s.rows)
      → Coherent P db s
      → Coherent P db (cache_del k (record s { rows = d }))
  unfolding Coherent
  cache_del-Coherent k d s same co j it h =
      let (q, g) = cache_del-held k j (record s { rows = d }) it h in
      unfold cache_del at_cache in subst (Backs P j it) (sym (same j q)) (co j it g)

  pub created-Coherent :
      (now : Int64) (k u : Bytes) (e c : Int64) (d : D) (s : RocksInner D G)
      → link_of db k d ≡ some (record { e = e; c = c; u = u })
      → ((j : Bytes) → bytes_eq k j ≡ false → link_of db j d ≡ link_of db j s.rows)
      → Coherent P db s
      → Coherent P db (cache_put now k u e (record s { rows = d }))
  unfolding Coherent Backs cache_put at_cache
  created-Coherent now k u e c d s r same co j it h =
      elim (cache_put-held now k u e j (record s { rows = d }) it h) [
        | inl (q, p) ↦
            subst (λ i. Backs P j i (link_of db j d)) (sym p)
              (subst (λ i. Backs P i (record { u = u; e = e; at = now }) (link_of db i d))
                ((bytes_eq_iff k j).0 q) (inl (c, r)))
        | inr (q, g) ↦ subst (Backs P j it) (sym (same j q)) (co j it g)
      ]
