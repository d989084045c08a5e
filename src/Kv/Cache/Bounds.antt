-- ===== src/Kv/Cache/Bounds.antt =====
-- How large a shard of the cache gets.
use mathlib.Core.Path.{subst}
use shrt_cpp.Prelude.{
  ℕ, zero, suc, ◌+◌, ◌<◌, ◌≤◌, Bool, true, false, ◌||◌, List, [], ◌∷◌, ◌++◌, some, ◌≡◌, ◌⊎◌, inl,
  inr, refl, sym, ap, ◌∙◌, arith, Bytes, bytes_eq, bytes_eq_iff, bytes_eq_refl, length,
  length-append, Int64, Dict, find, erase, put, find-erase, find-put, leb, Bool-cases, Option-cases,
}
use shrt_cpp.Kv.Cache.{
  KvEntry, KvShard, empty_shard, cache_entry, cache_get, evict, cache_put, cache_del,
}

unfoldable pub listed : Bytes → List Bytes → Bool
listed j [] = false
listed j (k ∷ ks) = let rest = listed j ks in bytes_eq k j || rest

listed-append :
    (j k : Bytes) (ks : List Bytes) → listed j (ks ++ k ∷ []) ≡ (listed j ks || bytes_eq k j)
unfolding listed
listed-append j k [] = ground arith
listed-append j k (i ∷ ks) = ground (arith, listed-append j k ks)

length-erase : (k : Bytes) (m : Dict KvEntry) → length (erase k m) ≤ length m
unfolding erase
length-erase k [] = omega arith
length-erase k ((j, v) ∷ m) = ground (arith, length-erase k m)

length-put : (k : Bytes) (v : KvEntry) (m : Dict KvEntry) → length (put k v m) ≤ suc (length m)
unfolding put
length-put k v [] = omega arith
length-put k v ((j, w) ∷ m) = ground (arith, length-put k v m)

length_put_found :
    (k : Bytes) (v it : KvEntry) (m : Dict KvEntry)
    → find k m ≡ some it
    → length (put k v m) ≡ length m
unfolding put find
length_put_found k v it [] h = absurd (ground (arith, h))
length_put_found k v it ((j, w) ∷ m) h = ground (arith, h, length_put_found k v it m)

-- Every key of the map is in the order, and the map is within the capacity.
record Bounded (cap : ℕ) (sh : KvShard) : Type 0 where
  within : length sh.m ≤ cap
  ordered : (j : Bytes) (it : KvEntry) → find j sh.m ≡ some it → listed j sh.order ≡ true

no_keys :
    (m : Dict KvEntry)
    → ((j : Bytes) (it : KvEntry) → find j m ≡ some it → false ≡ true)
    → length m ≡ 0
unfolding find
no_keys [] h = refl
no_keys ((j, v) ∷ m) h = absurd (ground (arith, h j v (ground (arith, bytes_eq_refl j))))

evict-Bounded :
    (cap : ℕ) (order : List Bytes) (m : Dict KvEntry)
    → 1 ≤ cap
    → ((j : Bytes) (it : KvEntry) → find j m ≡ some it → listed j order ≡ true)
    → (length (evict cap order m).m < cap)
      × ((j : Bytes) (it : KvEntry)
          → find j (evict cap order m).m ≡ some it
          → listed j (evict cap order m).order ≡ true)
unfolding evict listed
evict-Bounded cap [] m c h = (omega (arith, c, no_keys m h), h)
evict-Bounded cap (k ∷ order) m c h = elim (Bool-cases (leb cap (length m))) [
  | inl e ↦
      rw (e, evict)
        (evict-Bounded cap order (erase k m) c
          λ j it f. ground (arith, f, find-erase k j m, h j it))
  | inr e ↦ rw (e, evict) (ground (arith, e), h)
]

cache_put-Bounded :
    (cap : ℕ) (now : Int64) (k u : Bytes) (e : Int64) (sh : KvShard)
    → 1 ≤ cap
    → Bounded cap sh
    → Bounded cap (cache_put cap now k u e sh)
unfolding cache_put
cache_put-Bounded cap now k u e sh c b =
    let v : KvEntry = record { u = u; e = e; at = now } in
    elim (Option-cases (find k sh.m)) [
      | inl p ↦
          let (l, h) = evict-Bounded cap sh.order sh.m c b.ordered in
          rw (p, cache_put)
            (record {
              within = omega (arith, l, length-put k v (evict cap sh.order sh.m).m);
              ordered = λ j it f. ground (
                arith,
                f,
                find-put k j v (evict cap sh.order sh.m).m,
                h j it,
                listed-append j k (evict cap sh.order sh.m).order,
              );
            })
      | inr (it, p) ↦
          rw (p, cache_put)
            (record {
              within = omega (arith, b.within, length_put_found k v it sh.m p);
              ordered = λ j i f. ground (
                arith,
                f,
                find-put k j v sh.m,
                b.ordered j i,
                b.ordered k it p,
                bytes_eq_iff k j,
              );
            })
    ]

cache_del-Bounded :
    (cap : ℕ) (k : Bytes) (sh : KvShard) → Bounded cap sh → Bounded cap (cache_del k sh)
unfolding cache_del
cache_del-Bounded cap k sh b = record {
  within = omega (arith, b.within, length-erase k sh.m);
  ordered = λ j it f. ground (arith, f, find-erase k j sh.m, b.ordered j it);
}

cache_get-cases :
    (ttl now : Int64) (k : Bytes) (sh : KvShard)
    → ((cache_get ttl now k sh).1 ≡ sh) ⊎ ((cache_get ttl now k sh).1 ≡ cache_del k sh)
unfolding cache_get cache_entry cache_del
cache_get-cases ttl now k sh = ground arith

cache_get-Bounded :
    (cap : ℕ) (ttl now : Int64) (k : Bytes) (sh : KvShard)
    → Bounded cap sh
    → Bounded cap (cache_get ttl now k sh).1
cache_get-Bounded cap ttl now k sh b = elim (cache_get-cases ttl now k sh) [
  | inl e ↦ subst (Bounded cap) (sym e) b
  | inr e ↦ subst (Bounded cap) (sym e) (cache_del-Bounded cap k sh b)
]

-- A shard behind any calls.
pub data Used (cap : ℕ) : KvShard → Type 0 where
  fresh : Used cap empty_shard
  looked_up :
      {sh : KvShard} (ttl now : Int64) (k : Bytes)
      → Used cap sh
      → Used cap (cache_get ttl now k sh).1
  filled :
      {sh : KvShard} (now : Int64) (k u : Bytes) (e : Int64)
      → Used cap sh
      → Used cap (cache_put cap now k u e sh)
  dropped : {sh : KvShard} (k : Bytes) → Used cap sh → Used cap (cache_del k sh)

empty-Bounded : (cap : ℕ) → Bounded cap empty_shard
unfolding find
empty-Bounded cap = record { within = omega arith; ordered = λ j it f. absurd (ground (arith, f)) }

Used-Bounded : {cap : ℕ} {sh : KvShard} → 1 ≤ cap → Used cap sh → Bounded cap sh
Used-Bounded c fresh = empty-Bounded _
Used-Bounded c (looked_up ttl now k r) = cache_get-Bounded _ ttl now k _ (Used-Bounded c r)
Used-Bounded c (filled now k u e r) = cache_put-Bounded _ now k u e _ c (Used-Bounded c r)
Used-Bounded c (dropped k r) = cache_del-Bounded _ k _ (Used-Bounded c r)

-- The cache is bounded: behind any lookups, insertions and deletions, a shard whose capacity is at least
-- one holds no more entries than its capacity.
pub Used-length : {cap : ℕ} {sh : KvShard} → 1 ≤ cap → Used cap sh → length sh.m ≤ cap
Used-length c r = (Used-Bounded c r).within

-- `n` rounds of an insertion and a deletion of one code.
unfoldable pub rounds : ℕ → ℕ → Int64 → Bytes → Bytes → Int64 → KvShard → KvShard
rounds zero cap now k u e sh = sh
rounds (suc n) cap now k u e sh = rounds n cap now k u e (cache_del k (cache_put cap now k u e sh))

evict-nil :
    (cap : ℕ) (order : List Bytes) → 1 ≤ cap → evict cap order [] ≡ record { m = []; order = order }
unfolding evict
evict-nil cap [] c = refl
evict-nil cap (j ∷ order) c = ground (arith, c)

erase_put_nil : (k : Bytes) (v : KvEntry) → erase k (put k v []) ≡ []
unfolding erase put
erase_put_nil k v = ground (arith, bytes_eq_refl k)

round_order :
    (cap : ℕ) (now : Int64) (k u : Bytes) (e : Int64) (order : List Bytes)
    → 1 ≤ cap
    → cache_del k (cache_put cap now k u e (record { m = []; order = order }))
      ≡ record { m = []; order = order ++ k ∷ [] }
unfolding cache_del cache_put find
round_order cap now k u e order c =
    ap
      (λ (l : KvShard). record {
        m = erase k (put k (record { u = u; e = e; at = now }) l.m);
        order = l.order ++ k ∷ [];
      })
      (evict-nil cap order c)
    ∙ ap (λ (m : Dict KvEntry). record { m = m; order = order ++ k ∷ [] })
        (erase_put_nil k (record { u = u; e = e; at = now }))

rounds_from :
    (n cap : ℕ) (now : Int64) (k u : Bytes) (e : Int64) (order : List Bytes)
    → 1 ≤ cap
    → length (rounds n cap now k u e (record { m = []; order = order })).order ≡ length order + n
unfolding rounds
rounds_from zero cap now k u e order c = omega arith
rounds_from (suc n) cap now k u e order c =
    ap (λ sh. length (rounds n cap now k u e sh).order) (round_order cap now k u e order c)
    ∙ rounds_from n cap now k u e (order ++ k ∷ []) c
    ∙ omega (arith, length-append order (k ∷ []))

-- The order of a shard is not bounded: a deletion leaves the code's place in the order, so that `n`
-- rounds of inserting and deleting one code, in an empty shard whose capacity is at least one, leave an
-- order of `n` codes.
pub rounds-order :
    (n cap : ℕ) (now : Int64) (k u : Bytes) (e : Int64)
    → 1 ≤ cap
    → length (rounds n cap now k u e empty_shard).order ≡ n
rounds-order n cap now k u e c = rounds_from n cap now k u e [] c ∙ omega arith
