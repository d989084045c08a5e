-- ===== src/Rocks/Hits.antt =====
-- The counters of hits over RocksDB: deltas in memory that a flush merges into the family "hits".
pub mod History
use mathlib.Core.Path.{subst}
use shrt_cpp.Prelude.{
  ℕ, zero, suc, ◌+◌, ◌^◌, ◌<◌, ◌≤◌, ◌≡◌, ◌⊎◌, inl, inr, refl, sym, ap, ◌∙◌, arith, false, List, [],
  ◌∷◌, ◌++◌, Option, none, some, Bytes, bytes_eq, bytes_eq_iff, Int64, add64, Dict, find, put,
  find-put, ◌==◌, ==_iff, Bool-cases, Option-cases,
}
use shrt_cpp.Kv.Client.{kv_shards, shard}
use shrt_cpp.Rocks.Db.{Write, le_bytes, le_value, u64_at, u64_of, merge, hits_after, hits_after_all}
use shrt_cpp.Rocks.State.{or_zero, shard_writes, dirty_writes}

u64_at-le_bytes : (x : Int64) → x < 2 ^ 64 → u64_at (le_bytes 8 x) ≡ x
unfolding u64_at le_bytes le_value
u64_at-le_bytes x h = omega (arith, h)

u64_of-merge :
    (o : Option Bytes) (n : Int64)
    → n < 2 ^ 64
    → u64_of (some (merge o (le_bytes 8 n))) ≡ add64 (u64_of o) n
unfolding u64_of merge
u64_of-merge o n h =
    u64_at-le_bytes (add64 (u64_of o) (u64_at (le_bytes 8 n))) (omega arith)
    ∙ ap (add64 (u64_of o)) (u64_at-le_bytes n h)

-- Every counter is a number of 64 bits in the shard of its code, and no code has two.
pub IsDistinct : Dict Int64 → Type 0
IsDistinct [] = Unit
IsDistinct ((k, n) ∷ m) = (find k m ≡ none) × (n < 2 ^ 64) × IsDistinct m

pub put-IsDistinct :
    (k : Bytes) (n : Int64) (m : Dict Int64) → n < 2 ^ 64 → IsDistinct m → IsDistinct (put k n m)
unfolding IsDistinct put find
put-IsDistinct k n [] h d = (refl, h, tt)
put-IsDistinct k n ((j, v) ∷ m) h (f, b, d) = elim (Bool-cases (bytes_eq j k)) [
  | inl e ↦ rw (e, put, IsDistinct) (subst (λ i. find i m ≡ none) ((bytes_eq_iff j k).0 e) f, h, d)
  | inr e ↦
      rw (e, put, IsDistinct)
        (
          ground (arith, e, f, find-put k j n m, bytes_eq_iff j k, bytes_eq_iff k j),
          b,
          put-IsDistinct k n m h d,
        )
]

hits_after-append :
    (k : Bytes) (xs ys : List Write) (o : Option Bytes)
    → hits_after_all k (xs ++ ys) o ≡ hits_after_all k ys (hits_after_all k xs o)
unfolding hits_after_all
hits_after-append k [] ys o = refl
hits_after-append k (x ∷ xs) ys o = hits_after-append k xs ys (hits_after k x o)

shard_writes-none :
    (k : Bytes) (m : Dict Int64) (o : Option Bytes)
    → find k m ≡ none
    → hits_after_all k (shard_writes m) o ≡ o
unfolding shard_writes hits_after_all hits_after find
shard_writes-none k [] o h = refl
shard_writes-none k ((c, n) ∷ m) o h = elim (Bool-cases (bytes_eq c k)) [
  | inl e ↦ absurd (ground (arith, e, h))
  | inr e ↦ ground (arith, e, h, shard_writes-none k m o)
]

shard_writes-some :
    (k : Bytes) (m : Dict Int64) (o : Option Bytes) (n : Int64)
    → IsDistinct m
    → find k m ≡ some n
    → u64_of (hits_after_all k (shard_writes m) o) ≡ add64 (u64_of o) n
unfolding shard_writes hits_after_all hits_after find IsDistinct
shard_writes-some k [] o n d h = absurd (ground (arith, h))
shard_writes-some k ((c, v) ∷ m) o n (f, b, d) h = elim (Bool-cases (bytes_eq c k)) [
  | inl e ↦
      let fk = subst (λ i. find i m ≡ none) ((bytes_eq_iff c k).0 e) f in
      ground
        (arith, e, h, fk, shard_writes-none k m (some (merge o (le_bytes 8 v))), u64_of-merge o v b)
  | inr e ↦ ground (arith, e, h, shard_writes-some k m o n d)
]

-- All counters stand in their own shards.
pub record Placed (dirty : ℕ → Dict Int64) : Type 0 where
  distinct : (i : ℕ) → IsDistinct (dirty i)
  own : (i : ℕ) (k : Bytes) → (shard k == i) ≡ false → find k (dirty i) ≡ none

-- The shards from `i` on without the code's own one change nothing.
dirty_writes-other :
    (n i : ℕ) (k : Bytes) (dirty : ℕ → Dict Int64) (o : Option Bytes)
    → Placed dirty
    → (shard k < i) ⊎ (i + n ≤ shard k)
    → hits_after_all k (dirty_writes n i dirty) o ≡ o
unfolding dirty_writes hits_after_all
dirty_writes-other zero i k dirty o p h = refl
dirty_writes-other (suc n) i k dirty o p h =
    hits_after-append k (shard_writes (dirty i)) (dirty_writes n (suc i) dirty) o
    ∙ ap (hits_after_all k (dirty_writes n (suc i) dirty))
        (shard_writes-none k (dirty i) o (p.own i k (ground (arith, h))))
    ∙ dirty_writes-other n (suc i) k dirty o p (ground (arith, h))

dirty_writes-own :
    (n i : ℕ) (k : Bytes) (dirty : ℕ → Dict Int64) (o : Option Bytes)
    → Placed dirty
    → i ≤ shard k
    → shard k < i + n
    → hits_after_all k (dirty_writes n i dirty) o
      ≡ hits_after_all k (shard_writes (dirty (shard k))) o
unfolding dirty_writes hits_after_all
dirty_writes-own zero i k dirty o p a b = absurd (omega (arith, a, b))
dirty_writes-own (suc n) i k dirty o p a b = elim (Bool-cases (shard k == i)) [
  | inl e ↦
      hits_after-append k (shard_writes (dirty i)) (dirty_writes n (suc i) dirty) o
      ∙ dirty_writes-other n (suc i) k dirty _ p (inl (ground (arith, e)))
      ∙ ap (λ j. hits_after_all k (shard_writes (dirty j)) o) (sym ((==_iff (shard k) i).0 e))
  | inr e ↦
      hits_after-append k (shard_writes (dirty i)) (dirty_writes n (suc i) dirty) o
      ∙ ap (hits_after_all k (dirty_writes n (suc i) dirty))
          (shard_writes-none k (dirty i) o (p.own i k e))
      ∙ dirty_writes-own n (suc i) k dirty o p (ground (arith, a, e)) (omega (arith, b))
]

shard-lt : (k : Bytes) → shard k < 256
unfolding shard
shard-lt k = omega arith

-- A flush brings the counter of the database to what it was and the delta in memory.
pub written_hits :
    (k : Bytes) (dirty : ℕ → Dict Int64) (o : Option Bytes)
    → Placed dirty
    → add64 (u64_of (hits_after_all k (dirty_writes kv_shards 0 dirty) o)) 0
      ≡ add64 (u64_of o) (or_zero (find k (dirty (shard k))))
unfolding or_zero
written_hits k dirty o p =
    let q = dirty_writes-own kv_shards 0 k dirty o p (omega arith) (omega (arith, shard-lt k)) in
    elim (Option-cases (find k (dirty (shard k)))) [
      | inl e ↦ ground (arith, e, q, shard_writes-none k (dirty (shard k)) o e)
      | inr (n, e) ↦
          ground (arith, e, q, shard_writes-some k (dirty (shard k)) o n (p.distinct (shard k)) e)
    ]
