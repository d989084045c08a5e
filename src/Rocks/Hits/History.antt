-- ===== src/Rocks/Hits/History.antt =====
-- Hits over RocksDB along any sequence of counted hits and flushes.
use mathlib.Core.Path.{subst}
use shrt_cpp.Prelude.{
  ℕ, suc, ◌+◌, ◌%◌, ◌^◌, ◌≡◌, inl, inr, refl, sym, ap, ◌∙◌, arith, true, List, [], ◌∷◌, Bytes,
  bytes_eq, bytes_eq_iff, Int64, add64, Dict, find, put, find-put, is_empty, ◌==◌, Bool-cases,
  if◌then◌else◌,
}
use shrt_cpp.Kv.Client.{kv_shards, shard}
use shrt_cpp.Rocks.Db.{Db, DbLaws, Write, u64_of, hits_after_all}
use shrt_cpp.Rocks.State.{
  RocksInner, Moment, or_zero, at_dirty, add_dirty, bump, flush_hits, db_hits, dirty_writes,
}
use shrt_cpp.Rocks.Hits.{IsDistinct, put-IsDistinct, Placed, written_hits}

unfoldable pub occurrences : Bytes → List Bytes → ℕ
occurrences k [] = 0
occurrences k (c ∷ cs) = let rest = occurrences k cs in if bytes_eq c k then suc rest else rest

added : Bytes → (ℕ → Dict Int64) → ℕ → Dict Int64
added k dirty j =
    if j == shard k then put k (add64 (or_zero (find k (dirty j))) 1) (dirty j) else dirty j

added-Placed : (k : Bytes) (dirty : ℕ → Dict Int64) → Placed dirty → Placed (added k dirty)
unfolding added
added-Placed k dirty p = record {
  distinct = λ i. elim (Bool-cases (i == shard k)) [
    | inl e ↦ rw e (put-IsDistinct k _ (dirty i) (omega arith) (p.distinct i))
    | inr e ↦ rw e (p.distinct i)
  ];
  own = λ i j e. ground (
    arith,
    p.own i j e,
    e,
    find-put k j (add64 (or_zero (find k (dirty i))) 1) (dirty i),
    bytes_eq_iff k j,
  );
}

pub empty-Placed : Placed (λ i. [])
unfolding IsDistinct find
empty-Placed = record { distinct = λ i. tt; own = λ i k e. refl }

module _ {D : Type 0} (db : Db D) (laws : DbLaws db) where
  written_or_same :
      (k : Bytes) (ws : List Write) (d : D)
      → (db.write ws d).0 ≡ true
      → db.get_hits k (if is_empty ws then d else (db.write ws d).1)
        ≡ hits_after_all k ws (db.get_hits k d)
  unfolding hits_after_all
  written_or_same k [] d h = refl
  written_or_same k (x ∷ xs) d h = laws.written_hits (x ∷ xs) k d h

module _ {D G : Type 0} (db : Db D) where
  -- The hits of a code as `stats` reports them: the counter of the database and the delta in memory.
  unfoldable pub hits_of : Bytes → RocksInner D G → Int64
  hits_of k s = add64 (db_hits db k s) (or_zero (find k (s.dirty (shard k))))

  -- The codes hit since `s`, and the state behind them, with flushes whose writes are ok in between.
  pub data Hitting (s : RocksInner D G) : List Bytes → RocksInner D G → Type 0 where
    unhit : Hitting s [] s
    hit :
        {h : List Bytes} {t : RocksInner D G} (w : Moment) (k : Bytes)
        → w.track_hits ≡ true
        → Hitting s h t
        → Hitting s (k ∷ h) (bump w k t)
    flushed :
        {h : List Bytes} {t : RocksInner D G}
        → (db.write (dirty_writes kv_shards 0 t.dirty) t.rows).0 ≡ true
        → Hitting s h t
        → Hitting s h (flush_hits db t)

  bump-dirty :
      (w : Moment) (k : Bytes) (s : RocksInner D G)
      → w.track_hits ≡ true
      → (bump w k s).dirty ≡ added k s.dirty
  unfolding bump add_dirty at_dirty added
  bump-dirty w k s h = rw (h, bump) refl

  bump-hits_of :
      (w : Moment) (c k : Bytes) (s : RocksInner D G)
      → w.track_hits ≡ true
      → hits_of k (bump w c s) ≡ (if bytes_eq c k then add64 (hits_of k s) 1 else hits_of k s)
  unfolding bump add_dirty at_dirty hits_of db_hits or_zero
  bump-hits_of w c k s h = ground (
    arith,
    h,
    find-put c k (add64 (or_zero (find c (s.dirty (shard c)))) 1) (s.dirty (shard c)),
    bytes_eq_iff c k,
  )

  module _ (laws : DbLaws db) where
    flush-hits_of :
        (k : Bytes) (s : RocksInner D G)
        → Placed s.dirty
        → (db.write (dirty_writes kv_shards 0 s.dirty) s.rows).0 ≡ true
        → hits_of k (flush_hits db s) ≡ hits_of k s
    unfolding flush_hits hits_of db_hits or_zero find
    flush-hits_of k s p h =
        ap (λ o. add64 (u64_of o) 0)
          (written_or_same db laws k (dirty_writes kv_shards 0 s.dirty) s.rows h)
        ∙ written_hits k s.dirty (db.get_hits k s.rows) p

    Hitting-Placed :
        (s : RocksInner D G) {h : List Bytes} {t : RocksInner D G}
        → Placed s.dirty
        → Hitting s h t
        → Placed t.dirty
    Hitting-Placed s p unhit = p
    Hitting-Placed s p (hit {h} {t} w k e r) =
        subst Placed (sym (bump-dirty w k t e)) (added-Placed k t.dirty (Hitting-Placed s p r))
    Hitting-Placed s p (flushed e r) = unfold flush_hits in empty-Placed

    -- No hit is lost and none is counted twice: from a state whose counters stand in their own shards, along
    -- any sequence of hits and of flushes whose writes are ok, the hits that `stats` reports for a code are
    -- those that it reported before and the number of hits of the code in the sequence, modulo 2^64.
    pub Hitting-hits_of :
        (k : Bytes) (s : RocksInner D G) {h : List Bytes} {t : RocksInner D G}
        → Placed s.dirty
        → Hitting s h t
        → hits_of k t ≡ (hits_of k s + occurrences k h) % 2 ^ 64
    unfolding occurrences
    Hitting-hits_of k s p unhit = unfold hits_of in omega arith
    Hitting-hits_of k s p (hit {h} {t} w c e r) =
        ground (arith, bump-hits_of w c k t e, Hitting-hits_of k s p r)
    Hitting-hits_of k s p (flushed {h} {t} e r) =
        flush-hits_of k t (Hitting-Placed s p r) e ∙ Hitting-hits_of k s p r
