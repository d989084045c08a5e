-- ===== src/Rocks/Coherent/Reached.antt =====
-- The store over RocksDB behind any sequence of its operations.
use mathlib.Core.Path.{subst}
use shrt_cpp.Prelude.{
  ℕ, zero, suc, ◌^◌, ◌<◌, ◌≡◌, ◌⊎◌, inl, inr, refl, sym, ap, ◌∙◌, arith, Bool, List, [], ◌∷◌, ◌++◌,
  Option, none, some, true, le64, Option-cases, Bytes, Int64, Dict, find, is_empty, Bool-cases,
  if◌then◌else◌,
}
use shrt_cpp.Kv.Cache.{empty_shard}
use shrt_cpp.Kv.Client.{kv_shards, shard}
use shrt_cpp.Kv.Value.{Value, dec}
use shrt_cpp.Rocks.Db.{has_expired, filter, Db, DbLaws, Write, link_after, link_after_all}
use shrt_cpp.Rocks.State.{RocksInner, Moment, flush_hits, shard_writes, dirty_writes}
use shrt_cpp.Rocks.Access.{decoded, link_of, resolve, update, remove, stats, compact}
use shrt_cpp.Rocks.Create.{shorten, shorten_many}
use shrt_cpp.Rocks.Coherent.{Coherent, Backs}
use shrt_cpp.Rocks.Coherent.Reads.{
  Gone, has_expired-later, live_url, resolve-Coherent, resolve-live_url, resolve-rows,
  stats-Coherent,
}
use shrt_cpp.Rocks.Coherent.Writes.{shorten-Coherent}
use shrt_cpp.Rocks.Coherent.Updates.{update-Coherent, remove-Coherent}
use shrt_cpp.Rocks.Coherent.Many.{shorten_many-Coherent}

-- The writes of a flush leave the links alone.
shard_writes-link :
    (k : Bytes) (m : Dict Int64) (o : Option Bytes) → link_after_all k (shard_writes m) o ≡ o
unfolding shard_writes link_after_all link_after
shard_writes-link k [] o = refl
shard_writes-link k ((c, n) ∷ m) o = shard_writes-link k m o

link_after-append :
    (k : Bytes) (xs ys : List Write) (o : Option Bytes)
    → link_after_all k (xs ++ ys) o ≡ link_after_all k ys (link_after_all k xs o)
unfolding link_after_all
link_after-append k [] ys o = refl
link_after-append k (x ∷ xs) ys o = link_after-append k xs ys (link_after k x o)

dirty_writes-link :
    (n i : ℕ) (k : Bytes) (dirty : ℕ → Dict Int64) (o : Option Bytes)
    → link_after_all k (dirty_writes n i dirty) o ≡ o
unfolding dirty_writes link_after_all
dirty_writes-link zero i k dirty o = refl
dirty_writes-link (suc n) i k dirty o =
    link_after-append k (shard_writes (dirty i)) (dirty_writes n (suc i) dirty) o
    ∙ ap (link_after_all k (dirty_writes n (suc i) dirty)) (shard_writes-link k (dirty i) o)
    ∙ dirty_writes-link n (suc i) k dirty o

module _ {D : Type 0} (db : Db D) (laws : DbLaws db) where
  written-link :
      (k : Bytes) (ws : List Write) (d : D)
      → ((o : Option Bytes) → link_after_all k ws o ≡ o)
      → link_of db k (if is_empty ws then d else (db.write ws d).1) ≡ link_of db k d
  unfolding link_of
  written-link k [] d h = refl
  written-link k (x ∷ xs) d h = elim (Bool-cases (db.write (x ∷ xs) d).0) [
    | inl e ↦ ap decoded (laws.written_links (x ∷ xs) k d e ∙ h _)
    | inr e ↦ ap (λ d'. decoded (db.get_link k d')) (laws.refused (x ∷ xs) d e)
  ]

-- `d` is `base` but for rows that were dropped, all of which had expired at the time `n`.
pub Drops : {D : Type 0} → Db D → Int64 → D → D → Type 0
Drops db n base d =
    (j : Bytes)
    → (link_of db j d ≡ link_of db j base)
      ⊎ ((x : Value) × (link_of db j base ≡ some x)
          × (has_expired n x.e ≡ true)
          × (link_of db j d ≡ none))

-- So it is behind a compaction with the filter.
compact-Drops :
    {D : Type 0} (db : Db D) (laws : DbLaws db) (n : Int64) (d : D)
    → Drops db n d (db.compact (filter n) d)
unfolding Drops link_of decoded filter
compact-Drops db laws n d j = elim (Option-cases (db.get_link j (db.compact (filter n) d))) [
  | inr (v, e) ↦ inl (ap decoded (e ∙ sym (laws.compact_makes (filter n) j v d e)))
  | inl e ↦ elim (Option-cases (db.get_link j d)) [
    | inl f ↦ inl (ap decoded (e ∙ sym f))
    | inr (v, f) ↦ elim (Option-cases (dec v)) [
      | inl g ↦
          absurd (ground (arith, e, laws.compact_keeps (filter n) j v d f (rw (g, filter) refl)))
      | inr (x, g) ↦ elim (Bool-cases (has_expired n x.e)) [
        | inl q ↦ inr (x, ap decoded f ∙ g, q, ap decoded e)
        | inr q ↦
            absurd (ground (arith, e, laws.compact_keeps (filter n) j v d f (rw (g, filter) q)))
      ]
    ]
  ]
]

module _ {D G : Type 0} (db : Db D) (laws : DbLaws db) (draw : G → ℕ × G) where
  -- The states behind any sequence of operations and compactions from an empty cache over any rows, on a
  -- clock that reads an int64_t. The time is not before that of any compaction so far.
  pub data Reached : Int64 → RocksInner D G → Type 0 where
    opened : (n : Int64) (s : RocksInner D G) → ((i : ℕ) → s.cache i ≡ empty_shard) → Reached n s
    resolved :
        {n : Int64} {s : RocksInner D G} (w : Moment) (code : Bytes)
        → Reached n s
        → Reached n (resolve db w code s).1
    shortened :
        {n : Int64} {s t : RocksInner D G} (w : Moment) (fuel : ℕ) (url : Bytes)
        (alias r : Option Bytes) (ttl_ms : Int64)
        → w.now 0 < 2 ^ 64
        → shorten db draw w fuel url alias ttl_ms s ≡ some (r, t)
        → Reached n s
        → Reached n t
    shortened_many :
        {n : Int64} {s t : RocksInner D G} (w : Moment) (ws : ℕ → Moment) (fuel : ℕ)
        (urls r : List Bytes) (ttl_ms : Int64)
        → w.now 0 < 2 ^ 64
        → ((k : ℕ) → (ws k).now 0 < 2 ^ 64)
        → shorten_many db draw w ws fuel urls ttl_ms s ≡ some (r, t)
        → Reached n s
        → Reached n t
    updated :
        {n : Int64} {s : RocksInner D G} (w : Moment) (code url : Bytes) (ttl_ms : Int64)
        (has_ttl : Bool)
        → Reached n s
        → Reached n (update db w code url ttl_ms has_ttl s).1
    removed :
        {n : Int64} {s : RocksInner D G} (code : Bytes)
        → Reached n s
        → Reached n (remove db code s).1
    counted_up :
        {n : Int64} {s : RocksInner D G} (w : Moment) (code : Bytes)
        → Reached n s
        → Reached n (stats db w code s).1
    flushed : {n : Int64} {s : RocksInner D G} → Reached n s → Reached n (flush_hits db s)
    compacted :
        {n : Int64} {s : RocksInner D G} (m : Int64)
        → le64 n m ≡ true
        → Reached n s
        → Reached m (compact db m s)
    -- A compaction that the database does by itself, on any of its rows.
    dropped :
        {n : Int64} {s : RocksInner D G} (m : Int64) (d : D)
        → le64 n m ≡ true
        → Drops db m s.rows d
        → Reached n s
        → Reached m (record s { rows = d })

  opened-Coherent :
      (n : Int64) (s : RocksInner D G)
      → ((i : ℕ) → s.cache i ≡ empty_shard)
      → Coherent (Gone n) db s
  unfolding Coherent find
  opened-Coherent n s e code it h = absurd (ground (arith, e (shard code), h))

  flush-Coherent :
      (n : Int64) (s : RocksInner D G)
      → Coherent (Gone n) db s
      → Coherent (Gone n) db (flush_hits db s)
  unfolding Coherent flush_hits
  flush-Coherent n s co j it h =
      subst (Backs (Gone n) j it)
        (sym (
          written-link db laws j (dirty_writes kv_shards 0 s.dirty) s.rows
            (dirty_writes-link kv_shards 0 j s.dirty)))
        (co j it h)

  dropped-Coherent :
      (n m : Int64) (s : RocksInner D G) (d : D)
      → le64 n m ≡ true
      → Drops db m s.rows d
      → Coherent (Gone n) db s
      → Coherent (Gone m) db (record s { rows = d })
  unfolding Coherent Backs Drops Gone
  dropped-Coherent n m s d b dr co j it h = elim (co j it h) [
    | inl (c, r) ↦ elim (dr j) [
      | inl e ↦ inl (c, e ∙ r)
      | inr (x, e, f, g) ↦ inr (ground (arith, e, r, f))
    ]
    | inr g ↦ inr (has_expired-later n m it.e b g)
  ]

  compacted-Coherent :
      (n m : Int64) (s : RocksInner D G)
      → le64 n m ≡ true
      → Coherent (Gone n) db s
      → Coherent (Gone m) db (compact db m s)
  unfolding compact
  compacted-Coherent n m s b co =
      dropped-Coherent n m s (db.compact (filter m) s.rows) b (compact-Drops db laws m s.rows) co

  -- The cache holds nothing but rows, and entries whose row a compaction has dropped: in every state that
  -- operations and compactions reach from an empty cache, over any rows, an entry of the cache has the
  -- url and the expiry of the row of its code, or its expiry had passed by the time of the last
  -- compaction. This is so whichever writes were refused and whichever codes were drawn twice in one
  -- batch, if each compaction is at a time not before that of the one before.
  pub Reached-Coherent : {n : Int64} {s : RocksInner D G} → Reached n s → Coherent (Gone n) db s
  Reached-Coherent (opened n s e) = opened-Coherent n s e
  Reached-Coherent (resolved {n} w code r) =
      resolve-Coherent (Gone n) db w code _ (Reached-Coherent r)
  Reached-Coherent (shortened {n} w fuel url alias r ttl_ms b e k) =
      shorten-Coherent (Gone n) db laws draw w fuel url alias ttl_ms _ _ r b e (Reached-Coherent k)
  Reached-Coherent (shortened_many {n} w ws fuel urls r ttl_ms b bs e k) =
      shorten_many-Coherent db laws draw (Gone n) w ws fuel urls ttl_ms _ _ r b bs e
        (Reached-Coherent k)
  Reached-Coherent (updated {n} w code url ttl_ms has_ttl r) =
      update-Coherent (Gone n) db laws w code url ttl_ms has_ttl _ (Reached-Coherent r)
  Reached-Coherent (removed {n} code r) =
      remove-Coherent (Gone n) db laws code _ (Reached-Coherent r)
  Reached-Coherent (counted_up {n} w code r) =
      stats-Coherent (Gone n) db w code _ (Reached-Coherent r)
  Reached-Coherent (flushed {n} r) = flush-Coherent n _ (Reached-Coherent r)
  Reached-Coherent (compacted {n} {s} m b r) = compacted-Coherent n m s b (Reached-Coherent r)
  Reached-Coherent (dropped {n} {s} m d b dr r) = dropped-Coherent n m s d b dr (Reached-Coherent r)

  -- The cache cannot be told from the database: in every state that operations and compactions reach from
  -- an empty cache, as long as the clock of the call is not behind the last compaction, `resolve` gives
  -- what the row alone gives, the url of a row that has not expired and else none, with the expiry judged
  -- at one of the first two readings of the clock by the call; and it leaves the rows as they were.
  pub resolve-row :
      (n : Int64) (w : Moment) (code : Bytes) (s : RocksInner D G)
      → Reached n s
      → le64 n (w.now 0) ≡ true
      → (((resolve db w code s).0 ≡ live_url (w.now 0) (link_of db code s.rows))
          ⊎ ((resolve db w code s).0 ≡ live_url (w.now 1) (link_of db code s.rows)))
        × ((resolve db w code s).1.rows ≡ s.rows)
  resolve-row n w code s r b =
      (resolve-live_url db n w code s b (Reached-Coherent r), resolve-rows db w code s)
