-- ===== src/Rocks/Create.antt =====
-- `shorten`, `shorten_many` and `seed` of src/store_rocks.cpp.
use shrt_cpp.Prelude.{
  ℕ, zero, suc, Bool, true, false, ◌||◌, not, List, [], ◌∷◌, Option, none, some, Bytes, Int64,
  is_empty, length, if◌then◌else◌,
}
use shrt_cpp.Metrics
use shrt_cpp.Store.Create.{expires}
use shrt_cpp.Kv.Value.{enc}
use shrt_cpp.Rocks.Db.{Write, put_link, Db}
use shrt_cpp.Rocks.State.{RocksInner, Moment, counted, cache_put, flush_hits, gen_code}

unfoldable pub or_same : Bytes → Option Bytes → Bytes
or_same code none = code
or_same code (some c2) = c2

module _ {D G : Type 0} (db : Db D) (draw : G → ℕ × G) where
  -- The write of the row of a code without one, and what follows it.
  unfoldable pub create :
      Moment → Bytes → Bytes → Int64 → RocksInner D G → Option Bytes × RocksInner D G
  create w code url ttl_ms s =
      let exp = expires (w.now 0) ttl_ms in
      let (done, d) = db.put code (enc exp (w.now 0) url) s.rows in
      if done
      then (some code, cache_put (w.now 1) code url exp (record s { rows = d }))
      else (none, record s { rows = d })

  -- The retry loop, over at most `fuel` codes: the first one without a row.
  unfoldable pub fresh_code : ℕ → RocksInner D G → Option (Bytes × RocksInner D G)
  fresh_code zero s = none
  fresh_code (suc fuel) s =
      let (code, s') = gen_code draw s in
      let rest = fresh_code fuel s' in
      elim (db.get_link code s'.rows) [ none ↦ some (code, s') | some _ ↦ rest ]

  -- The inner option is the source's result; the outer one is none when `fuel` codes were all taken.
  unfoldable pub shorten :
      Moment
      → ℕ
      → Bytes
      → Option Bytes
      → Int64
      → RocksInner D G
      → Option (Option Bytes × RocksInner D G)
  shorten w fuel url (some alias) ttl_ms s =
      let s' = counted Metrics.store_write s in
      elim (db.get_link alias s'.rows) [
        | some _ ↦ some (none, s')
        | none ↦ some (create w alias url ttl_ms s')
      ]
  shorten w fuel url none ttl_ms s = elim (fresh_code fuel (counted Metrics.store_write s)) [
    | none ↦ none
    | some (code, s') ↦ some (create w code url ttl_ms s')
  ]

  -- The first loop: a code for every url, empty where the one drawn is taken, and the batch.
  unfoldable pub draw_each :
      Int64 → Int64 → List Bytes → RocksInner D G → List Bytes × (List Write × RocksInner D G)
  draw_each now exp [] s = ([], ([], s))
  draw_each now exp (url ∷ urls) s =
      let (code, s') = gen_code draw s in
      let (codes', (batch, s'')) = draw_each now exp urls s' in
      elim (db.get_link code s'.rows) [
        | some _ ↦ ([] ∷ codes', (batch, s''))
        | none ↦ (code ∷ codes', (put_link code (enc exp now url) ∷ batch, s''))
      ]

  unfoldable pub with_code :
      Bytes → Option (List Bytes × RocksInner D G) → Option (List Bytes × RocksInner D G)
  with_code code none = none
  with_code code (some (rest, s)) = some (code ∷ rest, s)

  -- The second loop: `done` is whether the batch was written. A code that is still needed comes from
  -- `shorten`, which reads the clock for itself: `ws` are the moments of these calls.
  unfoldable pub settle_each :
      Moment
      → (ℕ → Moment)
      → ℕ
      → Int64
      → Bool
      → List Bytes
      → List Bytes
      → RocksInner D G
      → Option (List Bytes × RocksInner D G)
  settle_each w ws fuel ttl_ms done (code ∷ codes') (url ∷ urls) s =
      elim (is_empty code || not done) [
        | true ↦ elim (shorten (ws 0) fuel url none ttl_ms s) [
          | none ↦ none
          | some (c2, s') ↦
              with_code (or_same code c2)
                (settle_each w (λ k. ws (suc k)) fuel ttl_ms done codes' urls s')
        ]
        | false ↦ with_code code (
            settle_each w (λ k. ws (suc k)) fuel ttl_ms done codes' urls
              (cache_put (w.now 1) code url (expires (w.now 0) ttl_ms) s))
      ]
  settle_each w ws fuel ttl_ms done _ _ s = some ([], s)

  unfoldable pub shorten_many :
      Moment
      → (ℕ → Moment)
      → ℕ
      → List Bytes
      → Int64
      → RocksInner D G
      → Option (List Bytes × RocksInner D G)
  shorten_many w ws fuel urls ttl_ms s =
      let now = w.now 0 in
      let (drawn, (batch, s')) = draw_each now (expires now ttl_ms) urls s in
      let (done, d) = db.write batch s'.rows in
      settle_each w ws fuel ttl_ms done drawn urls (record s' { rows = d })

  unfoldable pub seed :
      Moment → (ℕ → Moment) → ℕ → List Bytes → RocksInner D G → Option (ℕ × RocksInner D G)
  seed w ws fuel urls s = elim (shorten_many w ws fuel urls 0 s) [
    | none ↦ none
    | some (_, s') ↦ some (length urls, flush_hits db s')
  ]
