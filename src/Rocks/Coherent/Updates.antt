-- ===== src/Rocks/Coherent/Updates.antt =====
-- `update` and `remove` over RocksDB: what they do to the rows, and that they keep
-- the cache coherent.
use shrt_cpp.Prelude.{
  ◌^◌, ◌<◌, ◌≡◌, ◌⊎◌, inl, inr, refl, ap, arith, Bool, true, false, [], ◌∷◌, Option, none, some,
  Bytes, bytes_eq, Int64, Bool-cases, Option-cases, if◌then◌else◌,
}
use shrt_cpp.Store.State.{MutResult, ok, missing, remote}
use shrt_cpp.Store.Create.{expires}
use shrt_cpp.Kv.Value.{Value, enc}
use shrt_cpp.Kv.Cache.{KvEntry}
use shrt_cpp.Rocks.Db.{Db, DbLaws, delete_link, delete_hits, link_after, link_after_all}
use shrt_cpp.Rocks.State.{RocksInner, Moment, at_cache, cache_del}
use shrt_cpp.Rocks.Access.{decoded, link_of, update, update_row, remove}
use shrt_cpp.Rocks.Rows.{expires-lt, link_of-lt, WithRow, put-WithRow, put_refused}
use shrt_cpp.Rocks.Coherent.{Coherent, cache_del-Coherent}
use shrt_cpp.Rocks.Coherent.Writes.{with_rows}

-- Whether the database takes the row of `url` for the code, in place of the row `x`.
abbrev pub taken : {D : Type 0} → Db D → Bytes → Bytes → Bool → Int64 → D → Value → Bool
taken db code url has_ttl exp base x =
    (db.put code (enc (if has_ttl then exp else x.e) x.c url) base).0

-- What an `update` that returns `r` does to the rows: ok where the code has a row and the write of the new
-- one is ok, which keeps its time; missing where there is no row, or its write is not ok.
pub Updated : {D : Type 0} → Db D → Bytes → Bytes → Bool → Int64 → D → MutResult → D → Type 0
Updated db code url has_ttl exp base ok d =
    (x : Value) × (link_of db code base ≡ some x)
    × (taken db code url has_ttl exp base x ≡ true)
    × WithRow db code (some (record { e = if has_ttl then exp else x.e; c = x.c; u = url })) base d
Updated db code url has_ttl exp base missing d =
    ((link_of db code base ≡ none)
      ⊎ ((x : Value) × (link_of db code base ≡ some x)
          × (taken db code url has_ttl exp base x ≡ false)))
    × (d ≡ base)
Updated db code url has_ttl exp base remote d = ⊥

-- And a `remove`: ok where there was a row, which is gone unless the write was not ok.
pub Removed : {D : Type 0} → Db D → Bytes → D → MutResult → D → Type 0
Removed db code base ok d =
    ((v : Bytes) × (db.get_link code base ≡ some v)) × (WithRow db code none base d ⊎ (d ≡ base))
Removed db code base missing d = (db.get_link code base ≡ none) × (d ≡ base)
Removed db code base remote d = ⊥

put-lt :
    (has_ttl : Bool) (now ttl_ms e : Int64)
    → e < 2 ^ 64
    → (if has_ttl then expires now ttl_ms else e) < 2 ^ 64
put-lt has_ttl now ttl_ms e h = ground (arith, h, expires-lt now ttl_ms)

module _ {D G : Type 0} (P : Bytes → KvEntry → Type 0) (db : Db D) (laws : DbLaws db) where
  Kept : Bytes → Bytes → Bool → Int64 → RocksInner D G → MutResult → RocksInner D G → Type 0
  Kept code url has_ttl exp s r t =
      Updated db code url has_ttl exp s.rows r t.rows × (Coherent P db s → Coherent P db t)

  update_row-Kept :
      (w : Moment) (code url : Bytes) (ttl_ms : Int64) (has_ttl : Bool) (o : Option Value)
      (s : RocksInner D G)
      → link_of db code s.rows ≡ o
      → let r = update_row db w code url ttl_ms has_ttl o s in
        Kept code url has_ttl (expires (w.now 0) ttl_ms) s r.0 r.1
  unfolding update_row Kept Updated cache_del at_cache WithRow
  update_row-Kept w code url ttl_ms has_ttl none s h = ((inl h, refl), λ co. co)
  update_row-Kept w code url ttl_ms has_ttl (some x) s h =
      let exp = if has_ttl then expires (w.now 0) ttl_ms else x.e in
      let lt = link_of-lt db code s.rows x h in
      elim (Bool-cases (db.put code (enc exp x.c url) s.rows).0) [
        | inl e ↦
            let r =
              put-WithRow db laws code url exp x.c s.rows (put-lt has_ttl (w.now 0) ttl_ms x.e lt.0)
                lt.1 e in
            rw (e, update_row)
              (
                (x, h, e, r),
                λ co. cache_del-Coherent P db code _ s (λ j q. ground (arith, r j, q)) co,
              )
        | inr e ↦
            let p = put_refused db laws code (enc exp x.c url) s.rows e in
            rw (e, update_row) ((inr (x, h, e), p), λ co. with_rows P db s _ p co)
      ]

  -- `update` answers ok just where the code has a row and the database takes the new one: then that row has
  -- the new url, the time of its creation, and the new expiry where one is given, else the old one; all
  -- other rows are as before. It answers missing just where the code has no row or the database does not
  -- take the new one, and then no row has changed.
  pub update-Updated :
      (w : Moment) (code url : Bytes) (ttl_ms : Int64) (has_ttl : Bool) (s : RocksInner D G)
      → let r = update db w code url ttl_ms has_ttl s in
        Updated db code url has_ttl (expires (w.now 0) ttl_ms) s.rows r.0 r.1.rows
  unfolding update Kept
  update-Updated w code url ttl_ms has_ttl s =
      (update_row-Kept w code url ttl_ms has_ttl (link_of db code s.rows) s refl).0

  pub update-Coherent :
      (w : Moment) (code url : Bytes) (ttl_ms : Int64) (has_ttl : Bool) (s : RocksInner D G)
      → Coherent P db s
      → Coherent P db (update db w code url ttl_ms has_ttl s).1
  unfolding update Kept
  update-Coherent w code url ttl_ms has_ttl s =
      (update_row-Kept w code url ttl_ms has_ttl (link_of db code s.rows) s refl).1

  remove_write : (code : Bytes) (s : RocksInner D G) → Bool × D
  remove_write code s = db.write (delete_link code ∷ delete_hits code ∷ []) s.rows

  removed_rows :
      (code : Bytes) (s : RocksInner D G)
      → WithRow db code none s.rows (remove_write code s).1 ⊎ ((remove_write code s).1 ≡ s.rows)
  unfolding remove_write WithRow link_of link_after_all link_after decoded
  removed_rows code s = elim (Bool-cases (remove_write code s).0) [
    | inl e ↦ inl λ j.
        ground (arith, laws.written_links (delete_link code ∷ delete_hits code ∷ []) j s.rows e)
    | inr e ↦ inr (laws.refused _ s.rows e)
  ]

  other_rows :
      (code : Bytes) (s : RocksInner D G) (j : Bytes)
      → bytes_eq code j ≡ false
      → link_of db j (remove_write code s).1 ≡ link_of db j s.rows
  unfolding WithRow
  other_rows code s j q = elim (removed_rows code s) [
    | inl r ↦ ground (arith, r j, q)
    | inr e ↦ ap (link_of db j) e
  ]

  pub remove-Removed :
      (code : Bytes) (s : RocksInner D G)
      → let r = remove db code s in Removed db code s.rows r.0 r.1.rows
  unfolding remove Removed remove_write cache_del at_cache
  remove-Removed code s = elim (Option-cases (db.get_link code s.rows)) [
    | inl e ↦ rw (e, remove) (e, refl)
    | inr (v, e) ↦ rw (e, remove) ((v, e), removed_rows code s)
  ]

  pub remove-Coherent :
      (code : Bytes) (s : RocksInner D G) → Coherent P db s → Coherent P db (remove db code s).1
  unfolding remove remove_write WithRow
  remove-Coherent code s co = elim (Option-cases (db.get_link code s.rows)) [
    | inl e ↦ rw (e, remove) co
    | inr (v, e) ↦
        rw (e, remove)
          (cache_del-Coherent P db code (remove_write code s).1 s (other_rows code s) co)
  ]
