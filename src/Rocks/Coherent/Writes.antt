-- ===== src/Rocks/Coherent/Writes.antt =====
-- The writes of the store: what they do to the rows, and that they keep the cache coherent.
use mathlib.Core.Path.{subst}
use shrt_cpp.Prelude.{
  ℕ, zero, suc, ◌^◌, ◌<◌, ◌≡◌, inl, inr, refl, sym, ap, ◌∙◌, arith, Option, none, some, Bytes,
  bytes_eq_refl, Int64, Bool-cases, Option-cases,
}
use shrt_cpp.Metrics
use shrt_cpp.Store.Create.{expires}
use shrt_cpp.Kv.Value.{enc}
use shrt_cpp.Kv.Cache.{KvEntry}
use shrt_cpp.Rocks.Db.{Db, DbLaws}
use shrt_cpp.Rocks.State.{RocksInner, Moment, at_cache, counted, cache_put, gen_code}
use shrt_cpp.Rocks.Access.{link_of}
use shrt_cpp.Rocks.Create.{create, fresh_code, shorten}
use shrt_cpp.Rocks.Rows.{expires-lt, WithRow, put-WithRow, put_refused}
use shrt_cpp.Rocks.Coherent.{Coherent, Backs, created-Coherent}

pub with_rows :
    {D G : Type 0} (P : Bytes → KvEntry → Type 0) (db : Db D) (s : RocksInner D G) (d : D)
    → d ≡ s.rows
    → Coherent P db s
    → Coherent P db (record s { rows = d })
unfolding Coherent
with_rows P db s d e co j it h = subst (λ d'. Backs P j it (link_of db j d')) (sym e) (co j it h)

-- `P` holds of a result, where there is one.
unfoldable pub Done : {A B : Type 0} → (A → B → Type 0) → Option (A × B) → Type 0
Done P none = Unit
Done P (some (a, b)) = P a b

Done-map :
    {A B : Type 0} {P Q : A → B → Type 0}
    → ((a : A) (b : B) → P a b → Q a b)
    → (o : Option (A × B)) → Done P o
    → Done Q o
unfolding Done
Done-map f none h = tt
Done-map f (some (a, b)) h = f a b h

-- What a `shorten` that returns `r` does to the rows: nothing where it returns none; else the code is
-- one that had no row, and it has now the url with the time and the expiry of the call.
unfoldable pub Shortened :
    {D : Type 0} → Db D → Moment → Bytes → Int64 → D → Option Bytes → D → Type 0
Shortened db w url ttl_ms base none d = d ≡ base
Shortened db w url ttl_ms base (some c) d =
    (db.get_link c base ≡ none)
    × WithRow db c (some (record { e = expires (w.now 0) ttl_ms; c = w.now 0; u = url })) base d

module _ {D G : Type 0} (P : Bytes → KvEntry → Type 0) (db : Db D) (laws : DbLaws db)
    (draw : G → ℕ × G) where
  create-Shortened :
      (w : Moment) (code url : Bytes) (ttl_ms : Int64) (s : RocksInner D G)
      → w.now 0 < 2 ^ 64
      → db.get_link code s.rows ≡ none
      → let r = create db draw w code url ttl_ms s in Shortened db w url ttl_ms s.rows r.0 r.1.rows
  unfolding create cache_put at_cache Shortened
  create-Shortened w code url ttl_ms s b free =
      let exp = expires (w.now 0) ttl_ms in
      elim (Bool-cases (db.put code (enc exp (w.now 0) url) s.rows).0) [
        | inl e ↦
            rw (e, create)
              (
                free,
                put-WithRow db laws code url exp (w.now 0) s.rows (expires-lt (w.now 0) ttl_ms) b e,
              )
        | inr e ↦ rw (e, create) (put_refused db laws code _ s.rows e)
      ]

  create-Coherent :
      (w : Moment) (code url : Bytes) (ttl_ms : Int64) (s : RocksInner D G)
      → w.now 0 < 2 ^ 64
      → Coherent P db s
      → Coherent P db (create db draw w code url ttl_ms s).1
  unfolding create WithRow
  create-Coherent w code url ttl_ms s b co =
      let exp = expires (w.now 0) ttl_ms in
      elim (Bool-cases (db.put code (enc exp (w.now 0) url) s.rows).0) [
        | inl e ↦
            let r =
              put-WithRow db laws code url exp (w.now 0) s.rows (expires-lt (w.now 0) ttl_ms) b e in
            rw (e, create)
              (created-Coherent P db (w.now 1) code url exp (w.now 0) _ s
                (ground (arith, r code, bytes_eq_refl code)) (λ j q. ground (arith, r j, q)) co)
        | inr e ↦ rw (e, create) (with_rows P db s _ (put_refused db laws code _ s.rows e) co)
      ]

  -- A code without a row, drawn from `s`: only the generator has moved.
  Free : RocksInner D G → Bytes → RocksInner D G → Type 0
  Free s c t =
      (db.get_link c s.rows ≡ none) × (t.rows ≡ s.rows) × (Coherent P db s → Coherent P db t)

  gen_code-Free :
      (s : RocksInner D G)
      → db.get_link (gen_code draw s).0 s.rows ≡ none
      → Free s (gen_code draw s).0 (gen_code draw s).1
  unfolding Free gen_code Coherent
  gen_code-Free s e = (e, refl, λ co. co)

  later-Free :
      (s : RocksInner D G) (c : Bytes) (t : RocksInner D G)
      → Free (gen_code draw s).1 c t
      → Free s c t
  unfolding Free gen_code Coherent
  later-Free s c t f = f

  fresh_code-Free : (fuel : ℕ) (s : RocksInner D G) → Done (Free s) (fresh_code db draw fuel s)
  unfolding fresh_code Done
  fresh_code-Free zero s = tt
  fresh_code-Free (suc fuel) s =
      elim (Option-cases (db.get_link (gen_code draw s).0 (gen_code draw s).1.rows)) [
        | inl e ↦ rw (e, fresh_code, Done) (gen_code-Free s (unfold gen_code in e))
        | inr (v, e) ↦
            rw (e, fresh_code)
              (Done-map (later-Free s) _ (fresh_code-Free fuel (gen_code draw s).1))
      ]

  Kept : Moment → Bytes → Int64 → RocksInner D G → Option Bytes → RocksInner D G → Type 0
  Kept w url ttl_ms s r t =
      Shortened db w url ttl_ms s.rows r t.rows × (Coherent P db s → Coherent P db t)

  create-Kept :
      (w : Moment) (code url : Bytes) (ttl_ms : Int64) (s u : RocksInner D G)
      → w.now 0 < 2 ^ 64
      → Free s code u
      → Kept w url ttl_ms s
          (create db draw w code url ttl_ms u).0
          (create db draw w code url ttl_ms u).1
  unfolding Kept Free
  create-Kept w code url ttl_ms s u b (free, same, co) = (
    subst
        (λ d.
          Shortened db w url ttl_ms d (create db draw w code url ttl_ms u).0
            (create db draw w code url ttl_ms u).1.rows)
        same (create-Shortened w code url ttl_ms u b (ap (db.get_link code) same ∙ free)),
    λ k. create-Coherent w code url ttl_ms u b (co k),
  )

  counted-Free :
      (s : RocksInner D G) (c : Bytes) (t : RocksInner D G)
      → Free (counted Metrics.store_write s) c t
      → Free s c t
  unfolding Free counted Coherent
  counted-Free s c t f = f

  alias-Free :
      (s : RocksInner D G) (alias : Bytes) → db.get_link alias s.rows ≡ none → Free s alias s
  unfolding Free
  alias-Free s alias e = (e, refl, λ co. co)

  taken-Kept :
      (w : Moment) (url : Bytes) (ttl_ms : Int64) (s : RocksInner D G)
      → Kept w url ttl_ms s none (counted Metrics.store_write s)
  unfolding Kept Shortened counted Coherent
  taken-Kept w url ttl_ms s = (refl, λ co. co)

  shorten-Kept :
      (w : Moment) (fuel : ℕ) (url : Bytes) (alias : Option Bytes) (ttl_ms : Int64)
      (s : RocksInner D G)
      → w.now 0 < 2 ^ 64
      → Done (Kept w url ttl_ms s) (shorten db draw w fuel url alias ttl_ms s)
  unfolding shorten Done
  shorten-Kept w fuel url (some alias) ttl_ms s b =
      elim (Option-cases (db.get_link alias (counted Metrics.store_write s).rows)) [
        | inl e ↦
            rw (e, shorten, Done)
              (create-Kept w alias url ttl_ms s (counted Metrics.store_write s) b
                (counted-Free s alias _ (alias-Free (counted Metrics.store_write s) alias e)))
        | inr (v, e) ↦ rw (e, shorten, Done) (taken-Kept w url ttl_ms s)
      ]
  shorten-Kept w fuel url none ttl_ms s b =
      elim (Option-cases (fresh_code db draw fuel (counted Metrics.store_write s))) [
        | inl e ↦ rw (e, shorten, Done) tt
        | inr (c, e) ↦
            rw (e, shorten, Done)
              (create-Kept w c.0 url ttl_ms s c.1 b (
                counted-Free s c.0 c.1 (
                  unfold Done in
                  subst (Done (Free (counted Metrics.store_write s))) e (fresh_code-Free fuel _))))
      ]

  pub shorten-Shortened :
      (w : Moment) (fuel : ℕ) (url : Bytes) (alias : Option Bytes) (ttl_ms : Int64)
      (s t : RocksInner D G) (r : Option Bytes)
      → w.now 0 < 2 ^ 64
      → shorten db draw w fuel url alias ttl_ms s ≡ some (r, t)
      → Shortened db w url ttl_ms s.rows r t.rows
  unfolding Done Kept
  shorten-Shortened w fuel url alias ttl_ms s t r b h =
      (subst (Done (Kept w url ttl_ms s)) h (shorten-Kept w fuel url alias ttl_ms s b)).0

  pub shorten-Coherent :
      (w : Moment) (fuel : ℕ) (url : Bytes) (alias : Option Bytes) (ttl_ms : Int64)
      (s t : RocksInner D G) (r : Option Bytes)
      → w.now 0 < 2 ^ 64
      → shorten db draw w fuel url alias ttl_ms s ≡ some (r, t)
      → Coherent P db s
      → Coherent P db t
  unfolding Done Kept
  shorten-Coherent w fuel url alias ttl_ms s t r b h =
      (subst (Done (Kept w url ttl_ms s)) h (shorten-Kept w fuel url alias ttl_ms s b)).1
