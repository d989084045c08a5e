-- ===== src/Rocks/Coherent/Answers.antt =====
-- `shorten` over RocksDB answers whenever it can draw a code.
use shrt_cpp.Prelude.{
  ℕ, zero, suc, ◌^◌, ◌<◌, ◌≡◌, inl, inr, refl, ap, ◌∙◌, arith, Option, none, some, Bytes, Int64,
  Option-cases, Bool-cases, true, false, ◌⊎◌,
}
use mathlib.Core.Path.{subst}
use shrt_cpp.Store.Create.{expires}
use shrt_cpp.Kv.Value.{enc}
use shrt_cpp.Metrics
use shrt_cpp.Rocks.Db.{Db, DbLaws}
use shrt_cpp.Rocks.State.{RocksInner, Moment, counted, gen_code}
use shrt_cpp.Rocks.Create.{create, fresh_code, shorten}
use shrt_cpp.Rocks.Coherent.{Nowhere}
use shrt_cpp.Rocks.Coherent.Writes.{Shortened, shorten-Shortened}

module _ {D G : Type 0} (db : Db D) (draw : G → ℕ × G) where
  -- The code that is drawn after `k` others.
  unfoldable pub drawn : ℕ → RocksInner D G → Bytes
  drawn zero s = (gen_code draw s).0
  drawn (suc k) s = drawn k (gen_code draw s).1

  drawn-counted : (k : ℕ) (s : RocksInner D G) → drawn k (counted Metrics.store_write s) ≡ drawn k s
  unfolding drawn gen_code counted
  drawn-counted zero s = refl
  drawn-counted (suc k) s = drawn-counted k (gen_code draw s).1

  -- An alias is asked for, or one of the first `fuel` codes drawn has no row.
  unfoldable pub CanDraw : ℕ → Option Bytes → RocksInner D G → Type 0
  CanDraw fuel (some alias) s = Unit
  CanDraw fuel none s = (k : ℕ) × (k < fuel) × (db.get_link (drawn k s) s.rows ≡ none)

  -- A code without a row: the alias, or one of the first `fuel` codes drawn.
  unfoldable pub IsFree : ℕ → Option Bytes → RocksInner D G → Bytes → Type 0
  IsFree fuel (some alias) s c = (c ≡ alias) × (db.get_link c s.rows ≡ none)
  IsFree fuel none s c = (k : ℕ) × (k < fuel) × (c ≡ drawn k s) × (db.get_link c s.rows ≡ none)

  -- Why a `shorten` answers `r`: with a free code whose row the database takes; none because the alias has a
  -- row, or because the database does not take the row of a free code.
  unfoldable pub Because :
      Moment → Bytes → Int64 → ℕ → Option Bytes → RocksInner D G → Option Bytes → Type 0
  Because w url ttl_ms fuel alias s (some c) =
      IsFree fuel alias s c
      × ((db.put c (enc (expires (w.now 0) ttl_ms) (w.now 0) url) s.rows).0 ≡ true)
  Because w url ttl_ms fuel alias s none =
      ((a : Bytes) × (v : Bytes) × (alias ≡ some a) × (db.get_link a s.rows ≡ some v))
      ⊎ ((c : Bytes) × IsFree fuel alias s c
          × ((db.put c (enc (expires (w.now 0) ttl_ms) (w.now 0) url) s.rows).0 ≡ false))

  create-Because :
      (w : Moment) (fuel : ℕ) (url : Bytes) (alias : Option Bytes) (ttl_ms : Int64) (c : Bytes)
      (s u : RocksInner D G)
      → IsFree fuel alias s c
      → u.rows ≡ s.rows
      → Because w url ttl_ms fuel alias s (create db draw w c url ttl_ms u).0
  unfolding create Because
  create-Because w fuel url alias ttl_ms c s u f q =
      let v = enc (expires (w.now 0) ttl_ms) (w.now 0) url in
      elim (Bool-cases (db.put c v u.rows).0) [
        | inl e ↦ rw (e, create) (f, subst (λ d. (db.put c v d).0 ≡ true) q e)
        | inr e ↦ rw (e, create) (inr (c, f, subst (λ d. (db.put c v d).0 ≡ false) q e))
      ]

  -- The first of the codes drawn that has no row; the rows stay.
  Found : ℕ → RocksInner D G → Bytes × RocksInner D G → Type 0
  Found fuel s r =
      (fresh_code db draw fuel s ≡ some r) × IsFree fuel none s r.0 × (r.1.rows ≡ s.rows)

  fresh_code_total :
      (fuel k : ℕ) (s : RocksInner D G)
      → k < fuel
      → db.get_link (drawn k s) s.rows ≡ none
      → (r : Bytes × RocksInner D G) × Found fuel s r
  unfolding fresh_code drawn gen_code Found IsFree
  fresh_code_total zero k s h e = absurd (omega (arith, h))
  fresh_code_total (suc fuel) zero s h e =
      (gen_code draw s, (rw (e, fresh_code) refl, (0, omega arith, refl, e), refl))
  fresh_code_total (suc fuel) (suc k) s h e =
      elim (Option-cases (db.get_link (gen_code draw s).0 (gen_code draw s).1.rows)) [
        | inl f ↦ (gen_code draw s, (rw (f, fresh_code) refl, (0, omega arith, refl, f), refl))
        | inr (v, f) ↦
            let (r, (g, (i, b, p, n), q)) =
              fresh_code_total fuel k (gen_code draw s).1 (omega (arith, h)) e in
            (r, (rw (f, fresh_code) g, (suc i, omega (arith, b), p, n), q))
      ]

  free_counted :
      (k : ℕ) (s : RocksInner D G)
      → db.get_link (drawn k s) s.rows ≡ none
      → db.get_link (drawn k (counted Metrics.store_write s)) (counted Metrics.store_write s).rows
        ≡ none
  unfolding counted
  free_counted k s e = ap (λ c. db.get_link c s.rows) (drawn-counted k s) ∙ e

  counted-IsFree :
      (fuel : ℕ) (s : RocksInner D G) (c : Bytes)
      → IsFree fuel none (counted Metrics.store_write s) c
      → IsFree fuel none s c
  unfolding IsFree counted
  counted-IsFree fuel s c (k, h, p, e) = (k, h, p ∙ drawn-counted k s, e)

  shorten_total :
      (w : Moment) (fuel : ℕ) (url : Bytes) (alias : Option Bytes) (ttl_ms : Int64)
      (s : RocksInner D G)
      → CanDraw fuel alias s
      → (r : Option Bytes × RocksInner D G) × (shorten db draw w fuel url alias ttl_ms s ≡ some r)
        × Because w url ttl_ms fuel alias s r.0
  unfolding shorten CanDraw Found counted
  shorten_total w fuel url (some alias) ttl_ms s c =
      elim (Option-cases (db.get_link alias (counted Metrics.store_write s).rows)) [
        | inl e ↦ (
          create db draw w alias url ttl_ms (counted Metrics.store_write s),
          rw (e, shorten) refl,
          create-Because w fuel url (some alias) ttl_ms alias s (counted Metrics.store_write s)
              (unfold IsFree in (refl, e)) refl,
        )
        | inr (v, e) ↦ (
          (none, counted Metrics.store_write s),
          rw (e, shorten) refl,
          unfold Because in inl (alias, v, refl, e),
        )
      ]
  shorten_total w fuel url none ttl_ms s (k, h, e) =
      let (r, (f, n, q)) =
        fresh_code_total fuel k (counted Metrics.store_write s) h (free_counted k s e) in
      (
        create db draw w r.0 url ttl_ms r.1,
        rw (f, shorten) refl,
        create-Because w fuel url none ttl_ms r.0 s r.1 (counted-IsFree fuel s r.0 n) q,
      )

module _ {D G : Type 0} (db : Db D) (laws : DbLaws db) (draw : G → ℕ × G) where
  -- Whatever is asked of it, `shorten` answers, as long as an alias is given or one of the first `fuel`
  -- codes drawn has no row. It answers with a code just where the alias, or a code drawn, has no row and
  -- the database takes its new one: it is that code, and afterwards just its row is another, with the
  -- url, the expiry and the time of the call. It answers none just where the alias has a row, or the
  -- database does not take the row of such a code, and then no row has changed. The clock reads an
  -- int64_t.
  pub shorten-answers :
      (w : Moment) (fuel : ℕ) (url : Bytes) (alias : Option Bytes) (ttl_ms : Int64)
      (s : RocksInner D G)
      → w.now 0 < 2 ^ 64
      → CanDraw db draw fuel alias s
      → (r : Option Bytes) × (t : RocksInner D G) × (shorten db draw w fuel url alias ttl_ms s
          ≡ some (r, t))
        × Because db draw w url ttl_ms fuel alias s r
        × Shortened db w url ttl_ms s.rows r t.rows
  shorten-answers w fuel url alias ttl_ms s b c =
      let (r, e, y) = shorten_total db draw w fuel url alias ttl_ms s c in
      (r.0, r.1, e, y, shorten-Shortened Nowhere db laws draw w fuel url alias ttl_ms s r.1 r.0 b e)
