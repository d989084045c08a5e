-- ===== src/Rocks/Coherent/Many.antt =====
-- `shorten_many` over RocksDB keeps the cache coherent.
use mathlib.Core.Path.{subst}
use shrt_cpp.Prelude.{
  ℕ, suc, ◌^◌, ◌<◌, ◌≡◌, inl, inr, refl, ap, ◌∙◌, arith, true, false, List, [], ◌∷◌, Option, none,
  some, Bytes, Int64, Bool-cases, Option-cases,
}
use shrt_cpp.Store.Create.{expires}
use shrt_cpp.Kv.Value.RoundTrip.{dec-enc}
use shrt_cpp.Kv.Cache.{KvEntry}
use shrt_cpp.Rocks.Db.{Db, DbLaws}
use shrt_cpp.Rocks.State.{RocksInner, Moment}
use shrt_cpp.Rocks.Access.{decoded, link_of}
use shrt_cpp.Rocks.Create.{or_same, shorten, draw_each, with_code, settle_each, shorten_many}
use shrt_cpp.Rocks.Rows.{expires-lt}
use shrt_cpp.Rocks.Coherent.{Coherent, Backs, Nowhere}
use shrt_cpp.Rocks.Coherent.Writes.{with_rows, Done, Shortened, shorten-Shortened, shorten-Coherent}
use shrt_cpp.Rocks.Coherent.Drawn.{
  last_url, last_url-nil, Ahead, written, drawn-link, drawn-Coherent, weaken-Coherent,
  with_code-Done, Rows, put-Ahead, put-Rows, shorten-Rows,
}

module _ {D G : Type 0} (db : Db D) (laws : DbLaws db) (draw : G → ℕ × G) where
  module _ (w : Moment) (fuel : ℕ) (ttl_ms : Int64) (b : w.now 0 < 2 ^ 64)
      (P : Bytes → KvEntry → Type 0) where
    shorten_step-Done :
        (Q : Bytes → KvEntry → Type 0) (w' : Moment) (code url : Bytes)
        (rest : RocksInner D G → Option (List Bytes × RocksInner D G)) (s : RocksInner D G)
        → w'.now 0 < 2 ^ 64
        → ((r : Option Bytes) (t : RocksInner D G)
            → Shortened db w' url ttl_ms s.rows r t.rows
            → Coherent Q db t
            → Done (λ _ t. Coherent P db t) (rest t))
        → Coherent Q db s
        → Done
            (λ _ t. Coherent P db t)
            (elim (shorten db draw w' fuel url none ttl_ms s) [
              | none ↦ none
              | some (c2, s') ↦ with_code db draw (or_same code c2) (rest s')
            ])
    unfolding Done
    shorten_step-Done Q w' code url rest s b' k co =
        elim (Option-cases (shorten db draw w' fuel url none ttl_ms s)) [
          | inl e ↦ rw (e, Done) tt
          | inr (r, e) ↦ rw e (
              with_code-Done db laws draw P (or_same code r.0) (rest r.1) (
                k r.0 r.1
                  (shorten-Shortened Nowhere db laws draw w' fuel url none ttl_ms s r.1 r.0 b' e)
                  (shorten-Coherent Q db laws draw w' fuel url none ttl_ms s r.1 r.0 b' e co)))
        ]

    settled-Coherent :
        (ws : ℕ → Moment) (cs us : List Bytes) (s : RocksInner D G)
        → ((k : ℕ) → (ws k).now 0 < 2 ^ 64)
        → Rows db laws draw w ttl_ms cs us s
        → Coherent (Ahead P cs us) db s
        → Done (λ _ t. Coherent P db t) (settle_each db draw w ws fuel ttl_ms true cs us s)
    unfolding settle_each Done last_url Ahead Rows
    settled-Coherent ws [] us s bs r co =
        weaken-Coherent db laws draw (Ahead P [] us) P s
          (λ j it q. elim q [ inl (v, e) ↦ ground (arith, e) | inr p ↦ p ]) co
    settled-Coherent ws (c ∷ cs) [] s bs r co =
        weaken-Coherent db laws draw (Ahead P (c ∷ cs) []) P s
          (λ j it q. elim q [ inl (v, e) ↦ absurd (last_url-nil c cs j v e) | inr p ↦ p ]) co
    settled-Coherent ws ((b' ∷ c) ∷ cs) (u ∷ us) s bs r co =
        with_code-Done db laws draw P (b' ∷ c) _ (
          settled-Coherent (λ k. ws (suc k)) cs us _ (λ k. bs (suc k))
            (put-Rows db laws draw w ttl_ms b' c cs u us s r)
            (put-Ahead db laws draw P w ttl_ms b' c cs u us s r co))
    settled-Coherent ws ([] ∷ cs) (u ∷ us) s bs r co =
        shorten_step-Done (Ahead P cs us) (ws 0) [] u
          (settle_each db draw w (λ k. ws (suc k)) fuel ttl_ms true cs us) s (bs 0)
          (λ q t sh k.
            settled-Coherent (λ i. ws (suc i)) cs us t (λ i. bs (suc i))
              (shorten-Rows db laws draw w (ws 0) u ttl_ms cs us q s t sh r) k)
          co

    refused-Coherent :
        (ws : ℕ → Moment) (cs us : List Bytes) (s : RocksInner D G)
        → ((k : ℕ) → (ws k).now 0 < 2 ^ 64)
        → Coherent P db s
        → Done (λ _ t. Coherent P db t) (settle_each db draw w ws fuel ttl_ms false cs us s)
    unfolding settle_each Done
    refused-Coherent ws [] us s bs co = co
    refused-Coherent ws (c ∷ cs) [] s bs co = co
    refused-Coherent ws ([] ∷ cs) (u ∷ us) s bs co =
        shorten_step-Done P (ws 0) [] u
          (settle_each db draw w (λ k. ws (suc k)) fuel ttl_ms false cs us) s (bs 0)
          (λ q t sh k. refused-Coherent (λ i. ws (suc i)) cs us t (λ i. bs (suc i)) k) co
    refused-Coherent ws ((b' ∷ c) ∷ cs) (u ∷ us) s bs co =
        shorten_step-Done P (ws 0) (b' ∷ c) u
          (settle_each db draw w (λ k. ws (suc k)) fuel ttl_ms false cs us) s (bs 0)
          (λ q t sh k. refused-Coherent (λ i. ws (suc i)) cs us t (λ i. bs (suc i)) k) co

    written-Rows :
        (us : List Bytes) (s : RocksInner D G)
        → let r = draw_each db draw (w.now 0) (expires (w.now 0) ttl_ms) us s in
          (db.write r.1.0 r.1.1.rows).0 ≡ true
          → Rows db laws draw w ttl_ms r.0 us
              (record r.1.1 { rows = (db.write r.1.0 r.1.1.rows).1 })
    unfolding Rows link_of written decoded
    written-Rows us s h j u e =
        ap decoded (
          laws.written_links _ j _ h
          ∙ drawn-link db laws draw (w.now 0) (expires (w.now 0) ttl_ms) us s j _)
        ∙ rw (e, written, decoded)
            (dec-enc (expires (w.now 0) ttl_ms) (w.now 0) u (expires-lt (w.now 0) ttl_ms) b)

    unwritten :
        (us : List Bytes) (s : RocksInner D G)
        → let r = draw_each db draw (w.now 0) (expires (w.now 0) ttl_ms) us s in
          (db.write r.1.0 r.1.1.rows).0 ≡ true
          → (j : Bytes) → last_url j r.0 us ≡ none
          → link_of db j (db.write r.1.0 r.1.1.rows).1 ≡ link_of db j r.1.1.rows
    unfolding link_of written decoded
    unwritten us s h j e =
        ap decoded (
          laws.written_links _ j _ h
          ∙ drawn-link db laws draw (w.now 0) (expires (w.now 0) ttl_ms) us s j _)
        ∙ rw (e, written, decoded) refl

    written-Ahead :
        (us : List Bytes) (s : RocksInner D G)
        → Coherent P db s
        → let r = draw_each db draw (w.now 0) (expires (w.now 0) ttl_ms) us s in
          (db.write r.1.0 r.1.1.rows).0 ≡ true
          → Coherent (Ahead P r.0 us) db (record r.1.1 { rows = (db.write r.1.0 r.1.1.rows).1 })
    unfolding Coherent Backs Ahead
    written-Ahead us s co h j it g =
        let r = draw_each db draw (w.now 0) (expires (w.now 0) ttl_ms) us s in
        let k = (drawn-Coherent db laws draw P (w.now 0) (expires (w.now 0) ttl_ms) us s co).0 in
        elim (Option-cases (last_url j r.0 us)) [
          | inl e ↦ elim (k j it g) [
            | inl (c, q) ↦ inl (c, unwritten us s h j e ∙ q)
            | inr p ↦ inr (inr p)
          ]
          | inr (v, e) ↦ inr (inl (v, e))
        ]

    many-Coherent :
        (ws : ℕ → Moment) (us : List Bytes) (s : RocksInner D G)
        → ((k : ℕ) → (ws k).now 0 < 2 ^ 64)
        → Coherent P db s
        → Done (λ _ t. Coherent P db t) (shorten_many db draw w ws fuel us ttl_ms s)
    unfolding shorten_many
    many-Coherent ws us s bs co =
        let r = draw_each db draw (w.now 0) (expires (w.now 0) ttl_ms) us s in
        let k = drawn-Coherent db laws draw P (w.now 0) (expires (w.now 0) ttl_ms) us s co in
        elim (Bool-cases (db.write r.1.0 r.1.1.rows).0) [
          | inl e ↦
              rw e (settled-Coherent ws r.0 us _ bs (written-Rows us s e) (written-Ahead us s co e))
          | inr e ↦
              rw e
                (refused-Coherent ws r.0 us _ bs (with_rows P db r.1.1 _ (laws.refused _ _ e) k.0))
        ]

  pub shorten_many-Coherent :
      (P : Bytes → KvEntry → Type 0) (w : Moment) (ws : ℕ → Moment) (fuel : ℕ) (urls : List Bytes)
      (ttl_ms : Int64) (s t : RocksInner D G) (codes' : List Bytes)
      → w.now 0 < 2 ^ 64
      → ((k : ℕ) → (ws k).now 0 < 2 ^ 64)
      → shorten_many db draw w ws fuel urls ttl_ms s ≡ some (codes', t)
      → Coherent P db s
      → Coherent P db t
  unfolding Done
  shorten_many-Coherent P w ws fuel urls ttl_ms s t codes' b bs h co =
      subst (Done (λ _ t. Coherent P db t)) h (many-Coherent w fuel ttl_ms b P ws urls s bs co)
