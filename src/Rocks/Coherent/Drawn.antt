-- ===== src/Rocks/Coherent/Drawn.antt =====
-- The codes that `shorten_many` over RocksDB draws, and their rows, before the second loop is done with
-- them.
use mathlib.Core.Path.{subst}
use shrt_cpp.Prelude.{
  ℕ, ◌≡◌, ◌⊎◌, inl, inr, refl, sym, ap, ◌∙◌, arith, Bool, true, false, List, [], ◌∷◌, Option, none,
  some, Bytes, bytes_eq, bytes_eq_iff, Int64, Bool-cases, Option-cases, if◌then◌else◌,
}
use shrt_cpp.Store.Create.{expires}
use shrt_cpp.Kv.Value.{enc}
use shrt_cpp.Kv.Cache.{KvEntry}
use shrt_cpp.Rocks.Db.{Db, DbLaws, link_after, link_after_all}
use shrt_cpp.Rocks.State.{RocksInner, Moment, at_cache, cache_put, gen_code}
use shrt_cpp.Rocks.Access.{decoded, link_of}
use shrt_cpp.Rocks.Create.{draw_each, with_code}
use shrt_cpp.Rocks.Rows.{WithRow}
use shrt_cpp.Rocks.Coherent.{cache_put-held, Coherent, Backs}
use shrt_cpp.Rocks.Coherent.Writes.{Done, Shortened}

-- The last url that is drawn for a code.
unfoldable pub last_url : Bytes → List Bytes → List Bytes → Option Bytes
last_url j ((b ∷ c) ∷ cs) (u ∷ us) = elim (last_url j cs us) [
  | some v ↦ some v
  | none ↦ if bytes_eq (b ∷ c) j then some u else none
]
last_url j ([] ∷ cs) (u ∷ us) = last_url j cs us
last_url j _ _ = none

pub last_url-nil : (c : Bytes) (cs : List Bytes) (j v : Bytes) → last_url j (c ∷ cs) [] ≡ some v → ⊥
unfolding last_url
last_url-nil [] cs j v e = ground (arith, e)
last_url-nil (b ∷ c) cs j v e = ground (arith, e)

-- An entry of `P`, or one of a code whose entry the second loop is yet to put in.
unfoldable pub Ahead :
    (Bytes → KvEntry → Type 0) → List Bytes → List Bytes → Bytes → KvEntry → Type 0
Ahead P cs us j it = ((u : Bytes) × (last_url j cs us ≡ some u)) ⊎ P j it

unfoldable pub written : Int64 → Int64 → Option Bytes → Option Bytes → Option Bytes
written exp now none o = o
written exp now (some u) o = some (enc exp now u)

written-cons :
    (now exp : Int64) (last : Option Bytes) (b : Bool) (u : Bytes) (o : Option Bytes)
    → written exp now last (if b then some (enc exp now u) else o)
      ≡ written exp now (elim last [ some v ↦ some v | none ↦ if b then some u else none ]) o
unfolding written
written-cons now exp none true u o = refl
written-cons now exp none false u o = refl
written-cons now exp (some v) b u o = refl

module _ {D G : Type 0} (db : Db D) (laws : DbLaws db) (draw : G → ℕ × G) where
  pub drawn-link :
      (now exp : Int64) (us : List Bytes) (s : RocksInner D G) (j : Bytes) (o : Option Bytes)
      → let r = draw_each db draw now exp us s in
        link_after_all j r.1.0 o ≡ written exp now (last_url j r.0 us) o
  unfolding draw_each link_after_all link_after last_url written gen_code
  drawn-link now exp [] s j o = refl
  drawn-link now exp (u ∷ us) s j o =
      elim (Option-cases (db.get_link (gen_code draw s).0 (gen_code draw s).1.rows)) [
        | inl e ↦
            rw (e, draw_each)
              (drawn-link now exp us (gen_code draw s).1 j _
                ∙ written-cons now exp _ (bytes_eq (gen_code draw s).0 j) u o)
        | inr (v, e) ↦ rw (e, draw_each) (drawn-link now exp us (gen_code draw s).1 j o)
      ]

  module _ (P : Bytes → KvEntry → Type 0) where
    gen-Coherent : (s : RocksInner D G) → Coherent P db s → Coherent P db (gen_code draw s).1
    unfolding gen_code Coherent
    gen-Coherent s co = co

    pub drawn-Coherent :
        (now exp : Int64) (us : List Bytes) (s : RocksInner D G)
        → Coherent P db s
        → let r = draw_each db draw now exp us s in Coherent P db r.1.1 × (r.1.1.rows ≡ s.rows)
    unfolding draw_each gen_code
    drawn-Coherent now exp [] s co = (co, refl)
    drawn-Coherent now exp (u ∷ us) s co =
        elim (Option-cases (db.get_link (gen_code draw s).0 (gen_code draw s).1.rows)) [
          | inl e ↦
              rw (e, draw_each) (drawn-Coherent now exp us (gen_code draw s).1 (gen-Coherent s co))
          | inr (v, e) ↦
              rw (e, draw_each) (drawn-Coherent now exp us (gen_code draw s).1 (gen-Coherent s co))
        ]

    pub weaken-Coherent :
        (Q : Bytes → KvEntry → Type 0) (s : RocksInner D G)
        → ((j : Bytes) (it : KvEntry) → P j it → Q j it)
        → Coherent P db s
        → Coherent Q db s
    unfolding Coherent Backs
    weaken-Coherent Q s f co j it h = elim (co j it h) [ inl x ↦ inl x | inr y ↦ inr (f j it y) ]

    pub with_code-Done :
        (code : Bytes) (o : Option (List Bytes × RocksInner D G))
        → Done (λ _ t. Coherent P db t) o
        → Done (λ _ t. Coherent P db t) (with_code db draw code o)
    unfolding with_code Done
    with_code-Done code none h = tt
    with_code-Done code (some (rest, t)) h = h

  -- Each code that is still ahead has the row that its last url makes.
  unfoldable pub Rows : Moment → Int64 → List Bytes → List Bytes → RocksInner D G → Type 0
  Rows w ttl_ms cs us s =
      (j u : Bytes)
      → last_url j cs us ≡ some u
      → link_of db j s.rows ≡ some (record { e = expires (w.now 0) ttl_ms; c = w.now 0; u = u })

  pub put-Ahead :
      (P : Bytes → KvEntry → Type 0) (w : Moment) (ttl_ms : Int64) (b : ℕ) (c : Bytes)
      (cs : List Bytes) (u : Bytes) (us : List Bytes) (s : RocksInner D G)
      → Rows w ttl_ms ((b ∷ c) ∷ cs) (u ∷ us) s
      → Coherent (Ahead P ((b ∷ c) ∷ cs) (u ∷ us)) db s
      → Coherent (Ahead P cs us) db (cache_put (w.now 1) (b ∷ c) u (expires (w.now 0) ttl_ms) s)
  unfolding Rows Coherent Backs Ahead last_url cache_put at_cache
  put-Ahead P w ttl_ms b c cs u us s r co j it h =
      elim (cache_put-held (w.now 1) (b ∷ c) u (expires (w.now 0) ttl_ms) j s it h) [
        | inl (q, p) ↦ elim (Option-cases (last_url j cs us)) [
          | inl e ↦
              subst (λ i. Backs (Ahead P cs us) j i (link_of db j s.rows)) (sym p)
                (inl (w.now 0, r j u (ground (arith, e, q))))
          | inr (v, e) ↦ inr (inl (v, e))
        ]
        | inr (q, g) ↦ elim (co j it g) [
          | inl x ↦ inl x
          | inr (inl (v, l)) ↦ inr (inl (v, ground (arith, l, q)))
          | inr (inr p) ↦ inr (inr p)
        ]
      ]

  pub put-Rows :
      (w : Moment) (ttl_ms : Int64) (b : ℕ) (c : Bytes) (cs : List Bytes) (u : Bytes)
      (us : List Bytes) (s : RocksInner D G)
      → Rows w ttl_ms ((b ∷ c) ∷ cs) (u ∷ us) s
      → Rows w ttl_ms cs us (cache_put (w.now 1) (b ∷ c) u (expires (w.now 0) ttl_ms) s)
  unfolding Rows last_url cache_put at_cache
  put-Rows w ttl_ms b c cs u us s r j v e = r j v (ground (arith, e))

  free-link : (c : Bytes) (d : D) → db.get_link c d ≡ none → link_of db c d ≡ none
  unfolding link_of decoded
  free-link c d h = ap decoded h

  pub shorten-Rows :
      (w w' : Moment) (url : Bytes) (ttl_ms : Int64) (cs us : List Bytes) (r : Option Bytes)
      (s t : RocksInner D G)
      → Shortened db w' url ttl_ms s.rows r t.rows
      → Rows w ttl_ms cs us s
      → Rows w ttl_ms cs us t
  unfolding Shortened Rows WithRow
  shorten-Rows w w' url ttl_ms cs us none s t sh rs j v e = ap (link_of db j) sh ∙ rs j v e
  shorten-Rows w w' url ttl_ms cs us (some c) s t (free, row) rs j v e =
      elim (Bool-cases (bytes_eq c j)) [
        | inl q ↦ absurd (
            ground (
              arith,
              rs j v e,
              subst (λ i. link_of db i s.rows ≡ none) ((bytes_eq_iff c j).0 q)
                  (free-link c s.rows free),
            ))
        | inr q ↦ ground (arith, row j, q, rs j v e)
      ]
