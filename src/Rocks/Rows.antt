-- ===== src/Rocks/Rows.antt =====
-- The decoded rows of RocksDB: their bounds, and what a write of one row does to them.
use shrt_cpp.Prelude.{
  ◌^◌, ◌<◌, ◌≡◌, inl, inr, sym, ap, ◌∙◌, arith, true, false, [], ◌∷◌, Option, some, Bytes, bytes_eq,
  Int64, split_at, Option-cases, if◌then◌else◌,
}
use shrt_cpp.Codec.Number.{skip_space}
use shrt_cpp.Store.Create.{expires}
use shrt_cpp.Kv.Value.{
  Value, enc, dec, dec_fields, dec_rest, stoll, stoll_signed, positive, negative,
}
use shrt_cpp.Kv.Value.RoundTrip.{dec-enc}
use shrt_cpp.Rocks.Db.{Db, DbLaws, put_link, link_after, link_after_all}
use shrt_cpp.Rocks.Access.{decoded, link_of}

pub expires-lt : (now ttl_ms : Int64) → expires now ttl_ms < 2 ^ 64
unfolding expires
expires-lt now ttl_ms = ground arith

positive-lt : (s : Bytes) (n : Int64) → positive s ≡ some n → n < 2 ^ 64
unfolding positive
positive-lt s n h = ground (arith, h)

negative-lt : (s : Bytes) (n : Int64) → negative s ≡ some n → n < 2 ^ 64
unfolding negative
negative-lt s n h = ground (arith, h)

stoll_signed-lt : (s : Bytes) (n : Int64) → stoll_signed s ≡ some n → n < 2 ^ 64
unfolding stoll_signed
stoll_signed-lt [] n h = ground (arith, h)
stoll_signed-lt (c ∷ s) n h =
    ground (arith, h, negative-lt s n, positive-lt s n, positive-lt (c ∷ s) n)

stoll-lt : (s : Bytes) (n : Int64) → stoll s ≡ some n → n < 2 ^ 64
unfolding stoll
stoll-lt s n h = stoll_signed-lt (skip_space s) n h

dec_rest-lt :
    (e : Int64) (s : Bytes) (x : Value)
    → e < 2 ^ 64
    → dec_rest e s ≡ some x
    → (x.e < 2 ^ 64) × (x.c < 2 ^ 64)
unfolding dec_rest
dec_rest-lt e s x b h = elim (Option-cases (split_at b'|' s)) [
  | inl p ↦ ground (arith, h, p, b)
  | inr (r, p) ↦ elim (Option-cases (stoll r.0)) [
    | inl q ↦ ground (arith, h, p, q, b)
    | inr (c, q) ↦ ground (arith, h, p, q, b, stoll-lt r.0 c q)
  ]
]

dec_fields-lt : (v : Bytes) (x : Value) → dec_fields v ≡ some x → (x.e < 2 ^ 64) × (x.c < 2 ^ 64)
unfolding dec_fields
dec_fields-lt v x h = elim (Option-cases (split_at b'|' v)) [
  | inl p ↦ ground (arith, h, p)
  | inr (r, p) ↦ elim (Option-cases (stoll r.0)) [
    | inl q ↦ ground (arith, h, p, q)
    | inr (e, q) ↦ ground (arith, h, p, q, dec_rest-lt e r.1 x (stoll-lt r.0 e q))
  ]
]

pub link_of-lt :
    {D : Type 0} (db : Db D) (k : Bytes) (d : D) (x : Value)
    → link_of db k d ≡ some x
    → (x.e < 2 ^ 64) × (x.c < 2 ^ 64)
unfolding link_of decoded dec
link_of-lt db k d x h = elim (Option-cases (db.get_link k d)) [
  | inl p ↦ ground (arith, h, p)
  | inr (v, p) ↦ dec_fields-lt _ x (ap decoded (sym p) ∙ h)
]

-- The row of `code` is `x`, the other rows are those of `base`.
unfoldable pub WithRow : {D : Type 0} → Db D → Bytes → Option Value → D → D → Type 0
WithRow db code x base d =
    (j : Bytes) → link_of db j d ≡ (if bytes_eq code j then x else link_of db j base)

module _ {D : Type 0} (db : Db D) (laws : DbLaws db) where
  pub put-WithRow :
      (k u : Bytes) (e c : Int64) (d : D)
      → e < 2 ^ 64
      → c < 2 ^ 64
      → (db.put k (enc e c u) d).0 ≡ true
      → WithRow db k (some (record { e = e; c = c; u = u })) d (db.put k (enc e c u) d).1
  unfolding WithRow link_of decoded link_after_all link_after
  put-WithRow k u e c d he hc h j =
      let p = laws.put_write k (enc e c u) d in
      let q = laws.written_links (put_link k (enc e c u) ∷ []) j d (ap (λ r. r.0) (sym p) ∙ h) in
      ap (λ r. decoded (db.get_link j r.1)) p ∙ ap decoded q ∙ ground (arith, dec-enc e c u he hc)

  pub put_refused : (k v : Bytes) (d : D) → (db.put k v d).0 ≡ false → (db.put k v d).1 ≡ d
  put_refused k v d h =
      let p = laws.put_write k v d in ap (λ r. r.1) p ∙ laws.refused _ d (ap (λ r. r.0) (sym p) ∙ h)
