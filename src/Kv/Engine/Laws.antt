-- ===== src/Kv/Engine/Laws.antt =====
-- New links over a RESP server, and the reads that follow.
use shrt_cpp.Prelude.{
  ℕ, ◌^◌, ◌<◌, false, not, ◌&&◌, List, Option, none, some, ◌≡◌, ◌⊎◌, inl, inr, refl, ap, ◌∙◌, arith,
  Bytes, bytes_eq, bytes_eq_refl, Int64, find, le64, ◌==◌, if◌then◌else◌,
}
use shrt_cpp.Metrics
use shrt_cpp.Store.Create.{expires}
use shrt_cpp.Kv.Value.{Value, enc}
use shrt_cpp.Kv.Value.RoundTrip.{dec-enc}
use shrt_cpp.Kv.Resp.{Resp}
use shrt_cpp.Kv.Client.{shard}
use shrt_cpp.Rocks.State.{Moment}
use shrt_cpp.Rocks.Rows.{expires-lt}
use shrt_cpp.Kv.Engine.{
  KvInner, at_cache, counted, cache_get, ask, live, kv_get, found, miss, cached, resolve, put_new,
  alias_of, shorten_alias,
}
use shrt_cpp.Kv.Engine.Server.{
  Server, cache_get-none, held_by, Fits, get-held_by, Put, new_link-Put,
}

module _ {W G : Type 0} (pipe : List (List Bytes) → W → Option (List Resp) × W)
    (srv : Server pipe) where
  unfoldable pub held : Bytes → KvInner W G → Option Bytes
  held code s = held_by pipe srv s.layout_hash s.buckets code s.server

  -- The keys on the server are of the kind that the layout asks for.
  unfoldable pub Typed : KvInner W G → Type 0
  Typed s = Fits pipe srv s.layout_hash s.buckets s.server

  kv_get-held :
      (code : Bytes) (s : KvInner W G) → Typed s → kv_get pipe code s ≡ (some (held code s), s)
  unfolding kv_get held ask Typed
  kv_get-held code s fit =
      ap (λ r. (r.0, record s { server = r.1 }))
        (get-held_by pipe srv s.layout_hash s.buckets code s.server fit)

  cached-none :
      (w : Moment) (code v : Bytes) (x : Value) (s : KvInner W G)
      → Typed s
      → held code s ≡ some v
      → live (w.now 1) (some v) ≡ some x
      → (cached pipe w code none s).0 ≡ some (some x.u)
  unfolding cached miss found counted held Typed
  cached-none w code v x s fit h l =
      ap (λ r. (miss pipe w code r.0 r.1).0) (kv_get-held code (counted Metrics.cache_miss s) fit)
      ∙ ap (λ o. (miss pipe w code (some o) (counted Metrics.cache_miss s)).0) h
      ∙ ap
          (λ o.
            (found pipe w code o
              (counted (λ m. Metrics.store_read w.read_us (Metrics.cache_miss m)) s)).0)
          l

  -- A code that the server holds and the cache does not resolves to its url, as long as it lives.
  resolve-held :
      (w : Moment) (code v : Bytes) (x : Value) (s : KvInner W G)
      → Typed s
      → find code (s.cache (shard code)).m ≡ none
      → held code s ≡ some v
      → live (w.now 1) (some v) ≡ some x
      → (resolve pipe w code s).0 ≡ some (some x.u)
  unfolding resolve cache_get at_cache held Typed
  resolve-held w code v x s fit c h l =
      ap (λ r. (cached pipe w code r.0 (at_cache (shard code) (λ _. r.1) s)).0)
        (cache_get-none s.cache_ttl_ms (w.now 0) code (s.cache (shard code)) c)
      ∙ cached-none w code v x (at_cache (shard code) (λ _. s.cache (shard code)) s) fit h l

module _ {W G : Type 0} (pipe : List (List Bytes) → W → Option (List Resp) × W) (srv : Server pipe)
    (draw : G → ℕ × G) where
  -- What a `shorten` under an alias does: a new link where the server does not hold the alias, else nothing.
  unfoldable pub Aliased :
      Moment → Bytes → Bytes → Int64 → KvInner W G → Option (Option Bytes) → KvInner W G → Type 0
  Aliased w url alias ttl_ms s r t =
      ((held pipe srv alias s ≡ none)
        × (r ≡ some (some alias))
        × ((j : Bytes)
            → held pipe srv j t ≡ (
                if bytes_eq alias j
                then some (enc (expires (w.now 0) ttl_ms) (w.now 0) url)
                else held pipe srv j s)))
      ⊎ (((x : Bytes) × (held pipe srv alias s ≡ some x)) × (r ≡ some none) × (t.server ≡ s.server))

  -- An alias is taken just where the server holds it, and what is answered then is none, with the server
  -- as it was; else the alias is the answer, and the server holds for it the stored form of the url with
  -- the time and the expiry of the call, and for every other code what it held. The keys stay of the kind
  -- that the layout asks for, as they were. This is in either layout, for a server that answers as its
  -- documentation says.
  pub shorten_alias-held :
      (w : Moment) (url alias : Bytes) (ttl_ms : Int64) (s : KvInner W G)
      → Typed pipe srv s
      → let r = shorten_alias pipe draw w url alias ttl_ms s in
        Aliased w url alias ttl_ms s r.0 r.1 × Typed pipe srv r.1
  unfolding shorten_alias put_new ask held counted alias_of Put Aliased Typed
  shorten_alias-held w url alias ttl_ms s fit =
      let (p, q) =
        new_link-Put pipe srv s.layout_hash s.buckets alias
          (enc (expires (w.now 0) ttl_ms) (w.now 0) url) ttl_ms s.server fit in
      (
        elim p [
          | inl (a, b, c) ↦ inl (a, ap (alias_of alias) b, c)
          | inr (a, b, c) ↦ inr (a, ap (alias_of alias) b, c)
        ],
        q,
      )

  -- A new link resolves: where the keys are of the kind that the layout asks for, and when `shorten` gives an alias that the server did not hold, and the cache has no
  -- entry for it, then a `resolve` that follows gives the url, as long as the expiry of the link has not
  -- passed at the second reading of its clock. The clock of the first call reads an int64_t.
  pub resolve-shorten_alias :
      (w w' : Moment) (url alias : Bytes) (ttl_ms : Int64) (s : KvInner W G)
      → w.now 0 < 2 ^ 64
      → Typed pipe srv s
      → held pipe srv alias s ≡ none
      → find alias (s.cache (shard alias)).m ≡ none
      → (not (expires (w.now 0) ttl_ms == 0) && le64 (expires (w.now 0) ttl_ms) (w'.now 1)) ≡ false
      → (resolve pipe w' alias (shorten_alias pipe draw w url alias ttl_ms s).1).0 ≡ some (some url)
  unfolding live shorten_alias put_new ask counted Aliased
  resolve-shorten_alias w w' url alias ttl_ms s b fit h c e =
      let (p, fit') = shorten_alias-held w url alias ttl_ms s fit in
      elim p [
        | inl (a, q, t) ↦
            resolve-held pipe srv w' alias (enc (expires (w.now 0) ttl_ms) (w.now 0) url)
              (record { e = expires (w.now 0) ttl_ms; c = w.now 0; u = url })
              (shorten_alias pipe draw w url alias ttl_ms s).1 fit' c
              (ground (arith, t alias, bytes_eq_refl alias))
              (rw
                (
                  dec-enc (expires (w.now 0) ttl_ms) (w.now 0) url (expires-lt (w.now 0) ttl_ms) b,
                  e,
                  live,
                )
                refl)
        | inr ((x, a), q, t) ↦ absurd (ground (arith, a, h))
      ]
