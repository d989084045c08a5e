-- ===== src/Kv/Engine.antt =====
-- KvInnerImpl of src/store_kv.cpp: the operations on one link over an exchange with the server, in the
-- layout of plain keys and in that of hashes.
pub mod Ops
pub mod Scan
pub mod Server
pub mod Laws
use shrt_cpp.Prelude.{
  ℕ, zero, suc, ◌-◌, Bool, true, false, not, ◌&&◌, List, ◌∷◌, Option, none, some, Bytes, Int64,
  add64, le64, Dict, find, put, ◌==◌, if◌then◌else◌,
}
use shrt_cpp.Metrics.{Counters}
use shrt_cpp.Metrics
use shrt_cpp.Store.State.{code_len}
use shrt_cpp.Store.Create.{expires}
use shrt_cpp.Kv.Value.{Value, enc, dec}
use shrt_cpp.Kv.Cache.{KvShard}
use shrt_cpp.Kv.Cache
use shrt_cpp.Kv.Resp.{Resp}
use shrt_cpp.Kv.Client.{shard, lkey, bkey}
use shrt_cpp.Kv.Client
use shrt_cpp.Rocks.State.{Moment, or_zero, gen_suffix}

pub record KvInner (W G : Type 0) : Type 0 where
  pub server : W
  pub cache : ℕ → KvShard
  pub cap_per_shard : ℕ
  pub cache_ttl_ms : Int64
  pub dirty : ℕ → Dict Int64
  pub prefix : ℕ
  pub layout_hash : Bool
  pub buckets : ℕ
  pub rng : G
  pub counters : Counters

module _ {W G : Type 0} where
  unfoldable pub at_cache : ℕ → (KvShard → KvShard) → KvInner W G → KvInner W G
  at_cache i f s = record s { cache = λ j. if j == i then f (s.cache j) else s.cache j }

  unfoldable pub counted : (Counters → Counters) → KvInner W G → KvInner W G
  counted f s = record s { counters = f s.counters }

  unfoldable pub bump : Moment → Bytes → KvInner W G → KvInner W G
  bump w code s =
      if w.track_hits
      then record s {
        dirty = λ j.
            if j == shard code
            then put code (add64 (or_zero (find code (s.dirty j))) 1) (s.dirty j)
            else s.dirty j;
      }
      else s

  unfoldable pub cache_get : Moment → Bytes → KvInner W G → Option Bytes × KvInner W G
  cache_get w code s =
      let r = Cache.cache_get s.cache_ttl_ms (w.now 0) code (s.cache (shard code)) in
      (r.0, at_cache (shard code) (λ _. r.1) s)

  unfoldable pub cache_put : Int64 → Bytes → Bytes → Int64 → KvInner W G → KvInner W G
  cache_put now code u e s = at_cache (shard code) (Cache.cache_put s.cap_per_shard now code u e) s

  unfoldable pub cache_del : Bytes → KvInner W G → KvInner W G
  cache_del code = at_cache (shard code) (Cache.cache_del code)

  -- One exchange with the server.
  unfoldable pub ask : {A : Type 0} → (W → Option A × W) → KvInner W G → Option A × KvInner W G
  ask f s = let (r, v) = f s.server in (r, record s { server = v })

module _ {W G : Type 0} (draw : G → ℕ × G) where
  unfoldable pub gen_code : KvInner W G → Bytes × KvInner W G
  gen_code s =
      let (rest, g) = gen_suffix draw (code_len - 1) s.rng in
      (s.prefix ∷ rest, record s { rng = g })

-- The stored form of a code, decoded; live unless its expiry has passed.
unfoldable pub live : Int64 → Option Bytes → Option Value
live now none = none
live now (some v) = elim (dec v) [
  | none ↦ none
  | some x ↦ if not (x.e == 0) && le64 x.e now then none else some x
]

module _ {W G : Type 0} (pipe : List (List Bytes) → W → Option (List Resp) × W) where
  unfoldable pub kv_get : Bytes → KvInner W G → Option (Option Bytes) × KvInner W G
  kv_get code s =
      ask
        (if s.layout_hash
          then Client.hget pipe (bkey s.buckets code) code
          else Client.get pipe (lkey code))
        s

  -- Behind the read of the stored form; the outer option is none where the exchange throws.
  unfoldable pub found :
      Moment → Bytes → Option Value → KvInner W G → Option (Option Bytes) × KvInner W G
  found w code none s = (some none, s)
  found w code (some x) s = (some (some x.u), bump w code (cache_put (w.now 2) code x.u x.e s))

  unfoldable pub miss :
      Moment → Bytes → Option (Option Bytes) → KvInner W G → Option (Option Bytes) × KvInner W G
  miss w code none s = (none, s)
  miss w code (some v) s =
      found w code (live (w.now 1) v) (counted (Metrics.store_read w.read_us) s)

  unfoldable pub cached :
      Moment → Bytes → Option Bytes → KvInner W G → Option (Option Bytes) × KvInner W G
  cached w code (some u) s = (some (some u), bump w code (counted Metrics.cache_hit s))
  cached w code none s =
      let (v, s') = kv_get code (counted Metrics.cache_miss s) in miss w code v s'

  unfoldable pub resolve : Moment → Bytes → KvInner W G → Option (Option Bytes) × KvInner W G
  resolve w code s = let (u, s') = cache_get w code s in cached w code u s'

  -- The write that fails where the code is there.
  unfoldable pub put_new : Bytes → Bytes → Int64 → KvInner W G → Option Bool × KvInner W G
  put_new code v ttl_ms s =
      ask
        (if s.layout_hash
          then Client.hsetnx pipe (bkey s.buckets code) code v
          else Client.set pipe (lkey code) v ttl_ms true)
        s

unfoldable pub alias_of : Bytes → Option Bool → Option (Option Bytes)
alias_of alias none = none
alias_of alias (some done) = some (if done then some alias else none)

module _ {W G : Type 0} (pipe : List (List Bytes) → W → Option (List Resp) × W)
    (draw : G → ℕ × G) where
  -- The loop over at most `fuel` drawn codes; an exchange that throws ends it with none. The outer option
  -- is none when all codes were taken.
  unfoldable pub try_codes : ℕ → Bytes → Int64 → KvInner W G → Option (Option Bytes × KvInner W G)
  try_codes zero v ttl_ms s = none
  try_codes (suc fuel) v ttl_ms s =
      let (code, s₁) = gen_code draw s in
      let (r, s₂) = put_new pipe code v ttl_ms s₁ in
      elim r [
        | none ↦ some (none, s₂)
        | some done ↦ elim done [ true ↦ some (some code, s₂) | false ↦ try_codes fuel v ttl_ms s₂ ]
      ]

  -- With an alias, none in the middle is an exchange that throws.
  unfoldable pub shorten_alias :
      Moment → Bytes → Bytes → Int64 → KvInner W G → Option (Option Bytes) × KvInner W G
  shorten_alias w url alias ttl_ms s =
      let v = enc (expires (w.now 0) ttl_ms) (w.now 0) url in
      let (r, s') = put_new pipe alias v ttl_ms (counted Metrics.store_write s) in
      (alias_of alias r, s')

  unfoldable pub shorten_drawn :
      Moment → ℕ → Bytes → Int64 → KvInner W G → Option (Option Bytes × KvInner W G)
  shorten_drawn w fuel url ttl_ms s =
      try_codes fuel (enc (expires (w.now 0) ttl_ms) (w.now 0) url) ttl_ms
        (counted Metrics.store_write s)
