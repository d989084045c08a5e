-- ===== src/Kv/Engine/Ops.antt =====
-- `update`, `remove`, `stats`, `shorten_many`, the flush of the hits and `seed` of src/store_kv.cpp.
use shrt_cpp.Prelude.{
  ℕ, zero, suc, Bool, true, false, ◌&&◌, List, [], ◌∷◌, ◌++◌, Option, none, some, Bytes, codes,
  Int64, add64, sub64, is_pos, Dict, find, ◌==◌, if◌then◌else◌,
}
use shrt_cpp.Store.State.{MutResult, ok, missing, Link}
use shrt_cpp.Store.Create.{expires}
use shrt_cpp.Kv.Value.{Value, enc, dec, stoll}
use shrt_cpp.Kv.Resp.{Resp}
use shrt_cpp.Kv.Client.{kv_shards, shard, lkey, hkey, bkey, is_ok, is_number, count, set_args}
use shrt_cpp.Kv.Client
use shrt_cpp.Rocks.State.{Moment, or_zero}
use shrt_cpp.Rocks.Create.{or_same}
use shrt_cpp.Kv.Engine.{KvInner, cache_del, ask, gen_code, kv_get, shorten_drawn}

-- The time that `update` gives to the key: what is left of the expiry.
unfoldable pub time_left : Int64 → Int64 → Int64
time_left now exp = if is_pos exp then sub64 exp now else 0

-- Where the exchange throws, so does the operation: none.
unfoldable pub mut_of : Option Bool → Option MutResult
mut_of none = none
mut_of (some done) = some (if done then ok else missing)

unfoldable pub is_done : Option Bool → Bool
is_done (some true) = true
is_done _ = false

unfoldable pub hits_number : Option Bytes → Int64
hits_number none = 0
hits_number (some v) = or_zero (stoll v)

-- The deltas of the `n` shards from `i` on.
unfoldable pub deltas : ℕ → ℕ → (ℕ → Dict Int64) → List (Bytes × Int64)
deltas zero i dirty = []
deltas (suc n) i dirty = dirty i ++ deltas n (suc i) dirty

unfoldable pub key_deltas : List (Bytes × Int64) → List (Bytes × Int64)
key_deltas [] = []
key_deltas ((code, n) ∷ ds) = (hkey code, n) ∷ key_deltas ds

unfoldable pub field_deltas : ℕ → List (Bytes × Int64) → List (Bytes × (Bytes × Int64))
field_deltas buckets [] = []
field_deltas buckets ((code, n) ∷ ds) =
    (bkey buckets code, (hkey code, n)) ∷ field_deltas buckets ds

module _ {W G : Type 0} (pipe : List (List Bytes) → W → Option (List Resp) × W) where
  unfoldable pub put_over : Int64 → Bytes → Bytes → Int64 → KvInner W G → Option Bool × KvInner W G
  put_over now code v exp s =
      ask
        (if s.layout_hash
          then Client.hset pipe (bkey s.buckets code) code v
          else Client.set pipe (lkey code) v (time_left now exp) false)
        s

  unfoldable pub update_to :
      Moment → Bytes → Bytes → Int64 → Bool → Value → KvInner W G → Option MutResult × KvInner W G
  update_to w code url ttl_ms has_ttl x s =
      let exp = if has_ttl then expires (w.now 0) ttl_ms else x.e in
      let (r, s') = put_over (w.now 1) code (enc exp x.c url) exp s in
      (mut_of r, if is_done r then cache_del code s' else s')

  unfoldable pub update :
      Moment → Bytes → Bytes → Int64 → Bool → KvInner W G → Option MutResult × KvInner W G
  update w code url ttl_ms has_ttl s =
      let (v, s') = kv_get pipe code s in
      elim v [
        | none ↦ (none, s')
        | some none ↦ (some missing, s')
        | some (some v') ↦ elim (dec v') [
          | none ↦ (some missing, s')
          | some x ↦ update_to w code url ttl_ms has_ttl x s'
        ]
      ]

  -- The key or field of the link, then that of its hits.
  unfoldable pub delete_link : Bytes → KvInner W G → Option Int64 × KvInner W G
  delete_link code s =
      ask
        (if s.layout_hash
          then Client.hdel pipe (bkey s.buckets code) code
          else Client.delete pipe (lkey code))
        s

  unfoldable pub delete_hits : Bytes → KvInner W G → Option Int64 × KvInner W G
  delete_hits code s =
      ask
        (if s.layout_hash
          then Client.hdel pipe (bkey s.buckets code) (hkey code)
          else Client.delete pipe (hkey code))
        s

  unfoldable pub remove : Bytes → KvInner W G → Option MutResult × KvInner W G
  remove code s =
      let (n, s₁) = delete_link code s in
      elim n [
        | none ↦ (none, s₁)
        | some k ↦
            if is_pos k
            then (let (m, s₂) = delete_hits code s₁ in
                elim m [ none ↦ (none, s₂) | some _ ↦ (some ok, cache_del code s₂) ])
            else (some missing, s₁)
      ]

  unfoldable pub get_hits : Bytes → KvInner W G → Option (Option Bytes) × KvInner W G
  get_hits code s =
      ask
        (if s.layout_hash
          then Client.hget pipe (bkey s.buckets code) (hkey code)
          else Client.get pipe (hkey code))
        s

  -- Also the links that have expired are reported.
  unfoldable pub stats_of : Bytes → Option Bytes → Option Bytes → KvInner W G → Option Link
  stats_of code none hv s = none
  stats_of code (some v) hv s = elim (dec v) [
    | none ↦ none
    | some x ↦ some (record {
      code = code;
      url = x.u;
      hits = add64 (hits_number hv) (or_zero (find code (s.dirty (shard code))));
      created_at = x.c;
      expires_at = x.e;
    })
  ]

  unfoldable pub stats : Bytes → KvInner W G → Option (Option Link) × KvInner W G
  stats code s =
      let (v, s₁) = kv_get pipe code s in
      let (hv, s₂) = get_hits code s₁ in
      elim v [
        | none ↦ (none, s₁)
        | some v' ↦ elim hv [ none ↦ (none, s₂) | some hv' ↦ (some (stats_of code v' hv' s₂), s₂) ]
      ]

  -- Whether the exchange went through; the deltas are gone also where it did not.
  unfoldable pub flush_hits : KvInner W G → Bool × KvInner W G
  flush_hits s =
      let ds = deltas kv_shards 0 s.dirty in
      let (r, v) =
        if s.layout_hash
        then Client.hincrby_many pipe (field_deltas s.buckets ds) s.server
        else Client.incrby_many pipe (key_deltas ds) s.server in
      (r, record s { dirty = λ i. []; server = v })

-- The command that stores a new link, in either layout.
unfoldable pub store_args : Bool → ℕ → Bytes → Bytes → Int64 → List Bytes
store_args layout_hash buckets code v ttl_ms =
    if layout_hash
    then codes "HSETNX" ∷ bkey buckets code ∷ code ∷ v ∷ []
    else set_args (lkey code) v ttl_ms true

-- Whether the reply says that the link was stored.
unfoldable pub stored : Bool → Resp → Bool
stored layout_hash r = if layout_hash then is_number r && count r == 1 else is_ok r

unfoldable pub stored_at : Bool → List Resp → Bool
stored_at layout_hash [] = false
stored_at layout_hash (r ∷ rs) = stored layout_hash r

unfoldable pub tail : List Resp → List Resp
tail [] = []
tail (r ∷ rs) = rs

unfoldable pub or_empty : Option (List Resp) → List Resp
or_empty none = []
or_empty (some rs) = rs

unfoldable pub with_code : {S : Type 0} → Bytes → Option (List Bytes × S) → Option (List Bytes × S)
with_code code none = none
with_code code (some (rest, s)) = some (code ∷ rest, s)

module _ {W G : Type 0} (pipe : List (List Bytes) → W → Option (List Resp) × W)
    (draw : G → ℕ × G) where
  -- The first loop: the codes and the commands.
  unfoldable pub draw_each :
      Int64
      → Int64
      → Int64
      → List Bytes
      → KvInner W G
      → List Bytes × (List (List Bytes) × KvInner W G)
  draw_each now exp ttl_ms [] s = ([], ([], s))
  draw_each now exp ttl_ms (url ∷ urls) s =
      let (code, s₁) = gen_code draw s in
      let (drawn, (cmds, s₂)) = draw_each now exp ttl_ms urls s₁ in
      (code ∷ drawn, (store_args s.layout_hash s.buckets code (enc exp now url) ttl_ms ∷ cmds, s₂))

  -- The second loop, on what there is of the replies: a link that was not stored is shortened anew, by a
  -- call that reads the clock for itself; `ws` are the moments of these calls.
  unfoldable pub settle_each :
      (ℕ → Moment)
      → ℕ
      → Int64
      → List Bytes
      → List Bytes
      → List Resp
      → KvInner W G
      → Option (List Bytes × KvInner W G)
  settle_each ws fuel ttl_ms (code ∷ drawn) (url ∷ urls) rs s = elim (stored_at s.layout_hash rs) [
    | true ↦ with_code code (settle_each (λ k. ws (suc k)) fuel ttl_ms drawn urls (tail rs) s)
    | false ↦ elim (shorten_drawn pipe draw (ws 0) fuel url ttl_ms s) [
      | none ↦ none
      | some (c2, s') ↦
          with_code (or_same code c2)
            (settle_each (λ k. ws (suc k)) fuel ttl_ms drawn urls (tail rs) s')
    ]
  ]
  settle_each ws fuel ttl_ms _ _ rs s = some ([], s)

  unfoldable pub shorten_many :
      Moment
      → (ℕ → Moment)
      → ℕ
      → List Bytes
      → Int64
      → KvInner W G
      → Option (List Bytes × KvInner W G)
  shorten_many w ws fuel urls ttl_ms s =
      let now = w.now 0 in
      let (drawn, (cmds, s')) = draw_each now (expires now ttl_ms) ttl_ms urls s in
      let (rs, v) = pipe cmds s'.server in
      settle_each ws fuel ttl_ms drawn urls (or_empty rs) (record s' { server = v })

  -- Whether the flush went through; where it did not, `seed` throws.
  unfoldable pub seed :
      Moment → (ℕ → Moment) → ℕ → List Bytes → KvInner W G → Option (Bool × KvInner W G)
  seed w ws fuel urls s = elim (shorten_many w ws fuel urls 0 s) [
    | none ↦ none
    | some (_, s') ↦ some (flush_hits pipe s')
  ]
