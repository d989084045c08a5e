-- ===== src/Kv/Client.antt =====
-- The commands of src/kv.cpp and the keys of src/store_kv.cpp, over an exchange with the server.
use mathlib.Core.Option.{map}
use shrt_cpp.Prelude.{
  ℕ, ◌%◌, Bool, true, false, ◌&&◌, List, [], ◌∷◌, ◌++◌, Option, none, some, Bytes, codes, Int64,
  is_pos, bytes_eq, ◌==◌, if◌then◌else◌,
}
use shrt_cpp.Codec.Number.{itoa}
use shrt_cpp.Store.State.{fnv}
use shrt_cpp.Kv.Resp.{Resp, text, number, bulk, null_bulk, null_array}

abbrev pub kv_shards : ℕ
kv_shards = 256

unfoldable pub shard : Bytes → ℕ
shard code = fnv 2166136261 code % kv_shards

unfoldable pub lkey : Bytes → Bytes
lkey c = codes "l:" ++ c

unfoldable pub hkey : Bytes → Bytes
hkey c = codes "h:" ++ c

-- The bucket of a code in the hash layout; `buckets` is at least 1.
unfoldable pub bkey : ℕ → Bytes → Bytes
bkey buckets c = codes "l:" ++ itoa (shard c % buckets)

-- The payload of a reply, its number and whether it is +OK.
unfoldable pub payload : Resp → Bytes
payload (text k s) = s
payload (bulk s) = s
payload _ = []

unfoldable pub count : Resp → Int64
count (number n) = n
count _ = 0

unfoldable pub is_ok : Resp → Bool
is_ok (text k s) = k == b'+' && bytes_eq s (codes "OK")
is_ok _ = false

unfoldable pub is_null : Resp → Bool
is_null null_bulk = true
is_null null_array = true
is_null _ = false

unfoldable pub is_number : Resp → Bool
is_number (number n) = true
is_number _ = false

unfoldable pub bulk_payload : Resp → Option Bytes
bulk_payload (bulk s) = some s
bulk_payload _ = none

-- PX where the time is positive, then NX.
unfoldable pub set_args : Bytes → Bytes → Int64 → Bool → List Bytes
set_args k v px_ms nx =
    (codes "SET" ∷ k ∷ v ∷ [])
    ++ ((if is_pos px_ms then codes "PX" ∷ itoa px_ms ∷ [] else [])
        ++ (if nx then codes "NX" ∷ [] else []))

unfoldable pub increments : List (Bytes × Int64) → List (List Bytes)
increments [] = []
increments ((k, d) ∷ ds) = (codes "INCRBY" ∷ k ∷ itoa d ∷ []) ∷ increments ds

unfoldable pub field_increments : List (Bytes × (Bytes × Int64)) → List (List Bytes)
field_increments [] = []
field_increments ((k, (f, n)) ∷ ds) = (codes "HINCRBY" ∷ k ∷ f ∷ itoa n ∷ []) ∷ field_increments ds

unfoldable pub first : Option (List Resp) → Option Resp
first (some (r ∷ rs)) = some r
first _ = none

-- `W` is the server with the connection to it. `pipe` sends framed commands and reads a reply for each,
-- or throws (none), whatever the server has done by then.
module _ {W : Type 0} (pipe : List (List Bytes) → W → Option (List Resp) × W) where
  unfoldable pub cmd : List Bytes → W → Option Resp × W
  cmd args w = let (rs, w') = pipe (args ∷ []) w in (first rs, w')

  unfoldable pub get : Bytes → W → Option (Option Bytes) × W
  get k w =
      let (r, w') = cmd (codes "GET" ∷ k ∷ []) w in
      (map (λ x. if is_null x then none else some (payload x)) r, w')

  unfoldable pub set : Bytes → Bytes → Int64 → Bool → W → Option Bool × W
  set k v px_ms nx w = let (r, w') = cmd (set_args k v px_ms nx) w in (map is_ok r, w')

  unfoldable pub delete : Bytes → W → Option Int64 × W
  delete k w = let (r, w') = cmd (codes "DEL" ∷ k ∷ []) w in (map count r, w')

  unfoldable pub hget : Bytes → Bytes → W → Option (Option Bytes) × W
  hget k f w = let (r, w') = cmd (codes "HGET" ∷ k ∷ f ∷ []) w in (map bulk_payload r, w')

  unfoldable pub hsetnx : Bytes → Bytes → Bytes → W → Option Bool × W
  hsetnx k f v w =
      let (r, w') = cmd (codes "HSETNX" ∷ k ∷ f ∷ v ∷ []) w in
      (map (λ x. is_number x && count x == 1) r, w')

  unfoldable pub hset : Bytes → Bytes → Bytes → W → Option Bool × W
  hset k f v w = let (r, w') = cmd (codes "HSET" ∷ k ∷ f ∷ v ∷ []) w in (map is_number r, w')

  unfoldable pub hdel : Bytes → Bytes → W → Option Int64 × W
  hdel k f w = let (r, w') = cmd (codes "HDEL" ∷ k ∷ f ∷ []) w in (map count r, w')

  -- Whether the exchange went through; the replies are not looked at.
  unfoldable pub sent : List (List Bytes) → W → Bool × W
  sent [] w = (true, w)
  sent (c ∷ cs) w = let (rs, w') = pipe (c ∷ cs) w in (elim rs [ none ↦ false | some _ ↦ true ], w')

  unfoldable pub incrby_many : List (Bytes × Int64) → W → Bool × W
  incrby_many ds = sent (increments ds)

  unfoldable pub hincrby_many : List (Bytes × (Bytes × Int64)) → W → Bool × W
  hincrby_many ds = sent (field_increments ds)
