-- ===== src/Examples/Servers.antt =====
-- Concrete runs of the theorems on the store over a RESP server.
use shrt_cpp.Prelude.{
  ℕ, zero, suc, true, false, ◌&&◌, not, List, [], ◌∷◌, Option, none, some, ◌≡◌, ◌⊎◌, refl, ap,
  arith, Bytes, codes, bytes_eq, bytes_eq_iff, le64, Bool, Bool-cases, Option-cases, inl, inr, sym,
  ◌∙◌, ◌==◌, find, if◌then◌else◌,
}
use shrt_cpp.Store.Create.{expires}
use shrt_cpp.Kv.Cache.{empty_shard}
use shrt_cpp.Kv.Resp.{Resp}
use shrt_cpp.Kv.Client.{set_args}
use shrt_cpp.Kv.Engine.{KvInner, shorten_alias, resolve}
use shrt_cpp.Kv.Engine.Server.{Server, reply_of, held_by, Fits}
use shrt_cpp.Kv.Engine.Laws.{held, Typed, Aliased, shorten_alias-held, resolve-shorten_alias}
use shrt_cpp.Examples.{abc, some_url}
use shrt_cpp.Examples.Engines.{moment, draw, no_counters}

-- A server of which only GET, HGET, and SET and HSETNX of new links are asked. A key holds a string or a
-- hash, and a command on a key of the other kind is refused.
data Stored : Type 0 where
  str : Bytes → Stored
  hash : (Bytes → Option Bytes) → Stored

abbrev Keys : Type 0
Keys = Bytes → Option Stored

abbrev str_of : Option Stored → Option Bytes
str_of none = none
str_of (some (str v)) = some v
str_of (some (hash h)) = none

abbrev is_hash : Option Stored → Bool
is_hash none = false
is_hash (some (str v)) = false
is_hash (some (hash h)) = true

abbrev field_of : Bytes → Option Stored → Option Bytes
field_of f none = none
field_of f (some (str v)) = none
field_of f (some (hash h)) = h f

abbrev wrong_type : Resp
wrong_type = Resp.text b'-' (codes "WRONGTYPE")

abbrev get_key : Option Stored → Resp
get_key none = Resp.null_bulk
get_key (some (str v)) = Resp.bulk v
get_key (some (hash h)) = wrong_type

abbrev get_field : Bytes → Option Stored → Resp
get_field f none = Resp.null_bulk
get_field f (some (str v)) = wrong_type
get_field f (some (hash h)) = reply_of (h f)

abbrev put_key : Bytes → Bytes → Option Stored → Keys → Resp × Keys
put_key k v none w = (Resp.text b'+' (codes "OK"), λ j. if bytes_eq k j then some (str v) else w j)
put_key k v (some x) w = (Resp.null_bulk, w)

abbrev with_field : Bytes → Bytes → Option Stored → Stored
with_field f v o = hash (λ g. if bytes_eq f g then some v else field_of g o)

abbrev add_field : Bytes → Bytes → Bytes → Keys → Resp × Keys
add_field k f v w = (Resp.number 1, λ j. if bytes_eq k j then some (with_field f v (w k)) else w j)

abbrev put_field : Bytes → Bytes → Bytes → Option Stored → Option Bytes → Keys → Resp × Keys
put_field k f v (some (str x)) o w = (wrong_type, w)
put_field k f v (some (hash h)) none w = add_field k f v w
put_field k f v (some (hash h)) (some x) w = (Resp.number 0, w)
put_field k f v none o w = add_field k f v w

abbrev nth : ℕ → List Bytes → Bytes
nth i [] = []
nth zero (a ∷ args) = a
nth (suc i) (a ∷ args) = nth i args

one_reply : List Bytes → Keys → Resp × Keys
unfolding bytes_eq
one_reply [] w = (Resp.null_bulk, w)
one_reply (c ∷ args) w =
    if bytes_eq c (codes "GET")
    then (get_key (w (nth 0 args)), w)
    else if bytes_eq c (codes "HGET")
    then (get_field (nth 1 args) (w (nth 0 args)), w)
    else if bytes_eq c (codes "SET")
    then put_key (nth 0 args) (nth 1 args) (w (nth 0 args)) w
    else put_field (nth 0 args) (nth 1 args) (nth 2 args) (w (nth 0 args))
        (field_of (nth 1 args) (w (nth 0 args))) w

keys_pipe : List (List Bytes) → Keys → Option (List Resp) × Keys
keys_pipe [] w = (some [], w)
keys_pipe (c ∷ cs) w = let (r, w') = one_reply c w in (some (r ∷ []), w')

key_get : (o : Option Stored) → is_hash o ≡ false → get_key o ≡ reply_of (str_of o)
key_get none h = refl
key_get (some (str v)) h = refl
key_get (some (hash g)) h = absurd (ground (arith, h))

field_get :
    (f : Bytes) (o : Option Stored) → str_of o ≡ none → get_field f o ≡ reply_of (field_of f o)
field_get f none h = refl
field_get f (some (str v)) h = absurd (ground (arith, h))
field_get f (some (hash g)) h = refl

no_key : (o : Option Stored) → str_of o ≡ none → is_hash o ≡ false → o ≡ none
no_key none h g = refl
no_key (some (str v)) h g = absurd (ground (arith, h))
no_key (some (hash f)) h g = absurd (ground (arith, g))

key_put :
    (k v : Bytes) (w : Keys)
    → w k ≡ none
    → put_key k v (w k) w
      ≡ (Resp.text b'+' (codes "OK"), λ j. if bytes_eq k j then some (str v) else w j)
key_put k v w h = ap (λ o. put_key k v o w) h

key_taken :
    (k v : Bytes) (w : Keys)
    → ((x : Bytes) × (str_of (w k) ≡ some x)) ⊎ (is_hash (w k) ≡ true)
    → put_key k v (w k) w ≡ (Resp.null_bulk, w)
key_taken k v w h = elim (Option-cases (w k)) [
  | inl e ↦ absurd (elim h [ inl (x, p) ↦ ground (arith, e, p) | inr p ↦ ground (arith, e, p) ])
  | inr (x, e) ↦ ap (λ o. put_key k v o w) e
]

put_str :
    (b : Bool) (v : Bytes) (o : Option Stored)
    → str_of (if b then some (str v) else o) ≡ (if b then some v else str_of o)
put_str true v o = refl
put_str false v o = refl

put_is_hash :
    (k j v : Bytes) (w : Keys)
    → w k ≡ none
    → is_hash (if bytes_eq k j then some (str v) else w j) ≡ is_hash (w j)
put_is_hash k j v w h = elim (Bool-cases (bytes_eq k j)) [
  | inl e ↦ rw e (sym (ap is_hash (ap w (sym ((bytes_eq_iff k j).0 e)) ∙ h)))
  | inr e ↦ rw e refl
]

field_put :
    (k f v : Bytes) (w : Keys) (o : Option Stored)
    → str_of o ≡ none
    → field_of f o ≡ none
    → put_field k f v o (field_of f o) w ≡ add_field k f v w
field_put k f v w none n h = refl
field_put k f v w (some (str x)) n h = absurd (ground (arith, n))
field_put k f v w (some (hash g)) n h = ap (λ r. put_field k f v (some (hash g)) r w) h

field_taken :
    (k f v x : Bytes) (w : Keys) (o : Option Stored)
    → field_of f o ≡ some x
    → put_field k f v o (field_of f o) w ≡ (Resp.number 0, w)
field_taken k f v x w none h = absurd (ground (arith, h))
field_taken k f v x w (some (str y)) h = absurd (ground (arith, h))
field_taken k f v x w (some (hash g)) h = ap (λ r. put_field k f v (some (hash g)) r w) h

put_fields :
    (k f v j g : Bytes) (w : Keys)
    → field_of g (if bytes_eq k j then some (with_field f v (w k)) else w j)
      ≡ (if bytes_eq k j && bytes_eq f g then some v else field_of g (w j))
put_fields k f v j g w = elim (Bool-cases (bytes_eq k j)) [
  | inl e ↦
      rw e (ap (λ i. if bytes_eq f g then some v else field_of g (w i)) ((bytes_eq_iff k j).0 e))
  | inr e ↦ rw e refl
]

put_strs :
    (k f v j : Bytes) (w : Keys)
    → str_of (w k) ≡ none
    → str_of (if bytes_eq k j then some (with_field f v (w k)) else w j) ≡ str_of (w j)
put_strs k f v j w h = elim (Bool-cases (bytes_eq k j)) [
  | inl e ↦ rw e (sym (ap (λ i. str_of (w i)) (sym ((bytes_eq_iff k j).0 e)) ∙ h))
  | inr e ↦ rw e refl
]

one_kind_of : (x : Bytes) (o : Option Stored) → str_of o ≡ some x → is_hash o ≡ false
one_kind_of x none h = refl
one_kind_of x (some (str v)) h = refl
one_kind_of x (some (hash f)) h = absurd (ground (arith, h))

in_hash_of : (f x : Bytes) (o : Option Stored) → field_of f o ≡ some x → is_hash o ≡ true
in_hash_of f x none h = absurd (ground (arith, h))
in_hash_of f x (some (str v)) h = absurd (ground (arith, h))
in_hash_of f x (some (hash g)) h = refl

keys_server : Server keys_pipe
unfolding keys_pipe one_reply set_args
keys_server = record {
  value = λ k w. str_of (w k);
  holds_hash = λ k w. is_hash (w k);
  field = λ k f w. field_of f (w k);
  one_kind = λ k x w. one_kind_of x (w k);
  in_hash = λ k f x w. in_hash_of f x (w k);
  gets = λ k w h. ap (λ r. (some (r ∷ []), w)) (key_get (w k) h);
  hgets = λ k f w h. ap (λ r. (some (r ∷ []), w)) (field_get f (w k) h);
  sets = λ k v px w h n.
      let e = no_key (w k) h n in
      (
        ap (λ r. some (r.0 ∷ [])) (key_put k v w e),
        λ j. ap (λ r. str_of (r.1 j)) (key_put k v w e) ∙ put_str (bytes_eq k j) v (w j),
        λ j. ap (λ r. is_hash (r.1 j)) (key_put k v w e) ∙ put_is_hash k j v w e,
      );
  set_taken = λ k v px w h. ap (λ r. (some (r.0 ∷ []), r.1)) (key_taken k v w h);
  hsets = λ k f v w n h. (
    ap (λ r. some (r.0 ∷ [])) (field_put k f v w (w k) n h),
    λ j g. ap (λ r. field_of g (r.1 j)) (field_put k f v w (w k) n h) ∙ put_fields k f v j g w,
    λ j. ap (λ r. str_of (r.1 j)) (field_put k f v w (w k) n h) ∙ put_strs k f v j w n,
  );
  hset_taken = λ k f v x w h. ap (λ r. (some (r.0 ∷ []), r.1)) (field_taken k f v x w (w k) h);
}

abbrev empty_kv : KvInner Keys ℕ
empty_kv = record {
  server = λ k. none;
  cache = λ i. empty_shard;
  cap_per_shard = 16;
  cache_ttl_ms = 0;
  dirty = λ i. [];
  prefix = b'0';
  layout_hash = true;
  buckets = 1000;
  rng = 1;
  counters = no_counters;
}

all_Typed : Typed keys_pipe keys_server empty_kv
unfolding Typed Fits keys_server
all_Typed = λ code. refl

shorten_alias-held_example :
    let r = shorten_alias keys_pipe draw moment some_url abc 0 empty_kv in
    Aliased keys_pipe keys_server draw moment some_url abc 0 empty_kv r.0 r.1
    × Typed keys_pipe keys_server r.1
shorten_alias-held_example =
    shorten_alias-held keys_pipe keys_server draw moment some_url abc 0 empty_kv all_Typed

nothing_held : held keys_pipe keys_server abc empty_kv ≡ none
unfolding held held_by keys_server
nothing_held = refl

not_expiring : (not (expires 1000 0 == 0) && le64 (expires 1000 0) 1000) ≡ false
unfolding expires
not_expiring = refl

resolve-shorten_alias_example :
    (resolve keys_pipe moment abc (shorten_alias keys_pipe draw moment some_url abc 0 empty_kv).1).0
    ≡ some (some some_url)
resolve-shorten_alias_example =
    resolve-shorten_alias keys_pipe keys_server draw moment moment some_url abc 0 empty_kv
      (omega arith) all_Typed nothing_held (unfold find in refl) not_expiring
