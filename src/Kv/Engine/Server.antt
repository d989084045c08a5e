-- ===== src/Kv/Engine/Server.antt =====
-- What the store over a RESP server relies on of the server: GET, SET, HGET and HSETNX.
use mathlib.Core.Option.{map}
use shrt_cpp.Prelude.{
  ℕ, Bool, true, false, ◌&&◌, List, [], ◌∷◌, Option, none, some, ◌≡◌, ◌⊎◌, inl, inr, refl, ap, ◌∙◌,
  arith, Bytes, codes, bytes_eq, bytes_eq_iff, Int64, find, Bool-cases, Option-cases, ◌==◌,
  if◌then◌else◌,
}
use shrt_cpp.Kv.Cache.{KvShard}
use shrt_cpp.Kv.Cache
use shrt_cpp.Kv.Resp.{Resp, text, number, bulk, null_bulk}
use shrt_cpp.Kv.Client.{
  lkey, bkey, set_args, first, cmd, get, set, hget, hsetnx, is_ok, is_null, is_number, count,
  payload, bulk_payload,
}

abbrev pub reply_of : Option Bytes → Resp
reply_of none = null_bulk
reply_of (some v) = bulk v

-- The documented behaviour of GET, SET with NX, HGET and HSETNX on a server that answers, as long as no
-- key expires. A key holds a string, its `value`, or a hash, with its fields, or nothing; what the
-- commands answer on a key that holds a value of the other kind is left open, but for SET with NX.
pub record Server {W : Type 0} (pipe : List (List Bytes) → W → Option (List Resp) × W)
    : Type 0 where
  pub value : Bytes → W → Option Bytes
  pub holds_hash : Bytes → W → Bool
  pub field : Bytes → Bytes → W → Option Bytes
  pub one_kind : (k x : Bytes) (w : W) → value k w ≡ some x → holds_hash k w ≡ false
  pub in_hash : (k f x : Bytes) (w : W) → field k f w ≡ some x → holds_hash k w ≡ true
  pub gets :
      (k : Bytes) (w : W)
      → holds_hash k w ≡ false
      → pipe ((codes "GET" ∷ k ∷ []) ∷ []) w ≡ (some (reply_of (value k w) ∷ []), w)
  pub hgets :
      (k f : Bytes) (w : W)
      → value k w ≡ none
      → pipe ((codes "HGET" ∷ k ∷ f ∷ []) ∷ []) w ≡ (some (reply_of (field k f w) ∷ []), w)
  pub sets :
      (k v : Bytes) (px : Int64) (w : W)
      → value k w ≡ none
      → holds_hash k w ≡ false
      → ((pipe (set_args k v px true ∷ []) w).0 ≡ some (text b'+' (codes "OK") ∷ []))
        × ((j : Bytes)
            → value j (pipe (set_args k v px true ∷ []) w).1
              ≡ (if bytes_eq k j then some v else value j w))
        × ((j : Bytes) → holds_hash j (pipe (set_args k v px true ∷ []) w).1 ≡ holds_hash j w)
  pub set_taken :
      (k v : Bytes) (px : Int64) (w : W)
      → ((x : Bytes) × (value k w ≡ some x)) ⊎ (holds_hash k w ≡ true)
      → pipe (set_args k v px true ∷ []) w ≡ (some (null_bulk ∷ []), w)
  pub hsets :
      (k f v : Bytes) (w : W)
      → value k w ≡ none
      → field k f w ≡ none
      → ((pipe ((codes "HSETNX" ∷ k ∷ f ∷ v ∷ []) ∷ []) w).0 ≡ some (number 1 ∷ []))
        × ((j g : Bytes)
            → field j g (pipe ((codes "HSETNX" ∷ k ∷ f ∷ v ∷ []) ∷ []) w).1
              ≡ (if bytes_eq k j && bytes_eq f g then some v else field j g w))
        × ((j : Bytes) → value j (pipe ((codes "HSETNX" ∷ k ∷ f ∷ v ∷ []) ∷ []) w).1 ≡ value j w)
  pub hset_taken :
      (k f v x : Bytes) (w : W)
      → field k f w ≡ some x
      → pipe ((codes "HSETNX" ∷ k ∷ f ∷ v ∷ []) ∷ []) w ≡ (some (number 0 ∷ []), w)

pub cache_get-none :
    (ttl now : Int64) (k : Bytes) (sh : KvShard)
    → find k sh.m ≡ none
    → Cache.cache_get ttl now k sh ≡ (none, sh)
unfolding Cache.cache_get
cache_get-none ttl now k sh h = rw (h, Cache.cache_get) refl

lkey-eq : (a b : Bytes) → bytes_eq (lkey a) (lkey b) ≡ bytes_eq a b
unfolding lkey bytes_eq
lkey-eq a b = ground arith

same_bucket :
    (k j : Bytes) (n : ℕ) (x y : Option Bytes)
    → (if bytes_eq (bkey n k) (bkey n j) && bytes_eq k j then x else y)
      ≡ (if bytes_eq k j then x else y)
same_bucket k j n x y = elim (Bool-cases (bytes_eq k j)) [
  | inl e ↦ rw e (
      ground (arith, (bytes_eq_iff (bkey n k) (bkey n j)).1 (ap (bkey n) ((bytes_eq_iff k j).0 e))))
  | inr e ↦ rw e (ground arith)
]

reply_get :
    (o : Option Bytes) → (if is_null (reply_of o) then none else some (payload (reply_of o))) ≡ o
unfolding is_null payload
reply_get none = refl
reply_get (some v) = refl

reply_hget : (o : Option Bytes) → bulk_payload (reply_of o) ≡ o
unfolding bulk_payload
reply_hget none = refl
reply_hget (some v) = refl

module _ {W : Type 0} (pipe : List (List Bytes) → W → Option (List Resp) × W)
    (srv : Server pipe) where
  -- The keys of the links are of the kind that the layout asks for: no bucket holds a string, or no key of
  -- a link holds a hash.
  unfoldable pub Fits : Bool → ℕ → W → Type 0
  Fits true n w = (code : Bytes) → srv.value (bkey n code) w ≡ none
  Fits false n w = (code : Bytes) → srv.holds_hash (lkey code) w ≡ false

  get-value :
      (k : Bytes) (w : W) → srv.holds_hash k w ≡ false → get pipe k w ≡ (some (srv.value k w), w)
  unfolding get cmd first
  get-value k w h =
      ap (λ r. (map (λ x. if is_null x then none else some (payload x)) (first r.0), r.1))
        (srv.gets k w h)
      ∙ ap (λ o. (some o, w)) (reply_get (srv.value k w))

  hget-field :
      (k f : Bytes) (w : W) → srv.value k w ≡ none → hget pipe k f w ≡ (some (srv.field k f w), w)
  unfolding hget cmd first
  hget-field k f w h =
      ap (λ r. (map bulk_payload (first r.0), r.1)) (srv.hgets k f w h)
      ∙ ap (λ o. (some o, w)) (reply_hget (srv.field k f w))

  set-new :
      (k v : Bytes) (px : Int64) (w : W)
      → srv.value k w ≡ none
      → srv.holds_hash k w ≡ false
      → ((set pipe k v px true w).0 ≡ some true)
        × ((j : Bytes)
            → srv.value j (set pipe k v px true w).1
              ≡ (if bytes_eq k j then some v else srv.value j w))
        × ((j : Bytes) → srv.holds_hash j (set pipe k v px true w).1 ≡ srv.holds_hash j w)
  unfolding set cmd first is_ok bytes_eq
  set-new k v px w h n =
      let (a, b, c) = srv.sets k v px w h n in (ap (λ r. map is_ok (first r)) a, b, c)

  set-taken :
      (k v x : Bytes) (px : Int64) (w : W)
      → srv.value k w ≡ some x
      → set pipe k v px true w ≡ (some false, w)
  unfolding set cmd first is_ok
  set-taken k v x px w h =
      ap (λ r. (map is_ok (first r.0), r.1)) (srv.set_taken k v px w (inl (x, h)))

  hset-new :
      (k f v : Bytes) (w : W)
      → srv.value k w ≡ none
      → srv.field k f w ≡ none
      → ((hsetnx pipe k f v w).0 ≡ some true)
        × ((j g : Bytes)
            → srv.field j g (hsetnx pipe k f v w).1
              ≡ (if bytes_eq k j && bytes_eq f g then some v else srv.field j g w))
        × ((j : Bytes) → srv.value j (hsetnx pipe k f v w).1 ≡ srv.value j w)
  unfolding hsetnx cmd first is_number count
  hset-new k f v w n h =
      let (a, b, c) = srv.hsets k f v w n h in
      (ap (λ r. map (λ x. is_number x && count x == 1) (first r)) a, b, c)

  hset-taken :
      (k f v x : Bytes) (w : W) → srv.field k f w ≡ some x → hsetnx pipe k f v w ≡ (some false, w)
  unfolding hsetnx cmd first is_number count
  hset-taken k f v x w h =
      ap (λ r. (map (λ x. is_number x && count x == 1) (first r.0), r.1))
        (srv.hset_taken k f v x w h)

  -- What the server holds for a code, in either layout.
  unfoldable pub held_by : Bool → ℕ → Bytes → W → Option Bytes
  held_by true n code w = srv.field (bkey n code) code w
  held_by false n code w = srv.value (lkey code) w

  pub get-held_by :
      (b : Bool) (n : ℕ) (code : Bytes) (w : W)
      → Fits b n w
      → (if b then hget pipe (bkey n code) code else get pipe (lkey code)) w
        ≡ (some (held_by b n code w), w)
  unfolding held_by Fits
  get-held_by true n code w fit = hget-field (bkey n code) code w (fit code)
  get-held_by false n code w fit = get-value (lkey code) w (fit code)

  -- A new link for a code that the server does not hold, and the answer for one that it holds; the keys
  -- are of the right kind as before.
  unfoldable pub Put : Bool → ℕ → Bytes → Bytes → W → Option Bool → W → Type 0
  Put b n code v w r w' =
      (((held_by b n code w ≡ none)
          × (r ≡ some true)
          × ((j : Bytes)
              → held_by b n j w' ≡ (if bytes_eq code j then some v else held_by b n j w)))
        ⊎ (((x : Bytes) × (held_by b n code w ≡ some x)) × (r ≡ some false) × (w' ≡ w)))
      × Fits b n w'

  pub new_link-Put :
      (b : Bool) (n : ℕ) (code v : Bytes) (px : Int64) (w : W)
      → Fits b n w
      → let r =
          (if b then hsetnx pipe (bkey n code) code v else set pipe (lkey code) v px true) w in
        Put b n code v w r.0 r.1
  unfolding Put held_by Fits
  new_link-Put true n code v px w fit = elim (Option-cases (srv.field (bkey n code) code w)) [
    | inl e ↦
        let (a, b, c) = hset-new (bkey n code) code v w (fit code) e in
        (inl (e, a, λ j. b (bkey n j) j ∙ same_bucket code j n _ _), λ j. c (bkey n j) ∙ fit j)
    | inr (x, e) ↦
        let a = hset-taken (bkey n code) code v x w e in
        (
          inr ((x, e), ap (λ r. r.0) a, ap (λ r. r.1) a),
          λ j. ap (λ r. srv.value (bkey n j) r.1) a ∙ fit j,
        )
  ]
  new_link-Put false n code v px w fit = elim (Option-cases (srv.value (lkey code) w)) [
    | inl e ↦
        let (a, b, c) = set-new (lkey code) v px w e (fit code) in
        (
          inl (
            e,
            a,
            λ j. b (lkey j) ∙ ap (λ t. if t then some v else srv.value (lkey j) w) (lkey-eq code j),
          ),
          λ j. c (lkey j) ∙ fit j,
        )
    | inr (x, e) ↦
        let a = set-taken (lkey code) v x px w e in
        (
          inr ((x, e), ap (λ r. r.0) a, ap (λ r. r.1) a),
          λ j. ap (λ r. srv.holds_hash (lkey j) r.1) a ∙ fit j,
        )
  ]
