-- ===== src/Store/Sound.antt =====
-- The invariant of a running store: its entries and its unwritten hits.
use mathlib.Core.Path.{subst}
use shrt_cpp.Prelude.{
  ℕ, ◌^◌, ◌<◌, Bool, true, false, [], ◌∷◌, Option, none, some, ◌≡◌, refl, sym, ap, ◌∙◌, fun_ext,
  arith, inl, inr, Bool-cases, Bytes, bytes_eq, bytes_eq_iff, Int64, All, Dict, find, erase, put,
  ◌==◌, if◌then◌else◌,
}
use shrt_cpp.Store.State.{
  Entry, Shard, Inner, World, max_instances, alphabet, shard_of, entry?, at_shard,
}
use shrt_cpp.Store.Apply.{with_entries, add_hits}
use shrt_cpp.Store.Create.{byte_at, emplace}
use shrt_cpp.Store.Access.{mark_dirty, count_hit}
use shrt_cpp.Store.Index.{entry?-emplace, entry?-erase}
use shrt_cpp.Store.Views.{target, view}
use shrt_cpp.Store.Chunks.{IsCode}

-- The world of a store that runs alone: every write makes progress, the clock is in range, and the
-- other instances' logs are empty.
pub record IsCalm (w : World) : Type 0 where
  pub writes : (k : ℕ) → 0 < w.accept k
  pub clock : (k : ℕ) → w.now k < 2 ^ 64
  pub alone : (f : Bytes) → w.files f ≡ []

pub record IsInRange (e : Entry) : Type 0 where
  pub created : e.a < 2 ^ 64
  pub expiry : e.e < 2 ^ 64

abbrev pub IsDirty : Bytes × Int64 → Type 0
IsDirty kv = IsCode kv.0 × (kv.1 < 2 ^ 64)

pub record IsSound (s : Inner) : Type 0 where
  pub instance_bound : s.instance_id < max_instances
  pub prefix_of_instance : s.prefix ≡ byte_at s.instance_id alphabet
  pub entries : (j : Bytes) (e : Entry) → entry? j s ≡ some e → IsInRange e
  pub dirty : (k : ℕ) → All IsDirty (s.shards k).dirty

target-add_hits : (e : Entry) → target (add_hits 1 true e) ≡ target e
unfolding add_hits
target-add_hits e = refl

All-put :
    (k : Bytes) (d : Int64) (m : Dict Int64)
    → IsDirty (k, d)
    → All IsDirty m
    → All IsDirty (put k d m)
unfolding put
All-put k d [] h hm = (h, tt)
All-put k d ((j, c) ∷ m) h hm = elim (Bool-cases (bytes_eq j k)) [
  | inl e ↦ rw e (h, hm.1)
  | inr e ↦ rw e (hm.0, All-put k d m h hm.1)
]

-- Only the shards, the instance and its prefix matter.
pub IsSound-same :
    {s t : Inner}
    → t.shards ≡ s.shards
    → t.instance_id ≡ s.instance_id
    → t.prefix ≡ s.prefix
    → IsSound s
    → IsSound t
IsSound-same {s} {t} p q r h = record {
  instance_bound = rw q h.instance_bound;
  prefix_of_instance = rw (q, r) h.prefix_of_instance;
  entries = λ j e x.
      h.entries j e (unfold entry? in ap (λ m. find j (m (shard_of j)).entries) (sym p) ∙ x);
  dirty = λ k. rw p (h.dirty k);
}

IsInRange-either :
    (b : Bool) (e f : Entry) (o : Option Entry)
    → (if b then some e else o) ≡ some f
    → IsInRange e
    → (o ≡ some f → IsInRange f)
    → IsInRange f
IsInRange-either true e f o p he ho = ground arith
IsInRange-either false e f o p he ho = ho p

IsInRange-erased :
    (b : Bool) (f : Entry) (o : Option Entry)
    → (if b then none else o) ≡ some f
    → (o ≡ some f → IsInRange f)
    → IsInRange f
IsInRange-erased true f o p ho = cc
IsInRange-erased false f o p ho = ho p

dirty-with_entries :
    (c : ℕ) (f : Dict Entry → Dict Entry) (s : Inner) (k : ℕ)
    → ((at_shard c (with_entries f) s).shards k).dirty ≡ (s.shards k).dirty
dirty-with_entries c f s k = ground arith

pub emplace-IsSound :
    (c : Bytes) (e : Entry) (s : Inner) → IsInRange e → IsSound s → IsSound (emplace c e s)
emplace-IsSound c e s he h = record {
  instance_bound = unfold emplace in h.instance_bound;
  prefix_of_instance = unfold emplace in h.prefix_of_instance;
  entries = λ j f p.
      IsInRange-either (bytes_eq c j) e f (entry? j s) (sym (entry?-emplace c j e s) ∙ p) he
        (h.entries j f);
  dirty = λ k.
      unfold emplace in
      subst (All IsDirty) (sym (dirty-with_entries (shard_of c) (put c e) s k)) (h.dirty k);
}

pub erase-IsSound :
    (c : Bytes) (s : Inner) → IsSound s → IsSound (at_shard (shard_of c) (with_entries (erase c)) s)
erase-IsSound c s h = record {
  instance_bound = h.instance_bound;
  prefix_of_instance = h.prefix_of_instance;
  entries = λ j f p.
      IsInRange-erased (bytes_eq c j) f (entry? j s) (sym (entry?-erase c j s) ∙ p) (h.entries j f);
  dirty =
      λ k. subst (All IsDirty) (sym (dirty-with_entries (shard_of c) (erase c) s k)) (h.dirty k);
}

mark_dirty-IsDirty :
    (c : Bytes) (sh : Shard) → IsCode c → All IsDirty sh.dirty → All IsDirty (mark_dirty c sh).dirty
unfolding mark_dirty
mark_dirty-IsDirty c sh hc h = All-put c _ sh.dirty (hc, omega arith) h

entry?-mark_dirty :
    (c : Bytes) (k : ℕ) (j : Bytes) (s : Inner)
    → entry? j (at_shard k (mark_dirty c) s) ≡ entry? j s
unfolding entry? mark_dirty
entry?-mark_dirty c k j s = ground arith

dirty_marked :
    (b : Bool) (c : Bytes) (sh : Shard)
    → IsCode c
    → All IsDirty sh.dirty
    → All IsDirty (if b then mark_dirty c sh else sh).dirty
dirty_marked true c sh hc h = mark_dirty-IsDirty c sh hc h
dirty_marked false c sh hc h = h

marked-IsSound :
    (c : Bytes) (k : ℕ) (s : Inner) → IsCode c → IsSound s → IsSound (at_shard k (mark_dirty c) s)
marked-IsSound c k s hc h = record {
  instance_bound = h.instance_bound;
  prefix_of_instance = h.prefix_of_instance;
  entries = λ j f p. h.entries j f (sym (entry?-mark_dirty c k j s) ∙ p);
  dirty = λ j. dirty_marked (j == k) c (s.shards j) hc (h.dirty j);
}

pub count_hit-IsSound :
    (w : World) (c : Bytes) (e : Entry) (s : Inner)
    → IsCode c
    → IsInRange e
    → IsSound s
    → IsSound (count_hit w c e s)
unfolding count_hit
count_hit-IsSound w c e s hc he h = elim (Bool-cases w.track_hits) [
  | inl t ↦ rw t (
      marked-IsSound c (shard_of c) _ hc (
        emplace-IsSound c (add_hits 1 true e) s
          (unfold add_hits in record { created = he.created; expiry = he.expiry }) h))
  | inr t ↦ rw t h
]

-- Counting a hit on the entry of a code changes no target.
pub view-count_hit :
    (w : World) (c : Bytes) (e : Entry) (s : Inner)
    → entry? c s ≡ some e
    → view (count_hit w c e s) ≡ view s
unfolding count_hit
view-count_hit w c e s p = fun_ext λ j. ground (
  arith,
  bytes_eq_iff c j,
  entry?-emplace c j (add_hits 1 true e) s,
  entry?-mark_dirty c (shard_of c) j (emplace c (add_hits 1 true e) s),
  target-add_hits e,
)
