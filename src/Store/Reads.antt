-- ===== src/Store/Reads.antt =====
-- `resolve` and `flush` of src/store.cpp, the invariant and the log.
use shrt_cpp.Prelude.{
  ℕ, Bool, true, false, [], Option, some, ◌≡◌, refl, sym, ap, ◌∙◌, arith, inl, inr, Bool-cases,
  Option-cases, Bytes, All, ltb, if◌then◌else◌,
}
use shrt_cpp.Aof
use shrt_cpp.Aof.{Aof, push_raw}
use shrt_cpp.Store.State.{Entry, Shard, Tail, Inner, World, num_shards, entry?}
use shrt_cpp.Store.Tailing.{tail_missed}
use shrt_cpp.Store.Create.{emplace}
use shrt_cpp.Store.Access.{is_live, count_hit, resolve_entry, resolve_again, resolve}
use shrt_cpp.Store.Persist.{all_dirty_lines, clear_dirty, flush_locked}
use shrt_cpp.Store.Views.{view}
use shrt_cpp.Store.Chunks.{IsCode}
use shrt_cpp.Store.Sound.{IsCalm, IsDirty, IsSound, IsSound-same, count_hit-IsSound, view-count_hit}
use shrt_cpp.Store.Calm.{
  SameButTail, tail_missed-calm, logged-flush, logged-push_raw, all_dirty-Chunk, view-clear_dirty,
}
use shrt_cpp.Store.Branches.{resolve_missed, resolve_again-none, flush-some}
use shrt_cpp.Store.Keeps.{IsKept}
use shrt_cpp.Store.Durable.{IsDurable, IsDurable-write, IsDurable-same}

aof-count_hit : (w : World) (c : Bytes) (e : Entry) (s : Inner) → (count_hit w c e s).aof ≡ s.aof
unfolding count_hit emplace
aof-count_hit w c e s = ground arith

view-set_tail : (s : Inner) (u : Tail) → view (record s { tail = u }) ≡ view s
unfolding entry?
view-set_tail s u = refl

pub view-set_aof : (s : Inner) (a : Option Aof) → view (record s { aof = a }) ≡ view s
unfolding entry?
view-set_aof s a = refl

resolve_found :
    (w : World) (c : Bytes) (s : Inner) (e : Entry)
    → entry? c s ≡ some e
    → resolve w c s ≡ resolve_entry w 0 c e s
unfolding resolve
resolve_found w c s e p = ground arith

entry?-cleared :
    (j : Bytes) (s : Inner) (a : Option Aof)
    → entry? j (record (clear_dirty s) { aof = a }) ≡ entry? j s
unfolding entry? clear_dirty
entry?-cleared j s a = ground arith

cleared :
    (b : Bool) (sh : Shard)
    → All IsDirty sh.dirty
    → All IsDirty (if b then record sh { dirty = [] } else sh).dirty
cleared true sh h = tt
cleared false sh h = h

cleared-IsSound :
    (s : Inner) (a : Option Aof) → IsSound s → IsSound (record (clear_dirty s) { aof = a })
cleared-IsSound s a k = record {
  instance_bound = unfold clear_dirty in k.instance_bound;
  prefix_of_instance = unfold clear_dirty in k.prefix_of_instance;
  entries = λ j e p. k.entries j e (sym (entry?-cleared j s a) ∙ p);
  dirty = λ n. unfold clear_dirty in cleared (ltb n num_shards) (s.shards n) (k.dirty n);
}

module _ {base : Inner} where
  count_hit-IsKept :
      (w : World) (c : Bytes) (e : Entry) (s : Inner)
      → IsCode c
      → entry? c s ≡ some e
      → IsKept base s
      → IsKept base (count_hit w c e s)
  count_hit-IsKept w c e s hc p k = record {
    sound = count_hit-IsSound w c e s hc (k.sound.entries c e p) k.sound;
    durable = IsDurable-same {s = s} (aof-count_hit w c e s) (view-count_hit w c e s p) k.durable;
  }

  resolve_entry-IsKept :
      (w : World) (n : ℕ) (c : Bytes) (e : Entry) (s : Inner)
      → IsCode c
      → entry? c s ≡ some e
      → IsKept base s
      → IsKept base (resolve_entry w n c e s).1
  unfolding resolve_entry
  resolve_entry-IsKept w n c e s hc p k = elim (Bool-cases (is_live (w.now n) e)) [
    | inl q ↦ rw q (count_hit-IsKept w c e s hc p k)
    | inr q ↦ rw q k
  ]

  -- The tails are no part of the invariants.
  SameButTail-IsKept : (s t : Inner) → SameButTail s t → IsKept base s → IsKept base t
  SameButTail-IsKept s t e k = rw e (record {
    sound = IsSound-same {s = s} refl refl refl k.sound;
    durable = IsDurable-same {s = s} refl (view-set_tail s t.tail) k.durable;
  })

  resolve_again-IsKept :
      (w : World) (c : Bytes) (s : Inner)
      → IsCode c
      → IsKept base s
      → IsKept base (resolve_again w c s).1
  unfolding resolve_again
  resolve_again-IsKept w c s hc k = elim (Option-cases (entry? c s)) [
    | inl p ↦ rw (resolve_again-none w c s p) k
    | inr (e, p) ↦ rw (p, resolve_again) (resolve_entry-IsKept w 3 c e s hc p k)
  ]

  pub resolve-IsKept :
      (w : World) (c : Bytes) (s : Inner)
      → IsCalm w
      → IsCode c
      → IsKept base s
      → IsKept base (resolve w c s).1
  resolve-IsKept w c s h hc k = elim (Option-cases (entry? c s)) [
    | inl p ↦ rw (resolve_missed w c s k.durable.log p k.durable.has_log) (
        resolve_again-IsKept w c (tail_missed w c s) hc
          (SameButTail-IsKept s (tail_missed w c s) (tail_missed-calm w c s h) k))
    | inr (e, p) ↦ rw (resolve_found w c s e p) (resolve_entry-IsKept w 0 c e s hc p k)
  ]

  flush-IsDurable :
      (w : World) (s : Inner) → IsCalm w → IsKept base s → IsDurable base (flush_locked w s)
  flush-IsDurable w s h k =
      let d = k.durable in
      let lines = all_dirty_lines num_shards 0 s in
      let fl = logged-flush w (push_raw lines d.log) h (unfold push_raw in d.opened) in
      IsDurable-write {f = λ v. v} (Aof.flush w.accept (push_raw lines d.log)) d
        (all_dirty-Chunk num_shards 0 s k.sound)
        (ap (λ (t : Inner). t.aof) (flush-some w s d.log d.has_log)) fl.1
        (fl.0 ∙ logged-push_raw lines d.log)
        (ap view (flush-some w s d.log d.has_log) ∙ view-set_aof _ _ ∙ view-clear_dirty s)

  pub flush-IsKept :
      (w : World) (s : Inner) → IsCalm w → IsKept base s → IsKept base (flush_locked w s)
  flush-IsKept w s h k = record {
    sound = rw (flush-some w s k.durable.log k.durable.has_log) (cleared-IsSound s _ k.sound);
    durable = flush-IsDurable w s h k;
  }
