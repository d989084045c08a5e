-- ===== src/Store/Calm.antt =====
-- Tailing and flushing of src/store.cpp in a calm world: the other logs are empty and
-- writes make progress.
use shrt_cpp.Prelude.{
  ℕ, zero, suc, ◌+◌, ◌^◌, ◌<◌, true, [], ◌∷◌, ◌++◌, append-nil, append_assoc, Option, none, some,
  ◌≡◌, refl, sym, ap, ◌∙◌, fun_ext, arith, inl, inr, Bool-cases, Bytes, Int64, from_int, All, Dict,
  ltb,
}
use shrt_cpp.Aof
use shrt_cpp.Aof.{Aof, TailReader, nl, read_new, read_from, push, push_raw, pending_bytes}
use shrt_cpp.Aof.Flush.{flush_all}
use shrt_cpp.Store.State.{Tail, Inner, World, flush_bytes, alpha_idx, log_name, entry?}
use shrt_cpp.Store.Apply.{apply_lines}
use shrt_cpp.Store.Tailing.{
  poll_readers, poll_locked, tail_owner, poll_rarely, tail_found, tail_missed,
}
use shrt_cpp.Store.Create.{flush_large}
use shrt_cpp.Store.Persist.{dirty_lines, all_dirty_lines, clear_dirty}
use shrt_cpp.Store.Views.{view, Chunk, Chunk-nil, Chunk-append}
use shrt_cpp.Store.Chunks.{hit-Chunk}
use shrt_cpp.Store.Sound.{IsCalm, IsDirty, IsSound}

-- The two states differ in their tails alone.
abbrev pub SameButTail : Inner → Inner → Type 0
SameButTail s t = t ≡ record s { tail = t.tail }

set_tail : (s t : Inner) (u : Tail) → t ≡ s → SameButTail s (record t { tail = u })
set_tail s t u h = ap (λ (x : Inner). record x { tail = u }) h

read_new-empty : (r : TailReader) → (read_new r []).0 ≡ []
unfolding read_new read_from
read_new-empty r = ground arith

apply-read_new :
    (r : TailReader) (b : Bytes) (s : Inner) → b ≡ [] → apply_lines (read_new r b).0 s ≡ s
unfolding apply_lines
apply-read_new r b s e = rw (e, read_new-empty r)

poll_readers-calm :
    (w : World) (rs : Dict TailReader) (s : Inner) → IsCalm w → (poll_readers w rs s).1 ≡ s
unfolding poll_readers
poll_readers-calm w [] s h = refl
poll_readers-calm w ((f, r) ∷ rs) s h =
    poll_readers-calm w rs _ h ∙ apply-read_new r (w.files f) s (h.alone f)

poll_locked-calm : (w : World) (k : ℕ) (s : Inner) → IsCalm w → SameButTail s (poll_locked w k s)
unfolding poll_locked
poll_locked-calm w k s h = set_tail s _ _ (poll_readers-calm w _ s h)

poll_rarely-calm : (w : World) (s : Inner) → IsCalm w → SameButTail s (poll_rarely w s)
unfolding poll_rarely
poll_rarely-calm w s h = ground (arith, poll_locked-calm w 2 s h)

tail_owner-calm :
    (w : World) (owner : ℕ) (s : Inner) → IsCalm w → SameButTail s (tail_owner w owner s)
unfolding tail_owner
tail_owner-calm w owner s h =
    set_tail s _ _ (apply-read_new _ (w.files (log_name owner)) s (h.alone (log_name owner)))

tail_found-calm :
    (w : World) (o : Option ℕ) (s : Inner) → IsCalm w → SameButTail s (tail_found w o s)
unfolding tail_found
tail_found-calm w none s h = poll_rarely-calm w s h
tail_found-calm w (some owner) s h =
    ground (arith, poll_rarely-calm w s h, tail_owner-calm w owner s h)

pub tail_missed-calm :
    (w : World) (code : Bytes) (s : Inner) → IsCalm w → SameButTail s (tail_missed w code s)
unfolding tail_missed
tail_missed-calm w [] s h = refl
tail_missed-calm w (c ∷ code) s h = ground (arith, tail_found-calm w (alpha_idx c) s h)

-- What the log holds, in the file and in the buffer.
abbrev pub logged : Aof → Bytes
logged a = a.file ++ a.buf

pub logged-flush :
    (w : World) (a : Aof)
    → IsCalm w
    → a.is_open ≡ true
    → (logged (Aof.flush w.accept a) ≡ logged a) × ((Aof.flush w.accept a).is_open ≡ true)
logged-flush w a h o = rw (flush_all w.accept a h.writes o) (append-nil (a.file ++ a.buf), o)

pub logged-flush_large :
    (w : World) (a : Aof)
    → IsCalm w
    → a.is_open ≡ true
    → (logged (flush_large w a) ≡ logged a) × ((flush_large w a).is_open ≡ true)
unfolding flush_large
logged-flush_large w a h o = elim (Bool-cases (ltb flush_bytes (pending_bytes a))) [
  | inl e ↦ rw e (logged-flush w a h o)
  | inr e ↦ rw e (refl, o)
]

pub logged-push : (line : Bytes) (a : Aof) → logged (push line a) ≡ logged a ++ (line ++ nl ∷ [])
unfolding push
logged-push line a = simp append_assoc

pub logged-push_raw : (b : Bytes) (a : Aof) → logged (push_raw b a) ≡ logged a ++ b
unfolding push_raw
logged-push_raw b a = sym (append_assoc a.file a.buf b)

dirty-Chunk :
    (i : Int64) (m : Dict Int64) → i < 2 ^ 64 → All IsDirty m → Chunk (dirty_lines i m) (λ v. v)
unfolding dirty_lines
dirty-Chunk i [] hi h = Chunk-nil
dirty-Chunk i ((c, d) ∷ m) hi h =
    Chunk-append {f = λ v. v} {g = λ v. v} (hit-Chunk c d i h.0.0 h.0.1 hi) (dirty-Chunk i m hi h.1)

instance-lt : (s : Inner) → IsSound s → from_int s.instance_id < 2 ^ 64
instance-lt s h = ground (arith, h.instance_bound)

-- The lines that a flush writes change no target.
pub all_dirty-Chunk : (n k : ℕ) (s : Inner) → IsSound s → Chunk (all_dirty_lines n k s) (λ v. v)
unfolding all_dirty_lines
all_dirty-Chunk zero k s h = Chunk-nil
all_dirty-Chunk (suc n) k s h =
    Chunk-append {f = λ v. v} {g = λ v. v}
      (dirty-Chunk _ (s.shards k).dirty (instance-lt s h) (h.dirty k))
      (all_dirty-Chunk n (k + 1) s h)

pub view-clear_dirty : (s : Inner) → view (clear_dirty s) ≡ view s
unfolding clear_dirty entry?
view-clear_dirty s = fun_ext λ j. ground arith
