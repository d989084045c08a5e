-- ===== src/Store/Recovery.antt =====
-- `open` of src/store.cpp on the log that a store has left.
use shrt_cpp.Prelude.{
  ℕ, ◌<◌, true, List, [], ◌∷◌, ◌++◌, append-nil, Option, none, some, ◌≡◌, refl, sym, ap, ◌∙◌, arith,
  inl, inr, Option-cases, Bytes, put,
}
use shrt_cpp.Codec.Parse.{parse_op}
use shrt_cpp.Aof.{Aof, new_reader, push_raw, scan_lines, replay_file, shard_files}
use shrt_cpp.Aof.Flush.{flush_all}
use shrt_cpp.Store.State.{Tail, Inner, World, num_shards, max_instances, entry?}
use shrt_cpp.Store.Apply.{apply_line, apply_lines}
use shrt_cpp.Store.Tailing.{with_tail}
use shrt_cpp.Store.Persist.{all_dirty_lines, flush_locked, boot_siblings, fresh, open_dir, snap_of}
use shrt_cpp.Store.Views.{view, apply_view, view-apply}
use shrt_cpp.Store.Sound.{IsCalm}
use shrt_cpp.Store.Calm.{logged, view-clear_dirty}
use shrt_cpp.Store.Branches.{flush-some}
use shrt_cpp.Store.History.{Reach, Reach-IsKept, new_store, new_store-IsKept}
use shrt_cpp.Store.Reads.{flush-IsKept, view-set_aof}

-- Replaying lines changes the view by the view alone.
view-apply_line :
    (l : Bytes) (s t : Inner) → view s ≡ view t → view (apply_line l s) ≡ view (apply_line l t)
unfolding apply_line
view-apply_line l s t e = elim (Option-cases (parse_op l)) [
  | inl p ↦ rw (p, apply_line) e
  | inr (o, p) ↦ rw (p, apply_line) (view-apply o s ∙ ap (apply_view o) e ∙ sym (view-apply o t))
]

view-apply_lines :
    (ls : List Bytes) (s t : Inner)
    → view s ≡ view t
    → view (apply_lines ls s) ≡ view (apply_lines ls t)
unfolding apply_lines
view-apply_lines [] s t e = e
view-apply_lines (l ∷ ls) s t e =
    view-apply_lines ls (apply_line l s) (apply_line l t) (view-apply_line l s t e)

log_file? : Option Aof → Bytes
log_file? none = []
log_file? (some a) = a.file

-- What the own log's file holds.
pub log_file : Inner → Bytes
log_file s = log_file? s.aof

apply-nothing : (b : Bytes) (s : Inner) → b ≡ [] → apply_lines (replay_file b) s ≡ s
unfolding replay_file scan_lines apply_lines
apply-nothing b s e = rw e

view-with_tail : (f : Tail → Tail) (s : Inner) → view (with_tail f s) ≡ view s
unfolding entry?
view-with_tail f s = refl

view-boot_siblings :
    (w : World) (fs : List Bytes) (s : Inner) → IsCalm w → view (boot_siblings w fs s) ≡ view s
unfolding boot_siblings
view-boot_siblings w [] s h = refl
view-boot_siblings w (f ∷ fs) s h =
    view-boot_siblings w fs _ h
    ∙ view-with_tail (λ (t : Tail). record t { readers = put f new_reader t.readers })
        (apply_lines (replay_file (w.files (snap_of f))) s)
    ∙ ap view (apply-nothing (w.files (snap_of f)) s (h.alone (snap_of f)))

open_dir-view :
    (w : World) (id rng rng' : ℕ) (log : Bytes)
    → id < max_instances
    → IsCalm w
    → (t : Inner) × (open_dir w id rng' log [] ≡ some t)
      × (view t ≡ view (apply_lines (replay_file log) (new_store id rng)))
unfolding open_dir
open_dir-view w id rng rng' log h calm =
    let s = apply_lines (replay_file log) (apply_lines (replay_file []) (fresh id rng' log [])) in
    (
      boot_siblings w (shard_files s.own_name w.listing) s,
      ground arith,
      view-boot_siblings w _ s calm
          ∙ view-apply_lines (replay_file log) _ (new_store id rng)
              (unfold replay_file scan_lines apply_lines fresh entry? in refl),
    )

-- After a flush the buffer is empty, so the file is the whole log.
flushed_file :
    (w : World) (s : Inner) (a b : Aof)
    → IsCalm w
    → s.aof ≡ some a
    → a.is_open ≡ true
    → (flush_locked w s).aof ≡ some b
    → log_file (flush_locked w s) ≡ logged b
unfolding log_file log_file?
flushed_file w s a b h p o q =
    let c = push_raw (all_dirty_lines num_shards 0 s) a in
    let e = flush_all w.accept c h.writes (unfold push_raw in o) in
    ground (arith, flush-some w s a p, e, append-nil (c.file ++ c.buf))

view-flush : (w : World) (s : Inner) (a : Aof) → s.aof ≡ some a → view (flush_locked w s) ≡ view s
view-flush w s a p = ap view (flush-some w s a p) ∙ view-set_aof _ _ ∙ view-clear_dirty s

-- A store on a new directory, with an instance id below 62, goes through any history of shorten,
-- bulk shorten, resolve, update, remove and flush calls, one after the other and none during another, in
-- calm worlds (writes make progress, the clock is in range, no other instance has written), is flushed
-- and stops. A start on the file that it leaves succeeds and has, under every code, the url, times and
-- owner that the store had. The hit counts are not compared, since an update loses them.
pub restart-recovers :
    (id rng rng' : ℕ) (w w' : World) (s : Inner)
    → id < max_instances
    → IsCalm w
    → IsCalm w'
    → Reach (new_store id rng) s
    → (t : Inner) × (open_dir w' id rng' (log_file (flush_locked w s)) [] ≡ some t)
      × (view t ≡ view s)
restart-recovers id rng rng' w w' s h calm calm' r =
    let k = Reach-IsKept r (new_store-IsKept id rng h) in
    let d = (flush-IsKept w s calm k).durable in
    let file =
      flushed_file w s k.durable.log d.log calm k.durable.has_log k.durable.opened d.has_log in
    let (t, opens, sees) = open_dir-view w' id rng rng' (log_file (flush_locked w s)) h calm' in
    (
      t,
      opens,
      sees
          ∙ ap (λ b. view (apply_lines (replay_file b) (new_store id rng))) file
          ∙ sym d.agrees
          ∙ view-flush w s k.durable.log k.durable.has_log,
    )
