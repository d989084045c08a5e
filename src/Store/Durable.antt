-- ===== src/Store/Durable.antt =====
-- The log of a store against its index, for the operations of src/store.cpp.
use shrt_cpp.Prelude.{
  ◌^◌, ◌<◌, true, [], ◌++◌, some, ◌≡◌, refl, sym, ap, ◌∙◌, fun_ext, arith, Bytes, erase, Int64,
  to_int, from_int, to_int-from_int,
}
use shrt_cpp.Aof.{Aof, scan_lines, replay_file, push}
use shrt_cpp.Aof.Reader.{scan_lines-append_rest}
use shrt_cpp.Store.State.{Entry, Inner, World, shard_of, entry?, at_shard}
use shrt_cpp.Store.Apply.{with_entries, apply_lines}
use shrt_cpp.Store.Create.{
  expires, new_entry, emplace, flush_large, log_created, links_delta, create,
}
use shrt_cpp.Store.Access.{log_line}
use shrt_cpp.Store.Index.{entry?-emplace, entry?-erase}
use shrt_cpp.Store.Views.{
  Target, View, view, target, view_put, view_erase, Chunk, apply_lines-append, replay_file-append,
}
use shrt_cpp.Store.Sound.{IsSound}
use shrt_cpp.Store.Calm.{logged}

-- The own log is open, holds whole lines, and replays over `base` to the targets of the index.
pub record IsDurable (base s : Inner) : Type 0 where
  pub log : Aof
  pub has_log : s.aof ≡ some log
  pub opened : log.is_open ≡ true
  pub whole : (scan_lines (logged log) []).1 ≡ []
  pub agrees : view s ≡ view (apply_lines (replay_file (logged log)) base)

module _ {base s t : Inner} where
  -- An operation that appends a chunk to the log and changes the view by the chunk's effect.
  pub IsDurable-write :
      {bytes : Bytes} {f : View → View} (a : Aof) (d : IsDurable base s)
      → Chunk bytes f
      → t.aof ≡ some a
      → a.is_open ≡ true
      → logged a ≡ logged d.log ++ bytes
      → view t ≡ f (view s)
      → IsDurable base t
  IsDurable-write {bytes} {f} a d c ha ho hl hv = record {
    log = a;
    has_log = ha;
    opened = ho;
    whole =
        ap (λ b. (scan_lines b []).1) hl
        ∙ scan_lines-append_rest (logged d.log) bytes []
        ∙ ap (λ l. (scan_lines bytes l).1) d.whole
        ∙ c.whole;
    agrees =
        hv
        ∙ ap f d.agrees
        ∙ sym (c.effect (apply_lines (replay_file (logged d.log)) base))
        ∙ ap view (sym (apply_lines-append (replay_file (logged d.log)) (replay_file bytes) base))
        ∙ ap (λ l. view (apply_lines l base))
            (sym (replay_file-append (logged d.log) bytes d.whole))
        ∙ ap (λ b. view (apply_lines (replay_file b) base)) (sym hl);
  }

  -- An operation that leaves the log and the targets alone.
  pub IsDurable-same : t.aof ≡ s.aof → view t ≡ view s → IsDurable base s → IsDurable base t
  IsDurable-same ha hv d = record {
    log = d.log;
    has_log = ha ∙ d.has_log;
    opened = d.opened;
    whole = d.whole;
    agrees = hv ∙ d.agrees;
  }

-- What the operations append to the log.
pub log_created-aof :
    (w : World) (f : Aof → Aof) (s : Inner) (a : Aof)
    → s.aof ≡ some a
    → (log_created w f s).aof ≡ some (flush_large w (f a))
unfolding log_created
log_created-aof w f s a h = ground arith

pub view-log_created : (w : World) (f : Aof → Aof) (s : Inner) → view (log_created w f s) ≡ view s
unfolding log_created entry?
view-log_created w f s = fun_ext λ j. ground arith

pub shards-log_created :
    (w : World) (f : Aof → Aof) (s : Inner) → (log_created w f s).shards ≡ s.shards
unfolding log_created
shards-log_created w f s = ground arith

pub log_line-aof :
    (line : Bytes) (s : Inner) (a : Aof)
    → s.aof ≡ some a
    → (log_line line s).aof ≡ some (push line a)
unfolding log_line
log_line-aof line s a h = ground arith

pub view-log_line : (line : Bytes) (s : Inner) → view (log_line line s) ≡ view s
unfolding log_line entry?
view-log_line line s = fun_ext λ j. ground arith

pub view-links_delta : (n : Int64) (s : Inner) → view (links_delta n s) ≡ view s
unfolding links_delta entry?
view-links_delta n s = refl

pub view-emplace :
    (c : Bytes) (e : Entry) (s : Inner) → view (emplace c e s) ≡ view_put c (target e) (view s)
view-emplace c e s = fun_ext λ j. ground (arith, entry?-emplace c j e s)

pub view-erase :
    (c : Bytes) (s : Inner)
    → view (at_shard (shard_of c) (with_entries (erase c)) s) ≡ view_erase c (view s)
view-erase c s = fun_ext λ j. ground (arith, entry?-erase c j s)

pub expires-lt : (now ttl : Int64) → expires now ttl < 2 ^ 64
unfolding expires
expires-lt now ttl = ground arith

-- The row that `create` logs, as a change of the view.
unfoldable pub created_target : World → Bytes → Int64 → Inner → Target
created_target w url ttl s = record {
  u = url;
  a = w.now 0;
  e = expires (w.now 0) ttl;
  i = s.instance_id;
}

pub view-create :
    (w : World) (c url : Bytes) (ttl : Int64) (s : Inner)
    → view (create w c url ttl s) ≡ view_put c (created_target w url ttl s) (view s)
unfolding create created_target new_entry
view-create w c url ttl s = view-links_delta 1 _ ∙ view-log_created w _ _ ∙ view-emplace c _ s

pub int_of_instance : (s : Inner) → IsSound s → to_int (from_int s.instance_id) ≡ s.instance_id
int_of_instance s h = to_int-from_int s.instance_id (omega (arith, h.instance_bound))

pub instance-lt : (s : Inner) → IsSound s → from_int s.instance_id < 2 ^ 64
instance-lt s h = ground (arith, h.instance_bound)
