-- ===== src/Store/Branches.antt =====
-- The branches of the operations, as equations.
use shrt_cpp.Prelude.{
  ◌-◌, ◌^◌, Bool, true, false, none, some, ◌≡◌, ◌≢◌, arith, Bytes, erase, Int64, from_int,
}
use shrt_cpp.Codec.Line.{row_line, del_line}
use shrt_cpp.Aof
use shrt_cpp.Aof.{Aof, push_raw}
use shrt_cpp.Store.State.{
  ok, missing, remote, Entry, Inner, World, num_shards, shard_of, entry?, at_shard,
}
use shrt_cpp.Store.Apply.{with_entries}
use shrt_cpp.Store.Tailing.{tail_missed}
use shrt_cpp.Store.Create.{emplace, links_delta}
use shrt_cpp.Store.Access.{
  is_live, count_hit, resolve_entry, resolve_again, resolve, log_line, new_expiry, update, remove,
}
use shrt_cpp.Store.Persist.{all_dirty_lines, clear_dirty, flush_locked}

module _ (w : World) (c url : Bytes) (ttl : Int64) (has_ttl : Bool) (s : Inner) where
  pub update_missing : entry? c s ≡ none → update w c url ttl has_ttl s ≡ (missing, s)
  unfolding update
  update_missing p = ground arith

  pub update_remote :
      (e : Entry)
      → entry? c s ≡ some e
      → e.i ≢ s.instance_id
      → update w c url ttl has_ttl s ≡ (remote, s)
  unfolding update
  update_remote e p q = ground arith

  pub update_ok :
      (e : Entry)
      → entry? c s ≡ some e
      → e.i ≡ s.instance_id
      → update w c url ttl has_ttl s ≡ (
        ok,
        log_line
            (row_line c url e.a (new_expiry w ttl has_ttl e) (from_int s.instance_id) 0)
            (emplace c (record e { u = url; e = new_expiry w ttl has_ttl e }) s),
      )
  unfolding update
  update_ok e p q = ground arith

module _ (c : Bytes) (s : Inner) where
  pub remove_missing : entry? c s ≡ none → remove c s ≡ (missing, s)
  unfolding remove
  remove_missing p = ground arith

  pub remove_remote :
      (e : Entry) → entry? c s ≡ some e → e.i ≢ s.instance_id → remove c s ≡ (remote, s)
  unfolding remove
  remove_remote e p q = ground arith

  pub remove_ok :
      (e : Entry)
      → entry? c s ≡ some e
      → e.i ≡ s.instance_id
      → remove c s ≡ (
        ok,
        links_delta
            (2 ^ 64 - 1)
            (log_line (del_line c) (at_shard (shard_of c) (with_entries (erase c)) s)),
      )
  unfolding remove
  remove_ok e p q = ground arith

module _ (w : World) (c : Bytes) (s : Inner) where
  pub resolve_live :
      (e : Entry)
      → entry? c s ≡ some e
      → is_live (w.now 0) e ≡ true
      → resolve w c s ≡ (some e.u, count_hit w c e s)
  unfolding resolve resolve_entry
  resolve_live e p q = ground arith

  pub resolve_expired :
      (e : Entry) → entry? c s ≡ some e → is_live (w.now 0) e ≡ false → resolve w c s ≡ (none, s)
  unfolding resolve resolve_entry
  resolve_expired e p q = ground arith

  pub resolve_missed :
      (a : Aof)
      → entry? c s ≡ none
      → s.aof ≡ some a
      → resolve w c s ≡ resolve_again w c (tail_missed w c s)
  unfolding resolve
  resolve_missed a p q = ground arith

  pub resolve_again-none : entry? c s ≡ none → resolve_again w c s ≡ (none, s)
  unfolding resolve_again
  resolve_again-none p = ground arith

pub flush-some :
    (w : World) (s : Inner) (a : Aof)
    → s.aof ≡ some a
    → flush_locked w s ≡ record (clear_dirty s) {
      aof = some (Aof.flush w.accept (push_raw (all_dirty_lines num_shards 0 s) a));
    }
unfolding flush_locked
flush-some w s a p = ground arith
