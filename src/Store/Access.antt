-- ===== src/Store/Access.antt =====
-- `resolve`, `update`, `remove`, `stats` and `empty` of src/store.cpp.
use shrt_cpp.Prelude.{
  ℕ, zero, suc, ◌-◌, ◌^◌, Bool, true, ◌&&◌, ◌||◌, Option, none, some, Bytes, Int64, add64, lt64,
  from_int, find, erase, put, is_empty, ◌==◌, if◌then◌else◌,
}
use shrt_cpp.Codec.Line.{row_line, del_line}
use shrt_cpp.Aof.{push}
use shrt_cpp.Store.State.{
  MutResult, ok, missing, remote, Link, Entry, Shard, Inner, World, num_shards, shard_of, entry?,
  at_shard,
}
use shrt_cpp.Store.Apply.{with_entries, add_hits}
use shrt_cpp.Store.Tailing.{tail_missed}
use shrt_cpp.Store.Create.{expires, links_delta, emplace}

abbrev or_none : Option Int64 → Int64
or_none none = 0
or_none (some d) = d

-- sh.dirty[code] += 1
unfoldable pub mark_dirty : Bytes → Shard → Shard
mark_dirty code sh = record sh {
  dirty = put code (add64 (or_none (find code sh.dirty)) 1) sh.dirty;
}

-- One counted hit on the entry `e` of `code`, where hits are tracked.
unfoldable pub count_hit : World → Bytes → Entry → Inner → Inner
count_hit w code e s =
    if w.track_hits
    then at_shard (shard_of code) (mark_dirty code) (emplace code (add_hits 1 true e) s)
    else s

abbrev pub is_live : Int64 → Entry → Bool
is_live now e = e.e == 0 || lt64 now e.e

unfoldable pub resolve_entry : World → ℕ → Bytes → Entry → Inner → Option Bytes × Inner
resolve_entry w k code e s =
    if is_live (w.now k) e then (some e.u, count_hit w code e s) else (none, s)

-- The second look, after the tailing.
unfoldable pub resolve_again : World → Bytes → Inner → Option Bytes × Inner
resolve_again w code s = elim (entry? code s) [
  | none ↦ (none, s)
  | some e ↦ resolve_entry w 3 code e s
]

unfoldable pub resolve : World → Bytes → Inner → Option Bytes × Inner
resolve w code s = elim (entry? code s) [
  | some e ↦ resolve_entry w 0 code e s
  | none ↦ elim s.aof [ none ↦ (none, s) | some _ ↦ resolve_again w code (tail_missed w code s) ]
]

unfoldable pub log_line : Bytes → Inner → Inner
log_line line s = elim s.aof [ none ↦ s | some a ↦ record s { aof = some (push line a) } ]

unfoldable pub new_expiry : World → Int64 → Bool → Entry → Int64
new_expiry w ttl_ms has_ttl e = if has_ttl then expires (w.now 0) ttl_ms else e.e

unfoldable pub update : World → Bytes → Bytes → Int64 → Bool → Inner → MutResult × Inner
update w code url ttl_ms has_ttl s = elim (entry? code s) [
  | none ↦ (missing, s)
  | some e ↦
      if e.i == s.instance_id
      then (let exp = new_expiry w ttl_ms has_ttl e in
          (
            ok,
            log_line (row_line code url e.a exp (from_int s.instance_id) 0)
                (emplace code (record e { u = url; e = exp }) s),
          ))
      else (remote, s)
]

unfoldable pub remove : Bytes → Inner → MutResult × Inner
remove code s = elim (entry? code s) [
  | none ↦ (missing, s)
  | some e ↦
      if e.i == s.instance_id
      then (
        ok,
        links_delta (2 ^ 64 - 1)
            (log_line (del_line code) (at_shard (shard_of code) (with_entries (erase code)) s)),
      )
      else (remote, s)
]

unfoldable pub stats : Bytes → Inner → Option Link
stats code s = elim (entry? code s) [
  | none ↦ none
  | some e ↦
      some (record { code = code; url = e.u; hits = e.h; created_at = e.a; expires_at = e.e })
]

-- The loop over the first `n` shards.
unfoldable pub empty_below : ℕ → Inner → Bool
empty_below zero s = true
empty_below (suc n) s = is_empty (s.shards n).entries && empty_below n s

unfoldable pub empty : Inner → Bool
empty s = empty_below num_shards s
