-- ===== src/Store/Index.antt =====
-- How each change of the index shows under a code: the shards together are one map.
use shrt_cpp.Prelude.{
  Bool, true, Option, none, some, ◌≡◌, refl, ap, arith, inl, inr, Option-cases, ◌∙◌, Bytes,
  bytes_eq, bytes_eq_iff, Int64, to_int, Dict, find, erase, put, find-erase, find-put, ◌==◌,
  if◌then◌else◌,
}
use shrt_cpp.Codec.Line.{Op}
use shrt_cpp.Store.State.{Entry, StrayHit, Inner, shard_of, entry?, at_shard}
use shrt_cpp.Store.Apply.{
  with_entries, with_stray, apply_del, add_hits, apply_hit, row_entry, or_zero, apply_row,
  add_stray,
}
use shrt_cpp.Store.Create.{emplace}

same_shard : (c j : Bytes) → bytes_eq c j ≡ true → shard_of c ≡ shard_of j
same_shard c j h = ap shard_of ((bytes_eq_iff c j).0 h)

-- A change of the shard of `c` that is a change at `c` alone is one of the whole index.
entry?-at_shard :
    (c j : Bytes) (f : Dict Entry → Dict Entry) (r : Option Entry) (s : Inner)
    → ((m : Dict Entry) → find j (f m) ≡ (if bytes_eq c j then r else find j m))
    → entry? j (at_shard (shard_of c) (with_entries f) s) ≡ (if bytes_eq c j then r else entry? j s)
unfolding entry?
entry?-at_shard c j f r s h = ground (arith, h (s.shards (shard_of j)).entries, same_shard c j)

pub entry?-emplace :
    (c j : Bytes) (e : Entry) (s : Inner)
    → entry? j (emplace c e s) ≡ (if bytes_eq c j then some e else entry? j s)
unfolding emplace
entry?-emplace c j e s = entry?-at_shard c j (put c e) (some e) s (find-put c j e)

entry?-at_put :
    (c j : Bytes) (e : Entry) (s : Inner)
    → entry? j (at_shard (shard_of c) (with_entries (put c e)) s)
      ≡ (if bytes_eq c j then some e else entry? j s)
entry?-at_put c j e s = entry?-at_shard c j (put c e) (some e) s (find-put c j e)

pub entry?-erase :
    (c j : Bytes) (s : Inner)
    → entry? j (at_shard (shard_of c) (with_entries (erase c)) s)
      ≡ (if bytes_eq c j then none else entry? j s)
entry?-erase c j s = entry?-at_shard c j (erase c) none s (find-erase c j)

find-replace :
    (c j : Bytes) (e : Entry) (m : Dict Entry)
    → find j (put c e (erase c m)) ≡ (if bytes_eq c j then some e else find j m)
find-replace c j e m = ground (arith, find-put c j e (erase c m), find-erase c j m)

entry?-with_stray :
    (f : Dict StrayHit → Dict StrayHit) (j : Bytes) (s : Inner)
    → entry? j (with_stray f s) ≡ entry? j s
unfolding entry?
entry?-with_stray f j s = refl

-- The stray hits that a row for `c` would take over.
unfoldable pub stray_of : Bytes → Inner → StrayHit
stray_of c s = or_zero (find c s.tail.stray)

-- A row replaces the entry of its code by one built from the row and the code's stray hits.
pub entry?-apply_row :
    (o : Op) (j : Bytes) (s : Inner)
    → entry? j (apply_row o s)
      ≡ (if bytes_eq o.c j then some (row_entry o (stray_of o.c s)) else entry? j s)
unfolding apply_row stray_of
entry?-apply_row o j s =
    let t = with_stray (erase o.c) s in
    let e = row_entry o (or_zero (find o.c s.tail.stray)) in
    entry?-at_shard o.c j (λ m. put o.c e (erase o.c m)) (some e) t (find-replace o.c j e)
    ∙ ap (λ r. if bytes_eq o.c j then some e else r) (entry?-with_stray (erase o.c) j s)

pub entry?-apply_del :
    (x j : Bytes) (s : Inner)
    → entry? j (apply_del x s) ≡ (if bytes_eq x j then none else entry? j s)
unfolding apply_del
entry?-apply_del x j s = entry?-with_stray (erase x) j _ ∙ entry?-erase x j s

abbrev pub hit_entry : Int64 → Bool → Option Entry → Option Entry
hit_entry d own none = none
hit_entry d own (some e) = some (add_hits d own e)

-- A hit line adds to the entry of its code, if there is one, and changes no other.
pub entry?-apply_hit :
    (o : Op) (j : Bytes) (s : Inner)
    → entry? j (apply_hit o s) ≡ (
        if bytes_eq o.h j
        then hit_entry o.d (s.instance_id == to_int o.i) (entry? j s)
        else entry? j s)
unfolding apply_hit
entry?-apply_hit o j s = elim (Option-cases (entry? o.h s)) [
  | inl e ↦ ground (
    arith,
    bytes_eq_iff o.h j,
    entry?-with_stray (add_stray o.h o.d (s.instance_id == to_int o.i)) j s,
  )
  | inr (r, e) ↦ ground (
    arith,
    bytes_eq_iff o.h j,
    entry?-at_put o.h j (add_hits o.d (s.instance_id == to_int o.i) r) s,
  )
]
