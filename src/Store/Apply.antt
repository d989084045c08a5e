-- ===== src/Store/Apply.antt =====
-- `apply` and `apply_line` of src/store.cpp: one parsed log line folded into the index. Every caller
-- passes the stray map of the same store, so it is the state's.
use shrt_cpp.Prelude.{
  Bool, List, [], ◌∷◌, Option, none, some, Bytes, Int64, add64, to_int, Dict, find, erase, put,
  is_empty, length, leb, ◌==◌, if◌then◌else◌,
}
use shrt_cpp.Codec.Line.{Op}
use shrt_cpp.Codec.Parse.{parse_op}
use shrt_cpp.Store.State.{Entry, StrayHit, Shard, Inner, max_stray_hits, shard_of, entry?, at_shard}

abbrev pub with_entries : (Dict Entry → Dict Entry) → Shard → Shard
with_entries f sh = record sh { entries = f sh.entries }

abbrev pub with_stray : (Dict StrayHit → Dict StrayHit) → Inner → Inner
with_stray f s = record s { tail = record s.tail { stray = f s.tail.stray } }

unfoldable pub apply_del : Bytes → Inner → Inner
apply_del x s = with_stray (erase x) (at_shard (shard_of x) (with_entries (erase x)) s)

-- One more element evicts the first when the map is full.
unfoldable pub evict : Dict StrayHit → Dict StrayHit
evict [] = []
evict (kv ∷ m) = if leb max_stray_hits (length (kv ∷ m)) then m else kv ∷ m

abbrev pub or_zero : Option StrayHit → StrayHit
or_zero none = record { t = 0; o = 0 }
or_zero (some st) = st

unfoldable pub add_stray : Bytes → Int64 → Bool → Dict StrayHit → Dict StrayHit
add_stray k d own stray =
    let m = evict stray in
    let st = or_zero (find k m) in
    put k (record { t = add64 st.t d; o = if own then add64 st.o d else st.o }) m

unfoldable pub add_hits : Int64 → Bool → Entry → Entry
add_hits d own e = record e { h = add64 e.h d; oh = if own then add64 e.oh d else e.oh }

unfoldable pub apply_hit : Op → Inner → Inner
apply_hit o s =
    let own = s.instance_id == to_int o.i in
    elim (entry? o.h s) [
      | some e ↦ at_shard (shard_of o.h) (with_entries (put o.h (add_hits o.d own e))) s
      | none ↦ with_stray (add_stray o.h o.d own) s
    ]

-- Log rows are last-write-wins; hits that came before the row are added to it.
unfoldable pub row_entry : Op → StrayHit → Entry
row_entry o st = record {
  u = o.u;
  a = o.a;
  e = if o.has_e then o.e else 0;
  i = to_int o.i;
  h = add64 o.n st.t;
  oh = add64 o.n st.o;
}

unfoldable pub apply_row : Op → Inner → Inner
apply_row o s =
    let st = or_zero (find o.c s.tail.stray) in
    at_shard (shard_of o.c) (with_entries (λ m. put o.c (row_entry o st) (erase o.c m)))
      (with_stray (erase o.c) s)

unfoldable pub apply : Op → Inner → Inner
apply o s =
    if is_empty o.x
    then if is_empty o.h then (if is_empty o.c then s else apply_row o s) else apply_hit o s
    else apply_del o.x s

unfoldable pub apply_line : Bytes → Inner → Inner
apply_line line s = elim (parse_op line) [ none ↦ s | some o ↦ apply o s ]

unfoldable pub apply_lines : List Bytes → Inner → Inner
apply_lines [] s = s
apply_lines (line ∷ lines) s = apply_lines lines (apply_line line s)
