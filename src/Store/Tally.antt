-- ===== src/Store/Tally.antt =====
-- What a log line does to the index with its hit counts, and to the hits that wait for a row.
use shrt_cpp.Prelude.{
  ℕ, Bool, Option, none, some, ◌≡◌, ◌<◌, refl, ap, arith, inl, inr, Option-cases, Bool-cases, ◌∙◌,
  Bytes, bytes_eq, bytes_eq_iff, Int64, add64, to_int, is_empty, length, [], ◌∷◌, Dict, find, erase,
  put, find-erase, find-put, ◌==◌, if◌then◌else◌,
}
use shrt_cpp.Codec.Line.{Op}
use shrt_cpp.Store.State.{Entry, StrayHit, Inner, max_stray_hits, entry?}
use shrt_cpp.Store.Apply.{
  evict, add_stray, or_zero, add_hits, apply, apply_del, apply_hit, apply_row, row_entry,
}
use shrt_cpp.Store.Index.{stray_of, entry?-apply_row, entry?-apply_del, entry?-apply_hit}

-- A store as two maps: the entries with their counts, and the hits that came before a row.
pub record Tally : Type 0 where
  pub links : Bytes → Option Entry
  pub waiting : Bytes → StrayHit

unfoldable pub tally : Inner → Tally
tally s = record { links = λ j. entry? j s; waiting = λ j. stray_of j s }

-- The entry of a row, which takes over the hits that wait for it.
abbrev pub row_of : Op → StrayHit → Entry
row_of o st = record {
  u = o.u;
  a = o.a;
  e = if o.has_e then o.e else 0;
  i = to_int o.i;
  h = add64 o.n st.t;
  oh = add64 o.n st.o;
}

-- Hits are added to the count; those of the own instance to its own count too.
abbrev pub counted : Int64 → Bool → Entry → Entry
counted d own e = record {
  u = e.u;
  a = e.a;
  e = e.e;
  i = e.i;
  h = add64 e.h d;
  oh = if own then add64 e.oh d else e.oh;
}

abbrev pub none_waits : StrayHit
none_waits = record { t = 0; o = 0 }

abbrev pub set_link : Bytes → Option Entry → Tally → Tally
set_link c o v = record {
  links = λ j. if bytes_eq c j then o else v.links j;
  waiting = λ j. if bytes_eq c j then none_waits else v.waiting j;
}

-- What waits for a code behind one more hit line.
abbrev pub waits : Int64 → Bool → StrayHit → StrayHit
waits d own st = record { t = add64 st.t d; o = if own then add64 st.o d else st.o }

-- The abstract meaning of a hit line: it counts for the link, or waits where there is none.
unfoldable pub hit_tally : Bytes → Int64 → Bool → Tally → Tally
hit_tally c d own v = elim (v.links c) [
  | some e ↦ record v { links = λ j. if bytes_eq c j then some (counted d own e) else v.links j }
  | none ↦ record v {
    waiting = λ j. if bytes_eq c j then waits d own (v.waiting j) else v.waiting j;
  }
]

-- And of any line: a tombstone, a hit line, a row, or none of them.
unfoldable pub apply_tally : ℕ → Op → Tally → Tally
apply_tally id o v =
    if is_empty o.x
    then if is_empty o.h
      then if is_empty o.c then v else set_link o.c (some (row_of o (v.waiting o.c))) v
      else hit_tally o.h o.d (id == to_int o.i) v
    else set_link o.x none v

evict_room : (m : Dict StrayHit) → length m < max_stray_hits → evict m ≡ m
unfolding evict
evict_room [] h = refl
evict_room (x ∷ m) h = ground (arith, h)

Tally-eq :
    (v w : Tally)
    → ((j : Bytes) → v.links j ≡ w.links j)
    → ((j : Bytes) → v.waiting j ≡ w.waiting j)
    → v ≡ w
Tally-eq v w f g = λ i. record { links = λ j. f j i; waiting = λ j. g j i }

stray_of-erased :
    (c j : Bytes) (m : Dict StrayHit)
    → or_zero (find j (erase c m)) ≡ (if bytes_eq c j then none_waits else or_zero (find j m))
stray_of-erased c j m = ground (arith, find-erase c j m)

stray_of-put :
    (c j : Bytes) (d : Int64) (own : Bool) (m : Dict StrayHit)
    → or_zero (find j (put c (waits d own (or_zero (find c m))) m))
      ≡ (if bytes_eq c j then waits d own (or_zero (find j m)) else or_zero (find j m))
stray_of-put c j d own m =
    ap or_zero (find-put c j (waits d own (or_zero (find c m))) m)
    ∙ elim (Bool-cases (bytes_eq c j)) [
      | inl e ↦ rw e (ap (λ k. waits d own (or_zero (find k m))) ((bytes_eq_iff c j).0 e))
      | inr e ↦ rw e refl
    ]

stray_of-added :
    (c j : Bytes) (d : Int64) (own : Bool) (m : Dict StrayHit)
    → length m < max_stray_hits
    → or_zero (find j (add_stray c d own m))
      ≡ (if bytes_eq c j then waits d own (or_zero (find j m)) else or_zero (find j m))
unfolding add_stray
stray_of-added c j d own m h = rw (evict_room m h) (stray_of-put c j d own m)

tally-apply_del : (x : Bytes) (s : Inner) → tally (apply_del x s) ≡ set_link x none (tally s)
unfolding tally stray_of
tally-apply_del x s =
    Tally-eq _ _ (λ j. entry?-apply_del x j s)
      (λ j. unfold apply_del in stray_of-erased x j s.tail.stray)

tally-apply_row :
    (o : Op) (s : Inner)
    → tally (apply_row o s) ≡ set_link o.c (some (row_of o (stray_of o.c s))) (tally s)
unfolding tally stray_of
tally-apply_row o s =
    Tally-eq _ _ (λ j. unfold row_entry in entry?-apply_row o j s)
      (λ j. unfold apply_row in stray_of-erased o.c j s.tail.stray)

tally-apply_hit :
    (o : Op) (s : Inner)
    → length s.tail.stray < max_stray_hits
    → tally (apply_hit o s) ≡ hit_tally o.h o.d (s.instance_id == to_int o.i) (tally s)
unfolding tally hit_tally stray_of
tally-apply_hit o s room = elim (Option-cases (entry? o.h s)) [
  | inl e ↦
      rw (e, hit_tally)
        (Tally-eq _ _ (λ j. entry?-apply_hit o j s ∙ ground (arith, e, bytes_eq_iff o.h j))
          (λ j.
            unfold apply_hit in
            rw (e, apply_hit)
              (stray_of-added o.h j o.d (s.instance_id == to_int o.i) s.tail.stray room)))
  | inr (r, e) ↦
      rw (e, hit_tally)
        (Tally-eq _ _
          (λ j. entry?-apply_hit o j s ∙ (unfold add_hits in ground (arith, e, bytes_eq_iff o.h j)))
          (λ j. unfold apply_hit in rw (e, apply_hit) refl))
]

-- On every kind of line, `apply` does to the links, with their counts, and to the hits that wait for a row
-- what the abstract meaning of the line says: a tombstone takes the link and the waiting hits away, a
-- hit line adds to both counts of a link that is there and else waits, and a row replaces the link and
-- takes over the hits that waited. The map of waiting hits is not full.
pub tally-apply :
    (o : Op) (s : Inner)
    → length s.tail.stray < max_stray_hits
    → tally (apply o s) ≡ apply_tally s.instance_id o (tally s)
unfolding apply apply_tally
tally-apply o s room = elim (Bool-cases (is_empty o.x)) [
  | inr e ↦ rw (e, apply, apply_tally) (tally-apply_del o.x s)
  | inl e ↦ elim (Bool-cases (is_empty o.h)) [
    | inr f ↦ rw (e, f, apply, apply_tally) (tally-apply_hit o s room)
    | inl f ↦ elim (Bool-cases (is_empty o.c)) [
      | inl g ↦ rw (e, f, g, apply, apply_tally) refl
      | inr g ↦ rw (e, f, g, apply, apply_tally) (unfold tally in tally-apply_row o s)
    ]
  ]
]
