-- ===== src/Store/Views.antt =====
-- What a log line does to the index, without the hit counts.
use shrt_cpp.Prelude.{
  ℕ, Bool, List, [], ◌∷◌, ◌++◌, Option, none, some, ◌≡◌, ◌≢◌, refl, ap, ◌∙◌, fun_ext, arith, Bytes,
  bytes_eq, Int64, to_int, is_empty, ◌==◌, if◌then◌else◌,
}
use shrt_cpp.Codec.Line.{Op}
use shrt_cpp.Codec.Parse.{parse_op}
use shrt_cpp.Aof.{nl, scan_lines, replay_file}
use shrt_cpp.Aof.Reader.{NoBreak, scan_lines-append, scan_lines-append_rest, scan_lines-NoBreak}
use shrt_cpp.Store.State.{Entry, StrayHit, Inner, entry?}
use shrt_cpp.Store.Apply.{add_hits, row_entry, apply, apply_line, apply_lines}
use shrt_cpp.Store.Index.{hit_entry, stray_of, entry?-apply_row, entry?-apply_del, entry?-apply_hit}

-- An entry without its counters.
pub record Target : Type 0 where
  pub u : Bytes
  pub a : Int64
  pub e : Int64
  pub i : ℕ

abbrev pub target : Entry → Target
target e = record { u = e.u; a = e.a; e = e.e; i = e.i }

abbrev pub target? : Option Entry → Option Target
target? none = none
target? (some e) = some (target e)

abbrev pub View : Type 0
View = Bytes → Option Target

-- The index of a store as a map from codes to targets.
abbrev pub view : Inner → View
view s j = target? (entry? j s)

abbrev pub row_target : Op → Target
row_target o = record { u = o.u; a = o.a; e = if o.has_e then o.e else 0; i = to_int o.i }

abbrev pub view_put : Bytes → Target → View → View
view_put c t v j = if bytes_eq c j then some t else v j

abbrev pub view_erase : Bytes → View → View
view_erase c v j = if bytes_eq c j then none else v j

-- The abstract meaning of a parsed line.
unfoldable pub apply_view : Op → View → View
apply_view o v =
    if is_empty o.x
    then if is_empty o.h then (if is_empty o.c then v else view_put o.c (row_target o) v) else v
    else view_erase o.x v

target?-hit : (d : Int64) (own : Bool) (r : Option Entry) → target? (hit_entry d own r) ≡ target? r
unfolding add_hits
target?-hit d own none = refl
target?-hit d own (some e) = refl

row_entry-target : (o : Op) (st : StrayHit) → target (row_entry o st) ≡ row_target o
unfolding row_entry
row_entry-target o st = refl

view-apply_at : (o : Op) (s : Inner) (j : Bytes) → view (apply o s) j ≡ apply_view o (view s) j
unfolding apply apply_view
view-apply_at o s j = ground (
  arith,
  entry?-apply_del o.x j s,
  entry?-apply_hit o j s,
  entry?-apply_row o j s,
  target?-hit o.d (s.instance_id == to_int o.i) (entry? j s),
  row_entry-target o (stray_of o.c s),
)

-- On every kind of line `apply` does to the index what the abstract meaning says.
pub view-apply : (o : Op) (s : Inner) → view (apply o s) ≡ apply_view o (view s)
view-apply o s = fun_ext (view-apply_at o s)

pub apply_lines-append :
    (ls ms : List Bytes) (s : Inner) → apply_lines (ls ++ ms) s ≡ apply_lines ms (apply_lines ls s)
unfolding apply_lines
apply_lines-append [] ms s = refl
apply_lines-append (l ∷ ls) ms s = apply_lines-append ls ms (apply_line l s)

-- The bytes hold whole lines, and replaying them changes the view by `f`.
pub record Chunk (bytes : Bytes) (f : View → View) : Type 0 where
  pub whole : (scan_lines bytes []).1 ≡ []
  pub effect : (s : Inner) → view (apply_lines (replay_file bytes) s) ≡ f (view s)

pub Chunk-nil : Chunk [] (λ v. v)
Chunk-nil = record {
  whole = unfold scan_lines in refl;
  effect = λ s. unfold replay_file scan_lines apply_lines in refl;
}

pub replay_file-append :
    (b c : Bytes) → (scan_lines b []).1 ≡ [] → replay_file (b ++ c) ≡ replay_file b ++ replay_file c
unfolding replay_file
replay_file-append b c h =
    scan_lines-append b c [] ∙ ap (λ l. (scan_lines b []).0 ++ (scan_lines c l).0) h

pub Chunk-append :
    {b c : Bytes} {f g : View → View} → Chunk b f → Chunk c g → Chunk (b ++ c) (λ v. g (f v))
Chunk-append {b} {c} {f} {g} x y = record {
  whole = scan_lines-append_rest b c [] ∙ ap (λ l. (scan_lines c l).1) x.whole ∙ y.whole;
  effect = λ s.
      ap (λ l. view (apply_lines l s)) (replay_file-append b c x.whole)
      ∙ ap view (apply_lines-append (replay_file b) (replay_file c) s)
      ∙ y.effect (apply_lines (replay_file b) s)
      ∙ ap g (x.effect s);
}

scan_line :
    (line : Bytes) → NoBreak line → line ≢ [] → scan_lines (line ++ nl ∷ []) [] ≡ (line ∷ [], [])
scan_line [] h n = absurd (n refl)
scan_line (b ∷ line) h n =
    scan_lines-NoBreak (b ∷ line) (nl ∷ []) [] h ∙ (unfold scan_lines in refl)

view-apply_line :
    (line : Bytes) (o : Op) (s : Inner)
    → parse_op line ≡ some o
    → view (apply_line line s) ≡ apply_view o (view s)
unfolding apply_line
view-apply_line line o s p = rw (p, apply_line) (view-apply o s)

pub Chunk-line :
    (line : Bytes) (o : Op)
    → NoBreak line
    → line ≢ []
    → parse_op line ≡ some o
    → Chunk (line ++ nl ∷ []) (apply_view o)
Chunk-line line o h n p = record {
  whole = ap (λ r. r.1) (scan_line line h n);
  effect = λ s.
      unfold replay_file apply_lines in
      ap (λ (r : List Bytes × Bytes). view (apply_lines r.0 s)) (scan_line line h n)
      ∙ view-apply_line line o s p;
}
