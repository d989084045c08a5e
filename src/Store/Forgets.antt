-- ===== src/Store/Forgets.antt =====
-- The hits of a link that is updated: in memory, and in the log.
use shrt_cpp.Prelude.{
  ◌^◌, ◌<◌, Bool, true, false, not, none, some, ◌≡◌, ◌≢◌, refl, sym, ap, ◌∙◌, arith, inl, inr,
  Bool-cases, [], ◌∷◌, Bytes, bytes_eq_refl, Int64, add64, to_int, from_int, find, ◌==◌,
  if◌then◌else◌,
}
use shrt_cpp.Codec.Line.{Op, row_line}
use shrt_cpp.Codec.Parse.{no_op, parse_op}
use shrt_cpp.Codec.Parse.RoundTrip.{parse_op-row_line}
use shrt_cpp.Store.State.{ok, Entry, Inner, World, entry?}
use shrt_cpp.Store.Apply.{row_entry, apply, apply_row, apply_line}
use shrt_cpp.Store.Create.{expires, emplace}
use shrt_cpp.Aof.{Aof, push}
use shrt_cpp.Store.Access.{log_line, new_expiry, update}
use shrt_cpp.Store.Chunks.{IsCode}
use shrt_cpp.Store.Index.{entry?-apply_row, stray_of}
use shrt_cpp.Store.Durable.{expires-lt}
use shrt_cpp.Store.Effects.{update_effect}

apply-row :
    (c u : Bytes) (a e i n : Int64) (s : Inner)
    → c ≢ []
    → apply (record no_op { c = c; u = u; a = a; e = e; i = i; n = n; has_e = not (e == 0) }) s
      ≡ apply_row
          (record no_op { c = c; u = u; a = a; e = e; i = i; n = n; has_e = not (e == 0) })
          s
unfolding apply
apply-row [] u a e i n s h = absurd (h refl)
apply-row (b ∷ c) u a e i n s h = refl

apply_line-parsed :
    (l : Bytes) (o : Op) (s : Inner) → parse_op l ≡ some o → apply_line l s ≡ apply o s
unfolding apply_line
apply_line-parsed l o s p = rw (p, apply_line) refl

new_expiry-lt :
    (w : World) (ttl : Int64) (has_ttl : Bool) (e : Entry)
    → e.e < 2 ^ 64
    → new_expiry w ttl has_ttl e < 2 ^ 64
unfolding new_expiry
new_expiry-lt w ttl true e h = expires-lt (w.now 0) ttl
new_expiry-lt w ttl false e h = h

no_stray :
    (c : Bytes) (s : Inner) → find c s.tail.stray ≡ none → stray_of c s ≡ record { t = 0; o = 0 }
unfolding stray_of
no_stray c s h = rw h refl

-- A row line for an admitted code, with numbers below 2 ^ 64, gives the code at its replay the
-- row's url, times and owner, and as hits the row's count and the stray hits that came before;
-- what an earlier entry of the code had counted is gone.
pub apply_line-row :
    (c u : Bytes) (a e i n : Int64) (s : Inner)
    → IsCode c
    → a < 2 ^ 64
    → e < 2 ^ 64
    → i < 2 ^ 64
    → n < 2 ^ 64
    → entry? c (apply_line (row_line c u a e i n) s)
      ≡ some (record {
        u = u;
        a = a;
        e = e;
        i = to_int i;
        h = add64 n (stray_of c s).t;
        oh = add64 n (stray_of c s).o;
      })
unfolding row_entry
apply_line-row c u a e i n s h ha he hi hn =
    let o : Op = record no_op { c = c; u = u; a = a; e = e; i = i; n = n; has_e = not (e == 0) } in
    ap (entry? c) (
      apply_line-parsed (row_line c u a e i n) o s
        (parse_op-row_line c u a e i n h.filled h.plain ha he hi hn)
      ∙ apply-row c u a e i n s h.filled)
    ∙ ground (arith, entry?-apply_row o c s, bytes_eq_refl c)

log_line-pushed :
    (line : Bytes) (a : Aof) (s : Inner)
    → s.aof ≡ some a
    → (log_line line s).aof ≡ some (push line a)
unfolding log_line
log_line-pushed line a s h = rw (h, log_line) refl

-- What an update that is done pushes on the log.
update-pushed :
    (w : World) (c url : Bytes) (ttl : Int64) (has_ttl : Bool) (s t : Inner) (e : Entry) (a : Aof)
    → update w c url ttl has_ttl s ≡ (ok, t)
    → entry? c s ≡ some e
    → s.aof ≡ some a
    → t.aof
      ≡ some (push (row_line c url e.a (new_expiry w ttl has_ttl e) (from_int s.instance_id) 0) a)
unfolding update emplace
update-pushed w c url ttl has_ttl s t e a h p q = elim (Bool-cases (e.i == s.instance_id)) [
  | inl b ↦
      ap (λ r. r.1.aof) (sym h)
      ∙ rw (p, b, update)
          (log_line-pushed
            (row_line c url e.a (new_expiry w ttl has_ttl e) (from_int s.instance_id) 0) a _ q)
  | inr b ↦ absurd (ground (arith, h, p, b))
]

-- An update of an admitted code, with times and an instance in range, keeps the hits in memory. The line
-- that it pushes on the log gives the code no hits at all, where it is replayed and no stray hits wait.
pub update_forgets :
    (w : World) (c url : Bytes) (ttl : Int64) (has_ttl : Bool) (s t r : Inner) (e : Entry) (a : Aof)
    → update w c url ttl has_ttl s ≡ (ok, t)
    → entry? c s ≡ some e
    → s.aof ≡ some a
    → IsCode c
    → e.a < 2 ^ 64
    → e.e < 2 ^ 64
    → from_int s.instance_id < 2 ^ 64
    → find c r.tail.stray ≡ none
    → (f g : Entry) × (line : Bytes) × (entry? c t ≡ some f)
      × (f.h ≡ e.h)
      × (t.aof ≡ some (push line a))
      × (entry? c (apply_line line r) ≡ some g)
      × (g.h ≡ 0)
update_forgets w c url ttl has_ttl s t r e a h p q hc ha he hi hr =
    let u = update_effect w c url ttl has_ttl s t c h in
    (
      record e { u = url; e = if has_ttl then expires (w.now 0) ttl else e.e },
      record {
        u = url;
        a = e.a;
        e = new_expiry w ttl has_ttl e;
        i = to_int (from_int s.instance_id);
        h = 0;
        oh = 0;
      },
      row_line c url e.a (new_expiry w ttl has_ttl e) (from_int s.instance_id) 0,
      ground (arith, u.1, u.3, p, bytes_eq_refl c),
      refl,
      update-pushed w c url ttl has_ttl s t e a h p q,
      apply_line-row c url e.a (new_expiry w ttl has_ttl e) (from_int s.instance_id) 0 r hc ha
            (new_expiry-lt w ttl has_ttl e he) hi (omega arith)
          ∙ ground (arith, no_stray c r hr),
      refl,
    )
