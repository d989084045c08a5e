-- ===== src/Store/Chunks.antt =====
-- The lines that the store writes, as changes of the view.
use shrt_cpp.Prelude.{
  ◌^◌, ◌<◌, not, [], ◌∷◌, ◌++◌, ◌≡◌, ◌≢◌, refl, ◌∙◌, arith, inl, inr, Bool-cases, Bytes, Int64,
  to_int, All, All-map, ◌==◌,
}
use shrt_cpp.Codec.Line.{row_line, hit_line, del_line}
use shrt_cpp.Codec.Parse.{no_op}
use shrt_cpp.Codec.Parse.Fields.{IsPlain}
use shrt_cpp.Codec.Parse.RoundTrip.{parse_op-row_line, parse_op-hit_line, parse_op-del_line}
use shrt_cpp.Codec.Printable.{
  IsPrintable, row_line-IsPrintable, hit_line-IsPrintable, del_line-IsPrintable,
}
use shrt_cpp.Aof.{nl}
use shrt_cpp.Aof.Reader.{NoBreak}
use shrt_cpp.Store.Views.{View, view_put, view_erase, apply_view, Chunk, Chunk-line}

-- A short code as the handlers admit it: not empty, and every byte stands for itself in a line.
pub record IsCode (c : Bytes) : Type 0 where
  pub filled : c ≢ []
  pub plain : All IsPlain c

printable-NoBreak : (b : Bytes) → IsPrintable b → NoBreak b
printable-NoBreak = All-map (λ c h. omega arith)

Chunk-same : {b : Bytes} {f g : View → View} → ((v : View) → f v ≡ g v) → Chunk b f → Chunk b g
Chunk-same e x = record { whole = x.whole; effect = λ s. x.effect s ∙ e _ }

row_view :
    (c u : Bytes) (a e i n : Int64) (v : View)
    → c ≢ []
    → apply_view (record no_op { c = c; u = u; a = a; e = e; i = i; n = n; has_e = not (e == 0) }) v
      ≡ view_put c (record { u = u; a = a; e = e; i = to_int i }) v
unfolding apply_view
row_view [] u a e i n v h = absurd (h refl)
row_view (b ∷ c) u a e i n v h = elim (Bool-cases (e == 0)) [
  | inl z ↦ ground arith
  | inr z ↦ ground arith
]

-- A row line puts its target under its code.
pub row-Chunk :
    (c u : Bytes) (a e i n : Int64)
    → IsCode c
    → a < 2 ^ 64
    → e < 2 ^ 64
    → i < 2 ^ 64
    → n < 2 ^ 64
    → Chunk
        (row_line c u a e i n ++ nl ∷ [])
        (view_put c (record { u = u; a = a; e = e; i = to_int i }))
row-Chunk c u a e i n h ha he hi hn =
    Chunk-same (λ v. row_view c u a e i n v h.filled)
      (Chunk-line (row_line c u a e i n) _
        (printable-NoBreak _ (row_line-IsPrintable c u a e i n h.plain)) (unfold row_line in cc)
        (parse_op-row_line c u a e i n h.filled h.plain ha he hi hn))

hit_view :
    (c : Bytes) (d i : Int64) (v : View)
    → c ≢ []
    → apply_view (record no_op { h = c; d = d; i = i }) v ≡ v
unfolding apply_view
hit_view [] d i v h = absurd (h refl)
hit_view (b ∷ c) d i v h = refl

-- A hit line changes no target.
pub hit-Chunk :
    (c : Bytes) (d i : Int64)
    → IsCode c
    → d < 2 ^ 64
    → i < 2 ^ 64
    → Chunk (hit_line c d i ++ nl ∷ []) (λ v. v)
hit-Chunk c d i h hd hi =
    Chunk-same (λ v. hit_view c d i v h.filled)
      (Chunk-line (hit_line c d i) _ (printable-NoBreak _ (hit_line-IsPrintable c d i h.plain))
        (unfold hit_line in cc) (parse_op-hit_line c d i h.filled h.plain hd hi))

del_view : (c : Bytes) (v : View) → c ≢ [] → apply_view (record no_op { x = c }) v ≡ view_erase c v
unfolding apply_view
del_view [] v h = absurd (h refl)
del_view (b ∷ c) v h = refl

-- A tombstone takes its code out.
pub del-Chunk : (c : Bytes) → IsCode c → Chunk (del_line c ++ nl ∷ []) (view_erase c)
del-Chunk c h =
    Chunk-same (λ v. del_view c v h.filled)
      (Chunk-line (del_line c) _ (printable-NoBreak _ (del_line-IsPrintable c h.plain))
        (unfold del_line in cc) (parse_op-del_line c h.filled h.plain))
