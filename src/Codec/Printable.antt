-- ===== src/Codec/Printable.antt =====
-- The bytes of the lines that src/codec.cpp writes.
use shrt_cpp.Prelude.{
  ◌≤◌, ◌++◌, arith, inl, inr, Bool-cases, Bytes, codes, Int64, ◌==◌, All, All-append, All-map,
}
use shrt_cpp.Codec.Number.{itoa}
use shrt_cpp.Codec.Number.RoundTrip.{itoa-IsNumeral}
use shrt_cpp.Codec.Escape.{esc}
use shrt_cpp.Codec.Escape.RoundTrip.{esc-printable}
use shrt_cpp.Codec.Line.{expiry, row_line, hit_line, del_line}
use shrt_cpp.Codec.Parse.Fields.{IsPlain}

abbrev pub IsPrintable : Bytes → Type 0
IsPrintable = All (λ b. 0x20 ≤ b)

plain-IsPrintable : (c : Bytes) → All IsPlain c → IsPrintable c
plain-IsPrintable = All-map (λ b h. h.0)

itoa-IsPrintable : (n : Int64) → IsPrintable (itoa n)
itoa-IsPrintable n = All-map (λ b h. omega arith) (itoa n) (itoa-IsNumeral n)

expiry-IsPrintable : (e : Int64) → IsPrintable (expiry e)
unfolding expiry
expiry-IsPrintable e = elim (Bool-cases (e == 0)) [
  | inl z ↦ rw z (omega arith)
  | inr z ↦ rw z (itoa-IsPrintable e)
]

joined : (b c : Bytes) → IsPrintable b → IsPrintable c → IsPrintable (b ++ c)
joined = All-append (λ b. 0x20 ≤ b)

pub row_line-IsPrintable :
    (c u : Bytes) (a e i n : Int64) → All IsPlain c → IsPrintable (row_line c u a e i n)
unfolding row_line
row_line-IsPrintable c u a e i n h = joined (codes "{\"c\":\"") _ (omega arith) (
    joined c _ (plain-IsPrintable c h) (
      joined (codes "\",\"u\":\"") _ (omega arith) (
        joined (esc u) _ (esc-printable u) (
          joined (codes "\",\"a\":") _ (omega arith) (
            joined (itoa a) _ (itoa-IsPrintable a) (
              joined (codes ",\"e\":") _ (omega arith) (
                joined (expiry e) _ (expiry-IsPrintable e) (
                  joined (codes ",\"i\":") _ (omega arith) (
                    joined (itoa i) _ (itoa-IsPrintable i) (
                      joined (codes ",\"n\":") _ (omega arith)
                        (joined (itoa n) _ (itoa-IsPrintable n) (omega arith))))))))))))

pub hit_line-IsPrintable : (c : Bytes) (d i : Int64) → All IsPlain c → IsPrintable (hit_line c d i)
unfolding hit_line
hit_line-IsPrintable c d i h = joined (codes "{\"h\":\"") _ (omega arith) (
    joined c _ (plain-IsPrintable c h) (
      joined (codes "\",\"d\":") _ (omega arith) (
        joined (itoa d) _ (itoa-IsPrintable d) (
          joined (codes ",\"i\":") _ (omega arith)
            (joined (itoa i) _ (itoa-IsPrintable i) (omega arith))))))

pub del_line-IsPrintable : (c : Bytes) → All IsPlain c → IsPrintable (del_line c)
unfolding del_line
del_line-IsPrintable c h =
    joined (codes "{\"x\":\"") _ (omega arith) (joined c _ (plain-IsPrintable c h) (omega arith))
