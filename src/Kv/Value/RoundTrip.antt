-- ===== src/Kv/Value/RoundTrip.antt =====
-- `enc` and `dec` of src/store_kv.cpp, one after the other.
use shrt_cpp.Prelude.{
  ◌-◌, ◌^◌, ◌<◌, true, false, [], ◌∷◌, ◌++◌, some, ◌≡◌, ◌≢◌, refl, ◌∙◌, arith, inl, inr, Bool-cases,
  Bytes, All, Int64, is_neg, starts_with, split_at,
}
use shrt_cpp.Codec.Number.{itoa, digits, magnitude, decimal, skip_space}
use shrt_cpp.Codec.Number.RoundTrip.{
  IsDigit, IsNumeral, itoa-IsNumeral, itoa_digits-ne-nil, digits-IsDigit, signed-magnitude,
  magnitude-lt,
}
use shrt_cpp.Kv.Value.{
  starts_with_digit, positive, negative, stoll_signed, stoll, enc, dec_rest, dec_fields, dec,
}

starts_digits : (s : Bytes) → s ≢ [] → All IsDigit s → starts_with_digit s ≡ true
unfolding starts_with_digit
starts_digits [] h d = absurd (h refl)
starts_digits (c ∷ s) h d = ground arith

stoll_digits : (s : Bytes) → s ≢ [] → All IsDigit s → stoll s ≡ positive s
unfolding stoll stoll_signed skip_space
stoll_digits [] h d = absurd (h refl)
stoll_digits (c ∷ s) h d = ground arith

negative_digits :
    (s : Bytes) (n v : Int64)
    → starts_with_digit s ≡ true
    → decimal 0 s ≡ v
    → is_neg n ≡ true
    → n < 2 ^ 64
    → v ≡ 2 ^ 64 - n
    → negative s ≡ some n
unfolding negative
negative_digits s n v sd d hn h e = ground (arith, sd, d, hn, h, e)

positive_digits :
    (s : Bytes) (n : Int64)
    → starts_with_digit s ≡ true
    → decimal 0 s ≡ n
    → is_neg n ≡ false
    → positive s ≡ some n
unfolding positive
positive_digits s n sd d hn = ground (arith, sd, d, hn)

stoll_minus : (s : Bytes) → stoll (b'-' ∷ s) ≡ negative s
unfolding stoll stoll_signed skip_space
stoll_minus s = refl

magnitude_neg : (n : Int64) → n < 2 ^ 64 → is_neg n ≡ true → magnitude n ≡ 2 ^ 64 - n
unfolding magnitude
magnitude_neg n h e = ground (arith, e)

magnitude_pos : (n : Int64) → is_neg n ≡ false → magnitude n ≡ n
unfolding magnitude
magnitude_pos n e = ground (arith, e)

-- std::stoll reads back what std::to_string writes.
pub stoll-itoa : (n : Int64) → n < 2 ^ 64 → stoll (itoa n) ≡ some n
unfolding itoa
stoll-itoa n h =
    let ds = digits 24 (magnitude n) [] in
    let sd =
      starts_digits ds (itoa_digits-ne-nil (magnitude n)) (digits-IsDigit 24 (magnitude n) [] tt) in
    let v = signed-magnitude (magnitude n) (magnitude-lt n h) in
    elim (Bool-cases (is_neg n)) [
      | inl e ↦
          rw e (stoll_minus ds ∙ negative_digits ds n (magnitude n) sd v e h (magnitude_neg n h e))
      | inr e ↦ rw e (
          stoll_digits ds (itoa_digits-ne-nil (magnitude n)) (digits-IsDigit 24 (magnitude n) [] tt)
          ∙ positive_digits ds n sd (v ∙ magnitude_pos n e) e)
    ]

split_numeral : (s t : Bytes) → All IsNumeral s → split_at b'|' (s ++ b'|' ∷ t) ≡ some (s, t)
unfolding split_at
split_numeral [] t h = refl
split_numeral (c ∷ s) t h = ground (arith, split_numeral s t h.1)

dec_rest-enc :
    (e c : Int64) (u : Bytes)
    → c < 2 ^ 64
    → dec_rest e (itoa c ++ b'|' ∷ u) ≡ some (record { e = e; c = c; u = u })
unfolding dec_rest
dec_rest-enc e c u hc =
    rw (split_numeral (itoa c) u (itoa-IsNumeral c), stoll-itoa c hc, dec_rest) refl

dec_fields-enc :
    (e : Int64) (r : Bytes) → e < 2 ^ 64 → dec_fields (itoa e ++ b'|' ∷ r) ≡ dec_rest e r
unfolding dec_fields
dec_fields-enc e r he =
    rw (split_numeral (itoa e) r (itoa-IsNumeral e), stoll-itoa e he, dec_fields) refl

-- For times that are int64_t values, any url, with bars in it or not, comes back with its times.
pub dec-enc :
    (e c : Int64) (u : Bytes)
    → e < 2 ^ 64
    → c < 2 ^ 64
    → dec (enc e c u) ≡ some (record { e = e; c = c; u = u })
unfolding dec enc starts_with
dec-enc e c u he hc = dec_fields-enc e (itoa c ++ b'|' ∷ u) he ∙ dec_rest-enc e c u hc
