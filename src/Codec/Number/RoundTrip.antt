-- ===== src/Codec/Number/RoundTrip.antt =====
-- `itoa` of src/common.hpp and the strtoll that reads its digits.
use shrt_cpp.Prelude.{
  ℕ, zero, suc, ◌+◌, ◌/◌, ◌%◌, ◌^◌, ◌≤◌, ◌<◌, true, false, [], ◌∷◌, ◌≡◌, ◌≢◌, refl, ap, ◌∙◌, arith,
  inl, inr, Bool-cases, Bytes, Int64, is_neg, ◌==◌, All, All-map,
}
use shrt_cpp.Codec.Number.{
  digits, magnitude, itoa, ten_pow, skip_space, decimal, saturate, signed, strtoll,
}

abbrev pub IsDigit : ℕ → Type 0
IsDigit c = (b'0' ≤ c) × (c ≤ b'9')

-- The bytes that `itoa` writes: a minus sign or a digit.
abbrev pub IsNumeral : ℕ → Type 0
IsNumeral c = (b'-' ≤ c) × (c ≤ b'9')

pub digits-IsDigit : (room v : ℕ) (out : Bytes) → All IsDigit out → All IsDigit (digits room v out)
unfolding digits
digits-IsDigit zero v out h = h
digits-IsDigit (suc room) v out h = elim (Bool-cases (v / 10 == 0)) [
  | inl e ↦ rw e (omega arith, h)
  | inr e ↦ rw e (digits-IsDigit room (v / 10) _ (omega arith, h))
]

digits-ne-nil : (room v : ℕ) (out : Bytes) → out ≢ [] → digits room v out ≢ []
unfolding digits
digits-ne-nil zero v out h = h
digits-ne-nil (suc room) v out h = elim (Bool-cases (v / 10 == 0)) [
  | inl e ↦ rw e (cc)
  | inr e ↦ rw e (digits-ne-nil room (v / 10) ((b'0' + v % 10) ∷ out) (cc))
]

pub itoa_digits-ne-nil : (v : ℕ) → digits 24 v [] ≢ []
unfolding digits
itoa_digits-ne-nil v = elim (Bool-cases (v / 10 == 0)) [
  | inl e ↦ rw e (cc)
  | inr e ↦ rw e (digits-ne-nil 23 (v / 10) ((b'0' + v % 10) ∷ []) (cc))
]

-- Reading the last digit of `v` behind the digits before it gives `v`.
decimal_last : (v : ℕ) (out : Bytes) → decimal (v / 10) ((b'0' + v % 10) ∷ out) ≡ decimal v out
unfolding decimal
decimal_last v out = ground arith

decimal-digits :
    (room v : ℕ) (out : Bytes) → v < ten_pow room → decimal 0 (digits room v out) ≡ decimal v out
unfolding digits
decimal-digits zero v out h = ground arith
decimal-digits (suc room) v out h = elim (Bool-cases (v / 10 == 0)) [
  | inl e ↦ rw e (ground (arith, decimal_last v out))
  | inr e ↦ rw e (decimal-digits room (v / 10) _ (omega arith) ∙ decimal_last v out)
]

signed-digits :
    (s : Bytes) → s ≢ [] → All IsDigit s → signed (skip_space s) ≡ saturate false (decimal 0 s)
unfolding signed skip_space
signed-digits [] h d = absurd (h refl)
signed-digits (c ∷ s) h d = ground arith

pub magnitude-lt : (n : Int64) → n < 2 ^ 64 → magnitude n < ten_pow 24
unfolding magnitude
magnitude-lt n h = ground arith

digits-IsNumeral : (v : ℕ) → All IsNumeral (digits 24 v [])
digits-IsNumeral v = All-map (λ c h. omega arith) (digits 24 v []) (digits-IsDigit 24 v [] tt)

-- What strtoll reads behind an optional minus sign.
pub signed-magnitude : (v : ℕ) → v < ten_pow 24 → decimal 0 (digits 24 v []) ≡ v
signed-magnitude v h = decimal-digits 24 v [] h ∙ (unfold decimal in refl)

strtoll-digits : (v : ℕ) → v < ten_pow 24 → strtoll (digits 24 v []) ≡ saturate false v
unfolding strtoll
strtoll-digits v h =
    signed-digits (digits 24 v []) (itoa_digits-ne-nil v) (digits-IsDigit 24 v [] tt)
    ∙ ap (saturate false) (signed-magnitude v h)

strtoll_minus : (v : ℕ) → v < ten_pow 24 → strtoll (b'-' ∷ digits 24 v []) ≡ saturate true v
unfolding strtoll skip_space signed
strtoll_minus v h = ap (saturate true) (signed-magnitude v h)

-- `itoa` and `strtoll` are a round trip on every int64_t, the least one included.
pub strtoll-itoa : (n : Int64) → n < 2 ^ 64 → strtoll (itoa n) ≡ n
unfolding itoa
strtoll-itoa n h = elim (Bool-cases (is_neg n)) [
  | inl e ↦
      rw e (
        strtoll_minus (magnitude n) (magnitude-lt n h)
        ∙ (unfold saturate magnitude in ground arith))
  | inr e ↦ rw e (
      strtoll-digits (magnitude n) (magnitude-lt n h) ∙ (unfold saturate magnitude in ground arith))
]

pub itoa-IsNumeral : (n : Int64) → All IsNumeral (itoa n)
unfolding itoa
itoa-IsNumeral n = elim (Bool-cases (is_neg n)) [
  | inl e ↦ rw e (omega arith, digits-IsNumeral (magnitude n))
  | inr e ↦ rw e (digits-IsNumeral (magnitude n))
]

pub itoa-ne-nil : (n : Int64) → itoa n ≢ []
unfolding itoa
itoa-ne-nil n = elim (Bool-cases (is_neg n)) [
  | inl e ↦ rw e (cc)
  | inr e ↦ rw e (itoa_digits-ne-nil (magnitude n))
]
