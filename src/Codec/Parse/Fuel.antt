-- ===== src/Codec/Parse/Fuel.antt =====
-- The loop of `parse_op` in src/codec.cpp and the fuel of its model.
use shrt_cpp.Prelude.{
  ℕ, zero, suc, ◌≤◌, ◌<◌, Bool, false, not, ◌&&◌, [], ◌∷◌, none, some, ◌≡◌, refl, arith, inl, inr,
  Option-cases, Bytes, length, ◌==◌, split_at, if◌then◌else◌,
}
use shrt_cpp.Codec.Line.{Op}
use shrt_cpp.Codec.Parse.{
  scan_string, scan_number, skip_blanks, first_byte, read_value, read_field, read_fields, parse_op,
  no_op, has_subject,
}

length-split_at : (c : ℕ) (s x y : Bytes) → split_at c s ≡ some (x, y) → length y < length s
unfolding split_at
length-split_at c [] x y h = cc
length-split_at c (b ∷ s) x y h = elim (Option-cases (split_at c s)) [
  | inl e ↦ ground arith
  | inr ((x', y'), e) ↦ ground (arith, length-split_at c s x' y' e)
]

length-scan_string : (s : Bytes) (skip : Bool) → length (scan_string s skip).rest ≤ length s
unfolding scan_string
length-scan_string [] skip = omega arith
length-scan_string (b ∷ s) skip = ground (arith, length-scan_string s (not skip && b == b'\\'))

length-scan_number : (s : Bytes) → length (scan_number s).1 ≤ length s
unfolding scan_number
length-scan_number [] = omega arith
length-scan_number (b ∷ s) = ground (arith, length-scan_number s)

length-skip_blanks : (s : Bytes) → length (skip_blanks s) ≤ length s
unfolding skip_blanks
length-skip_blanks [] = omega arith
length-skip_blanks (b ∷ s) = ground (arith, length-skip_blanks s)

length-read_value :
    (k : ℕ) (s : Bytes) (o o' : Op) (rest : Bytes)
    → read_value k s o ≡ some (o', rest)
    → length rest ≤ length s
unfolding read_value
length-read_value k [] o o' rest h = cc
length-read_value k (b ∷ s) o o' rest h =
    ground (arith, length-scan_string s false, length-scan_number (b ∷ s))

length-read_field :
    (s : Bytes) (o o' : Op) (rest : Bytes)
    → read_field s o ≡ some (o', rest)
    → length rest ≤ length s
unfolding read_field
length-read_field s o o' rest h = elim (Option-cases (split_at b'"' s)) [
  | inl e ↦ ground arith
  | inr ((key, s₁), e) ↦ elim (Option-cases (split_at b':' s₁)) [
    | inl e' ↦ ground arith
    | inr ((x, s₂), e') ↦ ground (
      arith,
      length-split_at b'"' s key s₁ e,
      length-split_at b':' s₁ x s₂ e',
      length-skip_blanks s₂,
      length-read_value (first_byte key) (skip_blanks s₂) o o' rest,
    )
  ]
]

-- More fuel than the length of the rest changes nothing.
pub read_fields_fuel :
    (fuel more : ℕ) (s : Bytes) (o : Op)
    → length s ≤ fuel
    → fuel ≤ more
    → read_fields more s o ≡ read_fields fuel s o
unfolding read_fields
read_fields_fuel zero zero s o h k = refl
read_fields_fuel zero (suc more) [] o h k = unfold split_at in refl
read_fields_fuel zero (suc more) (b ∷ s) o h k = absurd (omega arith)
read_fields_fuel (suc fuel) zero s o h k = absurd (omega arith)
read_fields_fuel (suc fuel) (suc more) s o h k = elim (Option-cases (split_at b'"' s)) [
  | inl e ↦ ground arith
  | inr ((x, s₁), e) ↦ elim (Option-cases (read_field s₁ o)) [
    | inl e' ↦ ground arith
    | inr ((o', s₂), e') ↦ ground (
      arith,
      length-split_at b'"' s x s₁ e,
      length-read_field s₁ o o' s₂ e',
      read_fields_fuel fuel more s₂ o',
    )
  ]
]

-- The loop of `parse_op` with any fuel from the length of the line on gives the result of `parse_op`.
pub parse_op_fuel :
    (line : Bytes) (fuel : ℕ)
    → length line ≤ fuel
    → parse_op line ≡ elim (read_fields fuel line no_op) [
      | none ↦ none
      | some o ↦ if has_subject o then some o else none
    ]
unfolding parse_op
parse_op_fuel line fuel h = ground (arith, read_fields_fuel (length line) fuel line no_op)
