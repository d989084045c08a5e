-- ===== src/Codec/Parse/Fields.antt =====
-- How `parse_op` reads one field that the writers of src/codec.cpp wrote.
use shrt_cpp.Prelude.{
  ℕ, zero, suc, ◌≤◌, Bool, false, ◌||◌, [], ◌∷◌, ◌++◌, append_assoc, some, ◌≡◌, ◌≢◌, ◌⊎◌, refl, ap,
  arith, inl, inr, Bool-cases, Bytes, codes, All, bytes_eq, split_at, if◌then◌else◌,
}
use shrt_cpp.Codec.Number.RoundTrip.{IsNumeral}
use shrt_cpp.Codec.Escape.{hex_digit, unicode, esc_byte, esc, unescape}
use shrt_cpp.Codec.Escape.RoundTrip.{is_special, any_special, esc_plain, unescape-esc}
use shrt_cpp.Codec.Line.{Op}
use shrt_cpp.Codec.Parse.{
  Raw, scan_string, scan_number, skip_blanks, trim_end, store_string, store_number, first_byte,
  read_value, read_field, read_fields,
}

-- A byte that stands in a JSON string as itself.
abbrev pub IsPlain : ℕ → Type 0
IsPlain b = (0x20 ≤ b) × (b ≢ b'"') × (b ≢ b'\\')

abbrev quoted : Bytes → Bool → Bytes → Raw
quoted v esc rest = record { val = v; escapes = esc; rest = rest }

scan_string_plain :
    (s t : Bytes) → All IsPlain s → scan_string (s ++ b'"' ∷ t) false ≡ quoted s false t
unfolding scan_string
scan_string_plain [] t h = refl
scan_string_plain (b ∷ s) t h = ground (arith, scan_string_plain s t)

scan_string-esc_byte :
    (c : ℕ) (t : Bytes)
    → scan_string (esc_byte c ++ t) false ≡ (
        let r = scan_string t false in
        quoted (esc_byte c ++ r.val) (is_special c || r.escapes) r.rest)
unfolding scan_string esc_byte unicode hex_digit
scan_string-esc_byte c t = ground arith

scan_string-esc :
    (s t : Bytes) → scan_string (esc s ++ b'"' ∷ t) false ≡ quoted (esc s) (any_special s) t
unfolding esc
scan_string-esc [] t = unfold scan_string in refl
scan_string-esc (c ∷ s) t =
    rw (append_assoc, scan_string-esc_byte c (esc s ++ b'"' ∷ t), scan_string-esc s t)

-- What the value of a string field is taken for.
decoded-esc : (s : Bytes) → (if any_special s then unescape (esc s) else esc s) ≡ s
decoded-esc s = elim (Bool-cases (any_special s)) [
  | inl e ↦ rw e (unescape-esc s)
  | inr e ↦ rw e (esc_plain s e)
]

abbrev pub IsEnd : ℕ → Type 0
IsEnd b = (b ≡ b',') ⊎ (b ≡ b'}')

scan_number_numeral :
    (s t : Bytes) (b : ℕ) → IsEnd b → All IsNumeral s → scan_number (s ++ b ∷ t) ≡ (s, b ∷ t)
unfolding scan_number
scan_number_numeral [] t b e h = ground arith
scan_number_numeral (c ∷ s) t b e h = ground (arith, scan_number_numeral s t b e h.1)

trim_end_numeral : (s : Bytes) → All IsNumeral s → trim_end s ≡ s
unfolding trim_end
trim_end_numeral [] h = refl
trim_end_numeral (c ∷ s) h = ground (arith, trim_end_numeral s h.1)

-- The opening quote, key, closing quote and colon of a field that starts behind the byte `b`.
abbrev pub field : ℕ → ℕ → Bytes → Bytes
field b k s = b ∷ b'"' ∷ k ∷ b'"' ∷ b':' ∷ s

read_fields_key :
    (fuel b k : ℕ) (s : Bytes) (o o' : Op) (rest : Bytes)
    → b ≢ b'"'
    → k ≢ b'"'
    → read_value k (skip_blanks s) o ≡ some (o', rest)
    → read_fields (suc fuel) (field b k s) o ≡ read_fields fuel rest o'
unfolding read_fields read_field split_at first_byte
read_fields_key fuel b k s o o' rest hb hk h = ground arith

-- A string field with an escaped value.
pub read_fields-esc :
    (fuel b k : ℕ) (v t : Bytes) (o : Op)
    → b ≢ b'"'
    → k ≢ b'"'
    → read_fields (suc fuel) (field b k (b'"' ∷ esc v ++ b'"' ∷ t)) o
      ≡ read_fields fuel t (store_string k v o)
read_fields-esc fuel b k v t o hb hk = read_fields_key fuel b k _ o (store_string k v o) t hb hk (
    unfold skip_blanks read_value in
    rw (scan_string-esc v t) (ap (λ s. some (store_string k s o, t)) (decoded-esc v)))

-- A string field whose value was written as it is.
pub read_fields_plain :
    (fuel b k : ℕ) (v t : Bytes) (o : Op)
    → b ≢ b'"'
    → k ≢ b'"'
    → All IsPlain v
    → read_fields (suc fuel) (field b k (b'"' ∷ v ++ b'"' ∷ t)) o
      ≡ read_fields fuel t (store_string k v o)
read_fields_plain fuel b k v t o hb hk h =
    read_fields_key fuel b k _ o (store_string k v o) t hb hk
      (unfold skip_blanks read_value in rw (scan_string_plain v t h))

read_value_numeral :
    (k e : ℕ) (v t : Bytes) (o : Op)
    → IsEnd e
    → v ≢ []
    → All IsNumeral v
    → read_value k (skip_blanks (v ++ e ∷ t)) o ≡ some (store_number k v o, e ∷ t)
unfolding read_value skip_blanks
read_value_numeral k e [] t o he hn h = absurd (hn refl)
read_value_numeral k e (c ∷ v) t o he hn h =
    ground (arith, scan_number_numeral (c ∷ v) t e he h, trim_end_numeral (c ∷ v) h)

pub read_fields_numeral :
    (fuel b k e : ℕ) (v t : Bytes) (o : Op)
    → b ≢ b'"'
    → k ≢ b'"'
    → IsEnd e
    → v ≢ []
    → All IsNumeral v
    → read_fields (suc fuel) (field b k (v ++ e ∷ t)) o
      ≡ read_fields fuel (e ∷ t) (store_number k v o)
read_fields_numeral fuel b k e v t o hb hk he hn h =
    read_fields_key fuel b k _ o (store_number k v o) (e ∷ t) hb hk
      (read_value_numeral k e v t o he hn h)

pub read_fields_null :
    (fuel b k e : ℕ) (t : Bytes) (o : Op)
    → b ≢ b'"'
    → k ≢ b'"'
    → IsEnd e
    → read_fields (suc fuel) (field b k (codes "null" ++ e ∷ t)) o
      ≡ read_fields fuel (e ∷ t) (store_number k (codes "null") o)
read_fields_null fuel b k e t o hb hk he =
    read_fields_key fuel b k _ o (store_number k (codes "null") o) (e ∷ t) hb hk
      (unfold read_value skip_blanks scan_number trim_end in ground arith)

-- Behind the last field nothing is read, whatever fuel is left.
pub read_fields_end : (fuel : ℕ) (o : Op) → read_fields fuel (codes "}") o ≡ some o
unfolding read_fields split_at
read_fields_end zero o = refl
read_fields_end (suc fuel) o = refl

pub numeral-ne-null : (v : Bytes) → All IsNumeral v → bytes_eq v (codes "null") ≡ false
unfolding bytes_eq
numeral-ne-null [] h = refl
numeral-ne-null (c ∷ v) h = ground arith
