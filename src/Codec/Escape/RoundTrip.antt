-- ===== src/Codec/Escape/RoundTrip.antt =====
-- `esc` and `unescape` of src/codec.cpp, one after the other.
use shrt_cpp.Prelude.{
  ℕ, ◌/◌, ◌%◌, ◌<◌, ◌≤◌, Bool, false, ◌||◌, [], ◌∷◌, ◌++◌, ◌≡◌, refl, arith, Bytes, ltb, ◌==◌, All,
  All-append,
}
use shrt_cpp.Codec.Number.{strtoul16, hex_signed, hex_body, hexadecimal, hex_value, skip_space}
use shrt_cpp.Codec.Escape.{
  hex_digit, unicode, esc_byte, esc, utf8, unescape_step, unescape_at, unescape,
}

strtoul16-unicode :
    (c : ℕ) → c < 0x20 → strtoul16 (b'0' ∷ b'0' ∷ hex_digit (c / 16) ∷ hex_digit (c % 16) ∷ []) ≡ c
unfolding strtoul16 hex_signed hex_body hexadecimal hex_value skip_space hex_digit
strtoul16-unicode c h = ground arith

unescape_at-unicode :
    (c : ℕ) (t : Bytes) → c < 0x20 → unescape_at (unicode c ++ t) 0 ≡ c ∷ unescape_at t 0
unfolding unicode unescape_at unescape_step utf8
unescape_at-unicode c t h = ground (arith, strtoul16-unicode c h)

unescape_at-esc_byte : (c : ℕ) (t : Bytes) → unescape_at (esc_byte c ++ t) 0 ≡ c ∷ unescape_at t 0
unfolding esc_byte unescape_at unescape_step
unescape_at-esc_byte c t = ground (arith, unescape_at-unicode c t)

unescape_at-esc : (s : Bytes) → unescape_at (esc s) 0 ≡ s
unfolding esc unescape_at
unescape_at-esc [] = refl
unescape_at-esc (c ∷ s) = rw (unescape_at-esc_byte c (esc s), unescape_at-esc s)

-- Every byte string is read back from its escaped form.
pub unescape-esc : (s : Bytes) → unescape (esc s) ≡ s
unfolding unescape
unescape-esc s = unescape_at-esc s

-- The bytes that `esc` changes.
abbrev pub is_special : ℕ → Bool
is_special c = c == b'"' || (c == b'\\' || ltb c 0x20)

abbrev pub any_special : Bytes → Bool
any_special [] = false
any_special (c ∷ s) = is_special c || any_special s

pub esc_plain : (s : Bytes) → any_special s ≡ false → esc s ≡ s
unfolding esc esc_byte
esc_plain [] h = refl
esc_plain (c ∷ s) h = ground (arith, esc_plain s)

-- Escaped text holds no control byte, so no line break.
esc_byte-printable : (c : ℕ) → All (λ b. 0x20 ≤ b) (esc_byte c)
unfolding esc_byte unicode hex_digit
esc_byte-printable c = ground arith

pub esc-printable : (s : Bytes) → All (λ b. 0x20 ≤ b) (esc s)
unfolding esc
esc-printable [] = tt
esc-printable (c ∷ s) = All-append _ (esc_byte c) (esc s) (esc_byte-printable c) (esc-printable s)
