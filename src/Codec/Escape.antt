-- ===== src/Codec/Escape.antt =====
-- `esc` and `unescape` of src/codec.cpp.
pub mod RoundTrip
use shrt_cpp.Prelude.{
  ℕ, zero, suc, ◌+◌, ◌-◌, ◌/◌, ◌%◌, ◌^◌, [], ◌∷◌, ◌++◌, bit_or, ltb, ◌==◌, ◌≡◌, refl, Bytes, codes,
  length, take, if◌then◌else◌,
}
use shrt_cpp.Codec.Number.{strtoul16, hex_signed, hex_body, hexadecimal, hex_value, skip_space}

-- The digit that printf's %x writes.
unfoldable pub hex_digit : ℕ → ℕ
hex_digit d = if ltb d 10 then b'0' + d else b'a' + (d - 10)

-- printf's \u%04x of a byte below 0x20.
unfoldable pub unicode : ℕ → Bytes
unicode c = b'\\' ∷ b'u' ∷ b'0' ∷ b'0' ∷ hex_digit (c / 16) ∷ hex_digit (c % 16) ∷ []

-- What one round of `esc` appends.
unfoldable pub esc_byte : ℕ → Bytes
esc_byte c =
    if c == b'"'
    then b'\\' ∷ b'"' ∷ []
    else if c == b'\\'
    then b'\\' ∷ b'\\' ∷ []
    else if c == b'\n'
    then b'\\' ∷ b'n' ∷ []
    else if c == b'\r'
    then b'\\' ∷ b'r' ∷ []
    else if c == b'\t'
    then b'\\' ∷ b't' ∷ []
    else if ltb c 0x20
    then unicode c
    else c ∷ []

unfoldable pub esc : Bytes → Bytes
esc [] = []
esc (c ∷ s) = esc_byte c ++ esc s

-- The bytes of a code point in UTF-8, each truncated to a char.
unfoldable pub utf8 : ℕ → Bytes
utf8 cp =
    if ltb cp 0x80
    then cp ∷ []
    else if ltb cp 0x800
    then bit_or 0xc0 (cp / 2 ^ 6) % 256 ∷ bit_or 0x80 (cp % 2 ^ 6) ∷ []
    else bit_or 0xe0 (cp / 2 ^ 12) % 256
      ∷ bit_or 0x80 (cp / 2 ^ 6 % 2 ^ 6)
      ∷ bit_or 0x80 (cp % 2 ^ 6)
      ∷ []

-- One round of `unescape` at the byte `c` with `s` behind it: what it appends, and how many bytes
-- of `s` it consumes beside `c`.
unfoldable pub unescape_step : ℕ → Bytes → Bytes × ℕ
unescape_step c [] = (c ∷ [], 0)
unescape_step c (e ∷ s) =
    if c == b'\\'
    then if e == b'n'
      then (b'\n' ∷ [], 1)
      else if e == b'r'
      then (b'\r' ∷ [], 1)
      else if e == b't'
      then (b'\t' ∷ [], 1)
      else if e == b'u'
      then if ltb 3 (length s) then (utf8 (strtoul16 (take 4 s)), 5) else ([], 1)
      else (e ∷ [], 1)
    else (c ∷ [], 0)

-- `unescape`, with the number of bytes still to be passed over.
unfoldable pub unescape_at : Bytes → ℕ → Bytes
unescape_at [] k = []
unescape_at (c ∷ s) (suc k) = unescape_at s k
unescape_at (c ∷ s) zero = let (out, k) = unescape_step c s in out ++ unescape_at s k

unfoldable pub unescape : Bytes → Bytes
unescape s = unescape_at s 0

unescape_euro : unescape (codes "\\u20aCx\\") ≡ 0xe2 ∷ 0x82 ∷ 0xac ∷ b'x' ∷ b'\\' ∷ []
unfolding unescape unescape_at unescape_step utf8 strtoul16 hex_signed hex_body hexadecimal
    hex_value skip_space
unescape_euro = refl

esc_control : esc (1 ∷ b'a' ∷ 31 ∷ []) ≡ codes "\\u0001a\\u001f"
unfolding esc esc_byte unicode hex_digit
esc_control = refl
