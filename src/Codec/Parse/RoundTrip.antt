-- ===== src/Codec/Parse/RoundTrip.antt =====
-- `parse_op` of src/codec.cpp on the lines that the writers of the same file produce.
use shrt_cpp.Prelude.{
  ℕ, suc, ◌^◌, ◌<◌, true, false, not, [], ◌∷◌, ◌++◌, some, ◌≡◌, ◌≢◌, refl, ap, ◌∙◌, arith, inl, inr,
  Bool-cases, Bytes, codes, Int64, ◌==◌, All, length, bytes_eq, if◌then◌else◌,
}
use shrt_cpp.Codec.Number.{itoa}
use shrt_cpp.Codec.Number.RoundTrip.{strtoll-itoa, itoa-IsNumeral, itoa-ne-nil}
use shrt_cpp.Codec.Line.{Op, expiry, row_line, hit_line, del_line}
use shrt_cpp.Codec.Parse.{no_op, store_string, store_number, read_fields, parse_op, has_subject}
use shrt_cpp.Codec.Parse.Fields.{
  IsPlain, IsEnd, field, read_fields-esc, read_fields_plain, read_fields_numeral, read_fields_null,
  read_fields_end, numeral-ne-null,
}

-- A number field as `itoa` writes it.
read_fields-itoa :
    (fuel b k e : ℕ) (n : Int64) (t : Bytes) (o : Op)
    → b ≢ b'"'
    → k ≢ b'"'
    → IsEnd e
    → read_fields (suc fuel) (field b k (itoa n ++ e ∷ t)) o
      ≡ read_fields fuel (e ∷ t) (store_number k (itoa n) o)
read_fields-itoa fuel b k e n t o hb hk he =
    read_fields_numeral fuel b k e (itoa n) t o hb hk he (itoa-ne-nil n) (itoa-IsNumeral n)

-- The op with the field `k` set to `n`.
set_number : ℕ → Int64 → Op → Op
set_number k n o =
    if k == b'a'
    then record o { a = n }
    else if k == b'e'
    then record o { e = n; has_e = true }
    else if k == b'i'
    then record o { i = n }
    else if k == b'n'
    then record o { n = n }
    else if k == b'd'
    then record o { d = n }
    else o

store_number-itoa :
    (k : ℕ) (n : Int64) (o : Op) → n < 2 ^ 64 → store_number k (itoa n) o ≡ set_number k n o
unfolding store_number set_number
store_number-itoa k n o h = rw (numeral-ne-null (itoa n) (itoa-IsNumeral n), strtoll-itoa n h) refl

null_expiry :
    (n : Int64) (o : Op)
    → (n == 0) ≡ true
    → o.has_e ≡ false
    → o.e ≡ 0
    → store_number b'e' (codes "null") o ≡ record o { e = n; has_e = false }
unfolding store_number bytes_eq
null_expiry n o z h1 h2 = ground arith

-- The field "e", which is null where there is no expiry.
read_fields-expiry :
    (fuel : ℕ) (n : Int64) (t : Bytes) (o : Op)
    → n < 2 ^ 64
    → o.has_e ≡ false
    → o.e ≡ 0
    → read_fields (suc fuel) (field b',' b'e' (expiry n ++ b',' ∷ t)) o
      ≡ read_fields fuel (b',' ∷ t) (record o { e = n; has_e = not (n == 0) })
unfolding expiry
read_fields-expiry fuel n t o h h1 h2 = elim (Bool-cases (n == 0)) [
  | inl z ↦ rw z (
      read_fields_null fuel b',' b'e' b',' t o (λ p. cc) (λ p. cc) (inl refl)
      ∙ ap (read_fields fuel (b',' ∷ t)) (null_expiry n o z h1 h2))
  | inr z ↦ rw z (
      read_fields-itoa fuel b',' b'e' b',' n t o (λ p. cc) (λ p. cc) (inl refl)
      ∙ ap (read_fields fuel (b',' ∷ t)) (unfold set_number in store_number-itoa b'e' n o h))
]

-- The five fields of a row behind the code.
read_row :
    (fuel : ℕ) (c u : Bytes) (a e i n : Int64)
    → All IsPlain c
    → a < 2 ^ 64
    → e < 2 ^ 64
    → i < 2 ^ 64
    → n < 2 ^ 64
    → read_fields (suc (suc (suc (suc (suc (suc fuel)))))) (row_line c u a e i n) no_op
      ≡ some (record no_op { c = c; u = u; a = a; e = e; i = i; n = n; has_e = not (e == 0) })
unfolding row_line store_string set_number
read_row fuel c u a e i n pc ha he hi hn =
    read_fields_plain (suc (suc (suc (suc (suc fuel))))) b'{' b'c' c _ no_op (λ p. cc) (λ p. cc) pc
    ∙ read_fields-esc (suc (suc (suc (suc fuel)))) b',' b'u' u _ _ (λ p. cc) (λ p. cc)
    ∙ read_fields-itoa (suc (suc (suc fuel))) b',' b'a' b',' a _ _ (λ p. cc) (λ p. cc) (inl refl)
    ∙ ap (read_fields (suc (suc (suc fuel))) _) (store_number-itoa b'a' a _ ha)
    ∙ read_fields-expiry (suc (suc fuel)) e _ _ he refl refl
    ∙ read_fields-itoa (suc fuel) b',' b'i' b',' i _ _ (λ p. cc) (λ p. cc) (inl refl)
    ∙ ap (read_fields (suc fuel) _) (store_number-itoa b'i' i _ hi)
    ∙ read_fields-itoa fuel b',' b'n' b'}' n [] _ (λ p. cc) (λ p. cc) (inr refl)
    ∙ ap (read_fields fuel _) (store_number-itoa b'n' n _ hn)
    ∙ read_fields_end fuel _

read_hit :
    (fuel : ℕ) (c : Bytes) (d i : Int64)
    → All IsPlain c
    → d < 2 ^ 64
    → i < 2 ^ 64
    → read_fields (suc (suc (suc fuel))) (hit_line c d i) no_op
      ≡ some (record no_op { h = c; d = d; i = i })
unfolding hit_line store_string set_number
read_hit fuel c d i pc hd hi =
    read_fields_plain (suc (suc fuel)) b'{' b'h' c _ no_op (λ p. cc) (λ p. cc) pc
    ∙ read_fields-itoa (suc fuel) b',' b'd' b',' d _ _ (λ p. cc) (λ p. cc) (inl refl)
    ∙ ap (read_fields (suc fuel) _) (store_number-itoa b'd' d _ hd)
    ∙ read_fields-itoa fuel b',' b'i' b'}' i [] _ (λ p. cc) (λ p. cc) (inr refl)
    ∙ ap (read_fields fuel _) (store_number-itoa b'i' i _ hi)
    ∙ read_fields_end fuel _

read_del :
    (fuel : ℕ) (c : Bytes)
    → All IsPlain c
    → read_fields (suc fuel) (del_line c) no_op ≡ some (record no_op { x = c })
unfolding del_line store_string
read_del fuel c pc =
    read_fields_plain fuel b'{' b'x' c _ no_op (λ p. cc) (λ p. cc) pc ∙ read_fields_end fuel _

parse_op_read :
    (line : Bytes) (o : Op)
    → read_fields (length line) line no_op ≡ some o
    → has_subject o ≡ true
    → parse_op line ≡ some o
unfolding parse_op
parse_op_read line o h s = ground arith

-- Whatever bytes the url holds, a row line for a plain, non-empty code, with numbers below 2 ^ 64, is
-- read back as it was written; the expiry 0 comes back as an absent expiry.
pub parse_op-row_line :
    (c u : Bytes) (a e i n : Int64)
    → c ≢ []
    → All IsPlain c
    → a < 2 ^ 64
    → e < 2 ^ 64
    → i < 2 ^ 64
    → n < 2 ^ 64
    → parse_op (row_line c u a e i n)
      ≡ some (record no_op { c = c; u = u; a = a; e = e; i = i; n = n; has_e = not (e == 0) })
parse_op-row_line [] u a e i n hc pc ha he hi hn = absurd (hc refl)
parse_op-row_line (b ∷ c) u a e i n hc pc ha he hi hn =
    parse_op_read _ _ (unfold row_line in read_row _ (b ∷ c) u a e i n pc ha he hi hn) refl

-- A hit line for a plain, non-empty code, with numbers below 2 ^ 64, is read back as it was written.
pub parse_op-hit_line :
    (c : Bytes) (d i : Int64)
    → c ≢ []
    → All IsPlain c
    → d < 2 ^ 64
    → i < 2 ^ 64
    → parse_op (hit_line c d i) ≡ some (record no_op { h = c; d = d; i = i })
parse_op-hit_line [] d i hc pc hd hi = absurd (hc refl)
parse_op-hit_line (b ∷ c) d i hc pc hd hi =
    parse_op_read _ _ (unfold hit_line in read_hit _ (b ∷ c) d i pc hd hi) refl

-- A tombstone line for a plain, non-empty code is read back as it was written.
pub parse_op-del_line :
    (c : Bytes) → c ≢ [] → All IsPlain c → parse_op (del_line c) ≡ some (record no_op { x = c })
parse_op-del_line [] hc pc = absurd (hc refl)
parse_op-del_line (b ∷ c) hc pc = parse_op_read _ _ (unfold del_line in read_del _ (b ∷ c) pc) refl
