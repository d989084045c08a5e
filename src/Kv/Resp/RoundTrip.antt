-- ===== src/Kv/Resp/RoundTrip.antt =====
-- `warg` and the framing of `Kv::pipe` in src/kv.cpp, read by `read_resp`.
use shrt_cpp.Prelude.{
  ℕ, suc, ◌+◌, ◌^◌, ◌<◌, List, [], ◌∷◌, ◌++◌, append_assoc, Option, some, ◌≡◌, refl, inl, inr,
  Bool-cases, ap, ◌∙◌, arith, Bytes, All, Int64, is_neg, length, length-append, take, drop,
}
use shrt_cpp.Codec.Number.{itoa}
use shrt_cpp.Codec.Number.RoundTrip.{IsNumeral, itoa-IsNumeral}
use shrt_cpp.Kv.Value.RoundTrip.{stoll-itoa}
use shrt_cpp.Kv.Resp.{
  Resp, Resps, bulk, array, no_resps, resp, crlf, warg, wargs, frame, line, line_number, read_bulk,
  as_bulk, read_each, as_array, read_resp,
}

line-numeral : (x r : Bytes) → All IsNumeral x → line (x ++ (crlf ++ r)) ≡ some (x, r)
unfolding line
line-numeral [] r h = refl
line-numeral (c ∷ []) r h = ground arith
line-numeral (c ∷ d ∷ x) r h = ground (arith, line-numeral (d ∷ x) r h.1)

line_number-itoa :
    (n : Int64) (r : Bytes) → n < 2 ^ 64 → line_number (itoa n ++ (crlf ++ r)) ≡ some (n, r)
unfolding line_number
line_number-itoa n r h =
    rw (line-numeral (itoa n) r (itoa-IsNumeral n), stoll-itoa n h, line_number) refl

take-front : (a r : Bytes) → take (length a) (a ++ r) ≡ a
take-front [] r = refl
take-front (c ∷ a) r = ap (λ x. c ∷ x) (take-front a r)

suc_add_two : (n : ℕ) → suc n + 2 ≡ suc (n + 2)
suc_add_two n = omega arith

drop-front : (a r : Bytes) → drop (length a + 2) (a ++ (crlf ++ r)) ≡ r
drop-front [] r = refl
drop-front (c ∷ a) r =
    ap (λ n. drop n (c ∷ (a ++ (crlf ++ r)))) (suc_add_two (length a)) ∙ drop-front a r

read_bulk-length :
    (a r : Bytes) → length a < 2 ^ 63 → read_bulk (length a) (a ++ (crlf ++ r)) ≡ some (bulk a, r)
unfolding read_bulk
read_bulk-length a r h =
    ground (arith, h, length-append a (crlf ++ r), take-front a (crlf ++ r), drop-front a r)

warg_tail : (x a r : Bytes) → (x ++ (crlf ++ (a ++ crlf))) ++ r ≡ x ++ (crlf ++ (a ++ (crlf ++ r)))
warg_tail x a r =
    append_assoc x (crlf ++ (a ++ crlf)) r ∙ ap (λ t. x ++ (crlf ++ t)) (append_assoc a crlf r)

-- One argument as warg writes it, with less than 2 ^ 63 bytes and whatever they are, is read back as a bulk string,
-- and what follows it is left.
pub read_resp-warg :
    (a r : Bytes) (fuel : ℕ)
    → length a < 2 ^ 63
    → read_resp (suc fuel) (warg a ++ r) ≡ some (bulk a, r)
unfolding read_resp warg as_bulk
read_resp-warg a r fuel h =
    ap (λ t. as_bulk (line_number t)) (warg_tail (itoa (length a)) a r)
    ∙ ap as_bulk (line_number-itoa (length a) (a ++ (crlf ++ r)) (omega (arith, h)))
    ∙ read_bulk-length a r h

-- The arguments as replies.
abbrev pub bulks : List Bytes → Resps
bulks [] = no_resps
bulks (a ∷ args) = resp (bulk a) (bulks args)

read_resp-star :
    (fuel : ℕ) (s : Bytes)
    → read_resp (suc fuel) (b'*' ∷ s) ≡ as_array (read_resp fuel) (line_number s)
unfolding read_resp
read_resp-star fuel s = refl

as_array-each :
    (rd : Bytes → Option (Resp × Bytes)) (n : ℕ) (s : Bytes) (rs : Resps) (r : Bytes)
    → n < 2 ^ 63
    → read_each rd n s ≡ some (rs, r)
    → as_array rd (some (n, s)) ≡ some (array rs, r)
unfolding as_array
as_array-each rd n s rs r h e = elim (Bool-cases (is_neg n)) [
  | inl p ↦ absurd (ground (arith, p, h))
  | inr p ↦ rw (p, e, as_array) refl
]

wargs-read :
    (args : List Bytes) (fuel : ℕ) (r : Bytes)
    → All (λ a. length a < 2 ^ 63) args
    → read_each (read_resp (suc fuel)) (length args) (wargs args ++ r) ≡ some (bulks args, r)
unfolding read_each wargs
wargs-read [] fuel r h = refl
wargs-read (a ∷ args) fuel r h = ground (
  arith,
  append_assoc (warg a) (wargs args) r,
  read_resp-warg a (wargs args ++ r) fuel h.0,
  wargs-read args fuel r h.1,
)

-- A command as pipe frames it, with fewer than 2 ^ 63 arguments of less than 2 ^ 63 bytes each, is read
-- back as the array of its arguments, whatever bytes they hold, and what follows it is left.
pub read_resp-frame :
    (args : List Bytes) (fuel : ℕ) (r : Bytes)
    → length args < 2 ^ 63
    → All (λ a. length a < 2 ^ 63) args
    → read_resp (suc (suc fuel)) (frame args ++ r) ≡ some (array (bulks args), r)
unfolding frame
read_resp-frame args fuel r n h =
    read_resp-star (suc fuel) ((itoa (length args) ++ (crlf ++ wargs args)) ++ r)
    ∙ ap (λ t. as_array (read_resp (suc fuel)) (line_number t))
        (append_assoc (itoa (length args)) (crlf ++ wargs args) r)
    ∙ ap (as_array (read_resp (suc fuel)))
        (line_number-itoa (length args) (wargs args ++ r) (omega (arith, n)))
    ∙ as_array-each (read_resp (suc fuel)) (length args) (wargs args ++ r) (bulks args) r n
        (wargs-read args fuel r h)
