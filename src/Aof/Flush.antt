-- ===== src/Aof/Flush.antt =====
-- What `flush` leaves in the file and in the buffer.
use shrt_cpp.Prelude.{
  ℕ, zero, suc, ◌+◌, ◌-◌, ◌≤◌, ◌<◌, true, not, ◌||◌, [], ◌∷◌, ◌++◌, append_assoc, append-nil, ◌≡◌,
  refl, sym, ap, ◌∙◌, arith, inl, inr, Bool-cases, Bytes, length, take, drop, is_empty, ◌==◌,
}
use shrt_cpp.Aof.{Aof, write_loop, flush}

take-append-drop : (n : ℕ) (xs : Bytes) → take n xs ++ drop n xs ≡ xs
take-append-drop zero xs = refl
take-append-drop (suc n) [] = refl
take-append-drop (suc n) (x ∷ xs) = rw (take-append-drop n xs)

length-drop : (n : ℕ) (xs : Bytes) → length (drop n xs) ≡ length xs - n
length-drop zero xs = omega arith
length-drop (suc n) [] = omega arith
length-drop (suc n) (x ∷ xs) = omega (arith, length-drop n xs)

write_loop_all :
    (accept : ℕ → ℕ)
    → ((k : ℕ) → 0 < accept k)
    → (fuel k : ℕ) (left file : Bytes) → length left ≤ fuel
    → write_loop accept fuel k left file ≡ file ++ left
unfolding write_loop
write_loop_all accept pos zero k [] file h = sym (append-nil file)
write_loop_all accept pos zero k (b ∷ left) file h = absurd (omega arith)
write_loop_all accept pos (suc fuel) k [] file h = sym (append-nil file)
write_loop_all accept pos (suc fuel) k (b ∷ left) file h = ground (
  arith,
  pos k,
  write_loop_all accept pos fuel (k + 1) (drop (accept k) (b ∷ left))
      (file ++ take (accept k) (b ∷ left)),
  length-drop (accept k) (b ∷ left),
  take-append-drop (accept k) (b ∷ left),
  append_assoc file (take (accept k) (b ∷ left)) (drop (accept k) (b ∷ left)),
)

empty_nil : (s : Bytes) → is_empty s ≡ true → s ≡ []
empty_nil [] h = refl
empty_nil (b ∷ s) h = cc

-- Where no write fails, `flush` of an open log moves the whole buffer behind the file's contents,
-- however the kernel cuts the writes, and the buffer is empty.
pub flush_all :
    (accept : ℕ → ℕ) (a : Aof)
    → ((k : ℕ) → 0 < accept k)
    → a.is_open ≡ true
    → flush accept a ≡ record a { buf = []; file = a.file ++ a.buf }
unfolding flush
flush_all accept a pos h = elim (Bool-cases (is_empty a.buf)) [
  | inl e ↦ ground (arith, empty_nil a.buf e, append-nil a.file)
  | inr e ↦ ground (arith, write_loop_all accept pos (length a.buf) 0 a.buf a.file (omega arith))
]

take-nil : (n : ℕ) → take {A = ℕ} n [] ≡ []
take-nil zero = refl
take-nil (suc n) = refl

take-append_take : (n m : ℕ) (xs : Bytes) → take n xs ++ take m (drop n xs) ≡ take (n + m) xs
take-append_take zero m xs = ap (λ k. take k xs) (omega arith)
take-append_take (suc n) m [] = cc (take-nil m, take-nil (suc n + m))
take-append_take (suc n) m (x ∷ xs) =
    ap (λ r. x ∷ r) (take-append_take n m xs) ∙ sum (suc (n + m)) (suc n + m) (omega arith)
  where
    sum : (j k : ℕ) → j ≡ k → take j (x ∷ xs) ≡ take k (x ∷ xs)
    sum j k e = ap (λ i. take i (x ∷ xs)) e

write_loop_prefix :
    (accept : ℕ → ℕ) (fuel k : ℕ) (left file : Bytes)
    → (n : ℕ) × (write_loop accept fuel k left file ≡ file ++ take n left)
unfolding write_loop
write_loop_prefix accept zero k left file = (0, sym (append-nil file))
write_loop_prefix accept (suc fuel) k left file =
    elim (Bool-cases (is_empty left || accept k == 0)) [
      | inl e ↦ (0, ground (arith, append-nil file))
      | inr e ↦
          let ih =
            write_loop_prefix accept fuel (k + 1) (drop (accept k) left)
              (file ++ take (accept k) left) in
          (
            accept k + ih.0,
            ground (
              arith,
              ih.1,
              append_assoc file (take (accept k) left) (take ih.0 (drop (accept k) left)),
              take-append_take (accept k) ih.0 left,
            ),
          )
    ]

-- Whatever the kernel accepts, `flush` only appends to the file, and what it appends is a prefix
-- of the buffer.
pub flush_prefix :
    (accept : ℕ → ℕ) (a : Aof) → (n : ℕ) × ((flush accept a).file ≡ a.file ++ take n a.buf)
unfolding flush
flush_prefix accept a = elim (Bool-cases (is_empty a.buf || not a.is_open)) [
  | inl e ↦ (0, ground (arith, append-nil a.file))
  | inr e ↦
      let p = write_loop_prefix accept (length a.buf) 0 a.buf a.file in (p.0, ground (arith, p.1))
]

write_loop_failed :
    (accept : ℕ → ℕ) (fuel : ℕ) (left file : Bytes)
    → accept 0 ≡ 0
    → write_loop accept fuel 0 left file ≡ file
unfolding write_loop
write_loop_failed accept zero left file e = refl
write_loop_failed accept (suc fuel) left file e = ground arith

-- When the first write fails, `flush` of an open log drops the buffer: nothing of it reaches the
-- file, and the buffer is empty.
pub flush_failed :
    (accept : ℕ → ℕ) (a : Aof)
    → accept 0 ≡ 0
    → a.is_open ≡ true
    → flush accept a ≡ record a { buf = [] }
unfolding flush
flush_failed accept a e h = elim (Bool-cases (is_empty a.buf)) [
  | inl z ↦ ground (arith, empty_nil a.buf z)
  | inr z ↦ ground (arith, write_loop_failed accept (length a.buf) a.buf a.file e)
]
