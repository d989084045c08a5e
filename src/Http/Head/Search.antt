-- ===== src/Http/Head/Search.antt =====
-- The searches of src/server.cpp in a text that grows.
use shrt_cpp.Prelude.{
  ℕ, zero, suc, ◌+◌, ◌≤◌, ◌<◌, true, false, [], ◌∷◌, ◌++◌, some, ◌≡◌, refl, ap, arith, inl, inr,
  Bool-cases, Option-cases, Bytes, length, take, drop, starts_with,
}
use shrt_cpp.Http.Head.{cons_before, split_seq}

starts_with-length : (s q : Bytes) → starts_with s q ≡ true → length q ≤ length s
unfolding starts_with
starts_with-length s [] h = omega arith
starts_with-length [] (p ∷ q) h = cc
starts_with-length (c ∷ s) (p ∷ q) h = ground (arith, starts_with-length s q)

starts_with-append :
    (s q m : Bytes) → length q ≤ length s → starts_with (s ++ m) q ≡ starts_with s q
unfolding starts_with
starts_with-append s [] m h = refl
starts_with-append [] (p ∷ q) m h = absurd (omega arith)
starts_with-append (c ∷ s) (p ∷ q) m h = ground (arith, starts_with-append s q m)

pub drop-append : (n : ℕ) (s m : Bytes) → n ≤ length s → drop n (s ++ m) ≡ drop n s ++ m
drop-append zero s m h = refl
drop-append (suc n) [] m h = absurd (omega arith)
drop-append (suc n) (c ∷ s) m h = drop-append n s m (omega arith)

pub length-dropped : (n : ℕ) (s : Bytes) → n ≤ length s → length (drop n s) + n ≡ length s
length-dropped zero s h = omega arith
length-dropped (suc n) [] h = absurd (omega arith)
length-dropped (suc n) (c ∷ s) h = omega (arith, length-dropped n s (omega arith))

pub take-append : (n : ℕ) (s m : Bytes) → n ≤ length s → take n (s ++ m) ≡ take n s
take-append zero s m h = refl
take-append (suc n) [] m h = absurd (omega arith)
take-append (suc n) (c ∷ s) m h = ap (λ t. c ∷ t) (take-append n s m (omega arith))

split_seq-here :
    (q : Bytes) (c : ℕ) (s : Bytes)
    → starts_with (c ∷ s) q ≡ true
    → split_seq q (c ∷ s) ≡ some ([], drop (length q) (c ∷ s))
unfolding split_seq
split_seq-here q c s e = ground (arith, e)

split_seq-later :
    (q : Bytes) (c : ℕ) (s : Bytes)
    → starts_with (c ∷ s) q ≡ false
    → split_seq q (c ∷ s) ≡ cons_before c (split_seq q s)
unfolding split_seq
split_seq-later q c s e = ground (arith, e)

split_seq-nil : (q x y : Bytes) → split_seq q [] ≡ some (x, y) → (q ≡ []) × (x ≡ []) × (y ≡ [])
unfolding split_seq starts_with
split_seq-nil [] x y h = ground (arith, h)
split_seq-nil (p ∷ q) x y h = cc

-- What a search finds lies within the text, with the text that is searched for.
pub split_seq-length :
    (q s x y : Bytes) → split_seq q s ≡ some (x, y) → length x + length q ≤ length s
split_seq-length q [] x y h = ground (arith, split_seq-nil q x y h)
split_seq-length q (c ∷ s) x y h = elim (Bool-cases (starts_with (c ∷ s) q)) [
  | inl e ↦ ground (arith, split_seq-here q c s e, h, starts_with-length (c ∷ s) q e)
  | inr e ↦ elim (Option-cases (split_seq q s)) [
    | inl f ↦ absurd (ground (arith, split_seq-later q c s e, f, h))
    | inr ((a, b), f) ↦ ground (arith, split_seq-later q c s e, f, h, split_seq-length q s a b f)
  ]
]

pub split_seq-append :
    (q s m x y : Bytes)
    → 0 < length q
    → split_seq q s ≡ some (x, y)
    → split_seq q (s ++ m) ≡ some (x, y ++ m)
split_seq-append q [] m x y n h = absurd (ground (arith, n, split_seq-nil q x y h))
split_seq-append q (c ∷ s) m x y n h = elim (Bool-cases (starts_with (c ∷ s) q)) [
  | inl e ↦ ground (
    arith,
    split_seq-here q c s e,
    h,
    starts_with-append (c ∷ s) q m (starts_with-length (c ∷ s) q e),
    split_seq-here q c (s ++ m),
    drop-append (length q) (c ∷ s) m (starts_with-length (c ∷ s) q e),
    e,
  )
  | inr e ↦ elim (Option-cases (split_seq q s)) [
    | inl f ↦ absurd (ground (arith, split_seq-later q c s e, f, h))
    | inr ((a, b), f) ↦ ground (
      arith,
      split_seq-later q c s e,
      f,
      h,
      split_seq-append q s m a b n f,
      split_seq-length q s a b f,
      starts_with-append (c ∷ s) q m,
      split_seq-later q c (s ++ m),
      e,
    )
  ]
]
