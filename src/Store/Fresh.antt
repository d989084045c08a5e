-- ===== src/Store/Fresh.antt =====
-- The codes that the store generates.
use mathlib.Core.Path.{subst}
use shrt_cpp.Prelude.{
  ℕ, zero, suc, ◌-◌, ◌%◌, ◌≤◌, ◌<◌, [], ◌∷◌, none, some, ◌≡◌, ◌⊎◌, refl, sym, ap, ◌∙◌, arith, inl,
  inr, Option-cases, Bytes, All, All-map, length,
}
use shrt_cpp.Store.State.{Inner, code_len, max_instances, alphabet, entry?}
use shrt_cpp.Store.Create.{rng_step, rng_output, byte_at, gen_suffix, gen_code, fresh_code}
use shrt_cpp.Store.Chunks.{IsCode}
use shrt_cpp.Codec.Parse.Fields.{IsPlain}

-- A character of the code alphabet: a digit or a letter.
abbrev pub IsAlnum : ℕ → Type 0
IsAlnum c = ((b'0' ≤ c) × (c ≤ b'9')) ⊎ (((b'a' ≤ c) × (c ≤ b'z')) ⊎ ((b'A' ≤ c) × (c ≤ b'Z')))

byte_at-All : (P : ℕ → Type 0) (i : ℕ) (s : Bytes) → i < length s → All P s → P (byte_at i s)
unfolding byte_at
byte_at-All P i [] h a = absurd (omega arith)
byte_at-All P zero (b ∷ s) h a = a.0
byte_at-All P (suc i) (b ∷ s) h a = byte_at-All P i s (omega arith) a.1

pub alphabet-IsAlnum : (i : ℕ) → i < max_instances → IsAlnum (byte_at i alphabet)
alphabet-IsAlnum i h = byte_at-All IsAlnum i alphabet h (omega arith)

suffix-IsAlnum : (k rng : ℕ) → All IsAlnum (gen_suffix k rng).0
unfolding gen_suffix
suffix-IsAlnum zero rng = tt
suffix-IsAlnum (suc k) rng = (
  alphabet-IsAlnum (rng_output (rng_step rng) % max_instances) (omega arith),
  suffix-IsAlnum k (rng_step rng),
)

length-suffix : (k rng : ℕ) → length (gen_suffix k rng).0 ≡ k
unfolding gen_suffix
length-suffix zero rng = refl
length-suffix (suc k) rng = ap suc (length-suffix k (rng_step rng))

-- A code as `gen_code` makes it for a store with this prefix.
pub record IsGenerated (prefix : ℕ) (c : Bytes) : Type 0 where
  pub suffix : Bytes
  pub split : c ≡ prefix ∷ suffix
  pub alnum : All IsAlnum suffix
  pub size : length c ≡ code_len

gen_code-IsGenerated : (s : Inner) → IsGenerated s.prefix (gen_code s).0
unfolding gen_code
gen_code-IsGenerated s = record {
  suffix = (gen_suffix (code_len - 1) s.rng).0;
  split = refl;
  alnum = suffix-IsAlnum (code_len - 1) s.rng;
  size = ap suc (length-suffix 7 s.rng);
}

-- The k-th code that the retry loop draws.
pub drawn : ℕ → Inner → Bytes
drawn zero s = (gen_code s).0
drawn (suc k) s = drawn k (gen_code s).1

-- The states of the retry loop differ from the first in the generator alone.
abbrev SameButRng : Inner → Inner → Type 0
SameButRng s t = t ≡ record s { rng = t.rng }

entry?-gen_code : (c : Bytes) (s : Inner) → entry? c (gen_code s).1 ≡ entry? c s
unfolding gen_code entry?
entry?-gen_code c s = refl

IsFresh : Inner → Bytes → Inner → Type 0
IsFresh s code t = IsGenerated s.prefix code × (entry? code s ≡ none) × SameButRng s t

first-IsFresh :
    (s : Inner) (code : Bytes) (t : Inner)
    → (gen_code s).0 ≡ code
    → (gen_code s).1 ≡ t
    → entry? (gen_code s).0 (gen_code s).1 ≡ none
    → IsFresh s code t
unfolding IsFresh
first-IsFresh s code t p q e = (
  subst (IsGenerated s.prefix) p (gen_code-IsGenerated s),
  ap (λ c. entry? c s) (sym p) ∙ sym (entry?-gen_code (gen_code s).0 s) ∙ e,
  subst (SameButRng s) q (unfold gen_code in refl),
)

later-IsFresh :
    (s : Inner) (code : Bytes) (t : Inner) → IsFresh (gen_code s).1 code t → IsFresh s code t
unfolding IsFresh gen_code entry?
later-IsFresh s code t h = h

fresh_code-IsFresh :
    (fuel : ℕ) (s : Inner) (code : Bytes) (t : Inner)
    → fresh_code fuel s ≡ some (code, t)
    → IsFresh s code t
unfolding fresh_code
fresh_code-IsFresh zero s code t h = cc
fresh_code-IsFresh (suc fuel) s code t h =
    elim (Option-cases (entry? (gen_code s).0 (gen_code s).1)) [
      | inl e ↦ first-IsFresh s code t (ground arith) (ground arith) e
      | inr (f, e) ↦
          later-IsFresh s code t (fresh_code-IsFresh fuel (gen_code s).1 code t (ground arith))
    ]

-- A code that the retry loop returns was generated for this instance and is not in the index, and
-- the loop changed nothing but the generator.
pub fresh_code_sound :
    (fuel : ℕ) (s : Inner) (code : Bytes) (t : Inner)
    → fresh_code fuel s ≡ some (code, t)
    → IsGenerated s.prefix code × (entry? code s ≡ none) × (t ≡ record s { rng = t.rng })
unfolding IsFresh
fresh_code_sound fuel s code t h = fresh_code-IsFresh fuel s code t h

-- The retry loop returns a code when one of the codes that it may draw with its fuel is free.
pub fresh_code_total :
    (fuel k : ℕ) (s : Inner)
    → k < fuel
    → entry? (drawn k s) s ≡ none
    → (r : Bytes × Inner) × (fresh_code fuel s ≡ some r)
unfolding fresh_code drawn
fresh_code_total zero k s h e = absurd (omega arith)
fresh_code_total (suc fuel) zero s h e =
    (gen_code s, ground (arith, entry?-gen_code (gen_code s).0 s))
fresh_code_total (suc fuel) (suc k) s h e =
    elim (Option-cases (entry? (gen_code s).0 (gen_code s).1)) [
      | inl f ↦ (gen_code s, ground arith)
      | inr (g, f) ↦
          let ih =
            fresh_code_total fuel k (gen_code s).1 (omega arith)
              (entry?-gen_code (drawn k (gen_code s).1) s ∙ e) in
          (ih.0, ground (arith, ih.1))
    ]

pub IsAlnum-IsPlain : (c : ℕ) → IsAlnum c → IsPlain c
IsAlnum-IsPlain c h = omega arith

-- A generated code may stand in a log line as it is.
pub IsGenerated-IsCode : (p : ℕ) (c : Bytes) → IsPlain p → IsGenerated p c → IsCode c
IsGenerated-IsCode p c hp g =
    subst IsCode (sym g.split)
      (record { filled = cc; plain = (hp, All-map IsAlnum-IsPlain g.suffix g.alnum) })
