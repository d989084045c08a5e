-- ===== src/App/Json/Sizes.antt =====
-- How much of the text the strings, numbers and words of `Jp` in src/app.cpp leave.
use shrt_cpp.Prelude.{
  ℕ, zero, suc, ◌≤◌, ◌<◌, Bool, true, false, not, ◌&&◌, is_empty, [], ◌∷◌, Option, none, some, ◌≡◌,
  refl, arith, inl, inr, Bool-cases, Bytes, length, drop, ◌==◌, if◌then◌else◌,
}
use shrt_cpp.App.Json.{
  Num, Strtod, J, ws, Scan, str_body, out_before, read_str, Got, out_of_fuel, failed, got, as_num,
  as_str, lit,
}

-- strtod does not read behind the end of the text.
abbrev pub IsStrtod : Strtod → Type 0
IsStrtod strtod = (s : Bytes) (n : Num) (r : Bytes) → strtod s ≡ some (n, r) → length r ≤ length s

-- A result other than running out, with at most `n` bytes left.
unfoldable pub Fits : ℕ → Got → Type 0
Fits n out_of_fuel = ⊥
Fits n failed = Unit
Fits n (got v r) = length r ≤ n

pub failed-Fits : (n : ℕ) → Fits n failed
unfolding Fits
failed-Fits n = tt

pub got-Fits : (n : ℕ) (v : J) (r : Bytes) → length r ≤ n → Fits n (got v r)
unfolding Fits
got-Fits n v r h = h

pub Fits-weaken : (n m : ℕ) (g : Got) → n ≤ m → Fits n g → Fits m g
unfolding Fits
Fits-weaken n m out_of_fuel h f = elim f [ ]
Fits-weaken n m failed h f = tt
Fits-weaken n m (got v r) h f = omega (arith, h, f)

pub if-Fits : (n : ℕ) (b : Bool) (x y : Got) → Fits n x → Fits n y → Fits n (if b then x else y)
if-Fits n true x y hx hy = hx
if-Fits n false x y hx hy = hy

pub length-ws : (s : Bytes) → length (ws s) ≤ length s
unfolding ws
length-ws [] = omega arith
length-ws (c ∷ s) = ground (arith, length-ws s)

pub length-drop : (n : ℕ) (s : Bytes) → length (drop n s) ≤ length s
length-drop zero s = omega arith
length-drop (suc n) [] = omega arith
length-drop (suc n) (c ∷ s) = omega (arith, length-drop n s)

-- What is left of a string is shorter than the text.
unfoldable pub Left : ℕ → Option (Bytes × Bytes) → Type 0
Left n none = Unit
Left n (some (x, r)) = length r < n

out_before-Left :
    (n : ℕ) (xs : Bytes) (o : Option (Bytes × Bytes)) → Left n o → Left (suc n) (out_before xs o)
unfolding Left out_before
out_before-Left n xs none h = tt
out_before-Left n xs (some (x, r)) h = omega (arith, h)

pub Left-suc : (n : ℕ) (o : Option (Bytes × Bytes)) → Left n o → Left (suc n) o
unfolding Left
Left-suc n none h = tt
Left-suc n (some (x, r)) h = omega (arith, h)

some-Left : (n : ℕ) (r : Bytes) → length r < n → Left n (some ([], r))
unfolding Left
some-Left n r h = h

none-Left : (n : ℕ) → Left n none
unfolding Left
none-Left n = tt

elim-Left :
    (n : ℕ) (b c : Bool) (x y z : Option (Bytes × Bytes))
    → Left n x
    → Left n y
    → Left n z
    → Left n (elim b [ true ↦ x | false ↦ elim c [ true ↦ y | false ↦ z ] ])
elim-Left n true c x y z hx hy hz = hx
elim-Left n false true x y z hx hy hz = hy
elim-Left n false false x y z hx hy hz = hz

str_body-Left : (s : Bytes) (m : Scan) → Left (length s) (str_body m s)
unfolding str_body
str_body-Left [] m = none-Left 0
str_body-Left (c ∷ s) (Scan.skip (suc k)) = Left-suc _ _ (str_body-Left s _)
str_body-Left (c ∷ s) (Scan.skip zero) = Left-suc _ _ (str_body-Left s _)
str_body-Left (c ∷ s) Scan.escaped = out_before-Left _ _ _ (str_body-Left s _)
str_body-Left (c ∷ s) Scan.plain =
    elim-Left (suc (length s)) (c == b'"') (c == b'\\' && not (is_empty s)) _ _ _
      (some-Left _ s (omega arith)) (Left-suc _ _ (str_body-Left s Scan.escaped))
      (out_before-Left _ _ _ (str_body-Left s Scan.plain))

pub as_str-Fits : (n : ℕ) (o : Option (Bytes × Bytes)) → Left (suc n) o → Fits n (as_str o)
unfolding Left as_str Fits
as_str-Fits n none h = tt
as_str-Fits n (some (x, r)) h = omega (arith, h)

pub as_num-Fits :
    (n : ℕ) (o : Option (Num × Bytes))
    → ((v : Num) (r : Bytes) → o ≡ some (v, r) → length r ≤ n)
    → Fits n (as_num o)
unfolding as_num Fits
as_num-Fits n none h = tt
as_num-Fits n (some (v, r)) h = h v r refl

pub read_str-Left : (s : Bytes) → Left (length s) (read_str s)
unfolding read_str
read_str-Left [] = none-Left 0
read_str-Left (c ∷ s) = elim (Bool-cases (c == b'"')) [
  | inl e ↦ rw e (Left-suc _ _ (str_body-Left s Scan.plain))
  | inr e ↦ rw e (none-Left _)
]

pub lit-Fits : (w : Bytes) (v : J) (s : Bytes) → Fits (length s) (lit w v s)
unfolding lit
lit-Fits w v s = if-Fits _ _ _ _ (got-Fits _ _ _ (length-drop (length w) s)) (failed-Fits _)
