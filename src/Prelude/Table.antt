-- ===== src/Prelude/Table.antt =====
-- std::unordered_map with string keys, as an association list; the order of the list stands for the
-- iteration order of the table, which the language leaves open.
use mathlib.Core.Path.{◌≡◌, refl}
use mathlib.Core.Option.{Option, none, some}
use mathlib.Core.List.{List, [], ◌∷◌}
use native.Mathlib.Omega.{arith}
use shrt_cpp.Prelude.Tests.{if◌then◌else◌}
use shrt_cpp.Prelude.Text.{Bytes, bytes_eq, bytes_eq_iff}

abbrev pub Dict {ℓ} : Type ℓ → Type ℓ
Dict V = List (Bytes × V)

module _ {ℓ} {V : Type ℓ} where
  -- m.find(k)
  unfoldable pub find : Bytes → Dict V → Option V
  unfolding bytes_eq
  find k [] = none
  find k ((j, v) ∷ m) = if bytes_eq j k then some v else find k m

  -- m.erase(k)
  unfoldable pub erase : Bytes → Dict V → Dict V
  unfolding bytes_eq
  erase k [] = []
  erase k ((j, v) ∷ m) = let rest = erase k m in if bytes_eq j k then rest else (j, v) ∷ rest

  -- m[k] = v: in place where the key is there, a new element where it is not.
  unfoldable pub put : Bytes → V → Dict V → Dict V
  unfolding bytes_eq
  put k v [] = (k, v) ∷ []
  put k v ((j, w) ∷ m) = if bytes_eq j k then (k, v) ∷ m else (j, w) ∷ put k v m

  pub find-erase :
      (k j : Bytes) (m : Dict V) → find j (erase k m) ≡ (if bytes_eq k j then none else find j m)
  unfolding find erase
  find-erase k j [] = ground arith
  find-erase k j ((i, v) ∷ m) =
      ground (arith, find-erase k j m, bytes_eq_iff i k, bytes_eq_iff i j, bytes_eq_iff k j)

  pub find-put :
      (k j : Bytes) (v : V) (m : Dict V)
      → find j (put k v m) ≡ (if bytes_eq k j then some v else find j m)
  unfolding find put
  find-put k j v [] = refl
  find-put k j v ((i, w) ∷ m) =
      ground (arith, find-put k j v m, bytes_eq_iff i k, bytes_eq_iff i j, bytes_eq_iff k j)
