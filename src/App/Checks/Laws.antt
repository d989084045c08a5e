-- ===== src/App/Checks/Laws.antt =====
-- What the checks of src/app.cpp let through.
use shrt_cpp.Prelude.{ℕ, ◌≤◌, true, [], ◌∷◌, ◌≡◌, arith, Bool-cases, inl, inr, Bytes, All, length}
use shrt_cpp.Codec.Parse.Fields.{IsPlain}
use shrt_cpp.Store.Chunks.{IsCode}
use shrt_cpp.App.Checks.{all_bytes, code_byte, code_ok}

code_byte-IsPlain : (c : ℕ) → code_byte c ≡ true → IsPlain c
code_byte-IsPlain c h = ground arith

code_bytes-IsPlain : (s : Bytes) → all_bytes code_byte s ≡ true → All IsPlain s
unfolding all_bytes
code_bytes-IsPlain [] h = tt
code_bytes-IsPlain (c ∷ s) h = elim (Bool-cases (code_byte c)) [
  | inl p ↦ (code_byte-IsPlain c p, code_bytes-IsPlain s (ground (arith, p, h)))
  | inr p ↦ absurd (ground (arith, p, h))
]

code_ok-all : (c : Bytes) → code_ok c ≡ true → all_bytes code_byte c ≡ true
unfolding code_ok
code_ok-all c h = ground arith

-- A code or alias that the handlers admit is not empty, is at most 64 bytes long, and holds no byte
-- that a log line would have to escape.
pub code_ok-IsCode : (c : Bytes) → code_ok c ≡ true → IsCode c × (length c ≤ 64)
unfolding code_ok
code_ok-IsCode [] h = absurd (ground arith)
code_ok-IsCode (b ∷ c) h = (
  record { filled = cc; plain = code_bytes-IsPlain (b ∷ c) (code_ok-all (b ∷ c) h) },
  ground arith,
)
