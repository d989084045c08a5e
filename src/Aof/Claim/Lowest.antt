-- ===== src/Aof/Claim/Lowest.antt =====
-- Which id `claim_instance` of src/aof.cpp returns.
use shrt_cpp.Prelude.{
  ℕ, ◌+◌, ◌≤◌, ◌<◌, true, false, Option, none, some, ◌≡◌, ◌^◌, ◌≢◌, ◌⊎◌, [], Bytes, take, to_int,
}
use shrt_cpp.Codec.Number.{strtoll}
use shrt_cpp.Aof.Claim.{Locks, can_claim}

-- The ids from `i` on below the returned one, or all of the range, fail the test of the loop.
IsFirst : Locks → ℕ → ℕ → Option ℕ → Type 0
IsFirst l i n none = (j : ℕ) → i ≤ j → j < i + n → can_claim l j ≡ false
IsFirst l i n (some k) =
    (i ≤ k)
    × (k < i + n)
    × (can_claim l k ≡ true)
    × ((j : ℕ) → i ≤ j → j < k → can_claim l j ≡ false)

-- The lock file was left by a process that is gone: it can be read and is not empty, and the number at
-- its start is that of a process, a positive int, and none of that number is alive.
unfoldable pub IsAbandoned : Locks → ℕ → Type 0
IsAbandoned l i =
    (text : Bytes) × (l.contents i ≡ some text)
    × (text ≢ [])
    × let pid = to_int (strtoll (take 31 text)) in
      (0 < pid) × (pid < 2 ^ 31) × (l.pid_alive pid ≡ false)

-- The lock of the id could be created, at once or behind the removal of an abandoned one.
unfoldable pub IsOpen : Locks → ℕ → Type 0
IsOpen l i = (l.created i ≡ true) ⊎ (IsAbandoned l i × (l.created_again i ≡ true))

-- Which id is the lowest of those below `n` that are open, or that none is.
unfoldable pub IsLowest : Locks → ℕ → Option ℕ → Type 0
IsLowest l n none = (j : ℕ) → j < n → ¬ IsOpen l j
IsLowest l n (some k) = (k < n) × IsOpen l k × ((j : ℕ) → j < k → ¬ IsOpen l j)
