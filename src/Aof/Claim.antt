-- ===== src/Aof/Claim.antt =====
-- `try_lock` and `claim_instance` of src/aof.cpp: the lowest instance id whose lock file is free or
-- stale. What the file system and the process table answer comes in as `Locks`.
pub mod Lowest
use shrt_cpp.Prelude.{
  ℕ, zero, suc, ◌+◌, ◌^◌, Bool, true, false, not, ◌&&◌, ◌||◌, Option, none, some, Bytes, is_empty,
  take, to_int, ltb,
}
use shrt_cpp.Codec.Number.{strtoll}

-- For each id: whether the lock file could be created at first, what it holds where it can be opened,
-- and whether it could be created after the unlink; and whether a process is alive.
pub record Locks : Type 0 where
  pub created : ℕ → Bool
  pub contents : ℕ → Option Bytes
  pub created_again : ℕ → Bool
  pub pid_alive : ℕ → Bool

abbrev pub max_locks : ℕ
max_locks = 1024

-- The pid is an int; it has to be positive and not alive.
unfoldable pub dead_pid : Locks → ℕ → Bool
dead_pid l pid = ltb 0 pid && (ltb pid (2 ^ 31) && not (l.pid_alive pid))

-- The buffer takes 31 bytes; an empty file is passed over.
unfoldable pub is_stale : Locks → Option Bytes → Bool
is_stale l none = false
is_stale l (some text) = not (is_empty text) && dead_pid l (to_int (strtoll (take 31 text)))

unfoldable pub can_claim : Locks → ℕ → Bool
can_claim l i = l.created i || (is_stale l (l.contents i) && l.created_again i)

-- The loop over `n` ids from `i` on; none is the source's -1.
unfoldable pub claim_from : Locks → ℕ → ℕ → Option ℕ
claim_from l zero i = none
claim_from l (suc n) i = elim (can_claim l i) [ true ↦ some i | false ↦ claim_from l n (i + 1) ]

unfoldable pub claim_instance : Locks → Option ℕ
claim_instance l = claim_from l max_locks 0
