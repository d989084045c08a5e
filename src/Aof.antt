-- ===== src/Aof.antt =====
-- src/aof.hpp, src/aof.cpp: the append-only log of one instance, and its readers.
-- The file system and the write(2) call are parameters: `accept k` is what the k-th write of a call
-- returns, cut to what it was given, and 0 stands for an error.
pub mod Flush
pub mod Reader
pub mod Claim
use shrt_cpp.Prelude.{
  ℕ, zero, suc, ◌+◌, ◌-◌, Bool, true, false, not, ◌&&◌, ◌||◌, List, [], ◌∷◌, ◌++◌, Bytes, codes,
  length, take, drop, is_empty, ltb, leb, ◌==◌, bytes_eq, starts_with, if◌then◌else◌,
}

-- `Aof`, with the contents of the file that `path` names. Only its owner writes the file, so the
-- descriptor's offset is the end of the file, with O_APPEND or without.
pub record Aof : Type 0 where
  pub buf : Bytes
  pub is_open : Bool
  pub file : Bytes

abbrev pub nl : ℕ
nl = b'\n'

unfoldable pub push : Bytes → Aof → Aof
push line a = record a { buf = (a.buf ++ line) ++ nl ∷ [] }

unfoldable pub push_raw : Bytes → Aof → Aof
push_raw bytes a = record a { buf = a.buf ++ bytes }

unfoldable pub pending_bytes : Aof → ℕ
pending_bytes a = length a.buf

-- The loop of `flush`: what the file holds when it ends. A round that goes on writes at least one
-- byte, so the length of the buffer is fuel enough.
unfoldable pub write_loop : (ℕ → ℕ) → ℕ → ℕ → Bytes → Bytes → Bytes
write_loop accept zero k left file = file
write_loop accept (suc fuel) k left file =
    let rest =
      write_loop accept fuel (k + 1) (drop (accept k) left) (file ++ take (accept k) left) in
    if is_empty left then file else if accept k == 0 then file else rest

unfoldable pub flush : (ℕ → ℕ) → Aof → Aof
flush accept a =
    if is_empty a.buf || not a.is_open
    then a
    else record a { buf = []; file = write_loop accept (length a.buf) 0 a.buf a.file }

-- fsync(2) is a matter of the disk below the file: the contents stay.
unfoldable pub sync : (ℕ → ℕ) → Aof → Aof
sync accept a = flush accept a

-- `reopened` says whether the open call with O_TRUNC succeeds.
unfoldable pub truncate : (ℕ → ℕ) → Bool → Aof → Aof
truncate accept reopened a =
    let b = flush accept a in
    if reopened then record b { is_open = true; file = [] } else record b { is_open = false }

unfoldable pub close : (ℕ → ℕ) → Aof → Aof
close accept a = if a.is_open then record (flush accept a) { is_open = false } else a

-- The loop that `replay_file` and `read_new` share: the complete, non-empty lines of a buffer in
-- order, and the bytes behind the last line break. `cur` is the line read so far.
unfoldable pub scan_lines : Bytes → Bytes → List Bytes × Bytes
scan_lines [] cur = ([], cur)
scan_lines (b ∷ s) cur =
    let r = scan_lines s (if b == nl then [] else cur ++ b ∷ []) in
    (if b == nl && not (is_empty cur) then cur ∷ r.0 else r.0, r.1)

-- The lines that `replay_file` hands to its callback.
unfoldable pub replay_file : Bytes → List Bytes
replay_file contents = (scan_lines contents []).0

pub record TailReader : Type 0 where
  pub offset : ℕ
  pub leftover : Bytes

abbrev pub new_reader : TailReader
new_reader = record { offset = 0; leftover = [] }

-- What `read_new` does with a file of these contents: the lines it yields, and the reader after it.
unfoldable pub read_from : TailReader → Bytes → List Bytes × TailReader
read_from r contents =
    if leb (length contents) r.offset
    then ([], r)
    else (let got = take (length contents - r.offset) (drop r.offset contents) in
        let (lines, rest) = scan_lines (r.leftover ++ got) [] in
        (lines, record { offset = r.offset + length got; leftover = rest }))

unfoldable pub read_new : TailReader → Bytes → List Bytes × TailReader
read_new r contents = read_from (if ltb (length contents) r.offset then new_reader else r) contents

-- `n.compare(n.size() - 4, 4, ".log") == 0`.
abbrev ends_log : Bytes → Bool
ends_log n = bytes_eq (drop (length n - 4) n) (codes ".log")

abbrev pub is_shard_log : Bytes → Bytes → Bool
is_shard_log own n =
    starts_with n (codes "data-") && (ltb 4 (length n) && (ends_log n && not (bytes_eq n own)))

-- Lexicographic order of bytes, as std::string compares.
unfoldable pub bytes_lt : Bytes → Bytes → Bool
bytes_lt a [] = false
bytes_lt [] (y ∷ ys) = true
bytes_lt (x ∷ xs) (y ∷ ys) = ltb x y || (x == y && bytes_lt xs ys)

unfoldable pub insert_name : Bytes → List Bytes → List Bytes
insert_name n [] = n ∷ []
insert_name n (m ∷ ms) = if bytes_lt m n then m ∷ insert_name n ms else n ∷ m ∷ ms

-- `entries` is what readdir yields. The result is sorted.
unfoldable pub shard_files : Bytes → List Bytes → List Bytes
shard_files own [] = []
shard_files own (n ∷ ns) =
    let rest = shard_files own ns in if is_shard_log own n then insert_name n rest else rest
