-- ===== src/Store/State.antt =====
-- The state of src/store.hpp and src/store.cpp, and the constants and small helpers at their top.
use shrt_cpp.Prelude.{
  ℕ, ◌+◌, ◌*◌, ◌%◌, ◌^◌, bit_xor, Bool, List, [], ◌∷◌, ◌++◌, Option, none, some, Bytes, codes,
  Int64, Dict, find, ◌==◌, if◌then◌else◌,
}
use shrt_cpp.Codec.Number.{itoa}
use shrt_cpp.Aof.{Aof, TailReader}

pub data MutResult : Type 0 where
  ok missing remote : MutResult

-- The public view of an entry; the expiry 0 is none.
pub record Link : Type 0 where
  pub code : Bytes
  pub url : Bytes
  pub hits : Int64
  pub created_at : Int64
  pub expires_at : Int64

-- `i` is an int; `h` counts all hits and `oh` the own ones.
pub record Entry : Type 0 where
  pub u : Bytes
  pub a : Int64
  pub e : Int64
  pub i : ℕ
  pub h : Int64
  pub oh : Int64

pub record StrayHit : Type 0 where
  pub t : Int64
  pub o : Int64

-- `entries` is the source's `data`.
pub record Shard : Type 0 where
  pub entries : Dict Entry
  pub dirty : Dict Int64

pub record Tail : Type 0 where
  pub readers : Dict TailReader
  pub stray : Dict StrayHit
  pub last_poll : Int64

-- `snap` holds the contents of the own snapshot file, `rng` the state of the code generator and
-- `links_total` the gauge of src/metrics.cpp that the operations move.
pub record Inner : Type 0 where
  pub shards : ℕ → Shard
  pub tail : Tail
  pub aof : Option Aof
  pub instance_id : ℕ
  pub prefix : ℕ
  pub own_name : Bytes
  pub snap : Bytes
  pub closed : Bool
  pub rng : ℕ
  pub links_total : Int64

-- What one call sees of the outside: the k-th reading of the clock, the TRACK_HITS setting, the
-- results of write(2), the files of the directory and its listing.
pub record World : Type 0 where
  pub now : ℕ → Int64
  pub track_hits : Bool
  pub accept : ℕ → ℕ
  pub files : Bytes → Bytes
  pub listing : List Bytes

abbrev pub flush_bytes : ℕ
flush_bytes = 256 * 2 ^ 10

abbrev pub tail_min_interval : Int64
tail_min_interval = 200

abbrev pub num_shards : ℕ
num_shards = 256

abbrev pub max_stray_hits : ℕ
max_stray_hits = 10000

abbrev pub code_len : ℕ
code_len = 8

abbrev pub max_instances : ℕ
max_instances = 62

abbrev pub alphabet : Bytes
alphabet = codes "0123456789abcdefghijklmnopqrstuvwxyzABCDEFGHIJKLMNOPQRSTUVWXYZ"

-- FNV-1a over 32 bits.
unfoldable pub fnv : ℕ → Bytes → ℕ
fnv h [] = h
fnv h (b ∷ s) = fnv (bit_xor h b * 16777619 % 2 ^ 32) s

unfoldable pub shard_of : Bytes → ℕ
shard_of code = fnv 2166136261 code % num_shards

unfoldable pub index_from : ℕ → ℕ → Bytes → Option ℕ
index_from k c [] = none
index_from k c (b ∷ s) = if b == c then some k else index_from (k + 1) c s

-- The position of a character in the alphabet; none is the source's -1.
unfoldable pub alpha_idx : ℕ → Option ℕ
alpha_idx c = index_from 0 c alphabet

unfoldable pub log_name : ℕ → Bytes
log_name id = codes "data-" ++ (itoa id ++ codes ".log")

-- The entry of a code, in the shard that the code belongs to.
unfoldable pub entry? : Bytes → Inner → Option Entry
entry? code s = find code (s.shards (shard_of code)).entries

-- A change of the one shard `k`.
abbrev pub at_shard : ℕ → (Shard → Shard) → Inner → Inner
at_shard k f s = record s { shards = λ j. if j == k then f (s.shards j) else s.shards j }
