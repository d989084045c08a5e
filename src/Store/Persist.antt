-- ===== src/Store/Persist.antt =====
-- `flush`, `compact`, `close`, `seed` and `open` of src/store.cpp: what goes to the disk and back.
use shrt_cpp.Prelude.{
  ℕ, zero, suc, ◌+◌, Bool, true, false, List, [], ◌∷◌, ◌++◌, Option, none, some, Bytes, codes,
  Int64, from_int, Dict, put, length, take, ◌-◌, ltb, ◌==◌, if◌then◌else◌,
}
use shrt_cpp.Codec.Line.{row_line, hit_line}
use shrt_cpp.Aof
use shrt_cpp.Aof.{Aof, nl, push_raw, replay_file, shard_files, new_reader}
use shrt_cpp.Store.State.{
  Entry, Shard, Tail, Inner, World, num_shards, max_instances, alphabet, log_name,
}
use shrt_cpp.Store.Apply.{apply_lines}
use shrt_cpp.Store.Create.{byte_at, shorten_many}
use shrt_cpp.Store.Tailing.{with_tail}

-- The hit lines of one shard's unwritten counts.
unfoldable pub dirty_lines : Int64 → Dict Int64 → Bytes
dirty_lines i [] = []
dirty_lines i ((code, d) ∷ m) = (hit_line code d i ++ nl ∷ []) ++ dirty_lines i m

unfoldable pub all_dirty_lines : ℕ → ℕ → Inner → Bytes
all_dirty_lines zero k s = []
all_dirty_lines (suc n) k s =
    dirty_lines (from_int s.instance_id) (s.shards k).dirty ++ all_dirty_lines n (k + 1) s

unfoldable pub clear_dirty : Inner → Inner
clear_dirty s = record s {
  shards = λ j. if ltb j num_shards then record (s.shards j) { dirty = [] } else s.shards j;
}

-- `flush_public` takes the gate and does the same.
unfoldable pub flush_locked : World → Inner → Inner
flush_locked w s = elim s.aof [
  | none ↦ s
  | some a ↦ record (clear_dirty s) {
    aof = some (Aof.flush w.accept (push_raw (all_dirty_lines num_shards 0 s) a));
  }
]

-- The rows of the snapshot: own entries, with their own hits.
unfoldable pub snapshot_lines : ℕ → Dict Entry → Bytes
snapshot_lines id [] = []
snapshot_lines id ((code, e) ∷ m) =
    if e.i == id
    then (row_line code e.u e.a e.e (from_int e.i) e.oh ++ nl ∷ []) ++ snapshot_lines id m
    else snapshot_lines id m

unfoldable pub snapshot_from : ℕ → ℕ → Inner → Bytes
snapshot_from zero k s = []
snapshot_from (suc n) k s =
    snapshot_lines s.instance_id (s.shards k).entries ++ snapshot_from n (k + 1) s

-- `opened` says whether fopen succeeds, `reopened` whether the log can be opened again. The writes
-- to the temporary file are not checked by the code, and are taken to succeed.
unfoldable pub write_snapshot : Bool → Inner → Inner
write_snapshot opened s = if opened then record s { snap = snapshot_from num_shards 0 s } else s

unfoldable pub compact : World → Bool → Bool → Inner → Inner
compact w opened reopened s = elim s.aof [
  | none ↦ s
  | some _ ↦
      (let s' = write_snapshot opened (flush_locked w s) in
        elim s'.aof [
          | none ↦ s'
          | some a ↦ record s' { aof = some (Aof.truncate w.accept reopened a) }
        ])
]

unfoldable pub close : World → Inner → Inner
close w s =
    if s.closed
    then s
    else (let s' = flush_locked w (record s { closed = true }) in
        elim s'.aof [ none ↦ s' | some a ↦ record s' { aof = some (Aof.close w.accept a) } ])

unfoldable pub seed : World → ℕ → List Bytes → Inner → Option (ℕ × Inner)
seed w fuel urls s = elim (shorten_many w fuel urls 0 s) [
  | none ↦ none
  | some (created, s') ↦ some (length urls, flush_locked w s')
]

-- f.substr(0, f.size() - 4) + ".snap"
abbrev pub snap_of : Bytes → Bytes
snap_of f = take (length f - 4) f ++ codes ".snap"

abbrev pub no_shards : ℕ → Shard
no_shards k = record { entries = []; dirty = [] }

abbrev pub no_tail : Tail
no_tail = record { readers = []; stray = []; last_poll = 0 }

-- The siblings present at boot: their snapshots are replayed, and each log gets a reader.
unfoldable pub boot_siblings : World → List Bytes → Inner → Inner
boot_siblings w [] s = s
boot_siblings w (f ∷ fs) s = boot_siblings w fs (
    with_tail (λ t. record t { readers = put f new_reader t.readers })
      (apply_lines (replay_file (w.files (snap_of f))) s))

-- The state before the replay. `log` is what the own log holds, `rng` the generator's seed.
unfoldable pub fresh : ℕ → ℕ → Bytes → Bytes → Inner
fresh id rng log snap = record {
  shards = no_shards;
  tail = no_tail;
  aof = some (record { buf = []; is_open = true; file = log });
  instance_id = id;
  prefix = byte_at id alphabet;
  own_name = log_name id;
  snap = snap;
  closed = false;
  rng = rng;
  links_total = 0;
}

-- `open` of a directory: none where the instance id is out of range. `id` is the claimed or given
-- instance; opening the log is taken to succeed.
unfoldable pub open_dir : World → ℕ → ℕ → Bytes → Bytes → Option Inner
open_dir w id rng log snap =
    if ltb id max_instances
    then (let s =
          apply_lines (replay_file log) (apply_lines (replay_file snap) (fresh id rng log snap)) in
        some (boot_siblings w (shard_files s.own_name w.listing) s))
    else none

-- `open` of ":memory:".
unfoldable pub open_memory : ℕ → Inner
open_memory rng = record {
  shards = no_shards;
  tail = no_tail;
  aof = none;
  instance_id = 0;
  prefix = b'0';
  own_name = [];
  snap = [];
  closed = false;
  rng = rng;
  links_total = 0;
}
