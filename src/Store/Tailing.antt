-- ===== src/Store/Tailing.antt =====
-- `poll_locked`, `tail_missed` and `poll_tails` of src/store.cpp: reading the other instances' logs.
use shrt_cpp.Prelude.{
  ℕ, List, [], ◌∷◌, Option, none, some, Bytes, sub64, le64, Dict, find, put, ◌==◌, if◌then◌else◌,
}
use shrt_cpp.Aof.{TailReader, new_reader, read_new, shard_files}
use shrt_cpp.Store.State.{Tail, Inner, World, tail_min_interval, alpha_idx, log_name}
use shrt_cpp.Store.Apply.{apply_lines}

abbrev pub with_tail : (Tail → Tail) → Inner → Inner
with_tail f s = record s { tail = f s.tail }

-- A reader for each shard log that has none.
unfoldable pub discover : List Bytes → Dict TailReader → Dict TailReader
discover [] rs = rs
discover (f ∷ fs) rs = discover fs (elim (find f rs) [ none ↦ put f new_reader rs | some _ ↦ rs ])

-- Every reader in turn yields its new lines, which are applied.
unfoldable pub poll_readers : World → Dict TailReader → Inner → Dict TailReader × Inner
poll_readers w [] s = ([], s)
poll_readers w ((f, r) ∷ rs) s =
    let (lines, r') = read_new r (w.files f) in
    let (rs', s') = poll_readers w rs (apply_lines lines s) in ((f, r') ∷ rs', s')

-- `k` numbers the clock reading at the end.
unfoldable pub poll_locked : World → ℕ → Inner → Inner
poll_locked w k s =
    let (rs, s') = poll_readers w (discover (shard_files s.own_name w.listing) s.tail.readers) s in
    with_tail (λ t. record t { readers = rs; last_poll = w.now k }) s'

abbrev or_new : Option TailReader → TailReader
or_new none = new_reader
or_new (some r) = r

-- The log of the instance `owner` is read on.
unfoldable pub tail_owner : World → ℕ → Inner → Inner
tail_owner w owner s =
    let name = log_name owner in
    let (lines, r) = read_new (or_new (find name s.tail.readers)) (w.files name) in
    let s' = apply_lines lines s in
    with_tail (λ t. record t { readers = put name r s.tail.readers; last_poll = w.now 1 }) s'

unfoldable pub poll_rarely : World → Inner → Inner
poll_rarely w s =
    if le64 tail_min_interval (sub64 (w.now 1) s.tail.last_poll) then poll_locked w 2 s else s

unfoldable pub tail_found : World → Option ℕ → Inner → Inner
tail_found w none s = poll_rarely w s
tail_found w (some owner) s =
    if owner == s.instance_id then poll_rarely w s else tail_owner w owner s

unfoldable pub tail_missed : World → Bytes → Inner → Inner
tail_missed w [] s = s
tail_missed w (c ∷ code) s = elim s.aof [ none ↦ s | some _ ↦ tail_found w (alpha_idx c) s ]

unfoldable pub poll_tails : World → Inner → Inner
poll_tails w s = elim s.aof [ none ↦ s | some _ ↦ poll_locked w 0 s ]
