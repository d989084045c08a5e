-- ===== src/Store/Create.antt =====
-- `rng_next`, `gen_code`, `shorten` and `shorten_many` of src/store.cpp.
use shrt_cpp.Prelude.{
  ℕ, zero, suc, ◌-◌, ◌*◌, ◌/◌, ◌%◌, ◌^◌, bit_xor, List, [], ◌∷◌, ◌++◌, Option, none, some, Bytes,
  Int64, add64, is_pos, from_int, put, length, ltb, if◌then◌else◌,
}
use shrt_cpp.Codec.Line.{row_line}
use shrt_cpp.Aof.{Aof, nl, push, push_raw, pending_bytes, flush}
use shrt_cpp.Store.State.{
  Entry, Inner, World, flush_bytes, code_len, max_instances, alphabet, shard_of, entry?, at_shard,
}
use shrt_cpp.Store.Apply.{with_entries}

-- xorshift64*: the next state, from which the output is computed.
unfoldable pub rng_step : ℕ → ℕ
rng_step st =
    let a = bit_xor st (st / 2 ^ 12) in
    let b = bit_xor a (a * 2 ^ 25 % 2 ^ 64) in bit_xor b (b / 2 ^ 27)

unfoldable pub rng_output : ℕ → ℕ
rng_output st = st * 2685821657736338717 % 2 ^ 64

unfoldable pub byte_at : ℕ → Bytes → ℕ
byte_at i [] = 0
byte_at zero (b ∷ s) = b
byte_at (suc i) (b ∷ s) = byte_at i s

-- The `k` random characters of a code, and the generator's state behind them.
unfoldable pub gen_suffix : ℕ → ℕ → Bytes × ℕ
gen_suffix zero rng = ([], rng)
gen_suffix (suc k) rng =
    let (rest, rng') = gen_suffix k (rng_step rng) in
    (byte_at (rng_output (rng_step rng) % max_instances) alphabet ∷ rest, rng')

unfoldable pub gen_code : Inner → Bytes × Inner
gen_code s =
    let (suffix, rng) = gen_suffix (code_len - 1) s.rng in
    (s.prefix ∷ suffix, record s { rng = rng })

-- The retry loop: the first generated code that the index does not hold. `fuel` is the number of
-- codes that are tried.
unfoldable pub fresh_code : ℕ → Inner → Option (Bytes × Inner)
fresh_code zero s = none
fresh_code (suc fuel) s =
    let (code, s') = gen_code s in
    let rest = fresh_code fuel s' in
    elim (entry? code s') [ none ↦ some (code, s') | some _ ↦ rest ]

unfoldable pub expires : Int64 → Int64 → Int64
expires now ttl_ms = if is_pos ttl_ms then add64 now ttl_ms else 0

unfoldable pub new_entry : Bytes → Int64 → Int64 → Inner → Entry
new_entry url now exp s = record { u = url; a = now; e = exp; i = s.instance_id; h = 0; oh = 0 }

unfoldable pub emplace : Bytes → Entry → Inner → Inner
emplace code e = at_shard (shard_of code) (with_entries (put code e))

-- The row or rows behind the index change; a large buffer is flushed at once.
unfoldable pub flush_large : World → Aof → Aof
flush_large w a = if ltb flush_bytes (pending_bytes a) then flush w.accept a else a

unfoldable pub log_created : World → (Aof → Aof) → Inner → Inner
log_created w write s = elim s.aof [
  | none ↦ s
  | some a ↦ record s { aof = some (flush_large w (write a)) }
]

unfoldable pub links_delta : Int64 → Inner → Inner
links_delta n s = record s { links_total = add64 s.links_total n }

unfoldable pub create : World → Bytes → Bytes → Int64 → Inner → Inner
create w code url ttl_ms s =
    let now = w.now 0 in
    let exp = expires now ttl_ms in
    links_delta 1 (
      log_created w (push (row_line code url now exp (from_int s.instance_id) 0))
        (emplace code (new_entry url now exp s) s))

-- The inner option is the source's result, where none means that the alias is taken; the outer one
-- is none when `fuel` codes were tried and all were taken.
unfoldable pub shorten :
    World → ℕ → Bytes → Option Bytes → Int64 → Inner → Option (Option Bytes × Inner)
shorten w fuel url (some alias) ttl_ms s = elim (entry? alias s) [
  | some _ ↦ some (none, s)
  | none ↦ some (some alias, create w alias url ttl_ms s)
]
shorten w fuel url none ttl_ms s = elim (fresh_code fuel s) [
  | none ↦ none
  | some (code, s') ↦ some (some code, create w code url ttl_ms s')
]

-- The loop over the urls: the codes, the lines to log, and the state with the new entries.
unfoldable pub shorten_each :
    ℕ → Int64 → Int64 → List Bytes → Inner → Option (List Bytes × Bytes × Inner)
shorten_each fuel now exp [] s = some ([], [], s)
shorten_each fuel now exp (url ∷ urls) s = elim (fresh_code fuel s) [
  | none ↦ none
  | some (code, s₁) ↦
      elim (shorten_each fuel now exp urls (emplace code (new_entry url now exp s) s₁)) [
        | none ↦ none
        | some (codes', lines, s₂) ↦ some (
          code ∷ codes',
          (row_line code url now exp (from_int s.instance_id) 0 ++ nl ∷ []) ++ lines,
          s₂,
        )
      ]
]

unfoldable pub shorten_many : World → ℕ → List Bytes → Int64 → Inner → Option (List Bytes × Inner)
shorten_many w fuel urls ttl_ms s =
    let now = w.now 0 in
    elim (shorten_each fuel now (expires now ttl_ms) urls s) [
      | none ↦ none
      | some (created, lines, s') ↦
          some (created, links_delta (length created) (log_created w (push_raw lines) s'))
    ]
