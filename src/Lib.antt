-- ===== src/Lib.antt =====
-- A verification library of shrt-cpp, a link shortener: an HTTP server over a store of links that
-- is kept in memory and logged to an append-only file.
--
-- The parts and their files:
-- Codec: src/codec.cpp and the `itoa` of src/common.hpp. Codec/Number has `itoa` and the parts of
--   strtoll and strtoul that the code relies on, Codec/Escape `esc` and `unescape`, Codec/Line
--   the rows, hit lines and tombstones, Codec/Parse `parse_op`. Bytes are numbers; an int64_t is
--   its bit pattern below 2 ^ 64, with the signed order and the wrapping sum written out
--   (Prelude/Machine).
-- Aof: src/aof.cpp and src/aof.hpp. The log is its buffer, whether it is open, and the contents
--   of its file; `flush` takes what each write(2) accepts as a function. The tail readers and
--   `replay_file` are functions of a file's contents. Aof/Claim is `claim_instance`, over what
--   the lock files and the process table answer; the model's `open_dir` takes the claimed id as
--   an input.
-- Store: src/store.cpp, src/store.hpp and src/base62.hpp, the in-process engine. Store/State has
--   the structs; `Inner` is the state, and the 256 shards are a function of their number. Every
--   operation is one step, as it is where calls do not overlap: the kqueue server handles one
--   request after the other in one thread. In the threaded server they overlap: `shorten`,
--   `update` and `remove` release the shard before they lock the log, so two calls on one code
--   may be logged in the other order. That is not modelled; the flushes of the background thread
--   are steps between the calls. A `World` is what a call sees of the clock, the settings, the
--   writes and the other instances' files. Store/Apply folds log lines into the index,
--   Store/Tailing reads the other logs, Store/Create has `shorten` and `shorten_many`,
--   Store/Access `resolve`, `update`, `remove` and `stats`, Store/Listing `list`, Store/Persist
--   `flush`, `compact`, `close`, `seed` and `open`. The other modules hold proofs: Store/Views
--   the abstract map from codes to url, times and owner, Store/Tally the one with the hit counts,
--   Store/Sound and Store/Durable the invariants, Store/Keeps, Store/Reads and Store/Bulk that
--   the operations keep them, Store/History the step relation, Store/Recovery the restart.
-- App: src/app.cpp and src/app.hpp. App/Json is the reader of request bodies, App/Checks the
--   validation, App/Request and App/Reply what is read and written, App/Route the router, over a
--   record `Backend` of the store's operations that App/Route/Local fills with the in-process
--   store. A double is what the code asks of it, and strtod is an input, as are the rate
--   limiter's answer, the page and the metrics texts.
-- Kv: src/store_kv.cpp and src/kv.cpp. Kv/Value is the stored form of a link, Kv/Cache the local
--   cache, Kv/Resp the wire format, Kv/Client the commands over a parameter `pipe`, which sends
--   framed commands and answers or throws. Kv/Engine has the state, `resolve` and `shorten`,
--   Kv/Engine/Ops the other operations on links, Kv/Engine/Scan the scans, `list` and
--   `sweep_expired`; Kv/Engine/Server states what the documentation of the server says of four
--   commands, on keys that hold a string, a hash or nothing. src/store_rocks.cpp has the same
--   stored form and cache.
-- Http: src/server.cpp, without its sockets. A `Session` is a connection of `conn_loop` with what
--   was sent to its client, a `Progress` what one run of its inner loop comes to. Http/Head and
--   Http/Request are `parse_req`, `body_limit` and `client_ip`, Http/Wire is `write_reply`,
--   Http/Conn the loop of `conn_loop` over the requests that have arrived, which hands each to
--   the router of App/Route, and Http/Conn/Queue one connection of the kqueue loop.
-- Metrics: src/metrics.cpp, the counters and their text, and in Metrics/Window the ring of 60
--   buckets.
-- Rocks: src/store_rocks.cpp. RocksDB is a parameter: Rocks/Db has its calls, and in `DbLaws`
--   what its documentation says of them. Rocks/State is the state with the cache and the deltas
--   of hits, Rocks/Access, Rocks/Create and Rocks/Listing are the operations. Rocks/Coherent is
--   about what the cache holds, Rocks/Hits about the counts of hits.
-- Examples: concrete runs.
--
-- Loops and fuel: `read_resp` runs on the depth of the arrays that it may read, `parse_op` and
-- `jparse` run on fuel from the length of their text, and the write loop on the length of the
-- buffer. The loop that draws codes until one is free has a bound on the codes that it tries as
-- an argument, and no result when all were taken; a scan has one on its pages.
--
-- Assumed: the theorems on a restart are for a store that runs alone (`IsCalm`): every write(2)
-- makes progress, the clock is an int64_t, and no other instance has written. std::unordered_map
-- is an association list, and the order of its list the order of iteration.
--
-- Calls on one store do not overlap. A batch of writes to RocksDB is applied as a whole or not at
-- all, and the random draws of a code are any function of a generator's state.
--
-- Not modelled: the sockets of src/server.cpp, src/main.cpp and src/bench.cpp, the connections of
-- src/kv.cpp, the depth of a thread's stack, on which `Jp` of src/app.cpp recurses, the token
-- bucket on doubles (src/ratelimit.cpp), and races of threads on the atomics of src/metrics.cpp.
pub mod Prelude
pub mod Codec
pub mod Aof
pub mod Store
pub mod Kv
pub mod App
pub mod Http
pub mod Metrics
pub mod Rocks
pub mod Examples
