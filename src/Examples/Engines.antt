-- ===== src/Examples/Engines.antt =====
-- Concrete runs of the theorems on connections, metrics, the cache and the store over RocksDB.
use shrt_cpp.Prelude.{
  ℕ, ◌+◌, ◌-◌, ◌/◌, ◌%◌, ◌^◌, ◌≤◌, ◌⊎◌, if◌then◌else◌, true, false, Bool, ap, ◌∙◌, List, [], ◌∷◌,
  Option, none, some, ◌≡◌, refl, arith, Bytes, codes, starts_with, length,
}
use shrt_cpp.Store.Create.{expires}
use shrt_cpp.App.Route.Local.{local_store}
use shrt_cpp.Http.Conn.{Link}
use shrt_cpp.Http.Head.{split_seq}
use shrt_cpp.Http.Request.{parse_req}
use shrt_cpp.Http.Conn.Queue.{KqConn, Event, on_event}
use shrt_cpp.Http.Conn.Queue
use shrt_cpp.Http.Conn.Queue.Interest.{Open, opened, later, Interested, Open-Interested}
use shrt_cpp.Kv.Cache.{empty_shard, cache_put}
use shrt_cpp.Kv.Cache.Bounds.{fresh, filled, Used-length}
use shrt_cpp.Metrics
use shrt_cpp.Metrics.{Counters}
use shrt_cpp.Metrics.Window.{
  Window, started_, ticked, window, ticks_in, tick, init, window-ticks_in,
}
use shrt_cpp.Rocks.Db.{Write, Db, DbLaws, link_after_all, hits_after, hits_after_all}
use shrt_cpp.Rocks.State.{RocksInner, Moment, bump, flush_hits, counted}
use shrt_cpp.Rocks.Access.{link_of, resolve, update, compact}
use shrt_cpp.Rocks.Create.{create, shorten}
use shrt_cpp.Rocks.Hits.History.{
  empty-Placed, hits_of, unhit, hit, flushed, occurrences, Hitting-hits_of,
}
use shrt_cpp.Rocks.Coherent.{Coherent}
use shrt_cpp.Rocks.Coherent.Reads.{Gone, live_url}
use shrt_cpp.Rocks.Coherent.Writes.{Shortened}
use shrt_cpp.Rocks.Coherent.Answers.{drawn, CanDraw, Because, shorten-answers}
use shrt_cpp.Rocks.Coherent.Updates.{Updated, update-Updated}
use shrt_cpp.Rocks.Coherent.Reached.{
  Reached, opened, shortened, compacted, Reached-Coherent, resolve-row,
}
use shrt_cpp.Examples.{calm_world, abc, some_url, other_url, empty_store}
use shrt_cpp.Examples.Requests.{settings}

abbrev link : Link
link = record { origin = codes "*"; trust = false; peer = codes "10.0.0.1" }

-- One request in two pieces.
abbrev pieces : List Bytes
pieces = codes "GET /abc HTTP/1.1\r\nHo" ∷ codes "st: x\r\n\r\n" ∷ []

-- A connection on which the first piece has arrived.
abbrev waiting_conn : KqConn
waiting_conn = record { rbuf = codes "GET /a"; wbuf = []; close_after = false; want_write = false }

waiting_Open : Open (local_store calm_world 1) settings link waiting_conn empty_store
unfolding on_event Queue.handle Queue.read Queue.requests Queue.one Queue.arm Queue.finish parse_req
    split_seq starts_with
waiting_Open =
    later false (Event.readable (codes "GET /a") false) empty_store refl (opened empty_store)

Open-Interested_example : Interested waiting_conn
Open-Interested_example = Open-Interested (local_store calm_world 1) settings link waiting_Open

-- Two requests in one second and one 61 seconds later, in the same bucket but one.
abbrev three_ticks : Window
three_ticks = tick 161500 (tick 100900 (tick 100000 (init 99000)))

window-ticks_in_example :
    window 162000 three_ticks 29
    ≡ ticks_in (162000 / 1000 + 29 - 30) (161500 ∷ 100900 ∷ 100000 ∷ []) % 2 ^ 64
window-ticks_in_example =
    window-ticks_in 162000 29
      (ticked 161500 (omega arith)
        (ticked 100900 (omega arith) (ticked 100000 (omega arith) started_)))
      (omega arith) (omega arith) (omega arith)

Used-length_example : length (cache_put 16 1000 abc some_url 0 empty_shard).m ≤ 16
Used-length_example = Used-length (omega arith) (filled 1000 abc some_url 0 fresh)

-- A database of two functions, whose writes are always ok.
abbrev Rows : Type 0
Rows = (Bytes → Option Bytes) × (Bytes → Option Bytes)

-- The compaction drops every row that its filter names.
abbrev kept_by : (Bytes → Bool) → Option Bytes → Option Bytes
kept_by f none = none
kept_by f (some v) = if f v then none else some v

kept_by_keeps :
    (f : Bytes → Bool) (v : Bytes) (o : Option Bytes)
    → o ≡ some v
    → f v ≡ false
    → kept_by f o ≡ some v
kept_by_keeps f v o h n = ap (kept_by f) h ∙ rw n refl

kept_by_makes :
    (f : Bytes → Bool) (v : Bytes) (o : Option Bytes) → kept_by f o ≡ some v → o ≡ some v
kept_by_makes f v none h = h
kept_by_makes f v (some x) h = ground (arith, h)

abbrev rows_db : Db Rows
rows_db = record {
  get_link = λ k d. d.0 k;
  get_hits = λ k d. d.1 k;
  write = λ ws d. (true, (λ k. link_after_all k ws (d.0 k), λ k. hits_after_all k ws (d.1 k)));
  put = λ k v d. (true, (λ j. link_after_all j (Write.put_link k v ∷ []) (d.0 j), d.1));
  links = λ d. [];
  compact = λ f d. (λ k. kept_by f (d.0 k), d.1);
}

rows_db-DbLaws : DbLaws rows_db
unfolding hits_after_all hits_after
rows_db-DbLaws = record {
  written_links = λ ws k d h. refl;
  written_hits = λ ws k d h. refl;
  refused = λ ws d h. absurd (ground (arith, h));
  put_write = λ k v d. refl;
  compact_keeps = λ f k v d h n. kept_by_keeps f v (d.0 k) h n;
  compact_makes = λ f k v d h. kept_by_makes f v (d.0 k) h;
}

abbrev pub no_counters : Counters
no_counters = record {
  op_counts = λ i. 0;
  status_counts = λ i. 0;
  cache_hits = 0;
  cache_misses = 0;
  store_reads = 0;
  store_read_us = 0;
  store_writes = 0;
  links_total = 0;
}

abbrev empty_rocks : RocksInner Rows ℕ
empty_rocks = record {
  rows = (λ k. none, λ k. none);
  cache = λ i. empty_shard;
  cap_per_shard = 16;
  cache_ttl_ms = 0;
  dirty = λ i. [];
  prefix = b'0';
  rng = 1;
  counters = no_counters;
}

-- A draw of the next of the numbers 0 to 61.
abbrev pub draw : ℕ → ℕ × ℕ
draw = λ g. (g % 62, g + 1)

abbrev pub moment : Moment
moment = record { now = λ k. 1000; track_hits = true; read_us = 5 }

abbrev abc_rocks : RocksInner Rows ℕ
abc_rocks = (create rows_db draw moment abc some_url 0 (counted Metrics.store_write empty_rocks)).1

abc_shortened :
    shorten rows_db draw moment 0 some_url (some abc) 0 empty_rocks ≡ some (some abc, abc_rocks)
unfolding shorten create counted
abc_shortened = refl

-- The link is made, and then there is a compaction at the time 1000.
abc_Reached : Reached rows_db rows_db-DbLaws draw 1000 (compact rows_db 1000 abc_rocks)
abc_Reached = compacted 1000 refl (
    shortened moment 0 some_url (some abc) (some abc) 0 (omega arith) abc_shortened
      (opened 500 empty_rocks λ i. refl))

abbrev compacted_rocks : RocksInner Rows ℕ
compacted_rocks = compact rows_db 1000 abc_rocks

drawn_free : CanDraw rows_db draw 3 none empty_rocks
unfolding CanDraw drawn
drawn_free = (0, omega arith, refl)

-- The first code that is drawn has no row.
shorten-answers_example :
    (r : Option Bytes) × (t : RocksInner Rows ℕ) × (shorten rows_db draw moment 3 some_url none 0
        empty_rocks
      ≡ some (r, t))
    × Because rows_db draw moment some_url 0 3 none empty_rocks r
    × Shortened rows_db moment some_url 0 empty_rocks.rows r t.rows
shorten-answers_example =
    shorten-answers rows_db rows_db-DbLaws draw moment 3 some_url none 0 empty_rocks (omega arith)
      drawn_free

update-Updated_example :
    Updated rows_db abc other_url false
      (expires 1000 0)
      abc_rocks.rows
      (update rows_db moment abc other_url 0 false abc_rocks).0
      (update rows_db moment abc other_url 0 false abc_rocks).1.rows
update-Updated_example =
    update-Updated (λ k it. ⊥) rows_db rows_db-DbLaws moment abc other_url 0 false abc_rocks

Reached-Coherent_example : Coherent (Gone 1000) rows_db compacted_rocks
Reached-Coherent_example = Reached-Coherent rows_db rows_db-DbLaws draw abc_Reached

resolve-row_example :
    (((resolve rows_db moment abc compacted_rocks).0
        ≡ live_url 1000 (link_of rows_db abc compacted_rocks.rows))
      ⊎ ((resolve rows_db moment abc compacted_rocks).0
          ≡ live_url 1000 (link_of rows_db abc compacted_rocks.rows)))
    × ((resolve rows_db moment abc compacted_rocks).1.rows ≡ compacted_rocks.rows)
resolve-row_example =
    resolve-row rows_db rows_db-DbLaws draw 1000 moment abc compacted_rocks abc_Reached refl

-- A hit, a flush and another hit.
Hitting-hits_of_example :
    hits_of rows_db abc (bump moment abc (flush_hits rows_db (bump moment abc empty_rocks)))
    ≡ (hits_of rows_db abc empty_rocks + occurrences abc (abc ∷ abc ∷ [])) % 2 ^ 64
Hitting-hits_of_example =
    Hitting-hits_of rows_db rows_db-DbLaws abc empty_rocks empty-Placed
      (hit moment abc refl (flushed refl (hit moment abc refl unhit)))
