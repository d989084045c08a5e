-- ===== src/Metrics.antt =====
-- src/metrics.cpp: the counters of the process and their text form. The relaxed atomics are one value
-- each, changed by one call after the other.
pub mod Window
use shrt_cpp.Prelude.{
  ℕ, suc, ◌&&◌, List, [], ◌∷◌, ◌++◌, Bytes, codes, is_empty, Int64, add64, ltb, leb, ◌==◌,
  if◌then◌else◌,
}
use shrt_cpp.Codec.Number.{itoa}

-- OP_COUNTS and STATUS by their index, and the gauges of the stores.
pub record Counters : Type 0 where
  pub op_counts : ℕ → Int64
  pub status_counts : ℕ → Int64
  pub cache_hits : Int64
  pub cache_misses : Int64
  pub store_reads : Int64
  pub store_read_us : Int64
  pub store_writes : Int64
  pub links_total : Int64

unfoldable pub add_at : ℕ → (ℕ → Int64) → ℕ → Int64
add_at i f j = if j == i then add64 (f j) 1 else f j

unfoldable pub op : ℕ → Counters → Counters
op i m = record m { op_counts = add_at i m.op_counts }

unfoldable pub status_class : ℕ → ℕ
status_class code =
    if leb 200 code && ltb code 300
    then 0
    else if leb 300 code && ltb code 400
    then 1
    else if leb 400 code && ltb code 500
    then 2
    else 3

unfoldable pub status : ℕ → Counters → Counters
status code m = record m { status_counts = add_at (status_class code) m.status_counts }

unfoldable pub cache_hit : Counters → Counters
cache_hit m = record m { cache_hits = add64 m.cache_hits 1 }

unfoldable pub cache_miss : Counters → Counters
cache_miss m = record m { cache_misses = add64 m.cache_misses 1 }

unfoldable pub store_read : Int64 → Counters → Counters
store_read us m = record m {
  store_reads = add64 m.store_reads 1;
  store_read_us = add64 m.store_read_us us;
}

unfoldable pub store_write : Counters → Counters
store_write m = record m { store_writes = add64 m.store_writes 1 }

unfoldable pub links_delta : Int64 → Counters → Counters
links_delta n m = record m { links_total = add64 m.links_total n }

abbrev pub ops : List Bytes
ops =
    codes "redirect"
    ∷ codes "shorten"
    ∷ codes "shorten_bulk"
    ∷ codes "update"
    ∷ codes "delete"
    ∷ codes "list"
    ∷ codes "stats"
    ∷ codes "health"
    ∷ codes "metrics"
    ∷ codes "ui"
    ∷ codes "other"
    ∷ []

abbrev pub classes : List Bytes
classes = codes "2xx" ∷ codes "3xx" ∷ codes "4xx" ∷ codes "5xx" ∷ []

abbrev newline : Bytes
newline = b'\n' ∷ []

unfoldable pub pline : Bytes → Bytes → Int64 → Bytes
pline m labels v =
    m
    ++ ((if is_empty labels then [] else b'{' ∷ (labels ++ b'}' ∷ []))
        ++ (b' ' ∷ (itoa v ++ newline)))

-- A labelled line for every name, with the count of its position.
unfoldable pub plines : Bytes → Bytes → (ℕ → Int64) → ℕ → List Bytes → Bytes
plines m label f i [] = []
plines m label f i (name ∷ names) =
    pline m (label ++ (codes "=\"" ++ (name ++ codes "\""))) (f i) ++ plines m label f (suc i) names

-- The HELP and TYPE lines in front of a metric.
unfoldable pub preamble : Bytes → Bytes → Bytes → Bytes
preamble m help kind =
    (codes "# HELP " ++ (m ++ (b' ' ∷ (help ++ newline))))
    ++ (codes "# TYPE " ++ (m ++ (b' ' ∷ (kind ++ newline))))

-- A metric of one line.
unfoldable pub single : Bytes → Bytes → Bytes → Int64 → Bytes
single m help kind v = preamble m help kind ++ pline m [] v

abbrev counter : Bytes
counter = codes "counter"

unfoldable pub prometheus : Int64 → Int64 → Counters → Bytes
prometheus rate_limited uptime m =
    (preamble (codes "shrt_requests_total") (codes "Requests by operation") counter
      ++ plines (codes "shrt_requests_total") (codes "op") m.op_counts 0 ops)
    ++ ((preamble (codes "shrt_responses_total") (codes "Responses by status class") counter
          ++ plines (codes "shrt_responses_total") (codes "class") m.status_counts 0 classes)
        ++ ((preamble (codes "shrt_cache_lookups_total") (codes "Local hot-cache lookups") counter
              ++ (pline (codes "shrt_cache_lookups_total") (codes "result=\"hit\"") m.cache_hits
                  ++ pline (codes "shrt_cache_lookups_total") (codes "result=\"miss\"")
                      m.cache_misses))
            ++ (single (codes "shrt_store_reads_total")
                  (codes "Backing-store point reads (cache misses)") counter m.store_reads
                ++ (single (codes "shrt_store_read_us_total")
                      (codes "Cumulative backing-store read latency (us)") counter m.store_read_us
                    ++ (single (codes "shrt_store_writes_total") (codes "Backing-store writes")
                          counter m.store_writes
                        ++ (single (codes "shrt_rate_limited_total")
                              (codes "Requests rejected by the rate limiter") counter rate_limited
                            ++ (single (codes "shrt_links_total")
                                  (codes "Live links created minus deleted") (codes "gauge")
                                  m.links_total
                                ++ single (codes "shrt_uptime_seconds") (codes "Process uptime")
                                    (codes "gauge") uptime)))))))
