-- ===== src/Metrics/Window.antt =====
-- `init`, `tick` and `snapshot` of src/metrics.cpp: the ring of buckets that counts the requests of the
-- last seconds. The clock reads milliseconds since 1970, 30 s or more of them.
use shrt_cpp.Prelude.{
  ℕ, zero, suc, ◌+◌, ◌-◌, ◌/◌, ◌%◌, ◌^◌, ◌≤◌, ◌<◌, ◌&&◌, List, [], ◌∷◌, ◌++◌, ◌≡◌, refl, ◌∙◌, arith,
  inl, inr, Bool-cases, Bytes, codes, Int64, add64, ltb, leb, ◌==◌, if◌then◌else◌,
}
use shrt_cpp.Codec.Number.{itoa}

abbrev pub n_buckets : ℕ
n_buckets = 60

-- BUCKETS, CUR, TOTAL and STARTED.
pub record Window : Type 0 where
  pub buckets : ℕ → Int64
  pub cur : ℕ
  pub total : Int64
  pub started : ℕ

unfoldable pub set_bucket : ℕ → Int64 → (ℕ → Int64) → ℕ → Int64
set_bucket i v b j = if j == i then v else b j

unfoldable pub init : ℕ → Window
init ms = record { buckets = λ j. 0; cur = ms / 1000; total = 0; started = ms }

-- The loop that clears the `n` buckets behind second `c`.
unfoldable pub clear_after : ℕ → ℕ → (ℕ → Int64) → ℕ → Int64
clear_after zero c b = b
clear_after (suc n) c b = clear_after n (suc c) (set_bucket (suc c % n_buckets) 0 b)

unfoldable pub count_in : ℕ → (ℕ → Int64) → ℕ → Int64
count_in s b = set_bucket (s % n_buckets) (add64 (b (s % n_buckets)) 1) b

unfoldable pub tick : ℕ → Window → Window
tick ms w =
    let s = ms / 1000 in
    record w {
      total = add64 w.total 1;
      cur = s;
      buckets =
          count_in s (if s == w.cur then w.buckets else clear_after (s - w.cur) w.cur w.buckets);
    }

-- The entry of `window` for second `t`.
unfoldable pub window_at : ℕ → Window → Int64
window_at t w = if leb t w.cur && ltb (w.cur - t) n_buckets then w.buckets (t % n_buckets) else 0

unfoldable pub window : ℕ → Window → ℕ → Int64
window ms w i = window_at (ms / 1000 + i - 30) w

unfoldable pub sum_from : ℕ → ℕ → (ℕ → Int64) → Int64
sum_from zero i f = 0
sum_from (suc n) i f = add64 (f i) (sum_from n (suc i) f)

-- The entries from `i` on, each behind a comma but the first.
unfoldable pub entries_text : ℕ → ℕ → (ℕ → Int64) → Bytes
entries_text zero i f = []
entries_text (suc n) i f =
    (if i == 0 then [] else b',' ∷ []) ++ (itoa (f i) ++ entries_text n (suc i) f)

-- `rate` prints the requests of five seconds as a rate with one decimal (std::round and %g).
unfoldable pub snapshot : (Int64 → Bytes) → ℕ → Window → Bytes
snapshot rate ms w =
    codes "{\"req_s\":"
    ++ (rate (sum_from 5 25 (window ms w))
        ++ (codes ",\"total\":"
            ++ (itoa w.total
                ++ (codes ",\"uptime_s\":"
                    ++ (itoa ((ms - w.started) / 1000)
                        ++ (codes ",\"per_second\":["
                            ++ (entries_text 31 0 (window ms w) ++ codes "]}")))))))

-- The ticks of a process that starts at `start`, the last one first, on a clock that does not go back.
pub data Ticked : ℕ → ℕ → List ℕ → Window → Type 0 where
  started_ : {start : ℕ} → Ticked start start [] (init start)
  ticked :
      {start last : ℕ} {h : List ℕ} {w : Window} (ms : ℕ)
      → last ≤ ms
      → Ticked start last h w
      → Ticked start ms (ms ∷ h) (tick ms w)

-- How many of the ticks fell in second `t`.
unfoldable pub ticks_in : ℕ → List ℕ → ℕ
ticks_in t [] = 0
ticks_in t (ms ∷ h) = let rest = ticks_in t h in if ms / 1000 == t then suc rest else rest

clear_after-at :
    (n c : ℕ) (b : ℕ → Int64) (t : ℕ)
    → t ≤ c + n
    → c + n < t + 60
    → clear_after n c b (t % 60) ≡ (if leb t c then b (t % 60) else 0)
unfolding clear_after set_bucket
clear_after-at zero c b t h k = ground arith
clear_after-at (suc n) c b t h k =
    ground
      (arith, clear_after-at n (suc c) (set_bucket (suc c % 60) 0 b) t (omega arith) (omega arith))

record Counts (h : List ℕ) (last : ℕ) (w : Window) : Type 0 where
  at : w.cur ≡ last / 1000
  later : (t : ℕ) → last / 1000 < t → ticks_in t h ≡ 0
  inside : (t : ℕ) → t ≤ w.cur → w.cur < t + 60 → w.buckets (t % 60) ≡ ticks_in t h % 2 ^ 64

since :
    (w : Window) (h : List ℕ) (last t : ℕ)
    → Counts h last w
    → w.cur < t + 60
    → (if leb t w.cur then w.buckets (t % 60) else 0) ≡ ticks_in t h % 2 ^ 64
since w h last t k b = ground (arith, k.inside t, k.later t, k.at)

cleared :
    (w : Window) (h : List ℕ) (last ms t : ℕ)
    → Counts h last w
    → last ≤ ms
    → t ≤ ms / 1000
    → ms / 1000 < t + 60
    → (if ms / 1000 == w.cur then w.buckets else clear_after (ms / 1000 - w.cur) w.cur w.buckets)
        (t % 60)
      ≡ ticks_in t h % 2 ^ 64
cleared w h last ms t k o a b = elim (Bool-cases (ms / 1000 == w.cur)) [
  | inl e ↦ rw e (k.inside t (ground (arith, e)) (ground (arith, e)))
  | inr e ↦ rw e (
      clear_after-at (ms / 1000 - w.cur) w.cur w.buckets t (omega (arith, k.at))
        (omega (arith, k.at))
      ∙ since w h last t k (omega (arith, k.at)))
]

start-Counts : (start : ℕ) → Counts [] start (init start)
unfolding init ticks_in
start-Counts start = record { at = refl; later = λ t h. refl; inside = λ t a b. refl }

tick-Counts :
    (h : List ℕ) (last ms : ℕ) (w : Window)
    → last ≤ ms
    → Counts h last w
    → Counts (ms ∷ h) ms (tick ms w)
unfolding tick ticks_in count_in set_bucket
tick-Counts h last ms w o k = record {
  at = refl;
  later = λ t l. ground (arith, k.later t (omega arith));
  inside = λ t a b. ground (arith, cleared w h last ms t k o a b);
}

Ticked-Counts : {start last : ℕ} {h : List ℕ} {w : Window} → Ticked start last h w → Counts h last w
Ticked-Counts (started_ {start}) = start-Counts start
Ticked-Counts (ticked ms o k) = tick-Counts _ _ ms _ o (Ticked-Counts k)

-- The window of a snapshot holds the right counts: in any process that starts with empty buckets and
-- ticks on a clock that does not go back, a snapshot taken at or after the last tick (and 30 s or more
-- after 1970) shows for each of its 31 seconds the number of all the ticks in that second, modulo 2^64,
-- however the ticks share the 60 buckets, and 0 for the seconds without a tick.
pub window-ticks_in :
    {start last : ℕ} {h : List ℕ} {w : Window} (ms i : ℕ)
    → Ticked start last h w
    → last ≤ ms
    → 30 ≤ ms / 1000
    → i ≤ 30
    → window ms w i ≡ ticks_in (ms / 1000 + i - 30) h % 2 ^ 64
unfolding window window_at
window-ticks_in {last} {h} {w} ms i k o b c =
    let n = Ticked-Counts k in
    ground (arith, n.at, n.inside (ms / 1000 + i - 30), n.later (ms / 1000 + i - 30))
