-- ===== src/Aof/Reader.antt =====
-- `TailReader::read_new` of src/aof.cpp over the polls of a growing log, and `replay_file`.
use shrt_cpp.Prelude.{
  ◌+◌, ◌-◌, ◌<◌, List, [], ◌∷◌, ◌++◌, append_assoc, append-nil, ◌≡◌, ◌≢◌, refl, ap, ◌∙◌, arith, inl,
  inr, Bool-cases, Bytes, All, All-append, length, length-append, take, drop, ◌==◌, if◌then◌else◌,
}
use shrt_cpp.Aof.{nl, TailReader, new_reader, scan_lines, replay_file, read_from, read_new}

-- Reading on behind a text is reading the rest with the text's leftover.
pub scan_lines-append :
    (s t cur : Bytes)
    → (scan_lines (s ++ t) cur).0 ≡ (scan_lines s cur).0 ++ (scan_lines t (scan_lines s cur).1).0
unfolding scan_lines
scan_lines-append [] t cur = refl
scan_lines-append (b ∷ s) t cur =
    ground (arith, scan_lines-append s t (if b == nl then [] else cur ++ b ∷ []))

pub scan_lines-append_rest :
    (s t cur : Bytes) → (scan_lines (s ++ t) cur).1 ≡ (scan_lines t (scan_lines s cur).1).1
unfolding scan_lines
scan_lines-append_rest [] t cur = refl
scan_lines-append_rest (b ∷ s) t cur =
    scan_lines-append_rest s t (if b == nl then [] else cur ++ b ∷ [])

abbrev pub NoBreak : Bytes → Type 0
NoBreak = All (λ b. b ≢ nl)

-- A text without a line break is carried into the current line.
pub scan_lines-NoBreak :
    (s t cur : Bytes) → NoBreak s → scan_lines (s ++ t) cur ≡ scan_lines t (cur ++ s)
unfolding scan_lines
scan_lines-NoBreak [] t cur h = rw append-nil
scan_lines-NoBreak (b ∷ s) t cur h =
    ground (arith, scan_lines-NoBreak s t (cur ++ b ∷ []) h.1, append_assoc cur (b ∷ []) s)

leftover-NoBreak : (s cur : Bytes) → NoBreak cur → NoBreak (scan_lines s cur).1
unfolding scan_lines
leftover-NoBreak [] cur h = h
leftover-NoBreak (b ∷ s) cur h = elim (Bool-cases (b == nl)) [
  | inl e ↦ rw e (leftover-NoBreak s [] tt)
  | inr e ↦
      rw e (leftover-NoBreak s (cur ++ b ∷ []) (All-append _ cur (b ∷ []) h (ground arith, tt)))
]

drop-length : (s t : Bytes) → drop (length s) (s ++ t) ≡ t
drop-length [] t = refl
drop-length (b ∷ s) t = drop-length s t

take-length : (s : Bytes) → take (length s) s ≡ s
take-length [] = refl
take-length (b ∷ s) = ap (λ r. b ∷ r) (take-length s)

-- What a poll reads of a log that grew by `more`.
new_bytes :
    (contents more : Bytes)
    → take (length (contents ++ more) - length contents) (drop (length contents) (contents ++ more))
      ≡ more
new_bytes contents more =
    rw drop-length
      (ap (λ n. take n more) (omega (arith, length-append contents more)) ∙ take-length more)

-- The reader has read all of `contents`.
pub record IsAt (r : TailReader) (contents : Bytes) : Type 0 where
  pub offset : r.offset ≡ length contents
  pub leftover : r.leftover ≡ (scan_lines contents []).1

scan_lines_rest :
    (contents more : Bytes)
    → scan_lines ((scan_lines contents []).1 ++ more) []
      ≡ scan_lines more (scan_lines contents []).1
scan_lines_rest contents more =
    scan_lines-NoBreak (scan_lines contents []).1 more [] (leftover-NoBreak contents [] tt)

abbrev IsGrown : TailReader → Bytes → Bytes → List Bytes × TailReader → Type 0
IsGrown r contents more result = result ≡ (
  (scan_lines more (scan_lines contents []).1).0,
  record {
    offset = length contents + length more;
    leftover = (scan_lines more (scan_lines contents []).1).1;
  },
)

read_from-more :
    (r : TailReader) (contents more : Bytes)
    → IsAt r contents
    → 0 < length more
    → IsGrown r contents more (read_from r (contents ++ more))
unfolding read_from
read_from-more r contents more at h =
    ground
      (arith, length-append contents more, new_bytes contents more, scan_lines_rest contents more)

read_new-more :
    (r : TailReader) (contents more : Bytes)
    → IsAt r contents
    → 0 < length more
    → IsGrown r contents more (read_new r (contents ++ more))
unfolding read_new
read_new-more r contents more at h =
    ground (arith, length-append contents more, read_from-more r contents more at h)

read_new_same :
    (r : TailReader) (contents : Bytes) → IsAt r contents → read_new r contents ≡ ([], r)
unfolding read_new read_from
read_new_same r contents at = ground arith

-- For a reader that stands at the end of a log, one poll of the log grown by `more` yields exactly the
-- lines that the growth completed, and leaves the reader at the end of the log.
pub read_new-append :
    (r : TailReader) (contents more : Bytes)
    → IsAt r contents
    → (replay_file contents ++ (read_new r (contents ++ more)).0 ≡ replay_file (contents ++ more))
      × IsAt (read_new r (contents ++ more)).1 (contents ++ more)
unfolding replay_file
read_new-append r contents [] at =
    rw (append-nil, read_new_same r contents at, append-nil) (refl, at)
read_new-append r contents (b ∷ more) at =
    let e = read_new-more r contents (b ∷ more) at (omega arith) in
    (
      cc (e, scan_lines-append contents (b ∷ more) []),
      record {
        offset = ground (arith, e, length-append contents (b ∷ more));
        leftover = cc (e, scan_lines-append_rest contents (b ∷ more) []);
      },
    )

-- The polls of a reader while the log grows by one chunk after another: all the lines they yield.
pub poll_all : TailReader → Bytes → List Bytes → List Bytes
poll_all r contents [] = []
poll_all r contents (chunk ∷ chunks) =
    let (lines, r') = read_new r (contents ++ chunk) in
    lines ++ poll_all r' (contents ++ chunk) chunks

abbrev pub grow : Bytes → List Bytes → Bytes
grow contents [] = contents
grow contents (chunk ∷ chunks) = grow (contents ++ chunk) chunks

poll_all_lem :
    (r : TailReader) (contents : Bytes) (chunks : List Bytes)
    → IsAt r contents
    → replay_file contents ++ poll_all r contents chunks ≡ replay_file (grow contents chunks)
unfolding poll_all
poll_all_lem r contents [] at = append-nil (replay_file contents)
poll_all_lem r contents (chunk ∷ chunks) at =
    let (lines, next) = read_new-append r contents chunk at in
    cc (
      lines,
      append_assoc (replay_file contents) (read_new r (contents ++ chunk)).0
          (poll_all (read_new r (contents ++ chunk)).1 (contents ++ chunk) chunks),
      poll_all_lem (read_new r (contents ++ chunk)).1 (contents ++ chunk) chunks next,
    )

-- However the appends to a log are cut into polls, torn lines included, a new reader yields the
-- lines that one replay of the whole log yields, in the same order.
pub poll_all-eq-replay_file :
    (chunks : List Bytes) → poll_all new_reader [] chunks ≡ replay_file (grow [] chunks)
unfolding replay_file scan_lines
poll_all-eq-replay_file chunks =
    poll_all_lem new_reader [] chunks (record { offset = refl; leftover = refl })
