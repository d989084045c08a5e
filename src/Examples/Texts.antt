-- ===== src/Examples/Texts.antt =====
-- Concrete runs of the theorems on log lines, numbers, buffers and stored values.
use shrt_cpp.Prelude.{
  false, ℕ, ◌-◌, ◌^◌, true, not, [], ◌∷◌, ◌++◌, none, some, ◌≡◌, refl, arith, Bytes, codes, take,
  to_int, add64, if◌then◌else◌, ◌==◌,
}
use shrt_cpp.Codec.Escape.{esc, unescape}
use shrt_cpp.Codec.Escape.RoundTrip.{unescape-esc}
use shrt_cpp.Codec.Line.{row_line, hit_line, del_line}
use shrt_cpp.Codec.Parse.{no_op, has_subject, read_fields, parse_op}
use shrt_cpp.Codec.Parse.Fuel.{parse_op_fuel}
use shrt_cpp.Codec.Parse.RoundTrip.{parse_op-row_line, parse_op-hit_line, parse_op-del_line}
use shrt_cpp.Aof
use shrt_cpp.Aof.{Aof, nl, new_reader, read_new, replay_file, scan_lines}
use shrt_cpp.Aof.Claim.{Locks}
use shrt_cpp.Aof.Flush.{flush_all, flush_prefix, flush_failed}
use shrt_cpp.Aof.Reader.{IsAt, read_new-append, poll_all, poll_all-eq-replay_file}
use shrt_cpp.Store.State.{entry?}
use shrt_cpp.Store.Apply.{apply_line}
use shrt_cpp.Store.Index.{stray_of}
use shrt_cpp.Store.Forgets.{apply_line-row}
use shrt_cpp.Store.History.{new_store}
use shrt_cpp.Kv.Value.{enc, dec}
use shrt_cpp.Kv.Value.RoundTrip.{dec-enc}
use shrt_cpp.Kv.Resp.{array, frame, read_resp}
use shrt_cpp.Kv.Resp.RoundTrip.{bulks, read_resp-frame}

abbrev code_xy : Bytes
code_xy = codes "x-Y"

-- A url with a quote and a line feed in it.
abbrev odd_url : Bytes
odd_url = codes "http://h/" ++ (0x22 ∷ 10 ∷ [])

parse_op-row_line_example :
    parse_op (row_line code_xy odd_url 1000 0 3 12)
    ≡ some (record no_op {
      c = code_xy;
      u = odd_url;
      a = 1000;
      e = 0;
      i = 3;
      n = 12;
      has_e = not (0 == 0);
    })
parse_op-row_line_example =
    parse_op-row_line code_xy odd_url 1000 0 3 12 (cc) (ground arith) (omega arith) (omega arith)
      (omega arith) (omega arith)

parse_op-hit_line_example :
    parse_op (hit_line code_xy 2 3) ≡ some (record no_op { h = code_xy; d = 2; i = 3 })
parse_op-hit_line_example =
    parse_op-hit_line code_xy 2 3 (cc) (ground arith) (omega arith) (omega arith)

parse_op-del_line_example : parse_op (del_line code_xy) ≡ some (record no_op { x = code_xy })
parse_op-del_line_example = parse_op-del_line code_xy (cc) (ground arith)

parse_op_fuel_example :
    parse_op (del_line code_xy) ≡ elim (read_fields 100 (del_line code_xy) no_op) [
      | none ↦ none
      | some o ↦ if has_subject o then some o else none
    ]
parse_op_fuel_example = parse_op_fuel (del_line code_xy) 100 (unfold del_line in omega arith)

unescape-esc_example : unescape (esc odd_url) ≡ odd_url
unescape-esc_example = unescape-esc odd_url

-- The least int64_t.
dec-enc_example :
    dec (enc 5 (2 ^ 64 - 1) (codes "a|b"))
    ≡ some (record { e = 5; c = 2 ^ 64 - 1; u = codes "a|b" })
dec-enc_example = dec-enc 5 (2 ^ 64 - 1) (codes "a|b") (omega arith) (omega arith)

abbrev queued : Aof
queued = record { buf = codes "abcdef"; is_open = true; file = codes "x" }

flush_all_example :
    Aof.flush (λ k. 2) queued ≡ record queued { buf = []; file = codes "x" ++ codes "abcdef" }
flush_all_example = flush_all (λ k. 2) queued (λ k. omega arith) refl

flush_prefix_example :
    (n : ℕ) × ((Aof.flush (λ k. 2) queued).file ≡ codes "x" ++ take n (codes "abcdef"))
flush_prefix_example = flush_prefix (λ k. 2) queued

flush_failed_example : Aof.flush (λ k. 0) queued ≡ record queued { buf = [] }
flush_failed_example = flush_failed (λ k. 0) queued refl refl

-- A torn line, then its end and the start of the next one.
read_new-append_example :
    (replay_file [] ++ (read_new new_reader ([] ++ codes "ab")).0 ≡ replay_file ([] ++ codes "ab"))
    × IsAt (read_new new_reader ([] ++ codes "ab")).1 ([] ++ codes "ab")
read_new-append_example =
    read_new-append new_reader [] (codes "ab")
      (record { offset = refl; leftover = unfold scan_lines in refl })

poll_all-eq-replay_file_example :
    poll_all new_reader [] (codes "ab" ∷ (b'c' ∷ nl ∷ b'd' ∷ []) ∷ [])
    ≡ replay_file (codes "abc" ++ nl ∷ b'd' ∷ [])
poll_all-eq-replay_file_example =
    poll_all-eq-replay_file (codes "ab" ∷ (b'c' ∷ nl ∷ b'd' ∷ []) ∷ [])

apply_line-row_example :
    entry? code_xy (apply_line (row_line code_xy odd_url 1000 0 3 12) (new_store 0 1))
    ≡ some (record {
      u = odd_url;
      a = 1000;
      e = 0;
      i = to_int 3;
      h = add64 12 (stray_of code_xy (new_store 0 1)).t;
      oh = add64 12 (stray_of code_xy (new_store 0 1)).o;
    })
apply_line-row_example =
    apply_line-row code_xy odd_url 1000 0 3 12 (new_store 0 1)
      (record { filled = cc; plain = ground arith }) (omega arith) (omega arith) (omega arith)
      (omega arith)

read_resp-frame_example :
    read_resp 2 (frame (codes "GET" ∷ codes "l:abc" ∷ []) ++ [])
    ≡ some (array (bulks (codes "GET" ∷ codes "l:abc" ∷ [])), [])
read_resp-frame_example =
    read_resp-frame (codes "GET" ∷ codes "l:abc" ∷ []) 0 [] (omega arith) (ground arith)

-- Every lock file is left by the dead process 77.
abbrev stale_locks : Locks
stale_locks = record {
  created = λ i. false;
  contents = λ i. some (codes "77");
  created_again = λ i. true;
  pid_alive = λ pid. false;
}
