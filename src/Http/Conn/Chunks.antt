-- ===== src/Http/Conn/Chunks.antt =====
-- The inner loop of `conn_loop` of src/server.cpp over the pieces in which bytes arrive.
use mathlib.Core.Path.{subst}
use shrt_cpp.Prelude.{
  ℕ, zero, suc, ◌^◌, ◌≤◌, ◌<◌, List, [], ◌∷◌, ◌++◌, append_assoc, append-nil, ◌≡◌, ◌≢◌, refl, sym,
  ap, ◌∙◌, arith, inl, inr, Bool-cases, Bytes, length, length-append, drop, starts_with, ==_iff,
  ◌==◌,
}
use shrt_cpp.App.Route.{Backend, Env}
use shrt_cpp.Http.Head.{split_seq}
use shrt_cpp.Http.Head.Search.{drop-append}
use shrt_cpp.Http.Request.{ReqInfo, size_max, parse_req}
use shrt_cpp.Http.Request.Stable.{parse_req-append, parse_req-IsComplete}
use shrt_cpp.Http.Conn.{Progress, Link, prepend, serve_one, serve_loop, serve}
use shrt_cpp.Http.Conn.Along.{
  prepend-nil, prepend-append, body_of_short, join, not_zero, left-lt, shorter, IsFinal,
  serve_one-along, same-IsFinal,
}

module _ {S : Type 0} (st : Backend S) (env : Env) (link : Link) where
  -- A piece arrives at the end of a round, with the replies of both rounds put together.
  unfoldable pub take_piece : Bytes → Progress S → Progress S
  take_piece more (Progress.waiting rest out s) = prepend out (serve st env link (rest ++ more) s)
  take_piece more p = p

  unfoldable pub take_all : List Bytes → Progress S → Progress S
  take_all [] p = p
  take_all (chunk ∷ chunks) p = take_all chunks (take_piece chunk p)

  take_piece-prepend :
      (more w : Bytes) (p : Progress S)
      → take_piece more (prepend w p) ≡ prepend w (take_piece more p)
  unfolding take_piece prepend
  take_piece-prepend more w (Progress.waiting rest out s) = prepend-append w out _
  take_piece-prepend more w (Progress.closing out s) = refl
  take_piece-prepend more w (Progress.dropped out s) = refl
  take_piece-prepend more w (Progress.crashed out) = refl
  take_piece-prepend more w (Progress.stuck out) = refl

  take_piece-IsFinal : (more : Bytes) → IsFinal st env link (take_piece more)
  take_piece-IsFinal more = record {
    over_prepend = take_piece-prepend more;
    over_closing = λ w s. unfold take_piece in refl;
    over_dropped = λ s. unfold take_piece in refl;
    over_crashed = unfold take_piece in refl;
    over_stuck = unfold take_piece in refl;
  }

  serve_one_empty :
      (rec_ : Bytes → S → Progress S) (ri : ReqInfo) (buf : Bytes) (s : S)
      → ri.total ≡ 0
      → serve_one st env link rec_ ri buf s ≡ Progress.waiting buf [] s
  unfolding serve_one
  serve_one_empty rec_ ri buf s h = rw ((==_iff ri.total 0).1 h, serve_one) refl

  -- The loop does the same on any fuel that is at least the length of the buffer.
  serve_loop_fuel :
      (f g : ℕ) (buf : Bytes) (s : S)
      → length buf < 2 ^ 63
      → length buf ≤ f
      → length buf ≤ g
      → serve_loop st env link f buf s ≡ serve_loop st env link g buf s
  unfolding serve_loop
  serve_loop_fuel zero zero buf s b hf hg = refl
  serve_loop_fuel zero (suc g) [] s b hf hg =
      sym (serve_one_empty _ (parse_req []) [] s (unfold parse_req split_seq starts_with in refl))
  serve_loop_fuel zero (suc g) (c ∷ buf) s b hf hg = absurd (omega arith)
  serve_loop_fuel (suc f) zero [] s b hf hg =
      serve_one_empty _ (parse_req []) [] s (unfold parse_req split_seq starts_with in refl)
  serve_loop_fuel (suc f) zero (c ∷ buf) s b hf hg = absurd (omega arith)
  serve_loop_fuel (suc f) (suc g) buf s b hf hg = elim (Bool-cases ((parse_req buf).total == 0)) [
    | inl e ↦
        serve_one_empty _ (parse_req buf) buf s ((==_iff (parse_req buf).total 0).0 e)
        ∙ sym (serve_one_empty _ (parse_req buf) buf s ((==_iff (parse_req buf).total 0).0 e))
    | inr e ↦
        let z = not_zero (parse_req buf) e in
        serve_one-along st env link (λ p. p) (serve_loop st env link g) (serve_loop st env link f)
          (parse_req buf) buf buf s (same-IsFinal st env link) z (λ n q. refl)
          (λ n t.
            serve_loop_fuel f g (drop (parse_req buf).total buf) t
              (omega (arith, b, left-lt buf b z n)) (omega (arith, hf, left-lt buf b z n))
              (omega (arith, hg, left-lt buf b z n)))
  ]

  serve_none :
      (fuel : ℕ) (buf : Bytes) (s : S)
      → (parse_req buf).total ≡ 0
      → serve_loop st env link fuel buf s ≡ Progress.waiting buf [] s
  unfolding serve_loop
  serve_none zero buf s h = refl
  serve_none (suc fuel) buf s h = serve_one_empty _ (parse_req buf) buf s h

  take_piece-waiting :
      (more rest out : Bytes) (s : S)
      → take_piece more (Progress.waiting rest out s)
        ≡ prepend out (serve_loop st env link (length (rest ++ more)) (rest ++ more) s)
  unfolding take_piece serve
  take_piece-waiting more rest out s = refl

  Agrees : ℕ → ℕ → Bytes → Bytes → S → Type 0
  Agrees f g buf more s =
      serve_loop st env link g (buf ++ more) s ≡ take_piece more (serve_loop st env link f buf s)

  none_yet :
      (f g : ℕ) (buf more : Bytes) (s : S)
      → length (buf ++ more) < 2 ^ 63
      → length (buf ++ more) ≤ g
      → (parse_req buf).total ≡ 0
      → Agrees f g buf more s
  unfolding Agrees
  none_yet f g buf more s b hg e =
      serve_loop_fuel g (length (buf ++ more)) (buf ++ more) s b hg (omega arith)
      ∙ sym (prepend-nil _)
      ∙ sym (take_piece-waiting more buf [] s)
      ∙ ap (take_piece more) (sym (serve_none f buf s e))

  parse_req-nil : (parse_req []).total ≡ 0
  unfolding parse_req split_seq starts_with
  parse_req-nil = refl

  served_more :
      (f g : ℕ) (buf more : Bytes) (s : S)
      → length (buf ++ more) < 2 ^ 63
      → (parse_req buf).total ≢ 0
      → ((parse_req buf).total ≢ size_max
          → (t : S)
          → serve_loop st env link g (drop (parse_req buf).total (buf ++ more)) t
            ≡ take_piece more (serve_loop st env link f (drop (parse_req buf).total buf) t))
      → Agrees (suc f) (suc g) buf more s
  unfolding Agrees serve_loop
  served_more f g buf more s b z h =
      ap (λ ri. serve_one st env link (serve_loop st env link g) ri (buf ++ more) s)
        (parse_req-append buf more z)
      ∙ serve_one-along st env link (take_piece more) (serve_loop st env link f)
          (serve_loop st env link g) (parse_req buf) buf (buf ++ more) s (take_piece-IsFinal more) z
          (λ n q.
            body_of_short (parse_req buf) buf more (parse_req-IsComplete buf (shorter buf more b) z)
              n q)
          h

  serve_loop-append :
      (f g : ℕ) (buf more : Bytes) (s : S)
      → length (buf ++ more) < 2 ^ 63
      → length buf ≤ f
      → length (buf ++ more) ≤ g
      → Agrees f g buf more s
  unfolding Agrees
  serve_loop-append f g [] more s b hf hg = none_yet f g [] more s b hg parse_req-nil
  serve_loop-append zero g (c ∷ buf) more s b hf hg = absurd (omega arith)
  serve_loop-append (suc f) zero (c ∷ buf) more s b hf hg = absurd (omega arith)
  serve_loop-append (suc f) (suc g) (c ∷ buf) more s b hf hg =
      elim (Bool-cases ((parse_req (c ∷ buf)).total == 0)) [
        | inl e ↦
            none_yet (suc f) (suc g) (c ∷ buf) more s b hg
              ((==_iff (parse_req (c ∷ buf)).total 0).0 e)
        | inr e ↦
            let z = not_zero (parse_req (c ∷ buf)) e in
            served_more f g (c ∷ buf) more s b z λ n t.
              let b' = shorter (c ∷ buf) more b in
              let w = (parse_req-IsComplete (c ∷ buf) b' z).within n in
              ap (λ r. serve_loop st env link g r t)
                (drop-append (parse_req (c ∷ buf)).total (c ∷ buf) more w)
              ∙ serve_loop-append f g (drop (parse_req (c ∷ buf)).total (c ∷ buf)) more t
                  (omega (
                    arith,
                    b,
                    length-append (drop (parse_req (c ∷ buf)).total (c ∷ buf)) more,
                    length-append (c ∷ buf) more,
                    left-lt (c ∷ buf) b' z n,
                  ))
                  (omega (arith, hf, left-lt (c ∷ buf) b' z n))
                  (omega (
                    arith,
                    hg,
                    length-append (drop (parse_req (c ∷ buf)).total (c ∷ buf)) more,
                    length-append (c ∷ buf) more,
                    left-lt (c ∷ buf) b' z n,
                  ))
      ]

  take_piece-serve :
      (buf more : Bytes) (s : S)
      → length (buf ++ more) < 2 ^ 63
      → take_piece more (serve st env link buf s) ≡ serve st env link (buf ++ more) s
  unfolding serve Agrees
  take_piece-serve buf more s b = sym (
      serve_loop-append (length buf) (length (buf ++ more)) buf more s b (omega arith)
        (omega arith))

  taken_all_from :
      (buf : Bytes) (chunks : List Bytes) (s : S)
      → length (buf ++ join chunks) < 2 ^ 63
      → take_all chunks (serve st env link buf s) ≡ serve st env link (buf ++ join chunks) s
  unfolding take_all join
  taken_all_from buf [] s b = ap (λ r. serve st env link r s) (sym (append-nil buf))
  taken_all_from buf (chunk ∷ chunks) s b =
      let e = append_assoc buf chunk (join chunks) in
      let b' = subst (λ r. length r < 2 ^ 63) (sym e) b in
      ap (take_all chunks) (take_piece-serve buf chunk s (shorter (buf ++ chunk) (join chunks) b'))
      ∙ taken_all_from (buf ++ chunk) chunks s b'
      ∙ ap (λ r. serve st env link r s) e

  pub taken_all-serve :
      (chunks : List Bytes) (s : S)
      → length (join chunks) < 2 ^ 63
      → take_all chunks (Progress.waiting [] [] s) ≡ serve st env link (join chunks) s
  unfolding serve
  taken_all-serve chunks s b =
      ap (take_all chunks) (sym (serve_none 0 [] s parse_req-nil)) ∙ taken_all_from [] chunks s b
