-- ===== src/Http/Conn/Along.antt =====
-- `conn_loop` of src/server.cpp on a longer buffer, from what it does to a shorter one.
use shrt_cpp.Prelude.{
  ◌^◌, ◌≤◌, ◌<◌, false, ◌&&◌, List, [], ◌∷◌, ◌++◌, append_assoc, ◌≡◌, ◌≢◌, refl, sym, ap, ◌∙◌,
  arith, inl, inr, Bool-cases, Bytes, length, length-append, drop, ltb, ==_ne, ◌==◌,
}
use shrt_cpp.App.Route.{Backend, Env, Outcome, route}
use shrt_cpp.Http.Head.Search.{length-dropped}
use shrt_cpp.Http.Request.{
  ReqInfo, size_max, needs_body, parse_req, body_of, body_limit, max_bulk_body, client_ip,
}
use shrt_cpp.Http.Request.Stable.{IsComplete, parse_req-IsComplete, body_of-append}
use shrt_cpp.Http.Wire.{write_reply}
use shrt_cpp.Http.Conn.{Progress, Link, prepend, after_answer, serve_one}

module _ {S : Type 0} where
  pub prepend-nil : (p : Progress S) → prepend [] p ≡ p
  unfolding prepend
  prepend-nil (Progress.waiting rest out s) = refl
  prepend-nil (Progress.closing out s) = refl
  prepend-nil (Progress.dropped out s) = refl
  prepend-nil (Progress.crashed out) = refl
  prepend-nil (Progress.stuck out) = refl

  pub prepend-append : (a b : Bytes) (p : Progress S) → prepend (a ++ b) p ≡ prepend a (prepend b p)
  unfolding prepend
  prepend-append a b (Progress.waiting rest out s) =
      ap (λ o. Progress.waiting rest o s) (append_assoc a b out)
  prepend-append a b (Progress.closing out s) =
      ap (λ o. Progress.closing o s) (append_assoc a b out)
  prepend-append a b (Progress.dropped out s) =
      ap (λ o. Progress.dropped o s) (append_assoc a b out)
  prepend-append a b (Progress.crashed out) = ap Progress.crashed (append_assoc a b out)
  prepend-append a b (Progress.stuck out) = ap Progress.stuck (append_assoc a b out)

pub body_limit-le : (path : Bytes) → body_limit path ≤ max_bulk_body
unfolding body_limit
body_limit-le path = ground arith

pub body_of_short :
    (ri : ReqInfo) (buf more : Bytes)
    → IsComplete (length buf) ri
    → ri.total ≢ size_max
    → (needs_body ri.method && ltb (body_limit ri.path) ri.body_len) ≡ false
    → body_of ri (buf ++ more) ≡ body_of ri buf
body_of_short ri buf more c n h = elim (Bool-cases (needs_body ri.method)) [
  | inl e ↦ body_of-append ri buf more (c.body n (ground (arith, e, h, body_limit-le ri.path)))
  | inr e ↦ unfold body_of in ground (arith, e)
]

unfoldable pub join : List Bytes → Bytes
join [] = []
join (c ∷ cs) = c ++ join cs

pub not_max : (ri : ReqInfo) → (ri.total == size_max) ≡ false → ri.total ≢ size_max
not_max ri e h = ground (arith, e, h)

pub not_zero : (ri : ReqInfo) → (ri.total == 0) ≡ false → ri.total ≢ 0
not_zero ri e h = ground (arith, e, h)

pub left-lt :
    (buf : Bytes)
    → length buf < 2 ^ 63
    → (parse_req buf).total ≢ 0
    → (parse_req buf).total ≢ size_max
    → length (drop (parse_req buf).total buf) < length buf
left-lt buf b z n =
    let w = (parse_req-IsComplete buf b z).within n in
    omega (arith, w, z, length-dropped (parse_req buf).total buf w)

pub shorter : (buf more : Bytes) → length (buf ++ more) < 2 ^ 63 → length buf < 2 ^ 63
shorter buf more b = omega (arith, b, length-append buf more)

module _ {S : Type 0} (st : Backend S) (env : Env) (link : Link) where
  -- What the loop does to a longer buffer follows from what it does to a shorter one, where the rest of
  -- the loop agrees along `f` and `f` lets a finished connection be.
  pub record IsFinal (f : Progress S → Progress S) : Type 0 where
    pub over_prepend : (w : Bytes) (p : Progress S) → f (prepend w p) ≡ prepend w (f p)
    pub over_closing : (w : Bytes) (s : S) → f (Progress.closing w s) ≡ Progress.closing w s
    pub over_dropped : (s : S) → f (Progress.dropped [] s) ≡ Progress.dropped [] s
    pub over_crashed : f (Progress.crashed []) ≡ Progress.crashed []
    pub over_stuck : f (Progress.stuck []) ≡ Progress.stuck []

  pub after_answer-along :
      (f : Progress S → Progress S) (rec_ rec' : Bytes → S → Progress S) (ri : ReqInfo)
      (buf buf' : Bytes) (o : Outcome S)
      → IsFinal f
      → ((s : S) → rec' (drop ri.total buf') s ≡ f (rec_ (drop ri.total buf) s))
      → after_answer st env link rec' ri buf' o ≡ f (after_answer st env link rec_ ri buf o)
  unfolding after_answer
  after_answer-along f rec_ rec' ri buf buf' (Outcome.answer r s) k h = elim (Bool-cases ri.alive) [
    | inl e ↦
        rw (e, after_answer)
          (ap (prepend (write_reply link.origin r)) (h s) ∙ sym (k.over_prepend _ _))
    | inr e ↦
        rw (e, after_answer)
          (ap (prepend (write_reply link.origin r)) (sym (k.over_closing [] s))
            ∙ sym (k.over_prepend _ _))
  ]
  after_answer-along f rec_ rec' ri buf buf' Outcome.threw k h = sym k.over_crashed
  after_answer-along f rec_ rec' ri buf buf' Outcome.looping k h = sym k.over_stuck

  pub serve_one-along :
      (f : Progress S → Progress S) (rec_ rec' : Bytes → S → Progress S) (ri : ReqInfo)
      (buf buf' : Bytes) (s : S)
      → IsFinal f
      → ri.total ≢ 0
      → (ri.total ≢ size_max
          → (needs_body ri.method && ltb (body_limit ri.path) ri.body_len) ≡ false
          → body_of ri buf' ≡ body_of ri buf)
      → (ri.total ≢ size_max
          → (t : S) → rec' (drop ri.total buf') t ≡ f (rec_ (drop ri.total buf) t))
      → serve_one st env link rec' ri buf' s ≡ f (serve_one st env link rec_ ri buf s)
  unfolding serve_one
  serve_one-along f rec_ rec' ri buf buf' s k z hb hr = elim (Bool-cases (ri.total == size_max)) [
    | inl e ↦ rw (==_ne ri.total 0 z, e, serve_one) (sym (k.over_dropped s))
    | inr e ↦ elim (Bool-cases (needs_body ri.method && ltb (body_limit ri.path) ri.body_len)) [
      | inl b ↦ rw (==_ne ri.total 0 z, e, b, serve_one) (sym (k.over_closing _ s))
      | inr b ↦
          rw (==_ne ri.total 0 z, e, b, serve_one)
            (ap
                (λ body. after_answer st env link rec' ri buf' (
                  route st env ri.method ri.path body ri.admin (client_ip link.trust ri link.peer)
                    s))
                (hb (not_max ri e) b)
              ∙ after_answer-along f rec_ rec' ri buf buf' _ k (hr (not_max ri e)))
    ]
  ]

  pub same-IsFinal : IsFinal (λ p. p)
  same-IsFinal = record {
    over_prepend = λ w p. refl;
    over_closing = λ w s. refl;
    over_dropped = λ s. refl;
    over_crashed = refl;
    over_stuck = refl;
  }
