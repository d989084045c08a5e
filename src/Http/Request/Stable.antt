-- ===== src/Http/Request/Stable.antt =====
-- `parse_req` of src/server.cpp on a buffer that grows.
use mathlib.Core.Path.{subst}
use shrt_cpp.Prelude.{
  ℕ, ◌+◌, ◌^◌, ◌≤◌, ◌<◌, ◌++◌, Option, none, some, ◌≡◌, ◌≢◌, refl, sym, ap, ◌∙◌, arith, inl, inr,
  Option-cases, Bytes, length, length-append, drop,
}
use shrt_cpp.Http.Head.{crlf, split_seq}
use shrt_cpp.Http.Request.{
  ReqInfo, Fields, size_max, no_request, malformed, sized, parse_target, parse_method, parse_head,
  parse_req, body_of, max_bulk_body,
}
use shrt_cpp.Http.Head.Search.{
  drop-append, take-append, length-dropped, split_seq-length, split_seq-append,
}

-- A head that is taken out of a longer text with the same head is the same request.
sized-grow :
    (size more he : ℕ) (method path : Bytes) (f : Fields)
    → (sized size he method path f).total ≢ 0
    → sized (size + more) he method path f ≡ sized size he method path f
unfolding sized
sized-grow size more he method path f h = ground (arith, h)

parse_target-grow :
    (size more he : ℕ) (method : Bytes) (o : Option (Bytes × Bytes))
    → (parse_target size he method o).total ≢ 0
    → parse_target (size + more) he method o ≡ parse_target size he method o
unfolding parse_target
parse_target-grow size more he method none h = refl
parse_target-grow size more he method (some (path, rest)) h =
    sized-grow size more he method path _ h

parse_method-grow :
    (size more he : ℕ) (o : Option (Bytes × Bytes))
    → (parse_method size he o).total ≢ 0
    → parse_method (size + more) he o ≡ parse_method size he o
unfolding parse_method
parse_method-grow size more he none h = refl
parse_method-grow size more he (some (method, rest)) h = parse_target-grow size more he method _ h

parse_head-grow :
    (size more : ℕ) (head : Bytes)
    → (parse_head size head).total ≢ 0
    → parse_head (size + more) head ≡ parse_head size head
unfolding parse_head
parse_head-grow size more head h = parse_method-grow size more (length head) _ h

parse_req-none : (buf : Bytes) → split_seq (crlf ++ crlf) buf ≡ none → parse_req buf ≡ no_request
unfolding parse_req
parse_req-none buf e = rw (e, parse_req) refl

parse_req-some :
    (buf x y : Bytes)
    → split_seq (crlf ++ crlf) buf ≡ some (x, y)
    → parse_req buf ≡ parse_head (length buf) x
unfolding parse_req
parse_req-some buf x y e = rw (e, parse_req) refl

-- A request that is complete, or known to be malformed, stays what it is when more bytes arrive.
pub parse_req-append :
    (buf more : Bytes) → (parse_req buf).total ≢ 0 → parse_req (buf ++ more) ≡ parse_req buf
parse_req-append buf more h = elim (Option-cases (split_seq (crlf ++ crlf) buf)) [
  | inl e ↦ absurd (h (ap (λ (r : ReqInfo). r.total) (parse_req-none buf e)))
  | inr ((x, y), e) ↦
      let p = parse_req-some buf x y e in
      parse_req-some (buf ++ more) x (y ++ more)
        (split_seq-append (crlf ++ crlf) buf more x y (omega arith) e)
      ∙ ap (λ n. parse_head n x) (length-append buf more)
      ∙ parse_head-grow (length buf) (length more) x (λ z. h (ap (λ (r : ReqInfo). r.total) p ∙ z))
      ∙ sym p
]

-- What a complete request takes of the buffer, and where its body lies.
pub record IsComplete (size : ℕ) (ri : ReqInfo) : Type 0 where
  pub within : ri.total ≢ size_max → ri.total ≤ size
  pub body : ri.total ≢ size_max → ri.body_len ≤ max_bulk_body → ri.body_off + ri.body_len ≤ size

malformed-IsComplete : (size : ℕ) → IsComplete size malformed
malformed-IsComplete size = record { within = λ h. absurd (h refl); body = λ h. absurd (h refl) }

sized-IsComplete :
    (size he : ℕ) (method path : Bytes) (f : Fields)
    → he + 4 ≤ size
    → size < 2 ^ 63
    → (sized size he method path f).total ≢ 0
    → IsComplete size (sized size he method path f)
unfolding sized
sized-IsComplete size he method path f a b h = record {
  within = λ n. ground (arith, a, b, h);
  body = λ n k. ground (arith, a, b, h, k);
}

parse_target-IsComplete :
    (size he : ℕ) (method : Bytes) (o : Option (Bytes × Bytes))
    → he + 4 ≤ size
    → size < 2 ^ 63
    → (parse_target size he method o).total ≢ 0
    → IsComplete size (parse_target size he method o)
unfolding parse_target
parse_target-IsComplete size he method none a b h = malformed-IsComplete size
parse_target-IsComplete size he method (some (path, rest)) a b h =
    sized-IsComplete size he method path _ a b h

parse_method-IsComplete :
    (size he : ℕ) (o : Option (Bytes × Bytes))
    → he + 4 ≤ size
    → size < 2 ^ 63
    → (parse_method size he o).total ≢ 0
    → IsComplete size (parse_method size he o)
unfolding parse_method
parse_method-IsComplete size he none a b h = malformed-IsComplete size
parse_method-IsComplete size he (some (method, rest)) a b h =
    parse_target-IsComplete size he method _ a b h

pub parse_req-IsComplete :
    (buf : Bytes)
    → length buf < 2 ^ 63
    → (parse_req buf).total ≢ 0
    → IsComplete (length buf) (parse_req buf)
parse_req-IsComplete buf b h = elim (Option-cases (split_seq (crlf ++ crlf) buf)) [
  | inl e ↦ absurd (h (ap (λ (r : ReqInfo). r.total) (parse_req-none buf e)))
  | inr ((x, y), e) ↦
      let p = parse_req-some buf x y e in
      subst (IsComplete (length buf)) (sym p) (
        unfold parse_head in
        parse_method-IsComplete (length buf) (length x) _
          (split_seq-length (crlf ++ crlf) buf x y e) b
          (λ z. h (ap (λ (r : ReqInfo). r.total) p ∙ z)))
]

pub body_of-append :
    (ri : ReqInfo) (buf more : Bytes)
    → ri.body_off + ri.body_len ≤ length buf
    → body_of ri (buf ++ more) ≡ body_of ri buf
unfolding body_of
body_of-append ri buf more h = ground (
  arith,
  drop-append ri.body_off buf more (omega (arith, h)),
  take-append ri.body_len (drop ri.body_off buf) more
      (omega (arith, h, length-dropped ri.body_off buf (omega (arith, h)))),
)
