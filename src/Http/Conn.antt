-- ===== src/Http/Conn.antt =====
-- `conn_loop` of src/server.cpp, without its sockets: the requests in the bytes received so far, one
-- after the other, with their replies.
pub mod Along
pub mod Chunks
pub mod Sessions
pub mod Queue
use shrt_cpp.Prelude.{
  ℕ, zero, suc, Bool, true, false, ◌&&◌, List, [], ◌∷◌, ◌++◌, Bytes, codes, length, drop, ltb, ◌==◌,
}
use shrt_cpp.App.Reply.{Reply, mk, json_error}
use shrt_cpp.App.Route.{Backend, Env, Outcome, route}
use shrt_cpp.Http.Request.{ReqInfo, size_max, needs_body, parse_req, body_of, body_limit, client_ip}
use shrt_cpp.Http.Wire.{write_reply}

-- What one run of the inner loop over the buffered requests comes to, with the replies in `out`: it
-- waits for more with the bytes that are left, it closes behind the replies, it drops the connection and
-- these replies, the handler throws, or the handler does not return.
pub data Progress (S : Type 0) : Type 0 where
  waiting : Bytes → Bytes → S → Progress S
  closing : Bytes → S → Progress S
  dropped : Bytes → S → Progress S
  crashed : Bytes → Progress S
  stuck : Bytes → Progress S

-- A connection, with the replies sent to the client: it is open with the bytes that are left; it was
-- closed behind the replies; or it ended with replies that were written and not sent.
pub data Session (S : Type 0) : Type 0 where
  live : Bytes → Bytes → S → Session S
  closed : Bytes → S → Session S
  dropped : Bytes → Bytes → S → Session S
  crashed : Bytes → Bytes → Session S
  stuck : Bytes → Bytes → Session S

-- CORS_ORIGIN, TRUST_PROXY and the peer's address.
pub record Link : Type 0 where
  pub origin : Bytes
  pub trust : Bool
  pub peer : Bytes

abbrev pub too_large : Reply
too_large = mk 413 (json_error (codes "body too large"))

module _ {S : Type 0} where
  unfoldable pub prepend : Bytes → Progress S → Progress S
  prepend out (Progress.waiting rest more s) = Progress.waiting rest (out ++ more) s
  prepend out (Progress.closing more s) = Progress.closing (out ++ more) s
  prepend out (Progress.dropped more s) = Progress.dropped (out ++ more) s
  prepend out (Progress.crashed more) = Progress.crashed (out ++ more)
  prepend out (Progress.stuck more) = Progress.stuck (out ++ more)

  -- What becomes of `out` behind the inner loop, where `sent` went out in the rounds before.
  unfoldable pub after_round : Bytes → Progress S → Session S
  after_round sent (Progress.waiting rest out s) = Session.live rest (sent ++ out) s
  after_round sent (Progress.closing out s) = Session.closed (sent ++ out) s
  after_round sent (Progress.dropped out s) = Session.dropped sent out s
  after_round sent (Progress.crashed out) = Session.crashed sent out
  after_round sent (Progress.stuck out) = Session.stuck sent out

module _ {S : Type 0} (st : Backend S) (env : Env) (link : Link) where
  -- Behind the handler's answer to the request at the front of `buf`; `rec_` is the rest of the loop.
  unfoldable pub after_answer : (Bytes → S → Progress S) → ReqInfo → Bytes → Outcome S → Progress S
  after_answer rec_ ri buf (Outcome.answer r s) =
      prepend (write_reply link.origin r)
        (elim ri.alive [ true ↦ rec_ (drop ri.total buf) s | false ↦ Progress.closing [] s ])
  after_answer rec_ ri buf Outcome.threw = Progress.crashed []
  after_answer rec_ ri buf Outcome.looping = Progress.stuck []

  unfoldable pub serve_one : (Bytes → S → Progress S) → ReqInfo → Bytes → S → Progress S
  serve_one rec_ ri buf s = elim (ri.total == 0) [
    | true ↦ Progress.waiting buf [] s
    | false ↦ elim (ri.total == size_max) [
      | true ↦ Progress.dropped [] s
      | false ↦ elim (needs_body ri.method && ltb (body_limit ri.path) ri.body_len) [
        | true ↦ Progress.closing (write_reply link.origin too_large) s
        | false ↦ after_answer rec_ ri buf (
            route st env ri.method ri.path (body_of ri buf) ri.admin
              (client_ip link.trust ri link.peer) s)
      ]
    ]
  ]

  unfoldable pub serve_loop : ℕ → Bytes → S → Progress S
  serve_loop zero buf s = Progress.waiting buf [] s
  serve_loop (suc fuel) buf s = serve_one (serve_loop fuel) (parse_req buf) buf s

  -- Every request takes at least one byte, so the loop is bounded by the buffer's length.
  unfoldable pub serve : Bytes → S → Progress S
  serve buf s = serve_loop (length buf) buf s

  -- The next bytes of the connection arrive: where the inner loop ends, `out` is sent, and where it
  -- drops the connection, throws or does not return, `out` is lost.
  unfoldable pub receive : Bytes → Session S → Session S
  receive more (Session.live rest sent s) = after_round sent (serve (rest ++ more) s)
  receive more c = c

  unfoldable pub receive_all : List Bytes → Session S → Session S
  receive_all [] c = c
  receive_all (chunk ∷ chunks) c = receive_all chunks (receive chunk c)
