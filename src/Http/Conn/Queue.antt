-- ===== src/Http/Conn/Queue.antt =====
-- One connection of the kqueue loop of src/server.cpp, and the events that reach it.
pub mod Interest
use shrt_cpp.Prelude.{
  ℕ, zero, suc, Bool, true, false, ◌&&◌, ◌||◌, not, [], ◌++◌, Bytes, is_empty, length, drop, ltb,
  ◌==◌, if◌then◌else◌,
}
use shrt_cpp.App.Route.{Backend, Env, Outcome, route}
use shrt_cpp.Http.Request.{ReqInfo, size_max, needs_body, parse_req, body_of, body_limit, client_ip}
use shrt_cpp.Http.Wire.{write_reply}
use shrt_cpp.Http.Conn.{Link, too_large}

pub record KqConn : Type 0 where
  pub rbuf : Bytes
  pub wbuf : Bytes
  pub close_after : Bool
  pub want_write : Bool

abbrev pub accepted : KqConn
accepted = record { rbuf = []; wbuf = []; close_after = false; want_write = false }

-- What the loop over the requests, and an event, come to: the connection stays, it is closed, the
-- handler throws, or the handler does not return.
pub data Step (S : Type 0) : Type 0 where
  kept : KqConn → S → Step S
  closed : S → Step S
  crashed : Step S
  stuck : Step S

-- An event for reading brings the bytes that are there, and whether the other side has ended; one for
-- writing what send(2) does: the bytes that it takes, a failure that passes (EAGAIN, EINTR), or another.
pub data Sent : Type 0 where
  took : ℕ → Sent
  again : Sent
  failed : Sent

pub data Event : Type 0 where
  readable : Bytes → Bool → Event
  writable : Sent → Event

module _ {S : Type 0} (st : Backend S) (env : Env) (link : Link) where
  unfoldable pub answered : (KqConn → S → Step S) → ReqInfo → KqConn → Outcome S → Step S
  answered rec_ ri cn (Outcome.answer r s) =
      let cn' = record cn {
        rbuf = drop ri.total cn.rbuf;
        wbuf = cn.wbuf ++ write_reply link.origin r;
      } in
      elim ri.alive [ true ↦ rec_ cn' s | false ↦ kept (record cn' { close_after = true }) s ]
  answered rec_ ri cn Outcome.threw = crashed
  answered rec_ ri cn Outcome.looping = stuck

  unfoldable pub one : (KqConn → S → Step S) → ReqInfo → KqConn → S → Step S
  one rec_ ri cn s = elim (ri.total == 0) [
    | true ↦ kept cn s
    | false ↦ elim (ri.total == size_max) [
      | true ↦ kept (record cn { wbuf = []; close_after = true }) s
      | false ↦ elim (needs_body ri.method && ltb (body_limit ri.path) ri.body_len) [
        | true ↦
            kept
              (record cn {
                wbuf = cn.wbuf ++ write_reply link.origin too_large;
                close_after = true;
              })
              s
        | false ↦ answered rec_ ri cn (
            route st env ri.method ri.path (body_of ri cn.rbuf) ri.admin
              (client_ip link.trust ri link.peer) s)
      ]
    ]
  ]

  -- Bounded by the buffer's length, since every request takes at least one byte.
  unfoldable pub requests : ℕ → KqConn → S → Step S
  requests zero cn s = kept cn s
  requests (suc fuel) cn s = one (requests fuel) (parse_req cn.rbuf) cn s

  -- The write event is asked for where there is output.
  unfoldable pub arm : Step S → Step S
  arm (kept cn s) = kept (record cn { want_write = cn.want_write || not (is_empty cn.wbuf) }) s
  arm p = p

  -- And it is given up where there is none left.
  unfoldable pub disarm : KqConn → KqConn
  disarm cn = record cn { want_write = cn.want_write && not (is_empty cn.wbuf) }

  unfoldable pub finish : Step S → Step S
  finish (kept cn s) = if cn.close_after && is_empty cn.wbuf then closed s else kept cn s
  finish p = p

  unfoldable pub read : Bytes → Bool → KqConn → S → Step S
  read bytes ended cn s =
      let cn' = record cn { rbuf = cn.rbuf ++ bytes; close_after = cn.close_after || ended } in
      arm (requests (length cn'.rbuf) cn' s)

  unfoldable pub written : Sent → KqConn → S → Step S
  written (took n) cn s = kept (disarm (record cn { wbuf = drop n cn.wbuf })) s
  written again cn s = kept (disarm cn) s
  written failed cn s = closed s

  unfoldable pub handle : Event → KqConn → S → Step S
  handle (readable bytes ended) cn s = read bytes ended cn s
  handle (writable w) cn s = if is_empty cn.wbuf then kept cn s else written w cn s

  abbrev pub is_writable : Event → Bool
  is_writable (readable bytes ended) = false
  is_writable (writable w) = true

  -- `gone` is EV_EOF or EV_ERROR.
  unfoldable pub on_event : Bool → Event → KqConn → S → Step S
  on_event gone e cn s =
      if gone && (is_writable e || is_empty cn.wbuf) then closed s else finish (handle e cn s)
