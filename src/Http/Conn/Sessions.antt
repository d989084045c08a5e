-- ===== src/Http/Conn/Sessions.antt =====
-- `conn_loop` of src/server.cpp over the pieces in which the bytes of a connection arrive: what is sent.
use shrt_cpp.Prelude.{◌++◌, ◌≡◌}
use shrt_cpp.App.Route.{Backend, Env}
use shrt_cpp.Http.Conn.{Progress, Session, Link}

module _ {S : Type 0} (st : Backend S) (env : Env) (link : Link) where
  -- All replies of a connection, sent or not.
  written : Session S → Progress S
  written (Session.live rest sent s) = Progress.waiting rest sent s
  written (Session.closed sent s) = Progress.closing sent s
  written (Session.dropped sent lost s) = Progress.dropped (sent ++ lost) s
  written (Session.crashed sent lost) = Progress.crashed (sent ++ lost)
  written (Session.stuck sent lost) = Progress.stuck (sent ++ lost)

  -- A connection and one round over all of its bytes: they end the same way, with the same bytes left
  -- over, the same store and, where replies are sent at the end, the same replies. Where the round loses its
  -- replies, the connection had sent a part at the front of them, and loses just the rest.
  unfoldable pub Alike : Session S → Progress S → Type 0
  Alike (Session.live rest sent s) p = p ≡ Progress.waiting rest sent s
  Alike (Session.closed sent s) p = p ≡ Progress.closing sent s
  Alike (Session.dropped sent lost s) p = p ≡ Progress.dropped (sent ++ lost) s
  Alike (Session.crashed sent lost) p = p ≡ Progress.crashed (sent ++ lost)
  Alike (Session.stuck sent lost) p = p ≡ Progress.stuck (sent ++ lost)
