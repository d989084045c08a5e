-- ===== src/Http.antt =====
-- src/server.cpp: requests cut out of a connection's bytes, the bytes of a reply, and the loops of a
-- connection. The sockets are not modelled: what recv(2) yields and send(2) takes are inputs.
pub mod Head
pub mod Request
pub mod Wire
pub mod Conn
