-- ===== src/Kv.antt =====
-- src/store_kv.cpp and src/kv.cpp, the store over a RESP server: stored values, cache, wire format,
-- commands and operations.
pub mod Value
pub mod Cache
pub mod Resp
pub mod Client
pub mod Engine
