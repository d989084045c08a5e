-- ===== src/Rocks.antt =====
-- src/store_rocks.cpp, the store over RocksDB. The database is a parameter with the laws of its
-- documentation; the stored form of a link and the cache are those of the store over a RESP server.
pub mod Db
pub mod State
pub mod Access
pub mod Create
pub mod Listing
pub mod Rows
pub mod Hits
pub mod Coherent
