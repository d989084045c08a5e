-- ===== src/Store.antt =====
-- src/store.hpp, src/store.cpp: the in-process store over the append-only log.
-- An operation is one step on the state `Inner`, as it is where calls do not overlap; the
-- clock, the environment, the kernel's writes and the other instances' files come in as a `World`.
pub mod State
pub mod Apply
pub mod Tailing
pub mod Create
pub mod Access
pub mod Listing
pub mod Persist
pub mod Index
pub mod Views
pub mod Chunks
pub mod Sound
pub mod Calm
pub mod Fresh
pub mod Branches
pub mod Durable
pub mod Keeps
pub mod Reads
pub mod Bulk
pub mod History
pub mod Recovery
pub mod Effects
pub mod Forgets
pub mod Tally
