-- ===== src/Codec.antt =====
-- src/codec.hpp, src/codec.cpp and the itoa of src/common.hpp: the lines of the append-only log.
-- Strings are lists of bytes; an `int64_t` is its bit pattern. A writer `f(std::string& b, ...)`
-- that appends to `b` is a function that returns what it appends.
pub mod Number
pub mod Escape
pub mod Line
pub mod Parse
pub mod Printable
