-- ===== src/App.antt =====
-- src/app.cpp, src/app.hpp and the class `Store` of src/store.hpp: the request handler, over any of the
-- back ends. What it reads of its surroundings comes in as an `Env`: the settings, the C library's
-- strtod, the texts that other files make, and the rate limiter's answers.
pub mod Json
pub mod Checks
pub mod Reply
pub mod Request
pub mod Route
