-- ===== src/Gateway.antt =====
-- The gateway's own answers: the JSON of recent messages, and the routes of main.cpp.
pub mod Utf8
pub mod Json
pub mod Recent
pub mod Routes
mod Tests
