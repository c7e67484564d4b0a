-- ===== src/Http.antt =====
-- http/: the request parser, the response and the router.
pub mod Text
pub mod Parser
pub mod Response
pub mod Router
mod Tests
