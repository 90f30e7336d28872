-- ===== src/Http.antt =====
-- pico_http: requests and replies.
pub mod Header
pub mod State
pub mod Request
pub mod Session
mod Tests
