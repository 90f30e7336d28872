-- ===== src/Tls.antt =====
-- pico_tls: connections over lwIP.
pub mod State
pub mod Session
pub mod Listener
pub mod Accepted
pub mod Send
pub mod Closed
pub mod Settled
pub mod Events
pub mod Sending
pub mod Run
pub mod Acknowledged
pub mod Lookup
mod Tests
