-- ===== src/Logger.antt =====
-- pico_logger/pico_logger.c: messages, the saved call stack, and the server's start with its watchdog.
pub mod Message
pub mod Line
pub mod Written
pub mod Sent
pub mod Numbers
pub mod Crash
pub mod Server
pub mod Restart
pub mod Boot
pub mod Recover
pub mod Watchdog
mod Tests
