-- ===== src/Sleep.antt =====
-- pico_sleep/pico_sleep.c: the deep sleep of the board, and what woke it.
pub mod Calls
pub mod Deepsleep
pub mod Order
mod Tests
