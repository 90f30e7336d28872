-- ===== src/Ota.antt =====
-- pico_simple_ota: a firmware image, received, stored in flash and installed.
pub mod Flash
pub mod Store
pub mod Feed
pub mod Chunks
pub mod Bounds
pub mod Upgrade
pub mod Install
pub mod Fields
pub mod Stored
pub mod Marks
pub mod Kept
pub mod Blocks
pub mod Image
pub mod Rom
pub mod Protocol
mod Tests
