-- ===== src/Ota/Flash.antt =====
-- The flash of the board, which the Pico SDK drives: a parameter of upgrade_helper.cpp.
use pico_https.Common.{ℕ, ◌+◌, ◌-◌, ◌<◌, bit_and, Bool, ◌&&◌, ◌≡◌, Bytes}
use pico_https.Common.Tests.{ltb, leb, if◌then◌else◌}
use pico_https.Common.Lists.{get_or}

-- `flash_range_erase`, `flash_range_program`, a read through `XIP_BASE`, and whether
-- `flash_safe_execute` runs what it is given and returns `PICO_OK`; else it runs nothing. `overrun`
-- is what a block whose payload does not fit in the buffer does: its bytes are read behind the buffer,
-- and it may go on over the end of the flash. With the buffer it gives the flash behind it and the
-- answer, both any, of a run that returns.
pub record FlashOps (F : Type 0) : Type 0 where
  pub erase : F → (offset size : ℕ) → F
  pub program : F → (offset : ℕ) → Bytes → (size : ℕ) → F
  pub read : F → ℕ → ℕ
  pub runs : F → Bool
  pub overrun : (buffer : Bytes) → F → Bool × F

abbrev pub within : (offset size address : ℕ) → Bool
within offset size address = leb offset address && ltb address (offset + size)

-- As documented: erasing sets every bit of the range, programming clears bits of it.
pub record IsFlash {F : Type 0} (ops : FlashOps F) : Type 0 where
  pub read-erase :
      (f : F) (offset size a : ℕ)
      → ops.read (ops.erase f offset size) a ≡ (if within offset size a then 0xFF else ops.read f a)
  pub read-program :
      (f : F) (offset : ℕ) (bytes : Bytes) (size a : ℕ)
      → ops.read (ops.program f offset bytes size) a ≡ (
          if within offset size a
          then bit_and (ops.read f a) (get_or bytes (a - offset) 0)
          else ops.read f a)
  pub read_byte : (f : F) (a : ℕ) → ops.read f a < 256
