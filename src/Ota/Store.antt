-- ===== src/Ota/Store.antt =====
-- pico_simple_ota/upgrade_helper.cpp and .h: `storeData`, with the blocks of uf2.h. A block is read
-- where it lies in `m_buffer`, its numbers with the low byte first; 32-bit sums wrap.
use pico_https.Common.{
  ℕ, zero, suc, ◌+◌, ◌-◌, ◌*◌, ◌/◌, ◌%◌, ◌^◌, min, bit_and, bit_or, Bool, true, false, not, Option,
  none, some, [], ◌∷◌, Bytes,
}
use pico_https.Common.Tests.{ltb, leb, ◌==◌, if◌then◌else◌}
use pico_https.Common.Lists.{length, get_or, set, take, drop, memcpy, replicate}
use pico_https.Ota.Flash.{FlashOps}

abbrev pub block_size : ℕ
block_size = 512

-- What is left of a block from `data` on.
abbrev pub data_room : ℕ
data_room = 512 - 32

abbrev pub uf2_magic_end : ℕ
uf2_magic_end = 0x0AB16F30

abbrev pub uf2_flag_noflash : ℕ
uf2_flag_noflash = 0x00000001

abbrev pub uf2_flag_extension_tags : ℕ
uf2_flag_extension_tags = 0x00008000

abbrev pub xip_base : ℕ
xip_base = 0x10000000

abbrev pub flash_sector_size : ℕ
flash_sector_size = 4096

abbrev pub ota_flash_buffer_offset : ℕ
ota_flash_buffer_offset = 0x100000

abbrev pub max_binary_size : ℕ
max_binary_size = 256 * 4096

abbrev pub num_regions : ℕ
num_regions = 256

-- The fields, and the address at which `m_buffer` was allocated.
pub record UpgradeHelper : Type 0 where
  pub address : ℕ
  pub buffer : Bytes
  pub region_erased : Bytes
  pub index : ℕ

-- `clear`
unfoldable pub clear : UpgradeHelper → UpgradeHelper
clear u = record u { region_erased = replicate 32 0; index = 0 }

-- `create` with the constructor, at the address that `new` gives.
unfoldable pub create : ℕ → UpgradeHelper
unfolding clear
create address = clear (record {
  address = address;
  buffer = replicate block_size 0;
  region_erased = replicate (num_regions / 8) 0;
  index = 0;
})

-- A `uint32_t` of the block.
abbrev pub word_at : Bytes → ℕ → ℕ
word_at buf i =
    get_or buf i 0
    + get_or buf (i + 1) 0 * 2 ^ 8
    + get_or buf (i + 2) 0 * 2 ^ 16
    + get_or buf (i + 3) 0 * 2 ^ 24

abbrev pub block_flags : Bytes → ℕ
block_flags buf = word_at buf 8

abbrev pub target_addr : Bytes → ℕ
target_addr buf = word_at buf 12

abbrev pub payload_size : Bytes → ℕ
payload_size buf = word_at buf 16

-- `block->data` and what lies behind it
abbrev pub block_data : Bytes → Bytes
block_data buf = drop 32 buf

abbrev pub magic_end : Bytes → ℕ
magic_end buf = word_at buf 508

-- `block->targetAddr = v`
unfoldable pub set_target : Bytes → ℕ → Bytes
set_target buf v =
    memcpy buf 12
      ((v % 2 ^ 8) ∷ (v / 2 ^ 8 % 2 ^ 8) ∷ (v / 2 ^ 16 % 2 ^ 8) ∷ (v / 2 ^ 24 % 2 ^ 8) ∷ [])

-- `getRegionErased` and `setRegionErased`
unfoldable pub get_region_erased : Bytes → ℕ → Bool
get_region_erased regions region =
    not (bit_and (get_or regions (region / 8) 0) (2 ^ (region % 8)) == 0)

unfoldable pub set_region_erased : Bytes → ℕ → Bytes
set_region_erased regions region =
    set regions (region / 8) (bit_or (get_or regions (region / 8) 0) (2 ^ (region % 8)))

module _ {F : Type 0} (ops : FlashOps F) where
  open ops use {erase, program, read, runs, overrun}

  -- `writeToFlash`, with `targetAddr` as it is then.
  unfoldable pub write_to_flash : UpgradeHelper → F → UpgradeHelper × F
  unfolding get_region_erased set_region_erased
  write_to_flash u f =
      let target = target_addr u.buffer in
      let region = (target + 2 ^ 32 - ota_flash_buffer_offset) % 2 ^ 32 / flash_sector_size in
      let offset = target - target % flash_sector_size in
      let marked = record u { region_erased = set_region_erased u.region_erased region } in
      let write = λ (f' : F). program f' target (block_data u.buffer) (payload_size u.buffer) in
      if get_region_erased u.region_erased region
      then (u, write f)
      else (marked, write (erase f offset flash_sector_size))

  -- The loop that compares the flash with the block, from `i` on.
  unfoldable pub matches : ℕ → F → ℕ → Bytes → ℕ → Bool
  matches zero f target bytes i = true
  matches (suc rounds) f target bytes i =
      let rest = matches rounds f target bytes (i + 1) in
      if read f (target + i) == get_or bytes i 0 then rest else false

  -- From the check of the aligned address on, with the address in the flash in the block. The code
  -- does not test that the payload lies in the buffer: what it does with one that does not is `overrun`.
  -- One that does has 256 bytes at most here, and its page is in one of the regions.
  unfoldable pub write_block : UpgradeHelper → F → Bool × UpgradeHelper × F
  unfolding write_to_flash matches
  write_block u f =
      let target = target_addr u.buffer in
      let region = (target + 2 ^ 32 - ota_flash_buffer_offset) % 2 ^ 32 / flash_sector_size in
      let (u', f') = write_to_flash u f in
      let (answer, after) = overrun u.buffer f in
      if not (target % 256 == 0)
      then (false, u, f)
      else if not (payload_size u.buffer % 256 == 0)
      then (false, u, f)
      else if not ((u.address + 32) % 32 == 0)
      then (false, u, f)
      else if leb num_regions region
      then (false, u, f)
      else if not (runs f)
      then (false, u, f)
      else if ltb data_room (payload_size u.buffer)
      then (answer, u', after)
      else (matches (payload_size u.buffer) f' target (block_data u'.buffer) 0, u', f')

  -- A whole block in `m_buffer`; `continue` is true too.
  unfoldable pub store_block : UpgradeHelper → F → Bool × UpgradeHelper × F
  unfolding set_target
  store_block u f =
      let relative = (target_addr u.buffer + 2 ^ 32 - xip_base) % 2 ^ 32 in
      let moved = record u { buffer = set_target u.buffer relative } in
      let placed = record u {
        buffer = set_target u.buffer ((relative + ota_flash_buffer_offset) % 2 ^ 32);
      } in
      if not (magic_end u.buffer == uf2_magic_end)
      then (false, u, f)
      else if not (bit_and (block_flags u.buffer) uf2_flag_noflash == 0)
      then (true, u, f)
      else if not (bit_and (block_flags u.buffer) uf2_flag_extension_tags == 0)
      then (true, u, f)
      else if leb max_binary_size relative
      then (false, moved, f)
      else write_block placed f

  -- The part of `storeData` that copies bytes to `m_buffer`.
  unfoldable pub fill : UpgradeHelper → Bytes → UpgradeHelper × Bytes
  fill u bytes =
      let available = (block_size + 2 ^ 32 - u.index) % 2 ^ 32 in
      let count = min (length bytes) available in
      (
        record u { buffer = memcpy u.buffer u.index (take count bytes); index = u.index + count },
        drop count bytes,
      )

  -- `while (len > 0)`; `none` means that the fuel ran out.
  unfoldable pub store_rounds : ℕ → UpgradeHelper → F → Bytes → Option (Bool × UpgradeHelper × F)
  store_rounds fuel u f [] = some (true, u, f)
  store_rounds zero u f (b ∷ bytes) = none
  store_rounds (suc fuel) u f (b ∷ bytes) =
      let (u', rest) = fill u (b ∷ bytes) in
      let (ok, u'', f') = store_block (record u' { index = 0 }) f in
      let stored = store_rounds fuel u'' f' rest in
      let partial = store_rounds fuel u' f rest in
      if u'.index == block_size
      then (if ok then stored else some (false, u'', f'))
      else if ltb block_size u'.index
      then some (false, u', f)
      else partial

  -- A round takes a byte at least.
  unfoldable pub store_data : UpgradeHelper → F → Bytes → Option (Bool × UpgradeHelper × F)
  store_data u f bytes = store_rounds (length bytes) u f bytes
