-- ===== src/Ota/Upgrade.antt =====
-- `upgrade_binary` in pico_simple_ota/upgrade_helper.cpp: the image is copied over the program.
use pico_https.Common.{ℕ, zero, suc, ◌+◌, ◌*◌, [], ◌∷◌, Bytes}
use pico_https.Common.Tests.{if◌then◌else◌}
use pico_https.Ota.Flash.{FlashOps}
use pico_https.Ota.Store.{
  get_region_erased, flash_sector_size, ota_flash_buffer_offset, num_regions, UpgradeHelper,
}

module _ {F : Type 0} (ops : FlashOps F) where
  open ops use {erase, program, read}

  -- The loop that erases, from region `i` on.
  unfoldable pub erase_regions : ℕ → Bytes → ℕ → F → F
  unfolding get_region_erased
  erase_regions zero regions i f = f
  erase_regions (suc rounds) regions i f =
      erase_regions rounds regions (i + 1) (
        if get_region_erased regions i
        then erase f (i * flash_sector_size) flash_sector_size
        else f)

  -- The loop that reads a sector of the image into the buffer, from byte `j` on.
  unfoldable pub read_sector : ℕ → F → ℕ → ℕ → Bytes
  read_sector zero f offset j = []
  read_sector (suc rounds) f offset j =
      read f (ota_flash_buffer_offset + offset + j) ∷ read_sector rounds f offset (j + 1)

  -- A sector is fetched and programmed.
  unfoldable pub copy_region : F → ℕ → F
  unfolding read_sector
  copy_region f i =
      let offset = i * flash_sector_size in
      program f offset (read_sector flash_sector_size f offset 0) flash_sector_size

  -- The loop that writes the new data, from region `i` on.
  unfoldable pub write_regions : ℕ → Bytes → ℕ → F → F
  unfolding get_region_erased
  write_regions zero regions i f = f
  write_regions (suc rounds) regions i f =
      write_regions rounds regions (i + 1)
        (if get_region_erased regions i then copy_region f i else f)

  -- The flash when the board is reset.
  unfoldable pub upgrade_binary : UpgradeHelper → F → F
  upgrade_binary u f =
      write_regions num_regions u.region_erased 0 (erase_regions num_regions u.region_erased 0 f)
