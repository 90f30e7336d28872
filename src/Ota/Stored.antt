-- ===== src/Ota/Stored.antt =====
-- A block that `storeData` has accepted, in the flash and after the upgrade.
use pico_https.Common.{
  ℕ, zero, suc, ◌+◌, ◌-◌, ◌/◌, ◌%◌, ◌^◌, ◌≤◌, ◌<◌, bit_and, true, ◌≡◌, refl, ◌∙◌, ap, sym, inl, inr,
  Bytes, All, IsByte, arith,
}
use pico_https.Common.Tests.{Bool-cases}
use pico_https.Common.Lists.{length, get_or}
use pico_https.Ota.Flash.{FlashOps, IsFlash}
use pico_https.Ota.Store.{
  UpgradeHelper, block_size, block_flags, block_data, target_addr, payload_size, magic_end,
  uf2_magic_end, uf2_flag_noflash, uf2_flag_extension_tags, xip_base, ota_flash_buffer_offset,
  max_binary_size, flash_sector_size, num_regions, set_target, write_to_flash, matches, write_block,
  store_block, get_region_erased,
}
use pico_https.Ota.Upgrade.{upgrade_binary}
use pico_https.Ota.Bounds.{target_addr-set_target}
use pico_https.Ota.Install.{marked, upgrade_binary_lem}
use pico_https.Ota.Fields.{
  get_region_erased-set_region_erased, get_or-set_target, payload_size-set_target, get_or-drop_more,
}

-- Where the block belongs in the program.
unfoldable pub relative_addr : Bytes → ℕ
relative_addr buf = (target_addr buf + 2 ^ 32 - xip_base) % 2 ^ 32

abbrev pub placed : UpgradeHelper → UpgradeHelper
placed u = record u {
  buffer = set_target u.buffer ((relative_addr u.buffer + ota_flash_buffer_offset) % 2 ^ 32);
}

module _ {F : Type 0} (ops : FlashOps F) where
  open ops use {read}

  matches_sound :
      (rounds : ℕ) (f : F) (target : ℕ) (bytes : Bytes) (i j : ℕ)
      → matches ops rounds f target bytes i ≡ true
      → j < rounds
      → read f (target + (i + j)) ≡ get_or bytes (i + j) 0
  unfolding matches
  matches_sound zero f target bytes i j e l = absurd (omega arith)
  matches_sound (suc rounds) f target bytes i zero e l =
      let z : i + 0 ≡ i = omega arith in rw z (ground arith)
  matches_sound (suc rounds) f target bytes i (suc j) e l =
      let n : i + suc j ≡ i + 1 + j = omega arith in
      let later : matches ops rounds f target bytes (i + 1) ≡ true = ground arith in
      rw n (matches_sound rounds f target bytes (i + 1) j later (omega arith))

  write_to_flash_marks :
      (u : UpgradeHelper) (f : F)
      → All IsByte u.region_erased
      → length u.region_erased ≡ 32
      → (target_addr u.buffer + 2 ^ 32 - ota_flash_buffer_offset) % 2 ^ 32 / flash_sector_size
        < num_regions
      → (get_region_erased
            (write_to_flash ops u f).0.region_erased
            ((target_addr u.buffer + 2 ^ 32 - ota_flash_buffer_offset) % 2 ^ 32 / flash_sector_size)
          ≡ true)
        × ((write_to_flash ops u f).0.buffer ≡ u.buffer)
  unfolding write_to_flash
  write_to_flash_marks u f a size l =
      let region =
        (target_addr u.buffer + 2 ^ 32 - ota_flash_buffer_offset) % 2 ^ 32 / flash_sector_size in
      elim (Bool-cases (get_region_erased u.region_erased region)) [
        | inl before ↦ rw before (before, refl)
        | inr first ↦
            rw first
              (get_region_erased-set_region_erased u.region_erased region a (omega arith), refl)
      ]

  write_block_success :
      (u : UpgradeHelper) (f : F)
      → (write_block ops u f).0 ≡ true
      → payload_size u.buffer ≤ 256
      → (target_addr u.buffer % 256 ≡ 0)
        × (matches ops
              (payload_size u.buffer)
              (write_to_flash ops u f).1
              (target_addr u.buffer)
              (block_data (write_to_flash ops u f).0.buffer)
              0
            ≡ true)
        × (write_block ops u f ≡ (true, (write_to_flash ops u f).0, (write_to_flash ops u f).1))
  unfolding write_block
  write_block_success u f ok small = ground arith

  store_block_success :
      (u : UpgradeHelper) (f : F)
      → (store_block ops u f).0 ≡ true
      → bit_and (block_flags u.buffer) uf2_flag_noflash ≡ 0
      → bit_and (block_flags u.buffer) uf2_flag_extension_tags ≡ 0
      → (magic_end u.buffer ≡ uf2_magic_end)
        × (relative_addr u.buffer < max_binary_size)
        × (store_block ops u f ≡ write_block ops (placed u) f)
  unfolding store_block relative_addr
  store_block_success u f ok flash no_tags = ground arith

same_region :
    (r i target : ℕ)
    → target ≡ ota_flash_buffer_offset + r
    → target % 256 ≡ 0
    → r < max_binary_size
    → i < 256
    → (target + 2 ^ 32 - ota_flash_buffer_offset) % 2 ^ 32 / flash_sector_size
      ≡ (r + i) / flash_sector_size
same_region r i target e aligned low small = omega arith

in_program :
    (r i target : ℕ)
    → target ≡ ota_flash_buffer_offset + r
    → target % 256 ≡ 0
    → r < max_binary_size
    → i < 256
    → r + i < max_binary_size
in_program r i target e aligned low small = omega arith

marked_of :
    (regions : Bytes) (a : ℕ)
    → get_region_erased regions (a / flash_sector_size) ≡ true
    → a < max_binary_size
    → marked regions 0 num_regions a ≡ true
marked_of regions a m l = rw m (ground arith)

-- Byte `a` of the program is in the upgrade buffer, as `v`, and its region is marked.
abbrev pub Installed : {F : Type 0} → FlashOps F → (a v : ℕ) → UpgradeHelper → F → Type 0
Installed ops a v u f =
    (get_region_erased u.region_erased (a / flash_sector_size) ≡ true)
    × (ops.read f (ota_flash_buffer_offset + a) ≡ v)

pub store_block-Installed :
    {F : Type 0} (ops : FlashOps F) (u : UpgradeHelper) (f : F) (i : ℕ)
    → length u.buffer ≡ block_size
    → length u.region_erased ≡ 32
    → All IsByte u.region_erased
    → bit_and (block_flags u.buffer) uf2_flag_noflash ≡ 0
    → bit_and (block_flags u.buffer) uf2_flag_extension_tags ≡ 0
    → payload_size u.buffer ≤ 256
    → i < payload_size u.buffer
    → (store_block ops u f).0 ≡ true
    → (magic_end u.buffer ≡ uf2_magic_end)
      × (relative_addr u.buffer + i < max_binary_size)
      × Installed ops
          (relative_addr u.buffer + i)
          (get_or u.buffer (32 + i) 0)
          (store_block ops u f).1
          (store_block ops u f).2
store_block-Installed ops u f i size regions bytes flash no_tags small l ok =
    let r = relative_addr u.buffer in
    let w = placed u in
    let (mark, low, same) = store_block_success ops u f ok flash no_tags in
    let (u', f') = write_to_flash ops w f in
    let v = (r + ota_flash_buffer_offset) % 2 ^ 32 in
    let payload : payload_size w.buffer ≡ payload_size u.buffer =
      payload_size-set_target u.buffer v in
    let (aligned, matched, wrote) =
      write_block_success ops w f (sym (ap (λ p. p.0) same) ∙ ok) (omega (arith, small, payload)) in
    let whole = same ∙ wrote in
    let address : target_addr w.buffer ≡ ota_flash_buffer_offset + r =
      target_addr-set_target u.buffer v (omega arith) (omega arith) ∙ omega arith in
    let (marked_, kept) = write_to_flash_marks ops w f bytes regions (rw address (omega arith)) in
    let z : 0 + i ≡ i = omega arith in
    let byte : get_or (block_data u'.buffer) i 0 ≡ get_or u.buffer (32 + i) 0 =
      get_or-drop_more u'.buffer 32 i
      ∙ ap (λ b. get_or b (32 + i) 0) kept
      ∙ get_or-set_target u.buffer v (32 + i) (omega arith) in
    let in_buffer : ops.read f' (ota_flash_buffer_offset + r + i) ≡ get_or u.buffer (32 + i) 0 =
      rw (address, z) at
        (matches_sound ops (payload_size w.buffer) f' (target_addr w.buffer) (block_data u'.buffer)
          0 i matched (omega arith))
      ∙ byte in
    let region : (target_addr w.buffer + 2 ^ 32 - ota_flash_buffer_offset)
          % 2 ^ 32
          / flash_sector_size
        ≡ (r + i) / flash_sector_size =
      same_region r i (target_addr w.buffer) address aligned low (omega arith) in
    let there : ota_flash_buffer_offset + (r + i) ≡ ota_flash_buffer_offset + r + i = omega arith in
    (
      mark,
      in_program r i (target_addr w.buffer) address aligned low (omega arith),
      rw whole (rw region at marked_, rw there in_buffer),
    )

pub Installed-upgrade_binary :
    {F : Type 0} (ops : FlashOps F) (law : IsFlash ops) (a v : ℕ) (u : UpgradeHelper) (f : F)
    → a < max_binary_size
    → Installed ops a v u f
    → ops.read (upgrade_binary ops u f) a ≡ v
Installed-upgrade_binary ops law a v u f low (mark, held) =
    let is_marked : marked u.region_erased 0 num_regions a ≡ true =
      marked_of u.region_erased a mark low in
    upgrade_binary_lem ops law u f a ∙ rw is_marked held

-- A block of at most 256 bytes of data that is meant for the flash and that `storeData` has accepted:
-- its end mark is right and its address is in the program; the flash holds its data in the upgrade
-- buffer; and after `upgrade_binary`, on a flash that erases and programs as documented, at the
-- address in the program.
store_block-upgrade_binary :
    {F : Type 0} (ops : FlashOps F) (law : IsFlash ops) (u : UpgradeHelper) (f : F) (i : ℕ)
    → length u.buffer ≡ block_size
    → length u.region_erased ≡ 32
    → All IsByte u.region_erased
    → bit_and (block_flags u.buffer) uf2_flag_noflash ≡ 0
    → bit_and (block_flags u.buffer) uf2_flag_extension_tags ≡ 0
    → payload_size u.buffer ≤ 256
    → i < payload_size u.buffer
    → (store_block ops u f).0 ≡ true
    → (magic_end u.buffer ≡ uf2_magic_end)
      × (relative_addr u.buffer + i < max_binary_size)
      × (ops.read (store_block ops u f).2 (ota_flash_buffer_offset + relative_addr u.buffer + i)
          ≡ get_or u.buffer (32 + i) 0)
      × (ops.read
            (upgrade_binary ops (store_block ops u f).1 (store_block ops u f).2)
            (relative_addr u.buffer + i)
          ≡ get_or u.buffer (32 + i) 0)
store_block-upgrade_binary ops law u f i size regions bytes flash no_tags small l ok =
    let (mark, low, held) =
      store_block-Installed ops u f i size regions bytes flash no_tags small l ok in
    let a = relative_addr u.buffer + i in
    let there : ota_flash_buffer_offset + a ≡ ota_flash_buffer_offset + relative_addr u.buffer + i =
      omega arith in
    (
      mark,
      low,
      ap (ops.read (store_block ops u f).2) (sym there) ∙ held.1,
      Installed-upgrade_binary ops law a (get_or u.buffer (32 + i) 0) (store_block ops u f).1
          (store_block ops u f).2 low held,
    )
