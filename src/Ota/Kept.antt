-- ===== src/Ota/Kept.antt =====
-- A later block leaves what an earlier one has put in the upgrade buffer.
use pico_https.Common.{
  ℕ, ◌+◌, ◌-◌, ◌/◌, ◌%◌, ◌^◌, ◌≤◌, ◌<◌, bit_and, Bool, true, false, not, ◌&&◌, ◌≡◌, ◌∙◌, ap, sym,
  inl, inr, Bytes, All, IsByte, arith,
}
use mathlib.Core.Bool.{false≢true}
use pico_https.Common.Tests.{ltb, leb, ◌==◌, ==_iff, if◌then◌else◌, if-elim, Bool-cases}
use pico_https.Common.Lists.{length, get_or, length-set}
use pico_https.Ota.Flash.{FlashOps, IsFlash, within}
use pico_https.Ota.Store.{
  UpgradeHelper, block_size, data_room, block_flags, block_data, target_addr, payload_size,
  magic_end, uf2_magic_end, uf2_flag_noflash, uf2_flag_extension_tags, ota_flash_buffer_offset,
  max_binary_size, flash_sector_size, num_regions, set_region_erased, write_to_flash, write_block,
  store_block, get_region_erased,
}
use pico_https.Ota.Bounds.{target_addr-set_target}
use pico_https.Ota.Fields.{payload_size-set_target}
use pico_https.Ota.Marks.{set_region_erased-IsByte, set_region_erased-get_region_erased}
use pico_https.Ota.Stored.{relative_addr, placed, Installed}

-- A block that is to be written.
abbrev pub is_for_flash : Bytes → Bool
is_for_flash buf =
    (bit_and (block_flags buf) uf2_flag_noflash == 0)
    && (bit_and (block_flags buf) uf2_flag_extension_tags == 0)

-- The regions' marks are 32 bytes.
abbrev pub AreRegions : Bytes → Type 0
AreRegions regions = (length regions ≡ 32) × All IsByte regions

module _ {F : Type 0} (ops : FlashOps F) where
  open ops use {read, erase, program}

  abbrev After : (Bytes → F → Type 0) → Bool × UpgradeHelper × F → Type 0
  After P r = P r.1.region_erased r.2

  write_block-elim :
      (P : Bytes → F → Type 0) (u : UpgradeHelper) (f : F)
      → P u.region_erased f
      → (target_addr u.buffer % 256 ≡ 0
          → P (write_to_flash ops u f).0.region_erased (write_to_flash ops u f).1)
      → (data_room < payload_size u.buffer
          → P (write_to_flash ops u f).0.region_erased (ops.overrun u.buffer f).1)
      → After P (write_block ops u f)
  unfolding write_block
  write_block-elim P u f same written over =
      let region =
        (target_addr u.buffer + 2 ^ 32 - ota_flash_buffer_offset) % 2 ^ 32 / flash_sector_size in
      if-elim (After P) (not (target_addr u.buffer % 256 == 0)) (λ _. same)
        (λ aligned.
          if-elim (After P) (not (payload_size u.buffer % 256 == 0)) (λ _. same)
            (λ _.
              if-elim (After P) (not ((u.address + 32) % 32 == 0)) (λ _. same)
                (λ _.
                  if-elim (After P) (leb num_regions region) (λ _. same)
                    (λ _.
                      if-elim (After P) (not (ops.runs f)) (λ _. same)
                        (λ _.
                          if-elim (After P) (ltb data_room (payload_size u.buffer))
                            (λ much. over (ground arith)) (λ _. written (ground arith)))))))

  -- A block is written, or the marks and the flash stay.
  store_block-elim :
      (P : Bytes → F → Type 0) (u : UpgradeHelper) (f : F)
      → P u.region_erased f
      → (is_for_flash u.buffer ≡ true
          → relative_addr u.buffer < max_binary_size
          → target_addr (placed u).buffer % 256 ≡ 0
          → P (write_to_flash ops (placed u) f).0.region_erased (write_to_flash ops (placed u) f).1)
      → (data_room < payload_size u.buffer
          → P (write_to_flash ops (placed u) f).0.region_erased (ops.overrun (placed u).buffer f).1)
      → After P (store_block ops u f)
  unfolding store_block relative_addr
  store_block-elim P u f same written over =
      let flags = block_flags u.buffer in
      let payload : payload_size (placed u).buffer ≡ payload_size u.buffer =
        payload_size-set_target u.buffer
          ((relative_addr u.buffer + ota_flash_buffer_offset) % 2 ^ 32) in
      if-elim (After P) (not (magic_end u.buffer == uf2_magic_end)) (λ _. same)
        (λ _.
          if-elim (After P) (not (bit_and flags uf2_flag_noflash == 0)) (λ _. same)
            (λ flash.
              if-elim (After P) (not (bit_and flags uf2_flag_extension_tags == 0)) (λ _. same)
                (λ tags.
                  if-elim (After P) (leb max_binary_size (relative_addr u.buffer)) (λ _. same)
                    (λ low.
                      write_block-elim P (placed u) f same (written (ground arith) (ground arith))
                        (λ much. over (omega (arith, much, payload)))))))

  -- The address of a block that is written.
  target_addr-placed :
      (u : UpgradeHelper)
      → length u.buffer ≡ block_size
      → relative_addr u.buffer < max_binary_size
      → target_addr (placed u).buffer ≡ ota_flash_buffer_offset + relative_addr u.buffer
  target_addr-placed u size low =
      target_addr-set_target u.buffer ((relative_addr u.buffer + ota_flash_buffer_offset) % 2 ^ 32)
        (omega arith) (omega arith)
      ∙ omega arith

  pub store_block-AreRegions :
      (u : UpgradeHelper) (f : F)
      → AreRegions u.region_erased
      → AreRegions (store_block ops u f).1.region_erased
  unfolding write_to_flash
  store_block-AreRegions u f v =
      let w = placed u in
      let region =
        (target_addr w.buffer + 2 ^ 32 - ota_flash_buffer_offset) % 2 ^ 32 / flash_sector_size in
      let marked : AreRegions (write_to_flash ops w f).0.region_erased =
        if-elim (λ (r : UpgradeHelper × F). AreRegions r.0.region_erased)
          (get_region_erased u.region_erased region) (λ _. v)
          (λ _. (
            length-set_region_erased u.region_erased region ∙ v.0,
            set_region_erased-IsByte u.region_erased region v.1,
          )) in
      store_block-elim (λ regions f'. AreRegions regions) u f v (λ _ _ _. marked) (λ _. marked)
    where
      length-set_region_erased :
          (regions : Bytes) (region : ℕ)
          → length (set_region_erased regions region) ≡ length regions
      length-set_region_erased regions region = unfold set_region_erased in length-set regions _ _

  -- Where the pages differ, programming one leaves the other.
  within_page :
      (r size a target : ℕ)
      → target ≡ ota_flash_buffer_offset + r
      → target % 256 ≡ 0
      → size ≤ 256
      → (a / 256 == r / 256) ≡ false
      → within target size (ota_flash_buffer_offset + a) ≡ false
  within_page r size a target e aligned small apart = ground arith

  within_sector :
      (r a target : ℕ)
      → target ≡ ota_flash_buffer_offset + r
      → (a / flash_sector_size == r / flash_sector_size) ≡ false
      → within (target - target % flash_sector_size) flash_sector_size (ota_flash_buffer_offset + a)
        ≡ false
  within_sector r a target e apart = ground arith

module _ {F : Type 0} (ops : FlashOps F) (law : IsFlash ops) where
  open ops use {read, erase, program}

  program_outside :
      (f : F) (offset : ℕ) (bytes : Bytes) (size a : ℕ)
      → within offset size a ≡ false
      → read (program f offset bytes size) a ≡ read f a
  program_outside f offset bytes size a out =
      law.read-program f offset bytes size a
      ∙ ap (λ b. if b then bit_and (read f a) (get_or bytes (a - offset) 0) else read f a) out

  erase_outside :
      (f : F) (offset size a : ℕ)
      → within offset size a ≡ false
      → read (erase f offset size) a ≡ read f a
  erase_outside f offset size a out =
      law.read-erase f offset size a ∙ ap (λ b. if b then 0xFF else read f a) out

  write_to_flash-Installed :
      (a v r : ℕ) (u : UpgradeHelper) (f : F)
      → All IsByte u.region_erased
      → target_addr u.buffer ≡ ota_flash_buffer_offset + r
      → target_addr u.buffer % 256 ≡ 0
      → r < max_binary_size
      → payload_size u.buffer ≤ 256
      → (a / 256 == r / 256) ≡ false
      → Installed ops a v u f
      → Installed ops a v (write_to_flash ops u f).0 (write_to_flash ops u f).1
  unfolding write_to_flash
  write_to_flash-Installed a v r u f bytes at aligned low small apart (mark, held) =
      let target = target_addr u.buffer in
      let offset = target - target % flash_sector_size in
      let region = (target + 2 ^ 32 - ota_flash_buffer_offset) % 2 ^ 32 / flash_sector_size in
      let here = ota_flash_buffer_offset + a in
      let size = payload_size u.buffer in
      let page = within_page ops r size a target at aligned small apart in
      let the_region : region ≡ r / flash_sector_size = omega arith in
      if-elim (λ (x : UpgradeHelper × F). Installed ops a v x.0 x.1)
        (get_region_erased u.region_erased region)
        (λ _. (mark, program_outside f target (block_data u.buffer) size here page ∙ held))
        (λ new.
          let other : (a / flash_sector_size == r / flash_sector_size) ≡ false =
            other_region u.region_erased (a / flash_sector_size) (r / flash_sector_size) mark
              (ap (get_region_erased u.region_erased) (sym the_region) ∙ new) in
          let sector = within_sector ops r a target at other in
          (
            set_region_erased-get_region_erased u.region_erased region (a / flash_sector_size) bytes
                mark,
            program_outside (erase f offset flash_sector_size) target (block_data u.buffer) size
                  here page
                ∙ erase_outside f offset flash_sector_size here sector
                ∙ held,
          ))
    where
      other_region :
          (regions : Bytes) (m n : ℕ)
          → get_region_erased regions m ≡ true
          → get_region_erased regions n ≡ false
          → (m == n) ≡ false
      other_region regions m n is not_ = elim (Bool-cases (m == n)) [
        | inr e ↦ e
        | inl e ↦
            let same : m ≡ n = ground (arith, ==_iff m n) in
            absurd (false≢true (sym not_ ∙ ap (get_region_erased regions) (sym same) ∙ is))
      ]

  -- A block of at most 256 bytes of data on another page, or one that is not for the flash.
  pub store_block-keeps_Installed :
      (a v : ℕ) (u : UpgradeHelper) (f : F)
      → length u.buffer ≡ block_size
      → All IsByte u.region_erased
      → payload_size u.buffer ≤ 256
      → (is_for_flash u.buffer && (a / 256 == relative_addr u.buffer / 256)) ≡ false
      → Installed ops a v u f
      → Installed ops a v (store_block ops u f).1 (store_block ops u f).2
  store_block-keeps_Installed a v u f size bytes small apart held =
      let w = placed u in
      let r = relative_addr u.buffer in
      let address = (r + ota_flash_buffer_offset) % 2 ^ 32 in
      store_block-elim ops
        (λ regions f'.
          (get_region_erased regions (a / flash_sector_size) ≡ true)
          × (read f' (ota_flash_buffer_offset + a) ≡ v))
        u f held
        (λ flash low aligned.
          write_to_flash-Installed a v r w f bytes (target_addr-placed ops u size low) aligned low
            (omega (arith, payload_size-set_target u.buffer address, small))
            (ground (arith, flash, apart)) held)
        (λ much. absurd (omega (arith, small, much)))
