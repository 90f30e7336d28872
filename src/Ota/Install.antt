-- ===== src/Ota/Install.antt =====
-- What the flash holds after `upgrade_binary`.
use pico_https.Common.{
  ℕ, zero, suc, ◌+◌, ◌-◌, ◌*◌, ◌/◌, ◌≤◌, ◌<◌, bit_and, Bool, true, false, ◌&&◌, ◌≡◌, refl, ◌∙◌, ap,
  inl, inr, Bytes, arith,
}
use pico_https.Common.Bits.{bit_and_ones}
use pico_https.Common.Tests.{ltb, leb, ◌==◌, if◌then◌else◌, Bool-cases}
use pico_https.Common.Lists.{get_or}
use pico_https.Ota.Flash.{FlashOps, IsFlash, within}
use pico_https.Ota.Store.{
  UpgradeHelper, get_region_erased, flash_sector_size, ota_flash_buffer_offset, num_regions,
}
use pico_https.Ota.Upgrade.{erase_regions, read_sector, copy_region, write_regions, upgrade_binary}

-- The region of an address, if it is one of `rounds` from `i` on that are marked.
abbrev pub marked : Bytes → (i rounds a : ℕ) → Bool
marked regions i rounds a =
    let region = a / flash_sector_size in
    get_region_erased regions region && (leb i region && ltb region (i + rounds))

module _ {F : Type 0} (ops : FlashOps F) (law : IsFlash ops) where
  open ops use {erase, program, read}

  erase_lem :
      (f : F) (i a : ℕ)
      → read (erase f (i * flash_sector_size) flash_sector_size) a
        ≡ (if a / flash_sector_size == i then 0xFF else read f a)
  erase_lem f i a = ground (arith, law.read-erase f (i * flash_sector_size) flash_sector_size a)

  erase_regions_lem :
      (rounds : ℕ) (regions : Bytes) (i : ℕ) (f : F) (a : ℕ)
      → read (erase_regions ops rounds regions i f) a
        ≡ (if marked regions i rounds a then 0xFF else read f a)
  unfolding erase_regions
  erase_regions_lem zero regions i f a = ground arith
  erase_regions_lem (suc rounds) regions i f a = elim (Bool-cases (a / flash_sector_size == i)) [
    | inl here ↦
        let at : a / flash_sector_size ≡ i = ground arith in
        let same = ap (get_region_erased regions) at in
        elim (Bool-cases (get_region_erased regions i)) [
          | inl yes_ ↦ rw yes_ (
              erase_regions_lem rounds regions (i + 1)
                (erase f (i * flash_sector_size) flash_sector_size) a
              ∙ ground (arith, erase_lem f i a, same, yes_))
          | inr no_ ↦
              rw no_ (erase_regions_lem rounds regions (i + 1) f a ∙ ground (arith, same, no_))
        ]
    | inr other ↦ elim (Bool-cases (get_region_erased regions i)) [
      | inl yes_ ↦ rw yes_ (
          erase_regions_lem rounds regions (i + 1)
            (erase f (i * flash_sector_size) flash_sector_size) a
          ∙ ground (arith, erase_lem f i a))
      | inr no_ ↦ rw no_ (erase_regions_lem rounds regions (i + 1) f a ∙ ground arith)
    ]
  ]

  get_or-read_sector :
      (rounds : ℕ) (f : F) (offset j k : ℕ)
      → k < rounds
      → get_or (read_sector ops rounds f offset j) k 0
        ≡ read f (ota_flash_buffer_offset + offset + (j + k))
  unfolding read_sector
  get_or-read_sector zero f offset j k l = absurd (omega arith)
  get_or-read_sector (suc rounds) f offset j zero l = let z : j + 0 ≡ j = omega arith in rw z refl
  get_or-read_sector (suc rounds) f offset j (suc k) l =
      let n : j + suc k ≡ j + 1 + k = omega arith in
      rw n (get_or-read_sector rounds f offset (j + 1) k (omega arith))

  program_inside :
      (f : F) (offset : ℕ) (bytes : Bytes) (size a : ℕ)
      → within offset size a ≡ true
      → read (program f offset bytes size) a ≡ bit_and (read f a) (get_or bytes (a - offset) 0)
  program_inside f offset bytes size a inside =
      law.read-program f offset bytes size a ∙ rw inside refl

  program_outside :
      (f : F) (offset : ℕ) (bytes : Bytes) (size a : ℕ)
      → within offset size a ≡ false
      → read (program f offset bytes size) a ≡ read f a
  program_outside f offset bytes size a outside =
      law.read-program f offset bytes size a ∙ rw outside refl

  -- A region that is written: what it held and what the image holds.
  write_inside :
      (f : F) (i a : ℕ)
      → (a / flash_sector_size == i) ≡ true
      → read (copy_region ops f i) a ≡ bit_and (read f a) (read f (ota_flash_buffer_offset + a))
  unfolding copy_region
  write_inside f i a here =
      let offset = i * flash_sector_size in
      let at : ota_flash_buffer_offset + offset + (0 + (a - offset)) ≡ ota_flash_buffer_offset + a =
        ground arith in
      program_inside f offset (read_sector ops flash_sector_size f offset 0) flash_sector_size a
        (ground arith)
      ∙ ap (bit_and (read f a)) (
          get_or-read_sector flash_sector_size f offset 0 (a - offset) (ground arith)
          ∙ ap (read f) at)

  write_outside :
      (f : F) (i a : ℕ)
      → (a / flash_sector_size == i) ≡ false
      → read (copy_region ops f i) a ≡ read f a
  unfolding copy_region
  write_outside f i a other =
      program_outside f (i * flash_sector_size)
        (read_sector ops flash_sector_size f (i * flash_sector_size) 0) flash_sector_size a
        (ground arith)

  write_regions_lem :
      (rounds : ℕ) (regions : Bytes) (i : ℕ) (f : F) (a : ℕ)
      → i + rounds ≤ num_regions
      → read (write_regions ops rounds regions i f) a ≡ (
          if marked regions i rounds a
          then bit_and (read f a) (read f (ota_flash_buffer_offset + a))
          else read f a)
  unfolding write_regions
  write_regions_lem zero regions i f a l = ground arith
  write_regions_lem (suc rounds) regions i f a l =
      let written = copy_region ops f i in
      let far : ((ota_flash_buffer_offset + a) / flash_sector_size == i) ≡ false = ground arith in
      let source = write_outside f i (ota_flash_buffer_offset + a) far in
      elim (Bool-cases (a / flash_sector_size == i)) [
        | inl here ↦
            let same = ap (get_region_erased regions) (the_region here) in
            elim (Bool-cases (get_region_erased regions i)) [
              | inl yes_ ↦ rw yes_ (
                  write_regions_lem rounds regions (i + 1) written a (omega arith)
                  ∙ ground (arith, write_inside f i a here, same, yes_))
              | inr no_ ↦ rw no_ (
                  write_regions_lem rounds regions (i + 1) f a (omega arith)
                  ∙ ground (arith, same, no_))
            ]
        | inr other ↦ elim (Bool-cases (get_region_erased regions i)) [
          | inl yes_ ↦ rw yes_ (
              write_regions_lem rounds regions (i + 1) written a (omega arith)
              ∙ ground (arith, write_outside f i a other, source))
          | inr no_ ↦
              rw no_ (write_regions_lem rounds regions (i + 1) f a (omega arith) ∙ ground arith)
        ]
      ]
    where
      the_region : (a / flash_sector_size == i) ≡ true → a / flash_sector_size ≡ i
      the_region h = ground arith

  -- On a flash that erases and programs as documented: after `upgrade_binary` each byte of a region
  -- that is marked, and lies below the 256 regions' end, is that of the image in the upgrade buffer,
  -- and every other byte of the flash, the buffer included, is as it was.
  pub upgrade_binary_lem :
      (u : UpgradeHelper) (f : F) (a : ℕ)
      → read (upgrade_binary ops u f) a ≡ (
          if marked u.region_erased 0 num_regions a
          then read f (ota_flash_buffer_offset + a)
          else read f a)
  unfolding upgrade_binary
  upgrade_binary_lem u f a =
      let erased = erase_regions ops num_regions u.region_erased 0 f in
      let here = erase_regions_lem num_regions u.region_erased 0 f a in
      let there = erase_regions_lem num_regions u.region_erased 0 f (ota_flash_buffer_offset + a) in
      write_regions_lem num_regions u.region_erased 0 erased a (omega arith)
      ∙ ground (
        arith,
        here,
        there,
        bit_and_ones (read f (ota_flash_buffer_offset + a)),
        law.read_byte f (ota_flash_buffer_offset + a),
      )
