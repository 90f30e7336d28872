-- ===== src/Ota/Bounds.antt =====
-- What of the flash `storeData` may change.
use pico_https.Common.{
  ℕ, ◌+◌, ◌-◌, ◌/◌, ◌%◌, ◌^◌, ◌≤◌, ◌<◌, Bool, ◌≡◌, refl, ◌∙◌, inl, inr, some, [], ◌∷◌, Bytes, arith,
}
use pico_https.Common.Tests.{◌==◌, if◌then◌else◌, Bool-cases}
use pico_https.Common.Lists.{length, set, length-memcpy, length-set, get_or-memcpy_at}
use pico_https.Ota.Flash.{FlashOps, IsFlash}
use pico_https.Ota.Store.{
  UpgradeHelper, block_size, data_room, block_data, target_addr, payload_size, xip_base,
  ota_flash_buffer_offset, flash_sector_size, set_target, write_to_flash, write_block, store_block,
  store_data, get_region_erased,
}
use pico_https.Ota.Feed.{feed, store_rounds-feed}
use pico_https.Ota.Fields.{payload_size-set_target}

module _ {F : Type 0} (ops : FlashOps F) (law : IsFlash ops) (a : ℕ)
    (below : a < ota_flash_buffer_offset) where
  open ops use {read, erase, program}

  kept_by_erase :
      (f : F) (offset size : ℕ)
      → ota_flash_buffer_offset ≤ offset
      → read (erase f offset size) a ≡ read f a
  kept_by_erase f offset size l = ground (arith, law.read-erase f offset size a)

  kept_by_program :
      (f : F) (offset : ℕ) (bytes : Bytes) (size : ℕ)
      → ota_flash_buffer_offset ≤ offset
      → read (program f offset bytes size) a ≡ read f a
  kept_by_program f offset bytes size l = ground (arith, law.read-program f offset bytes size a)

  write_to_flash_keeps :
      (u : UpgradeHelper) (f : F)
      → ota_flash_buffer_offset ≤ target_addr u.buffer
      → read (write_to_flash ops u f).1 a ≡ read f a
  unfolding write_to_flash
  write_to_flash_keeps u f l =
      let target = target_addr u.buffer in
      let offset = target - target % flash_sector_size in
      let region = (target + 2 ^ 32 - ota_flash_buffer_offset) % 2 ^ 32 / flash_sector_size in
      let le : ota_flash_buffer_offset ≤ offset = omega arith in
      elim (Bool-cases (get_region_erased u.region_erased region)) [
        | inl before ↦
            rw before (kept_by_program f target (block_data u.buffer) (payload_size u.buffer) l)
        | inr first ↦ rw first (
            kept_by_program (erase f offset flash_sector_size) target (block_data u.buffer)
              (payload_size u.buffer) l
            ∙ kept_by_erase f offset flash_sector_size le)
      ]

  write_block_keeps :
      (u : UpgradeHelper) (f : F)
      → ota_flash_buffer_offset ≤ target_addr u.buffer
      → payload_size u.buffer ≤ data_room
      → read (write_block ops u f).2 a ≡ read f a
  unfolding write_block
  write_block_keeps u f l room = ground (arith, write_to_flash_keeps u f)

pub target_addr-set_target :
    (buf : Bytes) (v : ℕ) → 16 ≤ length buf → v < 2 ^ 32 → target_addr (set_target buf v) ≡ v
unfolding set_target
target_addr-set_target buf v room small =
    let digits =
      (v % 2 ^ 8) ∷ (v / 2 ^ 8 % 2 ^ 8) ∷ (v / 2 ^ 16 % 2 ^ 8) ∷ (v / 2 ^ 24 % 2 ^ 8) ∷ [] in
    rw
      (
        get_or-memcpy_at buf 12 digits 0 0 (omega arith) (omega arith),
        get_or-memcpy_at buf 12 digits 1 0 (omega arith) (omega arith),
        get_or-memcpy_at buf 12 digits 2 0 (omega arith) (omega arith),
        get_or-memcpy_at buf 12 digits 3 0 (omega arith) (omega arith),
      )
      (omega arith)

pub length-set_target : (buf : Bytes) (v : ℕ) → length (set_target buf v) ≡ length buf
unfolding set_target
length-set_target buf v =
    length-memcpy buf 12
      ((v % 2 ^ 8) ∷ (v / 2 ^ 8 % 2 ^ 8) ∷ (v / 2 ^ 16 % 2 ^ 8) ∷ (v / 2 ^ 24 % 2 ^ 8) ∷ [])

module _ {F : Type 0} (ops : FlashOps F) where
  length-write_to_flash :
      (u : UpgradeHelper) (f : F) → length (write_to_flash ops u f).0.buffer ≡ length u.buffer
  unfolding write_to_flash
  length-write_to_flash u f = ground arith

  length-write_block :
      (u : UpgradeHelper) (f : F) → length (write_block ops u f).1.buffer ≡ length u.buffer
  unfolding write_block
  length-write_block u f = ground (arith, length-write_to_flash u f)

  pub length-store_block :
      (u : UpgradeHelper) (f : F) → length (store_block ops u f).1.buffer ≡ length u.buffer
  unfolding store_block
  length-store_block u f =
      let relative = (target_addr u.buffer + 2 ^ 32 - xip_base) % 2 ^ 32 in
      let placed = (relative + ota_flash_buffer_offset) % 2 ^ 32 in
      ground (
        arith,
        length-set_target u.buffer relative,
        length-set_target u.buffer placed,
        length-write_block (record u { buffer = set_target u.buffer placed }) f,
      )

-- Of the bytes that are fed, each block has its payload in the buffer, up to one that is refused.
unfoldable pub Fit : {F : Type 0} → FlashOps F → UpgradeHelper → F → Bytes → Type 0
Fit ops u f [] = Unit
Fit ops u f (b ∷ bytes) =
    let u' = record u { buffer = set u.buffer u.index b; index = u.index + 1 } in
    let (ok, u'', f') = store_block ops (record u' { index = 0 }) f in
    let stored = Fit ops u'' f' bytes in
    let partial = Fit ops u' f bytes in
    if u.index + 1 == block_size
    then (payload_size u'.buffer ≤ data_room) × (if ok then stored else Unit)
    else partial

module _ {F : Type 0} (ops : FlashOps F) (law : IsFlash ops) (a : ℕ)
    (below : a < ota_flash_buffer_offset) where
  open ops use {read}

  store_block_keeps :
      (u : UpgradeHelper) (f : F)
      → length u.buffer ≡ block_size
      → payload_size u.buffer ≤ data_room
      → read (store_block ops u f).2 a ≡ read f a
  unfolding store_block
  store_block_keeps u f size room =
      let relative = (target_addr u.buffer + 2 ^ 32 - xip_base) % 2 ^ 32 in
      let placed = record u {
        buffer = set_target u.buffer ((relative + ota_flash_buffer_offset) % 2 ^ 32);
      } in
      let target =
        target_addr-set_target u.buffer ((relative + ota_flash_buffer_offset) % 2 ^ 32)
          (omega arith) (omega arith) in
      let payload =
        payload_size-set_target u.buffer ((relative + ota_flash_buffer_offset) % 2 ^ 32) in
      ground (arith, target, payload, write_block_keeps ops law a below placed f)

  feed_keeps :
      (u : UpgradeHelper) (f : F) (bytes : Bytes)
      → length u.buffer ≡ block_size
      → Fit ops u f bytes
      → (read (feed ops u f bytes).2 a ≡ read f a)
        × (length (feed ops u f bytes).1.buffer ≡ block_size)
  unfolding feed Fit
  feed_keeps u f [] size fit = (refl, size)
  feed_keeps u f (b ∷ bytes) size fit =
      let u' = record u { buffer = set u.buffer u.index b; index = u.index + 1 } in
      let size' : length u'.buffer ≡ block_size = length-set u.buffer u.index b ∙ size in
      let u0 = record u' { index = 0 } in
      let stored = store_block ops u0 f in
      elim (Bool-cases (u.index + 1 == block_size)) [
        | inr part ↦ rw part (feed_keeps u' f bytes size' (rw part at fit))
        | inl full ↦
            let (room, later) = rw full at fit in
            let kept = store_block_keeps u0 f size' room in
            elim (Bool-cases stored.0) [
              | inl ok ↦
                  let (same, s) =
                    feed_keeps stored.1 stored.2 bytes (length-store_block ops u0 f ∙ size')
                      (rw ok at later) in
                  rw (full, ok) (same ∙ kept, s)
              | inr bad ↦ rw (full, bad) (kept, length-store_block ops u0 f ∙ size')
            ]
      ]

  -- On a flash that erases and programs as documented, with fewer than 512 bytes of a block in its
  -- buffer of 512, and any bytes of which each block, up to the first that is refused, has a
  -- `payloadSize` of at most the 480 bytes that are in the buffer from `data` on: `storeData` returns,
  -- leaves every byte of the flash below `OTA_FLASH_BUFFER_OFFSET`, where the running program is, as it
  -- was, and keeps the size of its buffer.
  pub store_data-keeps :
      (u : UpgradeHelper) (f : F) (bytes : Bytes)
      → length u.buffer ≡ block_size
      → u.index < block_size
      → Fit ops u f bytes
      → (r : Bool × UpgradeHelper × F) × (store_data ops u f bytes ≡ some r)
        × (read r.2 a ≡ read f a)
        × (length r.1.buffer ≡ block_size)
  unfolding store_data
  store_data-keeps u f bytes size l fit =
      let (same, s) = feed_keeps u f bytes size fit in
      (feed ops u f bytes, store_rounds-feed ops (length bytes) u f bytes l (omega arith), same, s)
