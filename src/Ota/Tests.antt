-- ===== src/Ota/Tests.antt =====
-- A flash in memory, runs of `storeData` on it, and its theorems at concrete inputs.
use pico_https.Common.{
  ℕ, zero, suc, ◌+◌, ◌-◌, ◌/◌, ◌%◌, ◌<◌, bit_and, Bool, true, false, ◌&&◌, ◌≡◌, refl, Option, some,
  none, [], ◌∷◌, ◌++◌, Bytes, All, IsByte, arith,
}
use pico_https.Common.Bits.{bit_and_le}
use pico_https.Common.Tests.{◌==◌, if◌then◌else◌}
use pico_https.Common.Lists.{length, get_or, replicate}
use pico_https.Ota.Flash.{FlashOps, IsFlash, within}
use pico_https.Ota.Store.{
  UpgradeHelper, create, clear, block_size, fill, store_rounds, store_data, store_block,
  write_block, ota_flash_buffer_offset, max_binary_size, magic_end, uf2_magic_end, num_regions,
}
use pico_https.Ota.Chunks.{continued, store_data-append}
use pico_https.Ota.Bounds.{Fit, store_data-keeps}
use pico_https.Logger.Crash.{Ram, clear_saved_crash}
use pico_https.Ota.Upgrade.{upgrade_binary}
use pico_https.Ota.Rom.{upgrade_actions, run}
use pico_https.Ota.Protocol.{working, IsUpgraded, upgrade_actions-upgrade_binary}
use pico_https.Ota.Install.{marked, upgrade_binary_lem}
use pico_https.Ota.Stored.{relative_addr}
use pico_https.Ota.Kept.{is_for_flash}
use pico_https.Ota.Blocks.{image}
use pico_https.Ota.Image.{store_data-upgrade_binary}

abbrev Memory : Type 0
Memory = ℕ → ℕ

abbrev memory : FlashOps Memory
memory = record {
  erase = λ f offset size a. if within offset size a then 0xFF else f a;
  program = λ f offset bytes size a.
      if within offset size a then bit_and (f a % 256) (get_or bytes (a - offset) 0) else f a;
  read = λ f a. f a % 256;
  runs = λ f. true;
  overrun = λ buffer f. (false, f);
}

read-program_memory :
    (f : Memory) (offset : ℕ) (bytes : Bytes) (size a : ℕ)
    → (if within offset size a then bit_and (f a % 256) (get_or bytes (a - offset) 0) else f a)
        % 256
      ≡ (if within offset size a
          then bit_and (f a % 256) (get_or bytes (a - offset) 0)
          else f a % 256)
read-program_memory f offset bytes size a =
    ground (arith, bit_and_le (f a % 256) (get_or bytes (a - offset) 0))

memory-IsFlash : IsFlash memory
memory-IsFlash = record {
  read-erase = λ f offset size a. ground arith;
  read-program = read-program_memory;
  read_byte = λ f a. omega arith;
}

abbrev old : Memory
old a = 0x55

abbrev fresh : UpgradeHelper
fresh = record { address = 0; buffer = replicate 512 0; region_erased = replicate 32 0; index = 0 }

-- 256 bytes for the start of the program.
abbrev first_block : Bytes
first_block =
    replicate 12 0
    ++ (0x00
        ∷ 0x00
        ∷ 0x00
        ∷ 0x10
        ∷ 0x00
        ∷ 0x01
        ∷ 0x00
        ∷ 0x00
        ∷ (replicate 12 0
            ++ (replicate 256 7 ++ (replicate 220 0 ++ 0x30 ∷ 0x6F ∷ 0xB1 ∷ 0x0A ∷ []))))

store_data-append_example :
    (r : Bool × UpgradeHelper × Memory) × (store_data memory fresh old (1 ∷ 2 ∷ []) ≡ some r)
    × (r.1.index < block_size)
    × (continued memory (store_data memory fresh old (1 ∷ 2 ∷ [])) (3 ∷ [])
        ≡ store_data memory fresh old (1 ∷ 2 ∷ 3 ∷ []))
store_data-append_example = store_data-append memory fresh old (1 ∷ 2 ∷ []) (3 ∷ []) (omega arith)

-- The one block has 256 bytes of data.
first_block-Fit : Fit memory fresh old first_block
unfolding Fit store_block write_block
first_block-Fit = (omega arith, tt)

store_data-keeps_example :
    (r : Bool × UpgradeHelper × Memory) × (store_data memory fresh old first_block ≡ some r)
    × (memory.read r.2 5 ≡ memory.read old 5)
    × (length r.1.buffer ≡ block_size)
store_data-keeps_example =
    store_data-keeps memory memory-IsFlash 5 (omega arith) fresh old first_block refl (omega arith)
      first_block-Fit

upgrade_binary_lem_example : memory.read (upgrade_binary memory fresh old) 5 ≡ (
    if marked fresh.region_erased 0 num_regions 5
    then memory.read old (ota_flash_buffer_offset + 5)
    else memory.read old 5)
upgrade_binary_lem_example = upgrade_binary_lem memory memory-IsFlash fresh old 5

-- The 256 bytes that follow.
abbrev second_block : Bytes
second_block =
    replicate 12 0
    ++ (0x00
        ∷ 0x01
        ∷ 0x00
        ∷ 0x10
        ∷ 0x00
        ∷ 0x01
        ∷ 0x00
        ∷ 0x00
        ∷ (replicate 12 0
            ++ (replicate 256 9 ++ (replicate 220 0 ++ 0x30 ∷ 0x6F ∷ 0xB1 ∷ 0x0A ∷ []))))

abbrev two_blocks : Bytes
two_blocks = image (first_block ∷ second_block ∷ [])

abbrev result : Option (Bool × UpgradeHelper × Memory) → Bool × UpgradeHelper × Memory
result (some r) = r
result none = (false, fresh, old)

abbrev stored : Bool × UpgradeHelper × Memory
stored = result (store_data memory fresh old two_blocks)

stored_done : store_data memory fresh old two_blocks ≡ some (true, stored.1, stored.2)
unfolding store_data store_rounds fill store_block write_block
stored_done = refl

second_apart :
    (is_for_flash second_block
      && ((relative_addr first_block + 3) / 256 == relative_addr second_block / 256))
    ≡ false
unfolding relative_addr
second_apart = refl

replicate-IsByte : (n : ℕ) → All IsByte (replicate n 0)
replicate-IsByte zero = tt
replicate-IsByte (suc n) = (omega arith, replicate-IsByte n)

store_data-upgrade_binary_example :
    (magic_end first_block ≡ uf2_magic_end)
    × (relative_addr first_block + 3 < max_binary_size)
    × (memory.read (upgrade_binary memory stored.1 stored.2) (relative_addr first_block + 3)
        ≡ get_or first_block (32 + 3) 0)
store_data-upgrade_binary_example =
    store_data-upgrade_binary memory memory-IsFlash fresh stored.1 old stored.2 [] first_block
      (second_block ∷ []) 3 refl refl (refl, replicate-IsByte 32) (refl, (refl, tt)) refl
      (omega arith) (omega arith) ((omega arith, second_apart), tt) stored_done

-- An upgrade of the first sector, after a crash.
abbrev one_region : UpgradeHelper
one_region = record fresh { region_erased = 1 ∷ replicate 31 0 }

abbrev crashed : Ram
crashed = record { last_command = 0xdeadbeef; cur_depth = 1; call_stack_buf = replicate 50 7 }

upgrade_actions-upgrade_binary_example :
    IsUpgraded memory (upgrade_binary memory one_region old) (clear_saved_crash crashed) (
      run memory true (some (working memory old true [] crashed)) (upgrade_actions true one_region))
upgrade_actions-upgrade_binary_example =
    upgrade_actions-upgrade_binary memory true true one_region old [] crashed

-- What the constructor makes.
fresh_created : create 0 ≡ fresh
unfolding create clear
fresh_created = refl
