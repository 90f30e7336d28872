-- ===== src/Ota/Rom.antt =====
-- `upgrade_binary` in pico_simple_ota/upgrade_helper.cpp, call by call: the ROM's functions, the reads
-- through `XIP_BASE`, and the order in which the ROM is documented to take them.
use pico_https.Common.{
  ℕ, zero, suc, ◌+◌, ◌*◌, Bool, true, false, not, ◌&&◌, ◌||◌, Option, none, some, List, [], ◌∷◌,
  ◌++◌, Bytes,
}
use pico_https.Common.Tests.{if◌then◌else◌}
use pico_https.Logger.Crash.{Ram, clear_saved_crash}
use pico_https.Ota.Flash.{FlashOps}
use pico_https.Ota.Store.{get_region_erased, flash_sector_size, num_regions, UpgradeHelper}
use pico_https.Ota.Upgrade.{read_sector}

-- Each is one call of the code, or one loop that reads: the 64 words of the XIP entry, or a sector.
-- The block size that `flash_range_erase_func` is given, a constant of the SDK, is left out.
pub data Action : Type 0 where
  clear_crash : Action
  copy_xip_entry : Action
  disable_interrupts : Action
  flush_cache : Action
  connect_internal : Action
  exit_xip : Action
  enter_xip : Action
  range_erase : (offset count cmd : ℕ) → Action
  fetch_sector : (offset : ℕ) → Action
  range_program : (offset count : ℕ) → Action
  reset : Action

abbrev pub flash_block_erase_cmd : ℕ
flash_block_erase_cmd = 0xd8

-- `flash_flush_cache`, `flash_connect_internal`, `flash_exit_xip`
abbrev pub leave_xip : List Action
leave_xip = flush_cache ∷ connect_internal ∷ exit_xip ∷ []

-- The loop that erases, from region `i` on.
unfoldable pub erase_actions : ℕ → Bytes → ℕ → List Action
unfolding get_region_erased
erase_actions zero regions i = []
erase_actions (suc rounds) regions i =
    let others = erase_actions rounds regions (i + 1) in
    if get_region_erased regions i
    then range_erase (i * flash_sector_size) flash_sector_size flash_block_erase_cmd ∷ others
    else others

-- A sector is fetched and programmed.
unfoldable pub copy_actions : Bool → ℕ → List Action
copy_actions is_rp2040 i =
    let offset = i * flash_sector_size in
    let fetch = fetch_sector offset in
    let program = range_program offset flash_sector_size in
    if is_rp2040
    then flush_cache ∷ enter_xip ∷ fetch ∷ (leave_xip ++ program ∷ [])
    else fetch ∷ program ∷ []

-- The loop that writes the new data, from region `i` on.
unfoldable pub write_actions : Bool → ℕ → Bytes → ℕ → List Action
unfolding get_region_erased copy_actions
write_actions is_rp2040 zero regions i = []
write_actions is_rp2040 (suc rounds) regions i =
    let others = write_actions is_rp2040 rounds regions (i + 1) in
    if get_region_erased regions i then copy_actions is_rp2040 i ++ others else others

unfoldable pub upgrade_actions : Bool → UpgradeHelper → List Action
unfolding erase_actions write_actions
upgrade_actions is_rp2040 u =
    clear_crash
    ∷ ((if is_rp2040 then copy_xip_entry ∷ [] else [])
        ++ disable_interrupts ∷ []
        ++ leave_xip
        ++ erase_actions num_regions u.region_erased 0
        ++ write_actions is_rp2040 num_regions u.region_erased 0
        ++ reset ∷ [])

-- How the flash is connected: for the execution of code, for commands after `flash_connect_internal`,
-- and for commands only.
pub data Mode : Type 0 where
  xip : Mode
  connected : Mode
  serial : Mode

pub record Board (F : Type 0) : Type 0 where
  pub flash : F
  pub mode : Mode
  pub interrupts : Bool
  pub has_entry : Bool
  pub sector : Bytes
  pub ram : Ram
  pub is_reset : Bool

-- Documented conditions: what is `none` must not be called then.
abbrev pub when {ℓ} : {A : Type ℓ} → Bool → A → Option A
when b x = if b then some x else none

abbrev pub is_xip : Mode → Bool
is_xip xip = true
is_xip connected = false
is_xip serial = false

abbrev pub is_connected : Mode → Bool
is_connected xip = false
is_connected connected = true
is_connected serial = false

abbrev pub is_serial : Mode → Bool
is_serial xip = false
is_serial connected = false
is_serial serial = true

module _ {F : Type 0} (ops : FlashOps F) (is_rp2040 : Bool) where
  -- The flash is read while XIP is on, or always on the RP2350; it is erased and programmed while it is
  -- off, with the interrupts disabled.
  unfoldable pub perform : Board F → Action → Option (Board F)
  unfolding read_sector
  perform b clear_crash = when (is_xip b.mode) (record b { ram = clear_saved_crash b.ram })
  perform b copy_xip_entry = when (is_xip b.mode) (record b { has_entry = true })
  perform b disable_interrupts = some (record b { interrupts = false })
  perform b flush_cache = some b
  perform b connect_internal =
      when (is_xip b.mode && not b.interrupts) (record b { mode = connected })
  perform b exit_xip = when (is_connected b.mode) (record b { mode = serial })
  perform b enter_xip = when (is_serial b.mode && b.has_entry) (record b { mode = xip })
  perform b (range_erase offset count cmd) =
      when (is_serial b.mode && not b.interrupts)
        (record b { flash = ops.erase b.flash offset count })
  perform b (fetch_sector offset) =
      when (is_xip b.mode || not is_rp2040)
        (record b { sector = read_sector ops flash_sector_size b.flash offset 0 })
  perform b (range_program offset count) =
      when (is_serial b.mode && not b.interrupts)
        (record b { flash = ops.program b.flash offset b.sector count })
  perform b reset = some (record b { is_reset = true })

  -- A run stops at a call that must not be made.
  unfoldable pub run : Option (Board F) → List Action → Option (Board F)
  unfolding perform
  run none actions = none
  run (some b) [] = some b
  run (some b) (action ∷ actions) = run (perform b action) actions
