-- ===== src/Ota/Protocol.antt =====
-- `upgrade_binary` makes its calls in the documented order, and leaves the flash that Upgrade gives.
use pico_https.Common.{
  ℕ, zero, suc, ◌+◌, ◌*◌, Bool, true, false, ◌≡◌, refl, ◌∙◌, ap, Option, none, some, List, [], ◌∷◌,
  ◌++◌, Bytes,
}
use pico_https.Common.Tests.{if◌then◌else◌}
use pico_https.Logger.Crash.{Ram, clear_saved_crash}
use pico_https.Ota.Flash.{FlashOps}
use pico_https.Ota.Store.{get_region_erased, flash_sector_size, num_regions, UpgradeHelper}
use pico_https.Ota.Upgrade.{erase_regions, write_regions, copy_region, upgrade_binary}
use pico_https.Ota.Rom.{
  Action, copy_xip_entry, disable_interrupts, range_erase, reset, flash_block_erase_cmd,
  erase_actions, copy_actions, write_actions, upgrade_actions, leave_xip, Board, xip, serial,
  perform, run,
}

module _ {F : Type 0} (ops : FlashOps F) (is_rp2040 : Bool) where
  run-append :
      (o : Option (Board F)) (first second : List Action)
      → run ops is_rp2040 o (first ++ second) ≡ run ops is_rp2040 (run ops is_rp2040 o first) second
  unfolding run
  run-append none [] second = refl
  run-append none (action ∷ first) second = refl
  run-append (some b) [] second = refl
  run-append (some b) (action ∷ first) second =
      run-append (perform ops is_rp2040 b action) first second

  -- While the flash takes commands.
  abbrev commanded : F → Bool → Bytes → Ram → Board F
  commanded f has_entry sector ram = record {
    flash = f;
    mode = serial;
    interrupts = false;
    has_entry = has_entry;
    sector = sector;
    ram = ram;
    is_reset = false;
  }

  -- A region's erase, if it is marked, and the calls behind it.
  run-mark :
      (marked : Bool) (others : List Action) (i : ℕ) (f : F) (has_entry : Bool) (sector : Bytes)
      (ram : Ram) (result : F → F)
      → ((f' : F)
          → run ops is_rp2040 (some (commanded f' has_entry sector ram)) others
            ≡ some (commanded (result f') has_entry sector ram))
      → run ops is_rp2040 (some (commanded f has_entry sector ram)) (
          if marked
          then range_erase (i * flash_sector_size) flash_sector_size flash_block_erase_cmd ∷ others
          else others)
        ≡ some (
            commanded
              (result (if marked then ops.erase f (i * flash_sector_size) flash_sector_size else f))
              has_entry
              sector
              ram)
  unfolding run perform
  run-mark true others i f has_entry sector ram result rest =
      rest (ops.erase f (i * flash_sector_size) flash_sector_size)
  run-mark false others i f has_entry sector ram result rest = rest f

  run-erase_actions :
      (rounds i : ℕ) (regions : Bytes) (f : F) (has_entry : Bool) (sector : Bytes) (ram : Ram)
      → run ops is_rp2040 (some (commanded f has_entry sector ram)) (erase_actions rounds regions i)
        ≡ some (commanded (erase_regions ops rounds regions i f) has_entry sector ram)
  unfolding run erase_actions erase_regions
  run-erase_actions zero i regions f has_entry sector ram = refl
  run-erase_actions (suc rounds) i regions f has_entry sector ram =
      run-mark (get_region_erased regions i) (erase_actions rounds regions (i + 1)) i f has_entry
        sector ram (erase_regions ops rounds regions (i + 1))
        (λ f'. run-erase_actions rounds (i + 1) regions f' has_entry sector ram)

module _ {F : Type 0} (ops : FlashOps F) where
  run-copy_actions :
      (rp2040 : Bool) (i : ℕ) (f : F) (sector : Bytes) (ram : Ram)
      → (sector' : Bytes) × (run ops rp2040
            (some (commanded ops rp2040 f rp2040 sector ram))
            (copy_actions rp2040 i)
          ≡ some (commanded ops rp2040 (copy_region ops f i) rp2040 sector' ram))
  unfolding run perform copy_actions copy_region
  run-copy_actions true i f sector ram = (_, refl)
  run-copy_actions false i f sector ram = (_, refl)

  -- The calls leave the flash, and anything in the sector's buffer.
  Leaves : Bool → F → Bytes → Ram → List Action → F → Type 0
  Leaves rp2040 f sector ram actions f' =
      (sector' : Bytes) × (run ops rp2040 (some (commanded ops rp2040 f rp2040 sector ram)) actions
        ≡ some (commanded ops rp2040 f' rp2040 sector' ram))

  write-mark :
      (rp2040 marked : Bool) (others : List Action) (i : ℕ) (f : F) (sector : Bytes) (ram : Ram)
      (result : F → F)
      → ((f' : F) (sector' : Bytes) → Leaves rp2040 f' sector' ram others (result f'))
      → Leaves rp2040 f sector ram
          (if marked then copy_actions rp2040 i ++ others else others)
          (result (if marked then copy_region ops f i else f))
  unfolding Leaves
  write-mark rp2040 true others i f sector ram result rest =
      let (sector', copied) = run-copy_actions rp2040 i f sector ram in
      let (sector'', left) = rest (copy_region ops f i) sector' in
      (
        sector'',
        run-append ops rp2040 (some (commanded ops rp2040 f rp2040 sector ram))
              (copy_actions rp2040 i) others
            ∙ ap (λ o. run ops rp2040 o others) copied
            ∙ left,
      )
  write-mark rp2040 false others i f sector ram result rest = rest f sector

  run-write_actions :
      (rp2040 : Bool) (rounds i : ℕ) (regions : Bytes) (f : F) (sector : Bytes) (ram : Ram)
      → Leaves rp2040 f sector ram
          (write_actions rp2040 rounds regions i)
          (write_regions ops rounds regions i f)
  unfolding write_actions write_regions
  run-write_actions rp2040 zero i regions f sector ram = unfold Leaves run in (sector, refl)
  run-write_actions rp2040 (suc rounds) i regions f sector ram =
      write-mark rp2040 (get_region_erased regions i) (write_actions rp2040 rounds regions (i + 1))
        i f sector ram (write_regions ops rounds regions (i + 1))
        (λ f' sector'. run-write_actions rp2040 rounds (i + 1) regions f' sector' ram)

  -- The board while the code runs, and when it has been reset.
  abbrev pub working : F → Bool → Bytes → Ram → Board F
  working f interrupts sector ram = record {
    flash = f;
    mode = xip;
    interrupts = interrupts;
    has_entry = false;
    sector = sector;
    ram = ram;
    is_reset = false;
  }

  abbrev pub IsUpgraded : F → Ram → Option (Board F) → Type 0
  IsUpgraded f ram o =
      (b : Board F) × (o ≡ some b) × (b.flash ≡ f) × (b.ram ≡ ram) × (b.is_reset ≡ true)

  abbrev first_actions : Bool → List Action
  first_actions rp2040 =
      (if rp2040 then copy_xip_entry ∷ [] else []) ++ disable_interrupts ∷ [] ++ leave_xip

  run-first :
      (rp2040 interrupts : Bool) (f : F) (sector : Bytes) (ram : Ram)
      → run ops rp2040 (some (working f interrupts sector ram)) (first_actions rp2040)
        ≡ some (commanded ops rp2040 f rp2040 sector ram)
  unfolding run perform
  run-first true interrupts f sector ram = refl
  run-first false interrupts f sector ram = refl

  run-upgrade_regions :
      (rp2040 : Bool) (u : UpgradeHelper) (f : F) (sector : Bytes) (ram : Ram)
      → (sector' : Bytes) × (run ops rp2040
            (some (
              commanded ops rp2040
                (erase_regions ops num_regions u.region_erased 0 f)
                rp2040
                sector
                ram))
            (write_actions rp2040 num_regions u.region_erased 0)
          ≡ some (commanded ops rp2040 (upgrade_binary ops u f) rp2040 sector' ram))
  unfolding upgrade_binary
  run-upgrade_regions rp2040 u f sector ram =
      unfold Leaves in
      run-write_actions rp2040 num_regions 0 u.region_erased
        (erase_regions ops num_regions u.region_erased 0 f) sector ram

  -- On both chips, and from running code: the calls of `upgrade_binary` are all allowed. The saved
  -- crash is cleared and the XIP entry copied while XIP is on, the flash is read only where it can be
  -- read, and erased and programmed only behind `flash_connect_internal` and `flash_exit_xip`, with the
  -- interrupts disabled. They end with the reset, and the flash is then that of the copying loops.
  pub upgrade_actions-upgrade_binary :
      (rp2040 interrupts : Bool) (u : UpgradeHelper) (f : F) (sector : Bytes) (ram : Ram)
      → IsUpgraded
          (upgrade_binary ops u f)
          (clear_saved_crash ram)
          (run ops rp2040 (some (working f interrupts sector ram)) (upgrade_actions rp2040 u))
  unfolding run perform upgrade_actions upgrade_binary
  upgrade_actions-upgrade_binary rp2040 interrupts u f sector ram =
      let cleared = clear_saved_crash ram in
      let erase = erase_actions num_regions u.region_erased 0 in
      let write = write_actions rp2040 num_regions u.region_erased 0 in
      let start = some (working f interrupts sector cleared) in
      let (sector', left) = run-upgrade_regions rp2040 u f sector cleared in
      (
        record (commanded ops rp2040 (upgrade_binary ops u f) rp2040 sector' cleared) {
          is_reset = true;
        },
        run-append ops rp2040 start (first_actions rp2040 ++ erase ++ write) (reset ∷ [])
            ∙ ap (λ o. run ops rp2040 o (reset ∷ []))
                (run-append ops rp2040 start (first_actions rp2040 ++ erase) write
                  ∙ ap (λ o. run ops rp2040 o write)
                      (run-append ops rp2040 start (first_actions rp2040) erase
                        ∙ ap (λ o. run ops rp2040 o erase)
                            (run-first rp2040 interrupts f sector cleared)
                        ∙ run-erase_actions ops rp2040 num_regions 0 u.region_erased f rp2040 sector
                            cleared)
                  ∙ left),
        refl,
        refl,
        refl,
      )
