-- ===== src/Sleep/Calls.antt =====
-- The Pico SDK as pico_sleep/pico_sleep.c calls it: what it answers, and the calls that the code makes.
use pico_https.Common.{ℕ, Bool, Bytes}

-- `powman_timer_get_ms`, the power states and domains, `powman_configure_wakeup_state`,
-- `powman_set_power_state` (32 bits, 0 for `PICO_OK`), `last_swcore_pwrup`, and whether `PICO_RP2040` is
-- defined.
pub record Sdk : Type 0 where
  pub is_rp2040 : Bool
  pub timer_ms : ℕ
  pub state_none : ℕ
  pub switched_core : ℕ
  pub xip_cache : ℕ
  pub with_domain_on : ℕ → ℕ → ℕ
  pub is_valid : (off_state on_state : ℕ) → Bool
  pub set_state_rc : ℕ → ℕ
  pub last_swcore_pwrup : ℕ

-- A call, or a write to a register; each is named for the function or the register.
pub data Call : Type 0 where
  set_sys_clock_48mhz : Call
  cyw43_arch_deinit : Call
  clear_timer_intr : Call
  watchdog_disable : Call
  unlock_vreg_ctrl : Call
  write_phy_direct : Call
  write_phy_direct_override : Call
  powman_timer_start : Call
  powman_timer_set_ms : ℕ → Call
  ignore_debug_power_request : Call
  powman_timer_get_ms : Call
  powman_enable_alarm_wakeup_at_ms : ℕ → Call
  stdio_flush : Call
  powman_configure_wakeup_state : (off_state on_state : ℕ) → Call
  write_boot : (register value : ℕ) → Call
  powman_set_power_state : ℕ → Call
  trace_failure : Bytes → Call
  wfi : Call
  powman_enable_gpio_wakeup : (hw_instance gpio : ℕ) → (edge high : Bool) → Call

-- A function returns, or it waits for ever for an interrupt.
pub data Ending : Type 0 where
  returned : Bool → Ending
  asleep : Ending
