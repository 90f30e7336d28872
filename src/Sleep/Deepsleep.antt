-- ===== src/Sleep/Deepsleep.antt =====
-- pico_sleep/pico_sleep.c: each function, with its result and its calls in order.
use pico_https.Common.{ℕ, ◌+◌, ◌*◌, ◌%◌, ◌^◌, bit_and, Bool, true, false, not, List, [], ◌∷◌, ◌++◌}
use pico_https.Common.Tests.{◌==◌, if◌then◌else◌}
use pico_https.Common.Text.{ascii, print_int}
use pico_https.Sleep.Calls.{
  Sdk, Call, set_sys_clock_48mhz, cyw43_arch_deinit, clear_timer_intr, watchdog_disable,
  unlock_vreg_ctrl, write_phy_direct, write_phy_direct_override, powman_timer_start,
  powman_timer_set_ms, ignore_debug_power_request, powman_timer_get_ms,
  powman_enable_alarm_wakeup_at_ms, stdio_flush, powman_configure_wakeup_state, write_boot,
  powman_set_power_state, trace_failure, wfi, powman_enable_gpio_wakeup, Ending, returned, asleep,
}

abbrev pub abs_time_ms : ℕ
abs_time_ms = 1704067200000

-- What `pico_deepsleep_init` calls, with a sum of 64 bits.
abbrev pub init_calls : Sdk → ℕ → List Call
init_calls sdk sleep_time_ms =
    set_sys_clock_48mhz
    ∷ cyw43_arch_deinit
    ∷ clear_timer_intr
    ∷ watchdog_disable
    ∷ unlock_vreg_ctrl
    ∷ write_phy_direct
    ∷ write_phy_direct_override
    ∷ powman_timer_start
    ∷ powman_timer_set_ms abs_time_ms
    ∷ ignore_debug_power_request
    ∷ powman_timer_get_ms
    ∷ powman_enable_alarm_wakeup_at_ms ((sdk.timer_ms + sleep_time_ms) % 2 ^ 64)
    ∷ stdio_flush
    ∷ []

unfoldable pub pico_deepsleep_init : Sdk → (sleep_time_ms : ℕ) → Bool × List Call
pico_deepsleep_init sdk sleep_time_ms =
    if sdk.is_rp2040 then (false, []) else (true, init_calls sdk sleep_time_ms)

-- `P0_3`
abbrev pub on_state : Sdk → ℕ
on_state sdk =
    sdk.with_domain_on (sdk.with_domain_on sdk.state_none sdk.switched_core) sdk.xip_cache

abbrev boot_calls : List Call
boot_calls = write_boot 0 0 ∷ write_boot 1 0 ∷ write_boot 2 0 ∷ write_boot 3 0 ∷ []

-- What `pico_deepsleep_execute` does on the RP2350.
unfoldable pub execute : Sdk → Ending × List Call
execute sdk =
    let off = sdk.state_none in
    let configure = powman_configure_wakeup_state off (on_state sdk) in
    let rc = sdk.set_state_rc off in
    let switch = configure ∷ (boot_calls ++ powman_set_power_state off ∷ []) in
    if not (sdk.is_valid off (on_state sdk))
    then (
      returned false,
      configure
          ∷ trace_failure (ascii "sleep: powman_configure_wakeup_state failed, invalid state")
          ∷ [],
    )
    else if not (rc == 0)
    then (
      returned false,
      switch
          ++ trace_failure (ascii "sleep: powman_set_power_state failed, rc: " ++ print_int rc)
            ∷ [],
    )
    else (asleep, switch ++ wfi ∷ [])

unfoldable pub pico_deepsleep_execute : Sdk → Ending × List Call
unfolding execute
pico_deepsleep_execute sdk = if sdk.is_rp2040 then (returned false, []) else execute sdk

-- `pico_deepsleep`
unfoldable pub pico_deepsleep : Sdk → (sleep_time_ms : ℕ) → Ending × List Call
unfolding pico_deepsleep_init pico_deepsleep_execute
pico_deepsleep sdk sleep_time_ms =
    let (ok, calls) = pico_deepsleep_init sdk sleep_time_ms in
    let (ending, others) = pico_deepsleep_execute sdk in
    if not ok then (returned false, calls) else (ending, calls ++ others)

-- `pico_deepsleep_set_gpio`
unfoldable pub pico_deepsleep_set_gpio :
    Sdk → (hw_instance gpio : ℕ) → (edge high : Bool) → List Call
pico_deepsleep_set_gpio sdk hw_instance gpio edge high =
    if sdk.is_rp2040 then [] else powman_enable_gpio_wakeup hw_instance gpio edge high ∷ []

-- `pico_deepsleep_wake_reason_gpio`, for an instance whose bit is in an `int`.
unfoldable pub pico_deepsleep_wake_reason_gpio : Sdk → (hw_instance : ℕ) → Bool
pico_deepsleep_wake_reason_gpio sdk hw_instance =
    if sdk.is_rp2040 then false else not (bit_and sdk.last_swcore_pwrup (2 * 2 ^ hw_instance) == 0)

-- `pico_deepsleep_wake_reason`
unfoldable pub pico_deepsleep_wake_reason : Sdk → ℕ
pico_deepsleep_wake_reason sdk = bit_and sdk.last_swcore_pwrup 0x7F
