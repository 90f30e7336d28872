-- ===== src/Sleep/Tests.antt =====
-- A board that sleeps and one that does not.
use pico_https.Common.{◌-◌, ◌^◌, bit_and, true, false, ◌≡◌, refl, none}
use pico_https.Sleep.Calls.{Sdk, asleep}
use pico_https.Sleep.Deepsleep.{
  execute, pico_deepsleep, pico_deepsleep_init, pico_deepsleep_execute, pico_deepsleep_wake_reason,
  pico_deepsleep_wake_reason_gpio,
}
use pico_https.Sleep.Order.{Outcome, before, pico_deepsleep_lem}

-- Woken by `pwrup1`.
abbrev sdk : Sdk
sdk = record {
  is_rp2040 = false;
  timer_ms = 1704067200001;
  state_none = 0xFF;
  switched_core = 3;
  xip_cache = 2;
  with_domain_on = λ state domain. bit_and state (0xFF - 2 ^ domain);
  is_valid = λ off on. true;
  set_state_rc = λ state. 0;
  last_swcore_pwrup = 0x104;
}

sleeps : (pico_deepsleep sdk 60000).0 ≡ asleep
unfolding pico_deepsleep pico_deepsleep_init pico_deepsleep_execute execute
sleeps = refl

woken :
    (pico_deepsleep_wake_reason sdk ≡ 4)
    × (pico_deepsleep_wake_reason_gpio sdk 1 ≡ true)
    × (pico_deepsleep_wake_reason_gpio sdk 0 ≡ false)
unfolding pico_deepsleep_wake_reason pico_deepsleep_wake_reason_gpio
woken = (refl, refl, refl)

pico_deepsleep_lem_example : Outcome sdk 60000 (before none none 1 2 3 4) (pico_deepsleep sdk 60000)
pico_deepsleep_lem_example = pico_deepsleep_lem sdk 60000 1 2 3 4 none none refl
