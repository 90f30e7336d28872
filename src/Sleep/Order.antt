-- ===== src/Sleep/Order.antt =====
-- pico_sleep/pico_sleep.c: what the board has been told when it is switched off.
use pico_https.Common.{
  ℕ, ◌+◌, ◌%◌, ◌^◌, Bool, true, false, not, ◌≡◌, ◌≢◌, ◌⊎◌, inl, inr, refl, ap, sym, Option, some,
  List, [], ◌∷◌, ◌++◌, arith,
}
use mathlib.Core.Path.{subst}
use pico_https.Common.Tests.{◌==◌, if◌then◌else◌, if-elim}
use pico_https.Common.Lists.{set}
use pico_https.Sleep.Calls.{
  Sdk, Call, powman_enable_alarm_wakeup_at_ms, powman_configure_wakeup_state, write_boot,
  powman_set_power_state, Ending, returned, asleep,
}
use pico_https.Sleep.Deepsleep.{
  on_state, init_calls, execute, pico_deepsleep, pico_deepsleep_init, pico_deepsleep_execute,
}

-- What wakes the board and how it starts: the alarm, the states, the boot registers; and all of this at
-- the time of each switch to another power state.
pub record Wakeup : Type 0 where
  pub alarm_ms : Option ℕ
  pub states : Option (ℕ × ℕ)
  pub boot : List ℕ

abbrev pub told : Wakeup → List Call → List (ℕ × Wakeup)
told w [] = []
told w (powman_enable_alarm_wakeup_at_ms ms ∷ calls) = told (record w { alarm_ms = some ms }) calls
told w (powman_configure_wakeup_state off on ∷ calls) =
    told (record w { states = some (off, on) }) calls
told w (write_boot register value ∷ calls) =
    told (record w { boot = set w.boot register value }) calls
told w (powman_set_power_state state ∷ calls) = (state, w) ∷ told w calls
told w (other ∷ calls) = told w calls

-- All that has to be set before a switch, for a sleep of `sleep_time_ms`.
abbrev pub ready : Sdk → ℕ → Wakeup
ready sdk sleep_time_ms = record {
  alarm_ms = some ((sdk.timer_ms + sleep_time_ms) % 2 ^ 64);
  states = some (sdk.state_none, on_state sdk);
  boot = 0 ∷ 0 ∷ 0 ∷ 0 ∷ [];
}

-- The boot registers hold anything before.
abbrev pub before : Option ℕ → Option (ℕ × ℕ) → (b0 b1 b2 b3 : ℕ) → Wakeup
before alarm states b0 b1 b2 b3 = record {
  alarm_ms = alarm;
  states = states;
  boot = b0 ∷ b1 ∷ b2 ∷ b3 ∷ [];
}

-- The three ways in which `pico_deepsleep` ends: the states are refused, the switch fails, or it sleeps.
abbrev pub Outcome : Sdk → ℕ → Wakeup → Ending × List Call → Type 0
Outcome sdk sleep_time_ms w (ending, calls) =
    ((ending ≡ returned false)
      × (sdk.is_valid sdk.state_none (on_state sdk) ≡ false)
      × (told w calls ≡ []))
    ⊎ ((ending ≡ returned false)
        × (sdk.is_valid sdk.state_none (on_state sdk) ≡ true)
        × (sdk.set_state_rc sdk.state_none ≢ 0)
        × (told w calls ≡ (sdk.state_none, ready sdk sleep_time_ms) ∷ []))
    ⊎ ((ending ≡ asleep)
        × (sdk.is_valid sdk.state_none (on_state sdk) ≡ true)
        × (sdk.set_state_rc sdk.state_none ≡ 0)
        × (told w calls ≡ (sdk.state_none, ready sdk sleep_time_ms) ∷ []))

pico_deepsleep-execute :
    (sdk : Sdk) (sleep_time_ms : ℕ)
    → sdk.is_rp2040 ≡ false
    → pico_deepsleep sdk sleep_time_ms
      ≡ ((execute sdk).0, init_calls sdk sleep_time_ms ++ (execute sdk).1)
unfolding pico_deepsleep pico_deepsleep_init pico_deepsleep_execute
pico_deepsleep-execute sdk sleep_time_ms rp2350 = ap on rp2350
  where
    on : Bool → Ending × List Call
    on rp2040 =
        let (ok, calls) : Bool × List Call =
          if rp2040 then (false, []) else (true, init_calls sdk sleep_time_ms) in
        let (ending, others) = if rp2040 then (returned false, []) else execute sdk in
        if not ok then (returned false, calls) else (ending, calls ++ others)

execute-Outcome :
    (sdk : Sdk) (sleep_time_ms b0 b1 b2 b3 : ℕ) (alarm : Option ℕ) (states : Option (ℕ × ℕ))
    → Outcome sdk sleep_time_ms
        (before alarm states b0 b1 b2 b3)
        ((execute sdk).0, init_calls sdk sleep_time_ms ++ (execute sdk).1)
unfolding execute
execute-Outcome sdk sleep_time_ms b0 b1 b2 b3 alarm states =
    let P = λ (r : Ending × List Call).
      Outcome sdk sleep_time_ms (before alarm states b0 b1 b2 b3)
        (r.0, init_calls sdk sleep_time_ms ++ r.1) in
    if-elim P (not (sdk.is_valid sdk.state_none (on_state sdk)))
      (λ refused. inl (refl, ground (arith, refused), refl))
      (λ valid.
        if-elim P (not (sdk.set_state_rc sdk.state_none == 0))
          (λ failed. inr (inl (refl, ground (arith, valid), ground (arith, failed), refl)))
          (λ switched. inr (inr (refl, ground (arith, valid), ground (arith, switched), refl))))

-- On the RP2350: `pico_deepsleep` never returns true. It sleeps if the SDK takes both states and
-- switches; else it returns false. Whatever was set before, the board is switched at most once, to the
-- off state, with the alarm `sleep_time_ms` behind the timer, the state for the wakeup configured, and
-- the boot registers 0; and it is not switched where the SDK refuses the states.
pub pico_deepsleep_lem :
    (sdk : Sdk) (sleep_time_ms b0 b1 b2 b3 : ℕ) (alarm : Option ℕ) (states : Option (ℕ × ℕ))
    → sdk.is_rp2040 ≡ false
    → Outcome sdk sleep_time_ms (before alarm states b0 b1 b2 b3) (pico_deepsleep sdk sleep_time_ms)
pico_deepsleep_lem sdk sleep_time_ms b0 b1 b2 b3 alarm states rp2350 =
    subst (Outcome sdk sleep_time_ms (before alarm states b0 b1 b2 b3))
      (sym (pico_deepsleep-execute sdk sleep_time_ms rp2350))
      (execute-Outcome sdk sleep_time_ms b0 b1 b2 b3 alarm states)
