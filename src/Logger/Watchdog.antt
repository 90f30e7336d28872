-- ===== src/Logger/Watchdog.antt =====
-- pico_logger/pico_logger.c: when the alarm of the watchdog is due. The timer counts microseconds, and
-- an alarm is due when the 32 bits of the timer are its own.
use pico_https.Common.{
  ℕ, ◌+◌, ◌-◌, ◌*◌, ◌%◌, ◌^◌, ◌≤◌, ◌<◌, Bool, true, false, not, ◌≡◌, refl, ◌∙◌, ap, Option, none,
  some, Bytes, arith,
}
use mathlib.Core.Logic.{◌↔◌}
use pico_https.Common.Tests.{ltb, ◌==◌, if-elim}
use pico_https.Common.Lists.{length}
use pico_https.Common.Text.{ascii}
use pico_https.Logger.Message.{Logger, buffer_size, prefix, trace, send_message, format_message}
use pico_https.Logger.Crash.{Report, saved_crash, send_report}
use pico_https.Logger.Server.{
  Server, Boot, report_saved_crash, update_watchdog, start_watchdog, start_handlers,
  start_logging_server,
}
use pico_https.Logger.Boot.{handled, start_succeeds}

format_message-timeout :
    (l : Logger) (us : ℕ) (category text : Bytes)
    → (format_message l us category text).0.watchdog_timeout_us ≡ l.watchdog_timeout_us
unfolding format_message
format_message-timeout l us category text =
    if-elim (λ (r : Logger × ℕ). r.0.watchdog_timeout_us ≡ l.watchdog_timeout_us)
      (ltb (length (prefix l us category)) (buffer_size - 1)) (λ _. refl) (λ _. refl)

trace-timeout :
    (l : Logger) (us : ℕ) (has_memory : ℕ → Bool) (text : Bytes)
    → (trace l us has_memory text).0.watchdog_timeout_us ≡ l.watchdog_timeout_us
unfolding trace send_message
trace-timeout l us has_memory text = format_message-timeout l us (ascii "trace") text

report_saved_crash-alarm :
    (boot : Boot) (s : Server)
    → ((report_saved_crash boot s).0.logger.watchdog_timeout_us ≡ s.logger.watchdog_timeout_us)
      × ((report_saved_crash boot s).0.alarm ≡ s.alarm)
      × ((report_saved_crash boot s).0.alarm_irq ≡ s.alarm_irq)
unfolding report_saved_crash send_report
report_saved_crash-alarm boot s =
    (sent (saved_crash boot.caused boot.enable_caused s.ram).1, refl, refl)
  where
    sent :
        (o : Option Report)
        → (send_report boot.stack_text s.logger boot.at_report boot.at_stack
            o).0.watchdog_timeout_us
          ≡ s.logger.watchdog_timeout_us
    sent none = refl
    sent (some report) =
        trace-timeout (trace s.logger boot.at_report.us boot.at_report.has_memory report.text).0
          boot.at_stack.us boot.at_stack.has_memory (boot.stack_text report.call_stack)
        ∙ trace-timeout s.logger boot.at_report.us boot.at_report.has_memory report.text

start_handlers-alarm :
    (boot : Boot) (s : Server) (watchdog_ms : ℕ)
    → 0 < watchdog_ms
    → watchdog_ms * 1000 < 2 ^ 32
    → ((start_handlers boot s watchdog_ms).logger.watchdog_timeout_us ≡ watchdog_ms * 1000)
      × ((start_handlers boot s watchdog_ms).alarm ≡ (boot.timerawl + watchdog_ms * 1000) % 2 ^ 32)
      × ((start_handlers boot s watchdog_ms).alarm_irq ≡ true)
unfolding start_handlers start_watchdog
start_handlers-alarm boot s watchdog_ms some_ fits =
    if-elim
      (λ (r : Server).
        (r.logger.watchdog_timeout_us ≡ watchdog_ms * 1000)
        × (r.alarm ≡ (boot.timerawl + watchdog_ms * 1000) % 2 ^ 32)
        × (r.alarm_irq ≡ true))
      (not (watchdog_ms == 0)) (λ _. (omega arith, omega arith, refl))
      (λ none_. absurd (zero none_))
  where
    zero : not (watchdog_ms == 0) ≡ false → ⊥
    zero none_ = ground arith

-- An alarm that is set `timeout` ahead of the timer.
due :
    (now timeout n : ℕ)
    → timeout < 2 ^ 32
    → 0 < n
    → n ≤ timeout
    → ((now + n) % 2 ^ 32 ≡ (now + timeout) % 2 ^ 32) ↔ (n ≡ timeout)
due now timeout n fits some_ l = (λ e. omega arith, λ e. omega arith)

module _ (boot : Boot) (s : Server) (watchdog_ms a : ℕ) where
  abbrev pub running : Server
  running = (start_logging_server boot s watchdog_ms).1

  -- Behind a start that succeeds, with a time of at least 1 ms whose microseconds are below 2^32: the
  -- alarm's interrupt is on, and up to that time the alarm is due exactly when the whole time has gone
  -- by since the start, and, after `update_watchdog`, since that call.
  pub start_logging_server-update_watchdog :
      (now n : ℕ)
      → boot.remote_addr ≡ some a
      → boot.bind_upstream ≡ 0
      → boot.bind_binary ≡ 0
      → watchdog_ms * 1000 < 2 ^ 32
      → 0 < n
      → n ≤ watchdog_ms * 1000
      → (running.alarm_irq ≡ true)
        × (((boot.timerawl + n) % 2 ^ 32 ≡ running.alarm) ↔ (n ≡ watchdog_ms * 1000))
        × (((now + n) % 2 ^ 32 ≡ (update_watchdog running now).alarm) ↔ (n ≡ watchdog_ms * 1000))
  unfolding update_watchdog
  start_logging_server-update_watchdog now n remote bound bound_binary fits some_ l =
      let connected = record s { upstream = some a; binary_upstream = some a } in
      let s' = handled boot s watchdog_ms a remote bound bound_binary in
      let (timeout, alarm, irq) =
        start_handlers-alarm boot connected watchdog_ms (omega arith) fits in
      let (timeout', alarm', irq') = report_saved_crash-alarm boot s' in
      let e = start_succeeds boot s watchdog_ms a remote bound bound_binary in
      let ends : running.alarm ≡ (boot.timerawl + watchdog_ms * 1000) % 2 ^ 32 =
        ap (λ r. r.1.alarm) e ∙ alarm' ∙ alarm in
      let ends_later : (update_watchdog running now).alarm ≡ (now + watchdog_ms * 1000) % 2 ^ 32 =
        ap (λ t. (now + t) % 2 ^ 32)
          (ap (λ r. r.1.logger.watchdog_timeout_us) e ∙ timeout' ∙ timeout) in
      (
        ap (λ r. r.1.alarm_irq) e ∙ irq' ∙ irq,
        rw ends (due boot.timerawl (watchdog_ms * 1000) n fits some_ l),
        rw ends_later (due now (watchdog_ms * 1000) n fits some_ l),
      )
