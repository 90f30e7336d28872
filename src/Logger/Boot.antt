-- ===== src/Logger/Boot.antt =====
-- pico_logger/pico_logger.c: the start of the server on every branch, and after a crash.
use pico_https.Common.{
  ℕ, true, false, not, ◌||◌, ◌≡◌, ◌⊎◌, inl, inr, refl, ◌∙◌, ap, sym, Option, none, some, [], arith,
}
use pico_https.Common.Tests.{◌==◌, if-elim}
use pico_https.Common.Lists.{length}
use pico_https.Logger.Server.{
  Server, Boot, Output, report_saved_crash, start_watchdog, start_handlers, start_sockets,
  start_with, start_logging_server,
}

-- What a start leaves and gives out, if it fails and if it succeeds.
abbrev pub Failed : Server → ℕ × Server × Output → Type 0
Failed s (result, s', output) =
    (result ≡ 0)
    × (s'.logger ≡ s.logger)
    × (s'.ram ≡ s.ram)
    × (s'.fault_handler ≡ s.fault_handler)
    × (s'.alarm_irq ≡ s.alarm_irq)
    × (s'.alarm ≡ s.alarm)
    × (s'.binary_upstream ≡ s.binary_upstream)
    × (length output.printed ≡ 1)
    × (output.datagrams ≡ [])
    × (output.call_stack ≡ [])

abbrev pub Started : Boot → Server → ℕ → ℕ × Server × Output → Type 0
Started boot s watchdog_ms (result, s', output) =
    (result ≡ 1)
    × (boot.bind_upstream ≡ 0)
    × (boot.bind_binary ≡ 0)
    × (s'.upstream ≡ boot.remote_addr)
    × (s'.binary_upstream ≡ boot.remote_addr)
    × (s'.fault_handler ≡ true)
    × (s'.alarm_irq ≡ not (watchdog_ms == 0) || s.alarm_irq)
    × (output.printed ≡ [])

start_handlers-alarm_irq :
    (boot : Boot) (s : Server) (watchdog_ms : ℕ)
    → ((start_handlers boot s watchdog_ms).alarm_irq ≡ not (watchdog_ms == 0) || s.alarm_irq)
      × ((start_handlers boot s watchdog_ms).fault_handler ≡ true)
      × ((start_handlers boot s watchdog_ms).upstream ≡ s.upstream)
      × ((start_handlers boot s watchdog_ms).binary_upstream ≡ s.binary_upstream)
unfolding start_handlers start_watchdog
start_handlers-alarm_irq boot s watchdog_ms = ground arith

start_with_lem :
    (boot : Boot) (s : Server) (watchdog_ms : ℕ) (remote : Option ℕ)
    → boot.remote_addr ≡ remote
    → Failed s (start_with boot s watchdog_ms remote)
      ⊎ Started boot s watchdog_ms (start_with boot s watchdog_ms remote)
unfolding start_with start_sockets report_saved_crash
start_with_lem boot s watchdog_ms none e =
    inl (refl, refl, refl, refl, refl, refl, refl, refl, refl, refl)
start_with_lem boot s watchdog_ms (some a) e =
    let connected = record s { upstream = some a; binary_upstream = some a } in
    let (irq, handlers, upstream, binary) = start_handlers-alarm_irq boot connected watchdog_ms in
    let P = λ (r : ℕ × Server × Output). Failed s r ⊎ Started boot s watchdog_ms r in
    if-elim P (not (boot.bind_upstream == 0))
      (λ _. inl (refl, refl, refl, refl, refl, refl, refl, refl, refl, refl))
      (λ b.
        if-elim P (not (boot.bind_binary == 0))
          (λ _. inl (refl, refl, refl, refl, refl, refl, refl, refl, refl, refl))
          (λ b'. inr (
            refl,
            not-==_zero boot.bind_upstream b,
            not-==_zero boot.bind_binary b',
            upstream ∙ sym e,
            binary ∙ sym e,
            handlers,
            irq,
            refl,
          )))
  where
    not-==_zero : (n : ℕ) → not (n == 0) ≡ false → n ≡ 0
    not-==_zero n b = ground arith

-- A start fails, with one message and nothing sent or reported, and the log, the saved crash, the
-- handlers, the alarm and the binary socket as they were; or it succeeds, with both sockets bound and
-- connected to the configured address, the handlers set, and the alarm on if a time is given.
pub start_logging_server_lem :
    (boot : Boot) (s : Server) (watchdog_ms : ℕ)
    → Failed s (start_logging_server boot s watchdog_ms)
      ⊎ Started boot s watchdog_ms (start_logging_server boot s watchdog_ms)
unfolding start_logging_server
start_logging_server_lem boot s watchdog_ms =
    start_with_lem boot s watchdog_ms boot.remote_addr refl

-- A start that succeeds, with its report.
module _ (boot : Boot) (s : Server) (watchdog_ms a : ℕ) (remote : boot.remote_addr ≡ some a)
    (bound : boot.bind_upstream ≡ 0) (bound_binary : boot.bind_binary ≡ 0) where
  abbrev pub handled : Server
  handled =
      start_handlers boot (record s { upstream = some a; binary_upstream = some a }) watchdog_ms

  pub start_succeeds :
      start_logging_server boot s watchdog_ms
      ≡ (1, (report_saved_crash boot handled).0, (report_saved_crash boot handled).1)
  unfolding start_logging_server start_with start_sockets
  start_succeeds =
      let good : ℕ × Server × Output =
        (1, (report_saved_crash boot handled).0, (report_saved_crash boot handled).1) in
      let P = λ (r : ℕ × Server × Output). r ≡ good in
      ap (λ o. start_with boot s watchdog_ms o) remote
      ∙ if-elim P (not (boot.bind_upstream == 0)) (λ bad. absurd (not-==_zero bad bound))
          (λ _.
            if-elim P (not (boot.bind_binary == 0)) (λ bad. absurd (not-==_zero bad bound_binary))
              (λ _. refl))
    where
      not-==_zero : {n : ℕ} → not (n == 0) ≡ true → n ≡ 0 → ⊥
      not-==_zero b e = ground arith
