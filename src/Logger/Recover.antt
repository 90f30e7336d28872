-- ===== src/Logger/Recover.antt =====
-- pico_logger/pico_logger.c: a crash, the restart, and the report at the next start.
use pico_https.Common.{
  ℕ, ◌-◌, ◌≤◌, ◌<◌, false, not, ◌≡◌, refl, ◌∙◌, ap, ap₂, Option, none, some, List, [], ◌∷◌, ◌++◌,
  Bytes, arith,
}
use pico_https.Common.Tests.{◌==◌, if◌then◌else◌, if-elim}
use pico_https.Common.Lists.{length, take, replicate, length-memcpy}
use pico_https.Logger.Message.{Logger, trace, initial, address_size}
use pico_https.Logger.Line.{line, IsLogger}
use pico_https.Logger.Sent.{message, trace_lem}
use pico_https.Logger.Crash.{
  Ram, Report, saved_crash, send_report, crash_text, cmb_call_stack_max_depth, fault_init,
}
use pico_https.Logger.Restart.{fault_init-saved_crash}
use pico_https.Logger.Server.{
  Server, Boot, Output, set_address, report_saved_crash, start_watchdog, start_handlers,
  start_logging_server, fail,
}
use pico_https.Logger.Boot.{handled, start_succeeds}

-- The board when it has been reset: what is in `Ram` stays.
abbrev pub restarted : Server → Server
restarted s = record {
  logger = initial;
  ram = s.ram;
  fault_handler = false;
  alarm_irq = false;
  alarm = 0;
  upstream = none;
  binary_upstream = none;
}

start_handlers-ram :
    (boot : Boot) (s : Server) (watchdog_ms : ℕ) → (start_handlers boot s watchdog_ms).ram ≡ s.ram
unfolding start_handlers start_watchdog
start_handlers-ram boot s watchdog_ms = ground arith

start_handlers-IsLogger :
    (boot : Boot) (s : Server) (watchdog_ms : ℕ)
    → IsLogger s.logger
    → IsLogger (start_handlers boot s watchdog_ms).logger
unfolding start_handlers start_watchdog set_address
start_handlers-IsLogger boot s watchdog_ms v =
    let address =
      length-memcpy s.logger.address 0
        (take (address_size - 1) (boot.own_address ++ replicate (address_size - 1) 0))
      ∙ v.1 in
    if-elim (λ (r : Server). IsLogger r.logger) (not (watchdog_ms == 0)) (λ _. (v.0, address, v.2))
      (λ _. (v.0, address, v.2))

report_saved_crash_lem :
    (boot : Boot) (s : Server) (ram : Ram) (report : Report)
    → saved_crash boot.caused boot.enable_caused s.ram ≡ (ram, some report)
    → ((report_saved_crash boot s).1.call_stack ≡ report.call_stack)
      × ((report_saved_crash boot s).1.datagrams
          ≡ (trace s.logger boot.at_report.us boot.at_report.has_memory report.text).1
            ++ (trace
                (trace s.logger boot.at_report.us boot.at_report.has_memory report.text).0
                boot.at_stack.us
                boot.at_stack.has_memory
                (boot.stack_text report.call_stack)).1)
      × ((report_saved_crash boot s).0.ram ≡ ram)
unfolding report_saved_crash send_report
report_saved_crash_lem boot s ram report e =
    let sent = λ (r : Ram × Option Report).
      send_report boot.stack_text s.logger boot.at_report boot.at_stack r.1 in
    (ap (λ r. (sent r).2) e, ap (λ r. (sent r).1) e, ap (λ r. r.0) e)

initial-IsLogger : IsLogger initial
initial-IsLogger = (refl, refl, omega arith)

module _ (call_stack : ℕ → ℕ → List ℕ) (sp : ℕ) (s : Server) (boot : Boot) (watchdog_ms a : ℕ) where
  abbrev again : ℕ × Server × Output
  again = start_logging_server boot (restarted (fail call_stack s sp)) watchdog_ms

  -- The logger when the report is sent.
  abbrev pub logger_again : Logger
  logger_again =
      (start_handlers boot
        (record (restarted (fail call_stack s sp)) { upstream = some a; binary_upstream = some a })
        watchdog_ms).logger

  abbrev report_text : Bytes
  report_text = crash_text boot.caused boot.enable_caused (fail call_stack s sp).ram

  abbrev pub crash_message : Bytes
  crash_message = message logger_again boot.at_report.us report_text

  -- The text that cm_backtrace prints, with the number behind the report's.
  abbrev pub stack_message : Bytes
  stack_message =
      message (trace logger_again boot.at_report.us boot.at_report.has_memory report_text).0
        boot.at_stack.us (boot.stack_text (call_stack cmb_call_stack_max_depth sp))

  -- After `fail` or `pico_logger_panic`, with a call stack of 1 to 50 addresses, and the reset: a
  -- start that finds its address and binds both sockets gives the whole call stack to
  -- `cm_print_call_stack`, sends the line of the report and then the line of what cm_backtrace prints
  -- of the call stack, each if there is memory for it, and leaves the saved crash for the next start.
  pub fail-start_logging_server :
      0 < length (call_stack cmb_call_stack_max_depth sp)
      → length (call_stack cmb_call_stack_max_depth sp) ≤ cmb_call_stack_max_depth
      → length s.ram.call_stack_buf ≡ cmb_call_stack_max_depth
      → boot.remote_addr ≡ some a
      → boot.bind_upstream ≡ 0
      → boot.bind_binary ≡ 0
      → (again.0 ≡ 1)
        × (again.2.call_stack ≡ call_stack cmb_call_stack_max_depth sp)
        × (again.2.datagrams
            ≡ (if boot.at_report.has_memory (length (line crash_message))
                then line crash_message ∷ []
                else [])
              ++ (if boot.at_stack.has_memory (length (line stack_message))
                  then line stack_message ∷ []
                  else []))
        × (again.1.ram ≡ (fail call_stack s sp).ram)
  unfolding fail
  fail-start_logging_server deep fits size remote bound bound_binary =
      let down = restarted (fail call_stack s sp) in
      let connected = record down { upstream = some a; binary_upstream = some a } in
      let s' = handled boot down watchdog_ms a remote bound bound_binary in
      let kept : s'.ram ≡ fault_init call_stack s.ram sp =
        start_handlers-ram boot connected watchdog_ms in
      let report =
        ap (λ ram. saved_crash boot.caused boot.enable_caused ram) kept
        ∙ (fault_init-saved_crash call_stack sp s.ram boot.caused boot.enable_caused deep fits
            size).0 in
      let (pcs, datagrams, ram) = report_saved_crash_lem boot s' _ _ report in
      let v = start_handlers-IsLogger boot connected watchdog_ms initial-IsLogger in
      let e = start_succeeds boot down watchdog_ms a remote bound bound_binary in
      let first =
        trace_lem logger_again boot.at_report.us report_text v boot.at_report.has_memory in
      let again_ = (trace logger_again boot.at_report.us boot.at_report.has_memory report_text).0 in
      (
        ap (λ r. r.0) e,
        ap (λ r. r.2.call_stack) e ∙ pcs,
        ap (λ r. r.2.datagrams) e
            ∙ datagrams
            ∙ ap₂ (λ front more. front ++ more) first.0
                ((trace_lem again_ boot.at_stack.us
                  (boot.stack_text (call_stack cmb_call_stack_max_depth sp)) first.2
                  boot.at_stack.has_memory).0),
        ap (λ r. r.1.ram) e ∙ ram,
      )
