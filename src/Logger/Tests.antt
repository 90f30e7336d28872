-- ===== src/Logger/Tests.antt =====
-- A start, a message and a crash of pico_logger.c at concrete inputs, and its theorems there.
use pico_https.Common.{
  ℕ, ◌+◌, ◌*◌, ◌%◌, ◌^◌, ◌≤◌, true, false, ◌≡◌, refl, ◌⊎◌, none, some, List, [], ◌∷◌, ◌++◌, Bytes,
  All, arith,
}
use mathlib.Core.Logic.{◌↔◌}
use pico_https.Common.Lists.{length, get_or, take, replicate}
use pico_https.Common.Text.{ascii, print_int}
use pico_https.Logger.Message.{
  Logger, initial, buffer_size, c_string, padded, get_logging_id, prefix, end_line, cap,
  format_message, send_message, trace, safestr,
}
use pico_https.Logger.Line.{line, IsLogger}
use pico_https.Logger.Sent.{message, trace_lem}
use pico_https.Logger.Numbers.{number_of, traces, traces-number_of}
use pico_https.Logger.Crash.{
  Ram, writes, write, fault_writes, fault_init, saved_crash, send_report, crash_text, print_hex,
}
use pico_https.Logger.Restart.{fault_init_cut}
use pico_https.Logger.Server.{
  Server, Boot, set_address, report_saved_crash, update_watchdog, start_watchdog, start_handlers,
  start_sockets, start_with, start_logging_server, fail,
}
use pico_https.Logger.Boot.{Failed, Started, start_logging_server_lem}
use pico_https.Logger.Recover.{restarted, crash_message, stack_message, fail-start_logging_server}
use pico_https.Logger.Watchdog.{running, start_logging_server-update_watchdog}

abbrev logger : Logger
logger = record initial { address = ascii "10.0.0.7" ++ replicate 38 0; log_count = 998 }

logger-IsLogger : IsLogger logger
logger-IsLogger = (refl, refl, omega arith)

trace_hello :
    (trace logger 1234000 (λ n. true) (ascii "hello")).1
    ≡ ascii "998     1234 10.0.0.7 trace hello\n" ∷ []
unfolding trace send_message format_message prefix get_logging_id c_string padded print_int end_line
    cap
trace_hello = refl

-- A message that fills the buffer loses its end.
trace_long :
    (length (line (replicate 1499 b'a')) ≡ 1499) × (get_or (line (replicate 1499 b'a')) 1498 1 ≡ 0)
unfolding line
trace_long = (refl, refl)

safestr_null : safestr none ≡ ascii "null"
unfolding safestr
safestr_null = refl

trace_lem_example :
    ((trace logger 1234000 (λ n. true) (ascii "hello")).1
      ≡ line (message logger 1234000 (ascii "hello")) ∷ [])
    × ((trace logger 1234000 (λ n. true) (ascii "hello")).0.log_count
        ≡ (logger.log_count + 1) % 999)
    × IsLogger (trace logger 1234000 (λ n. true) (ascii "hello")).0
    × All
        (λ datagram. length datagram ≤ buffer_size)
        (trace logger 1234000 (λ n. true) (ascii "hello")).1
trace_lem_example = trace_lem logger 1234000 (ascii "hello") logger-IsLogger (λ n. true)

abbrev two_messages : List (ℕ × Bytes)
two_messages = (1000, ascii "first") ∷ (2000, ascii "second") ∷ []

traces-number_of_example :
    (length (traces logger two_messages).1 ≡ 2)
    × (number_of (get_or (traces logger two_messages).1 1 []) ≡ (logger.log_count + 1) % 999)
traces-number_of_example = traces-number_of logger two_messages 1 logger-IsLogger (omega arith)

-- What cm_backtrace finds.
abbrev two_calls : ℕ → ℕ → List ℕ
two_calls size sp = 0x10000100 ∷ 0x10000200 ∷ []

abbrev empty_ram : Ram
empty_ram = record { last_command = 0; cur_depth = 0; call_stack_buf = replicate 50 0 }

five_writes : length (fault_writes two_calls 0x20040000) ≡ 5
unfolding fault_writes
five_writes = refl

fault_init_cut_example :
    (saved_crash false false (writes empty_ram (take 3 (fault_writes two_calls 0x20040000)))).1
    ≡ none
fault_init_cut_example =
    fault_init_cut two_calls 0x20040000 empty_ram false false 3 (omega arith)
      (omega (arith, five_writes))

abbrev boot : Boot
boot = record {
  configured = ascii "10.0.0.1";
  remote_addr = some 0x0100000A;
  bind_upstream = 0;
  bind_binary = 0;
  own_address = ascii "10.0.0.7";
  timerawl = 5000;
  caused = true;
  enable_caused = false;
  at_report = record { us = 7000; has_memory = λ n. true };
  at_stack = record { us = 8000; has_memory = λ n. true };
  stack_text = λ stack. ascii "stack of " ++ print_int (length stack);
}

abbrev server : Server
server = record {
  logger = logger;
  ram = empty_ram;
  fault_handler = true;
  alarm_irq = true;
  alarm = 0;
  upstream = none;
  binary_upstream = none;
}

start_logging_server_lem_example :
    Failed server (start_logging_server boot server 2000)
    ⊎ Started boot server 2000 (start_logging_server boot server 2000)
start_logging_server_lem_example = start_logging_server_lem boot server 2000

abbrev crashed : Server
crashed = fail two_calls server 0x20040000

-- The datagrams of the report and of the call stack.
report_sent :
    (start_logging_server boot (restarted crashed) 2000).2.datagrams
    ≡ (ascii "  0        7 10.0.0.7 trace report_saved_crash: last boot info, watchdog: 1/0, "
        ++ ascii "last_command: 0xdeadbeef, cur_depth: 2\n")
      ∷ ascii "  1        8 10.0.0.7 trace stack of 2\n"
      ∷ []
unfolding start_logging_server start_with start_sockets start_handlers start_watchdog set_address
    report_saved_crash saved_crash crash_text print_hex send_report fail fault_init fault_writes
    writes write trace send_message format_message prefix get_logging_id c_string padded print_int
    end_line cap
report_sent = refl

fail-start_logging_server_example :
    ((start_logging_server boot (restarted crashed) 2000).0 ≡ 1)
    × ((start_logging_server boot (restarted crashed) 2000).2.call_stack
        ≡ 0x10000100 ∷ 0x10000200 ∷ [])
    × ((start_logging_server boot (restarted crashed) 2000).2.datagrams
        ≡ line (crash_message two_calls 0x20040000 server boot 2000 0x0100000A)
          ∷ line (stack_message two_calls 0x20040000 server boot 2000 0x0100000A)
          ∷ [])
    × ((start_logging_server boot (restarted crashed) 2000).1.ram ≡ crashed.ram)
fail-start_logging_server_example =
    fail-start_logging_server two_calls 0x20040000 server boot 2000 0x0100000A (omega arith)
      (omega arith) refl refl refl refl

-- 3 ms after an update, with 2000 ms allowed.
start_logging_server-update_watchdog_example :
    ((running boot server 2000 0x0100000A).alarm_irq ≡ true)
    × (((boot.timerawl + 3000) % 2 ^ 32 ≡ (running boot server 2000 0x0100000A).alarm)
        ↔ (3000 ≡ 2000 * 1000))
    × (((9000 + 3000) % 2 ^ 32 ≡ (update_watchdog (running boot server 2000 0x0100000A) 9000).alarm)
        ↔ (3000 ≡ 2000 * 1000))
start_logging_server-update_watchdog_example =
    start_logging_server-update_watchdog boot server 2000 0x0100000A 9000 3000 refl refl refl
      (omega arith) (omega arith) (omega arith)
