-- ===== src/Logger/Server.antt =====
-- pico_logger/pico_logger.c: the start of the server, its watchdog, and the ways to restart.
use pico_https.Common.{
  ℕ, ◌+◌, ◌-◌, ◌*◌, ◌%◌, ◌^◌, Bool, true, not, Option, none, some, List, [], ◌∷◌, ◌++◌, Bytes,
}
use pico_https.Common.Tests.{◌==◌, if◌then◌else◌}
use pico_https.Common.Lists.{take, replicate, memcpy}
use pico_https.Common.Text.{ascii, print_int}
use pico_https.Logger.Message.{Logger, address_size}
use pico_https.Logger.Crash.{Ram, Moment, fault_init, saved_crash, send_report}

-- The variables of the file with the registers that it sets: whether `HardFault_Handler` is the handler
-- of the four exceptions, whether the alarm's interrupt is on with `watchdog_timeout` as its handler,
-- the alarm, and the address to which each socket is connected.
pub record Server : Type 0 where
  pub logger : Logger
  pub ram : Ram
  pub fault_handler : Bool
  pub alarm_irq : Bool
  pub alarm : ℕ
  pub upstream : Option ℕ
  pub binary_upstream : Option ℕ

-- What the SDK and lwIP answer: `ip4addr_aton` on the configured address, `udp_bind` for both sockets
-- (32 bits), the board's address as a text, the timer, the watchdog's flags, what each call of `trace`
-- meets, and the text that cm_backtrace prints for the addresses of a call stack.
pub record Boot : Type 0 where
  pub configured : Bytes
  pub remote_addr : Option ℕ
  pub bind_upstream : ℕ
  pub bind_binary : ℕ
  pub own_address : Bytes
  pub timerawl : ℕ
  pub caused : Bool
  pub enable_caused : Bool
  pub at_report : Moment
  pub at_stack : Moment
  pub stack_text : List ℕ → Bytes

-- What is given to `printf`, to `udp_send` and to `cm_print_call_stack`.
pub record Output : Type 0 where
  pub printed : List Bytes
  pub datagrams : List Bytes
  pub call_stack : List ℕ

abbrev pub printed_only : Bytes → Output
printed_only text = record { printed = text ∷ []; datagrams = []; call_stack = [] }

-- `strncpy(address, text, ADDRESS_SIZE-1)`
unfoldable pub set_address : Logger → Bytes → Logger
set_address l text = record l {
  address = memcpy l.address 0 (take (address_size - 1) (text ++ replicate (address_size - 1) 0));
}

-- `report_saved_crash`
unfoldable pub report_saved_crash : Boot → Server → Server × Output
report_saved_crash boot s =
    let (ram, report) = saved_crash boot.caused boot.enable_caused s.ram in
    let (logger, datagrams, call_stack) =
      send_report boot.stack_text s.logger boot.at_report boot.at_stack report in
    (
      record s { logger = logger; ram = ram },
      record { printed = []; datagrams = datagrams; call_stack = call_stack },
    )

-- `update_watchdog`
unfoldable pub update_watchdog : Server → (timerawl : ℕ) → Server
update_watchdog s timerawl = record s { alarm = (timerawl + s.logger.watchdog_timeout_us) % 2 ^ 32 }

-- The part of the start under `watchdog_ms != 0`.
unfoldable pub start_watchdog : Server → (timerawl watchdog_ms : ℕ) → Server
start_watchdog s timerawl watchdog_ms =
    let timeout = watchdog_ms * 1000 % 2 ^ 32 in
    record s {
      logger = record s.logger { watchdog_timeout_us = timeout };
      alarm_irq = true;
      alarm = (timerawl + timeout) % 2 ^ 32;
    }

-- From the exceptions' handlers on.
unfoldable pub start_handlers : Boot → Server → ℕ → Server
unfolding set_address start_watchdog
start_handlers boot s watchdog_ms =
    let handled = record s {
      fault_handler = true;
      logger = set_address s.logger boot.own_address;
    } in
    if not (watchdog_ms == 0) then start_watchdog handled boot.timerawl watchdog_ms else handled

abbrev bind_failed : ℕ → Bytes
bind_failed err =
    ascii "Failed binding upstream on local port, error: " ++ (print_int err ++ ascii "\r\n")

-- With the server's address.
unfoldable pub start_sockets : Boot → Server → ℕ → ℕ → ℕ × Server × Output
unfolding start_handlers report_saved_crash
start_sockets boot s watchdog_ms remote_addr =
    let connected = record s { upstream = some remote_addr } in
    let (s', output) =
      report_saved_crash boot (
        start_handlers boot (record connected { binary_upstream = some remote_addr })
          watchdog_ms) in
    if not (boot.bind_upstream == 0)
    then (0, s, printed_only (bind_failed boot.bind_upstream))
    else if not (boot.bind_binary == 0)
    then (0, connected, printed_only (bind_failed boot.bind_binary))
    else (1, s', output)

unfoldable pub start_with : Boot → Server → ℕ → Option ℕ → ℕ × Server × Output
unfolding start_sockets
start_with boot s watchdog_ms none = (
  0,
  s,
  printed_only (
      ascii "Failed decoding remote logging server address, address: "
      ++ (boot.configured ++ ascii "\r\n")),
)
start_with boot s watchdog_ms (some remote_addr) = start_sockets boot s watchdog_ms remote_addr

unfoldable pub start_logging_server : Boot → Server → (watchdog_ms : ℕ) → ℕ × Server × Output
unfolding start_with
start_logging_server boot s watchdog_ms = start_with boot s watchdog_ms boot.remote_addr

-- `fail` and `pico_logger_panic` up to the restart, with the stack pointer.
unfoldable pub fail : (ℕ → ℕ → List ℕ) → Server → ℕ → Server
fail call_stack s sp = record s { ram = fault_init call_stack s.ram sp }

-- `watchdog_timeout`, which first clears the alarm's interrupt.
unfoldable pub watchdog_timeout : (ℕ → ℕ → List ℕ) → Server → ℕ → Server
watchdog_timeout call_stack s sp = record s { ram = fault_init call_stack s.ram sp }
