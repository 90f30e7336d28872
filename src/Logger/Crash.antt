-- ===== src/Logger/Crash.antt =====
-- pico_logger/pico_logger.c: the call stack that is kept in memory over a restart. The stack is taken
-- and printed by cm_backtrace, a library of its own: `call_stack size sp` is what it finds, and
-- `stack_text` what it prints for some addresses.
use pico_https.Common.{
  ℕ, zero, suc, ◌+◌, ◌-◌, ◌/◌, ◌%◌, Bool, not, ◌||◌, Option, none, some, List, [], ◌∷◌, ◌++◌, Bytes,
}
use pico_https.Common.Tests.{ltb, ◌==◌, if◌then◌else◌}
use pico_https.Common.Lists.{length, take, set}
use pico_https.Common.Text.{ascii, print_int}
use pico_https.Logger.Message.{Logger, trace}

abbrev pub magic_callstack : ℕ
magic_callstack = 0xdeadbeef

-- cm_backtrace/cmb_def.h
abbrev pub cmb_call_stack_max_depth : ℕ
cmb_call_stack_max_depth = 50

-- The variables that a restart leaves as they are.
pub record Ram : Type 0 where
  pub last_command : ℕ
  pub cur_depth : ℕ
  pub call_stack_buf : List ℕ

-- A write to one of them.
pub data Write : Type 0 where
  command : ℕ → Write
  depth : ℕ → Write
  entry : (at value : ℕ) → Write

unfoldable pub write : Ram → Write → Ram
write r (command v) = record r { last_command = v }
write r (depth v) = record r { cur_depth = v }
write r (entry at v) = record r { call_stack_buf = set r.call_stack_buf at v }

unfoldable pub writes : Ram → List Write → Ram
writes r [] = r
writes r (w ∷ ws) = writes (write r w) ws

-- What `cm_backtrace_call_stack` writes, `buffer[depth++] = pc` each time.
abbrev pub entries : ℕ → List ℕ → List Write
entries at [] = []
entries at (pc ∷ stack) = entry at pc ∷ entries (at + 1) stack

-- The writes of `fault_init`, in their order.
unfoldable pub fault_writes : (ℕ → ℕ → List ℕ) → ℕ → List Write
fault_writes call_stack sp =
    let stack = call_stack cmb_call_stack_max_depth sp in
    depth 0 ∷ command magic_callstack ∷ (entries 0 stack ++ depth (length stack) ∷ [])

unfoldable pub fault_init : (ℕ → ℕ → List ℕ) → Ram → ℕ → Ram
unfolding writes fault_writes
fault_init call_stack r sp = writes r (fault_writes call_stack sp)

-- `clear_saved_crash`
unfoldable pub clear_saved_crash : Ram → Ram
clear_saved_crash r = record r { last_command = 0 }

-- `%x`
unfoldable pub print_hex : ℕ → ℕ → Bytes
print_hex zero n = []
print_hex (suc rounds) n =
    let front = print_hex rounds (n / 16) in
    let last = if ltb (n % 16) 10 then b'0' + n % 16 else b'a' + n % 16 - 10 in
    if ltb n 16 then last ∷ [] else front ++ last ∷ []

abbrev print_flag : Bool → Bytes
print_flag set_ = print_int (if set_ then 1 else 0)

-- The message, with what `watchdog_caused_reboot` and `watchdog_enable_caused_reboot` answer.
unfoldable pub crash_text : Bool → Bool → Ram → Bytes
unfolding print_hex
crash_text caused enable_caused r =
    ascii "report_saved_crash: last boot info, watchdog: "
    ++ (print_flag caused
        ++ (b'/'
            ∷ (print_flag enable_caused
                ++ (ascii ", last_command: 0x"
                    ++ (print_hex 8 r.last_command
                        ++ (ascii ", cur_depth: " ++ print_int r.cur_depth))))))

-- What is reported: the text for `trace`, and the addresses for `cm_print_call_stack`.
pub record Report : Type 0 where
  pub text : Bytes
  pub call_stack : List ℕ

-- The tests of `report_saved_crash`.
unfoldable pub saved_crash : Bool → Bool → Ram → Ram × Option Report
unfolding crash_text
saved_crash caused enable_caused r =
    if not (r.last_command == magic_callstack)
    then (record r { last_command = 0 }, none)
    else if ltb cmb_call_stack_max_depth r.cur_depth || (r.cur_depth == 0)
    then (r, none)
    else (
      r,
      some (record {
        text = crash_text caused enable_caused r;
        call_stack = take r.cur_depth r.call_stack_buf;
      }),
    )

-- What of the board a call of `trace` meets: the time, and whether there is memory for a pbuf.
pub record Moment : Type 0 where
  pub us : ℕ
  pub has_memory : ℕ → Bool

-- Its calls: the datagrams, and what is given to `cm_print_call_stack`, which prints its text with
-- `cmb_println`, and that is `trace` (cm_backtrace/cmb_cfg.h).
unfoldable pub send_report :
    (List ℕ → Bytes)
    → Logger
    → (at_report at_stack : Moment) → Option Report
    → Logger × List Bytes × List ℕ
send_report stack_text l at_report at_stack none = (l, [], [])
send_report stack_text l at_report at_stack (some report) =
    let (l', datagrams) = trace l at_report.us at_report.has_memory report.text in
    let (l'', others) = trace l' at_stack.us at_stack.has_memory (stack_text report.call_stack) in
    (l'', datagrams ++ others, report.call_stack)
