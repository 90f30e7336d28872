-- ===== src/Logger/Message.antt =====
-- pico_logger/pico_logger.c: `trace` and `trace_bytes`. A function that makes a pbuf is given whether
-- there is memory for one, and returns the datagrams that it hands to `udp_send`; what `printf` and
-- `vsnprintf` make of the caller's format is given as a text.
use pico_https.Common.{
  ℕ, ◌+◌, ◌-◌, ◌/◌, ◌%◌, ◌^◌, Bool, Option, none, some, List, [], ◌∷◌, ◌++◌, Bytes,
}
use pico_https.Common.Tests.{ltb, ◌==◌, if◌then◌else◌}
use pico_https.Common.Lists.{length, get_or, set, take, replicate}
use pico_https.Common.Text.{ascii, print_int, print_at}

abbrev pub buffer_size : ℕ
buffer_size = 1500

abbrev pub address_size : ℕ
address_size = 46

-- The variables of the file.
pub record Logger : Type 0 where
  pub buffer : Bytes
  pub address : Bytes
  pub log_count : ℕ
  pub watchdog_timeout_us : ℕ

-- Their first values.
abbrev pub initial : Logger
initial = record {
  buffer = replicate buffer_size 0;
  address = replicate address_size 0;
  log_count = 0;
  watchdog_timeout_us = 0;
}

-- `%s`: what stands before the first zero.
unfoldable pub c_string : Bytes → Bytes
c_string [] = []
c_string (c ∷ bytes) = if c == 0 then [] else c ∷ c_string bytes

-- A width, as in `%3d`.
unfoldable pub padded : ℕ → Bytes → Bytes
padded width text = replicate (width - length text) b' ' ++ text

-- `get_logging_id`
unfoldable pub get_logging_id : Logger → Bytes
unfolding c_string
get_logging_id l = c_string l.address

-- "%3d %8d %s %s ", at `us` microseconds since boot
unfoldable pub prefix : Logger → ℕ → Bytes → Bytes
unfolding padded get_logging_id
prefix l us category =
    padded 3 (print_int l.log_count)
    ++ (b' '
        ∷ (padded 8 (print_int (us / 1000 % 2 ^ 32))
            ++ (b' ' ∷ (get_logging_id l ++ (b' ' ∷ (category ++ b' ' ∷ []))))))

-- A newline, where the message has none and there is room.
unfoldable pub end_line : Bytes → ℕ → Bytes × ℕ
end_line buf size =
    if ltb size (buffer_size - 1)
    then (if get_or buf (size - 1) 0 == b'\n'
        then (buf, size)
        else (set (set buf size b'\n') (size + 1) 0, size + 1))
    else (buf, size)

-- A size that `vsnprintf` would have liked to write.
unfoldable pub cap : Bytes → ℕ → Bytes × ℕ
cap buf size =
    if ltb buffer_size size then (set buf (buffer_size - 1) 0, buffer_size) else (buf, size)

-- The buffer and the size when the pbuf is asked for.
unfoldable pub format_message : Logger → ℕ → Bytes → Bytes → Logger × ℕ
unfolding prefix end_line cap
format_message l us category text =
    let start = prefix l us category in
    let size = length start in
    let buf = print_at l.buffer 0 buffer_size start in
    let (buf', size') =
      end_line (print_at buf size (buffer_size - size - 1) text) (size + length text) in
    let (buf'', size'') = cap buf' size' in
    if ltb size (buffer_size - 1)
    then (record l { buffer = buf''; log_count = (l.log_count + 1) % 999 }, size'')
    else (record l { buffer = buf }, size)

-- `send_message`
unfoldable pub send_message :
    Logger → (us : ℕ) → (ℕ → Bool) → (category text : Bytes) → Logger × List Bytes
unfolding format_message
send_message l us has_memory category text =
    let (l', size) = format_message l us category text in
    (l', if has_memory size then take size l'.buffer ∷ [] else [])

-- `trace`
unfoldable pub trace : Logger → (us : ℕ) → (ℕ → Bool) → (text : Bytes) → Logger × List Bytes
unfolding send_message
trace l us has_memory text = send_message l us has_memory (ascii "trace") text

-- `trace_bytes`, which uses the pbuf unchecked: `none` is a write to address 0.
unfoldable pub trace_bytes : (ℕ → Bool) → Bytes → ℕ → Option (List Bytes)
trace_bytes has_memory bytes size = if has_memory size then some (take size bytes ∷ []) else none

-- `safestr`, with `none` for `NULL`
unfoldable pub safestr : Option Bytes → Bytes
safestr none = ascii "null"
safestr (some value) = value
