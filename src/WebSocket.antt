-- ===== src/WebSocket.antt =====
-- pico_http/websocket_handler.cpp and websocket_handler.h: the frame codec of a WebSocket
-- connection. A `uint8_t` array is a list of bytes; `<<` and `|` of bytes that do not overlap are
-- written as products and sums. What is unmasked in place in `data` is what the callback is given.
pub mod Stream
pub mod Header
pub mod WaitPacket
pub mod Unmask
pub mod Refine
pub mod Chunks
pub mod Frames
pub mod Payload
pub mod Messages
mod Tests
use pico_https.Common.{ℕ, zero, suc, ◌+◌, ◌-◌, ◌*◌, ◌/◌, ◌%◌, ◌^◌, bit_and, bit_xor, min}
use pico_https.Common.{Bool, true, false, not, ◌||◌, Option, none, some, [], ◌∷◌}
use pico_https.Common.{Bytes}
use pico_https.Common.Tests.{ltb, leb, ◌==◌, if◌then◌else◌}
use pico_https.Common.Lists.{length, get_or, take, drop, memcpy}

pub data WebSocketState : Type 0 where
  wait_packet wait_data : WebSocketState

-- `WebSocketOperation`; the cast takes any four bits, so an operation is the number that it has.
abbrev pub continuation_frame : ℕ
continuation_frame = 0x00

abbrev pub text_frame : ℕ
text_frame = 0x01

abbrev pub binary_frame : ℕ
binary_frame = 0x02

abbrev pub max_websocket_header : ℕ
max_websocket_header = 16

-- `WebSocketInterface`: what the owner does at each call, with its own state `S`.
pub record WebSocketInterface (S : Type 0) : Type 0 where
  pub on_web_socket_data : Bytes → S → Bool × S
  pub on_websocket_encoded_data : Bytes → S → Bool × S
  pub on_finished_packet : S → Bool × S

-- The private fields of `WebSocketHandler`.
pub record WebSocketHandler : Type 0 where
  pub fin : Bool
  pub mask : Bool
  pub operation : ℕ
  pub data_len : ℕ
  pub data_index : ℕ
  pub masking_key : Bytes
  pub state : WebSocketState
  pub buffer_index : ℕ
  pub buffer : Bytes

abbrev pub byte_at : Bytes → ℕ → ℕ
byte_at buf i = get_or buf i 0

-- `m_buffer[1] & 0x7f`
unfoldable pub payload_len : Bytes → ℕ
payload_len buf = bit_and (byte_at buf 1) 0x7f

-- `m_buffer[1] & 0x80`
unfoldable pub mask_flag : Bytes → Bool
mask_flag buf = not (bit_and (byte_at buf 1) 0x80 == 0)

-- `websocketHeaderSize`
unfoldable pub websocket_header_size : Bytes → ℕ
websocket_header_size buf =
    2
    + (if payload_len buf == 126 then 2 else 0)
    + (if payload_len buf == 127 then 8 else 0)
    + (if mask_flag buf then 4 else 0)

-- The three cases of `m_webSocketDataLen`.
unfoldable pub web_socket_data_len : Bytes → ℕ
web_socket_data_len buf =
    if ltb (payload_len buf) 126
    then payload_len buf
    else if payload_len buf == 126
    then byte_at buf 2 * 2 ^ 8 + byte_at buf 3
    else (byte_at buf 2 * 2 ^ 56
        + byte_at buf 3 * 2 ^ 48
        + byte_at buf 4 * 2 ^ 40
        + byte_at buf 5 * 2 ^ 32
        + byte_at buf 6 * 2 ^ 24
        + byte_at buf 7 * 2 ^ 16
        + byte_at buf 8 * 2 ^ 8
        + byte_at buf 9)

-- `i`, where the masking key stands
unfoldable pub key_offset : Bytes → ℕ
key_offset buf = if ltb (payload_len buf) 126 then 2 else if payload_len buf == 126 then 4 else 10

unfoldable pub masking_key_of : Bytes → Bytes
masking_key_of buf =
    let i = key_offset buf in
    if mask_flag buf
    then byte_at buf i ∷ byte_at buf (i + 1) ∷ byte_at buf (i + 2) ∷ byte_at buf (i + 3) ∷ []
    else 0 ∷ 0 ∷ 0 ∷ 0 ∷ []

-- How the `WAIT_PACKET` branch ends: `return true` with the header still incomplete, or the loop
-- goes on with the bytes behind the header.
pub data HeaderStep : Type 0 where
  incomplete : WebSocketHandler → HeaderStep
  complete : WebSocketHandler → Bytes → HeaderStep

-- The header's fields, once `m_buffer` holds the whole header.
unfoldable pub accept_header : WebSocketHandler → WebSocketHandler
accept_header h = record h {
  data_len = web_socket_data_len h.buffer;
  masking_key = masking_key_of h.buffer;
  data_index = 0;
  state = wait_data;
  buffer_index = 0;
}

-- What is set before the size of the header is compared.
unfoldable pub read_flags : WebSocketHandler → WebSocketHandler
read_flags h = record h {
  fin = not (bit_and (byte_at h.buffer 0) 0x80 == 0);
  operation = bit_and (byte_at h.buffer 0) 0x0f;
  mask = mask_flag h.buffer;
}

-- `memcpy(&m_buffer[m_bufferIndex], data, bytesToCopy); m_bufferIndex += bytesToCopy;`
unfoldable pub fill_buffer : WebSocketHandler → Bytes → WebSocketHandler
fill_buffer h bytes =
    let bytes_to_copy = min (length bytes) (max_websocket_header - h.buffer_index) in
    record h {
      buffer = memcpy h.buffer h.buffer_index (take bytes_to_copy bytes);
      buffer_index = h.buffer_index + bytes_to_copy;
    }

-- The branch `m_state == WAIT_PACKET`.
unfoldable pub wait_packet_step : WebSocketHandler → Bytes → HeaderStep
wait_packet_step h bytes =
    let bytes_to_copy = min (length bytes) (max_websocket_header - h.buffer_index) in
    let filled = fill_buffer h bytes in
    let flagged = read_flags filled in
    let size = websocket_header_size filled.buffer in
    if ltb filled.buffer_index 2
    then incomplete filled
    else if ltb filled.buffer_index size
    then incomplete flagged
    else complete (accept_header flagged)
        (drop (bytes_to_copy - (filled.buffer_index - size)) bytes)

-- The loop that unmasks: the bytes for the callback, and the new `m_webSocketDataIndex`.
unfoldable pub unmask : Bool → Bytes → ℕ → ℕ → Bytes → Bytes
unmask mask key data_len index [] = []
unmask mask key data_len index (b ∷ bytes) =
    let rest = unmask mask key data_len (index + 1) bytes in
    if ltb index data_len
    then (if mask then bit_xor b (byte_at key (bit_and index 0x3)) else b) ∷ rest
    else []

pub is_data_frame : ℕ → Bool
is_data_frame operation =
    operation == text_frame || operation == binary_frame || operation == continuation_frame

-- `encodeData`; the 10-byte form keeps the low 32 bits of the length.
unfoldable pub encode_header : ℕ → Bytes
encode_header len =
    if ltb len 126
    then (0x80 + binary_frame) ∷ len ∷ []
    else if leb len 0xffff
    then (0x80 + binary_frame) ∷ 126 ∷ (len / 2 ^ 8 % 256) ∷ (len % 256) ∷ []
    else (0x80 + binary_frame)
      ∷ 127
      ∷ 0
      ∷ 0
      ∷ 0
      ∷ 0
      ∷ (len / 2 ^ 24 % 256)
      ∷ (len / 2 ^ 16 % 256)
      ∷ (len / 2 ^ 8 % 256)
      ∷ (len % 256)
      ∷ []

-- How one round of the loop ends: `return b`, or on with the bytes that are left.
pub data Step (S : Type 0) : Type 0 where
  return : Bool → WebSocketHandler → S → Step S
  next : WebSocketHandler → S → Bytes → Step S

module _ {S : Type 0} (callback : WebSocketInterface S) where
  open callback use {on_web_socket_data, on_websocket_encoded_data, on_finished_packet}

  -- The branch `m_state == WAIT_DATA`.
  unfoldable pub wait_data_step : WebSocketHandler → S → Bytes → Step S
  unfolding is_data_frame
  wait_data_step h s bytes =
      let out = unmask h.mask h.masking_key h.data_len h.data_index bytes in
      let moved = record h { data_index = h.data_index + length out } in
      let rest = drop (length out) bytes in
      if is_data_frame h.operation
      then (let (accepted, s') = on_web_socket_data out s in
          if not accepted
          then return false moved s'
          else if moved.data_index == h.data_len
          then (let waiting = record moved { state = wait_packet } in
              let (finished, s'') = on_finished_packet s' in
              if finished then next waiting s'' rest else return false waiting s'')
          else next moved s' rest)
      else return false h s

  unfoldable pub decode_step : WebSocketState → WebSocketHandler → S → Bytes → Step S
  unfolding wait_packet_step wait_data_step
  decode_step wait_packet h s bytes = elim (wait_packet_step h bytes) [
    | incomplete h' ↦ return true h' s
    | complete h' rest ↦ next h' s rest
  ]
  decode_step wait_data h s bytes = wait_data_step h s bytes

  -- `while (len > 0)`; `none` means that the fuel ran out.
  unfoldable pub decode_loop :
      ℕ → WebSocketHandler → S → Bytes → Option (Bool × WebSocketHandler × S)
  decode_loop fuel h s [] = some (true, h, s)
  decode_loop zero h s (b ∷ bytes) = none
  decode_loop (suc fuel) h s (b ∷ bytes) = elim (decode_step h.state h s (b ∷ bytes)) [
    | return r h' s' ↦ some (r, h', s')
    | next h' s' rest ↦ decode_loop fuel h' s' rest
  ]

  -- A round in `WAIT_PACKET` takes a byte at least, and one in `WAIT_DATA` that takes none goes
  -- back to `WAIT_PACKET`: twice the bytes, and one, are rounds enough.
  unfoldable pub decode_data : WebSocketHandler → S → Bytes → Option (Bool × WebSocketHandler × S)
  decode_data h s bytes = decode_loop (2 * length bytes + 1) h s bytes

  unfoldable pub encode_data : Bytes → S → Bool × S
  encode_data bytes s =
      let (sent, s') = on_websocket_encoded_data (encode_header (length bytes)) s in
      if sent then on_websocket_encoded_data bytes s' else (false, s')
