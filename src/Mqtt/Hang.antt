-- ===== src/Mqtt/Hang.antt =====
-- A message whose size wraps to 0 in `decode_header` is never passed.
use pico_https.Common.{
  ℕ, zero, suc, ◌+◌, ◌-◌, ◌*◌, ◌%◌, ◌^◌, ◌≤◌, ◌<◌, min, true, false, ◌≡◌, refl, ◌∙◌, List, [], ◌∷◌,
  ◌++◌, Bytes, some, none, arith,
}
use pico_https.Common.Tests.{ltb, leb}
use pico_https.Common.Lists.{
  length, get_or, take, length-memcpy, get_or-memcpy, get_or-take, length-take,
}
use pico_https.Mqtt.Handler.{
  MqttSocketHandler, SocketState, wait_packet, Callback, mqtt_buffer_size,
}
use pico_https.Mqtt.Idle.{IsIdle}
use pico_https.Mqtt.Receive.{
  consume, buffer_bytes, remaining_length, dispatch, decode_unhandled, decode_header, decode_round,
  decode_rounds, decode_data,
}

-- A reserved packet type, and a remaining length of five bytes that stands for 2 ^ 32 - 6.
abbrev pub oversized : Bytes → Bytes
oversized rest = 0xF0 ∷ 0xFA ∷ 0xFF ∷ 0xFF ∷ 0xFF ∷ 0x0F ∷ rest

module _ (h : MqttSocketHandler) (rest : Bytes) (v : IsIdle h) where
  filled : MqttSocketHandler
  filled = buffer_bytes h (oversized rest)

  filled-idx : 6 ≤ filled.recv_buffer_idx
  unfolding filled buffer_bytes
  filled-idx = omega (arith, v.empty)

  front : (i : ℕ) → i < 6 → get_or filled.recv_buffer i 0 ≡ get_or (oversized rest) i 0
  unfolding filled buffer_bytes
  front i l =
      let n = min (length (oversized rest)) (mqtt_buffer_size - h.recv_buffer_idx) in
      let z = v.empty in
      rw v.empty (
        get_or-memcpy h.recv_buffer (take (min (length (oversized rest)) 256) (oversized rest)) i 0
          (omega (arith, length-take (min (length (oversized rest)) 256) (oversized rest)))
          (omega (arith, v.buffer_size))
        ∙ get_or-take (min (length (oversized rest)) 256) i (oversized rest) 0 (omega arith))

  late : (i : ℕ) → i < 6 → leb filled.recv_buffer_idx i ≡ false
  late i l = ground (arith, filled-idx)

  size_read :
      remaining_length 5 filled.recv_buffer filled.recv_buffer_idx 0 0 ≡ some (5, 2 ^ 32 - 6)
  unfolding remaining_length
  size_read = rw (
    late 1 (omega arith),
    late 2 (omega arith),
    late 3 (omega arith),
    late 4 (omega arith),
    late 5 (omega arith),
    front 1 (omega arith),
    front 2 (omega arith),
    front 3 (omega arith),
    front 4 (omega arith),
    front 5 (omega arith),
  )

  stuck : MqttSocketHandler
  stuck = record filled { recv_buffer_idx = 0 }

  nothing_taken :
      decode_header h (oversized rest)
      ≡ record { ok = true; handler = stuck; rest = oversized rest; calls = [] }
  unfolding decode_header dispatch decode_unhandled consume stuck filled
  nothing_taken =
      let long : ltb filled.recv_buffer_idx 2 ≡ false = ground (arith, filled-idx) in
      let wraps : (2 ^ 32 - 6 + (5 + 1)) % 2 ^ 32 ≡ 0 = omega arith in
      let enough : ltb filled.recv_buffer_idx 0 ≡ false = ground arith in
      let sent : ltb 0 h.recv_buffer_idx ≡ false = ground (arith, v.empty) in
      let no_bytes : 0 - h.recv_buffer_idx ≡ 0 = omega arith in
      let some_left : ltb (length (oversized rest)) 0 ≡ false = ground arith in
      rw (long, size_read, front 0 (omega arith), wraps, enough, sent, no_bytes, some_left)

  round_taken :
      (st : SocketState)
      → st ≡ wait_packet
      → decode_round st h (oversized rest)
        ≡ record { ok = true; handler = stuck; rest = oversized rest; calls = [] }
  unfolding decode_round
  round_taken st e = rw e nothing_taken

  stuck-IsIdle : IsIdle stuck
  unfolding stuck filled buffer_bytes
  stuck-IsIdle = record {
    waiting = v.waiting;
    empty = refl;
    buffer_size =
        length-memcpy h.recv_buffer h.recv_buffer_idx (
          take (min (length (oversized rest)) (mqtt_buffer_size - h.recv_buffer_idx))
            (oversized rest))
        ∙ v.buffer_size;
  }

decode_rounds-oversized :
    (fuel : ℕ) (h : MqttSocketHandler) (rest : Bytes) (calls : List Callback)
    → IsIdle h
    → decode_rounds fuel h (oversized rest) calls ≡ none
unfolding decode_rounds
decode_rounds-oversized zero h rest calls v = refl
decode_rounds-oversized (suc fuel) h rest calls v =
    rw (round_taken h rest v h.state v.waiting)
      (decode_rounds-oversized fuel (stuck h rest v) rest (calls ++ []) (stuck-IsIdle h rest v))

-- With nothing buffered, the first six bytes of a packet whose size wraps to 0 are read again in
-- every round: no number of rounds of the loop of `decode_data` is enough, whatever follows.
pub decode_data-oversized :
    (fuel : ℕ) (h : MqttSocketHandler) (rest : Bytes)
    → IsIdle h
    → (decode_rounds fuel h (oversized rest) [] ≡ none) × (decode_data h (oversized rest) ≡ none)
unfolding decode_data
decode_data-oversized fuel h rest v = (
  decode_rounds-oversized fuel h rest [] v,
  decode_rounds-oversized (3 * length (oversized rest) + 3) h rest [] v,
)
