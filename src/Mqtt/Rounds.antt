-- ===== src/Mqtt/Rounds.antt =====
-- How far each round of `decode_data` gets.
use pico_https.Common.{
  ℕ, zero, suc, ◌+◌, ◌-◌, ◌*◌, ◌%◌, ◌^◌, ◌≤◌, ◌<◌, false, ◌≡◌, refl, ◌⊎◌, inl, inr, [], ◌∷◌, Bytes,
  some, arith, bit_and,
}
use pico_https.Common.Tests.{ltb, if◌then◌else◌, Bool-cases, Option-cases, ltb→lt, ltb-false→le}
use pico_https.Common.Lists.{length, get_or, drop, length-drop}
use pico_https.Mqtt.Handler.{MqttSocketHandler}
use pico_https.Mqtt.Receive.{
  Decoded, consume, decode_publish_header, has_message_id, recv_byte, recv_word, wait_more,
  decode_conn_ack, decode_pubsub_ack, decode_ping, decode_unhandled, remaining_length, dispatch,
  buffer_bytes, decode_header,
}

pub drop_all : (bytes : Bytes) → drop (length bytes) bytes ≡ []
drop_all [] = refl
drop_all (b ∷ bytes) = drop_all bytes

-- Refused, or out of bytes, or past a message that ends `size` bytes from the buffer's start.
abbrev pub Ends : ℕ → Bytes → Decoded → Type 0
Ends start bytes d =
    (d.ok ≡ false)
    ⊎ (d.rest ≡ [])
    ⊎ ((d.handler.recv_buffer_idx ≡ 0)
        × ((1 ≤ start) ⊎ (length d.rest + 2 ≤ length bytes))
        × (length d.rest ≤ length bytes))

module _ (h : MqttSocketHandler) (bytes : Bytes) (msg_size pos start : ℕ) (two : 2 ≤ pos)
    (size : 2 ≤ msg_size) where
  decode_unhandled-Ends : Ends start bytes (decode_unhandled h bytes msg_size start)
  unfolding decode_unhandled consume
  decode_unhandled-Ends = ground (arith, drop_all bytes, length-drop (msg_size - start) bytes)

  decode_ping-Ends : (t : ℕ) → Ends start bytes (decode_ping h bytes msg_size start t)
  unfolding decode_ping consume
  decode_ping-Ends t = ground (arith, drop_all bytes, length-drop (msg_size - start) bytes)

  decode_conn_ack-Ends : Ends start bytes (decode_conn_ack h bytes msg_size pos start)
  unfolding decode_conn_ack consume
  decode_conn_ack-Ends = ground (arith, drop_all bytes, length-drop (msg_size - start) bytes)

  decode_pubsub_ack-Ends :
      (t : ℕ) → Ends start bytes (decode_pubsub_ack h bytes msg_size pos start t)
  unfolding decode_pubsub_ack consume
  decode_pubsub_ack-Ends t = ground (arith, drop_all bytes, length-drop (msg_size - start) bytes)

  decode_publish_header-Ends : Ends start bytes (decode_publish_header h bytes msg_size pos start)
  unfolding decode_publish_header consume
  decode_publish_header-Ends = ground (
    arith,
    drop_all bytes,
    length-drop (pos + 2 + recv_word h pos + (if has_message_id h then 2 else 0) - start) bytes,
  )

  dispatch-Ends : (t : ℕ) → Ends start bytes (dispatch h bytes msg_size pos start t)
  unfolding dispatch
  dispatch-Ends t = ground (
    arith,
    decode_unhandled-Ends,
    decode_ping-Ends t,
    decode_conn_ack-Ends,
    decode_pubsub_ack-Ends t,
    decode_publish_header-Ends,
  )

-- The size of the message in the buffer does not fit a `uint32_t`.
pub record Wraps (h : MqttSocketHandler) : Type 0 where
  pub last : ℕ
  pub len : ℕ
  pub header_read : remaining_length 5 h.recv_buffer h.recv_buffer_idx 0 0 ≡ some (last, len)
  pub too_large : 2 ^ 32 ≤ len + (last + 1)

pub remaining_length-pos :
    (rounds : ℕ) (buf : Bytes) (idx pos len last len' : ℕ)
    → remaining_length (suc rounds) buf idx pos len ≡ some (last, len')
    → pos + 1 ≤ last
unfolding remaining_length
remaining_length-pos zero buf idx pos len last len' e = ground arith
remaining_length-pos (suc rounds) buf idx pos len last len' e =
    let next = (len + bit_and (get_or buf (pos + 1) 0) 0x7f * 2 ^ (pos * 7) % 2 ^ 32) % 2 ^ 32 in
    ground (arith, remaining_length-pos rounds buf idx (pos + 1) next last len')

wait_more-Ends :
    (h : MqttSocketHandler) (bytes : Bytes) (start : ℕ) → Ends start bytes (wait_more h bytes)
unfolding consume
wait_more-Ends h bytes start = ground (arith, drop_all bytes)

pub decode_header-Ends :
    (h : MqttSocketHandler) (bytes : Bytes)
    → Ends h.recv_buffer_idx bytes (decode_header h bytes) ⊎ Wraps (buffer_bytes h bytes)
unfolding decode_header
decode_header-Ends h bytes = elim (Bool-cases (ltb filled.recv_buffer_idx 2)) [
  | inl short ↦ rw short (inl (wait_more-Ends filled bytes h.recv_buffer_idx))
  | inr long ↦
      rw long
        (elim (Option-cases (remaining_length 5 filled.recv_buffer filled.recv_buffer_idx 0 0)) [
          | inl more ↦ rw more (inl (wait_more-Ends filled bytes h.recv_buffer_idx))
          | inr ((last, len), e) ↦ rw e (elim (Bool-cases (ltb (len + (last + 1)) (2 ^ 32))) [
            | inl fits ↦ inl (whole last len e (ltb→lt _ _ fits))
            | inr wraps ↦ inr (record {
              last = last;
              len = len;
              header_read = e;
              too_large = ltb-false→le _ _ wraps;
            })
          ])
        ])
]
  where
    filled : MqttSocketHandler
    filled = buffer_bytes h bytes

    whole :
        (last len : ℕ)
        → remaining_length 5 filled.recv_buffer filled.recv_buffer_idx 0 0 ≡ some (last, len)
        → len + (last + 1) < 2 ^ 32
        → Ends h.recv_buffer_idx bytes (
            dispatch filled bytes
              ((len + (last + 1)) % 2 ^ 32)
              (last + 1)
              h.recv_buffer_idx
              (bit_and (recv_byte filled 0) 0xf0))
    whole last len e fits =
        let pos = remaining_length-pos 4 filled.recv_buffer filled.recv_buffer_idx 0 0 last len e in
        dispatch-Ends filled bytes _ (last + 1) h.recv_buffer_idx (omega arith) (omega arith) _
