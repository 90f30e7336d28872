-- ===== src/Mqtt/Buffer.antt =====
-- The receive buffer keeps its size, and its fill level stays within it.
use pico_https.Common.{
  ℕ, zero, suc, ◌+◌, ◌-◌, ◌*◌, ◌≤◌, min, Bool, ◌≡◌, ◌∙◌, inl, inr, List, [], ◌∷◌, ◌++◌, Bytes,
  Option, some, none, arith,
}
use pico_https.Common.Tests.{ltb, Bool-cases, Option-cases}
use pico_https.Common.Lists.{length, take, length-memcpy}
use pico_https.Mqtt.Handler.{
  MqttSocketHandler, SocketState, wait_packet, wait_data, Callback, mqtt_buffer_size,
}
use pico_https.Mqtt.Receive.{
  consume, decode_publish_header, decode_conn_ack, decode_pubsub_ack, decode_ping, decode_unhandled,
  remaining_length, dispatch, buffer_bytes, decode_header, decode_publish_data, decode_round,
  decode_rounds, decode_data,
}
use pico_https.Mqtt.Returns.{ReturnsOrMeetsWrap, decode_data-returns}

-- The invariant of the buffer.
abbrev pub InBuffer : MqttSocketHandler → Type 0
InBuffer h = (length h.recv_buffer ≡ mqtt_buffer_size) × (h.recv_buffer_idx ≤ mqtt_buffer_size)

buffer_bytes-InBuffer :
    (h : MqttSocketHandler) (bytes : Bytes) → InBuffer h → InBuffer (buffer_bytes h bytes)
unfolding buffer_bytes
buffer_bytes-InBuffer h bytes (size, fill) = (
  length-memcpy h.recv_buffer h.recv_buffer_idx
        (take (min (length bytes) (mqtt_buffer_size - h.recv_buffer_idx)) bytes)
      ∙ size,
  omega arith,
)

module _ (h : MqttSocketHandler) (bytes : Bytes) (v : InBuffer h) where
  consume-InBuffer : (calls : List Callback) (n : ℕ) → InBuffer (consume h calls bytes n).handler
  unfolding consume
  consume-InBuffer calls n = ground arith

  decode_unhandled-InBuffer :
      (msg_size start : ℕ) → InBuffer (decode_unhandled h bytes msg_size start).handler
  unfolding decode_unhandled consume
  decode_unhandled-InBuffer msg_size start = ground arith

  decode_ping-InBuffer :
      (msg_size start t : ℕ) → InBuffer (decode_ping h bytes msg_size start t).handler
  unfolding decode_ping consume
  decode_ping-InBuffer msg_size start t = ground arith

  decode_conn_ack-InBuffer :
      (msg_size pos start : ℕ) → InBuffer (decode_conn_ack h bytes msg_size pos start).handler
  unfolding decode_conn_ack consume
  decode_conn_ack-InBuffer msg_size pos start = ground arith

  decode_pubsub_ack-InBuffer :
      (msg_size pos start t : ℕ) → InBuffer (decode_pubsub_ack h bytes msg_size pos start t).handler
  unfolding decode_pubsub_ack consume
  decode_pubsub_ack-InBuffer msg_size pos start t = ground arith

  decode_publish_header-InBuffer :
      (msg_size pos start : ℕ) → InBuffer (decode_publish_header h bytes msg_size pos start).handler
  unfolding decode_publish_header consume
  decode_publish_header-InBuffer msg_size pos start = ground arith

  dispatch-InBuffer :
      (msg_size pos start t : ℕ) → InBuffer (dispatch h bytes msg_size pos start t).handler
  unfolding dispatch
  dispatch-InBuffer msg_size pos start t = ground (
    arith,
    decode_unhandled-InBuffer msg_size start,
    decode_ping-InBuffer msg_size start t,
    decode_conn_ack-InBuffer msg_size pos start,
    decode_pubsub_ack-InBuffer msg_size pos start t,
    decode_publish_header-InBuffer msg_size pos start,
  )

decode_round-InBuffer :
    (st : SocketState) (h : MqttSocketHandler) (bytes : Bytes)
    → InBuffer h
    → InBuffer (decode_round st h bytes).handler
unfolding decode_round decode_header decode_publish_data
decode_round-InBuffer wait_data h bytes v = v
decode_round-InBuffer wait_packet h bytes v =
    let filled = buffer_bytes h bytes in
    let w = buffer_bytes-InBuffer h bytes v in
    elim (Bool-cases (ltb filled.recv_buffer_idx 2)) [
      | inl short ↦ rw short (consume-InBuffer filled bytes w [] (length bytes))
      | inr long ↦
          elim (Option-cases (remaining_length 5 filled.recv_buffer filled.recv_buffer_idx 0 0)) [
            | inl dry ↦ rw (long, dry) (consume-InBuffer filled bytes w [] (length bytes))
            | inr ((last, len), e) ↦ rw (long, e) (dispatch-InBuffer filled bytes w _ _ _ _)
          ]
    ]

-- What the loop returns, if it does, has the invariant.
abbrev pub KeepsBuffer : Option (Bool × MqttSocketHandler × List Callback) → Type 0
KeepsBuffer none = Unit
KeepsBuffer (some (ok, h, calls)) = InBuffer h

decode_rounds-InBuffer :
    (fuel : ℕ) (h : MqttSocketHandler) (bytes : Bytes) (calls : List Callback)
    → InBuffer h
    → KeepsBuffer (decode_rounds fuel h bytes calls)
unfolding decode_rounds
decode_rounds-InBuffer zero h [] calls v = v
decode_rounds-InBuffer (suc fuel) h [] calls v = v
decode_rounds-InBuffer zero h (b ∷ bytes) calls v = tt
decode_rounds-InBuffer (suc fuel) h (b ∷ bytes) calls v =
    let d = decode_round h.state h (b ∷ bytes) in
    let w = decode_round-InBuffer h.state h (b ∷ bytes) v in
    elim (Bool-cases d.ok) [
      | inl ok ↦ rw ok (decode_rounds-InBuffer fuel d.handler d.rest (calls ++ d.calls) w)
      | inr no_ ↦ rw no_ w
    ]

-- From a buffer of 256 bytes filled to 256 at most, and on any bytes, what `decode_data` returns, if
-- it returns, has a buffer of 256 bytes filled to 256 at most; it does return, or some round meets a
-- message whose size does not fit 32 bits.
pub decode_data-InBuffer :
    (h : MqttSocketHandler) (bytes : Bytes)
    → InBuffer h
    → KeepsBuffer (decode_data h bytes) × ReturnsOrMeetsWrap h bytes (decode_data h bytes)
unfolding decode_data
decode_data-InBuffer h bytes v =
    (decode_rounds-InBuffer (3 * length bytes + 3) h bytes [] v, decode_data-returns h bytes)
