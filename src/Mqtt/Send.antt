-- ===== src/Mqtt/Send.antt =====
-- `write_header`, `send_*` and `update`. The 32-bit sums wrap; `>> k` and `& 0xFF` are quotients and
-- remainders, and `|` of flags that do not overlap is a sum.
use pico_https.Common.{
  ℕ, ◌+◌, ◌-◌, ◌/◌, ◌%◌, ◌^◌, bit_and, Bool, true, false, not, ◌&&◌, Option, none, some, [], ◌∷◌,
  ◌++◌, Bytes,
}
use pico_https.Common.Tests.{ltb, ◌==◌, if◌then◌else◌}
use pico_https.Common.Lists.{length, take}
use pico_https.Mqtt.Handler.{
  MqttSocketHandler, mqtt_qos1, mqtt_retain, mqtt_max_header_size, mqtt_buffer_size, mqtt_publish,
  mqtt_subscribe, mqtt_pingreq,
}

-- The remaining length: each `if` appends a byte and sets the top bit of the one before; a shift by
-- more bits is not 0 only if the shifts before are not.
unfoldable pub length_bytes : ℕ → Bytes
length_bytes size =
    if ltb 0 (size / 2 ^ 7)
    then (bit_and size 0x7f + 0x80)
      ∷ (if ltb 0 (size / 2 ^ 14)
          then (bit_and (size / 2 ^ 7) 0x7f + 0x80)
            ∷ (if ltb 0 (size / 2 ^ 21)
                then (bit_and (size / 2 ^ 14) 0x7f + 0x80) ∷ bit_and (size / 2 ^ 21) 0x7f ∷ []
                else bit_and (size / 2 ^ 14) 0x7f ∷ [])
          else bit_and (size / 2 ^ 7) 0x7f ∷ [])
    else bit_and size 0x7f ∷ []

-- The bytes that are written; none where it returns 0.
unfoldable pub write_header : ℕ → ℕ → ℕ → ℕ → Bytes
write_header message_type message_size buffer_size later_bytes =
    if ltb buffer_size ((message_size + 2 ^ 32 - later_bytes + 5) % 2 ^ 32)
    then []
    else if ltb 0 (message_size / 2 ^ 28)
    then []
    else message_type ∷ length_bytes message_size

-- `n >> 8` and `n & 0xFF`
abbrev pub word_bytes : ℕ → Bytes
word_bytes n = (n / 2 ^ 8) ∷ (n % 2 ^ 8) ∷ []

-- `write_string`
abbrev pub write_string : Bytes → ℕ → Bytes
write_string msg len = word_bytes len ++ take len msg

-- `(m_messageId == 0xFFFF) ? 1 : (m_messageId + 1)`
abbrev pub next_message_id : ℕ → ℕ
next_message_id id = if id == 0xFFFF then 1 else id + 1

-- `m_downstream`: `send`, with the conversion of its `int8_t` to `bool`.
module _ {S : Type 0} (send : Bytes → S → Bool × S) where
  -- What a function that sends returns, with the fields as they are after it.
  abbrev pub send_bytes : Bytes → MqttSocketHandler → S → Bool × MqttSocketHandler × S
  send_bytes bytes h s = let (ok, s') = send bytes s in (ok, h, s')

  unfoldable pub send_ping : ℕ → MqttSocketHandler → S → Bool × MqttSocketHandler × S
  send_ping now_us h s =
      if ltb 0 h.pending_send_data_len
      then (true, record h { pending_ping = true }, s)
      else send_bytes (write_header mqtt_pingreq 0 mqtt_buffer_size 0)
          (record h { pending_ping = false; last_keepalive_us = now_us }) s

  unfoldable pub send_publish_data :
      ℕ → Bytes → MqttSocketHandler → S → Bool × MqttSocketHandler × S
  send_publish_data now_us bytes h s =
      let pending = h.pending_send_data_len - length bytes in
      let left = record h { pending_send_data_len = pending } in
      let (ok, s') = send bytes s in
      if ltb h.pending_send_data_len (length bytes)
      then (false, h, s)
      else if not ok
      then (false, left, s')
      else if pending == 0 && h.pending_ping
      then send_ping now_us left s'
      else (true, left, s')

  -- `strlen(topic)` is cut to 16 bits.
  unfoldable pub send_subscribe : ℕ → Bytes → MqttSocketHandler → S → Bool × MqttSocketHandler × S
  send_subscribe now_us topic h s =
      let topic_length = length topic % 2 ^ 16 in
      let message_size = 2 + topic_length + 2 + 1 in
      let header =
        write_header (mqtt_subscribe + mqtt_qos1) message_size (message_size + mqtt_max_header_size)
          0 in
      if ltb 0 h.pending_send_data_len
      then (false, h, s)
      else if ltb mqtt_buffer_size (message_size + mqtt_max_header_size)
      then (false, h, s)
      else if length header == 0
      then (false, h, s)
      else send_bytes
          (header ++ word_bytes h.message_id ++ write_string topic topic_length ++ 1 ∷ [])
          (record h { message_id = next_message_id h.message_id; last_keepalive_us = now_us }) s

  -- The second result is what is written to `*out_message_id`.
  unfoldable pub send_publish_header :
      ℕ → Bytes → ℕ → MqttSocketHandler → S → (Bool × MqttSocketHandler × S) × Option ℕ
  send_publish_header now_us topic message_length h s =
      let topic_length = length topic % 2 ^ 16 in
      let header_size = 2 + topic_length + 2 in
      let message_size = (header_size + message_length) % 2 ^ 32 in
      let header =
        write_header (mqtt_publish + mqtt_qos1 + mqtt_retain) message_size
          (header_size + mqtt_max_header_size) message_length in
      if ltb 0 h.pending_send_data_len
      then ((false, h, s), none)
      else if length header == 0
      then ((false, h, s), none)
      else (
        send_bytes (header ++ write_string topic topic_length ++ word_bytes h.message_id)
            (record h {
              pending_send_data_len = message_length;
              message_id = next_message_id h.message_id;
              last_keepalive_us = now_us;
            })
            s,
        some h.message_id,
      )

  -- `update`, where the clock shows `clock_us` while it runs.
  unfoldable pub update : Bool → ℕ → ℕ → MqttSocketHandler → S → Bool × MqttSocketHandler × S
  unfolding send_ping
  update connected now_us clock_us h s =
      let seconds = (now_us + 2 ^ 64 - h.last_keepalive_us) % 2 ^ 64 / 1000000 % 2 ^ 32 in
      let (ok, h', s') = send_ping clock_us (record h { last_keepalive_us = clock_us }) s in
      if connected && ltb h.keepalive_seconds seconds then (true, h', s') else (true, h, s)
