-- ===== src/Mqtt/Receive.antt =====
-- `on_recv`, `decode_data` and the functions that they call. A `uint32_t` wraps at 2 ^ 32; `<< 8`
-- and `+` of two bytes stay below 2 ^ 16.
use pico_https.Common.{
  ℕ, zero, suc, ◌+◌, ◌-◌, ◌*◌, ◌%◌, ◌^◌, min, bit_and, Bool, true, false, not, ◌&&◌, ◌||◌, Option,
  none, some, List, [], ◌∷◌, ◌++◌, Bytes,
}
use pico_https.Common.Tests.{ltb, leb, ◌==◌, if◌then◌else◌}
use pico_https.Common.Lists.{length, get_or, take, drop, memcpy}
use pico_https.Mqtt.Handler.{
  MqttSocketHandler, SocketState, wait_packet, wait_data, Callback, on_pub_ack, on_sub_ack,
  on_conn_ack, on_ping_req, on_ping_resp, on_publish_header, on_publish_data, mqtt_buffer_size,
  mqtt_qos1, mqtt_qos2, mqtt_publish, mqtt_connack, mqtt_suback, mqtt_puback, mqtt_pingresp,
  mqtt_pingreq,
}

-- What a decoding function returns, with `data` and `len` as they are after it, and its calls.
pub record Decoded : Type 0 where
  pub ok : Bool
  pub handler : MqttSocketHandler
  pub rest : Bytes
  pub calls : List Callback

-- `consume(data, len, bytes)`
unfoldable pub consume : MqttSocketHandler → List Callback → Bytes → ℕ → Decoded
consume h calls bytes n =
    if ltb (length bytes) n
    then record { ok = false; handler = h; rest = bytes; calls = calls }
    else record { ok = true; handler = h; rest = drop n bytes; calls = calls }

-- `return consume(data, len, len)`: more bytes are needed.
abbrev pub wait_more : MqttSocketHandler → Bytes → Decoded
wait_more h bytes = consume h [] bytes (length bytes)

abbrev pub refuse : MqttSocketHandler → List Callback → Bytes → Decoded
refuse h calls bytes = record { ok = false; handler = h; rest = bytes; calls = calls }

-- `m_recvBuffer[i]`
abbrev pub recv_byte : MqttSocketHandler → ℕ → ℕ
recv_byte h i = get_or h.recv_buffer i 0

-- `(m_recvBuffer[i] << 8) + m_recvBuffer[i+1]`
abbrev pub recv_word : MqttSocketHandler → ℕ → ℕ
recv_word h i = recv_byte h i * 2 ^ 8 + recv_byte h (i + 1)

-- `m_recvBuffer[0] & (MQTTQOS1 | MQTTQOS2)`
unfoldable pub has_message_id : MqttSocketHandler → Bool
has_message_id h = not (bit_and (recv_byte h 0) (mqtt_qos1 + mqtt_qos2) == 0)

-- The buffer is free again: `m_recvBufferIdx = 0`.
abbrev pub release : MqttSocketHandler → MqttSocketHandler
release h = record h { recv_buffer_idx = 0 }

unfoldable pub decode_publish_header : MqttSocketHandler → Bytes → ℕ → ℕ → ℕ → Decoded
unfolding has_message_id
decode_publish_header h bytes msg_size pos start_position =
    let topic_length = recv_word h pos in
    let topic_pos = pos + 2 in
    let topic_end = topic_pos + topic_length in
    let topic = take topic_length (drop topic_pos h.recv_buffer) in
    let message_id = if has_message_id h then recv_word h topic_end else 0 in
    let end_pos = topic_end + (if has_message_id h then 2 else 0) in
    let message_length = (msg_size + 2 ^ 32 - end_pos) % 2 ^ 32 in
    let calls = on_publish_header topic topic_length message_id message_length ∷ [] in
    let publishing = record h {
      pending_data_len = message_length;
      state = wait_data;
      recv_buffer_idx = 0;
    } in
    if ltb h.recv_buffer_idx (pos + 2)
    then wait_more h bytes
    else if leb mqtt_buffer_size topic_end
    then refuse h [] bytes
    else if ltb h.recv_buffer_idx topic_end
    then wait_more h bytes
    else if has_message_id h && ltb h.recv_buffer_idx (topic_end + 2)
    then wait_more h bytes
    else if ltb end_pos start_position
    then refuse publishing calls bytes
    else consume publishing calls bytes (end_pos - start_position)

unfoldable pub decode_conn_ack : MqttSocketHandler → Bytes → ℕ → ℕ → ℕ → Decoded
decode_conn_ack h bytes msg_size pos start_position =
    if leb mqtt_buffer_size msg_size
    then refuse h [] bytes
    else if ltb h.recv_buffer_idx msg_size
    then wait_more h bytes
    else if ltb h.recv_buffer_idx (pos + 2)
    then wait_more h bytes
    else if ltb msg_size start_position
    then refuse h [] bytes
    else consume (release h) (on_conn_ack (recv_byte h (pos + 1)) (recv_byte h pos) ∷ []) bytes
        (msg_size - start_position)

unfoldable pub decode_pubsub_ack : MqttSocketHandler → Bytes → ℕ → ℕ → ℕ → ℕ → Decoded
decode_pubsub_ack h bytes msg_size pos start_position message_type =
    let message_id = recv_word h pos in
    if leb mqtt_buffer_size msg_size
    then refuse h [] bytes
    else if ltb h.recv_buffer_idx msg_size
    then wait_more h bytes
    else if ltb h.recv_buffer_idx (pos + 2)
    then wait_more h bytes
    else if ltb msg_size start_position
    then refuse h [] bytes
    else consume (release h)
        ((if message_type == mqtt_puback then on_pub_ack message_id else on_sub_ack message_id)
          ∷ [])
        bytes (msg_size - start_position)

unfoldable pub decode_ping : MqttSocketHandler → Bytes → ℕ → ℕ → ℕ → Decoded
decode_ping h bytes msg_size start_position message_type =
    if leb mqtt_buffer_size msg_size
    then refuse h [] bytes
    else if ltb h.recv_buffer_idx msg_size
    then wait_more h bytes
    else if ltb msg_size start_position
    then refuse h [] bytes
    else consume (release h)
        (if message_type == mqtt_pingresp
          then on_ping_resp ∷ []
          else if message_type == mqtt_pingreq
          then on_ping_req ∷ []
          else [])
        bytes (msg_size - start_position)

unfoldable pub decode_unhandled : MqttSocketHandler → Bytes → ℕ → ℕ → Decoded
decode_unhandled h bytes msg_size start_position =
    if leb mqtt_buffer_size msg_size
    then refuse h [] bytes
    else if ltb h.recv_buffer_idx msg_size
    then wait_more h bytes
    else if ltb msg_size start_position
    then refuse h [] bytes
    else consume (release h) [] bytes (msg_size - start_position)

-- The loop over the remaining length: `none` where `pos` meets the end of the bytes read, else
-- `pos`, not yet past the last of its bytes, and `length`. It runs for `pos` 1 to 5.
unfoldable pub remaining_length : ℕ → Bytes → ℕ → ℕ → ℕ → Option (ℕ × ℕ)
remaining_length zero buf idx pos len = some (pos, len)
remaining_length (suc rounds) buf idx pos len =
    let b = get_or buf (pos + 1) 0 in
    let len' = (len + bit_and b 0x7f * 2 ^ (pos * 7) % 2 ^ 32) % 2 ^ 32 in
    let more = remaining_length rounds buf idx (pos + 1) len' in
    if leb idx (pos + 1)
    then none
    else if not (bit_and b 0x80 == 0) && ltb (pos + 1) 5
    then more
    else some (pos + 1, len')

-- The `switch (message_type)`.
unfoldable pub dispatch : MqttSocketHandler → Bytes → ℕ → ℕ → ℕ → ℕ → Decoded
dispatch h bytes msg_size pos start_position message_type =
    if message_type == mqtt_publish
    then decode_publish_header h bytes msg_size pos start_position
    else if message_type == mqtt_connack
    then decode_conn_ack h bytes msg_size pos start_position
    else if message_type == mqtt_suback || message_type == mqtt_puback
    then decode_pubsub_ack h bytes msg_size pos start_position message_type
    else if message_type == mqtt_pingresp || message_type == mqtt_pingreq
    then decode_ping h bytes msg_size start_position message_type
    else decode_unhandled h bytes msg_size start_position

-- `memcpy(&m_recvBuffer[m_recvBufferIdx], data, bytesToCopy); m_recvBufferIdx += bytesToCopy;`
unfoldable pub buffer_bytes : MqttSocketHandler → Bytes → MqttSocketHandler
buffer_bytes h bytes =
    let bytes_to_copy = min (length bytes) (mqtt_buffer_size - h.recv_buffer_idx) in
    record h {
      recv_buffer = memcpy h.recv_buffer h.recv_buffer_idx (take bytes_to_copy bytes);
      recv_buffer_idx = h.recv_buffer_idx + bytes_to_copy;
    }

unfoldable pub decode_header : MqttSocketHandler → Bytes → Decoded
decode_header h bytes =
    let filled = buffer_bytes h bytes in
    if ltb filled.recv_buffer_idx 2
    then wait_more filled bytes
    else elim (remaining_length 5 filled.recv_buffer filled.recv_buffer_idx 0 0) [
      | none ↦ wait_more filled bytes
      | some (last, len) ↦
          let pos = last + 1 in
          dispatch filled bytes ((len + pos) % 2 ^ 32) pos h.recv_buffer_idx
            (bit_and (recv_byte filled 0) 0xf0)
    ]

-- The branch `WAIT_DATA` of the loop.
unfoldable pub decode_publish_data : MqttSocketHandler → Bytes → Decoded
decode_publish_data h bytes =
    let bytes_received =
      if ltb (length bytes) h.pending_data_len then length bytes else h.pending_data_len in
    let pending = h.pending_data_len - bytes_received in
    record {
      ok = true;
      handler = record h {
        pending_data_len = pending;
        state = if pending == 0 then wait_packet else wait_data;
      };
      rest = drop bytes_received bytes;
      calls =
          on_publish_data (take bytes_received bytes) (bytes_received == h.pending_data_len) ∷ [];
    }

unfoldable pub decode_round : SocketState → MqttSocketHandler → Bytes → Decoded
unfolding decode_publish_data
decode_round wait_packet h bytes = decode_header h bytes
decode_round wait_data h bytes = decode_publish_data h bytes

-- `while (len > 0)`; `none` means that the fuel ran out.
unfoldable pub decode_rounds :
    ℕ
    → MqttSocketHandler
    → Bytes
    → List Callback
    → Option (Bool × MqttSocketHandler × List Callback)
decode_rounds fuel h [] calls = some (true, h, calls)
decode_rounds zero h (b ∷ bytes) calls = none
decode_rounds (suc fuel) h (b ∷ bytes) calls =
    let d = decode_round h.state h (b ∷ bytes) in
    let rest = decode_rounds fuel d.handler d.rest (calls ++ d.calls) in
    if d.ok then rest else some (false, d.handler, calls ++ d.calls)

-- A round that takes no byte leaves `WAIT_DATA`, or the bytes of earlier calls, unless the size of a
-- message wraps: three rounds for each byte, and three, are enough, or no number is.
unfoldable pub decode_data :
    MqttSocketHandler → Bytes → Option (Bool × MqttSocketHandler × List Callback)
decode_data h bytes = decode_rounds (3 * length bytes + 3) h bytes []
