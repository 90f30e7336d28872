-- ===== src/Mqtt/Idle.antt =====
-- A handler between two packets, and the buffer after it has copied the bytes of a call.
use pico_https.Common.{◌-◌, ◌≤◌, min, ◌≡◌, ◌∙◌, ◌++◌, Bytes, append_assoc, arith, ap}
use pico_https.Common.Lists.{
  length, take, drop, length-append, length-take, take-append, take_all, memcpy_front,
}
use pico_https.Mqtt.Handler.{MqttSocketHandler, wait_packet, mqtt_buffer_size}
use pico_https.Mqtt.Receive.{buffer_bytes}

-- Waiting for a packet, with nothing buffered.
pub record IsIdle (h : MqttSocketHandler) : Type 0 where
  pub waiting : h.state ≡ wait_packet
  pub empty : h.recv_buffer_idx ≡ 0
  pub buffer_size : length h.recv_buffer ≡ mqtt_buffer_size

module _ (h : MqttSocketHandler) (v : IsIdle h) where
  pub idx-buffer_bytes :
      (bytes : Bytes) → (buffer_bytes h bytes).recv_buffer_idx ≡ min (length bytes) mqtt_buffer_size
  unfolding buffer_bytes
  idx-buffer_bytes bytes = omega (arith, v.empty)

  -- A front that the buffer has room for stands in it whole.
  pub buffer_bytes-front :
      (front more : Bytes)
      → length front ≤ mqtt_buffer_size
      → (tail : Bytes) × ((buffer_bytes h (front ++ more)).recv_buffer ≡ front ++ tail)
  unfolding buffer_bytes
  buffer_bytes-front front more fits =
      let n = min (length (front ++ more)) mqtt_buffer_size in
      let full = length-append front more in
      let z : mqtt_buffer_size - 0 ≡ mqtt_buffer_size = omega arith in
      let len : length (take n (front ++ more)) ≤ length h.recv_buffer =
        omega (arith, length-take n (front ++ more), v.buffer_size) in
      (
        take (n - length front) more ++ drop (length (take n (front ++ more))) h.recv_buffer,
        rw v.empty (
            memcpy_front h.recv_buffer (take n (front ++ more)) len
            ∙ ap (λ xs. xs ++ drop (length (take n (front ++ more))) h.recv_buffer)
                (take-append n front more
                  ∙ ap (λ xs. xs ++ take (n - length front) more) (take_all n front (omega arith)))
            ∙ append_assoc front (take (n - length front) more)
                (drop (length (take n (front ++ more))) h.recv_buffer)),
      )
