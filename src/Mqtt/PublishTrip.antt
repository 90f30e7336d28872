-- ===== src/Mqtt/PublishTrip.antt =====
-- A PUBLISH packet as `send_publish_header` and `send_publish_data` send it, read by `decode_data`.
use pico_https.Common.{
  ℕ, suc, ◌+◌, ◌%◌, ◌^◌, ◌≤◌, ◌<◌, true, false, ◌≡◌, refl, ◌∙◌, ap, sym, [], ◌∷◌, ◌++◌,
  append_assoc, Bytes, some, arith,
}
use pico_https.Common.Tests.{ltb}
use pico_https.Common.Lists.{length, drop, length-append, drop-append_length}
use pico_https.Mqtt.Handler.{
  MqttSocketHandler, SocketState, wait_packet, wait_data, on_publish_header, mqtt_buffer_size,
}
use pico_https.Mqtt.Receive.{
  Decoded, buffer_bytes, decode_header, dispatch, has_message_id, recv_byte, remaining_length,
  decode_round, decode_publish_header,
}
use pico_https.Mqtt.Send.{word_bytes, length_bytes}
use pico_https.Mqtt.Length.{length-length_bytes, remaining_length-length_bytes}
use pico_https.Mqtt.Idle.{IsIdle, idx-buffer_bytes, buffer_bytes-front}
use pico_https.Mqtt.Publish.{decode_publish_header_lem}

-- The packet up to its data.
abbrev pub publish_front : Bytes → ℕ → ℕ → Bytes
publish_front topic id message_length =
    (0x33 ∷ length_bytes (4 + length topic + message_length))
    ++ (word_bytes (length topic) ++ (topic ++ word_bytes id))

pub length-publish_front :
    (topic : Bytes) (id message_length : ℕ)
    → length (publish_front topic id message_length)
      ≡ suc (length (length_bytes (4 + length topic + message_length))) + 4 + length topic
length-publish_front topic id message_length = omega (
  arith,
  length-append (length_bytes (4 + length topic + message_length))
      (word_bytes (length topic) ++ (topic ++ word_bytes id)),
  length-append topic (word_bytes id),
)

regroup : (a b c d e : Bytes) → (a ++ (b ++ (c ++ d))) ++ e ≡ a ++ (b ++ (c ++ (d ++ e)))
regroup a b c d e =
    append_assoc a (b ++ (c ++ d)) e
    ∙ ap (λ xs. a ++ xs) (append_assoc b (c ++ d) e ∙ ap (λ xs. b ++ xs) (append_assoc c d e))

module _ (h : MqttSocketHandler) (v : IsIdle h) (topic : Bytes) (id message_length : ℕ)
    (more : Bytes) (fits : length (publish_front topic id message_length) ≤ mqtt_buffer_size)
    (short : 4 + length topic + message_length < 2 ^ 28) where
  size : ℕ
  size = 4 + length topic + message_length

  front : Bytes
  front = publish_front topic id message_length

  filled : MqttSocketHandler
  filled = buffer_bytes h (front ++ more)

  length-front : length front ≡ length (0x33 ∷ length_bytes size) + 4 + length topic
  unfolding front size
  length-front = length-publish_front topic id message_length

  filled-idx : length front ≤ filled.recv_buffer_idx
  unfolding filled front
  filled-idx = omega (arith, idx-buffer_bytes h v (front ++ more), length-append front more)

  buffered :
      (tail : Bytes) × (filled.recv_buffer
        ≡ (0x33 ∷ length_bytes size)
          ++ (word_bytes (length topic) ++ (topic ++ (word_bytes id ++ tail))))
  unfolding filled front size
  buffered =
      let (tail, e) = buffer_bytes-front h v front more fits in
      (
        tail,
        e
            ∙ regroup (0x33 ∷ length_bytes size) (word_bytes (length topic)) topic (word_bytes id)
                tail,
      )

  before : Bytes
  before = 0x33 ∷ length_bytes size

  first_byte : recv_byte filled 0 ≡ 0x33
  first_byte = rw (buffered.1) refl

  with_id : has_message_id filled ≡ true
  unfolding has_message_id
  with_id = rw first_byte refl

  size_read :
      remaining_length 5 filled.recv_buffer filled.recv_buffer_idx 0 0
      ≡ some (length (length_bytes size), size)
  unfolding size
  size_read = rw (buffered.1) (
      remaining_length-length_bytes size filled.recv_buffer_idx 0x33
        (word_bytes (length topic) ++ (topic ++ (word_bytes id ++ buffered.0))) short
        (omega (arith, length-front, filled-idx)))

  publishing : MqttSocketHandler
  publishing = record filled {
    pending_data_len = message_length;
    state = wait_data;
    recv_buffer_idx = 0;
  }

  filled-idx_le : filled.recv_buffer_idx ≤ mqtt_buffer_size
  unfolding filled
  filled-idx_le = omega (arith, idx-buffer_bytes h v (front ++ more))

  idx-le_length : filled.recv_buffer_idx ≤ length (front ++ more)
  unfolding filled
  idx-le_length = omega (arith, idx-buffer_bytes h v (front ++ more))

  rest_left : drop (length before + 4 + length topic) (front ++ more) ≡ more
  unfolding before
  rest_left = rw (sym length-front) (drop-append_length front more)

  taken_of : ℕ → Decoded
  taken_of start =
      decode_publish_header filled (front ++ more)
        (length before + 4 + length topic + message_length) (length before) start

  header_read :
      (start : ℕ)
      → start ≡ 0
      → taken_of start ≡ record {
        ok = true;
        handler = publishing;
        rest = more;
        calls = on_publish_header topic (length topic) id message_length ∷ [];
      }
  unfolding taken_of publishing before
  header_read start e = rw e (
      decode_publish_header_lem filled before topic buffered.0 id buffered.1 (front ++ more)
        message_length with_id (omega (arith, length-front, filled-idx)) filled-idx_le idx-le_length
        (omega arith)
      ∙ ap
          (λ xs. record {
            ok = true;
            handler = publishing;
            rest = xs;
            calls = on_publish_header topic (length topic) id message_length ∷ [];
          })
          rest_left)

  total :
      (size + (length (length_bytes size) + 1)) % 2 ^ 32
      ≡ length before + 4 + length topic + message_length
  unfolding size before
  total = omega (arith, length-length_bytes (4 + length topic + message_length))

  header_taken : decode_header h (front ++ more) ≡ record {
    ok = true;
    handler = publishing;
    rest = more;
    calls = on_publish_header topic (length topic) id message_length ∷ [];
  }
  unfolding decode_header dispatch filled before taken_of
  header_taken =
      let long : ltb filled.recv_buffer_idx 2 ≡ false = ground (arith, filled-idx, length-front) in
      let at : length (length_bytes size) + 1 ≡ length before = omega arith in
      rw (long, size_read, first_byte, total, at) (header_read h.recv_buffer_idx v.empty)

  -- The round that reads the header of the packet, and leaves the bytes behind it.
  pub round_read :
      (st : SocketState)
      → st ≡ wait_packet
      → decode_round st h (publish_front topic id message_length ++ more) ≡ record {
        ok = true;
        handler = record (buffer_bytes h (publish_front topic id message_length ++ more)) {
          pending_data_len = message_length;
          state = wait_data;
          recv_buffer_idx = 0;
        };
        rest = more;
        calls = on_publish_header topic (length topic) id message_length ∷ [];
      }
  unfolding decode_round front filled publishing
  round_read st e = rw e header_taken
