-- ===== src/Mqtt/Publish.antt =====
-- A PUBLISH packet, from `send_publish_header` and `send_publish_data` to `decode_data`.
use pico_https.Common.{
  ℕ, ◌+◌, ◌-◌, ◌/◌, ◌%◌, ◌^◌, ◌≤◌, ◌<◌, true, false, ◌≡◌, ◌∙◌, ap, sym, [], ◌∷◌, ◌++◌, append_assoc,
  Bytes, arith,
}
use pico_https.Common.Tests.{ltb, leb}
use pico_https.Common.Lists.{
  length, get_or, take, drop, length-append, take-append_length, drop-append_more,
  get_or-append_length,
}
use pico_https.Mqtt.Handler.{MqttSocketHandler, wait_data, on_publish_header, mqtt_buffer_size}
use pico_https.Mqtt.Receive.{recv_byte, recv_word, has_message_id, decode_publish_header, consume}
use pico_https.Mqtt.Send.{word_bytes}

-- A topic and a message id in the buffer, behind `before`.
module _ (h : MqttSocketHandler) (before topic rest : Bytes) (id : ℕ)
    (buffer : h.recv_buffer
      ≡ before ++ (word_bytes (length topic) ++ (topic ++ (word_bytes id ++ rest)))) where
  word_at :
      (xs ys : Bytes) (n : ℕ)
      → h.recv_buffer ≡ xs ++ (word_bytes n ++ ys)
      → recv_word h (length xs) ≡ n
  word_at xs ys n e =
      let z : length xs + 0 ≡ length xs = omega arith in
      let hi : recv_byte h (length xs) ≡ n / 2 ^ 8 = rw e (
        ap (λ i. get_or (xs ++ (word_bytes n ++ ys)) i 0) (sym z)
        ∙ get_or-append_length xs (word_bytes n ++ ys) 0 0) in
      let lo : recv_byte h (length xs + 1) ≡ n % 2 ^ 8 =
        rw e (get_or-append_length xs (word_bytes n ++ ys) 1 0) in
      rw (hi, lo) (omega arith)

  topic_length_read : recv_word h (length before) ≡ length topic
  topic_length_read = word_at before (topic ++ (word_bytes id ++ rest)) (length topic) buffer

  topic_read : take (length topic) (drop (length before + 2) h.recv_buffer) ≡ topic
  topic_read =
      rw
        (
          buffer,
          drop-append_more before (word_bytes (length topic) ++ (topic ++ (word_bytes id ++ rest)))
              2,
        )
        (take-append_length topic (word_bytes id ++ rest))

  message_id_read : recv_word h (length before + 2 + length topic) ≡ id
  message_id_read =
      let at : length (before ++ (word_bytes (length topic) ++ topic))
          ≡ length before + 2 + length topic =
        omega (arith, length-append before (word_bytes (length topic) ++ topic)) in
      ap (recv_word h) (sym at)
      ∙ word_at (before ++ (word_bytes (length topic) ++ topic)) rest id
          (rw (append_assoc, append_assoc) buffer)

  -- The whole header of a PUBLISH is in the buffer, and was all received by this call.
  pub decode_publish_header_lem :
      (bytes : Bytes) (message_length : ℕ)
      → has_message_id h ≡ true
      → length before + 4 + length topic ≤ h.recv_buffer_idx
      → h.recv_buffer_idx ≤ mqtt_buffer_size
      → h.recv_buffer_idx ≤ length bytes
      → message_length < 2 ^ 32
      → decode_publish_header h bytes
          (length before + 4 + length topic + message_length)
          (length before)
          0
        ≡ record {
          ok = true;
          handler = record h {
            pending_data_len = message_length;
            state = wait_data;
            recv_buffer_idx = 0;
          };
          rest = drop (length before + 4 + length topic) bytes;
          calls = on_publish_header topic (length topic) id message_length ∷ [];
        }
  unfolding decode_publish_header consume
  decode_publish_header_lem bytes message_length with_id idx_ge idx_le len_ge short =
      let g1 : ltb h.recv_buffer_idx (length before + 2) ≡ false = ground arith in
      let g2 : leb mqtt_buffer_size (length before + 2 + length topic) ≡ false = ground arith in
      let g3 : ltb h.recv_buffer_idx (length before + 2 + length topic) ≡ false = ground arith in
      let g4 : ltb h.recv_buffer_idx (length before + 2 + length topic + 2) ≡ false =
        ground arith in
      let end_ : length before + 2 + length topic + 2 ≡ length before + 4 + length topic =
        omega arith in
      let g5 : ltb (length before + 4 + length topic) 0 ≡ false = ground arith in
      let g6 : ltb (length bytes) (length before + 4 + length topic) ≡ false = ground arith in
      let z : length before + 4 + length topic - 0 ≡ length before + 4 + length topic =
        omega arith in
      let left : (length before
              + 4
              + length topic
              + message_length
              + 2 ^ 32
              - (length before + 4 + length topic))
            % 2 ^ 32
          ≡ message_length =
        omega arith in
      rw (
        topic_length_read, topic_read, with_id, message_id_read, g1, g2, g3, g4, end_, g5, z, g6,
        left,
      )
