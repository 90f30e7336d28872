-- ===== src/Mqtt/RoundTrip.antt =====
-- What `send_publish_header` and `send_publish_data` send, given to `decode_data`.
use pico_https.Common.{
  ℕ, suc, ◌+◌, ◌-◌, ◌*◌, ◌/◌, ◌%◌, ◌^◌, ◌≤◌, ◌<◌, Bool, true, false, inl, inr, ◌≡◌, refl, ◌∙◌, ap,
  List, [], ◌∷◌, ◌++◌, append_assoc, Bytes, some, arith,
}
use pico_https.Common.Tests.{ltb, ◌==◌, Bool-cases}
use pico_https.Common.Lists.{length, take, take_all, length-memcpy}
use pico_https.Mqtt.Handler.{
  MqttSocketHandler, wait_packet, wait_data, Callback, on_publish_header, on_publish_data,
  mqtt_buffer_size,
}
use pico_https.Mqtt.Receive.{
  Decoded, buffer_bytes, decode_round, decode_rounds, decode_data, decode_publish_data,
}
use pico_https.Mqtt.Send.{
  word_bytes, length_bytes, write_header, next_message_id, send_publish_header, send_publish_data,
}
use pico_https.Mqtt.Rounds.{drop_all}
use pico_https.Mqtt.Returns.{decode_rounds_dry}
use pico_https.Mqtt.Idle.{IsIdle}
use pico_https.Mqtt.PublishTrip.{publish_front, length-publish_front, round_read}

-- A connection that takes everything: what was sent, in order. `answer` is what its `send` gives for
-- it as a `bool`: false, where `send` returns `ERR_OK`, 0, as that of a session does.
abbrev pub wire : (answer : Bool) → Bytes → Bytes → Bool × Bytes
wire answer bytes sent = (answer, sent ++ bytes)

-- The header, and then the data in one piece, with what the handler returns for each.
abbrev pub publish :
    (answer : Bool)
    → ℕ
    → Bytes
    → Bytes
    → MqttSocketHandler
    → (Bool × Bool) × MqttSocketHandler × Bytes
publish answer now_us topic payload h =
    let ((ok, h', sent), id) =
      send_publish_header (wire answer) now_us topic (length payload) h [] in
    let (ok', h'', sent') = send_publish_data (wire answer) now_us payload h' sent in
    ((ok, ok'), h'', sent')

module _ (answer : Bool) (now_us : ℕ) (topic payload : Bytes) (h : MqttSocketHandler)
    (fits : length (publish_front topic h.message_id (length payload)) ≤ mqtt_buffer_size)
    (short : 4 + length topic + length payload < 2 ^ 28) (free : h.pending_send_data_len ≡ 0)
    (no_ping : h.pending_ping ≡ false) where
  id_taken : MqttSocketHandler
  id_taken = record h {
    pending_send_data_len = length payload;
    message_id = next_message_id h.message_id;
    last_keepalive_us = now_us;
  }

  header_sent :
      send_publish_header (wire answer) now_us topic (length payload) h []
      ≡ ((answer, id_taken, publish_front topic h.message_id (length payload)), some h.message_id)
  unfolding send_publish_header write_header id_taken
  header_sent =
      let none_left : ltb 0 h.pending_send_data_len ≡ false = ground arith in
      let whole : length topic % 2 ^ 16 ≡ length topic =
        omega (arith, length-publish_front topic h.message_id (length payload)) in
      let total : (2 + length topic + 2 + length payload) % 2 ^ 32
          ≡ 4 + length topic + length payload =
        omega arith in
      let room : ltb (2 + length topic + 2 + 5)
            ((4 + length topic + length payload + 2 ^ 32 - length payload + 5) % 2 ^ 32)
          ≡ false =
        ground arith in
      let four : ltb 0 ((4 + length topic + length payload) / 2 ^ 28) ≡ false = ground arith in
      let some_bytes : (suc (length (length_bytes (4 + length topic + length payload))) == 0)
          ≡ false =
        ground arith in
      let topic_whole : take (length topic) topic ≡ topic =
        take_all (length topic) topic (omega arith) in
      rw (none_left, whole, total, room, four, some_bytes, topic_whole)
        (ap (λ bytes. ((answer, id_taken, 0x33 ∷ bytes), some h.message_id))
          (append_assoc (length_bytes (4 + length topic + length payload))
            (word_bytes (length topic) ++ topic) (word_bytes h.message_id)))

  data_sent :
      send_publish_data
        (wire answer)
        now_us
        payload
        id_taken
        (publish_front topic h.message_id (length payload))
      ≡ (
        answer,
        record id_taken { pending_send_data_len = 0 },
        publish_front topic h.message_id (length payload) ++ payload,
      )
  unfolding send_publish_data id_taken
  data_sent =
      let all : ltb (length payload) (length payload) ≡ false = ground arith in
      let z : length payload - length payload ≡ 0 = omega arith in
      elim (Bool-cases answer) [
        | inl says_true ↦ rw (all, z, no_ping, says_true)
        | inr says_false ↦ rw (all, z, no_ping, says_false)
      ]

  all_sent : MqttSocketHandler
  all_sent = record id_taken { pending_send_data_len = 0 }

  published :
      publish answer now_us topic payload h
      ≡ ((answer, answer), all_sent, publish_front topic h.message_id (length payload) ++ payload)
  unfolding all_sent
  published =
      rw header_sent
        (ap (λ (r : Bool × MqttSocketHandler × Bytes). ((answer, r.0), r.1, r.2)) data_sent)

decode_rounds-step :
    (fuel : ℕ) (h : MqttSocketHandler) (b : ℕ) (bytes : Bytes) (calls : List Callback) (d : Decoded)
    → decode_round h.state h (b ∷ bytes) ≡ d
    → d.ok ≡ true
    → decode_rounds (suc fuel) h (b ∷ bytes) calls
      ≡ decode_rounds fuel d.handler d.rest (calls ++ d.calls)
unfolding decode_rounds
decode_rounds-step fuel h b bytes calls d e ok = rw (e, ok)

-- A call of `decode_data` that reads the header of a packet and then the whole of its data.
module _ (h : MqttSocketHandler) (v : IsIdle h) (topic : Bytes) (id b : ℕ) (payload : Bytes)
    (fits : length (publish_front topic id (length (b ∷ payload))) ≤ mqtt_buffer_size)
    (short : 4 + length topic + length (b ∷ payload) < 2 ^ 28) where
  taken : MqttSocketHandler
  taken = record (buffer_bytes h (publish_front topic id (length (b ∷ payload)) ++ b ∷ payload)) {
    pending_data_len = length (b ∷ payload);
    state = wait_data;
    recv_buffer_idx = 0;
  }

  finished : MqttSocketHandler
  finished = record taken { pending_data_len = 0; state = wait_packet }

  data_read : decode_publish_data taken (b ∷ payload) ≡ record {
    ok = true;
    handler = finished;
    rest = [];
    calls = on_publish_data (b ∷ payload) true ∷ [];
  }
  unfolding decode_publish_data taken finished
  data_read =
      let all : ltb (length (b ∷ payload)) (length (b ∷ payload)) ≡ false = ground arith in
      let z : length (b ∷ payload) - length (b ∷ payload) ≡ 0 = omega arith in
      let last : (length (b ∷ payload) == length (b ∷ payload)) ≡ true = ground arith in
      rw (
        all,
        z,
        last,
        drop_all (b ∷ payload),
        take_all (length (b ∷ payload)) (b ∷ payload) (omega arith),
      )

  finished-IsIdle : IsIdle finished
  unfolding finished taken buffer_bytes
  finished-IsIdle = record {
    waiting = refl;
    empty = refl;
    buffer_size = length-memcpy _ _ _ ∙ v.buffer_size;
  }

  second_round : decode_round taken.state taken (b ∷ payload) ≡ record {
    ok = true;
    handler = finished;
    rest = [];
    calls = on_publish_data (b ∷ payload) true ∷ [];
  }
  unfolding decode_round taken
  second_round = data_read

  both_read :
      (fuel : ℕ)
      → decode_rounds
          (suc (suc fuel))
          h
          (publish_front topic id (length (b ∷ payload)) ++ b ∷ payload)
          []
        ≡ some (
          true,
          finished,
          on_publish_header topic (length topic) id (length (b ∷ payload))
              ∷ on_publish_data (b ∷ payload) true
              ∷ [],
        )
  unfolding taken
  both_read fuel =
      let header_calls = on_publish_header topic (length topic) id (length (b ∷ payload)) ∷ [] in
      decode_rounds-step (suc fuel) h _ _ [] _
        (round_read h v topic id (length (b ∷ payload)) (b ∷ payload) fits short h.state v.waiting)
        refl
      ∙ decode_rounds-step fuel taken b payload header_calls _ second_round refl
      ∙ decode_rounds_dry fuel finished [] _ refl

  payload_read :
      (r : MqttSocketHandler) × (decode_data h
          (publish_front topic id (length (b ∷ payload)) ++ b ∷ payload)
        ≡ some (
          true,
          r,
          on_publish_header topic (length topic) id (length (b ∷ payload))
              ∷ on_publish_data (b ∷ payload) true
              ∷ [],
        ))
      × IsIdle r
  unfolding decode_data
  payload_read =
      let bytes = publish_front topic id (length (b ∷ payload)) ++ b ∷ payload in
      let fuel : 3 * length bytes + 3 ≡ suc (suc (3 * length bytes + 1)) = omega arith in
      (finished, rw fuel (both_read (3 * length bytes + 1)), finished-IsIdle)

-- A sender with no data pending and no ping waiting, on a connection that takes everything, and a
-- receiver that is between two packets: the header and then the data, not empty, of a message whose
-- header fits the buffer and whose size is below 2 ^ 28, are sent, whatever `bool` the connection's
-- `send` gives for that; the handler returns that `bool` for both, so false where `send` returns
-- `ERR_OK`. What was sent, given to `decode_data`, is handed over once, with topic, message id and
-- length, and the receiver is between two packets again.
pub decode_data-publish :
    (answer : Bool) (now_us : ℕ) (topic : Bytes) (b : ℕ) (payload : Bytes)
    (h receiver : MqttSocketHandler)
    → length (publish_front topic h.message_id (length (b ∷ payload))) ≤ mqtt_buffer_size
    → 4 + length topic + length (b ∷ payload) < 2 ^ 28
    → h.pending_send_data_len ≡ 0
    → h.pending_ping ≡ false
    → IsIdle receiver
    → (sent : Bytes) × (h' r : MqttSocketHandler) × (publish answer now_us topic (b ∷ payload) h
        ≡ ((answer, answer), h', sent))
      × (decode_data receiver sent
          ≡ some (
            true,
            r,
            on_publish_header topic (length topic) h.message_id (length (b ∷ payload))
                ∷ on_publish_data (b ∷ payload) true
                ∷ [],
          ))
      × IsIdle r
decode_data-publish answer now_us topic b payload h receiver fits short free no_ping v =
    let (r, read, idle) = payload_read receiver v topic h.message_id b payload fits short in
    (_, _, r, published answer now_us topic (b ∷ payload) h fits short free no_ping, read, idle)
