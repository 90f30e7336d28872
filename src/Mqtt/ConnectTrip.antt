-- ===== src/Mqtt/ConnectTrip.antt =====
-- A CONNECT packet, as a broker reads it.
use pico_https.Common.{
  ℕ, ◌+◌, ◌/◌, ◌%◌, ◌^◌, ◌≤◌, ◌<◌, Bool, false, ◌≡◌, refl, ◌∙◌, ap, sym, some, ◌∷◌, ◌++◌, Bytes,
  All, arith,
}
use pico_https.Common.Tests.{ltb, ◌==◌}
use pico_https.Common.Lists.{length, drop, length-append}
use pico_https.Common.Text.{ascii}
use pico_https.Mqtt.Handler.{MqttSocketHandler, mqtt_max_header_size, mqtt_connect}
use pico_https.Mqtt.Send.{length_bytes, write_header, send_bytes}
use pico_https.Mqtt.Connect.{
  connect_size, connect_flags, write_whole, write_will, write_user, send_connect,
}
use pico_https.Mqtt.ConnectTexts.{
  Client, IsText, texts, packed, will_topic_of, will_message_of, user_of, pass_of, read_strings,
  read_strings-packed, payload-packed, connect_size_lem,
}

abbrev pub size_of : Client → ℕ
size_of c =
    connect_size (some c.id) (will_topic_of c.will) (will_message_of c.will) (user_of c.user)
      (pass_of c.user)

-- What follows the header of the packet.
abbrev pub variable_part : Bool → ℕ → Client → Bytes
variable_part clean_session keepalive_seconds c =
    0x00
    ∷ 0x04
    ∷ (ascii "MQTT"
        ++ 4
          ∷ connect_flags clean_session (will_topic_of c.will) (user_of c.user) (pass_of c.user)
          ∷ (keepalive_seconds / 2 ^ 8)
          ∷ (keepalive_seconds % 2 ^ 8)
          ∷ (write_whole c.id
              ++ (write_will (will_topic_of c.will) (will_message_of c.will)
                  ++ write_user (user_of c.user) (pass_of c.user))))

length-variable_part :
    (clean_session : Bool) (keepalive_seconds : ℕ) (c : Client)
    → All IsText (texts c)
    → length (variable_part clean_session keepalive_seconds c) ≡ size_of c
length-variable_part clean_session keepalive_seconds c all =
    let payload =
      write_whole c.id
      ++ (write_will (will_topic_of c.will) (will_message_of c.will)
          ++ write_user (user_of c.user) (pass_of c.user)) in
    let whole : length payload ≡ length (packed (texts c)) = ap length (payload-packed c) in
    omega (arith, whole, connect_size_lem c all)

length-write_header :
    (size : ℕ)
    → size < 2 ^ 28
    → (1 ≤ length (write_header mqtt_connect size (size + mqtt_max_header_size) 0))
      × (length (write_header mqtt_connect size (size + mqtt_max_header_size) 0) ≤ 5)
unfolding write_header length_bytes
length-write_header size l = ground arith

-- A client whose strings are not empty, with a will that is a topic and its message, and a password
-- only with a user, that fits the buffer, where no data is pending: `send_connect` sends a header with
-- the length of what follows it, all of it in the bytes that were reserved, and behind the ten bytes of
-- the variable header a broker reads the id, the will, the user and the password.
pub send_connect-read_strings :
    {S : Type 0} (send : Bytes → S → Bool × S) (now_us keepalive_seconds : ℕ) (clean_session : Bool)
    (c : Client) (h : MqttSocketHandler) (s : S)
    → All IsText (texts c)
    → size_of c + mqtt_max_header_size ≤ 256
    → h.pending_send_data_len ≡ 0
    → (front rest : Bytes) × (send_connect send now_us clean_session keepalive_seconds
          (some c.id)
          (will_topic_of c.will)
          (will_message_of c.will)
          (user_of c.user)
          (pass_of c.user)
          h
          s
        ≡ send_bytes send
            (front ++ rest)
            (record h {
              message_id = 1;
              last_keepalive_us = now_us;
              keepalive_seconds = keepalive_seconds;
            })
            s)
      × (front ≡ write_header mqtt_connect (length rest) (length rest + mqtt_max_header_size) 0)
      × (length (front ++ rest) ≤ size_of c + mqtt_max_header_size)
      × (read_strings (length (texts c)) (drop 10 rest) ≡ some (texts c))
unfolding send_connect
send_connect-read_strings send now_us keepalive_seconds clean_session c h s all fits idle =
    let n = size_of c in
    let front = write_header mqtt_connect n (n + mqtt_max_header_size) 0 in
    let rest = variable_part clean_session keepalive_seconds c in
    let size = length-variable_part clean_session keepalive_seconds c all in
    let (some_, short) = length-write_header n (omega arith) in
    let none_pending : ltb 0 h.pending_send_data_len ≡ false = ground arith in
    let room : ltb 256 (n + mqtt_max_header_size) ≡ false = ground arith in
    let written : (length front == 0) ≡ false = ground arith in
    (
      front,
      rest,
      rw (none_pending, room, written) refl,
      ap (λ m. write_header mqtt_connect m (m + mqtt_max_header_size) 0) (sym size),
      omega (arith, length-append front rest, size, short),
      ap (read_strings (length (texts c))) (payload-packed c)
          ∙ read_strings-packed (texts c) (length (texts c)) all (omega arith),
    )
