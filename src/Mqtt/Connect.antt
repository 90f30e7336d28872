-- ===== src/Mqtt/Connect.antt =====
-- `send_connect`, and the calls of the connection below that are passed on. `none` is `NULL`, and a
-- string of C is given as its characters; `strlen` is cut to 16 bits.
use pico_https.Common.{
  ℕ, ◌+◌, ◌/◌, ◌%◌, ◌^◌, Bool, true, false, Option, none, some, [], ◌∷◌, ◌++◌, Bytes,
}
use pico_https.Common.Tests.{ltb, ◌==◌, if◌then◌else◌}
use pico_https.Common.Lists.{length}
use pico_https.Common.Text.{ascii}
use pico_https.Mqtt.Handler.{
  MqttSocketHandler, reset, mqtt_max_header_size, mqtt_buffer_size, mqtt_connect,
}
use pico_https.Mqtt.Send.{write_header, write_string, send_bytes}

abbrev pub string_length : Option Bytes → ℕ
string_length none = 0
string_length (some text) = length text % 2 ^ 16

-- The length of a string that goes only with another one.
abbrev pub length_with : Option Bytes → Option Bytes → ℕ
length_with none text = 0
length_with (some other) text = string_length text

-- What a string adds to `message_size`.
abbrev pub string_size : ℕ → ℕ
string_size len = if ltb 0 len then 2 + len else 0

unfoldable pub connect_size : (id will_topic will_message user pass : Option Bytes) → ℕ
connect_size id will_topic will_message user pass =
    10
    + string_size (string_length id)
    + string_size (string_length will_topic)
    + string_size (length_with will_topic will_message)
    + string_size (string_length user)
    + string_size (length_with user pass)

abbrev pub is_given : Option Bytes → Bool
is_given none = false
is_given (some text) = true

-- `v`: the flags do not overlap.
abbrev pub connect_flags : (clean_session : Bool) → (will_topic user pass : Option Bytes) → ℕ
connect_flags clean_session will_topic user pass =
    (if is_given will_topic then 0x2C else 0)
    + (if clean_session then 0x02 else 0)
    + (if is_given user then 0x80 + (if is_given pass then 0x40 else 0) else 0)

abbrev pub write_whole : Bytes → Bytes
write_whole text = write_string text (length text % 2 ^ 16)

abbrev pub write_will : (will_topic will_message : Option Bytes) → Bytes
write_will (some topic) (some message) = write_whole topic ++ write_whole message
write_will _ _ = []

abbrev pub write_user : (user pass : Option Bytes) → Bytes
write_user none pass = []
write_user (some user) none = write_whole user
write_user (some user) (some pass) = write_whole user ++ write_whole pass

module _ {S : Type 0} (send : Bytes → S → Bool × S) where
  unfoldable pub send_connect :
      ℕ
      → (clean_session : Bool) → (keepalive_seconds : ℕ)
      → (id will_topic will_message user pass : Option Bytes) → MqttSocketHandler
      → S
      → Bool × MqttSocketHandler × S
  unfolding connect_size
  send_connect now_us clean_session keepalive_seconds id will_topic will_message user pass h s =
      let message_size = connect_size id will_topic will_message user pass in
      let header = write_header mqtt_connect message_size (message_size + mqtt_max_header_size) 0 in
      if ltb 0 h.pending_send_data_len
      then (false, h, s)
      else if ltb mqtt_buffer_size (message_size + mqtt_max_header_size)
      then (false, h, s)
      else if length header == 0
      then (false, h, s)
      else elim id [
        | none ↦ (false, h, s)
        | some name ↦
            send_bytes send
              (header
                ++ (0x00
                    ∷ 0x04
                    ∷ (ascii "MQTT"
                        ++ 4
                          ∷ connect_flags clean_session will_topic user pass
                          ∷ (keepalive_seconds / 2 ^ 8)
                          ∷ (keepalive_seconds % 2 ^ 8)
                          ∷ (write_whole name
                              ++ (write_will will_topic will_message ++ write_user user pass)))))
              (record h {
                message_id = 1;
                last_keepalive_us = now_us;
                keepalive_seconds = keepalive_seconds;
              })
              s
      ]

-- `on_connected`, where `upstream` is that of the owner; `on_sent` and `on_closed` are only passed on.
unfoldable pub on_connected :
    {S : Type 0} (upstream : S → S) → ℕ → MqttSocketHandler → S → MqttSocketHandler × S
unfolding reset
on_connected upstream now_us h s = (reset now_us h, upstream s)
