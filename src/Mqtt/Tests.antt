-- ===== src/Mqtt/Tests.antt =====
-- Runs of the receiving side of `MQTTSocketHandler` on concrete bytes.
use pico_https.Common.{
  ℕ, zero, suc, Bool, true, false, ◌≡◌, refl, List, [], ◌∷◌, Bytes, Option, some, none,
}
use pico_https.Mqtt.Handler.{
  MqttSocketHandler, wait_packet, Callback, on_conn_ack, on_ping_resp, on_publish_header,
  on_publish_data,
}
use pico_https.Mqtt.Receive.{
  decode_rounds, decode_data, decode_round, decode_header, buffer_bytes, remaining_length, dispatch,
  decode_conn_ack, decode_ping, decode_publish_header, consume,
}
use pico_https.Common.{◌≤◌, ◌<◌, ◌+◌, ◌-◌, ◌^◌, ◌⊎◌, ◌++◌, ap, arith}
use pico_https.Common.Lists.{length}
use pico_https.Mqtt.Send.{length_bytes, write_header}
use pico_https.Mqtt.PublishTrip.{publish_front}
use pico_https.Mqtt.RoundTrip.{publish, decode_data-publish}
use pico_https.Mqtt.Length.{write_header-remaining_length}
use pico_https.Mqtt.Contiguous.{
  Request, subscribe, publish_data, ping, Contiguous, data_of, run_message, run_message-Contiguous,
}
use pico_https.Mqtt.Buffer.{KeepsBuffer, decode_data-InBuffer}
use pico_https.Mqtt.Idle.{IsIdle}
use pico_https.Mqtt.Hang.{oversized, decode_data-oversized}
use pico_https.Mqtt.Returns.{ReturnsOrMeetsWrap, decode_data-returns}
use pico_https.Common.Lists.{drop}
use pico_https.Common.Text.{ascii}
use pico_https.Mqtt.Handler.{mqtt_connect}
use pico_https.Mqtt.Send.{send_bytes}
use pico_https.Mqtt.Connect.{connect_size, send_connect}
use pico_https.Mqtt.ConnectTexts.{Client, texts, read_strings}
use pico_https.Mqtt.ConnectTrip.{size_of, send_connect-read_strings}

abbrev zeros : ℕ → Bytes
zeros zero = []
zeros (suc n) = 0 ∷ zeros n

abbrev ready : MqttSocketHandler
ready = record {
  pending_ping = false;
  keepalive_seconds = 0;
  message_id = 1;
  recv_buffer_idx = 0;
  recv_buffer = zeros 256;
  state = wait_packet;
  last_keepalive_us = 0;
  pending_data_len = 0;
  pending_send_data_len = 0;
}

-- The calls that `decode_data` makes, if it returns.
calls_of : Option (Bool × MqttSocketHandler × List Callback) → List Callback
calls_of none = []
calls_of (some (ok, h, calls)) = calls

abbrev connack_and_pingresp : Bytes
connack_and_pingresp = 0x20 ∷ 0x02 ∷ 0x00 ∷ 0x00 ∷ 0xD0 ∷ 0x00 ∷ []

-- Topic "ab", message id 7, data "hi" at the least quality that has an id.
abbrev publish_of_hi : Bytes
publish_of_hi = 0x32 ∷ 0x08 ∷ 0x00 ∷ 0x02 ∷ 97 ∷ 98 ∷ 0x00 ∷ 0x07 ∷ 104 ∷ 105 ∷ []

two_packets :
    calls_of (decode_data ready connack_and_pingresp) ≡ on_conn_ack 0 0 ∷ on_ping_resp ∷ []
unfolding decode_data calls_of decode_rounds decode_round decode_header buffer_bytes
    remaining_length dispatch decode_conn_ack decode_ping consume
two_packets = refl

one_publish :
    calls_of (decode_data ready publish_of_hi)
    ≡ on_publish_header (97 ∷ 98 ∷ []) 2 7 2 ∷ on_publish_data (104 ∷ 105 ∷ []) true ∷ []
unfolding decode_data calls_of decode_rounds decode_round decode_header buffer_bytes
    remaining_length dispatch decode_publish_header consume
one_publish = refl

ready-IsIdle : IsIdle ready
ready-IsIdle = record { waiting = refl; empty = refl; buffer_size = refl }

decode_data-returns_example :
    ReturnsOrMeetsWrap ready publish_of_hi (decode_data ready publish_of_hi)
decode_data-returns_example = decode_data-returns ready publish_of_hi

decode_data-oversized_example :
    (decode_rounds 1000 ready (oversized []) [] ≡ none) × (decode_data ready (oversized []) ≡ none)
decode_data-oversized_example = decode_data-oversized 1000 ready [] ready-IsIdle

abbrev topic_ab : Bytes
topic_ab = 97 ∷ 98 ∷ []

abbrev hi : Bytes
hi = 104 ∷ 105 ∷ []

front_fits : length (publish_front topic_ab 1 2) ≤ 256
unfolding length_bytes
front_fits = omega arith

-- On a connection that returns `ERR_OK` for it.
decode_data-publish_example :
    (sent : Bytes) × (h' r : MqttSocketHandler) × (publish false 5 topic_ab hi ready
      ≡ ((false, false), h', sent))
    × (decode_data ready sent
        ≡ some (true, r, on_publish_header topic_ab 2 1 2 ∷ on_publish_data hi true ∷ []))
    × IsIdle r
decode_data-publish_example =
    decode_data-publish false 5 topic_ab 104 (105 ∷ []) ready ready front_fits (omega arith) refl
      refl ready-IsIdle

header_of_200 : write_header 0x33 200 300 0 ≡ 0x33 ∷ 0xC8 ∷ 0x01 ∷ []
unfolding write_header length_bytes
header_of_200 = refl

write_header-remaining_length_example :
    ((write_header 0x33 200 300 0 ≡ []) × ((2 ^ 28 ≤ 200) ⊎ (300 < 200 - 0 + 5)))
    ⊎ ((200 < 2 ^ 28)
        × (length (write_header 0x33 200 300 0) ≤ 5)
        × (remaining_length 5 (write_header 0x33 200 300 0 ++ hi) 5 0 0
            ≡ some (length (write_header 0x33 200 300 0) - 1, 200)))
write_header-remaining_length_example =
    write_header-remaining_length 0x33 200 300 0 5 hi (omega arith) (omega arith)
      (omega (arith, ap length header_of_200))

abbrev sending : MqttSocketHandler
sending = record ready { pending_send_data_len = 3 }

-- A subscription and a ping in the midst of a message.
abbrev requests : List Request
requests = publish_data 1 hi ∷ subscribe 2 topic_ab ∷ ping 3 ∷ publish_data 4 (33 ∷ []) ∷ []

-- The ping that was put off is not sent, since the data's `ERR_OK` counts as a failure.
run_message-Contiguous_example :
    Contiguous false 3 [] (data_of 3 requests) (run_message false requests sending [])
run_message-Contiguous_example = run_message-Contiguous false requests sending [] (omega arith)

decode_data-InBuffer_example :
    KeepsBuffer (decode_data ready publish_of_hi)
    × ReturnsOrMeetsWrap ready publish_of_hi (decode_data ready publish_of_hi)
decode_data-InBuffer_example = decode_data-InBuffer ready publish_of_hi (refl, omega arith)

-- A client with an id, a will and a user with a password.
abbrev named : Client
named = record {
  id = ascii "pico";
  will = some (ascii "gone", ascii "bye");
  user = some (ascii "me", some (ascii "pw"));
}

send_connect-read_strings_example :
    (front rest : Bytes) × (send_connect
        (λ bytes sent. (true, sent ++ bytes))
        7
        true
        30
        (some (ascii "pico"))
        (some (ascii "gone"))
        (some (ascii "bye"))
        (some (ascii "me"))
        (some (ascii "pw"))
        ready
        []
      ≡ send_bytes
          (λ bytes sent. (true, sent ++ bytes))
          (front ++ rest)
          (record ready { message_id = 1; last_keepalive_us = 7; keepalive_seconds = 30 })
          [])
    × (front ≡ write_header mqtt_connect (length rest) (length rest + 5) 0)
    × (length (front ++ rest) ≤ size_of named + 5)
    × (read_strings 5 (drop 10 rest) ≡ some (texts named))
unfolding connect_size
send_connect-read_strings_example =
    send_connect-read_strings (λ bytes sent. (true, sent ++ bytes)) 7 30 true named ready []
      (ground arith) (omega arith) refl
