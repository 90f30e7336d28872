-- ===== src/WebSocket/Tests.antt =====
-- Runs of the WebSocket codec, and its theorems at concrete inputs.
use pico_https.Common.{Bool, true, false, ◌≡◌, refl, List, [], ◌∷◌, arith, Bytes, some, none, All}
use pico_https.WebSocket.{
  WebSocketHandler, wait_packet, wait_data, decode_data, decode_loop, decode_step, encode_data,
  unmask, websocket_header_size, web_socket_data_len, masking_key_of, mask_flag, payload_len,
  key_offset, fill_buffer, read_flags, accept_header, continuation_frame, binary_frame, text_frame,
  is_data_frame,
}
use pico_https.WebSocket.Stream.{Event, byte, finished, recorder}
use pico_https.WebSocket.Refine.{Decodes, outcome, decode_data_refines}
use pico_https.WebSocket.Chunks.{decode_data-append, decode_data-append_refused}
use pico_https.WebSocket.Frames.{frame}
use pico_https.WebSocket.Payload.{Message, IsMessage}
use pico_https.WebSocket.Messages.{
  IsIdle, stream, events_of, sender, decode_data-stream, encode_data-frame, decode_data-encode_data,
}

abbrev zeros : Bytes
zeros = 0 ∷ 0 ∷ 0 ∷ 0 ∷ 0 ∷ 0 ∷ 0 ∷ 0 ∷ 0 ∷ 0 ∷ 0 ∷ 0 ∷ 0 ∷ 0 ∷ 0 ∷ 0 ∷ []

abbrev fresh : WebSocketHandler
fresh = record {
  fin = false;
  mask = false;
  operation = 0;
  data_len = 0;
  data_index = 0;
  masking_key = 0 ∷ 0 ∷ 0 ∷ 0 ∷ [];
  state = wait_packet;
  buffer_index = 0;
  buffer = zeros;
}

fresh-IsIdle : IsIdle fresh
fresh-IsIdle = record {
  valid = record {
    buffer_size = refl;
    index_in = omega arith;
    data_in = omega arith;
    waits = refl;
  };
  waiting = refl;
  empty = refl;
}

-- "Hi" as a masked text frame.
abbrev hi : Message
hi = record {
  fin = true;
  operation = text_frame;
  key = some (record { key0 = 1; key1 = 2; key2 = 3; key3 = 4 });
  first = b'H';
  others = b'i' ∷ [];
}

hi-IsMessage : IsMessage hi
hi-IsMessage = record { is_data = unfold is_data_frame in refl; short = omega arith }

abbrev hi_bytes : Bytes
hi_bytes = 129 ∷ 130 ∷ 1 ∷ 2 ∷ 3 ∷ 4 ∷ 73 ∷ 107 ∷ []

stream-hi : stream (hi ∷ []) ≡ hi_bytes
stream-hi = refl

decode_hi :
    (h : WebSocketHandler) × (decode_data recorder fresh [] hi_bytes
      ≡ some (true, h, byte b'H' ∷ byte b'i' ∷ finished ∷ []))
unfolding decode_data decode_loop decode_step websocket_header_size web_socket_data_len
    masking_key_of mask_flag payload_len key_offset fill_buffer read_flags accept_header unmask
decode_hi = (_, refl)

-- After the first three of those bytes.
abbrev in_header : WebSocketHandler
in_header = record {
  fin = true;
  mask = true;
  operation = text_frame;
  data_len = 0;
  data_index = 0;
  masking_key = 0 ∷ 0 ∷ 0 ∷ 0 ∷ [];
  state = wait_packet;
  buffer_index = 3;
  buffer = 129 ∷ 130 ∷ 1 ∷ 0 ∷ 0 ∷ 0 ∷ 0 ∷ 0 ∷ 0 ∷ 0 ∷ 0 ∷ 0 ∷ 0 ∷ 0 ∷ 0 ∷ 0 ∷ [];
}

decode_part : decode_data recorder fresh [] (129 ∷ 130 ∷ 1 ∷ []) ≡ some (true, in_header, [])
unfolding decode_data decode_loop decode_step websocket_header_size web_socket_data_len
    masking_key_of mask_flag payload_len key_offset fill_buffer read_flags accept_header unmask
decode_part = refl

-- A ping is refused when the byte behind its header arrives.
abbrev refused_ping : WebSocketHandler
refused_ping = record {
  fin = true;
  mask = false;
  operation = 9;
  data_len = 0;
  data_index = 0;
  masking_key = 0 ∷ 0 ∷ 0 ∷ 0 ∷ [];
  state = wait_data;
  buffer_index = 0;
  buffer = 137 ∷ 0 ∷ 129 ∷ 0 ∷ 0 ∷ 0 ∷ 0 ∷ 0 ∷ 0 ∷ 0 ∷ 0 ∷ 0 ∷ 0 ∷ 0 ∷ 0 ∷ 0 ∷ [];
}

decode_ping : decode_data recorder fresh [] (137 ∷ 0 ∷ 129 ∷ []) ≡ some (false, refused_ping, [])
unfolding decode_data decode_loop decode_step websocket_header_size web_socket_data_len
    masking_key_of mask_flag payload_len key_offset fill_buffer read_flags accept_header unmask
decode_ping = refl

-- An empty frame at the end of the data ends only when the next byte arrives.
decode_empty :
    (h : WebSocketHandler) × (decode_data recorder fresh [] (130 ∷ 0 ∷ []) ≡ some (true, h, []))
unfolding decode_data decode_loop decode_step websocket_header_size web_socket_data_len
    masking_key_of mask_flag payload_len key_offset fill_buffer read_flags accept_header unmask
decode_empty = (_, refl)

decode_data_refines_example : Decodes fresh [] hi_bytes (decode_data recorder fresh [] hi_bytes)
decode_data_refines_example = decode_data_refines fresh [] hi_bytes fresh-IsIdle.valid

decode_data-append_example :
    (r : Bool) × (h2 h' : WebSocketHandler) × (events : List Event) × (decode_data recorder
        in_header []
        (2 ∷ 3 ∷ 4 ∷ 73 ∷ 107 ∷ [])
      ≡ some (r, h2, events))
    × (decode_data recorder fresh [] hi_bytes ≡ some (r, h', events))
    × (outcome r h2 ≡ outcome r h')
decode_data-append_example =
    decode_data-append fresh in_header [] [] (129 ∷ 130 ∷ 1 ∷ []) (2 ∷ 3 ∷ 4 ∷ 73 ∷ 107 ∷ [])
      fresh-IsIdle.valid decode_part

decode_data-append_refused_example :
    (h' : WebSocketHandler) × (decode_data recorder fresh [] (137 ∷ 0 ∷ 129 ∷ 0 ∷ [])
      ≡ some (false, h', []))
decode_data-append_refused_example =
    decode_data-append_refused fresh refused_ping [] [] (137 ∷ 0 ∷ 129 ∷ []) (0 ∷ [])
      fresh-IsIdle.valid decode_ping

-- The same in two fragments, the first one without FIN.
abbrev first_part : Message
first_part = record hi { fin = false; others = [] }

abbrev last_part : Message
last_part = record {
  fin = true;
  operation = continuation_frame;
  key = none;
  first = b'i';
  others = [];
}

abbrev three_frames : List Message
three_frames = hi ∷ first_part ∷ last_part ∷ []

three_frames-IsMessage : All IsMessage three_frames
three_frames-IsMessage = (
  hi-IsMessage,
  (
    record { is_data = unfold is_data_frame in refl; short = omega arith },
    (record { is_data = unfold is_data_frame in refl; short = omega arith }, tt),
  ),
)

decode_data-stream_example :
    (h' : WebSocketHandler) × (decode_data recorder fresh [] (stream three_frames)
      ≡ some (true, h', events_of three_frames))
    × IsIdle h'
decode_data-stream_example =
    decode_data-stream fresh [] three_frames fresh-IsIdle three_frames-IsMessage

encode_data-frame_example :
    encode_data sender (7 ∷ 8 ∷ []) (1 ∷ []) ≡ (true, 1 ∷ frame true binary_frame none (7 ∷ 8 ∷ []))
encode_data-frame_example = encode_data-frame (7 ∷ 8 ∷ []) (1 ∷ []) (omega arith)

decode_data-encode_data_example :
    (h' : WebSocketHandler) × (decode_data recorder fresh [] (encode_data sender (7 ∷ 8 ∷ []) []).1
      ≡ some (true, h', byte 7 ∷ byte 8 ∷ finished ∷ []))
    × IsIdle h'
decode_data-encode_data_example =
    decode_data-encode_data fresh [] 7 (8 ∷ []) fresh-IsIdle (omega arith)
