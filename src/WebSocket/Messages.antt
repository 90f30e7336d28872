-- ===== src/WebSocket/Messages.antt =====
-- Whole messages through `encodeData` and `decodeData`.
use pico_https.Common.{
  ℕ, ◌^◌, ◌≤◌, ◌<◌, Bool, true, false, ◌≡◌, refl, sym, ap, ◌∙◌, List, [], ◌∷◌, ◌++◌, append_assoc,
  append-nil, arith, Bytes, some, none, All,
}
use pico_https.Common.Lists.{length, take, length-take}
use pico_https.WebSocket.{
  WebSocketState, wait_packet, wait_data, WebSocketHandler, WebSocketInterface, decode_data,
  encode_data, encode_header, binary_frame, is_data_frame, max_websocket_header,
}
use pico_https.WebSocket.Stream.{Event, byte, finished, header, feed_all, recorder, view, phase_of}
use pico_https.WebSocket.WaitPacket.{IsValid}
use pico_https.WebSocket.Refine.{outcome, Kept, decode_data_refines}
use pico_https.WebSocket.Frames.{frame, frame_header}
use pico_https.WebSocket.Payload.{Message, body, message_frame, IsMessage, feed_all-frame}
use mathlib.Core.List.{map}
use mathlib.Core.Path.{subst}

abbrev pub stream : List Message → Bytes
stream [] = []
stream (m ∷ ms) = message_frame m ++ stream ms

-- The payload of each message, and its end.
abbrev pub events_of : List Message → List Event
events_of [] = []
events_of (m ∷ ms) = map byte (body m) ++ finished ∷ events_of ms

feed_all-stream :
    (ms : List Message) (out : List Event)
    → All IsMessage ms
    → feed_all (header []) out (stream ms) ≡ (header [], out ++ events_of ms)
feed_all-stream [] out v = unfold feed_all in rw append-nil
feed_all-stream (m ∷ ms) out v =
    feed_all-frame m (stream ms) out v.0
    ∙ feed_all-stream ms ((out ++ map byte (body m)) ++ finished ∷ []) v.1
    ∙ rw (append_assoc, append_assoc)

-- Between two frames: nothing is buffered, and the next byte begins a header.
pub record IsIdle (h : WebSocketHandler) : Type 0 where
  pub valid : IsValid h
  pub waiting : h.state ≡ wait_packet
  pub empty : h.buffer_index ≡ 0

view-idle : (h : WebSocketHandler) → IsIdle h → view h ≡ header []
view-idle h i = rw (i.waiting, i.empty)

idle_phase :
    (st : WebSocketState) (h : WebSocketHandler)
    → length h.buffer ≡ max_websocket_header
    → h.buffer_index ≤ max_websocket_header
    → phase_of st h ≡ header []
    → (st ≡ wait_packet) × (h.buffer_index ≡ 0)
idle_phase wait_packet h size inside e =
    let none_used : take h.buffer_index h.buffer ≡ [] = cc e in
    (refl, omega (arith, ap length none_used, length-take h.buffer_index h.buffer))
idle_phase wait_data h size inside e = cc e

IsIdle-of_view : (h : WebSocketHandler) → IsValid h → view h ≡ header [] → IsIdle h
IsIdle-of_view h v e =
    let (w, z) = idle_phase h.state h v.buffer_size v.index_in e in
    record { valid = v; waiting = w; empty = z }

accepted_of_outcome :
    (r : Bool) (h : WebSocketHandler) → outcome r h ≡ header [] → (r ≡ true) × (view h ≡ header [])
accepted_of_outcome true h e = (refl, e)
accepted_of_outcome false h e = cc

-- From between two frames, a stream of data frames, with FIN or without it, masked or not, and with
-- payloads that are not empty, is read by one call, which accepts it: the payloads come unmasked and in
-- order, each with its end, also that of a fragment, and the handler is between two frames again.
pub decode_data-stream :
    (h : WebSocketHandler) (out : List Event) (ms : List Message)
    → IsIdle h
    → All IsMessage ms
    → (h' : WebSocketHandler) × (decode_data recorder h out (stream ms)
        ≡ some (true, h', out ++ events_of ms))
      × IsIdle h'
decode_data-stream h out ms i v =
    let d = decode_data_refines h out (stream ms) i.valid in
    let read : feed_all (view h) out (stream ms) ≡ (header [], out ++ events_of ms) =
      rw (view-idle h i) (feed_all-stream ms out v) in
    let ends : (outcome d.accepted d.handler, d.events) ≡ (header [], out ++ events_of ms) =
      sym d.decoded ∙ read in
    let (taken, at_start) = accepted_of_outcome d.accepted d.handler (ap (λ p. p.0) ends) in
    (
      d.handler,
      d.returns ∙ rw (taken, ap (λ p. p.1) ends),
      IsIdle-of_view d.handler (subst (λ r. Kept r d.handler) taken d.keeps) at_start,
    )

-- A callback that is the other end's wire.
abbrev pub sender : WebSocketInterface Bytes
sender = record {
  on_web_socket_data = λ bytes sent. (true, sent);
  on_websocket_encoded_data = λ bytes sent. (true, sent ++ bytes);
  on_finished_packet = λ sent. (true, sent);
}

-- The header that `encodeData` builds is that of an unmasked binary frame, for a length that 32
-- bits hold.
encode_header_lem :
    (len : ℕ) → len < 2 ^ 32 → encode_header len ≡ frame_header true binary_frame none len
unfolding encode_header
encode_header_lem len l = ground arith

-- `encodeData` succeeds and sends one unmasked binary frame, with FIN, with the data as payload, if the
-- length is below 2 ^ 32.
pub encode_data-frame :
    (bytes sent : Bytes)
    → length bytes < 2 ^ 32
    → encode_data sender bytes sent ≡ (true, sent ++ frame true binary_frame none bytes)
unfolding encode_data
encode_data-frame bytes sent l = rw (encode_header_lem (length bytes) l, append_assoc)

-- What one end encodes the other decodes: from between two frames, `decodeData` on the bytes that
-- `encodeData` sent for data that is not empty and shorter than 2 ^ 32 hands over that data and
-- the end of the packet, and is between two frames again.
pub decode_data-encode_data :
    (h : WebSocketHandler) (out : List Event) (b : ℕ) (bytes : Bytes)
    → IsIdle h
    → length (b ∷ bytes) < 2 ^ 32
    → (h' : WebSocketHandler) × (decode_data recorder h out (encode_data sender (b ∷ bytes) []).1
        ≡ some (true, h', out ++ (map byte (b ∷ bytes) ++ finished ∷ [])))
      × IsIdle h'
decode_data-encode_data h out b bytes i l =
    let m : Message = record {
      fin = true;
      operation = binary_frame;
      key = none;
      first = b;
      others = bytes;
    } in
    let is_message : IsMessage m = record {
      is_data = unfold is_data_frame in refl;
      short = omega arith;
    } in
    rw (encode_data-frame (b ∷ bytes) [] l, ← append-nil (frame true binary_frame none (b ∷ bytes)))
      (decode_data-stream h out (m ∷ []) i (is_message, tt))
