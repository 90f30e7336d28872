-- ===== src/WebSocket/Stream.antt =====
-- What `WebSocketHandler::decodeData` is to do, one byte at a time and with no buffer: the frames
-- of a byte stream as a stream of payload bytes and ends of packets.
use pico_https.Common.{
  ℕ, ◌+◌, bit_and, bit_xor, Bool, true, ◌||◌, ◌≡◌, refl, List, [], ◌∷◌, ◌++◌, Bytes,
}
use pico_https.Common.Tests.{ltb, ◌==◌, if◌then◌else◌}
use pico_https.Common.Lists.{length, take}
use pico_https.WebSocket.{
  WebSocketState, wait_packet, wait_data, WebSocketHandler, WebSocketInterface, byte_at,
  websocket_header_size, web_socket_data_len, masking_key_of, mask_flag, is_data_frame,
}
use mathlib.Core.List.{map}

pub data Event : Type 0 where
  byte : ℕ → Event
  finished : Event

-- Where the stream stands: in a header of which these bytes are read, in a payload, or refused.
pub data Phase : Type 0 where
  header : Bytes → Phase
  payload : (operation : ℕ) → Bool → Bytes → (len : ℕ) → (index : ℕ) → Phase
  refused : Phase

abbrev pub is_incomplete : Bytes → Bool
is_incomplete p = ltb (length p) 2 || ltb (length p) (websocket_header_size p)

abbrev pub start : Bytes → Phase
start p =
    payload (bit_and (byte_at p 0) 0x0f) (mask_flag p) (masking_key_of p) (web_socket_data_len p) 0

unfoldable pub feed_header : Bytes → List Event → ℕ → Phase × List Event
feed_header p out b =
    if is_incomplete (p ++ b ∷ []) then (header (p ++ b ∷ []), out) else (start (p ++ b ∷ []), out)

abbrev pub unmasked : Bool → Bytes → ℕ → ℕ → ℕ
unmasked mask key index b = if mask then bit_xor b (byte_at key (bit_and index 0x3)) else b

-- After the payload byte before `index`: the packet ends with its last byte.
unfoldable pub advance : ℕ → Bool → Bytes → ℕ → ℕ → List Event → Phase × List Event
advance operation mask key len index out =
    if index == len
    then (header [], out ++ finished ∷ [])
    else (payload operation mask key len index, out)

-- An empty payload ends when the byte behind it arrives.
unfoldable pub feed : Phase → List Event → ℕ → Phase × List Event
unfolding feed_header advance is_data_frame
feed (header p) out b = feed_header p out b
feed (payload operation mask key len index) out b =
    if is_data_frame operation
    then (if ltb index len
        then advance operation mask key len (index + 1)
            (out ++ byte (unmasked mask key index b) ∷ [])
        else feed_header [] (out ++ finished ∷ []) b)
    else (refused, out)
feed refused out b = (refused, out)

unfoldable pub feed_all : Phase → List Event → Bytes → Phase × List Event
feed_all ph out [] = (ph, out)
feed_all ph out (b ∷ bytes) = let (ph', out') = feed ph out b in feed_all ph' out' bytes

pub feed_all-append :
    (ph : Phase) (out : List Event) (xs ys : Bytes)
    → feed_all ph out (xs ++ ys) ≡ (let (ph', out') = feed_all ph out xs in feed_all ph' out' ys)
unfolding feed_all
feed_all-append ph out [] ys = refl
feed_all-append ph out (x ∷ xs) ys =
    let (ph', out') = feed ph out x in feed_all-append ph' out' xs ys

pub feed_all-refused :
    (out : List Event) (bytes : Bytes) → feed_all refused out bytes ≡ (refused, out)
unfolding feed_all feed
feed_all-refused out [] = refl
feed_all-refused out (b ∷ bytes) = feed_all-refused out bytes

-- The phase that a handler stands for.
abbrev pub phase_of : WebSocketState → WebSocketHandler → Phase
phase_of wait_packet h = header (take h.buffer_index h.buffer)
phase_of wait_data h = payload h.operation h.mask h.masking_key h.data_len h.data_index

abbrev pub view : WebSocketHandler → Phase
view h = phase_of h.state h

-- A callback that accepts everything and records it.
abbrev pub recorder : WebSocketInterface (List Event)
recorder = record {
  on_web_socket_data = λ bytes out. (true, out ++ map byte bytes);
  on_websocket_encoded_data = λ bytes out. (true, out);
  on_finished_packet = λ out. (true, out ++ finished ∷ []);
}
