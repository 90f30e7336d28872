-- ===== src/WebSocket/WaitPacket.antt =====
-- The branch `WAIT_PACKET` of `decodeData` against the byte-by-byte decoder of `Stream`.
use pico_https.Common.{
  ℕ, ◌+◌, ◌-◌, ◌≤◌, ◌<◌, min, true, false, ◌||◌, ◌≡◌, refl, sym, ap, ◌∙◌, ◌≡⟨◌⟩◌, ◌∎, inl, inr,
  List, [], ◌++◌, append_assoc, append-nil, arith, Bytes,
}
use pico_https.Common.Tests.{ltb, Bool-cases}
use pico_https.Common.Lists.{
  length, take, drop, length-append, length-take, length-drop, length-memcpy, take-memcpy,
  take-append, take_all, take-take, take-append-drop,
}
use pico_https.WebSocket.{
  WebSocketState, wait_packet, wait_data, WebSocketHandler, websocket_header_size,
  max_websocket_header, HeaderStep, incomplete, complete, fill_buffer, read_flags, accept_header,
  wait_packet_step,
}
use pico_https.WebSocket.Stream.{Event, header, is_incomplete, start, feed_all, view}
use pico_https.WebSocket.Header.{
  header_size-take, header_size-append, header_size_bounds, start-take, feed_all_incomplete,
  feed_all_complete, incomplete_lt, incomplete_prefix,
}

-- Between two calls the buffer holds the front of a header that is not complete, or nothing.
abbrev Waits : WebSocketState → WebSocketHandler → Type 0
Waits wait_packet h = is_incomplete (take h.buffer_index h.buffer) ≡ true
Waits wait_data h = h.buffer_index ≡ 0

pub record IsValid (h : WebSocketHandler) : Type 0 where
  pub buffer_size : length h.buffer ≡ max_websocket_header
  pub index_in : h.buffer_index ≤ max_websocket_header
  pub data_in : h.data_index ≤ h.data_len
  pub waits : Waits h.state h

module _ (h : WebSocketHandler) (bytes : Bytes) (v : IsValid h)
    (packet : h.state ≡ wait_packet) where
  abbrev pub used : Bytes
  used = take h.buffer_index h.buffer

  copied : ℕ
  copied = min (length bytes) (max_websocket_header - h.buffer_index)

  filled : WebSocketHandler
  filled = fill_buffer h bytes

  used-incomplete : is_incomplete used ≡ true
  used-incomplete = rw packet at v.waits

  length-used : length used ≡ h.buffer_index
  length-used = omega (arith, length-take h.buffer_index h.buffer, v.index_in, v.buffer_size)

  length-copied : length (take copied bytes) ≡ copied
  unfolding copied
  length-copied = omega (arith, length-take copied bytes)

  copied-le : (copied ≤ max_websocket_header - h.buffer_index) × (copied ≤ length bytes)
  unfolding copied
  copied-le = omega arith

  -- What the buffer holds after the copy.
  used-filled : take filled.buffer_index filled.buffer ≡ used ++ take copied bytes
  unfolding filled copied fill_buffer
  used-filled =
      take-memcpy h.buffer h.buffer_index _ _ (omega (arith, length-copied))
        (omega (arith, v.index_in, v.buffer_size))

  index-filled : filled.buffer_index ≡ h.buffer_index + copied
  unfolding filled copied fill_buffer
  index-filled = refl

  length-filled : length filled.buffer ≡ max_websocket_header
  unfolding filled fill_buffer
  length-filled = length-memcpy h.buffer h.buffer_index _ ∙ v.buffer_size

  state-filled : filled.state ≡ wait_packet
  unfolding filled fill_buffer
  state-filled = packet

  data_in-filled : filled.data_index ≤ filled.data_len
  unfolding filled fill_buffer
  data_in-filled = v.data_in

  length-front : length (used ++ take copied bytes) ≡ filled.buffer_index
  length-front =
      omega
        (arith, length-append used (take copied bytes), length-used, length-copied, index-filled)

  size-front :
      2 ≤ filled.buffer_index
      → websocket_header_size (used ++ take copied bytes) ≡ websocket_header_size filled.buffer
  size-front two = rw (← used-filled) (header_size-take filled.buffer_index filled.buffer two)

  -- The tests of the code, on the front of the stream that is in the buffer.
  front-incomplete :
      is_incomplete (used ++ take copied bytes)
      ≡ (ltb filled.buffer_index 2 || ltb filled.buffer_index (websocket_header_size filled.buffer))
  front-incomplete = ground (arith, length-front, size-front)

  -- An incomplete header has taken all the bytes.
  copied_all : is_incomplete (used ++ take copied bytes) ≡ true → take copied bytes ≡ bytes
  unfolding copied
  copied_all more = take_all copied bytes (
      omega (
        arith,
        incomplete_lt (used ++ take copied bytes) [] more,
        header_size_bounds ((used ++ take copied bytes) ++ []),
        length-front,
        index-filled,
      ))

  abbrev pub HeaderRefines : List Event → HeaderStep → Type 0
  HeaderRefines out (incomplete h') =
      IsValid h' × (feed_all (header used) out bytes ≡ (view h', out))
  HeaderRefines out (complete h' rest) =
      IsValid h'
      × (h'.state ≡ wait_data)
      × (length rest < length bytes)
      × (feed_all (header used) out bytes ≡ feed_all (view h') out rest)

  -- The handler that waits for more of the header.
  waiting :
      (h' : WebSocketHandler)
      → h'.buffer ≡ filled.buffer
      → h'.buffer_index ≡ filled.buffer_index
      → h'.state ≡ wait_packet
      → h'.data_index ≤ h'.data_len
      → is_incomplete (used ++ take copied bytes) ≡ true
      → (out : List Event) → HeaderRefines out (incomplete h')
  waiting h' eb ei es d more out = (
    record {
      buffer_size = rw eb length-filled;
      index_in = rw ei (omega (arith, index-filled, v.index_in, copied-le));
      data_in = d;
      waits = rw (es, eb, ei, used-filled) more;
    },
    rw (es, eb, ei, used-filled, copied_all more)
        (feed_all_incomplete bytes used out (rw (copied_all more) at more)),
  )

  size : ℕ
  size = websocket_header_size filled.buffer

  whole_split : used ++ bytes ≡ (used ++ take copied bytes) ++ drop copied bytes
  whole_split =
      ap (λ k. used ++ k) (sym (take-append-drop copied bytes))
      ∙ sym (append_assoc used (take copied bytes) (drop copied bytes))

  module _ (done : is_incomplete (used ++ take copied bytes) ≡ false) where
    two-le-index : 2 ≤ filled.buffer_index
    two-le-index = ground (arith, front-incomplete, done)

    size-le-index : size ≤ filled.buffer_index
    unfolding size
    size-le-index = ground (arith, front-incomplete, done)

    index-lt-size : h.buffer_index < size
    unfolding size
    index-lt-size = omega (
      arith,
      length-used,
      incomplete_lt used (take copied bytes) used-incomplete,
      size-front two-le-index,
    )

    size-whole : websocket_header_size (used ++ bytes) ≡ size
    unfolding size
    size-whole = rw whole_split (
        header_size-append (used ++ take copied bytes) (drop copied bytes)
          (omega (arith, length-front, two-le-index))
        ∙ size-front two-le-index)

    whole_complete : is_incomplete (used ++ bytes) ≡ false
    whole_complete = elim (Bool-cases (is_incomplete (used ++ bytes))) [
      | inl more ↦ cc (
        done,
        incomplete_prefix (used ++ take copied bytes) (drop copied bytes) (rw whole_split at more),
      )
      | inr fits ↦ fits
    ]

    header-bytes : take size (used ++ bytes) ≡ take size filled.buffer
    header-bytes =
        take size (used ++ bytes)
        ≡⟨ (rw (
          whole_split,
          take-append size (used ++ take copied bytes) (drop copied bytes),
          none_left,
          append-nil,
        )) ⟩
          take size (used ++ take copied bytes)
        ≡⟨ (rw (← used-filled) (take-take size filled.buffer_index filled.buffer size-le-index)) ⟩
          take size filled.buffer ∎
      where
        none_left : size - length (used ++ take copied bytes) ≡ 0
        none_left = omega (arith, length-front, size-le-index)

    consumed : copied - (filled.buffer_index - size) ≡ size - h.buffer_index
    consumed = omega (arith, index-filled, size-le-index, index-lt-size)

    rest-shorter : length (drop (size - h.buffer_index) bytes) < length bytes
    rest-shorter = omega (
      arith,
      length-drop (size - h.buffer_index) bytes,
      index-lt-size,
      size-le-index,
      index-filled,
      copied-le,
    )

    feed_all-accepted :
        (out : List Event)
        → feed_all (header used) out bytes
          ≡ feed_all (start filled.buffer) out (drop (size - h.buffer_index) bytes)
    feed_all-accepted out =
        feed_all_complete bytes used out used-incomplete whole_complete
        ∙ rw (size-whole, header-bytes, length-used)
            (ap (λ ph. feed_all ph out (drop (size - h.buffer_index) bytes))
              (start-take size filled.buffer (unfold size in omega arith)))

    accepted :
        (out : List Event)
        → HeaderRefines out (
            complete
              (accept_header (read_flags filled))
              (drop (copied - (filled.buffer_index - size)) bytes))
    unfolding accept_header read_flags
    accepted out = rw consumed (
      record {
        buffer_size = length-filled;
        index_in = omega arith;
        data_in = omega arith;
        waits = refl;
      },
      refl,
      rest-shorter,
      feed_all-accepted out,
    )

  -- The branch reads as much of the stream as the decoder of `Stream` does.
  pub wait_packet_step_refines : (out : List Event) → HeaderRefines out (wait_packet_step h bytes)
  unfolding wait_packet_step filled copied size
  wait_packet_step_refines out = elim (Bool-cases (ltb filled.buffer_index 2)) [
    | inl short ↦
        rw short
          (waiting filled refl refl state-filled data_in-filled (rw (front-incomplete, short)) out)
    | inr long ↦ rw long (elim (Bool-cases (ltb filled.buffer_index size)) [
      | inl short ↦ rw short (
          unfold read_flags in
          waiting (read_flags filled) refl refl state-filled data_in-filled
            (rw (front-incomplete, long, short)) out)
      | inr fits ↦ rw fits (accepted (rw (front-incomplete, long, fits)) out)
    ])
  ]
