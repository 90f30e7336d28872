-- ===== src/WebSocket/Frames.antt =====
-- Frames of RFC 6455, 5.2, written from the standard, and what `decodeData` makes of them.
use pico_https.Common.{
  ℕ, ◌+◌, ◌-◌, ◌*◌, ◌/◌, ◌%◌, ◌^◌, ◌≤◌, ◌<◌, bit_and, bit_xor, Bool, true, false, not, ◌≡◌, refl,
  ap, ap₂, ◌∙◌, List, [], ◌∷◌, ◌++◌, arith, Bytes, Option, some, none,
}
use pico_https.Common.Tests.{ltb, ◌==◌, if◌then◌else◌}
use pico_https.Common.Lists.{length, get_or, take-append_length, drop-append_length, length-append}
use pico_https.Common.Bits.{low_bits4, low_bits7, top_bit}
use pico_https.WebSocket.{
  payload_len, mask_flag, websocket_header_size, web_socket_data_len, masking_key_of, key_offset,
}
use pico_https.WebSocket.Stream.{Event, header, payload, start, feed_all}
use pico_https.WebSocket.Header.{feed_all_complete}

-- Octet `i` of the payload is combined with octet `i` modulo 4 of the key.
abbrev pub masked : Bytes → ℕ → Bytes → Bytes
masked key i [] = []
masked key i (b ∷ bytes) = bit_xor b (get_or key (i % 4) 0) ∷ masked key (i + 1) bytes

abbrev pub length_field : ℕ → ℕ
length_field len = if ltb len 126 then len else if ltb len (2 ^ 16) then 126 else 127

abbrev pub extended_length : ℕ → Bytes
extended_length len =
    if ltb len 126
    then []
    else if ltb len (2 ^ 16)
    then (len / 2 ^ 8 % 256) ∷ (len % 256) ∷ []
    else (len / 2 ^ 56 % 256)
      ∷ (len / 2 ^ 48 % 256)
      ∷ (len / 2 ^ 40 % 256)
      ∷ (len / 2 ^ 32 % 256)
      ∷ (len / 2 ^ 24 % 256)
      ∷ (len / 2 ^ 16 % 256)
      ∷ (len / 2 ^ 8 % 256)
      ∷ (len % 256)
      ∷ []

-- A masking key has four octets.
pub record Key : Type 0 where
  pub key0 : ℕ
  pub key1 : ℕ
  pub key2 : ℕ
  pub key3 : ℕ

abbrev pub key_bytes : Key → Bytes
key_bytes k = k.key0 ∷ k.key1 ∷ k.key2 ∷ k.key3 ∷ []

-- FIN, the three reserved bits as zeros, and the opcode.
abbrev pub first_octet : (fin : Bool) → ℕ → ℕ
first_octet true operation = 128 + operation
first_octet false operation = operation

-- A frame, the last of its message or not, unmasked as a server sends it, or masked as a client does.
abbrev pub frame_header : (fin : Bool) → ℕ → Option Key → ℕ → Bytes
frame_header fin operation none len =
    first_octet fin operation ∷ length_field len ∷ extended_length len
frame_header fin operation (some k) len =
    first_octet fin operation ∷ (128 + length_field len) ∷ (extended_length len ++ key_bytes k)

abbrev pub frame_payload : Option Key → Bytes → Bytes
frame_payload none bytes = bytes
frame_payload (some k) bytes = masked (key_bytes k) 0 bytes

abbrev pub frame : (fin : Bool) → ℕ → Option Key → Bytes → Bytes
frame fin operation key bytes =
    frame_header fin operation key (length bytes) ++ frame_payload key bytes

-- The fields of a header, from its second byte.
payload_len-second : (a b : ℕ) (t : Bytes) → payload_len (a ∷ b ∷ t) ≡ b % 128
unfolding payload_len
payload_len-second a b t = low_bits7 b

mask_flag-second : (a b : ℕ) (t : Bytes) → mask_flag (a ∷ b ∷ t) ≡ not (b / 128 % 2 * 128 == 0)
unfolding mask_flag
mask_flag-second a b t = rw (top_bit b)

-- Each field is read from the header, whatever follows it.
module _ (fin : Bool) (operation len : ℕ) (l : len < 2 ^ 64) where
  plain_size :
      (rest : Bytes)
      → websocket_header_size (frame_header fin operation none len ++ rest)
        ≡ length (frame_header fin operation none len)
  unfolding websocket_header_size
  plain_size rest = ground (
    arith,
    payload_len-second (first_octet fin operation) (length_field len) (extended_length len ++ rest),
    mask_flag-second (first_octet fin operation) (length_field len) (extended_length len ++ rest),
  )

  plain_len : web_socket_data_len (frame_header fin operation none len) ≡ len
  unfolding web_socket_data_len
  plain_len = ground (
    arith,
    payload_len-second (first_octet fin operation) (length_field len) (extended_length len),
  )

  masked_size :
      (k : Key) (rest : Bytes)
      → websocket_header_size (frame_header fin operation (some k) len ++ rest)
        ≡ length (frame_header fin operation (some k) len)
  unfolding websocket_header_size
  masked_size k rest = ground (
    arith,
    payload_len-second (first_octet fin operation) (128 + length_field len)
        ((extended_length len ++ key_bytes k) ++ rest),
    mask_flag-second (first_octet fin operation) (128 + length_field len)
        ((extended_length len ++ key_bytes k) ++ rest),
  )

  masked_len : (k : Key) → web_socket_data_len (frame_header fin operation (some k) len) ≡ len
  unfolding web_socket_data_len
  masked_len k = ground (
    arith,
    payload_len-second (first_octet fin operation) (128 + length_field len)
        (extended_length len ++ key_bytes k),
  )

  masked_key : (k : Key) → masking_key_of (frame_header fin operation (some k) len) ≡ key_bytes k
  unfolding masking_key_of key_offset
  masked_key k = ground (
    arith,
    payload_len-second (first_octet fin operation) (128 + length_field len)
        (extended_length len ++ key_bytes k),
    mask_flag-second (first_octet fin operation) (128 + length_field len)
        (extended_length len ++ key_bytes k),
  )

  plain_flag : mask_flag (frame_header fin operation none len) ≡ false
  plain_flag =
      ground (
        arith,
        mask_flag-second (first_octet fin operation) (length_field len) (extended_length len),
      )

  plain_key : masking_key_of (frame_header fin operation none len) ≡ 0 ∷ 0 ∷ 0 ∷ 0 ∷ []
  unfolding masking_key_of
  plain_key = rw plain_flag

  masked_flag : (k : Key) → mask_flag (frame_header fin operation (some k) len) ≡ true
  masked_flag k = ground (
    arith,
    mask_flag-second (first_octet fin operation) (128 + length_field len)
        (extended_length len ++ key_bytes k),
  )

abbrev pub is_masked : Option Key → Bool
is_masked none = false
is_masked (some k) = true

abbrev pub key_of : Option Key → Bytes
key_of none = 0 ∷ 0 ∷ 0 ∷ 0 ∷ []
key_of (some k) = key_bytes k

operation_bits :
    (fin : Bool) (operation : ℕ)
    → operation < 16
    → bit_and (first_octet fin operation) 0x0f ≡ operation
operation_bits true operation h = omega (arith, low_bits4 (128 + operation))
operation_bits false operation h = omega (arith, low_bits4 operation)

start-frame_header :
    (fin : Bool) (operation : ℕ) (key : Option Key) (len : ℕ)
    → operation < 16
    → len < 2 ^ 64
    → start (frame_header fin operation key len)
      ≡ payload operation (is_masked key) (key_of key) len 0
start-frame_header fin operation none len h l = rw (
  operation_bits fin operation h,
  plain_len fin operation len l,
  plain_flag fin operation len l,
  plain_key fin operation len l,
)
start-frame_header fin operation (some k) len h l = rw (
  operation_bits fin operation h,
  masked_len fin operation len l k,
  masked_key fin operation len l k,
  masked_flag fin operation len l k,
)

frame_size :
    (fin : Bool) (operation : ℕ) (key : Option Key) (len : ℕ) (rest : Bytes)
    → len < 2 ^ 64
    → websocket_header_size (frame_header fin operation key len ++ rest)
      ≡ length (frame_header fin operation key len)
frame_size fin operation none len rest l = plain_size fin operation len l rest
frame_size fin operation (some k) len rest l = masked_size fin operation len l k rest

two-le-header :
    (fin : Bool) (operation : ℕ) (key : Option Key) (len : ℕ)
    → 2 ≤ length (frame_header fin operation key len)
two-le-header fin operation none len = omega arith
two-le-header fin operation (some k) len = omega arith

pub feed_all-frame_header :
    (fin : Bool) (operation : ℕ) (key : Option Key) (len : ℕ) (rest : Bytes) (out : List Event)
    → operation < 16
    → len < 2 ^ 64
    → feed_all (header []) out (frame_header fin operation key len ++ rest)
      ≡ feed_all (payload operation (is_masked key) (key_of key) len 0) out rest
feed_all-frame_header fin operation key len rest out h l =
    let front = frame_header fin operation key len in
    let z : length front - 0 ≡ length front = omega arith in
    feed_all_complete (front ++ rest) [] out refl (
      ground (
        arith,
        frame_size fin operation key len rest l,
        two-le-header fin operation key len,
        length-append front rest,
      ))
    ∙ rw (frame_size fin operation key len rest l, z)
        (ap₂ (λ ph bytes. feed_all ph out bytes)
          (ap start (take-append_length front rest) ∙ start-frame_header fin operation key len h l)
          (drop-append_length front rest))
