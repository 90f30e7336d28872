-- ===== src/WebSocket/Payload.antt =====
-- The payload of a frame of RFC 6455, read to its end.
use pico_https.Common.{
  ℕ, ◌+◌, ◌%◌, ◌^◌, ◌<◌, bit_xor, Bool, true, false, ◌≡◌, refl, ap, ◌∙◌, List, [], ◌∷◌, ◌++◌,
  append_assoc, arith, Bytes, Option, some, none,
}
use pico_https.Common.Tests.{◌==◌}
use pico_https.Common.Lists.{length, get_or}
use pico_https.Common.Bits.{low_bits2, bit_xor_twice}
use pico_https.WebSocket.{is_data_frame}
use pico_https.WebSocket.Stream.{
  Event, byte, finished, header, payload, unmasked, advance, feed, feed_all,
}
use pico_https.WebSocket.Unmask.{feed-payload, advance_more}
use mathlib.Core.List.{map}
use pico_https.WebSocket.Frames.{
  Key, masked, frame, frame_header, frame_payload, is_masked, key_of, feed_all-frame_header,
}

-- The octets of a payload on the wire, from octet `i`.
abbrev wire : Bool → Bytes → ℕ → Bytes → Bytes
wire false key i bytes = bytes
wire true key i bytes = masked key i bytes

wire-cons :
    (mask : Bool) (key : Bytes) (i b : ℕ) (bytes : Bytes)
    → (x : ℕ) × (wire mask key i (b ∷ bytes) ≡ x ∷ wire mask key (i + 1) bytes)
      × (unmasked mask key i x ≡ b)
wire-cons false key i b bytes = (b, refl, refl)
wire-cons true key i b bytes =
    let k = get_or key (i % 4) 0 in (bit_xor b k, refl, rw low_bits2 (bit_xor_twice b k))

wire-nil : (mask : Bool) (key : Bytes) (i : ℕ) → wire mask key i [] ≡ []
wire-nil false key i = refl
wire-nil true key i = refl

advance_last :
    (operation : ℕ) (mask : Bool) (key : Bytes) (len index : ℕ) (out : List Event)
    → index ≡ len
    → advance operation mask key len index out ≡ (header [], out ++ finished ∷ [])
unfolding advance
advance_last operation mask key len index out e =
    let same : (index == len) ≡ true = ground arith in rw same

module _ (operation : ℕ) (mask : Bool) (key : Bytes) (len : ℕ) (rest : Bytes)
    (is_data : is_data_frame operation ≡ true) where
  feed_all-wire :
      (bytes : Bytes) (b i : ℕ) (out : List Event)
      → len ≡ i + length (b ∷ bytes)
      → feed_all (payload operation mask key len i) out (wire mask key i (b ∷ bytes) ++ rest)
        ≡ feed_all (header []) ((out ++ map byte (b ∷ bytes)) ++ finished ∷ []) rest
  unfolding feed_all
  feed_all-wire [] b i out e =
      let (x, ex, back) = wire-cons mask key i b [] in
      rw (
        ex,
        wire-nil mask key (i + 1),
        feed-payload operation mask key len is_data i x out (omega arith),
        back,
        advance_last operation mask key len (i + 1) (out ++ byte b ∷ []) (omega arith),
      )
  feed_all-wire (c ∷ bytes) b i out e =
      let (x, ex, back) = wire-cons mask key i b (c ∷ bytes) in
      let more : (i + 1 == len) ≡ false = ground arith in
      let first : feed (payload operation mask key len i) out x
          ≡ (payload operation mask key len (i + 1), out ++ byte b ∷ []) =
        rw (feed-payload operation mask key len is_data i x out (omega arith), back)
          (advance_more operation mask key len is_data (i + 1) (out ++ byte b ∷ []) more) in
      ap (λ w. feed_all (payload operation mask key len i) out (w ++ rest)) ex
      ∙ ap (λ st. feed_all st.0 st.1 (wire mask key (i + 1) (c ∷ bytes) ++ rest)) first
      ∙ feed_all-wire bytes c (i + 1) (out ++ byte b ∷ []) (omega arith)
      ∙ rw (append_assoc out (byte b ∷ []) (map byte (c ∷ bytes)))

frame_payload-wire :
    (key : Option Key) (bytes : Bytes)
    → frame_payload key bytes ≡ wire (is_masked key) (key_of key) 0 bytes
frame_payload-wire none bytes = refl
frame_payload-wire (some k) bytes = refl

-- A data frame, of a whole message or a fragment of one, whose payload is not empty and has a length
-- that 64 bits hold.
pub record Message : Type 0 where
  pub fin : Bool
  pub operation : ℕ
  pub key : Option Key
  pub first : ℕ
  pub others : Bytes

abbrev pub body : Message → Bytes
body m = m.first ∷ m.others

abbrev pub message_frame : Message → Bytes
message_frame m = frame m.fin m.operation m.key (body m)

pub record IsMessage (m : Message) : Type 0 where
  pub is_data : is_data_frame m.operation ≡ true
  pub short : length (body m) < 2 ^ 64

data_operation : (operation : ℕ) → is_data_frame operation ≡ true → operation < 16
unfolding is_data_frame
data_operation operation h = ground arith

-- A frame is read to its end, and the decoder is then between two frames.
pub feed_all-frame :
    (m : Message) (rest : Bytes) (out : List Event)
    → IsMessage m
    → feed_all (header []) out (message_frame m ++ rest)
      ≡ feed_all (header []) ((out ++ map byte (body m)) ++ finished ∷ []) rest
feed_all-frame m rest out v =
    let front = frame_header m.fin m.operation m.key (length (body m)) in
    ap (feed_all (header []) out) (append_assoc front (frame_payload m.key (body m)) rest)
    ∙ feed_all-frame_header m.fin m.operation m.key (length (body m)) _ out
        (data_operation m.operation v.is_data) v.short
    ∙ rw frame_payload-wire (
        feed_all-wire m.operation (is_masked m.key) (key_of m.key) (length (body m)) rest v.is_data
          m.others m.first 0 out (omega arith))
