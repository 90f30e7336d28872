-- ===== src/WebSocket/Header.antt =====
-- Reading a frame header through the 16-byte `m_buffer`: only the header's own bytes matter.
use pico_https.Common.{
  ℕ, suc, ◌+◌, ◌-◌, ◌≤◌, ◌<◌, true, false, ◌≡◌, ap, ◌∙◌, inl, inr, List, [], ◌∷◌, ◌++◌,
  append_assoc, append-nil, arith, Bytes,
}
use pico_https.Common.Tests.{ltb, ◌==◌, if◌then◌else◌, Bool-cases}
use pico_https.Common.Lists.{
  length, get_or, take, drop, length-append, get_or-take, get_or-append, take-append_length,
}
use pico_https.Common.Bits.{low_bits7}
use pico_https.WebSocket.{
  byte_at, payload_len, mask_flag, websocket_header_size, web_socket_data_len, key_offset,
  masking_key_of,
}
use pico_https.WebSocket.Stream.{Event, header, is_incomplete, start, feed_header, feed, feed_all}

-- The second byte decides the size of the header.
pub header_size-append :
    (p q : Bytes) → 2 ≤ length p → websocket_header_size (p ++ q) ≡ websocket_header_size p
unfolding websocket_header_size payload_len mask_flag
header_size-append p q h = rw (get_or-append p q 1 0 h)

pub header_size-take :
    (n : ℕ) (p : Bytes) → 2 ≤ n → websocket_header_size (take n p) ≡ websocket_header_size p
unfolding websocket_header_size payload_len mask_flag
header_size-take n p h = rw (get_or-take n 1 p 0 h)

pub header_size_bounds :
    (p : Bytes) → (2 ≤ websocket_header_size p) × (websocket_header_size p ≤ 14)
unfolding websocket_header_size
header_size_bounds p = ground arith

payload_len-take : (n : ℕ) (p : Bytes) → 2 ≤ n → payload_len (take n p) ≡ payload_len p
unfolding payload_len
payload_len-take n p h = rw (get_or-take n 1 p 0 h)

mask_flag-take : (n : ℕ) (p : Bytes) → 2 ≤ n → mask_flag (take n p) ≡ mask_flag p
unfolding mask_flag
mask_flag-take n p h = rw (get_or-take n 1 p 0 h)

key_offset-take : (n : ℕ) (p : Bytes) → 2 ≤ n → key_offset (take n p) ≡ key_offset p
unfolding key_offset
key_offset-take n p h = rw (payload_len-take n p h)

two-le : (p : Bytes) (n : ℕ) → websocket_header_size p ≤ n → 2 ≤ n
two-le p n h = omega (arith, header_size_bounds p)

payload_len-le : (p : Bytes) → payload_len p ≤ 127
unfolding payload_len
payload_len-le p = omega (arith, low_bits7 (byte_at p 1))

-- Where the key, or the payload, begins.
key_offset-le :
    (p : Bytes) → key_offset p + (if mask_flag p then 4 else 0) ≡ websocket_header_size p
unfolding key_offset websocket_header_size
key_offset-le p = ground (arith, payload_len-le p)

web_socket_data_len-take :
    (n : ℕ) (p : Bytes)
    → websocket_header_size p ≤ n
    → web_socket_data_len (take n p) ≡ web_socket_data_len p
unfolding web_socket_data_len
web_socket_data_len-take n p h =
    rw (payload_len-take n p (two-le p n h)) (elim (Bool-cases (ltb (payload_len p) 126)) [
      | inl small ↦ rw small
      | inr large ↦ rw large (elim (Bool-cases (payload_len p == 126)) [
        | inl e ↦ let room = size_16 e in rw (e, at_ 2 (omega arith), at_ 3 (omega arith))
        | inr ne ↦
            let room = size_64 large ne in
            rw (
              ne,
              at_ 2 (omega arith),
              at_ 3 (omega arith),
              at_ 4 (omega arith),
              at_ 5 (omega arith),
              at_ 6 (omega arith),
              at_ 7 (omega arith),
              at_ 8 (omega arith),
              at_ 9 (omega arith),
            )
      ])
    ])
  where
    at_ : (i : ℕ) → i < n → get_or (take n p) i 0 ≡ get_or p i 0
    at_ i l = get_or-take n i p 0 l

    size_16 : (payload_len p == 126) ≡ true → 4 ≤ n
    size_16 e = unfold websocket_header_size in ground arith

    size_64 : ltb (payload_len p) 126 ≡ false → (payload_len p == 126) ≡ false → 10 ≤ n
    size_64 a b = unfold websocket_header_size in ground (arith, payload_len-le p)

masking_key_of-take :
    (n : ℕ) (p : Bytes) → websocket_header_size p ≤ n → masking_key_of (take n p) ≡ masking_key_of p
unfolding masking_key_of
masking_key_of-take n p h =
    rw (key_offset-take n p (two-le p n h), mask_flag-take n p (two-le p n h))
      (elim (Bool-cases (mask_flag p)) [
        | inl masked ↦
            let room = size masked in
            rw (
              masked,
              get_or-take n (key_offset p) p 0 (omega arith),
              at_ 1 (omega arith),
              at_ 2 (omega arith),
              at_ 3 (omega arith),
            )
        | inr plain ↦ rw plain
      ])
  where
    at_ :
        (j : ℕ)
        → key_offset p + j < n
        → get_or (take n p) (key_offset p + j) 0 ≡ get_or p (key_offset p + j) 0
    at_ j l = get_or-take n (key_offset p + j) p 0 l

    size : mask_flag p ≡ true → key_offset p + 4 ≤ n
    size m = let e = rw m at (key_offset-le p) in omega arith

-- A header is complete once its first bytes are, whatever follows.
pub start-take : (n : ℕ) (p : Bytes) → websocket_header_size p ≤ n → start (take n p) ≡ start p
start-take n p h =
    let two = two-le p n h in
    rw (
      get_or-take n 0 p 0 (omega arith),
      mask_flag-take n p two,
      masking_key_of-take n p h,
      web_socket_data_len-take n p h,
    )

pub incomplete_prefix : (p q : Bytes) → is_incomplete (p ++ q) ≡ true → is_incomplete p ≡ true
incomplete_prefix p q h = ground (arith, length-append p q, header_size-append p q)

pub feed_all_incomplete :
    (bytes p : Bytes) (out : List Event)
    → is_incomplete (p ++ bytes) ≡ true
    → feed_all (header p) out bytes ≡ (header (p ++ bytes), out)
unfolding feed_all feed feed_header
feed_all_incomplete [] p out h = rw append-nil
feed_all_incomplete (b ∷ bytes) p out h =
    let h' : is_incomplete ((p ++ b ∷ []) ++ bytes) ≡ true = rw append_assoc h in
    rw (incomplete_prefix (p ++ b ∷ []) bytes h')
      (feed_all_incomplete bytes (p ++ b ∷ []) out h' ∙ rw append_assoc)

-- An incomplete header is shorter than the header that it begins.
pub incomplete_lt :
    (p q : Bytes) → is_incomplete p ≡ true → length p < websocket_header_size (p ++ q)
incomplete_lt p q h = ground (arith, header_size-append p q, header_size_bounds (p ++ q))

-- The byte that completes a header is its last.
complete_eq :
    (p q : Bytes) (b : ℕ)
    → is_incomplete p ≡ true
    → is_incomplete (p ++ b ∷ []) ≡ false
    → websocket_header_size ((p ++ b ∷ []) ++ q) ≡ length p + 1
complete_eq p q b i c = ground (
  arith,
  incomplete_lt p (b ∷ []) i,
  length-append p (b ∷ []),
  header_size-append (p ++ b ∷ []) q,
)

pub feed_all_complete :
    (bytes p : Bytes) (out : List Event)
    → is_incomplete p ≡ true
    → is_incomplete (p ++ bytes) ≡ false
    → let size = websocket_header_size (p ++ bytes) in
      feed_all (header p) out bytes
      ≡ feed_all (start (take size (p ++ bytes))) out (drop (size - length p) bytes)
unfolding feed_all feed feed_header
feed_all_complete [] p out i c = cc (append-nil p)
feed_all_complete (b ∷ bytes) p out i c = elim (Bool-cases (is_incomplete (p ++ b ∷ []))) [
  | inl more ↦ rw more (
      feed_all_complete bytes (p ++ b ∷ []) out more (rw append_assoc c)
      ∙ rw append_assoc
          (ap (λ k. feed_all (start (take size whole)) out (drop k (b ∷ bytes))) (shift more)))
  | inr done ↦ rw done rw (first_bytes done, rest_bytes done)
]
  where
    whole : Bytes
    whole = p ++ b ∷ bytes

    size : ℕ
    size = websocket_header_size whole

    shift : is_incomplete (p ++ b ∷ []) ≡ true → suc (size - length (p ++ b ∷ [])) ≡ size - length p
    shift more =
        let lt = rw append_assoc at (incomplete_lt (p ++ b ∷ []) bytes more) in
        omega (arith, length-append p (b ∷ []))

    size_eq : is_incomplete (p ++ b ∷ []) ≡ false → size ≡ length p + 1
    size_eq done = rw append_assoc at (complete_eq p bytes b i done)

    first_bytes : is_incomplete (p ++ b ∷ []) ≡ false → take size whole ≡ p ++ b ∷ []
    first_bytes done =
        let e : size ≡ length (p ++ b ∷ []) =
          omega (arith, size_eq done, length-append p (b ∷ [])) in
        rw (e, ← append_assoc p (b ∷ []) bytes) (take-append_length (p ++ b ∷ []) bytes)

    rest_bytes : is_incomplete (p ++ b ∷ []) ≡ false → drop (size - length p) (b ∷ bytes) ≡ bytes
    rest_bytes done = let e : size - length p ≡ 1 = omega (arith, size_eq done) in rw e
