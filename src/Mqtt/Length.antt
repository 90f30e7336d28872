-- ===== src/Mqtt/Length.antt =====
-- The remaining length that `write_header` writes is the one that `decode_header` reads.
use pico_https.Common.{
  ℕ, suc, ◌+◌, ◌-◌, ◌*◌, ◌/◌, ◌%◌, ◌^◌, ◌≤◌, ◌<◌, bit_and, true, false, ◌≡◌, ◌⊎◌, refl, ◌∙◌, inl,
  inr, ap, [], ◌∷◌, ◌++◌, Bytes, some, arith,
}
use pico_https.Common.Bits.{low_bits7, top_bit}
use pico_https.Common.Tests.{ltb, leb, Bool-cases, ltb→lt, ltb-false→le}
use pico_https.Common.Lists.{length, get_or}
use pico_https.Mqtt.Receive.{remaining_length}
use pico_https.Mqtt.Send.{length_bytes, write_header}

module _ (rounds : ℕ) (buf : Bytes) (idx pos len d : ℕ) (small : d < 128)
    (fits : pos + 1 < idx) where
  sum : ℕ
  sum = (len + d * 2 ^ (pos * 7) % 2 ^ 32) % 2 ^ 32

  not_dry : leb idx (pos + 1) ≡ false
  not_dry = ground arith

  goes_on :
      get_or buf (pos + 1) 0 ≡ d + 0x80
      → pos + 1 < 5
      → remaining_length (suc rounds) buf idx pos len
        ≡ remaining_length rounds buf idx (pos + 1) sum
  unfolding remaining_length sum
  goes_on e l =
      let low : bit_and (d + 0x80) 0x7f ≡ d = omega (arith, low_bits7 (d + 0x80)) in
      let top : bit_and (d + 0x80) 0x80 ≡ 0x80 = omega (arith, top_bit (d + 0x80)) in
      let early : ltb (pos + 1) 5 ≡ true = ground arith in rw (e, low, top, not_dry, early)

  stops :
      get_or buf (pos + 1) 0 ≡ d
      → remaining_length (suc rounds) buf idx pos len ≡ some (pos + 1, sum)
  unfolding remaining_length sum
  stops e =
      let low : bit_and d 0x7f ≡ d = omega (arith, low_bits7 d) in
      let top : bit_and d 0x80 ≡ 0 = omega (arith, top_bit d) in rw (e, low, top, not_dry)

module _ (t idx d0 d1 d2 d3 : ℕ) (s0 : d0 < 128) (s1 : d1 < 128) (s2 : d2 < 128) (s3 : d3 < 128)
    (rest : Bytes) where
  read1 : 1 < idx → remaining_length 5 (t ∷ d0 ∷ rest) idx 0 0 ≡ some (1, d0)
  unfolding sum
  read1 l = stops 4 (t ∷ d0 ∷ rest) idx 0 0 d0 s0 l refl ∙ ap (λ n. some (1, n)) (omega arith)

  read2 :
      2 < idx → remaining_length 5 (t ∷ (d0 + 0x80) ∷ d1 ∷ rest) idx 0 0 ≡ some (2, d0 + d1 * 2 ^ 7)
  unfolding sum
  read2 l =
      let buf = t ∷ (d0 + 0x80) ∷ d1 ∷ rest in
      goes_on 4 buf idx 0 0 d0 s0 (omega arith) refl (omega arith)
      ∙ stops 3 buf idx 1 _ d1 s1 l refl
      ∙ ap (λ n. some (2, n)) (omega arith)

  read3 :
      3 < idx
      → remaining_length 5 (t ∷ (d0 + 0x80) ∷ (d1 + 0x80) ∷ d2 ∷ rest) idx 0 0
        ≡ some (3, d0 + d1 * 2 ^ 7 + d2 * 2 ^ 14)
  unfolding sum
  read3 l =
      let buf = t ∷ (d0 + 0x80) ∷ (d1 + 0x80) ∷ d2 ∷ rest in
      goes_on 4 buf idx 0 0 d0 s0 (omega arith) refl (omega arith)
      ∙ goes_on 3 buf idx 1 _ d1 s1 (omega arith) refl (omega arith)
      ∙ stops 2 buf idx 2 _ d2 s2 l refl
      ∙ ap (λ n. some (3, n)) (omega arith)

  read4 :
      4 < idx
      → remaining_length 5 (t ∷ (d0 + 0x80) ∷ (d1 + 0x80) ∷ (d2 + 0x80) ∷ d3 ∷ rest) idx 0 0
        ≡ some (4, d0 + d1 * 2 ^ 7 + d2 * 2 ^ 14 + d3 * 2 ^ 21)
  unfolding sum
  read4 l =
      let buf = t ∷ (d0 + 0x80) ∷ (d1 + 0x80) ∷ (d2 + 0x80) ∷ d3 ∷ rest in
      goes_on 4 buf idx 0 0 d0 s0 (omega arith) refl (omega arith)
      ∙ goes_on 3 buf idx 1 _ d1 s1 (omega arith) refl (omega arith)
      ∙ goes_on 2 buf idx 2 _ d2 s2 (omega arith) refl (omega arith)
      ∙ stops 1 buf idx 3 _ d3 s3 l refl
      ∙ ap (λ n. some (4, n)) (omega arith)

digit_small : (n : ℕ) → bit_and n 0x7f < 128
digit_small n = omega (arith, low_bits7 n)

-- `length_bytes` by the number of its bytes.
length_bytes-cases :
    (size : ℕ)
    → (length_bytes size ≡ bit_and size 0x7f ∷ [] × size < 2 ^ 7)
      ⊎ (length_bytes size ≡ (bit_and size 0x7f + 0x80) ∷ bit_and (size / 2 ^ 7) 0x7f ∷ []
          × size < 2 ^ 14)
      ⊎ (length_bytes size
            ≡ (bit_and size 0x7f + 0x80)
              ∷ (bit_and (size / 2 ^ 7) 0x7f + 0x80)
              ∷ bit_and (size / 2 ^ 14) 0x7f
              ∷ []
          × size < 2 ^ 21)
      ⊎ (length_bytes size
          ≡ (bit_and size 0x7f + 0x80)
            ∷ (bit_and (size / 2 ^ 7) 0x7f + 0x80)
            ∷ (bit_and (size / 2 ^ 14) 0x7f + 0x80)
            ∷ bit_and (size / 2 ^ 21) 0x7f
            ∷ [])
unfolding length_bytes
length_bytes-cases size = ground arith

-- A remaining length below 2 ^ 28 is read back as it was written, at the start of a buffer that holds
-- its bytes and one before them, whatever follows.
pub remaining_length-length_bytes :
    (size idx t : ℕ) (rest : Bytes)
    → size < 2 ^ 28
    → length (length_bytes size) < idx
    → remaining_length 5 (t ∷ length_bytes size ++ rest) idx 0 0
      ≡ some (length (length_bytes size), size)
remaining_length-length_bytes size idx t rest l fits = elim (length_bytes-cases size) [
  | inl (e, small) ↦ rw e (
      read1 t idx d0 d1 d2 d3 s0 s1 s2 s3 rest (fewer 1 _ e refl)
      ∙ ap (λ n. some (1, n)) (omega (arith, low_bits7 size)))
  | inr (inl (e, small)) ↦ rw e (
      read2 t idx d0 d1 d2 d3 s0 s1 s2 s3 rest (fewer 2 _ e refl)
      ∙ ap (λ n. some (2, n)) (omega (arith, low_bits7 size, low_bits7 (size / 2 ^ 7))))
  | inr (inr (inl (e, small))) ↦ rw e (
      read3 t idx d0 d1 d2 d3 s0 s1 s2 s3 rest (fewer 3 _ e refl)
      ∙ ap (λ n. some (3, n))
          (omega (arith, low_bits7 size, low_bits7 (size / 2 ^ 7), low_bits7 (size / 2 ^ 14))))
  | inr (inr (inr e)) ↦ rw e (
      read4 t idx d0 d1 d2 d3 s0 s1 s2 s3 rest (fewer 4 _ e refl)
      ∙ ap (λ n. some (4, n))
          (omega (
            arith,
            low_bits7 size,
            low_bits7 (size / 2 ^ 7),
            low_bits7 (size / 2 ^ 14),
            low_bits7 (size / 2 ^ 21),
          )))
]
  where
    d0 : ℕ
    d0 = bit_and size 0x7f

    d1 : ℕ
    d1 = bit_and (size / 2 ^ 7) 0x7f

    d2 : ℕ
    d2 = bit_and (size / 2 ^ 14) 0x7f

    d3 : ℕ
    d3 = bit_and (size / 2 ^ 21) 0x7f

    s0 : d0 < 128
    s0 = digit_small size

    s1 : d1 < 128
    s1 = digit_small (size / 2 ^ 7)

    s2 : d2 < 128
    s2 = digit_small (size / 2 ^ 14)

    s3 : d3 < 128
    s3 = digit_small (size / 2 ^ 21)

    fewer : (n : ℕ) (bytes : Bytes) → length_bytes size ≡ bytes → length bytes ≡ n → n < idx
    fewer n bytes e f = omega (arith, ap length e)

pub length-length_bytes : (size : ℕ) → length (length_bytes size) ≤ 4
unfolding length_bytes
length-length_bytes size = ground arith

-- What `write_header` writes is the type and the remaining length, of one to four bytes, and that
-- length is read back as it was given; it writes nothing for a length of 2 ^ 28 or more, or where
-- the bytes that it has to place, and 5 for the header, do not fit the buffer.
pub write_header-remaining_length :
    (t size buffer_size later idx : ℕ) (rest : Bytes)
    → later ≤ size
    → size - later + 5 < 2 ^ 32
    → length (write_header t size buffer_size later) ≤ idx
    → ((write_header t size buffer_size later ≡ [])
        × ((2 ^ 28 ≤ size) ⊎ (buffer_size < size - later + 5)))
      ⊎ ((size < 2 ^ 28)
          × (length (write_header t size buffer_size later) ≤ 5)
          × (remaining_length 5 (write_header t size buffer_size later ++ rest) idx 0 0
              ≡ some (length (write_header t size buffer_size later) - 1, size)))
unfolding write_header
write_header-remaining_length t size buffer_size later idx rest h l fits =
    elim (Bool-cases (ltb buffer_size ((size + 2 ^ 32 - later + 5) % 2 ^ 32))) [
      | inl large ↦ rw large (inl (refl, inr (omega (arith, ltb→lt _ _ large))))
      | inr room ↦ elim (Bool-cases (ltb 0 (size / 2 ^ 28))) [
        | inl long ↦ rw (room, long) (inl (refl, inl (omega (arith, ltb→lt _ _ long))))
        | inr short ↦
            let small : size < 2 ^ 28 = omega (arith, ltb-false→le _ _ short) in
            let few : suc (length (length_bytes size)) ≤ 5 =
              omega (arith, length-length_bytes size) in
            let w : write_header t size buffer_size later ≡ t ∷ length_bytes size =
              rw (room, short) in
            let in_buffer : length (length_bytes size) < idx = omega (arith, ap length w) in
            let minus_one : suc (length (length_bytes size)) - 1 ≡ length (length_bytes size) =
              omega arith in
            rw (room, short, minus_one)
              (inr (small, few, remaining_length-length_bytes size idx t rest small in_buffer))
      ]
    ]
