-- ===== src/Logger/Line.antt =====
-- pico_logger/pico_logger.c: what `send_message` sends, whatever the message and the buffer are.
use pico_https.Common.{
  ℕ, suc, ◌-◌, ◌/◌, ◌%◌, ◌^◌, ◌≤◌, ◌<◌, Bool, true, false, ◌≡◌, ◌∙◌, ap, ◌⊎◌, inl, inr, [], ◌∷◌,
  ◌++◌, Bytes, arith,
}
use native.Mathlib.Decide.{dec_lt}
use pico_https.Common.Tests.{ltb, lt→ltb, ltb-false→le, le→ltb-false, ◌==◌, if◌then◌else◌, if-elim}
use pico_https.Common.Lists.{length, get_or, set, take, drop, replicate, length-append}
use pico_https.Common.Text.{print_int}
use pico_https.Common.Printed.{length-print_int, length-replicate, drop-set_before, drop-set}
use pico_https.Logger.Message.{
  Logger, buffer_size, address_size, c_string, padded, get_logging_id, prefix, cap,
}

-- The last character is a newline.
abbrev pub has_newline : Bytes → Bool
has_newline text = get_or text (length text - 1) 0 == b'\n'

-- The datagram of a whole message: a newline ends it, but a message that does not fit is cut after
-- 1498 characters, with a zero, or two, in their place.
unfoldable pub line : Bytes → Bytes
line text =
    if ltb (length text) (buffer_size - 1)
    then (if has_newline text then text else text ++ b'\n' ∷ [])
    else take (buffer_size - 2) text
      ++ (if length text == buffer_size - 1 then 0 ∷ [] else 0 ∷ 0 ∷ [])

-- What `trace` keeps: the size of the arrays, a zero at the end of the buffer, and a count of at most
-- three digits.
abbrev pub IsLogger : Logger → Type 0
IsLogger l =
    (drop (buffer_size - 1) l.buffer ≡ 0 ∷ [])
    × (length l.address ≡ address_size)
    × (l.log_count < 999)

length-c_string : (bytes : Bytes) → length (c_string bytes) ≤ length bytes
unfolding c_string
length-c_string [] = omega arith
length-c_string (c ∷ bytes) =
    if-elim (λ (t : Bytes). length t ≤ suc (length bytes)) (c == 0) (λ _. omega arith)
      (λ _. omega (arith, length-c_string bytes))

length-padded :
    (width : ℕ) (text : Bytes) → width ≤ 11 → length text ≤ 11 → length (padded width text) ≤ 11
unfolding padded
length-padded width text w t = omega (
  arith,
  length-append (replicate (width - length text) b' ') text,
  length-replicate {A = ℕ} (width - length text) b' ',
  w,
  t,
)

-- Of an address and a category of the size that they have.
pub length-prefix :
    (l : Logger) (us : ℕ) (category : Bytes)
    → length l.address ≡ address_size
    → length category ≤ 5
    → length (prefix l us category) < 80
unfolding prefix get_logging_id
length-prefix l us category e c =
    let id = c_string l.address in
    let category_on = category ++ b' ' ∷ [] in
    let id_on = id ++ (b' ' ∷ category_on) in
    let time = padded 8 (print_int (us / 1000 % 2 ^ 32)) in
    omega (
      arith,
      length-append (padded 3 (print_int l.log_count)) (b' ' ∷ (time ++ (b' ' ∷ id_on))),
      length-append time (b' ' ∷ id_on),
      length-append id (b' ' ∷ category_on),
      length-append category (b' ' ∷ []),
      length-padded 3 (print_int l.log_count) (omega arith) (length-print_int l.log_count),
      length-padded 8 (print_int (us / 1000 % 2 ^ 32)) (omega arith)
          (length-print_int (us / 1000 % 2 ^ 32)),
      length-c_string l.address,
      e,
      c,
    )

pub prefix_some : (l : Logger) (us : ℕ) (category : Bytes) → 0 < length (prefix l us category)
unfolding prefix
prefix_some l us category = omega (
  arith,
  length-append (padded 3 (print_int l.log_count)) (
      b' '
      ∷ (padded 8 (print_int (us / 1000 % 2 ^ 32))
          ++ (b' ' ∷ (get_logging_id l ++ (b' ' ∷ (category ++ b' ' ∷ [])))))),
)

-- A size is at most that of the buffer.
pub cap_le : (buf : Bytes) (size : ℕ) → (cap buf size).1 ≤ buffer_size
unfolding cap
cap_le buf size =
    if-elim (λ (r : Bytes × ℕ). r.1 ≤ buffer_size) (ltb buffer_size size) (λ _. omega arith)
      (λ l. ltb-false→le buffer_size size l)

pub below_or_at : (i n : ℕ) → i ≤ n → (i < n) ⊎ (i ≡ n)
below_or_at i n l = elim (dec_lt i n) [ yes below ↦ inl below | no above ↦ inr (omega arith) ]

pub zero_last :
    (buf : Bytes) (i : ℕ)
    → i ≤ buffer_size - 1
    → drop (buffer_size - 1) buf ≡ 0 ∷ []
    → drop (buffer_size - 1) (set buf i 0) ≡ 0 ∷ []
zero_last buf i l e = elim (below_or_at i (buffer_size - 1) l) [
  | inl before ↦ drop-set_before (buffer_size - 1) i buf 0 before ∙ e
  | inr at ↦
      ap (λ k. drop (buffer_size - 1) (set buf k 0)) at ∙ drop-set (buffer_size - 1) buf 0 0 e
]

pub ==_false : (a b : ℕ) → a < b → (b == a) ≡ false
==_false a b l = ground arith

module _ (text : Bytes) where
  abbrev short_line : Bytes
  short_line = if has_newline text then text else text ++ b'\n' ∷ []

  abbrev cut_line : Bytes
  cut_line =
      take (buffer_size - 2) text ++ (if length text == buffer_size - 1 then 0 ∷ [] else 0 ∷ 0 ∷ [])

  line_short : length text < buffer_size - 1 → line text ≡ short_line
  unfolding line
  line_short l =
      ap (λ b. if b then short_line else cut_line) (lt→ltb (length text) (buffer_size - 1) l)

  pub line_long : buffer_size - 1 ≤ length text → line text ≡ cut_line
  unfolding line
  line_long l =
      ap (λ b. if b then short_line else cut_line) (le→ltb-false (length text) (buffer_size - 1) l)

  pub line_ended : length text < buffer_size - 1 → has_newline text ≡ true → line text ≡ text
  line_ended l e = line_short l ∙ ap (λ b. if b then text else text ++ b'\n' ∷ []) e

  pub line_open :
      length text < buffer_size - 1 → has_newline text ≡ false → line text ≡ text ++ b'\n' ∷ []
  line_open l e = line_short l ∙ ap (λ b. if b then text else text ++ b'\n' ∷ []) e
