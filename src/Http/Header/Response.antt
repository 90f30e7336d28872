-- ===== src/Http/Header/Response.antt =====
-- The response code, in which the first digit stands for every digit.
use pico_https.Common.{
  ℕ, zero, suc, ◌+◌, ◌-◌, ◌*◌, ◌%◌, ◌^◌, ◌<◌, true, false, ◌≡◌, refl, ◌∙◌, ap, [], ◌∷◌, ◌++◌, Bytes,
  arith, All,
}
use pico_https.Common.Tests.{◌==◌}
use pico_https.Common.Lists.{length, drop, get_or-drop}
use pico_https.Http.Header.{char_at, is_digit, is_request_at, read_second}

-- `count` times the same digit, behind the digits of `code`.
abbrev pub repeated : ℕ → ℕ → ℕ → ℕ
repeated zero digit code = code
repeated (suc count) digit code = repeated count digit ((code * 10 + digit) % 2 ^ 16)

digit-ne-space : (c : ℕ) → is_digit c ≡ true → (c == b' ') ≡ false
digit-ne-space c d = ground arith

digit-ne-slash : (c : ℕ) → is_digit c ≡ true → (c == b'/') ≡ false
digit-ne-slash c d = ground arith

read_second-digits :
    (rounds : ℕ) (text : Bytes) (second i code : ℕ) (digits rest : Bytes)
    → is_request_at text second ≡ false
    → drop i text ≡ digits ++ b' ' ∷ rest
    → All (λ c. is_digit c ≡ true) digits
    → length digits < rounds
    → read_second rounds text second i code
      ≡ (true, i + length digits, repeated (length digits) (char_at text second - b'0') code)
unfolding read_second
read_second-digits zero text second i code digits rest r e d l = absurd (omega arith)
read_second-digits (suc rounds) text second i code [] rest r e d l =
    let z : i + 0 ≡ i = omega arith in rw ((get_or-drop i text rest b' ' 0 e).0, z) refl
read_second-digits (suc rounds) text second i code (c ∷ digits) rest r e d l =
    let (here, behind) = get_or-drop i text (digits ++ b' ' ∷ rest) c 0 e in
    let n : i + suc (length digits) ≡ i + 1 + length digits = omega arith in
    let code' = (code * 10 + (char_at text second - b'0')) % 2 ^ 16 in
    rw
      (
        here,
        digit-ne-space c d.0,
        r,
        d.0,
        read_second-digits rounds text second (i + 1) code' digits rest r behind d.1 (omega arith),
        n,
      )
      refl

-- The response code that is read from digits before a space is not their number: it is that of the
-- first digit, as often as there are digits.
pub read_second-response :
    (rounds : ℕ) (text : Bytes) (second c : ℕ) (digits rest : Bytes)
    → drop second text ≡ (c ∷ digits) ++ b' ' ∷ rest
    → All (λ d. is_digit d ≡ true) (c ∷ digits)
    → suc (length digits) < rounds
    → read_second rounds text second second 0
      ≡ (true, second + suc (length digits), repeated (suc (length digits)) (c - b'0') 0)
read_second-response rounds text second c digits rest e d l =
    let here = (get_or-drop second text (digits ++ b' ' ∷ rest) c 0 e).0 in
    let other : is_request_at text second ≡ false = rw here (digit-ne-slash c d.0) in
    read_second-digits rounds text second second 0 (c ∷ digits) rest other e d l
    ∙ ap (λ n. (true, second + suc (length digits), repeated (suc (length digits)) (n - b'0') 0))
        here
