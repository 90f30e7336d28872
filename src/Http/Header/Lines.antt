-- ===== src/Http/Header/Lines.antt =====
-- The loop of `parse` over the headers, on the lines of a printed request.
use pico_https.Common.{
  ℕ, ◌+◌, ◌-◌, ◌≤◌, false, ◌≡◌, refl, ◌∙◌, ap, sym, [], ◌∷◌, ◌++◌, append_assoc, Bytes, arith,
}
use pico_https.Common.Tests.{leb, if◌then◌else◌}
use pico_https.Common.Lists.{length, length-append, get_or-append_length}
use pico_https.Http.Header.{
  last_header, more_headers, find_from, char_at, ends_line, line_end, header_line,
}
use pico_https.Http.Header.Scan.{find_from-append, set_at}
use pico_https.Http.Header.Print.{IsHeader}

char_behind :
    (before w rest : Bytes) (k : ℕ)
    → char_at (before ++ (w ++ rest)) (length before + length w + k) ≡ char_at rest k
char_behind before w rest k =
    let e : length before + length w + k ≡ length before + (length w + k) = omega arith in
    rw e
      (get_or-append_length before (w ++ rest) (length w + k) 0 ∙ get_or-append_length w rest k 0)

-- What the round leaves before the rest of the data.
abbrev pub line_cut : Bytes → Bytes → Bytes
line_cut name value = name ++ 0 ∷ b' ' ∷ (value ++ 0 ∷ b'\n' ∷ [])

module _ (before name value rest : Bytes) (len : ℕ) (v : IsHeader (name, value)) where
  unfoldable pub line : Bytes
  line = before ++ (name ++ b':' ∷ b' ' ∷ (value ++ b'\r' ∷ b'\n' ∷ rest))

  unfoldable pub to_value : Bytes
  to_value = before ++ (name ++ 0 ∷ b' ' ∷ [])

  unfoldable pub cr : ℕ
  cr = length before + length name + 2 + length value

  unfoldable pub cut : Bytes
  cut = to_value ++ (value ++ 0 ∷ b'\n' ∷ rest)

  pub named_cut : (w : Bytes) → before ++ (name ++ 0 ∷ b' ' ∷ w) ≡ to_value ++ w
  unfolding to_value
  named_cut w = sym (
      append_assoc before (name ++ 0 ∷ b' ' ∷ []) w
      ∙ ap (λ t. before ++ t) (append_assoc name (0 ∷ b' ' ∷ []) w))

  pub length-to_value : length to_value ≡ length before + length name + 2
  unfolding to_value
  length-to_value =
      omega
        (arith, length-append before (name ++ 0 ∷ b' ' ∷ []), length-append name (0 ∷ b' ' ∷ []))

  length-line : length line ≡ cr + 2 + length rest
  unfolding line cr
  length-line = omega (
    arith,
    length-append before (name ++ b':' ∷ b' ' ∷ (value ++ b'\r' ∷ b'\n' ∷ rest)),
    length-append name (b':' ∷ b' ' ∷ (value ++ b'\r' ∷ b'\n' ∷ rest)),
    length-append value (b'\r' ∷ b'\n' ∷ rest),
  )

  pub length-line_sum :
      length line ≡ length before + length name + 2 + length value + 2 + length rest
  unfolding cr
  length-line_sum = length-line

  behind : (k : ℕ) → char_at cut (cr + k) ≡ char_at (0 ∷ b'\n' ∷ rest) k
  unfolding cut cr
  behind k =
      let e : length before + length name + 2 + length value + k
          ≡ length to_value + length value + k =
        omega (arith, length-to_value) in
      rw e (char_behind to_value value (0 ∷ b'\n' ∷ rest) k)

  line_read :
      length line ≡ len
      → header_line line len (length before)
        ≡ line_end cut len (length before) (length before + length name + 2) cr
  unfolding header_line line cut cr
  line_read e =
      let tail = value ++ b'\r' ∷ b'\n' ∷ rest in
      let size : length before + length name + 2 + length value + 2 + length rest ≡ len =
        omega (arith, length-line_sum) in
      let colon : find_from (len - length before) line b':' (length before)
          ≡ length before + length name =
        find_from-append (len - length before) before name (b' ' ∷ tail) b':' v.0 (omega arith) in
      let named = set_at before name (b' ' ∷ tail) b':' 0 in
      let at : length before + length name + 2 ≡ length to_value = sym length-to_value in
      let in_name : leb len (length before + length name) ≡ false = ground arith in
      let return_ : find_from (len - length to_value) (to_value ++ tail) b'\r' (length to_value)
          ≡ length to_value + length value =
        find_from-append (len - length to_value) to_value value (b'\n' ∷ rest) b'\r' v.3
          (omega arith) in
      let in_value : leb len (length to_value + length value) ≡ false = ground arith in
      rw
        (
          colon,
          in_name,
          named,
          named_cut tail,
          at,
          return_,
          in_value,
          set_at to_value value (b'\n' ∷ rest) b'\r' 0,
        )
        refl

  -- How the round ends is decided by the two bytes behind it.
  pub round_read :
      length line ≡ len
      → 2 ≤ length rest
      → header_line line len (length before) ≡ (
          if ends_line rest 0
          then last_header cut (length before) (length before + length name + 2) (cr + 2 + 2)
          else more_headers cut (length before) (length before + length name + 2) (cr + 2))
  unfolding line_end
  round_read e two =
      let size : length line ≡ cr + 2 + length rest = length-line in
      let first : leb len (cr + 1) ≡ false = ground arith in
      let second : leb len (cr + 2 + 1) ≡ false = ground arith in
      let three : cr + 2 + 1 ≡ cr + 3 = omega arith in
      let newline : char_at cut (cr + 1) ≡ b'\n' = behind 1 in
      line_read e ∙ rw (first, second, newline, three, behind 2, behind 3) refl
