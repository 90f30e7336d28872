-- ===== src/Http/Header/Inside.antt =====
-- `parse` reads and writes nothing behind the `len` bytes that it is given.
use pico_https.Common.{
  ℕ, zero, suc, ◌+◌, ◌-◌, ◌*◌, ◌%◌, ◌^◌, ◌≤◌, ◌<◌, false, ◌≡◌, refl, inl, inr, [], ◌∷◌, ◌++◌, Bytes,
  arith,
}
use pico_https.Common.Tests.{ltb, leb, ◌==◌, Bool-cases, Option-cases, ltb-false→le}
use pico_https.Common.Lists.{length, set, get_or-append, set-append, length-set}
use pico_https.Http.Header.{
  HttpHeader, Parsed, Line, malformed, last_header, more_headers, find_from, char_at, read_second,
  ends_line, find_end, line_end, header_line, read_headers, read_rest, parse, max_headers,
}
use pico_https.Http.Header.Bounds.{Line-cases, header_line-LineBounds}

leb-false→lt : (a b : ℕ) → leb a b ≡ false → b < a
leb-false→lt a b h = ground arith

module _ (beyond : Bytes) where
  find_from-inside :
      (rounds : ℕ) (text : Bytes) (stop i : ℕ)
      → rounds ≤ length text - i
      → find_from rounds (text ++ beyond) stop i ≡ find_from rounds text stop i
  unfolding find_from
  find_from-inside zero text stop i l = refl
  find_from-inside (suc rounds) text stop i l =
      rw
        (
          get_or-append text beyond i 0 (omega arith),
          find_from-inside rounds text stop (i + 1) (omega arith),
        )
        refl

  read_second-inside :
      (rounds : ℕ) (text : Bytes) (second i code : ℕ)
      → second ≤ i
      → rounds ≤ length text - i
      → read_second rounds (text ++ beyond) second i code ≡ read_second rounds text second i code
  unfolding read_second
  read_second-inside zero text second i code s l = refl
  read_second-inside (suc rounds) text second i code s l =
      let next_code = (code * 10 + (char_at text second - b'0')) % 2 ^ 16 in
      rw
        (
          get_or-append text beyond i 0 (omega arith),
          get_or-append text beyond second 0 (omega arith),
          read_second-inside rounds text second (i + 1) code (omega arith) (omega arith),
          read_second-inside rounds text second (i + 1) next_code (omega arith) (omega arith),
        )
        refl

  ends_line-inside :
      (text : Bytes) (i : ℕ) → i + 1 < length text → ends_line (text ++ beyond) i ≡ ends_line text i
  ends_line-inside text i l =
      rw (get_or-append text beyond i 0 (omega arith), get_or-append text beyond (i + 1) 0 l) refl

  find_end-inside :
      (rounds : ℕ) (text : Bytes) (i : ℕ)
      → find_end rounds (text ++ beyond) (length text) i ≡ find_end rounds text (length text) i
  unfolding find_end
  find_end-inside zero text i = refl
  find_end-inside (suc rounds) text i = elim (Bool-cases (ltb (length text) (i + 4))) [
    | inl short ↦ rw short refl
    | inr room ↦
        let l = ltb-false→le (length text) (i + 4) room in
        rw
          (
            room,
            ends_line-inside text i (omega arith),
            ends_line-inside text (i + 2) (omega arith),
            find_end-inside rounds text (i + 1),
          )
          refl
  ]

  abbrev line_beyond : Line → Line
  line_beyond (malformed text) = malformed (text ++ beyond)
  line_beyond (last_header text name value size) = last_header (text ++ beyond) name value size
  line_beyond (more_headers text name value next) = more_headers (text ++ beyond) name value next

  line_end-inside :
      (text : Bytes) (len name value cr : ℕ)
      → length text ≡ len
      → line_end (text ++ beyond) len name value cr ≡ line_beyond (line_end text len name value cr)
  unfolding line_end
  line_end-inside text len name value cr e = elim (Bool-cases (leb len (cr + 1))) [
    | inl short ↦ rw short refl
    | inr room ↦
        let l = leb-false→lt len (cr + 1) room in
        let same = get_or-append text beyond (cr + 1) 0 (omega arith) in
        elim (Bool-cases (char_at text (cr + 1) == b'\n')) [
          | inr other ↦ rw (room, same, other) refl
          | inl newline ↦ elim (Bool-cases (leb len (cr + 2 + 1))) [
            | inl short ↦ rw (room, same, newline, short) refl
            | inr more ↦
                let m = leb-false→lt len (cr + 2 + 1) more in
                let ends = ends_line-inside text (cr + 2) (omega arith) in
                elim (Bool-cases (ends_line text (cr + 2))) [
                  | inl last ↦ rw (room, same, newline, more, ends, last) refl
                  | inr other ↦ rw (room, same, newline, more, ends, other) refl
                ]
          ]
        ]
  ]

  header_line-inside :
      (text : Bytes) (len i : ℕ)
      → length text ≡ len
      → header_line (text ++ beyond) len i ≡ line_beyond (header_line text len i)
  unfolding header_line
  header_line-inside text len i e =
      let colon = find_from (len - i) text b':' i in
      let colon_same = find_from-inside (len - i) text b':' i (omega arith) in
      let text' = set text colon 0 in
      let same' = length-set text colon 0 in
      let cr = find_from (len - (colon + 2)) text' b'\r' (colon + 2) in
      let cr_same = find_from-inside (len - (colon + 2)) text' b'\r' (colon + 2) (omega arith) in
      elim (Bool-cases (leb len colon)) [
        | inl none_ ↦ rw (colon_same, none_) refl
        | inr found ↦
            let colon_in = leb-false→lt len colon found in
            let set_colon = set-append text beyond colon 0 (omega arith) in
            elim (Bool-cases (leb len cr)) [
              | inl none_ ↦ rw (colon_same, set_colon, cr_same, found, none_) refl
              | inr found' ↦
                  let cr_in = leb-false→lt len cr found' in
                  let set_cr = set-append text' beyond cr 0 (omega arith) in
                  rw (colon_same, set_colon, cr_same, set_cr, found, found')
                    (line_end-inside (set text' cr 0) len i (colon + 2) cr
                      (omega (arith, length-set text' cr 0)))
            ]
      ]

  abbrev pub parsed_beyond : Parsed → Parsed
  parsed_beyond p = record p { text = p.text ++ beyond }

  read_headers-inside :
      (rounds : ℕ) (h : HttpHeader) (text : Bytes) (len i : ℕ)
      → length text ≡ len
      → read_headers rounds h (text ++ beyond) len i
        ≡ parsed_beyond (read_headers rounds h text len i)
  unfolding read_headers
  read_headers-inside zero h text len i e =
      let same = rw e at (find_end-inside (length text - i) text i) in
      elim (Option-cases (find_end (len - i) text len i)) [
        | inl none_ ↦ rw (same, none_, read_headers) refl
        | inr (n, found) ↦ rw (same, found, read_headers) refl
      ]
  read_headers-inside (suc rounds) h text len i e =
      let same = header_line-inside text len i e in
      elim (Line-cases (header_line text len i)) [
        | inl (text', line) ↦ rw (same, line, read_headers) refl
        | inr (inl (text', name, value, n, line)) ↦ rw (same, line, read_headers) refl
        | inr (inr (text', name, value, next, line)) ↦
            let b = rw line at (header_line-LineBounds text len i e) in
            rw (same, line, read_headers)
              (read_headers-inside rounds (record h { headers = h.headers ++ (name, value) ∷ [] })
                text' len next b.0)
      ]

  read_rest-inside :
      (h : HttpHeader) (text : Bytes) (len i : ℕ)
      → length text ≡ len
      → read_rest h (text ++ beyond) len i ≡ parsed_beyond (read_rest h text len i)
  unfolding read_rest
  read_rest-inside h text len i e =
      let next = find_from (len - i) text b'\n' i + 1 in
      let same = find_from-inside (len - i) text b'\n' i (omega arith) in
      elim (Bool-cases (leb len (next + 1))) [
        | inl short ↦ rw (same, short) refl
        | inr room ↦
            let l = leb-false→lt len (next + 1) room in
            let ends = ends_line-inside text next (omega arith) in
            elim (Bool-cases (ends_line text next)) [
              | inl last ↦ rw (same, room, ends, last) refl
              | inr more ↦
                  rw (same, room, ends, more) (read_headers-inside max_headers h text len next e)
            ]
      ]

-- `parse` neither reads nor writes behind the `len` bytes that it is given: with any bytes there, it
-- returns the same and leaves them.
pub parse-inside :
    (h : HttpHeader) (text beyond : Bytes)
    → parse h (text ++ beyond) (length text) ≡ parsed_beyond beyond (parse h text (length text))
unfolding parse
parse-inside h text beyond =
    let len = length text in
    let space = find_from len text b' ' 0 in
    let space_same = find_from-inside beyond len text b' ' 0 (omega arith) in
    let text' = set text space 0 in
    let same' = length-set text space 0 in
    let second = read_second (len - (space + 1)) text' (space + 1) (space + 1) 0 in
    elim (Bool-cases (leb len space)) [
      | inl none_ ↦ rw (space_same, none_) refl
      | inr found ↦
          let l = leb-false→lt len space found in
          let set_space = set-append text beyond space 0 l in
          let second_same =
            read_second-inside beyond (len - (space + 1)) text' (space + 1) (space + 1) 0
              (omega arith) (omega arith) in
          elim (Bool-cases second.0) [
            | inr other ↦ rw (space_same, set_space, second_same, found, other) refl
            | inl read ↦ elim (Bool-cases (leb len second.1)) [
              | inl short ↦ rw (space_same, set_space, second_same, found, read, short) refl
              | inr room ↦
                  let m = leb-false→lt len second.1 room in
                  let set_second = set-append text' beyond second.1 0 (omega arith) in
                  rw (space_same, set_space, second_same, found, read, room, set_second)
                    (read_rest-inside beyond _ (set text' second.1 0) len (second.1 + 1)
                      (omega (arith, length-set text' second.1 0)))
            ]
          ]
    ]
