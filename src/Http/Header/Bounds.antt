-- ===== src/Http/Header/Bounds.antt =====
-- The offsets and the size that `parse` stores lie in the data, whose length stays.
use pico_https.Common.{
  ℕ, zero, suc, ◌+◌, ◌-◌, ◌≤◌, ◌<◌, true, ◌≡◌, ◌⊎◌, refl, inl, inr, List, [], ◌∷◌, ◌++◌, Bytes,
  some, arith, All,
}
use pico_https.Common.Tests.{leb, Bool-cases, Option-cases}
use pico_https.Common.Lists.{length, set, length-set, length-append}
use pico_https.Http.Header.{
  HttpHeader, Parsed, Line, malformed, last_header, more_headers, find_from, read_second, ends_line,
  find_end, line_end, header_line, read_headers, read_rest, parse, max_headers,
}
use pico_https.Http.Header.Scan.{find_from_bounds}

-- A header whose strings start inside the `len` bytes, the name before the value.
abbrev pub Inside : ℕ → ℕ × ℕ → Type 0
Inside len (name, value) = (name < value) × (value < len)

abbrev pub LineBounds : ℕ → Line → Type 0
LineBounds len (malformed text) = length text ≡ len
LineBounds len (last_header text name value size) =
    (length text ≡ len) × Inside len (name, value) × (size ≤ len)
LineBounds len (more_headers text name value next) =
    (length text ≡ len) × Inside len (name, value) × (value < next) × (next + 1 < len)

line_end-LineBounds :
    (text : Bytes) (len name value cr : ℕ)
    → length text ≡ len
    → name < value
    → value ≤ cr
    → cr < len
    → LineBounds len (line_end text len name value cr)
unfolding line_end
line_end-LineBounds text len name value cr e n v c = ground arith

pub header_line-LineBounds :
    (text : Bytes) (len i : ℕ) → length text ≡ len → LineBounds len (header_line text len i)
unfolding header_line
header_line-LineBounds text len i e =
    let colon = find_from (len - i) text b':' i in
    let cr = find_from (len - (colon + 2)) (set text colon 0) b'\r' (colon + 2) in
    ground (
      arith,
      find_from_bounds (len - i) text b':' i,
      find_from_bounds (len - (colon + 2)) (set text colon 0) b'\r' (colon + 2),
      length-set text colon 0,
      length-set (set text colon 0) cr 0,
      line_end-LineBounds (set (set text colon 0) cr 0) len i (colon + 2) cr,
    )

find_end-le :
    (rounds : ℕ) (text : Bytes) (len i size : ℕ)
    → find_end rounds text len i ≡ some size
    → size ≤ len
unfolding find_end
find_end-le zero text len i size e = cc
find_end-le (suc rounds) text len i size e =
    ground (arith, find_end-le rounds text len (i + 1) size)

-- What holds of the object and the data when `parse` returns.
abbrev pub ParsedBounds : ℕ → Parsed → Type 0
ParsedBounds len p =
    (length p.text ≡ len)
    × (p.header.header_size ≤ len)
    × (length p.header.headers ≤ max_headers)
    × All (Inside len) p.header.headers

All-append_one :
    (len : ℕ) (hs : List (ℕ × ℕ)) (x : ℕ × ℕ)
    → All (Inside len) hs
    → Inside len x
    → All (Inside len) (hs ++ x ∷ [])
All-append_one len [] x a i = (i, tt)
All-append_one len (h ∷ hs) x a i = (a.0, All-append_one len hs x a.1 i)

-- A split of a round that keeps its equation.
pub Line-cases :
    (l : Line)
    → ((text : Bytes) × (l ≡ malformed text))
      ⊎ ((text : Bytes) × (name value size : ℕ) × (l ≡ last_header text name value size))
      ⊎ ((text : Bytes) × (name value next : ℕ) × (l ≡ more_headers text name value next))
Line-cases (malformed text) = inl (text, refl)
Line-cases (last_header text name value size) = inr (inl (text, name, value, size, refl))
Line-cases (more_headers text name value next) = inr (inr (text, name, value, next, refl))

read_headers-ParsedBounds :
    (rounds : ℕ) (h : HttpHeader) (text : Bytes) (len i : ℕ)
    → ParsedBounds len (record { ok = true; header = h; text = text })
    → length h.headers + rounds ≤ max_headers
    → ParsedBounds len (read_headers rounds h text len i)
unfolding read_headers
read_headers-ParsedBounds zero h text len i (e, size, count, ins) c =
    elim (Option-cases (find_end (len - i) text len i)) [
      | inl none_ ↦ rw (none_, read_headers) (e, size, count, ins)
      | inr (n, found) ↦
          let le = find_end-le (len - i) text len i n found in
          rw (found, read_headers) (e, omega arith, count, ins)
    ]
read_headers-ParsedBounds (suc rounds) h text len i (e, size, count, ins) c =
    elim (Line-cases (header_line text len i)) [
      | inl (text', line) ↦
          let b = rw line at (header_line-LineBounds text len i e) in
          rw (line, read_headers) (b, size, count, ins)
      | inr (inl (text', name, value, n, line)) ↦
          let b = rw line at (header_line-LineBounds text len i e) in
          rw (line, read_headers)
            (
              b.0,
              omega (arith, b.2),
              omega (arith, length-append h.headers ((name, value) ∷ [])),
              All-append_one len h.headers (name, value) ins b.1,
            )
      | inr (inr (text', name, value, next, line)) ↦
          let b = rw line at (header_line-LineBounds text len i e) in
          let one_more = length-append h.headers ((name, value) ∷ []) in
          rw (line, read_headers)
            (read_headers-ParsedBounds rounds
              (record h { headers = h.headers ++ (name, value) ∷ [] }) text' len next
              (b.0, size, omega arith, All-append_one len h.headers (name, value) ins b.1)
              (omega arith))
    ]

read_rest-ParsedBounds :
    (h : HttpHeader) (text : Bytes) (len i : ℕ)
    → ParsedBounds len (record { ok = true; header = h; text = text })
    → length h.headers ≡ 0
    → ParsedBounds len (read_rest h text len i)
unfolding read_rest
read_rest-ParsedBounds h text len i b none_yet =
    let next = find_from (len - i) text b'\n' i + 1 in
    elim (Bool-cases (leb len (next + 1))) [
      | inl short ↦ rw short b
      | inr room ↦ elim (Bool-cases (ends_line text next)) [
        | inl ends ↦ rw (room, ends) (b.0, ground arith, b.2, b.3)
        | inr more ↦
            rw (room, more) (read_headers-ParsedBounds max_headers h text len next b (omega arith))
      ]
    ]

-- From any object, on any data and for its length: whether the header is accepted or refused, the
-- data keeps its length, the size of the header is at most that length, and at most 20 headers are
-- stored, each with its name before its value and both inside the data.
pub parse-ParsedBounds :
    (h : HttpHeader) (text : Bytes) → ParsedBounds (length text) (parse h text (length text))
unfolding parse
parse-ParsedBounds h text =
    let len = length text in
    let space = find_from len text b' ' 0 in
    let second = read_second (len - (space + 1)) (set text space 0) (space + 1) (space + 1) 0 in
    let same = length-set text space 0 in
    elim (Bool-cases (leb len space)) [
      | inl none_ ↦ rw none_ (refl, omega arith, omega arith, tt)
      | inr found ↦ elim (Bool-cases second.0) [
        | inr other ↦ rw (found, other) (same, omega arith, omega arith, tt)
        | inl read ↦ elim (Bool-cases (leb len second.1)) [
          | inl short ↦ rw (found, read, short) (same, omega arith, omega arith, tt)
          | inr room ↦
              rw (found, read, room)
                (read_rest-ParsedBounds _ (set (set text space 0) second.1 0) len (second.1 + 1)
                  (
                    omega (arith, same, length-set (set text space 0) second.1 0),
                    omega arith,
                    omega arith,
                    tt,
                  )
                  refl)
        ]
      ]
    ]
