-- ===== src/Http/Header.antt =====
-- pico_http/http_header.cpp and http_header.h: the header of a request or reply, parsed in place. A
-- pointer into the data is an offset; a string of C is read from the data up to its zero byte.
pub mod Scan
pub mod Bounds
pub mod Inside
pub mod Print
pub mod Lines
pub mod Read
pub mod FirstLine
pub mod RoundTrip
pub mod Strings
pub mod Response
mod Tests
use pico_https.Common.{
  ℕ, zero, suc, ◌+◌, ◌-◌, ◌*◌, ◌%◌, ◌^◌, Bool, true, false, not, ◌&&◌, ◌||◌, Option, none, some,
  List, [], ◌∷◌, ◌++◌, Bytes,
}
use pico_https.Common.Tests.{ltb, leb, ◌==◌, if◌then◌else◌}
use pico_https.Common.Lists.{length, get_or, drop, set}

abbrev pub max_headers : ℕ
max_headers = 20

-- `m_headerName` and `m_headerValue` up to `m_numHeaders`; `none` is `NULL`.
pub record HttpHeader : Type 0 where
  pub header_size : ℕ
  pub response_code : ℕ
  pub first : Option ℕ
  pub second : Option ℕ
  pub headers : List (ℕ × ℕ)

abbrev pub char_at : Bytes → ℕ → ℕ
char_at text i = get_or text i 0

-- The characters before the first zero byte.
abbrev pub until_zero : Bytes → Bytes
until_zero [] = []
until_zero (c ∷ text) = if c == 0 then [] else c ∷ until_zero text

-- The string at an offset.
abbrev pub c_string : Bytes → ℕ → Bytes
c_string text i = until_zero (drop i text)

-- `for (;i<len && data[i]!=stop;++i)`, with `len - i` rounds left.
unfoldable pub find_from : ℕ → Bytes → ℕ → ℕ → ℕ
find_from zero text stop i = i
find_from (suc rounds) text stop i =
    let rest = find_from rounds text stop (i + 1) in if char_at text i == stop then i else rest

-- `isRequest` and `isResponse` once `m_second` is set.
abbrev pub is_request_at : Bytes → ℕ → Bool
is_request_at text second = char_at text second == b'/'

abbrev pub is_digit : ℕ → Bool
is_digit c = leb b'0' c && leb c b'9'

-- The loop over the path or response code: false where it returns false, where it stops, and the
-- response code.
unfoldable pub read_second : ℕ → Bytes → ℕ → ℕ → ℕ → Bool × ℕ × ℕ
read_second zero text second i code = (true, i, code)
read_second (suc rounds) text second i code =
    let next_code = (code * 10 + (char_at text second - b'0')) % 2 ^ 16 in
    let next = read_second rounds text second (i + 1) next_code in
    let skip = read_second rounds text second (i + 1) code in
    if char_at text i == b' '
    then (true, i, code)
    else if is_request_at text second
    then skip
    else if is_digit (char_at text i)
    then next
    else (false, i, code)

-- `data[i] == '\r' && data[i+1] == '\n'`
abbrev pub ends_line : Bytes → ℕ → Bool
ends_line text i = char_at text i == b'\r' && char_at text (i + 1) == b'\n'

-- The last loop, which looks for the empty line behind the headers that are not stored.
unfoldable pub find_end : ℕ → Bytes → ℕ → ℕ → Option ℕ
find_end zero text len i = none
find_end (suc rounds) text len i =
    let rest = find_end rounds text len (i + 1) in
    if ltb len (i + 4)
    then none
    else if ends_line text i && ends_line text (i + 2)
    then some (i + 4)
    else rest

-- What `parse` returns, with the object and the data as they are then.
pub record Parsed : Type 0 where
  pub ok : Bool
  pub header : HttpHeader
  pub text : Bytes

abbrev pub failed : HttpHeader → Bytes → Parsed
failed h text = record { ok = false; header = h; text = text }

abbrev pub done : HttpHeader → Bytes → ℕ → Parsed
done h text size = record {
  ok = true;
  header = record h { header_size = size % 2 ^ 16 };
  text = text;
}

-- How a round of the loop over the headers ends.
pub data Line : Type 0 where
  malformed : Bytes → Line
  last_header : Bytes → (name value size : ℕ) → Line
  more_headers : Bytes → (name value next : ℕ) → Line

-- What follows a value that ended at `cr`.
unfoldable pub line_end : Bytes → ℕ → (name value cr : ℕ) → Line
line_end text len name value cr =
    let next = cr + 2 in
    if leb len (cr + 1) || not (char_at text (cr + 1) == b'\n')
    then malformed text
    else if leb len (next + 1)
    then malformed text
    else if ends_line text next
    then last_header text name value (next + 2)
    else more_headers text name value next

-- One round of the loop, from `m_headerName[m_numHeaders]=&data[i]` on.
unfoldable pub header_line : Bytes → ℕ → ℕ → Line
header_line text len i =
    let colon = find_from (len - i) text b':' i in
    let text' = set text colon 0 in
    let value = colon + 2 in
    let cr = find_from (len - value) text' b'\r' value in
    if leb len colon
    then malformed text
    else if leb len cr
    then malformed text'
    else line_end (set text' cr 0) len i value cr

-- `while (m_numHeaders<MAX_HEADERS)`, and what follows the loop.
unfoldable pub read_headers : ℕ → HttpHeader → Bytes → ℕ → ℕ → Parsed
read_headers zero h text len i = elim (find_end (len - i) text len i) [
  | none ↦ failed h text
  | some size ↦ done h text size
]
read_headers (suc rounds) h text len i = elim (header_line text len i) [
  | malformed text' ↦ failed h text'
  | last_header text' name value size ↦
      done (record h { headers = h.headers ++ (name, value) ∷ [] }) text' size
  | more_headers text' name value next ↦
      read_headers rounds (record h { headers = h.headers ++ (name, value) ∷ [] }) text' len next
]

-- From `// HTTP/1.[01] or response text` on.
unfoldable pub read_rest : HttpHeader → Bytes → ℕ → ℕ → Parsed
read_rest h text len i =
    let next = find_from (len - i) text b'\n' i + 1 in
    if leb len (next + 1)
    then failed h text
    else if ends_line text next
    then done h text (next + 2)
    else read_headers max_headers h text len next

unfoldable pub parse : HttpHeader → Bytes → ℕ → Parsed
parse h text len =
    let started = record h { headers = []; response_code = 0; header_size = 0; first = some 0 } in
    let space = find_from len text b' ' 0 in
    let text' = set text space 0 in
    let second = space + 1 in
    let named = record started { second = some second } in
    let (ok, i, code) = read_second (len - second) text' second second 0 in
    let coded = record named { response_code = code } in
    if leb len space
    then failed started text
    else if not ok
    then failed coded text'
    else if leb len i
    then failed coded text'
    else read_rest coded (set text' i 0) len (i + 1)

-- `isRequest` and `isResponse`
unfoldable pub is_request : HttpHeader → Bytes → Bool
is_request h text = elim h.second [ none ↦ false | some i ↦ is_request_at text i ]

unfoldable pub is_response : HttpHeader → Bytes → Bool
is_response h text = elim h.second [ none ↦ false | some i ↦ not (is_request_at text i) ]

-- `getCommand`, `getPath` and `getResponseCode`
unfoldable pub get_command : HttpHeader → Bytes → Option ℕ
unfolding is_request
get_command h text = if is_request h text then h.first else none

unfoldable pub get_path : HttpHeader → Bytes → Option ℕ
unfolding is_request
get_path h text = if is_request h text then h.second else none

unfoldable pub get_response_code : HttpHeader → Bytes → ℕ
unfolding is_response
get_response_code h text = if is_response h text then h.response_code else 0

abbrev pub to_lower : ℕ → ℕ
to_lower c = if leb b'A' c && leb c b'Z' then c + 32 else c

-- `strcasecmp(a, b) == 0`
unfoldable pub same_ignoring_case : Bytes → Bytes → Bool
same_ignoring_case [] [] = true
same_ignoring_case [] (b ∷ bs) = false
same_ignoring_case (a ∷ as_) [] = false
same_ignoring_case (a ∷ as_) (b ∷ bs) = to_lower a == to_lower b && same_ignoring_case as_ bs

-- `getHeaderValue`: the loop over the headers.
unfoldable pub find_value : Bytes → Bytes → List (ℕ × ℕ) → Option ℕ
find_value text header_name [] = none
find_value text header_name ((name, value) ∷ rest) =
    if same_ignoring_case (c_string text name) header_name
    then some value
    else find_value text header_name rest

unfoldable pub get_header_value : HttpHeader → Bytes → Bytes → Option ℕ
unfolding find_value
get_header_value h text header_name = find_value text header_name h.headers

-- The string that a getter's pointer stands for.
abbrev pub string_at : Bytes → Option ℕ → Option Bytes
string_at text none = none
string_at text (some i) = some (c_string text i)
