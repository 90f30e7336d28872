-- ===== src/Http/Header/Tests.antt =====
-- Runs of `parse`, and its theorems at concrete inputs.
use pico_https.Common.{◌+◌, ◌-◌, ◌≡◌, refl, [], ◌∷◌, ◌++◌, Bytes, some, none, true, false, arith}
use pico_https.Common.Lists.{length, drop}
use pico_https.Http.Header.{
  HttpHeader, Parsed, parse, find_from, read_second, read_rest, read_headers, header_line, line_end,
  get_command, get_path, get_response_code, get_header_value, same_ignoring_case, string_at,
}
use pico_https.Http.Header.Bounds.{ParsedBounds, parse-ParsedBounds}
use pico_https.Http.Header.Inside.{parsed_beyond, parse-inside}
use pico_https.Http.Header.Print.{Request, IsRequest, print_request}
use pico_https.Http.Header.Strings.{strings, lookup_header, parse-print_request}
use pico_https.Http.Header.Response.{repeated, read_second-response}

abbrev empty : HttpHeader
empty = record { header_size = 0; response_code = 0; first = none; second = none; headers = [] }

-- "GET /a HTTP/1.1", and a header "Key: v".
abbrev get_a : Request
get_a = record {
  command = b'G' ∷ b'E' ∷ b'T' ∷ [];
  path = b'a' ∷ [];
  version = b'H' ∷ b'T' ∷ b'T' ∷ b'P' ∷ b'/' ∷ b'1' ∷ b'.' ∷ b'1' ∷ b'\r' ∷ [];
  headers = ((b'K' ∷ b'e' ∷ b'y' ∷ []), (b'v' ∷ [])) ∷ [];
}

abbrev hi : Bytes
hi = b'h' ∷ b'i' ∷ []

abbrev text_a : Bytes
text_a = print_request get_a hi

get_a-IsRequest : IsRequest get_a
get_a-IsRequest = record {
  command_whole = ground arith;
  command_text = ground arith;
  path_whole = ground arith;
  path_text = ground arith;
  version_whole = ground arith;
  are_headers = ground arith;
  few = omega arith;
}

key_found : same_ignoring_case (b'K' ∷ b'e' ∷ b'y' ∷ []) (b'k' ∷ b'E' ∷ b'Y' ∷ []) ≡ true
unfolding same_ignoring_case
key_found = refl

accepts_a : (parse empty text_a (length text_a)).ok ≡ true
unfolding parse find_from read_second read_rest read_headers header_line line_end
accepts_a = refl

refuses_a_part : (parse empty text_a 20).ok ≡ false
unfolding parse find_from read_second read_rest read_headers header_line line_end
refuses_a_part = refl

parse-ParsedBounds_example : ParsedBounds (length text_a) (parse empty text_a (length text_a))
parse-ParsedBounds_example = parse-ParsedBounds empty text_a

parse-inside_example :
    parse empty (text_a ++ hi) (length text_a)
    ≡ parsed_beyond hi (parse empty text_a (length text_a))
parse-inside_example = parse-inside empty text_a hi

parse-print_request_example :
    (p : Parsed) × (parse empty text_a (length text_a) ≡ p)
    × (p.ok ≡ true)
    × (string_at p.text (get_command p.header p.text) ≡ some (b'G' ∷ b'E' ∷ b'T' ∷ []))
    × (string_at p.text (get_path p.header p.text) ≡ some (b'/' ∷ b'a' ∷ []))
    × (get_response_code p.header p.text ≡ 0)
    × (strings p.text p.header.headers ≡ get_a.headers)
    × (drop p.header.header_size p.text ≡ hi)
    × (string_at p.text (get_header_value p.header p.text (b'k' ∷ b'e' ∷ b'y' ∷ []))
        ≡ lookup_header (b'k' ∷ b'e' ∷ b'y' ∷ []) get_a.headers)
parse-print_request_example =
    parse-print_request empty get_a hi (b'k' ∷ b'e' ∷ b'y' ∷ []) get_a-IsRequest (omega arith)

-- "404 " is read as 444.
read_second-response_example :
    read_second 5 (b'4' ∷ b'0' ∷ b'4' ∷ b' ' ∷ []) 0 0 0 ≡ (true, 0 + 3, repeated 3 (b'4' - b'0') 0)
read_second-response_example =
    read_second-response 5 (b'4' ∷ b'0' ∷ b'4' ∷ b' ' ∷ []) 0 b'4' (b'0' ∷ b'4' ∷ []) [] refl
      (ground arith) (omega arith)

code_444 : repeated 3 (b'4' - b'0') 0 ≡ 444
code_444 = refl
