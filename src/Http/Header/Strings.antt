-- ===== src/Http/Header/Strings.antt =====
-- The strings that `parse` leaves in the data, for its owner.
use pico_https.Common.{
  ℕ, ◌+◌, ◌%◌, ◌^◌, ◌<◌, true, ◌≡◌, refl, ◌∙◌, ap, sym, inl, inr, List, [], ◌∷◌, ◌++◌, append_assoc,
  Bytes, arith, All, Option, some, none,
}
use pico_https.Common.Tests.{if◌then◌else◌, Bool-cases}
use pico_https.Common.Lists.{length, drop, length-append, drop-append_length}
use pico_https.Http.Header.{
  HttpHeader, Parsed, parse, c_string, get_command, get_path, get_header_value, get_response_code,
  is_response, find_value, same_ignoring_case, char_at, string_at,
}
use pico_https.Http.Header.Scan.{c_string-append}
use pico_https.Http.Header.Print.{
  Headers, cut_headers, offsets, headers_size, IsHeader, Request, IsRequest, print_request,
  cut_request, line_size, request_size,
}
use pico_https.Http.Header.RoundTrip.{accepted, parse_request}

abbrev pub strings : Bytes → List (ℕ × ℕ) → Headers
strings text [] = []
strings text ((name, value) ∷ hs) = (c_string text name, c_string text value) ∷ strings text hs

strings-offsets :
    (text before : Bytes) (hs : Headers) (body : Bytes)
    → All IsHeader hs
    → text ≡ before ++ cut_headers hs body
    → strings text (offsets (length before) hs) ≡ hs
strings-offsets text before [] body vs e = refl
strings-offsets text before ((name, value) ∷ hs) body vs e =
    let behind = value ++ 0 ∷ b'\n' ∷ cut_headers hs body in
    let to_value = before ++ (name ++ 0 ∷ b' ' ∷ []) in
    let to_next = to_value ++ (value ++ 0 ∷ b'\n' ∷ []) in
    let e' : text ≡ to_value ++ behind =
      e
      ∙ sym (
          append_assoc before (name ++ 0 ∷ b' ' ∷ []) behind
          ∙ ap (λ t. before ++ t) (append_assoc name (0 ∷ b' ' ∷ []) behind)) in
    let e'' : text ≡ to_next ++ cut_headers hs body =
      e'
      ∙ sym (
          append_assoc to_value (value ++ 0 ∷ b'\n' ∷ []) (cut_headers hs body)
          ∙ ap (λ t. to_value ++ t) (append_assoc value (0 ∷ b'\n' ∷ []) (cut_headers hs body))) in
    let at : length before + length name + 2 ≡ length to_value =
      omega
        (arith, length-append before (name ++ 0 ∷ b' ' ∷ []), length-append name (0 ∷ b' ' ∷ [])) in
    let at' : length to_value + length value + 2 ≡ length to_next = omega (
      arith,
      length-append to_value (value ++ 0 ∷ b'\n' ∷ []),
      length-append value (0 ∷ b'\n' ∷ []),
    ) in
    let named : c_string text (length before) ≡ name =
      ap (λ t. c_string t (length before)) e ∙ c_string-append before name (b' ' ∷ behind) vs.0.2 in
    let valued : c_string text (length to_value) ≡ value =
      ap (λ t. c_string t (length to_value)) e'
      ∙ c_string-append to_value value (b'\n' ∷ cut_headers hs body) vs.0.4 in
    rw (at, at', named, valued, strings-offsets text to_next hs body vs.1 e'') refl

-- The value of the first header of a name, in whatever case the name is written.
abbrev pub lookup_header : Bytes → Headers → Option Bytes
lookup_header wanted [] = none
lookup_header wanted ((name, value) ∷ hs) =
    if same_ignoring_case name wanted then some value else lookup_header wanted hs

find_value-strings :
    (text wanted : Bytes) (hs : List (ℕ × ℕ))
    → string_at text (find_value text wanted hs) ≡ lookup_header wanted (strings text hs)
unfolding find_value
find_value-strings text wanted [] = refl
find_value-strings text wanted ((name, value) ∷ hs) =
    elim (Bool-cases (same_ignoring_case (c_string text name) wanted)) [
      | inl same ↦ rw same refl
      | inr other ↦ rw other (find_value-strings text wanted hs)
    ]

char_at-append : (before rest : Bytes) → char_at (before ++ rest) (length before) ≡ char_at rest 0
char_at-append [] rest = refl
char_at-append (c ∷ before) rest = char_at-append before rest

module _ (r : Request) (body : Bytes) (v : IsRequest r) where
  text : Bytes
  text = cut_request r body

  path_cut : Bytes
  path_cut = b'/' ∷ r.path ++ 0 ∷ (r.version ++ b'\n' ∷ cut_headers r.headers body)

  to_headers : Bytes
  to_headers = r.command ++ 0 ∷ (b'/' ∷ r.path ++ 0 ∷ (r.version ++ b'\n' ∷ []))

  command_read : c_string text 0 ≡ r.command
  unfolding text path_cut
  command_read =
      c_string-append [] r.command
        (b'/' ∷ r.path ++ 0 ∷ (r.version ++ b'\n' ∷ cut_headers r.headers body)) v.command_text

  at_path : text ≡ (r.command ++ 0 ∷ []) ++ path_cut
  unfolding text path_cut
  at_path = sym (
      append_assoc r.command (0 ∷ [])
        (b'/' ∷ r.path ++ 0 ∷ (r.version ++ b'\n' ∷ cut_headers r.headers body)))

  path_at : length r.command + 1 ≡ length (r.command ++ 0 ∷ [])
  path_at = omega (arith, length-append r.command (0 ∷ []))

  path_read : c_string text (length r.command + 1) ≡ b'/' ∷ r.path
  unfolding path_cut
  path_read =
      rw (at_path, path_at)
        (c_string-append (r.command ++ 0 ∷ []) (b'/' ∷ r.path)
          (r.version ++ b'\n' ∷ cut_headers r.headers body) (refl, v.path_text))

  at_headers : text ≡ to_headers ++ cut_headers r.headers body
  unfolding text to_headers
  at_headers =
      let hs = cut_headers r.headers body in
      sym (
        append_assoc r.command (0 ∷ (b'/' ∷ r.path ++ 0 ∷ (r.version ++ b'\n' ∷ []))) hs
        ∙ ap (λ t. r.command ++ 0 ∷ b'/' ∷ t)
            (append_assoc r.path (0 ∷ (r.version ++ b'\n' ∷ [])) hs
              ∙ ap (λ t. r.path ++ 0 ∷ t) (append_assoc r.version (b'\n' ∷ []) hs)))

  length-to_headers : length to_headers ≡ line_size r
  unfolding to_headers
  length-to_headers = omega (
    arith,
    length-append r.command (0 ∷ (b'/' ∷ r.path ++ 0 ∷ (r.version ++ b'\n' ∷ []))),
    length-append r.path (0 ∷ (r.version ++ b'\n' ∷ [])),
    length-append r.version (b'\n' ∷ []),
  )

  headers_read : strings text (offsets (line_size r) r.headers) ≡ r.headers
  headers_read =
      rw (← length-to_headers)
        (strings-offsets text to_headers r.headers body v.are_headers at_headers)

cut_headers-append :
    (hs : Headers) (body : Bytes)
    → (cut_headers hs body ≡ cut_headers hs [] ++ body)
      × (length (cut_headers hs []) ≡ headers_size hs)
cut_headers-append [] body = (refl, refl)
cut_headers-append ((name, value) ∷ hs) body =
    let (same, size) = cut_headers-append hs body in
    (
      ap (λ t. name ++ 0 ∷ b' ' ∷ (value ++ 0 ∷ b'\n' ∷ t)) same
          ∙ sym (
              append_assoc name (0 ∷ b' ' ∷ (value ++ 0 ∷ b'\n' ∷ cut_headers hs [])) body
              ∙ ap (λ t. name ++ 0 ∷ b' ' ∷ t)
                  (append_assoc value (0 ∷ b'\n' ∷ cut_headers hs []) body)),
      omega (
        arith,
        length-append name (0 ∷ b' ' ∷ (value ++ 0 ∷ b'\n' ∷ cut_headers hs [])),
        length-append value (0 ∷ b'\n' ∷ cut_headers hs []),
      ),
    )

body_left :
    (r : Request) (body : Bytes) (v : IsRequest r) → drop (request_size r) (text r body v) ≡ body
body_left r body v =
    let (same, size) = cut_headers-append r.headers body in
    let front = to_headers r body v ++ cut_headers r.headers [] in
    let at : request_size r ≡ length front = omega (
      arith,
      length-append (to_headers r body v) (cut_headers r.headers []),
      length-to_headers r body v,
    ) in
    let split : text r body v ≡ front ++ body =
      at_headers r body v
      ∙ ap (λ t. to_headers r body v ++ t) same
      ∙ sym (append_assoc (to_headers r body v) (cut_headers r.headers []) body) in
    rw (at, split) (drop-append_length front body)

-- Whatever the object held, `parse` accepts a request that is written as a client writes it, with a
-- path behind a slash, 20 headers at most and a size below 2 ^ 16, and any body: command, path and
-- headers are the strings that were written, the response code is 0, `getHeaderSize` leads to the
-- body, and `getHeaderValue` gives the value of the first header of that name, ignoring case.
pub parse-print_request :
    (h : HttpHeader) (r : Request) (body wanted : Bytes)
    → IsRequest r
    → request_size r < 2 ^ 16
    → (p : Parsed) × (parse h (print_request r body) (length (print_request r body)) ≡ p)
      × (p.ok ≡ true)
      × (string_at p.text (get_command p.header p.text) ≡ some r.command)
      × (string_at p.text (get_path p.header p.text) ≡ some (b'/' ∷ r.path))
      × (get_response_code p.header p.text ≡ 0)
      × (strings p.text p.header.headers ≡ r.headers)
      × (drop p.header.header_size p.text ≡ body)
      × (string_at p.text (get_header_value p.header p.text wanted)
          ≡ lookup_header wanted r.headers)
unfolding get_command get_path get_response_code is_response get_header_value text
parse-print_request h r body wanted v small =
    let slash : char_at (text r body v) (length r.command + 1) ≡ b'/' =
      rw (at_path r body v, path_at r body v)
        (char_at-append (r.command ++ 0 ∷ []) (path_cut r body v) ∙ unfold path_cut in refl) in
    let whole : request_size r % 2 ^ 16 ≡ request_size r = omega arith in
    (
      record { ok = true; header = accepted r; text = cut_request r body },
      parse_request h r body v,
      refl,
      rw slash (ap some (command_read r body v)),
      rw slash (ap some (path_read r body v)),
      rw slash refl,
      headers_read r body v,
      rw whole (body_left r body v),
      find_value-strings (cut_request r body) wanted (offsets (line_size r) r.headers)
          ∙ ap (lookup_header wanted) (headers_read r body v),
    )
