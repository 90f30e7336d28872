-- ===== src/Http/Header/RoundTrip.antt =====
-- `parse` on a printed request, and the strings that its offsets stand for.
use pico_https.Common.{
  ℕ, suc, ◌+◌, ◌-◌, ◌%◌, ◌^◌, true, false, ◌≡◌, refl, ◌∙◌, ap, sym, [], ◌∷◌, ◌++◌, append_assoc,
  Bytes, arith, some,
}
use pico_https.Common.Tests.{leb}
use pico_https.Common.Lists.{
  length, set, length-append, drop-append_length, get_or-append_length, set-append_length,
}
use pico_https.Http.Header.{HttpHeader, find_from, char_at, read_second, parse, is_request_at}
use pico_https.Http.Header.Scan.{find_from-append, set_at}
use pico_https.Http.Header.Print.{
  print_headers, cut_headers, offsets, Request, IsRequest, print_request, cut_request, line_size,
  request_size, length-print_request, length-print_headers,
}
use pico_https.Http.Header.FirstLine.{read_second-drop, read_rest-print_headers}

-- The object after a printed request.
abbrev pub accepted : Request → HttpHeader
accepted r = record {
  header_size = request_size r % 2 ^ 16;
  response_code = 0;
  first = some 0;
  second = some (length r.command + 1);
  headers = offsets (line_size r) r.headers;
}

module _ (h : HttpHeader) (r : Request) (body : Bytes) (v : IsRequest r) where
  len : ℕ
  len = length (print_request r body)

  size : len ≡ request_size r + length body
  unfolding len
  size = length-print_request r body

  behind_path : Bytes
  behind_path = r.version ++ b'\n' ∷ print_headers r.headers body

  to_path : Bytes
  to_path = r.command ++ 0 ∷ []

  to_version : Bytes
  to_version = to_path ++ (b'/' ∷ r.path ++ 0 ∷ [])

  with_path : (ys : Bytes) → r.command ++ 0 ∷ ys ≡ to_path ++ ys
  unfolding to_path
  with_path ys = sym (append_assoc r.command (0 ∷ []) ys)

  with_version : (ys : Bytes) → to_path ++ (b'/' ∷ r.path ++ 0 ∷ ys) ≡ to_version ++ ys
  unfolding to_version
  with_version ys = sym (
      append_assoc to_path (b'/' ∷ r.path ++ 0 ∷ []) ys
      ∙ ap (λ t. to_path ++ b'/' ∷ t) (append_assoc r.path (0 ∷ []) ys))

  length-to_path : length to_path ≡ length r.command + 1
  unfolding to_path
  length-to_path = omega (arith, length-append r.command (0 ∷ []))

  length-to_version : length to_version ≡ length to_path + (1 + length r.path) + 1
  unfolding to_version
  length-to_version =
      omega (arith, length-append to_path (b'/' ∷ r.path ++ 0 ∷ []), length-append r.path (0 ∷ []))

  space_found : find_from len (print_request r body) b' ' 0 ≡ length r.command
  unfolding len
  space_found =
      let n : 0 + length r.command ≡ length r.command = omega arith in
      find_from-append (length (print_request r body)) [] r.command
        (b'/' ∷ r.path ++ b' ' ∷ (r.version ++ b'\n' ∷ print_headers r.headers body)) b' '
        v.command_whole (omega (arith, length-print_request r body))
      ∙ n

  space_cut :
      set (print_request r body) (length r.command) 0
      ≡ to_path ++ (b'/' ∷ r.path ++ b' ' ∷ behind_path)
  unfolding behind_path
  space_cut =
      set-append_length_of
      ∙ with_path (b'/' ∷ r.path ++ b' ' ∷ (r.version ++ b'\n' ∷ print_headers r.headers body))
    where
      set-append_length_of :
          set (print_request r body) (length r.command) 0
          ≡ r.command
            ++ 0 ∷ (b'/' ∷ r.path ++ b' ' ∷ (r.version ++ b'\n' ∷ print_headers r.headers body))
      set-append_length_of =
          set-append_length r.command b' ' 0
            (b'/' ∷ r.path ++ b' ' ∷ (r.version ++ b'\n' ∷ print_headers r.headers body))

  slash : is_request_at (to_path ++ (b'/' ∷ r.path ++ b' ' ∷ behind_path)) (length to_path) ≡ true
  slash =
      let z : length to_path + 0 ≡ length to_path = omega arith in
      rw
        (ap (λ i. char_at (to_path ++ (b'/' ∷ r.path ++ b' ' ∷ behind_path)) i) (sym z)
          ∙ get_or-append_length to_path (b'/' ∷ r.path ++ b' ' ∷ behind_path) 0 0)
        refl

  path_read :
      read_second
        (len - length to_path)
        (to_path ++ (b'/' ∷ r.path ++ b' ' ∷ behind_path))
        (length to_path)
        (length to_path)
        0
      ≡ (true, length to_path + suc (length r.path), 0)
  path_read =
      read_second-drop (len - length to_path) (to_path ++ (b'/' ∷ r.path ++ b' ' ∷ behind_path))
        (length to_path) (length to_path) 0 (b'/' ∷ r.path) behind_path slash
        (drop-append_length to_path (b'/' ∷ r.path ++ b' ' ∷ behind_path)) (refl, v.path_whole)
        (omega (arith, size, length-to_path))

  path_cut :
      set
        (to_path ++ (b'/' ∷ r.path ++ b' ' ∷ behind_path))
        (length to_path + suc (length r.path))
        0
      ≡ to_version ++ behind_path
  path_cut = set_at to_path (b'/' ∷ r.path) behind_path b' ' 0 ∙ with_version behind_path

  pub parse_request :
      parse h (print_request r body) (length (print_request r body))
      ≡ record { ok = true; header = accepted r; text = cut_request r body }
  unfolding parse len behind_path
  parse_request =
      let found : leb len (length r.command) ≡ false = ground (arith, size) in
      let at : length r.command + 1 ≡ length to_path = sym length-to_path in
      let room : leb len (length to_path + suc (length r.path)) ≡ false =
        ground (arith, size, length-to_path) in
      let next : length to_path + suc (length r.path) + 1 ≡ length to_version =
        omega (arith, length-to_version) in
      let line : length to_version + length r.version + 1
          ≡ length to_path + (1 + length r.path) + 1 + length r.version + 1 =
        omega (arith, length-to_version, length-to_path) in
      let total : length (to_version ++ behind_path) ≡ len = omega (
        arith,
        size,
        length-append to_version behind_path,
        length-to_version,
        length-to_path,
        length-append r.version (b'\n' ∷ print_headers r.headers body),
        length-print_headers r.headers body,
      ) in
      let rest =
        read_rest-print_headers
          (record {
            header_size = 0;
            response_code = 0;
            first = some 0;
            second = some (length to_path);
            headers = [];
          })
          to_version r.version r.headers body len v.version_whole v.are_headers v.few refl total in
      let cut =
        with_path (b'/' ∷ r.path ++ 0 ∷ (r.version ++ b'\n' ∷ cut_headers r.headers body))
        ∙ with_version (r.version ++ b'\n' ∷ cut_headers r.headers body) in
      rw (space_found, found, space_cut, at, path_read, room, path_cut, next)
        (rest ∙ rw (cut, line) refl)
