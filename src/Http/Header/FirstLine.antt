-- ===== src/Http/Header/FirstLine.antt =====
-- The first line of a printed request, and then the whole of it.
use pico_https.Common.{
  ℕ, zero, suc, ◌+◌, ◌-◌, ◌≤◌, ◌<◌, true, false, ◌≡◌, refl, ◌∙◌, ap, sym, [], ◌∷◌, ◌++◌,
  append_assoc, Bytes, arith, All,
}
use pico_https.Common.Tests.{leb, if◌then◌else◌}
use pico_https.Common.Lists.{length, drop, length-append, get_or-drop, get_or-append_length}
use pico_https.Http.Header.{
  HttpHeader, done, find_from, char_at, ends_line, read_headers, read_second, read_rest,
  max_headers, is_request_at,
}
use pico_https.Http.Header.Scan.{Free, find_from-append}
use pico_https.Http.Header.Print.{
  Headers, print_headers, cut_headers, offsets, headers_size, headers_size-ge, IsHeader,
  length-print_headers,
}
use pico_https.Http.Header.Read.{ends_line-print_headers, read_headers-print_headers}

pub read_second-drop :
    (rounds : ℕ) (text : Bytes) (second i code : ℕ) (w rest : Bytes)
    → is_request_at text second ≡ true
    → drop i text ≡ w ++ b' ' ∷ rest
    → Free b' ' w
    → length w < rounds
    → read_second rounds text second i code ≡ (true, i + length w, code)
unfolding read_second
read_second-drop zero text second i code w rest q e f l = absurd (omega arith)
read_second-drop (suc rounds) text second i code [] rest q e f l =
    let z : i + 0 ≡ i = omega arith in rw ((get_or-drop i text rest b' ' 0 e).0, z) refl
read_second-drop (suc rounds) text second i code (c ∷ w) rest q e f l =
    let (here, behind) = get_or-drop i text (w ++ b' ' ∷ rest) c 0 e in
    let n : i + suc (length w) ≡ i + 1 + length w = omega arith in
    rw
      (
        here,
        f.0,
        q,
        read_second-drop rounds text second (i + 1) code w rest q behind f.1 (omega arith),
        n,
      )
      refl

ends_line-append :
    (before rest : Bytes) → ends_line (before ++ rest) (length before) ≡ ends_line rest 0
ends_line-append before rest =
    let z : length before + 0 ≡ length before = omega arith in
    let first : char_at (before ++ rest) (length before) ≡ char_at rest 0 =
      ap (λ i. char_at (before ++ rest) i) (sym z) ∙ get_or-append_length before rest 0 0 in
    rw (first, get_or-append_length before rest 1 0) refl

headers_behind :
    (h : HttpHeader) (before : Bytes) (hs : Headers) (body : Bytes) (len : ℕ)
    → All IsHeader hs
    → length hs ≤ max_headers
    → h.headers ≡ []
    → length (before ++ print_headers hs body) ≡ len
    → (if ends_line (before ++ print_headers hs body) (length before)
        then done h (before ++ print_headers hs body) (length before + 2)
        else read_headers max_headers h (before ++ print_headers hs body) len (length before))
      ≡ done
          (record h { headers = offsets (length before) hs })
          (before ++ cut_headers hs body)
          (length before + headers_size hs)
headers_behind h before [] body len vs few no_headers e =
    rw (ends_line-append before (b'\r' ∷ b'\n' ∷ body), no_headers) refl
headers_behind h before ((name, value) ∷ hs) body len vs few no_headers e =
    rw
      (
        ends_line-append before (print_headers ((name, value) ∷ hs) body),
        ends_line-print_headers name value hs body vs.0,
      )
      (read_headers-print_headers max_headers h before name value hs body len vs.0 vs.1
          (omega arith) e
        ∙ rw no_headers refl)

-- The rest of the first line and the headers, behind `before`.
pub read_rest-print_headers :
    (h : HttpHeader) (before version : Bytes) (hs : Headers) (body : Bytes) (len : ℕ)
    → Free b'\n' version
    → All IsHeader hs
    → length hs ≤ max_headers
    → h.headers ≡ []
    → length (before ++ (version ++ b'\n' ∷ print_headers hs body)) ≡ len
    → read_rest h (before ++ (version ++ b'\n' ∷ print_headers hs body)) len (length before)
      ≡ done
          (record h { headers = offsets (length before + length version + 1) hs })
          (before ++ (version ++ b'\n' ∷ cut_headers hs body))
          (length before + length version + 1 + headers_size hs)
unfolding read_rest
read_rest-print_headers h before version hs body len f vs few no_headers e =
    let before' = before ++ (version ++ b'\n' ∷ []) in
    let regroup : (ys : Bytes) → before ++ (version ++ b'\n' ∷ ys) ≡ before' ++ ys = λ ys. sym (
      append_assoc before (version ++ b'\n' ∷ []) ys
      ∙ ap (λ t. before ++ t) (append_assoc version (b'\n' ∷ []) ys)) in
    let size = length-print_headers hs body in
    let total : length before + length version + 1 + (headers_size hs + length body) ≡ len = omega (
      arith,
      length-append before (version ++ b'\n' ∷ print_headers hs body),
      length-append version (b'\n' ∷ print_headers hs body),
    ) in
    let two = headers_size-ge hs in
    let newline : find_from (len - length before)
          (before ++ (version ++ b'\n' ∷ print_headers hs body)) b'\n' (length before)
        ≡ length before + length version =
      find_from-append (len - length before) before version (print_headers hs body) b'\n' f
        (omega arith) in
    let room : leb len (length before + length version + 1 + 1) ≡ false = ground arith in
    let at : length before + length version + 1 ≡ length before' =
      omega
        (arith, length-append before (version ++ b'\n' ∷ []), length-append version (b'\n' ∷ [])) in
    rw (newline, room, regroup (print_headers hs body), regroup (cut_headers hs body), at)
      (headers_behind h before' hs body len vs few no_headers
        (rw (← regroup (print_headers hs body)) e))
