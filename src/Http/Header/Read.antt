-- ===== src/Http/Header/Read.antt =====
-- All headers of a printed request, by the loop of `parse` over the headers.
use pico_https.Common.{
  ℕ, zero, suc, ◌+◌, ◌≤◌, ◌<◌, false, ◌≡◌, refl, ◌∙◌, ap, sym, [], ◌∷◌, ◌++◌, append_assoc, Bytes,
  arith, All,
}
use pico_https.Common.Tests.{if◌then◌else◌}
use pico_https.Common.Lists.{length, length-append}
use pico_https.Http.Header.{
  HttpHeader, done, last_header, more_headers, ends_line, header_line, read_headers,
}
use pico_https.Http.Header.Print.{
  Headers, print_headers, cut_headers, offsets, headers_size, headers_size-ge, IsHeader,
  length-print_headers,
}
use pico_https.Http.Header.Lines.{round_read, line, cut, cr, to_value, named_cut}

pub ends_line-print_headers :
    (name value : Bytes) (hs : Headers) (body : Bytes)
    → IsHeader (name, value)
    → ends_line (print_headers ((name, value) ∷ hs) body) 0 ≡ false
ends_line-print_headers [] value hs body v = refl
ends_line-print_headers (c ∷ name) value hs body v = rw (v.1.0) refl

module _ (before name value : Bytes) (hs : Headers) (body : Bytes) (len : ℕ)
    (v : IsHeader (name, value)) where
  next_before : Bytes
  next_before = before ++ (name ++ 0 ∷ b' ' ∷ (value ++ 0 ∷ b'\n' ∷ []))

  length-next_before : length next_before ≡ length before + length name + 2 + length value + 2
  unfolding next_before
  length-next_before = omega (
    arith,
    length-append before (name ++ 0 ∷ b' ' ∷ (value ++ 0 ∷ b'\n' ∷ [])),
    length-append name (0 ∷ b' ' ∷ (value ++ 0 ∷ b'\n' ∷ [])),
    length-append value (0 ∷ b'\n' ∷ []),
  )

  next_before-append :
      (ys : Bytes) → next_before ++ ys ≡ before ++ (name ++ 0 ∷ b' ' ∷ (value ++ 0 ∷ b'\n' ∷ ys))
  unfolding next_before
  next_before-append ys =
      append_assoc before (name ++ 0 ∷ b' ' ∷ (value ++ 0 ∷ b'\n' ∷ [])) ys
      ∙ ap (λ t. before ++ t)
          (append_assoc name (0 ∷ b' ' ∷ (value ++ 0 ∷ b'\n' ∷ [])) ys
            ∙ ap (λ t. name ++ 0 ∷ b' ' ∷ t) (append_assoc value (0 ∷ b'\n' ∷ []) ys))

  -- The round, with the data after it as a printed request cut at this line.
  round_of :
      length (before ++ print_headers ((name, value) ∷ hs) body) ≡ len
      → header_line (before ++ print_headers ((name, value) ∷ hs) body) len (length before) ≡ (
          if ends_line (print_headers hs body) 0
          then last_header
              (next_before ++ (print_headers hs body))
              (length before)
              (length before + length name + 2)
              (length next_before + 2)
          else more_headers
              (next_before ++ (print_headers hs body))
              (length before)
              (length before + length name + 2)
              (length next_before))
  unfolding line cut cr
  round_of e =
      let two : 2 ≤ length (print_headers hs body) =
        omega (arith, length-print_headers hs body, headers_size-ge hs) in
      let same : to_value before name value (print_headers hs body) len v
            ++ (value ++ 0 ∷ b'\n' ∷ (print_headers hs body))
          ≡ next_before ++ (print_headers hs body) =
        sym (
          named_cut before name value (print_headers hs body) len v
            (value ++ 0 ∷ b'\n' ∷ (print_headers hs body)))
        ∙ sym (next_before-append (print_headers hs body)) in
      rw (length-next_before, ← same)
        (round_read before name value (print_headers hs body) len v e two)

pub read_headers-print_headers :
    (rounds : ℕ) (h : HttpHeader) (before name value : Bytes) (hs : Headers) (body : Bytes)
    (len : ℕ)
    → IsHeader (name, value)
    → All IsHeader hs
    → length hs < rounds
    → length (before ++ print_headers ((name, value) ∷ hs) body) ≡ len
    → read_headers rounds h (before ++ print_headers ((name, value) ∷ hs) body) len (length before)
      ≡ done
          (record h { headers = h.headers ++ offsets (length before) ((name, value) ∷ hs) })
          (before ++ cut_headers ((name, value) ∷ hs) body)
          (length before + headers_size ((name, value) ∷ hs))
unfolding read_headers
read_headers-print_headers zero h before name value hs body len v vs r e = absurd (omega arith)
read_headers-print_headers (suc rounds) h before name value [] body len v vs r e =
    let round = round_of before name value [] body len v e in
    let size : length before + length name + 2 + length value + 2 + 2
        ≡ length before + (length name + 2 + length value + 2 + 2) =
      omega arith in
    rw
      (
        round,
        read_headers,
        length-next_before before name value [] body len v,
        next_before-append before name value [] body len v (b'\r' ∷ b'\n' ∷ body),
        size,
      )
      refl
read_headers-print_headers (suc rounds) h before name value ((name', value') ∷ hs) body len v vs r
      e =
    let before' = next_before before name value ((name', value') ∷ hs) body len v in
    let at' = length-next_before before name value ((name', value') ∷ hs) body len v in
    let append' = next_before-append before name value ((name', value') ∷ hs) body len v in
    let round = round_of before name value ((name', value') ∷ hs) body len v e in
    let next_line = ends_line-print_headers name' value' hs body vs.0 in
    let h' = record h {
      headers = h.headers ++ (length before, length before + length name + 2) ∷ [];
    } in
    let size : length before' + headers_size ((name', value') ∷ hs)
        ≡ length before + headers_size ((name, value) ∷ (name', value') ∷ hs) =
      omega arith in
    let ih =
      read_headers-print_headers rounds h' before' name' value' hs body len vs.0 vs.1 (omega arith)
        (omega (
          arith,
          length-append before (print_headers ((name, value) ∷ (name', value') ∷ hs) body),
          length-append before' (print_headers ((name', value') ∷ hs) body),
          length-print_headers ((name, value) ∷ (name', value') ∷ hs) body,
          length-print_headers ((name', value') ∷ hs) body,
        )) in
    rw (round, next_line, read_headers)
      (ih ∙ rw (size, append' (cut_headers ((name', value') ∷ hs) body), at', append_assoc) refl)
