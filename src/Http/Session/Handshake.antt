-- ===== src/Http/Session/Handshake.antt =====
-- `acceptWebSocket` on a request that came in.
use pico_https.Common.{
  ◌+◌, ◌^◌, ◌<◌, Bool, true, false, ◌≡◌, refl, ◌∙◌, ap, Option, none, some, Bytes, ◌++◌, inl, inr,
  arith,
}
use pico_https.Common.Tests.{ltb, leb, if◌then◌else◌, Bool-cases}
use pico_https.Common.Lists.{length}
use pico_https.Common.Text.{ascii}
use pico_https.Tls.State.{is_ok}
use pico_https.Http.Header.{HttpHeader, Parsed, parse}
use pico_https.Http.Header.Print.{Headers, Request, IsRequest, print_request, request_size}
use pico_https.Http.Header.Strings.{lookup_header, parse-print_request}
use pico_https.Http.State.{websocket_established}
use pico_https.Http.Session.{
  HttpSession, Environment, sha1, base64_encode, accept_encoded, accept_sum, accept_key,
  accept_web_socket, accept_reply, websocket_guid,
}

module _ {E : Type 0} (env : Environment E) where
  open env use {send}

  abbrev answer_encoded : Option Bytes → Option Bytes
  answer_encoded none = none
  answer_encoded (some encoded) =
      if ltb (length (accept_reply encoded)) 256 then some (accept_reply encoded) else none

  abbrev answer_sum : Option Bytes → Option Bytes
  answer_sum none = none
  answer_sum (some sum) = answer_encoded (base64_encode env sum 128)

  abbrev answer_key : Option Bytes → Option Bytes
  answer_key none = none
  answer_key (some key) =
      if ltb 90 (length key) then none else answer_sum (sha1 env (key ++ websocket_guid))

  -- The answer to a request with these headers: to its key, if it has one of at most 90 characters,
  -- and the answer fits into 255.
  abbrev pub answer : Headers → Option Bytes
  answer hs = answer_key (lookup_header (ascii "Sec-WebSocket-Key") hs)

  -- The session is a web socket exactly if there is an answer and it was sent.
  abbrev pub respond : Option Bytes → HttpSession → E → Bool × HttpSession × E
  respond none s e = (false, s, e)
  respond (some reply) s e =
      let (err, e') = send reply e in
      if is_ok err then (true, record s { state = websocket_established }, e') else (false, s, e')

  accept_encoded_lem :
      (encoded : Option Bytes) (s : HttpSession) (e : E)
      → accept_encoded env encoded s e ≡ respond (answer_encoded encoded) s e
  unfolding accept_encoded
  accept_encoded_lem none s e = refl
  accept_encoded_lem (some encoded) s e =
      elim (Bool-cases (ltb (length (accept_reply encoded)) 256)) [
        | inl fits ↦
            let room : leb 256 (length (accept_reply encoded)) ≡ false = ground arith in
            rw (fits, room) refl
        | inr full ↦
            let over : leb 256 (length (accept_reply encoded)) ≡ true = ground arith in
            rw (full, over) refl
      ]

  accept_sum_lem :
      (sum : Option Bytes) (s : HttpSession) (e : E)
      → accept_sum env sum s e ≡ respond (answer_sum sum) s e
  unfolding accept_sum
  accept_sum_lem none s e = refl
  accept_sum_lem (some sum) s e = accept_encoded_lem (base64_encode env sum 128) s e

  accept_key_lem :
      (key : Option Bytes) (s : HttpSession) (e : E)
      → accept_key env key s e ≡ respond (answer_key key) s e
  unfolding accept_key
  accept_key_lem none s e = refl
  accept_key_lem (some key) s e = elim (Bool-cases (ltb 90 (length key))) [
    | inl long ↦ let over : leb 92 (length key + 1) ≡ true = ground arith in rw (long, over) refl
    | inr short ↦
        let room : leb 92 (length key + 1) ≡ false = ground arith in
        rw (short, room) (accept_sum_lem (sha1 env (key ++ websocket_guid)) s e)
  ]

-- On a request as a client writes it, once it is parsed: `acceptWebSocket` sends the reply with the
-- key of the header `Sec-WebSocket-Key`, whatever its case, and the GUID, hashed and encoded, and the
-- session is then a web socket exactly if the send succeeds; without the header, with a key of more
-- than 90 characters, where hashing or encoding fails, or where the reply takes more than 255
-- characters, it returns false, and sends and changes nothing.
pub accept_web_socket-answer :
    {E : Type 0} (env : Environment E) (h : HttpHeader) (r : Request) (body : Bytes)
    (s : HttpSession) (e : E)
    → IsRequest r
    → request_size r < 2 ^ 16
    → accept_web_socket env
        (parse h (print_request r body) (length (print_request r body))).header
        (parse h (print_request r body) (length (print_request r body))).text
        s
        e
      ≡ respond env (answer env r.headers) s e
unfolding accept_web_socket
accept_web_socket-answer env h r body s e v small =
    let wanted = ascii "Sec-WebSocket-Key" in
    let (p, parsed, ok, command, path, code, headers, rest, value) =
      parse-print_request h r body wanted v small in
    ap (λ (q : Parsed). accept_web_socket env q.header q.text s e) parsed
    ∙ ap (λ k. accept_key env k s e) value
    ∙ accept_key_lem env (lookup_header wanted r.headers) s e
