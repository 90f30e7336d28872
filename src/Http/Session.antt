-- ===== src/Http/Session.antt =====
-- pico_http/http_session.cpp and http_session.h: the server's side of an HTTP connection, which may
-- become a web socket. `E` is the state of the `Session` below and of what the subclass adds.
pub mod Deliver
pub mod Handshake
pub mod Exchange
use pico_https.Common.{
  ℕ, ◌+◌, ◌-◌, Bool, true, false, not, Option, none, some, [], ◌∷◌, ◌++◌, Bytes,
}
use pico_https.Common.Tests.{ltb, leb, ◌==◌, if◌then◌else◌}
use pico_https.Common.Lists.{length, drop}
use pico_https.Common.Text.{ascii, print_int}
use pico_https.WebSocket.{WebSocketHandler, WebSocketInterface, encode_data}
use pico_https.WebSocket
use pico_https.Tls.State.{Err, is_ok}
use pico_https.Http.State.{HttpSessionState, init, header_received, websocket_established, fail}
use pico_https.Http.Header.{HttpHeader, parse, get_header_value, string_at}

-- The private fields but `m_session`, which the constructor sets for good.
pub record HttpSession : Type 0 where
  pub state : HttpSessionState
  pub header : HttpHeader
  pub websocket_handler : WebSocketHandler

-- The constructor, with a header and a web socket handler as their constructors leave them.
abbrev pub new_session : HttpHeader → WebSocketHandler → HttpSession
new_session header handler = record { state = init; header = header; websocket_handler = handler }

-- `m_session`, the functions of mbedtls (`none` where they do not return 0), and the functions that a
-- subclass overrides, with the data that the header's offsets are in.
pub record Environment (E : Type 0) : Type 0 where
  pub send : Bytes → E → Err × E
  pub close_session : E → E
  pub sndbuf : E → ℕ
  pub mbedtls_sha1_ret : Bytes → Option Bytes
  pub mbedtls_base64_encode : Bytes → (size : ℕ) → Option Bytes
  pub on_request_received : HttpHeader → Bytes → HttpSession → E → Bool × HttpSession × E
  pub on_http_data : Bytes → HttpSession → E → Bool × HttpSession × E
  pub on_web_socket_data : Bytes → HttpSession → E → Bool × HttpSession × E

abbrev pub reply_header : (extra_headers : Bytes) → ℕ → Bytes
reply_header extra_headers body_len =
    ascii "HTTP/1.0 200 OK\r\n"
    ++ (extra_headers ++ (ascii "Content-Length: " ++ (print_int body_len ++ ascii "\r\n\r\n")))

abbrev pub accept_reply : Bytes → Bytes
accept_reply key =
    ascii
      "HTTP/1.1 101 Switching Protocols\r\nUpgrade: websocket\r\nConnection: Upgrade\r\nSec-WebSocket-Accept: "
    ++ (key ++ ascii "\r\n\r\n")

abbrev pub websocket_guid : Bytes
websocket_guid = ascii "258EAFA5-E914-47DA-95CA-C5AB0DC85B11"

module _ {E : Type 0} (env : Environment E) where
  open env use {
    send, close_session, sndbuf, mbedtls_sha1_ret, mbedtls_base64_encode, on_request_received,
    on_http_data, on_web_socket_data,
  }

  -- `sha1` and `base64_encode` of pico_tls/mbedtls_wrapper.c; the last byte is for the zero.
  abbrev pub sha1 : Bytes → Option Bytes
  sha1 input = mbedtls_sha1_ret input

  abbrev pub base64_encode : Bytes → ℕ → Option Bytes
  base64_encode src dlen = mbedtls_base64_encode src (dlen - 1)

  -- `onWebsocketEncodedData`
  unfoldable pub on_websocket_encoded_data : Bytes → HttpSession × E → Bool × (HttpSession × E)
  on_websocket_encoded_data bytes (s, e) = let (err, e') = send bytes e in (is_ok err, (s, e'))

  -- The session as the owner of its web socket; `onFinishedPacket` is that of the interface.
  unfoldable pub web_socket_owner : WebSocketInterface (HttpSession × E)
  unfolding on_websocket_encoded_data
  web_socket_owner = record {
    on_web_socket_data =
        λ bytes r. let (ok, s', e') = on_web_socket_data bytes r.0 r.1 in (ok, (s', e'));
    on_websocket_encoded_data = on_websocket_encoded_data;
    on_finished_packet = λ r. (true, r);
  }

  -- `INIT` in `on_recv`, once `parse` has returned true.
  unfoldable pub deliver : Bytes → HttpSession → E → Bool × HttpSession × E
  deliver text s e =
      let (go_on, s', e') =
        on_request_received s.header text (record s { state = header_received }) e in
      let rest = drop s'.header.header_size text in
      if not go_on
      then (false, s', e')
      else if ltb 0 (length rest)
      then on_http_data rest s' e'
      else (true, s', e')

  -- The branches of `on_recv`; `none` means that the fuel of `decodeData` ran out.
  unfoldable pub on_recv_in :
      HttpSessionState → Bytes → HttpSession → E → Option (Bool × HttpSession × E)
  unfolding deliver web_socket_owner
  on_recv_in init bytes s e =
      let p = parse s.header bytes (length bytes) in
      let parsed = record s { header = p.header } in
      if p.ok then some (deliver p.text parsed e) else some (false, parsed, e)
  on_recv_in header_received bytes s e = some (on_http_data bytes s e)
  on_recv_in websocket_established bytes s e =
      elim (WebSocket.decode_data web_socket_owner s.websocket_handler (s, e) bytes) [
        | none ↦ none
        | some (ok, h, r) ↦ some (ok, record r.0 { websocket_handler = h }, r.1)
      ]
  on_recv_in fail bytes s e = some (false, s, e)

  unfoldable pub on_recv : Bytes → HttpSession → E → Option (Bool × HttpSession × E)
  unfolding on_recv_in
  on_recv bytes s e = on_recv_in s.state bytes s e

  -- `sendWebSocketData`
  unfoldable pub send_web_socket_data : Bytes → HttpSession → E → Bool × (HttpSession × E)
  unfolding web_socket_owner
  send_web_socket_data bytes s e = encode_data web_socket_owner bytes (s, e)

  -- `sendHttpReply`; `n` is what `snprintf` returns.
  unfoldable pub send_http_reply :
      (extra_headers : Bytes) → (body : Option Bytes) → (body_len : ℕ) → E → Bool × E
  send_http_reply extra_headers body body_len e =
      let reply = reply_header extra_headers body_len in
      let (err, e') = send reply e in
      if leb 128 (length reply)
      then (false, e)
      else if not (is_ok err)
      then (false, e')
      else elim body [
        | none ↦ (true, e')
        | some bytes ↦ let (err', e'') = send bytes e' in (is_ok err', e'')
      ]

  -- `acceptWebSocket` once there is the result of `base64_encode`, then that of `sha1`, then the key.
  unfoldable pub accept_encoded : Option Bytes → HttpSession → E → Bool × HttpSession × E
  accept_encoded none s e = (false, s, e)
  accept_encoded (some encoded) s e =
      let (err, e') = send (accept_reply encoded) e in
      if leb 256 (length (accept_reply encoded))
      then (false, s, e)
      else if is_ok err
      then (true, record s { state = websocket_established }, e')
      else (false, s, e')

  unfoldable pub accept_sum : Option Bytes → HttpSession → E → Bool × HttpSession × E
  unfolding accept_encoded
  accept_sum none s e = (false, s, e)
  accept_sum (some sum) s e = accept_encoded (base64_encode sum 128) s e

  unfoldable pub accept_key : Option Bytes → HttpSession → E → Bool × HttpSession × E
  unfolding accept_sum
  accept_key none s e = (false, s, e)
  accept_key (some key) s e =
      if leb (128 - length websocket_guid) (length key + 1)
      then (false, s, e)
      else accept_sum (sha1 (key ++ websocket_guid)) s e

  -- `acceptWebSocket`, with the data that the header's offsets are in.
  unfoldable pub accept_web_socket : HttpHeader → Bytes → HttpSession → E → Bool × HttpSession × E
  unfolding accept_key
  accept_web_socket header text s e =
      accept_key (string_at text (get_header_value header text (ascii "Sec-WebSocket-Key"))) s e

  unfoldable pub close : HttpSession → E → HttpSession × E
  close s e = (record s { state = fail }, close_session e)

  unfoldable pub send_buffer_size : E → ℕ
  send_buffer_size e = sndbuf e
