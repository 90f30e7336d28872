-- ===== src/Http/Tests.antt =====
-- Runs of a client's request and of a server's session.
use pico_https.Common.{◌<◌, ◌^◌}
use pico_https.Common.{true, false, ◌≡◌, refl, none, some, [], ◌∷◌, ◌++◌, Bytes, arith}
use pico_https.Common.Lists.{length, replicate}
use pico_https.Common.Text.{ascii, print_int}
use pico_https.WebSocket.{wait_packet}
use pico_https.Tls.State.{err_ok}
use pico_https.Http.Header.{HttpHeader, parse, get_command, get_path, get_header_value, string_at}
use pico_https.Http.Header.Print.{Headers, Request, IsRequest, print_request, request_size}
use pico_https.Http.Header.Strings.{strings, lookup_header}
use pico_https.Http.State.{init}
use pico_https.Http.Request.{
  HttpRequest, made_in, construct, print_first, append_text, add_header, set_body, end_header, send,
  send_body, on_connected,
}
use pico_https.Http.Request.Whole.{add_headers, add_body, request_of, on_connected-print_request}
use pico_https.Http.Session.{HttpSession, Environment, on_recv, accept_web_socket}
use pico_https.Http.Session.Deliver.{deliver_request, on_recv-print_request}
use pico_https.Http.Session.Handshake.{answer, respond, accept_web_socket-answer}
use pico_https.Http.Session.Exchange.{wire, on_recv-on_connected}

abbrev key_v : Headers
key_v = (ascii "Key", ascii "v") ∷ []

abbrev get_a : HttpRequest
get_a = add_body (some (ascii "hi")) (
    add_headers key_v (
      construct (made_in init (replicate 1002 0)) (some (ascii "h")) 80 (some (ascii "GET"))
        (some (ascii "/a"))))

get_a-sent : send wire get_a [] ≡ (true, end_header get_a, [])
unfolding send construct print_first print_int append_text add_header set_body
get_a-sent = refl

on_connected-print_request_example :
    on_connected wire (end_header get_a) []
    ≡ send_body wire (some (ascii "hi")) (
        print_request
          (request_of (ascii "h") 80 (ascii "GET") (ascii "a") key_v (some (ascii "hi")))
          [])
on_connected-print_request_example =
    on_connected-print_request wire init (replicate 1002 0) (ascii "h") 80 (ascii "GET") (ascii "a")
      key_v (some (ascii "hi")) (end_header get_a) [] [] [] refl (omega arith) get_a-sent

-- A session on what it sends, that accepts every request and keeps the data.
abbrev serving : Environment Bytes
serving = record {
  send = λ bytes e. (err_ok, e ++ bytes);
  close_session = λ e. e;
  sndbuf = λ e. 100;
  mbedtls_sha1_ret = λ bytes. some (length bytes ∷ []);
  mbedtls_base64_encode = λ bytes size. some bytes;
  on_request_received = λ h text s e. (true, s, e);
  on_http_data = λ bytes s e. (true, s, e ++ bytes);
  on_web_socket_data = λ bytes s e. (true, s, e ++ bytes);
}

abbrev fresh : HttpSession
fresh = record {
  state = init;
  header = record { header_size = 0; response_code = 0; first = none; second = none; headers = [] };
  websocket_handler = record {
    fin = false;
    mask = false;
    operation = 0;
    data_len = 0;
    data_index = 0;
    masking_key = replicate 4 0;
    state = wait_packet;
    buffer_index = 0;
    buffer = replicate 16 0;
  };
}

-- The request for a web socket, with a key of three characters.
abbrev upgrade : Request
upgrade = record {
  command = ascii "GET";
  path = ascii "ws";
  version = ascii "HTTP/1.1\r";
  headers = (ascii "sec-websocket-key", ascii "abc") ∷ [];
}

upgrade-IsRequest : IsRequest upgrade
upgrade-IsRequest = record {
  command_whole = ground arith;
  command_text = ground arith;
  path_whole = ground arith;
  path_text = ground arith;
  version_whole = ground arith;
  are_headers = ground arith;
  few = omega arith;
}

on_recv-print_request_example :
    (header : HttpHeader) × (text : Bytes) × (string_at text (get_command header text)
      ≡ some (ascii "GET"))
    × (string_at text (get_path header text) ≡ some (ascii "/ws"))
    × (strings text header.headers ≡ upgrade.headers)
    × (string_at text (get_header_value header text (ascii "Host"))
        ≡ lookup_header (ascii "Host") upgrade.headers)
    × (on_recv serving (print_request upgrade (ascii "hi")) fresh []
        ≡ some (deliver_request serving header text (ascii "hi") fresh []))
on_recv-print_request_example =
    on_recv-print_request serving upgrade (ascii "hi") (ascii "Host") fresh [] upgrade-IsRequest
      (omega arith) refl (λ header text s e. refl)

accept_web_socket-answer_example :
    accept_web_socket serving
      (parse fresh.header (print_request upgrade []) (length (print_request upgrade []))).header
      (parse fresh.header (print_request upgrade []) (length (print_request upgrade []))).text
      fresh
      []
    ≡ respond serving (answer serving upgrade.headers) fresh []
accept_web_socket-answer_example =
    accept_web_socket-answer serving fresh.header upgrade [] fresh [] upgrade-IsRequest
      (omega arith)

abbrev request_a : Request
request_a = request_of (ascii "h") 80 (ascii "GET") (ascii "a") key_v (some (ascii "hi"))

request_a-IsRequest : IsRequest request_a
unfolding print_int
request_a-IsRequest = record {
  command_whole = ground arith;
  command_text = ground arith;
  path_whole = ground arith;
  path_text = ground arith;
  version_whole = ground arith;
  are_headers = ground arith;
  few = omega arith;
}

request_a-small : request_size request_a < 2 ^ 16
unfolding print_int
request_a-small = omega arith

on_recv-on_connected_example :
    (header : HttpHeader) × (text : Bytes) × (string_at text (get_command header text)
      ≡ some (ascii "GET"))
    × (string_at text (get_path header text) ≡ some (ascii "/a"))
    × (strings text header.headers ≡ request_a.headers)
    × (string_at text (get_header_value header text (ascii "content-length"))
        ≡ lookup_header (ascii "content-length") request_a.headers)
    × (on_recv serving (on_connected wire (end_header get_a) []) fresh []
        ≡ some (deliver_request serving header text (ascii "hi") fresh []))
on_recv-on_connected_example =
    on_recv-on_connected serving init (replicate 1002 0) (ascii "h") 80 (ascii "GET") (ascii "a")
      key_v (some (ascii "hi")) (end_header get_a) [] (ascii "content-length") fresh [] refl
      (omega arith) request_a-IsRequest request_a-small refl (λ header text s e. refl) get_a-sent
