-- ===== src/Http/Session/Exchange.antt =====
-- A client's request and a server's session on the two ends of a connection.
use pico_https.Common.{
  ℕ, ◌^◌, ◌<◌, true, ◌≡◌, refl, ◌∙◌, ap, sym, Option, none, some, [], ◌∷◌, ◌++◌, append_assoc,
  append-nil, Bytes,
}
use pico_https.Common.Lists.{length}
use pico_https.Tls.State.{err_ok}
use pico_https.Http.Header.{HttpHeader, get_command, get_path, get_header_value, string_at}
use pico_https.Http.Header.Print.{
  Headers, print_headers, Request, IsRequest, print_request, request_size,
}
use pico_https.Http.Header.Strings.{strings, lookup_header}
use pico_https.Http.State.{HttpSessionState, init}
use pico_https.Http.Request.{
  HttpRequest, Connection, made_in, construct, send, send_body, on_connected,
}
use pico_https.Http.Request.Whole.{add_headers, add_body, request_of, on_connected-print_request}
use pico_https.Http.Session.{HttpSession, Environment, on_recv}
use pico_https.Http.Session.Deliver.{deliver_request, on_recv-print_request}

-- A connection that carries what it is sent.
abbrev pub wire : Connection Bytes
wire = record {
  connect = λ host port c. (err_ok, c);
  send_data = λ bytes c. (err_ok, c ++ bytes);
  on_header_received = λ h text c. (true, c);
  on_http_data = λ bytes c. (true, c);
  on_request_destroyed = λ c. c;
}

abbrev pub body_bytes : Option Bytes → Bytes
body_bytes none = []
body_bytes (some bytes) = bytes

send_body-wire : (body : Option Bytes) (c : Bytes) → send_body wire body c ≡ c ++ body_bytes body
send_body-wire none c = sym (append-nil c)
send_body-wire (some []) c = sym (append-nil c)
send_body-wire (some (b ∷ bytes)) c = refl

print_headers-append :
    (hs : Headers) (body : Bytes) → print_headers hs [] ++ body ≡ print_headers hs body
print_headers-append [] body = refl
print_headers-append ((name, value) ∷ hs) body =
    let rest = print_headers hs [] in
    append_assoc name (b':' ∷ b' ' ∷ (value ++ b'\r' ∷ b'\n' ∷ rest)) body
    ∙ ap (λ t. name ++ b':' ∷ b' ' ∷ t)
        (append_assoc value (b'\r' ∷ b'\n' ∷ rest) body
          ∙ ap (λ t. value ++ b'\r' ∷ b'\n' ∷ t) (print_headers-append hs body))

print_request-append :
    (r : Request) (body : Bytes) → print_request r [] ++ body ≡ print_request r body
print_request-append r body =
    let headers = print_headers r.headers [] in
    append_assoc r.command (b' ' ∷ (b'/' ∷ r.path ++ b' ' ∷ (r.version ++ b'\n' ∷ headers))) body
    ∙ ap (λ t. r.command ++ b' ' ∷ b'/' ∷ t)
        (append_assoc r.path (b' ' ∷ (r.version ++ b'\n' ∷ headers)) body
          ∙ ap (λ t. r.path ++ b' ' ∷ t)
              (append_assoc r.version (b'\n' ∷ headers) body
                ∙ ap (λ t. r.version ++ b'\n' ∷ t) (print_headers-append r.headers body)))

-- A request of one end and a new session of the other, whose subclass leaves `m_header` alone: if
-- `send` returned true, and the request is one that `parse` can read, of a size below 2 ^ 16, then the
-- bytes that the client sends once it is connected, if they come in whole, reach `onRequestReceived` as
-- the command, the path, the host's header, the headers that were added and the length of the body,
-- and `onHttpData` as the body.
pub on_recv-on_connected :
    {E : Type 0} (env : Environment E) (state : HttpSessionState) (memory host : Bytes) (port : ℕ)
    (command path : Bytes) (hs : Headers) (body : Option Bytes) (q' : HttpRequest)
    (c' wanted : Bytes) (s : HttpSession) (e : E)
    → length memory ≡ 1002
    → length host < 2 ^ 16
    → IsRequest (request_of host port command path hs body)
    → request_size (request_of host port command path hs body) < 2 ^ 16
    → s.state ≡ init
    → ((header : HttpHeader) (text : Bytes) (s' : HttpSession) (e' : E)
        → (env.on_request_received header text s' e').1.header ≡ s'.header)
    → send wire
        (add_body body (
          add_headers hs (
            construct (made_in state memory) (some host) port (some command) (some (b'/' ∷ path)))))
        []
      ≡ (true, q', c')
    → (header : HttpHeader) × (text : Bytes) × (string_at text (get_command header text)
        ≡ some command)
      × (string_at text (get_path header text) ≡ some (b'/' ∷ path))
      × (strings text header.headers ≡ (request_of host port command path hs body).headers)
      × (string_at text (get_header_value header text wanted)
          ≡ lookup_header wanted (request_of host port command path hs body).headers)
      × (on_recv env (on_connected wire q' []) s e
          ≡ some (deliver_request env header text (body_bytes body) s e))
on_recv-on_connected env state memory host port command path hs body q' c' wanted s e size short v
      small fresh keeps sent =
    let r = request_of host port command path hs body in
    let (header, text, is_command, is_path, are_headers, value, delivered) =
      on_recv-print_request env r (body_bytes body) wanted s e v small fresh keeps in
    let bytes : on_connected wire q' [] ≡ print_request r (body_bytes body) =
      on_connected-print_request wire state memory host port command path hs body q' [] c' [] size
        short sent
      ∙ send_body-wire body (print_request r [])
      ∙ print_request-append r (body_bytes body) in
    (
      header,
      text,
      is_command,
      is_path,
      are_headers,
      value,
      ap (λ b. on_recv env b s e) bytes ∙ delivered,
    )
