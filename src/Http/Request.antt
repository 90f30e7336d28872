-- ===== src/Http/Request.antt =====
-- pico_http/http_request.cpp and http_request.h: a client's request. The header is built in one buffer,
-- which starts with the host and a zero byte; a string of C is given as its characters.
pub mod Built
pub mod Whole
use pico_https.Common.{
  ℕ, ◌+◌, ◌-◌, ◌%◌, ◌^◌, Bool, true, false, not, ◌&&◌, ◌||◌, Option, none, some, [], ◌∷◌, ◌++◌,
  Bytes,
}
use pico_https.Common.Tests.{ltb, leb, ◌==◌, if◌then◌else◌}
use pico_https.Common.Lists.{length, take, drop, set}
use pico_https.Common.Text.{ascii, print_int, print_at}
use pico_https.Tls.State.{Err, is_ok}
use pico_https.Http.Header.{HttpHeader, parse, c_string}
use pico_https.Http.State.{
  HttpSessionState, init, header_received, websocket_established, fail, is_fail,
}

abbrev pub max_header_size : ℕ
max_header_size = 1000

-- The private fields; `m_body` with `m_bodyLen`, and of the callback whether there is one.
pub record HttpRequest : Type 0 where
  pub state : HttpSessionState
  pub port : ℕ
  pub header_start : ℕ
  pub header_index : ℕ
  pub header : Bytes
  pub body : Option Bytes
  pub callback : Bool

-- "command path HTTP/1.1", and the header of the host.
abbrev pub first_lines : (command path host : Bytes) → ℕ → Bytes
first_lines command path host port =
    command
    ++ b' '
      ∷ (path ++ (ascii " HTTP/1.1\r\nHost: " ++ (host ++ b':' ∷ (print_int port ++ ascii "\r\n"))))

abbrev pub header_text : (name value : Bytes) → Bytes
header_text name value = name ++ b':' ∷ b' ' ∷ (value ++ ascii "\r\n")

-- `snprintf` at the end of the header, with what follows it in `addHeader` and in `setBody`.
unfoldable pub append_text : Bytes → HttpRequest → Bool × HttpRequest
append_text text q =
    let index = q.header_index in
    let printed = print_at q.header index (max_header_size - index) text in
    if leb max_header_size (index + length text)
    then (false, record q { header = printed; header_index = max_header_size })
    else (true, record q { header = printed; header_index = index + length text })

-- The constructor behind its test of the parameters.
unfoldable pub print_first : (host : Bytes) → ℕ → (command path : Bytes) → HttpRequest → HttpRequest
print_first host port command path q =
    let index = length host % 2 ^ 16 in
    let start = index + 1 in
    let text = first_lines command path host port in
    let named = record q {
      header_index = index;
      header = print_at q.header 0 max_header_size host;
    } in
    let printed = record named {
      port = port;
      header_start = start;
      header = print_at named.header start (max_header_size - start) text;
    } in
    if leb (max_header_size - 2) index
    then record named { state = fail }
    else if leb (max_header_size - 2) (start + length text)
    then record printed { header_index = max_header_size; state = fail }
    else record printed { header_index = start + length text }

-- The object in a memory that held `state` and `memory`: the constructor leaves `m_state` as it is.
abbrev pub made_in : HttpSessionState → Bytes → HttpRequest
made_in state memory = record {
  state = state;
  port = 443;
  header_start = 0;
  header_index = 0;
  header = memory;
  body = none;
  callback = false;
}

-- The constructor.
unfoldable pub construct :
    HttpRequest → (host : Option Bytes) → ℕ → (command path : Option Bytes) → HttpRequest
unfolding print_first
construct q (some host) port (some command) (some path) =
    if port == 0 then record q { state = fail } else print_first host port command path q
construct q _ port _ _ = record q { state = fail }

-- `setHttpCallback`
abbrev pub set_http_callback : (given : Bool) → HttpRequest → HttpRequest
set_http_callback given q = record q { callback = given }

unfoldable pub add_header : (name value : Bytes) → HttpRequest → Bool × HttpRequest
unfolding append_text
add_header name value q =
    if is_fail q.state
    then (false, q)
    else if leb max_header_size q.header_index
    then (false, q)
    else append_text (header_text name value) q

abbrev pub has_body : HttpRequest → Bool
has_body q = elim q.body [ none ↦ false | some b ↦ true ]

unfoldable pub set_body : Bytes → HttpRequest → Bool × HttpRequest
unfolding append_text
set_body bytes q =
    if is_fail q.state
    then (false, q)
    else if leb max_header_size q.header_index
    then (false, q)
    else if has_body q
    then (false, q)
    else append_text (ascii "Content-Length: " ++ (print_int (length bytes) ++ ascii "\r\n"))
        (record q { body = some bytes })

-- `\r`, `\n` and 0 at the end of the header
abbrev pub end_header : HttpRequest → HttpRequest
end_header q =
    let i = q.header_index in
    record q {
      header = set (set (set q.header i b'\r') (i + 1) b'\n') (i + 2) 0;
      header_index = i + 3;
    }

-- `m_connection`, and `IHttpCallback`, on a state of their own.
pub record Connection (C : Type 0) : Type 0 where
  pub connect : (host : Bytes) → (port : ℕ) → C → Err × C
  pub send_data : Bytes → C → Err × C
  pub on_header_received : HttpHeader → Bytes → C → Bool × C
  pub on_http_data : Bytes → C → Bool × C
  pub on_request_destroyed : C → C

module _ {C : Type 0} (connection : Connection C) where
  open connection use {connect, send_data, on_header_received, on_http_data, on_request_destroyed}

  unfoldable pub send : HttpRequest → C → Bool × HttpRequest × C
  send q c =
      let ended = end_header q in
      let (err, c') = connect (c_string ended.header 0) q.port c in
      if is_fail q.state
      then (false, q, c)
      else if q.port == 0
      then (false, q, c)
      else if leb (max_header_size - 3) q.header_index
      then (false, q, c)
      else (is_ok err, ended, c')

  -- `m_connection.send(m_body, m_bodyLen)`, if there is a body that is not empty
  abbrev pub send_body : Option Bytes → C → C
  send_body none c = c
  send_body (some []) c = c
  send_body (some (b ∷ bytes)) c = (send_data (b ∷ bytes) c).1

  unfoldable pub on_connected : HttpRequest → C → C
  on_connected q c =
      let size = q.header_index - q.header_start - 1 in
      send_body q.body (send_data (take size (drop q.header_start q.header)) c).1

  -- The branches of `on_recv`.
  unfoldable pub on_recv_in : HttpSessionState → Bytes → HttpRequest → C → Bool × HttpRequest × C
  on_recv_in init bytes q c =
      let empty : HttpHeader = record {
        header_size = 0;
        response_code = 0;
        first = none;
        second = none;
        headers = [];
      } in
      let p = parse empty bytes (length bytes) in
      let received = record q { state = header_received } in
      let (go_on, c') = on_header_received p.header p.text c in
      let told = if q.callback then c' else c in
      let rest = drop p.header.header_size p.text in
      let (accepted, c'') = on_http_data rest told in
      if not p.ok
      then (false, q, c)
      else if q.callback && not go_on
      then (false, received, told)
      else if ltb 0 (length rest) && q.callback
      then (accepted, received, c'')
      else (true, received, told)
  on_recv_in header_received bytes q c =
      let (accepted, c') = on_http_data bytes c in
      if q.callback then (accepted, q, c') else (true, q, c)
  on_recv_in websocket_established bytes q c = (true, q, c)
  on_recv_in fail bytes q c = (false, q, c)

  unfoldable pub on_recv : Bytes → HttpRequest → C → Bool × HttpRequest × C
  unfolding on_recv_in
  on_recv bytes q c = on_recv_in q.state bytes q c

  -- The destructor.
  unfoldable pub destruct : HttpRequest → C → C
  destruct q c = if q.callback then on_request_destroyed c else c
