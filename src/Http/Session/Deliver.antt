-- ===== src/Http/Session/Deliver.antt =====
-- A request that comes in, as the subclass of the session sees it.
use pico_https.Common.{◌^◌, ◌<◌, Bool, true, false, not, ◌≡◌, ◌∙◌, ap, some, ◌∷◌, Bytes}
use pico_https.Common.Tests.{ltb, if◌then◌else◌}
use pico_https.Common.Lists.{length, drop}
use pico_https.Http.Header.{HttpHeader, Parsed, get_command, get_path, get_header_value, string_at}
use pico_https.Http.Header.Print.{Request, IsRequest, print_request, request_size}
use pico_https.Http.Header.Strings.{strings, lookup_header, parse-print_request}
use pico_https.Http.State.{init, header_received}
use pico_https.Http.Session.{HttpSession, Environment, deliver, on_recv_in, on_recv}

-- `onRequestReceived`, and `onHttpData` on what there is of a body.
abbrev pub deliver_request :
    {E : Type 0}
    → Environment E
    → HttpHeader
    → Bytes
    → Bytes
    → HttpSession
    → E
    → Bool × HttpSession × E
deliver_request env header text body s e =
    let (go_on, s', e') =
      env.on_request_received header text (record s { header = header; state = header_received })
        e in
    if not go_on
    then (false, s', e')
    else if ltb 0 (length body)
    then env.on_http_data body s' e'
    else (true, s', e')

deliver-body :
    {E : Type 0} (env : Environment E) (p : Parsed) (body : Bytes) (s : HttpSession) (e : E)
    → ((header : HttpHeader) (text : Bytes) (s' : HttpSession) (e' : E)
        → (env.on_request_received header text s' e').1.header ≡ s'.header)
    → drop p.header.header_size p.text ≡ body
    → deliver env p.text (record s { header = p.header }) e
      ≡ deliver_request env p.header p.text body s e
unfolding deliver
deliver-body env p body s e keeps rest =
    let called =
      env.on_request_received p.header p.text
        (record s { header = p.header; state = header_received }) e in
    let left : drop called.1.header.header_size p.text ≡ body =
      ap (λ h. drop h.header_size p.text) (keeps p.header p.text _ e) ∙ rest in
    ap
      (λ b.
        if not called.0
        then (false, called.1, called.2)
        else if ltb 0 (length b)
        then env.on_http_data b called.1 called.2
        else (true, called.1, called.2))
      left

-- A request as a client writes it, with any body, that comes in whole at a session in `INIT`, whose
-- subclass leaves `m_header` alone: `onRequestReceived` is called on a header whose command, path,
-- headers and header values are what was written, and then `onHttpData`, unless it returned false or
-- there is no body, on just the body; the result is that of the last call.
pub on_recv-print_request :
    {E : Type 0} (env : Environment E) (r : Request) (body wanted : Bytes) (s : HttpSession) (e : E)
    → IsRequest r
    → request_size r < 2 ^ 16
    → s.state ≡ init
    → ((header : HttpHeader) (text : Bytes) (s' : HttpSession) (e' : E)
        → (env.on_request_received header text s' e').1.header ≡ s'.header)
    → (header : HttpHeader) × (text : Bytes) × (string_at text (get_command header text)
        ≡ some r.command)
      × (string_at text (get_path header text) ≡ some (b'/' ∷ r.path))
      × (strings text header.headers ≡ r.headers)
      × (string_at text (get_header_value header text wanted) ≡ lookup_header wanted r.headers)
      × (on_recv env (print_request r body) s e ≡ some (deliver_request env header text body s e))
unfolding on_recv on_recv_in
on_recv-print_request env r body wanted s e v small fresh keeps =
    let (p, parsed, ok, command, path, code, headers, rest, value) =
      parse-print_request s.header r body wanted v small in
    let ended = λ (q : Parsed).
      if q.ok
      then some (deliver env q.text (record s { header = q.header }) e)
      else some (false, record s { header = q.header }, e) in
    (
      p.header,
      p.text,
      command,
      path,
      headers,
      value,
      ap (λ st. on_recv_in env st (print_request r body) s e) fresh
          ∙ ap ended parsed
          ∙ ap
              (λ b.
                if b
                then some (deliver env p.text (record s { header = p.header }) e)
                else some (false, record s { header = p.header }, e))
              ok
          ∙ ap some (deliver-body env p body s e keeps rest),
    )
