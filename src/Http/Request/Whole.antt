-- ===== src/Http/Request/Whole.antt =====
-- What a request sends: the calls that add headers may all have their results dropped.
use pico_https.Common.{
  ℕ, zero, suc, ◌+◌, ◌-◌, ◌≤◌, ◌<◌, ◌^◌, Bool, true, false, ◌≡◌, refl, ◌∙◌, ap, sym, inl, inr,
  Option, none, some, [], ◌∷◌, ◌++◌, append_assoc, append-nil, Bytes, arith,
}
use mathlib.Core.Path.{subst}
use mathlib.Core.Bool.{false≢true}
use pico_https.Common.Tests.{leb, ◌==◌, if-elim}
use pico_https.Common.Lists.{length, take, drop, set, length-append, length-set, drop-append_length}
use pico_https.Common.Text.{ascii, print_int}
use pico_https.Http.Header.Print.{Headers, print_headers, Request, print_request}
use pico_https.Http.State.{HttpSessionState, is_fail}
use pico_https.Http.Request.{
  HttpRequest, Connection, max_header_size, first_lines, header_text, made_in, construct,
  add_header, set_body, end_header, send, send_body, on_connected,
}
use pico_https.Http.Request.Built.{
  IsBuilt, IsSpoilt, Holds, add_header-Holds, set_body-Holds, print_first-Holds,
}

take-set_at :
    (xs : Bytes) (i v : ℕ) → i < length xs → take (i + 1) (set xs i v) ≡ take i xs ++ v ∷ []
take-set_at [] i v l = absurd (omega arith)
take-set_at (x ∷ xs) zero v l = refl
take-set_at (x ∷ xs) (suc i) v l =
    let n : suc i + 1 ≡ suc (i + 1) = omega arith in
    rw n (ap (◌∷◌ x) (take-set_at xs i v (omega arith)))

take-set_above : (n : ℕ) (xs : Bytes) (i v : ℕ) → n ≤ i → take n (set xs i v) ≡ take n xs
take-set_above zero xs i v l = refl
take-set_above (suc n) [] i v l = refl
take-set_above (suc n) (x ∷ xs) zero v l = absurd (omega arith)
take-set_above (suc n) (x ∷ xs) (suc i) v l = ap (◌∷◌ x) (take-set_above n xs i v (omega arith))

drop-take : (m n : ℕ) (xs : Bytes) → take n (drop m xs) ≡ drop m (take (m + n) xs)
drop-take zero n xs = let z : 0 + n ≡ n = omega arith in rw z refl
drop-take (suc m) n [] = elim_nil n (suc m + n)
  where
    elim_nil : (a b : ℕ) → take {A = ℕ} a [] ≡ drop (suc m) (take b [])
    elim_nil zero zero = refl
    elim_nil zero (suc b) = refl
    elim_nil (suc a) zero = refl
    elim_nil (suc a) (suc b) = refl
drop-take (suc m) n (x ∷ xs) =
    let s : suc m + n ≡ suc (m + n) = omega arith in rw s (drop-take m n xs)

-- `addHeader` for each header, and `setBody` if there is a body; what they return is dropped.
abbrev pub add_headers : Headers → HttpRequest → HttpRequest
add_headers [] q = q
add_headers ((name, value) ∷ hs) q = add_headers hs (add_header name value q).1

abbrev pub add_body : Option Bytes → HttpRequest → HttpRequest
add_body none q = q
add_body (some bytes) q = (set_body bytes q).1

-- The header that `setBody` adds.
abbrev pub body_headers : Option Bytes → Headers
body_headers none = []
body_headers (some bytes) = (ascii "Content-Length", print_int (length bytes)) ∷ []

abbrev lines : Headers → Bytes
lines [] = []
lines ((name, value) ∷ hs) = header_text name value ++ lines hs

abbrev crlf : Bytes
crlf = b'\r' ∷ b'\n' ∷ []

lines-print_headers : (hs : Headers) → lines hs ++ crlf ≡ print_headers hs []
lines-print_headers [] = refl
lines-print_headers ((name, value) ∷ hs) =
    append_assoc (header_text name value) (lines hs) crlf
    ∙ ap (λ t. header_text name value ++ t) (lines-print_headers hs)
    ∙ append_assoc name (b':' ∷ b' ' ∷ (value ++ crlf)) (print_headers hs [])
    ∙ ap (λ t. name ++ b':' ∷ b' ' ∷ t) (append_assoc value crlf (print_headers hs []))

lines-append : (hs ks : Headers) → lines (hs ++ ks) ≡ lines hs ++ lines ks
lines-append [] ks = refl
lines-append ((name, value) ∷ hs) ks =
    ap (λ t. header_text name value ++ t) (lines-append hs ks)
    ∙ sym (append_assoc (header_text name value) (lines hs) (lines ks))

module _ (host : Bytes) (port : ℕ) where
  add_headers-Holds :
      (hs : Headers) (text : Bytes) (body : Option Bytes) (q : HttpRequest)
      → Holds host text port body q
      → Holds host (text ++ lines hs) port body (add_headers hs q)
  add_headers-Holds [] text body q h =
      subst (λ t. Holds host t port body q) (sym (append-nil text)) h
  add_headers-Holds ((name, value) ∷ hs) text body q h =
      subst (λ t. Holds host t port body (add_headers hs (add_header name value q).1))
        (append_assoc text (header_text name value) (lines hs))
        (add_headers-Holds hs (text ++ header_text name value) body (add_header name value q).1
          (add_header-Holds host port name value text body q h))

  add_body-Holds :
      (body : Option Bytes) (text : Bytes) (q : HttpRequest)
      → Holds host text port none q
      → Holds host (text ++ lines (body_headers body)) port body (add_body body q)
  add_body-Holds none text q h = subst (λ t. Holds host t port none q) (sym (append-nil text)) h
  add_body-Holds (some bytes) text q h =
      subst (λ t. Holds host (text ++ t) port (some bytes) (set_body bytes q).1)
        (sym (append-nil (header_text (ascii "Content-Length") (print_int (length bytes)))))
        (set_body-Holds host port bytes text q h)

-- The bytes between the start and the end of the header.
sent_header :
    (host text : Bytes) (port : ℕ) (body : Option Bytes) (q : HttpRequest)
    → IsBuilt host text port body q
    → take (q.header_index + 3 - q.header_start - 1) (drop q.header_start (end_header q).header)
      ≡ text ++ crlf
sent_header host text port body q v =
    let i = q.header_index in
    let one = set q.header i b'\r' in
    let two = set one (i + 1) b'\n' in
    let size = i + 3 - q.header_start - 1 in
    let reach : q.header_start + size ≡ i + 1 + 1 = omega (arith, v.start, v.index) in
    let start : q.header_start ≡ length (host ++ 0 ∷ []) =
      omega (arith, v.start, length-append host (0 ∷ [])) in
    let long : length one ≡ 1002 = length-set q.header i b'\r' ∙ v.size in
    drop-take q.header_start size (set two (i + 2) 0)
    ∙ ap (λ n. drop q.header_start (take n (set two (i + 2) 0))) reach
    ∙ ap (drop q.header_start) (
        take-set_above (i + 1 + 1) two (i + 2) 0 (omega arith)
        ∙ take-set_at one (i + 1) b'\n' (omega (arith, v.room))
        ∙ ap (λ t. t ++ b'\n' ∷ [])
            (take-set_at q.header i b'\r' (omega (arith, v.room, v.size))
              ∙ ap (λ t. t ++ b'\r' ∷ []) v.front)
        ∙ append_assoc ((host ++ 0 ∷ []) ++ text) (b'\r' ∷ []) (b'\n' ∷ [])
        ∙ append_assoc (host ++ 0 ∷ []) text crlf)
    ∙ ap (λ n. drop n ((host ++ 0 ∷ []) ++ (text ++ crlf))) start
    ∙ drop-append_length (host ++ 0 ∷ []) (text ++ crlf)

-- The request that the calls ask for; its path starts with a slash.
abbrev pub request_of :
    (host : Bytes) → ℕ → (command path : Bytes) → Headers → Option Bytes → Request
request_of host port command path hs body = record {
  command = command;
  path = path;
  version = ascii "HTTP/1.1\r";
  headers = (ascii "Host", host ++ b':' ∷ print_int port) ∷ (hs ++ body_headers body);
}

first_lines-print_request :
    (host : Bytes) (port : ℕ) (command path : Bytes) (hs : Headers) (body : Option Bytes)
    → ((first_lines command (b'/' ∷ path) host port ++ lines hs) ++ lines (body_headers body))
        ++ crlf
      ≡ print_request (request_of host port command path hs body) []
first_lines-print_request host port command path hs body =
    let first = first_lines command (b'/' ∷ path) host port in
    let added = hs ++ body_headers body in
    let rest = print_headers added [] in
    let named = host ++ b':' ∷ print_int port in
    let behind = host ++ b':' ∷ (print_int port ++ crlf) in
    let to_host = ascii " HTTP/1.1\r\nHost: " in
    let hosted : behind ++ rest ≡ named ++ (crlf ++ rest) =
      append_assoc host (b':' ∷ (print_int port ++ crlf)) rest
      ∙ ap (λ t. host ++ b':' ∷ t) (append_assoc (print_int port) crlf rest)
      ∙ sym (append_assoc host (b':' ∷ print_int port) (crlf ++ rest)) in
    ap (λ t. t ++ crlf)
      (append_assoc first (lines hs) (lines (body_headers body))
        ∙ ap (λ t. first ++ t) (sym (lines-append hs (body_headers body))))
    ∙ append_assoc first (lines added) crlf
    ∙ ap (λ t. first ++ t) (lines-print_headers added)
    ∙ append_assoc command (b' ' ∷ (b'/' ∷ path ++ (to_host ++ behind))) rest
    ∙ ap (λ t. command ++ b' ' ∷ b'/' ∷ t)
        (append_assoc path (to_host ++ behind) rest ∙ ap (λ t. path ++ (to_host ++ t)) hosted)

construct-Holds :
    (state : HttpSessionState) (memory host : Bytes) (port : ℕ) (command path : Bytes)
    → length memory ≡ 1002
    → length host < 2 ^ 16
    → Holds host
        (first_lines command path host port)
        port
        none
        (construct (made_in state memory) (some host) port (some command) (some path))
unfolding construct
construct-Holds state memory host port command path size short =
    if-elim (Holds host (first_lines command path host port) port none) (port == 0) (λ _. inr refl)
      (λ _. print_first-Holds host port command path (made_in state memory) size short)

module _ {C : Type 0} (connection : Connection C) where
  not_spoilt :
      (q : HttpRequest)
      → is_fail q.state ≡ false
      → leb (max_header_size - 3) q.header_index ≡ false
      → IsSpoilt q
      → ⊥
  not_spoilt q alive room spoilt = ground arith

  send-end_header :
      (q q' : HttpRequest) (c c' : C)
      → send connection q c ≡ (true, q', c')
      → (q' ≡ end_header q) × (IsSpoilt q → ⊥)
  unfolding send
  send-end_header q q' c c' =
      let P = λ (r : Bool × HttpRequest × C).
        r ≡ (true, q', c') → (q' ≡ end_header q) × (IsSpoilt q → ⊥) in
      let refused = λ (e : (false, q, c) ≡ (true, q', c')). absurd (false≢true (ap (λ r. r.0) e)) in
      if-elim P (is_fail q.state) (λ _. refused)
        (λ alive.
          if-elim P (q.port == 0) (λ _. refused)
            (λ _.
              if-elim P (leb (max_header_size - 3) q.header_index) (λ _. refused)
                (λ room e. (sym (ap (λ r. r.1) e), not_spoilt q alive room))))

  on_connected-end_header :
      (host text : Bytes) (port : ℕ) (body : Option Bytes) (q : HttpRequest) (d : C)
      → IsBuilt host text port body q
      → on_connected connection (end_header q) d
        ≡ send_body connection body (connection.send_data (text ++ crlf) d).1
  unfolding on_connected
  on_connected-end_header host text port body q d v =
      let out =
        take (q.header_index + 3 - q.header_start - 1)
          (drop q.header_start (end_header q).header) in
      ap (λ b. send_body connection b (connection.send_data out d).1) v.bodied
      ∙ ap (λ t. send_body connection body (connection.send_data t d).1)
          (sent_header host text port body q v)

-- Whatever the memory holds that the object is made in, and whatever the calls that add headers and a
-- body return: if `send` then returns true, and the host is shorter than 2 ^ 16 characters, the
-- connection is sent, once it is there, the whole request with all of these headers and the host's,
-- and then the body.
pub on_connected-print_request :
    {C : Type 0} (connection : Connection C) (state : HttpSessionState) (memory host : Bytes)
    (port : ℕ) (command path : Bytes) (hs : Headers) (body : Option Bytes) (q' : HttpRequest)
    (c c' d : C)
    → length memory ≡ 1002
    → length host < 2 ^ 16
    → send connection
        (add_body body (
          add_headers hs (
            construct (made_in state memory) (some host) port (some command) (some (b'/' ∷ path)))))
        c
      ≡ (true, q', c')
    → on_connected connection q' d
      ≡ send_body connection body
          (connection.send_data (print_request (request_of host port command path hs body) []) d).1
on_connected-print_request connection state memory host port command path hs body q' c c' d size
      short sent =
    let new =
      construct (made_in state memory) (some host) port (some command) (some (b'/' ∷ path)) in
    let q = add_body body (add_headers hs new) in
    let (ended, unspoilt) = send-end_header connection q q' c c' sent in
    let whole = first_lines-print_request host port command path hs body in
    elim (add_body-Holds host port body _ (add_headers hs new) (
      add_headers-Holds host port hs _ none new
        (construct-Holds state memory host port command (b'/' ∷ path) size short))) [
          | inr spoilt ↦ absurd (unspoilt spoilt)
          | inl v ↦
              ap (λ x. on_connected connection x d) ended
              ∙ on_connected-end_header connection host _ port body q d v
              ∙ ap (λ t. send_body connection body (connection.send_data t d).1) whole
        ]
