-- ===== src/Http/Header/Print.antt =====
-- A request as a client writes it, and the data after `parse`, with a zero byte behind each string.
use pico_https.Common.{ℕ, ◌+◌, ◌≡◌, ◌≤◌, List, [], ◌∷◌, ◌++◌, Bytes, All, arith}
use pico_https.Common.Lists.{length, length-append}
use pico_https.Http.Header.{max_headers}
use pico_https.Http.Header.Scan.{Free}

abbrev pub Headers : Type 0
Headers = List (Bytes × Bytes)

-- The lines of the headers, the empty line, and what follows.
abbrev pub print_headers : Headers → Bytes → Bytes
print_headers [] body = b'\r' ∷ b'\n' ∷ body
print_headers ((name, value) ∷ hs) body =
    name ++ b':' ∷ b' ' ∷ (value ++ b'\r' ∷ b'\n' ∷ print_headers hs body)

abbrev pub cut_headers : Headers → Bytes → Bytes
cut_headers [] body = b'\r' ∷ b'\n' ∷ body
cut_headers ((name, value) ∷ hs) body =
    name ++ 0 ∷ b' ' ∷ (value ++ 0 ∷ b'\n' ∷ cut_headers hs body)

-- Where the names and values stand, from `i` on.
abbrev pub offsets : ℕ → Headers → List (ℕ × ℕ)
offsets i [] = []
offsets i ((name, value) ∷ hs) =
    (i, i + length name + 2) ∷ offsets (i + length name + 2 + length value + 2) hs

abbrev pub headers_size : Headers → ℕ
headers_size [] = 2
headers_size ((name, value) ∷ hs) = length name + 2 + length value + 2 + headers_size hs

-- The name has no colon, carriage return or zero byte, the value no carriage return or zero byte.
abbrev pub IsHeader : Bytes × Bytes → Type 0
IsHeader (name, value) =
    Free b':' name × Free b'\r' name × Free 0 name × Free b'\r' value × Free 0 value

pub length-print_headers :
    (hs : Headers) (body : Bytes) → length (print_headers hs body) ≡ headers_size hs + length body
length-print_headers [] body = omega arith
length-print_headers ((name, value) ∷ hs) body = omega (
  arith,
  length-append name (b':' ∷ b' ' ∷ (value ++ b'\r' ∷ b'\n' ∷ print_headers hs body)),
  length-append value (b'\r' ∷ b'\n' ∷ print_headers hs body),
  length-print_headers hs body,
)

pub headers_size-ge : (hs : Headers) → 2 ≤ headers_size hs
headers_size-ge [] = omega arith
headers_size-ge ((name, value) ∷ hs) = omega (arith, headers_size-ge hs)

-- `version` is the rest of the first line, with its carriage return.
pub record Request : Type 0 where
  pub command : Bytes
  pub path : Bytes
  pub version : Bytes
  pub headers : Headers

abbrev pub print_request : Request → Bytes → Bytes
print_request r body =
    r.command
    ++ b' ' ∷ (b'/' ∷ r.path ++ b' ' ∷ (r.version ++ b'\n' ∷ print_headers r.headers body))

abbrev pub cut_request : Request → Bytes → Bytes
cut_request r body =
    r.command ++ 0 ∷ (b'/' ∷ r.path ++ 0 ∷ (r.version ++ b'\n' ∷ cut_headers r.headers body))

-- A request that the parser can read: `path` stands behind a slash.
pub record IsRequest (r : Request) : Type 0 where
  pub command_whole : Free b' ' r.command
  pub command_text : Free 0 r.command
  pub path_whole : Free b' ' r.path
  pub path_text : Free 0 r.path
  pub version_whole : Free b'\n' r.version
  pub are_headers : All IsHeader r.headers
  pub few : length r.headers ≤ max_headers

-- Up to the end of the first line.
abbrev pub line_size : Request → ℕ
line_size r = length r.command + 1 + (1 + length r.path) + 1 + length r.version + 1

abbrev pub request_size : Request → ℕ
request_size r = line_size r + headers_size r.headers

pub length-print_request :
    (r : Request) (body : Bytes) → length (print_request r body) ≡ request_size r + length body
length-print_request r body = omega (
  arith,
  length-append r.command
      (b' ' ∷ (b'/' ∷ r.path ++ b' ' ∷ (r.version ++ b'\n' ∷ print_headers r.headers body))),
  length-append r.path (b' ' ∷ (r.version ++ b'\n' ∷ print_headers r.headers body)),
  length-append r.version (b'\n' ∷ print_headers r.headers body),
  length-print_headers r.headers body,
)
