-- ===== src/Http/State.antt =====
-- `HTTPSessionState` of pico_http/http_session.h, which a session and a request share.
use pico_https.Common.{Bool, true, false}

pub data HttpSessionState : Type 0 where
  init header_received websocket_established fail : HttpSessionState

abbrev pub is_fail : HttpSessionState → Bool
is_fail fail = true
is_fail _ = false
