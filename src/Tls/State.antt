-- ===== src/Tls/State.antt =====
-- pico_tls/session.h and isession_callback.h: the state of a session, and what it calls. The state `E`
-- is all that is not in the object: lwIP, its pcbs, and the owner of the session. `none` is `NULL`.
use pico_https.Common.{ℕ, Bool, true, false, not, ◌&&◌, Option, none, some, List, Bytes}

-- The values of lwIP's `err_t` that session.h lists.
pub data Err : Type 0 where
  err_ok err_mem err_buf err_timeout err_rte err_inprogress err_val err_wouldblock : Err
  err_use err_already err_isconn err_conn err_if err_abrt err_rst err_clsd err_arg : Err

abbrev pub is_ok : Err → Bool
is_ok err_ok = true
is_ok _ = false

abbrev pub is_abrt : Err → Bool
is_abrt err_abrt = true
is_abrt _ = false

-- The private fields, without `m_debug`; of the callback, whether there is one.
pub record Session : Type 0 where
  pub connected : Bool
  pub closing : Bool
  pub processing : Bool
  pub tls : Bool
  pub sent_bytes : ℕ
  pub port : ℕ
  pub callback : Bool
  pub pcb : Option ℕ

-- A `struct pbuf`; a chain of them is a list, and `NULL` the empty one.
pub record Pbuf : Type 0 where
  pub payload : Bytes
  pub tot_len : ℕ

-- The functions of lwIP, and `MBEDTLS_SSL_OUT_CONTENT_LEN`, the size of a TLS record that mbedtls is
-- built with. Those of `altcp_write`, `altcp_output`, `altcp_connect` and
-- `dns_gethostbyname` may call the session back before they return.
pub record LwipOps (E : Type 0) : Type 0 where
  pub out_content_len : ℕ
  pub setprio : Option ℕ → E → E
  pub nagle_disable : Option ℕ → E → E
  pub arg : Option ℕ → (set : Bool) → E → E
  pub recv : Option ℕ → (set : Bool) → E → E
  pub err : Option ℕ → (set : Bool) → E → E
  pub sent : Option ℕ → (set : Bool) → E → E
  pub abort : Option ℕ → E → E
  pub sndbuf : Option ℕ → E → ℕ
  pub recved : Option ℕ → ℕ → E → E
  pub pbuf_free : List Pbuf → E → E
  pub new_tcp : E → Option ℕ × E
  pub new_tls : (config : ℕ) → E → Option ℕ × E
  pub set_hostname : Option ℕ → Bytes → E → E
  pub create_config : Bytes → E → Option ℕ × E
  pub write : Option ℕ → Bytes → Session → E → Err × Session × E
  pub output : Option ℕ → Session → E → Err × Session × E
  pub connect : Option ℕ → (ip port : ℕ) → Session → E → Err × Session × E
  pub gethostbyname : Bytes → Session → E → (Err × ℕ) × Session × E

-- `ISessionCallback`: what the owner does, which may call the session.
pub record SessionCallback (E : Type 0) : Type 0 where
  pub on_sent : ℕ → Session → E → Bool × Session × E
  pub on_recv : Bytes → Session → E → Bool × Session × E
  pub on_closed : Session → E → Session × E
  pub on_connected : Session → E → Session × E

abbrev pub has_pcb : Session → Bool
has_pcb s = elim s.pcb [ none ↦ false | some p ↦ true ]

abbrev pub is_connected : Session → Bool
is_connected s = has_pcb s && not s.closing && s.connected
