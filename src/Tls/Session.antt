-- ===== src/Tls/Session.antt =====
-- pico_tls/session.cpp: a TCP or TLS connection over lwIP.
use pico_https.Common.{
  ℕ, zero, suc, ◌+◌, ◌-◌, ◌%◌, ◌^◌, Bool, true, false, not, ◌||◌, Option, none, some, List, [], ◌∷◌,
  Bytes,
}
use pico_https.Common.Tests.{ltb, ◌==◌, if◌then◌else◌}
use pico_https.Common.Lists.{length, take, drop}
use pico_https.Tls.State.{
  Err, err_ok, err_val, err_abrt, is_ok, is_abrt, Session, Pbuf, LwipOps, SessionCallback, has_pcb,
}

-- How the loop of `send` and the loop of `lwip_recv` end.
pub data SendEnd (E : Type 0) : Type 0 where
  stopped : Err → Session → E → SendEnd E
  written : Session → E → SendEnd E

pub data RecvEnd (E : Type 0) : Type 0 where
  closed : Session → E → RecvEnd E
  refused : Session → E → RecvEnd E
  received : Session → E → RecvEnd E

module _ {E : Type 0} where
  -- `return err;` behind a call.
  abbrev pub returning : Err → Session × E → Err × Session × E
  returning err (s, e) = (err, s, e)

  -- A call whose result is dropped.
  abbrev pub without_result : Err × Session × E → Session × E
  without_result (err, s, e) = (s, e)

module _ {E : Type 0} (lwip : LwipOps E) (owner : SessionCallback E) where
  open owner use {on_sent, on_recv, on_closed, on_connected}

  unfoldable pub init_pcb : Option ℕ → E → E
  init_pcb p e =
      lwip.nagle_disable p
        (lwip.sent p true (lwip.err p true (lwip.recv p true (lwip.arg p true (lwip.setprio p e)))))

  -- The four calls that take the session's callbacks away from the pcb.
  unfoldable pub clear_callbacks : Option ℕ → E → E
  clear_callbacks p e =
      lwip.sent p false (lwip.err p false (lwip.recv p false (lwip.arg p false e)))

  -- `if (m_callback) { m_callback->on_closed(); }`
  unfoldable pub tell_closed : Session → E → Session × E
  tell_closed s e = if s.callback then on_closed s e else (s, e)

  unfoldable pub close : Session → E → Err × Session × E
  unfolding clear_callbacks tell_closed
  close s e =
      let marked = record s { connected = false; closing = true } in
      let gone = record marked { pcb = none } in
      let e' = lwip.abort s.pcb (clear_callbacks s.pcb e) in
      if s.closing
      then (err_ok, s, e)
      else if has_pcb s
      then returning err_abrt (if s.processing then (gone, e') else tell_closed gone e')
      else returning err_ok (if s.processing then (marked, e) else tell_closed marked e)

  unfoldable pub check_send_failure : Err → Session → E → Err × Session × E
  unfolding tell_closed
  check_send_failure err s e =
      let idle = record s { processing = false } in
      if not (is_ok err)
      then (err, idle, e)
      else if s.closing || not (has_pcb s)
      then returning err_abrt (tell_closed idle e)
      else (err_ok, s, e)

  unfoldable pub flush : Session → E → Err × Session × E
  flush s e = if s.closing || not (has_pcb s) then (err_ok, s, e) else lwip.output s.pcb s e

  -- `lwip_sent` from the test of `m_callback` on.
  unfoldable pub pass_on : ℕ → Session → E → Err × Session × E
  unfolding close
  pass_on len s e =
      let (go_on, s', e') = on_sent len s e in
      if s.callback then (if go_on then (err_ok, s', e') else close s' e') else (err_ok, s, e)

  -- lwIP calls it with the session, never with `NULL`.
  unfoldable pub lwip_sent : ℕ → Session → E → Err × Session × E
  unfolding pass_on
  lwip_sent len s e =
      if s.processing
      then (err_ok, record s { sent_bytes = (s.sent_bytes + len) % 2 ^ 16 }, e)
      else pass_on ((len + s.sent_bytes) % 2 ^ 16) (record s { sent_bytes = 0 }) e

  -- `while (len > 0)` in `send`; `none` means that the fuel ran out.
  unfoldable pub write_chunks : ℕ → Session → E → Bytes → Option (SendEnd E)
  unfolding check_send_failure
  write_chunks rounds s e [] = some (written s e)
  write_chunks zero s e (b ∷ bytes) = none
  write_chunks (suc rounds) s e (b ∷ bytes) =
      let len = length (b ∷ bytes) in
      let bytes_to_send = if ltb lwip.out_content_len len then lwip.out_content_len else len in
      let (err, s', e') = lwip.write s.pcb (take bytes_to_send (b ∷ bytes)) s e in
      let (failure, s'', e'') = check_send_failure err s' e' in
      let rest = write_chunks rounds s'' e'' (drop bytes_to_send (b ∷ bytes)) in
      if is_ok failure then rest else some (stopped err s'' e'')

  -- `send` from the call of `flush` on.
  unfoldable pub finish_send : Session → E → Err × Session × E
  unfolding flush check_send_failure lwip_sent
  finish_send s e =
      let (err, s', e') = flush s e in
      let (failure, s'', e'') = check_send_failure err s' e' in
      let idle = record s'' { processing = false } in
      if not (is_ok failure)
      then (err, s'', e'')
      else if ltb 0 s''.sent_bytes
      then lwip_sent 0 idle e''
      else (err_ok, idle, e'')

  -- What `send` does when its loop has ended.
  unfoldable pub end_send : Option (SendEnd E) → Option (Err × Session × E)
  unfolding finish_send
  end_send none = none
  end_send (some (stopped err s e)) = some (err, s, e)
  end_send (some (written s e)) = some (finish_send s e)

  -- A chunk has a byte at least: as many rounds as bytes are enough.
  unfoldable pub send : Option Bytes → Session → E → Option (Err × Session × E)
  unfolding write_chunks end_send
  send none s e = some (err_val, s, e)
  send (some bytes) s e =
      if not (has_pcb s)
      then some (err_ok, s, e)
      else end_send (write_chunks (length bytes) (record s { processing = true }) e bytes)

  -- The loop of `lwip_recv` over the chain.
  unfoldable pub recv_chain : Session → E → List Pbuf → RecvEnd E
  recv_chain s e [] = received s e
  recv_chain s e (it ∷ next) =
      let (recv_status, s', e') = on_recv it.payload s e in
      let rest = recv_chain s' e' next in
      if s'.closing || not (has_pcb s')
      then closed s' e'
      else if not recv_status
      then refused s' e'
      else if it.tot_len == length it.payload
      then received s' e'
      else rest

  -- What `lwip_recv` does when its loop has ended.
  unfoldable pub end_recv : Option ℕ → Pbuf → List Pbuf → RecvEnd E → Err × Session × E
  unfolding close tell_closed
  end_recv pcb p next (closed s e) =
      returning err_abrt (tell_closed (record s { processing = false }) e)
  end_recv pcb p next (refused s e) =
      close (record s { processing = false })
        (lwip.pbuf_free (p ∷ next) (lwip.recved pcb p.tot_len e))
  end_recv pcb p next (received s e) = (
    err_ok,
    record s { processing = false },
    lwip.pbuf_free (p ∷ next) (lwip.recved pcb p.tot_len e),
  )

  -- `lwip_recv` once there is a chain, no error and a callback.
  unfoldable pub recv_data : Option ℕ → Pbuf → List Pbuf → Session → E → Err × Session × E
  unfolding recv_chain end_recv
  recv_data pcb p next s e =
      end_recv pcb p next (recv_chain (record s { processing = true }) e (p ∷ next))

  -- `lwip_recv` from `if (p == NULL)` on.
  unfoldable pub recv_from : Option ℕ → List Pbuf → Err → Session → E → Err × Session × E
  unfolding close recv_data
  recv_from pcb [] err s e = close s e
  recv_from pcb (p ∷ next) err s e =
      if not (is_ok err)
      then returning err_abrt (without_result (close s e))
      else if s.callback
      then recv_data pcb p next s e
      else (err_ok, s, lwip.pbuf_free (p ∷ next) (lwip.recved pcb p.tot_len e))

  unfoldable pub lwip_recv : Option ℕ → List Pbuf → Err → Session → E → Err × Session × E
  unfolding recv_from
  lwip_recv pcb p err s e =
      recv_from pcb p err (if is_abrt err then record s { pcb = none } else s) e

  unfoldable pub lwip_err : Session → E → Session × E
  unfolding clear_callbacks close
  lwip_err s e = without_result (close (record s { pcb = none }) (clear_callbacks s.pcb e))

  -- `connect` from `init_pcb` on.
  unfoldable pub connect_pcb : Option ℕ → (ip port : ℕ) → Session → E → Err × Session × E
  unfolding init_pcb close
  connect_pcb pcb ip port s e =
      let (err, s', e') = lwip.connect pcb ip port (record s { pcb = pcb }) (init_pcb pcb e) in
      if is_ok err then (err_ok, s', e') else close s' e'

  -- `connect` to an address, where `config` is `TLS_CLIENT_CONFIG`.
  unfoldable pub connect_ip :
      (config : Option ℕ) → Option Bytes → (ip port : ℕ) → Session → E → Err × Session × E
  unfolding connect_pcb close
  connect_ip config host ip port s e =
      let (plain, e') = lwip.new_tcp e in
      if not s.tls then connect_pcb plain ip port s e' else elim config [
        | none ↦ close s e
        | some c ↦
            let (secure, e'') = lwip.new_tls c e in
            connect_pcb secure ip port s
              (elim host [ none ↦ e'' | some name ↦ lwip.set_hostname secure name e'' ])
      ]

  -- `connect` to a host by its name.
  unfoldable pub connect_host :
      (config : Option ℕ) → Bytes → (port : ℕ) → Session → E → Err × Session × E
  unfolding connect_ip
  connect_host config host port s e =
      let started = record s { closing = false; connected = false; sent_bytes = 0; port = port } in
      let ((err, ip), s', e') = lwip.gethostbyname host started e in
      if is_ok err then connect_ip config (some host) ip port s' e' else (err, s', e')

  unfoldable pub dns_callback :
      (config : Option ℕ) → Option Bytes → (ip : Option ℕ) → Session → E → Session × E
  unfolding connect_ip tell_closed
  dns_callback config host none s e = tell_closed s e
  dns_callback config host (some ip) s e = without_result (connect_ip config host ip s.port s e)

  unfoldable pub lwip_connected : Err → Session → E → Err × Session × E
  unfolding close
  lwip_connected err s e =
      let s' = record s { connected = true } in
      if not (is_ok err)
      then close s e
      else returning err_ok (if s'.callback then on_connected s' e else (s', e))

  unfoldable pub send_buffer_size : Session → E → ℕ
  send_buffer_size s e = if has_pcb s then lwip.sndbuf s.pcb e else 0

  -- The constructor, with `NUM_SESSIONS`.
  unfoldable pub construct : Option ℕ → (tls : Bool) → ℕ → E → Session × ℕ × E
  unfolding init_pcb
  construct arg tls num_sessions e =
      let s : Session = record {
        connected = elim arg [ none ↦ false | some p ↦ true ];
        closing = false;
        processing = false;
        tls = tls;
        sent_bytes = 0;
        port = 0;
        callback = false;
        pcb = arg;
      } in
      (s, num_sessions + 1, elim arg [ none ↦ e | some p ↦ init_pcb (some p) e ])

  -- The destructor, with `NUM_SESSIONS`, which is never less than the number of sessions.
  unfoldable pub destruct : Session → ℕ → E → ℕ × E
  unfolding close
  destruct s num_sessions e =
      (num_sessions - 1, if has_pcb s then (close (record s { callback = false }) e).2 else e)

  unfoldable pub create_client_tls_config : Option ℕ → Bytes → E → Option ℕ × E
  create_client_tls_config none cert e = lwip.create_config cert e
  create_client_tls_config (some config) cert e = (some config, e)

-- `set_tls` and `set_callback`
abbrev pub set_tls : Bool → Session → Session
set_tls tls s = record s { tls = tls }

abbrev pub set_callback : (given : Bool) → Session → Session
set_callback given s = record s { callback = given }
