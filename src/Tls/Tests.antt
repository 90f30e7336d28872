-- ===== src/Tls/Tests.antt =====
-- Runs of a session on an lwIP that accepts everything and keeps it.
use pico_https.Common.{
  ℕ, ◌+◌, ◌&&◌, ◌⊎◌, true, false, not, none, some, List, [], ◌∷◌, ◌++◌, Bytes, ◌≡◌, inl, refl, sym,
  append-nil, arith,
}
use pico_https.Common.Tests.{◌==◌, if◌then◌else◌}
use pico_https.Common.Lists.{take, get_or}
use pico_https.Tls.State.{is_ok, is_connected}
use pico_https.Tls.State.{Err, err_ok, err_abrt, Session, Pbuf, LwipOps, SessionCallback}
use pico_https.Tls.Session.{
  tell_closed, close, check_send_failure, flush, lwip_sent, write_chunks, finish_send, end_send,
  send, clear_callbacks, without_result, recv_chain, end_recv, recv_data, recv_from, lwip_recv,
  dns_callback,
}
use pico_https.Tls.Accepted.{IsStream}
use pico_https.Tls.Send.{send-prefix, send_complete}
use pico_https.Tls.Closed.{CountsClosed, ToldOnce, lwip_recv-ToldOnce}
use pico_https.Tls.Closed.{is_open}
use pico_https.Tls.Settled.{ClosesByClose}
use pico_https.Tls.Run.{Reach, here, next, receives, sends, closes_it, Reach-closes}
use pico_https.Tls.Acknowledged.{notify, notify-lwip_sent}
use pico_https.Tls.Lookup.{Leaks, dns_callback-Leaks}
use pico_https.Tls.State.{err_use}
use pico_https.Tls.Listener.{
  ListenOps, closed_listener, failed, not_bound, bind_and_listen, listen, listen_tls, listen-listen,
}

-- What was written, and how often `on_closed` was called.
abbrev World : Type 0
World = Bytes × ℕ

abbrev keeping : LwipOps World
keeping = record {
  out_content_len = 2;
  setprio = λ p e. e;
  nagle_disable = λ p e. e;
  arg = λ p b e. e;
  recv = λ p b e. e;
  err = λ p b e. e;
  sent = λ p b e. e;
  abort = λ p e. e;
  sndbuf = λ p e. 100;
  recved = λ p n e. e;
  pbuf_free = λ p e. e;
  new_tcp = λ e. (some 7, e);
  new_tls = λ c e. (some 7, e);
  set_hostname = λ p h e. e;
  create_config = λ c e. (some 1, e);
  write = λ p bytes s e. (err_ok, s, (e.0 ++ bytes, e.1));
  output = λ p s e. (err_ok, s, e);
  connect = λ p ip port s e. (err_ok, s, e);
  gethostbyname = λ h s e. ((err_ok, 1), s, e);
}

-- It refuses data that starts with a zero byte.
abbrev counting : SessionCallback World
counting = record {
  on_sent = λ len s e. (true, s, e);
  on_recv = λ bytes s e. (not (get_or bytes 0 1 == 0), s, e);
  on_closed = λ s e. (s, (e.0, e.1 + 1));
  on_connected = λ s e. (s, e);
}

abbrev started : Session
started = record {
  connected = true;
  closing = false;
  processing = false;
  tls = false;
  sent_bytes = 0;
  port = 80;
  callback = true;
  pcb = some 7;
}

keeping-IsStream : IsStream keeping counting (λ e. e.0)
unfolding clear_callbacks
keeping-IsStream = record {
  content = omega arith;
  sent-write = λ p bytes s e l. refl;
  sent-output = λ p s e. refl;
  sent-abort = λ p e. refl;
  sent-clear = λ p e. refl;
  sent-on_closed = λ s e. refl;
  sent-on_sent = λ len s e. ([], sym (append-nil _));
  closed_stays = λ s e gone. gone;
}

keeping-CountsClosed : CountsClosed keeping counting (λ e. e.1)
unfolding clear_callbacks
keeping-CountsClosed = record {
  closes-on_closed = λ s e. refl;
  on_closed_keeps = λ s e. refl;
  closes-abort = λ p e. refl;
  closes-clear = λ p e. refl;
  closes-recved = λ p n e. refl;
  closes-pbuf_free = λ p e. refl;
  on_recv-closes = λ bytes s e busy c. (refl, busy, c);
}

send-prefix_example :
    (r : Err × Session × World) × (send keeping counting (some (1 ∷ 2 ∷ 3 ∷ [])) started ([], 0)
      ≡ some r)
    × (((k : ℕ) × (r.2.0 ≡ [] ++ take k (1 ∷ 2 ∷ 3 ∷ [])) × (is_ok r.0 && is_connected r.1 ≡ false))
        ⊎ ((more : Bytes) × (r.2.0 ≡ [] ++ ((1 ∷ 2 ∷ 3 ∷ []) ++ more))))
send-prefix_example =
    send-prefix keeping counting (λ e. e.0) keeping-IsStream (1 ∷ 2 ∷ 3 ∷ []) started ([], 0) refl

send_three :
    send keeping counting (some (1 ∷ 2 ∷ 3 ∷ [])) started ([], 0)
    ≡ some (err_ok, started, (1 ∷ 2 ∷ 3 ∷ [], 0))
unfolding send write_chunks check_send_failure end_send finish_send flush
send_three = refl

send_complete_example : (more : Bytes) × ((1 ∷ 2 ∷ 3 ∷ []) ≡ [] ++ ((1 ∷ 2 ∷ 3 ∷ []) ++ more))
send_complete_example =
    send_complete keeping counting (λ e. e.0) keeping-IsStream (1 ∷ 2 ∷ 3 ∷ []) started ([], 0)
      started (1 ∷ 2 ∷ 3 ∷ [], 0) refl send_three refl

abbrev two_pieces : List Pbuf
two_pieces =
    record { payload = 5 ∷ []; tot_len = 2 } ∷ record { payload = 0 ∷ []; tot_len = 1 } ∷ []

lwip_recv-ToldOnce_example :
    ToldOnce (λ e. e.1) 0 (lwip_recv keeping counting (some 7) two_pieces err_ok started ([], 0))
lwip_recv-ToldOnce_example =
    lwip_recv-ToldOnce keeping counting (λ e. e.1) keeping-CountsClosed (some 7) two_pieces err_ok
      started ([], 0) refl refl refl refl

lwip_recv_refused :
    lwip_recv keeping counting (some 7) two_pieces err_ok started ([], 0)
    ≡ (err_abrt, record started { connected = false; closing = true; pcb = none }, ([], 1))
unfolding lwip_recv recv_from recv_data recv_chain end_recv close tell_closed clear_callbacks
lwip_recv_refused = refl

keeping-ClosesByClose : ClosesByClose keeping counting (λ e. e.1)
keeping-ClosesByClose = record {
  on_recv-closing = λ bytes s e busy o. inl o;
  on_sent-Settled = λ len s e o v. v;
  on_connected-Settled = λ s e o v. v;
  write-Busy = λ pcb bytes s e busy. busy;
  output-Busy = λ pcb s e busy. busy;
}

-- Three bytes are sent, data is refused, and the owner closes once more.
abbrev when_sent : Session × World
when_sent = (started, (1 ∷ 2 ∷ 3 ∷ [], 0))

abbrev when_refused : Session × World
when_refused =
    without_result (lwip_recv keeping counting (some 7) two_pieces err_ok when_sent.0 when_sent.1)

abbrev at_end : Session × World
at_end = without_result (close keeping counting when_refused.0 when_refused.1)

three_calls : Reach keeping counting (started, ([], 0)) at_end
three_calls =
    next
      (next
        (next here (
          sends (started, ([], 0)) (some (1 ∷ 2 ∷ 3 ∷ [])) (err_ok, started, (1 ∷ 2 ∷ 3 ∷ [], 0))
            refl send_three))
        (receives when_sent (some 7) two_pieces err_ok refl))
      (closes_it when_refused)

closed_at_end : (is_open at_end.0 ≡ false) × (at_end.1.1 ≡ 1)
unfolding lwip_recv recv_from recv_data recv_chain end_recv close tell_closed clear_callbacks
closed_at_end = (refl, refl)

Reach-closes_example :
    (at_end.1.1 ≡ 0 + (if is_open at_end.0 then 0 else 1)) × (at_end.0.processing ≡ false)
Reach-closes_example =
    Reach-closes keeping counting (λ e. e.1) keeping-CountsClosed keeping-ClosesByClose
      (started, ([], 0)) at_end refl refl refl three_calls

notify-lwip_sent_example :
    lwip_sent keeping counting 3
      (record (notify keeping counting
        (1 ∷ 2 ∷ [])
        (record started { processing = true })
        ([], 0)).0 { processing = false })
      (notify keeping counting (1 ∷ 2 ∷ []) (record started { processing = true }) ([], 0)).1
    ≡ lwip_sent keeping counting 6 started ([], 0)
notify-lwip_sent_example =
    notify-lwip_sent keeping counting (1 ∷ 2 ∷ []) 3 (record started { processing = true }) ([], 0)
      refl (omega arith)

dns_callback-Leaks_example : Leaks keeping counting (
    dns_callback keeping counting none none
      (some 1)
      (record started { closing = true; connected = false; pcb = none })
      ([], 0))
dns_callback-Leaks_example =
    dns_callback-Leaks keeping counting none none 7 1
      (record started { closing = true; connected = false; pcb = none }) ([], 0) refl refl refl
      (λ s e. (refl, refl))

-- Every port is taken.
abbrev no_port : ListenOps ℕ
no_port = record {
  create_config = λ e. (some 1, e);
  configure_alpn = λ c e. e;
  new_tcp = λ e. (some e, e + 1);
  new_tls = λ c e. (some e, e + 1);
  setprio = λ p e. e;
  bind = λ p port e. (err_use, e);
  listen_pcb = λ p e. (p, e);
  arg = λ p e. e;
  accept = λ p e. e;
  create_session = λ f p tls e. e;
}

listen-listen_example :
    (let (r, l', e') = listen no_port 80 5 closed_listener 7 in
      listen no_port 8080 5 l' e' ≡ (failed, l', e'))
    × (let (r, l', e') = listen_tls no_port 80 5 closed_listener 7 in
        listen_tls no_port 8080 5 l' e' ≡ (failed, l', e'))
listen-listen_example = listen-listen no_port 80 5 8080 5 closed_listener 7

port_taken : (listen no_port 80 5 closed_listener 7).0 ≡ not_bound err_use
unfolding listen bind_and_listen
port_taken = refl
