-- ===== src/Tls/Accepted.antt =====
-- What lwIP has accepted, over each step of `Session::send` but the chunks.
use pico_https.Common.{
  ℕ, ◌+◌, ◌%◌, ◌^◌, ◌≤◌, ◌<◌, false, not, ◌||◌, Option, [], ◌++◌, Bytes, ◌≡◌, refl, ◌∙◌, sym, ap,
  append-nil,
}
use pico_https.Common.Tests.{ltb, if◌then◌else◌, if-elim}
use pico_https.Common.Lists.{length}
use pico_https.Tls.State.{Err, is_ok, Session, LwipOps, SessionCallback, has_pcb, is_connected}
use pico_https.Tls.Session.{
  tell_closed, close, check_send_failure, flush, lwip_sent, pass_on, finish_send, clear_callbacks,
}

-- `sent` is what `altcp_write` has accepted. It takes a piece of at most the size of a TLS record, or
-- reports an error; no other call takes bytes back, and the owner does not connect again from within
-- `on_closed`.
pub record IsStream {E : Type 0} (lwip : LwipOps E) (owner : SessionCallback E) (sent : E → Bytes)
    : Type 0 where
  pub content : 0 < lwip.out_content_len
  pub sent-write :
      (p : Option ℕ) (bytes : Bytes) (s : Session) (e : E)
      → length bytes ≤ lwip.out_content_len
      → sent (lwip.write p bytes s e).2
        ≡ (if is_ok (lwip.write p bytes s e).0 then sent e ++ bytes else sent e)
  pub sent-output : (p : Option ℕ) (s : Session) (e : E) → sent (lwip.output p s e).2 ≡ sent e
  pub sent-abort : (p : Option ℕ) (e : E) → sent (lwip.abort p e) ≡ sent e
  pub sent-clear : (p : Option ℕ) (e : E) → sent (clear_callbacks lwip owner p e) ≡ sent e
  pub sent-on_closed : (s : Session) (e : E) → sent (owner.on_closed s e).1 ≡ sent e
  pub sent-on_sent :
      (len : ℕ) (s : Session) (e : E)
      → (more : Bytes) × (sent (owner.on_sent len s e).2 ≡ sent e ++ more)
  pub closed_stays :
      (s : Session) (e : E) → is_connected s ≡ false → is_connected (owner.on_closed s e).0 ≡ false

module _ {E : Type 0} (lwip : LwipOps E) (owner : SessionCallback E) (sent : E → Bytes)
    (law : IsStream lwip owner sent) where
  open law use {
    content, sent-write, sent-output, sent-abort, sent-clear, sent-on_closed, sent-on_sent,
    closed_stays,
  }

  abbrev KeepsPair : E → Session × E → Type 0
  KeepsPair e r = sent r.1 ≡ sent e

  abbrev Keeps : E → Err × Session × E → Type 0
  Keeps e r = sent r.2 ≡ sent e

  abbrev Extends : E → Err × Session × E → Type 0
  Extends e r = (more : Bytes) × (sent r.2 ≡ sent e ++ more)

  abbrev Gone : Session × E → Type 0
  Gone r = is_connected r.0 ≡ false

  sent-tell_closed : (s : Session) (e : E) → KeepsPair e (tell_closed lwip owner s e)
  unfolding tell_closed
  sent-tell_closed s e = if-elim (KeepsPair e) s.callback (λ _. sent-on_closed s e) (λ _. refl)

  pub tell_closed-Gone :
      (s : Session) (e : E) → is_connected s ≡ false → Gone (tell_closed lwip owner s e)
  unfolding tell_closed
  tell_closed-Gone s e gone = if-elim Gone s.callback (λ _. closed_stays s e gone) (λ _. gone)

  sent-close : (s : Session) (e : E) → Keeps e (close lwip owner s e)
  unfolding close
  sent-close s e =
      let aborted = sent-abort s.pcb (clear_callbacks lwip owner s.pcb e) ∙ sent-clear s.pcb e in
      if-elim (Keeps e) s.closing (λ _. refl)
        (λ _.
          if-elim (Keeps e) (has_pcb s)
            (λ _.
              if-elim (KeepsPair e) s.processing (λ _. aborted)
                (λ _. sent-tell_closed _ _ ∙ aborted))
            (λ _. if-elim (KeepsPair e) s.processing (λ _. refl) (λ _. sent-tell_closed _ e)))

  pub sent-check_send_failure :
      (err : Err) (s : Session) (e : E) → Keeps e (check_send_failure lwip owner err s e)
  unfolding check_send_failure
  sent-check_send_failure err s e =
      if-elim (Keeps e) (not (is_ok err)) (λ _. refl)
        (λ _.
          if-elim (Keeps e) (s.closing || not (has_pcb s))
            (λ _. sent-tell_closed (record s { processing = false }) e) (λ _. refl))

  same : {e : E} {b : Bytes} → b ≡ sent e → (more : Bytes) × (b ≡ sent e ++ more)
  same h = ([], h ∙ sym (append-nil _))

  sent-lwip_sent : (len : ℕ) (s : Session) (e : E) → Extends e (lwip_sent lwip owner len s e)
  unfolding lwip_sent pass_on
  sent-lwip_sent len s e =
      let total = (len + s.sent_bytes) % 2 ^ 16 in
      let start = record s { sent_bytes = 0 } in
      let (more, m) = sent-on_sent total start e in
      if-elim (Extends e) s.processing (λ _. same refl)
        (λ _.
          if-elim (Extends e) s.callback
            (λ _.
              if-elim (Extends e) (owner.on_sent total start e).0 (λ _. (more, m))
                (λ _. (more, sent-close _ _ ∙ m)))
            (λ _. same refl))

  sent-flush : (s : Session) (e : E) → sent (flush lwip owner s e).2 ≡ sent e
  unfolding flush
  sent-flush s e =
      if-elim (Keeps e) (s.closing || not (has_pcb s)) (λ _. refl) (λ _. sent-output s.pcb s e)

  pub sent-finish_send : (s : Session) (e : E) → Extends e (finish_send lwip owner s e)
  unfolding finish_send
  sent-finish_send s e =
      let (err, s', e') = flush lwip owner s e in
      let (failure, s'', e'') = check_send_failure lwip owner err s' e' in
      let checked = sent-check_send_failure err s' e' ∙ sent-flush s e in
      let idle = record s'' { processing = false } in
      if-elim (Extends e) (not (is_ok failure)) (λ _. same checked)
        (λ _.
          if-elim (Extends e) (ltb 0 s''.sent_bytes)
            (λ _.
              let (more, m) = sent-lwip_sent 0 idle e'' in (more, m ∙ ap (λ b. b ++ more) checked))
            (λ _. same checked))
