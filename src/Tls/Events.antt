-- ===== src/Tls/Events.antt =====
-- A call from lwIP to an open session leaves it open and not told, or closed and told once.
use pico_https.Common.{
  ℕ, ◌+◌, ◌%◌, ◌^◌, true, false, not, ◌||◌, Option, none, List, [], ◌∷◌, ◌≡◌, ◌⊎◌, inl, inr, refl,
  ◌∙◌, sym, arith,
}
use mathlib.Core.Bool.{false≢true}
use mathlib.Core.Path.{subst}
use pico_https.Common.Tests.{◌==◌, if-elim}
use pico_https.Common.Lists.{length}
use pico_https.Tls.State.{
  Err, err_ok, is_ok, is_abrt, Session, Pbuf, LwipOps, SessionCallback, has_pcb,
}
use pico_https.Tls.Session.{
  RecvEnd, closed, refused, received, end_recv, returning, recv_chain, recv_data, recv_from,
  lwip_recv, lwip_sent, lwip_err, lwip_connected, pass_on, clear_callbacks,
}
use pico_https.Tls.Closed.{is_open, CountsClosed}
use pico_https.Tls.Settled.{
  Settled, Busy, ClosesByClose, tell_closed-Settled, close_first, close-Settled, open_parts,
}

abrt_not_ok : (err : Err) → is_abrt err ≡ true → is_ok err ≡ true → ⊥
abrt_not_ok err_ok abrt ok = false≢true abrt
abrt_not_ok err abrt ok = false≢true ok

module _ {E : Type 0} (lwip : LwipOps E) (owner : SessionCallback E) (closes : E → ℕ)
    (law : CountsClosed lwip owner closes) (law' : ClosesByClose lwip owner closes) where
  open law use {closes-clear, closes-recved, closes-pbuf_free, on_recv-closes}
  open law' use {on_recv-closing, on_sent-Settled, on_connected-Settled, write-Busy, output-Busy}

  abbrev pub Ends : ℕ → Err × Session × E → Type 0
  Ends n (err, s, e) = Settled closes n (s, e)

  -- How the loop of `lwip_recv` ends.
  abbrev EndsChain : ℕ → RecvEnd E → Type 0
  EndsChain n (closed s e) = (s.closing ≡ true) × (s.callback ≡ true) × (closes e ≡ n)
  EndsChain n (refused s e) = Busy closes n (s, e)
  EndsChain n (received s e) = Busy closes n (s, e)

  recv_chain-EndsChain :
      (s : Session) (e : E) (n : ℕ) (p : List Pbuf)
      → Busy closes n (s, e)
      → EndsChain n (recv_chain lwip owner s e p)
  unfolding recv_chain
  recv_chain-EndsChain s e n [] busy = busy
  recv_chain-EndsChain s e n (it ∷ next) (busy, c, o, h) =
      let (recv_status, s', e') = owner.on_recv it.payload s e in
      let (h', busy', c') = on_recv-closes it.payload s e busy c in
      let open_ = on_recv-closing it.payload s e busy o in
      if-elim (EndsChain n) (s'.closing || not (has_pcb s'))
        (λ gone. (marked s' gone open_, c', h' ∙ h))
        (λ there.
          let still : Busy closes n (s', e') = (busy', c', left_open s' there, h' ∙ h) in
          if-elim (EndsChain n) (not recv_status) (λ _. still)
            (λ _.
              if-elim (EndsChain n) (it.tot_len == length it.payload) (λ _. still)
                (λ _. recv_chain-EndsChain s' e' n next still)))
    where
      marked :
          (s' : Session)
          → (s'.closing || not (has_pcb s')) ≡ true
          → (is_open s' ≡ true) ⊎ (s'.closing ≡ true)
          → s'.closing ≡ true
      marked s' gone (inl o') = ground arith
      marked s' gone (inr shut) = shut

      left_open : (s' : Session) → (s'.closing || not (has_pcb s')) ≡ false → is_open s' ≡ true
      left_open s' there = ground arith

  recv_data-Settled :
      (pcb : Option ℕ) (p : Pbuf) (next : List Pbuf) (s : Session) (e : E) (n : ℕ)
      → s.callback ≡ true
      → is_open s ≡ true
      → closes e ≡ n
      → Ends n (recv_data lwip owner pcb p next s e)
  unfolding recv_data end_recv
  recv_data-Settled pcb p next s e n c o h =
      end_data (recv_chain lwip owner (record s { processing = true }) e (p ∷ next))
        (recv_chain-EndsChain (record s { processing = true }) e n (p ∷ next) (refl, c, o, h))
    where
      closes-freed :
          (e' : E) → closes (lwip.pbuf_free (p ∷ next) (lwip.recved pcb p.tot_len e')) ≡ closes e'
      closes-freed e' =
          closes-pbuf_free (p ∷ next) (lwip.recved pcb p.tot_len e')
          ∙ closes-recved pcb p.tot_len e'

      end_data : (r : RecvEnd E) → EndsChain n r → Ends n (end_recv lwip owner pcb p next r)
      end_data (closed s' e') (shut, c', h') =
          tell_closed-Settled lwip owner closes law law' (record s' { processing = false }) e' n
            refl c' shut h'
      end_data (refused s' e') (busy, c', o', h') =
          close_first lwip owner closes law law' (record s' { processing = false })
            (lwip.pbuf_free (p ∷ next) (lwip.recved pcb p.tot_len e')) n (open_parts s' o').1 refl
            c' (closes-freed e' ∙ h')
      end_data (received s' e') (busy, c', o', h') = (refl, c', inl (o', closes-freed e' ∙ h'))

  recv_from-Settled :
      (pcb : Option ℕ) (p : List Pbuf) (err : Err) (s : Session) (e : E) (n : ℕ)
      → s.processing ≡ false
      → s.callback ≡ true
      → s.closing ≡ false
      → (is_ok err ≡ true → is_open s ≡ true)
      → closes e ≡ n
      → Ends n (recv_from lwip owner pcb p err s e)
  unfolding recv_from
  recv_from-Settled pcb [] err s e n idle c op o h =
      close_first lwip owner closes law law' s e n op idle c h
  recv_from-Settled pcb (p ∷ next) err s e n idle c op o h =
      if-elim (Ends n) (not (is_ok err))
        (λ _. close_first lwip owner closes law law' s e n op idle c h)
        (λ fine.
          if-elim (Ends n) s.callback
            (λ _. recv_data-Settled pcb p next s e n c (o (ground (arith, fine))) h)
            (λ no. absurd (false≢true (sym no ∙ c))))

  pub lwip_recv-Settled :
      (pcb : Option ℕ) (p : List Pbuf) (err : Err) (s : Session) (e : E) (n : ℕ)
      → s.processing ≡ false
      → s.callback ≡ true
      → is_open s ≡ true
      → closes e ≡ n
      → Ends n (lwip_recv lwip owner pcb p err s e)
  unfolding lwip_recv
  lwip_recv-Settled pcb p err s e n idle c o h =
      let op = (open_parts s o).1 in
      if-elim {A = Session} (λ s'. Ends n (recv_from lwip owner pcb p err s' e)) (is_abrt err)
        (λ abrt.
          recv_from-Settled pcb p err (record s { pcb = none }) e n idle c op
            (λ ok. absurd (abrt_not_ok err abrt ok)) h)
        (λ _. recv_from-Settled pcb p err s e n idle c op (λ _. o) h)

  pass_on-Settled :
      (len : ℕ) (s : Session) (e : E) (n : ℕ)
      → s.processing ≡ false
      → s.callback ≡ true
      → is_open s ≡ true
      → closes e ≡ n
      → Ends n (pass_on lwip owner len s e)
  unfolding pass_on
  pass_on-Settled len s e n idle c o h =
      let (go_on, s', e') = owner.on_sent len s e in
      let told : Settled closes n (s', e') =
        subst (λ m. Settled closes m (s', e')) h
          (on_sent-Settled len s e o (idle, c, inl (o, refl))) in
      if-elim (Ends n) s.callback
        (λ _.
          if-elim (Ends n) go_on (λ _. told)
            (λ _. close-Settled lwip owner closes law law' s' e' n told))
        (λ no. absurd (false≢true (sym no ∙ c)))

  pub lwip_sent-Settled :
      (len : ℕ) (s : Session) (e : E) (n : ℕ)
      → s.processing ≡ false
      → s.callback ≡ true
      → is_open s ≡ true
      → closes e ≡ n
      → Ends n (lwip_sent lwip owner len s e)
  unfolding lwip_sent
  lwip_sent-Settled len s e n idle c o h =
      if-elim (Ends n) s.processing (λ busy. absurd (false≢true (sym idle ∙ busy)))
        (λ _.
          pass_on-Settled ((len + s.sent_bytes) % 2 ^ 16) (record s { sent_bytes = 0 }) e n idle c o
            h)

  pub lwip_err-Settled :
      (s : Session) (e : E) (n : ℕ)
      → s.processing ≡ false
      → s.callback ≡ true
      → is_open s ≡ true
      → closes e ≡ n
      → Settled closes n (lwip_err lwip owner s e)
  unfolding lwip_err
  lwip_err-Settled s e n idle c o h =
      close_first lwip owner closes law law' (record s { pcb = none })
        (clear_callbacks lwip owner s.pcb e) n (open_parts s o).1 idle c (closes-clear s.pcb e ∙ h)

  pub lwip_connected-Settled :
      (err : Err) (s : Session) (e : E) (n : ℕ)
      → s.processing ≡ false
      → s.callback ≡ true
      → is_open s ≡ true
      → closes e ≡ n
      → Ends n (lwip_connected lwip owner err s e)
  unfolding lwip_connected
  lwip_connected-Settled err s e n idle c o h =
      let s' = record s { connected = true } in
      if-elim (Ends n) (not (is_ok err))
        (λ _. close_first lwip owner closes law law' s e n (open_parts s o).1 idle c h)
        (λ _.
          if-elim (λ (r : Session × E). Ends n (returning err_ok r)) s.callback
            (λ _.
              subst (λ m. Settled closes m (owner.on_connected s' e)) h
                (on_connected-Settled s' e o (idle, c, inl (o, refl))))
            (λ no. absurd (false≢true (sym no ∙ c))))
