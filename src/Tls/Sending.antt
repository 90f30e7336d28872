-- ===== src/Tls/Sending.antt =====
-- `send` leaves an open session open and not told, or closed and told once.
use pico_https.Common.{
  ℕ, zero, suc, Bool, true, false, not, ◌||◌, Option, none, some, [], ◌∷◌, Bytes, ◌≡◌, inl, refl,
  sym, arith,
}
use mathlib.Core.Path.{subst}
use pico_https.Common.Tests.{ltb, if◌then◌else◌, if-elim}
use pico_https.Common.Lists.{length, take, drop}
use pico_https.Tls.State.{Err, is_ok, Session, LwipOps, SessionCallback, has_pcb}
use pico_https.Tls.Session.{
  SendEnd, stopped, written, send, write_chunks, check_send_failure, flush, finish_send, end_send,
}
use pico_https.Tls.Closed.{is_open, CountsClosed}
use pico_https.Tls.Events.{lwip_sent-Settled}
use pico_https.Tls.Settled.{Settled, Busy, ClosesByClose}

stays : (s : Session) → is_open s ≡ true → (s.closing || not (has_pcb s)) ≡ true → ⊥
stays s o gone = ground arith

module _ {E : Type 0} (lwip : LwipOps E) (owner : SessionCallback E) (closes : E → ℕ)
    (law : CountsClosed lwip owner closes) (law' : ClosesByClose lwip owner closes) where
  open law' use {write-Busy, output-Busy}

  abbrev IsDone : ℕ → Err × Session × E → Type 0
  IsDone n (err, s, e) = Settled closes n (s, e)

  -- A failure is the end of `send`; else the session is still busy.
  abbrev Checked : ℕ → Err × Session × E → Type 0
  Checked n (err, s, e) = if is_ok err then Busy closes n (s, e) else Settled closes n (s, e)

  check_send_failure-Checked :
      (err : Err) (s : Session) (e : E) (n : ℕ)
      → Busy closes n (s, e)
      → Checked n (check_send_failure lwip owner err s e)
  unfolding check_send_failure
  check_send_failure-Checked err s e n (busy, c, o, h) =
      if-elim (Checked n) (not (is_ok err))
        (λ failed.
          subst
            (λ (b : Bool).
              if b
              then Busy closes n (record s { processing = false }, e)
              else Settled closes n (record s { processing = false }, e))
            (sym (not_true (is_ok err) failed)) (refl, c, inl (o, h)))
        (λ fine.
          if-elim (Checked n) (s.closing || not (has_pcb s)) (λ gone. absurd (stays s o gone))
            (λ _. (busy, c, o, h)))
    where
      not_true : (b : Bool) → not b ≡ true → b ≡ false
      not_true true e = sym e
      not_true false e = refl

  as_Busy :
      (n : ℕ) (err : Err) (s : Session) (e : E)
      → is_ok err ≡ true
      → Checked n (err, s, e)
      → Busy closes n (s, e)
  as_Busy n err s e ok checked =
      subst (λ (b : Bool). if b then Busy closes n (s, e) else Settled closes n (s, e)) ok checked

  as_Settled :
      (n : ℕ) (err : Err) (s : Session) (e : E)
      → is_ok err ≡ false
      → Checked n (err, s, e)
      → Settled closes n (s, e)
  as_Settled n err s e failed checked =
      subst (λ (b : Bool). if b then Busy closes n (s, e) else Settled closes n (s, e)) failed
        checked

  -- How the loop of `send` ends.
  abbrev EndsLoop : ℕ → Option (SendEnd E) → Type 0
  EndsLoop n none = Unit {0}
  EndsLoop n (some (stopped err s e)) = Settled closes n (s, e)
  EndsLoop n (some (written s e)) = Busy closes n (s, e)

  write_chunks-EndsLoop :
      (rounds : ℕ) (s : Session) (e : E) (bytes : Bytes) (n : ℕ)
      → Busy closes n (s, e)
      → EndsLoop n (write_chunks lwip owner rounds s e bytes)
  unfolding write_chunks
  write_chunks-EndsLoop rounds s e [] n busy = busy
  write_chunks-EndsLoop zero s e (b ∷ bytes) n busy = tt
  write_chunks-EndsLoop (suc rounds) s e (b ∷ bytes) n (busy, c, o, h) =
      let len = length (b ∷ bytes) in
      let bytes_to_send = if ltb lwip.out_content_len len then lwip.out_content_len else len in
      let piece = take bytes_to_send (b ∷ bytes) in
      let (err, s', e') = lwip.write s.pcb piece s e in
      let wrote : Busy closes n (s', e') =
        subst (λ m. Busy closes m (s', e')) h (write-Busy s.pcb piece s e (busy, c, o, refl)) in
      let (failure, s'', e'') = check_send_failure lwip owner err s' e' in
      let checked = check_send_failure-Checked err s' e' n wrote in
      if-elim (EndsLoop n) (is_ok failure)
        (λ ok.
          write_chunks-EndsLoop rounds s'' e'' (drop bytes_to_send (b ∷ bytes)) n
            (as_Busy n failure s'' e'' ok checked))
        (λ failed. as_Settled n failure s'' e'' failed checked)

  flush-Busy :
      (s : Session) (e : E) (n : ℕ)
      → Busy closes n (s, e)
      → Busy closes n ((flush lwip owner s e).1, (flush lwip owner s e).2)
  unfolding flush
  flush-Busy s e n (busy, c, o, h) =
      if-elim (λ (r : Err × Session × E). Busy closes n (r.1, r.2)) (s.closing || not (has_pcb s))
        (λ gone. absurd (stays s o gone))
        (λ _.
          subst (λ m. Busy closes m ((lwip.output s.pcb s e).1, (lwip.output s.pcb s e).2)) h
            (output-Busy s.pcb s e (busy, c, o, refl)))

  finish_send-Settled :
      (s : Session) (e : E) (n : ℕ) → Busy closes n (s, e) → IsDone n (finish_send lwip owner s e)
  unfolding finish_send
  finish_send-Settled s e n busy =
      let (err, s', e') = flush lwip owner s e in
      let (failure, s'', e'') = check_send_failure lwip owner err s' e' in
      let checked = check_send_failure-Checked err s' e' n (flush-Busy s e n busy) in
      if-elim (IsDone n) (not (is_ok failure))
        (λ failed. as_Settled n failure s'' e'' (ground (arith, failed)) checked)
        (λ ok.
          let (_, c, o, h) = as_Busy n failure s'' e'' (ground (arith, ok)) checked in
          let idle = record s'' { processing = false } in
          if-elim (IsDone n) (ltb 0 s''.sent_bytes)
            (λ _. lwip_sent-Settled lwip owner closes law law' 0 idle e'' n refl c o h)
            (λ _. (refl, c, inl (o, h))))

  -- Of what `send` returns, if there is a result.
  abbrev pub IsDoneIf : ℕ → Option (Err × Session × E) → Type 0
  IsDoneIf n none = Unit {0}
  IsDoneIf n (some (err, s, e)) = Settled closes n (s, e)

  pub send-Settled :
      (bytes : Option Bytes) (s : Session) (e : E) (n : ℕ)
      → s.processing ≡ false
      → s.callback ≡ true
      → is_open s ≡ true
      → closes e ≡ n
      → IsDoneIf n (send lwip owner bytes s e)
  unfolding send end_send
  send-Settled none s e n idle c o h = (idle, c, inl (o, h))
  send-Settled (some bytes) s e n idle c o h =
      let begun = record s { processing = true } in
      if-elim (IsDoneIf n) (not (has_pcb s)) (λ _. (idle, c, inl (o, h)))
        (λ _.
          end_loop (write_chunks lwip owner (length bytes) begun e bytes)
            (write_chunks-EndsLoop (length bytes) begun e bytes n (refl, c, o, h)))
    where
      end_loop : (r : Option (SendEnd E)) → EndsLoop n r → IsDoneIf n (end_send lwip owner r)
      end_loop none done = tt
      end_loop (some (stopped err s' e')) done = done
      end_loop (some (written s' e')) busy = finish_send-Settled s' e' n busy
