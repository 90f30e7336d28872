-- ===== src/Tls/Settled.antt =====
-- What a call leaves of a session: open and not told, or closed and told once.
use pico_https.Common.{
  ℕ, ◌+◌, true, false, Option, none, Bytes, ◌≡◌, ◌⊎◌, inl, inr, refl, ◌∙◌, sym, ap, arith,
}
use mathlib.Core.Bool.{false≢true}
use mathlib.Core.Path.{subst}
use pico_https.Common.Tests.{if-elim}
use pico_https.Tls.State.{Err, err_ok, err_abrt, Session, LwipOps, SessionCallback, has_pcb}
use pico_https.Tls.Session.{returning, tell_closed, close, clear_callbacks}
use pico_https.Tls.Closed.{is_open, CountsClosed}

pub open_parts : (s : Session) → is_open s ≡ true → (has_pcb s ≡ true) × (s.closing ≡ false)
open_parts s o = ground arith

-- Between two calls, when `on_closed` had been called `n` times before: the session is open and has not
-- told, or it has been closed and has told once.
abbrev pub Settled : {E : Type 0} → (E → ℕ) → ℕ → Session × E → Type 0
Settled closes n (s, e) =
    (s.processing ≡ false)
    × (s.callback ≡ true)
    × (((is_open s ≡ true) × (closes e ≡ n)) ⊎ ((s.closing ≡ true) × (closes e ≡ n + 1)))

-- In a call of `send` or `on_recv`, open.
abbrev pub Busy : {E : Type 0} → (E → ℕ) → ℕ → Session × E → Type 0
Busy closes n (s, e) =
    (s.processing ≡ true) × (s.callback ≡ true) × (is_open s ≡ true) × (closes e ≡ n)

-- The owner closes a session only by `close`: `on_sent` and `on_connected` leave it settled, and a
-- session that `on_recv` has closed is marked. lwIP does not close it from within a write.
pub record ClosesByClose {E : Type 0} (lwip : LwipOps E) (owner : SessionCallback E)
    (closes : E → ℕ) : Type 0 where
  pub on_recv-closing :
      (bytes : Bytes) (s : Session) (e : E)
      → s.processing ≡ true
      → is_open s ≡ true
      → (is_open (owner.on_recv bytes s e).1 ≡ true) ⊎ ((owner.on_recv bytes s e).1.closing ≡ true)
  pub on_sent-Settled :
      (len : ℕ) (s : Session) (e : E)
      → is_open s ≡ true
      → Settled closes (closes e) (s, e)
      → Settled closes (closes e) ((owner.on_sent len s e).1, (owner.on_sent len s e).2)
  pub on_connected-Settled :
      (s : Session) (e : E)
      → is_open s ≡ true
      → Settled closes (closes e) (s, e)
      → Settled closes (closes e) (owner.on_connected s e)
  pub write-Busy :
      (pcb : Option ℕ) (bytes : Bytes) (s : Session) (e : E)
      → Busy closes (closes e) (s, e)
      → Busy closes (closes e) ((lwip.write pcb bytes s e).1, (lwip.write pcb bytes s e).2)
  pub output-Busy :
      (pcb : Option ℕ) (s : Session) (e : E)
      → Busy closes (closes e) (s, e)
      → Busy closes (closes e) ((lwip.output pcb s e).1, (lwip.output pcb s e).2)

module _ {E : Type 0} (lwip : LwipOps E) (owner : SessionCallback E) (closes : E → ℕ)
    (law : CountsClosed lwip owner closes) (law' : ClosesByClose lwip owner closes) where
  open law use {
    closes-on_closed, on_closed_keeps, closes-abort, closes-clear, closes-recved, closes-pbuf_free,
    on_recv-closes,
  }
  open law' use {on_recv-closing, on_sent-Settled, on_connected-Settled, write-Busy, output-Busy}

  abbrev pub IsSettled : ℕ → Session × E → Type 0
  IsSettled n (s, e) = Settled closes n (s, e)

  abbrev pub EndsSettled : ℕ → Err × Session × E → Type 0
  EndsSettled n (err, s, e) = Settled closes n (s, e)

  pub tell_closed-Settled :
      (s : Session) (e : E) (n : ℕ)
      → s.processing ≡ false
      → s.callback ≡ true
      → s.closing ≡ true
      → closes e ≡ n
      → IsSettled n (tell_closed lwip owner s e)
  unfolding tell_closed
  tell_closed-Settled s e n idle c shut h =
      if-elim (IsSettled n) s.callback
        (λ _.
          let same = on_closed_keeps s e in
          (
            ap (λ s'. s'.processing) same ∙ idle,
            ap (λ s'. s'.callback) same ∙ c,
            inr (ap (λ s'. s'.closing) same ∙ shut, closes-on_closed s e ∙ ap (λ m. m + 1) h),
          ))
        (λ no. absurd (false≢true (sym no ∙ c)))

  -- A close that comes first.
  pub close_first :
      (s : Session) (e : E) (n : ℕ)
      → s.closing ≡ false
      → s.processing ≡ false
      → s.callback ≡ true
      → closes e ≡ n
      → EndsSettled n (close lwip owner s e)
  unfolding close
  close_first s e n op idle c h =
      let marked = record s { connected = false; closing = true } in
      let e' = lwip.abort s.pcb (clear_callbacks lwip owner s.pcb e) in
      let aborted =
        closes-abort s.pcb (clear_callbacks lwip owner s.pcb e) ∙ closes-clear s.pcb e in
      let busy = λ (b : s.processing ≡ true). false≢true (sym idle ∙ b) in
      if-elim (EndsSettled n) s.closing (λ shut. absurd (false≢true (sym op ∙ shut)))
        (λ _.
          if-elim (EndsSettled n) (has_pcb s)
            (λ _.
              if-elim (λ (r : Session × E). EndsSettled n (returning err_abrt r)) s.processing
                (λ b. absurd (busy b))
                (λ _.
                  tell_closed-Settled (record marked { pcb = none }) e' n idle c refl
                    (aborted ∙ h)))
            (λ _.
              if-elim (λ (r : Session × E). EndsSettled n (returning err_ok r)) s.processing
                (λ b. absurd (busy b)) (λ _. tell_closed-Settled marked e n idle c refl h)))

  close_again : (s : Session) (e : E) → s.closing ≡ true → (close lwip owner s e) ≡ (err_ok, s, e)
  unfolding close
  close_again s e shut =
      if-elim (λ (r : Err × Session × E). r ≡ (err_ok, s, e)) s.closing (λ _. refl)
        (λ op. absurd (false≢true (sym op ∙ shut)))

  pub close-Settled :
      (s : Session) (e : E) (n : ℕ) → IsSettled n (s, e) → EndsSettled n (close lwip owner s e)
  close-Settled s e n (idle, c, inl (o, h)) = close_first s e n (open_parts s o).1 idle c h
  close-Settled s e n (idle, c, inr (shut, h)) =
      subst (EndsSettled n) (sym (close_again s e shut)) (idle, c, inr (shut, h))
