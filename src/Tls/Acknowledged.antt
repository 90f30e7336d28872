-- ===== src/Tls/Acknowledged.antt =====
-- The notifications of `lwip_sent` that come in while `m_processing` is set.
use pico_https.Common.{
  ℕ, ◌+◌, ◌%◌, ◌^◌, ◌<◌, true, false, List, [], ◌∷◌, ◌≡◌, refl, ◌∙◌, sym, ap, arith,
}
use mathlib.Core.Bool.{false≢true}
use pico_https.Common.Tests.{if-elim}
use pico_https.Tls.State.{Err, err_ok, Session, LwipOps, SessionCallback}
use pico_https.Tls.Session.{pass_on, lwip_sent}

abbrev pub sum : List ℕ → ℕ
sum [] = 0
sum (n ∷ ns) = n + sum ns

module _ {E : Type 0} (lwip : LwipOps E) (owner : SessionCallback E) where
  -- The session and the rest after a notification for each of the lengths.
  unfoldable pub notify : List ℕ → Session → E → Session × E
  unfolding lwip_sent
  notify [] s e = (s, e)
  notify (len ∷ lens) s e = let (err, s', e') = lwip_sent lwip owner len s e in notify lens s' e'

  abbrev held : Session → ℕ → Session
  held s n = record s { sent_bytes = n % 2 ^ 16 }

  lwip_sent-held :
      (len : ℕ) (s : Session) (e : E)
      → s.processing ≡ true
      → lwip_sent lwip owner len s e ≡ (err_ok, held s (s.sent_bytes + len), e)
  unfolding lwip_sent
  lwip_sent-held len s e busy =
      if-elim {A = Err × Session × E} (λ r. r ≡ (err_ok, held s (s.sent_bytes + len), e))
        s.processing (λ _. refl) (λ idle. absurd (false≢true (sym idle ∙ busy)))

  notify-held :
      (lens : List ℕ) (s : Session) (e : E)
      → s.processing ≡ true
      → s.sent_bytes < 2 ^ 16
      → notify lens s e ≡ (held s (s.sent_bytes + sum lens), e)
  unfolding notify
  notify-held [] s e busy small =
      let same : s.sent_bytes ≡ (s.sent_bytes + 0) % 2 ^ 16 = omega arith in
      ap (λ n. (record s { sent_bytes = n }, e)) same
  notify-held (len ∷ lens) s e busy small =
      let s' = held s (s.sent_bytes + len) in
      let total : (s'.sent_bytes + sum lens) % 2 ^ 16 ≡ (s.sent_bytes + (len + sum lens)) % 2 ^ 16 =
        omega arith in
      ap (λ (r : Err × Session × E). notify lens r.1 r.2) (lwip_sent-held len s e busy)
      ∙ notify-held lens s' e busy (omega arith)
      ∙ ap (λ n. (record s { sent_bytes = n }, e)) total

  lwip_sent-idle :
      (len : ℕ) (s : Session) (e : E)
      → s.processing ≡ false
      → lwip_sent lwip owner len s e
        ≡ pass_on lwip owner ((len + s.sent_bytes) % 2 ^ 16) (record s { sent_bytes = 0 }) e
  unfolding lwip_sent
  lwip_sent-idle len s e idle =
      let passed =
        pass_on lwip owner ((len + s.sent_bytes) % 2 ^ 16) (record s { sent_bytes = 0 }) e in
      if-elim {A = Err × Session × E} (λ r. r ≡ passed) s.processing
        (λ busy. absurd (false≢true (sym idle ∙ busy))) (λ _. refl)

-- Notifications that come in while `m_processing` is set are held back: the first one after that is
-- passed on as one notification of all the bytes together, modulo 2 ^ 16, and has the result of it.
pub notify-lwip_sent :
    {E : Type 0} (lwip : LwipOps E) (owner : SessionCallback E) (lens : List ℕ) (len : ℕ)
    (s : Session) (e : E)
    → s.processing ≡ true
    → s.sent_bytes < 2 ^ 16
    → (let (s', e') = notify lwip owner lens s e in
        lwip_sent lwip owner len (record s' { processing = false }) e'
        ≡ lwip_sent lwip owner
            (s.sent_bytes + sum lens + len)
            (record s { processing = false; sent_bytes = 0 })
            e)
notify-lwip_sent lwip owner lens len s e busy small =
    let idle = record s { processing = false; sent_bytes = 0 } in
    let before = held lwip owner s (s.sent_bytes + sum lens) in
    let total : (len + (s.sent_bytes + sum lens) % 2 ^ 16) % 2 ^ 16
        ≡ (s.sent_bytes + sum lens + len + 0) % 2 ^ 16 =
      omega arith in
    ap (λ (r : Session × _). lwip_sent lwip owner len (record r.0 { processing = false }) r.1)
      (notify-held lwip owner lens s e busy small)
    ∙ lwip_sent-idle lwip owner len (record before { processing = false }) e refl
    ∙ ap (λ n. pass_on lwip owner n idle e) total
    ∙ sym (lwip_sent-idle lwip owner (s.sent_bytes + sum lens + len) idle e refl)
