-- ===== src/Tls/Closed.antt =====
-- How often `on_closed` is called, and what lwIP is told, when data, the end of the data or an error
-- comes in.
use pico_https.Common.{
  ℕ, ◌+◌, Bool, true, false, not, ◌&&◌, ◌||◌, Option, none, List, [], ◌∷◌, Bytes, ◌≡◌, refl, ◌∙◌,
  sym, ap, arith,
}
use mathlib.Core.Bool.{false≢true}
use pico_https.Common.Tests.{◌==◌, if◌then◌else◌, if-elim}
use pico_https.Common.Lists.{length}
use pico_https.Tls.State.{
  Err, err_ok, err_abrt, is_ok, is_abrt, Session, Pbuf, LwipOps, SessionCallback, has_pcb,
}
use pico_https.Tls.Session.{
  RecvEnd, closed, refused, received, end_recv, returning, without_result, tell_closed, close,
  recv_chain, recv_data, recv_from, lwip_recv, clear_callbacks,
}

-- Whether the session still has a connection to hand out data for.
abbrev pub is_open : Session → Bool
is_open s = has_pcb s && not s.closing

-- `closes` is how often `on_closed` was called. Calls of lwIP do not call it from within these
-- functions, nor does `on_closed` itself, and `on_recv` closes the session at most by `close`, while
-- `m_processing` and `m_callback` stay as they are.
pub record CountsClosed {E : Type 0} (lwip : LwipOps E) (owner : SessionCallback E) (closes : E → ℕ)
    : Type 0 where
  pub closes-on_closed : (s : Session) (e : E) → closes (owner.on_closed s e).1 ≡ closes e + 1
  pub on_closed_keeps : (s : Session) (e : E) → (owner.on_closed s e).0 ≡ s
  pub closes-abort : (p : Option ℕ) (e : E) → closes (lwip.abort p e) ≡ closes e
  pub closes-clear : (p : Option ℕ) (e : E) → closes (clear_callbacks lwip owner p e) ≡ closes e
  pub closes-recved : (p : Option ℕ) (n : ℕ) (e : E) → closes (lwip.recved p n e) ≡ closes e
  pub closes-pbuf_free : (p : List Pbuf) (e : E) → closes (lwip.pbuf_free p e) ≡ closes e
  pub on_recv-closes :
      (bytes : Bytes) (s : Session) (e : E)
      → s.processing ≡ true
      → s.callback ≡ true
      → (closes (owner.on_recv bytes s e).2 ≡ closes e)
        × ((owner.on_recv bytes s e).1.processing ≡ true)
        × ((owner.on_recv bytes s e).1.callback ≡ true)

-- A call from lwIP that found `n` calls of `on_closed` before it: what it returns, and how many there
-- are then, go by whether the session is still open.
abbrev pub ToldOnce : {E : Type 0} → (E → ℕ) → ℕ → Err × Session × E → Type 0
ToldOnce closes n (r, s, e) =
    (r ≡ (if is_open s then err_ok else err_abrt)) × (closes e ≡ n + (if is_open s then 0 else 1))

module _ {E : Type 0} (lwip : LwipOps E) (owner : SessionCallback E) (closes : E → ℕ)
    (law : CountsClosed lwip owner closes) where
  open law use {
    closes-on_closed, on_closed_keeps, closes-abort, closes-clear, closes-recved, closes-pbuf_free,
    on_recv-closes,
  }

  abbrev Told : ℕ → Session × E → Type 0
  Told n (s, e) = (is_open s ≡ false) × (closes e ≡ n + 1)

  tell_closed-Told :
      (s : Session) (e : E) (n : ℕ)
      → s.callback ≡ true
      → is_open s ≡ false
      → closes e ≡ n
      → Told n (tell_closed lwip owner s e)
  unfolding tell_closed
  tell_closed-Told s e n c shut h =
      if-elim (Told n) s.callback
        (λ _. (
          ap (λ s'. is_open s') (on_closed_keeps s e) ∙ shut,
          closes-on_closed s e ∙ ap (λ m. m + 1) h,
        ))
        (λ no. absurd (false≢true (sym no ∙ c)))

  abbrev Aborted : ℕ → Err × Session × E → Type 0
  Aborted n (r, s, e) = (r ≡ err_abrt) × Told n (s, e)

  close-Aborted :
      (s : Session) (e : E) (n : ℕ)
      → has_pcb s ≡ true
      → s.closing ≡ false
      → s.processing ≡ false
      → s.callback ≡ true
      → closes e ≡ n
      → Aborted n (close lwip owner s e)
  unfolding close
  close-Aborted s e n has op idle c h =
      let gone = record s { connected = false; closing = true; pcb = none } in
      let e' = lwip.abort s.pcb (clear_callbacks lwip owner s.pcb e) in
      let aborted =
        closes-abort s.pcb (clear_callbacks lwip owner s.pcb e) ∙ closes-clear s.pcb e in
      if-elim (Aborted n) s.closing (λ shut. absurd (false≢true (sym op ∙ shut)))
        (λ _.
          if-elim (Aborted n) (has_pcb s)
            (λ _.
              if-elim (λ (r : Session × E). Aborted n (returning err_abrt r)) s.processing
                (λ busy. absurd (false≢true (sym idle ∙ busy)))
                (λ _. (refl, tell_closed-Told gone e' n c refl (aborted ∙ h))))
            (λ left. absurd (false≢true (sym left ∙ has))))

  Aborted-ToldOnce : (n : ℕ) (r : Err × Session × E) → Aborted n r → ToldOnce closes n r
  Aborted-ToldOnce n (r, s, e) (a, (shut, h)) = (
    a ∙ sym (ap (λ b. if b then err_ok else err_abrt) shut),
    h ∙ ap (λ b. n + (if b then 0 else 1)) (sym shut),
  )

  -- How the loop over the chain ends.
  abbrev AfterChain : ℕ → RecvEnd E → Type 0
  AfterChain n (closed s e) = (is_open s ≡ false) × (s.callback ≡ true) × (closes e ≡ n)
  AfterChain n (refused s e) = (is_open s ≡ true) × (s.callback ≡ true) × (closes e ≡ n)
  AfterChain n (received s e) = (is_open s ≡ true) × (s.callback ≡ true) × (closes e ≡ n)

  recv_chain-AfterChain :
      (s : Session) (e : E) (n : ℕ) (p : List Pbuf)
      → is_open s ≡ true
      → s.processing ≡ true
      → s.callback ≡ true
      → closes e ≡ n
      → AfterChain n (recv_chain lwip owner s e p)
  unfolding recv_chain
  recv_chain-AfterChain s e n [] o busy c h = (o, c, h)
  recv_chain-AfterChain s e n (it ∷ next) o busy c h =
      let (recv_status, s', e') = owner.on_recv it.payload s e in
      let (h', busy', c') = on_recv-closes it.payload s e busy c in
      if-elim (AfterChain n) (s'.closing || not (has_pcb s')) (λ gone. (shut s' gone, c', h' ∙ h))
        (λ there.
          if-elim (AfterChain n) (not recv_status) (λ _. (still s' there, c', h' ∙ h))
            (λ _.
              if-elim (AfterChain n) (it.tot_len == length it.payload)
                (λ _. (still s' there, c', h' ∙ h))
                (λ _. recv_chain-AfterChain s' e' n next (still s' there) busy' c' (h' ∙ h))))
    where
      shut : (s' : Session) → (s'.closing || not (has_pcb s')) ≡ true → is_open s' ≡ false
      shut s' gone = ground arith

      still : (s' : Session) → (s'.closing || not (has_pcb s')) ≡ false → is_open s' ≡ true
      still s' there = ground arith

  open_parts : (s : Session) → is_open s ≡ true → (has_pcb s ≡ true) × (s.closing ≡ false)
  open_parts s o = ground arith

  recv_data-ToldOnce :
      (pcb : Option ℕ) (p : Pbuf) (next : List Pbuf) (s : Session) (e : E)
      → is_open s ≡ true
      → s.callback ≡ true
      → ToldOnce closes (closes e) (recv_data lwip owner pcb p next s e)
  unfolding recv_data end_recv
  recv_data-ToldOnce pcb p next s e o c =
      end_data (recv_chain lwip owner (record s { processing = true }) e (p ∷ next)) (
        recv_chain-AfterChain (record s { processing = true }) e (closes e) (p ∷ next) o refl c
          refl)
    where
      freed : (e' : E) → E
      freed e' = lwip.pbuf_free (p ∷ next) (lwip.recved pcb p.tot_len e')

      closes-freed : (e' : E) → closes (freed e') ≡ closes e'
      closes-freed e' =
          closes-pbuf_free (p ∷ next) (lwip.recved pcb p.tot_len e')
          ∙ closes-recved pcb p.tot_len e'

      end_data :
          (r : RecvEnd E)
          → AfterChain (closes e) r
          → ToldOnce closes (closes e) (end_recv lwip owner pcb p next r)
      end_data (closed s' e') (shut, c', h) =
          let idle = record s' { processing = false } in
          Aborted-ToldOnce (closes e) (returning err_abrt (tell_closed lwip owner idle e'))
            (refl, tell_closed-Told idle e' (closes e) c' shut h)
      end_data (refused s' e') (o', c', h) =
          let (has, op) = open_parts s' o' in
          let idle = record s' { processing = false } in
          Aborted-ToldOnce (closes e) (close lwip owner idle (freed e'))
            (close-Aborted idle (freed e') (closes e) has op refl c' (closes-freed e' ∙ h))
      end_data (received s' e') (o', c', h) = (
        sym (ap (λ b. if b then err_ok else err_abrt) o'),
        closes-freed e' ∙ h ∙ omega arith ∙ ap (λ b. closes e + (if b then 0 else 1)) (sym o'),
      )

  recv_from-ToldOnce :
      (pcb : Option ℕ) (p : List Pbuf) (err : Err) (s : Session) (e : E)
      → is_open s ≡ true
      → s.processing ≡ false
      → s.callback ≡ true
      → ToldOnce closes (closes e) (recv_from lwip owner pcb p err s e)
  unfolding recv_from
  recv_from-ToldOnce pcb [] err s e o idle c =
      let (has, op) = open_parts s o in
      Aborted-ToldOnce (closes e) (close lwip owner s e)
        (close-Aborted s e (closes e) has op idle c refl)
  recv_from-ToldOnce pcb (p ∷ next) err s e o idle c =
      let (has, op) = open_parts s o in
      if-elim (ToldOnce closes (closes e)) (not (is_ok err))
        (λ _.
          Aborted-ToldOnce (closes e) (returning err_abrt (without_result (close lwip owner s e)))
            (refl, (close-Aborted s e (closes e) has op idle c refl).1))
        (λ _.
          if-elim (ToldOnce closes (closes e)) s.callback
            (λ _. recv_data-ToldOnce pcb p next s e o c) (λ no. absurd (false≢true (sym no ∙ c))))

-- For a session that is open, has a callback and is not in a call of `on_recv` or `send`, and
-- for data, the end of the data (`p` is `NULL`) or any error but `ERR_ABRT`, where `on_recv` closes the
-- session by `close` only and leaves `m_processing` set, `lwip_recv` calls `on_closed` once if the
-- session is closed when it returns, and then it returns `ERR_ABRT`; else it calls it never and
-- returns `ERR_OK`.
pub lwip_recv-ToldOnce :
    {E : Type 0} (lwip : LwipOps E) (owner : SessionCallback E) (closes : E → ℕ)
    → CountsClosed lwip owner closes
    → (pcb : Option ℕ) (p : List Pbuf) (err : Err) (s : Session) (e : E) → is_open s ≡ true
    → s.processing ≡ false
    → s.callback ≡ true
    → is_abrt err ≡ false
    → ToldOnce closes (closes e) (lwip_recv lwip owner pcb p err s e)
unfolding lwip_recv
lwip_recv-ToldOnce lwip owner closes law pcb p err s e o idle c fine =
    if-elim {A = Session} (λ s'. ToldOnce closes (closes e) (recv_from lwip owner pcb p err s' e))
      (is_abrt err) (λ abrt. absurd (false≢true (sym fine ∙ abrt)))
      (λ _. recv_from-ToldOnce lwip owner closes law pcb p err s e o idle c)
