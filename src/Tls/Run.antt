-- ===== src/Tls/Run.antt =====
-- pico_tls/session.cpp over the life of a session: what lwIP and the owner call, in any order, and how
-- often the owner is told that the session is closed.
use pico_https.Common.{
  ℕ, ◌+◌, true, false, Option, some, List, Bytes, ◌≡◌, inl, inr, refl, ◌∙◌, sym, ap, arith,
}
use mathlib.Core.Path.{subst}
use pico_https.Common.Tests.{if◌then◌else◌}
use pico_https.Tls.State.{Err, Session, Pbuf, LwipOps, SessionCallback}
use pico_https.Tls.Session.{
  without_result, close, lwip_recv, lwip_sent, lwip_err, lwip_connected, send,
}
use pico_https.Tls.Closed.{is_open, CountsClosed}
use pico_https.Tls.Settled.{Settled, ClosesByClose, close-Settled}
use pico_https.Tls.Events.{
  lwip_recv-Settled, lwip_sent-Settled, lwip_err-Settled, lwip_connected-Settled,
}
use pico_https.Tls.Sending.{IsDoneIf, send-Settled}

-- One call: lwIP makes its calls while the session is open, since closing takes the callbacks from the
-- pcb; the owner sends while it is open, and may close at any time.
pub data Step {E : Type 0} (lwip : LwipOps E) (owner : SessionCallback E)
    : Session × E → Session × E → Type 0 where
  receives :
      (x : Session × E) (pcb : Option ℕ) (p : List Pbuf) (err : Err)
      → is_open x.0 ≡ true
      → Step lwip owner x (without_result (lwip_recv lwip owner pcb p err x.0 x.1))
  is_acknowledged :
      (x : Session × E) (len : ℕ)
      → is_open x.0 ≡ true
      → Step lwip owner x (without_result (lwip_sent lwip owner len x.0 x.1))
  fails : (x : Session × E) → is_open x.0 ≡ true → Step lwip owner x (lwip_err lwip owner x.0 x.1)
  connects :
      (x : Session × E) (err : Err)
      → is_open x.0 ≡ true
      → Step lwip owner x (without_result (lwip_connected lwip owner err x.0 x.1))
  sends :
      (x : Session × E) (bytes : Option Bytes) (r : Err × Session × E)
      → is_open x.0 ≡ true
      → send lwip owner bytes x.0 x.1 ≡ some r
      → Step lwip owner x (without_result r)
  closes_it : (x : Session × E) → Step lwip owner x (without_result (close lwip owner x.0 x.1))

pub data Reach {E : Type 0} (lwip : LwipOps E) (owner : SessionCallback E) (x : Session × E)
    : Session × E → Type 0 where
  here : Reach lwip owner x x
  next : {y z : Session × E} → Reach lwip owner x y → Step lwip owner y z → Reach lwip owner x z

module _ {E : Type 0} (lwip : LwipOps E) (owner : SessionCallback E) (closes : E → ℕ)
    (law : CountsClosed lwip owner closes) (law' : ClosesByClose lwip owner closes) where
  abbrev Holds : ℕ → Session × E → Type 0
  Holds n x = Settled closes n (x.0, x.1)

  -- An open session that is settled has not told.
  untold : (n : ℕ) (s : Session) (e : E) → is_open s ≡ true → Settled closes n (s, e) → closes e ≡ n
  untold n s e o (idle, c, inl (o', h)) = h
  untold n s e o (idle, c, inr (shut, h)) = absurd (closed_not_open s shut o)
    where
      closed_not_open : (s : Session) → s.closing ≡ true → is_open s ≡ true → ⊥
      closed_not_open s shut o = ground arith

  Step-Settled : (n : ℕ) {x y : Session × E} → Step lwip owner x y → Holds n x → Holds n y
  Step-Settled n (receives x pcb p err o) v =
      lwip_recv-Settled lwip owner closes law law' pcb p err x.0 x.1 n v.0 v.1 o
        (untold n x.0 x.1 o v)
  Step-Settled n (is_acknowledged x len o) v =
      lwip_sent-Settled lwip owner closes law law' len x.0 x.1 n v.0 v.1 o (untold n x.0 x.1 o v)
  Step-Settled n (fails x o) v =
      lwip_err-Settled lwip owner closes law law' x.0 x.1 n v.0 v.1 o (untold n x.0 x.1 o v)
  Step-Settled n (connects x err o) v =
      lwip_connected-Settled lwip owner closes law law' err x.0 x.1 n v.0 v.1 o
        (untold n x.0 x.1 o v)
  Step-Settled n (sends x bytes r o sent) v =
      subst (IsDoneIf lwip owner closes law law' n) sent
        (send-Settled lwip owner closes law law' bytes x.0 x.1 n v.0 v.1 o (untold n x.0 x.1 o v))
  Step-Settled n (closes_it x) v = close-Settled lwip owner closes law law' x.0 x.1 n v

  Reach-Settled : (n : ℕ) {x y : Session × E} → Holds n x → Reach lwip owner x y → Holds n y
  Reach-Settled n v here = v
  Reach-Settled n v (next before step) = Step-Settled n step (Reach-Settled n v before)

  -- From an open session that has a callback and is in no call of its own, after any calls of lwIP and
  -- of the owner, in any order, where lwIP calls an open session only and the owner calls `send` on an
  -- open session only; no function of lwIP closes the session or calls `on_closed`; `on_closed` leaves
  -- the session as it is; `on_recv` calls neither `send`, which would reset `m_processing`, nor
  -- `set_callback`, and closes by `close` only; and `on_sent` and `on_connected` leave the session in no
  -- call, with its callback, and open and not told, or closed and told once: `on_closed` has been called
  -- once if the session is closed, and never if it is open; and the session is in no call again.
  pub Reach-closes :
      (x y : Session × E)
      → is_open x.0 ≡ true
      → x.0.processing ≡ false
      → x.0.callback ≡ true
      → Reach lwip owner x y
      → (closes y.1 ≡ closes x.1 + (if is_open y.0 then 0 else 1)) × (y.0.processing ≡ false)
  Reach-closes x y o idle c run =
      let (idle', c', told) = Reach-Settled (closes x.1) (idle, c, inl (o, refl)) run in
      (
        elim told [
          | inl (o', h) ↦ h ∙ omega arith ∙ ap (λ b. closes x.1 + (if b then 0 else 1)) (sym o')
          | inr (shut, h) ↦
              h ∙ ap (λ b. closes x.1 + (if b then 0 else 1)) (sym (shut_not_open y.0 shut))
        ],
        idle',
      )
    where
      shut_not_open : (s : Session) → s.closing ≡ true → is_open s ≡ false
      shut_not_open s shut = ground arith
