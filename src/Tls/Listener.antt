-- ===== src/Tls/Listener.antt =====
-- pico_tls/listener.cpp and tls_listener.cpp: sockets that make a session of each connection. `none` is
-- `NULL`; a factory and a pcb are known by a number.
use pico_https.Common.{ℕ, Bool, true, false, not, Option, none, some, ◌≡◌, refl, ◌∙◌, sym}
use mathlib.Core.Bool.{false≢true}
use pico_https.Common.Tests.{if◌then◌else◌, if-elim}
use pico_https.Tls.State.{Err, err_ok, err_val, is_ok}

pub record Listener : Type 0 where
  pub session_factory : Option ℕ
  pub conf : Option ℕ
  pub bind_pcb : Option ℕ
  pub listen_pcb : Option ℕ

-- What `listen` returns: 0, -1, or an error of lwIP.
pub data Outcome : Type 0 where
  listening failed : Outcome
  not_bound : Err → Outcome

-- lwIP, and the factories.
pub record ListenOps (E : Type 0) : Type 0 where
  pub create_config : E → Option ℕ × E
  pub configure_alpn : Option ℕ → E → E
  pub new_tcp : E → Option ℕ × E
  pub new_tls : Option ℕ → E → Option ℕ × E
  pub setprio : Option ℕ → E → E
  pub bind : Option ℕ → (port : ℕ) → E → Err × E
  pub listen_pcb : Option ℕ → E → Option ℕ × E
  pub arg : Option ℕ → E → E
  pub accept : Option ℕ → E → E
  pub create_session : (factory pcb : ℕ) → (tls : Bool) → E → E

abbrev pub closed_listener : Listener
closed_listener = record { session_factory = none; conf = none; bind_pcb = none; listen_pcb = none }

-- `m_session_factory != NULL`
abbrev pub is_used : Listener → Bool
is_used l = elim l.session_factory [ none ↦ false | some f ↦ true ]

module _ {E : Type 0} (ops : ListenOps E) where
  -- What follows `altcp_listen`.
  unfoldable pub end_listen : Option ℕ → Listener → E → Outcome × Listener × E
  end_listen none l e = (failed, record l { listen_pcb = none }, e)
  end_listen (some p) l e =
      (listening, record l { listen_pcb = some p }, ops.accept (some p) (ops.arg (some p) e))

  -- `listen` from the call of `altcp_setprio` on.
  unfoldable pub bind_and_listen : ℕ → Listener → E → Outcome × Listener × E
  unfolding end_listen
  bind_and_listen port l e =
      let (err, e') = ops.bind l.bind_pcb port (ops.setprio l.bind_pcb e) in
      let (pcb, e'') = ops.listen_pcb l.bind_pcb e' in
      if not (is_ok err) then (not_bound err, l, e') else end_listen pcb l e''

  -- `Listener::listen`
  unfoldable pub listen : ℕ → (factory : ℕ) → Listener → E → Outcome × Listener × E
  unfolding bind_and_listen
  listen port factory l e =
      let (pcb, e') = ops.new_tcp e in
      if is_used l
      then (failed, l, e)
      else bind_and_listen port (record l { session_factory = some factory; bind_pcb = pcb }) e'

  -- `TLSListener::listen`
  unfoldable pub listen_tls : ℕ → (factory : ℕ) → Listener → E → Outcome × Listener × E
  unfolding bind_and_listen
  listen_tls port factory l e =
      let (conf, e') = ops.create_config e in
      let (pcb, e'') = ops.new_tls conf (ops.configure_alpn conf e') in
      if is_used l
      then (failed, l, e)
      else bind_and_listen port
          (record l { session_factory = some factory; conf = conf; bind_pcb = pcb }) e''

  -- `http_accept` of either; a pcb comes in only once there is a factory.
  unfoldable pub http_accept : (tls : Bool) → Option ℕ → Err → Listener → E → Err × E
  http_accept tls none err l e = (err_val, e)
  http_accept tls (some p) err l e =
      if not (is_ok err) then (err_val, e) else elim l.session_factory [
        | none ↦ (err_ok, e)
        | some f ↦ (err_ok, ops.create_session f p tls e)
      ]

  abbrev Used : Outcome × Listener × E → Type 0
  Used r = is_used r.1 ≡ true

  end_listen-Used :
      (pcb : Option ℕ) (l : Listener) (e : E) → is_used l ≡ true → Used (end_listen pcb l e)
  unfolding end_listen
  end_listen-Used none l e u = u
  end_listen-Used (some p) l e u = u

  bind_and_listen-Used :
      (port : ℕ) (l : Listener) (e : E) → is_used l ≡ true → Used (bind_and_listen port l e)
  unfolding bind_and_listen
  bind_and_listen-Used port l e u =
      let (err, e') = ops.bind l.bind_pcb port (ops.setprio l.bind_pcb e) in
      let (pcb, e'') = ops.listen_pcb l.bind_pcb e' in
      if-elim Used (not (is_ok err)) (λ _. u) (λ _. end_listen-Used pcb l e'' u)

  listen-Used : (port f : ℕ) (l : Listener) (e : E) → Used (listen port f l e)
  unfolding listen
  listen-Used port f l e =
      let (pcb, e') = ops.new_tcp e in
      if-elim Used (is_used l) (λ u. u)
        (λ _.
          bind_and_listen-Used port (record l { session_factory = some f; bind_pcb = pcb }) e' refl)

  listen_tls-Used : (port f : ℕ) (l : Listener) (e : E) → Used (listen_tls port f l e)
  unfolding listen_tls
  listen_tls-Used port f l e =
      let (conf, e') = ops.create_config e in
      let (pcb, e'') = ops.new_tls conf (ops.configure_alpn conf e') in
      if-elim Used (is_used l) (λ u. u)
        (λ _.
          bind_and_listen-Used port
            (record l { session_factory = some f; conf = conf; bind_pcb = pcb }) e'' refl)

  listen_again :
      (port f : ℕ) (l : Listener) (e : E)
      → is_used l ≡ true
      → (listen port f l e ≡ (failed, l, e)) × (listen_tls port f l e ≡ (failed, l, e))
  unfolding listen listen_tls
  listen_again port f l e u =
      let Refused = λ (r : Outcome × Listener × E). r ≡ (failed, l, e) in
      (
        if-elim Refused (is_used l) (λ _. refl) (λ free. absurd (false≢true (sym free ∙ u))),
        if-elim Refused (is_used l) (λ _. refl) (λ free. absurd (false≢true (sym free ∙ u))),
      )

-- A listener, TCP or TLS, is used once: after a call of `listen`, whether it succeeded or not, another
-- call returns -1 and changes nothing, also where the first one did not get its port.
pub listen-listen :
    {E : Type 0} (ops : ListenOps E) (port f port' f' : ℕ) (l : Listener) (e : E)
    → (let (r, l', e') = listen ops port f l e in listen ops port' f' l' e' ≡ (failed, l', e'))
      × (let (r, l', e') = listen_tls ops port f l e in
          listen_tls ops port' f' l' e' ≡ (failed, l', e'))
listen-listen ops port f port' f' l e =
    let (r, l1, e1) = listen ops port f l e in
    let (r', l2, e2) = listen_tls ops port f l e in
    (
      (listen_again ops port' f' l1 e1 (listen-Used ops port f l e)).0,
      (listen_again ops port' f' l2 e2 (listen_tls-Used ops port f l e)).1,
    )
