-- ===== src/Tls/Lookup.antt =====
-- A name lookup that ends after the session was closed.
use pico_https.Common.{ℕ, true, false, not, Option, some, Bytes, ◌≡◌, refl, ◌∙◌, sym, ap, arith}
use mathlib.Core.Path.{subst}
use mathlib.Core.Bool.{false≢true}
use pico_https.Common.Tests.{if-elim}
use pico_https.Tls.State.{
  Err, err_ok, is_ok, Session, LwipOps, SessionCallback, has_pcb, is_connected,
}
use pico_https.Tls.Session.{without_result, close, init_pcb, connect_pcb, connect_ip, dns_callback}

-- A session that holds a pcb that it will never give back: `close` and the destructor do nothing.
abbrev pub Leaks : {E : Type 0} → LwipOps E → SessionCallback E → Session × E → Type 0
Leaks lwip owner (s, e) =
    (has_pcb s ≡ true) × (is_connected s ≡ false) × (close lwip owner s e ≡ (err_ok, s, e))

module _ {E : Type 0} (lwip : LwipOps E) (owner : SessionCallback E) where
  closing-Leaks :
      (s : Session) (e : E) → s.closing ≡ true → has_pcb s ≡ true → Leaks lwip owner (s, e)
  unfolding close
  closing-Leaks s e c has = (
    has,
    ground arith,
    if-elim {A = Err × Session × E} (λ r. r ≡ (err_ok, s, e)) s.closing (λ _. refl)
        (λ open_. absurd (false≢true (sym open_ ∙ c))),
  )

  connect_pcb-Leaks :
      (p ip port : ℕ) (s : Session) (e : E)
      → ((s' : Session) (e' : E)
          → (is_ok (lwip.connect (some p) ip port s' e').0 ≡ true)
            × ((lwip.connect (some p) ip port s' e').1 ≡ s'))
      → s.closing ≡ true
      → Leaks lwip owner (without_result (connect_pcb lwip owner (some p) ip port s e))
  unfolding connect_pcb
  connect_pcb-Leaks p ip port s e starts c =
      let start = record s { pcb = some p } in
      let (err, s', e') = lwip.connect (some p) ip port start (init_pcb lwip owner (some p) e) in
      let (ok, same) = starts start (init_pcb lwip owner (some p) e) in
      if-elim {A = Err × Session × E} (λ r. Leaks lwip owner (without_result r)) (is_ok err)
        (λ _. closing-Leaks s' e' (ap (λ x. x.closing) same ∙ c) (ap (λ x. has_pcb x) same))
        (λ bad. absurd (false≢true (sym bad ∙ ok)))

-- A TCP session that was closed while the name of its host was looked up: when the address comes, and
-- lwIP makes a pcb and starts to connect it, the session has this pcb, is not connected, and `close`
-- returns `ERR_OK` and changes nothing, so the pcb stays.
pub dns_callback-Leaks :
    {E : Type 0} (lwip : LwipOps E) (owner : SessionCallback E) (config : Option ℕ)
    (host : Option Bytes) (p ip : ℕ) (s : Session) (e : E)
    → s.closing ≡ true
    → s.tls ≡ false
    → (lwip.new_tcp e).0 ≡ some p
    → ((s' : Session) (e' : E)
        → (is_ok (lwip.connect (some p) ip s.port s' e').0 ≡ true)
          × ((lwip.connect (some p) ip s.port s' e').1 ≡ s'))
    → Leaks lwip owner (dns_callback lwip owner config host (some ip) s e)
unfolding dns_callback connect_ip
dns_callback-Leaks lwip owner config host p ip s e c plain made starts =
    let Goal = λ (r : Err × Session × _). Leaks lwip owner (without_result r) in
    if-elim Goal (not s.tls)
      (λ _.
        subst (λ q. Goal (connect_pcb lwip owner q ip s.port s (lwip.new_tcp e).1)) (sym made)
          (connect_pcb-Leaks lwip owner p ip s.port s (lwip.new_tcp e).1 starts c))
      (λ tls. absurd (false≢true (sym tls ∙ ap not plain)))
