-- ===== src/WebSocket/Chunks.antt =====
-- How the bytes are split over calls of `decodeData` makes no difference.
use pico_https.Common.{Bool, true, false, ◌≡◌, refl, sym, ◌∙◌, ap, List, ◌++◌, Bytes, some}
use mathlib.Core.Path.{subst}
use mathlib.Core.Option.{some-injective}
use pico_https.WebSocket.{WebSocketState, wait_packet, wait_data, WebSocketHandler, decode_data}
use pico_https.WebSocket.Stream.{
  Event, Phase, refused, phase_of, view, recorder, feed_all, feed_all-append, feed_all-refused,
}
use pico_https.WebSocket.WaitPacket.{IsValid}
use pico_https.WebSocket.Refine.{outcome, Kept, decode_data_refines}

abbrev is_refused : Phase → Bool
is_refused refused = true
is_refused _ = false

accepted_phase : (st : WebSocketState) (h : WebSocketHandler) → is_refused (phase_of st h) ≡ false
accepted_phase wait_packet h = refl
accepted_phase wait_data h = refl

-- A phase that a handler stands for is not that of a refusal.
outcome_result : (r r' : Bool) (h h' : WebSocketHandler) → outcome r h ≡ outcome r' h' → r ≡ r'
outcome_result true true h h' e = refl
outcome_result false false h h' e = refl
outcome_result true false h h' e = cc (ap is_refused e, accepted_phase h.state h)
outcome_result false true h h' e = cc (ap is_refused e, accepted_phase h'.state h')

-- `decode_data_refines`, at a result that is known.
decoded_of :
    (h : WebSocketHandler) (out : List Event) (bytes : Bytes) {r : Bool} {h1 : WebSocketHandler}
    {out1 : List Event}
    → IsValid h
    → decode_data recorder h out bytes ≡ some (r, h1, out1)
    → (feed_all (view h) out bytes ≡ (outcome r h1, out1)) × Kept r h1
decoded_of h out bytes {r} {h1} {out1} v e =
    let d = decode_data_refines h out bytes v in
    let same : ◌≡◌ {A = Bool × WebSocketHandler × List Event} (d.accepted, d.handler, d.events)
        (r, h1, out1) =
      some-injective _ _ (sym d.returns ∙ e) in
    (
      subst (λ t. feed_all (view h) out bytes ≡ (outcome t.0 t.1, t.2)) same d.decoded,
      subst (λ t. Kept t.0 t.1) same d.keeps,
    )

-- After a call that accepted `xs`, a call on `ys` and one call on both from the start return the
-- same result and record the same events, and where that result is `true` they leave the decoder
-- in the same phase.
pub decode_data-append :
    (h h1 : WebSocketHandler) (out out1 : List Event) (xs ys : Bytes)
    → IsValid h
    → decode_data recorder h out xs ≡ some (true, h1, out1)
    → (r : Bool) × (h2 h' : WebSocketHandler) × (events : List Event) × (decode_data recorder h1
          out1 ys
        ≡ some (r, h2, events))
      × (decode_data recorder h out (xs ++ ys) ≡ some (r, h', events))
      × (outcome r h2 ≡ outcome r h')
decode_data-append h h1 out out1 xs ys v e =
    let (first, keeps) = decoded_of h out xs v e in
    let second = decode_data_refines h1 out1 ys keeps in
    let both = decode_data_refines h out (xs ++ ys) v in
    let same : (outcome second.accepted second.handler, second.events)
        ≡ (outcome both.accepted both.handler, both.events) =
      sym second.decoded ∙ sym (feed_all-append (view h) out xs ys ∙ rw first) ∙ both.decoded in
    let phases = ap (λ p. p.0) same in
    let r = outcome_result second.accepted both.accepted second.handler both.handler phases in
    (
      second.accepted,
      second.handler,
      both.handler,
      second.events,
      second.returns,
      both.returns ∙ rw (r, ap (λ p. p.1) same),
      phases ∙ ap (λ b. outcome b both.handler) (sym r),
    )

-- What one call refuses, a call on more bytes refuses too, with the same events.
pub decode_data-append_refused :
    (h h1 : WebSocketHandler) (out out1 : List Event) (xs ys : Bytes)
    → IsValid h
    → decode_data recorder h out xs ≡ some (false, h1, out1)
    → (h' : WebSocketHandler) × (decode_data recorder h out (xs ++ ys) ≡ some (false, h', out1))
decode_data-append_refused h h1 out out1 xs ys v e =
    let (first, _) = decoded_of h out xs v e in
    let both = decode_data_refines h out (xs ++ ys) v in
    let same : (refused, out1) ≡ (outcome both.accepted both.handler, both.events) =
      sym (feed_all-append (view h) out xs ys ∙ rw first (feed_all-refused out1 ys))
      ∙ both.decoded in
    let r = outcome_result false both.accepted h1 both.handler (ap (λ p. p.0) same) in
    (both.handler, both.returns ∙ rw (← r, ← ap (λ p. p.1) same))
