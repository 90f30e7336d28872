-- ===== src/WebSocket/Refine.antt =====
-- `decodeData` against the byte-by-byte decoder of `Stream`: the branch `WAIT_DATA`, and the loop.
use pico_https.Common.{
  ℕ, zero, suc, ◌+◌, ◌*◌, ◌≤◌, ◌<◌, Bool, true, false, ◌≡◌, refl, ◌∙◌, inl, inr, List, [], ◌∷◌,
  ◌++◌, arith, Bytes, Option, some,
}
use pico_https.Common.Tests.{◌==◌, Bool-cases}
use pico_https.Common.Lists.{length, drop, length-drop}
use pico_https.WebSocket.{
  WebSocketState, wait_packet, wait_data, WebSocketHandler, unmask, is_data_frame, HeaderStep,
  incomplete, complete, wait_packet_step, wait_data_step, Step, return, next, decode_step,
  decode_loop, decode_data,
}
use pico_https.WebSocket.Stream.{
  Event, byte, finished, Phase, payload, refused, advance, feed, feed_all, feed_all-refused, view,
  recorder,
}
use pico_https.WebSocket.WaitPacket.{IsValid, HeaderRefines, wait_packet_step_refines}
use pico_https.WebSocket.Unmask.{unmask-cons, unmask-le, feed_all-unmask_end}
use mathlib.Core.List.{map}

-- The phase that a call leaves behind, by its result.
abbrev pub outcome : Bool → WebSocketHandler → Phase
outcome true h = view h
outcome false h = refused

-- A handler that was not refused is valid.
abbrev pub Kept : Bool → WebSocketHandler → Type 0
Kept true h = IsValid h
Kept false h = Unit {0}

-- Falls in every round.
abbrev rounds : WebSocketState → Bytes → ℕ
rounds wait_packet bytes = 2 * length bytes
rounds wait_data bytes = 2 * length bytes + 1

abbrev StepRefines : WebSocketHandler → List Event → Bytes → Step (List Event) → Type 0
StepRefines h out bytes (return r h' out') =
    (feed_all (view h) out bytes ≡ (outcome r h', out')) × Kept r h'
StepRefines h out bytes (next h' out' rest) =
    IsValid h'
    × (feed_all (view h) out bytes ≡ feed_all (view h') out' rest)
    × (rounds h'.state rest < rounds h.state bytes)

module _ (h : WebSocketHandler) (v : IsValid h) (in_data : h.state ≡ wait_data) (b : ℕ)
    (bytes : Bytes) (out : List Event) where
  open h use {operation, mask, masking_key, data_len, data_index}

  abbrev taken : Bytes
  taken = unmask mask masking_key data_len data_index (b ∷ bytes)

  index_zero : h.buffer_index ≡ 0
  index_zero = rw in_data at v.waits

  refuses : is_data_frame operation ≡ false → StepRefines h out (b ∷ bytes) (return false h out)
  unfolding feed_all feed
  refuses other = rw (in_data, other) (feed_all-refused out bytes, tt)

  module _ (is_data : is_data_frame operation ≡ true) where
    abbrev rest : Bytes
    rest = drop (length taken) (b ∷ bytes)

    moved : feed_all (payload operation mask masking_key data_len data_index) out (b ∷ bytes) ≡ (
        let (ph, out') =
          advance operation mask masking_key data_len
            (data_index + length taken)
            (out ++ map byte taken) in
        feed_all ph out' rest)
    moved =
        feed_all-unmask_end operation mask masking_key data_len is_data bytes b data_index out
          v.data_in

    ends :
        (data_index + length taken == data_len) ≡ true
        → StepRefines h out (b ∷ bytes) (
            next
              (record h { data_index = data_index + length taken; state = wait_packet })
              ((out ++ map byte taken) ++ finished ∷ [])
              rest)
    unfolding advance
    ends last = (
      record {
        buffer_size = v.buffer_size;
        index_in = v.index_in;
        data_in = ground arith;
        waits = rw index_zero;
      },
      rw (in_data, index_zero) (moved ∙ rw last),
      rw in_data (omega (arith, length-drop (length taken) (b ∷ bytes))),
    )

    inside : data_index + length taken ≤ data_len
    inside = unmask-le operation mask masking_key data_len (b ∷ bytes) data_index v.data_in

    taken-pos : data_index < data_len → 1 ≤ length taken
    taken-pos l =
        rw (unmask-cons operation mask masking_key data_len data_index b bytes l) (omega arith)

    progress :
        (data_index + length taken == data_len) ≡ false
        → 2 * length rest + 1 < 2 * length (b ∷ bytes) + 1
    progress more =
        ground (arith, length-drop (length taken) (b ∷ bytes), inside, taken-pos, v.data_in)

    goes_on :
        (data_index + length taken == data_len) ≡ false
        → StepRefines h out (b ∷ bytes) (
            next (record h { data_index = data_index + length taken }) (out ++ map byte taken) rest)
    unfolding advance
    goes_on more = (
      record {
        buffer_size = v.buffer_size;
        index_in = v.index_in;
        data_in = inside;
        waits = rw in_data index_zero;
      },
      rw in_data (moved ∙ rw more),
      rw in_data (progress more),
    )

  wait_data_step_refines : StepRefines h out (b ∷ bytes) (wait_data_step recorder h out (b ∷ bytes))
  unfolding wait_data_step
  wait_data_step_refines = elim (Bool-cases (is_data_frame operation)) [
    | inr other ↦ rw other (refuses other)
    | inl is_data ↦ rw is_data (elim (Bool-cases (data_index + length taken == data_len)) [
      | inl last ↦ rw last (ends is_data last)
      | inr more ↦ rw more (goes_on is_data more)
    ])
  ]

decode_step_refines :
    (st : WebSocketState) (h : WebSocketHandler) (out : List Event) (b : ℕ) (bytes : Bytes)
    → IsValid h
    → h.state ≡ st
    → StepRefines h out (b ∷ bytes) (decode_step recorder st h out (b ∷ bytes))
unfolding decode_step
decode_step_refines wait_data h out b bytes v e = wait_data_step_refines h v e b bytes out
decode_step_refines wait_packet h out b bytes v e =
    from_header (wait_packet_step h (b ∷ bytes)) (wait_packet_step_refines h (b ∷ bytes) v e out)
  where
    from_header :
        (s : HeaderStep)
        → HeaderRefines h (b ∷ bytes) v e out s
        → StepRefines h out
            (b ∷ bytes)
            (elim s [ incomplete h' ↦ return true h' out | complete h' rest ↦ next h' out rest ])
    from_header (incomplete h') (v', f) = (rw e f, v')
    from_header (complete h' rest) (v', data_next, shorter, f) =
        (v', rw e f, rw (e, data_next) (omega arith))

-- What `decodeData` leaves, on its result.
pub record Decodes (h : WebSocketHandler) (out : List Event) (bytes : Bytes)
    (result : Option (Bool × WebSocketHandler × List Event)) : Type 0 where
  pub accepted : Bool
  pub handler : WebSocketHandler
  pub events : List Event
  pub returns : result ≡ some (accepted, handler, events)
  pub decoded : feed_all (view h) out bytes ≡ (outcome accepted handler, events)
  pub keeps : Kept accepted handler

rounds-pos : (st : WebSocketState) (b : ℕ) (bytes : Bytes) → 0 < rounds st (b ∷ bytes)
rounds-pos wait_packet b bytes = omega arith
rounds-pos wait_data b bytes = omega arith

-- One round, and the loop on what it leaves.
after_step :
    (fuel : ℕ) (h : WebSocketHandler) (out : List Event) (bytes : Bytes) (s : Step (List Event))
    → StepRefines h out bytes s
    → rounds h.state bytes ≤ suc fuel
    → ((h' : WebSocketHandler) (out' : List Event) (rest : Bytes)
        → IsValid h'
        → rounds h'.state rest ≤ fuel
        → Decodes h' out' rest (decode_loop recorder fuel h' out' rest))
    → Decodes h out bytes (elim s [
      | return r h' out' ↦ some (r, h', out')
      | next h' out' rest ↦ decode_loop recorder fuel h' out' rest
    ])
after_step fuel h out bytes (return r h' out') (d, k) f loop = record {
  accepted = r;
  handler = h';
  events = out';
  returns = refl;
  decoded = d;
  keeps = k;
}
after_step fuel h out bytes (next h' out' rest) (v', d, m) f loop =
    let later = loop h' out' rest v' (omega arith) in
    record {
      accepted = later.accepted;
      handler = later.handler;
      events = later.events;
      returns = later.returns;
      decoded = d ∙ later.decoded;
      keeps = later.keeps;
    }

decode_loop_refines :
    (fuel : ℕ) (h : WebSocketHandler) (out : List Event) (bytes : Bytes)
    → IsValid h
    → rounds h.state bytes ≤ fuel
    → Decodes h out bytes (decode_loop recorder fuel h out bytes)
unfolding decode_loop
decode_loop_refines fuel h out [] v f = record {
  accepted = true;
  handler = h;
  events = out;
  returns = unfold decode_loop in done fuel h out;
  decoded = unfold feed_all in refl;
  keeps = v;
}
  where
    done :
        (fuel : ℕ) (h : WebSocketHandler) (out : List Event)
        → decode_loop recorder fuel h out [] ≡ some (true, h, out)
    done zero h out = refl
    done (suc fuel) h out = refl
decode_loop_refines zero h out (b ∷ bytes) v f = absurd (omega (arith, rounds-pos h.state b bytes))
decode_loop_refines (suc fuel) h out (b ∷ bytes) v f =
    after_step fuel h out (b ∷ bytes) (decode_step recorder h.state h out (b ∷ bytes))
      (decode_step_refines h.state h out b bytes v refl) f
      (λ h' out' rest. decode_loop_refines fuel h' out' rest)

rounds-le : (st : WebSocketState) (bytes : Bytes) → rounds st bytes ≤ 2 * length bytes + 1
rounds-le wait_packet bytes = omega arith
rounds-le wait_data bytes = omega arith

-- From a valid handler and on any bytes, with a callback that accepts and records everything,
-- `decodeData` returns (its loop ends); what it records and the phase that it leaves are those of
-- the byte-by-byte decoder, `false` standing for its refusal; and after `true` the handler is valid.
pub decode_data_refines :
    (h : WebSocketHandler) (out : List Event) (bytes : Bytes)
    → IsValid h
    → Decodes h out bytes (decode_data recorder h out bytes)
unfolding decode_data
decode_data_refines h out bytes v =
    decode_loop_refines (2 * length bytes + 1) h out bytes v (rounds-le h.state bytes)
