-- ===== src/Mqtt/Returns.antt =====
-- When the loop of `decode_data` ends.
use pico_https.Common.{
  ℕ, zero, suc, ◌+◌, ◌-◌, ◌*◌, ◌≤◌, ◌<◌, Bool, true, false, ◌≡◌, refl, ◌⊎◌, inl, inr, List, [], ◌∷◌,
  ◌++◌, Bytes, Option, some, arith,
}
use pico_https.Common.Tests.{ltb, ◌==◌, if◌then◌else◌, Bool-cases}
use pico_https.Common.Lists.{length, length-drop}
use pico_https.Mqtt.Handler.{MqttSocketHandler, SocketState, wait_packet, wait_data, Callback}
use pico_https.Mqtt.Receive.{
  Decoded, buffer_bytes, decode_header, decode_publish_data, decode_round, decode_rounds,
  decode_data,
}
use pico_https.Mqtt.Rounds.{Ends, Wraps, drop_all, decode_header-Ends}

-- Falls in every round that does not run out of bytes.
abbrev weight : SocketState → ℕ → Bytes → ℕ
weight wait_packet idx bytes = 3 * length bytes + (if idx == 0 then 0 else 2)
weight wait_data idx bytes = 3 * length bytes + (if idx == 0 then 1 else 3)

abbrev Falls : SocketState → MqttSocketHandler → Bytes → Decoded → Type 0
Falls st h bytes d =
    (d.ok ≡ false)
    ⊎ (d.rest ≡ [])
    ⊎ (weight d.handler.state d.handler.recv_buffer_idx d.rest < weight st h.recv_buffer_idx bytes)

weight-le :
    (st : SocketState) (idx : ℕ) (bytes : Bytes)
    → idx ≡ 0
    → weight st idx bytes ≤ 3 * length bytes + 1
weight-le wait_packet idx bytes e = ground arith
weight-le wait_data idx bytes e = ground arith

Falls-of_Ends :
    (h : MqttSocketHandler) (bytes : Bytes) (d : Decoded)
    → Ends h.recv_buffer_idx bytes d
    → Falls wait_packet h bytes d
Falls-of_Ends h bytes d (inl no_) = inl no_
Falls-of_Ends h bytes d (inr (inl dry)) = inr (inl dry)
Falls-of_Ends h bytes d (inr (inr (z, taken, le))) =
    inr (inr (ground (arith, weight-le d.handler.state d.handler.recv_buffer_idx d.rest z)))

decode_publish_data-Falls :
    (h : MqttSocketHandler) (b : ℕ) (bytes : Bytes)
    → Falls wait_data h (b ∷ bytes) (decode_publish_data h (b ∷ bytes))
unfolding decode_publish_data
decode_publish_data-Falls h b bytes =
    elim (Bool-cases (ltb (length (b ∷ bytes)) h.pending_data_len)) [
      | inl all ↦ rw all (inr (inl (drop_all (b ∷ bytes))))
      | inr last ↦
          let none_left : h.pending_data_len - h.pending_data_len ≡ 0 = omega arith in
          rw (last, none_left)
            (inr (inr (ground (arith, length-drop h.pending_data_len (b ∷ bytes)))))
    ]

-- A message whose size wraps is met in some round.
pub data MeetsWrap : MqttSocketHandler → Bytes → Type 0 where
  now :
      {h : MqttSocketHandler} {bytes : Bytes}
      → h.state ≡ wait_packet
      → Wraps (buffer_bytes h bytes)
      → MeetsWrap h bytes
  later :
      {h : MqttSocketHandler} {bytes : Bytes}
      → (decode_round h.state h bytes).ok ≡ true
      → MeetsWrap (decode_round h.state h bytes).handler (decode_round h.state h bytes).rest
      → MeetsWrap h bytes

round_cases :
    (st : SocketState) (h : MqttSocketHandler) (b : ℕ) (bytes : Bytes)
    → h.state ≡ st
    → Falls st h (b ∷ bytes) (decode_round st h (b ∷ bytes)) ⊎ MeetsWrap h (b ∷ bytes)
unfolding decode_round
round_cases wait_data h b bytes e = inl (decode_publish_data-Falls h b bytes)
round_cases wait_packet h b bytes e = elim (decode_header-Ends h (b ∷ bytes)) [
  | inl ends ↦ inl (Falls-of_Ends h (b ∷ bytes) (decode_header h (b ∷ bytes)) ends)
  | inr wraps ↦ inr (now e wraps)
]

-- What the loop gives, or why it gives nothing.
abbrev pub ReturnsOrMeetsWrap :
    MqttSocketHandler → Bytes → Option (Bool × MqttSocketHandler × List Callback) → Type 0
ReturnsOrMeetsWrap h bytes result =
    ((r : Bool × MqttSocketHandler × List Callback) × (result ≡ some r)) ⊎ MeetsWrap h bytes

pub decode_rounds_dry :
    (fuel : ℕ) (h : MqttSocketHandler) (bytes : Bytes) (calls : List Callback)
    → bytes ≡ []
    → decode_rounds fuel h bytes calls ≡ some (true, h, calls)
unfolding decode_rounds
decode_rounds_dry zero h [] calls e = refl
decode_rounds_dry (suc fuel) h [] calls e = refl
decode_rounds_dry fuel h (b ∷ bytes) calls e = cc

weight-pos : (st : SocketState) (idx b : ℕ) (bytes : Bytes) → 0 < weight st idx (b ∷ bytes)
weight-pos wait_packet idx b bytes = omega arith
weight-pos wait_data idx b bytes = omega arith

decode_rounds-returns :
    (fuel : ℕ) (h : MqttSocketHandler) (bytes : Bytes) (calls : List Callback)
    → weight h.state h.recv_buffer_idx bytes ≤ fuel
    → ReturnsOrMeetsWrap h bytes (decode_rounds fuel h bytes calls)
decode_rounds-returns fuel h [] calls w = inl (_, decode_rounds_dry fuel h [] calls refl)
decode_rounds-returns zero h (b ∷ bytes) calls w =
    absurd (omega (arith, weight-pos h.state h.recv_buffer_idx b bytes))
decode_rounds-returns (suc fuel) h (b ∷ bytes) calls w = elim (Bool-cases d.ok) [
  | inr no_ ↦ inl ((false, d.handler, calls ++ d.calls), unfold decode_rounds in rw no_)
  | inl ok ↦ elim (round_cases h.state h b bytes refl) [
    | inr wraps ↦ inr wraps
    | inl (inl no_) ↦ cc
    | inl (inr (inl dry)) ↦ inl (
      (true, d.handler, calls ++ d.calls),
      unfold decode_rounds in
          rw ok (decode_rounds_dry fuel d.handler d.rest (calls ++ d.calls) dry),
    )
    | inl (inr (inr falls)) ↦
        elim (decode_rounds-returns fuel d.handler d.rest (calls ++ d.calls) (omega arith)) [
          | inl (r, e) ↦ inl (r, unfold decode_rounds in rw ok e)
          | inr meets ↦ inr (later ok meets)
        ]
  ]
]
  where
    d : Decoded
    d = decode_round h.state h (b ∷ bytes)

weight-le_fuel :
    (st : SocketState) (idx : ℕ) (bytes : Bytes) → weight st idx bytes ≤ 3 * length bytes + 3
weight-le_fuel wait_packet idx bytes = ground arith
weight-le_fuel wait_data idx bytes = ground arith

-- From every state and on any bytes, `decode_data` returns, or some round meets a message whose
-- size, the remaining length with its header, does not fit 32 bits.
pub decode_data-returns :
    (h : MqttSocketHandler) (bytes : Bytes) → ReturnsOrMeetsWrap h bytes (decode_data h bytes)
unfolding decode_data
decode_data-returns h bytes =
    decode_rounds-returns (3 * length bytes + 3) h bytes []
      (weight-le_fuel h.state h.recv_buffer_idx bytes)
