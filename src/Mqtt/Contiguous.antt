-- ===== src/Mqtt/Contiguous.antt =====
-- While the data of a published message is sent, no other packet gets between its bytes.
use pico_https.Common.{
  ℕ, ◌+◌, ◌-◌, ◌<◌, Bool, true, false, ◌≡◌, ◌⊎◌, inl, inr, refl, ◌∙◌, ap, sym, List, [], ◌∷◌, ◌++◌,
  append_assoc, append-nil, Bytes, arith,
}
use pico_https.Common.Tests.{ltb, ◌==◌, if◌then◌else◌, Bool-cases, ltb-false→le}
use pico_https.Common.Lists.{length, length-append}
use pico_https.Mqtt.Handler.{MqttSocketHandler}
use pico_https.Mqtt.Send.{
  send_ping, send_publish_data, send_publish_header, send_subscribe, write_header, length_bytes,
}
use pico_https.Mqtt.RoundTrip.{wire}

-- What the owner and the keepalive may ask for, each at a time.
pub data Request : Type 0 where
  subscribe : (now_us : ℕ) → Bytes → Request
  publish_header : (now_us : ℕ) → Bytes → (message_length : ℕ) → Request
  publish_data : (now_us : ℕ) → Bytes → Request
  ping : (now_us : ℕ) → Request

abbrev pub perform :
    (answer : Bool) → Request → MqttSocketHandler → Bytes → MqttSocketHandler × Bytes
perform answer (subscribe now_us topic) h sent =
    let (ok, h', sent') = send_subscribe (wire answer) now_us topic h sent in (h', sent')
perform answer (publish_header now_us topic n) h sent =
    let ((ok, h', sent'), id) = send_publish_header (wire answer) now_us topic n h sent in
    (h', sent')
perform answer (publish_data now_us bytes) h sent =
    let (ok, h', sent') = send_publish_data (wire answer) now_us bytes h sent in (h', sent')
perform answer (ping now_us) h sent =
    let (ok, h', sent') = send_ping (wire answer) now_us h sent in (h', sent')

-- Requests until no data is pending.
abbrev pub run_message :
    (answer : Bool) → List Request → MqttSocketHandler → Bytes → MqttSocketHandler × Bytes
run_message answer [] h sent = (h, sent)
run_message answer (r ∷ rs) h sent =
    let (h', sent') = perform answer r h sent in
    let rest = run_message answer rs h' sent' in
    if h'.pending_send_data_len == 0 then (h', sent') else rest

-- The data that `n` bytes of a message take from the requests: pieces that are not too long, until
-- all are there.
abbrev pub data_of : ℕ → List Request → Bytes
data_of n [] = []
data_of n (publish_data now_us bytes ∷ rs) =
    let rest = data_of (n - length bytes) rs in
    let refused = data_of n rs in
    if ltb n (length bytes) then refused else if n - length bytes == 0 then bytes else bytes ++ rest
data_of n (subscribe now_us topic ∷ rs) = data_of n rs
data_of n (publish_header now_us topic m ∷ rs) = data_of n rs
data_of n (ping now_us ∷ rs) = data_of n rs

-- `sent'` is `sent` and the data, with a ping behind it at most if the message is whole and `answer` is
-- true; `n` counts the data and what is pending after it.
abbrev pub Contiguous : (answer : Bool) → ℕ → Bytes → Bytes → MqttSocketHandler × Bytes → Type 0
Contiguous answer n sent bytes (h', sent') =
    ((sent' ≡ sent ++ bytes)
      ⊎ ((sent' ≡ (sent ++ bytes) ++ (0xC0 ∷ 0x00 ∷ []))
          × (h'.pending_send_data_len ≡ 0)
          × (answer ≡ true)))
    × (length bytes + h'.pending_send_data_len ≡ n)

refused_subscribe :
    (answer : Bool) (now_us : ℕ) (topic : Bytes) (h : MqttSocketHandler) (sent : Bytes)
    → 0 < h.pending_send_data_len
    → perform answer (subscribe now_us topic) h sent ≡ (h, sent)
unfolding send_subscribe
refused_subscribe answer now_us topic h sent l =
    let t : ltb 0 h.pending_send_data_len ≡ true = ground arith in rw t

refused_publish :
    (answer : Bool) (now_us n : ℕ) (topic : Bytes) (h : MqttSocketHandler) (sent : Bytes)
    → 0 < h.pending_send_data_len
    → perform answer (publish_header now_us topic n) h sent ≡ (h, sent)
unfolding send_publish_header
refused_publish answer now_us n topic h sent l =
    let t : ltb 0 h.pending_send_data_len ≡ true = ground arith in rw t

postponed_ping :
    (answer : Bool) (now_us : ℕ) (h : MqttSocketHandler) (sent : Bytes)
    → 0 < h.pending_send_data_len
    → perform answer (ping now_us) h sent ≡ (record h { pending_ping = true }, sent)
unfolding send_ping
postponed_ping answer now_us h sent l =
    let t : ltb 0 h.pending_send_data_len ≡ true = ground arith in rw t

module _ (answer : Bool) (now_us : ℕ) (bytes : Bytes) (h : MqttSocketHandler) (sent : Bytes) where
  refused_data :
      ltb h.pending_send_data_len (length bytes) ≡ true
      → perform answer (publish_data now_us bytes) h sent ≡ (h, sent)
  unfolding send_publish_data
  refused_data long = rw long

  more_data :
      ltb h.pending_send_data_len (length bytes) ≡ false
      → (h.pending_send_data_len - length bytes == 0) ≡ false
      → perform answer (publish_data now_us bytes) h sent ≡ (
        record h { pending_send_data_len = h.pending_send_data_len - length bytes },
        sent ++ bytes,
      )
  unfolding send_publish_data
  more_data fits more = elim (Bool-cases answer) [
    | inl says_true ↦ rw (fits, more, says_true)
    | inr says_false ↦ rw (fits, more, says_false)
  ]

  last_data :
      ltb h.pending_send_data_len (length bytes) ≡ false
      → h.pending_send_data_len - length bytes ≡ 0
      → Contiguous answer h.pending_send_data_len sent bytes
          (perform answer (publish_data now_us bytes) h sent)
        × ((perform answer (publish_data now_us bytes) h sent).0.pending_send_data_len ≡ 0)
  unfolding send_publish_data send_ping write_header length_bytes
  last_data fits none_left =
      let count : length bytes + 0 ≡ h.pending_send_data_len =
        omega (arith, ltb-false→le _ _ fits) in
      elim (Bool-cases answer) [
        | inr says_false ↦ rw (fits, none_left, says_false) ((inl refl, count), refl)
        | inl says_true ↦ elim (Bool-cases h.pending_ping) [
          | inl waits ↦
              rw (fits, none_left, says_true, waits) ((inr (refl, refl, refl), count), refl)
          | inr no_ping ↦ rw (fits, none_left, says_true, no_ping) ((inl refl, count), refl)
        ]
      ]

after : (answer : Bool) → List Request → MqttSocketHandler × Bytes → MqttSocketHandler × Bytes
after answer rs p = if p.0.pending_send_data_len == 0 then p else run_message answer rs p.0 p.1

module _ (answer : Bool) (r : Request) (rs : List Request) (h : MqttSocketHandler) (sent : Bytes)
    (p : MqttSocketHandler × Bytes) (e : perform answer r h sent ≡ p) where
  goes_on :
      (p.0.pending_send_data_len == 0) ≡ false
      → run_message answer (r ∷ rs) h sent ≡ run_message answer rs p.0 p.1
  unfolding after
  goes_on more = ap (after answer rs) e ∙ rw more refl

  stops : p.0.pending_send_data_len ≡ 0 → run_message answer (r ∷ rs) h sent ≡ p
  unfolding after
  stops z = ap (after answer rs) e ∙ rw z refl

shift :
    (answer : Bool) (n k : ℕ) (sent xs ys : Bytes) (p : MqttSocketHandler × Bytes)
    → n ≡ length xs + k
    → Contiguous answer k (sent ++ xs) ys p
    → Contiguous answer n sent (xs ++ ys) p
shift answer n k sent xs ys p e (inl whole, count) =
    (inl (whole ∙ append_assoc sent xs ys), omega (arith, length-append xs ys))
shift answer n k sent xs ys p e (inr (pinged, z, says_true), count) = (
  inr (pinged ∙ ap (λ bytes. bytes ++ (0xC0 ∷ 0x00 ∷ [])) (append_assoc sent xs ys), z, says_true),
  omega (arith, length-append xs ys),
)

-- From any state with data pending, until the message is whole, on a connection that takes everything
-- and whose `send` gives any `bool` for it: what the requests put on the wire is the data that they
-- bring, in order, with a ping behind the last byte at most, and with none where that `bool` is false,
-- as for `ERR_OK`; and the bytes that went out with those still pending are those that were pending. A
-- request for another packet puts nothing on the wire.
pub run_message-Contiguous :
    (answer : Bool) (rs : List Request) (h : MqttSocketHandler) (sent : Bytes)
    → 0 < h.pending_send_data_len
    → Contiguous answer h.pending_send_data_len sent
        (data_of h.pending_send_data_len rs)
        (run_message answer rs h sent)
run_message-Contiguous answer [] h sent l = (inl (sym (append-nil sent)), omega arith)
run_message-Contiguous answer (subscribe now_us topic ∷ rs) h sent l =
    rw
      (goes_on answer (subscribe now_us topic) rs h sent _
        (refused_subscribe answer now_us topic h sent l) (ground arith))
      (run_message-Contiguous answer rs h sent l)
run_message-Contiguous answer (publish_header now_us topic n ∷ rs) h sent l =
    rw
      (goes_on answer (publish_header now_us topic n) rs h sent _
        (refused_publish answer now_us n topic h sent l) (ground arith))
      (run_message-Contiguous answer rs h sent l)
run_message-Contiguous answer (ping now_us ∷ rs) h sent l =
    rw
      (goes_on answer (ping now_us) rs h sent _ (postponed_ping answer now_us h sent l)
        (ground arith))
      (run_message-Contiguous answer rs (record h { pending_ping = true }) sent l)
run_message-Contiguous answer (publish_data now_us bytes ∷ rs) h sent l =
    elim (Bool-cases (ltb h.pending_send_data_len (length bytes))) [
      | inl long ↦
          rw
            (
              goes_on answer (publish_data now_us bytes) rs h sent _
                  (refused_data answer now_us bytes h sent long) (ground arith),
              long,
            )
            (run_message-Contiguous answer rs h sent l)
      | inr fits ↦ elim (Bool-cases (h.pending_send_data_len - length bytes == 0)) [
        | inl whole ↦
            let (c, z) = last_data answer now_us bytes h sent fits (ground arith) in
            rw
              (
                stops answer (publish_data now_us bytes) rs h sent
                    (perform answer (publish_data now_us bytes) h sent) refl z,
                fits,
                whole,
              )
              c
        | inr more ↦
            let left = h.pending_send_data_len - length bytes in
            let sum : h.pending_send_data_len ≡ length bytes + left =
              omega (arith, ltb-false→le _ _ fits) in
            let positive : 0 < left = ground arith in
            rw
              (
                goes_on answer (publish_data now_us bytes) rs h sent
                    (record h { pending_send_data_len = left }, sent ++ bytes)
                    (more_data answer now_us bytes h sent fits more) more,
                fits,
                more,
              )
              (shift answer h.pending_send_data_len left sent bytes (data_of left rs)
                (run_message answer rs (record h { pending_send_data_len = left }) (sent ++ bytes))
                sum
                (run_message-Contiguous answer rs (record h { pending_send_data_len = left })
                  (sent ++ bytes) positive))
      ]
    ]
