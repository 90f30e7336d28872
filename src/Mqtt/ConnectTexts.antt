-- ===== src/Mqtt/ConnectTexts.antt =====
-- The strings of a CONNECT packet: how `send_connect` counts and writes them, and how they are read.
use pico_https.Common.{
  ℕ, zero, suc, ◌+◌, ◌*◌, ◌/◌, ◌%◌, ◌^◌, ◌≤◌, ◌<◌, false, ◌≡◌, refl, ◌∙◌, ap, ap₂, sym, Option,
  none, some, List, [], ◌∷◌, ◌++◌, append_assoc, append-nil, Bytes, All, arith,
}
use pico_https.Common.Tests.{ltb, if◌then◌else◌}
use pico_https.Common.Lists.{
  length, take, drop, length-append, take_all, take-append_length, drop-append_length,
}
use pico_https.Mqtt.Send.{write_string}
use pico_https.Mqtt.Connect.{
  connect_size, write_whole, write_will, write_user, string_size, string_length, length_with,
}

abbrev with_text : Bytes → Option (List Bytes) → Option (List Bytes)
with_text text none = none
with_text text (some texts) = some (text ∷ texts)

-- Strings of two bytes of length and then that many characters, until the bytes end.
pub read_strings : ℕ → Bytes → Option (List Bytes)
read_strings rounds [] = some []
read_strings zero (a ∷ bytes) = none
read_strings (suc rounds) (a ∷ []) = none
read_strings (suc rounds) (a ∷ b ∷ bytes) =
    let len = a * 256 + b in
    let others = read_strings rounds (drop len bytes) in
    if ltb (length bytes) len then none else with_text (take len bytes) others

-- A text that fits in 16 bits and is not empty.
abbrev pub IsText : Bytes → Type 0
IsText text = (0 < length text) × (length text < 2 ^ 16)

abbrev pub packed : List Bytes → Bytes
packed [] = []
packed (text ∷ texts) = write_whole text ++ packed texts

whole_text :
    (text rest : Bytes)
    → IsText text
    → write_whole text ++ rest ≡ (length text / 2 ^ 8) ∷ (length text % 2 ^ 8) ∷ (text ++ rest)
whole_text text rest (some_, short) =
    let len : length text % 2 ^ 16 ≡ length text = omega arith in
    ap (λ n. write_string text n ++ rest) len
    ∙ ap (λ t. (length text / 2 ^ 8) ∷ (length text % 2 ^ 8) ∷ (t ++ rest))
        (take_all (length text) text (omega arith))

pub read_strings-packed :
    (texts : List Bytes) (rounds : ℕ)
    → All IsText texts
    → length texts ≤ rounds
    → read_strings rounds (packed texts) ≡ some texts
unfolding read_strings
read_strings-packed [] rounds t l = refl
read_strings-packed (text ∷ texts) zero t l = absurd (omega arith)
read_strings-packed (text ∷ texts) (suc rounds) (t, ts) l =
    let rest = packed texts in
    let len : length text / 2 ^ 8 * 256 + length text % 2 ^ 8 ≡ length text = omega arith in
    let fits : ltb (length (text ++ rest)) (length text) ≡ false =
      ground (arith, length-append text rest) in
    ap (read_strings (suc rounds)) (whole_text text rest t)
    ∙ rw
        (
          len,
          fits,
          drop-append_length text rest,
          read_strings-packed texts rounds ts (omega arith),
          take-append_length text rest,
        )
        refl

-- What a client connects with: a will is a topic with its message, a password goes with a user.
pub record Client : Type 0 where
  pub id : Bytes
  pub will : Option (Bytes × Bytes)
  pub user : Option (Bytes × Option Bytes)

abbrev pub will_topic_of : Option (Bytes × Bytes) → Option Bytes
will_topic_of none = none
will_topic_of (some (topic, message)) = some topic

abbrev pub will_message_of : Option (Bytes × Bytes) → Option Bytes
will_message_of none = none
will_message_of (some (topic, message)) = some message

abbrev pub user_of : Option (Bytes × Option Bytes) → Option Bytes
user_of none = none
user_of (some (user, pass)) = some user

abbrev pub pass_of : Option (Bytes × Option Bytes) → Option Bytes
pass_of none = none
pass_of (some (user, pass)) = pass

abbrev pub will_texts : Option (Bytes × Bytes) → List Bytes
will_texts none = []
will_texts (some (topic, message)) = topic ∷ message ∷ []

abbrev pub user_texts : Option (Bytes × Option Bytes) → List Bytes
user_texts none = []
user_texts (some (user, none)) = user ∷ []
user_texts (some (user, some pass)) = user ∷ pass ∷ []

-- The strings of the payload, in the order of MQTT.
abbrev pub texts : Client → List Bytes
texts c = c.id ∷ (will_texts c.will ++ user_texts c.user)

write_will-packed :
    (will : Option (Bytes × Bytes))
    → write_will (will_topic_of will) (will_message_of will) ≡ packed (will_texts will)
write_will-packed none = refl
write_will-packed (some (topic, message)) =
    ap (λ t. write_whole topic ++ t) (sym (append-nil (write_whole message)))

write_user-packed :
    (user : Option (Bytes × Option Bytes))
    → write_user (user_of user) (pass_of user) ≡ packed (user_texts user)
write_user-packed none = refl
write_user-packed (some (user, none)) = sym (append-nil (write_whole user))
write_user-packed (some (user, some pass)) =
    ap (λ t. write_whole user ++ t) (sym (append-nil (write_whole pass)))

packed-append : (ts us : List Bytes) → packed (ts ++ us) ≡ packed ts ++ packed us
packed-append [] us = refl
packed-append (text ∷ ts) us =
    ap (λ t. write_whole text ++ t) (packed-append ts us)
    ∙ sym (append_assoc (write_whole text) (packed ts) (packed us))

pub payload-packed :
    (c : Client)
    → write_whole c.id
        ++ (write_will (will_topic_of c.will) (will_message_of c.will)
            ++ write_user (user_of c.user) (pass_of c.user))
      ≡ packed (texts c)
payload-packed c =
    ap (λ t. write_whole c.id ++ t)
      (ap₂ (λ t u. t ++ u) (write_will-packed c.will) (write_user-packed c.user)
        ∙ sym (packed-append (will_texts c.will) (user_texts c.user)))

texts_size : List Bytes → ℕ
texts_size [] = 0
texts_size (text ∷ ts) = 2 + length text + texts_size ts

length-packed : (ts : List Bytes) → All IsText ts → length (packed ts) ≡ texts_size ts
unfolding texts_size
length-packed [] t = refl
length-packed (text ∷ ts) (t, all) = omega (
  arith,
  ap length (whole_text text (packed ts) t),
  length-append text (packed ts),
  length-packed ts all,
)

string_size_lem :
    (text : Bytes) → IsText text → string_size (length text % 2 ^ 16) ≡ 2 + length text
string_size_lem text (some_, short) = ground arith

All-left : (ts us : List Bytes) → All IsText (ts ++ us) → All IsText ts
All-left [] us all = tt
All-left (t ∷ ts) us (a, all) = (a, All-left ts us all)

All-right : (ts us : List Bytes) → All IsText (ts ++ us) → All IsText us
All-right [] us all = all
All-right (t ∷ ts) us (a, all) = All-right ts us all

texts_size-append : (ts us : List Bytes) → texts_size (ts ++ us) ≡ texts_size ts + texts_size us
unfolding texts_size
texts_size-append [] us = omega arith
texts_size-append (t ∷ ts) us = omega (arith, texts_size-append ts us)

will_size :
    (will : Option (Bytes × Bytes))
    → All IsText (will_texts will)
    → string_size (string_length (will_topic_of will))
        + string_size (length_with (will_topic_of will) (will_message_of will))
      ≡ texts_size (will_texts will)
unfolding texts_size
will_size none all = refl
will_size (some (topic, message)) (t, (m, all)) =
    omega (arith, string_size_lem topic t, string_size_lem message m)

user_size :
    (user : Option (Bytes × Option Bytes))
    → All IsText (user_texts user)
    → string_size (string_length (user_of user))
        + string_size (length_with (user_of user) (pass_of user))
      ≡ texts_size (user_texts user)
unfolding texts_size
user_size none all = refl
user_size (some (user, none)) (u, all) = omega (arith, string_size_lem user u)
user_size (some (user, some pass)) (u, (p, all)) =
    omega (arith, string_size_lem user u, string_size_lem pass p)

pub connect_size_lem :
    (c : Client)
    → All IsText (texts c)
    → connect_size
        (some c.id)
        (will_topic_of c.will)
        (will_message_of c.will)
        (user_of c.user)
        (pass_of c.user)
      ≡ 10 + length (packed (texts c))
unfolding connect_size texts_size
connect_size_lem c all = omega (
  arith,
  length-packed (texts c) all,
  texts_size-append (will_texts c.will) (user_texts c.user),
  string_size_lem c.id all.0,
  will_size c.will (All-left (will_texts c.will) (user_texts c.user) all.1),
  user_size c.user (All-right (will_texts c.will) (user_texts c.user) all.1),
)
