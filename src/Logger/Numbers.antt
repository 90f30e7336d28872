-- ===== src/Logger/Numbers.antt =====
-- The number at the start of a message, by which a receiver sees that messages are missing.
use pico_https.Common.{
  ℕ, zero, suc, ◌+◌, ◌-◌, ◌*◌, ◌%◌, ◌≤◌, ◌<◌, Bool, true, ◌&&◌, ◌≡◌, refl, ◌∙◌, ap, ap₂, inl, inr,
  List, [], ◌∷◌, ◌++◌, Bytes, arith,
}
use pico_https.Common.Tests.{ltb, ◌==◌, ==_iff, if◌then◌else◌, if-elim}
use pico_https.Common.Lists.{
  length, get_or, take, replicate, length-take, length-append, get_or-append, get_or-take,
}
use pico_https.Common.Text.{ascii, print_int}
use pico_https.Common.Printed.{length-replicate}
use pico_https.Logger.Message.{Logger, buffer_size, padded, prefix, trace}
use pico_https.Logger.Line.{line, has_newline, below_or_at, IsLogger}
use pico_https.Logger.Sent.{message, trace_lem}

-- A receiver's reading of a number in three places.
abbrev pub value_of : ℕ → ℕ
value_of c = if c == b' ' then 0 else c - b'0'

unfoldable pub number_of : Bytes → ℕ
number_of text =
    value_of (get_or text 0 0) * 100 + value_of (get_or text 1 0) * 10 + value_of (get_or text 2 0)

-- Every count of at most three digits.
abbrev reads_back : ℕ → Bool
reads_back zero = true
reads_back (suc n) = reads_back n && (number_of (padded 3 (print_int n)) == n)

all_read_back : reads_back 999 ≡ true
unfolding number_of padded print_int
all_read_back = refl

number_of-padded :
    (bound n : ℕ) → reads_back bound ≡ true → n < bound → number_of (padded 3 (print_int n)) ≡ n
number_of-padded zero n e l = absurd (omega arith)
number_of-padded (suc bound) n e l = elim (below_or_at n bound (omega arith)) [
  | inl below ↦ number_of-padded bound n (ground (arith, e)) below
  | inr at ↦ rw at ((==_iff (number_of (padded 3 (print_int bound))) bound).0 (ground (arith, e)))
]

-- The first characters are never changed.
get_or-line :
    (text : Bytes) (i : ℕ)
    → i < length text
    → i < buffer_size - 2
    → get_or (line text) i 0 ≡ get_or text i 0
unfolding line
get_or-line text i l m =
    if-elim (λ (t : Bytes). get_or t i 0 ≡ get_or text i 0) (ltb (length text) (buffer_size - 1))
      (λ _.
        if-elim (λ (t : Bytes). get_or t i 0 ≡ get_or text i 0) (has_newline text) (λ _. refl)
          (λ _. get_or-append text (b'\n' ∷ []) i 0 l))
      (λ _.
        get_or-append (take (buffer_size - 2) text)
          (if length text == buffer_size - 1 then 0 ∷ [] else 0 ∷ 0 ∷ []) i 0
          (omega (arith, l, m, length-take (buffer_size - 2) text))
        ∙ get_or-take (buffer_size - 2) i text 0 m)

module _ (l : Logger) (us : ℕ) (text : Bytes) where
  abbrev number : Bytes
  number = padded 3 (print_int l.log_count)

  length-number : 3 ≤ length number
  unfolding padded
  length-number =
      let digits = print_int l.log_count in
      omega (
        arith,
        length-append (replicate (3 - length digits) b' ') digits,
        length-replicate {A = ℕ} (3 - length digits) b' ',
      )

  get_or-message : (i : ℕ) → i < 3 → get_or (line (message l us text)) i 0 ≡ get_or number i 0
  unfolding prefix
  get_or-message i three =
      let start = prefix l us (ascii "trace") in
      let size : i < length start = omega (arith, three, length-append number _, length-number) in
      get_or-line (start ++ text) i (omega (arith, size, length-append start text))
        (omega (arith, three))
      ∙ get_or-append start text i 0 size
      ∙ get_or-append number _ i 0 (omega (arith, three, length-number))

  number_of-message : l.log_count < 999 → number_of (line (message l us text)) ≡ l.log_count
  unfolding number_of
  number_of-message v =
      ap₂ ◌+◌
        (ap₂ (λ a b. value_of a * 100 + value_of b * 10) (get_or-message 0 (omega arith))
          (get_or-message 1 (omega arith)))
        (ap value_of (get_or-message 2 (omega arith)))
      ∙ number_of-padded 999 l.log_count all_read_back v

-- Messages, each with its time.
unfoldable pub traces : Logger → List (ℕ × Bytes) → Logger × List Bytes
traces l [] = (l, [])
traces l ((us, text) ∷ messages) =
    let (l', datagrams) = trace l us (λ n. true) text in
    let (l'', others) = traces l' messages in (l'', datagrams ++ others)

module _ (l : Logger) (us : ℕ) (text : Bytes) (messages : List (ℕ × Bytes)) (v : IsLogger l) where
  abbrev after : Logger
  after = (trace l us (λ n. true) text).0

  traces_next :
      (traces l ((us, text) ∷ messages)).1 ≡ line (message l us text) ∷ (traces after messages).1
  unfolding traces
  traces_next =
      ap (λ datagrams. datagrams ++ (traces after messages).1) (trace_lem l us text v (λ n. true)).0

length-traces :
    (l : Logger) (messages : List (ℕ × Bytes))
    → IsLogger l
    → length (traces l messages).1 ≡ length messages
unfolding traces
length-traces l [] v = refl
length-traces l ((us, text) ∷ messages) v =
    let next = traces_next l us text messages v in
    ap length next
    ∙ ap suc
        (length-traces (after l us text messages v) messages (trace_lem l us text v (λ n. true)).2)

-- With such variables as `trace` keeps, and memory for every pbuf: each of a run of messages is sent
-- as one datagram, and the one at place `i` starts with the number of the first message plus `i`,
-- modulo 999, as a receiver reads it.
pub traces-number_of :
    (l : Logger) (messages : List (ℕ × Bytes)) (i : ℕ)
    → IsLogger l
    → i < length messages
    → (length (traces l messages).1 ≡ length messages)
      × (number_of (get_or (traces l messages).1 i []) ≡ (l.log_count + i) % 999)
traces-number_of l [] i v m = absurd (omega arith)
traces-number_of l ((us, text) ∷ messages) zero v m =
    let next = traces_next l us text messages v in
    (
      ap length next
          ∙ ap suc (
              length-traces (after l us text messages v) messages
                (trace_lem l us text v (λ n. true)).2),
      ap (λ datagrams. number_of (get_or datagrams 0 [])) next
          ∙ number_of-message l us text v.2
          ∙ omega (arith, v.2),
    )
traces-number_of l ((us, text) ∷ messages) (suc i) v m =
    let next = traces_next l us text messages v in
    let (_, count, kept, _) = trace_lem l us text v (λ n. true) in
    let (size, number) =
      traces-number_of (after l us text messages v) messages i kept (omega arith) in
    (
      ap length next ∙ ap suc size,
      ap (λ datagrams. number_of (get_or datagrams (suc i) [])) next
          ∙ number
          ∙ omega (arith, count),
    )
