-- ===== src/Logger/Sent.antt =====
-- pico_logger/pico_logger.c: `trace` from the buffer to the datagram, and what it keeps.
use pico_https.Common.{
  ℕ, suc, ◌+◌, ◌-◌, ◌%◌, ◌≤◌, ◌<◌, min, Bool, ◌≡◌, ◌∙◌, ap, ap₂, sym, [], ◌∷◌, ◌++◌, append_assoc,
  Bytes, All, arith,
}
use mathlib.Core.Path.{subst}
use pico_https.Common.Tests.{lt→ltb, if◌then◌else◌, if-elim}
use pico_https.Common.Lists.{
  length, take, drop, length-append, length-take, length-drop, take_all, take-append,
}
use pico_https.Common.Text.{ascii, print_at}
use pico_https.Common.Printed.{drop-drop, print_at-append}
use pico_https.Logger.Message.{
  Logger, buffer_size, prefix, end_line, cap, format_message, send_message, trace,
}
use pico_https.Logger.Line.{line, IsLogger, length-prefix, prefix_some, cap_le}
use pico_https.Logger.Written.{written, Sent, message_line, length-kept}

-- All of a message of category "trace".
abbrev pub message : Logger → ℕ → Bytes → Bytes
message l us text = prefix l us (ascii "trace") ++ text

-- Both texts in the buffer, the second one behind the first.
print_at-print_at :
    (start text kept : Bytes)
    → length kept ≡ buffer_size
    → length start < 80
    → print_at
        (print_at kept 0 buffer_size start)
        (length start)
        (buffer_size - length start - 1)
        text
      ≡ take (buffer_size - 2) (start ++ text)
        ++ 0 ∷ drop (min (buffer_size - 2) (length (start ++ text)) + 1) kept
print_at-print_at start text kept size short =
    let room = buffer_size - 2 - length start in
    let behind = drop (length start + 1) kept in
    let all_of_it : min 1499 (length start) + 1 ≡ length start + 1 = omega arith in
    let left : buffer_size - length start - 1 ≡ suc room = omega arith in
    let count : min room (length text) + 1 ≡ suc (min room (length text)) = omega arith in
    let end_ : length start + 1 + min room (length text)
        ≡ min (buffer_size - 2) (length (start ++ text)) + 1 =
      omega (arith, length-append start text) in
    ap (λ buf. print_at buf (length start) (buffer_size - length start - 1) text)
      (print_at-append [] kept start 1499 (omega arith)
        ∙ ap₂ (λ front k. front ++ 0 ∷ drop k kept) (take_all 1499 start (omega arith)) all_of_it)
    ∙ ap (λ n. print_at (start ++ 0 ∷ behind) (length start) n text) left
    ∙ print_at-append start (0 ∷ behind) text room
        (omega (arith, length-drop (length start + 1) kept))
    ∙ ap (λ k. start ++ (take room text ++ 0 ∷ drop k (0 ∷ behind))) count
    ∙ ap (λ t. start ++ (take room text ++ 0 ∷ t))
        (drop-drop (min room (length text)) (length start + 1) kept ∙ ap (λ k. drop k kept) end_)
    ∙ sym (append_assoc start (take room text) _)
    ∙ ap (λ t. t ++ 0 ∷ drop (min (buffer_size - 2) (length (start ++ text)) + 1) kept)
        (ap (λ t. t ++ take room text) (sym (take_all (buffer_size - 2) start (omega arith)))
          ∙ sym (take-append (buffer_size - 2) start text))

module _ (l : Logger) (us : ℕ) (text : Bytes) (v : IsLogger l) where
  abbrev start : Bytes
  start = prefix l us (ascii "trace")

  abbrev printed : Bytes
  printed =
      print_at (print_at l.buffer 0 buffer_size start) (length start)
        (buffer_size - length start - 1) text

  abbrev finished : Bytes × ℕ
  finished =
      cap (end_line printed (length start + length text)).0
        (end_line printed (length start + length text)).1

  short : length start < 80
  short = length-prefix l us (ascii "trace") v.1 (omega arith)

  printed-written : printed ≡ written (message l us text) l.buffer v.0
  printed-written =
      print_at-print_at start text l.buffer (length-kept (message l us text) l.buffer v.0) short

  finished-Sent : Sent (message l us text) l.buffer v.0 finished
  finished-Sent =
      let size : length (message l us text) ≡ length start + length text =
        length-append start text in
      subst
        (λ (r : Bytes × ℕ).
          Sent (message l us text) l.buffer v.0 (cap (end_line r.0 r.1).0 (end_line r.0 r.1).1))
        (ap₂ (λ (buf : Bytes) (n : ℕ). (buf, n)) (sym printed-written) size)
        (message_line (message l us text) l.buffer v.0
          (omega (arith, size, prefix_some l us (ascii "trace"))))

  format_message_finished :
      format_message l us (ascii "trace") text
      ≡ (record l { buffer = finished.0; log_count = (l.log_count + 1) % 999 }, finished.1)
  unfolding format_message
  format_message_finished =
      ap
        (λ (b : Bool).
          if b
          then (record l { buffer = finished.0; log_count = (l.log_count + 1) % 999 }, finished.1)
          else (record l { buffer = print_at l.buffer 0 buffer_size start }, length start))
        (lt→ltb (length start) (buffer_size - 1) (omega (arith, short)))

  -- The datagram is the whole of what is sent.
  finished_size : finished.1 ≡ length (line (message l us text))
  finished_size =
      let whole = length-kept (message l us text) finished.0 finished-Sent.1 in
      let fits =
        cap_le (end_line printed (length start + length text)).0
          (end_line printed (length start + length text)).1 in
      omega (arith, whole, fits, length-take finished.1 finished.0, ap length finished-Sent.0)

  length-line : length (line (message l us text)) ≤ buffer_size
  length-line = omega (
    arith,
    finished_size,
    cap_le (end_line printed (length start + length text)).0
        (end_line printed (length start + length text)).1,
  )

  datagrams :
      (has_memory : ℕ → Bool)
      → (trace l us has_memory text).1 ≡ (
          if has_memory (length (line (message l us text)))
          then line (message l us text) ∷ []
          else [])
  unfolding trace send_message
  datagrams has_memory =
      ap (λ (r : Logger × ℕ). if has_memory r.1 then take r.1 r.0.buffer ∷ [] else [])
        format_message_finished
      ∙ ap₂ (λ n t. if has_memory n then t ∷ [] else []) finished_size finished-Sent.0

  trace_fits :
      (has_memory : ℕ → Bool)
      → All (λ datagram. length datagram ≤ buffer_size) (trace l us has_memory text).1
  trace_fits has_memory =
      subst (All (λ datagram. length datagram ≤ buffer_size)) (sym (datagrams has_memory)) (
        if-elim (All (λ datagram. length datagram ≤ buffer_size))
          (has_memory (length (line (message l us text)))) (λ _. (length-line, tt)) (λ _. tt))

  -- With arrays of their sizes, a zero at the end of the buffer and a number below 999, and for any
  -- text: `trace` hands one datagram to `udp_send`, the line of its message, if there is memory for a
  -- pbuf of that size, else none. The next message has the next number, modulo 999, and what was
  -- required is kept. No datagram has more than 1500 bytes.
  pub trace_lem :
      (has_memory : ℕ → Bool)
      → ((trace l us has_memory text).1 ≡ (
          if has_memory (length (line (message l us text)))
          then line (message l us text) ∷ []
          else []))
        × ((trace l us has_memory text).0.log_count ≡ (l.log_count + 1) % 999)
        × IsLogger (trace l us has_memory text).0
        × All (λ datagram. length datagram ≤ buffer_size) (trace l us has_memory text).1
  unfolding trace send_message
  trace_lem has_memory = (
    datagrams has_memory,
    ap (λ (r : Logger × ℕ). r.0.log_count) format_message_finished,
    subst (λ (r : Logger × ℕ). IsLogger r.0) (sym format_message_finished)
        (finished-Sent.1, v.1, omega arith),
    trace_fits has_memory,
  )
