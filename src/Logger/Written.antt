-- ===== src/Logger/Written.antt =====
-- pico_logger/pico_logger.c: the buffer of `send_message` with a message in it, up to the datagram.
use pico_https.Common.{
  ℕ, suc, ◌+◌, ◌-◌, ◌≤◌, ◌<◌, min, false, ◌≡◌, ◌∙◌, ap, ap₂, sym, inl, inr, [], ◌∷◌, ◌++◌,
  append_assoc, Bytes, arith,
}
use pico_https.Common.Tests.{ltb, ltb→lt, ltb-false→le, ◌==◌, ==_iff, if◌then◌else◌, if-elim}
use pico_https.Common.Lists.{
  length, get_or, set, take, drop, length-append, length-take, length-drop, take_all,
  take-append_length, drop-append_more, get_or-append, set-append_length, set-append_more,
}
use pico_https.Common.Printed.{drop-drop, take-set, drop-set_before}
use pico_https.Logger.Message.{buffer_size, end_line, cap}
use pico_https.Logger.Line.{
  line, below_or_at, zero_last, line_long, line_ended, line_open, ==_false,
}

module _ (text kept : Bytes) (last : drop (buffer_size - 1) kept ≡ 0 ∷ []) where
  -- The buffer with the text, up to its end, and what was there behind it.
  abbrev pub written : Bytes
  written = take (buffer_size - 2) text ++ 0 ∷ drop (min (buffer_size - 2) (length text) + 1) kept

  abbrev pub Sent : Bytes × ℕ → Type 0
  Sent (buf, size) = (take size buf ≡ line text) × (drop (buffer_size - 1) buf ≡ 0 ∷ [])

  pub length-kept : length kept ≡ buffer_size
  length-kept = omega (arith, length-drop (buffer_size - 1) kept, ap length last)

  end_line-elim :
      (P : Bytes × ℕ → Type 0) (buf : Bytes) (size : ℕ)
      → (size < buffer_size - 1 → get_or buf (size - 1) 0 ≡ b'\n' → P (buf, size))
      → (size < buffer_size - 1
          → (get_or buf (size - 1) 0 == b'\n') ≡ false
          → P (set (set buf size b'\n') (size + 1) 0, size + 1))
      → (buffer_size - 1 ≤ size → P (buf, size))
      → P (end_line buf size)
  unfolding end_line
  end_line-elim P buf size ended open_ long =
      if-elim P (ltb size (buffer_size - 1))
        (λ l.
          let short = ltb→lt size (buffer_size - 1) l in
          if-elim P (get_or buf (size - 1) 0 == b'\n')
            (λ e. ended short ((==_iff (get_or buf (size - 1) 0) b'\n').0 e)) (λ e. open_ short e))
        (λ l. long (ltb-false→le size (buffer_size - 1) l))

  cap_short :
      (P : Bytes × ℕ → Type 0) (buf : Bytes) (size : ℕ)
      → size ≤ buffer_size
      → P (buf, size)
      → P (cap buf size)
  unfolding cap
  cap_short P buf size l p =
      if-elim P (ltb buffer_size size) (λ e. absurd (omega (arith, l, ltb→lt buffer_size size e)))
        (λ _. p)

  -- A message that fits, behind which something is kept.
  written_short :
      length text < buffer_size - 1 → (written ≡ text ++ 0 ∷ drop (length text + 1) kept)
  written_short l =
      ap₂ (λ a b. a ++ 0 ∷ drop (b + 1) kept) (take_all (buffer_size - 2) text (omega arith))
        (omega arith)

  kept_behind : length text < buffer_size - 1 → drop (buffer_size - 1) written ≡ 0 ∷ []
  kept_behind l =
      let more = 1498 - length text in
      let at_end : length text + suc more ≡ buffer_size - 1 = omega arith in
      let behind : length text + 1 + more ≡ buffer_size - 1 = omega arith in
      ap (λ buf. drop (buffer_size - 1) buf) (written_short l)
      ∙ ap (λ k. drop k (text ++ 0 ∷ drop (length text + 1) kept)) (sym at_end)
      ∙ drop-append_more text (0 ∷ drop (length text + 1) kept) (suc more)
      ∙ drop-drop more (length text + 1) kept
      ∙ ap (λ k. drop k kept) behind
      ∙ last

  -- The character before the end.
  last_character :
      0 < length text
      → length text < buffer_size - 1
      → get_or written (length text - 1) 0 ≡ get_or text (length text - 1) 0
  last_character some_text l =
      ap (λ buf. get_or buf (length text - 1) 0) (written_short l)
      ∙ get_or-append text (0 ∷ drop (length text + 1) kept) (length text - 1) 0 (omega arith)

  ended_message :
      0 < length text
      → length text < buffer_size - 1
      → get_or written (length text - 1) 0 ≡ b'\n'
      → Sent (written, length text)
  ended_message some_text l e = (
    ap (take (length text)) (written_short l)
        ∙ take-append_length text (0 ∷ drop (length text + 1) kept)
        ∙ sym (line_ended text l (ap (λ c. c == b'\n') (sym (last_character some_text l) ∙ e))),
    kept_behind l,
  )

  open_message :
      0 < length text
      → length text < buffer_size - 1
      → (get_or written (length text - 1) 0 == b'\n') ≡ false
      → Sent (set (set written (length text) b'\n') (length text + 1) 0, length text + 1)
  open_message some_text l e =
      let behind = drop (length text + 1) kept in
      let size : length (text ++ b'\n' ∷ []) ≡ length text + 1 =
        omega (arith, length-append text (b'\n' ∷ [])) in
      (
        take-set (length text + 1) (set written (length text) b'\n') 0
            ∙ ap (λ buf. take (length text + 1) (set buf (length text) b'\n')) (written_short l)
            ∙ ap (take (length text + 1)) (set-append_length text 0 b'\n' behind)
            ∙ ap₂ take (sym size) (sym (append_assoc text (b'\n' ∷ []) behind))
            ∙ take-append_length (text ++ b'\n' ∷ []) behind
            ∙ sym (line_open text l (ap (λ c. c == b'\n') (sym (last_character some_text l)) ∙ e)),
        zero_last (set written (length text) b'\n') (length text + 1) (omega arith)
            (drop-set_before (buffer_size - 1) (length text) written b'\n' l ∙ kept_behind l),
      )

  module _ (long : buffer_size - 1 ≤ length text) where
    abbrev front : Bytes
    front = take (buffer_size - 2) text

    length-front : (zeros : Bytes) → length (front ++ zeros) ≡ 1498 + length zeros
    length-front zeros =
        omega (arith, length-append front zeros, length-take (buffer_size - 2) text)

    written_full : written ≡ front ++ 0 ∷ 0 ∷ []
    written_full =
        let e : min (buffer_size - 2) (length text) + 1 ≡ buffer_size - 1 = omega arith in
        ap (λ k. front ++ 0 ∷ drop k kept) e ∙ ap (λ t. front ++ 0 ∷ t) last

    take_full : take buffer_size (front ++ 0 ∷ 0 ∷ []) ≡ front ++ 0 ∷ 0 ∷ []
    take_full =
        take_all buffer_size (front ++ 0 ∷ 0 ∷ []) (omega (arith, length-front (0 ∷ 0 ∷ [])))

    drop_full : drop (buffer_size - 1) (front ++ 0 ∷ 0 ∷ []) ≡ 0 ∷ []
    drop_full =
        let e : buffer_size - 1 ≡ length front + 1 =
          omega (arith, length-take (buffer_size - 2) text) in
        ap (λ k. drop k (front ++ 0 ∷ 0 ∷ [])) e ∙ drop-append_more front (0 ∷ 0 ∷ []) 1

    line_over : buffer_size ≤ length text → line text ≡ front ++ 0 ∷ 0 ∷ []
    line_over l =
        line_long text long
        ∙ ap (λ b. front ++ (if b then 0 ∷ [] else 0 ∷ 0 ∷ []))
            (==_false (buffer_size - 1) (length text) (omega arith))

    line_exact : length text ≡ buffer_size - 1 → line text ≡ front ++ 0 ∷ []
    line_exact e =
        line_long text long
        ∙ ap (λ b. front ++ (if b then 0 ∷ [] else 0 ∷ 0 ∷ []))
            ((==_iff (length text) (buffer_size - 1)).1 e)

    cut_message : buffer_size < length text → Sent (set written (buffer_size - 1) 0, buffer_size)
    cut_message l =
        let e : buffer_size - 1 ≡ length front + 1 =
          omega (arith, length-take (buffer_size - 2) text) in
        let same : set written (buffer_size - 1) 0 ≡ front ++ 0 ∷ 0 ∷ [] =
          ap₂ (λ buf i. set buf i 0) written_full e ∙ set-append_more front (0 ∷ 0 ∷ []) 1 0 in
        (
          ap (take buffer_size) same ∙ take_full ∙ sym (line_over (omega arith)),
          ap (drop (buffer_size - 1)) same ∙ drop_full,
        )

    full_message : length text ≤ buffer_size → Sent (written, length text)
    full_message l =
        let size : buffer_size - 1 ≡ length (front ++ 0 ∷ []) =
          omega (arith, length-front (0 ∷ [])) in
        (
          elim (below_or_at (length text) buffer_size l) [
            | inl below ↦
                ap₂ take (omega arith ∙ size)
                  (written_full ∙ sym (append_assoc front (0 ∷ []) (0 ∷ [])))
                ∙ take-append_length (front ++ 0 ∷ []) (0 ∷ [])
                ∙ sym (line_exact (omega arith))
            | inr at ↦ ap₂ take at written_full ∙ take_full ∙ sym (line_over (omega arith))
          ],
          ap (drop (buffer_size - 1)) written_full ∙ drop_full,
        )

    long_message : Sent (cap written (length text))
    unfolding cap
    long_message =
        if-elim Sent (ltb buffer_size (length text))
          (λ over. cut_message (ltb→lt buffer_size (length text) over))
          (λ under. full_message (ltb-false→le buffer_size (length text) under))

  -- A message with a prefix.
  pub message_line :
      0 < length text
      → Sent (cap (end_line written (length text)).0 (end_line written (length text)).1)
  message_line some_text =
      end_line-elim (λ r. Sent (cap r.0 r.1)) written (length text)
        (λ l e. cap_short Sent written (length text) (omega arith) (ended_message some_text l e))
        (λ l e.
          cap_short Sent (set (set written (length text) b'\n') (length text + 1) 0)
            (length text + 1) (omega arith) (open_message some_text l e))
        (λ l. long_message l)
