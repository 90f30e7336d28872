-- ===== src/Http/Request/Built.antt =====
-- What the buffer of a request holds while its header is built.
use pico_https.Common.{
  ℕ, zero, suc, ◌+◌, ◌-◌, ◌%◌, ◌^◌, ◌<◌, Bool, true, false, ◌||◌, ◌≡◌, refl, ◌∙◌, ap, sym, ◌⊎◌, inl,
  inr, Option, none, some, [], ◌∷◌, ◌++◌, append_assoc, Bytes, arith,
}
use mathlib.Core.Bool.{false≢true}
use pico_https.Common.Tests.{leb, if◌then◌else◌, if-elim}
use pico_https.Common.Lists.{
  length, take, memcpy, length-append, length-take, length-memcpy, take_all, take-take, take-memcpy,
  take-append_length,
}
use pico_https.Common.Text.{ascii, print_int, print_at}
use pico_https.Http.State.{is_fail}
use pico_https.Http.Request.{
  HttpRequest, max_header_size, first_lines, header_text, append_text, print_first, add_header,
  set_body, has_body,
}

take-print_at :
    (buf : Bytes) (at size : ℕ) (text : Bytes)
    → length text < size
    → at + length text < length buf
    → take (at + length text) (print_at buf at size text) ≡ take at buf ++ text
take-print_at buf at zero text l m = absurd (omega arith)
take-print_at buf at (suc size) text l m =
    let whole : take size text ≡ text = take_all size text (omega arith) in
    let written = text ++ 0 ∷ [] in
    let wide = at + length written in
    let grows : length written ≡ length text + 1 = omega (arith, length-append text (0 ∷ [])) in
    let front : length (take at buf ++ text) ≡ at + length text =
      omega (arith, length-append (take at buf) text, length-take at buf) in
    ap (λ t. take (at + length text) (memcpy buf at (t ++ 0 ∷ []))) whole
    ∙ sym (take-take (at + length text) wide (memcpy buf at written) (omega arith))
    ∙ ap (take (at + length text)) (take-memcpy buf at written wide refl (omega arith))
    ∙ ap (take (at + length text)) (sym (append_assoc (take at buf) text (0 ∷ [])))
    ∙ ap (λ n. take n ((take at buf ++ text) ++ 0 ∷ [])) (sym front)
    ∙ take-append_length (take at buf ++ text) (0 ∷ [])

take-print_at_start :
    (buf : Bytes) (size : ℕ) (text : Bytes)
    → length text < size
    → length text < length buf
    → take (length text + 1) (print_at buf 0 size text) ≡ text ++ 0 ∷ []
take-print_at_start buf zero text l m = absurd (omega arith)
take-print_at_start buf (suc size) text l m =
    let whole : take size text ≡ text = take_all size text (omega arith) in
    let grows : length (text ++ 0 ∷ []) ≡ length text + 1 =
      omega (arith, length-append text (0 ∷ [])) in
    ap (λ t. take (length text + 1) (memcpy buf 0 (t ++ 0 ∷ []))) whole
    ∙ take-memcpy buf 0 (text ++ 0 ∷ []) (length text + 1) (omega arith) (omega arith)

length-print_at :
    (buf : Bytes) (at size : ℕ) (text : Bytes) → length (print_at buf at size text) ≡ length buf
length-print_at buf at zero text = refl
length-print_at buf at (suc size) text = length-memcpy buf at (take size text ++ 0 ∷ [])

-- `text` is behind the host and its zero byte, and there is room left.
pub record IsBuilt (host text : Bytes) (port : ℕ) (body : Option Bytes) (q : HttpRequest)
    : Type 0 where
  pub size : length q.header ≡ 1002
  pub start : q.header_start ≡ length host + 1
  pub index : q.header_index ≡ length host + 1 + length text
  pub room : q.header_index < max_header_size
  pub front : take q.header_index q.header ≡ (host ++ 0 ∷ []) ++ text
  pub ported : q.port ≡ port
  pub bodied : q.body ≡ body

-- A request that `send` refuses.
abbrev pub IsSpoilt : HttpRequest → Type 0
IsSpoilt q = (is_fail q.state || leb max_header_size q.header_index) ≡ true

abbrev pub Holds : (host text : Bytes) → ℕ → Option Bytes → HttpRequest → Type 0
Holds host text port body q = IsBuilt host text port body q ⊎ IsSpoilt q

module _ (host : Bytes) (port : ℕ) where
  -- A line that was printed behind `text`.
  printed-IsBuilt :
      (line text : Bytes) (body : Option Bytes) (q : HttpRequest)
      → IsBuilt host text port body q
      → q.header_index + length line < max_header_size
      → IsBuilt host (text ++ line) port body (record q {
        header = print_at q.header q.header_index (max_header_size - q.header_index) line;
        header_index = q.header_index + length line;
      })
  printed-IsBuilt line text body q v fits =
      let index = q.header_index in
      record {
        size = length-print_at q.header index (max_header_size - index) line ∙ v.size;
        start = v.start;
        index = omega (arith, length-append text line, v.index);
        room = fits;
        front =
            take-print_at q.header index (max_header_size - index) line (omega arith)
              (omega (arith, v.size))
            ∙ ap (λ t. t ++ line) v.front
            ∙ append_assoc (host ++ 0 ∷ []) text line;
        ported = v.ported;
        bodied = v.bodied;
      }

  below : (n : ℕ) → leb max_header_size n ≡ false → n < max_header_size
  below n fits = ground arith

  append_text-Holds :
      (line text : Bytes) (body : Option Bytes) (q : HttpRequest)
      → IsBuilt host text port body q
      → Holds host (text ++ line) port body (append_text line q).1
  unfolding append_text
  append_text-Holds line text body q v =
      let index = q.header_index in
      let printed = print_at q.header index (max_header_size - index) line in
      if-elim (λ (r : Bool × HttpRequest). Holds host (text ++ line) port body r.1)
        (leb max_header_size (index + length line)) (λ full. inr (ground arith))
        (λ fits. inl (printed-IsBuilt line text body q v (below (index + length line) fits)))

  -- The two guards of `addHeader` and `setBody`.
  guarded :
      (P : HttpRequest → Type 0) (q : HttpRequest) (next : Bool × HttpRequest)
      → (IsSpoilt q → P q)
      → ((is_fail q.state || leb max_header_size q.header_index) ≡ false → P next.1)
      → P
          (if is_fail q.state
            then (false, q)
            else if leb max_header_size q.header_index
            then (false, q)
            else next).1
  guarded P q next refused goes_on =
      if-elim (λ (r : Bool × HttpRequest). P r.1) (is_fail q.state)
        (λ failed. refused (ground arith))
        (λ alive.
          if-elim (λ (r : Bool × HttpRequest). P r.1) (leb max_header_size q.header_index)
            (λ full. refused (ground arith)) (λ room. goes_on (ground arith)))

  pub add_header-Holds :
      (name value text : Bytes) (body : Option Bytes) (q : HttpRequest)
      → Holds host text port body q
      → Holds host (text ++ header_text name value) port body (add_header name value q).1
  unfolding add_header
  add_header-Holds name value text body q h =
      guarded (Holds host (text ++ header_text name value) port body) q
        (append_text (header_text name value) q) inr
        (λ fine. elim h [
          | inl v ↦ append_text-Holds (header_text name value) text body q v
          | inr spoilt ↦ absurd (false≢true (sym fine ∙ spoilt))
        ])

  with_body :
      (bytes text : Bytes) (q : HttpRequest)
      → IsBuilt host text port none q
      → IsBuilt host text port (some bytes) (record q { body = some bytes })
  with_body bytes text q v = record {
    size = v.size;
    start = v.start;
    index = v.index;
    room = v.room;
    front = v.front;
    ported = v.ported;
    bodied = refl;
  }

  pub set_body-Holds :
      (bytes text : Bytes) (q : HttpRequest)
      → Holds host text port none q
      → Holds host
          (text ++ header_text (ascii "Content-Length") (print_int (length bytes)))
          port
          (some bytes)
          (set_body bytes q).1
  unfolding set_body
  set_body-Holds bytes text q h =
      let line = header_text (ascii "Content-Length") (print_int (length bytes)) in
      let After = Holds host (text ++ line) port (some bytes) in
      let next = append_text line (record q { body = some bytes }) in
      guarded After q (if has_body q then (false, q) else next) inr (λ fine. elim h [
        | inr spoilt ↦ absurd (false≢true (sym fine ∙ spoilt))
        | inl v ↦
            if-elim (λ (r : Bool × HttpRequest). After r.1) (has_body q)
              (λ full. absurd (false≢true (sym (ap has_some v.bodied) ∙ full)))
              (λ _.
                append_text-Holds line text (some bytes) (record q { body = some bytes })
                  (with_body bytes text q v))
      ])
    where
      has_some : Option Bytes → Bool
      has_some b = elim b [ none ↦ false | some x ↦ true ]

  -- The host, and the first lines behind it, where `index` is the length of the host.
  first-IsBuilt :
      (index : ℕ) (command path : Bytes) (q : HttpRequest)
      → index ≡ length host
      → length q.header ≡ 1002
      → index + 1 + length (first_lines command path host port) < max_header_size
      → IsBuilt host (first_lines command path host port) port q.body (record q {
        port = port;
        header_start = index + 1;
        header =
            print_at
              (print_at q.header 0 max_header_size host)
              (index + 1)
              (max_header_size - (index + 1))
              (first_lines command path host port);
        header_index = index + 1 + length (first_lines command path host port);
      })
  first-IsBuilt index command path q at size fits =
      let text = first_lines command path host port in
      let named = print_at q.header 0 max_header_size host in
      let room = max_header_size - (index + 1) in
      let named_size : length named ≡ 1002 =
        length-print_at q.header 0 max_header_size host ∙ size in
      let next : index + 1 ≡ length host + 1 = omega arith in
      record {
        size = length-print_at named (index + 1) room text ∙ named_size;
        start = next;
        index = omega arith;
        room = fits;
        front =
            take-print_at named (index + 1) room text (omega arith) (omega arith)
            ∙ ap (λ n. take n named ++ text) next
            ∙ ap (λ t. t ++ text)
                (take-print_at_start q.header max_header_size host (omega arith) (omega arith));
        ported = refl;
        bodied = refl;
      }

  pub print_first-Holds :
      (command path : Bytes) (q : HttpRequest)
      → length q.header ≡ 1002
      → length host < 2 ^ 16
      → Holds host
          (first_lines command path host port)
          port
          q.body
          (print_first host port command path q)
  unfolding print_first
  print_first-Holds command path q size short =
      let index = length host % 2 ^ 16 in
      let end_ = index + 1 + length (first_lines command path host port) in
      let Built = Holds host (first_lines command path host port) port q.body in
      if-elim Built (leb (max_header_size - 2) index) (λ _. inr refl)
        (λ _.
          if-elim Built (leb (max_header_size - 2) end_) (λ _. inr refl)
            (λ fits.
              inl (
                first-IsBuilt index command path q (omega arith) size (below end_ (ground arith)))))
