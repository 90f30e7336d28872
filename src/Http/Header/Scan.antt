-- ===== src/Http/Header/Scan.antt =====
-- What `find_from` finds in a text that is given in parts.
use pico_https.Common.{
  ℕ, zero, suc, ◌+◌, ◌≤◌, ◌<◌, true, false, ◌≡◌, refl, ◌∙◌, ap, [], ◌∷◌, ◌++◌, Bytes, arith, All,
}
use pico_https.Common.Tests.{◌==◌}
use pico_https.Common.Lists.{
  length, drop, set, get_or-drop, drop-append_length, set-append_more, set-append_length,
}
use pico_https.Http.Header.{find_from, until_zero, c_string}

pub find_from_bounds :
    (rounds : ℕ) (text : Bytes) (stop i : ℕ)
    → (i ≤ find_from rounds text stop i) × (find_from rounds text stop i ≤ i + rounds)
unfolding find_from
find_from_bounds zero text stop i = omega arith
find_from_bounds (suc rounds) text stop i =
    ground (arith, find_from_bounds rounds text stop (i + 1))

-- `stop` does not occur.
abbrev pub Free : ℕ → Bytes → Type 0
Free stop = All (λ c. (c == stop) ≡ false)

find_from-drop :
    (rounds : ℕ) (text : Bytes) (stop i : ℕ) (w rest : Bytes)
    → drop i text ≡ w ++ stop ∷ rest
    → Free stop w
    → length w < rounds
    → find_from rounds text stop i ≡ i + length w
unfolding find_from
find_from-drop zero text stop i w rest e f l = absurd (omega arith)
find_from-drop (suc rounds) text stop i [] rest e f l =
    let here = (get_or-drop i text rest stop 0 e).0 in
    let same : (stop == stop) ≡ true = ground arith in rw (here, same) (omega arith)
find_from-drop (suc rounds) text stop i (c ∷ w) rest e f l =
    let (here, behind) = get_or-drop i text (w ++ stop ∷ rest) c 0 e in
    rw (here, f.0)
      (omega (arith, find_from-drop rounds text stop (i + 1) w rest behind f.1 (omega arith)))

-- In a text that is `before`, then `w`, then the byte that is looked for.
pub find_from-append :
    (rounds : ℕ) (before w rest : Bytes) (stop : ℕ)
    → Free stop w
    → length w < rounds
    → find_from rounds (before ++ (w ++ stop ∷ rest)) stop (length before)
      ≡ length before + length w
find_from-append rounds before w rest stop f l =
    find_from-drop rounds (before ++ (w ++ stop ∷ rest)) stop (length before) w rest
      (drop-append_length before (w ++ stop ∷ rest)) f l

pub set_at :
    (before w rest : Bytes) (c v : ℕ)
    → set (before ++ (w ++ c ∷ rest)) (length before + length w) v ≡ before ++ (w ++ v ∷ rest)
set_at before w rest c v =
    set-append_more before (w ++ c ∷ rest) (length w) v
    ∙ ap (λ text. before ++ text) (set-append_length w c v rest)

pub until_zero_lem : (w rest : Bytes) → Free 0 w → until_zero (w ++ 0 ∷ rest) ≡ w
until_zero_lem [] rest f = refl
until_zero_lem (c ∷ w) rest f = rw (f.0, until_zero_lem w rest f.1) refl

-- A string whose zero byte is in the text.
pub c_string-append :
    (before w rest : Bytes) → Free 0 w → c_string (before ++ (w ++ 0 ∷ rest)) (length before) ≡ w
c_string-append before w rest f =
    rw (drop-append_length before (w ++ 0 ∷ rest)) (until_zero_lem w rest f)
