-- ===== src/Common/Text.antt =====
-- Texts: the characters of a literal, numbers in decimal, and `snprintf` into a part of an array.
use Prim.Native.Nat.{ℕ, zero, suc, ◌+◌, ◌-◌, ◌/◌, ◌%◌, ◌^◌}
use Prim.Native.Char.{code}
use Prim.Native.String.{String}
use mathlib.Core.List.{List, [], ◌∷◌, ◌++◌}
use pico_https.Common.Tests.{ltb, if◌then◌else◌}
use pico_https.Common.Lists.{take, memcpy}

abbrev pub ascii : String → List ℕ
ascii String.[] = []
ascii (String.◌∷◌ first others) = code first ∷ ascii others

abbrev pub digits : ℕ → ℕ → List ℕ
digits zero n = []
digits (suc rounds) n =
    let front = digits rounds (n / 10) in
    if ltb n 10 then (b'0' + n) ∷ [] else front ++ (b'0' + n % 10) ∷ []

-- `%d` for an `int` that is given as its 32 bits: at most ten digits.
unfoldable pub print_int : ℕ → List ℕ
print_int n = if ltb n (2 ^ 31) then digits 10 n else b'-' ∷ digits 10 (2 ^ 32 - n)

-- The array after `snprintf(&buf[at], size, …)`, where all of the text is `text`.
abbrev pub print_at : List ℕ → (at size : ℕ) → List ℕ → List ℕ
print_at buf at zero text = buf
print_at buf at (suc size) text = memcpy buf at (take size text ++ 0 ∷ [])
