-- ===== src/Common/Printed.antt =====
-- What `snprintf` leaves in an array, and how long a printed number is.
use Prim.Native.Nat.{ℕ, zero, suc, ◌+◌, ◌-◌, ◌/◌, ◌%◌, ◌^◌, ◌≤◌, ◌<◌, min}
use mathlib.Core.Path.{◌≡◌, refl, ap, sym, ◌∙◌}
use mathlib.Core.List.{List, [], ◌∷◌, ◌++◌, append_assoc}
use native.Mathlib.Omega.{arith}
use pico_https.Common.Tests.{ltb, if-elim}
use pico_https.Common.Lists.{
  length, take, drop, set, replicate, memcpy, memcpy_front, length-append, length-take,
}
use pico_https.Common.Text.{digits, print_int, print_at}

pub length-print_int : (n : ℕ) → length (print_int n) ≤ 11
unfolding print_int
length-print_int n =
    if-elim (λ (t : List ℕ). length t ≤ 11) (ltb n (2 ^ 31))
      (λ _. omega (arith, length-digits 10 n)) (λ _. omega (arith, length-digits 10 (2 ^ 32 - n)))
  where
    length-digits : (rounds n : ℕ) → length (digits rounds n) ≤ rounds
    length-digits zero n = omega arith
    length-digits (suc rounds) n =
        if-elim (λ (t : List ℕ). length t ≤ suc rounds) (ltb n 10) (λ _. omega arith)
          (λ _. omega (
            arith,
            length-digits rounds (n / 10),
            length-append (digits rounds (n / 10)) ((b'0' + n % 10) ∷ []),
          ))

module _ {ℓ} {A : Type ℓ} where
  pub length-replicate : (n : ℕ) (x : A) → length (replicate n x) ≡ n
  length-replicate zero x = omega arith
  length-replicate (suc n) x = omega (arith, length-replicate n x)

  drop-nil : (n : ℕ) → drop {A = A} n [] ≡ []
  drop-nil zero = refl
  drop-nil (suc n) = refl

  pub drop-drop : (m n : ℕ) (xs : List A) → drop m (drop n xs) ≡ drop (n + m) xs
  drop-drop m zero xs = ap (λ k. drop k xs) (omega arith)
  drop-drop zero (suc n) [] = sym (drop-nil (suc n + 0))
  drop-drop (suc m) (suc n) [] = sym (drop-nil (suc n + suc m))
  drop-drop m (suc n) (x ∷ xs) =
      let e : suc n + m ≡ suc (n + m) = omega arith in rw e (drop-drop m n xs)

  memcpy-append : (xs ys src : List A) → memcpy (xs ++ ys) (length xs) src ≡ xs ++ memcpy ys 0 src
  memcpy-append [] ys src = refl
  memcpy-append (x ∷ xs) ys src = ap (λ t. x ∷ t) (memcpy-append xs ys src)

  pub take-set : (n : ℕ) (xs : List A) (v : A) → take n (set xs n v) ≡ take n xs
  take-set zero xs v = refl
  take-set (suc n) [] v = refl
  take-set (suc n) (x ∷ xs) v = ap (λ t. x ∷ t) (take-set n xs v)

  pub drop-set_before : (n i : ℕ) (xs : List A) (v : A) → i < n → drop n (set xs i v) ≡ drop n xs
  drop-set_before n i [] v l = refl
  drop-set_before zero i (x ∷ xs) v l = absurd (omega arith)
  drop-set_before (suc n) zero (x ∷ xs) v l = refl
  drop-set_before (suc n) (suc i) (x ∷ xs) v l = drop-set_before n i xs v (omega arith)

  pub drop-set : (n : ℕ) (xs : List A) (w v : A) → drop n xs ≡ w ∷ [] → drop n (set xs n v) ≡ v ∷ []
  drop-set zero [] w v e = cc
  drop-set zero (x ∷ xs) w v e = ap (λ t. v ∷ drop 1 t) e
  drop-set (suc n) [] w v e = cc
  drop-set (suc n) (x ∷ xs) w v e = drop-set n xs w v e

-- Behind `front`, in an array that is long enough.
pub print_at-append :
    (front behind text : List ℕ) (size : ℕ)
    → size < length behind
    → print_at (front ++ behind) (length front) (suc size) text
      ≡ front ++ (take size text ++ 0 ∷ drop (min size (length text) + 1) behind)
print_at-append front behind text size l =
    memcpy-append front behind (take size text ++ 0 ∷ [])
    ∙ ap (λ t. front ++ t)
        (memcpy_front behind (take size text ++ 0 ∷ [])
            (omega (arith, length-append (take size text) (0 ∷ []), length-take size text))
          ∙ append_assoc (take size text) (0 ∷ []) (drop (length (take size text ++ 0 ∷ [])) behind)
          ∙ ap (λ k. take size text ++ 0 ∷ drop k behind) count)
  where
    count : length (take size text ++ 0 ∷ []) ≡ min size (length text) + 1
    count = omega (arith, length-append (take size text) (0 ∷ []), length-take size text)
