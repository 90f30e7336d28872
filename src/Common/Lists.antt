-- ===== src/Common/Lists.antt =====
-- Arrays as lists measured and indexed by native numbers.
use Prim.Native.Nat.{ℕ, zero, suc, ◌+◌, ◌-◌, ◌≤◌, ◌<◌, min}
use mathlib.Core.Path.{◌≡◌, refl, ap}
use mathlib.Core.List.{List, [], ◌∷◌, ◌++◌}
use native.Mathlib.Omega.{arith}

module _ {ℓ} {A : Type ℓ} where
  abbrev pub length : List A → ℕ
  length [] = 0
  length (x ∷ xs) = suc (length xs)

  abbrev pub get_or : List A → ℕ → A → A
  get_or [] i d = d
  get_or (x ∷ xs) zero d = x
  get_or (x ∷ xs) (suc i) d = get_or xs i d

  abbrev pub take : ℕ → List A → List A
  take zero xs = []
  take (suc n) [] = []
  take (suc n) (x ∷ xs) = x ∷ take n xs

  abbrev pub drop : ℕ → List A → List A
  drop zero xs = xs
  drop (suc n) [] = []
  drop (suc n) (x ∷ xs) = drop n xs

  abbrev pub replicate : ℕ → A → List A
  replicate zero x = []
  replicate (suc n) x = x ∷ replicate n x

  -- A write out of bounds changes nothing.
  abbrev pub set : List A → ℕ → A → List A
  set [] i v = []
  set (x ∷ xs) zero v = v ∷ xs
  set (x ∷ xs) (suc i) v = x ∷ set xs i v

  -- `memcpy(&dst[off], src, n)` for the `n` bytes of `src`; what falls outside `dst` is dropped.
  abbrev pub memcpy : List A → ℕ → List A → List A
  memcpy [] off src = []
  memcpy (x ∷ xs) zero [] = x ∷ xs
  memcpy (x ∷ xs) zero (y ∷ ys) = y ∷ memcpy xs zero ys
  memcpy (x ∷ xs) (suc off) src = x ∷ memcpy xs off src

  pub length-append : (xs ys : List A) → length (xs ++ ys) ≡ length xs + length ys
  length-append [] ys = omega arith
  length-append (x ∷ xs) ys = omega (arith, length-append xs ys)

  pub length-take : (n : ℕ) (xs : List A) → length (take n xs) ≡ min n (length xs)
  length-take zero xs = omega arith
  length-take (suc n) [] = omega arith
  length-take (suc n) (x ∷ xs) = omega (arith, length-take n xs)

  pub length-drop : (n : ℕ) (xs : List A) → length (drop n xs) ≡ length xs - n
  length-drop zero xs = omega arith
  length-drop (suc n) [] = omega arith
  length-drop (suc n) (x ∷ xs) = omega (arith, length-drop n xs)

  pub take-append-drop : (n : ℕ) (xs : List A) → take n xs ++ drop n xs ≡ xs
  take-append-drop zero xs = refl
  take-append-drop (suc n) [] = refl
  take-append-drop (suc n) (x ∷ xs) = rw (take-append-drop n xs)

  pub take_all : (n : ℕ) (xs : List A) → length xs ≤ n → take n xs ≡ xs
  take_all zero [] h = refl
  take_all zero (x ∷ xs) h = absurd (omega arith)
  take_all (suc n) [] h = refl
  take_all (suc n) (x ∷ xs) h = ap (◌∷◌ x) (take_all n xs (omega arith))

  pub take-take : (m n : ℕ) (xs : List A) → m ≤ n → take m (take n xs) ≡ take m xs
  take-take zero n xs h = refl
  take-take (suc m) zero xs h = absurd (omega arith)
  take-take (suc m) (suc n) [] h = refl
  take-take (suc m) (suc n) (x ∷ xs) h = ap (◌∷◌ x) (take-take m n xs (omega arith))

  pub take-append :
      (n : ℕ) (xs ys : List A) → take n (xs ++ ys) ≡ take n xs ++ take (n - length xs) ys
  take-append zero [] ys = refl
  take-append (suc n) [] ys = let e : suc n - 0 ≡ suc n = omega arith in rw e
  take-append zero (x ∷ xs) ys = let e : 0 - suc (length xs) ≡ 0 = omega arith in rw e
  take-append (suc n) (x ∷ xs) ys =
      let e : suc n - suc (length xs) ≡ n - length xs = omega arith in
      rw e (ap (◌∷◌ x) (take-append n xs ys))

  pub drop-append_length : (xs ys : List A) → drop (length xs) (xs ++ ys) ≡ ys
  drop-append_length [] ys = refl
  drop-append_length (x ∷ xs) ys = drop-append_length xs ys

  pub take-append_length : (xs ys : List A) → take (length xs) (xs ++ ys) ≡ xs
  take-append_length [] ys = refl
  take-append_length (x ∷ xs) ys = ap (◌∷◌ x) (take-append_length xs ys)

  pub get_or-take : (n i : ℕ) (xs : List A) (d : A) → i < n → get_or (take n xs) i d ≡ get_or xs i d
  get_or-take zero i xs d h = absurd (omega arith)
  get_or-take (suc n) i [] d h = refl
  get_or-take (suc n) zero (x ∷ xs) d h = refl
  get_or-take (suc n) (suc i) (x ∷ xs) d h = get_or-take n i xs d (omega arith)

  pub get_or-append :
      (xs ys : List A) (i : ℕ) (d : A) → i < length xs → get_or (xs ++ ys) i d ≡ get_or xs i d
  get_or-append [] ys i d h = absurd (omega arith)
  get_or-append (x ∷ xs) ys zero d h = refl
  get_or-append (x ∷ xs) ys (suc i) d h = get_or-append xs ys i d (omega arith)

  pub length-memcpy :
      (dst : List A) (off : ℕ) (src : List A) → length (memcpy dst off src) ≡ length dst
  length-memcpy [] off src = refl
  length-memcpy (x ∷ xs) zero [] = refl
  length-memcpy (x ∷ xs) zero (y ∷ ys) = ap suc (length-memcpy xs zero ys)
  length-memcpy (x ∷ xs) (suc off) src = ap suc (length-memcpy xs off src)

  -- A copy that fits leaves what stood before it and puts `src` behind that.
  pub take-memcpy :
      (dst : List A) (off : ℕ) (src : List A) (n : ℕ)
      → n ≡ off + length src
      → n ≤ length dst
      → take n (memcpy dst off src) ≡ take off dst ++ src
  take-memcpy [] off [] zero e h = let z : off ≡ 0 = omega arith in rw z
  take-memcpy [] off (y ∷ ys) zero e h = absurd (omega arith)
  take-memcpy [] off src (suc n) e h = absurd (omega arith)
  take-memcpy (x ∷ xs) zero [] zero e h = refl
  take-memcpy (x ∷ xs) zero [] (suc n) e h = absurd (omega arith)
  take-memcpy (x ∷ xs) zero (y ∷ ys) zero e h = absurd (omega arith)
  take-memcpy (x ∷ xs) zero (y ∷ ys) (suc n) e h =
      ap (◌∷◌ y) (take-memcpy xs zero ys n (omega arith) (omega arith))
  take-memcpy (x ∷ xs) (suc off) src zero e h = absurd (omega arith)
  take-memcpy (x ∷ xs) (suc off) src (suc n) e h =
      ap (◌∷◌ x) (take-memcpy xs off src n (omega arith) (omega arith))

  pub get_or-memcpy :
      (dst src : List A) (i : ℕ) (d : A)
      → i < length src
      → i < length dst
      → get_or (memcpy dst 0 src) i d ≡ get_or src i d
  get_or-memcpy [] src i d h g = absurd (omega arith)
  get_or-memcpy (x ∷ xs) [] i d h g = absurd (omega arith)
  get_or-memcpy (x ∷ xs) (y ∷ ys) zero d h g = refl
  get_or-memcpy (x ∷ xs) (y ∷ ys) (suc i) d h g =
      get_or-memcpy xs ys i d (omega arith) (omega arith)

  pub get_or-append_length :
      (xs ys : List A) (i : ℕ) (d : A) → get_or (xs ++ ys) (length xs + i) d ≡ get_or ys i d
  get_or-append_length [] ys i d = let e : 0 + i ≡ i = omega arith in rw e
  get_or-append_length (x ∷ xs) ys i d =
      let e : suc (length xs) + i ≡ suc (length xs + i) = omega arith in
      rw e (get_or-append_length xs ys i d)

  pub drop-append_more : (xs ys : List A) (k : ℕ) → drop (length xs + k) (xs ++ ys) ≡ drop k ys
  drop-append_more [] ys k = let e : 0 + k ≡ k = omega arith in rw e
  drop-append_more (x ∷ xs) ys k =
      let e : suc (length xs) + k ≡ suc (length xs + k) = omega arith in
      rw e (drop-append_more xs ys k)

  -- A copy to the start that fits.
  pub memcpy_front :
      (dst src : List A) → length src ≤ length dst → memcpy dst 0 src ≡ src ++ drop (length src) dst
  memcpy_front [] [] h = refl
  memcpy_front [] (y ∷ ys) h = absurd (omega arith)
  memcpy_front (x ∷ xs) [] h = refl
  memcpy_front (x ∷ xs) (y ∷ ys) h = ap (◌∷◌ y) (memcpy_front xs ys (omega arith))

  pub length-set : (xs : List A) (i : ℕ) (v : A) → length (set xs i v) ≡ length xs
  length-set [] i v = refl
  length-set (x ∷ xs) zero v = refl
  length-set (x ∷ xs) (suc i) v = ap suc (length-set xs i v)

  pub set-append_length :
      (xs : List A) (y v : A) (ys : List A) → set (xs ++ y ∷ ys) (length xs) v ≡ xs ++ v ∷ ys
  set-append_length [] y v ys = refl
  set-append_length (x ∷ xs) y v ys = ap (◌∷◌ x) (set-append_length xs y v ys)

  pub set-append :
      (xs ys : List A) (i : ℕ) (v : A) → i < length xs → set (xs ++ ys) i v ≡ set xs i v ++ ys
  set-append [] ys i v h = absurd (omega arith)
  set-append (x ∷ xs) ys zero v h = refl
  set-append (x ∷ xs) ys (suc i) v h = ap (◌∷◌ x) (set-append xs ys i v (omega arith))

  pub set-append_more :
      (xs ys : List A) (k : ℕ) (v : A) → set (xs ++ ys) (length xs + k) v ≡ xs ++ set ys k v
  set-append_more [] ys k v = let e : 0 + k ≡ k = omega arith in rw e
  set-append_more (x ∷ xs) ys k v =
      let e : suc (length xs) + k ≡ suc (length xs + k) = omega arith in
      rw e (ap (◌∷◌ x) (set-append_more xs ys k v))

  pub get_or-drop :
      (i : ℕ) (xs ys : List A) (y d : A)
      → drop i xs ≡ y ∷ ys
      → (get_or xs i d ≡ y) × (drop (i + 1) xs ≡ ys)
  get_or-drop zero [] ys y d e = cc
  get_or-drop zero (x ∷ xs) ys y d e = (cc, cc)
  get_or-drop (suc i) [] ys y d e = cc
  get_or-drop (suc i) (x ∷ xs) ys y d e =
      let n : suc i + 1 ≡ suc (i + 1) = omega arith in rw n (get_or-drop i xs ys y d e)

  pub memcpy-set :
      (dst : List A) (i : ℕ) (y : A) (ys : List A)
      → memcpy dst i (y ∷ ys) ≡ memcpy (set dst i y) (i + 1) ys
  memcpy-set [] i y ys = refl
  memcpy-set (x ∷ xs) zero y ys = refl
  memcpy-set (x ∷ xs) (suc i) y ys =
      let e : suc i + 1 ≡ suc (i + 1) = omega arith in rw e (ap (◌∷◌ x) (memcpy-set xs i y ys))

  pub memcpy-nil : (dst : List A) (i : ℕ) → memcpy dst i [] ≡ dst
  memcpy-nil [] i = refl
  memcpy-nil (x ∷ xs) zero = refl
  memcpy-nil (x ∷ xs) (suc i) = ap (◌∷◌ x) (memcpy-nil xs i)

  pub get_or-memcpy_at :
      (dst : List A) (off : ℕ) (src : List A) (k : ℕ) (d : A)
      → k < length src
      → off + k < length dst
      → get_or (memcpy dst off src) (off + k) d ≡ get_or src k d
  get_or-memcpy_at [] off src k d h g = absurd (omega arith)
  get_or-memcpy_at (x ∷ xs) zero src k d h g =
      let e : 0 + k ≡ k = omega arith in rw e (get_or-memcpy (x ∷ xs) src k d h (omega arith))
  get_or-memcpy_at (x ∷ xs) (suc off) src k d h g =
      let e : suc off + k ≡ suc (off + k) = omega arith in
      rw e (get_or-memcpy_at xs off src k d h (omega arith))
