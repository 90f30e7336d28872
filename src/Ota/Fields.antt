-- ===== src/Ota/Fields.antt =====
-- The marks of the regions, and the fields of a block whose address is set.
use pico_https.Common.{
  ℕ, zero, suc, ◌+◌, ◌/◌, ◌%◌, ◌^◌, ◌≤◌, ◌<◌, bit_and, bit_or, Bool, true, not, ◌&&◌, ◌≡◌, refl,
  inl, inr, [], ◌∷◌, Bytes, All, IsByte, arith,
}
use pico_https.Common.Tests.{ltb, ◌==◌, ==_iff, Bool-cases}
use pico_https.Common.Lists.{length, get_or, drop, set, memcpy}
use pico_https.Ota.Store.{payload_size, set_target, get_region_erased, set_region_erased}

sets_bit : (bit byte : ℕ) → Bool
sets_bit bit byte = ltb 0 (bit_and (bit_or byte (2 ^ bit)) (2 ^ bit))

sets_bit_to : (bit last : ℕ) → Bool
sets_bit_to bit zero = sets_bit bit 0
sets_bit_to bit (suc last) = sets_bit_to bit last && sets_bit bit (suc last)

sets_bit_within :
    (bit last byte : ℕ) → byte ≤ last → sets_bit_to bit last ≡ true → sets_bit bit byte ≡ true
unfolding sets_bit_to
sets_bit_within bit zero byte l e = let z : byte ≡ 0 = omega arith in rw z e
sets_bit_within bit (suc last) byte l e = elim (Bool-cases (byte == suc last)) [
  | inl e' ↦
      let at_last : byte ≡ suc last = ground (arith, ==_iff byte (suc last)) in
      rw at_last (ground arith)
  | inr e' ↦ sets_bit_within bit last byte (ground (arith, ==_iff byte (suc last))) (ground arith)
]

every_byte : (bit : ℕ) → bit < 8 → sets_bit_to bit 255 ≡ true
unfolding sets_bit_to sets_bit
every_byte zero l = refl
every_byte (suc zero) l = refl
every_byte (suc (suc zero)) l = refl
every_byte (suc (suc (suc zero))) l = refl
every_byte (suc (suc (suc (suc zero)))) l = refl
every_byte (suc (suc (suc (suc (suc zero))))) l = refl
every_byte (suc (suc (suc (suc (suc (suc zero)))))) l = refl
every_byte (suc (suc (suc (suc (suc (suc (suc zero))))))) l = refl
every_byte (suc (suc (suc (suc (suc (suc (suc (suc bit)))))))) l = absurd (omega arith)

set_bit : (k x : ℕ) → k < 8 → x < 256 → not (bit_and (bit_or x (2 ^ k)) (2 ^ k) == 0) ≡ true
unfolding sets_bit
set_bit k x l m = ground (arith, sets_bit_within k 255 x (omega arith) (every_byte k l))

get_or-set_self : (xs : Bytes) (i v : ℕ) → i < length xs → get_or (set xs i v) i 0 ≡ v
get_or-set_self [] i v l = absurd (omega arith)
get_or-set_self (x ∷ xs) zero v l = refl
get_or-set_self (x ∷ xs) (suc i) v l = get_or-set_self xs i v (omega arith)

pub get_or-IsByte : (xs : Bytes) (i : ℕ) → All IsByte xs → get_or xs i 0 < 256
get_or-IsByte [] i a = omega arith
get_or-IsByte (x ∷ xs) zero a = a.0
get_or-IsByte (x ∷ xs) (suc i) a = get_or-IsByte xs i a.1

pub get_region_erased-set_region_erased :
    (regions : Bytes) (region : ℕ)
    → All IsByte regions
    → region / 8 < length regions
    → get_region_erased (set_region_erased regions region) region ≡ true
unfolding get_region_erased set_region_erased
get_region_erased-set_region_erased regions region a l =
    let old = get_or regions (region / 8) 0 in
    rw (get_or-set_self regions (region / 8) (bit_or old (2 ^ (region % 8))) l)
      (set_bit (region % 8) old (omega arith) (get_or-IsByte regions (region / 8) a))

get_or-memcpy_behind :
    (dst src : Bytes) (off i : ℕ)
    → off + length src ≤ i
    → get_or (memcpy dst off src) i 0 ≡ get_or dst i 0
get_or-memcpy_behind [] src off i l = refl
get_or-memcpy_behind (x ∷ xs) [] zero i l = refl
get_or-memcpy_behind (x ∷ xs) (y ∷ ys) zero zero l = absurd (omega arith)
get_or-memcpy_behind (x ∷ xs) (y ∷ ys) zero (suc i) l =
    get_or-memcpy_behind xs ys zero i (omega arith)
get_or-memcpy_behind (x ∷ xs) src (suc off) zero l = absurd (omega arith)
get_or-memcpy_behind (x ∷ xs) src (suc off) (suc i) l =
    get_or-memcpy_behind xs src off i (omega arith)

pub get_or-set_target :
    (buf : Bytes) (v i : ℕ) → 16 ≤ i → get_or (set_target buf v) i 0 ≡ get_or buf i 0
unfolding set_target
get_or-set_target buf v i l =
    get_or-memcpy_behind buf
      ((v % 2 ^ 8) ∷ (v / 2 ^ 8 % 2 ^ 8) ∷ (v / 2 ^ 16 % 2 ^ 8) ∷ (v / 2 ^ 24 % 2 ^ 8) ∷ []) 12 i
      (omega arith)

pub payload_size-set_target :
    (buf : Bytes) (v : ℕ) → payload_size (set_target buf v) ≡ payload_size buf
payload_size-set_target buf v =
    rw
      (
        get_or-set_target buf v 16 (omega arith),
        get_or-set_target buf v 17 (omega arith),
        get_or-set_target buf v 18 (omega arith),
        get_or-set_target buf v 19 (omega arith),
      )
      refl

pub get_or-drop_more : (xs : Bytes) (k i : ℕ) → get_or (drop k xs) i 0 ≡ get_or xs (k + i) 0
get_or-drop_more xs zero i = let z : 0 + i ≡ i = omega arith in rw z refl
get_or-drop_more [] (suc k) i = refl
get_or-drop_more (x ∷ xs) (suc k) i =
    let n : suc k + i ≡ suc (k + i) = omega arith in rw n (get_or-drop_more xs k i)
