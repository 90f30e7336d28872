-- ===== src/Ota/Marks.antt =====
-- Marking a region leaves the other marks.
use pico_https.Common.{
  ℕ, zero, suc, ◌/◌, ◌%◌, ◌^◌, ◌≤◌, ◌<◌, bit_and, bit_or, Bool, true, not, ◌&&◌, ◌||◌, ◌≡◌, ◌⊎◌,
  refl, ◌∙◌, ap, sym, inl, inr, [], ◌∷◌, Bytes, All, IsByte, arith,
}
use pico_https.Common.Tests.{ltb, ◌==◌, ==_iff, Bool-cases}
use pico_https.Common.Lists.{get_or, set}
use pico_https.Ota.Store.{get_region_erased, set_region_erased}
use pico_https.Ota.Fields.{get_or-IsByte}

-- Setting a bit of a byte gives a byte, and keeps the bits that are set.
keeps_bit : (set_ byte bit : ℕ) → Bool
keeps_bit set_ byte bit =
    bit_and byte (2 ^ bit) == 0 || not (bit_and (bit_or byte (2 ^ set_)) (2 ^ bit) == 0)

keeps_bits : (set_ byte bits : ℕ) → Bool
keeps_bits set_ byte zero = ltb (bit_or byte (2 ^ set_)) 256
keeps_bits set_ byte (suc bits) = keeps_bits set_ byte bits && keeps_bit set_ byte bits

keeps_to : (set_ last : ℕ) → Bool
keeps_to set_ zero = keeps_bits set_ 0 8
keeps_to set_ (suc last) = keeps_to set_ last && keeps_bits set_ (suc last) 8

keeps_all : (set_ : ℕ) → set_ < 8 → keeps_to set_ 255 ≡ true
unfolding keeps_to keeps_bits keeps_bit
keeps_all zero l = refl
keeps_all (suc zero) l = refl
keeps_all (suc (suc zero)) l = refl
keeps_all (suc (suc (suc zero))) l = refl
keeps_all (suc (suc (suc (suc zero)))) l = refl
keeps_all (suc (suc (suc (suc (suc zero))))) l = refl
keeps_all (suc (suc (suc (suc (suc (suc zero)))))) l = refl
keeps_all (suc (suc (suc (suc (suc (suc (suc zero))))))) l = refl
keeps_all (suc (suc (suc (suc (suc (suc (suc (suc set_)))))))) l = absurd (omega arith)

keeps_within :
    (set_ last byte : ℕ) → byte ≤ last → keeps_to set_ last ≡ true → keeps_bits set_ byte 8 ≡ true
unfolding keeps_to
keeps_within set_ zero byte l e = let z : byte ≡ 0 = omega arith in rw z e
keeps_within set_ (suc last) byte l e = elim (Bool-cases (byte == suc last)) [
  | inl e' ↦
      let at_last : byte ≡ suc last = ground (arith, ==_iff byte (suc last)) in
      rw at_last (ground arith)
  | inr e' ↦ keeps_within set_ last byte (ground (arith, ==_iff byte (suc last))) (ground arith)
]

keeps_bits_byte :
    (set_ byte bits : ℕ) → keeps_bits set_ byte bits ≡ true → bit_or byte (2 ^ set_) < 256
unfolding keeps_bits
keeps_bits_byte set_ byte zero e = ground arith
keeps_bits_byte set_ byte (suc bits) e = keeps_bits_byte set_ byte bits (ground arith)

keeps_bits_at :
    (set_ byte bits bit : ℕ)
    → bit < bits
    → keeps_bits set_ byte bits ≡ true
    → keeps_bit set_ byte bit ≡ true
unfolding keeps_bits
keeps_bits_at set_ byte zero bit l e = absurd (omega arith)
keeps_bits_at set_ byte (suc bits) bit l e = elim (Bool-cases (bit == bits)) [
  | inl e' ↦ let at_last : bit ≡ bits = ground (arith, ==_iff bit bits) in rw at_last (ground arith)
  | inr e' ↦ keeps_bits_at set_ byte bits bit (ground (arith, ==_iff bit bits)) (ground arith)
]

set-IsByte : (xs : Bytes) (i v : ℕ) → All IsByte xs → v < 256 → All IsByte (set xs i v)
set-IsByte [] i v a l = a
set-IsByte (x ∷ xs) zero v a l = (l, a.1)
set-IsByte (x ∷ xs) (suc i) v a l = (a.0, set-IsByte xs i v a.1 l)

get_or-set :
    (xs : Bytes) (i v j : ℕ)
    → (get_or (set xs i v) j 0 ≡ get_or xs j 0) ⊎ ((get_or (set xs i v) j 0 ≡ v) × (j ≡ i))
get_or-set [] i v j = inl refl
get_or-set (x ∷ xs) zero v zero = inr (refl, refl)
get_or-set (x ∷ xs) zero v (suc j) = inl refl
get_or-set (x ∷ xs) (suc i) v zero = inl refl
get_or-set (x ∷ xs) (suc i) v (suc j) = elim (get_or-set xs i v j) [
  | inl e ↦ inl e
  | inr (e, same) ↦ inr (e, ap suc same)
]

pub set_region_erased-IsByte :
    (regions : Bytes) (region : ℕ)
    → All IsByte regions
    → All IsByte (set_region_erased regions region)
unfolding set_region_erased
set_region_erased-IsByte regions region a =
    let old = get_or regions (region / 8) 0 in
    let small = get_or-IsByte regions (region / 8) a in
    set-IsByte regions (region / 8) (bit_or old (2 ^ (region % 8))) a (
      keeps_bits_byte (region % 8) old 8
        (keeps_within (region % 8) 255 old (omega arith) (keeps_all (region % 8) (omega arith))))

pub set_region_erased-get_region_erased :
    (regions : Bytes) (region other : ℕ)
    → All IsByte regions
    → get_region_erased regions other ≡ true
    → get_region_erased (set_region_erased regions region) other ≡ true
unfolding get_region_erased set_region_erased
set_region_erased-get_region_erased regions region other a e =
    let old = get_or regions (region / 8) 0 in
    let new = bit_or old (2 ^ (region % 8)) in
    elim (get_or-set regions (region / 8) new (other / 8)) [
      | inl same ↦ rw same e
      | inr (at, same) ↦
          let small : old < 256 = get_or-IsByte regions (region / 8) a in
          let kept : keeps_bit (region % 8) old (other % 8) ≡ true =
            keeps_bits_at (region % 8) old 8 (other % 8) (omega arith) (
              keeps_within (region % 8) 255 old (omega arith)
                (keeps_all (region % 8) (omega arith))) in
          let set_before : not (bit_and old (2 ^ (other % 8)) == 0) ≡ true =
            ap (λ n. not (bit_and (get_or regions n 0) (2 ^ (other % 8)) == 0)) (sym same) ∙ e in
          rw at (unfold keeps_bit in ground arith)
    ]
