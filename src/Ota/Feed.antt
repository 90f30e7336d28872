-- ===== src/Ota/Feed.antt =====
-- `storeData` as one byte after the other.
use pico_https.Common.{
  ℕ, zero, suc, ◌+◌, ◌-◌, ◌%◌, ◌^◌, ◌≤◌, ◌<◌, min, Bool, true, false, ◌≡◌, refl, ◌∙◌, ap, sym, inl,
  inr, some, [], ◌∷◌, ◌++◌, Bytes, arith,
}
use pico_https.Common.Tests.{ltb, ◌==◌, if◌then◌else◌, Bool-cases}
use pico_https.Common.Lists.{
  length, take, drop, set, memcpy, memcpy-set, memcpy-nil, length-take, length-drop,
  take-append-drop,
}
use pico_https.Ota.Flash.{FlashOps}
use pico_https.Ota.Store.{
  UpgradeHelper, block_size, store_block, write_block, write_to_flash, target_addr, xip_base,
  set_target, ota_flash_buffer_offset, fill, store_rounds,
}

module _ {F : Type 0} (ops : FlashOps F) where
  -- A byte is put into the buffer; the last byte of a block has the block stored.
  unfoldable pub feed : UpgradeHelper → F → Bytes → Bool × UpgradeHelper × F
  feed u f [] = (true, u, f)
  feed u f (b ∷ bytes) =
      let u' = record u { buffer = set u.buffer u.index b; index = u.index + 1 } in
      let (ok, u'', f') = store_block ops (record u' { index = 0 }) f in
      let stored = feed u'' f' bytes in
      let partial = feed u' f bytes in
      if u.index + 1 == block_size then if ok then stored else (false, u'', f') else partial

  write_to_flash-index : (u : UpgradeHelper) (f : F) → (write_to_flash ops u f).0.index ≡ u.index
  unfolding write_to_flash
  write_to_flash-index u f = ground arith

  write_block-index : (u : UpgradeHelper) (f : F) → (write_block ops u f).1.index ≡ u.index
  unfolding write_block
  write_block-index u f = ground (arith, write_to_flash-index u f)

  pub store_block-index : (u : UpgradeHelper) (f : F) → (store_block ops u f).1.index ≡ u.index
  unfolding store_block
  store_block-index u f =
      let relative = (target_addr u.buffer + 2 ^ 32 - xip_base) % 2 ^ 32 in
      let placed = set_target u.buffer ((relative + ota_flash_buffer_offset) % 2 ^ 32) in
      ground (arith, write_block-index (record u { buffer = placed }) f)

  abbrev pub copied : UpgradeHelper → Bytes → UpgradeHelper
  copied u xs = record u { buffer = memcpy u.buffer u.index xs; index = u.index + length xs }

  feed_partial :
      (u : UpgradeHelper) (f : F) (xs ys : Bytes)
      → u.index + length xs < block_size
      → feed u f (xs ++ ys) ≡ feed (copied u xs) f ys
  unfolding feed
  feed_partial u f [] ys l =
      let z : u.index + 0 ≡ u.index = omega arith in rw (z, memcpy-nil u.buffer u.index) refl
  feed_partial u f (b ∷ xs) ys l =
      let more : (u.index + 1 == block_size) ≡ false = ground arith in
      let n : u.index + suc (length xs) ≡ u.index + 1 + length xs = omega arith in
      rw (more, memcpy-set u.buffer u.index b xs, n)
        (feed_partial (record u { buffer = set u.buffer u.index b; index = u.index + 1 }) f xs ys
          (omega arith))

  -- Where the bytes fill the buffer.
  unfoldable pub after_block : Bool × UpgradeHelper × F → Bytes → Bool × UpgradeHelper × F
  after_block (ok, u, f) ys = let rest = feed u f ys in if ok then rest else (false, u, f)

  pub feed_full :
      (u : UpgradeHelper) (f : F) (b : ℕ) (xs ys : Bytes)
      → u.index + suc (length xs) ≡ block_size
      → feed u f (b ∷ xs ++ ys)
        ≡ after_block (store_block ops (record (copied u (b ∷ xs)) { index = 0 }) f) ys
  unfolding feed after_block
  feed_full u f b [] ys l =
      let full : (u.index + 1 == block_size) ≡ true = ground arith in
      rw (full, memcpy-set u.buffer u.index b [], memcpy-nil (set u.buffer u.index b) (u.index + 1))
        refl
  feed_full u f b (c ∷ xs) ys l =
      let more : (u.index + 1 == block_size) ≡ false = ground arith in
      rw (more, memcpy-set u.buffer u.index b (c ∷ xs))
        (feed_full (record u { buffer = set u.buffer u.index b; index = u.index + 1 }) f c xs ys
          (omega arith))

  -- After a block, with the rest of the bytes and rounds enough.
  rounds_after :
      (fuel : ℕ) (r : Bool × UpgradeHelper × F) (ys : Bytes)
      → store_rounds ops fuel r.1 r.2 ys ≡ some (feed r.1 r.2 ys)
      → (if r.0 then store_rounds ops fuel r.1 r.2 ys else some (false, r.1, r.2))
        ≡ some (after_block r ys)
  unfolding after_block
  rounds_after fuel (true, u, f) ys ih = ih
  rounds_after fuel (false, u, f) ys ih = refl

  pub store_rounds-feed :
      (fuel : ℕ) (u : UpgradeHelper) (f : F) (bytes : Bytes)
      → u.index < block_size
      → length bytes ≤ fuel
      → store_rounds ops fuel u f bytes ≡ some (feed u f bytes)
  unfolding store_rounds fill
  store_rounds-feed zero u f [] l e = unfold feed in refl
  store_rounds-feed (suc fuel) u f [] l e = unfold feed in refl
  store_rounds-feed zero u f (b ∷ bs) l e = absurd (omega arith)
  store_rounds-feed (suc fuel) u f (b ∷ bs) l e =
      let m = min (length bs) (block_size - u.index - 1) in
      let count : min (suc (length bs)) ((block_size + 2 ^ 32 - u.index) % 2 ^ 32) ≡ suc m =
        omega arith in
      let size : length (take m bs) ≡ m = omega (arith, length-take m bs) in
      let u' = copied u (b ∷ take m bs) in
      let split : feed u f (b ∷ take m bs ++ drop m bs) ≡ feed u f (b ∷ bs) =
        ap (λ t. feed u f (b ∷ t)) (take-append-drop m bs) in
      let fewer : length (drop m bs) ≤ fuel = omega (arith, length-drop m bs) in
      let idx : u.index + suc m ≡ u.index + suc (length (take m bs)) = omega arith in
      elim (Bool-cases (u.index + suc (length (take m bs)) == block_size)) [
        | inl full ↦
            let stored = store_block ops (record u' { index = 0 }) f in
            let ih =
              store_rounds-feed fuel stored.1 stored.2 (drop m bs)
                (omega (arith, store_block-index (record u' { index = 0 }) f)) fewer in
            rw (count, idx, full)
              (rounds_after fuel stored (drop m bs) ih
                ∙ ap some (sym (feed_full u f b (take m bs) (drop m bs) (ground arith)) ∙ split))
        | inr part ↦
            let over : ltb block_size (u.index + suc (length (take m bs))) ≡ false = ground arith in
            let less : u.index + suc (length (take m bs)) < block_size = ground arith in
            let ih = store_rounds-feed fuel u' f (drop m bs) less fewer in
            rw (count, idx, part, over)
              (ih ∙ ap some (sym (feed_partial u f (b ∷ take m bs) (drop m bs) less) ∙ split))
      ]
