-- ===== src/Ota/Blocks.antt =====
-- `storeData` on an image, one block after the other.
use pico_https.Common.{
  Bool, true, false, ◌≡◌, refl, ◌∙◌, ap, some, List, [], ◌∷◌, ◌++◌, append-nil, Bytes, All, arith,
}
use pico_https.Common.Tests.{if◌then◌else◌}
use pico_https.Common.Lists.{length, drop, memcpy, memcpy_front, length-drop}
use pico_https.Ota.Flash.{FlashOps}
use pico_https.Ota.Store.{UpgradeHelper, block_size, store_block, store_data}
use pico_https.Ota.Feed.{feed, feed_full, after_block, store_rounds-feed, store_block-index}
use pico_https.Ota.Bounds.{length-store_block}
use pico_https.Ota.Kept.{AreRegions, store_block-AreRegions}

-- The bytes of an image.
abbrev pub image : List Bytes → Bytes
image [] = []
image (block ∷ blocks) = block ++ image blocks

-- The object when `block` is in its buffer.
abbrev pub with_block : UpgradeHelper → Bytes → UpgradeHelper
with_block u block = record u { buffer = block; index = 0 }

abbrev pub IsBlock : Bytes → Type 0
IsBlock block = length block ≡ block_size

-- What the proof keeps about the object between two blocks.
abbrev pub IsBetween : UpgradeHelper → Type 0
IsBetween u = (length u.buffer ≡ block_size) × (u.index ≡ 0) × AreRegions u.region_erased

module _ {F : Type 0} (ops : FlashOps F) where
  -- One block after the other.
  unfoldable pub store_blocks : UpgradeHelper → F → List Bytes → Bool × UpgradeHelper × F
  store_blocks u f [] = (true, u, f)
  store_blocks u f (block ∷ blocks) =
      let (ok, u', f') = store_block ops (with_block u block) f in
      let rest = store_blocks u' f' blocks in if ok then rest else (false, u', f')

  whole_block :
      (u : UpgradeHelper) (block : Bytes)
      → length u.buffer ≡ block_size
      → IsBlock block
      → memcpy u.buffer 0 block ≡ block
  whole_block u block size b =
      memcpy_front u.buffer block (omega arith)
      ∙ ap (λ t. block ++ t)
          (nothing_left (drop (length block) u.buffer)
            (omega (arith, length-drop (length block) u.buffer, size, b)))
      ∙ append-nil block
    where
      nothing_left : (xs : Bytes) → length xs ≡ 0 → xs ≡ []
      nothing_left [] e = refl
      nothing_left (x ∷ xs) e = absurd (omega arith)

  store_block-IsBetween :
      (u : UpgradeHelper) (f : F) (block : Bytes)
      → IsBlock block
      → AreRegions u.region_erased
      → IsBetween (store_block ops (with_block u block) f).1
  store_block-IsBetween u f block b v = (
    length-store_block ops (with_block u block) f ∙ b,
    store_block-index ops (with_block u block) f,
    store_block-AreRegions ops (with_block u block) f v,
  )

  after_next :
      (r : Bool × UpgradeHelper × F) (ys : Bytes) (next : Bool × UpgradeHelper × F)
      → feed ops r.1 r.2 ys ≡ next
      → after_block ops r ys ≡ (if r.0 then next else (false, r.1, r.2))
  unfolding after_block
  after_next r ys next e = ap (λ rest. if r.0 then rest else (false, r.1, r.2)) e

  feed-store_blocks :
      (u : UpgradeHelper) (f : F) (blocks : List Bytes)
      → IsBetween u
      → All IsBlock blocks
      → feed ops u f (image blocks) ≡ store_blocks u f blocks
  unfolding store_blocks
  feed-store_blocks u f [] v b = unfold feed in refl
  feed-store_blocks u f ([] ∷ blocks) v b = absurd (omega (arith, b.0))
  feed-store_blocks u f ((c ∷ cs) ∷ blocks) (size, at_start, regions) (b, bs) =
      let block = c ∷ cs in
      let stored = store_block ops (with_block u block) f in
      let next =
        feed-store_blocks stored.1 stored.2 blocks (store_block-IsBetween u f block b regions) bs in
      feed_full ops u f c cs (image blocks) (omega (arith, b, at_start))
      ∙ ap
          (λ buffer.
            after_block ops (store_block ops (record u { buffer = buffer; index = 0 }) f)
              (image blocks))
          (ap (λ i. memcpy u.buffer i block) at_start ∙ whole_block u block size b)
      ∙ after_next stored (image blocks) (store_blocks stored.1 stored.2 blocks) next

  pub store_data-store_blocks :
      (u : UpgradeHelper) (f : F) (blocks : List Bytes)
      → IsBetween u
      → All IsBlock blocks
      → store_data ops u f (image blocks) ≡ some (store_blocks u f blocks)
  unfolding store_data
  store_data-store_blocks u f blocks (size, at_start, regions) b =
      store_rounds-feed ops (length (image blocks)) u f (image blocks) (omega arith) (omega arith)
      ∙ ap some (feed-store_blocks u f blocks (size, at_start, regions) b)

  pub stored_first :
      (u : UpgradeHelper) (f : F) (block : Bytes) (blocks : List Bytes)
      → (store_blocks u f (block ∷ blocks)).0 ≡ true
      → ((store_block ops (with_block u block) f).0 ≡ true)
        × (store_blocks u f (block ∷ blocks)
            ≡ store_blocks
                (store_block ops (with_block u block) f).1
                (store_block ops (with_block u block) f).2
                blocks)
  unfolding store_blocks
  stored_first u f block blocks ok = ground arith
