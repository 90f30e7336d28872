-- ===== src/Ota/Chunks.antt =====
-- How an image may be cut into calls of `storeData`.
use pico_https.Common.{
  ◌+◌, ◌<◌, Bool, true, false, ◌≡◌, refl, ◌∙◌, ap, sym, inl, inr, Option, none, some, [], ◌∷◌, ◌++◌,
  Bytes, arith,
}
use pico_https.Common.Tests.{◌==◌, Bool-cases}
use pico_https.Common.Lists.{length, set}
use pico_https.Ota.Flash.{FlashOps}
use pico_https.Ota.Store.{UpgradeHelper, block_size, store_block, store_data}
use pico_https.Ota.Feed.{feed, store_block-index, store_rounds-feed}

module _ {F : Type 0} (ops : FlashOps F) where
  feed-index :
      (u : UpgradeHelper) (f : F) (bytes : Bytes)
      → u.index < block_size
      → (feed ops u f bytes).1.index < block_size
  unfolding feed
  feed-index u f [] l = l
  feed-index u f (b ∷ bytes) l =
      let u' = record u { buffer = set u.buffer u.index b; index = u.index + 1 } in
      let stored = store_block ops (record u' { index = 0 }) f in
      let start = store_block-index ops (record u' { index = 0 }) f in
      elim (Bool-cases (u.index + 1 == block_size)) [
        | inr part ↦ rw part (feed-index u' f bytes (ground arith))
        | inl full ↦ elim (Bool-cases stored.0) [
          | inl ok ↦ rw (full, ok) (feed-index stored.1 stored.2 bytes (omega arith))
          | inr bad ↦ rw (full, bad) (omega arith)
        ]
      ]

  -- What a call does after one with this result.
  abbrev pub and_then : Bool × UpgradeHelper × F → Bytes → Bool × UpgradeHelper × F
  and_then (true, u, f) bytes = feed ops u f bytes
  and_then (false, u, f) bytes = (false, u, f)

  feed-append :
      (u : UpgradeHelper) (f : F) (xs ys : Bytes)
      → feed ops u f (xs ++ ys) ≡ and_then (feed ops u f xs) ys
  unfolding feed
  feed-append u f [] ys = refl
  feed-append u f (b ∷ xs) ys =
      let u' = record u { buffer = set u.buffer u.index b; index = u.index + 1 } in
      let stored = store_block ops (record u' { index = 0 }) f in
      elim (Bool-cases (u.index + 1 == block_size)) [
        | inr part ↦ rw part (feed-append u' f xs ys)
        | inl full ↦ elim (Bool-cases stored.0) [
          | inl ok ↦ rw (full, ok) (feed-append stored.1 stored.2 xs ys)
          | inr bad ↦ rw (full, bad) refl
        ]
      ]

  -- The result of a call of `storeData`, and then one on `ys` unless it was refused.
  abbrev pub continued :
      Option (Bool × UpgradeHelper × F) → Bytes → Option (Bool × UpgradeHelper × F)
  continued none ys = none
  continued (some (true, u, f)) ys = store_data ops u f ys
  continued (some (false, u, f)) ys = some (false, u, f)

  continued-and_then :
      (r : Bool × UpgradeHelper × F) (ys : Bytes)
      → r.1.index < block_size
      → continued (some r) ys ≡ some (and_then r ys)
  unfolding store_data
  continued-and_then (true, u, f) ys l = store_rounds-feed ops (length ys) u f ys l (omega arith)
  continued-and_then (false, u, f) ys l = refl

  -- From a buffer that is not full, and where what is read behind the buffer lets the call return,
  -- `storeData` returns, with an index below the size of a block; and an image given in two calls, the second one only after a success of the first, is stored
  -- as in one call: the result, the object and the flash are the same.
  pub store_data-append :
      (u : UpgradeHelper) (f : F) (xs ys : Bytes)
      → u.index < block_size
      → (r : Bool × UpgradeHelper × F) × (store_data ops u f xs ≡ some r)
        × (r.1.index < block_size)
        × (continued (store_data ops u f xs) ys ≡ store_data ops u f (xs ++ ys))
  unfolding store_data
  store_data-append u f xs ys l =
      let first = store_rounds-feed ops (length xs) u f xs l (omega arith) in
      let idx = feed-index u f xs l in
      let whole = store_rounds-feed ops (length (xs ++ ys)) u f (xs ++ ys) l (omega arith) in
      (
        feed ops u f xs,
        first,
        idx,
        rw first (
            continued-and_then (feed ops u f xs) ys idx
            ∙ ap some (sym (feed-append u f xs ys))
            ∙ sym whole),
      )
