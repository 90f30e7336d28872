-- ===== src/Ota/Image.antt =====
-- An image of several blocks, from `storeData` to the program.
use pico_https.Common.{
  ℕ, ◌+◌, ◌/◌, ◌≤◌, ◌<◌, Bool, true, false, ◌&&◌, ◌≡◌, ◌∙◌, ap, sym, some, List, [], ◌∷◌, ◌++◌,
  Bytes, All, arith,
}
use mathlib.Core.Path.{subst}
use mathlib.Core.Option.{some-injective}
use pico_https.Common.Tests.{◌==◌, if-elim}
use pico_https.Common.Lists.{length, get_or}
use pico_https.Ota.Flash.{FlashOps, IsFlash}
use pico_https.Ota.Store.{
  UpgradeHelper, block_size, payload_size, max_binary_size, magic_end, uf2_magic_end, store_block,
  store_data,
}
use pico_https.Ota.Upgrade.{upgrade_binary}
use pico_https.Ota.Stored.{
  relative_addr, Installed, store_block-Installed, Installed-upgrade_binary,
}
use pico_https.Ota.Kept.{
  is_for_flash, AreRegions, store_block-AreRegions, store_block-keeps_Installed,
}
use pico_https.Ota.Blocks.{
  image, with_block, IsBlock, store_blocks, store_data-store_blocks, stored_first,
}

-- A later block of at most 256 bytes that is not on the page of `a`, or not for the flash.
abbrev pub IsApart : ℕ → Bytes → Type 0
IsApart a block =
    (payload_size block ≤ 256)
    × ((is_for_flash block && (a / 256 == relative_addr block / 256)) ≡ false)

module _ {F : Type 0} (ops : FlashOps F) (law : IsFlash ops) where
  store_blocks-keeps_Installed :
      (a v : ℕ) (u : UpgradeHelper) (f : F) (blocks : List Bytes)
      → AreRegions u.region_erased
      → All IsBlock blocks
      → All (IsApart a) blocks
      → Installed ops a v u f
      → Installed ops a v (store_blocks ops u f blocks).1 (store_blocks ops u f blocks).2
  unfolding store_blocks
  store_blocks-keeps_Installed a v u f [] regions b apart held = held
  store_blocks-keeps_Installed a v u f (block ∷ blocks) regions (b, bs) ((small, apart), aparts)
        held =
      let w = with_block u block in
      let stored = store_block ops w f in
      let kept : Installed ops a v stored.1 stored.2 =
        store_block-keeps_Installed ops law a v w f b regions.1 small apart held in
      let later =
        store_blocks-keeps_Installed a v stored.1 stored.2 blocks
          (store_block-AreRegions ops w f regions) bs aparts kept in
      if-elim (λ (r : Bool × UpgradeHelper × F). Installed ops a v r.1 r.2) stored.0 (λ _. later)
        (λ _. kept)

  store_blocks-Installed :
      (u : UpgradeHelper) (f : F) (before : List Bytes) (block : Bytes) (after : List Bytes) (i : ℕ)
      → AreRegions u.region_erased
      → All IsBlock before
      → IsBlock block
      → All IsBlock after
      → is_for_flash block ≡ true
      → payload_size block ≤ 256
      → i < payload_size block
      → All (IsApart (relative_addr block + i)) after
      → (store_blocks ops u f (before ++ block ∷ after)).0 ≡ true
      → (magic_end block ≡ uf2_magic_end)
        × (relative_addr block + i < max_binary_size)
        × Installed ops
            (relative_addr block + i)
            (get_or block (32 + i) 0)
            (store_blocks ops u f (before ++ block ∷ after)).1
            (store_blocks ops u f (before ++ block ∷ after)).2
  store_blocks-Installed u f [] block after i regions bs b as_ flash small l apart ok =
      let w = with_block u block in
      let a = relative_addr block + i in
      let v = get_or block (32 + i) 0 in
      let (first, rest) = stored_first ops u f block after ok in
      let stored = store_block ops w f in
      let (mark, low, held) =
        store_block-Installed ops w f i b regions.0 regions.1 (ground (arith, flash))
          (ground (arith, flash)) small l first in
      (
        mark,
        low,
        subst (λ (r : Bool × UpgradeHelper × F). Installed ops a v r.1 r.2) (sym rest)
            (store_blocks-keeps_Installed a v stored.1 stored.2 after
              (store_block-AreRegions ops w f regions) as_ apart held),
      )
  store_blocks-Installed u f (other ∷ before) block after i regions (b', bs) b as_ flash small l
        apart ok =
      let w = with_block u other in
      let a = relative_addr block + i in
      let v = get_or block (32 + i) 0 in
      let (first, rest) = stored_first ops u f other (before ++ block ∷ after) ok in
      let stored = store_block ops w f in
      let (mark, low, held) =
        store_blocks-Installed stored.1 stored.2 before block after i
          (store_block-AreRegions ops w f regions) bs b as_ flash small l apart
          (ap (λ r. r.0) (sym rest) ∙ ok) in
      (
        mark,
        low,
        subst (λ (r : Bool × UpgradeHelper × F). Installed ops a v r.1 r.2) (sym rest) held,
      )

  -- An image of whole blocks, given to `storeData` between two blocks and accepted: each byte of each
  -- block that is for the flash and has at most 256 bytes of data is, after `upgrade_binary`, at its
  -- address in the program, on a flash that erases and programs as documented, if no later block has
  -- more data or is written to the page of that byte; and the block's end mark is right.
  pub store_data-upgrade_binary :
      (u u' : UpgradeHelper) (f f' : F) (before : List Bytes) (block : Bytes) (after : List Bytes)
      (i : ℕ)
      → length u.buffer ≡ block_size
      → u.index ≡ 0
      → AreRegions u.region_erased
      → All IsBlock (before ++ block ∷ after)
      → is_for_flash block ≡ true
      → payload_size block ≤ 256
      → i < payload_size block
      → All (IsApart (relative_addr block + i)) after
      → store_data ops u f (image (before ++ block ∷ after)) ≡ some (true, u', f')
      → (magic_end block ≡ uf2_magic_end)
        × (relative_addr block + i < max_binary_size)
        × (ops.read (upgrade_binary ops u' f') (relative_addr block + i) ≡ get_or block (32 + i) 0)
  store_data-upgrade_binary u u' f f' before block after i size at_start regions bs flash small l
        apart done =
      let (first, (b, last)) = All-split before block after bs in
      let same : store_blocks ops u f (before ++ block ∷ after) ≡ (true, u', f') =
        some-injective _ _ (
          sym
            (store_data-store_blocks ops u f (before ++ block ∷ after) (size, at_start, regions) bs)
          ∙ done) in
      let a = relative_addr block + i in
      let v = get_or block (32 + i) 0 in
      let (mark, low, held) =
        store_blocks-Installed u f before block after i regions first b last flash small l apart
          (ap (λ r. r.0) same) in
      let installed : Installed ops a v u' f' =
        subst (λ (r : Bool × UpgradeHelper × F). Installed ops a v r.1 r.2) same held in
      (mark, low, Installed-upgrade_binary ops law a v u' f' low installed)
    where
      All-split :
          (xs : List Bytes) (y : Bytes) (ys : List Bytes)
          → All IsBlock (xs ++ y ∷ ys)
          → All IsBlock xs × (IsBlock y × All IsBlock ys)
      All-split [] y ys all = (tt, (all.0, all.1))
      All-split (x ∷ xs) y ys (a, all) =
          let (first, rest) = All-split xs y ys all in ((a, first), rest)
