-- ===== src/WebSocket/Unmask.antt =====
-- The unmasking loop of `decodeData` against the byte-by-byte decoder of `Stream`.
use pico_https.Common.{
  ℕ, suc, ◌+◌, ◌≤◌, ◌<◌, Bool, true, false, ◌≡◌, refl, ◌∙◌, inl, inr, List, [], ◌∷◌, ◌++◌,
  append_assoc, append-nil, arith, Bytes,
}
use pico_https.Common.Tests.{ltb, ltb→lt, lt→ltb, le→ltb-false, ◌==◌, Bool-cases}
use pico_https.Common.Lists.{length, drop}
use pico_https.WebSocket.{unmask, is_data_frame}
use pico_https.WebSocket.Stream.{Event, byte, payload, unmasked, advance, feed, feed_all}
use mathlib.Core.List.{map}

module _ (operation : ℕ) (mask : Bool) (key : Bytes) (len : ℕ) where
  pub unmask-cons :
      (index b : ℕ) (bytes : Bytes)
      → index < len
      → unmask mask key len index (b ∷ bytes)
        ≡ unmasked mask key index b ∷ unmask mask key len (index + 1) bytes
  unfolding unmask
  unmask-cons index b bytes l = rw (lt→ltb index len l)

  unmask_end : (index : ℕ) (bytes : Bytes) → len ≤ index → unmask mask key len index bytes ≡ []
  unfolding unmask
  unmask_end index [] l = refl
  unmask_end index (b ∷ bytes) l = rw (le→ltb-false index len l)

  pub unmask-le :
      (bytes : Bytes) (index : ℕ)
      → index ≤ len
      → index + length (unmask mask key len index bytes) ≤ len
  unfolding unmask
  unmask-le [] index l = omega arith
  unmask-le (b ∷ bytes) index l = ground (arith, unmask-le bytes (index + 1))

  pub length-unmask-le :
      (bytes : Bytes) (index : ℕ) → length (unmask mask key len index bytes) ≤ length bytes
  unfolding unmask
  length-unmask-le [] index = omega arith
  length-unmask-le (b ∷ bytes) index = ground (arith, length-unmask-le bytes (index + 1))

  module _ (is_data : is_data_frame operation ≡ true) where
    pub feed-payload :
        (index b : ℕ) (out : List Event)
        → index < len
        → feed (payload operation mask key len index) out b
          ≡ advance operation mask key len
              (index + 1)
              (out ++ byte (unmasked mask key index b) ∷ [])
    unfolding feed
    feed-payload index b out l = rw (is_data, lt→ltb index len l)

    pub advance_more :
        (index : ℕ) (out : List Event)
        → (index == len) ≡ false
        → advance operation mask key len index out ≡ (payload operation mask key len index, out)
    unfolding advance
    advance_more index out ne = rw ne

    -- The unmasking loop takes the bytes up to the end of the payload.
    pub feed_all-unmask :
        (bytes : Bytes) (b index : ℕ) (out : List Event)
        → index < len
        → let bs = unmask mask key len index (b ∷ bytes) in
          let (ph, out') =
            advance operation mask key len (index + length bs) (out ++ map byte bs) in
          feed_all (payload operation mask key len index) out (b ∷ bytes)
          ≡ feed_all ph out' (drop (length bs) (b ∷ bytes))
    unfolding feed_all
    feed_all-unmask [] b index out l =
        rw (unmask-cons index b [] l, feed-payload index b out l) (unfold unmask in refl)
    feed_all-unmask (c ∷ bytes) b index out l =
        rw (unmask-cons index b (c ∷ bytes) l, feed-payload index b out l)
          (elim (Bool-cases (index + 1 == len)) [
            | inl last ↦ rw (unmask_end (index + 1) (c ∷ bytes) (ground arith)) refl
            | inr more ↦
                let more_bytes = unmask mask key len (index + 1) (c ∷ bytes) in
                let x : Event = byte (unmasked mask key index b) in
                let e : index + 1 + length more_bytes ≡ index + suc (length more_bytes) =
                  omega arith in
                let assoc = append_assoc out (x ∷ []) (map byte more_bytes) in
                rw (advance_more (index + 1) (out ++ x ∷ []) more) (
                  feed_all-unmask bytes c (index + 1) (out ++ x ∷ []) (ground arith)
                  ∙ rw (e, assoc))
          ])

    -- So it does at the end of the payload, where it takes none.
    pub feed_all-unmask_end :
        (bytes : Bytes) (b index : ℕ) (out : List Event)
        → index ≤ len
        → let bs = unmask mask key len index (b ∷ bytes) in
          let (ph, out') =
            advance operation mask key len (index + length bs) (out ++ map byte bs) in
          feed_all (payload operation mask key len index) out (b ∷ bytes)
          ≡ feed_all ph out' (drop (length bs) (b ∷ bytes))
    unfolding feed_all
    feed_all-unmask_end bytes b index out l = elim (Bool-cases (ltb index len)) [
      | inl inside ↦ feed_all-unmask bytes b index out (ltb→lt index len inside)
      | inr outside ↦
          let e : index ≡ len = ground arith in
          let z : index + 0 ≡ index = omega arith in
          let same : (index == len) ≡ true = ground arith in
          rw (unmask_end index (b ∷ bytes) (ground arith), z)
            (unfold feed advance in rw (append-nil, is_data, outside, same))
    ]
