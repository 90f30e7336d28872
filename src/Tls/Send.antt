-- ===== src/Tls/Send.antt =====
-- `Session::send`: what it has handed to lwIP when it returns.
use pico_https.Common.{
  ℕ, zero, suc, ◌+◌, ◌≤◌, Bool, ◌&&◌, ◌⊎◌, true, false, not, ◌||◌, Option, none, some, [], ◌∷◌,
  ◌++◌, Bytes, ◌≡◌, refl, ◌∙◌, sym, ap, inl, inr, append-nil, append_assoc, arith,
}
use mathlib.Core.Path.{subst}
use mathlib.Core.Bool.{false≢true}
use mathlib.Core.Option.{some-injective}
use pico_https.Common.Tests.{ltb, if◌then◌else◌, if-elim, Bool-cases}
use pico_https.Common.Lists.{length, take, drop, length-take, length-drop, take-append-drop}
use pico_https.Tls.State.{
  Err, err_ok, is_ok, Session, LwipOps, SessionCallback, has_pcb, is_connected,
}
use pico_https.Tls.Session.{
  SendEnd, stopped, written, check_send_failure, write_chunks, finish_send, end_send, send,
}
use pico_https.Tls.Accepted.{IsStream, tell_closed-Gone, sent-check_send_failure, sent-finish_send}

take_nil : (k : ℕ) → take {A = ℕ} k [] ≡ []
take_nil zero = refl
take_nil (suc k) = refl

take_more : (m k : ℕ) (xs : Bytes) → take (m + k) xs ≡ take m xs ++ take k (drop m xs)
take_more zero k xs = let z : 0 + k ≡ k = omega arith in rw z refl
take_more (suc m) k [] = let n : suc m + k ≡ suc (m + k) = omega arith in rw (n, take_nil k) refl
take_more (suc m) k (x ∷ xs) =
    let n : suc m + k ≡ suc (m + k) = omega arith in rw n (ap (◌∷◌ x) (take_more m k xs))

module _ {E : Type 0} (lwip : LwipOps E) (owner : SessionCallback E) (sent : E → Bytes)
    (law : IsStream lwip owner sent) where
  open law use {
    content, sent-write, sent-output, sent-abort, sent-clear, sent-on_closed, sent-on_sent,
    closed_stays,
  }

  -- How the loop ends from `start` with `bytes` to go: all of them are accepted, or some, and then an
  -- error is returned or the connection is gone.
  abbrev AfterChunks : Bytes → Bytes → Option (SendEnd E) → Type 0
  AfterChunks start bytes none = ⊥
  AfterChunks start bytes (some (stopped err s e)) =
      (k : ℕ) × (sent e ≡ start ++ take k bytes) × (is_ok err ≡ true → is_connected s ≡ false)
  AfterChunks start bytes (some (written s e)) = sent e ≡ start ++ bytes

  check_send_failure-Gone :
      (err : Err) (s : Session) (e : E)
      → is_ok err ≡ true
      → is_ok (check_send_failure lwip owner err s e).0 ≡ false
      → is_connected (check_send_failure lwip owner err s e).1 ≡ false
  unfolding check_send_failure
  check_send_failure-Gone err s e ok =
      if-elim FailsGone (not (is_ok err)) (λ failed. ground arith)
        (λ _.
          if-elim FailsGone (s.closing || not (has_pcb s))
            (λ gone _.
              tell_closed-Gone lwip owner sent law (record s { processing = false }) e
                (ground arith))
            (λ _ fails. ground arith))
    where
      FailsGone : Err × Session × E → Type 0
      FailsGone r = is_ok r.0 ≡ false → is_connected r.1 ≡ false

  check_send_failure-ok :
      (err : Err) (s : Session) (e : E)
      → is_ok (check_send_failure lwip owner err s e).0 ≡ true
      → is_ok err ≡ true
  unfolding check_send_failure
  check_send_failure-ok err s e =
      if-elim (λ (r : Err × Session × E). is_ok r.0 ≡ true → is_ok err ≡ true) (not (is_ok err))
        (λ _ ok. ok) (λ ok _. ground arith)

  AfterChunks-further :
      (start bytes : Bytes) (n : ℕ) (r : Option (SendEnd E))
      → AfterChunks (start ++ take n bytes) (drop n bytes) r
      → AfterChunks start bytes r
  AfterChunks-further start bytes n none h = h
  AfterChunks-further start bytes n (some (stopped err s e)) (k, h, gone) = (
    n + k,
    h
        ∙ append_assoc start (take n bytes) (take k (drop n bytes))
        ∙ ap (λ b. start ++ b) (sym (take_more n k bytes)),
    gone,
  )
  AfterChunks-further start bytes n (some (written s e)) h =
      h
      ∙ append_assoc start (take n bytes) (drop n bytes)
      ∙ ap (λ b. start ++ b) (take-append-drop n bytes)

  write_chunks_lem :
      (rounds : ℕ) (s : Session) (e : E) (bytes : Bytes)
      → length bytes ≤ rounds
      → AfterChunks (sent e) bytes (write_chunks lwip owner rounds s e bytes)
  unfolding write_chunks
  write_chunks_lem rounds s e [] l = sym (append-nil _)
  write_chunks_lem zero s e (b ∷ bytes) l = absurd (omega arith)
  write_chunks_lem (suc rounds) s e (b ∷ bytes) l =
      let all = b ∷ bytes in
      let max = lwip.out_content_len in
      let n : ℕ = if ltb max (length all) then max else length all in
      let fits : (n ≤ max) × (1 ≤ n) = ground (arith, content) in
      let size : length (take n all) ≤ max = omega (arith, length-take n all, fits) in
      let (err, s', e') = lwip.write s.pcb (take n all) s e in
      let (failure, s'', e'') = check_send_failure lwip owner err s' e' in
      let wrote : sent e' ≡ (if is_ok err then sent e ++ take n all else sent e) =
        sent-write s.pcb (take n all) s e size in
      let checked : sent e'' ≡ sent e' = sent-check_send_failure lwip owner sent law err s' e' in
      let accepted = λ (ok : is_ok err ≡ true).
        checked ∙ wrote ∙ ap (λ b. if b then sent e ++ take n all else sent e) ok in
      let shorter : length (drop n all) ≤ rounds = omega (arith, length-drop n all, fits, l) in
      let rest = write_chunks lwip owner rounds s'' e'' (drop n all) in
      let later = write_chunks_lem rounds s'' e'' (drop n all) shorter in
      if-elim (AfterChunks (sent e) all) (is_ok failure)
        (λ ok. AfterChunks-further (sent e) all n rest (
          subst (λ b. AfterChunks b (drop n all) rest)
            (accepted (check_send_failure-ok err s' e' ok)) later))
        (λ failed. elim (Bool-cases (is_ok err)) [
          | inl ok ↦ (n, accepted ok, λ _. check_send_failure-Gone err s' e' ok failed)
          | inr not_ok ↦ (
            0,
            checked
                ∙ wrote
                ∙ ap (λ b. if b then sent e ++ take n all else sent e) not_ok
                ∙ sym (append-nil _),
            λ ok. absurd (ground arith),
          )
        ])

  -- What `send` returns from `start` with `bytes` to go.
  abbrev Sends : Bytes → Bytes → Option (Err × Session × E) → Type 0
  Sends start bytes o =
      (r : Err × Session × E) × (o ≡ some r)
      × (((k : ℕ) × (sent r.2 ≡ start ++ take k bytes) × (is_ok r.0 && is_connected r.1 ≡ false))
          ⊎ ((more : Bytes) × (sent r.2 ≡ start ++ (bytes ++ more))))

  end_send-Sends :
      (start bytes : Bytes) (w : Option (SendEnd E))
      → AfterChunks start bytes w
      → Sends start bytes (end_send lwip owner w)
  unfolding end_send
  end_send-Sends start bytes none h = elim h [ ]
  end_send-Sends start bytes (some (stopped err s e)) (k, h, gone) =
      ((err, s, e), refl, inl (k, h, both (is_ok err) (is_connected s) gone))
    where
      both : (a b : Bool) → (a ≡ true → b ≡ false) → a && b ≡ false
      both true b f = f refl
      both false b f = refl
  end_send-Sends start bytes (some (written s e)) h =
      let (more, m) = sent-finish_send lwip owner sent law s e in
      (
        finish_send lwip owner s e,
        refl,
        inr (more, m ∙ ap (λ b. b ++ more) h ∙ append_assoc start bytes more),
      )

  end_send_all :
      (start bytes : Bytes) (w : Option (SendEnd E)) (s' : Session) (e' : E)
      → AfterChunks start bytes w
      → end_send lwip owner w ≡ some (err_ok, s', e')
      → is_connected s' ≡ true
      → (more : Bytes) × (sent e' ≡ start ++ (bytes ++ more))
  unfolding end_send
  end_send_all start bytes none s' e' h same_end here = elim h [ ]
  end_send_all start bytes (some (stopped err s e)) s' e' (k, h, gone) same_end here =
      let same = some-injective _ _ same_end in
      let not_here = gone (ap (λ r. is_ok r.0) same) in
      absurd (false≢true (sym not_here ∙ ap (λ r. is_connected r.1) same ∙ here))
  end_send_all start bytes (some (written s e)) s' e' h same_end here =
      let (more, m) = sent-finish_send lwip owner sent law s e in
      (
        more,
        ap (λ r. sent r.2) (sym (some-injective _ _ same_end))
            ∙ m
            ∙ ap (λ b. b ++ more) h
            ∙ append_assoc start bytes more,
      )

-- On an lwIP that takes each piece of at most the size of a TLS record or reports an error, and where
-- the session has a pcb: `send` returns. What lwIP has accepted more since is a front of the bytes and
-- nothing else, and then an error is returned or the session is not connected; or it is all of the
-- bytes, followed by what the owner sends from within `on_sent`.
pub send-prefix :
    {E : Type 0} (lwip : LwipOps E) (owner : SessionCallback E) (sent : E → Bytes)
    → IsStream lwip owner sent
    → (bytes : Bytes) (s : Session) (e : E) → has_pcb s ≡ true
    → (r : Err × Session × E) × (send lwip owner (some bytes) s e ≡ some r)
      × (((k : ℕ) × (sent r.2 ≡ sent e ++ take k bytes) × (is_ok r.0 && is_connected r.1 ≡ false))
          ⊎ ((more : Bytes) × (sent r.2 ≡ sent e ++ (bytes ++ more))))
unfolding send
send-prefix lwip owner sent law bytes s e has =
    if-elim (Sends lwip owner sent law (sent e) bytes) (not (has_pcb s))
      (λ gone. absurd (false≢true (ap not (sym has) ∙ gone)))
      (λ _. end_send-Sends lwip owner sent law (sent e) bytes _ (
        write_chunks_lem lwip owner sent law (length bytes) (record s { processing = true }) e bytes
          (omega arith)))

-- On such an lwIP: where `send` returns `ERR_OK` and the session is still connected, lwIP has accepted
-- all of the bytes, in their order, ahead of what the owner sends from within `on_sent`.
pub send_complete :
    {E : Type 0} (lwip : LwipOps E) (owner : SessionCallback E) (sent : E → Bytes)
    → IsStream lwip owner sent
    → (bytes : Bytes) (s : Session) (e : E) (s' : Session) (e' : E) → has_pcb s ≡ true
    → send lwip owner (some bytes) s e ≡ some (err_ok, s', e')
    → is_connected s' ≡ true
    → (more : Bytes) × (sent e' ≡ sent e ++ (bytes ++ more))
unfolding send
send_complete lwip owner sent law bytes s e s' e' has returned here =
    let w = write_chunks lwip owner (length bytes) (record s { processing = true }) e bytes in
    let ended : end_send lwip owner w ≡ some (err_ok, s', e') =
      ap (λ b. if not b then some (err_ok, s, e) else end_send lwip owner w) (sym has) ∙ returned in
    end_send_all lwip owner sent law (sent e) bytes w s' e'
      (write_chunks_lem lwip owner sent law (length bytes) (record s { processing = true }) e bytes
        (omega arith))
      ended here
