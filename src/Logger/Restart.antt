-- ===== src/Logger/Restart.antt =====
-- pico_logger/pico_logger.c: a call stack saved by `fault_init`, and what is reported of it.
use pico_https.Common.{
  ℕ, zero, suc, ◌+◌, ◌≤◌, ◌<◌, Bool, ◌≡◌, refl, ◌∙◌, ap, sym, none, some, List, [], ◌∷◌, ◌++◌,
  arith,
}
use mathlib.Core.Path.{subst}
use pico_https.Common.Lists.{
  length, length-append, take, drop, set, memcpy, memcpy-set, memcpy-nil, memcpy_front,
  take-append_length,
}
use pico_https.Logger.Crash.{
  Ram, Write, depth, write, writes, entries, fault_writes, fault_init, saved_crash, crash_text,
  magic_callstack, cmb_call_stack_max_depth, clear_saved_crash,
}

-- Nothing is reported while the depth is 0.
saved_crash-empty :
    (caused enable_caused : Bool) (r : Ram)
    → r.cur_depth ≡ 0
    → (saved_crash caused enable_caused r).1 ≡ none
unfolding saved_crash
saved_crash-empty caused enable_caused r e = ground (arith, e)

saved_crash-cleared :
    (caused enable_caused : Bool) (r : Ram)
    → r.last_command ≡ 0
    → (saved_crash caused enable_caused r).1 ≡ none
unfolding saved_crash
saved_crash-cleared caused enable_caused r e = ground (arith, e)

saved_crash-full :
    (caused enable_caused : Bool) (r : Ram)
    → r.last_command ≡ magic_callstack
    → 0 < r.cur_depth
    → r.cur_depth ≤ cmb_call_stack_max_depth
    → saved_crash caused enable_caused r ≡ (
      r,
      some (record {
        text = crash_text caused enable_caused r;
        call_stack = take r.cur_depth r.call_stack_buf;
      }),
    )
unfolding saved_crash
saved_crash-full caused enable_caused r e some_ fits = ground arith

-- Writes of entries leave the depth and the command.
writes-entries :
    (r : Ram) (at : ℕ) (stack : List ℕ) (ws : List Write)
    → writes r (entries at stack ++ ws)
      ≡ writes (record r { call_stack_buf = memcpy r.call_stack_buf at stack }) ws
unfolding writes write
writes-entries r at [] ws =
    ap (λ buf. writes (record r { call_stack_buf = buf }) ws) (sym (memcpy-nil r.call_stack_buf at))
writes-entries r at (pc ∷ stack) ws =
    writes-entries (record r { call_stack_buf = set r.call_stack_buf at pc }) (at + 1) stack ws
    ∙ ap (λ buf. writes (record r { call_stack_buf = buf }) ws)
        (sym (memcpy-set r.call_stack_buf at pc stack))

-- Some of the entries.
depth_kept :
    (k : ℕ) (r : Ram) (at : ℕ) (stack : List ℕ) (last : Write)
    → k ≤ length stack
    → (writes r (take k (entries at stack ++ last ∷ []))).cur_depth ≡ r.cur_depth
unfolding writes write
depth_kept zero r at stack last l = refl
depth_kept (suc k) r at [] last l = absurd (omega arith)
depth_kept (suc k) r at (pc ∷ stack) last l =
    depth_kept k (record r { call_stack_buf = set r.call_stack_buf at pc }) (at + 1) stack last
      (omega arith)

module _ (call_stack : ℕ → ℕ → List ℕ) (sp : ℕ) (r : Ram) (caused enable_caused : Bool) where
  abbrev stack : List ℕ
  stack = call_stack cmb_call_stack_max_depth sp

  fault_init-saved : fault_init call_stack r sp ≡ record {
    last_command = magic_callstack;
    cur_depth = length stack;
    call_stack_buf = memcpy r.call_stack_buf 0 stack;
  }
  unfolding fault_init fault_writes writes write
  fault_init-saved =
      writes-entries (record r { last_command = magic_callstack; cur_depth = 0 }) 0 stack
        (depth (length stack) ∷ [])

  length-fault_writes : length (fault_writes call_stack sp) ≡ length stack + 3
  unfolding fault_writes
  length-fault_writes =
      omega
        (arith, length-append (entries 0 stack) (depth (length stack) ∷ []), length-entries 0 stack)
    where
      length-entries : (at : ℕ) (pcs : List ℕ) → length (entries at pcs) ≡ length pcs
      length-entries at [] = refl
      length-entries at (pc ∷ pcs) = ap suc (length-entries (at + 1) pcs)

  depth_cut :
      (k : ℕ)
      → 0 < k
      → k < length stack + 3
      → (writes r (take k (fault_writes call_stack sp))).cur_depth ≡ 0
  unfolding fault_writes writes write
  depth_cut zero some_ l = absurd (omega arith)
  depth_cut (suc zero) some_ l = refl
  depth_cut (suc (suc k)) some_ l =
      depth_kept k (record r { last_command = magic_callstack; cur_depth = 0 }) 0 stack
        (depth (length stack)) (omega arith)

  -- If the board is reset while `fault_init` runs, behind its first write and before its last one,
  -- nothing is reported: neither an old stack nor a part of the new one.
  pub fault_init_cut :
      (k : ℕ)
      → 0 < k
      → k < length (fault_writes call_stack sp)
      → (saved_crash caused enable_caused (writes r (take k (fault_writes call_stack sp)))).1 ≡ none
  fault_init_cut k some_ l =
      saved_crash-empty caused enable_caused (writes r (take k (fault_writes call_stack sp)))
        (depth_cut k some_ (omega (arith, l, length-fault_writes)))

  module _ (deep : 0 < length stack) (fits : length stack ≤ cmb_call_stack_max_depth)
      (size : length r.call_stack_buf ≡ cmb_call_stack_max_depth) where
    stack_kept : take (length stack) (memcpy r.call_stack_buf 0 stack) ≡ stack
    stack_kept =
        ap (take (length stack)) (memcpy_front r.call_stack_buf stack (omega arith))
        ∙ take-append_length stack (drop (length stack) r.call_stack_buf)

    abbrev saved : Ram
    saved = fault_init call_stack r sp

    -- A stack of 1 to 50 addresses that `fault_init` has saved is reported in full, and again after
    -- each restart, until `clear_saved_crash`.
    pub fault_init-saved_crash :
        (saved_crash caused enable_caused saved ≡ (
          saved,
          some (record { text = crash_text caused enable_caused saved; call_stack = stack }),
        ))
        × ((saved_crash caused enable_caused (clear_saved_crash saved)).1 ≡ none)
    unfolding clear_saved_crash
    fault_init-saved_crash =
        let e = fault_init-saved in
        let whole : take saved.cur_depth saved.call_stack_buf ≡ stack =
          ap (λ (s : Ram). take s.cur_depth s.call_stack_buf) e ∙ stack_kept in
        (
          saved_crash-full caused enable_caused saved (ap (λ s. s.last_command) e)
                (subst (λ (s : Ram). 0 < s.cur_depth) (sym e) deep)
                (subst (λ (s : Ram). s.cur_depth ≤ cmb_call_stack_max_depth) (sym e) fits)
              ∙ ap
                  (λ pcs. (
                    saved,
                    some
                        (record { text = crash_text caused enable_caused saved; call_stack = pcs }),
                  ))
                  whole,
          saved_crash-cleared caused enable_caused (record saved { last_command = 0 }) refl,
        )
