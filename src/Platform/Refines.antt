-- ===== src/Platform/Refines.antt =====
-- The handler and the wait of src/example_simple.cpp on registers, and the same on two flags.
use baremetal_cxx_coro.Common.{
  ℕ, ◌+◌, ◌-◌, ◌%◌, ◌^◌, ◌≡◌, refl, ap, ◌∙◌, Bool, false, Option, none, some, List, [], ◌∷◌, map,
  ◌==◌, Bool-cases, inl, inr, bit_and,
}
use baremetal_cxx_coro.Scheduler.Delay.{ScheduleByDelay, delay}
use baremetal_cxx_coro.Timer.{write_time_cmp, from_int}
use baremetal_cxx_coro.Examples.Delayed.{Program, Times, Setting, handler}
use baremetal_cxx_coro.Platform.{
  Core, IsCore, Traps, IsTraps, Machine, Pending, Within, handle_trap, interrupted, poll, on_hart,
  core_wfi, sleep,
}

-- The program with two flags, and the flags `mti` and `mie` at each wait so far, the newest first.
pub record Logged : Type 0 where
  pub program : Program
  pub waits : List (Bool × Bool)

module _ {S : Type 0} (mti mie : S → Bool) where
  abbrev pub flags : S → Bool × Bool
  flags s = (mti s, mie s)

  -- The program with the flags that the registers show.
  abbrev pub view : Machine S → Logged
  view m = record {
    program = record m.program { mti_enabled = mti m.hart; mie_enabled = mie m.hart };
    waits = map flags m.waits;
  }

  abbrev pub view_all : Option (Machine S) → Option Logged
  view_all none = none
  view_all (some m) = some (view m)

  module _ (xlen : ℕ) (c : Core S) (is : IsCore xlen c mti mie) (Has : ℕ → Type 0) (t : Traps S)
      (traps : IsTraps c mti mie Has t) where
    pub interrupted-handler :
        (cause now : ℕ) (m : Machine S)
        → Has cause
        → view (interrupted c t cause now m)
          ≡ record (view m) { program = handler xlen now cause (view m).program }
    unfolding handle_trap
    interrupted-handler cause now m has =
        let s = t.trap cause m.hart in
        let there = traps.cause cause m.hart has in
        let tested = is.mask s ∙ ap (λ k. bit_and k (2 ^ (xlen - 1)) == 0) there in
        let kept = traps.mti-mret s ∙ traps.mti-trap cause m.hart in
        let selected = ap (λ k. bit_and k 0xFF == 7) there in
        elim (Bool-cases (bit_and cause (2 ^ (xlen - 1)) == 0)) [
          | inl r ↦ rw (tested ∙ r, r, kept, traps.mie-mret cause m.hart) refl
          | inr r ↦ elim (Bool-cases (bit_and cause 0xFF == 7)) [
            | inl q ↦
                rw
                  (
                    tested ∙ r,
                    r,
                    selected ∙ q,
                    q,
                    traps.mti-mret (c.mti_clr s) ∙ is.mti-mti_clr s,
                    traps.mie-mret_clr cause m.hart,
                  )
                  refl
            | inr q ↦ rw (tested ∙ r, r, selected ∙ q, q, kept, traps.mie-mret cause m.hart) refl
          ]
        ]

    -- While `mstatus.mie` is clear no interrupt comes.
    poll-masked : (os : List Pending) (m : Machine S) → mie m.hart ≡ false → poll c t os m ≡ m
    unfolding poll
    poll-masked [] m clear = refl
    poll-masked (o ∷ os) m clear = rw (traps.masked o.cause m.hart clear) (poll-masked os m clear)

    -- What is pending during the wait does not come before its end.
    pub sleep-waits :
        (env : Setting) (tm : Times) (w : Within) (next_wake : ScheduleByDelay) (m : Machine S)
        → sleep c t env tm w (some next_wake) m
          ≡ some (record m {
            program = record m.program {
              time_cmp =
                  write_time_cmp env.wide
                    ((tm.set_at + from_int (env.to_ticks (delay tm.delay_now next_wake))) % 2 ^ 64)
                    m.program.time_cmp;
            };
            hart = c.mie_set (c.wfi (c.mti_set (c.mie_clr m.hart)));
            waits = c.mti_set (c.mie_clr m.hart) ∷ m.waits;
          })
    unfolding sleep
    sleep-waits env tm w next_wake m =
        let m₁ = record m {
          program = record m.program {
            time_cmp =
                write_time_cmp env.wide
                  ((tm.set_at + from_int (env.to_ticks (delay tm.delay_now next_wake))) % 2 ^ 64)
                  m.program.time_cmp;
          };
        } in
        let m₂ = on_hart c c.mie_clr m₁ in
        let m₃ = on_hart c c.mti_set m₂ in
        let clear = is.mie-mie_clr m.hart in
        let still = is.mie-mti_set m₂.hart ∙ clear in
        let yet = is.mie-wfi m₃.hart ∙ still in
        rw
          (
            poll-masked w.behind_clr m₂ clear,
            poll-masked w.behind_set m₃ still,
            poll-masked w.behind_wfi (core_wfi c m₃) yet,
          )
          refl
