-- ===== src/Platform.antt =====
-- The registers that src/example_simple.cpp uses: those of a hart by include/riscv/riscv-csr.hpp,
-- or their emulation by include/host/riscv-csr.hpp. The interface is the members of `csrs` that the
-- example names, and `wfi` of the core.
pub mod Refines
pub mod Rounds
pub mod Wakes
pub mod Device
pub mod Host
pub mod HostTimer
use baremetal_cxx_coro.Common.{
  ℕ, ◌+◌, ◌-◌, ◌%◌, ◌^◌, ◌≡◌, Bool, true, false, Option, none, some, ◌==◌, if◌then◌else◌, bit_and,
  List, [], ◌∷◌,
}
use baremetal_cxx_coro.Common.Int.{ℤ, pos}
use baremetal_cxx_coro.Scheduler.Delay.{ScheduleByDelay, delay}
use baremetal_cxx_coro.Timer.{write_time_cmp, to_int, from_int}
use baremetal_cxx_coro.Examples.Delayed.{Program, Times, Setting}

-- `interrupt::BIT_MASK`, `csrs.mcause.read()`, `csrs.mie.mti.set()` and `clr()`, `csrs.mstatus.mie.set()` and `clr()`, and
-- `core.wfi()`.
pub record Core (S : Type 0) : Type 0 where
  pub interrupt_mask : ℕ
  pub mcause_read : S → ℕ
  pub mti_set : S → S
  pub mti_clr : S → S
  pub mie_set : S → S
  pub mie_clr : S → S
  pub wfi : S → S

-- The mask tells interrupts by the highest of `xlen` bits, and two bits that are shown by `mti` and
-- `mie` are set and cleared, each on its own.
pub record IsCore {S : Type 0} (xlen : ℕ) (c : Core S) (mti mie : S → Bool) : Type 0 where
  pub mask :
      (s : S)
      → (bit_and (c.mcause_read s) c.interrupt_mask == 0)
        ≡ (bit_and (c.mcause_read s) (2 ^ (xlen - 1)) == 0)
  pub mti-mti_set : (s : S) → mti (c.mti_set s) ≡ true
  pub mti-mti_clr : (s : S) → mti (c.mti_clr s) ≡ false
  pub mti-mie_set : (s : S) → mti (c.mie_set s) ≡ mti s
  pub mti-mie_clr : (s : S) → mti (c.mie_clr s) ≡ mti s
  pub mti-wfi : (s : S) → mti (c.wfi s) ≡ mti s
  pub mie-mti_set : (s : S) → mie (c.mti_set s) ≡ mie s
  pub mie-mti_clr : (s : S) → mie (c.mti_clr s) ≡ mie s
  pub mie-mie_set : (s : S) → mie (c.mie_set s) ≡ true
  pub mie-mie_clr : (s : S) → mie (c.mie_clr s) ≡ false
  pub mie-wfi : (s : S) → mie (c.wfi s) ≡ mie s

-- What the hart does with interrupts: whether it takes one that is pending, with its cause, what it
-- does as it takes it, and as the entry of the handler returns.
pub record Traps (S : Type 0) : Type 0 where
  pub taken : (cause : ℕ) → S → Bool
  pub trap : (cause : ℕ) → S → S
  pub mret : S → S

-- No interrupt is taken while `mstatus.mie` is clear. A cause that the hart has is kept for the
-- handler, `mie.mti` stays as it is, and the return restores `mstatus.mie`, which the interrupt may
-- have cleared.
pub record IsTraps {S : Type 0} (c : Core S) (mti mie : S → Bool) (Has : ℕ → Type 0) (t : Traps S)
    : Type 0 where
  pub masked : (k : ℕ) (s : S) → mie s ≡ false → t.taken k s ≡ false
  pub cause : (k : ℕ) (s : S) → Has k → c.mcause_read (t.trap k s) ≡ k
  pub mti-trap : (k : ℕ) (s : S) → mti (t.trap k s) ≡ mti s
  pub mti-mret : (s : S) → mti (t.mret s) ≡ mti s
  pub mie-mret : (k : ℕ) (s : S) → mie (t.mret (t.trap k s)) ≡ mie s
  pub mie-mret_clr : (k : ℕ) (s : S) → mie (t.mret (c.mti_clr (t.trap k s))) ≡ mie s

-- The program on a hart: `program` holds all else, and its two flags of interrupts are not read.
-- `waits` is the history of `wfi`: the hart as each began, the newest first.
pub record Machine (S : Type 0) : Type 0 where
  pub hart : S
  pub program : Program
  pub waits : List S

-- An interrupt that is pending, with its cause and the time that its handler would read.
pub record Pending : Type 0 where
  pub cause : ℕ
  pub now : ℕ

-- The interrupts that are pending while the loop waits, behind each of its instructions.
pub record Within : Type 0 where
  pub behind_clr : List Pending
  pub behind_set : List Pending
  pub behind_wfi : List Pending

module _ {S : Type 0} (c : Core S) where
  -- The interrupt handler on the registers.
  pub handle_trap : (now : ℕ) → Machine S → Machine S
  handle_trap now m =
      let this_cause = c.mcause_read m.hart in
      if bit_and this_cause c.interrupt_mask == 0
      then m
      else if bit_and this_cause 0xFF == 7
      then record m {
        program = record m.program { timestamp = from_int (to_int now) };
        hart = c.mti_clr m.hart;
      }
      else m

  abbrev pub on_hart : (S → S) → Machine S → Machine S
  on_hart f m = record m { hart = f m.hart }

  -- `core.wfi()`
  abbrev pub core_wfi : Machine S → Machine S
  core_wfi m = record m { hart = c.wfi m.hart; waits = m.hart ∷ m.waits }

  module _ (t : Traps S) where
    -- The interrupt is taken, handled and returned from.
    abbrev pub interrupted : (cause now : ℕ) → Machine S → Machine S
    interrupted cause now m = on_hart t.mret (handle_trap now (on_hart (t.trap cause) m))

    -- Pending interrupts, each of which the hart takes or not.
    unfoldable pub poll : List Pending → Machine S → Machine S
    poll [] m = m
    poll (i ∷ is) m = poll is (if t.taken i.cause m.hart then interrupted i.cause i.now m else m)

    -- The block under `if (pending)` on the registers.
    unfoldable pub sleep :
        Setting → Times → Within → Option ScheduleByDelay → Machine S → Option (Machine S)
    sleep env tm w none m = none
    sleep env tm w (some next_wake) m =
        let m₁ = record m {
          program = record m.program {
            time_cmp =
                write_time_cmp env.wide
                  ((tm.set_at + from_int (env.to_ticks (delay tm.delay_now next_wake))) % 2 ^ 64)
                  m.program.time_cmp;
          };
        } in
        let m₂ = poll w.behind_clr (on_hart c.mie_clr m₁) in
        let m₃ = poll w.behind_set (on_hart c.mti_set m₂) in
        let m₄ = poll w.behind_wfi (core_wfi m₃) in some (on_hart c.mie_set m₄)
