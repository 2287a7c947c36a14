-- ===== src/Handler.antt =====
-- `riscv::irq::handler` of include/riscv/riscv-irq.hpp: a function object is installed as the
-- interrupt handler, and its address is kept in `mscratch`.
pub mod Entry
use baremetal_cxx_coro.Common.{ℕ, Option, none, some}
use baremetal_cxx_coro.Csr.{Isa, CsrOps, mscratch_ops, mtvec_ops}

-- The hart, the program's other state, and the static pointer `_execute_handler`, null until a
-- handler is made.
pub record Machine (isa : Isa) (W : Type 0) : Type 0 where
  pub hart : isa.State
  pub world : W
  pub execute_handler : Option (isa.State → W → W)

module _ (isa : Isa) {W : Type 0} where
  -- The lambda of the constructor: `operator()` is what the call operator of `T` does, by the
  -- address of its object.
  abbrev pub trampoline : (operator : ℕ → W → W) → isa.State → W → W
  trampoline operator hart = operator ((mscratch_ops isa).read hart)

  -- The constructor, for an object at the address `isr_handler` and `entry` at its own.
  pub make_handler : (operator : ℕ → W → W) (isr_handler entry : ℕ) → Machine isa W → Machine isa W
  make_handler operator isr_handler entry m = record m {
    execute_handler = some (trampoline operator);
    hart = (mtvec_ops isa).write entry ((mscratch_ops isa).write isr_handler m.hart);
  }

  -- `handler_entry`, which is all that `entry` does; a call of the null pointer is a fault.
  abbrev pub call_handler : Option (isa.State → W → W) → Machine isa W → Option (Machine isa W)
  call_handler none m = none
  call_handler (some f) m = some (record m { world = f m.hart m.world })

  pub handler_entry : Machine isa W → Option (Machine isa W)
  handler_entry m = call_handler m.execute_handler m
