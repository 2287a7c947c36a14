-- ===== src/Tests/Machines.antt =====
-- The theorems about include/debug/trace.hpp, src/startup.cpp, include/riscv/riscv-irq.hpp and
-- include/riscv/scheduler-timer-mtimer.hpp.
use baremetal_cxx_coro.Common.{
  ℕ, ◌+◌, ◌*◌, ◌/◌, ◌%◌, ◌≡◌, ◌≢◌, refl, false, none, some, [], ◌∷◌, inl, inr, arith,
}
use baremetal_cxx_coro.Trace.{Call, initial_log, run_calls}
use baremetal_cxx_coro.Trace.History.{
  Refines, record_calls, empty_history, initial-Refines, run_calls-Refines,
}
use baremetal_cxx_coro.Startup.{Words, Layout, store, start_to_main}
use baremetal_cxx_coro.Startup.Memory.{IsLaidOut, image, start_to_main-image}
use baremetal_cxx_coro.Csr.{Isa, CsrName}
use baremetal_cxx_coro.Handler.{Machine, handler_entry}
use baremetal_cxx_coro.Handler.Entry.{HoldsAddress, later_on, handler_entry-make_handler}

run_calls-Refines_example :
    Refines
      (run_calls
        (Call.timestamp 700 ∷ Call.coro_pending false ∷ Call.timestamp 650 ∷ [])
        initial_log)
      (record_calls
        (Call.timestamp 700 ∷ Call.coro_pending false ∷ Call.timestamp 650 ∷ [])
        empty_history)
run_calls-Refines_example =
    run_calls-Refines (Call.timestamp 700 ∷ Call.coro_pending false ∷ Call.timestamp 650 ∷ [])
      initial_log empty_history initial-Refines

-- The image of data and of fast code stands in the flash from 1000 on.
abbrev layout : Layout
layout = record {
  bss_target_start = 40;
  bss_target_end = 50;
  data_source_start = 1000;
  data_target_start = 20;
  data_target_end = 40;
  itim_source_start = 1020;
  itim_target_start = 500;
  itim_target_end = 530;
}

layout-IsLaidOut : IsLaidOut layout
layout-IsLaidOut = record {
  data_from_data = inr (omega arith);
  data_from_bss = inr (omega arith);
  itim_from_itim = inr (omega arith);
  itim_from_data = inr (omega arith);
  itim_from_bss = inr (omega arith);
  bss_and_data = inr (omega arith);
  bss_and_itim = inl (omega arith);
  data_and_itim = inl (omega arith);
}

abbrev at_reset : Words
at_reset a = a + 7

-- A constructor that stores 1 in the first word of the data.
abbrev constructor : Words → Words
constructor = store 20 1

start_to_main-image_example :
    start_to_main layout (constructor ∷ []) at_reset ≡ constructor (image layout at_reset)
start_to_main-image_example =
    start_to_main-image layout at_reset layout-IsLaidOut (constructor ∷ [])

-- A hart with `mscratch`, and with an `mtvec` whose two low bits are 0.
abbrev read_register : CsrName → ℕ × ℕ → ℕ
read_register CsrName.mscratch (scratch, vector) = scratch
read_register CsrName.mtvec (scratch, vector) = vector
read_register _ s = 0

abbrev write_register : CsrName → ℕ → ℕ × ℕ → ℕ × ℕ
write_register CsrName.mscratch v (scratch, vector) = (v, vector)
write_register CsrName.mtvec v (scratch, vector) = (scratch, v / 4 * 4)
write_register _ v s = s

abbrev hart : Isa
hart = record {
  State = ℕ × ℕ;
  csrr = read_register;
  csrw = write_register;
  csrwi = write_register;
  csrrw = λ csr v s. (read_register csr s, write_register csr v s);
  csrrwi = λ csr v s. (read_register csr s, write_register csr v s);
  csrrs = λ csr m s. (read_register csr s, s);
  csrrsi = λ csr m s. (read_register csr s, s);
  csrrc = λ csr m s. (read_register csr s, s);
  csrrci = λ csr m s. (read_register csr s, s);
}

scratch_kept :
    (other : CsrName) (v : ℕ) (s : ℕ × ℕ)
    → other ≢ CsrName.mscratch
    → read_register CsrName.mscratch (write_register other v s) ≡ read_register CsrName.mscratch s
scratch_kept CsrName.misa v s ne = refl
scratch_kept CsrName.mstatus v s ne = refl
scratch_kept CsrName.mtvec v s ne = refl
scratch_kept CsrName.medeleg v s ne = refl
scratch_kept CsrName.mideleg v s ne = refl
scratch_kept CsrName.mip v s ne = refl
scratch_kept CsrName.mie v s ne = refl
scratch_kept CsrName.mscratch v s ne = absurd (ne refl)
scratch_kept CsrName.mepc v s ne = refl
scratch_kept CsrName.mcause v s ne = refl
scratch_kept CsrName.mtval v s ne = refl

vector_kept :
    (other : CsrName) (v : ℕ) (s : ℕ × ℕ)
    → other ≢ CsrName.mtvec
    → read_register CsrName.mtvec (write_register other v s) ≡ read_register CsrName.mtvec s
vector_kept CsrName.misa v s ne = refl
vector_kept CsrName.mstatus v s ne = refl
vector_kept CsrName.mtvec v s ne = absurd (ne refl)
vector_kept CsrName.medeleg v s ne = refl
vector_kept CsrName.mideleg v s ne = refl
vector_kept CsrName.mip v s ne = refl
vector_kept CsrName.mie v s ne = refl
vector_kept CsrName.mscratch v s ne = refl
vector_kept CsrName.mepc v s ne = refl
vector_kept CsrName.mcause v s ne = refl
vector_kept CsrName.mtval v s ne = refl

scratch_HoldsAddress : HoldsAddress hart (λ v. Unit) CsrName.mscratch
scratch_HoldsAddress = record { read_back = λ v s legal. refl; kept = scratch_kept }

vector_HoldsAddress : HoldsAddress hart (λ v. v % 4 ≡ 0) CsrName.mtvec
vector_HoldsAddress = record { read_back = λ v s legal. omega arith; kept = vector_kept }

-- The object adds its address to the world.
abbrev add_address : ℕ → ℕ → ℕ
add_address this world = this + world

abbrev idle : Machine hart ℕ
idle = record { hart = (0, 0); world = 5; execute_handler = none }

handler_entry-make_handler_example :
    ((later_on hart add_address 300 2048 idle ((CsrName.mie, 128) ∷ []) 6).hart.1 ≡ 2048)
    × (handler_entry hart (later_on hart add_address 300 2048 idle ((CsrName.mie, 128) ∷ []) 6)
        ≡ some (later_on hart add_address 300 2048 idle ((CsrName.mie, 128) ∷ []) 306))
handler_entry-make_handler_example =
    handler_entry-make_handler hart (λ v. Unit) (λ v. v % 4 ≡ 0) scratch_HoldsAddress
      vector_HoldsAddress add_address 300 2048 idle ((CsrName.mie, 128) ∷ []) 6 tt refl
      ((λ e. cc), tt) ((λ e. cc), tt)
