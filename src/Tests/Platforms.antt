-- ===== src/Tests/Platforms.antt =====
-- The theorems about the registers that src/example_simple.cpp uses, on a small hart of 32 bits and
-- on a host.
use baremetal_cxx_coro.Common.{
  ℕ, ◌+◌, ◌-◌, ◌%◌, ◌^◌, ◌≡◌, refl, ap, inl, none, some, List, [], ◌∷◌, ◌++◌, ◌==◌, arith, bit_and,
  bit_or, ◌&&◌, ◌<◌, map, true, false,
}
use native.Mathlib.Nat.{mod-lt, mod-eq_of_lt}
use baremetal_cxx_coro.Common.Bits.{bit_and-mod}
use baremetal_cxx_coro.Csr.{
  CsrName, Isa, mie_mti, mstatus_mie, mie_ops, field_read, field_set, field_clr,
}
use baremetal_cxx_coro.Csr.Interrupts.{mti, mei, mie_field, mip_field, mie_field-enables}
use baremetal_cxx_coro.Csr.Register.{IsStandard}
use baremetal_cxx_coro.Csr.Field.{field_read-same, field_clr-csrw}
use baremetal_cxx_coro.Platform.{IsCore, Machine, handle_trap, Traps, IsTraps, Pending, Within}
use baremetal_cxx_coro.Platform.Refines.{view, view_all, flags}
use baremetal_cxx_coro.Platform.Device.{device, mti_bit, mie_bit, device-IsCore, mie_mti-IsField}
use baremetal_cxx_coro.Platform.Host.{csrs, host, host-IsCore}
use baremetal_cxx_coro.Platform.Rounds.{
  Event, interrupt, round, machine_run, program_run, machine_run-program_run,
}
use baremetal_cxx_coro.Platform.Wakes.{machine_run-fault}
use baremetal_cxx_coro.Tests.Loops.{first, waiting, waiting-Holds, one_task, setting, from}

record Registers : Type 0 where
  mie : ℕ
  mstatus : ℕ
  mcause : ℕ
  saved : ℕ

abbrev reg : CsrName → Registers → ℕ
reg CsrName.mie r = r.mie % 2 ^ 32
reg CsrName.mstatus r = r.mstatus % 2 ^ 32
reg CsrName.mcause r = r.mcause % 2 ^ 32
reg _ r = 0

abbrev put : CsrName → ℕ → Registers → Registers
put CsrName.mie v r = record r { mie = v }
put CsrName.mstatus v r = record r { mstatus = v }
put CsrName.mcause v r = record r { mcause = v }
put _ v r = r

-- A hart with three registers.
abbrev small_hart : Isa
small_hart = record {
  State = Registers;
  csrr = reg;
  csrw = put;
  csrwi = put;
  csrrw = λ csr v s. (reg csr s, put csr v s);
  csrrwi = λ csr v s. (reg csr s, put csr v s);
  csrrs = λ csr m s. (reg csr s, put csr (bit_or (reg csr s) m) s);
  csrrsi = λ csr m s. (reg csr s, put csr (bit_or (reg csr s) m) s);
  csrrc = λ csr m s. (reg csr s, put csr (bit_and (reg csr s) (2 ^ 32 - 1 - m)) s);
  csrrci = λ csr m s. (reg csr s, put csr (bit_and (reg csr s) (2 ^ 32 - 1 - m)) s);
}

mie-IsStandard : IsStandard small_hart 32 CsrName.mie
mie-IsStandard = record {
  width = λ s. mod-lt s.mie (omega arith);
  write_imm = λ u s lt. refl;
  swap_imm = λ u s lt. refl;
  set_imm = λ u s ne lt. refl;
  clr_imm = λ u s ne lt. refl;
  swap = λ v s. refl;
  set = λ m s. refl;
  clr = λ m s. refl;
}

mstatus-IsStandard : IsStandard small_hart 32 CsrName.mstatus
mstatus-IsStandard = record {
  width = λ s. mod-lt s.mstatus (omega arith);
  write_imm = λ u s lt. refl;
  swap_imm = λ u s lt. refl;
  set_imm = λ u s ne lt. refl;
  clr_imm = λ u s ne lt. refl;
  swap = λ v s. refl;
  set = λ m s. refl;
  clr = λ m s. refl;
}

abbrev no_wfi : Registers → Registers
no_wfi s = s

device-IsCore_example :
    IsCore 32 (device small_hart 32 no_wfi) (mti_bit small_hart 32) (mie_bit small_hart 32)
device-IsCore_example =
    device-IsCore small_hart 32 no_wfi (inl refl) mie-IsStandard mstatus-IsStandard
      (λ v s. bit_and-mod 32 v 0x80 (omega arith)) (λ v s. bit_and-mod 32 v 0x8 (omega arith))
      (λ v s. refl) (λ v s. refl) (λ s. refl) (λ s. refl)

small-IsCore :
    IsCore 32 (device small_hart 32 no_wfi) (mti_bit small_hart 32) (mie_bit small_hart 32)
small-IsCore =
    device-IsCore small_hart 32 no_wfi (inl refl) mie-IsStandard mstatus-IsStandard
      (λ v s. bit_and-mod 32 v 0x80 (omega arith)) (λ v s. bit_and-mod 32 v 0x8 (omega arith))
      (λ v s. refl) (λ v s. refl) (λ s. refl) (λ s. refl)

-- The interrupt of the timer, which is taken where both bits are set. It clears `mstatus.mie`, and
-- the return from it writes back what was there.
abbrev small_traps : Traps Registers
small_traps = record {
  taken = λ k s. mie_bit small_hart 32 s && mti_bit small_hart 32 s;
  trap = λ k s. record s {
    mcause = k;
    saved = s.mstatus;
    mstatus = bit_and s.mstatus (2 ^ 32 - 1 - 0x8);
  };
  mret = λ s. record s { mstatus = s.saved };
}

abbrev Fits : ℕ → Type 0
Fits cause = cause < 2 ^ 32

small-IsTraps :
    IsTraps
      (device small_hart 32 no_wfi)
      (mti_bit small_hart 32)
      (mie_bit small_hart 32)
      Fits
      small_traps
small-IsTraps = record {
  masked = λ k s clear. rw clear refl;
  cause = λ k s fits. mod-eq_of_lt fits;
  mti-trap = λ k s.
      ap (λ (v : ℕ). v == 1)
        (field_read-same small_hart 32 CsrName.mie mie_mti (small_traps.trap k s) s refl);
  mti-mret = λ s.
      ap (λ (v : ℕ). v == 1)
        (field_read-same small_hart 32 CsrName.mie mie_mti (small_traps.mret s) s refl);
  mie-mret = λ k s.
      ap (λ (v : ℕ). v == 1)
        (field_read-same small_hart 32 CsrName.mstatus mstatus_mie
          (small_traps.mret (small_traps.trap k s)) s refl);
  mie-mret_clr = λ k s.
      rw
        (field_clr-csrw small_hart 32 CsrName.mie mie-IsStandard mie_mti
          (mie_mti-IsField small_hart 32 (inl refl)) (small_traps.trap k s))
        (ap (λ (v : ℕ). v == 1)
          (field_read-same small_hart 32 CsrName.mstatus mstatus_mie _ s refl));
}

-- A round at 50, the timer's interrupt at 90, and another round at 101. While the loop waits the
-- interrupt is pending at each instruction.
abbrev machine : Machine Registers
machine = record {
  hart = record { mie = 0; mstatus = 0; mcause = 0; saved = 0 };
  program = one_task;
  waits = [];
}

abbrev timer_at : ℕ → Pending
timer_at now = record { cause = 2 ^ 31 + 7; now = now }

abbrev always : Within
always = record {
  behind_clr = timer_at 53 ∷ [];
  behind_set = timer_at 54 ∷ timer_at 55 ∷ [];
  behind_wfi = timer_at 56 ∷ [];
}

abbrev early_events : List Event
early_events = round (from 50) always ∷ interrupt (2 ^ 31 + 7) 90 ∷ []

machine_run-program_run_example :
    view_all
      (mti_bit small_hart 32)
      (mie_bit small_hart 32)
      (machine_run (device small_hart 32 no_wfi) small_traps setting 4 early_events machine)
    ≡ program_run 32 setting 4 early_events
        (view (mti_bit small_hart 32) (mie_bit small_hart 32) machine)
machine_run-program_run_example =
    machine_run-program_run (mti_bit small_hart 32) (mie_bit small_hart 32) 32
      (device small_hart 32 no_wfi) small-IsCore Fits small_traps small-IsTraps setting 4
      early_events machine (tt, (omega arith, tt))

machine_run-fault_example :
    (m' : Machine Registers) × (machine_run
        (device small_hart 32 no_wfi)
        small_traps
        setting
        4
        early_events
        machine
      ≡ some m')
    × (m'.program.waiting ≡ waiting)
    × (map (flags (mti_bit small_hart 32) (mie_bit small_hart 32)) m'.waits ≡ (true, false) ∷ [])
    × (machine_run
          (device small_hart 32 no_wfi)
          small_traps
          setting
          4
          (early_events ++ round (from 101) always ∷ [])
          machine
        ≡ none)
machine_run-fault_example =
    machine_run-fault (mti_bit small_hart 32) (mie_bit small_hart 32) 32
      (device small_hart 32 no_wfi) small-IsCore Fits small_traps small-IsTraps setting 4 3 first []
      early_events [] (from 101) always machine waiting-Holds (omega arith) (tt, tt)
      (omega arith, (tt, tt)) (tt, (omega arith, (tt, tt))) (omega arith) refl refl
      (refl, omega arith, refl)

-- The host's registers before the first write to them.
host-IsCore_example :
    IsCore 32 (host 32) (λ s. s.mie.mti.value) (λ s. s.mstatus.mie.value)
    × (handle_trap (host 32) 90 (record { hart = csrs; program = one_task; waits = [] })
        ≡ record { hart = csrs; program = one_task; waits = [] })
host-IsCore_example = host-IsCore 32 90 (record { hart = csrs; program = one_task; waits = [] })

mie_field-enables_example :
    (field_read 32
        (mie_ops small_hart)
        (mie_field mti)
        (field_set 32 (mie_ops small_hart) (mie_field mti) machine.hart)
      ≡ 1)
    × (field_read 32
          (mie_ops small_hart)
          (mie_field mti)
          (field_clr 32 (mie_ops small_hart) (mie_field mti) machine.hart)
        ≡ 0)
    × (field_read 32
          (mie_ops small_hart)
          (mie_field mei)
          (field_set 32 (mie_ops small_hart) (mie_field mti) machine.hart)
        ≡ field_read 32 (mie_ops small_hart) (mie_field mei) machine.hart)
    × (field_read 32
          (mie_ops small_hart)
          (mie_field mei)
          (field_clr 32 (mie_ops small_hart) (mie_field mti) machine.hart)
        ≡ field_read 32 (mie_ops small_hart) (mie_field mei) machine.hart)
    × ((mie_field mti).bit_mask ≡ 128)
    × (mip_field mti ≡ mie_field mti)
mie_field-enables_example =
    mie_field-enables small_hart 32 mti mei machine.hart (inl refl) mie-IsStandard
      (λ v s. bit_and-mod 32 v 0x80 (omega arith)) (λ v s. bit_and-mod 32 v 0x800 (omega arith))
      (λ e. absurd (omega (arith, e)))
