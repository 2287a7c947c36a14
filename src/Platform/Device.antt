-- ===== src/Platform/Device.antt =====
-- The members of `csrs` of include/riscv/riscv-csr.hpp that src/example_simple.cpp uses.
use baremetal_cxx_coro.Common.{
  ℕ, ◌-◌, ◌^◌, ◌≡◌, refl, ap, Bool, ◌==◌, ◌⊎◌, inl, inr, bit_and, arith,
}
use baremetal_cxx_coro.Csr.{
  CsrName, Isa, mie_ops, mstatus_ops, mcause_ops, machine_ops, mie_mti, mstatus_mie,
  mcause_interrupt, field_read, field_set, field_clr, FieldData,
}
use baremetal_cxx_coro.Csr.Register.{IsStandard}
use baremetal_cxx_coro.Csr.Field.{
  IsField, Keeps, field_set-csrw, field_clr-csrw, field_set-field_read, field_read-same,
}
use baremetal_cxx_coro.Platform.{Core, IsCore}

module _ (isa : Isa) (xlen : ℕ) where
  open isa use {State, csrr, csrw}

  -- `csrs` of the hart, with the instruction `wfi`.
  abbrev pub device : (State → State) → Core State
  device wfi = record {
    interrupt_mask = (mcause_interrupt xlen).bit_mask;
    mcause_read = (mcause_ops isa).read;
    mti_set = field_set xlen (mie_ops isa) mie_mti;
    mti_clr = field_clr xlen (mie_ops isa) mie_mti;
    mie_set = field_set xlen (mstatus_ops isa) mstatus_mie;
    mie_clr = field_clr xlen (mstatus_ops isa) mstatus_mie;
    wfi = wfi;
  }

  abbrev pub mti_bit : State → Bool
  mti_bit s = field_read xlen (mie_ops isa) mie_mti s == 1

  abbrev pub mie_bit : State → Bool
  mie_bit s = field_read xlen (mstatus_ops isa) mstatus_mie s == 1

  -- A write of one register leaves another as it is, and so does `wfi`.
  abbrev pub Separate : CsrName → CsrName → Type 0
  Separate a b = (v : ℕ) (s : State) → csrr b (csrw a v s) ≡ csrr b s

  abbrev pub Leaves : (State → State) → CsrName → Type 0
  Leaves wfi a = (s : State) → csrr a (wfi s) ≡ csrr a s

  module _ (width : (xlen ≡ 32) ⊎ (xlen ≡ 64)) where
    pub mie_mti-IsField : IsField xlen mie_mti
    mie_mti-IsField = elim width [
      | inl e ↦ rw e (record { mask = refl; some_bit = omega arith; inside = omega arith })
      | inr e ↦ rw e (record { mask = refl; some_bit = omega arith; inside = omega arith })
    ]

    mstatus_mie-IsField : IsField xlen mstatus_mie
    mstatus_mie-IsField = elim width [
      | inl e ↦ rw e (record { mask = refl; some_bit = omega arith; inside = omega arith })
      | inr e ↦ rw e (record { mask = refl; some_bit = omega arith; inside = omega arith })
    ]

    highest_bit : (mcause_interrupt xlen).bit_mask ≡ 2 ^ (xlen - 1)
    highest_bit = elim width [ inl e ↦ rw e refl | inr e ↦ rw e refl ]

  -- What is written to a field of one register does not show in a field of another.
  module _ (a b : CsrName) (std : IsStandard isa xlen a) (f g : FieldData) (is : IsField xlen f)
      (apart : Separate a b) where
    field_set-Separate :
        (s : State)
        → field_read xlen (machine_ops isa b) g (field_set xlen (machine_ops isa a) f s)
          ≡ field_read xlen (machine_ops isa b) g s
    field_set-Separate s =
        rw (field_set-csrw isa xlen a std f is s) (field_read-same isa xlen b g _ s (apart _ s))

    field_clr-Separate :
        (s : State)
        → field_read xlen (machine_ops isa b) g (field_clr xlen (machine_ops isa a) f s)
          ≡ field_read xlen (machine_ops isa b) g s
    field_clr-Separate s =
        rw (field_clr-csrw isa xlen a std f is s) (field_read-same isa xlen b g _ s (apart _ s))

  -- On a hart of 32 or 64 bits, in which `mie` and `mstatus` are standard registers that keep the
  -- bits of `mti` and `mie`, in which a write to either leaves the other as it is, and of which
  -- `wfi` leaves both: `set` and `clr` of the fields `mie.mti` and `mstatus.mie` set and clear the
  -- field's bit and leave the other field's, `wfi` leaves both, and `interrupt::BIT_MASK` tells by
  -- the highest bit of `mcause`.
  pub device-IsCore :
      (wfi : State → State)
      → (xlen ≡ 32) ⊎ (xlen ≡ 64)
      → IsStandard isa xlen CsrName.mie
      → IsStandard isa xlen CsrName.mstatus
      → Keeps isa CsrName.mie 0x80
      → Keeps isa CsrName.mstatus 0x8
      → Separate CsrName.mie CsrName.mstatus
      → Separate CsrName.mstatus CsrName.mie
      → Leaves wfi CsrName.mie
      → Leaves wfi CsrName.mstatus
      → IsCore xlen (device wfi) mti_bit mie_bit
  device-IsCore wfi width std_mie std_mstatus keeps_mie keeps_mstatus apart apart' leaves leaves' =
      let mti = mie_mti-IsField width in
      let mie = mstatus_mie-IsField width in
      let in_mie = field_set-field_read isa xlen CsrName.mie std_mie mie_mti mti in
      let in_mstatus = field_set-field_read isa xlen CsrName.mstatus std_mstatus mstatus_mie mie in
      let one = λ (t : ℕ). t == 1 in
      record {
        mask = λ s. ap (λ m. bit_and (csrr CsrName.mcause s) m == 0) (highest_bit width);
        mti-mti_set = λ s. ap one (in_mie s keeps_mie).0;
        mti-mti_clr = λ s. ap one (in_mie s keeps_mie).1;
        mti-mie_set = λ s. ap one (
            field_set-Separate CsrName.mstatus CsrName.mie std_mstatus mstatus_mie mie_mti mie
              apart' s);
        mti-mie_clr = λ s. ap one (
            field_clr-Separate CsrName.mstatus CsrName.mie std_mstatus mstatus_mie mie_mti mie
              apart' s);
        mti-wfi = λ s. ap one (field_read-same isa xlen CsrName.mie mie_mti (wfi s) s (leaves s));
        mie-mti_set = λ s. ap one (
            field_set-Separate CsrName.mie CsrName.mstatus std_mie mie_mti mstatus_mie mti apart s);
        mie-mti_clr = λ s. ap one (
            field_clr-Separate CsrName.mie CsrName.mstatus std_mie mie_mti mstatus_mie mti apart s);
        mie-mie_set = λ s. ap one (in_mstatus s keeps_mstatus).0;
        mie-mie_clr = λ s. ap one (in_mstatus s keeps_mstatus).1;
        mie-wfi = λ s.
            ap one (field_read-same isa xlen CsrName.mstatus mstatus_mie (wfi s) s (leaves' s));
      }
