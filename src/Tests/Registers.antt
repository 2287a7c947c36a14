-- ===== src/Tests/Registers.antt =====
-- The theorems about include/riscv/riscv-csr.hpp, on a hart of 32 bits with a single register.
use baremetal_cxx_coro.Common.{ℕ, ◌-◌, ◌<◌, ◌%◌, ◌^◌, ◌≡◌, refl, arith, bit_and, bit_or}
use native.Mathlib.Nat.{mod-lt}
use baremetal_cxx_coro.Common.Bits.{bit_and-mod}
use baremetal_cxx_coro.Csr.{
  CsrName, Isa, mstatus_ops, mtvec_ops, field_read, field_write, field_read_write, field_set,
  field_clr, mstatus_mie, mstatus_mpp, mtvec_base,
}
use baremetal_cxx_coro.Csr.Register.{IsStandard}
use baremetal_cxx_coro.Csr.Field.{
  IsField, Keeps, field_write-field_read, field_write-apart, mtvec_base-lost,
}

-- A hart whose registers all hold the state.
abbrev hart : Isa
hart = record {
  State = ℕ;
  csrr = λ csr s. s % 2 ^ 32;
  csrw = λ csr v s. v;
  csrwi = λ csr v s. v;
  csrrw = λ csr v s. (s % 2 ^ 32, v);
  csrrwi = λ csr v s. (s % 2 ^ 32, v);
  csrrs = λ csr m s. (s % 2 ^ 32, bit_or (s % 2 ^ 32) m);
  csrrsi = λ csr m s. (s % 2 ^ 32, bit_or (s % 2 ^ 32) m);
  csrrc = λ csr m s. (s % 2 ^ 32, bit_and (s % 2 ^ 32) (2 ^ 32 - 1 - m));
  csrrci = λ csr m s. (s % 2 ^ 32, bit_and (s % 2 ^ 32) (2 ^ 32 - 1 - m));
}

hart-IsStandard : IsStandard hart 32 CsrName.mstatus
hart-IsStandard = record {
  width = λ s. mod-lt s (omega arith);
  write_imm = λ u s lt. refl;
  swap_imm = λ u s lt. refl;
  set_imm = λ u s ne lt. refl;
  clr_imm = λ u s ne lt. refl;
  swap = λ v s. refl;
  set = λ m s. refl;
  clr = λ m s. refl;
}

-- The register keeps every bit of a word.
hart-Keeps : (w : ℕ) → w < 2 ^ 32 → (csr : CsrName) → Keeps hart csr w
hart-Keeps w lt csr v s = bit_and-mod 32 v w lt

mpp-IsField : IsField 32 mstatus_mpp
mpp-IsField = record { mask = refl; some_bit = omega arith; inside = omega arith }

field_write-field_read_example :
    (field_read 32
        (mstatus_ops hart)
        mstatus_mpp
        (field_write 32 (mstatus_ops hart) mstatus_mpp 3 0x88)
      ≡ 3)
    × (field_read_write 32 (mstatus_ops hart) mstatus_mpp 3 0x88 ≡ (
      field_read 32 (mstatus_ops hart) mstatus_mpp 0x88,
      field_write 32 (mstatus_ops hart) mstatus_mpp 3 0x88,
    ))
field_write-field_read_example =
    field_write-field_read hart 32 CsrName.mstatus hart-IsStandard mstatus_mpp mpp-IsField 3 0x88
      (omega arith) (hart-Keeps 0x1800 (omega arith) CsrName.mstatus)

field_write-apart_example :
    (field_read 32
        (mstatus_ops hart)
        mstatus_mie
        (field_write 32 (mstatus_ops hart) mstatus_mpp 3 0x8)
      ≡ field_read 32 (mstatus_ops hart) mstatus_mie 0x8)
    × (field_read 32
          (mstatus_ops hart)
          mstatus_mie
          (field_set 32 (mstatus_ops hart) mstatus_mpp 0x8)
        ≡ field_read 32 (mstatus_ops hart) mstatus_mie 0x8)
    × (field_read 32
          (mstatus_ops hart)
          mstatus_mie
          (field_clr 32 (mstatus_ops hart) mstatus_mpp 0x8)
        ≡ field_read 32 (mstatus_ops hart) mstatus_mie 0x8)
field_write-apart_example =
    field_write-apart hart 32 CsrName.mstatus hart-IsStandard mstatus_mpp mpp-IsField mstatus_mie 3
      0x8 refl (hart-Keeps 0x8 (omega arith) CsrName.mstatus)

mtvec_base-lost_example :
    (field_write 32 (mtvec_ops hart) (mtvec_base 32) 0x8000100 5
      ≡ hart.csrw CsrName.mtvec (bit_and (hart.csrr CsrName.mtvec 5) (2 ^ 31 - 1)) 5)
    × (field_read 32
          (mtvec_ops hart)
          (mtvec_base 32)
          (field_write 32 (mtvec_ops hart) (mtvec_base 32) 0x8000100 5)
        ≡ 0)
mtvec_base-lost_example =
    mtvec_base-lost hart 0x8000100 5 (omega arith) (hart-Keeps (2 ^ 31) (omega arith) CsrName.mtvec)
