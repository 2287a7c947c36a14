-- ===== src/Csr.antt =====
-- include/riscv/riscv-csr.hpp: access to the control and status registers of a RISC-V hart.
-- The instructions in the `asm` statements are the hart's: they enter as a parameter.
pub mod Masks
pub mod Register
pub mod Field
pub mod Interrupts
use baremetal_cxx_coro.Common.{
  ℕ, ◌+◌, ◌-◌, ◌*◌, ◌/◌, ◌%◌, ◌^◌, ◌<◌, ◌≡◌, Bool, true, false, ◌==◌, if◌then◌else◌, bit_and,
  bit_or,
}

-- The machine-mode registers that can be written.
pub data CsrName : Type 0 where
  misa mstatus mtvec medeleg mideleg mip mie mscratch mepc mcause mtval : CsrName

-- The instructions: the state of the hart, and what each instruction with its register and its
-- source operand returns and does. Those that return a value take a destination register.
pub record Isa : Type 1 where
  pub State : Type 0
  pub csrr : CsrName → State → ℕ
  pub csrw : CsrName → ℕ → State → State
  pub csrwi : CsrName → ℕ → State → State
  pub csrrw : CsrName → ℕ → State → ℕ × State
  pub csrrwi : CsrName → ℕ → State → ℕ × State
  pub csrrs : CsrName → ℕ → State → ℕ × State
  pub csrrsi : CsrName → ℕ → State → ℕ × State
  pub csrrc : CsrName → ℕ → State → ℕ × State
  pub csrrci : CsrName → ℕ → State → ℕ × State

-- The members of the structs `…_ops`.
pub record CsrOps (S : Type 0) : Type 0 where
  pub read : S → ℕ
  pub write : ℕ → S → S
  pub write_imm : ℕ → S → S
  pub read_write : ℕ → S → ℕ × S
  pub read_write_imm : ℕ → S → ℕ × S
  pub set_bits : ℕ → S → S
  pub read_set_bits : ℕ → S → ℕ × S
  pub clr_bits : ℕ → S → S
  pub read_clr_bits : ℕ → S → ℕ × S
  pub set_bits_imm : ℕ → S → S
  pub read_set_bits_imm : ℕ → S → ℕ × S
  pub clr_bits_imm : ℕ → S → S
  pub read_clr_bits_imm : ℕ → S → ℕ × S

-- A value returned as `uint32_t`.
abbrev pub returned_32 : {S : Type 0} → ℕ × S → ℕ × S
returned_32 (v, s) = (v % 2 ^ 32, s)

module _ (isa : Isa) where
  open isa use {State, csrr, csrw, csrwi, csrrw, csrrwi, csrrs, csrrsi, csrrc, csrrci}

  -- The text that the structs have in common but for the register's name. `read_set_bits` and
  -- `read_clr_bits` return `uint32_t`, whatever the width of the register.
  abbrev pub machine_ops : CsrName → CsrOps State
  machine_ops csr = record {
    read = csrr csr;
    write = csrw csr;
    write_imm = csrwi csr;
    read_write = csrrw csr;
    read_write_imm = csrrwi csr;
    set_bits = λ mask s. (csrrs csr mask s).1;
    read_set_bits = λ mask s. returned_32 (csrrs csr mask s);
    clr_bits = λ mask s. (csrrc csr mask s).1;
    read_clr_bits = λ mask s. returned_32 (csrrc csr mask s);
    set_bits_imm = λ mask s. (csrrsi csr mask s).1;
    read_set_bits_imm = λ mask s. csrrsi csr mask s;
    clr_bits_imm = λ mask s. (csrrci csr mask s).1;
    read_clr_bits_imm = λ mask s. csrrci csr mask s;
  }

  abbrev pub misa_ops : CsrOps State
  misa_ops = machine_ops CsrName.misa

  abbrev pub mstatus_ops : CsrOps State
  mstatus_ops = machine_ops CsrName.mstatus

  abbrev pub mtvec_ops : CsrOps State
  mtvec_ops = machine_ops CsrName.mtvec

  abbrev pub medeleg_ops : CsrOps State
  medeleg_ops = machine_ops CsrName.medeleg

  abbrev pub mideleg_ops : CsrOps State
  mideleg_ops = machine_ops CsrName.mideleg

  abbrev pub mip_ops : CsrOps State
  mip_ops = machine_ops CsrName.mip

  abbrev pub mie_ops : CsrOps State
  mie_ops = machine_ops CsrName.mie

  abbrev pub mscratch_ops : CsrOps State
  mscratch_ops = machine_ops CsrName.mscratch

  abbrev pub mepc_ops : CsrOps State
  mepc_ops = machine_ops CsrName.mepc

  abbrev pub mcause_ops : CsrOps State
  mcause_ops = machine_ops CsrName.mcause

  abbrev pub mtval_ops : CsrOps State
  mtval_ops = machine_ops CsrName.mtval

-- `(VALUE & CSR_IMM_OP_MASK) == VALUE`
abbrev pub fits_imm : ℕ → Bool
fits_imm value = bit_and value 0x01F == value

-- `read_only_reg`, `write_only_reg` and `read_write_reg` over the members `c`.
module _ {S : Type 0} (c : CsrOps S) where
  pub write_const : ℕ → S → S
  write_const value = if fits_imm value then c.write_imm value else c.write value

  pub set_const : ℕ → S → S
  set_const mask = if fits_imm mask then c.set_bits_imm mask else c.set_bits mask

  pub clr_const : ℕ → S → S
  clr_const mask = if fits_imm mask then c.clr_bits_imm mask else c.clr_bits mask

  pub read_write_const : ℕ → S → ℕ × S
  read_write_const value = if fits_imm value then c.read_write_imm value else c.read_write value

  pub read_set_bits_const : ℕ → S → ℕ × S
  read_set_bits_const mask =
      if fits_imm mask then c.read_set_bits_imm mask else c.read_set_bits mask

  pub read_clr_bits_const : ℕ → S → ℕ × S
  read_clr_bits_const mask =
      if fits_imm mask then c.read_clr_bits_imm mask else c.read_clr_bits mask

-- The parameter data of a field.
pub record FieldData : Type 0 where
  pub bit_offset : ℕ
  pub bit_width : ℕ
  pub bit_mask : ℕ

abbrev pub field : ℕ → ℕ → ℕ → FieldData
field offset width mask = record { bit_offset = offset; bit_width = width; bit_mask = mask }

-- `mstatus_data`
abbrev pub mstatus_mie : FieldData
mstatus_mie = field 3 1 0x8

abbrev pub mstatus_sie : FieldData
mstatus_sie = field 2 1 0x4

abbrev pub mstatus_mpie : FieldData
mstatus_mpie = field 7 1 0x80

abbrev pub mstatus_spie : FieldData
mstatus_spie = field 5 1 0x20

abbrev pub mstatus_mprv : FieldData
mstatus_mprv = field 17 1 0x20000

abbrev pub mstatus_mpp : FieldData
mstatus_mpp = field 11 2 0x1800

abbrev pub mstatus_spp : FieldData
mstatus_spp = field 8 1 0x100

-- `mie_data`, of the bit that enables the timer interrupt
abbrev pub mie_mti : FieldData
mie_mti = field 7 1 0x80

-- `mtvec_data` and `mcause_data`, by `__riscv_xlen`
abbrev pub mtvec_base : ℕ → FieldData
mtvec_base xlen =
    field 2 (xlen - 1 - 2 + 1) (1 * 2 ^ (xlen - 1 - 2 + 1 - 1) % 2 ^ xlen * 2 ^ 2 % 2 ^ xlen)

abbrev pub mtvec_mode : FieldData
mtvec_mode = field 0 2 0x3

abbrev pub mcause_interrupt : ℕ → FieldData
mcause_interrupt xlen = field (xlen - 1) 1 (1 * 2 ^ (xlen - 1) % 2 ^ xlen)

abbrev pub mcause_exception_code : ℕ → FieldData
mcause_exception_code xlen =
    field 0 (xlen - 2 - 0 + 1) (1 * 2 ^ (xlen - 2 - 0 + 1 - 1) % 2 ^ xlen * 2 ^ 0 % 2 ^ xlen)

-- `read_only_field`, `write_only_field` and `read_write_field` of the field `f` of a register of
-- `xlen` bits, over the register's members `c`.
module _ (xlen : ℕ) {S : Type 0} (c : CsrOps S) (f : FieldData) where
  -- `~F::BIT_MASK`
  abbrev pub inverted : ℕ
  inverted = 2 ^ xlen - 1 - f.bit_mask

  pub field_read : S → ℕ
  field_read s = bit_and (c.read s) f.bit_mask / 2 ^ f.bit_offset

  pub field_set : S → S
  field_set = if fits_imm f.bit_mask then c.set_bits_imm f.bit_mask else c.set_bits f.bit_mask

  pub field_clr : S → S
  field_clr = if fits_imm f.bit_mask then c.clr_bits_imm f.bit_mask else c.clr_bits f.bit_mask

  abbrev pub replaced : ℕ → ℕ → ℕ
  replaced org_value value =
      bit_or (bit_and org_value inverted) (bit_and (value * 2 ^ f.bit_offset % 2 ^ xlen) f.bit_mask)

  pub field_write : ℕ → S → S
  field_write value s = c.write (replaced (c.read s) value) s

  pub field_read_write : ℕ → S → ℕ × S
  field_read_write value s =
      (bit_and (c.read s) f.bit_mask / 2 ^ f.bit_offset, c.write (replaced (c.read s) value) s)
