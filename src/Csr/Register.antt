-- ===== src/Csr/Register.antt =====
-- The operations with a constant operand of the register classes of include/riscv/riscv-csr.hpp,
-- which choose the immediate form of an instruction where the constant fits.
use baremetal_cxx_coro.Common.{
  ℕ, ◌-◌, ◌%◌, ◌^◌, ◌<◌, ◌≡◌, refl, ◌∙◌, subst, true, false, Bool-cases, inl, inr, arith, bit_and,
  bit_or,
}
use baremetal_cxx_coro.Common.Bits.{bit_and-low_mask}
use baremetal_cxx_coro.Csr.{
  CsrName, Isa, machine_ops, fits_imm, write_const, set_const, clr_const, read_write_const,
  read_set_bits_const, read_clr_bits_const,
}

-- What the instruction set's manual says of the instructions on the register `csr` of `xlen` bits:
-- the forms with an immediate operand of 5 bits do what the forms with a register do, where the
-- operand is not 0, and a set or clear is a read and a write of the bits combined.
pub record IsStandard (isa : Isa) (xlen : ℕ) (csr : CsrName) : Type 0 where
  pub width : (s : isa.State) → isa.csrr csr s < 2 ^ xlen
  pub write_imm : (u : ℕ) (s : isa.State) → u < 32 → isa.csrwi csr u s ≡ isa.csrw csr u s
  pub swap_imm : (u : ℕ) (s : isa.State) → u < 32 → isa.csrrwi csr u s ≡ isa.csrrw csr u s
  pub set_imm : (u : ℕ) (s : isa.State) → 0 < u → u < 32 → isa.csrrsi csr u s ≡ isa.csrrs csr u s
  pub clr_imm : (u : ℕ) (s : isa.State) → 0 < u → u < 32 → isa.csrrci csr u s ≡ isa.csrrc csr u s
  pub swap : (v : ℕ) (s : isa.State) → isa.csrrw csr v s ≡ (isa.csrr csr s, isa.csrw csr v s)
  pub set :
      (m : ℕ) (s : isa.State)
      → isa.csrrs csr m s ≡ (isa.csrr csr s, isa.csrw csr (bit_or (isa.csrr csr s) m) s)
  pub clr :
      (m : ℕ) (s : isa.State)
      → isa.csrrc csr m s
        ≡ (isa.csrr csr s, isa.csrw csr (bit_and (isa.csrr csr s) (2 ^ xlen - 1 - m)) s)

pub fits_imm-lt : (u : ℕ) → fits_imm u ≡ true → u < 32
fits_imm-lt u h = ground (arith, bit_and-low_mask 5 u)

module _ (isa : Isa) (xlen : ℕ) (csr : CsrName) (std : IsStandard isa xlen csr) where
  open isa use {State, csrr, csrw}

  -- On a standard register, whichever form of the instruction is chosen, a constant write leaves
  -- what a write of the register leaves, and a constant swap leaves the same and returns the old
  -- value.
  pub write_const-csrw :
      (value : ℕ) (s : State)
      → (write_const (machine_ops isa csr) value s ≡ csrw csr value s)
        × (read_write_const (machine_ops isa csr) value s ≡ (csrr csr s, csrw csr value s))
  unfolding write_const read_write_const
  write_const-csrw value s = elim (Bool-cases (fits_imm value)) [
    | inl r ↦
        let small = fits_imm-lt value r in
        rw r (std.write_imm value s small, std.swap_imm value s small ∙ std.swap value s)
    | inr r ↦ rw r (refl, std.swap value s)
  ]

  -- On a standard register, whichever form of the instruction is chosen, setting the bits of a mask
  -- other than 0 writes the old value with these bits set, and clearing them writes the old value
  -- with these bits cleared.
  pub set_const-csrw :
      (mask : ℕ) (s : State)
      → 0 < mask
      → (set_const (machine_ops isa csr) mask s ≡ csrw csr (bit_or (csrr csr s) mask) s)
        × (clr_const (machine_ops isa csr) mask s
            ≡ csrw csr (bit_and (csrr csr s) (2 ^ xlen - 1 - mask)) s)
  unfolding set_const clr_const
  set_const-csrw mask s ne = elim (Bool-cases (fits_imm mask)) [
    | inl r ↦
        let small = fits_imm-lt mask r in
        rw
          (
            r,
            std.set_imm mask s ne small,
            std.clr_imm mask s ne small,
            std.set mask s,
            std.clr mask s,
          )
          (refl, refl)
    | inr r ↦ rw (r, std.set mask s, std.clr mask s) (refl, refl)
  ]

  -- On a standard register of any width, with a mask that has no immediate form, the value that is
  -- returned when bits are read and set or cleared is the old value cut off after 32 bits.
  pub read_set_bits_const-truncates :
      (mask : ℕ) (s : State)
      → fits_imm mask ≡ false
      → ((read_set_bits_const (machine_ops isa csr) mask s).0 ≡ csrr csr s % 2 ^ 32)
        × ((read_clr_bits_const (machine_ops isa csr) mask s).0 ≡ csrr csr s % 2 ^ 32)
  unfolding read_set_bits_const read_clr_bits_const
  read_set_bits_const-truncates mask s r = rw (r, std.set mask s, std.clr mask s) (refl, refl)

  -- On a standard register of 32 bits, reading and setting or clearing the bits of a mask other
  -- than 0 returns the old value, and leaves what setting or clearing without the read leaves.
  pub read_set_bits_const-set_const :
      (mask : ℕ) (s : State)
      → 0 < mask
      → xlen ≡ 32
      → (read_set_bits_const (machine_ops isa csr) mask s
          ≡ (csrr csr s, set_const (machine_ops isa csr) mask s))
        × (read_clr_bits_const (machine_ops isa csr) mask s
            ≡ (csrr csr s, clr_const (machine_ops isa csr) mask s))
  unfolding set_const clr_const read_set_bits_const read_clr_bits_const
  read_set_bits_const-set_const mask s ne w =
      let bound : csrr csr s < 2 ^ 32 = subst (λ t. csrr csr s < 2 ^ t) w (std.width s) in
      let whole : csrr csr s % 2 ^ 32 ≡ csrr csr s = omega (arith, bound) in
      elim (Bool-cases (fits_imm mask)) [
        | inl r ↦
            let small = fits_imm-lt mask r in
            rw
              (
                r,
                std.set_imm mask s ne small,
                std.clr_imm mask s ne small,
                std.set mask s,
                std.clr mask s,
              )
              (refl, refl)
        | inr r ↦ rw (r, std.set mask s, std.clr mask s, whole) (refl, refl)
      ]
