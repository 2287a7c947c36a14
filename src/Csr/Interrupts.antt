-- ===== src/Csr/Interrupts.antt =====
-- The causes of include/riscv/riscv-interrupts.hpp, and the fields of `mie` and `mip` in
-- include/riscv/riscv-csr.hpp that bear their names.
use baremetal_cxx_coro.Common.{
  ℕ, zero, suc, ◌/◌, ◌^◌, ◌<◌, ◌≡◌, ◌≢◌, ◌⊎◌, inl, inr, refl, sym, subst, ap, ◌∙◌, ◌-◌, arith,
  bit_and,
}
use mathlib.Core.Path.{ap₂}
use native.Mathlib.Nat.{pow-suc}
use baremetal_cxx_coro.Common.Bits.{bit_and-half, bit_and-zero_left, bit_and-zero}
use baremetal_cxx_coro.Csr.{
  CsrName, Isa, FieldData, field, mie_ops, field_read, field_set, field_clr,
}
use baremetal_cxx_coro.Csr.Masks.{half_of}
use baremetal_cxx_coro.Csr.Register.{IsStandard}
use baremetal_cxx_coro.Csr.Field.{IsField, Keeps, field_write-apart, field_set-field_read}

pub data Interrupt : Type 0 where
  msi mti mei ssi sti sei usi uti uei : Interrupt

-- `riscv::interrupts`
abbrev pub cause : Interrupt → ℕ
cause msi = 3
cause mti = 7
cause mei = 11
cause ssi = 1
cause sti = 5
cause sei = 9
cause usi = 0
cause uti = 4
cause uei = 8

-- `mie_data`
abbrev pub mie_field : Interrupt → FieldData
mie_field msi = field 3 1 0x8
mie_field mti = field 7 1 0x80
mie_field mei = field 11 1 0x800
mie_field ssi = field 1 1 0x2
mie_field sti = field 5 1 0x20
mie_field sei = field 9 1 0x200
mie_field usi = field 0 1 0x1
mie_field uti = field 4 1 0x10
mie_field uei = field 8 1 0x100

-- `mip_data`
abbrev pub mip_field : Interrupt → FieldData
mip_field msi = field 3 1 0x8
mip_field mti = field 7 1 0x80
mip_field mei = field 11 1 0x800
mip_field ssi = field 1 1 0x2
mip_field sti = field 5 1 0x20
mip_field sei = field 9 1 0x200
mip_field usi = field 0 1 0x1
mip_field uti = field 4 1 0x10
mip_field uei = field 8 1 0x100

-- A mask of one bit at the cause.
mie_field-cause :
    (i : Interrupt)
    → ((mie_field i).bit_mask ≡ 2 ^ cause i)
      × ((mie_field i).bit_offset ≡ cause i)
      × ((mie_field i).bit_width ≡ 1)
mie_field-cause msi = (refl, refl, refl)
mie_field-cause mti = (refl, refl, refl)
mie_field-cause mei = (refl, refl, refl)
mie_field-cause ssi = (refl, refl, refl)
mie_field-cause sti = (refl, refl, refl)
mie_field-cause sei = (refl, refl, refl)
mie_field-cause usi = (refl, refl, refl)
mie_field-cause uti = (refl, refl, refl)
mie_field-cause uei = (refl, refl, refl)

mip_field-mie_field : (i : Interrupt) → mip_field i ≡ mie_field i
mip_field-mie_field msi = refl
mip_field-mie_field mti = refl
mip_field-mie_field mei = refl
mip_field-mie_field ssi = refl
mip_field-mie_field sti = refl
mip_field-mie_field sei = refl
mip_field-mie_field usi = refl
mip_field-mie_field uti = refl
mip_field-mie_field uei = refl

-- Two different powers of 2 have no bit in common.
powers-apart : (a b : ℕ) → a ≢ b → bit_and (2 ^ a) (2 ^ b) ≡ 0
powers-apart zero zero ne = absurd (ne refl)
powers-apart zero (suc b) ne =
    omega (arith, pow-suc 2 b, bit_and-half 1 (2 ^ suc b), bit_and-zero_left (2 ^ suc b / 2))
powers-apart (suc a) zero ne =
    omega (arith, pow-suc 2 a, bit_and-half (2 ^ suc a) 1, bit_and-zero (2 ^ suc a / 2))
powers-apart (suc a) (suc b) ne = omega (
  arith,
  bit_and-half (2 ^ suc a) (2 ^ suc b),
  pow-suc 2 a,
  ap₂ bit_and (half_of (2 ^ a) (2 ^ suc a) (omega (arith, pow-suc 2 a)))
      (half_of (2 ^ b) (2 ^ suc b) (omega (arith, pow-suc 2 b))),
  powers-apart a b (λ e. ne (ap suc e)),
)

mie_field-IsField :
    (xlen : ℕ) (i : Interrupt) → (xlen ≡ 32) ⊎ (xlen ≡ 64) → IsField xlen (mie_field i)
mie_field-IsField xlen i width =
    let (mask, offset, one) = mie_field-cause i in
    record {
      mask = rw (mask, offset, one) (omega arith);
      some_bit = rw one (omega arith);
      inside = elim width [ inl e ↦ rw e (small i) | inr e ↦ rw e (large i) ];
    }
  where
    small : (j : Interrupt) → (mie_field j).bit_mask < 2 ^ 32
    small j = ground arith

    large : (j : Interrupt) → (mie_field j).bit_mask < 2 ^ 64
    large j = ground arith

module _ (isa : Isa) (xlen : ℕ) (i j : Interrupt) where
  -- On a hart of 32 or 64 bits, in which `mie` is a standard register that keeps the bits of the
  -- two causes, and for any two interrupts of different causes: after the field of `mie` with the
  -- name of the first is set it is read as 1, and after it is cleared as 0, the field of the second
  -- is read as before in both cases, the mask of the first is the bit of its cause, and its field
  -- of `mip` is the same.
  pub mie_field-enables :
      (s : isa.State)
      → (xlen ≡ 32) ⊎ (xlen ≡ 64)
      → IsStandard isa xlen CsrName.mie
      → Keeps isa CsrName.mie (2 ^ cause i)
      → Keeps isa CsrName.mie (2 ^ cause j)
      → cause i ≢ cause j
      → (field_read xlen (mie_ops isa) (mie_field i) (field_set xlen (mie_ops isa) (mie_field i) s)
          ≡ 1)
        × (field_read xlen
              (mie_ops isa)
              (mie_field i)
              (field_clr xlen (mie_ops isa) (mie_field i) s)
            ≡ 0)
        × (field_read xlen
              (mie_ops isa)
              (mie_field j)
              (field_set xlen (mie_ops isa) (mie_field i) s)
            ≡ field_read xlen (mie_ops isa) (mie_field j) s)
        × (field_read xlen
              (mie_ops isa)
              (mie_field j)
              (field_clr xlen (mie_ops isa) (mie_field i) s)
            ≡ field_read xlen (mie_ops isa) (mie_field j) s)
        × ((mie_field i).bit_mask ≡ 2 ^ cause i)
        × (mip_field i ≡ mie_field i)
  mie_field-enables s width std keeps_i keeps_j differ =
      let (mask_i, _, one) = mie_field-cause i in
      let (mask_j, _, _) = mie_field-cause j in
      let is = mie_field-IsField xlen i width in
      let kept_i : Keeps isa CsrName.mie (mie_field i).bit_mask =
        subst (Keeps isa CsrName.mie) (sym mask_i) keeps_i in
      let kept_j : Keeps isa CsrName.mie (mie_field j).bit_mask =
        subst (Keeps isa CsrName.mie) (sym mask_j) keeps_j in
      let apart : bit_and (mie_field i).bit_mask (mie_field j).bit_mask ≡ 0 =
        rw (mask_i, mask_j) (powers-apart (cause i) (cause j) differ) in
      let own = field_set-field_read isa xlen CsrName.mie std (mie_field i) is s kept_i in
      let others =
        field_write-apart isa xlen CsrName.mie std (mie_field i) is (mie_field j) 0 s apart
          kept_j in
      (
        own.0 ∙ ap (λ (w : ℕ). 2 ^ w - 1) one,
        own.1,
        others.1,
        others.2,
        mask_i,
        mip_field-mie_field i,
      )
