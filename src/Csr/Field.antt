-- ===== src/Csr/Field.antt =====
-- The field classes of include/riscv/riscv-csr.hpp over one register.
use baremetal_cxx_coro.Common.{
  ℕ, zero, suc, ◌-◌, ◌*◌, ◌/◌, ◌%◌, ◌^◌, ◌≤◌, ◌<◌, ◌≡◌, refl, ap, ◌∙◌, arith, bit_and, bit_or,
}
use native.Mathlib.Nat.{
  pow-suc, one-le-pow, mul-le-mul_right, mod-eq_of_lt, mul-div_cancel, zero-div,
}
use baremetal_cxx_coro.Common.Bits.{bit_and-half, bit_and-low_mask, bit_or-zero}
use baremetal_cxx_coro.Csr.{
  CsrName, Isa, FieldData, machine_ops, inverted, replaced, field_read, field_set, field_clr,
  field_write, field_read_write, set_const, clr_const, mtvec_base, mtvec_ops,
}
use baremetal_cxx_coro.Csr.Masks.{
  Inverse, merge_masked, merge_apart, set_masked, clr_masked, set_apart, bit_and-shifted, half_of,
}
use baremetal_cxx_coro.Csr.Register.{IsStandard, set_const-csrw}

-- The field's mask covers its `bit_width` bits from `bit_offset` on, in a register of `xlen` bits.
pub record IsField (xlen : ℕ) (f : FieldData) : Type 0 where
  pub mask : f.bit_mask ≡ (2 ^ f.bit_width - 1) * 2 ^ f.bit_offset
  pub some_bit : 0 < f.bit_width
  pub inside : f.bit_mask < 2 ^ xlen

two-le-pow : (w : ℕ) → 0 < w → 2 ≤ 2 ^ w
two-le-pow zero h = absurd (omega arith)
two-le-pow (suc w) h = omega (arith, pow-suc 2 w, one-le-pow w 2 (omega arith))

-- The register `csr` keeps what is written under the mask `w`, as the manual says of the bits that
-- are neither reserved nor hardwired.
abbrev pub Keeps : (isa : Isa) → CsrName → ℕ → Type 0
Keeps isa csr w =
    (v : ℕ) (s : isa.State) → bit_and (isa.csrr csr (isa.csrw csr v s)) w ≡ bit_and v w

-- A field is read alike in two states in which its register is.
pub field_read-same :
    (isa : Isa) (xlen : ℕ) (csr : CsrName) (f : FieldData) (s t : isa.State)
    → isa.csrr csr s ≡ isa.csrr csr t
    → field_read xlen (machine_ops isa csr) f s ≡ field_read xlen (machine_ops isa csr) f t
unfolding field_read
field_read-same isa xlen csr f s t same = ap (λ v. bit_and v f.bit_mask / 2 ^ f.bit_offset) same

module _ (isa : Isa) (xlen : ℕ) (csr : CsrName) (std : IsStandard isa xlen csr) (f : FieldData)
    (is : IsField xlen f) where
  open isa use {State, csrr, csrw}

  inverse : Inverse xlen f.bit_mask (inverted xlen (machine_ops isa csr) f)
  inverse = let lt = is.inside in omega (arith, lt)

  -- A value of the field's width, shifted to the field, is what the mask lets through.
  in_field :
      (value : ℕ)
      → value < 2 ^ f.bit_width
      → bit_and (value * 2 ^ f.bit_offset % 2 ^ xlen) f.bit_mask ≡ value * 2 ^ f.bit_offset
  in_field value lt =
      let top : value * 2 ^ f.bit_offset ≤ (2 ^ f.bit_width - 1) * 2 ^ f.bit_offset =
        mul-le-mul_right (2 ^ f.bit_offset) (omega arith) in
      let inside = is.inside in
      let same : value * 2 ^ f.bit_offset % 2 ^ xlen ≡ value * 2 ^ f.bit_offset =
        mod-eq_of_lt (omega (arith, is.mask)) in
      let low : value % 2 ^ f.bit_width ≡ value = mod-eq_of_lt lt in
      rw
        (
          same,
          is.mask,
          bit_and-shifted f.bit_offset value (2 ^ f.bit_width - 1),
          bit_and-low_mask f.bit_width value,
          low,
        )
        refl

  some_power : 1 ≤ 2 ^ f.bit_offset
  some_power = one-le-pow f.bit_offset 2 (omega arith)

  unshift : (v q : ℕ) → 1 ≤ q → v * q / q ≡ v
  unshift v q pos = mul-div_cancel v pos

  -- In a standard register that keeps the bits of a well-formed field, after a value that fits the
  -- field is written to it, reading the field returns that value, and `read_write` returns what the
  -- field was read as before and leaves what the write leaves.
  pub field_write-field_read :
      (value : ℕ) (s : State)
      → value < 2 ^ f.bit_width
      → Keeps isa csr f.bit_mask
      → (field_read xlen (machine_ops isa csr) f (field_write xlen (machine_ops isa csr) f value s)
          ≡ value)
        × (field_read_write xlen (machine_ops isa csr) f value s ≡ (
          field_read xlen (machine_ops isa csr) f s,
          field_write xlen (machine_ops isa csr) f value s,
        ))
  unfolding field_read field_write field_read_write
  field_write-field_read value s lt keeps =
      let ops = machine_ops isa csr in
      let merged =
        merge_masked xlen (csrr csr s) (inverted xlen ops f) (value * 2 ^ f.bit_offset % 2 ^ xlen)
          f.bit_mask inverse in
      (
        rw (keeps (replaced xlen ops f (csrr csr s) value) s, merged, in_field value lt)
            (unshift value (2 ^ f.bit_offset) some_power),
        refl,
      )

  mask_some : 0 < f.bit_mask
  mask_some =
      let some_bit = is.some_bit in
      let two : 2 ≤ 2 ^ f.bit_width = two-le-pow f.bit_width some_bit in
      let least : 1 * 2 ^ f.bit_offset ≤ (2 ^ f.bit_width - 1) * 2 ^ f.bit_offset =
        mul-le-mul_right (2 ^ f.bit_offset) (omega arith) in
      omega (arith, is.mask, some_power)

  pub field_set-csrw :
      (s : State)
      → field_set xlen (machine_ops isa csr) f s ≡ csrw csr (bit_or (csrr csr s) f.bit_mask) s
  unfolding field_set set_const
  field_set-csrw s = (set_const-csrw isa xlen csr std f.bit_mask s mask_some).0

  pub field_clr-csrw :
      (s : State)
      → field_clr xlen (machine_ops isa csr) f s
        ≡ csrw csr (bit_and (csrr csr s) (inverted xlen (machine_ops isa csr) f)) s
  unfolding field_clr clr_const
  field_clr-csrw s = (set_const-csrw isa xlen csr std f.bit_mask s mask_some).1

  -- In a standard register with a well-formed field, a write to the field, setting it and clearing
  -- it change the reading of no field that the register keeps and that has no bit in common with
  -- it.
  pub field_write-apart :
      (g : FieldData) (value : ℕ) (s : State)
      → bit_and f.bit_mask g.bit_mask ≡ 0
      → Keeps isa csr g.bit_mask
      → (field_read xlen (machine_ops isa csr) g (field_write xlen (machine_ops isa csr) f value s)
          ≡ field_read xlen (machine_ops isa csr) g s)
        × (field_read xlen (machine_ops isa csr) g (field_set xlen (machine_ops isa csr) f s)
            ≡ field_read xlen (machine_ops isa csr) g s)
        × (field_read xlen (machine_ops isa csr) g (field_clr xlen (machine_ops isa csr) f s)
            ≡ field_read xlen (machine_ops isa csr) g s)
  unfolding field_read field_write
  field_write-apart g value s apart keeps =
      let ops = machine_ops isa csr in
      let n = inverted xlen ops f in
      let merged =
        merge_apart xlen (csrr csr s) n (value * 2 ^ f.bit_offset % 2 ^ xlen) f.bit_mask g.bit_mask
          inverse (std.width s) apart in
      let other = set_apart xlen (csrr csr s) n f.bit_mask g.bit_mask inverse (std.width s) apart in
      let at = λ (t : ℕ). t / 2 ^ g.bit_offset in
      (
        ap at (keeps (replaced xlen ops f (csrr csr s) value) s ∙ merged),
        rw (field_set-csrw s) (ap at (keeps (bit_or (csrr csr s) f.bit_mask) s ∙ other.0)),
        rw (field_clr-csrw s) (ap at (keeps (bit_and (csrr csr s) n) s ∙ other.1)),
      )

  -- In a standard register that keeps the bits of a well-formed field, after the field is set all
  -- of its bits are read as 1, and after it is cleared as 0.
  pub field_set-field_read :
      (s : State)
      → Keeps isa csr f.bit_mask
      → (field_read xlen (machine_ops isa csr) f (field_set xlen (machine_ops isa csr) f s)
          ≡ 2 ^ f.bit_width - 1)
        × (field_read xlen (machine_ops isa csr) f (field_clr xlen (machine_ops isa csr) f s) ≡ 0)
  unfolding field_read
  field_set-field_read s keeps =
      let n = inverted xlen (machine_ops isa csr) f in
      let set = set_masked xlen (csrr csr s) n f.bit_mask inverse in
      let cleared = clr_masked xlen (csrr csr s) n f.bit_mask inverse in
      (
        rw (field_set-csrw s, keeps (bit_or (csrr csr s) f.bit_mask) s, set.0, is.mask)
            (unshift (2 ^ f.bit_width - 1) (2 ^ f.bit_offset) some_power),
        rw (field_clr-csrw s, keeps (bit_and (csrr csr s) n) s, cleared.0)
            (zero-div (2 ^ f.bit_offset)),
      )

-- A bit above the bits of `x`.
above : (k x : ℕ) → x < 2 ^ k → bit_and x (2 ^ k) ≡ 0
above zero x h = let e : x ≡ 0 = omega arith in rw e refl
above (suc k) x h = omega (
  arith,
  pow-suc 2 k,
  bit_and-half x (2 ^ suc k),
  ap (bit_and (x / 2)) (half_of (2 ^ k) (2 ^ suc k) (omega (arith, pow-suc 2 k))),
  above k (x / 2) (omega (arith, pow-suc 2 k)),
)

-- On a hart with registers of 32 bits: a write of any value below 2 ^ 29 to the field `base` of
-- `mtvec` writes the old value of the register back without its highest bit, so that nothing of the
-- address is written; and where `mtvec` keeps its highest bit the field is then read as 0.
pub mtvec_base-lost :
    (isa : Isa) (value : ℕ) (s : isa.State)
    → value < 2 ^ 29
    → Keeps isa CsrName.mtvec (2 ^ 31)
    → (field_write 32 (mtvec_ops isa) (mtvec_base 32) value s
        ≡ isa.csrw CsrName.mtvec (bit_and (isa.csrr CsrName.mtvec s) (2 ^ 31 - 1)) s)
      × (field_read 32
            (mtvec_ops isa)
            (mtvec_base 32)
            (field_write 32 (mtvec_ops isa) (mtvec_base 32) value s)
          ≡ 0)
unfolding field_read field_write
mtvec_base-lost isa value s lt keeps =
    let ops = mtvec_ops isa in
    let n = inverted 32 ops (mtvec_base 32) in
    let shifted = value * 2 ^ 2 % 2 ^ 32 in
    let org = isa.csrr CsrName.mtvec s in
    let masked_out = above 31 shifted (omega arith) in
    (
      ap (λ (t : ℕ). isa.csrw CsrName.mtvec (bit_or (bit_and org (2 ^ 31 - 1)) t) s) masked_out
          ∙ ap (λ (t : ℕ). isa.csrw CsrName.mtvec t s) (bit_or-zero (bit_and org (2 ^ 31 - 1))),
      ap (λ (t : ℕ). t / 2 ^ 2)
          (keeps (replaced 32 ops (mtvec_base 32) org value) s
            ∙ merge_masked 32 org n shifted (2 ^ 31) refl
            ∙ masked_out),
    )
