-- ===== src/Handler/Entry.antt =====
-- The entry of include/riscv/riscv-irq.hpp, some time after a handler has been made.
use baremetal_cxx_coro.Common.{ℕ, ◌≡◌, ◌≢◌, refl, ◌∙◌, some, List, [], ◌∷◌, All}
use baremetal_cxx_coro.Csr.{Isa, CsrName, machine_ops}
use baremetal_cxx_coro.Handler.{Machine, make_handler, handler_entry}

-- What the manual says of a register that holds an address: a write of a value that is legal is
-- read back, and a write to another register does not change it.
pub record HoldsAddress (isa : Isa) (IsLegal : ℕ → Type 0) (csr : CsrName) : Type 0 where
  pub read_back : (v : ℕ) (s : isa.State) → IsLegal v → isa.csrr csr (isa.csrw csr v s) ≡ v
  pub kept :
      (other : CsrName) (v : ℕ) (s : isa.State)
      → other ≢ csr
      → isa.csrr csr (isa.csrw other v s) ≡ isa.csrr csr s

-- Later writes to registers.
abbrev pub write_all : (isa : Isa) → List (CsrName × ℕ) → isa.State → isa.State
write_all isa [] s = s
write_all isa ((csr, v) ∷ ws) s = write_all isa ws ((machine_ops isa csr).write v s)

write_all-kept :
    (isa : Isa) (IsLegal : ℕ → Type 0) (csr : CsrName) (holds : HoldsAddress isa IsLegal csr)
    (ws : List (CsrName × ℕ)) (s : isa.State)
    → All (λ w. w.0 ≢ csr) ws
    → isa.csrr csr (write_all isa ws s) ≡ isa.csrr csr s
write_all-kept isa IsLegal csr holds [] s apart = refl
write_all-kept isa IsLegal csr holds ((other, v) ∷ ws) s apart =
    write_all-kept isa IsLegal csr holds ws (isa.csrw other v s) apart.1
    ∙ holds.kept other v s apart.0

-- The machine some time after the constructor ran, with another state of the program.
abbrev pub later_on :
    (isa : Isa) {W : Type 0} (operator : ℕ → W → W) (isr_handler entry : ℕ)
    → Machine isa W
    → List (CsrName × ℕ)
    → W
    → Machine isa W
later_on isa operator isr_handler entry m ws world =
    let made = make_handler isa operator isr_handler entry m in
    record made { hart = write_all isa ws made.hart; world = world }

module _ (isa : Isa) {W : Type 0} (IsAddress IsVector : ℕ → Type 0)
    (scratch : HoldsAddress isa IsAddress CsrName.mscratch)
    (vector : HoldsAddress isa IsVector CsrName.mtvec) where
  -- On a hart that keeps legal addresses in `mscratch` and `mtvec`, after a handler has been made
  -- for a function object, and after any writes to other registers and changes of the program's
  -- state, `mtvec` holds the address of the entry, and the entry calls the object's operator with
  -- the object's address.
  pub handler_entry-make_handler :
      (operator : ℕ → W → W) (isr_handler entry : ℕ) (m : Machine isa W) (ws : List (CsrName × ℕ))
      (world : W)
      → IsAddress isr_handler
      → IsVector entry
      → All (λ w. w.0 ≢ CsrName.mscratch) ws
      → All (λ w. w.0 ≢ CsrName.mtvec) ws
      → (isa.csrr CsrName.mtvec (later_on isa operator isr_handler entry m ws world).hart ≡ entry)
        × (handler_entry isa (later_on isa operator isr_handler entry m ws world)
            ≡ some (later_on isa operator isr_handler entry m ws (operator isr_handler world)))
  unfolding make_handler handler_entry
  handler_entry-make_handler operator isr_handler entry m ws world legal aligned off_scratch
        off_vector =
      let first = isa.csrw CsrName.mscratch isr_handler m.hart in
      let made = isa.csrw CsrName.mtvec entry first in
      let at_vector =
        write_all-kept isa IsVector CsrName.mtvec vector ws made off_vector
        ∙ vector.read_back entry first aligned in
      let at_scratch : isa.csrr CsrName.mscratch (write_all isa ws made) ≡ isr_handler =
        write_all-kept isa IsAddress CsrName.mscratch scratch ws made off_scratch
        ∙ scratch.kept CsrName.mtvec entry first (λ e. cc)
        ∙ scratch.read_back isr_handler m.hart legal in
      (at_vector, rw at_scratch refl)
