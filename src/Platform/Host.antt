-- ===== src/Platform/Host.antt =====
-- The emulation of the hardware on a host: include/host/riscv-csr.hpp, include/host/riscv-cpu.hpp,
-- include/host/riscv-irq.hpp and include/host/timer.hpp.
use baremetal_cxx_coro.Common.{ℕ, ◌-◌, ◌%◌, ◌^◌, ◌≡◌, refl, Bool, true, false}
use baremetal_cxx_coro.Common.Bits.{bit_and-zero_left}
use baremetal_cxx_coro.Platform.{Core, IsCore, Traps, IsTraps, Machine, handle_trap}

-- `bit_emul`
pub record BitEmul : Type 0 where
  pub value : Bool

abbrev pub set : BitEmul → BitEmul
set b = record { value = true }

abbrev pub clr : BitEmul → BitEmul
clr b = record { value = false }

pub record MtvecEmul : Type 0 where
  pub vector : ℕ

abbrev pub write : ℕ → MtvecEmul → MtvecEmul
write vector r = record { vector = vector }

pub record MieEmul : Type 0 where
  pub mti : BitEmul

pub record MstatusEmul : Type 0 where
  pub mie : BitEmul

-- `csr_s`, whose member `mcause` has no state.
pub record CsrS : Type 0 where
  pub mtvec : MtvecEmul
  pub mie : MieEmul
  pub mstatus : MstatusEmul

-- `mcause_emul::read`
abbrev pub mcause_read : CsrS → ℕ
mcause_read s = 0

-- `csrs`, a static object, before the first write to it.
abbrev pub csrs : CsrS
csrs = record {
  mtvec = record { vector = 0 };
  mie = record { mti = record { value = false } };
  mstatus = record { mie = record { value = false } };
}

-- `mcause_data::interrupt::BIT_MASK`: an `unsigned long`, of 64 bits, kept as a `uint32_t`.
abbrev pub bit_mask : (xlen : ℕ) → ℕ
bit_mask xlen = 2 ^ (xlen - 1) % 2 ^ 64 % 2 ^ 32

-- `cpu::wfi`
abbrev pub wfi : CsrS → CsrS
wfi s = s

abbrev pub host : (xlen : ℕ) → Core CsrS
host xlen = record {
  interrupt_mask = bit_mask xlen;
  mcause_read = mcause_read;
  mti_set = λ s. record s { mie = record { mti = set s.mie.mti } };
  mti_clr = λ s. record s { mie = record { mti = clr s.mie.mti } };
  mie_set = λ s. record s { mstatus = record { mie = set s.mstatus.mie } };
  mie_clr = λ s. record s { mstatus = record { mie = clr s.mstatus.mie } };
  wfi = wfi;
}

-- `handler`: its constructor keeps the function, which nothing calls.
pub record Handler (W : Type 0) : Type 0 where
  pub irq_callback : W → W

abbrev pub make_handler : {W : Type 0} → (W → W) → Handler W
make_handler isr_handler = record { irq_callback = isr_handler }

-- No interrupt comes on a host.
abbrev pub host_traps : Traps CsrS
host_traps = record { taken = λ k s. false; trap = λ k s. s; mret = λ s. s }

pub host-IsTraps :
    (xlen : ℕ)
    → IsTraps (host xlen) (λ s. s.mie.mti.value) (λ s. s.mstatus.mie.value) (λ cause. ⊥) host_traps
host-IsTraps xlen = record {
  masked = λ k s clear. refl;
  cause = λ k s none. absurd none;
  mti-trap = λ k s. refl;
  mti-mret = λ s. refl;
  mie-mret = λ k s. refl;
  mie-mret_clr = λ k s. refl;
}

-- The emulated registers keep the two bits, and the handler does nothing on a host, which never has
-- a cause.
pub host-IsCore :
    (xlen now : ℕ) (m : Machine CsrS)
    → IsCore xlen (host xlen) (λ s. s.mie.mti.value) (λ s. s.mstatus.mie.value)
      × (handle_trap (host xlen) now m ≡ m)
unfolding handle_trap
host-IsCore xlen now m = (
  record {
    mask = λ s. rw (bit_and-zero_left (bit_mask xlen), bit_and-zero_left (2 ^ (xlen - 1))) refl;
    mti-mti_set = λ s. refl;
    mti-mti_clr = λ s. refl;
    mti-mie_set = λ s. refl;
    mti-mie_clr = λ s. refl;
    mti-wfi = λ s. refl;
    mie-mti_set = λ s. refl;
    mie-mti_clr = λ s. refl;
    mie-mie_set = λ s. refl;
    mie-mie_clr = λ s. refl;
    mie-wfi = λ s. refl;
  },
  rw (bit_and-zero_left (bit_mask xlen)) refl,
)
