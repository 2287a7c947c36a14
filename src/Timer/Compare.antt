-- ===== src/Timer/Compare.antt =====
-- Setting the comparison register of the timer through two 32-bit registers.
use baremetal_cxx_coro.Common.{
  ℕ, suc, ◌+◌, ◌-◌, ◌*◌, ◌/◌, ◌%◌, ◌^◌, ◌≤◌, ◌<◌, ◌≡◌, refl, ◌∙◌, subst, ◌⊎◌, inl, inr, Bool, true,
  false, some, List, [], ◌∷◌, ◌++◌, arith, bit_and, All,
}
use baremetal_cxx_coro.Common.Bits.{bit_and-low_mask}
use baremetal_cxx_coro.Common.Int.{ℤ, pos}
use baremetal_cxx_coro.Timer.{
  TimeCmp, mtimecmp, write_time_cmp, Set, set_raw_time_cmp, set_time_cmp,
}
use baremetal_cxx_coro.Timer.Reading.{get_raw_time-total}

-- A value of the comparison register that makes the interrupt pending when `new` does, or else only
-- during the last 2 ^ 32 ticks of the 64-bit time.
abbrev pub IsHarmless : (new v : ℕ) → Type 0
IsHarmless new v = (v ≡ new) ⊎ (2 ^ 64 - 2 ^ 32 ≤ v)

-- Whatever the register holds, and with registers of either width, the writes leave a new value
-- below 2 ^ 64 in it, and every value that it holds on the way is the new one or lies in the last 2
-- ^ 32 ticks of the 64-bit time.
pub write_time_cmp-IsHarmless :
    (wide : Bool) (new : ℕ) (c : TimeCmp)
    → new < 2 ^ 64
    → (mtimecmp (write_time_cmp wide new c) ≡ new)
      × ((vs : List ℕ) × ((write_time_cmp wide new c).held ≡ vs ++ c.held)
          × All (IsHarmless new) vs)
unfolding write_time_cmp
write_time_cmp-IsHarmless true new c lt = (omega arith, (new ∷ [], refl, (inl refl, tt)))
write_time_cmp-IsHarmless false new c lt =
    let low : bit_and new 0x0FFFFFFFF ≡ new % 2 ^ 32 = bit_and-low_mask 32 new in
    let v₁ = 0xFFFFFFFF * 2 ^ 32 + c.mtimecmpl in
    let v₂ = 0xFFFFFFFF * 2 ^ 32 + bit_and new 0x0FFFFFFFF % 2 ^ 32 in
    let v₃ = new / 2 ^ 32 % 2 ^ 32 * 2 ^ 32 + bit_and new 0x0FFFFFFFF % 2 ^ 32 in
    (
      omega (arith, low),
      (
        v₃ ∷ v₂ ∷ v₁ ∷ [],
        refl,
        (inl (omega (arith, low)), (inr (omega arith), (inr (omega arith), tt))),
      ),
    )

set_raw_time_cmp-exact :
    (clock : ℕ → ℕ)
    → ((j k : ℕ) → j ≤ k → clock j ≤ clock k)
    → (wide : Bool) (fuel k clock_offset : ℕ) (c : TimeCmp) → clock (k + 5) < clock k + 2 ^ 32
    → clock (k + 5) + clock_offset < 2 ^ 64
    → (j : ℕ) × ((s : Set) × ((vs : List ℕ) × (k ≤ j)
          × (j ≤ k + 5)
          × (set_raw_time_cmp clock wide (suc (suc fuel)) k clock_offset c ≡ some s)
          × (mtimecmp s.time_cmp ≡ clock j + clock_offset)
          × (s.time_cmp.held ≡ vs ++ c.held)
          × All (IsHarmless (clock j + clock_offset)) vs))
unfolding set_raw_time_cmp
set_raw_time_cmp-exact clock steady wide fuel k clock_offset c slow fits =
    let (j, (k', from, near, run)) = get_raw_time-total clock steady wide fuel k slow in
    let le = steady j (k + 5) near in
    let new = (clock j + clock_offset) % 2 ^ 64 in
    let small : new ≡ clock j + clock_offset = omega arith in
    let (at, (vs, held, harmless)) = write_time_cmp-IsHarmless wide new c (omega arith) in
    (
      j,
      (
        record { time_cmp = write_time_cmp wide new c; next_access = k' },
        (
          vs,
          from,
          near,
          rw run refl,
          at ∙ small,
          held,
          subst (λ t. All (IsHarmless t) vs) small harmless,
        ),
      ),
    )

-- With a clock that never goes back, and whose time neither advances by 2 ^ 32 ticks during six
-- accesses nor comes within `ticks` of 2 ^ 64, setting the comparison register to a duration of
-- `ticks` ticks ends, with fuel for two rounds, and leaves the time at one of these accesses and
-- `ticks` in the register; each value that it held on the way is that sum, or lies in the last 2 ^
-- 32 ticks of the 64-bit time.
pub set_time_cmp-exact :
    (clock : ℕ → ℕ)
    → ((j k : ℕ) → j ≤ k → clock j ≤ clock k)
    → (duration_cast : ℤ → ℤ) (wide : Bool) (fuel k : ℕ) (time_offset : ℤ) (ticks : ℕ) (c : TimeCmp)
    → duration_cast time_offset ≡ pos ticks
    → clock (k + 5) < clock k + 2 ^ 32
    → clock (k + 5) + ticks < 2 ^ 64
    → (j : ℕ) × ((s : Set) × ((vs : List ℕ) × (k ≤ j)
          × (j ≤ k + 5)
          × (set_time_cmp clock duration_cast wide (suc (suc fuel)) k time_offset c ≡ some s)
          × (mtimecmp s.time_cmp ≡ clock j + ticks)
          × (s.time_cmp.held ≡ vs ++ c.held)
          × All (IsHarmless (clock j + ticks)) vs))
set_time_cmp-exact clock steady duration_cast wide fuel k time_offset ticks c e slow fits =
    rw e (set_raw_time_cmp-exact clock steady wide fuel k ticks c slow fits)
