-- ===== src/Timer.antt =====
-- `driver::timer` of include/riscv/timer.hpp: the machine timer, read and set over the bus.
-- `clock k` is what `mtime` holds at the k-th access; the accesses of a call are numbered on.
pub mod Reading
pub mod Compare
pub mod Clock
use baremetal_cxx_coro.Common.{
  ℕ, zero, suc, ◌+◌, ◌-◌, ◌*◌, ◌/◌, ◌%◌, ◌^◌, ◌≤◌, ◌<◌, ◌≡◌, refl, Bool, true, false, Option, none,
  some, List, [], ◌∷◌, arith, ltb, ◌==◌, if◌then◌else◌, Bool-cases, inl, inr, bit_and, bit_or,
}
use baremetal_cxx_coro.Common.Int.{ℤ, pos, negsuc}

-- `int` from `std::uint64_t`, and back.
abbrev pub to_int : ℕ → ℤ
to_int x = let low = x % 2 ^ 32 in if ltb low (2 ^ 31) then pos low else negsuc (2 ^ 32 - low - 1)

abbrev pub from_int : ℤ → ℕ
from_int (pos n) = n
from_int (negsuc n) = 2 ^ 64 - n - 1

abbrev cast_by : (ℤ → ℤ) → Option (ℤ × ℕ) → Option (ℤ × ℕ)
cast_by duration_cast none = none
cast_by duration_cast (some (ticks, k)) = some (duration_cast ticks, k)

-- The access number after a call, with what the call returns.
pub record Read : Type 0 where
  pub value : ℕ
  pub next_access : ℕ

abbrev ticks_of : Option Read → Option (ℤ × ℕ)
ticks_of none = none
ticks_of (some r) = some (to_int r.value, r.next_access)

module _ (clock : ℕ → ℕ) where
  -- `*mtimeh` and `*mtimel` at an access
  abbrev pub mtimeh : ℕ → ℕ
  mtimeh k = clock k / 2 ^ 32

  abbrev pub mtimel : ℕ → ℕ
  mtimel k = clock k % 2 ^ 32

  -- `get_raw_time` with 32-bit registers: the loop, on fuel.
  unfoldable pub get_raw_time_32 : ℕ → ℕ → Option Read
  get_raw_time_32 zero k = none
  get_raw_time_32 (suc fuel) k =
      let again = get_raw_time_32 fuel (k + 3) in
      if mtimeh k == mtimeh (k + 2)
      then some
          (record { value = bit_or (mtimeh k * 2 ^ 32) (mtimel (k + 1)); next_access = k + 3 })
      else again

  -- `get_raw_time` with 64-bit registers.
  pub get_raw_time_64 : ℕ → Option Read
  get_raw_time_64 k = some (record { value = clock k; next_access = k + 1 })

  -- `get_raw_time`, by `__riscv_xlen == 64`.
  pub get_raw_time : Bool → ℕ → ℕ → Option Read
  get_raw_time true fuel k = get_raw_time_64 k
  get_raw_time false fuel k = get_raw_time_32 fuel k

-- The comparison register, and each value that it has held since.
pub record TimeCmp : Type 0 where
  pub mtimecmpl : ℕ
  pub mtimecmph : ℕ
  pub held : List ℕ

abbrev pub mtimecmp : TimeCmp → ℕ
mtimecmp c = c.mtimecmph * 2 ^ 32 + c.mtimecmpl

abbrev write_low : ℕ → TimeCmp → TimeCmp
write_low v c = record c { mtimecmpl = v; held = mtimecmp (record c { mtimecmpl = v }) ∷ c.held }

abbrev write_high : ℕ → TimeCmp → TimeCmp
write_high v c = record c { mtimecmph = v; held = mtimecmp (record c { mtimecmph = v }) ∷ c.held }

-- The writes of `set_raw_time_cmp`, by `__riscv_xlen == 64`, once the new value is known.
pub write_time_cmp : Bool → ℕ → TimeCmp → TimeCmp
write_time_cmp true new c = record {
  mtimecmpl = new % 2 ^ 32;
  mtimecmph = new / 2 ^ 32;
  held = new ∷ c.held;
}
write_time_cmp false new c =
    write_high (new / 2 ^ 32 % 2 ^ 32)
      (write_low (bit_and new 0x0FFFFFFFF % 2 ^ 32) (write_high 0xFFFFFFFF c))

pub record Set : Type 0 where
  pub time_cmp : TimeCmp
  pub next_access : ℕ

module _ (clock : ℕ → ℕ) where
  abbrev set_at : Bool → ℕ → TimeCmp → Option Read → Option Set
  set_at wide offset c none = none
  set_at wide offset c (some r) = some (record {
    time_cmp = write_time_cmp wide ((r.value + offset) % 2 ^ 64) c;
    next_access = r.next_access;
  })

  pub set_raw_time_cmp : Bool → (fuel k clock_offset : ℕ) → TimeCmp → Option Set
  set_raw_time_cmp wide fuel k clock_offset c =
      set_at wide clock_offset c (get_raw_time clock wide fuel k)

  -- `get_ticks_time`: the count of a `duration<int, …>`
  pub get_ticks_time : Bool → (fuel k : ℕ) → Option (ℤ × ℕ)
  get_ticks_time wide fuel k = ticks_of (get_raw_time clock wide fuel k)

  abbrev pub set_ticks_time_cmp : Bool → (fuel k : ℕ) → ℤ → TimeCmp → Option Set
  set_ticks_time_cmp wide fuel k time_offset c =
      set_raw_time_cmp wide fuel k (from_int time_offset) c

  -- `get_time` and `set_time_cmp`: `duration_cast` is the library's conversion between the tick
  -- of the timer and the duration of the caller.
  abbrev pub get_time : (ℤ → ℤ) → Bool → (fuel k : ℕ) → Option (ℤ × ℕ)
  get_time duration_cast wide fuel k = cast_by duration_cast (get_ticks_time wide fuel k)

  abbrev pub set_time_cmp : (ℤ → ℤ) → Bool → (fuel k : ℕ) → ℤ → TimeCmp → Option Set
  set_time_cmp duration_cast wide fuel k time_offset c =
      set_ticks_time_cmp wide fuel k (duration_cast time_offset) c
