-- ===== src/Tests/Timers.antt =====
-- The theorems about include/riscv/timer.hpp, with a clock that ticks once at each access.
use baremetal_cxx_coro.Common.{
  ℕ, ◌+◌, ◌-◌, ◌*◌, ◌/◌, ◌≤◌, ◌^◌, ◌≡◌, false, some, List, [], ◌++◌, refl, arith, All,
}
use baremetal_cxx_coro.Common.Int.{ℤ, pos, negsuc}
use baremetal_cxx_coro.Timer.{Set, TimeCmp, get_raw_time, mtimecmp, set_time_cmp}
use baremetal_cxx_coro.Timer.Reading.{get_raw_time-total}
use baremetal_cxx_coro.Timer.Compare.{IsHarmless, set_time_cmp-exact}

-- The high half steps between the second and the third access.
abbrev rollover : ℕ → ℕ
rollover k = 2 ^ 32 - 2 + k

rollover-steady : (j k : ℕ) → j ≤ k → rollover j ≤ rollover k
rollover-steady j k h = omega arith

abbrev idle : TimeCmp
idle = record { mtimecmpl = 0; mtimecmph = 0; held = [] }

get_raw_time-total_example :
    (j : ℕ) × ((k' : ℕ) × (0 ≤ j)
      × (j ≤ 5)
      × (get_raw_time rollover false 2 0 ≡ some (record { value = rollover j; next_access = k' })))
get_raw_time-total_example = get_raw_time-total rollover rollover-steady false 0 0 (omega arith)

-- A duration of a second, in ticks of 32768 Hz.
abbrev to_ticks : ℤ → ℤ
to_ticks (pos microseconds) = pos (microseconds * 32768 / 1000000)
to_ticks (negsuc n) = negsuc (n * 32768 / 1000000)

set_time_cmp-exact_example :
    (j : ℕ) × ((s : Set) × ((vs : List ℕ) × (0 ≤ j)
        × (j ≤ 5)
        × (set_time_cmp rollover to_ticks false 2 0 (pos 1000000) idle ≡ some s)
        × (mtimecmp s.time_cmp ≡ rollover j + 32768)
        × (s.time_cmp.held ≡ vs ++ [])
        × All (IsHarmless (rollover j + 32768)) vs))
set_time_cmp-exact_example =
    set_time_cmp-exact rollover rollover-steady to_ticks false 0 0 (pos 1000000) 32768 idle refl
      (omega arith) (omega arith)
