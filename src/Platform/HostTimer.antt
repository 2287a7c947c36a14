-- ===== src/Platform/HostTimer.antt =====
-- The timer of include/host/timer.hpp, on the host's clock.
use baremetal_cxx_coro.Common.{arith}
use baremetal_cxx_coro.Common.Int.{ℤ, ◌-ℤ◌, ◌≤ℤ◌, -ℤ_parts}

-- `mtimecmp_` and `start_`
pub record HostTimer : Type 0 where
  pub mtimecmp : ℤ
  pub start : ℤ

-- `high_resolution_clock::now()` enters by what it returns, and `duration_cast` to the ticks of
-- the timer and from them.
module _ (to_ticks from_ticks : ℤ → ℤ) where
  -- The constructor, on what the memory of `mtimecmp_` happens to hold.
  pub make_timer : (raw now : ℤ) → HostTimer
  make_timer raw now = record { mtimecmp = raw; start = now }

  abbrev pub set_ticks_time_cmp : (time_offset : ℤ) → HostTimer → HostTimer
  set_ticks_time_cmp time_offset t = record t { mtimecmp = time_offset }

  abbrev pub set_time_cmp : (time_offset : ℤ) → HostTimer → HostTimer
  set_time_cmp time_offset t = set_ticks_time_cmp (to_ticks time_offset) t

  pub get_ticks_time : (now : ℤ) → HostTimer → ℤ
  get_ticks_time now t = to_ticks (now -ℤ t.start)

  pub get_time : (now : ℤ) → HostTimer → ℤ
  get_time now t = from_ticks (get_ticks_time now t)

  -- With conversions that keep the order, and a clock that does not go back, neither does the time
  -- of a timer, whatever is set in between.
  pub get_time-monotone :
      (raw s a b offset : ℤ)
      → ((x y : ℤ) → x ≤ℤ y → to_ticks x ≤ℤ to_ticks y)
      → ((x y : ℤ) → x ≤ℤ y → from_ticks x ≤ℤ from_ticks y)
      → a ≤ℤ b
      → get_time a (make_timer raw s) ≤ℤ get_time b (set_time_cmp offset (make_timer raw s))
  unfolding get_time get_ticks_time make_timer
  get_time-monotone raw s a b offset mono mono' le =
      mono' _ _ (mono _ _ (omega (arith, -ℤ_parts a s, -ℤ_parts b s)))
