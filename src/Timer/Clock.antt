-- ===== src/Timer/Clock.antt =====
-- `mtimer_clock` of include/riscv/scheduler-timer-mtimer.hpp: the clock of the delay scheduler on
-- the machine timer.
use baremetal_cxx_coro.Common.{
  ℕ, suc, ◌+◌, ◌^◌, ◌≤◌, ◌<◌, ◌≡◌, refl, Bool, true, false, Option, none, some, arith,
}
use baremetal_cxx_coro.Common.Int.{ℤ, pos, ◌+ℤ◌, ◌≤ℤ◌, +ℤ_parts, eq_of_parts}
use baremetal_cxx_coro.Timer.{get_time, get_raw_time, get_raw_time_64, get_ticks_time}
use baremetal_cxx_coro.Timer.Reading.{get_raw_time_32-total, to_int-low}

-- `now`, in the clock's ticks: `duration_cast` converts from those of the timer. The epoch is 0.
abbrev from_epoch : Option (ℤ × ℕ) → Option (ℤ × ℕ)
from_epoch none = none
from_epoch (some (duration_since_epoch, k)) = some (pos 0 +ℤ duration_since_epoch, k)

pub now : (clock : ℕ → ℕ) → (duration_cast : ℤ → ℤ) → Bool → (fuel k : ℕ) → Option (ℤ × ℕ)
now clock duration_cast wide fuel k = from_epoch (get_time clock duration_cast wide fuel k)

zero_add : (a : ℤ) → pos 0 +ℤ a ≡ a
zero_add a = eq_of_parts _ _ (omega (arith, +ℤ_parts (pos 0) a))

module _ (clock : ℕ → ℕ) (steady : (j k : ℕ) → j ≤ k → clock j ≤ clock k) where
  -- The access at which the time is read is one of the call's own.
  raw-within :
      (wide : Bool) (fuel k : ℕ)
      → clock (k + 5) < clock k + 2 ^ 32
      → (j : ℕ) × ((k' : ℕ) × (k ≤ j)
          × (j < k')
          × (k' ≤ k + 6)
          × (get_raw_time clock wide (suc (suc fuel)) k
              ≡ some (record { value = clock j; next_access = k' })))
  unfolding get_raw_time get_raw_time_64
  raw-within true fuel k slow = (k, (k + 1, omega arith, omega arith, omega arith, refl))
  raw-within false fuel k slow =
      let (j, (k', later, inside, near, run)) = get_raw_time_32-total clock steady fuel k slow in
      (j, (k', omega arith, inside, near, run))

  now-run :
      (duration_cast : ℤ → ℤ) (wide : Bool) (fuel k : ℕ)
      → clock (k + 5) < 2 ^ 31
      → (j : ℕ) × ((k' : ℕ) × (k ≤ j)
          × (j < k')
          × (k' ≤ k + 6)
          × (now clock duration_cast wide (suc (suc fuel)) k
              ≡ some (duration_cast (pos (clock j)), k')))
  unfolding now get_ticks_time
  now-run duration_cast wide fuel k early =
      let (j, (k', from, inside, near, run)) = raw-within wide fuel k (omega arith) in
      let low = steady j (k + 5) (omega arith) in
      (
        j,
        (
          k',
          from,
          inside,
          near,
          rw (run, to_int-low clock steady (clock j) (omega arith), zero_add) refl,
        ),
      )

  -- With a clock of the hardware that never goes back, and that stays below 2 ^ 31 during the
  -- accesses, and with a conversion that keeps the order, two calls of `now` in a row end, with
  -- fuel for two rounds each, and the second time is not before the first.
  pub now-monotone :
      (duration_cast : ℤ → ℤ)
      → ((m n : ℕ) → m ≤ n → duration_cast (pos m) ≤ℤ duration_cast (pos n))
      → (wide : Bool) (fuel k : ℕ) → clock (k + 11) < 2 ^ 31
      → (t : ℤ) × ((t' : ℤ) × ((k' : ℕ) × ((k'' : ℕ) × (now clock duration_cast wide
                  (suc (suc fuel))
                  k
                ≡ some (t, k'))
              × (now clock duration_cast wide (suc (suc fuel)) k' ≡ some (t', k''))
              × (t ≤ℤ t'))))
  now-monotone duration_cast grows wide fuel k early =
      let before = steady (k + 5) (k + 11) (omega arith) in
      let (j, (k', _, inside, near, run)) = now-run duration_cast wide fuel k (omega arith) in
      let after = steady (k' + 5) (k + 11) (omega arith) in
      let (j', (k'', from, _, _, run')) = now-run duration_cast wide fuel k' (omega arith) in
      (
        duration_cast (pos (clock j)),
        (
          duration_cast (pos (clock j')),
          (k', (k'', run, run', grows (clock j) (clock j') (steady j j' (omega arith)))),
        ),
      )
