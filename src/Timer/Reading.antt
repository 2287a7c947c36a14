-- ===== src/Timer/Reading.antt =====
-- Reading a 64-bit time through two 32-bit registers.
use baremetal_cxx_coro.Common.{
  ℕ, zero, suc, ◌+◌, ◌-◌, ◌*◌, ◌^◌, ◌≤◌, ◌<◌, ◌≡◌, refl, sym, ap, ◌∙◌, ◌≢◌, Bool, true, false, some,
  arith, ◌==◌, ==_iff, Bool-cases, inl, inr, bit_or,
}
use baremetal_cxx_coro.Common.Bits.{bit_or-shifted}
use baremetal_cxx_coro.Common.Int.{pos, negsuc}
use baremetal_cxx_coro.Timer.{
  Read, get_raw_time_32, get_raw_time, get_raw_time_64, get_ticks_time, mtimeh, mtimel, to_int,
}

module _ (clock : ℕ → ℕ) (steady : (j k : ℕ) → j ≤ k → clock j ≤ clock k) where
  -- One consistent round reads the time at its middle access.
  round-exact :
      (k : ℕ)
      → mtimeh clock k ≡ mtimeh clock (k + 2)
      → bit_or (mtimeh clock k * 2 ^ 32) (mtimel clock (k + 1)) ≡ clock (k + 1)
  round-exact k same = omega (
    arith,
    bit_or-shifted 32 (mtimeh clock k) (mtimel clock (k + 1)) (omega arith),
    steady k (k + 1) (omega arith),
    steady (k + 1) (k + 2) (omega arith),
  )

  round_hit :
      (fuel k : ℕ)
      → (mtimeh clock k == mtimeh clock (k + 2)) ≡ true
      → get_raw_time_32 clock (suc fuel) k
        ≡ some (record { value = clock (k + 1); next_access = k + 3 })
  unfolding get_raw_time_32
  round_hit fuel k same = rw (same, round-exact k ((==_iff _ _).0 same)) refl

  round_miss :
      (fuel k : ℕ)
      → (mtimeh clock k == mtimeh clock (k + 2)) ≡ false
      → get_raw_time_32 clock (suc fuel) k ≡ get_raw_time_32 clock fuel (k + 3)
  unfolding get_raw_time_32
  round_miss fuel k other = rw other refl

  -- With a clock that never goes back, whatever value the loop over the 32-bit registers returns is
  -- the time at one of its accesses.
  pub get_raw_time_32-exact :
      (fuel k : ℕ) (r : Read)
      → get_raw_time_32 clock fuel k ≡ some r
      → (j : ℕ) × (k < j) × (j < r.next_access) × (r.value ≡ clock j)
  get_raw_time_32-exact zero k r e = absurd (unfold get_raw_time_32 in cc)
  get_raw_time_32-exact (suc fuel) k r e =
      elim (Bool-cases (mtimeh clock k == mtimeh clock (k + 2))) [
        | inl same ↦
            let hit : some r ≡ some (record { value = clock (k + 1); next_access = k + 3 }) =
              sym e ∙ round_hit fuel k same in
            (k + 1, omega arith, ground arith, ground arith)
        | inr other ↦
            let (j, later, inside, at) =
              get_raw_time_32-exact fuel (k + 3) r (sym (round_miss fuel k other) ∙ e) in
            (j, omega arith, inside, at)
      ]

  second-consistent :
      (k : ℕ)
      → clock (k + 5) < clock k + 2 ^ 32
      → (mtimeh clock k == mtimeh clock (k + 2)) ≡ false
      → (mtimeh clock (k + 3) == mtimeh clock (k + 3 + 2)) ≡ true
  second-consistent k slow other =
      let five : clock (k + 3 + 2) ≡ clock (k + 5) = ap clock (omega arith) in
      let differ : mtimeh clock k ≢ mtimeh clock (k + 2) = λ e. ground (arith, e) in
      (==_iff _ _).1 (
        omega (
          arith,
          five,
          differ,
          slow,
          steady k (k + 2) (omega arith),
          steady (k + 2) (k + 3) (omega arith),
          steady (k + 3) (k + 5) (omega arith),
        ))

  -- Two rounds are enough if the time advances by less than 2 ^ 32 ticks during six accesses; the
  -- value is then the time at one of these accesses.
  pub get_raw_time_32-total :
      (fuel k : ℕ)
      → clock (k + 5) < clock k + 2 ^ 32
      → (j : ℕ) × ((k' : ℕ) × (k < j)
          × (j < k')
          × (k' ≤ k + 6)
          × (get_raw_time_32 clock (suc (suc fuel)) k
              ≡ some (record { value = clock j; next_access = k' })))
  get_raw_time_32-total fuel k slow = elim (Bool-cases (mtimeh clock k == mtimeh clock (k + 2))) [
    | inl same ↦
        (k + 1, (k + 3, omega arith, omega arith, omega arith, round_hit (suc fuel) k same))
    | inr other ↦ (
      k + 3 + 1,
      (
        k + 3 + 3,
        omega arith,
        omega arith,
        omega arith,
        round_miss (suc fuel) k other ∙ round_hit fuel (k + 3) (second-consistent k slow other),
      ),
    )
  ]

  -- With a clock that never goes back, and that advances by less than 2 ^ 32 ticks during six
  -- accesses, `get_raw_time` with registers of either width returns, with fuel for two rounds, the
  -- time at one of the first six accesses.
  pub get_raw_time-total :
      (wide : Bool) (fuel k : ℕ)
      → clock (k + 5) < clock k + 2 ^ 32
      → (j : ℕ) × ((k' : ℕ) × (k ≤ j)
          × (j ≤ k + 5)
          × (get_raw_time clock wide (suc (suc fuel)) k
              ≡ some (record { value = clock j; next_access = k' })))
  unfolding get_raw_time get_raw_time_64
  get_raw_time-total true fuel k slow = (k, (k + 1, omega arith, omega arith, refl))
  get_raw_time-total false fuel k slow =
      let (j, (k', later, inside, near, run)) = get_raw_time_32-total fuel k slow in
      (j, (k', omega arith, omega arith, run))

  pub to_int-low : (x : ℕ) → x < 2 ^ 31 → to_int x ≡ pos x
  to_int-low x h = ground arith

  to_int-high : (x : ℕ) → 2 ^ 31 ≤ x → x < 2 ^ 32 → to_int x ≡ negsuc (2 ^ 32 - x - 1)
  to_int-high x h k = ground arith

  -- With a clock that never goes back, and that stays below 2 ^ 31 during six accesses,
  -- `get_ticks_time` returns, with fuel for two rounds, the time at one of these accesses.
  pub get_ticks_time-exact :
      (wide : Bool) (fuel k : ℕ)
      → clock (k + 5) < 2 ^ 31
      → (j : ℕ) × ((k' : ℕ) × (k ≤ j)
          × (j ≤ k + 5)
          × (get_ticks_time clock wide (suc (suc fuel)) k ≡ some (pos (clock j), k')))
  unfolding get_ticks_time
  get_ticks_time-exact wide fuel k early =
      let (j, (k', from, near, run)) = get_raw_time-total wide fuel k (omega arith) in
      let low = steady j (k + 5) near in
      (j, (k', from, near, rw (run, to_int-low (clock j) (omega arith)) refl))

  -- With a clock that never goes back, and that stays from 2 ^ 31 to below 2 ^ 32 during six
  -- accesses, `get_ticks_time` returns a negative time, with fuel for two rounds.
  pub get_ticks_time-negative :
      (wide : Bool) (fuel k : ℕ)
      → 2 ^ 31 ≤ clock k
      → clock (k + 5) < 2 ^ 32
      → (m : ℕ) × ((k' : ℕ) × (get_ticks_time clock wide (suc (suc fuel)) k ≡ some (negsuc m, k')))
  unfolding get_ticks_time
  get_ticks_time-negative wide fuel k late early =
      let (j, (k', from, near, run)) = get_raw_time-total wide fuel k (omega arith) in
      let low = steady k j from in
      let high = steady j (k + 5) near in
      (2 ^ 32 - clock j - 1, (k', rw (run, to_int-high (clock j) (omega arith) (omega arith)) refl))
