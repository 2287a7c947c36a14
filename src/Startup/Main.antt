-- ===== src/Startup/Main.antt =====
-- src/main.cpp, and the end of `_start` and `_Exit` of src/startup.cpp. The examples enter as what
-- they do to the memory.
use baremetal_cxx_coro.Common.{
  ℕ, zero, suc, ◌≡◌, ◌≢◌, ◌⊎◌, refl, Bool, true, false, List, if◌then◌else◌, inl, inr,
}
use baremetal_cxx_coro.Startup.{Words, Layout, start_to_main, call_constructors}
use baremetal_cxx_coro.Startup.Memory.{IsLaidOut, image, start_to_main-image}

-- A call returns, stops the program with a fault, or still runs when the fuel is used up.
pub data Outcome : Type 0 where
  returned : Words → Outcome
  fault : Outcome
  running : Outcome

-- `TEST_SIMPLE`, `TEST_IRQ` and `TEST_TIMERS`, as they are read.
pub record Flags : Type 0 where
  pub test_simple : Bool
  pub test_irq : Bool
  pub test_timers : Bool

abbrev pub initial_flags : Flags
initial_flags = record { test_simple = true; test_irq = false; test_timers = false }

abbrev pub and_then : Outcome → (Words → Outcome) → Outcome
and_then (returned mem) k = k mem
and_then fault k = fault
and_then running k = running

module _ (example_simple example_irq example_timer : Words → Outcome) where
  abbrev pub call_if : Bool → (Words → Outcome) → Words → Outcome
  call_if test f mem = if test then f mem else returned mem

  unfoldable pub main : Flags → Words → Outcome
  main flags mem = and_then (call_if flags.test_simple example_simple mem) λ mem₁.
      and_then (call_if flags.test_irq example_irq mem₁)
        λ mem₂. call_if flags.test_timers example_timer mem₂

  -- `_Exit`: a loop around `wfi`, on fuel.
  unfoldable pub exit_idle : ℕ → Words → Outcome
  exit_idle zero mem = running
  exit_idle (suc fuel) mem = exit_idle fuel mem

  unfoldable pub start : ℕ → Flags → Layout → List (Words → Words) → Words → Outcome
  start fuel flags layout init_array mem =
      and_then (main flags (start_to_main layout init_array mem)) (exit_idle fuel)

  exit_idle-running : (fuel : ℕ) (mem : Words) → exit_idle fuel mem ≡ running
  unfolding exit_idle
  exit_idle-running zero mem = refl
  exit_idle-running (suc fuel) mem = exit_idle-running fuel mem

  then_idle :
      (fuel : ℕ) (o : Outcome)
      → ((o ≡ fault) × (and_then (and_then o returned) (exit_idle fuel) ≡ fault))
        ⊎ ((o ≢ fault) × (and_then (and_then o returned) (exit_idle fuel) ≡ running))
  then_idle fuel (returned mem) = inr (λ e. cc, exit_idle-running fuel mem)
  then_idle fuel fault = inl (refl, refl)
  then_idle fuel running = inr (λ e. cc, refl)

  -- With the flags as they are at first, whatever the fuel, `_start` never returns: where the
  -- example that they select faults on the program's image, it faults, and else it still runs.
  pub start-initial :
      (fuel : ℕ) (layout : Layout) (init_array : List (Words → Words)) (mem : Words)
      → IsLaidOut layout
      → ((example_simple (call_constructors init_array (image layout mem)) ≡ fault)
          × (start fuel initial_flags layout init_array mem ≡ fault))
        ⊎ ((example_simple (call_constructors init_array (image layout mem)) ≢ fault)
            × (start fuel initial_flags layout init_array mem ≡ running))
  unfolding start main
  start-initial fuel layout init_array mem laid =
      rw (start_to_main-image layout mem laid init_array)
        (then_idle fuel (example_simple (call_constructors init_array (image layout mem))))
