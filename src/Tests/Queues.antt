-- ===== src/Tests/Queues.antt =====
-- The theorems about `scheduler_unordered` of include/coro/scheduler.hpp.
use baremetal_cxx_coro.Common.{
  ℕ, zero, suc, ◌<◌, ◌≤◌, ◌≡◌, ◌⊎◌, Bool, none, some, true, false, [], ◌∷◌, refl, arith,
}
use baremetal_cxx_coro.StaticList.{StaticList, empty, emplace_back}
use baremetal_cxx_coro.StaticList.Interrupted.{pop_front_interrupted}
use baremetal_cxx_coro.StaticList.Reused.{pop_front_reused, pop_front-loses}
use baremetal_cxx_coro.StaticList.Validity.{Holds}
use baremetal_cxx_coro.Scheduler.{Handle, resume_unordered}
use baremetal_cxx_coro.Scheduler.Unordered.{drain, resume_unordered-drain, resume_unordered-total}
use baremetal_cxx_coro.Tests.Data.{list₁, list₁-IsValid, list₂, list₂-Holds}

-- Each coroutine counts the state down and awaits the scheduler again until it is 0.
abbrev countdown : Handle → ℕ → ℕ × Bool
countdown h zero = (zero, false)
countdown h (suc s) = (s, true)

abbrev one : StaticList Handle
one = list₁ 0 4

abbrev two : StaticList Handle
two = list₂ 0 4 5

one-Holds : Holds 3 one (4 ∷ [])
one-Holds = record {
  cells = (1, 4) ∷ [];
  spares = (2, 0) ∷ (3, 0) ∷ [];
  valid = list₁-IsValid 0 4;
  values = refl;
}

spends : (h : Handle) (s : ℕ) → (countdown h s).1 ≡ true → (countdown h s).0 < s
spends h zero e = absurd (ground arith)
spends h (suc s) e = omega arith

keeps : (h : Handle) (s : ℕ) → (countdown h s).1 ≡ false → (countdown h s).0 ≤ s
keeps h zero e = omega arith
keeps h (suc s) e = omega arith

resume_unordered-drain_example :
    ((drain countdown 6 2 (4 ∷ 5 ∷ []) ≡ none) × (resume_unordered countdown 6 2 two ≡ none))
    ⊎ ((s' : ℕ) × ((l' : StaticList Handle) × (drain countdown 6 2 (4 ∷ 5 ∷ []) ≡ some s')
          × (resume_unordered countdown 6 2 two ≡ some (s', l'))
          × Holds 3 l' []))
resume_unordered-drain_example =
    resume_unordered-drain countdown 6 3 2 two (4 ∷ 5 ∷ []) (list₂-Holds 0 4 5)

resume_unordered-total_example :
    (s' : ℕ) × ((l' : StaticList Handle) × (resume_unordered countdown 5 2 two ≡ some (s', l'))
      × Holds 3 l' [])
resume_unordered-total_example =
    resume_unordered-total countdown (λ s. s) spends keeps 5 3 2 two (4 ∷ 5 ∷ [])
      (list₂-Holds 0 4 5) (omega arith)

pop_front-loses_example :
    ((l' : StaticList Handle) × (pop_front_interrupted (emplace_back 9) one ≡ some (tt, l'))
      × (empty l' ≡ true))
    × ((l' : StaticList Handle) × (pop_front_reused (emplace_back 9) one ≡ some (tt, l'))
        × (empty l' ≡ true)
        × (l'.free ≡ one.free))
pop_front-loses_example = pop_front-loses 3 one 4 9 one-Holds (omega arith)
