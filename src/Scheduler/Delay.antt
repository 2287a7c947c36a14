-- ===== src/Scheduler/Delay.antt =====
-- `schedule_by_delay`: wake conditions that are points in time, and the order in which they wake.
use baremetal_cxx_coro.Common.{
  ℕ, ◌+◌, ◌<◌, ◌≤◌, ◌≡◌, refl, ap, subst, some, length, Bool, true, false, List, [], ◌∷◌, ◌++◌,
  arith, if◌then◌else◌, All, All-map, Bool-cases, inl, inr, ltb→lt, lt→ltb, not-ltb→le, le→not-ltb,
}
use baremetal_cxx_coro.Common.Int.{ℤ, pos, ◌+ℤ◌, ◌-ℤ◌, ◌≤ℤ◌, ltb_ℤ, pos_part, neg_part}
use baremetal_cxx_coro.Scheduler.{Entry, Handle, entry, insert}
use baremetal_cxx_coro.Scheduler.Insert.{insert-insert_entry}
use baremetal_cxx_coro.StaticList.{StaticList}
use baremetal_cxx_coro.StaticList.Validity.{Holds}
use baremetal_cxx_coro.Scheduler.Spec.{insert_entry, All-insert}

-- `expires_`, in ticks of the clock.
pub record ScheduleByDelay : Type 0 where
  pub expires : ℤ

-- `CLOCK_T` enters by the time that `now()` returns at the call, and by its
-- `duration_cast<duration>` of microseconds.
module _ (duration_cast : ℤ → ℤ) where
  unfoldable pub schedule_after : (now delay : ℤ) → ScheduleByDelay
  schedule_after now delay = record { expires = now +ℤ duration_cast delay }

unfoldable pub schedule_now : (now : ℤ) → ScheduleByDelay
schedule_now now = record { expires = now }

unfoldable pub ready_to_wake : ScheduleByDelay → ScheduleByDelay → Bool
ready_to_wake c current_state = ltb_ℤ c.expires current_state.expires

unfoldable pub delay : (now : ℤ) → ScheduleByDelay → ℤ
delay now c = if ltb_ℤ now c.expires then c.expires -ℤ now else pos 0

abbrev pub expiry : Entry ScheduleByDelay → ℤ
expiry e = e.wake_condition.expires

-- Earlier entries stand in front.
abbrev pub IsSorted : List (Entry ScheduleByDelay) → Type 0
IsSorted [] = Unit
IsSorted (x ∷ xs) = All (λ y. expiry x ≤ℤ expiry y) xs × IsSorted xs

-- The entries that expire no later than `e`, and those that expire later.
abbrev pub up_to :
    Entry ScheduleByDelay → List (Entry ScheduleByDelay) → List (Entry ScheduleByDelay)
up_to e [] = []
up_to e (x ∷ xs) = if ltb_ℤ (expiry e) (expiry x) then up_to e xs else x ∷ up_to e xs

abbrev pub beyond :
    Entry ScheduleByDelay → List (Entry ScheduleByDelay) → List (Entry ScheduleByDelay)
beyond e [] = []
beyond e (x ∷ xs) = if ltb_ℤ (expiry e) (expiry x) then x ∷ beyond e xs else beyond e xs

infix 50 ◌<ℤ◌
abbrev pub ◌<ℤ◌ : ℤ → ℤ → Type 0
a <ℤ b = pos_part a + neg_part b < pos_part b + neg_part a

pub lt_of_ready : (c d : ScheduleByDelay) → ready_to_wake c d ≡ true → c.expires <ℤ d.expires
unfolding ready_to_wake
lt_of_ready c d h = ltb→lt _ _ h

pub ready_of_lt : (c d : ScheduleByDelay) → c.expires <ℤ d.expires → ready_to_wake c d ≡ true
unfolding ready_to_wake
ready_of_lt c d h = lt→ltb _ _ h

pub le_of_not_ready : (c d : ScheduleByDelay) → ready_to_wake c d ≡ false → d.expires ≤ℤ c.expires
unfolding ready_to_wake
le_of_not_ready c d h = not-ltb→le _ _ h

pub not_ready_of_le : (c d : ScheduleByDelay) → d.expires ≤ℤ c.expires → ready_to_wake c d ≡ false
unfolding ready_to_wake
not_ready_of_le c d h = le→not-ltb _ _ h

-- Ordered insertion keeps the waiting list sorted.
pub insert_entry-IsSorted :
    (e : Entry ScheduleByDelay) (xs : List (Entry ScheduleByDelay))
    → IsSorted xs
    → IsSorted (insert_entry ready_to_wake e xs)
unfolding insert_entry
insert_entry-IsSorted e [] s = (tt, tt)
insert_entry-IsSorted e (x ∷ xs) s =
    elim (Bool-cases (ready_to_wake e.wake_condition x.wake_condition)) [
      | inl r ↦
          let lt = lt_of_ready e.wake_condition x.wake_condition r in
          rw r ((omega arith, All-map _ _ xs (λ y le. omega arith) s.0), s)
      | inr r ↦
          let le = le_of_not_ready e.wake_condition x.wake_condition r in
          rw r (All-insert ready_to_wake _ e xs le s.0, insert_entry-IsSorted e xs s.1)
    ]

pub All-beyond :
    (e : Entry ScheduleByDelay) (xs : List (Entry ScheduleByDelay))
    → All (λ y. expiry e <ℤ expiry y) xs
    → (up_to e xs ≡ []) × (beyond e xs ≡ xs)
All-beyond e [] h = (refl, refl)
All-beyond e (x ∷ xs) h =
    let r = lt→ltb _ _ h.0 in
    let rest = All-beyond e xs h.1 in (rw r rest.0, rw r (ap (λ t. x ∷ t) rest.1))

insert_entry-in_turn :
    (e : Entry ScheduleByDelay) (xs : List (Entry ScheduleByDelay))
    → IsSorted xs
    → insert_entry ready_to_wake e xs ≡ up_to e xs ++ e ∷ beyond e xs
unfolding insert_entry ready_to_wake
insert_entry-in_turn e [] s = refl
insert_entry-in_turn e (x ∷ xs) s = elim (Bool-cases (ltb_ℤ (expiry e) (expiry x))) [
  | inl r ↦
      let lt = ltb→lt _ _ r in
      let later = All-beyond e xs (All-map _ _ xs (λ y le. omega arith) s.0) in
      rw (r, later.0, later.1) refl
  | inr r ↦ rw r (ap (λ t. x ∷ t) (insert_entry-in_turn e xs s.1))
]

-- On a valid sorted list of n nodes that is not full, with fuel for n rounds, `insert` succeeds,
-- and the list is valid and sorted, with the new entry behind all that expire no later and in front
-- of all that expire later, each of these in their order.
pub insert-in_turn :
    (fuel n : ℕ) (blank w : ScheduleByDelay) (h : Handle) (l : StaticList (Entry ScheduleByDelay))
    (es : List (Entry ScheduleByDelay))
    → Holds n l es
    → length es < n
    → n ≤ fuel
    → IsSorted es
    → (l' : StaticList (Entry ScheduleByDelay)) × (insert ready_to_wake fuel blank h w l
        ≡ some (tt, l'))
      × Holds n l' (up_to (entry h w) es ++ entry h w ∷ beyond (entry h w) es)
      × IsSorted (up_to (entry h w) es ++ entry h w ∷ beyond (entry h w) es)
insert-in_turn fuel n blank w h l es holds lt enough sorted =
    let (l', run, is) = insert-insert_entry ready_to_wake fuel n blank w h l es holds lt enough in
    let e = insert_entry-in_turn (entry h w) es sorted in
    (
      l',
      run,
      subst (Holds n l') e is,
      subst IsSorted e (insert_entry-IsSorted (entry h w) es sorted),
    )
