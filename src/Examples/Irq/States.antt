-- ===== src/Examples/Irq/States.antt =====
-- The states that src/example_irq.cpp reaches from its set-up.
use baremetal_cxx_coro.Common.{
  ℕ, ◌+◌, ◌%◌, ◌^◌, ◌<◌, ◌≡◌, refl, subst, Bool, true, false, some, List, [], ◌∷◌, ◌==◌, arith,
}
use baremetal_cxx_coro.StaticList.{StaticList, empty}
use baremetal_cxx_coro.StaticList.Validity.{Holds}
use baremetal_cxx_coro.StaticList.Contents.{emplace_back-Holds, empty-nil}
use baremetal_cxx_coro.Scheduler.{take_front}
use baremetal_cxx_coro.Timer.{TimeCmp, write_time_cmp}
use baremetal_cxx_coro.NopTask.{operator_new, operator_new-exact, task_heap_size}
use baremetal_cxx_coro.Examples.Irq.{
  Build, Context, isr_context, isr_mti_context, isr_mei_context, handler_of, main_thread, Place,
  Program, Stage, awake, asleep, Step, turn, leave, set_timer, sleep, wake, interrupt, Reach, start,
  later, capacity, set_up, fresh, put_list, put_frame, await_at, resume_taken, timestamp, handler,
  main_round, set_time_cmp_at, next_wakeup,
}
use baremetal_cxx_coro.Examples.Irq.Sound.{IsSound, InStep, count, one_if, at_home}
use baremetal_cxx_coro.Examples.Irq.Run.{turn-IsSound}
use baremetal_cxx_coro.Examples.Irq.Invariant.{
  flags-IsSound, handler-IsSound, main_round-IsSound, queue_short,
}

-- Behind `index` the heap has room for three frames, and no sum of `std::size_t` wraps around.
abbrev pub HasRoom : Build → ℕ → Type 0
HasRoom b index =
    (index + b.frame_size + b.frame_size + b.frame_size < task_heap_size b.host_emulation)
    × (task_heap_size b.host_emulation < 2 ^ b.word_bits)

allocated :
    (b : Build) (index : ℕ)
    → (index + b.frame_size < task_heap_size b.host_emulation)
      × (task_heap_size b.host_emulation < 2 ^ b.word_bits)
    → operator_new b.word_bits (task_heap_size b.host_emulation) index b.frame_size
      ≡ record { pointer = some index; index = index + b.frame_size }
allocated b index (room, fits) =
    (operator_new-exact b.word_bits (task_heap_size b.host_emulation) fits index b.frame_size
        (omega arith) (omega arith)).0
      room

-- The program with its coroutines in the schedulers of the handler.
abbrev started :
    (now index : ℕ) (cmp : TimeCmp) (l₀ l₁ l₂ : StaticList Context)
    → (Place → StaticList Context)
    → Program
started now index cmp l₀ l₁ l₂ lists =
    let p : Program = record {
      lists = lists;
      frames = λ c. fresh;
      mti_enabled = true;
      mie_enabled = true;
      timestamp_irq = timestamp now;
      time_cmp = cmp;
      task_heap_index = index;
    } in
    put_list (handler_of isr_mei_context) l₂ (
      put_frame isr_mei_context fresh (
        put_list (handler_of isr_mti_context) l₁ (
          put_frame isr_mti_context fresh
            (put_list (handler_of isr_context) l₀ (put_frame isr_context fresh p)))))

module _ (now index : ℕ) (cmp : TimeCmp) (l₀ l₁ l₂ : StaticList Context)
    (lists : Place → StaticList Context) where
  started-homes :
      Holds 1 l₀ (isr_context ∷ [])
      → Holds 1 l₁ (isr_mti_context ∷ [])
      → Holds 1 l₂ (isr_mei_context ∷ [])
      → (c : Context)
      → Holds 1
          ((started now index cmp l₀ l₁ l₂ lists).lists (handler_of c))
          (at_home c ((started now index cmp l₀ l₁ l₂ lists).frames c).at_main)
  started-homes h₀ h₁ h₂ isr_context = h₀
  started-homes h₀ h₁ h₂ isr_mti_context = h₁
  started-homes h₀ h₁ h₂ isr_mei_context = h₂

  started-members :
      (c : Context) → count c [] ≡ one_if ((started now index cmp l₀ l₁ l₂ lists).frames c).at_main
  started-members isr_context = refl
  started-members isr_mti_context = refl
  started-members isr_mei_context = refl

  started-InStep : (c : Context) → InStep ((started now index cmp l₀ l₁ l₂ lists).frames c)
  started-InStep isr_context = (refl, refl)
  started-InStep isr_mti_context = (refl, refl)
  started-InStep isr_mei_context = (refl, refl)

-- On empty lists of the schedulers' capacities, and with room for three frames in the heap, the
-- set-up of `example_irq` succeeds, and leaves a sound program.
pub set_up-IsSound :
    (b : Build) (wide : Bool) (now at index : ℕ) (cmp₀ : TimeCmp)
    (lists : Place → StaticList Context)
    → HasRoom b index
    → ((x : Place) → Holds (capacity x) (lists x) [])
    → (p : Program) × (set_up b wide now at index cmp₀ lists ≡ some p) × IsSound p []
unfolding set_up await_at
set_up-IsSound b wide now at index cmp₀ lists room empty =
    let size = b.frame_size in
    let cmp = write_time_cmp wide ((at + 0) % 2 ^ 64) cmp₀ in
    let (l₀, run₀, h₀) =
      emplace_back-Holds 1 (lists (handler_of isr_context)) [] isr_context
        (empty (handler_of isr_context)) (omega arith) in
    let (l₁, run₁, h₁) =
      emplace_back-Holds 1 (lists (handler_of isr_mti_context)) [] isr_mti_context
        (empty (handler_of isr_mti_context)) (omega arith) in
    let (l₂, run₂, h₂) =
      emplace_back-Holds 1 (lists (handler_of isr_mei_context)) [] isr_mei_context
        (empty (handler_of isr_mei_context)) (omega arith) in
    (
      started now (index + size + size + size) cmp l₀ l₁ l₂ lists,
      rw
          (
            allocated b index (omega (arith, room.0), room.1),
            run₀,
            allocated b (index + size) (omega (arith, room.0), room.1),
            run₁,
            allocated b (index + size + size) (omega (arith, room.0), room.1),
            run₂,
          )
          refl,
      record {
        homes = started-homes now (index + size + size + size) cmp l₀ l₁ l₂ lists h₀ h₁ h₂;
        main = empty main_thread;
        members = started-members now (index + size + size + size) cmp l₀ l₁ l₂ lists;
        size = refl;
        in_step = started-InStep now (index + size + size + size) cmp l₀ l₁ l₂ lists;
      },
    )

-- The program of a stage.
abbrev pub program_of : Stage → Program
program_of (awake point p) = p
program_of (asleep p) = p

-- A turn of the loop of `main_thread` that ends keeps the invariant.
turn-kept :
    (p p' : Program) (q : List Context)
    → IsSound p q
    → empty (p.lists main_thread) ≡ false
    → resume_taken main_thread p (take_front (p.lists main_thread)) ≡ some p'
    → (q' : List Context) × IsSound p' q'
turn-kept p p' [] sound filled moved =
    let nothing = empty-nil 3 (p.lists main_thread) sound.main in absurd cc
turn-kept p p' (c ∷ q) sound filled moved =
    let (p₁, _, run, sound₁, _) = turn-IsSound p c q sound in
    let same : p₁ ≡ p' = cc in (q, subst (λ r. IsSound r q) same sound₁)

Step-IsSound :
    {xlen hz : ℕ} {s t : Stage} (q : List Context)
    → Step xlen hz s t
    → IsSound (program_of s) q
    → (q' : List Context) × IsSound (program_of t) q'
Step-IsSound q (turn {p} {p'} filled moved) sound = turn-kept p p' q sound filled moved
Step-IsSound q (leave {p} drained) sound = (q, sound)
Step-IsSound {xlen} {hz} q (set_timer {p} at) sound =
    let cmp = (set_time_cmp_at (xlen == 64) (next_wakeup hz) at p).time_cmp in
    (q, flags-IsSound p q p.mti_enabled p.mie_enabled p.timestamp_irq cmp sound)
Step-IsSound q (sleep {p}) sound =
    (q, flags-IsSound p q true false p.timestamp_irq p.time_cmp sound)
Step-IsSound q (wake {p}) sound =
    (q, flags-IsSound p q p.mti_enabled true p.timestamp_irq p.time_cmp sound)
Step-IsSound {xlen} q (interrupt {p} {p'} now mcause _ e) sound =
    let (p₁, (q₁, run, sound₁, _, _)) = handler-IsSound 2 xlen now mcause p q sound in
    let same : p₁ ≡ p' = cc in (q₁, subst (λ r. IsSound r q₁) same sound₁)

Reach-kept :
    {xlen hz : ℕ} {p : Program} {s : Stage}
    → IsSound p []
    → Reach xlen hz p s
    → (q : List Context) × IsSound (program_of s) q
Reach-kept sound start = ([], sound)
Reach-kept sound (later r step) = let (q, before) = Reach-kept sound r in Step-IsSound q step before

-- When the set-up has succeeded with schedulers that were valid and empty, and with room for three
-- frames in a heap that is smaller than the range of `size_t`, every state that the main loop
-- reaches is sound, however often interrupts come between two turns of the loop of
-- `main_thread.resume()`, and behind it up to `mstatus.mie.clr()`: each coroutine waits in exactly
-- one scheduler, that of the handler or that of the main loop by the point where it is suspended,
-- every list is valid, and its counts are those of its last halves. In every such state the
-- handler, for any `mcause`, and a round of the main loop end without a fault.
pub Reach-IsSound :
    (b : Build) (xlen hz now at index : ℕ) (cmp : TimeCmp) (lists : Place → StaticList Context)
    (p : Program) (s : Stage) (now' at' mcause : ℕ)
    → HasRoom b index
    → ((x : Place) → Holds (capacity x) (lists x) [])
    → set_up b (xlen == 64) now at index cmp lists ≡ some p
    → Reach xlen hz p s
    → ((q : List Context) × IsSound (program_of s) q)
      × ((p' : Program) × (handler 4 xlen now' mcause (program_of s) ≡ some p'))
      × ((p' : Program) × (main_round (xlen == 64) hz 4 at' (program_of s) ≡ some p'))
Reach-IsSound b xlen hz now at index cmp lists p s now' at' mcause room constructed run reach =
    let (p', run', sound) = set_up-IsSound b (xlen == 64) now at index cmp lists room constructed in
    let same : p' ≡ p = cc in
    let (q, kept) = Reach-kept (subst (λ r. IsSound r []) same sound) reach in
    let (p₁, (_, handled, _, _, _)) = handler-IsSound 2 xlen now' mcause (program_of s) q kept in
    let (p₂, rounded, _, _, _, _, _) =
      main_round-IsSound (xlen == 64) hz 4 at' (program_of s) q isr_context kept
        (queue_short (program_of s) q kept) in
    ((q, kept), (p₁, handled), (p₂, rounded))
