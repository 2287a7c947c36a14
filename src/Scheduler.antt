-- ===== src/Scheduler.antt =====
-- The scheduler classes of include/coro/scheduler.hpp over `static_list`.
pub mod Spec
pub mod Insert
pub mod Resume
pub mod Delay
pub mod Wake
pub mod Unordered
pub mod Priority
pub mod Requests
use baremetal_cxx_coro.Common.{
  ℕ, zero, suc, ◌+◌, ◌%◌, ◌^◌, Bool, true, false, Option, none, some, ◌==◌, if◌then◌else◌, bit_or,
  List,
}
use baremetal_cxx_coro.StaticList.{
  Ptr, null, StaticList, Cmd, pure, and_then, ◌>>=◌, ◌>>◌, begin, empty, increment, dereference,
  emplace, emplace_back, erase, pop_front,
}

-- `std::coroutine_handle<>` is the number of a coroutine, and 0 is the null handle.
abbrev pub Handle : Type 0
Handle = ℕ

-- `schedule_entry`
pub record Entry (W : Type 0) : Type 0 where
  pub handle : Handle
  pub wake_condition : W

abbrev pub entry : {W : Type 0} → Handle → W → Entry W
entry h w = record { handle = h; wake_condition = w }

-- The move constructor swaps a new entry, whose members have their default values, with its source.
pub move_entry : {W : Type 0} → W → Entry W → Entry W × Entry W
move_entry blank src = (entry src.handle src.wake_condition, entry 0 blank)

-- The two fields of the trace entry that `resume` writes.
pub record UpdateTrace : Type 0 where
  pub update_i : ℕ
  pub update_r : ℕ

abbrev pub trace_start : UpdateTrace
trace_start = record { update_i = 0; update_r = 0 }

abbrev pub flag : UpdateTrace → ℕ → UpdateTrace
flag t mask = record t { update_r = bit_or t.update_r mask }

-- What `resume` returns, with its writes to the trace.
pub record Resumed (W : Type 0) : Type 0 where
  pub pending : Bool
  pub next_wake : Option W
  pub trace : UpdateTrace

-- `WAKE_CONDITION_T` with its test and its default value.
module _ {W : Type 0} (ready_to_wake : W → W → Bool) where
  -- `entry.ready_to_wake(ready_condition)`
  pub entry_ready : Entry W → W → Bool
  entry_ready e ready = ready_to_wake e.wake_condition ready

  -- The search loop of `insert`, on fuel.
  pub find_position : ℕ → W → Ptr → Cmd (Entry W) Ptr
  find_position zero w i l = none
  find_position (suc fuel) w i l =
      (if i == null then pure i else do
        e ← dereference i
        (if ready_to_wake w e.wake_condition
            then pure i
            else do i' ← increment i; find_position fuel w i'))
        l

  pub insert : ℕ → W → Handle → W → Cmd (Entry W) (Unit {0})
  insert fuel blank handle w l =
      (do i ← find_position fuel w (begin l); emplace i (move_entry blank (entry handle w)).0) l

  -- `!priority_condition || priority_condition->ready_to_wake(condition)`
  pub replaces : Option W → W → Bool
  replaces none w = true
  replaces (some p) w = ready_to_wake p w

  -- The branch of the loop for an entry that is due, up to the call `handle.resume()`.
  take_ready : Ptr → Entry W → Option W → UpdateTrace → Cmd (Entry W) (Resumed W × Option Handle)
  take_ready i e priority t = do
    erase i
    pure (record { pending = true; next_wake = priority; trace = flag t 1 }, some e.handle)

  -- The branch for an entry that is not due, up to the next round.
  pub keep_priority : Option W → Entry W → Option W
  keep_priority priority e =
      if replaces priority e.wake_condition then some e.wake_condition else priority

  abbrev keep_trace : Option W → Entry W → ℕ → UpdateTrace → UpdateTrace
  keep_trace priority e j t =
      record (flag t (if replaces priority e.wake_condition then 2 else 4)) {
        update_i = (j + 1) % 2 ^ 16;
      }

  -- The loop of `resume`, on fuel, up to the call `handle.resume()`: the result that `resume`
  -- returns, and the handle that it resumes, if any, which is off the list by then.
  pub resume_scan :
      ℕ → W → Ptr → Bool → Option W → ℕ → UpdateTrace → Cmd (Entry W) (Resumed W × Option Handle)
  resume_scan zero ready i pending priority j t l = none
  resume_scan (suc fuel) ready i pending priority j t l =
      (if i == null
          then pure (record { pending = pending; next_wake = priority; trace = flag t 8 }, none)
          else do
            e ← dereference i
            if entry_ready e ready then take_ready i e priority t else do
              i' ← increment i
              resume_scan fuel ready i' true (keep_priority priority e) ((j + 1) % 2 ^ 16)
                  (keep_trace priority e j t))
        l

  module _ {S : Type 0}
      (run : Handle → S → StaticList (Entry W) → Option (S × StaticList (Entry W))) where
    abbrev pub after_run :
        Resumed W
        → Option (S × StaticList (Entry W))
        → Option (Resumed W × S × StaticList (Entry W))
    after_run result none = none
    after_run result (some (s, l)) = some (result, s, l)

    -- `handle.resume()`, where the loop found an entry that is due.
    abbrev pub resume_found :
        S
        → Option ((Resumed W × Option Handle) × StaticList (Entry W))
        → Option (Resumed W × S × StaticList (Entry W))
    resume_found s none = none
    resume_found s (some ((result, none), l)) = some (result, s, l)
    resume_found s (some ((result, some h), l)) = after_run result (run h s l)

    -- `resume`: `run h` is `h.resume()`, the coroutine up to its next suspension. It may change
    -- the program's other state and insert into this scheduler.
    pub resume : ℕ → W → S → StaticList (Entry W) → Option (Resumed W × S × StaticList (Entry W))
    resume fuel ready s l =
        resume_found s (resume_scan fuel ready (begin l) false none 0 trace_start l)

-- `scheduler_unordered`. A coroutine is known by the part of its body that runs up to its next
-- suspension: it changes the program's other state, and says whether the coroutine awaits this
-- scheduler again.
pub insert_unordered : Handle → Cmd Handle (Unit {0})
insert_unordered handle = emplace_back handle

-- `*waiting_.begin()` and `waiting_.pop_front()`
pub take_front : {T : Type 0} → Cmd T T
take_front l = (do h ← dereference (begin l); pop_front; pure h) l

module _ {S : Type 0} (body : Handle → S → S × Bool) where
  -- `handle.resume()`: where the body awaits the scheduler, `await_suspend` inserts the handle.
  pub resume_handle : Handle → S → StaticList Handle → Option (S × StaticList Handle)
  resume_handle h s l =
      let (s', again) = body h s in
      if again then and_then (insert_unordered h l) (λ _ l'. some (s', l')) else some (s', l)

  abbrev pub with_taken :
      (Handle → StaticList Handle → Option (S × StaticList Handle))
      → Option (Handle × StaticList Handle)
      → Option (S × StaticList Handle)
  with_taken k none = none
  with_taken k (some (h, l)) = k h l

  abbrev pub with_state :
      (S → StaticList Handle → Option (S × StaticList Handle))
      → Option (S × StaticList Handle)
      → Option (S × StaticList Handle)
  with_state k none = none
  with_state k (some (s, l)) = k s l

  -- `resume` runs until the list is empty, on fuel.
  pub resume_unordered : ℕ → S → StaticList Handle → Option (S × StaticList Handle)
  resume_unordered zero s l = none
  resume_unordered (suc fuel) s l =
      let round =
        with_taken
          (λ h l'. with_state (λ s' l''. resume_unordered fuel s' l'') (resume_handle h s l'))
          (take_front l) in
      if empty l then some (s, l) else round
