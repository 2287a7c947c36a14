-- ===== src/Trace/History.antt =====
-- The ring of include/debug/trace.hpp, against a history of entries without a bound.
use baremetal_cxx_coro.Common.{
  ℕ, zero, suc, ◌+◌, ◌-◌, ◌%◌, ◌^◌, ◌≤◌, ◌<◌, ◌≡◌, refl, sym, ◌∙◌, ap, true, false, Option, none,
  some, List, [], ◌∷◌, arith, length, ◌==◌, bit_and,
}
use baremetal_cxx_coro.Common.Bits.{bit_and-low_mask}
use baremetal_cxx_coro.Trace.{
  TraceLogEntry, zero_entry, TraceLog, initial_log, put_entry, next_entry, get_entry, Call,
  timestamp, coro_pending, next_wake_delay, scheduler_update_i, scheduler_update_r, flag_update_r,
  write_value, run_call, run_calls, trace_entry_count_pow2,
}

-- The entries, from the newest on; the first one is there before any call.
pub record History : Type 0 where
  pub newest : TraceLogEntry
  pub older : List TraceLogEntry

abbrev pub empty_history : History
empty_history = record { newest = zero_entry; older = [] }

abbrev pub get_elem? : List TraceLogEntry → ℕ → Option TraceLogEntry
get_elem? [] k = none
get_elem? (e ∷ es) zero = some e
get_elem? (e ∷ es) (suc k) = get_elem? es k

-- The entry `k` steps back.
abbrev pub back : History → ℕ → Option TraceLogEntry
back h k = get_elem? (h.newest ∷ h.older) k

-- The number of the entry, counted round the ring, its time, and the time since the one before.
abbrev pub record_time : ℕ → History → History
record_time t h = record {
  newest = record zero_entry {
    index = length h.older % trace_entry_count_pow2;
    timestamp = t;
    delta_timestamp = (t + 2 ^ 32 - h.newest.timestamp) % 2 ^ 32;
  };
  older = h.newest ∷ h.older;
}

abbrev pub record_call : Call → History → History
record_call (timestamp t) h = record_time (t % 2 ^ 32) h
record_call call h = record h { newest = write_value call h.newest }

abbrev pub record_calls : List Call → History → History
record_calls [] h = h
record_calls (call ∷ calls) h = record_calls calls (record_call call h)

-- Where the ring holds the entry `k` steps back.
abbrev pub slot : TraceLog → ℕ → ℕ
slot log k = (log.index + 128 - k) % 128

pub record Refines (log : TraceLog) (h : History) : Type 0 where
  pub at : log.index ≡ (length h.older + 127) % 128
  pub keeps : (k : ℕ) → k < 128 → k ≤ length h.older → back h k ≡ some (log.records (slot log k))

-- The newest entry is the one that the index names.
newest_eq : (log : TraceLog) (h : History) → Refines log h → h.newest ≡ log.records log.index
newest_eq log h r =
    let here : slot log 0 ≡ log.index = omega (arith, r.at) in
    let found : some h.newest ≡ some (log.records log.index) =
      r.keeps 0 (omega arith) (omega arith) ∙ ap (λ i. some (log.records i)) here in
    cc

next_index :
    (log : TraceLog) (h : History)
    → Refines log h
    → bit_and ((log.index + 1) % 2 ^ 32) 127 ≡ length h.older % 128
next_index log h r = bit_and-low_mask 7 ((log.index + 1) % 2 ^ 32) ∙ omega (arith, r.at)

module _ (log : TraceLog) (h : History) (r : Refines log h) (e : TraceLogEntry) where
  -- A new entry behind the newest one.
  module _ (i : ℕ) (next : i ≡ length h.older % 128) where
    pushed : TraceLog
    pushed = put_entry i e (record log { index = i })

    pushed-back :
        (k : ℕ)
        → k < 128
        → k ≤ suc (length h.older)
        → get_elem? (e ∷ h.newest ∷ h.older) k ≡ some (pushed.records (slot pushed k))
    unfolding pushed
    pushed-back zero lt le =
        let here : ((i + 128 - 0) % 128 == i) ≡ true = ground arith in rw here refl
    pushed-back (suc k) lt le =
        let apart : ((i + 128 - suc k) % 128 == i) ≡ false = ground arith in
        let same : (i + 128 - suc k) % 128 ≡ slot log k = omega (arith, next, r.at) in
        rw (apart, same) (r.keeps k (omega arith) (omega arith))

    pushed-Refines : Refines pushed (record { newest = e; older = h.newest ∷ h.older })
    unfolding pushed
    pushed-Refines = record { at = omega (arith, next); keeps = pushed-back }

  -- Another value of the newest entry.
  changed-back :
      (k : ℕ)
      → k < 128
      → k ≤ length h.older
      → get_elem? (e ∷ h.older) k ≡ some ((put_entry log.index e log).records (slot log k))
  changed-back zero lt le =
      let here : ((log.index + 128 - 0) % 128 == log.index) ≡ true = ground (arith, r.at) in
      rw here refl
  changed-back (suc k) lt le =
      let apart : ((log.index + 128 - suc k) % 128 == log.index) ≡ false = ground (arith, r.at) in
      rw apart (r.keeps (suc k) lt le)

  changed-Refines : Refines (put_entry log.index e log) (record h { newest = e })
  changed-Refines = record { at = r.at; keeps = changed-back }

next_entry-Refines :
    (t : ℕ) (log : TraceLog) (h : History)
    → Refines log h
    → Refines (next_entry t log) (record_time t h)
unfolding next_entry pushed
next_entry-Refines t log h r =
    rw (next_index log h r, sym (newest_eq log h r))
      (pushed-Refines log h r (record_time t h).newest (length h.older % 128) refl)

-- The two ways in which a call changes the log.
write-Refines :
    (call : Call) (log : TraceLog) (h : History)
    → Refines log h
    → Refines
        (put_entry log.index (write_value call (get_entry log)) log)
        (record h { newest = write_value call h.newest })
unfolding get_entry
write-Refines call log h r =
    rw (sym (newest_eq log h r)) (changed-Refines log h r (write_value call h.newest))

run_call-Refines :
    (call : Call) (log : TraceLog) (h : History)
    → Refines log h
    → Refines (run_call call log) (record_call call h)
unfolding run_call
run_call-Refines (timestamp t) log h r = next_entry-Refines (t % 2 ^ 32) log h r
run_call-Refines (coro_pending b) log h r = write-Refines (coro_pending b) log h r
run_call-Refines (next_wake_delay v) log h r = write-Refines (next_wake_delay v) log h r
run_call-Refines (scheduler_update_i v) log h r = write-Refines (scheduler_update_i v) log h r
run_call-Refines (scheduler_update_r v) log h r = write-Refines (scheduler_update_r v) log h r
run_call-Refines (flag_update_r v) log h r = write-Refines (flag_update_r v) log h r

-- Any uses of the trace lead from a ring that refines a history to one that refines what they make
-- of the history: each of the newest entries, up to 128 of them, stands in the ring, the entry `k`
-- steps back `k` places before the index.
pub run_calls-Refines :
    (calls : List Call) (log : TraceLog) (h : History)
    → Refines log h
    → Refines (run_calls calls log) (record_calls calls h)
run_calls-Refines [] log h r = r
run_calls-Refines (call ∷ calls) log h r =
    run_calls-Refines calls (run_call call log) (record_call call h) (run_call-Refines call log h r)

initial-back :
    (k : ℕ)
    → k < 128
    → k ≤ 0
    → back empty_history k ≡ some (initial_log.records (slot initial_log k))
initial-back zero lt le = refl
initial-back (suc k) lt le = absurd (omega arith)

pub initial-Refines : Refines initial_log empty_history
initial-Refines = record { at = refl; keeps = initial-back }
