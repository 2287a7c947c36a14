-- ===== src/Trace.antt =====
-- The trace ring of include/debug/trace.hpp: `trace_log_manager` and the macros that write to it.
pub mod History
use baremetal_cxx_coro.Common.{
  ℕ, ◌+◌, ◌-◌, ◌%◌, ◌^◌, Bool, false, List, [], ◌∷◌, ◌==◌, if◌then◌else◌, bit_and, bit_or,
}

-- `trace_log_entry`
pub record TraceLogEntry : Type 0 where
  pub index : ℕ
  pub timestamp : ℕ
  pub delta_timestamp : ℕ
  pub coro_pending : Bool
  pub next_wake_delay : ℕ
  pub scheduler_update_i : ℕ
  pub scheduler_update_r : ℕ

-- An entry whose bytes are all 0.
abbrev pub zero_entry : TraceLogEntry
zero_entry = record {
  index = 0;
  timestamp = 0;
  delta_timestamp = 0;
  coro_pending = false;
  next_wake_delay = 0;
  scheduler_update_i = 0;
  scheduler_update_r = 0;
}

abbrev pub trace_entry_count_pow2 : ℕ
trace_entry_count_pow2 = 128

abbrev pub count_mask : ℕ
count_mask = trace_entry_count_pow2 - 1

-- The members of `trace_log_manager`; its array is read below `TRACE_ENTRY_COUNT_POW2` only.
pub record TraceLog : Type 0 where
  pub records : ℕ → TraceLogEntry
  pub index : ℕ

abbrev pub initial_log : TraceLog
initial_log = record { records = λ i. zero_entry; index = count_mask }

abbrev pub put_entry : ℕ → TraceLogEntry → TraceLog → TraceLog
put_entry i e log = record log { records = λ j. if j == i then e else log.records j }

-- `next_entry` with the time stamp `t`
pub next_entry : ℕ → TraceLog → TraceLog
next_entry t log =
    let prev_timestamp = (log.records log.index).timestamp in
    let i = bit_and ((log.index + 1) % 2 ^ 32) count_mask in
    put_entry i
      (record zero_entry {
        index = i;
        timestamp = t;
        delta_timestamp = (t + 2 ^ 32 - prev_timestamp) % 2 ^ 32;
      })
      (record log { index = i })

pub get_entry : TraceLog → TraceLogEntry
get_entry log = log.records log.index

-- The uses of the macros: the entry of a time stamp, and the writes to a member of the entry.
pub data Call : Type 0 where
  timestamp : ℕ → Call
  coro_pending : Bool → Call
  next_wake_delay : ℕ → Call
  scheduler_update_i : ℕ → Call
  scheduler_update_r : ℕ → Call
  flag_update_r : ℕ → Call

-- `TRACE_VALUE` and `TRACE_VALUE_FLAG`, on the entry.
abbrev pub write_value : Call → TraceLogEntry → TraceLogEntry
write_value (timestamp t) e = e
write_value (coro_pending b) e = record e { coro_pending = b }
write_value (next_wake_delay v) e = record e { next_wake_delay = v % 2 ^ 32 }
write_value (scheduler_update_i v) e = record e { scheduler_update_i = v % 2 ^ 16 }
write_value (scheduler_update_r v) e = record e { scheduler_update_r = v % 2 ^ 16 }
write_value (flag_update_r v) e = record e {
  scheduler_update_r = bit_or e.scheduler_update_r v % 2 ^ 16;
}

pub run_call : Call → TraceLog → TraceLog
run_call (timestamp t) log = next_entry (t % 2 ^ 32) log
run_call call log = put_entry log.index (write_value call (get_entry log)) log

abbrev pub run_calls : List Call → TraceLog → TraceLog
run_calls [] log = log
run_calls (call ∷ calls) log = run_calls calls (run_call call log)
