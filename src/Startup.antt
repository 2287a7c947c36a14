-- ===== src/Startup.antt =====
-- src/startup.cpp: the C runtime's set-up, from the reset to `main`. The memory is a function of the
-- address of a word, and addresses are counted in words, as `std::uintptr_t*` counts them.
pub mod Loops
pub mod Memory
pub mod Main
use baremetal_cxx_coro.Common.{
  ℕ, zero, suc, ◌+◌, ◌-◌, Bool, Option, none, List, [], ◌∷◌, ◌==◌, if◌then◌else◌,
}

abbrev pub Words : Type 0
Words = ℕ → ℕ

-- The symbols of the linker script.
pub record Layout : Type 0 where
  pub bss_target_start : ℕ
  pub bss_target_end : ℕ
  pub data_source_start : ℕ
  pub data_target_start : ℕ
  pub data_target_end : ℕ
  pub itim_source_start : ℕ
  pub itim_target_start : ℕ
  pub itim_target_end : ℕ

abbrev pub store : ℕ → ℕ → Words → Words
store p v mem = λ a. if a == p then v else mem a

-- `std::fill` from `first` on, for `count` words.
pub fill : (count first value : ℕ) → Words → Words
fill zero first value mem = mem
fill (suc count) first value mem = fill count (first + 1) value (store first value mem)

-- `std::copy` of `count` words from `first` on, each word after the one before.
pub copy : (count first result : ℕ) → Words → Words
copy zero first result mem = mem
copy (suc count) first result mem =
    copy count (first + 1) (result + 1) (store result (mem first) mem)

-- The three regions of `_start`, in order.
pub init_memory : Layout → Words → Words
init_memory layout mem =
    let cleared =
      fill (layout.bss_target_end - layout.bss_target_start) layout.bss_target_start 0 mem in
    let loaded =
      copy (layout.data_target_end - layout.data_target_start) layout.data_source_start
        layout.data_target_start cleared in
    copy (layout.itim_target_end - layout.itim_target_start) layout.itim_source_start
      layout.itim_target_start loaded

-- `std::for_each` over the array of constructors; each is what it does to the memory.
abbrev pub call_constructors : List (Words → Words) → Words → Words
call_constructors [] mem = mem
call_constructors (pf ∷ pfs) mem = call_constructors pfs (pf mem)

-- `_start` up to the call of `main`.
abbrev pub start_to_main : Layout → List (Words → Words) → Words → Words
start_to_main layout init_array mem = call_constructors init_array (init_memory layout mem)
