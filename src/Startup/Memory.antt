-- ===== src/Startup/Memory.antt =====
-- The memory that src/startup.cpp sets up, and the image that the linker script describes.
use baremetal_cxx_coro.Common.{
  ℕ, ◌+◌, ◌-◌, ◌≤◌, ◌≡◌, fun_ext, List, refl, ap, ◌∙◌, true, false, arith, if◌then◌else◌,
  Bool-cases, inl, inr, ◌⊎◌,
}
use baremetal_cxx_coro.Startup.{
  Words, Layout, fill, copy, init_memory, start_to_main, call_constructors,
}
use baremetal_cxx_coro.Startup.Loops.{inside, fill-word, IsAhead, copy-word}

-- The counts of words of the three regions.
abbrev pub bss_count : Layout → ℕ
bss_count layout = layout.bss_target_end - layout.bss_target_start

abbrev pub data_count : Layout → ℕ
data_count layout = layout.data_target_end - layout.data_target_start

abbrev pub itim_count : Layout → ℕ
itim_count layout = layout.itim_target_end - layout.itim_target_start

-- Two regions without a common address.
abbrev pub Disjoint : (first count first' count' : ℕ) → Type 0
Disjoint first count first' count' = (first + count ≤ first') ⊎ (first' + count' ≤ first)

-- The targets lie apart from one another, and from the words that are loaded into them.
pub record IsLaidOut (layout : Layout) : Type 0 where
  pub data_from_data :
      Disjoint layout.data_source_start
        (data_count layout)
        layout.data_target_start
        (data_count layout)
  pub data_from_bss :
      Disjoint layout.data_source_start
        (data_count layout)
        layout.bss_target_start
        (bss_count layout)
  pub itim_from_itim :
      Disjoint layout.itim_source_start
        (itim_count layout)
        layout.itim_target_start
        (itim_count layout)
  pub itim_from_data :
      Disjoint layout.itim_source_start
        (itim_count layout)
        layout.data_target_start
        (data_count layout)
  pub itim_from_bss :
      Disjoint layout.itim_source_start
        (itim_count layout)
        layout.bss_target_start
        (bss_count layout)
  pub bss_and_data :
      Disjoint layout.bss_target_start
        (bss_count layout)
        layout.data_target_start
        (data_count layout)
  pub bss_and_itim :
      Disjoint layout.bss_target_start
        (bss_count layout)
        layout.itim_target_start
        (itim_count layout)
  pub data_and_itim :
      Disjoint layout.data_target_start
        (data_count layout)
        layout.itim_target_start
        (itim_count layout)

outside :
    (first count first' count' a : ℕ)
    → Disjoint first count first' count'
    → inside first count a ≡ true
    → inside first' count' a ≡ false
outside first count first' count' a (inl le) h = ground arith
outside first count first' count' a (inr le) h = ground arith

swap :
    (first count first' count' : ℕ)
    → Disjoint first count first' count'
    → Disjoint first' count' first count
swap first count first' count' (inl le) = inr le
swap first count first' count' (inr le) = inl le

IsAhead-of :
    (first result count : ℕ) → Disjoint first count result count → IsAhead count first result
IsAhead-of first result count (inl le) = inr le
IsAhead-of first result count (inr le) = inl (omega arith)

-- The word of the source that belongs at an address of the target.
source-inside :
    (source target count a : ℕ)
    → inside target count a ≡ true
    → inside source count (source + (a - target)) ≡ true
source-inside source target count a h = ground arith

-- What the program's image asks of the memory.
abbrev pub image : Layout → Words → Words
image layout mem a =
    if inside layout.bss_target_start (bss_count layout) a
    then 0
    else if inside layout.data_target_start (data_count layout) a
    then mem (layout.data_source_start + (a - layout.data_target_start))
    else if inside layout.itim_target_start (itim_count layout) a
    then mem (layout.itim_source_start + (a - layout.itim_target_start))
    else mem a

module _ (layout : Layout) (mem : Words) where
  abbrev cleared : Words
  cleared = fill (bss_count layout) layout.bss_target_start 0 mem

  abbrev loaded : Words
  loaded = copy (data_count layout) layout.data_source_start layout.data_target_start cleared

  module _ (laid : IsLaidOut layout) where
    loaded-word :
        (a : ℕ)
        → loaded a ≡ (
            if inside layout.data_target_start (data_count layout) a
            then cleared (layout.data_source_start + (a - layout.data_target_start))
            else cleared a)
    loaded-word a =
        copy-word (data_count layout) layout.data_source_start layout.data_target_start cleared a
          (IsAhead-of _ _ _ laid.data_from_data)

    -- What neither the clearing nor the loading has written.
    cleared-kept :
        (a : ℕ) → inside layout.bss_target_start (bss_count layout) a ≡ false → cleared a ≡ mem a
    cleared-kept a h = fill-word (bss_count layout) layout.bss_target_start 0 mem a ∙ rw h refl

    loaded-kept :
        (a : ℕ)
        → inside layout.bss_target_start (bss_count layout) a ≡ false
        → inside layout.data_target_start (data_count layout) a ≡ false
        → loaded a ≡ mem a
    loaded-kept a h k = loaded-word a ∙ rw k (cleared-kept a h)

    loaded-image :
        (a : ℕ)
        → inside layout.itim_target_start (itim_count layout) a ≡ false
        → loaded a ≡ image layout mem a
    loaded-image a out = elim (Bool-cases (inside layout.data_target_start (data_count layout) a)) [
      | inl r ↦
          let from = source-inside layout.data_source_start _ _ a r in
          let apart = outside _ _ _ _ _ laid.data_from_bss from in
          let away : inside layout.bss_target_start (bss_count layout) a ≡ false =
            outside _ _ _ _ a (swap _ _ _ _ laid.bss_and_data) r in
          loaded-word a ∙ rw (r, away) (cleared-kept _ apart)
      | inr r ↦
          loaded-word a ∙ rw (r, out) (fill-word (bss_count layout) layout.bss_target_start 0 mem a)
    ]

    -- Where the three target regions lie apart from one another and from the words loaded into
    -- them, the start-up leaves every address with what the program's image asks: 0 in bss, the
    -- word of the source in data and in itim, and elsewhere what was there.
    pub init_memory-image : (a : ℕ) → init_memory layout mem a ≡ image layout mem a
    unfolding init_memory
    init_memory-image a =
        copy-word (itim_count layout) layout.itim_source_start layout.itim_target_start loaded a
          (IsAhead-of _ _ _ laid.itim_from_itim)
        ∙ elim (Bool-cases (inside layout.itim_target_start (itim_count layout) a)) [
          | inl r ↦
              let from = source-inside layout.itim_source_start _ _ a r in
              let off_bss = outside _ _ _ _ a (swap _ _ _ _ laid.bss_and_itim) r in
              let off_data = outside _ _ _ _ a (swap _ _ _ _ laid.data_and_itim) r in
              rw (r, off_bss, off_data)
                (loaded-kept _ (outside _ _ _ _ _ laid.itim_from_bss from)
                  (outside _ _ _ _ _ laid.itim_from_data from))
          | inr r ↦ rw r (rw r at (loaded-image a r))
        ]

    -- Where the three target regions lie apart from one another and from the words loaded into
    -- them, `main` is entered with what the constructors, called in order, make of the program's
    -- image: 0 in bss, the word of the source in data and in itim, and elsewhere what was there.
    pub start_to_main-image :
        (init_array : List (Words → Words))
        → start_to_main layout init_array mem ≡ call_constructors init_array (image layout mem)
    start_to_main-image init_array = ap (call_constructors init_array) (fun_ext init_memory-image)
