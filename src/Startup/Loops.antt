-- ===== src/Startup/Loops.antt =====
-- The loops of `std::fill` and `std::copy` in src/startup.cpp, word by word.
use baremetal_cxx_coro.Common.{
  ℕ, zero, suc, ◌+◌, ◌-◌, ◌≤◌, ◌<◌, ◌≡◌, refl, ◌∙◌, Bool, true, false, arith, ltb, leb, ◌==◌,
  if◌then◌else◌, Bool-cases, inl, inr, ◌⊎◌,
}
use baremetal_cxx_coro.Startup.{Words, store, fill, copy}

-- Whether an address lies in the region of `count` words from `first` on.
abbrev pub inside : (first count a : ℕ) → Bool
inside first count a = if leb first a then ltb a (first + count) else false

pub fill-word :
    (count first value : ℕ) (mem : Words) (a : ℕ)
    → fill count first value mem a ≡ (if inside first count a then value else mem a)
unfolding fill
fill-word zero first value mem a = let out : inside first 0 a ≡ false = ground arith in rw out refl
fill-word (suc count) first value mem a =
    fill-word count (first + 1) value (store first value mem) a ∙ ground arith

-- A copy from the first word on reads no word that it has written.
abbrev pub IsAhead : (count first result : ℕ) → Type 0
IsAhead count first result = (result ≤ first) ⊎ (first + count ≤ result)

IsAhead-suc :
    (count first result : ℕ)
    → IsAhead (suc count) first result
    → IsAhead count (first + 1) (result + 1)
IsAhead-suc count first result (inl le) = inl (omega arith)
IsAhead-suc count first result (inr le) = inr (omega arith)

-- The word that a round of the copy has written is not one that a later round reads.
read-kept :
    (count first result a : ℕ) (mem : Words)
    → IsAhead (suc count) first result
    → inside (result + 1) count a ≡ true
    → store result (mem first) mem (first + 1 + (a - (result + 1))) ≡ mem (first + (a - result))
read-kept count first result a mem ahead h =
    let from : result + 1 ≤ a = ground arith in
    let upto : a < result + 1 + count = ground arith in
    let same : first + 1 + (a - (result + 1)) ≡ first + (a - result) = omega arith in
    let apart : (first + (a - result) == result) ≡ false = elim ahead [
      | inl le ↦ ground arith
      | inr le ↦ ground arith
    ] in
    rw (same, apart) refl

pub copy-word :
    (count first result : ℕ) (mem : Words) (a : ℕ)
    → IsAhead count first result
    → copy count first result mem a
      ≡ (if inside result count a then mem (first + (a - result)) else mem a)
unfolding copy
copy-word zero first result mem a ahead =
    let out : inside result 0 a ≡ false = ground arith in rw out refl
copy-word (suc count) first result mem a ahead =
    let rest =
      copy-word count (first + 1) (result + 1) (store result (mem first) mem) a
        (IsAhead-suc count first result ahead) in
    rest ∙ elim (Bool-cases (inside (result + 1) count a)) [
      | inl r ↦
          let within : inside result (suc count) a ≡ true = ground arith in
          rw (r, within) (read-kept count first result a mem ahead r)
      | inr r ↦ elim (Bool-cases (a == result)) [
        | inl e ↦
            let within : inside result (suc count) a ≡ true = ground arith in
            let same : first + (a - result) ≡ first = ground arith in rw (r, within, e, same) refl
        | inr e ↦
            let out : inside result (suc count) a ≡ false = ground arith in rw (r, out, e) refl
      ]
    ]
