-- ===== src/Tests/Lists.antt =====
-- The theorems about include/coro/static_list.hpp on lists of three nodes.
use baremetal_cxx_coro.Common.{ℕ, arith, List, ◌≡◌, some, [], ◌∷◌}
use baremetal_cxx_coro.StaticList.{
  StaticList, construct, emplace, erase, begin, rbegin, increment, increment_reverse,
}
use baremetal_cxx_coro.StaticList.Validity.{IsValid}
use baremetal_cxx_coro.StaticList.Emplace.{emplace-IsValid}
use baremetal_cxx_coro.StaticList.Erase.{erase-IsValid}
use baremetal_cxx_coro.StaticList.Traverse.{traverse, traverse-Holds}
use baremetal_cxx_coro.StaticList.Commands.{
  Operation, append, insert_at, erase_at, drop_first, read_first, read_last, operate_all, expect,
  expect_all, Agrees,
}
use baremetal_cxx_coro.StaticList.Commands.Sequence.{construct-operate_all}
use baremetal_cxx_coro.Tests.Data.{raw, list₂, list₃, list₂-IsValid, list₃-IsValid, list₂-Holds}

-- Two values in a list of three nodes, and three.
abbrev pair : StaticList ℕ
pair = list₂ 0 7 8

abbrev full : StaticList ℕ
full = list₃ 0 7 8 9

erase-IsValid_example :
    (l' : StaticList ℕ) × (erase 2 full ≡ some (tt, l'))
    × IsValid 3 l' ((1, 7) ∷ (3, 9) ∷ []) ((2, 8) ∷ [])
erase-IsValid_example =
    erase-IsValid 3 full ((1, 7) ∷ []) ((3, 9) ∷ []) [] 2 8 (list₃-IsValid 0 7 8 9)

emplace-IsValid_example :
    (l' : StaticList ℕ) × (emplace 2 9 pair ≡ some (tt, l'))
    × IsValid 3 l' ((1, 7) ∷ (3, 9) ∷ (2, 8) ∷ []) []
emplace-IsValid_example = emplace-IsValid 3 pair [] 3 0 9 ((1, 7) ∷ []) [] 2 8 (list₂-IsValid 0 7 8)

traverse-Holds_example :
    (traverse increment 4 (begin pair) pair ≡ some (7 ∷ 8 ∷ [], pair))
    × (traverse increment_reverse 4 (rbegin pair) pair ≡ some (8 ∷ 7 ∷ [], pair))
traverse-Holds_example = traverse-Holds 3 4 pair (7 ∷ 8 ∷ []) (list₂-Holds 0 7 8) (omega arith)

-- In a list of two nodes: the third value and the fourth are dropped.
abbrev operations : List (Operation ℕ)
operations =
    append 7
    ∷ append 8
    ∷ append 9
    ∷ insert_at 1 5
    ∷ read_last
    ∷ drop_first
    ∷ insert_at 0 6
    ∷ erase_at 1
    ∷ read_first
    ∷ []

construct-operate_all_example :
    (l : StaticList ℕ) × (construct (raw 0) 2 ≡ some l)
    × Agrees 2 (some (8 ∷ 6 ∷ [], 6 ∷ [])) (operate_all operations l)
unfolding expect_all expect
construct-operate_all_example = construct-operate_all (raw 0) 1 operations
