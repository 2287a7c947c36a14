-- ===== src/StaticList/Commands.antt =====
-- Sequences of operations of include/coro/static_list.hpp, and the same on a bounded list of values.
pub mod Position
pub mod Sequence
use mathlib.Core.List.{append_assoc, map-append, append-nil}
use baremetal_cxx_coro.Common.{
  ℕ, zero, suc, ◌+◌, ◌<◌, ◌≤◌, ◌≡◌, ◌⊎◌, refl, sym, ◌∙◌, ap, subst, Bool, true, false, Option, none,
  some, inl, inr, List, [], ◌∷◌, ◌++◌, map, length, length-map, eq-nil, take, drop,
  take-append-drop, map-take-drop, ltb, ltb→lt, not-ltb→le, if◌then◌else◌, Bool-cases, arith,
}
use baremetal_cxx_coro.StaticList.{
  Ptr, null, Node, StaticList, Cmd, construct, pure, and_then, ◌>>=◌, ◌>>◌, begin, increment,
  emplace, emplace_back, erase, pop_front, pop_back, front, back, deref,
}
use baremetal_cxx_coro.StaticList.Chain.{Cells, head_or}
use baremetal_cxx_coro.StaticList.Values.{values}
use baremetal_cxx_coro.StaticList.Validity.{IsValid, Holds}
use baremetal_cxx_coro.StaticList.Emplace.{emplace-IsValid, emplace_end-IsValid, emplace-full}
use baremetal_cxx_coro.StaticList.Erase.{erase-IsValid}
use baremetal_cxx_coro.StaticList.Pop.{pop-empty}
use baremetal_cxx_coro.StaticList.Iterate.{increment-next, not_end, front_back-empty}
use baremetal_cxx_coro.StaticList.Contents.{
  construct-Holds, emplace_back-Holds, emplace_back-full, pop_front-Holds, pop_back-Holds,
  length-le,
}

-- `emplace_back(v)`, `emplace(i, v)` and `erase(i)` for an iterator `i` that has gone `k` steps from
-- `begin()`, `pop_front()`, `pop_back()`, and reading `front()` and `back()`.
pub data Operation (T : Type 0) : Type 0 where
  append : T → Operation T
  insert_at : ℕ → T → Operation T
  erase_at : ℕ → Operation T
  drop_first : Operation T
  drop_last : Operation T
  read_first : Operation T
  read_last : Operation T

module _ {T : Type 0} where
  pub advance : ℕ → Ptr → Cmd T Ptr
  advance zero i = pure i
  advance (suc k) i = do i' ← increment i; advance k i'

  -- An operation on the linked list, with the values that it reads.
  unfoldable pub operate : Operation T → Cmd T (List T)
  operate (append v) l = (emplace_back v >> pure []) l
  operate (insert_at k v) l = (do i ← advance k (begin l); emplace i v; pure []) l
  operate (erase_at k) l = (do i ← advance k (begin l); erase i; pure []) l
  operate drop_first l = (pop_front >> pure []) l
  operate drop_last l = (pop_back >> pure []) l
  operate read_first l = (do v ← front; pure (v ∷ [])) l
  operate read_last l = (do v ← back; pure (v ∷ [])) l

  unfoldable pub operate_all : List (Operation T) → Cmd T (List T)
  operate_all [] l = pure [] l
  operate_all (o ∷ os) l = (do read ← operate o; rest ← operate_all os; pure (read ++ rest)) l

  -- The same on a list of at most n values. What is added to a full list is dropped; a fault is
  -- `none`.
  abbrev pub tail : List T → List T
  tail [] = []
  tail (x ∷ xs) = xs

  abbrev pub all_but_last : List T → List T
  all_but_last [] = []
  all_but_last (x ∷ []) = []
  all_but_last (x ∷ y ∷ xs) = x ∷ all_but_last (y ∷ xs)

  abbrev pub read_head : List T → Option (List T)
  read_head [] = none
  read_head (x ∷ xs) = some (x ∷ [])

  abbrev pub read_end : List T → Option (List T)
  read_end [] = none
  read_end (x ∷ []) = some (x ∷ [])
  read_end (x ∷ y ∷ xs) = read_end (y ∷ xs)

  abbrev pub without_head : List T → List T → Option (List T × List T)
  without_head before [] = none
  without_head before (x ∷ rear) = some ([], before ++ rear)

  abbrev pub reading : List T → Option (List T) → Option (List T × List T)
  reading vs none = none
  reading vs (some read) = some (read, vs)

  unfoldable pub expect : ℕ → Operation T → List T → Option (List T × List T)
  expect n (append v) vs = some ([], if ltb (length vs) n then vs ++ v ∷ [] else vs)
  expect n (insert_at k v) vs =
      some ([], if ltb (length vs) n then take k vs ++ v ∷ drop k vs else vs)
  expect n (erase_at k) vs = without_head (take k vs) (drop k vs)
  expect n drop_first vs = some ([], tail vs)
  expect n drop_last vs = some ([], all_but_last vs)
  expect n read_first vs = reading vs (read_head vs)
  expect n read_last vs = reading vs (read_end vs)

  abbrev pub and_read : List T → Option (List T × List T) → Option (List T × List T)
  and_read read none = none
  and_read read (some (rest, vs)) = some (read ++ rest, vs)

  abbrev pub expect_next :
      (List T → Option (List T × List T)) → Option (List T × List T) → Option (List T × List T)
  expect_next k none = none
  expect_next k (some (read, vs)) = and_read read (k vs)

  unfoldable pub expect_all : ℕ → List (Operation T) → List T → Option (List T × List T)
  expect_all n [] vs = some ([], vs)
  expect_all n (o ∷ os) vs = expect_next (λ vs'. expect_all n os vs') (expect n o vs)

  -- Both fault, or both read the same, and the linked list is valid and holds the values.
  abbrev pub Agrees : ℕ → Option (List T × List T) → Option (List T × StaticList T) → Type 0
  Agrees n o r =
      ((o ≡ none) × (r ≡ none))
      ⊎ ((read : List T) × ((vs : List T) × ((l : StaticList T) × (o ≡ some (read, vs))
              × (r ≡ some (read, l))
              × Holds n l vs)))

  pub agree :
      (n : ℕ) (o : Option (List T × List T)) (r : Option (List T × StaticList T)) (read vs : List T)
      (l : StaticList T)
      → o ≡ some (read, vs)
      → r ≡ some (read, l)
      → Holds n l vs
      → Agrees n o r
  agree n o r read vs l e f holds = inr (read, (vs, (l, e, f, holds)))
