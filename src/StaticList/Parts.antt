-- ===== src/StaticList/Parts.antt =====
-- A list's nodes around one node `i`, with the free ones, and how each write to a member moves on
-- from one stage of an insertion or removal to the next.
use baremetal_cxx_coro.Common.{ℕ, ◌+◌, ◌≤◌, ◌≡◌, ◌∙◌, ◌≢◌, some, arith, ◌==◌, if◌then◌else◌}
use baremetal_cxx_coro.StaticList.{Ptr, null, Buffer, with_next, with_prev, with_value}
use baremetal_cxx_coro.StaticList.Chain.{
  node, Cells, count, head_or, last_or, Chain, Distinct-of_count,
}
use baremetal_cxx_coro.StaticList.Writes.{
  with_next-ne, with_prev-ne, with_next_self, with_prev_self, with_value_self, Chain-with_next,
  Chain-with_prev, Chain-with_value, Chain-relink_next, Chain-relink_prev,
}
use baremetal_cxx_coro.StaticList.Validity.{last_or-apart, head_or-apart, ne-last_or, ne-head_or}

-- The part in front of `i` leads on to `x`, the part behind it back to `y`, the free list back to
-- `z`, and `i` itself has the members `n`, `p` and `v`.
pub record Parts {T : Type 0} (g : Buffer T) (pre post fs : Cells T) (i : Ptr) (v : T)
    (x y z n p : Ptr) : Type 0 where
  pub before : Chain g null pre x
  pub after : Chain g y post null
  pub spare : Chain g z fs null
  pub middle : g i ≡ some (node n p v)

-- No node stands in two of the parts, and no part holds the null address.
pub record Apart {T : Type 0} (pre post fs : Cells T) (i : Ptr) : Type 0 where
  pub once : (a : Ptr) → count a pre + ((if a == i then 1 else 0) + count a post) + count a fs ≤ 1
  pub none_null :
      count null pre + ((if null == i then 1 else 0) + count null post) + count null fs ≡ 0

module _ {T : Type 0} {pre post fs : Cells T} {i : Ptr} (d : Apart pre post fs i) where
  self-eq : ◌≡◌ {A = ℕ} (if i == i then 1 else 0) 1
  self-eq = ground arith

  alone : (count i pre ≡ 0) × (count i post ≡ 0) × (count i fs ≡ 0)
  alone = omega (arith, self-eq, d.once i)

  i-ne : i ≢ null
  i-ne = λ e. ground (arith, d.none_null)

module _ {T : Type 0} {pre post fs : Cells T} {i : Ptr} {v : T} (d : Apart pre post fs i) where
  open d use {once, none_null}

  pub write_next-before :
      {h : Buffer T} {x y z n p : Ptr} (q : Ptr)
      → Parts h pre post fs i v x y z n p
      → Parts (with_next h (last_or pre null) q) pre post fs i v q y z n p
  write_next-before {h} {x} {y} {z} {n} {p} q s = record {
    before =
        Chain-relink_next h null null pre x q (Distinct-of_count pre λ t. omega (arith, once t))
          s.before;
    after =
        Chain-with_next h (last_or pre null) q y post null
          (last_or-apart pre post (λ t. omega (arith, once t)) (omega (arith, none_null))) s.after;
    spare =
        Chain-with_next h (last_or pre null) q z fs null
          (last_or-apart pre fs (λ t. omega (arith, once t)) (omega (arith, none_null))) s.spare;
    middle =
        with_next-ne h (last_or pre null) q i (ne-last_or i pre (i-ne d) (alone d).0) ∙ s.middle;
  }

  pub write_prev-after :
      {h : Buffer T} {x y z n p : Ptr} (q : Ptr)
      → Parts h pre post fs i v x y z n p
      → Parts (with_prev h (head_or post null) q) pre post fs i v x q z n p
  write_prev-after {h} {x} {y} {z} {n} {p} q s = record {
    before =
        Chain-with_prev h (head_or post null) q null pre x
          (head_or-apart post pre (λ t. omega (arith, once t)) (omega (arith, none_null))) s.before;
    after =
        Chain-relink_prev h null y post null q (Distinct-of_count post λ t. omega (arith, once t))
          s.after;
    spare =
        Chain-with_prev h (head_or post null) q z fs null
          (head_or-apart post fs (λ t. omega (arith, once t)) (omega (arith, none_null))) s.spare;
    middle =
        with_prev-ne h (head_or post null) q i (ne-head_or i post (i-ne d) (alone d).1) ∙ s.middle;
  }

  pub write_prev-spare :
      {h : Buffer T} {x y z n p : Ptr} (q : Ptr)
      → Parts h pre post fs i v x y z n p
      → Parts (with_prev h (head_or fs null) q) pre post fs i v x y q n p
  write_prev-spare {h} {x} {y} {z} {n} {p} q s = record {
    before =
        Chain-with_prev h (head_or fs null) q null pre x
          (head_or-apart fs pre (λ t. omega (arith, once t)) (omega (arith, none_null))) s.before;
    after =
        Chain-with_prev h (head_or fs null) q y post null
          (head_or-apart fs post (λ t. omega (arith, once t)) (omega (arith, none_null))) s.after;
    spare =
        Chain-relink_prev h null z fs null q (Distinct-of_count fs λ t. omega (arith, once t))
          s.spare;
    middle = with_prev-ne h (head_or fs null) q i (ne-head_or i fs (i-ne d) (alone d).2) ∙ s.middle;
  }

  pub write_next-middle :
      {h : Buffer T} {x y z n p : Ptr} (q : Ptr)
      → Parts h pre post fs i v x y z n p
      → Parts (with_next h i q) pre post fs i v x y z q p
  write_next-middle {h} {x} {y} {z} {n} {p} q s = record {
    before = Chain-with_next h i q null pre x (alone d).0 s.before;
    after = Chain-with_next h i q y post null (alone d).1 s.after;
    spare = Chain-with_next h i q z fs null (alone d).2 s.spare;
    middle = with_next_self h i q n p v s.middle;
  }

  pub write_prev-middle :
      {h : Buffer T} {x y z n p : Ptr} (q : Ptr)
      → Parts h pre post fs i v x y z n p
      → Parts (with_prev h i q) pre post fs i v x y z n q
  write_prev-middle {h} {x} {y} {z} {n} {p} q s = record {
    before = Chain-with_prev h i q null pre x (alone d).0 s.before;
    after = Chain-with_prev h i q y post null (alone d).1 s.after;
    spare = Chain-with_prev h i q z fs null (alone d).2 s.spare;
    middle = with_prev_self h i q n p v s.middle;
  }

  pub write_value-middle :
      {h : Buffer T} {x y z n p : Ptr} (w : T)
      → Parts h pre post fs i v x y z n p
      → Parts (with_value h i w) pre post fs i w x y z n p
  write_value-middle {h} {x} {y} {z} {n} {p} w s = record {
    before = Chain-with_value h i w null pre x (alone d).0 s.before;
    after = Chain-with_value h i w y post null (alone d).1 s.after;
    spare = Chain-with_value h i w z fs null (alone d).2 s.spare;
    middle = with_value_self h i w n p v s.middle;
  }
