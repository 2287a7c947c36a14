-- ===== src/StaticList/Construct.antt =====
-- The constructor of `static_list` links all nodes of the array into the free list.
use mathlib.Core.List.{append_assoc, append-nil}
use baremetal_cxx_coro.Common.{
  ℕ, zero, suc, ◌+◌, ◌≤◌, ◌<◌, ◌≡◌, refl, sym, ◌∙◌, ◌≢◌, ap, none, some, [], ◌∷◌, ◌++◌, arith, leb,
  if◌then◌else◌, length,
}
use baremetal_cxx_coro.StaticList.{
  Ptr, null, Node, Buffer, StaticList, with_next, with_prev, link_nodes, uninitialised, construct,
  set_next, deref,
}
use baremetal_cxx_coro.StaticList.Chain.{
  node, Cells, count, last_or, Chain, count-append, last_or-append, Chain-append, Distinct-of_count,
}
use baremetal_cxx_coro.StaticList.Writes.{
  with_next-ne, with_prev-ne, with_prev_self, with_next-mapped, with_prev-mapped, Chain-with_prev,
  Chain-relink_next,
}
use baremetal_cxx_coro.StaticList.Validity.{IsValid, Points, Points-last, ne-last_or}
use baremetal_cxx_coro.StaticList.Runs.{set_next-run, set_prev-run, unless_null-set_next-run}
use baremetal_cxx_coro.StaticList.Release.{Mapped, Points-with_prev}

Mapped-last :
    {T : Type 0} (h : Buffer T) (start a : Ptr) (v : T) (xs : Cells T) (stop : Ptr)
    → Chain h start ((a, v) ∷ xs) stop
    → Mapped h (last_or xs a)
Mapped-last h start a v [] stop c = (_, c.0)
Mapped-last h start a v ((b, w) ∷ xs) stop c = Mapped-last h a b w xs stop c.1

module _ {T : Type 0} (raw : ℕ → Node T) where
  -- The nodes at `k` addresses from `i` on, with what their values happen to be.
  abbrev pub cells_from : Ptr → ℕ → Cells T
  cells_from i zero = []
  cells_from i (suc k) = (i, (raw i).value) ∷ cells_from (i + 1) k

  pub length-cells_from : (i : Ptr) (k : ℕ) → length (cells_from i k) ≡ k
  length-cells_from i zero = refl
  length-cells_from i (suc k) = ap suc (length-cells_from (i + 1) k)

  count-cells_from :
      (a i : Ptr) (k : ℕ)
      → count a (cells_from i k) ≡ (if leb i a then (if leb (i + k) a then 0 else 1) else 0)
  count-cells_from a i zero = ground arith
  count-cells_from a i (suc k) = ground (arith, count-cells_from a (i + 1) k)

  -- The loop stands at the node `i` with `k` rounds left; `xs` is linked, but for the pointer of
  -- its last node to the next.
  record Linked (i : Ptr) (k : ℕ) (xs : Cells T) (h : Buffer T) : Type 0 where
    stop : Ptr
    chain : Chain h null xs stop
    behind : (a : Ptr) → i ≤ a → count a xs ≡ 0
    distinct : (a : Ptr) → count a xs ≤ 1
    ahead : (a : Ptr) → i ≤ a → a < i + k → h a ≡ some (raw a)
    null_free : h null ≡ none
    start : 0 < i

  -- The buffer after one round.
  abbrev linked : Buffer T → Ptr → Ptr → Buffer T
  linked h i p = with_next (with_prev h i p) p i

  Linked-suc :
      (i : Ptr) (k : ℕ) (xs : Cells T) (h : Buffer T)
      → Linked i (suc k) xs h
      → Linked (i + 1) k (xs ++ (i, (raw i).value) ∷ []) (linked h i (last_or xs null))
  Linked-suc i k xs h s =
      let p = last_or xs null in
      let v = (raw i).value in
      let i_ne : i ≢ null = λ e. ground (arith, s.start) in
      let out = s.behind i (omega arith) in
      let at_i : linked h i p i ≡ some (node (raw i).next p v) =
        with_next-ne (with_prev h i p) p i i (ne-last_or i xs i_ne out)
        ∙ with_prev_self h i p (raw i).next (raw i).prev v
            (s.ahead i (omega arith) (omega arith)) in
      record {
        stop = (raw i).next;
        chain =
            Chain-append (linked h i p) null xs ((i, v) ∷ []) (raw i).next
              (Chain-relink_next (with_prev h i p) null null xs s.stop i
                (Distinct-of_count xs s.distinct)
                (Chain-with_prev h i p null xs s.stop out s.chain))
              (at_i, tt);
        behind = λ a le. ground (arith, count-append a xs ((i, v) ∷ []), s.behind a (omega arith));
        distinct = λ a. ground (arith, count-append a xs ((i, v) ∷ []), s.distinct a, out);
        ahead = λ a le lt.
            with_next-ne (with_prev h i p) p i a
              (ne-last_or a xs (λ e. ground arith) (s.behind a (omega arith)))
            ∙ with_prev-ne h i p a (λ e. ground arith)
            ∙ s.ahead a (omega arith) (omega arith);
        null_free = with_next-mapped _ _ _ null (with_prev-mapped _ _ _ null s.null_free);
        start = omega arith;
      }

  -- What the loop leaves: it changes the buffer only, and only where a node is.
  record Loop (k : ℕ) (i p j : Ptr) (ys : Cells T) (l : StaticList T) : Type 0 where
    buffer : Buffer T
    run : link_nodes k i p l ≡ some (last_or ys null, record l { buffer = buffer })
    done : Linked j 0 ys buffer
    unmapped : (a : Ptr) → l.buffer a ≡ none → buffer a ≡ none

  link_nodes-suc :
      (k : ℕ) (i p j : Ptr) (ys : Cells T) (l : StaticList T)
      → Points l.buffer p
      → l.buffer i ≡ some (raw i)
      → Loop k (i + 1) i j ys (record l { buffer = linked l.buffer i p })
      → Loop (suc k) i p j ys l
  unfolding link_nodes
  link_nodes-suc k i p j ys l pp at rest = record {
    buffer = rest.buffer;
    run =
        rw
          (
            set_prev-run l i p at,
            unless_null-set_next-run (record l { buffer = with_prev l.buffer i p }) p i
                (Points-with_prev l.buffer i p p pp),
          )
          rest.run;
    done = rest.done;
    unmapped = λ a e. rest.unmapped a (with_next-mapped _ _ _ a (with_prev-mapped _ _ _ a e));
  }

  link_nodes-Loop :
      (k : ℕ) (i j : Ptr) (xs ys : Cells T) (l : StaticList T)
      → ys ≡ xs ++ cells_from i k
      → j ≡ i + k
      → Linked i k xs l.buffer
      → Loop k i (last_or xs null) j ys l
  unfolding link_nodes
  link_nodes-Loop zero i j xs ys l e at s =
      let same : j ≡ i = omega arith in
      rw (e ∙ append-nil xs, same)
        (record { buffer = l.buffer; run = refl; done = s; unmapped = λ a h. h })
  link_nodes-Loop (suc k) i j xs ys l e at s =
      let p = last_or xs null in
      let v = (raw i).value in
      let l₁ : StaticList T = record l { buffer = linked l.buffer i p } in
      let rest =
        link_nodes-Loop k (i + 1) j (xs ++ (i, v) ∷ []) ys l₁
          (e ∙ sym (append_assoc xs ((i, v) ∷ []) (cells_from (i + 1) k))) (omega arith)
          (Linked-suc i k xs l.buffer s) in
      link_nodes-suc k i p j ys l (Points-last l.buffer null xs s.stop s.null_free s.chain)
        (s.ahead i (omega arith) (omega arith)) (rw (last_or-append xs ((i, v) ∷ []) null) at rest)

  uninitialised-Linked : (n : ℕ) → Linked 1 n [] (uninitialised raw n).buffer
  unfolding uninitialised
  uninitialised-Linked n = record {
    stop = null;
    chain = tt;
    behind = λ a le. refl;
    distinct = λ a. omega arith;
    ahead = λ a le lt. ground arith;
    null_free = refl;
    start = omega arith;
  }

  -- Whatever the array holds, a list of at least one node is built empty, with all nodes free.
  pub construct-IsValid :
      (m : ℕ)
      → (l : StaticList T) × (construct raw (suc m) ≡ some l)
        × IsValid (suc m) l [] (cells_from 1 (suc m))
  unfolding construct uninitialised
  construct-IsValid m =
      let n = suc m in
      let ys = cells_from 1 n in
      let l₀ = uninitialised raw n in
      let loop = link_nodes-Loop n 1 (1 + n) [] ys l₀ refl refl (uninitialised-Linked n) in
      let at =
        Mapped-last loop.buffer null 1 (raw 1).value (cells_from 2 m) loop.done.stop
          loop.done.chain in
      let p = last_or ys null in
      let l₁ : StaticList T = record l₀ { buffer = loop.buffer } in
      let l₂ : StaticList T = record l₀ { buffer = with_next loop.buffer p null } in
      (
        l₂,
        rw (loop.run, set_next-run l₁ p null at.1) refl,
        record {
          live = tt;
          spare =
              Chain-relink_next loop.buffer null null ys loop.done.stop null
                (Distinct-of_count ys loop.done.distinct) loop.done.chain;
          first = refl;
          last = refl;
          free = refl;
          account = λ a. ground (arith, count-cells_from a 1 n);
          size = omega (arith, length-cells_from 1 n);
          outside = λ a o. with_next-mapped _ _ _ a (loop.unmapped a (ground arith));
        },
      )

  -- A list of no nodes faults: the loop has no last node whose pointer is cleared.
  pub construct-zero : construct raw 0 ≡ none
  unfolding construct link_nodes uninitialised set_next deref
  construct-zero = refl
