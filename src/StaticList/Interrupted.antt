-- ===== src/StaticList/Interrupted.antt =====
-- `pop_front` of include/coro/static_list.hpp with an interrupt behind its read of `next`, whose
-- handler inserts into the same list, as that of src/example_irq.cpp does.
use mathlib.Core.List.{map-append}
use baremetal_cxx_coro.Common.{
  ℕ, ◌+◌, ◌<◌, ◌≡◌, refl, ◌∙◌, ap, ◌≢◌, true, false, none, some, List, [], ◌∷◌, ◌++◌, map, arith,
  ◌==◌, if◌then◌else◌, length, length-map,
}
use baremetal_cxx_coro.StaticList.{
  Ptr, null, StaticList, Cmd, pure, ◌>>=◌, ◌>>◌, deref, set_prev, set_first, set_last, unless_null,
  return_free_elem, pop_front, emplace_back, empty,
}
use baremetal_cxx_coro.StaticList.Chain.{Cells, node, head_or, count, count-head}
use baremetal_cxx_coro.StaticList.Validity.{
  IsValid, Holds, in_array-le, Points, ne_null_of_mapped, Points-head,
}
use baremetal_cxx_coro.StaticList.Runs.{deref-run}
use baremetal_cxx_coro.StaticList.Release.{return_free_elem-run, released}
use baremetal_cxx_coro.StaticList.Emplace.{emplace_back-IsValid}
use baremetal_cxx_coro.StaticList.Contents.{pop_front-Holds}

module _ {T : Type 0} where
  -- What `pop_front` does once it has read `next`.
  pub pop_front_rest : Ptr → Cmd T (Unit {0})
  pop_front_rest next l =
      (do
        unless_null next (set_prev next null)
        return_free_elem l.first
        (if l.first == l.last then set_last next else pure tt)
        set_first next)
        l

  -- `pop_front`, with what the handler does to the list.
  pub pop_front_interrupted : Cmd T (Unit {0}) → Cmd T (Unit {0})
  pop_front_interrupted isr l =
      (if l.first == null then pure tt else do n ← deref l.first; isr; pop_front_rest n.next) l

  -- Without an interrupt this is `pop_front`.
  pop_front_interrupted-pure : (l : StaticList T) → pop_front_interrupted (pure tt) l ≡ pop_front l
  unfolding pop_front_interrupted pop_front_rest pop_front deref
  pop_front_interrupted-pure l = ground arith

  -- The handler's insertion, as `pop_front_interrupted` runs it.
  interrupted-run :
      (l l₁ : StaticList T) (b p : Ptr) (a v : T)
      → l.first ≢ null
      → l.buffer l.first ≡ some (node b p a)
      → emplace_back v l ≡ some (tt, l₁)
      → pop_front_interrupted (emplace_back v) l ≡ pop_front_rest b l₁
  unfolding pop_front_interrupted
  interrupted-run l l₁ b p a v ne e run =
      let there : (l.first == null) ≡ false = ground arith in
      rw (there, deref-run l l.first e, run) refl

  rest-pop_front :
      (l : StaticList T) (b p : Ptr) (a : T)
      → l.first ≢ null
      → l.buffer l.first ≡ some (node b p a)
      → pop_front_rest b l ≡ pop_front l
  unfolding pop_front_rest pop_front
  rest-pop_front l b p a ne e =
      let there : (l.first == null) ≡ false = ground arith in rw (there, deref-run l l.first e) refl

  -- The first node of a valid list.
  first-node :
      (n : ℕ) (l : StaticList T) (i : Ptr) (a : T) (xs fs : Cells T)
      → IsValid n l ((i, a) ∷ xs) fs
      → (l.first ≢ null) × (l.buffer l.first ≡ some (node (head_or xs null) null a))
  first-node n l i a xs fs valid =
      let e : l.buffer l.first ≡ some (node (head_or xs null) null a) =
        ap l.buffer valid.first ∙ valid.live.0 in
      (ne_null_of_mapped l.buffer l.first (valid.outside null refl) e, e)

  -- With `next` null the rest empties the list, although a second node stands in it.
  rest-empties :
      (n : ℕ) (l : StaticList T) (i k : Ptr) (a v : T) (fs : Cells T)
      → IsValid n l ((i, a) ∷ (k, v) ∷ []) fs
      → (l' : StaticList T) × (pop_front_rest null l ≡ some (tt, l')) × (empty l' ≡ true)
  unfolding pop_front_rest empty
  rest-empties n l i k a v fs valid =
      let z : l.buffer null ≡ none = valid.outside null refl in
      let (ne, e) = first-node n l i a ((k, v) ∷ []) fs valid in
      let pf : Points l.buffer l.free =
        rw valid.free (Points-head l.buffer null fs null z valid.spare) in
      let once : count i ((k, v) ∷ []) ≡ 0 =
        omega (arith, valid.account i, in_array-le n i, count-head i a ((k, v) ∷ [])) in
      let differ : (i == k) ≡ false = ground arith in
      let two : (l.first == l.last) ≡ false = rw (valid.first, valid.last) differ in
      (
        record l { buffer = released l.buffer l.first l.free; free = l.first; first = null },
        rw (return_free_elem-run l l.first (node k null a, e) pf, two) refl,
        refl,
      )

  -- On a valid list of more than one node that holds one value, if an interrupt that appends a
  -- value comes when `pop_front` has read `next`, then `pop_front` ends and the list is empty: the
  -- value is lost.
  pub interrupted-loses :
      (n : ℕ) (l : StaticList T) (a v : T)
      → Holds n l (a ∷ [])
      → 1 < n
      → (l' : StaticList T) × (pop_front_interrupted (emplace_back v) l ≡ some (tt, l'))
        × (empty l' ≡ true)
  interrupted-loses n l a v holds room = one holds.cells holds.spares holds.valid holds.values
    where
      one :
          (xs fs : Cells T)
          → IsValid n l xs fs
          → map (λ c. c.1) xs ≡ a ∷ []
          → (l' : StaticList T) × (pop_front_interrupted (emplace_back v) l ≡ some (tt, l'))
            × (empty l' ≡ true)
      one [] fs valid e = absurd cc
      one (x ∷ y ∷ xs) fs valid e = absurd cc
      one (x ∷ []) [] valid e = absurd (omega (arith, valid.size))
      one ((i, w) ∷ []) ((k, g) ∷ fs) valid e =
          let (l₁, run, is) = emplace_back-IsValid n l ((i, w) ∷ []) fs k g v valid in
          let (ne, at) = first-node n l i w [] ((k, g) ∷ fs) valid in
          let (l', rest, gone) = rest-empties n l₁ i k w v fs is in
          (l', interrupted-run l l₁ null null w v ne at run ∙ rest, gone)

  -- On a valid list with a free node that holds two values or more, if an interrupt that appends a
  -- value comes when `pop_front` has read `next`, then `pop_front` ends, and the list is valid and
  -- holds the values but the first, with the new one behind them.
  pub interrupted-Holds :
      (n : ℕ) (l : StaticList T) (a b v : T) (vs : List T)
      → Holds n l (a ∷ b ∷ vs)
      → 2 + length vs < n
      → (l' : StaticList T) × (pop_front_interrupted (emplace_back v) l ≡ some (tt, l'))
        × Holds n l' (b ∷ vs ++ v ∷ [])
  interrupted-Holds n l a b v vs holds room = many holds.cells holds.spares holds.valid holds.values
    where
      many :
          (xs fs : Cells T)
          → IsValid n l xs fs
          → map (λ c. c.1) xs ≡ a ∷ b ∷ vs
          → (l' : StaticList T) × (pop_front_interrupted (emplace_back v) l ≡ some (tt, l'))
            × Holds n l' (b ∷ vs ++ v ∷ [])
      many [] fs valid e = absurd cc
      many (x ∷ []) fs valid e = absurd cc
      many ((i, w) ∷ (j, u) ∷ xs) [] valid e =
          absurd (omega (arith, valid.size, length-map xs (λ c. c.1), ap length e))
      many ((i, w) ∷ (j, u) ∷ xs) ((k, g) ∷ fs) valid e =
          let cells = (i, w) ∷ (j, u) ∷ xs in
          let (l₁, run, is) = emplace_back-IsValid n l cells fs k g v valid in
          let (ne, at) = first-node n l i w ((j, u) ∷ xs) ((k, g) ∷ fs) valid in
          let (ne₁, at₁) = first-node n l₁ i w ((j, u) ∷ xs ++ (k, v) ∷ []) fs is in
          let values : map (λ c. c.1) (cells ++ (k, v) ∷ []) ≡ a ∷ b ∷ vs ++ v ∷ [] =
            map-append (λ c. c.1) cells ((k, v) ∷ []) ∙ ap (λ t. t ++ v ∷ []) e in
          let (l', _, popped, holds') =
            pop_front-Holds n l₁ a (b ∷ vs ++ v ∷ [])
              (record { cells = cells ++ (k, v) ∷ []; spares = fs; valid = is; values = values }) in
          (
            l',
            interrupted-run l l₁ j null w v ne at run ∙ rest-pop_front l₁ j null w ne₁ at₁ ∙ popped,
            holds',
          )
