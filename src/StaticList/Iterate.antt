-- ===== src/StaticList/Iterate.antt =====
-- Iterators over a valid list: what they read and where they go.
use baremetal_cxx_coro.Common.{
  ℕ, ◌≡◌, refl, ◌∙◌, ap, true, false, none, some, [], ◌∷◌, ◌++◌, arith, ◌==◌,
}
use baremetal_cxx_coro.StaticList.{
  Ptr, null, StaticList, begin, empty, increment, increment_reverse, dereference, front, back,
  deref,
}
use baremetal_cxx_coro.StaticList.Chain.{node, Cells, head_or, last_or, last_or-append, Chain-split}
use baremetal_cxx_coro.StaticList.Validity.{IsValid, ne_null_of_mapped}
use baremetal_cxx_coro.StaticList.Runs.{deref-run}

module _ {T : Type 0} (n : ℕ) (l : StaticList T) (pre post fs : Cells T) (i : Ptr) (v : T)
    (valid : IsValid n l (pre ++ (i, v) ∷ post) fs) where
  pub node_at : l.buffer i ≡ some (node (head_or post null) (last_or pre null) v)
  node_at = (Chain-split l.buffer null pre ((i, v) ∷ post) null valid.live).1.0

  pub not_end : (i == null) ≡ false
  not_end = let ne = ne_null_of_mapped l.buffer i (valid.outside null refl) node_at in ground arith

  pub dereference-value : dereference i l ≡ some (v, l)
  unfolding dereference
  dereference-value = rw (deref-run l i node_at)

  pub increment-next : increment i l ≡ some (head_or post null, l)
  unfolding increment
  increment-next = rw (not_end, deref-run l i node_at)

  pub increment_reverse-prev : increment_reverse i l ≡ some (last_or pre null, l)
  unfolding increment_reverse
  increment_reverse-prev = rw (not_end, deref-run l i node_at)

module _ {T : Type 0} (n : ℕ) (l : StaticList T) where
  pub begin-head : (xs fs : Cells T) → IsValid n l xs fs → begin l ≡ head_or xs null
  unfolding begin
  begin-head xs fs valid = valid.first

  pub empty-true : (fs : Cells T) → IsValid n l [] fs → empty l ≡ true
  unfolding empty
  empty-true fs valid = rw valid.first

  pub empty-false :
      (a : Ptr) (v : T) (xs fs : Cells T) → IsValid n l ((a, v) ∷ xs) fs → empty l ≡ false
  unfolding empty
  empty-false a v xs fs valid = rw valid.first (not_end n l [] xs fs a v valid)

  -- `front` and `back` are the first and the last value; on an empty list both fault.
  pub front-value :
      (a : Ptr) (v : T) (xs fs : Cells T) → IsValid n l ((a, v) ∷ xs) fs → front l ≡ some (v, l)
  unfolding front
  front-value a v xs fs valid =
      rw (deref-run l l.first (ap l.buffer valid.first ∙ node_at n l [] xs fs a v valid))

  pub back-value :
      (a : Ptr) (v : T) (xs fs : Cells T)
      → IsValid n l (xs ++ (a, v) ∷ []) fs
      → back l ≡ some (v, l)
  unfolding back
  back-value a v xs fs valid =
      let at = valid.last ∙ last_or-append xs ((a, v) ∷ []) null in
      rw (deref-run l l.last (ap l.buffer at ∙ node_at n l xs [] fs a v valid))

  pub front_back-empty : (fs : Cells T) → IsValid n l [] fs → (front l ≡ none) × (back l ≡ none)
  unfolding front back deref
  front_back-empty fs valid =
      let z : l.buffer null ≡ none = valid.outside null refl in
      (rw (valid.first, z), rw (valid.last, z))

-- `*begin()` reads what `front` reads.
pub dereference-begin : {T : Type 0} (l : StaticList T) → dereference (begin l) l ≡ front l
unfolding dereference begin front
dereference-begin l = refl
