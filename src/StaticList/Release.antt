-- ===== src/StaticList/Release.antt =====
-- `get_free_elem` and `return_free_elem`, run from a state where their pointers are in order.
use baremetal_cxx_coro.Common.{◌≡◌, refl, inl, inr, some, arith, ◌==◌, Bool-cases}
use baremetal_cxx_coro.StaticList.{
  Ptr, null, Node, Buffer, StaticList, with_next, with_prev, return_free_elem,
}
use baremetal_cxx_coro.StaticList.Validity.{Points}
use baremetal_cxx_coro.StaticList.Runs.{set_next-run, set_prev-run, unless_null-set_prev-run}

abbrev pub Mapped : {T : Type 0} → Buffer T → Ptr → Type 0
Mapped {T} h p = (m : Node T) × (h p ≡ some m)

module _ {T : Type 0} (h : Buffer T) (p q : Ptr) where
  pub Mapped-with_next : (i : Ptr) → Mapped h i → Mapped (with_next h p q) i
  unfolding with_next
  Mapped-with_next i (m, e) = elim (Bool-cases (i == p)) [
    | inl same ↦ (record m { next = q }, rw (same, e))
    | inr other ↦ (m, rw (other, e))
  ]

  pub Mapped-with_prev : (i : Ptr) → Mapped h i → Mapped (with_prev h p q) i
  unfolding with_prev
  Mapped-with_prev i (m, e) = elim (Bool-cases (i == p)) [
    | inl same ↦ (record m { prev = q }, rw (same, e))
    | inr other ↦ (m, rw (other, e))
  ]

  pub Points-with_next : (i : Ptr) → Points h i → Points (with_next h p q) i
  unfolding with_next
  Points-with_next i = elim [
    | inl (z, e) ↦ inl (z, ground arith)
    | inr (ne, m) ↦ inr (ne, Mapped-with_next i m)
  ]

  pub Points-with_prev : (i : Ptr) → Points h i → Points (with_prev h p q) i
  unfolding with_prev
  Points-with_prev i = elim [
    | inl (z, e) ↦ inl (z, ground arith)
    | inr (ne, m) ↦ inr (ne, Mapped-with_prev i m)
  ]

module _ {T : Type 0} where
  -- The buffer after `return_free_elem`.
  abbrev pub released : Buffer T → Ptr → Ptr → Buffer T
  released h i f = with_prev (with_next (with_prev h i null) i f) f i

  pub return_free_elem-run :
      (l : StaticList T) (i : Ptr)
      → Mapped l.buffer i
      → Points l.buffer l.free
      → return_free_elem i l ≡ some (tt, record l { buffer = released l.buffer i l.free; free = i })
  unfolding return_free_elem
  return_free_elem-run l i m f =
      let m' = Mapped-with_prev l.buffer i null i m in
      let f' = Points-with_next _ i l.free l.free (Points-with_prev l.buffer i null l.free f) in
      rw
        (
          set_prev-run l i null m.1,
          set_next-run (record l { buffer = with_prev l.buffer i null }) i l.free m'.1,
          unless_null-set_prev-run
              (record l { buffer = with_next (with_prev l.buffer i null) i l.free }) l.free i f',
        )
        refl
