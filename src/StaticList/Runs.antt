-- ===== src/StaticList/Runs.antt =====
-- The commands on single members, run where their pointers are null or point to nodes.
use baremetal_cxx_coro.Common.{◌≡◌, inl, inr, some, arith, ◌==◌, if◌then◌else◌}
use baremetal_cxx_coro.StaticList.{
  Ptr, null, Node, StaticList, with_next, with_prev, with_value, deref, set_next, set_prev,
  set_value, set_first, set_last, unless_null,
}
use baremetal_cxx_coro.StaticList.Validity.{Points}
use baremetal_cxx_coro.StaticList.Writes.{with_next-unmapped, with_prev-unmapped}

pub deref-run :
    {T : Type 0} (l : StaticList T) (p : Ptr) {m : Node T}
    → l.buffer p ≡ some m
    → deref p l ≡ some (m, l)
unfolding deref
deref-run l p e = ground arith

module _ {T : Type 0} (l : StaticList T) (p q : Ptr) where
  module _ {m : Node T} (e : l.buffer p ≡ some m) where
    pub set_next-run : set_next p q l ≡ some (tt, record l { buffer = with_next l.buffer p q })
    unfolding set_next
    set_next-run = rw (deref-run l p e)

    pub set_prev-run : set_prev p q l ≡ some (tt, record l { buffer = with_prev l.buffer p q })
    unfolding set_prev
    set_prev-run = rw (deref-run l p e)

    pub set_value-run :
        (v : T) → set_value p v l ≡ some (tt, record l { buffer = with_value l.buffer p v })
    unfolding set_value
    set_value-run v = rw (deref-run l p e)

  -- `if (p) p->next = q`
  pub unless_null-set_next-run :
      Points l.buffer p
      → unless_null p (set_next p q) l ≡ some (tt, record l { buffer = with_next l.buffer p q })
  unless_null-set_next-run = elim [
    | inl (z, e) ↦ rw (with_next-unmapped l.buffer p q e, z)
    | inr (ne, (m, e)) ↦ ground (arith, set_next-run e)
  ]

  pub unless_null-set_prev-run :
      Points l.buffer p
      → unless_null p (set_prev p q) l ≡ some (tt, record l { buffer = with_prev l.buffer p q })
  unless_null-set_prev-run = elim [
    | inl (z, e) ↦ rw (with_prev-unmapped l.buffer p q e, z)
    | inr (ne, (m, e)) ↦ ground (arith, set_prev-run e)
  ]

  -- `if (p) p->next = q; else first_ = q;`
  pub set_first-set_next-run :
      Points l.buffer p
      → (if p == null then set_first q else set_next p q) l
        ≡ some (
          tt,
          record l { buffer = with_next l.buffer p q; first = if p == null then q else l.first },
        )
  set_first-set_next-run = elim [
    | inl (z, e) ↦ rw (with_next-unmapped l.buffer p q e, z)
    | inr (ne, (m, e)) ↦ ground (arith, set_next-run e)
  ]

  pub set_last-set_prev-run :
      Points l.buffer p
      → (if p == null then set_last q else set_prev p q) l
        ≡ some (
          tt,
          record l { buffer = with_prev l.buffer p q; last = if p == null then q else l.last },
        )
  set_last-set_prev-run = elim [
    | inl (z, e) ↦ rw (with_prev-unmapped l.buffer p q e, z)
    | inr (ne, (m, e)) ↦ ground (arith, set_prev-run e)
  ]
