-- ===== src/StaticList/Validity.antt =====
-- The invariant of `static_list`: the nodes in use and the free ones are two disjoint chains that
-- together are the whole array.
use baremetal_cxx_coro.Common.{
  ℕ, ◌+◌, ◌≤◌, ◌≡◌, refl, ◌≢◌, ◌⊎◌, inl, inr, none, some, List, [], ◌∷◌, arith, ◌==◌, leb,
  if◌then◌else◌, length, map,
}
use baremetal_cxx_coro.StaticList.{Ptr, null, Node, Buffer, StaticList}
use baremetal_cxx_coro.StaticList.Chain.{Cells, count, head_or, last_or, Chain, count-head}
use baremetal_cxx_coro.StaticList.Writes.{count-last}

-- 1 at the addresses of the array's n nodes, 0 elsewhere.
abbrev pub in_array : ℕ → Ptr → ℕ
in_array n a = if a == null then 0 else if leb a n then 1 else 0

-- The list `l` of n nodes has the nodes `xs` in use, in this order, and the nodes `fs` free.
pub record IsValid {T : Type 0} (n : ℕ) (l : StaticList T) (xs fs : Cells T) : Type 0 where
  pub live : Chain l.buffer null xs null
  pub spare : Chain l.buffer null fs null
  pub first : l.first ≡ head_or xs null
  pub last : l.last ≡ last_or xs null
  pub free : l.free ≡ head_or fs null
  pub account : (a : Ptr) → count a xs + count a fs ≡ in_array n a
  pub size : length xs + length fs ≡ n
  pub outside : (a : Ptr) → in_array n a ≡ 0 → l.buffer a ≡ none

-- What the list holds, as a list, with some addresses.
pub record Holds {T : Type 0} (n : ℕ) (l : StaticList T) (vs : List T) : Type 0 where
  pub cells : Cells T
  pub spares : Cells T
  pub valid : IsValid n l cells spares
  pub values : map (λ (c : Ptr × T). c.1) cells ≡ vs

-- A pointer is null, and then no node is there, or it is the address of a node.
abbrev pub Points : {T : Type 0} → Buffer T → Ptr → Type 0
Points {T} h p = ((p ≡ null) × (h p ≡ none)) ⊎ ((p ≢ null) × ((m : Node T) × (h p ≡ some m)))

module _ {T : Type 0} where
  pub ne_null_of_mapped :
      (h : Buffer T) (p : Ptr) {m : Node T} → h null ≡ none → h p ≡ some m → p ≢ null
  ne_null_of_mapped h p z e = λ q. ground arith

  pub Points-mapped :
      (h : Buffer T) (p : Ptr) {m : Node T} → h null ≡ none → h p ≡ some m → Points h p
  Points-mapped h p {m} z e = inr (ne_null_of_mapped h p z e, (m, e))

  pub Points-head :
      (h : Buffer T) (start : Ptr) (xs : Cells T) (stop : Ptr)
      → h null ≡ none
      → Chain h start xs stop
      → Points h (head_or xs null)
  Points-head h start [] stop z c = inl (refl, z)
  Points-head h start ((a, v) ∷ xs) stop z c = Points-mapped h a z c.0

  pub Points-last :
      (h : Buffer T) (start : Ptr) (xs : Cells T) (stop : Ptr)
      → h null ≡ none
      → Chain h start xs stop
      → Points h (last_or xs null)
  Points-last h start [] stop z c = inl (refl, z)
  Points-last h start ((a, v) ∷ []) stop z c = Points-mapped h a z c.0
  Points-last h start ((a, v) ∷ (b, w) ∷ xs) stop z c = Points-last h a ((b, w) ∷ xs) stop z c.1

  -- The end of a run stands in no run that is disjoint from it.
  pub last_or-apart :
      (xs ys : Cells T)
      → ((a : Ptr) → count a xs + count a ys ≤ 1)
      → count null ys ≡ 0
      → count (last_or xs null) ys ≡ 0
  last_or-apart [] ys h z = z
  last_or-apart ((a, v) ∷ xs) ys h z = omega (arith, count-last a v xs, h (last_or xs a))

  pub head_or-apart :
      (xs ys : Cells T)
      → ((a : Ptr) → count a xs + count a ys ≤ 1)
      → count null ys ≡ 0
      → count (head_or xs null) ys ≡ 0
  head_or-apart [] ys h z = z
  head_or-apart ((a, v) ∷ xs) ys h z = omega (arith, count-head a v xs, h a)

  -- A node is not the end of a run in which it does not stand.
  pub ne-last_or : (i : Ptr) (xs : Cells T) → i ≢ null → count i xs ≡ 0 → i ≢ last_or xs null
  ne-last_or i [] ne out = ne
  ne-last_or i ((a, v) ∷ xs) ne out = λ e. ground (arith, count-last a v xs)

  pub ne-head_or : (i : Ptr) (xs : Cells T) → i ≢ null → count i xs ≡ 0 → i ≢ head_or xs null
  ne-head_or i [] ne out = ne
  ne-head_or i ((a, v) ∷ xs) ne out = λ e. ground (arith, count-head a v xs)

pub in_array-le : (n : ℕ) (a : Ptr) → in_array n a ≤ 1
in_array-le n a = ground arith

module _ {T : Type 0} where
  -- The two branches of `if (p) … else …` at an end of a run.
  pub pick_first :
      (pre : Cells T) (e first d : Ptr)
      → count null pre ≡ 0
      → first ≡ head_or pre d
      → (if last_or pre null == null then e else first) ≡ head_or pre e
  pick_first [] e first d z h = refl
  pick_first ((a, v) ∷ pre) e first d z h = ground (arith, count-last a v pre)

  pub pick_last :
      (post : Cells T) (e last d : Ptr)
      → count null post ≡ 0
      → last ≡ last_or post d
      → (if head_or post null == null then e else last) ≡ last_or post e
  pick_last [] e last d z h = refl
  pick_last ((a, v) ∷ post) e last d z h = ground (arith, count-head a v post)

  pub fill_first :
      (xs : Cells T) (e first : Ptr)
      → count null xs ≡ 0
      → first ≡ head_or xs null
      → (if first == null then e else first) ≡ head_or xs e
  fill_first [] e first z h = rw h
  fill_first ((a, v) ∷ xs) e first z h = ground (arith, count-head a v xs)
