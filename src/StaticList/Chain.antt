-- ===== src/StaticList/Chain.antt =====
-- What a doubly linked run of nodes stands for, and how writes to members of nodes change it.
use baremetal_cxx_coro.Common.{
  ℕ, suc, ◌+◌, ◌≤◌, ◌<◌, ◌≡◌, refl, ◌∙◌, some, List, [], ◌∷◌, ◌++◌, arith, ◌==◌, if◌then◌else◌,
}
use baremetal_cxx_coro.StaticList.{Ptr, Node, Buffer}

abbrev pub node : {T : Type 0} → Ptr → Ptr → T → Node T
node n p v = record { next = n; prev = p; value = v }

-- The address and the value of each node, in order.
abbrev pub Cells : Type 0 → Type 0
Cells T = List (Ptr × T)

module _ {T : Type 0} where
  -- How often a node stands in the run.
  abbrev pub count : Ptr → Cells T → ℕ
  count a [] = 0
  count a ((b, v) ∷ xs) = (if a == b then 1 else 0) + count a xs

  -- The address of the first node, or else `stop`.
  abbrev pub head_or : Cells T → Ptr → Ptr
  head_or [] stop = stop
  head_or ((a, v) ∷ xs) stop = a

  -- The address of the last node, or else `start`.
  abbrev pub last_or : Cells T → Ptr → Ptr
  last_or [] start = start
  last_or ((a, v) ∷ xs) start = last_or xs a

  -- The nodes of the run point to one another, the first one back to `start` and the last one
  -- on to `stop`.
  abbrev pub Chain : Buffer T → Ptr → Cells T → Ptr → Type 0
  Chain h start [] stop = Unit
  Chain h start ((a, v) ∷ xs) stop =
      (h a ≡ some (node (head_or xs stop) start v)) × Chain h a xs stop

  -- No node stands in the run twice.
  abbrev pub Distinct : Cells T → Type 0
  Distinct [] = Unit
  Distinct ((a, v) ∷ xs) = (count a xs ≡ 0) × Distinct xs

  pub count-append : (a : Ptr) (xs ys : Cells T) → count a (xs ++ ys) ≡ count a xs + count a ys
  count-append a [] ys = omega arith
  count-append a ((b, v) ∷ xs) ys = omega (arith, count-append a xs ys)

  pub count-head : (a : Ptr) (v : T) (xs : Cells T) → count a ((a, v) ∷ xs) ≡ suc (count a xs)
  count-head a v xs = ground arith

  pub Distinct-of_count : (xs : Cells T) → ((a : Ptr) → count a xs ≤ 1) → Distinct xs
  Distinct-of_count [] h = tt
  Distinct-of_count ((a, v) ∷ xs) h =
      (omega (arith, count-head a v xs, h a), Distinct-of_count xs (λ b. omega (arith, h b)))

  pub head_or-append :
      (xs ys : Cells T) (stop : Ptr) → head_or (xs ++ ys) stop ≡ head_or xs (head_or ys stop)
  head_or-append [] ys stop = refl
  head_or-append ((a, v) ∷ xs) ys stop = refl

  pub last_or-append :
      (xs ys : Cells T) (start : Ptr) → last_or (xs ++ ys) start ≡ last_or ys (last_or xs start)
  last_or-append [] ys start = refl
  last_or-append ((a, v) ∷ xs) ys start = last_or-append xs ys a

  -- The two halves of a run.
  pub Chain-append :
      (h : Buffer T) (start : Ptr) (xs ys : Cells T) (stop : Ptr)
      → Chain h start xs (head_or ys stop)
      → Chain h (last_or xs start) ys stop
      → Chain h start (xs ++ ys) stop
  Chain-append h start [] ys stop p q = q
  Chain-append h start ((a, v) ∷ xs) ys stop p q =
      (rw head_or-append p.0, Chain-append h a xs ys stop p.1 q)

  pub Chain-split :
      (h : Buffer T) (start : Ptr) (xs ys : Cells T) (stop : Ptr)
      → Chain h start (xs ++ ys) stop
      → Chain h start xs (head_or ys stop) × Chain h (last_or xs start) ys stop
  Chain-split h start [] ys stop p = (tt, p)
  Chain-split h start ((a, v) ∷ xs) ys stop p =
      let r = Chain-split h a xs ys stop p.1 in ((rw head_or-append at p.0, r.0), r.1)

  -- A run depends on its own nodes only.
  pub Chain-frame :
      (h g : Buffer T) (start : Ptr) (xs : Cells T) (stop : Ptr)
      → ((a : Ptr) → 0 < count a xs → g a ≡ h a)
      → Chain h start xs stop
      → Chain g start xs stop
  Chain-frame h g start [] stop same p = tt
  Chain-frame h g start ((a, v) ∷ xs) stop same p = (
    same a (omega (arith, count-head a v xs)) ∙ p.0,
    Chain-frame h g a xs stop (λ b i. same b (omega arith)) p.1,
  )
