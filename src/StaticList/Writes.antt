-- ===== src/StaticList/Writes.antt =====
-- How a run of nodes changes when one member of one node is written.
use baremetal_cxx_coro.Common.{◌<◌, ◌≡◌, ◌∙◌, ◌≢◌, none, some, [], ◌∷◌, arith, fun_ext}
use baremetal_cxx_coro.StaticList.{Ptr, Buffer, with_next, with_prev, with_value}
use baremetal_cxx_coro.StaticList.Chain.{
  node, Cells, count, head_or, last_or, Chain, Distinct, count-head, Chain-frame,
}

module _ {T : Type 0} (h : Buffer T) (p q : Ptr) where
  pub with_next-ne : (a : Ptr) → a ≢ p → with_next h p q a ≡ h a
  unfolding with_next
  with_next-ne a ne = ground arith

  pub with_prev-ne : (a : Ptr) → a ≢ p → with_prev h p q a ≡ h a
  unfolding with_prev
  with_prev-ne a ne = ground arith

  pub with_next-unmapped : h p ≡ none → with_next h p q ≡ h
  unfolding with_next
  with_next-unmapped e = fun_ext λ a. ground arith

  pub with_prev-unmapped : h p ≡ none → with_prev h p q ≡ h
  unfolding with_prev
  with_prev-unmapped e = fun_ext λ a. ground arith

  pub with_next_self :
      (n r : Ptr) (v : T) → h p ≡ some (node n r v) → with_next h p q p ≡ some (node q r v)
  unfolding with_next
  with_next_self n r v e = ground arith

  pub with_prev_self :
      (n r : Ptr) (v : T) → h p ≡ some (node n r v) → with_prev h p q p ≡ some (node n q v)
  unfolding with_prev
  with_prev_self n r v e = ground arith

  pub with_next-mapped : (a : Ptr) → h a ≡ none → with_next h p q a ≡ none
  unfolding with_next
  with_next-mapped a e = ground arith

  pub with_prev-mapped : (a : Ptr) → h a ≡ none → with_prev h p q a ≡ none
  unfolding with_prev
  with_prev-mapped a e = ground arith

  -- A write outside the run leaves it as it is.
  pub Chain-with_next :
      (start : Ptr) (xs : Cells T) (stop : Ptr)
      → count p xs ≡ 0
      → Chain h start xs stop
      → Chain (with_next h p q) start xs stop
  Chain-with_next start xs stop out =
      Chain-frame h (with_next h p q) start xs stop (λ a i. with_next-ne a λ e. ground arith)

  pub Chain-with_prev :
      (start : Ptr) (xs : Cells T) (stop : Ptr)
      → count p xs ≡ 0
      → Chain h start xs stop
      → Chain (with_prev h p q) start xs stop
  Chain-with_prev start xs stop out =
      Chain-frame h (with_prev h p q) start xs stop (λ a i. with_prev-ne a λ e. ground arith)

module _ {T : Type 0} (h : Buffer T) (p : Ptr) (w : T) where
  pub with_value-ne : (a : Ptr) → a ≢ p → with_value h p w a ≡ h a
  unfolding with_value
  with_value-ne a ne = ground arith

  pub with_value_self :
      (n r : Ptr) (v : T) → h p ≡ some (node n r v) → with_value h p w p ≡ some (node n r w)
  unfolding with_value
  with_value_self n r v e = ground arith

  pub with_value-mapped : (a : Ptr) → h a ≡ none → with_value h p w a ≡ none
  unfolding with_value
  with_value-mapped a e = ground arith

  pub Chain-with_value :
      (start : Ptr) (xs : Cells T) (stop : Ptr)
      → count p xs ≡ 0
      → Chain h start xs stop
      → Chain (with_value h p w) start xs stop
  Chain-with_value start xs stop out =
      Chain-frame h (with_value h p w) start xs stop (λ a i. with_value-ne a λ e. ground arith)

module _ {T : Type 0} where
  pub count-last : (a : Ptr) (v : T) (xs : Cells T) → 0 < count (last_or xs a) ((a, v) ∷ xs)
  count-last a v [] = omega (arith, count-head a v [])
  count-last a v ((b, w) ∷ xs) = omega (arith, count-last b w xs)

  -- `next` of the last node is written.
  pub Chain-relink_next :
      (h : Buffer T) (d start : Ptr) (xs : Cells T) (stop q : Ptr)
      → Distinct xs
      → Chain h start xs stop
      → Chain (with_next h (last_or xs d) q) start xs q
  Chain-relink_next h d start [] stop q u c = tt
  Chain-relink_next h d start ((a, v) ∷ []) stop q u c = (with_next_self h a q _ _ v c.0, tt)
  Chain-relink_next h d start ((a, v) ∷ (b, w) ∷ xs) stop q u c = (
    with_next-ne h (last_or xs b) q a (λ e. ground (arith, count-last b w xs)) ∙ c.0,
    Chain-relink_next h a a ((b, w) ∷ xs) stop q u.1 c.1,
  )

  -- `prev` of the first node is written.
  pub Chain-relink_prev :
      (h : Buffer T) (d start : Ptr) (xs : Cells T) (stop q : Ptr)
      → Distinct xs
      → Chain h start xs stop
      → Chain (with_prev h (head_or xs d) q) q xs stop
  Chain-relink_prev h d start [] stop q u c = tt
  Chain-relink_prev h d start ((a, v) ∷ xs) stop q u c =
      (with_prev_self h a q _ _ v c.0, Chain-with_prev h a q a xs stop u.0 c.1)
