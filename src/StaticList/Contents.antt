-- ===== src/StaticList/Contents.antt =====
-- `static_list` as a bounded sequence: what each operation does to the values that it holds.
use mathlib.Core.List.{map-append, append-nil}
use baremetal_cxx_coro.Common.{
  ℕ, suc, ◌<◌, ◌≤◌, ◌≡◌, true, false, refl, sym, ◌∙◌, ap, subst, some, List, [], ◌∷◌, ◌++◌, map,
  arith, length, length-map, eq-nil,
}
use baremetal_cxx_coro.StaticList.{
  StaticList, null, emplace_back, pop_front, pop_back, front, back, construct, erase, empty, Node,
}
use baremetal_cxx_coro.StaticList.Chain.{Cells, last_or-append}
use baremetal_cxx_coro.StaticList.Values.{values, values-Split}
use baremetal_cxx_coro.StaticList.Validity.{IsValid, Holds}
use baremetal_cxx_coro.StaticList.Emplace.{emplace_back-IsValid, emplace-full, emplace-end}
use baremetal_cxx_coro.StaticList.Erase.{erase-IsValid}
use baremetal_cxx_coro.StaticList.Pop.{pop_front-erase, pop_back-erase}
use baremetal_cxx_coro.StaticList.Iterate.{front-value, back-value, empty-true, empty-false}
use baremetal_cxx_coro.StaticList.Construct.{construct-IsValid, cells_from}

-- The constructor of a list of at least one node succeeds, and the list is valid and holds nothing,
-- whatever the array held before.
pub construct-Holds :
    {T : Type 0} (raw : ℕ → Node T) (m : ℕ)
    → (l : StaticList T) × (construct raw (suc m) ≡ some l) × Holds (suc m) l []
construct-Holds raw m =
    let (l, run, is) = construct-IsValid raw m in
    (l, run, record { cells = []; spares = cells_from raw 1 (suc m); valid = is; values = refl })

module _ {T : Type 0} where
  -- On a valid list that is not full `emplace_back` succeeds, appends its value to those held, and
  -- leaves a valid list.
  pub emplace_back-Holds :
      (n : ℕ) (l : StaticList T) (vs : List T) (v : T)
      → Holds n l vs
      → length vs < n
      → (l' : StaticList T) × (emplace_back v l ≡ some (tt, l')) × Holds n l' (vs ++ v ∷ [])
  emplace_back-Holds n l vs v holds lt = room holds.spares refl
    where
      open holds use {cells, valid}

      size : length cells ≡ length vs
      size = sym (length-map cells (λ c. c.1)) ∙ ap length holds.values

      room :
          (fs : Cells T)
          → holds.spares ≡ fs
          → (l' : StaticList T) × (emplace_back v l ≡ some (tt, l')) × Holds n l' (vs ++ v ∷ [])
      room [] e = absurd (omega (arith, size, valid.size, ap length e))
      room ((b, g) ∷ fs) e =
          let (l', run, is) =
            emplace_back-IsValid n l cells fs b g v (subst (λ t. IsValid n l cells t) e valid) in
          (
            l',
            run,
            record {
              cells = cells ++ (b, v) ∷ [];
              spares = fs;
              valid = is;
              values =
                  map-append (λ c. c.1) cells ((b, v) ∷ []) ∙ ap (λ t. t ++ v ∷ []) holds.values;
            },
          )

-- On a valid list that is full `emplace_back` returns and leaves the list as it is: its value is
-- dropped.
pub emplace_back-full :
    {T : Type 0} (n : ℕ) (l : StaticList T) (vs : List T) (v : T)
    → Holds n l vs
    → length vs ≡ n
    → emplace_back v l ≡ some (tt, l)
emplace_back-full n l vs v holds full =
    let size : length holds.cells ≡ length vs =
      sym (length-map holds.cells (λ c. c.1)) ∙ ap length holds.values in
    let no_spare = eq-nil holds.spares (omega (arith, size, holds.valid.size)) in
    sym (emplace-end l v)
    ∙ emplace-full n l holds.cells _ v (subst (λ t. IsValid n l holds.cells t) no_spare holds.valid)

module _ {T : Type 0} (n : ℕ) (l : StaticList T) (v : T) (vs : List T) where
  -- On a valid list that holds a first value `front` reads it, and `pop_front` succeeds and leaves
  -- a valid list that holds the others.
  pub pop_front-Holds :
      Holds n l (v ∷ vs)
      → (l' : StaticList T) × (front l ≡ some (v, l))
        × (pop_front l ≡ some (tt, l'))
        × Holds n l' vs
  pop_front-Holds holds = first holds.cells holds.valid holds.values
    where
      first :
          (xs : Cells T)
          → IsValid n l xs holds.spares
          → map (λ c. c.1) xs ≡ v ∷ vs
          → (l' : StaticList T) × (front l ≡ some (v, l))
            × (pop_front l ≡ some (tt, l'))
            × Holds n l' vs
      first [] valid e = absurd (cc)
      first ((i, w) ∷ xs) valid e =
          let same : w ≡ v = cc in
          let (l', run, is) = erase-IsValid n l [] xs holds.spares i w valid in
          (
            l',
            front-value n l i w xs holds.spares valid ∙ ap (λ t. some (t, l)) same,
            pop_front-erase n l i w xs holds.spares valid ∙ ap (λ t. erase t l) valid.first ∙ run,
            record { cells = xs; spares = (i, w) ∷ holds.spares; valid = is; values = cc },
          )

module _ {T : Type 0} (n : ℕ) (l : StaticList T) where
  pub length-le : (vs : List T) → Holds n l vs → length vs ≤ n
  length-le vs holds =
      omega (arith, length-map holds.cells (λ c. c.1), ap length holds.values, holds.valid.size)

  -- `empty` tells whether the list holds nothing.
  pub empty-nil : Holds n l [] → empty l ≡ true
  empty-nil holds = nil holds.cells holds.valid holds.values
    where
      nil : (xs : Cells T) → IsValid n l xs holds.spares → map (λ c. c.1) xs ≡ [] → empty l ≡ true
      nil [] valid e = empty-true n l holds.spares valid
      nil ((i, w) ∷ xs) valid e = absurd (cc)

  pub empty-cons : (v : T) (vs : List T) → Holds n l (v ∷ vs) → empty l ≡ false
  empty-cons v vs holds = some_cells holds.cells holds.valid holds.values
    where
      some_cells :
          (xs : Cells T)
          → IsValid n l xs holds.spares
          → map (λ c. c.1) xs ≡ v ∷ vs
          → empty l ≡ false
      some_cells [] valid e = absurd (cc)
      some_cells ((i, w) ∷ xs) valid e = empty-false n l i w xs holds.spares valid

-- The same at the other end.
module _ {T : Type 0} (n : ℕ) (l : StaticList T) (v : T) (vs : List T) where
  -- On a valid list that holds a last value `back` reads it, and `pop_back` succeeds and leaves a
  -- valid list that holds the others.
  pub pop_back-Holds :
      Holds n l (vs ++ v ∷ [])
      → (l' : StaticList T) × (back l ≡ some (v, l)) × (pop_back l ≡ some (tt, l')) × Holds n l' vs
  pop_back-Holds holds =
      let split = values-Split holds.cells vs v [] holds.values in
      let xs = split.front in
      let i = split.address in
      let none_behind : split.rear ≡ [] =
        eq-nil split.rear
          (omega (arith, length-map split.rear (λ c. c.1), ap length split.rear_values)) in
      let whole : holds.cells ≡ xs ++ (i, v) ∷ [] =
        split.whole ∙ ap (λ t. xs ++ (i, v) ∷ t) none_behind in
      let valid : IsValid n l (xs ++ (i, v) ∷ []) holds.spares =
        subst (λ t. IsValid n l t holds.spares) whole holds.valid in
      let (l', run, is) = erase-IsValid n l xs [] holds.spares i v valid in
      let at_last : l.last ≡ i = valid.last ∙ last_or-append xs ((i, v) ∷ []) null in
      (
        l',
        back-value n l i v xs holds.spares valid,
        pop_back-erase n l i v xs holds.spares valid ∙ ap (λ t. erase t l) at_last ∙ run,
        record {
          cells = xs ++ [];
          spares = (i, v) ∷ holds.spares;
          valid = is;
          values = ap values (append-nil xs) ∙ split.front_values;
        },
      )
