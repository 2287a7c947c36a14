-- ===== src/StaticList/Commands/Position.antt =====
-- Insertion and removal at an iterator that has gone some steps from `begin()`.
use mathlib.Core.List.{append_assoc, map-append}
use baremetal_cxx_coro.Common.{
  ℕ, zero, suc, ◌<◌, ◌≡◌, refl, sym, ◌∙◌, ap, subst, none, some, inl, List, [], ◌∷◌, ◌++◌, length,
  length-map, eq-nil, take, drop, take-append-drop, map-take-drop, arith,
}
use baremetal_cxx_coro.StaticList.{null, StaticList, begin, increment, erase, deref}
use baremetal_cxx_coro.StaticList.Chain.{Cells, head_or}
use baremetal_cxx_coro.StaticList.Values.{values}
use baremetal_cxx_coro.StaticList.Validity.{IsValid, Holds}
use baremetal_cxx_coro.StaticList.Emplace.{emplace-IsValid, emplace_end-IsValid, emplace-full}
use baremetal_cxx_coro.StaticList.Erase.{erase-IsValid}
use baremetal_cxx_coro.StaticList.Iterate.{increment-next}
use baremetal_cxx_coro.StaticList.Commands.{
  insert_at, erase_at, advance, operate, expect, Agrees, agree,
}

module _ {T : Type 0} where
  advance-null : (k : ℕ) (l : StaticList T) → advance k null l ≡ some (null, l)
  unfolding advance increment
  advance-null zero l = refl
  advance-null (suc k) l = advance-null k l

  advance-drop :
      (n k : ℕ) (l : StaticList T) (pre post fs : Cells T)
      → IsValid n l (pre ++ post) fs
      → advance k (head_or post null) l ≡ some (head_or (drop k post) null, l)
  unfolding advance
  advance-drop n zero l pre post fs valid = refl
  advance-drop n (suc k) l pre [] fs valid = advance-null (suc k) l
  advance-drop n (suc k) l pre ((a, v) ∷ post) fs valid =
      rw (increment-next n l pre post fs a v valid) (
        advance-drop n k l (pre ++ (a, v) ∷ []) post fs
          (rw (append_assoc pre ((a, v) ∷ []) post) valid))

  deref-null : (l : StaticList T) → l.buffer null ≡ none → deref null l ≡ none
  unfolding deref
  deref-null l z = rw (z, deref) refl

  erase-null : (l : StaticList T) → l.buffer null ≡ none → erase null l ≡ none
  unfolding erase
  erase-null l z = rw (deref-null l z) refl

  module _ (n k : ℕ) (l : StaticList T) (vs : List T) (holds : Holds n l vs) where
    open holds use {cells, spares, valid}

    -- Where `k` steps from `begin()` lead.
    position :
        (rest : Cells T) → drop k cells ≡ rest → advance k (begin l) l ≡ some (head_or rest null, l)
    unfolding begin
    position rest e =
        ap (λ p. advance k p l) valid.first
        ∙ advance-drop n k l [] cells spares valid
        ∙ ap (λ r. some (head_or r null, l)) e

    parted : (rest : Cells T) → drop k cells ≡ rest → IsValid n l (take k cells ++ rest) spares
    parted rest e =
        subst (λ t. IsValid n l t spares)
          (sym (take-append-drop k cells) ∙ ap (λ t. take k cells ++ t) e) valid

    front_values : values (take k cells) ≡ take k vs
    front_values = (map-take-drop (λ c. c.1) k cells).0 ∙ ap (take k) holds.values

    rear_values : (rest : Cells T) → drop k cells ≡ rest → drop k vs ≡ values rest
    rear_values rest e =
        ap (drop k) (sym holds.values) ∙ sym (map-take-drop (λ c. c.1) k cells).1 ∙ ap values e

    size : length cells ≡ length vs
    size = sym (length-map cells (λ c. c.1)) ∙ ap length holds.values

    -- An insertion at this position, with room.
    pub insert_at-Holds :
        (v : T)
        → length vs < n
        → (l' : StaticList T) × (operate (insert_at k v) l ≡ some ([], l'))
          × Holds n l' (take k vs ++ v ∷ drop k vs)
    unfolding operate
    insert_at-Holds v lt = place spares (drop k cells) refl refl
      where
        place :
            (fs rest : Cells T)
            → spares ≡ fs
            → drop k cells ≡ rest
            → (l' : StaticList T) × (operate (insert_at k v) l ≡ some ([], l'))
              × Holds n l' (take k vs ++ v ∷ drop k vs)
        place [] rest f e = absurd (omega (arith, size, valid.size, ap length f))
        place ((b, g) ∷ fs) [] f e =
            let (l', run, is) =
              emplace_end-IsValid n l fs b g v (take k cells)
                (subst (λ t. IsValid n l (take k cells ++ []) t) f (parted [] e)) in
            (
              l',
              rw (position [] e, run) refl,
              record {
                cells = take k cells ++ (b, v) ∷ [];
                spares = fs;
                valid = is;
                values =
                    map-append (λ c. c.1) (take k cells) ((b, v) ∷ [])
                    ∙ rw (front_values, rear_values [] e) refl;
              },
            )
        place ((b, g) ∷ fs) ((i, x) ∷ rest) f e =
            let (l', run, is) = emplace-IsValid n l fs b g v (take k cells) rest i x (
              subst (λ t. IsValid n l (take k cells ++ (i, x) ∷ rest) t) f
                (parted ((i, x) ∷ rest) e)) in
            (
              l',
              rw (position ((i, x) ∷ rest) e, run) refl,
              record {
                cells = take k cells ++ (b, v) ∷ (i, x) ∷ rest;
                spares = fs;
                valid = is;
                values =
                    map-append (λ c. c.1) (take k cells) ((b, v) ∷ (i, x) ∷ rest)
                    ∙ rw (front_values, rear_values ((i, x) ∷ rest) e) refl;
              },
            )

    -- On a full list the value is dropped.
    pub insert_at-full : (v : T) → length vs ≡ n → operate (insert_at k v) l ≡ some ([], l)
    unfolding operate
    insert_at-full v full =
        let no_spare = eq-nil spares (omega (arith, size, valid.size)) in
        rw
          (
            position (drop k cells) refl,
            emplace-full n l cells (head_or (drop k cells) null) v
                (subst (λ t. IsValid n l cells t) no_spare valid),
          )
          refl

    pub erase_at-Agrees : Agrees n (expect n (erase_at k) vs) (operate (erase_at k) l)
    unfolding operate expect
    erase_at-Agrees = take_out (drop k cells) refl
      where
        take_out :
            (rest : Cells T)
            → drop k cells ≡ rest
            → Agrees n (expect n (erase_at k) vs) (operate (erase_at k) l)
        take_out [] e =
            let z : l.buffer null ≡ none = valid.outside null refl in
            inl (rw (rear_values [] e) refl, rw (position [] e, erase-null l z) refl)
        take_out ((i, x) ∷ rest) e =
            let (l', run, is) =
              erase-IsValid n l (take k cells) rest spares i x (parted ((i, x) ∷ rest) e) in
            agree n _ _ [] (take k vs ++ values rest) l' (rw (rear_values ((i, x) ∷ rest) e) refl)
              (rw (position ((i, x) ∷ rest) e, run) refl)
              (record {
                cells = take k cells ++ rest;
                spares = (i, x) ∷ spares;
                valid = is;
                values =
                    map-append (λ c. c.1) (take k cells) rest
                    ∙ ap (λ t. t ++ values rest) front_values;
              })
