-- ===== src/StaticList/Values.antt =====
-- The values of a list's nodes.
use baremetal_cxx_coro.Common.{◌≡◌, refl, ap, List, [], ◌∷◌, ◌++◌, map, arith}
use baremetal_cxx_coro.StaticList.{Ptr}
use baremetal_cxx_coro.StaticList.Chain.{Cells}

abbrev pub values : {T : Type 0} → Cells T → List T
values xs = map (λ c. c.1) xs

-- The cells of a list whose values are split.
pub record Split {T : Type 0} (xs : Cells T) (ms : List T) (e : T) (rs : List T) : Type 0 where
  pub front : Cells T
  pub address : Ptr
  pub rear : Cells T
  pub whole : xs ≡ front ++ (address, e) ∷ rear
  pub front_values : values front ≡ ms
  pub rear_values : values rear ≡ rs

pub values-Split :
    {T : Type 0} (xs : Cells T) (ms : List T) (e : T) (rs : List T)
    → values xs ≡ ms ++ e ∷ rs
    → Split xs ms e rs
values-Split [] [] e rs h = absurd (ground arith)
values-Split [] (m ∷ ms) e rs h = absurd (ground arith)
values-Split ((a, x) ∷ xs) [] e rs h = record {
  front = [];
  address = a;
  rear = xs;
  whole = ground arith;
  front_values = refl;
  rear_values = cc;
}
values-Split ((a, x) ∷ xs) (m ∷ ms) e rs h =
    let s = values-Split xs ms e rs (cc) in
    record {
      front = (a, x) ∷ s.front;
      address = s.address;
      rear = s.rear;
      whole = ap (λ t. (a, x) ∷ t) s.whole;
      front_values = cc (s.front_values);
      rear_values = s.rear_values;
    }
