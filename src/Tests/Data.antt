-- ===== src/Tests/Data.antt =====
-- Lists of three nodes, built by the operations of include/coro/static_list.hpp.
use baremetal_cxx_coro.Common.{ℕ, [], ◌∷◌, refl}
use baremetal_cxx_coro.StaticList.{Node, StaticList}
use baremetal_cxx_coro.StaticList.Validity.{IsValid, Holds}
use baremetal_cxx_coro.StaticList.Construct.{construct-IsValid}
use baremetal_cxx_coro.StaticList.Emplace.{emplace_back-IsValid}

module _ {T : Type 0} (g : T) where
  -- What the memory of the array happens to hold.
  abbrev pub raw : ℕ → Node T
  raw i = record { next = 9; prev = 9; value = g }

  abbrev pub list₀ : StaticList T
  list₀ = (construct-IsValid raw 2).0

  pub list₀-IsValid : IsValid 3 list₀ [] ((1, g) ∷ (2, g) ∷ (3, g) ∷ [])
  list₀-IsValid = (construct-IsValid raw 2).2

  module _ (a : T) where
    abbrev pub list₁ : StaticList T
    list₁ = (emplace_back-IsValid 3 list₀ [] ((2, g) ∷ (3, g) ∷ []) 1 g a list₀-IsValid).0

    pub list₁-IsValid : IsValid 3 list₁ ((1, a) ∷ []) ((2, g) ∷ (3, g) ∷ [])
    list₁-IsValid = (emplace_back-IsValid 3 list₀ [] ((2, g) ∷ (3, g) ∷ []) 1 g a list₀-IsValid).2

    module _ (b : T) where
      abbrev pub list₂ : StaticList T
      list₂ = (emplace_back-IsValid 3 list₁ ((1, a) ∷ []) ((3, g) ∷ []) 2 g b list₁-IsValid).0

      pub list₂-IsValid : IsValid 3 list₂ ((1, a) ∷ (2, b) ∷ []) ((3, g) ∷ [])
      list₂-IsValid =
          (emplace_back-IsValid 3 list₁ ((1, a) ∷ []) ((3, g) ∷ []) 2 g b list₁-IsValid).2

      pub list₂-Holds : Holds 3 list₂ (a ∷ b ∷ [])
      list₂-Holds = record {
        cells = (1, a) ∷ (2, b) ∷ [];
        spares = (3, g) ∷ [];
        valid = list₂-IsValid;
        values = refl;
      }

      module _ (c : T) where
        abbrev pub list₃ : StaticList T
        list₃ = (emplace_back-IsValid 3 list₂ ((1, a) ∷ (2, b) ∷ []) [] 3 g c list₂-IsValid).0

        pub list₃-IsValid : IsValid 3 list₃ ((1, a) ∷ (2, b) ∷ (3, c) ∷ []) []
        list₃-IsValid =
            (emplace_back-IsValid 3 list₂ ((1, a) ∷ (2, b) ∷ []) [] 3 g c list₂-IsValid).2

        pub list₃-Holds : Holds 3 list₃ (a ∷ b ∷ c ∷ [])
        list₃-Holds = record {
          cells = (1, a) ∷ (2, b) ∷ (3, c) ∷ [];
          spares = [];
          valid = list₃-IsValid;
          values = refl;
        }
