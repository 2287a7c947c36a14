-- ===== src/Csr/Masks.antt =====
-- Laws of a mask `m` of `k` bits and of its inverse, the mask of the other bits.
use baremetal_cxx_coro.Common.{
  ℕ, zero, suc, ◌+◌, ◌*◌, ◌/◌, ◌%◌, ◌^◌, ◌<◌, ◌≡◌, refl, sym, ap, ◌∙◌, arith, bit_and, bit_or, min,
  max,
}
use mathlib.Core.Path.{ap₂}
use native.Mathlib.Nat.{pow-suc}
use baremetal_cxx_coro.Common.Bits.{bit_and-half, bit_or-half, bit_and-zero}

-- The lowest bit of a result and the others.
and-parts :
    (x y : ℕ)
    → (bit_and x y / 2 ≡ bit_and (x / 2) (y / 2)) × (bit_and x y % 2 ≡ min (x % 2) (y % 2))
and-parts x y = omega (arith, bit_and-half x y)

or-parts :
    (x y : ℕ) → (bit_or x y / 2 ≡ bit_or (x / 2) (y / 2)) × (bit_or x y % 2 ≡ max (x % 2) (y % 2))
or-parts x y = omega (arith, bit_or-half x y)

-- `m` and `n` are masks of `k` bits, each the inverse of the other.
abbrev pub Inverse : ℕ → ℕ → ℕ → Type 0
Inverse k m n = m + n + 1 ≡ 2 ^ k

Inverse-half : (k m n : ℕ) → Inverse (suc k) m n → Inverse k (m / 2) (n / 2) × (m % 2 + n % 2 ≡ 1)
Inverse-half k m n h = omega (arith, pow-suc 2 k)

-- The bits of `a` under the mask `n`, with the bits of `b` under the mask `m`.
abbrev pub merge : (a n b m : ℕ) → ℕ
merge a n b m = bit_or (bit_and a n) (bit_and b m)

merge-parts :
    (a n b m : ℕ)
    → (merge a n b m / 2 ≡ merge (a / 2) (n / 2) (b / 2) (m / 2))
      × (merge a n b m % 2 ≡ max (min (a % 2) (n % 2)) (min (b % 2) (m % 2)))
merge-parts a n b m =
    let (d, r) = or-parts (bit_and a n) (bit_and b m) in
    let (da, ra) = and-parts a n in
    let (db, rb) = and-parts b m in (d ∙ ap₂ bit_or da db, r ∙ ap₂ max ra rb)

-- Under the mask `m` the merged value has the bits of `b`.
pub merge_masked : (k a n b m : ℕ) → Inverse k m n → bit_and (merge a n b m) m ≡ bit_and b m
merge_masked zero a n b m h =
    let e : m ≡ 0 = omega arith in rw e (bit_and-zero _ ∙ sym (bit_and-zero b))
merge_masked (suc k) a n b m h =
    let (inv, bits) = Inverse-half k m n h in
    let (d, r) = merge-parts a n b m in
    omega (
      arith,
      bit_and-half (merge a n b m) m,
      bit_and-half b m,
      ap (λ t. bit_and t (m / 2)) d,
      r,
      bits,
      merge_masked k (a / 2) (n / 2) (b / 2) (m / 2) inv,
    )

-- Under the mask `n` it has those of `a`.
pub merge_kept : (k a n b m : ℕ) → Inverse k m n → bit_and (merge a n b m) n ≡ bit_and a n
merge_kept zero a n b m h =
    let e : n ≡ 0 = omega arith in rw e (bit_and-zero _ ∙ sym (bit_and-zero a))
merge_kept (suc k) a n b m h =
    let (inv, bits) = Inverse-half k m n h in
    let (d, r) = merge-parts a n b m in
    omega (
      arith,
      bit_and-half (merge a n b m) n,
      bit_and-half a n,
      ap (λ t. bit_and t (n / 2)) d,
      r,
      bits,
      merge_kept k (a / 2) (n / 2) (b / 2) (m / 2) inv,
    )

-- Setting the bits of `m` sets them all, and keeps the others.
pub set_masked :
    (k a n m : ℕ)
    → Inverse k m n
    → (bit_and (bit_or a m) m ≡ m) × (bit_and (bit_or a m) n ≡ bit_and a n)
set_masked zero a n m h =
    let e : m ≡ 0 = omega arith in
    let e' : n ≡ 0 = omega arith in
    (rw e (bit_and-zero _), rw e' (bit_and-zero _ ∙ sym (bit_and-zero a)))
set_masked (suc k) a n m h =
    let (inv, bits) = Inverse-half k m n h in
    let (d, r) = or-parts a m in
    let rest = set_masked k (a / 2) (n / 2) (m / 2) inv in
    (
      omega (arith, bit_and-half (bit_or a m) m, ap (λ t. bit_and t (m / 2)) d, r, rest.0),
      omega (
        arith,
        bit_and-half (bit_or a m) n,
        bit_and-half a n,
        ap (λ t. bit_and t (n / 2)) d,
        r,
        bits,
        rest.1,
      ),
    )

-- Clearing the bits of `m` clears them all, and keeps the others.
pub clr_masked :
    (k a n m : ℕ)
    → Inverse k m n
    → (bit_and (bit_and a n) m ≡ 0) × (bit_and (bit_and a n) n ≡ bit_and a n)
clr_masked zero a n m h =
    let e : m ≡ 0 = omega arith in
    let e' : n ≡ 0 = omega arith in
    (rw e (bit_and-zero _), rw e' (bit_and-zero _ ∙ sym (bit_and-zero a)))
clr_masked (suc k) a n m h =
    let (inv, bits) = Inverse-half k m n h in
    let (d, r) = and-parts a n in
    let rest = clr_masked k (a / 2) (n / 2) (m / 2) inv in
    (
      omega (arith, bit_and-half (bit_and a n) m, ap (λ t. bit_and t (m / 2)) d, r, bits, rest.0),
      omega (
        arith,
        bit_and-half (bit_and a n) n,
        bit_and-half a n,
        ap (λ t. bit_and t (n / 2)) d,
        r,
        rest.1,
      ),
    )

-- It keeps the bits of any mask `g` that has none in common with `m`.
pub merge_apart :
    (k a n b m g : ℕ)
    → Inverse k m n
    → a < 2 ^ k
    → bit_and m g ≡ 0
    → bit_and (merge a n b m) g ≡ bit_and a g
merge_apart zero a n b m g h bound apart =
    let e : m ≡ 0 = omega arith in
    let e' : n ≡ 0 = omega arith in
    let e'' : a ≡ 0 = omega arith in rw (e, e', e'', bit_and-zero b) refl
merge_apart (suc k) a n b m g h bound apart =
    let (inv, bits) = Inverse-half k m n h in
    let (d, r) = merge-parts a n b m in
    omega (
      arith,
      bit_and-half (merge a n b m) g,
      bit_and-half a g,
      bit_and-half m g,
      ap (λ t. bit_and t (g / 2)) d,
      r,
      bits,
      merge_apart k (a / 2) (n / 2) (b / 2) (m / 2) (g / 2) inv (omega (arith, pow-suc 2 k))
          (omega (arith, bit_and-half m g)),
    )

-- Setting or clearing the bits of `m` keeps those of `g`, too.
pub set_apart :
    (k a n m g : ℕ)
    → Inverse k m n
    → a < 2 ^ k
    → bit_and m g ≡ 0
    → (bit_and (bit_or a m) g ≡ bit_and a g) × (bit_and (bit_and a n) g ≡ bit_and a g)
set_apart zero a n m g h bound apart =
    let e : m ≡ 0 = omega arith in
    let e' : n ≡ 0 = omega arith in let e'' : a ≡ 0 = omega arith in rw (e, e', e'') (refl, refl)
set_apart (suc k) a n m g h bound apart =
    let (inv, bits) = Inverse-half k m n h in
    let (d, r) = or-parts a m in
    let (d', r') = and-parts a n in
    let rest =
      set_apart k (a / 2) (n / 2) (m / 2) (g / 2) inv (omega (arith, pow-suc 2 k))
        (omega (arith, bit_and-half m g)) in
    (
      omega (
        arith,
        bit_and-half (bit_or a m) g,
        bit_and-half a g,
        bit_and-half m g,
        ap (λ t. bit_and t (g / 2)) d,
        r,
        rest.0,
      ),
      omega (
        arith,
        bit_and-half (bit_and a n) g,
        bit_and-half a g,
        bit_and-half m g,
        ap (λ t. bit_and t (g / 2)) d',
        r',
        bits,
        rest.1,
      ),
    )

mul_one : (x : ℕ) → x * 2 ^ 0 ≡ x
mul_one x = omega arith

doubled : (o x : ℕ) → x * 2 ^ suc o ≡ 2 * (x * 2 ^ o)
doubled o x = omega (arith, ap (λ (t : ℕ). x * t) (pow-suc 2 o))

pub half_of : (y z : ℕ) → z ≡ 2 * y → z / 2 ≡ y
half_of y z h = omega arith

-- Both numbers shifted left.
pub bit_and-shifted : (o x y : ℕ) → bit_and (x * 2 ^ o) (y * 2 ^ o) ≡ bit_and x y * 2 ^ o
bit_and-shifted zero x y = rw (mul_one x, mul_one y) (sym (mul_one (bit_and x y)))
bit_and-shifted (suc o) x y = omega (
  arith,
  doubled o x,
  doubled o y,
  doubled o (bit_and x y),
  bit_and-half (x * 2 ^ suc o) (y * 2 ^ suc o),
  bit_and-shifted o x y,
  ap₂ bit_and (half_of (x * 2 ^ o) (x * 2 ^ suc o) (doubled o x))
      (half_of (y * 2 ^ o) (y * 2 ^ suc o) (doubled o y)),
)
