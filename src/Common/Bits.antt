-- ===== src/Common/Bits.antt =====
-- `&` and `|` of native numbers as arithmetic: bit by bit, with a mask of low bits, and of fields.
use Prim.Native.Nat.{
  ℕ, zero, suc, ◌+◌, ◌-◌, ◌*◌, ◌/◌, ◌%◌, ◌^◌, ◌≤◌, ◌<◌, min, max, bit_and, bit_or, digits,
  bit_and-bitwise, bit_or-bitwise,
}
use mathlib.Core.Path.{◌≡◌, refl, sym, ap, ◌∙◌}
use native.Mathlib.Nat.{
  pow-suc, one-le-pow, mod-lt, mod-eq_of_lt, mul-add-mod_self_right, div-add-mod',
}
use native.Mathlib.Omega.{arith}

-- More fuel than the first number needs changes nothing.
module _ (ends : ℕ → ℕ) (bit : ℕ → ℕ → ℕ) where
  enough : (m n x y : ℕ) → x ≤ m → x ≤ n → digits ends bit m x y ≡ digits ends bit n x y
  enough zero zero x y p q = refl
  enough zero (suc n) zero y p q = refl
  enough zero (suc n) (suc x) y p q = absurd (omega arith)
  enough (suc m) zero zero y p q = refl
  enough (suc m) zero (suc x) y p q = absurd (omega arith)
  enough (suc m) (suc n) zero y p q = refl
  enough (suc m) (suc n) (suc x) y p q =
      omega (arith, enough m n (suc x / 2) (y / 2) (omega arith) (omega arith))

pub bit_and-half : (x y : ℕ) → bit_and x y ≡ bit_and (x / 2) (y / 2) * 2 + min (x % 2) (y % 2)
bit_and-half zero y = omega (arith, bit_and-bitwise 0 y, bit_and-bitwise 0 (y / 2))
bit_and-half (suc x) y = omega (
  arith,
  bit_and-bitwise (suc x) y,
  bit_and-bitwise (suc x / 2) (y / 2),
  enough (λ _. 0) min x (suc x / 2) (suc x / 2) (y / 2) (omega arith) (omega arith),
)

pub bit_or-half : (x y : ℕ) → bit_or x y ≡ bit_or (x / 2) (y / 2) * 2 + max (x % 2) (y % 2)
bit_or-half zero y = omega (arith, bit_or-bitwise 0 y, bit_or-bitwise 0 (y / 2))
bit_or-half (suc x) y = omega (
  arith,
  bit_or-bitwise (suc x) y,
  bit_or-bitwise (suc x / 2) (y / 2),
  enough (λ z. z) max x (suc x / 2) (suc x / 2) (y / 2) (omega arith) (omega arith),
)

below-zero : (n x : ℕ) → x ≤ n → (bit_and x 0 ≡ 0) × (bit_or x 0 ≡ x)
below-zero n zero h = (refl, refl)
below-zero zero (suc x) h = absurd (omega arith)
below-zero (suc n) (suc x) h =
    let (a, o) = below-zero n (suc x / 2) (omega arith) in
    (omega (arith, bit_and-half (suc x) 0, a), omega (arith, bit_or-half (suc x) 0, o))

pub bit_and-zero : (x : ℕ) → bit_and x 0 ≡ 0
bit_and-zero x = (below-zero x x (omega arith)).0

pub bit_and-zero_left : (x : ℕ) → bit_and 0 x ≡ 0
bit_and-zero_left x = omega (arith, bit_and-bitwise 0 x)

pub bit_or-zero : (x : ℕ) → bit_or x 0 ≡ x
bit_or-zero x = (below-zero x x (omega arith)).1

double : (q k : ℕ) → q * 2 ^ suc k ≡ 2 * (q * 2 ^ k)
double q k = omega (arith, ap (λ (t : ℕ). q * t) (pow-suc 2 k))

low_part : (k q r : ℕ) → r < 2 ^ k → bit_and (q * 2 ^ k + r) (2 ^ k - 1) ≡ r
low_part zero q r h = rw bit_and-zero (omega arith)
low_part (suc k) q r h = ground (
  arith,
  bit_and-half (q * 2 ^ suc k + r) (2 ^ suc k - 1),
  double q k,
  pow-suc 2 k,
  low_part k q (r / 2) (omega arith),
)

-- A mask of `k` low bits keeps the remainder by `2 ^ k`.
pub bit_and-low_mask : (k x : ℕ) → bit_and x (2 ^ k - 1) ≡ x % 2 ^ k
bit_and-low_mask k x = ground (arith, one-le-pow k 2, low_part k (x / 2 ^ k) (x % 2 ^ k))

-- A number shifted left by `k` and one of `k` bits have no bit in common.
pub bit_or-shifted : (k q r : ℕ) → r < 2 ^ k → bit_or (q * 2 ^ k) r ≡ q * 2 ^ k + r
bit_or-shifted zero q r h = ground (arith, bit_or-zero q)
bit_or-shifted (suc k) q r h =
    ground
      (arith, bit_or-half (q * 2 ^ suc k) r, double q k, bit_or-shifted k q (r / 2) (omega arith))

-- A number split into the bits below `suc k` and the others.
whole : (k x : ℕ) → 2 * (x / 2 ^ suc k * 2 ^ k) + x % 2 ^ suc k ≡ x
whole k x = omega (arith, double (x / 2 ^ suc k) k, div-add-mod' x (2 ^ suc k))

mod-half : (k x : ℕ) → x % 2 ^ suc k / 2 ≡ x / 2 % 2 ^ k
mod-half k x =
    let q = x / 2 ^ suc k in
    let below : x % 2 ^ suc k < 2 ^ suc k = mod-lt x (one-le-pow (suc k) 2 (omega arith)) in
    let small : x % 2 ^ suc k / 2 < 2 ^ k = omega (arith, pow-suc 2 k) in
    let parts : x / 2 ≡ q * 2 ^ k + x % 2 ^ suc k / 2 = omega (arith, whole k x) in
    sym (
      ap (λ t. t % 2 ^ k) parts
      ∙ mul-add-mod_self_right q (2 ^ k) (x % 2 ^ suc k / 2)
      ∙ mod-eq_of_lt small)

mod-even : (k x : ℕ) → x % 2 ^ suc k % 2 ≡ x % 2
mod-even k x = omega (arith, whole k x)

-- With a mask of `k` bits the bits of a number from `k` on do not count.
pub bit_and-mod : (k x m : ℕ) → m < 2 ^ k → bit_and (x % 2 ^ k) m ≡ bit_and x m
bit_and-mod zero x m h =
    let e : m ≡ 0 = omega arith in rw (e, bit_and-zero (x % 2 ^ 0)) (sym (bit_and-zero x))
bit_and-mod (suc k) x m h =
    let halves : x % 2 ^ suc k / 2 ≡ x / 2 % 2 ^ k = mod-half k x in
    omega (
      arith,
      bit_and-half (x % 2 ^ suc k) m,
      bit_and-half x m,
      mod-even k x,
      ap (λ t. bit_and t (m / 2)) halves,
      bit_and-mod k (x / 2) (m / 2) (omega (arith, pow-suc 2 k)),
    )
