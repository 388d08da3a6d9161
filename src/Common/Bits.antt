-- ===== src/Common/Bits.antt =====
-- The masks that the code writes with `&`, `|`, `~` and shifts: their digits, and the sizes of results.
use Prim.Native.Nat.{
  ℕ, zero, suc, ◌+◌, ◌-◌, ◌*◌, ◌/◌, ◌%◌, ◌^◌, ◌≤◌, ◌<◌, bit_and, bit_or, bit_and-bitwise,
}
use mathlib.Core.Path.{◌≡◌, refl, ap, ◌∙◌}
use native.Mathlib.Nat.{
  pow-suc, div-add-mod, mod-lt, mod-eq_of_lt, mul-add-mod_self_left, pow-le-pow_right,
}
use native.Mathlib.Omega.{arith}
use ai_pattarai.Common.Tests.{◌==◌, ltb, if◌then◌else◌}
use ai_pattarai.Common.Words.{u64, uint64_max}
use ai_pattarai.Common.Digits.{
  testbit, testbit-suc, zero-testbit, testbit-bit_and, testbit-bit_or, bit_and-half, bit_and-last,
  bit_or-half, bit_or-last, same_digits,
}

pub pow_pos : (k : ℕ) → 0 < 2 ^ k
pow_pos zero = omega arith
pow_pos (suc k) = omega (arith, pow-suc 2 k, pow_pos k)

-- one more digit of a remainder: with m = 2 ^ k, a % (m * 2) is (a / 2 % m) * 2 + a % 2
pub mod_double : (m a : ℕ) → 0 < m → a % (m * 2) ≡ (a / 2 % m) * 2 + a % 2
mod_double m a h =
    let r = (a / 2 % m) * 2 + a % 2 in
    let whole : a ≡ m * 2 * (a / 2 / m) + r =
      omega (arith, div-add-mod (a / 2) m, div-add-mod a 2) in
    let small : r < m * 2 = omega (arith, mod-lt (a / 2) h) in
    ap (λ (t : ℕ). t % (m * 2)) whole
    ∙ mul-add-mod_self_left (m * 2) (a / 2 / m) r
    ∙ mod-eq_of_lt small

mask_half : (m : ℕ) → 0 < m → (m * 2 - 1) / 2 ≡ m - 1
mask_half m h = omega arith

mask_odd : (m : ℕ) → 0 < m → (m * 2 - 1) % 2 ≡ 1
mask_odd m h = omega arith

bit_and-none : (a : ℕ) → bit_and a 0 ≡ 0
bit_and-none a =
    same_digits (bit_and a 0) (bit_and a 0) 0 (omega arith) (omega arith)
      (λ k. testbit-bit_and a 0 k ∙ omega (arith, zero-testbit k))

pub bit_and_mask : (k a : ℕ) → bit_and a (2 ^ k - 1) ≡ a % 2 ^ k
bit_and_mask zero a = omega (arith, bit_and-none a)
bit_and_mask (suc k) a =
    let m : ℕ = 2 ^ suc k - 1 in
    let m_half : m / 2 ≡ 2 ^ k - 1 = omega (arith, pow-suc 2 k) in
    let m_odd : m % 2 ≡ 1 = omega (arith, pow-suc 2 k, pow_pos k) in
    let half : bit_and a m / 2 ≡ a / 2 % 2 ^ k =
      bit_and-half a m ∙ ap (bit_and (a / 2)) m_half ∙ bit_and_mask k (a / 2) in
    let whole : a % 2 ^ suc k ≡ (a / 2 % 2 ^ k) * 2 + a % 2 =
      ap (λ (t : ℕ). a % t) (pow-suc 2 k) ∙ mod_double (2 ^ k) a (pow_pos k) in
    omega (arith, half, bit_and-last a m, m_odd, whole)

pub mask-lt : (k a : ℕ) → bit_and a (2 ^ k - 1) < 2 ^ k
mask-lt k a = rw bit_and_mask (mod-lt a (pow_pos k))

bit_and-le_below : (n a b : ℕ) → a ≤ n → bit_and a b ≤ a
bit_and-le_below zero a b h =
    let none : a ≡ 0 = omega arith in rw none (omega (arith, bit_and-bitwise 0 b))
bit_and-le_below (suc n) a b h =
    omega
      (arith, bit_and-half a b, bit_and-last a b, bit_and-le_below n (a / 2) (b / 2) (omega arith))

pub bit_and-le_left : (a b : ℕ) → bit_and a b ≤ a
bit_and-le_left a b = bit_and-le_below a a b (omega arith)

pub bit_or-none : (a : ℕ) → bit_or a 0 ≡ a
bit_or-none a =
    same_digits (bit_or a 0 + a) (bit_or a 0) a (omega arith) (omega arith)
      (λ k. testbit-bit_or a 0 k ∙ omega (arith, zero-testbit k))

pub bit_or-lt : (n a b : ℕ) → a < 2 ^ n → b < 2 ^ n → bit_or a b < 2 ^ n
bit_or-lt zero a b p q =
    let none : a ≡ 0 = omega arith in
    let none' : b ≡ 0 = omega arith in rw (none, none') (omega arith)
bit_or-lt (suc n) a b p q = omega (
  arith,
  pow-suc 2 n,
  bit_or-half a b,
  bit_or-last a b,
  bit_or-lt n (a / 2) (b / 2) (omega (arith, pow-suc 2 n)) (omega (arith, pow-suc 2 n)),
)

pub testbit-pow : (b k : ℕ) → testbit (2 ^ b) k ≡ (if b == k then 1 else 0)
testbit-pow zero zero = refl
testbit-pow zero (suc k) = rw (testbit-suc (2 ^ 0) k) (ground (arith, zero-testbit k))
testbit-pow (suc b) zero = ground (arith, pow-suc 2 b)
testbit-pow (suc b) (suc k) =
    let half : 2 ^ suc b / 2 ≡ 2 ^ b = omega (arith, pow-suc 2 b) in
    rw (testbit-suc (2 ^ suc b) k, half) (ground (arith, testbit-pow b k))

-- `~x` on n bits
pub testbit-complement :
    (n x k : ℕ) → x < 2 ^ n → k < n → testbit (2 ^ n - 1 - x) k ≡ 1 - testbit x k
testbit-complement zero x k h l = absurd (omega arith)
testbit-complement (suc n) x zero h l = omega (arith, pow-suc 2 n)
testbit-complement (suc n) x (suc k) h l =
    let half : (2 ^ suc n - 1 - x) / 2 ≡ 2 ^ n - 1 - x / 2 = omega (arith, pow-suc 2 n) in
    rw (testbit-suc (2 ^ suc n - 1 - x) k, testbit-suc x k, half)
      (testbit-complement n (x / 2) k (omega (arith, pow-suc 2 n)) (omega arith))

-- the b digits of a mask
pub testbit-ones : (b k : ℕ) → testbit (2 ^ b - 1) k ≡ (if ltb k b then 1 else 0)
testbit-ones zero k = ground (arith, zero-testbit k)
testbit-ones (suc b) zero = ground (arith, pow-suc 2 b, pow_pos b)
testbit-ones (suc b) (suc k) =
    let half : (2 ^ suc b - 1) / 2 ≡ 2 ^ b - 1 = omega (arith, pow-suc 2 b, pow_pos b) in
    rw (testbit-suc (2 ^ suc b - 1) k, half) (ground (arith, testbit-ones b k))

-- `~0ULL << b` is the complement of the b low digits.
pub high_mask : (b : ℕ) → b < 64 → u64 (uint64_max * 2 ^ b) ≡ uint64_max - (2 ^ b - 1)
high_mask b h =
    let small : 2 ^ b ≤ 2 ^ 64 =
      pow-le-pow_right {n = 2} (omega arith) {i = b} {j = 64} (omega arith) in
    let split : uint64_max * 2 ^ b ≡ 2 ^ 64 * (2 ^ b - 1) + (2 ^ 64 - 2 ^ b) =
      omega (arith, pow_pos b, small) in
    ap u64 split
    ∙ mul-add-mod_self_left (2 ^ 64) (2 ^ b - 1) (2 ^ 64 - 2 ^ b)
    ∙ mod-eq_of_lt (omega (arith, pow_pos b))
    ∙ omega (arith, pow_pos b, small)

pub high_mask-lt : (b : ℕ) → u64 (uint64_max * 2 ^ b) < 2 ^ 64
high_mask-lt b = mod-lt (uint64_max * 2 ^ b) (omega arith)

pub testbit-high_mask :
    (b k : ℕ) → b < 64 → k < 64 → testbit (u64 (uint64_max * 2 ^ b)) k ≡ (if ltb k b then 0 else 1)
testbit-high_mask b k h l =
    let small : 2 ^ b ≤ 2 ^ 64 =
      pow-le-pow_right {n = 2} (omega arith) {i = b} {j = 64} (omega arith) in
    let low : 2 ^ b - 1 < 2 ^ 64 = omega (arith, pow_pos b) in
    rw (high_mask b h) (ground (arith, testbit-complement 64 (2 ^ b - 1) k low l, testbit-ones b k))

pub testbit-low_mask :
    (b k : ℕ)
    → b < 64
    → k < 64
    → testbit (uint64_max - u64 (uint64_max * 2 ^ b)) k ≡ (if ltb k b then 1 else 0)
testbit-low_mask b k h l = ground (
  arith,
  testbit-complement 64 (u64 (uint64_max * 2 ^ b)) k (high_mask-lt b) l,
  testbit-high_mask b k h l,
)
