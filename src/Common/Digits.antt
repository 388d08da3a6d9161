-- ===== src/Common/Digits.antt =====
-- The binary digits of a number: they determine it, and the native `&` and `|` act on them one by one.
use Prim.Native.Nat.{
  ℕ, zero, suc, ◌+◌, ◌*◌, ◌/◌, ◌%◌, ◌^◌, ◌≤◌, ◌<◌, max, min, bit_or, bit_and, digits,
  bit_or-bitwise, bit_and-bitwise,
}
use mathlib.Core.Path.{◌≡◌, refl, sym, ap, ap₂, ◌∙◌}
use native.Mathlib.Nat.{zero-div, pow-suc, div-div-eq-div-mul, mul_comm}
use native.Mathlib.Omega.{arith}

-- `(x >> k) & 1`
abbrev pub testbit : ℕ → ℕ → ℕ
testbit x k = x / 2 ^ k % 2

pub testbit-suc : (x k : ℕ) → testbit x (suc k) ≡ testbit (x / 2) k
testbit-suc x k =
    ap (λ (t : ℕ). x / t % 2) (pow-suc 2 k ∙ mul_comm (2 ^ k) 2)
    ∙ ap (λ (t : ℕ). t % 2) (sym (div-div-eq-div-mul x 2 (2 ^ k)))

testbit-zero : (x : ℕ) → testbit x 0 ≡ x % 2
testbit-zero x = omega arith

pub zero-testbit : (k : ℕ) → testbit 0 k ≡ 0
zero-testbit k = rw (zero-div (2 ^ k)) refl

pub testbit-lt : (x k : ℕ) → testbit x k < 2
testbit-lt x k = omega arith

-- Numbers with the same digits are equal; `n` bounds them both.
pub same_digits : (n x y : ℕ) → x ≤ n → y ≤ n → ((k : ℕ) → testbit x k ≡ testbit y k) → x ≡ y
same_digits zero x y h u same = omega arith
same_digits (suc n) x y h u same =
    let halves : x / 2 ≡ y / 2 =
      same_digits n (x / 2) (y / 2) (omega arith) (omega arith)
        (λ k. sym (testbit-suc x k) ∙ same (suc k) ∙ testbit-suc y k) in
    omega (arith, halves, same 0)

-- What the recursion behind the native operations does to a digit, for an operation `op` on digits
-- and what `rest` is left of the second number after the first.
module _ (rest : ℕ → ℕ) (op : ℕ → ℕ → ℕ) (bit : (x y : ℕ) → x < 2 → y < 2 → op x y < 2)
    (left : (y k : ℕ) → testbit (rest y) k ≡ op 0 (testbit y k)) where
  after_end : (y k : ℕ) → testbit (rest y) k ≡ op (testbit 0 k) (testbit y k)
  after_end y k = left y k ∙ ap (λ t. op t (testbit y k)) (sym (zero-testbit k))

  testbit-digits :
      (n x y k : ℕ) → x ≤ n → testbit (digits rest op n x y) k ≡ op (testbit x k) (testbit y k)
  testbit-digits zero zero y k h = after_end y k
  testbit-digits zero (suc x) y k h = absurd (omega arith)
  testbit-digits (suc n) zero y k h = after_end y k
  testbit-digits (suc n) (suc x) y zero h =
      let top = digits rest op n (suc x / 2) (y / 2) in
      let digit = op (suc x % 2) (y % 2) in
      let last : testbit (top * 2 + digit) 0 ≡ digit =
        omega (arith, bit (suc x % 2) (y % 2) (omega arith) (omega arith)) in
      last ∙ sym (ap₂ op (testbit-zero (suc x)) (testbit-zero y))
  testbit-digits (suc n) (suc x) y (suc k) h =
      let top = digits rest op n (suc x / 2) (y / 2) in
      let digit = op (suc x % 2) (y % 2) in
      let half : (top * 2 + digit) / 2 ≡ top =
        omega (arith, bit (suc x % 2) (y % 2) (omega arith) (omega arith)) in
      testbit-suc (top * 2 + digit) k
      ∙ ap (λ t. testbit t k) half
      ∙ testbit-digits n (suc x / 2) (y / 2) k (omega arith)
      ∙ sym (
          ap (λ t. op t (testbit y (suc k))) (testbit-suc (suc x) k)
          ∙ ap (op (testbit (suc x / 2) k)) (testbit-suc y k))

pub testbit-bit_and : (x y k : ℕ) → testbit (bit_and x y) k ≡ min (testbit x k) (testbit y k)
testbit-bit_and x y k =
    ap (λ t. testbit t k) (bit_and-bitwise x y)
    ∙ testbit-digits (λ t. 0) min (λ p q h u. omega arith) (λ z j. omega (arith, zero-testbit j)) x
        x y k (omega arith)

pub testbit-bit_or : (x y k : ℕ) → testbit (bit_or x y) k ≡ max (testbit x k) (testbit y k)
testbit-bit_or x y k =
    ap (λ t. testbit t k) (bit_or-bitwise x y)
    ∙ testbit-digits (λ t. t) max (λ p q h u. omega arith) (λ z j. omega arith) x x y k
        (omega arith)

-- The same for the two parts of a number, its half and its last digit.
module _ (x y : ℕ) where
  pub bit_and-half : bit_and x y / 2 ≡ bit_and (x / 2) (y / 2)
  bit_and-half =
      let a = bit_and x y / 2 in
      let b = bit_and (x / 2) (y / 2) in
      same_digits (a + b) a b (omega arith) (omega arith) (λ k.
        sym (testbit-suc (bit_and x y) k)
        ∙ testbit-bit_and x y (suc k)
        ∙ sym (omega (arith, testbit-bit_and (x / 2) (y / 2) k, testbit-suc x k, testbit-suc y k)))

  pub bit_and-last : bit_and x y % 2 ≡ min (x % 2) (y % 2)
  bit_and-last = omega (arith, testbit-bit_and x y 0)

  pub bit_or-half : bit_or x y / 2 ≡ bit_or (x / 2) (y / 2)
  bit_or-half =
      let a = bit_or x y / 2 in
      let b = bit_or (x / 2) (y / 2) in
      same_digits (a + b) a b (omega arith) (omega arith) (λ k.
        sym (testbit-suc (bit_or x y) k)
        ∙ testbit-bit_or x y (suc k)
        ∙ sym (omega (arith, testbit-bit_or (x / 2) (y / 2) k, testbit-suc x k, testbit-suc y k)))

  pub bit_or-last : bit_or x y % 2 ≡ max (x % 2) (y % 2)
  bit_or-last = omega (arith, testbit-bit_or x y 0)
