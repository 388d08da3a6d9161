-- ===== src/PortPool/Bitmap.antt =====
-- Setting and clearing one port of a bitmap.
use ai_pattarai.Common.{
  ℕ, ◌-◌, ◌/◌, ◌%◌, ◌^◌, ◌<◌, ◌≡◌, arith, ◌==◌, if◌then◌else◌, List, length, set, get_or-set,
  length-set, bit_or, bit_and, bit_or-lt, bit_and-le_left, uint64_max, testbit, testbit-bit_and,
  testbit-bit_or, testbit-pow, testbit-complement, testbit-lt,
}
use native.Mathlib.Nat.{pow-le-pow_right}
use ai_pattarai.PortPool.{word_at, bm_set, bm_clear, bm_test}
use ai_pattarai.PortPool.Scan.{Words}

digit_small : (b : ℕ) → 2 ^ (b % 64) < 2 ^ 64
digit_small b =
    omega (arith, pow-le-pow_right {n = 2} (omega arith) {i = b % 64} {j = 63} (omega arith))

-- A write of the word of `bit` that changes its digit to v and no other.
module _ (map : List ℕ) (bit x v : ℕ) (inside : bit / 64 < length map) where
  write_digit :
      ((k : ℕ)
        → k < 64
        → testbit x k ≡ (if bit % 64 == k then v else testbit (word_at map (bit / 64)) k))
      → (q : ℕ) → bm_test (set map (bit / 64) x) q ≡ (if bit == q then v else bm_test map q)
  unfolding bm_test
  write_digit digits q =
      ground (arith, get_or-set map (bit / 64) (q / 64) x 0 inside, digits (q % 64))

  Words-set : Words map → x < 2 ^ 64 → Words (set map (bit / 64) x)
  Words-set words h j = ground (arith, get_or-set map (bit / 64) j x 0 inside, words j)

module _ (map : List ℕ) (bit : ℕ) (inside : bit / 64 < length map) where
  pub bm_test-bm_set :
      (q : ℕ) → bm_test (bm_set map bit) q ≡ (if bit == q then 1 else bm_test map q)
  unfolding bm_set
  bm_test-bm_set =
      let a = word_at map (bit / 64) in
      write_digit map bit (bit_or a (2 ^ (bit % 64))) 1 inside (λ k h.
        ground
          (arith, testbit-bit_or a (2 ^ (bit % 64)) k, testbit-pow (bit % 64) k, testbit-lt a k))

  pub bm_test-bm_clear :
      (q : ℕ) → bm_test (bm_clear map bit) q ≡ (if bit == q then 0 else bm_test map q)
  unfolding bm_clear
  bm_test-bm_clear =
      let a = word_at map (bit / 64) in
      let m : ℕ = 2 ^ (bit % 64) in
      write_digit map bit (bit_and a (uint64_max - m)) 0 inside (λ k h. ground (
        arith,
        testbit-bit_and a (uint64_max - m) k,
        testbit-complement 64 m k (digit_small bit) h,
        testbit-pow (bit % 64) k,
        testbit-lt a k,
      ))

  pub bm_set-Words : Words map → Words (bm_set map bit)
  unfolding bm_set
  bm_set-Words words =
      let a = word_at map (bit / 64) in
      Words-set map bit (bit_or a (2 ^ (bit % 64))) 0 inside words
        (bit_or-lt 64 a (2 ^ (bit % 64)) (words (bit / 64)) (digit_small bit))

  pub bm_clear-Words : Words map → Words (bm_clear map bit)
  unfolding bm_clear
  bm_clear-Words words =
      let a = word_at map (bit / 64) in
      Words-set map bit (bit_and a (uint64_max - 2 ^ (bit % 64))) 0 inside words
        (omega (arith, words (bit / 64), bit_and-le_left a (uint64_max - 2 ^ (bit % 64))))

pub length-bm_set : (map : List ℕ) (bit : ℕ) → length (bm_set map bit) ≡ length map
unfolding bm_set
length-bm_set map bit = length-set map (bit / 64) (bit_or (word_at map (bit / 64)) (2 ^ (bit % 64)))

pub length-bm_clear : (map : List ℕ) (bit : ℕ) → length (bm_clear map bit) ≡ length map
unfolding bm_clear
length-bm_clear map bit =
    length-set map (bit / 64) (bit_and (word_at map (bit / 64)) (uint64_max - 2 ^ (bit % 64)))
