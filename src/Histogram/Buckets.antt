-- ===== src/Histogram/Buckets.antt =====
-- A sample is counted once, in the bucket that its power of two names.
use ai_pattarai.Common.{
  ℕ, zero, suc, ◌+◌, ◌-◌, ◌*◌, ◌/◌, ◌^◌, ◌≤◌, ◌<◌, ◌≡◌, false, refl, ◌∙◌, arith, leb, leb→le,
  Bool-cases, inl, inr, List, [], ◌∷◌, length, get_or, set, length-set, u64, bit_or, bit_or-half,
  bit_or-last, bit_or-none, max,
}
use native.Mathlib.Nat.{pow-suc}
use ai_pattarai.Histogram.{Histogram, hist_buckets, clz, bucket, record_sample}

-- The leading digit, number k.
clz_lem :
    (n x : ℕ) → 0 < x → x < 2 ^ n → (k : ℕ) × (clz n x + suc k ≡ n) × (2 ^ k ≤ x) × (x < 2 ^ suc k)
unfolding clz
clz_lem zero x h u = absurd (omega arith)
clz_lem (suc n) x h u = elim (Bool-cases (leb (2 ^ n) x)) [
  | inl top ↦ (n, rw top (omega arith), leb→le (2 ^ n) x top, u)
  | inr low ↦ let (k, a, b, c) = clz_lem n x h (ground arith) in (k, rw low (omega arith), b, c)
]

-- `us | 1` is `us`, or the odd number after it.
odd-eq : (us : ℕ) → bit_or us 1 ≡ us / 2 * 2 + 1
odd-eq us = omega (arith, bit_or-half us 1, bit_or-last us 1, bit_or-none (us / 2))

odd-power-le : (k us : ℕ) → 2 ^ k ≤ us / 2 * 2 + 1 → 2 ^ k ≤ max us 1
odd-power-le zero us h = omega arith
odd-power-le (suc k) us h = omega (arith, pow-suc 2 k)

-- Every 64-bit sample falls into a bucket of the array: number i holds those from 2^i up to 2^(i+1),
-- and number 0 also holds 0.
pub bucket-bounds :
    (us : ℕ)
    → us < 2 ^ 64
    → (bucket us < hist_buckets) × (us < 2 ^ suc (bucket us)) × (2 ^ bucket us ≤ max us 1)
bucket-bounds us h =
    let (k, e, low, high) =
      clz_lem 64 (bit_or us 1) (omega (arith, odd-eq us)) (omega (arith, odd-eq us)) in
    let index : 63 - clz 64 (bit_or us 1) ≡ k = omega arith in
    let inside : leb hist_buckets k ≡ false = ground arith in
    rw (index, inside)
      (omega arith, omega (arith, odd-eq us), odd-power-le k us (omega (arith, odd-eq us)))

abbrev pub total : List ℕ → ℕ
total [] = 0
total (x ∷ xs) = x + total xs

pub record IsValid (h : Histogram) : Type 0 where
  pub counts_len : length h.counts ≡ hist_buckets
  pub counted : u64 (total h.counts) ≡ h.total_count

total-set :
    (xs : List ℕ) (i v : ℕ) → i < length xs → total (set xs i v) + get_or xs i 0 ≡ total xs + v
total-set [] i v h = absurd (omega arith)
total-set (x ∷ xs) zero v h = omega arith
total-set (x ∷ xs) (suc i) v h = omega (arith, total-set xs i v (omega arith))

-- What a sample adds.
pub record_sample-IsValid :
    (h : Histogram) (us : ℕ)
    → us < 2 ^ 64
    → IsValid h
    → IsValid (record_sample h us) × ((record_sample h us).total_count ≡ u64 (h.total_count + 1))
unfolding record_sample
record_sample-IsValid h us small v =
    let i : ℕ = bucket us in
    let old : ℕ = get_or h.counts i 0 in
    let inside : i < length h.counts = omega (arith, (bucket-bounds us small).0, v.counts_len) in
    (
      record {
        counts_len = length-set h.counts i (u64 (old + 1)) ∙ v.counts_len;
        counted = omega (arith, total-set h.counts i (u64 (old + 1)) inside, v.counted);
      },
      refl,
    )
