-- ===== src/Histogram/Percentile.antt =====
-- A percentile is the upper end of the bucket in which the target is reached.
use ai_pattarai.Common.{
  ℕ, zero, suc, ◌+◌, ◌^◌, ◌≤◌, ◌<◌, ◌≡◌, refl, arith, false, leb, leb→le, ◌==◌, Bool-cases, inl,
  inr, if◌then◌else◌, u64, List, [], ◌∷◌, length, get_or, take, Option, none, some,
}
use ai_pattarai.Histogram.{Histogram, hist_buckets, percentile, percentile_loop}
use ai_pattarai.Histogram.Buckets.{IsValid, total}

-- The samples in the first i buckets.
abbrev pub below : Histogram → ℕ → ℕ
below h i = total (take i h.counts)

total-take-suc :
    (xs : List ℕ) (i : ℕ)
    → i < length xs
    → total (take (suc i) xs) ≡ total (take i xs) + get_or xs i 0
total-take-suc [] i h = absurd (omega arith)
total-take-suc (x ∷ xs) zero h = omega arith
total-take-suc (x ∷ xs) (suc i) h = omega (arith, total-take-suc xs i (omega arith))

total-take_le : (xs : List ℕ) (i : ℕ) → total (take i xs) ≤ total xs
total-take_le [] zero = omega arith
total-take_le [] (suc i) = omega arith
total-take_le (x ∷ xs) zero = omega arith
total-take_le (x ∷ xs) (suc i) = omega (arith, total-take_le xs i)

total-take_all : (xs : List ℕ) (i : ℕ) → length xs ≤ i → total (take i xs) ≡ total xs
total-take_all [] zero h = refl
total-take_all [] (suc i) h = refl
total-take_all (x ∷ xs) zero h = absurd (omega arith)
total-take_all (x ∷ xs) (suc i) h = omega (arith, total-take_all xs i (omega arith))

abbrev pub Reached : Histogram → ℕ → Option ℕ → Type 0
Reached h target r =
    (i : ℕ) × (i < hist_buckets)
    × (below h i < target)
    × (target ≤ below h (suc i))
    × (r ≡ (if i == 63 then none else some (2 ^ (i + 1))))

module _ (h : Histogram) (target : ℕ) (v : IsValid h) (exact : total h.counts < 2 ^ 64)
    (enough : target ≤ total h.counts) where
  percentile_loop-Reached :
      (rounds i : ℕ)
      → i + rounds ≡ hist_buckets
      → below h i < target
      → Reached h target (percentile_loop h target rounds i (below h i))
  unfolding percentile_loop
  percentile_loop-Reached zero i e low =
      absurd (omega (arith, total-take_all h.counts i (omega (arith, v.counts_len))))
  percentile_loop-Reached (suc rounds) i e low =
      let seen : u64 (below h i + get_or h.counts i 0) ≡ below h (suc i) = omega (
        arith,
        total-take-suc h.counts i (omega (arith, v.counts_len)),
        total-take_le h.counts (suc i),
      ) in
      let next : i + 1 ≡ suc i = omega arith in
      rw seen (elim (Bool-cases (leb target (below h (suc i)))) [
        | inl yes' ↦ rw yes' (i, omega arith, low, leb→le target (below h (suc i)) yes', refl)
        | inr no' ↦
            rw (no', next) (percentile_loop-Reached rounds (suc i) (omega arith) (ground arith))
      ])

-- For a histogram whose counts do not overflow and a target from 1 to the number of samples,
-- `hist_percentile` stops in the first bucket at which the samples counted from the lowest bucket on
-- reach the target, and returns that bucket's upper end; only bucket 63 has none in C.
pub percentile-Reached :
    (h : Histogram) (target : ℕ)
    → IsValid h
    → total h.counts < 2 ^ 64
    → 0 < target
    → target ≤ total h.counts
    → Reached h target (percentile h target)
unfolding percentile
percentile-Reached h target v exact pos enough =
    let some_counted : (h.total_count == 0) ≡ false = ground (arith, v.counted) in
    let same : (target == 0) ≡ false = ground arith in
    rw (some_counted, same)
      (percentile_loop-Reached h target v exact enough hist_buckets 0 refl (ground arith))
