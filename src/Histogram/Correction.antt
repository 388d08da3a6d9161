-- ===== src/Histogram/Correction.antt =====
-- The correction for coordinated omission adds one sample for each whole interval.
use ai_pattarai.Common.{
  ℕ, zero, suc, ◌+◌, ◌-◌, ◌/◌, ◌^◌, ◌≤◌, ◌<◌, ◌≡◌, arith, false, leb, leb→le, ◌==◌, ◌||◌,
  Bool-cases, inl, inr, if◌then◌else◌, u64,
}
use native.Mathlib.Nat.{div-eq-sub-div, div-eq_of_lt}
use ai_pattarai.Histogram.{Histogram, record_sample, correct_loop, record_corrected}
use ai_pattarai.Histogram.Buckets.{IsValid, record_sample-IsValid}

less-leb : (a b : ℕ) → leb a b ≡ false → b < a
less-leb a b h = ground arith

-- Enough fuel: the loop ends when less than an interval is left.
correct_loop-IsValid :
    (fuel : ℕ) (h : Histogram) (extra interval : ℕ)
    → 0 < interval
    → extra ≤ fuel
    → extra < 2 ^ 64
    → IsValid h
    → IsValid (correct_loop fuel h extra interval)
      × ((correct_loop fuel h extra interval).total_count ≡ u64 (h.total_count + extra / interval))
unfolding correct_loop
correct_loop-IsValid zero h extra interval pos enough small v =
    let none_left : extra / interval ≡ 0 = div-eq_of_lt (omega arith) in
    (v, omega (arith, none_left, v.counted))
correct_loop-IsValid (suc fuel) h extra interval pos enough small v =
    elim (Bool-cases (leb interval extra)) [
      | inl more ↦
          let le = leb→le interval extra more in
          let (v1, one_more) = record_sample-IsValid h extra small v in
          let (v2, rest) =
            correct_loop-IsValid fuel (record_sample h extra) (extra - interval) interval pos
              (omega arith) (omega arith) v1 in
          rw more (v2, omega (arith, rest, one_more, div-eq-sub-div pos le))
      | inr less ↦
          let none_left : extra / interval ≡ 0 = div-eq_of_lt (less-leb interval extra less) in
          rw less (v, omega (arith, none_left, v.counted))
    ]

-- How many samples one measurement stands for.
abbrev pub samples : ℕ → ℕ → ℕ
samples us interval = if interval == 0 || leb us interval then 1 else us / interval

-- `hist_record_corrected` of a 64-bit measurement ends, keeps the histogram valid, and records one
-- sample, or one for each whole expected interval in a measurement longer than that.
pub record_corrected-IsValid :
    (h : Histogram) (us interval : ℕ)
    → us < 2 ^ 64
    → IsValid h
    → IsValid (record_corrected h us interval)
      × ((record_corrected h us interval).total_count ≡ u64 (h.total_count + samples us interval))
unfolding record_corrected
record_corrected-IsValid h us interval small v =
    let (v1, one) = record_sample-IsValid h us small v in
    elim (Bool-cases (interval == 0 || leb us interval)) [
      | inl single ↦ rw single (v1, one)
      | inr several ↦
          let pos : 0 < interval = ground arith in
          let longer : interval < us = ground arith in
          let (v2, rest) =
            correct_loop-IsValid us (record_sample h us) (us - interval) interval pos (omega arith)
              (omega arith) v1 in
          let shorter : interval ≤ us = omega arith in
          rw several (v2, omega (arith, rest, one, div-eq-sub-div pos shorter))
    ]
