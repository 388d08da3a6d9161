-- ===== src/Histogram.antt =====
-- The latency histogram, vaigAI/src/telemetry/histogram.h and histogram.c.
pub mod Buckets
pub mod Correction
pub mod Percentile
use ai_pattarai.Common.{
  ℕ, zero, suc, ◌+◌, ◌-◌, ◌*◌, ◌/◌, ◌^◌, ltb, leb, ◌||◌, ◌==◌, if◌then◌else◌, Option, none, some,
  List, get_or, set, replicate, u64, sub64, uint64_max, bit_or,
}

abbrev pub hist_buckets : ℕ
hist_buckets = 64

pub record Histogram : Type 0 where
  pub counts : List ℕ
  pub total_count : ℕ
  pub total_sum_us : ℕ
  pub min_us : ℕ
  pub max_us : ℕ

abbrev pub reset : Histogram
reset = record {
  counts = replicate hist_buckets 0;
  total_count = 0;
  total_sum_us = 0;
  min_us = uint64_max;
  max_us = 0;
}

-- `__builtin_clzll` on a number of n digits
unfoldable pub clz : ℕ → ℕ → ℕ
clz zero x = 0
clz (suc n) x = let rest = suc (clz n x) in if leb (2 ^ n) x then 0 else rest

abbrev pub bucket : ℕ → ℕ
bucket us =
    let idx = 63 - clz 64 (bit_or us 1) in if leb hist_buckets idx then hist_buckets - 1 else idx

-- `hist_record`
unfoldable pub record_sample : Histogram → ℕ → Histogram
record_sample h us = record {
  counts = set h.counts (bucket us) (u64 (get_or h.counts (bucket us) 0 + 1));
  total_count = u64 (h.total_count + 1);
  total_sum_us = u64 (h.total_sum_us + us);
  min_us = (if ltb us h.min_us then us else h.min_us);
  max_us = (if ltb h.max_us us then us else h.max_us);
}

-- The loop of `hist_record_corrected` on fuel; each round takes the interval off `extra`.
unfoldable pub correct_loop : ℕ → Histogram → ℕ → ℕ → Histogram
correct_loop zero h extra interval = h
correct_loop (suc fuel) h extra interval =
    let rest = correct_loop fuel (record_sample h extra) (extra - interval) interval in
    if leb interval extra then rest else h

unfoldable pub record_corrected : Histogram → ℕ → ℕ → Histogram
record_corrected h us interval =
    let h1 = record_sample h us in
    if interval == 0 || leb us interval then h1 else correct_loop us h1 (us - interval) interval

-- The loop of `hist_percentile`: the rounds left, the bucket `i` and the samples seen; nothing stands
-- for the shift by 64 of the last bucket, which C leaves undefined.
unfoldable pub percentile_loop : Histogram → ℕ → ℕ → ℕ → ℕ → Option ℕ
percentile_loop h target zero i seen = some h.max_us
percentile_loop h target (suc rounds) i seen =
    let seen' = u64 (seen + get_or h.counts i 0) in
    let rest = percentile_loop h target rounds (i + 1) seen' in
    if leb target seen' then (if i == 63 then none else some (2 ^ (i + 1))) else rest

-- `target` is `(uint64_t)((p / 100.0) * total_count)`.
unfoldable pub percentile : Histogram → ℕ → Option ℕ
percentile h target =
    if h.total_count == 0
    then some 0
    else percentile_loop h (if target == 0 then 1 else target) hist_buckets 0 0
