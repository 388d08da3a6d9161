-- ===== src/Tests/Telemetry.antt =====
-- Concrete congestion windows and histograms.
use ai_pattarai.Common.{
  ℕ, ◌+◌, ◌*◌, ◌^◌, ◌≤◌, ◌<◌, ◌≡◌, ◌≢◌, ◌↔◌, suc, refl, false, some, none, arith, max, u64,
}
use ai_pattarai.Tcb.{Tcb, zero_tcb}
use ai_pattarai.Congestion.{CubicMath, congestion_on_ack, congestion_on_rto}
use ai_pattarai.Congestion.Window.{IsReno, IsWindow, Grows, on_ack-IsWindow, division_by_zero}
use ai_pattarai.Histogram.{
  Histogram, clz, hist_buckets, bucket, reset, record_sample, record_corrected, percentile,
}
use ai_pattarai.Histogram.Buckets.{IsValid, bucket-bounds, record_sample-IsValid, total}
use ai_pattarai.Histogram.Correction.{samples, record_corrected-IsValid}
use ai_pattarai.Histogram.Percentile.{Reached, percentile-Reached}

abbrev no_cubic : CubicMath
no_cubic = record { k_us = λ d. d; target_bytes = λ e k o r s. o * s; scale_beta = λ c. c }

-- A connection in congestion avoidance.
abbrev reno : Tcb
reno = record zero_tcb {
  mss_remote = 1460;
  cwnd = 14600;
  ssthresh = 8192;
  snd_nxt = 9000;
  snd_una = 1000;
}

reno-IsReno : IsReno reno
reno-IsReno = record {
  controlled = refl;
  newreno = refl;
  mss_some = omega arith;
  mss_small = omega arith;
}

reno-IsWindow : IsWindow reno
reno-IsWindow = record {
  one_segment = omega arith;
  two_segments = omega arith;
  no_overflow = omega arith;
  recovering = omega arith;
}

on_ack-IsWindow_example :
    (t' : Tcb) × (congestion_on_ack no_cubic 0 1 reno 1460 ≡ some t')
    × (t'.mss_remote ≡ reno.mss_remote)
    × IsReno t'
    × IsWindow t'
    × Grows reno 1460 t'
on_ack-IsWindow_example =
    on_ack-IsWindow no_cubic 0 1 reno 1460 reno-IsReno reno-IsWindow (λ e. absurd (omega arith))

abbrev acked_bytes : ℕ
acked_bytes = 1

-- A peer that announced an MSS of 0, after a timeout with nothing in flight.
abbrev no_mss : Tcb
no_mss = congestion_on_rto no_cubic zero_tcb

division_by_zero_example : congestion_on_ack no_cubic 0 1 no_mss acked_bytes ≡ none ↔ (
    (acked_bytes ≢ 0)
    × (no_mss.in_fast_recovery ≡ false)
    × (no_mss.cwnd ≡ 0)
    × (no_mss.ssthresh ≡ 0))
unfolding congestion_on_rto
division_by_zero_example = division_by_zero no_cubic 0 1 no_mss acked_bytes refl refl

bucket-bounds_example :
    (bucket 1000 < hist_buckets) × (1000 < 2 ^ suc (bucket 1000)) × (2 ^ bucket 1000 ≤ max 1000 1)
bucket-bounds_example = bucket-bounds 1000 (omega arith)

reset-IsValid : IsValid reset
reset-IsValid = record { counts_len = refl; counted = refl }

record_corrected-IsValid_example :
    IsValid (record_corrected reset 1000 300)
    × ((record_corrected reset 1000 300).total_count ≡ u64 (0 + samples 1000 300))
record_corrected-IsValid_example =
    record_corrected-IsValid reset 1000 300 (omega arith) reset-IsValid

abbrev one_sample : Histogram
one_sample = record_sample reset 1000

one_counted : total one_sample.counts ≡ 1
unfolding record_sample clz
one_counted = refl

percentile-Reached_example : Reached one_sample 1 (percentile one_sample 1)
percentile-Reached_example =
    percentile-Reached one_sample 1 (record_sample-IsValid reset 1000 (omega arith) reset-IsValid).0
      (omega (arith, one_counted)) (omega arith) (omega (arith, one_counted))
