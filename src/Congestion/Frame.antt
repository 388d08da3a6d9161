-- ===== src/Congestion/Frame.antt =====
-- Congestion control writes neither the 4-tuple nor the flag of a TCB, nor what is sent and received.
use ai_pattarai.Common.{
  ℕ, ◌≤◌, ◌≡◌, refl, Bool, true, false, ltb, ◌==◌, Bool-cases, inl, inr, if◌then◌else◌, Option,
  none, some, arith, ◌*◌, ◌/◌, u32, u64, sub32, sub64, ◌∙◌,
}
use ai_pattarai.Tcb.{Tcb, is_throughput}
use ai_pattarai.Congestion.{
  CubicMath, divide, grow_by, newreno_on_ack, cubic_on_ack, congestion_on_ack, cc_cubic,
  congestion_fast_retransmit, congestion_on_rto, cubic_epoch, cubic_grow,
}

-- The fields that only the window's own are compared without.
abbrev pub unpaced : Tcb → Tcb
unpaced t = record t {
  cwnd = 0;
  ssthresh = 0;
  in_fast_recovery = false;
  dup_ack_count = 0;
  cubic_wmax = 0;
  cubic_epoch_start = 0;
  cubic_origin_point = 0;
  cubic_k_us = 0;
}

abbrev pub Paced : Tcb → Option Tcb → Type 0
Paced t none = 0 ≤ 0
Paced t (some t') = unpaced t' ≡ unpaced t

if-Paced :
    (t : Tcb) (b : Bool) (o o' : Option Tcb)
    → Paced t o
    → Paced t o'
    → Paced t (if b then o else o')
if-Paced t true o o' p p' = p
if-Paced t false o o' p p' = p'

grow_by-Paced : (t0 t : Tcb) (o : Option ℕ) → unpaced t ≡ unpaced t0 → Paced t0 (grow_by t o)
grow_by-Paced t0 t none e = omega arith
grow_by-Paced t0 t (some n) e = e

newreno-Paced : (t : Tcb) (n : ℕ) → Paced t (newreno_on_ack t n)
unfolding newreno_on_ack
newreno-Paced t n = if-Paced t t.in_fast_recovery _ _ refl (
    if-Paced t (ltb t.cwnd t.ssthresh) _ _ refl
      (grow_by-Paced t t (divide (u32 (t.mss_remote * t.mss_remote)) t.cwnd) refl))

cubic_grow-Paced :
    (m : CubicMath) (now hz : ℕ) (t0 t : Tcb)
    → unpaced t ≡ unpaced t0
    → Paced t0 (cubic_grow m now hz t)
cubic_grow-Paced m now hz t0 t e =
    let elapsed_us = u64 (sub64 now t.cubic_epoch_start * 1000000) / hz in
    let rtt_us = if ltb 0 t.srtt_us then t.srtt_us else 200000 in
    let target = m.target_bytes elapsed_us t.cubic_k_us t.cubic_origin_point rtt_us t.mss_remote in
    elim (Bool-cases (ltb t.cwnd target)) [
      | inl below ↦
          rw below (grow_by-Paced t0 t (divide (u32 (sub32 target t.cwnd * t.mss_remote)) t.cwnd) e)
      | inr above ↦
          rw above (grow_by-Paced t0 t (divide (u32 (t.mss_remote * t.mss_remote)) t.cwnd) e)
    ]

cubic-Paced : (m : CubicMath) (now hz : ℕ) (t : Tcb) (n : ℕ) → Paced t (cubic_on_ack m now hz t n)
unfolding cubic_on_ack
cubic-Paced m now hz t n = if-Paced t t.in_fast_recovery _ _ refl (
    if-Paced t (ltb t.cwnd t.ssthresh) _ _ refl (
      if-Paced t (t.cubic_epoch_start == 0) _ _
        (if-Paced t (t.mss_remote == 0) _ _ (omega arith) (
          if-Paced t (hz == 0) _ _ (omega arith)
            (cubic_grow-Paced m now hz t (cubic_epoch m now t) refl)))
        (if-Paced t (hz == 0) _ _ (omega arith) (cubic_grow-Paced m now hz t t refl))))

from : (t t1 : Tcb) (o : Option Tcb) → unpaced t1 ≡ unpaced t → Paced t1 o → Paced t o
from t t1 none e p = omega arith
from t t1 (some t') e p = p ∙ e

pub on_ack-Paced :
    (m : CubicMath) (now hz : ℕ) (t : Tcb) (n : ℕ) → Paced t (congestion_on_ack m now hz t n)
unfolding congestion_on_ack
on_ack-Paced m now hz t n = elim (Bool-cases (n == 0)) [
  | inl nothing ↦ rw nothing refl
  | inr more ↦ elim (Bool-cases (is_throughput t.app_ctx)) [
    | inl direct ↦ rw (more, direct) refl
    | inr paced ↦
        let t1 = record t { dup_ack_count = 0 } in
        elim (Bool-cases (t.cc_algo == cc_cubic)) [
          | inl cubic ↦
              rw (more, paced, cubic)
                (from t t1 (cubic_on_ack m now hz t1 n) refl (cubic-Paced m now hz t1 n))
          | inr reno ↦
              rw (more, paced, reno) (from t t1 (newreno_on_ack t1 n) refl (newreno-Paced t1 n))
        ]
  ]
]

pub fast_retransmit-Paced :
    (m : CubicMath) (t : Tcb) → unpaced (congestion_fast_retransmit m t) ≡ unpaced t
unfolding congestion_fast_retransmit
fast_retransmit-Paced m t = elim (Bool-cases (is_throughput t.app_ctx)) [
  | inl direct ↦ rw direct refl
  | inr paced ↦ elim (Bool-cases (t.cc_algo == cc_cubic)) [
    | inl cubic ↦ rw (paced, cubic) refl
    | inr reno ↦ rw (paced, reno) refl
  ]
]

pub on_rto-Paced : (m : CubicMath) (t : Tcb) → unpaced (congestion_on_rto m t) ≡ unpaced t
unfolding congestion_on_rto
on_rto-Paced m t = elim (Bool-cases (is_throughput t.app_ctx)) [
  | inl direct ↦ rw direct refl
  | inr paced ↦ elim (Bool-cases (t.cc_algo == cc_cubic)) [
    | inl cubic ↦ rw (paced, cubic) refl
    | inr reno ↦ rw (paced, reno) refl
  ]
]
