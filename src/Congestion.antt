-- ===== src/Congestion.antt =====
-- Congestion control, vaigAI/src/net/tcp_congestion.c. A function that divides by `cwnd` or by the MSS
-- returns nothing when the divisor is 0, where the C program stops. The floating-point expressions of
-- CUBIC are a parameter. `now` and `hz` are what `rte_rdtsc()` and `rte_get_tsc_hz()` return.
pub mod Window
pub mod Frame
use ai_pattarai.Common.{
  ℕ, ◌+◌, ◌-◌, ◌*◌, ◌/◌, ◌^◌, Bool, true, false, ltb, ◌==◌, if◌then◌else◌, Option, none, some, u32,
  u64, sub32, sub64, uint32_max,
}
use ai_pattarai.Tcb.{Tcb, is_throughput}

abbrev pub cc_cubic : ℕ
cc_cubic = 1

-- `64u << 20`
abbrev pub cwnd_cap : ℕ
cwnd_cap = 64 * 2 ^ 20

abbrev pub cc_max : ℕ → ℕ → ℕ
cc_max a b = if ltb b a then a else b

abbrev pub cc_min : ℕ → ℕ → ℕ
cc_min a b = if ltb a b then a else b

-- `(uint32_t)(cbrt((double)diff / CUBIC_C) * 1e6)`, `target_bytes` from the elapsed time, K, the
-- origin, the RTT and the MSS, and `(uint32_t)(cwnd * CUBIC_BETA)`.
pub record CubicMath : Type 0 where
  pub k_us : ℕ → ℕ
  pub target_bytes : ℕ → ℕ → ℕ → ℕ → ℕ → ℕ
  pub scale_beta : ℕ → ℕ

-- `a / b` on unsigned integers
abbrev pub divide : ℕ → ℕ → Option ℕ
divide a b = if b == 0 then none else some (a / b)

-- `inc = ...; if (inc == 0) inc = 1; cwnd += inc; if (cwnd > 64u << 20) cwnd = 64u << 20;`
abbrev pub grow : Tcb → ℕ → Tcb
grow t inc =
    let cwnd' = u32 (t.cwnd + (if inc == 0 then 1 else inc)) in
    record t { cwnd = (if ltb cwnd_cap cwnd' then cwnd_cap else cwnd') }

abbrev pub grow_by : Tcb → Option ℕ → Option Tcb
grow_by t none = none
grow_by t (some inc) = some (grow t inc)

abbrev pub leave_recovery : Tcb → Tcb
leave_recovery t = record t { cwnd = t.ssthresh; in_fast_recovery = false }

-- In C the product of two `uint16_t` is an `int`, which overflows from an MSS of 46341 on; here it is
-- taken modulo 2^32.
unfoldable pub newreno_on_ack : Tcb → ℕ → Option Tcb
newreno_on_ack t acked =
    let slow = u32 (t.cwnd + cc_min acked t.mss_remote) in
    if t.in_fast_recovery
    then some (leave_recovery t)
    else if ltb t.cwnd t.ssthresh
    then some (record t { cwnd = (if ltb cwnd_cap slow then cwnd_cap else slow) })
    else grow_by t (divide (u32 (t.mss_remote * t.mss_remote)) t.cwnd)

-- The start of an epoch.
abbrev pub cubic_epoch : CubicMath → ℕ → Tcb → Tcb
cubic_epoch m now t =
    let wmax_mss = t.cubic_wmax / t.mss_remote in
    let cwnd_mss = t.cwnd / t.mss_remote in
    let diff = if ltb cwnd_mss wmax_mss then sub32 wmax_mss cwnd_mss else 0 in
    record t {
      cubic_epoch_start = now;
      cubic_k_us = (if ltb t.cwnd t.cubic_wmax then m.k_us diff else 0);
      cubic_origin_point = t.cubic_wmax / t.mss_remote;
    }

-- The part of `cubic_on_ack` after the epoch is known.
abbrev pub cubic_grow : CubicMath → ℕ → ℕ → Tcb → Option Tcb
cubic_grow m now hz t =
    let elapsed_us = u64 (sub64 now t.cubic_epoch_start * 1000000) / hz in
    let rtt_us = if ltb 0 t.srtt_us then t.srtt_us else 200000 in
    let target = m.target_bytes elapsed_us t.cubic_k_us t.cubic_origin_point rtt_us t.mss_remote in
    if ltb t.cwnd target
    then grow_by t (divide (u32 (sub32 target t.cwnd * t.mss_remote)) t.cwnd)
    else grow_by t (divide (u32 (t.mss_remote * t.mss_remote)) t.cwnd)

unfoldable pub cubic_on_ack : CubicMath → ℕ → ℕ → Tcb → ℕ → Option Tcb
cubic_on_ack m now hz t acked =
    if t.in_fast_recovery
    then some (leave_recovery t)
    else if ltb t.cwnd t.ssthresh
    then some (record t { cwnd = u32 (t.cwnd + cc_min acked t.mss_remote) })
    else if t.cubic_epoch_start == 0
    then (if t.mss_remote == 0
        then none
        else if hz == 0
        then none
        else cubic_grow m now hz (cubic_epoch m now t))
    else if hz == 0
    then none
    else cubic_grow m now hz t

unfoldable pub congestion_on_ack : CubicMath → ℕ → ℕ → Tcb → ℕ → Option Tcb
unfolding newreno_on_ack cubic_on_ack
congestion_on_ack m now hz t acked =
    let t1 = record t { dup_ack_count = 0 } in
    if acked == 0
    then some t
    else if is_throughput t.app_ctx
    then some (record t1 { cwnd = uint32_max })
    else if t.cc_algo == cc_cubic
    then cubic_on_ack m now hz t1 acked
    else newreno_on_ack t1 acked

unfoldable pub congestion_fast_retransmit : CubicMath → Tcb → Tcb
congestion_fast_retransmit m t =
    let flight = sub32 t.snd_nxt t.snd_una in
    let cubic = cc_max (m.scale_beta t.cwnd) (2 * t.mss_remote) in
    let reno = cc_max (flight / 2) (2 * t.mss_remote) in
    if is_throughput t.app_ctx
    then t
    else if t.cc_algo == cc_cubic
    then record t {
      cubic_wmax = t.cwnd;
      cubic_epoch_start = 0;
      ssthresh = cubic;
      cwnd = u32 (cubic + 3 * t.mss_remote);
      in_fast_recovery = true;
    }
    else record t { ssthresh = reno; cwnd = u32 (reno + 3 * t.mss_remote); in_fast_recovery = true }

unfoldable pub congestion_on_rto : CubicMath → Tcb → Tcb
congestion_on_rto m t =
    let flight = sub32 t.snd_nxt t.snd_una in
    let reset = record t { cwnd = t.mss_remote; in_fast_recovery = false; dup_ack_count = 0 } in
    if is_throughput t.app_ctx
    then t
    else if t.cc_algo == cc_cubic
    then record reset {
      cubic_wmax = t.cwnd;
      cubic_epoch_start = 0;
      ssthresh = cc_max (m.scale_beta t.cwnd) (2 * t.mss_remote);
    }
    else record reset { ssthresh = cc_max (flight / 2) (2 * t.mss_remote) }
