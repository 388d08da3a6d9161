-- ===== src/TimerWheel/Late.antt =====
-- A deadline that has passed already, and where `tcp_timer_schedule` puts it.
use ai_pattarai.Common.{
  ℕ, ◌+◌, ◌*◌, ◌/◌, ◌<◌, ◌≤◌, ◌≢◌, ◌≡◌, ap, ◌∙◌, Bool, false, ◌&&◌, ◌||◌, not, ltb, ◌==◌, leb,
  if◌then◌else◌, bit_and, u32, u64, sub64, uint64_max, arith, le→ltb, bit_and_mask,
}
use native.Mathlib.Nat.{zero-div}
use ai_pattarai.Tcb.{Tcb, is_state, established}
use ai_pattarai.Worker.{Wheel, wheel_mask, wheel_slots}
use ai_pattarai.TimerWheel.{earliest_deadline, target_slot, rsp_timeout_us, hs_timeout_s}

lower : (b : Bool) (x e : ℕ) → (if b then (if ltb x e then x else e) else e) ≤ e
lower b x e = ground arith

pick : (b : Bool) (d e : ℕ) → (if b && ltb d e then d else e) ≤ e
pick b d e = ground arith

set_pick : (d e : ℕ) → d ≢ 0 → (if not (d == 0) && ltb d e then d else e) ≤ d
set_pick d e set = ground arith

chain_le : {a b c : ℕ} → a ≤ b → b ≤ c → a ≤ c
chain_le {a} {b} {c} x y = omega arith

earliest-le :
    (t : Tcb) (now hz : ℕ)
    → t.timewait_deadline_tsc ≢ 0
    → earliest_deadline t now hz ≤ t.timewait_deadline_tsc
unfolding earliest_deadline
earliest-le t now hz set =
    let e1 =
      if not (t.rto_deadline_tsc == 0) && ltb t.rto_deadline_tsc uint64_max
      then t.rto_deadline_tsc
      else uint64_max in
    let e2 =
      if not (t.timewait_deadline_tsc == 0) && ltb t.timewait_deadline_tsc e1
      then t.timewait_deadline_tsc
      else e1 in
    let e3 =
      if not (t.think_deadline_tsc == 0) && ltb t.think_deadline_tsc e2
      then t.think_deadline_tsc
      else e2 in
    let http_dl = u64 (t.http_req_sent_tsc + rsp_timeout_us * (hz / 1000000)) in
    let waits = not (t.http_req_sent_tsc == 0) && ltb t.http_req_sent_tsc e3 in
    let e4 = if waits then (if ltb http_dl e3 then http_dl else e3) else e3 in
    let tls_dl = u64 (t.timewait_deadline_tsc + hs_timeout_s * hz) in
    let shakes =
      is_state t.state established
      && (t.app_state == 1 || t.app_state == 2)
      && not (t.timewait_deadline_tsc == 0) in
    let e5 = if shakes then (if ltb tls_dl e4 then tls_dl else e4) else e4 in
    let streams = is_state t.state established && t.app_state == 12 in
    let e6 = if streams then (if ltb now e5 then now else e5) else e5 in
    let h2 : e2 ≤ t.timewait_deadline_tsc = set_pick t.timewait_deadline_tsc e1 set in
    let h3 : e3 ≤ e2 = pick (not (t.think_deadline_tsc == 0)) t.think_deadline_tsc e2 in
    let h4 : e4 ≤ e3 = lower waits http_dl e3 in
    let h5 : e5 ≤ e4 = lower shakes tls_dl e4 in
    let h6 : e6 ≤ e5 = lower streams now e5 in
    chain_le h6 (chain_le h5 (chain_le h4 (chain_le h3 h2)))

-- While the `timewait_deadline_tsc` of a TCB is set and has passed, the TCB is scheduled into the slot
-- that the wheel stands at, one of its slots, whatever other deadlines the TCB has and however far
-- ahead they are.
pub past_deadline_lem :
    (wh : Wheel) (t : Tcb) (now later hz : ℕ)
    → t.timewait_deadline_tsc ≢ 0
    → t.timewait_deadline_tsc ≤ later
    → wh.current < wheel_slots
    → target_slot wh later (earliest_deadline t now hz) ≡ wh.current
past_deadline_lem wh t now later hz set past small =
    let dl = earliest_deadline t now hz in
    let none_left : ltb later dl ≡ false =
      le→ltb later dl (chain_le (earliest-le t now hz set) past) in
    let slot = λ (ahead : ℕ).
      if leb wheel_slots ahead
      then wheel_slots
      else bit_and (u32 (wh.current + ahead)) wheel_mask in
    let wrapped = bit_and_mask 12 (u32 (wh.current + 0)) in
    ap (λ (b : Bool). slot (u32 ((if b then sub64 dl later else 0) / wh.tsc_per_slot))) none_left
    ∙ ap (λ (d : ℕ). slot (u32 d)) (zero-div wh.tsc_per_slot)
    ∙ wrapped
    ∙ omega arith
