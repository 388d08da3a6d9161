-- ===== src/TimerWheel.antt =====
-- The timer wheel of vaigAI/src/net/tcp_timer.c: intrusive doubly linked chains of TCBs, one for each
-- slot of 1 ms and one for deadlines beyond a revolution. `now` is what `rte_rdtsc()` returns during
-- the call, and `hz` what `rte_get_tsc_hz()` returns.
pub mod Frame
pub mod Links
pub mod Late
use ai_pattarai.Common.{
  ℕ, ◌+◌, ◌*◌, ◌/◌, true, ◌&&◌, ◌||◌, ltb, leb, ◌==◌, if◌then◌else◌, not, get_or, set, replicate,
  u32, u64, sub64, uint64_max, bit_and,
}
use ai_pattarai.Tcb.{Tcb, is_state, established}
use ai_pattarai.Worker.{Wheel, Worker, wheel_slots, wheel_mask, slot_none, nil, tcb_at, put_tcb}

-- `*head = v` for the head of a slot's chain, or of the overflow chain.
abbrev pub set_head : Wheel → ℕ → ℕ → Wheel
set_head wh slot v =
    if slot == wheel_slots
    then record wh { overflow = v }
    else record wh { slots = set wh.slots slot v }

abbrev pub head : Wheel → ℕ → ℕ
head wh slot = if slot == wheel_slots then wh.overflow else get_or wh.slots slot nil

-- "Update prev link" of `wheel_remove`, for the TCB `t` that goes.
abbrev pub unlink_prev : Worker → Tcb → Worker
unlink_prev w t =
    if t.tw_prev == nil
    then record w { wheel = set_head w.wheel t.tw_slot t.tw_next }
    else put_tcb w t.tw_prev (record (tcb_at w t.tw_prev) { tw_next = t.tw_next })

-- "Update next link"
abbrev pub unlink_next : Worker → Tcb → Worker
unlink_next w t =
    if t.tw_next == nil
    then w
    else put_tcb w t.tw_next (record (tcb_at w t.tw_next) { tw_prev = t.tw_prev })

abbrev pub clear_links : Worker → ℕ → Worker
clear_links w ci =
    put_tcb w ci (record (tcb_at w ci) { tw_slot = slot_none; tw_next = nil; tw_prev = nil })

-- The links of `tcb` do not change before the last lines of the C function, so they are read once.
unfoldable pub wheel_remove : Worker → ℕ → Worker
wheel_remove w ci =
    let t = tcb_at w ci in
    if t.tw_slot == slot_none then w else clear_links (unlink_next (unlink_prev w t) t) ci

-- The new head's links, `h` being the old head.
abbrev pub link_new : Worker → ℕ → ℕ → Worker
link_new w ci h = put_tcb w ci (record (tcb_at w ci) { tw_prev = nil; tw_next = h })

abbrev pub link_old : Worker → ℕ → ℕ → Worker
link_old w ci h = if h == nil then w else put_tcb w h (record (tcb_at w h) { tw_prev = ci })

unfoldable pub wheel_insert_slot : Worker → ℕ → ℕ → Worker
wheel_insert_slot w ci slot =
    let h = head w.wheel slot in
    let w2 = link_old (link_new w ci h) ci h in
    let w3 = record w2 { wheel = set_head w2.wheel slot ci } in
    put_tcb w3 ci (record (tcb_at w3 ci) { tw_slot = slot })

abbrev earlier : ℕ → ℕ → ℕ
earlier deadline earliest =
    if not (deadline == 0) && ltb deadline earliest then deadline else earliest

abbrev pub rsp_timeout_us : ℕ
rsp_timeout_us = 5000000

abbrev pub hs_timeout_s : ℕ
hs_timeout_s = 5

unfoldable pub earliest_deadline : Tcb → ℕ → ℕ → ℕ
earliest_deadline t now hz =
    let e1 = earlier t.rto_deadline_tsc uint64_max in
    let e2 = earlier t.timewait_deadline_tsc e1 in
    let e3 = earlier t.think_deadline_tsc e2 in
    let http_dl = u64 (t.http_req_sent_tsc + rsp_timeout_us * (hz / 1000000)) in
    let e4 =
      if not (t.http_req_sent_tsc == 0) && ltb t.http_req_sent_tsc e3
      then (if ltb http_dl e3 then http_dl else e3)
      else e3 in
    let tls_dl = u64 (t.timewait_deadline_tsc + hs_timeout_s * hz) in
    let e5 =
      if is_state t.state established
        && (t.app_state == 1 || t.app_state == 2)
        && not (t.timewait_deadline_tsc == 0)
      then (if ltb tls_dl e4 then tls_dl else e4)
      else e4 in
    if is_state t.state established && t.app_state == 12
    then (if ltb now e5 then now else e5)
    else e5

-- The wheel of one worker after `tcp_timer_init`.
unfoldable pub init : ℕ → ℕ → Wheel
init now hz = record {
  slots = replicate wheel_slots nil;
  overflow = nil;
  dack_head = nil;
  current = 0;
  tsc_per_slot = hz / 1000;
  last_tick_tsc = now;
}

-- The slot that `tcp_timer_schedule` inserts into, for a clock of 1 kHz at least: below that
-- `tsc_per_slot` is 0, and the division traps in C.
abbrev pub target_slot : Wheel → ℕ → ℕ → ℕ
target_slot wh now deadline =
    let delta = if ltb now deadline then sub64 deadline now else 0 in
    let slots_ahead = u32 (delta / wh.tsc_per_slot) in
    if leb wheel_slots slots_ahead
    then wheel_slots
    else bit_and (u32 (wh.current + slots_ahead)) wheel_mask

unfoldable pub schedule : Worker → ℕ → ℕ → ℕ → Worker
unfolding wheel_remove wheel_insert_slot
schedule w ci now deadline =
    let w1 = if (tcb_at w ci).tw_slot == slot_none then w else wheel_remove w ci in
    wheel_insert_slot w1 ci (target_slot w1.wheel now deadline)

unfoldable pub cancel : Worker → ℕ → Worker
unfolding wheel_remove
cancel w ci = wheel_remove w ci

-- `now` is read by `tcb_earliest_deadline`, and `later` by `tcp_timer_schedule`.
unfoldable pub resched : Worker → ℕ → ℕ → ℕ → ℕ → Worker
unfolding earliest_deadline schedule wheel_remove
resched w ci now later hz =
    let dl = earliest_deadline (tcb_at w ci) now hz in
    if dl == uint64_max
    then (if (tcb_at w ci).tw_slot == slot_none then w else wheel_remove w ci)
    else schedule w ci later dl

unfoldable pub dack_add : Worker → ℕ → Worker
dack_add w ci =
    if (tcb_at w ci).in_dack_list
    then w
    else (let t = record (tcb_at w ci) { dack_next = w.wheel.dack_head; in_dack_list = true } in
        put_tcb (record w { wheel = record (w.wheel) { dack_head = ci } }) ci t)
