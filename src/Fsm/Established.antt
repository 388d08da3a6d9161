-- ===== src/Fsm/Established.antt =====
-- `tcp_fsm_input` in the states in which data flows, ESTABLISHED and CLOSE_WAIT. Nothing is returned
-- where the congestion control divides by zero and the C program stops.
use ai_pattarai.Common.{
  ℕ, ◌+◌, ◌*◌, ◌/◌, Bool, true, false, ◌&&◌, ◌||◌, not, ltb, leb, ◌==◌, if◌then◌else◌, Option, none,
  some, List, length, take, u8, u32, u64, sub32,
}
use ai_pattarai.SendBuffer
use ai_pattarai.SendBuffer.{SndBuf}
use ai_pattarai.Tcb.{Tcb, established, close_wait, is_state, is_throughput}
use ai_pattarai.TimerWheel.{dack_add}
use ai_pattarai.Congestion.{congestion_on_ack, congestion_fast_retransmit}
use ai_pattarai.Transmit.{update_rtt, effective_mss, tgen_min}
use ai_pattarai.Fsm.{Env, World, conn, edit, transmit, timer, arm_rto, flags_ack}
use ai_pattarai.Fsm.Calls.{reset, close, drain}
use ai_pattarai.Fsm.Http.{next_txn, send_next_request, rsp_body_start, rsp_body_recv, is_nil}
use ai_pattarai.Fsm.Input.{Rx, Upper, seq_gt, ack_of, echo_us, scaled_win}

abbrev pub delayed_ack_us : ℕ
delayed_ack_us = 40000

abbrev pub trimmed : Option SndBuf → ℕ → Option SndBuf
trimmed none n = none
trimmed (some sb) n = some (SendBuffer.ack sb n)

-- A new acknowledgement; after a go-back-N it may jump past snd_nxt.
abbrev pub advanced : ℕ → Tcb → Tcb
advanced ack t = record t {
  snd_una = ack;
  snd_nxt = (if seq_gt ack t.snd_nxt then ack else t.snd_nxt);
  dup_ack_count = 0;
}

abbrev pub cleared : ℕ → Tcb → Tcb
cleared n t = record t { retransmit_count = 0; snd_buf = trimmed t.snd_buf n }

abbrev pub disarmed : Tcb → Tcb
disarmed t = record t { rto_deadline_tsc = 0 }

-- The timeout after a new acknowledgement.
abbrev pub rearmed : Env → World → ℕ → World
rearmed env w ci =
    if (conn w ci).snd_una == (conn w ci).snd_nxt
    then timer env (edit w ci disarmed) ci
    else arm_rto env w ci

-- What both states do for `n` bytes newly acknowledged, up to the drain, with the window grown to `t`.
abbrev pub progressed : Env → World → ℕ → ℕ → Option Tcb → Option World
progressed env w ci n none = none
progressed env w ci n (some t) = some (rearmed env (edit w ci (λ u. cleared n t)) ci)

abbrev pub new_ack : Env → World → ℕ → Rx → Option World
new_ack env w ci rx =
    let n = sub32 rx.ack (conn w ci).snd_una in
    let t = advanced rx.ack (conn w ci) in
    progressed env (edit w ci (λ u. t)) ci n (congestion_on_ack env.math env.now env.hz t n)

abbrev pub measured : Env → Rx → Tcb → Tcb
measured env rx t =
    if rx.opts.has_timestamps && t.ts_enabled && ltb (echo_us env rx) 60000000
    then update_rtt t (echo_us env rx)
    else t

abbrev pub pumped : Upper → World → ℕ → World
pumped up w ci = if (conn w ci).app_state == 12 then up.srv_stream_pump w ci else w

abbrev pub after_ack : Env → Upper → Rx → ℕ → Option World → Option World
after_ack env up rx ci none = none
after_ack env up rx ci (some w) = some (pumped up (drain env (edit w ci (measured env rx)) ci) ci)

-- Fast retransmission of the oldest segment.
abbrev pub resend_oldest : Env → World → ℕ → Option SndBuf → World
resend_oldest env w ci none = w
resend_oldest env w ci (some sb) =
    let len = tgen_min sb.len (effective_mss (conn w ci)) in
    if ltb 0 sb.len
    then transmit env w ci flags_ack (take len sb.bytes) (conn w ci).snd_una (conn w ci).rcv_nxt
    else w

abbrev pub once_more : Tcb → Tcb
once_more t = record t { dup_ack_count = u8 (t.dup_ack_count + 1) }

abbrev pub dup_ack : Env → World → ℕ → World
dup_ack env w ci =
    let w1 = edit w ci once_more in
    let w2 = edit w1 ci (congestion_fast_retransmit env.math) in
    if (conn w1 ci).dup_ack_count == 3 then resend_oldest env w2 ci (conn w2 ci).snd_buf else w1

abbrev pub window_set : Rx → Option World → ℕ → Option World
window_set rx none ci = none
window_set rx (some w) ci = some (edit w ci (λ t. record t { snd_wnd = scaled_win rx t }))

-- "ACK processing" in ESTABLISHED.
unfoldable pub take_ack : Env → Upper → World → ℕ → Rx → Option World
take_ack env up w ci rx =
    let fresh = after_ack env up rx ci (new_ack env w ci rx) in
    let same = if rx.ack == (conn w ci).snd_una then dup_ack env w ci else w in
    if not rx.flags.ack
    then some w
    else window_set rx (if seq_gt rx.ack (conn w ci).snd_una then fresh else some same) ci

abbrev pub received : Env → ℕ → Tcb → Tcb
received env len t = record t {
  rcv_nxt = u32 (t.rcv_nxt + len);
  pending_ack = true;
  delayed_ack_tsc = u64 (env.now + u64 (delayed_ack_us * env.hz) / 1000000);
}

abbrev pub in_tls : ℕ → Bool
in_tls s = s == 2 || s == 3 || s == 5 || s == 6

-- What follows a response: the next request, a pause, or the end.
abbrev pub after_response : Env → Upper → World × ℕ → ℕ → List ℕ → World × Bool
after_response env up (w, next) ci bytes =
    if next == 4
    then (send_next_request env up.encrypt w ci, false)
    else if next == 7
    then (edit w ci (λ t. record t { app_state = 7 }), false)
    else if not (conn w ci).graceful_close
    then (reset env w ci, true)
    else rsp_body_start env w ci bytes

-- "HTTP response parsing + body accumulation (plain HTTP only)"
abbrev pub plain_http : Env → Upper → World → ℕ → List ℕ → World × Bool
plain_http env up w ci bytes =
    if (conn w ci).app_state == 5
    then (if env.has_session ci
        then (w, false)
        else after_response env up (next_txn env w ci) ci bytes)
    else if (conn w ci).app_state == 6
    then (if env.has_session ci then (w, false) else rsp_body_recv env w ci (length bytes))
    else (w, false)

abbrev pub then_plain : Env → Upper → World × Bool → ℕ → List ℕ → World × Bool
then_plain env up (w, true) ci bytes = (w, true)
then_plain env up (w, false) ci bytes = plain_http env up w ci bytes

abbrev pub served : Env → World → ℕ → World
served env w ci = edit (ack_of env w ci) ci (λ t. record t { pending_ack = false })

-- The layers above, for a payload in order.
abbrev pub dispatched : Env → Upper → World → ℕ → List ℕ → World × Bool
dispatched env up w ci bytes =
    if leb 10 (conn w ci).app_state
    then (served env (up.srv_on_data w ci bytes) ci, false)
    else if in_tls (conn w ci).app_state && env.has_session ci
    then up.tls_data w ci bytes
    else (w, false)

abbrev pub queue_dack : World → ℕ → World
queue_dack w ci = record w { worker = dack_add w.worker ci }

-- "Data"; a payload that is not next in order is dropped.
unfoldable pub take_data : Env → Upper → World → ℕ → Rx → World × Bool
take_data env up w ci rx =
    let w1 = queue_dack (edit w ci (received env (length rx.payload))) ci in
    if is_nil rx.payload
    then (w, false)
    else if rx.seq == (conn w ci).rcv_nxt
    then then_plain env up (dispatched env up w1 ci rx.payload) ci rx.payload
    else (w, false)

abbrev pub half_closed : Tcb → Tcb
half_closed t = record t { rcv_nxt = u32 (t.rcv_nxt + 1); state = close_wait }

-- "FIN", while still in ESTABLISHED.
unfoldable pub take_fin : Env → World → ℕ → Rx → World
take_fin env w ci rx =
    let w1 = ack_of env (edit w ci half_closed) ci in
    if rx.flags.fin && is_state (conn w ci).state established
    then (if is_throughput (conn w1 ci).app_ctx then w1 else (close env w1 ci).0)
    else w

abbrev pub echoed : Rx → Tcb → Tcb
echoed rx t =
    if rx.opts.has_timestamps && t.ts_enabled then record t { ts_ecr = rx.opts.ts_val } else t

abbrev pub then_fin : Env → World × Bool → ℕ → Rx → World × Bool
then_fin env (w, true) ci rx = (w, true)
then_fin env (w, false) ci rx = (take_fin env w ci rx, false)

abbrev pub then_data : Env → Upper → Option World → ℕ → Rx → Option (World × Bool)
then_data env up none ci rx = none
then_data env up (some w) ci rx = some (then_fin env (take_data env up w ci rx) ci rx)

unfoldable pub on_established : Env → Upper → World → ℕ → Rx → Option (World × Bool)
on_established env up w ci rx =
    then_data env up (take_ack env up (edit w ci (echoed rx)) ci rx) ci rx

abbrev pub drained : Env → ℕ → Option World → Option World
drained env ci none = none
drained env ci (some w) = some (drain env w ci)

abbrev pub unfinished : Option World → Option (World × Bool)
unfinished none = none
unfinished (some w) = some (w, false)

unfoldable pub on_close_wait : Env → World → ℕ → Rx → Option (World × Bool)
on_close_wait env w ci rx =
    let fresh = drained env ci (new_ack env w ci rx) in
    if rx.flags.ack
    then unfinished (window_set rx (if seq_gt rx.ack (conn w ci).snd_una then fresh else some w) ci)
    else some (w, false)
