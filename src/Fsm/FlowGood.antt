-- ===== src/Fsm/FlowGood.antt =====
-- A segment in ESTABLISHED or CLOSE_WAIT keeps the store and the pool valid.
use ai_pattarai.Common.{
  ℕ, refl, Bool, true, false, not, ◌&&◌, ltb, leb, ◌==◌, if◌then◌else◌, List, length, Option, none,
  some,
}
use ai_pattarai.Tcb.{Tcb, established, is_state, is_throughput}
use ai_pattarai.Fsm.{Env, World, conn, edit}
use ai_pattarai.Fsm.Calls.{reset, close, drain}
use ai_pattarai.Fsm.Http.{next_txn, send_next_request, rsp_body_start, rsp_body_recv, is_nil}
use ai_pattarai.Fsm.Input.{Rx, Upper, ack_of, seq_gt, echo_us}
use ai_pattarai.Fsm.Established.{
  new_ack, measured, after_ack, dup_ack, window_set, take_ack, received, in_tls, after_response,
  plain_http, then_plain, served, dispatched, queue_dack, take_data, half_closed, take_fin, echoed,
  then_fin, then_data, on_established, drained, unfinished, on_close_wait,
}
use ai_pattarai.Fsm.Good.{Good, edit-Good}
use ai_pattarai.Fsm.CallsGood.{if-Good, if_pair-Good, reset-Good, close-Good, drain-Good}
use ai_pattarai.Fsm.AppGood.{
  Lawful, next_txn-Good, send_next_request-Good, rsp_body_start-Good, rsp_body_recv-Good,
}
use ai_pattarai.Fsm.InputGood.{if_keeps, ack_of-Good, update_rtt_keeps}
use ai_pattarai.Fsm.AckGood.{
  queue_dack-Good, GoodIf, GoodResult, if-GoodIf, new_ack-Good, window_set-Good, dup_ack-Good,
}

module _ (env : Env) (up : Upper) (law : Lawful up) where
  after_ack-Good :
      (rx : Rx) (ci : ℕ) (o : Option World) → GoodIf o → GoodIf (after_ack env up rx ci o)
  after_ack-Good rx ci none g = g
  after_ack-Good rx ci (some w) g =
      let timed =
        λ (t : Tcb). rx.opts.has_timestamps && t.ts_enabled && ltb (echo_us env rx) 60000000 in
      let w1 = edit w ci (measured env rx) in
      let w2 = drain env w1 ci in
      let g2 : Good w2 = drain-Good env w1 ci (
        edit-Good w ci (measured env rx)
          (λ t. if_keeps (timed t) t _ t (update_rtt_keeps t (echo_us env rx)) (refl, refl)) g) in
      if-Good ((conn w2 ci).app_state == 12) (up.srv_stream_pump w2 ci) w2 (law.pump w2 ci g2) g2

  take_ack-Good : (w : World) (ci : ℕ) (rx : Rx) → Good w → GoodIf (take_ack env up w ci rx)
  unfolding take_ack
  take_ack-Good w ci rx g =
      let fresh = after_ack env up rx ci (new_ack env w ci rx) in
      let same = if rx.ack == (conn w ci).snd_una then dup_ack env w ci else w in
      let newer = seq_gt rx.ack (conn w ci).snd_una in
      if-GoodIf (not rx.flags.ack) (some w) (window_set rx (if newer then fresh else some same) ci)
        g
        (window_set-Good rx (if newer then fresh else some same) ci (
          if-GoodIf newer fresh (some same)
            (after_ack-Good rx ci (new_ack env w ci rx) (new_ack-Good env w ci rx g))
            (if-Good (rx.ack == (conn w ci).snd_una) (dup_ack env w ci) w (dup_ack-Good env w ci g)
              g)))

  after_response-Good :
      (r : World × ℕ) (ci : ℕ) (bytes : List ℕ)
      → Good r.0
      → Good (after_response env up r ci bytes).0
  after_response-Good (w, next) ci bytes g =
      let again : World × Bool = (send_next_request env up.encrypt w ci, false) in
      let pause : World × Bool = (edit w ci (λ t. record t { app_state = 7 }), false) in
      let cut : World × Bool = (reset env w ci, true) in
      let body = rsp_body_start env w ci bytes in
      let end' : World × Bool = if not (conn w ci).graceful_close then cut else body in
      if_pair-Good (next == 4) again (if next == 7 then pause else end')
        (send_next_request-Good env up.encrypt w ci g)
        (if_pair-Good (next == 7) pause end'
          (edit-Good w ci (λ t. record t { app_state = 7 }) (λ t. (refl, refl)) g)
          (if_pair-Good (not (conn w ci).graceful_close) cut body (reset-Good env w ci g)
            (rsp_body_start-Good env w ci bytes g)))

  plain_http-Good :
      (w : World) (ci : ℕ) (bytes : List ℕ) → Good w → Good (plain_http env up w ci bytes).0
  plain_http-Good w ci bytes g =
      let s = (conn w ci).app_state in
      let none' : World × Bool = (w, false) in
      let first : World × Bool =
        if env.has_session ci then none' else after_response env up (next_txn env w ci) ci bytes in
      let more : World × Bool =
        if env.has_session ci then none' else rsp_body_recv env w ci (length bytes) in
      if_pair-Good (s == 5) first (if s == 6 then more else none')
        (if_pair-Good (env.has_session ci) none'
          (after_response env up (next_txn env w ci) ci bytes) g
          (after_response-Good (next_txn env w ci) ci bytes (next_txn-Good env w ci g)))
        (if_pair-Good (s == 6) more none'
          (if_pair-Good (env.has_session ci) none' (rsp_body_recv env w ci (length bytes)) g
            (rsp_body_recv-Good env w ci (length bytes) g))
          g)

  then_plain-Good :
      (r : World × Bool) (ci : ℕ) (bytes : List ℕ)
      → Good r.0
      → Good (then_plain env up r ci bytes).0
  then_plain-Good (w, true) ci bytes g = g
  then_plain-Good (w, false) ci bytes g = plain_http-Good w ci bytes g

  dispatched-Good :
      (w : World) (ci : ℕ) (bytes : List ℕ) → Good w → Good (dispatched env up w ci bytes).0
  dispatched-Good w ci bytes g =
      let s = (conn w ci).app_state in
      let w1 = up.srv_on_data w ci bytes in
      let none' : World × Bool = (w, false) in
      let secure : World × Bool =
        if in_tls s && env.has_session ci then up.tls_data w ci bytes else none' in
      if_pair-Good (leb 10 s) (served env w1 ci, false) secure
        (edit-Good (ack_of env w1 ci) ci (λ t. record t { pending_ack = false }) (λ t. (refl, refl))
          (ack_of-Good env w1 ci (law.data_in w ci bytes g)))
        (if_pair-Good (in_tls s && env.has_session ci) (up.tls_data w ci bytes) none'
          (law.tls_data w ci bytes g) g)

  take_data-Good : (w : World) (ci : ℕ) (rx : Rx) → Good w → Good (take_data env up w ci rx).0
  unfolding take_data
  take_data-Good w ci rx g =
      let w0 = edit w ci (received env (length rx.payload)) in
      let w1 = queue_dack w0 ci in
      let none' : World × Bool = (w, false) in
      let dealt = then_plain env up (dispatched env up w1 ci rx.payload) ci rx.payload in
      let g0 : Good w0 = edit-Good w ci (received env (length rx.payload)) (λ t. (refl, refl)) g in
      if_pair-Good (is_nil rx.payload) none'
        (if rx.seq == (conn w ci).rcv_nxt then dealt else none') g
        (if_pair-Good (rx.seq == (conn w ci).rcv_nxt) dealt none'
          (then_plain-Good (dispatched env up w1 ci rx.payload) ci rx.payload
            (dispatched-Good w1 ci rx.payload (queue_dack-Good w0 ci g0)))
          g)

  take_fin-Good : (w : World) (ci : ℕ) (rx : Rx) → Good w → Good (take_fin env w ci rx)
  unfolding take_fin
  take_fin-Good w ci rx g =
      let w1 = ack_of env (edit w ci half_closed) ci in
      let g1 : Good w1 =
        ack_of-Good env (edit w ci half_closed) ci
          (edit-Good w ci half_closed (λ t. (refl, refl)) g) in
      let shut = if is_throughput (conn w1 ci).app_ctx then w1 else (close env w1 ci).0 in
      if-Good (rx.flags.fin && is_state (conn w ci).state established) shut w
        (if-Good (is_throughput (conn w1 ci).app_ctx) w1 (close env w1 ci).0 g1
          (close-Good env w1 ci g1))
        g

  then_fin-Good : (r : World × Bool) (ci : ℕ) (rx : Rx) → Good r.0 → Good (then_fin env r ci rx).0
  then_fin-Good (w, true) ci rx g = g
  then_fin-Good (w, false) ci rx g = take_fin-Good w ci rx g

  then_data-Good :
      (o : Option World) (ci : ℕ) (rx : Rx) → GoodIf o → GoodResult (then_data env up o ci rx)
  then_data-Good none ci rx g = g
  then_data-Good (some w) ci rx g =
      then_fin-Good (take_data env up w ci rx) ci rx (take_data-Good w ci rx g)

  pub on_established-Good :
      (w : World) (ci : ℕ) (rx : Rx) → Good w → GoodResult (on_established env up w ci rx)
  unfolding on_established
  on_established-Good w ci rx g =
      let w0 = edit w ci (echoed rx) in
      then_data-Good (take_ack env up w0 ci rx) ci rx (
        take_ack-Good w0 ci rx (
          edit-Good w ci (echoed rx)
            (λ t. if_keeps (rx.opts.has_timestamps && t.ts_enabled) t _ t (refl, refl) (refl, refl))
            g))

drained-Good : (env : Env) (ci : ℕ) (o : Option World) → GoodIf o → GoodIf (drained env ci o)
drained-Good env ci none g = g
drained-Good env ci (some w) g = drain-Good env w ci g

unfinished-Good : (o : Option World) → GoodIf o → GoodResult (unfinished o)
unfinished-Good none g = g
unfinished-Good (some w) g = g

if-GoodResult :
    (b : Bool) (o o' : Option (World × Bool))
    → GoodResult o
    → GoodResult o'
    → GoodResult (if b then o else o')
if-GoodResult true o o' g g' = g
if-GoodResult false o o' g g' = g'

pub on_close_wait-Good :
    (env : Env) (w : World) (ci : ℕ) (rx : Rx) → Good w → GoodResult (on_close_wait env w ci rx)
unfolding on_close_wait
on_close_wait-Good env w ci rx g =
    let fresh = drained env ci (new_ack env w ci rx) in
    let newer = seq_gt rx.ack (conn w ci).snd_una in
    let o = if newer then fresh else some w in
    if-GoodResult rx.flags.ack (unfinished (window_set rx o ci)) (some (w, false))
      (unfinished-Good (window_set rx o ci) (
        window_set-Good rx o ci (
          if-GoodIf newer fresh (some w)
            (drained-Good env ci (new_ack env w ci rx) (new_ack-Good env w ci rx g)) g)))
      g
