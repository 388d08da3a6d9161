-- ===== src/Fsm/DispatchGood.antt =====
-- `tcp_fsm_input` keeps the store and the pool valid, in every state and for every segment.
use ai_pattarai.Common.{
  ℕ, ◌≡◌, refl, Bool, true, false, not, ◌&&◌, ◌==◌, if◌then◌else◌, Option, none, some,
}
use ai_pattarai.Tcb.{
  TcpState, closed, listen, syn_sent, syn_received, established, fin_wait_1, fin_wait_2, close_wait,
  closing, last_ack, time_wait, is_state,
}
use ai_pattarai.TcbStore
use ai_pattarai.Fsm.{Env, World, conn, edit, timer, arm_rto, teardown, teardown_hold, count_close}
use ai_pattarai.Fsm.Http.{is_nil}
use ai_pattarai.Fsm.Input.{Rx, Upper, ack_of, seq_ge}
use ai_pattarai.Fsm.Dispatch.{
  take_more, fin_seen, in_state, gone, ack_if, is_new_ack, una_set, our_fin_acked, waiting,
  on_fin_wait_1, on_fin_wait_2, on_closing, on_last_ack, on_state, rst_valid, take_rst, then_rst,
  input_for, input,
}
use ai_pattarai.Fsm.Good.{
  Good, edit-Good, timer-Good, arm_rto-Good, teardown-Good, teardown_hold-Good,
}
use ai_pattarai.Fsm.CallsGood.{if-Good}
use ai_pattarai.Fsm.AppGood.{Lawful}
use ai_pattarai.Fsm.InputGood.{
  if_keeps, ack_of-Good, closed-Good, passive_open-Good, on_syn_sent-Good, on_syn_received-Good,
}
use ai_pattarai.Fsm.FlowGood.{on_established-Good, on_close_wait-Good}
use ai_pattarai.Fsm.AckGood.{GoodIf, if-GoodIf, GoodResult}

gone-Good : (w : World) (ci : ℕ) → Good w → Good (gone w ci)
gone-Good w ci g = closed-Good (teardown w ci) (teardown-Good w ci g)

ack_if-Good : (b : Bool) (env : Env) (w : World) (ci : ℕ) → Good w → Good (ack_if b env w ci)
ack_if-Good b env w ci g = if-Good b (ack_of env w ci) w (ack_of-Good env w ci g) g

more-Good : (w : World) (ci : ℕ) (rx : Rx) → Good w → Good (edit w ci (take_more rx))
more-Good w ci rx g =
    edit-Good w ci (take_more rx)
      (λ t.
        if_keeps (not (is_nil rx.payload) && rx.seq == t.rcv_nxt) t _ t (refl, refl) (refl, refl))
      g

on_fin_wait_1-Good :
    (env : Env) (w : World) (ci : ℕ) (rx : Rx) → Good w → Good (on_fin_wait_1 env w ci rx)
unfolding on_fin_wait_1
on_fin_wait_1-Good env w ci rx g =
    let fin_acked = our_fin_acked rx (conn w ci) in
    let w0 = edit w ci (una_set rx) in
    let w1 = edit w0 ci (take_more rx) in
    let w2 = ack_of env (edit w1 ci fin_seen) ci in
    let has_data = not (is_nil rx.payload) in
    let g1 : Good w1 = more-Good w0 ci rx (
      edit-Good w ci (una_set rx) (λ t. if_keeps (is_new_ack rx t) t _ t (refl, refl) (refl, refl))
        g) in
    let g2 : Good w2 =
      ack_of-Good env (edit w1 ci fin_seen) ci (edit-Good w1 ci fin_seen (λ t. (refl, refl)) g1) in
    let crossed = arm_rto env (edit w2 ci (in_state closing)) ci in
    let half = timer env (edit w1 ci (waiting env)) ci in
    if-Good rx.flags.fin (if fin_acked then gone w2 ci else crossed)
      (if fin_acked then ack_if has_data env half ci else ack_if has_data env w1 ci)
      (if-Good fin_acked (gone w2 ci) crossed (gone-Good w2 ci g2) (
        arm_rto-Good env (edit w2 ci (in_state closing)) ci
          (edit-Good w2 ci (in_state closing) (λ t. (refl, refl)) g2)))
      (if-Good fin_acked (ack_if has_data env half ci) (ack_if has_data env w1 ci)
        (ack_if-Good has_data env half ci (
          timer-Good env (edit w1 ci (waiting env)) ci
            (edit-Good w1 ci (waiting env) (λ t. (refl, refl)) g1)))
        (ack_if-Good has_data env w1 ci g1))

on_fin_wait_2-Good :
    (env : Env) (w : World) (ci : ℕ) (rx : Rx) → Good w → Good (on_fin_wait_2 env w ci rx)
unfolding on_fin_wait_2
on_fin_wait_2-Good env w ci rx g =
    let w1 = edit w ci (take_more rx) in
    let w2 = ack_of env (edit w1 ci fin_seen) ci in
    let g1 : Good w1 = more-Good w ci rx g in
    if-Good rx.flags.fin (gone w2 ci) (ack_if (not (is_nil rx.payload)) env w1 ci)
      (gone-Good w2 ci (
        ack_of-Good env (edit w1 ci fin_seen) ci (edit-Good w1 ci fin_seen (λ t. (refl, refl)) g1)))
      (ack_if-Good (not (is_nil rx.payload)) env w1 ci g1)

on_closing-Good : (w : World) (ci : ℕ) (rx : Rx) → Good w → Good (on_closing w ci rx)
unfolding on_closing
on_closing-Good w ci rx g =
    if-Good (rx.flags.ack && seq_ge rx.ack (conn w ci).snd_nxt) (gone w ci) w (gone-Good w ci g) g

on_last_ack-Good :
    (env : Env) (w : World) (ci : ℕ) (rx : Rx) → Good w → Good (on_last_ack env w ci rx)
unfolding on_last_ack
on_last_ack-Good env w ci rx g =
    if-Good rx.flags.ack (count_close (teardown_hold env w ci)) w
      (closed-Good (teardown_hold env w ci) (teardown_hold-Good env w ci g)) g

take_rst-Good : (w : World) (ci : ℕ) (rx : Rx) → Good w → Good (take_rst w ci rx)
unfolding take_rst
take_rst-Good w ci rx g =
    let t = conn w ci in
    if-Good (rx.flags.rst && t.in_use && not (is_state t.state time_wait) && rst_valid rx t)
      (teardown w ci) w (teardown-Good w ci g) g

then_rst-Good :
    (o : Option (World × Bool)) (ci : ℕ) (rx : Rx) → GoodResult o → GoodIf (then_rst o ci rx)
then_rst-Good none ci rx g = g
then_rst-Good (some (w, true)) ci rx g = g
then_rst-Good (some (w, false)) ci rx g = take_rst-Good w ci rx g

module _ (env : Env) (up : Upper) (law : Lawful up) where
  on_state-Good :
      (s : TcpState) (w : World) (ci : ℕ) (rx : Rx)
      → Good w
      → GoodResult (on_state env up s w ci rx)
  on_state-Good syn_sent w ci rx g = on_syn_sent-Good env up law w ci rx g
  on_state-Good syn_received w ci rx g = on_syn_received-Good env up law w ci rx g
  on_state-Good established w ci rx g = on_established-Good env up law w ci rx g
  on_state-Good fin_wait_1 w ci rx g = on_fin_wait_1-Good env w ci rx g
  on_state-Good fin_wait_2 w ci rx g = on_fin_wait_2-Good env w ci rx g
  on_state-Good closing w ci rx g = on_closing-Good w ci rx g
  on_state-Good close_wait w ci rx g = on_close_wait-Good env w ci rx g
  on_state-Good last_ack w ci rx g = on_last_ack-Good env w ci rx g
  on_state-Good closed w ci rx g = g
  on_state-Good listen w ci rx g = g
  on_state-Good time_wait w ci rx g = g

  input_for-Good :
      (w : World) (rx : Rx) (o : Option ℕ)
      → TcbStore.lookup w.worker.store rx.to ≡ o
      → Good w
      → GoodIf (input_for env up w rx o)
  input_for-Good w rx none absent g = passive_open-Good env w rx absent g
  input_for-Good w rx (some ci) found g =
      then_rst-Good (on_state env up (conn w ci).state w ci rx) ci rx
        (on_state-Good (conn w ci).state w ci rx g)

  pub input-GoodIf : (w : World) (rx : Rx) → Good w → GoodIf (input env up w rx)
  unfolding input
  input-GoodIf w rx g =
      let o = TcbStore.lookup w.worker.store rx.to in
      if-GoodIf rx.too_short (some w) (if rx.bad_cksum then some w else input_for env up w rx o) g
        (if-GoodIf rx.bad_cksum (some w) (input_for env up w rx o) g (input_for-Good w rx o refl g))
