-- ===== src/Fsm/AckGood.antt =====
-- Acknowledgements keep the store and the pool valid.
use ai_pattarai.Common.{
  ℕ, ◌≤◌, ◌≡◌, refl, sym, ap, ◌∙◌, Bool, true, false, ltb, ◌==◌, if◌then◌else◌, take, Bool-cases,
  inl, inr, Option, none, some, arith, sub32,
}
use ai_pattarai.SendBuffer.{SndBuf}
use ai_pattarai.Tcb.{Tcb}
use ai_pattarai.TimerWheel.{dack_add}
use ai_pattarai.Congestion.{congestion_on_ack, congestion_fast_retransmit}
use ai_pattarai.Congestion.Frame.{Paced, on_ack-Paced, fast_retransmit-Paced}
use ai_pattarai.Transmit.{effective_mss, tgen_min}
use ai_pattarai.Fsm.{Env, World, conn, edit, transmit, timer, arm_rto, flags_ack}
use ai_pattarai.Fsm.Input.{Rx, scaled_win}
use ai_pattarai.Fsm.Established.{
  advanced, cleared, disarmed, rearmed, progressed, new_ack, resend_oldest, once_more, dup_ack,
  window_set, queue_dack,
}
use ai_pattarai.Fsm.Good.{
  Good, edit-Good, put-Good, same-Good, put-SameConns, timer-Good, arm_rto-Good, transmit-Good,
}
use ai_pattarai.Fsm.CallsGood.{if-Good}

pub queue_dack-Good : (w : World) (ci : ℕ) → Good w → Good (queue_dack w ci)
unfolding dack_add
queue_dack-Good w ci g = elim (Bool-cases (conn w ci).in_dack_list) [
  | inl queued ↦ rw queued g
  | inr free ↦
      let t = record (conn w ci) { dack_next = w.worker.wheel.dack_head; in_dack_list = true } in
      rw free (same-Good w _ (put-SameConns w.worker ci t refl refl) refl g)
]

-- Of a world that is there.
abbrev pub GoodIf : Option World → Type 0
GoodIf none = 0 ≤ 0
GoodIf (some w) = Good w

abbrev pub GoodResult : Option (World × Bool) → Type 0
GoodResult none = 0 ≤ 0
GoodResult (some r) = Good r.0

pub if-GoodIf :
    (b : Bool) (o o' : Option World) → GoodIf o → GoodIf o' → GoodIf (if b then o else o')
if-GoodIf true o o' g g' = g
if-GoodIf false o o' g g' = g'

rearmed-Good : (env : Env) (w : World) (ci : ℕ) → Good w → Good (rearmed env w ci)
rearmed-Good env w ci g =
    if-Good ((conn w ci).snd_una == (conn w ci).snd_nxt) (timer env (edit w ci disarmed) ci)
      (arm_rto env w ci)
      (timer-Good env (edit w ci disarmed) ci (edit-Good w ci disarmed (λ t. (refl, refl)) g))
      (arm_rto-Good env w ci g)

progressed-Good :
    (env : Env) (w : World) (ci n : ℕ) (t0 : Tcb) (o : Option Tcb)
    → t0.tuple ≡ (conn w ci).tuple
    → t0.in_use ≡ (conn w ci).in_use
    → Paced t0 o
    → Good w
    → GoodIf (progressed env w ci n o)
progressed-Good env w ci n t0 none e u p g = omega arith
progressed-Good env w ci n t0 (some t) e u p g =
    rearmed-Good env (edit w ci (λ x. cleared n t)) ci (
      put-Good w ci (cleared n t) (ap (λ (x : Tcb). x.tuple) p ∙ e)
        (ap (λ (x : Tcb). x.in_use) p ∙ u) g)

pub new_ack-Good :
    (env : Env) (w : World) (ci : ℕ) (rx : Rx) → Good w → GoodIf (new_ack env w ci rx)
new_ack-Good env w ci rx g =
    let n = sub32 rx.ack (conn w ci).snd_una in
    let t = advanced rx.ack (conn w ci) in
    let c = put-SameConns w.worker ci t refl refl in
    progressed-Good env (edit w ci (λ u. t)) ci n t (congestion_on_ack env.math env.now env.hz t n)
      (sym (c.tuples ci)) (sym (c.in_uses ci)) (on_ack-Paced env.math env.now env.hz t n)
      (put-Good w ci t refl refl g)

pub window_set-Good : (rx : Rx) (o : Option World) (ci : ℕ) → GoodIf o → GoodIf (window_set rx o ci)
window_set-Good rx none ci g = g
window_set-Good rx (some w) ci g =
    edit-Good w ci (λ t. record t { snd_wnd = scaled_win rx t }) (λ t. (refl, refl)) g

resend_oldest-Good :
    (env : Env) (w : World) (ci : ℕ) (o : Option SndBuf) → Good w → Good (resend_oldest env w ci o)
resend_oldest-Good env w ci none g = g
resend_oldest-Good env w ci (some sb) g =
    let len = tgen_min sb.len (effective_mss (conn w ci)) in
    if-Good (ltb 0 sb.len)
      (transmit env w ci flags_ack (take len sb.bytes) (conn w ci).snd_una (conn w ci).rcv_nxt) w
      (transmit-Good env w ci flags_ack (take len sb.bytes) (conn w ci).snd_una (conn w ci).rcv_nxt
        g)
      g

pub dup_ack-Good : (env : Env) (w : World) (ci : ℕ) → Good w → Good (dup_ack env w ci)
dup_ack-Good env w ci g =
    let w1 = edit w ci once_more in
    let w2 = edit w1 ci (congestion_fast_retransmit env.math) in
    let g1 : Good w1 = edit-Good w ci once_more (λ t. (refl, refl)) g in
    let g2 : Good w2 =
      edit-Good w1 ci (congestion_fast_retransmit env.math)
        (λ t. (
          ap (λ (x : Tcb). x.tuple) (fast_retransmit-Paced env.math t),
          ap (λ (x : Tcb). x.in_use) (fast_retransmit-Paced env.math t),
        ))
        g1 in
    if-Good ((conn w1 ci).dup_ack_count == 3) (resend_oldest env w2 ci (conn w2 ci).snd_buf) w1
      (resend_oldest-Good env w2 ci (conn w2 ci).snd_buf g2) g1
