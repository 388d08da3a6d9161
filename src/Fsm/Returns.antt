-- ===== src/Fsm/Returns.antt =====
-- `tcp_fsm_input` returns, and keeps what it is called with valid.
use ai_pattarai.Common.{
  ℕ, ◌<◌, ◌*◌, ◌/◌, ◌≡◌, refl, sym, ap, subst, Bool, true, false, not, ◌&&◌, ltb, ◌==◌,
  if◌then◌else◌, Bool-cases, inl, inr, Option, none, some, u32, sub32, arith,
}
use ai_pattarai.Tcb.{
  Tcb, TcpState, closed, listen, syn_sent, syn_received, established, fin_wait_1, fin_wait_2,
  close_wait, closing, last_ack, time_wait, is_throughput,
}
use ai_pattarai.TcbStore
use ai_pattarai.TcbStore.Inv.{live_in}
use ai_pattarai.TcbStore.Lookup.{lookup_sound}
use ai_pattarai.Congestion.{CubicMath, congestion_on_ack, newreno_on_ack, grow_by, cc_cubic}
use ai_pattarai.Fsm.{Env, World, conn, edit}
use ai_pattarai.Fsm.Input.{Rx, Upper, seq_gt}
use ai_pattarai.Fsm.Established.{
  advanced, progressed, new_ack, after_ack, dup_ack, window_set, take_ack, echoed, then_data,
  on_established, drained, unfinished, on_close_wait,
}
use ai_pattarai.Fsm.Dispatch.{on_state, then_rst, input_for, input}
use ai_pattarai.Fsm.Good.{Good}
use ai_pattarai.Fsm.View.{conn-edit}
use ai_pattarai.Fsm.AppGood.{Lawful}
use ai_pattarai.Fsm.AckGood.{GoodIf}
use ai_pattarai.Fsm.DispatchGood.{input-GoodIf}

-- Something is returned.
abbrev Is {ℓ} : {A : Type ℓ} → Option A → Type ℓ
Is {A = A} o = (a : A) × (o ≡ some a)

-- A window with which New Reno does not divide by zero.
abbrev pub Paces : Tcb → Type 0
Paces t = (0 < t.cwnd) × ((t.cc_algo == cc_cubic) ≡ false)

if-Is {ℓ} : {A : Type ℓ} (b : Bool) (o o' : Option A) → Is o → Is o' → Is (if b then o else o')
if-Is true o o' i i' = i
if-Is false o o' i i' = i'

newreno_returns : (t : Tcb) (n : ℕ) → 0 < t.cwnd → Is (newreno_on_ack t n)
unfolding newreno_on_ack
newreno_returns t n pos =
    if-Is t.in_fast_recovery _ _ (_, refl)
      (if-Is (ltb t.cwnd t.ssthresh) _ _ (_, refl)
        (let nonzero : (t.cwnd == 0) ≡ false = ground arith in
          (
            _,
            ap
                (λ (b : Bool).
                  grow_by t (if b then none else some (u32 (t.mss_remote * t.mss_remote) / t.cwnd)))
                nonzero,
          )))

on_ack_returns :
    (m : CubicMath) (now hz : ℕ) (t : Tcb) (n : ℕ) → Paces t → Is (congestion_on_ack m now hz t n)
unfolding congestion_on_ack
on_ack_returns m now hz t n (pos, reno) = elim (Bool-cases (n == 0)) [
  | inl nothing ↦ rw nothing (t, refl)
  | inr more ↦ elim (Bool-cases (is_throughput t.app_ctx)) [
    | inl direct ↦ rw (more, direct) (_, refl)
    | inr paced ↦ rw (more, paced, reno) (newreno_returns (record t { dup_ack_count = 0 }) n pos)
  ]
]

progressed_returns :
    (env : Env) (w : World) (ci n : ℕ) (o : Option Tcb) → Is o → Is (progressed env w ci n o)
progressed_returns env w ci n o (t, e) = (_, ap (progressed env w ci n) e)

new_ack_returns :
    (env : Env) (w : World) (ci : ℕ) (rx : Rx) → Paces (conn w ci) → Is (new_ack env w ci rx)
new_ack_returns env w ci rx p =
    let n = sub32 rx.ack (conn w ci).snd_una in
    let t = advanced rx.ack (conn w ci) in
    progressed_returns env (edit w ci (λ u. t)) ci n (congestion_on_ack env.math env.now env.hz t n)
      (on_ack_returns env.math env.now env.hz t n p)

window_set_returns : (rx : Rx) (o : Option World) (ci : ℕ) → Is o → Is (window_set rx o ci)
window_set_returns rx o ci (w, e) = (_, ap (λ (x : Option World). window_set rx x ci) e)

take_ack_returns :
    (env : Env) (up : Upper) (w : World) (ci : ℕ) (rx : Rx)
    → Paces (conn w ci)
    → Is (take_ack env up w ci rx)
unfolding take_ack
take_ack_returns env up w ci rx p =
    let fresh = after_ack env up rx ci (new_ack env w ci rx) in
    let same = if rx.ack == (conn w ci).snd_una then dup_ack env w ci else w in
    let newer = seq_gt rx.ack (conn w ci).snd_una in
    let (w1, e) = new_ack_returns env w ci rx p in
    if-Is (not rx.flags.ack) (some w) (window_set rx (if newer then fresh else some same) ci)
      (w, refl)
      (window_set_returns rx (if newer then fresh else some same) ci
        (if-Is newer fresh (some same) (_, ap (after_ack env up rx ci) e) (same, refl)))

on_established_returns :
    (env : Env) (up : Upper) (w : World) (ci : ℕ) (rx : Rx)
    → Paces (conn (edit w ci (echoed rx)) ci)
    → Is (on_established env up w ci rx)
unfolding on_established
on_established_returns env up w ci rx p =
    let (w1, e) = take_ack_returns env up (edit w ci (echoed rx)) ci rx p in
    (_, ap (λ (o : Option World). then_data env up o ci rx) e)

on_close_wait_returns :
    (env : Env) (w : World) (ci : ℕ) (rx : Rx) → Paces (conn w ci) → Is (on_close_wait env w ci rx)
unfolding on_close_wait
on_close_wait_returns env w ci rx p =
    let fresh = drained env ci (new_ack env w ci rx) in
    let newer = seq_gt rx.ack (conn w ci).snd_una in
    let o = if newer then fresh else some w in
    let (w1, e) = new_ack_returns env w ci rx p in
    let (w2, e2) =
      window_set_returns rx o ci
        (if-Is newer fresh (some w) (_, ap (drained env ci) e) (w, refl)) in
    if-Is rx.flags.ack (unfinished (window_set rx o ci)) (some (w, false)) (_, ap unfinished e2)
      (_, refl)

echoed-Paces : (rx : Rx) (t : Tcb) → Paces t → Paces (echoed rx t)
echoed-Paces rx t p = elim (Bool-cases (rx.opts.has_timestamps && t.ts_enabled)) [
  | inl on ↦ rw on p
  | inr off ↦ rw off p
]

on_state_returns :
    (env : Env) (up : Upper) (s : TcpState) (w : World) (ci : ℕ) (rx : Rx)
    → Paces (conn w ci)
    → Paces (conn (edit w ci (echoed rx)) ci)
    → Is (on_state env up s w ci rx)
on_state_returns env up syn_sent w ci rx p e = (_, refl)
on_state_returns env up syn_received w ci rx p e = (_, refl)
on_state_returns env up established w ci rx p e = on_established_returns env up w ci rx e
on_state_returns env up fin_wait_1 w ci rx p e = (_, refl)
on_state_returns env up fin_wait_2 w ci rx p e = (_, refl)
on_state_returns env up closing w ci rx p e = (_, refl)
on_state_returns env up close_wait w ci rx p e = on_close_wait_returns env w ci rx p
on_state_returns env up last_ack w ci rx p e = (_, refl)
on_state_returns env up closed w ci rx p e = (_, refl)
on_state_returns env up listen w ci rx p e = (_, refl)
on_state_returns env up time_wait w ci rx p e = (_, refl)

then_rst_returns : (o : Option (World × Bool)) (ci : ℕ) (rx : Rx) → Is o → Is (then_rst o ci rx)
then_rst_returns none ci rx (r, e) = cc
then_rst_returns (some (w, true)) ci rx i = (_, refl)
then_rst_returns (some (w, false)) ci rx i = (_, refl)

module _ (env : Env) (up : Upper) (law : Lawful up) where
  input_for_returns :
      (w : World) (rx : Rx) (o : Option ℕ)
      → TcbStore.lookup w.worker.store rx.to ≡ o
      → ((ci : ℕ) → TcbStore.lookup w.worker.store rx.to ≡ some ci → Paces (conn w ci))
      → Is (input_for env up w rx o)
  input_for_returns w rx none e paces = (_, refl)
  input_for_returns w rx (some ci) e paces =
      let inside = live_in w.worker.store ci (lookup_sound w.worker.store rx.to e).0 in
      let p = paces ci e in
      then_rst_returns (on_state env up (conn w ci).state w ci rx) ci rx (
        on_state_returns env up (conn w ci).state w ci rx p
          (subst Paces (sym (conn-edit w ci (echoed rx) inside)) (echoed-Paces rx (conn w ci) p)))

  -- `tcp_fsm_input` returns for every segment, whatever its flags and numbers, and in every state, if
  -- the connection that the segment is for has a window above 0 and uses New Reno. For layers
  -- above that keep them valid, the store, with its unique 4-tuples, and the port pool stay valid.
  pub input-Good :
      (w : World) (rx : Rx)
      → Good w
      → ((ci : ℕ) → TcbStore.lookup w.worker.store rx.to ≡ some ci → Paces (conn w ci))
      → (w' : World) × (input env up w rx ≡ some w') × Good w'
  unfolding input
  input-Good w rx g paces =
      let o = TcbStore.lookup w.worker.store rx.to in
      let (w', e) =
        if-Is rx.too_short (some w) (if rx.bad_cksum then some w else input_for env up w rx o)
          (w, refl)
          (if-Is rx.bad_cksum (some w) (input_for env up w rx o) (w, refl)
            (input_for_returns w rx o refl paces)) in
      (w', e, subst GoodIf e (input-GoodIf env up law w rx g))
