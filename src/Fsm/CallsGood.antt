-- ===== src/Fsm/CallsGood.antt =====
-- The calls keep the store and the pool valid.
use ai_pattarai.Common.{
  ℕ, u32, ◌+◌, ◌*◌, refl, Bool, true, false, ltb, leb, ◌==◌, ◌&&◌, not, if◌then◌else◌, Option, none,
  some, List, [], length, Bool-cases, inl, inr, u8, ap,
}
use ai_pattarai.SendBuffer
use ai_pattarai.SendBuffer.{SndBuf}
use ai_pattarai.Tcb.{
  Tcb, TcpState, closed, listen, syn_sent, syn_received, established, fin_wait_1, fin_wait_2,
  close_wait, closing, last_ack, time_wait, state_rank, is_throughput,
}
use ai_pattarai.Congestion.{congestion_on_rto, cc_cubic}
use ai_pattarai.Transmit.{Segment, drain_loop, snd_buf_drain, tgen_min, max_rto_us}
use ai_pattarai.Transmit.Frame.{Sent, drain_loop-Sent, snd_buf_drain-Sent}
use ai_pattarai.Fsm.{
  Env, World, conn, edit, transmit, arm_rto, count_close, flags_syn, flags_syn_ack, flags_fin_ack,
  flags_rst_ack,
}
use ai_pattarai.Fsm.Calls.{
  reset, close, can_send, closing_tcb, sent_all, drain, send_direct, send_queued, send, total_len,
  as_buf, buffer_for, backed_off, go_back, has_queued, resend, max_retries, rto_expired,
}
use ai_pattarai.Fsm.Good.{
  Good, Keeps, put-Good, edit-Good, sent-Good, transmit-Good, arm_rto-Good, teardown-Good,
}

pub if-Good : (b : Bool) (w w' : World) → Good w → Good w' → Good (if b then w else w')
if-Good true w w' g g' = g
if-Good false w w' g g' = g'

pub reset-Good : (env : Env) (w : World) (ci : ℕ) → Good w → Good (reset env w ci)
unfolding reset
reset-Good env w ci g =
    let late = leb (state_rank established) (state_rank (conn w ci).state) in
    let w1 = if late then count_close w else w in
    let g1 : Good w1 = if-Good late (count_close w) w (sent-Good w (count_close w) refl refl g) g in
    teardown-Good (transmit env w1 ci flags_rst_ack [] (conn w1 ci).snd_nxt (conn w1 ci).rcv_nxt) ci
      (transmit-Good env w1 ci flags_rst_ack [] (conn w1 ci).snd_nxt (conn w1 ci).rcv_nxt g1)

pub close-Good : (env : Env) (w : World) (ci : ℕ) → Good w → Good (close env w ci).0
unfolding close
close-Good env w ci g = elim (Bool-cases (can_send (conn w ci))) [
  | inr wrong ↦ rw wrong g
  | inl right ↦
      let w1 = transmit env w ci flags_fin_ack [] (conn w ci).snd_nxt (conn w ci).rcv_nxt in
      let g1 = transmit-Good env w ci flags_fin_ack [] (conn w ci).snd_nxt (conn w ci).rcv_nxt g in
      rw right (
        arm_rto-Good env (edit w1 ci closing_tcb) ci
          (edit-Good w1 ci closing_tcb (λ t. (refl, refl)) g1))
]

sent_all-Good :
    (w : World) (ci : ℕ) (r : List Segment × Tcb)
    → Sent (conn w ci) r.1
    → Good w
    → Good (sent_all w ci r)
sent_all-Good w ci r s g =
    let t1 = edit w ci (λ u. r.1) in
    sent-Good t1 (sent_all w ci r) refl refl
      (put-Good w ci r.1 (ap (λ (t : Tcb). t.tuple) s.same) (ap (λ (t : Tcb). t.in_use) s.same) g)

pub drain-Good : (env : Env) (w : World) (ci : ℕ) → Good w → Good (drain env w ci)
unfolding drain
drain-Good env w ci g =
    sent_all-Good w ci (snd_buf_drain (env.accepts w.out) (conn w ci))
      (snd_buf_drain-Sent (env.accepts w.out) (conn w ci)) g

armed-Good :
    {A : Type 0} (env : Env) (b : Bool) (w : World) (ci : ℕ) (a : A)
    → Good w
    → let r : World × A = if b then (arm_rto env w ci, a) else (w, a) in Good r.0
armed-Good env true w ci a g = arm_rto-Good env w ci g
armed-Good env false w ci a g = g

send_direct-Good :
    (env : Env) (w : World) (ci : ℕ) (bytes : List ℕ) → Good w → Good (send_direct env w ci bytes).0
unfolding send_direct
send_direct-Good env w ci bytes g =
    let r = drain_loop (env.accepts w.out) (length bytes) (conn w ci) (as_buf bytes) 0 in
    let w1 = sent_all w ci r in
    let total = total_len r.0 in
    armed-Good env (ltb 0 total && (conn w1 ci).rto_deadline_tsc == 0) w1 ci total (
      sent_all-Good w ci r
        (drain_loop-Sent (env.accepts w.out) (length bytes) (conn w ci) (as_buf bytes) 0) g)

send_queued-Good :
    (env : Env) (w : World) (ci : ℕ) (bytes : List ℕ) (o : Option SndBuf)
    → Good w
    → Good (send_queued env w ci bytes o).0
send_queued-Good env w ci bytes none g = g
send_queued-Good env w ci bytes (some sb) g =
    let queued = (SendBuffer.append sb bytes (length bytes)).0 in
    let sb1 = (SendBuffer.append sb bytes (length bytes)).1 in
    let w0 = edit w ci (λ t. record t { snd_buf = some sb1 }) in
    let w1 = drain env w0 ci in
    let t1 = conn w1 ci in
    armed-Good env (not (t1.snd_nxt == t1.snd_una) && t1.rto_deadline_tsc == 0) w1 ci (some queued)
      (drain-Good env w0 ci
        (edit-Good w ci (λ t. record t { snd_buf = some sb1 }) (λ t. (refl, refl)) g))

pub if_pair-Good :
    {A : Type 0} (b : Bool) (r r' : World × A)
    → Good r.0
    → Good r'.0
    → let x : World × A = if b then r else r' in Good x.0
if_pair-Good true r r' g g' = g
if_pair-Good false r r' g g' = g'

pub send-Good :
    (env : Env) (w : World) (ci : ℕ) (bytes : List ℕ) → Good w → Good (send env w ci bytes).0
unfolding send
send-Good env w ci bytes g =
    let t = conn w ci in
    let direct = send_direct env w ci bytes in
    let queued = send_queued env w ci bytes (buffer_for env t (length bytes) t.snd_buf) in
    let direct' : World × Option ℕ = (direct.0, some direct.1) in
    let sent : World × Option ℕ = if is_throughput t.app_ctx then direct' else queued in
    if_pair-Good (not (can_send t)) (w, none) sent g
      (if_pair-Good (is_throughput t.app_ctx) direct' queued (send_direct-Good env w ci bytes g)
        (send_queued-Good env w ci bytes (buffer_for env t (length bytes) t.snd_buf) g))

congestion_on_rto-Keeps : (env : Env) → Keeps (congestion_on_rto env.math)
unfolding congestion_on_rto
congestion_on_rto-Keeps env t = elim (Bool-cases (is_throughput t.app_ctx)) [
  | inl direct ↦ rw direct (refl, refl)
  | inr paced ↦ elim (Bool-cases (t.cc_algo == cc_cubic)) [
    | inl cubic ↦ rw (paced, cubic) (refl, refl)
    | inr reno ↦ rw (paced, reno) (refl, refl)
  ]
]

backed_off-Keeps : (env : Env) → Keeps (backed_off env)
backed_off-Keeps env t =
    congestion_on_rto-Keeps env (record t { rto_us = tgen_min (u32 (t.rto_us * 2)) max_rto_us })

redrain-Good :
    (env : Env) (w : World) (ci : ℕ)
    → Good w
    → Good (if has_queued (conn w ci).snd_buf then drain env (edit w ci go_back) ci else w)
redrain-Good env w ci g =
    if-Good (has_queued (conn w ci).snd_buf) (drain env (edit w ci go_back) ci) w
      (drain-Good env (edit w ci go_back) ci (edit-Good w ci go_back (λ t. (refl, refl)) g)) g

resend-Good : (env : Env) (w : World) (ci : ℕ) (s : TcpState) → Good w → Good (resend env w ci s)
resend-Good env w ci syn_sent g = transmit-Good env w ci flags_syn [] (conn w ci).snd_una 0 g
resend-Good env w ci syn_received g =
    transmit-Good env w ci flags_syn_ack [] (conn w ci).snd_una (conn w ci).rcv_nxt g
resend-Good env w ci fin_wait_1 g =
    transmit-Good env w ci flags_fin_ack [] (conn w ci).snd_una (conn w ci).rcv_nxt g
resend-Good env w ci last_ack g =
    transmit-Good env w ci flags_fin_ack [] (conn w ci).snd_una (conn w ci).rcv_nxt g
resend-Good env w ci established g = redrain-Good env w ci g
resend-Good env w ci close_wait g = redrain-Good env w ci g
resend-Good env w ci closed g = g
resend-Good env w ci listen g = g
resend-Good env w ci fin_wait_2 g = g
resend-Good env w ci closing g = g
resend-Good env w ci time_wait g = g

pub rto_expired-Good : (env : Env) (w : World) (ci : ℕ) → Good w → Good (rto_expired env w ci)
unfolding rto_expired
rto_expired-Good env w ci g =
    let w1 = edit w ci (λ t. record t { retransmit_count = u8 (t.retransmit_count + 1) }) in
    let w2 = edit w1 ci (backed_off env) in
    let g1 : Good w1 =
      edit-Good w ci (λ t. record t { retransmit_count = u8 (t.retransmit_count + 1) })
        (λ t. (refl, refl)) g in
    let g2 : Good w2 = edit-Good w1 ci (backed_off env) (backed_off-Keeps env) g1 in
    if-Good (ltb (max_retries (conn w1 ci).state) (conn w1 ci).retransmit_count) (reset env w1 ci)
      (arm_rto env (resend env w2 ci (conn w2 ci).state) ci) (reset-Good env w1 ci g1)
      (arm_rto-Good env (resend env w2 ci (conn w2 ci).state) ci
        (resend-Good env w2 ci (conn w2 ci).state g2))
