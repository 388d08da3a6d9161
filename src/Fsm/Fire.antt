-- ===== src/Fsm/Fire.antt =====
-- `timer_fire` of vaigAI/src/net/tcp_timer.c outside TIME_WAIT and FIN_WAIT_2: the retransmission
-- timeout and what follows it.
use ai_pattarai.Common.{
  ℕ, ◌≡◌, refl, sym, ap, ◌∙◌, subst, Bool, true, false, ◌&&◌, ◌||◌, not, leb, ◌==◌, if◌then◌else◌,
  Bool-cases, inl, inr,
}
use ai_pattarai.Tcb.{
  TcpState, closed, listen, syn_sent, syn_received, established, fin_wait_1, fin_wait_2, close_wait,
  closing, last_ack, time_wait, is_state,
}
use ai_pattarai.TcbStore.Inv.{live}
use ai_pattarai.Fsm.{Env, World, conn}
use ai_pattarai.Fsm.Calls.{rto_expired}
use ai_pattarai.Fsm.Input.{Upper}
use ai_pattarai.Fsm.Good.{Good}
use ai_pattarai.Fsm.CallsGood.{if-Good, rto_expired-Good}
use ai_pattarai.Fsm.Became.{Over}
use ai_pattarai.Fsm.Timeout.{over_limit, rto_expired-eq}
use ai_pattarai.Fsm.Waits.{is_late, waits_too_long, settled, rest-Ends}
use ai_pattarai.Fsm.Timer.{fire_live, fire_rto, fire_state, timer_fire, due}

-- The states in which the timer retransmits.
abbrev pub retransmits : TcpState → Bool
retransmits syn_sent = true
retransmits syn_received = true
retransmits established = true
retransmits fin_wait_1 = true
retransmits closing = true
retransmits last_ack = true
retransmits closed = false
retransmits listen = false
retransmits fin_wait_2 = false
retransmits close_wait = false
retransmits time_wait = false

module _ (env : Env) (up : Upper) (w : World) (ci : ℕ) (g : Good w) where
  -- The world after the retransmission timeout, if it is due in this state.
  abbrev pub retried : World
  retried =
      let t = conn w ci in
      if t.in_use
        && retransmits t.state
        && not (t.rto_deadline_tsc == 0)
        && leb t.rto_deadline_tsc env.now
      then rto_expired env w ci
      else w

  -- How `w'` follows from the world after the retransmission timeout.
  abbrev pub Ended : World → World → Type 0
  Ended w1 w' = if waits_too_long env (conn w1 ci) then Over w1 ci w' else (w' ≡ w1)

  nothing_else : waits_too_long env (conn w ci) ≡ false → Ended w w
  nothing_else e = subst (λ (b : Bool). if b then Over w ci w else (w ≡ w)) (sym e) refl

  module _ (l : live w.worker.store ci ≡ true) where
    fire_rto-settled :
        settled (conn w ci).app_state ≡ true
        → settled (conn (fire_rto env w ci) ci).app_state ≡ true
    fire_rto-settled app = elim (Bool-cases (due env (conn w ci).rto_deadline_tsc)) [
      | inr early ↦ rw early app
      | inl passed ↦
          let kept =
            rto_expired-eq env w ci g l (λ t. t.app_state) (λ t. refl) (λ t. refl)
              (λ t n r. refl) in
          rw passed (
            ap settled kept ∙ elim (Bool-cases (over_limit env w ci g l)) [
              | inl many ↦ rw many refl
              | inr few ↦ rw few app
            ])
    ]

    fired_live :
        settled (conn w ci).app_state ≡ true → Ended (fire_rto env w ci) (fire_live env up w ci)
    fired_live app =
        rest-Ends env up (fire_rto env w ci) ci
          (if-Good (due env (conn w ci).rto_deadline_tsc) _ w (rto_expired-Good env w ci g) g)
          (fire_rto-settled app)

    idle :
        (s : TcpState)
        → (conn w ci).state ≡ s
        → is_state s established ≡ false
        → waits_too_long env (conn w ci) ≡ false
    idle s state other =
        let t = conn w ci in
        ap (λ (u : Bool). u && is_state t.state established && is_late env t) l
        ∙ ap (λ (x : TcpState). is_state x established && is_late env t) state
        ∙ ap (λ (b : Bool). b && is_late env t) other

    fired :
        (s : TcpState)
        → (conn w ci).state ≡ s
        → not (is_state s time_wait || is_state s fin_wait_2) ≡ true
        → settled (conn w ci).app_state ≡ true
        → Ended
            (if retransmits s
                && not ((conn w ci).rto_deadline_tsc == 0)
                && leb (conn w ci).rto_deadline_tsc env.now
              then rto_expired env w ci
              else w)
            (fire_state env up s w ci)
    fired syn_sent e h app = fired_live app
    fired syn_received e h app = fired_live app
    fired established e h app = fired_live app
    fired fin_wait_1 e h app = fired_live app
    fired closing e h app = fired_live app
    fired last_ack e h app = fired_live app
    fired closed e h app = nothing_else (idle closed e refl)
    fired listen e h app = nothing_else (idle listen e refl)
    fired close_wait e h app = nothing_else (idle close_wait e refl)
    fired time_wait e h app = cc
    fired fin_wait_2 e h app = cc

  -- The same with the flag of use apart.
  retried_if : Bool → World
  retried_if used =
      let t = conn w ci in
      if used
        && retransmits t.state
        && not (t.rto_deadline_tsc == 0)
        && leb t.rto_deadline_tsc env.now
      then rto_expired env w ci
      else w

  fired_if : Bool → World
  fired_if used = if not used then w else fire_state env up (conn w ci).state w ci

  unused : (conn w ci).in_use ≡ false → waits_too_long env (conn w ci) ≡ false
  unused e =
      let t = conn w ci in ap (λ (u : Bool). u && is_state t.state established && is_late env t) e

  fired_used :
      (used : Bool)
      → (conn w ci).in_use ≡ used
      → not (is_state (conn w ci).state time_wait || is_state (conn w ci).state fin_wait_2) ≡ true
      → settled (conn w ci).app_state ≡ true
      → Ended (retried_if used) (fired_if used)
  unfolding retried_if fired_if
  fired_used false e state app = nothing_else (unused e)
  fired_used true l state app = fired l (conn w ci).state refl state app

  -- With store and pool valid, a timer of a TCB that is neither in TIME_WAIT nor in FIN_WAIT_2,
  -- whose application is neither between two requests nor streaming a response: a TCB that is free
  -- is left alone; the retransmission timeout is taken if its deadline is set and has passed, in
  -- SYN_SENT, SYN_RECEIVED, ESTABLISHED, FIN_WAIT_1, CLOSING and LAST_ACK, and never in CLOSE_WAIT,
  -- CLOSED and LISTEN. If the connection then is established and has waited five seconds for its TLS
  -- handshake or for a response, it is over; otherwise nothing else has changed.
  pub timer_fire_lem :
      not (is_state (conn w ci).state time_wait || is_state (conn w ci).state fin_wait_2) ≡ true
      → settled (conn w ci).app_state ≡ true
      → let w' = timer_fire env up w ci in Ended retried w'
  unfolding timer_fire retried_if fired_if
  timer_fire_lem state app = fired_used (conn w ci).in_use refl state app
