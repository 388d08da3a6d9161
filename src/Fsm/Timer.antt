-- ===== src/Fsm/Timer.antt =====
-- `timer_fire` of vaigAI/src/net/tcp_timer.c: what a TCB does when its slot of the wheel comes round.
use ai_pattarai.Common.{ℕ, ◌*◌, ◌/◌, refl, Bool, ◌&&◌, ◌||◌, not, leb, ◌==◌, if◌then◌else◌, sub64}
use ai_pattarai.Tcb.{
  Tcb, TcpState, closed, listen, syn_sent, syn_received, established, fin_wait_1, fin_wait_2,
  close_wait, closing, last_ack, time_wait, is_state,
}
use ai_pattarai.TimerWheel.{rsp_timeout_us, hs_timeout_s}
use ai_pattarai.Fsm.{Env, World, conn, edit, teardown_hold, count_close}
use ai_pattarai.Fsm.Calls.{reset, rto_expired}
use ai_pattarai.Fsm.Http.{send_next_request}
use ai_pattarai.Fsm.Input.{Upper}
use ai_pattarai.Fsm.Good.{Good, edit-Good, teardown_hold-Good}
use ai_pattarai.Fsm.CallsGood.{if-Good, reset-Good, rto_expired-Good}
use ai_pattarai.Fsm.AppGood.{Lawful, send_next_request-Good}
use ai_pattarai.Fsm.InputGood.{closed-Good}

-- A deadline that is set and has passed.
abbrev pub due : Env → ℕ → Bool
due env deadline = not (deadline == 0) && leb deadline env.now

abbrev pub no_app : Tcb → Tcb
no_app t = record t { app_state = 0 }

-- The end of a connection that waits for an application too long.
abbrev pub dropped : Env → World → ℕ → World
dropped env w ci = reset env (edit w ci no_app) ci

-- "TLS handshake timeout"
abbrev pub hs_late : Env → Tcb → Bool
hs_late env t =
    is_state t.state established
    && (t.app_state == 1 || t.app_state == 2)
    && leb hs_timeout_s (sub64 env.now t.timewait_deadline_tsc / env.hz)

-- "Think-time wait"
abbrev pub fire_think : Env → Upper → World → ℕ → World
fire_think env up w ci =
    let t = conn w ci in
    if is_state t.state established && t.app_state == 7 && due env t.think_deadline_tsc
    then send_next_request env up.encrypt (edit w ci (λ x. record x { think_deadline_tsc = 0 })) ci
    else w

-- "Streaming pump"
abbrev pub fire_pump : Upper → World → ℕ → World
fire_pump up w ci =
    if is_state (conn w ci).state established && (conn w ci).app_state == 12
    then up.srv_stream_pump w ci
    else w

-- "HTTP response timeout"
abbrev pub rsp_late : Env → Tcb → Bool
rsp_late env t =
    is_state t.state established
    && t.app_state == 5
    && not (t.http_req_sent_tsc == 0)
    && leb (rsp_timeout_us * (env.hz / 1000000)) (sub64 env.now t.http_req_sent_tsc)

abbrev pub fire_response : Env → World → ℕ → World
fire_response env w ci = if rsp_late env (conn w ci) then dropped env w ci else w

-- What follows the handshake timeout; each step is left out when the TCB has been freed.
abbrev pub fire_app : Env → Upper → World → ℕ → World
fire_app env up w ci =
    let w1 = fire_think env up w ci in
    let w2 = fire_pump up w1 ci in
    if not (conn w1 ci).in_use
    then w1
    else if not (conn w2 ci).in_use
    then w2
    else fire_response env w2 ci

abbrev pub fire_rto : Env → World → ℕ → World
fire_rto env w ci = if due env (conn w ci).rto_deadline_tsc then rto_expired env w ci else w

abbrev pub fire_live : Env → Upper → World → ℕ → World
fire_live env up w ci =
    let w1 = fire_rto env w ci in
    if not (conn w1 ci).in_use
    then w1
    else if hs_late env (conn w1 ci)
    then dropped env w1 ci
    else fire_app env up w1 ci

-- The switch over the states.
abbrev pub fire_state : Env → Upper → TcpState → World → ℕ → World
fire_state env up time_wait w ci =
    if due env (conn w ci).timewait_deadline_tsc then teardown_hold env w ci else w
fire_state env up fin_wait_2 w ci =
    if due env (conn w ci).timewait_deadline_tsc then teardown_hold env (count_close w) ci else w
fire_state env up syn_sent w ci = fire_live env up w ci
fire_state env up syn_received w ci = fire_live env up w ci
fire_state env up established w ci = fire_live env up w ci
fire_state env up fin_wait_1 w ci = fire_live env up w ci
fire_state env up closing w ci = fire_live env up w ci
fire_state env up last_ack w ci = fire_live env up w ci
fire_state env up closed w ci = w
fire_state env up listen w ci = w
fire_state env up close_wait w ci = w

unfoldable pub timer_fire : Env → Upper → World → ℕ → World
timer_fire env up w ci =
    if not (conn w ci).in_use then w else fire_state env up (conn w ci).state w ci

fired-Good : (env : Env) (w : World) (ci : ℕ) → Good w → Good (dropped env w ci)
fired-Good env w ci g =
    reset-Good env (edit w ci no_app) ci (edit-Good w ci no_app (λ t. (refl, refl)) g)

module _ (env : Env) (up : Upper) (law : Lawful up) where
  fire_app-Good : (w : World) (ci : ℕ) → Good w → Good (fire_app env up w ci)
  fire_app-Good w ci g =
      let t = conn w ci in
      let awake = λ (x : Tcb). record x { think_deadline_tsc = 0 } in
      let w1 = fire_think env up w ci in
      let w2 = fire_pump up w1 ci in
      let g1 : Good w1 =
        if-Good (is_state t.state established && t.app_state == 7 && due env t.think_deadline_tsc) _
          w
          (send_next_request-Good env up.encrypt (edit w ci awake) ci
            (edit-Good w ci awake (λ x. (refl, refl)) g))
          g in
      let g2 : Good w2 =
        if-Good (is_state (conn w1 ci).state established && (conn w1 ci).app_state == 12) _ w1
          (law.pump w1 ci g1) g1 in
      if-Good (not (conn w1 ci).in_use) w1 _ g1 (
        if-Good (not (conn w2 ci).in_use) w2 _ g2
          (if-Good (rsp_late env (conn w2 ci)) _ w2 (fired-Good env w2 ci g2) g2))

  fire_live-Good : (w : World) (ci : ℕ) → Good w → Good (fire_live env up w ci)
  fire_live-Good w ci g =
      let w1 = fire_rto env w ci in
      let g1 : Good w1 =
        if-Good (due env (conn w ci).rto_deadline_tsc) _ w (rto_expired-Good env w ci g) g in
      if-Good (not (conn w1 ci).in_use) w1 _ g1
        (if-Good (hs_late env (conn w1 ci)) _ _ (fired-Good env w1 ci g1) (fire_app-Good w1 ci g1))

  fire_state-Good : (s : TcpState) (w : World) (ci : ℕ) → Good w → Good (fire_state env up s w ci)
  fire_state-Good time_wait w ci g =
      if-Good (due env (conn w ci).timewait_deadline_tsc) _ w (teardown_hold-Good env w ci g) g
  fire_state-Good fin_wait_2 w ci g =
      if-Good (due env (conn w ci).timewait_deadline_tsc) _ w
        (teardown_hold-Good env (count_close w) ci (closed-Good w g)) g
  fire_state-Good syn_sent w ci g = fire_live-Good w ci g
  fire_state-Good syn_received w ci g = fire_live-Good w ci g
  fire_state-Good established w ci g = fire_live-Good w ci g
  fire_state-Good fin_wait_1 w ci g = fire_live-Good w ci g
  fire_state-Good closing w ci g = fire_live-Good w ci g
  fire_state-Good last_ack w ci g = fire_live-Good w ci g
  fire_state-Good closed w ci g = g
  fire_state-Good listen w ci g = g
  fire_state-Good close_wait w ci g = g

  -- Whatever timer of a TCB has run out, in whatever state, `timer_fire` keeps the store, with its
  -- unique 4-tuples, and the port pool valid, if the layers above do.
  timer_fire-Good : (w : World) (ci : ℕ) → Good w → Good (timer_fire env up w ci)
  unfolding timer_fire
  timer_fire-Good w ci g =
      if-Good (not (conn w ci).in_use) w _ g (fire_state-Good (conn w ci).state w ci g)
