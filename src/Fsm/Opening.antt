-- ===== src/Fsm/Opening.antt =====
-- What follows the last step of the handshake: `start_app` of a connection without TLS or a request.
use ai_pattarai.Common.{ℕ, ◌≡◌, refl, ap, ◌∙◌, Bool, true, false, not, ◌&&◌, ◌==◌, if◌then◌else◌}
use ai_pattarai.Tcb.{Tcb, is_null}
use ai_pattarai.TcbStore.Inv.{live}
use ai_pattarai.Fsm.{Env, World, conn, edit, timer, count_open}
use ai_pattarai.Fsm.Http.{request_bytes, is_nil, awaiting}
use ai_pattarai.Fsm.Calls.{send, reset, close, closing_tcb}
use ai_pattarai.Fsm.Input.{
  Rx, Upper, ack_of, handshaken, first_rtt, opened_wide, first_request, start_app,
}
use ai_pattarai.Fsm.Good.{Good, timer-Good}
use ai_pattarai.Fsm.View.{view, timer-Quiet, transmit-Quiet}
use ai_pattarai.Fsm.InputGood.{ack_of-Good}
use ai_pattarai.Fsm.Became.{
  shown-Became, Became, Over, Became-refl, Became-trans, Became-live, edit-Became, Became-Quiet,
}
use ai_pattarai.Fsm.Shutdown.{close-Became}
use ai_pattarai.Fsm.Joined.{
  first_rtt-Keeps, first_rtt-Clear, opened_wide-Keeps, opened_wide-Clear, opened_wide-app_state,
  first_rtt-eq, counted-Became, reset-Over,
}

module _ (env : Env) (up : Upper) (w : World) (ci : ℕ) (rx : Rx) (g : Good w)
    (l : live w.worker.store ci ≡ true) where
  -- The TCB in ESTABLISHED, before the application starts.
  abbrev pub joined : Tcb
  joined = first_rtt env rx (handshaken rx (conn w ci))

  abbrev w1 : World
  w1 = timer env (edit w ci (handshaken rx)) ci

  abbrev pub w3 : World
  w3 = ack_of env (count_open (edit w1 ci (first_rtt env rx))) ci

  w3-Became : Became w w3 ci joined
  w3-Became =
      let b1 = edit-Became (handshaken rx) (λ t. (refl, refl)) (λ t. refl) l (Became-refl w ci g) in
      let b2 =
        Became-Quiet (timer-Good env (edit w ci (handshaken rx)) ci b1.good)
          (timer-Quiet env (edit w ci (handshaken rx)) ci) b1 in
      let b3 =
        counted-Became
          (edit-Became (first_rtt env rx) (first_rtt-Keeps env rx) (first_rtt-Clear env rx) l b2) in
      Became-Quiet (ack_of-Good env (count_open (edit w1 ci (first_rtt env rx))) ci b3.good)
        (transmit-Quiet env (count_open (edit w1 ci (first_rtt env rx))) ci _ _ _ _) b3

  app_state-w3 : (conn w3 ci).app_state ≡ (conn w ci).app_state
  app_state-w3 =
      ap (λ (t : Tcb). t.app_state) w3-Became.tcb
      ∙ first_rtt-eq env rx (λ t. t.app_state) (λ t a b c. refl) (handshaken rx (conn w ci))

  abbrev wide : World
  wide = edit w3 ci opened_wide

  wide-Became : Became w wide ci (opened_wide joined)
  wide-Became = edit-Became opened_wide opened_wide-Keeps opened_wide-Clear l w3-Became

  app_state-wide : (conn wide ci).app_state ≡ (conn w ci).app_state
  app_state-wide =
      ap (λ (t : Tcb). t.app_state) wide-Became.tcb
      ∙ opened_wide-app_state joined
      ∙ first_rtt-eq env rx (λ t. t.app_state) (λ t a b c. refl) (handshaken rx (conn w ci))

  -- What `start_app` comes to where no TLS and no request is asked for.
  ended : Bool → World
  ended graceful = if graceful then (close env w3 ci).0 else reset env w3 ci

  pub begun : Bool → Bool → World × Bool
  unfolding ended
  begun idle graceful = if idle then (ended graceful, true) else (wide, false)

  -- The same with what it reads: whether a mode is set, twice, and what the worker asks for.
  started : ℕ → ℕ → Bool → Bool → World × Bool
  unfolding ended
  started mode later idle graceful =
      let w2 = if later == 1 then up.tls_start wide ci else wide in
      if mode == 0 && idle then (ended graceful, true) else (first_request env w2 ci, false)

  first_request-eq : (conn w ci).app_state ≡ 0 → first_request env wide ci ≡ wide
  first_request-eq zeroed =
      let bytes = request_bytes env (conn wide ci).app_ctx in
      ap
        (λ (a : ℕ).
          if a == 4 && not (is_nil bytes)
          then edit (send env wide ci bytes).0 ci (awaiting env)
          else wide)
        (app_state-wide ∙ zeroed)

  started-eq :
      start_app env up w3 ci
      ≡ started
          (conn w3 ci).app_state
          (conn wide ci).app_state
          (is_null (conn w3 ci).app_ctx)
          (conn w3 ci).graceful_close
  unfolding started ended
  started-eq = refl

  pub start_app-eq :
      (conn w ci).app_state ≡ 0
      → start_app env up w3 ci ≡ begun (is_null (conn w ci).app_ctx) (conn w ci).graceful_close
  unfolding begun started ended
  start_app-eq zeroed =
      let kept =
        first_rtt-eq env rx (λ t. (is_null t.app_ctx, t.graceful_close)) (λ t a b c. refl)
          (handshaken rx (conn w ci)) in
      let seen : (is_null (conn w3 ci).app_ctx, (conn w3 ci).graceful_close)
          ≡ (is_null (conn w ci).app_ctx, (conn w ci).graceful_close) =
        ap (λ (t : Tcb). (is_null t.app_ctx, t.graceful_close)) w3-Became.tcb ∙ kept in
      started-eq
      ∙ ap
          (λ a.
            started a (conn wide ci).app_state (is_null (conn w3 ci).app_ctx)
              (conn w3 ci).graceful_close)
          (app_state-w3 ∙ zeroed)
      ∙ ap (λ a. started 0 a (is_null (conn w3 ci).app_ctx) (conn w3 ci).graceful_close)
          (app_state-wide ∙ zeroed)
      ∙ ap (λ (r : Bool × Bool). started 0 0 r.0 r.1) seen
      ∙ ap
          (λ (x : World).
            if is_null (conn w ci).app_ctx
            then (ended (conn w ci).graceful_close, true)
            else (x, false))
          (first_request-eq zeroed)

  abbrev pub Answered : Bool → Bool → World → Type 0
  Answered idle graceful w' =
      if idle
      then if graceful then Became w w' ci (closing_tcb joined) else Over w ci w'
      else Became w w' ci (opened_wide joined)

  pub answered :
      (idle graceful : Bool)
      → (w' : World) × (b : Bool) × (begun idle graceful ≡ (w', b)) × Answered idle graceful w'
  unfolding begun ended
  answered false graceful = (wide, false, refl, wide-Became)
  answered true false = (reset env w3 ci, true, refl, reset-Over env g l w3-Became)
  answered true true =
      let state =
        ap (λ (t : Tcb). t.state) w3-Became.tcb
        ∙ first_rtt-eq env rx (λ t. t.state) (λ t a b c. refl) (handshaken rx (conn w ci)) in
      let l3 = Became-live w3-Became l in
      let closed_one = Became-trans w3-Became (close-Became env w3 ci w3-Became.good l3 state) in
      (
        (close env w3 ci).0,
        true,
        refl,
        shown-Became (ap (λ x. view (closing_tcb x)) w3-Became.tcb) closed_one,
      )
