-- ===== src/Fsm/Expiry.antt =====
-- The end of the wait in TIME_WAIT and FIN_WAIT_2.
use ai_pattarai.Common.{
  ℕ, ◌≡◌, refl, sym, ap, ◌∙◌, subst, Bool, true, false, ◌||◌, not, if◌then◌else◌, none,
}
use ai_pattarai.Tcb.{
  TcpState, zero_tcb, same_tuple, closed, listen, syn_sent, syn_received, established, fin_wait_1,
  fin_wait_2, close_wait, closing, last_ack, time_wait, is_state,
}
use ai_pattarai.Worker.{Worker, tcb_at}
use ai_pattarai.TcbStore.{lookup}
use ai_pattarai.TcbStore.Inv.{live}
use ai_pattarai.PortPool
use ai_pattarai.Fsm.{Env, World, conn, teardown_hold, count_close}
use ai_pattarai.Fsm.Input.{Upper}
use ai_pattarai.Fsm.Good.{Good, teardown_hold-Good}
use ai_pattarai.Fsm.InputGood.{closed-Good}
use ai_pattarai.Fsm.Lookups.{
  lookup-teardown, conn-teardown, pool-teardown_hold, worker-teardown_hold,
}
use ai_pattarai.Fsm.Timer.{due, fire_state, timer_fire}

-- The connection is forgotten, and its port handed to the pool's TIME_WAIT.
abbrev pub Held : Env → World → ℕ → World → Type 0
Held env w ci w' =
    let q0 = (conn w ci).tuple in
    Good w'
    × (conn w' ci ≡ zero_tcb)
    × ((q : _)
        → lookup w'.worker.store q ≡ (if same_tuple q0 q then none else lookup w.worker.store q))
    × (w'.pool ≡ PortPool.free w.pool env.now q0.src_ip q0.src_port)

held :
    (env : Env) (w : World) (ci : ℕ)
    → Good w
    → live w.worker.store ci ≡ true
    → Held env w ci (teardown_hold env w ci)
held env w ci g l =
    let same = worker-teardown_hold env w ci in
    (
      teardown_hold-Good env w ci g,
      ap (λ (x : Worker). tcb_at x ci) same ∙ conn-teardown w ci g l,
      λ q. ap (λ (x : Worker). lookup x.store q) same ∙ lookup-teardown w ci g l q,
      pool-teardown_hold w ci g l env,
    )

module _ (env : Env) (up : Upper) (w : World) (ci : ℕ) (g : Good w)
    (l : live w.worker.store ci ≡ true) where
  abbrev waited : Bool
  waited = due env (conn w ci).timewait_deadline_tsc

  if-Held :
      (b : Bool) (x : World)
      → Held env w ci x
      → if b then Held env w ci (if b then x else w) else ((if b then x else w) ≡ w)
  if-Held true x h = h
  if-Held false x h = refl

  expired :
      (s : TcpState)
      → (is_state s time_wait || is_state s fin_wait_2) ≡ true
      → if waited then Held env w ci (fire_state env up s w ci) else (fire_state env up s w ci ≡ w)
  expired time_wait h = if-Held waited (teardown_hold env w ci) (held env w ci g l)
  expired fin_wait_2 h =
      if-Held waited (teardown_hold env (count_close w) ci)
        (held env (count_close w) ci (closed-Good w g) l)
  expired closed h = cc
  expired listen h = cc
  expired syn_sent h = cc
  expired syn_received h = cc
  expired established h = cc
  expired fin_wait_1 h = cc
  expired close_wait h = cc
  expired closing h = cc
  expired last_ack h = cc

  timer_fire-eq : timer_fire env up w ci ≡ fire_state env up (conn w ci).state w ci
  unfolding timer_fire
  timer_fire-eq = ap (λ (b : Bool). if not b then w else fire_state env up (conn w ci).state w ci) l

  -- A timer of a live connection in TIME_WAIT or FIN_WAIT_2: once the deadline of the wait is set and
  -- has passed, the TCB is zeroed, the 4-tuple and no other is out of the table, the port goes into the
  -- pool's TIME_WAIT as `tcp_port_free` has it, and store and pool are valid; before that nothing
  -- changes at all.
  pub expiry_lem :
      (is_state (conn w ci).state time_wait || is_state (conn w ci).state fin_wait_2) ≡ true
      → let w' = timer_fire env up w ci in
        if due env (conn w ci).timewait_deadline_tsc then Held env w ci w' else (w' ≡ w)
  expiry_lem h =
      subst (λ x. if waited then Held env w ci x else (x ≡ w)) (sym timer_fire-eq)
        (expired (conn w ci).state h)
