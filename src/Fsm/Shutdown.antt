-- ===== src/Fsm/Shutdown.antt =====
-- The orderly end of a connection: `tcp_fsm_close`, the acknowledgement of its FIN, the peer's FIN.
use ai_pattarai.Common.{
  ℕ, ◌+◌, ◌≡◌, refl, sym, ap, ◌∙◌, subst, Bool, true, false, not, ◌&&◌, ◌==◌, ==_self,
  if◌then◌else◌, some, [], ◌||◌, u32,
}
use ai_pattarai.Tcb.{
  Tcb, established, fin_wait_1, fin_wait_2, closing, close_wait, last_ack, is_state,
}
use ai_pattarai.TcbStore.Inv.{live}
use ai_pattarai.Fsm.{Env, World, conn, edit, transmit, timer, arm_rto, teardown, flags_fin_ack}
use ai_pattarai.Fsm.Calls.{close, closing_tcb, can_send}
use ai_pattarai.Fsm.Http.{is_nil}
use ai_pattarai.Fsm.Input.{Rx, Upper, seq_gt, ack_of}
use ai_pattarai.Fsm.Dispatch.{
  in_state, take_more, fin_seen, gone, ack_if, una_set, our_fin_acked, waiting, on_fin_wait_1,
  on_fin_wait_2, input,
}
use ai_pattarai.Fsm.Good.{Good, transmit-Good, timer-Good, arm_rto-Good}
use ai_pattarai.Fsm.View.{transmit-Quiet, timer-Quiet, arm_rto-Quiet}
use ai_pattarai.Fsm.InputGood.{ack_of-Good, closed-Good}
use ai_pattarai.Fsm.Became.{
  Over, teardown-Over, Became, Became-refl, Became-trans, Became-live, edit-Became, Became-Quiet,
}
use ai_pattarai.Fsm.Arrives.{
  Arrives, input-eq, una_set-Keeps, una_set-Clear, take_more-Keeps, take_more-Clear, ack_if-Quiet,
  ack_if-Good,
}

module _ (env : Env) (w : World) (ci : ℕ) (g : Good w) (l : live w.worker.store ci ≡ true) where
  fin_sent : World
  fin_sent = transmit env w ci flags_fin_ack [] (conn w ci).snd_nxt (conn w ci).rcv_nxt

  fin_sent-Became : Became w fin_sent ci (conn w ci)
  unfolding fin_sent
  fin_sent-Became =
      Became-Quiet
        (transmit-Good env w ci flags_fin_ack [] (conn w ci).snd_nxt (conn w ci).rcv_nxt g)
        (transmit-Quiet env w ci flags_fin_ack [] (conn w ci).snd_nxt (conn w ci).rcv_nxt)
        (Became-refl w ci g)

  close-eq :
      (conn w ci).state ≡ established
      → (close env w ci).0 ≡ arm_rto env (edit fin_sent ci closing_tcb) ci
  unfolding close fin_sent
  close-eq e =
      let whole : World × Bool = (arm_rto env (edit fin_sent ci closing_tcb) ci, true) in
      let may : can_send (conn w ci) ≡ true =
        ap (λ x. is_state x established || is_state x close_wait) e in
      ap (λ (b : Bool). (if b then whole else (w, false)).0) may

  pub close-Became :
      (conn w ci).state ≡ established → Became w (close env w ci).0 ci (closing_tcb (conn w ci))
  close-Became e =
      let closed_one = edit-Became closing_tcb (λ t. (refl, refl)) (λ t. refl) l fin_sent-Became in
      subst (λ x. Became w x ci (closing_tcb (conn w ci))) (sym (close-eq e))
        (Became-Quiet (arm_rto-Good env (edit fin_sent ci closing_tcb) ci closed_one.good)
          (arm_rto-Quiet env (edit fin_sent ci closing_tcb) ci) closed_one)

  module _ (rx : Rx) where
    abbrev heard : World
    heard = edit (edit w ci (una_set rx)) ci (take_more rx)

    abbrev heard_tcb : Tcb
    heard_tcb = take_more rx (una_set rx (conn w ci))

    heard-Became : Became w heard ci heard_tcb
    heard-Became =
        edit-Became (take_more rx) (take_more-Keeps rx) (take_more-Clear rx) l
          (edit-Became (una_set rx) (una_set-Keeps rx) (una_set-Clear rx) l (Became-refl w ci g))

    acks : Bool
    acks = not (is_nil rx.payload)

    idle_wait : World
    idle_wait = timer env (edit heard ci (waiting env)) ci

    -- The four ways out of the handler.
    branch : Bool → Bool → World
    branch fin acked =
        let w2 = ack_of env (edit heard ci fin_seen) ci in
        if fin
        then (if acked then gone w2 ci else arm_rto env (edit w2 ci (in_state closing)) ci)
        else if acked
        then ack_if acks env idle_wait ci
        else ack_if acks env heard ci

    branches : on_fin_wait_1 env w ci rx ≡ branch rx.flags.fin (our_fin_acked rx (conn w ci))
    unfolding on_fin_wait_1 branch acks idle_wait
    branches = refl

    -- The acknowledgement of the FIN, without a FIN.
    fin_wait_2-Became :
        our_fin_acked rx (conn w ci) ≡ true
        → rx.flags.fin ≡ false
        → Became w (on_fin_wait_1 env w ci rx) ci (waiting env heard_tcb)
    unfolding branch idle_wait
    fin_wait_2-Became acked e =
        let whole =
          branches
          ∙ ap (λ b. branch b (our_fin_acked rx (conn w ci))) e
          ∙ ap (branch false) acked in
        let b1 = edit-Became (waiting env) (λ t. (refl, refl)) (λ t. refl) l heard-Became in
        let b2 =
          Became-Quiet (timer-Good env (edit heard ci (waiting env)) ci b1.good)
            (timer-Quiet env (edit heard ci (waiting env)) ci) b1 in
        subst (λ x. Became w x ci (waiting env heard_tcb)) (sym whole)
          (Became-Quiet (ack_if-Good acks env idle_wait ci b2.good)
            (ack_if-Quiet acks env idle_wait ci) b2)

    abbrev last_heard : World
    last_heard = ack_of env (edit (edit w ci (take_more rx)) ci fin_seen) ci

    -- The peer's FIN in FIN_WAIT_2, up to the teardown.
    last_heard-Became : Became w last_heard ci (fin_seen (take_more rx (conn w ci)))
    last_heard-Became =
        let b1 =
          edit-Became fin_seen (λ t. (refl, refl)) (λ t. refl) l
            (edit-Became (take_more rx) (take_more-Keeps rx) (take_more-Clear rx) l
              (Became-refl w ci g)) in
        let w1 = edit (edit w ci (take_more rx)) ci fin_seen in
        Became-Quiet (ack_of-Good env w1 ci b1.good) (transmit-Quiet env w1 ci _ _ _ _) b1

    last_fin : rx.flags.fin ≡ true → on_fin_wait_2 env w ci rx ≡ gone last_heard ci
    unfolding on_fin_wait_2 acks
    last_fin e =
        ap
          (λ (b : Bool).
            if b then gone last_heard ci else ack_if acks env (edit w ci (take_more rx)) ci)
          e

gone-Over :
    {w w' : World} {ci : ℕ} {t : Tcb}
    → Good w
    → live w.worker.store ci ≡ true
    → Became w w' ci t
    → Over w ci (gone w' ci)
gone-Over {w' = w'} {ci = ci} g l b =
    let (good, zeroed, lookups, ports) = teardown-Over g l b in
    (closed-Good (teardown w' ci) good, zeroed, lookups, ports)

-- In a valid state, a live connection that `tcp_fsm_close` closes in ESTABLISHED is over after two
-- sound segments of its peer without RST: one without FIN that acknowledges the FIN, by a number
-- newer than what was acknowledged before, and then one with FIN, whatever data, flags and sequence
-- numbers the two have besides. Both calls of `tcp_fsm_input` return. In between the connection is in
-- FIN_WAIT_2; at the end its TCB is zeroed, its 4-tuple and no other is out of the table, its source
-- port, if it is an ephemeral one, and no other of its address is available again, and the store and
-- the pool are valid.
pub orderly_close :
    (env env1 env2 : Env) (up : Upper) (w : World) (ci : ℕ) (acking closing_peer : Rx)
    → Good w
    → live w.worker.store ci ≡ true
    → (conn w ci).state ≡ established
    → Arrives (conn w ci).tuple acking
    → acking.flags.ack ≡ true
    → acking.flags.fin ≡ false
    → acking.ack ≡ u32 ((conn w ci).snd_nxt + 1)
    → seq_gt acking.ack (conn w ci).snd_una ≡ true
    → Arrives (conn w ci).tuple closing_peer
    → closing_peer.flags.fin ≡ true
    → (w2 w3 : World) × (input env1 up (close env w ci).0 acking ≡ some w2)
      × ((conn w2 ci).state ≡ fin_wait_2)
      × (input env2 up w2 closing_peer ≡ some w3)
      × Over w ci w3
orderly_close env env1 env2 up w ci acking closing_peer g l e sound has_ack no_fin all fresh sound'
      fin =
    let t = conn w ci in
    let w1 = (close env w ci).0 in
    let b1 = close-Became env w ci g l e in
    let l1 = Became-live b1 l in
    let state1 =
      ap (λ (x : Tcb). x.state) b1.tcb
      ∙ ap (λ s. if is_state s established then fin_wait_1 else last_ack) e in
    let acked =
      ap (our_fin_acked acking) b1.tcb
      ∙ ap (λ b. (b && seq_gt acking.ack t.snd_una) && acking.ack == u32 (t.snd_nxt + 1)) has_ack
      ∙ ap (λ b. b && acking.ack == u32 (t.snd_nxt + 1)) fresh
      ∙ ap (λ n. n == u32 (t.snd_nxt + 1)) all
      ∙ ==_self (u32 (t.snd_nxt + 1)) in
    let w2 = on_fin_wait_1 env1 w1 ci acking in
    let b2 = fin_wait_2-Became env1 w1 ci b1.good l1 acking acked no_fin in
    let l2 = Became-live b2 l1 in
    let b = Became-trans b1 b2 in
    let state2 = ap (λ (x : Tcb). x.state) b2.tcb in
    let b3 = Became-trans b (last_heard-Became env2 w2 ci b2.good l2 closing_peer) in
    (
      w2,
      gone (last_heard env2 w2 ci b2.good l2 closing_peer) ci,
      input-eq env1 up w1 w2 false ci acking fin_wait_1 b1.good l1
          (subst (λ q. Arrives q acking) (sym (b1.conns.tuples ci)) sound) state1 refl,
      state2,
      input-eq env2 up w2 _ false ci closing_peer fin_wait_2 b2.good l2
          (subst (λ q. Arrives q closing_peer) (sym (b.conns.tuples ci)) sound') state2
          (ap (λ x. some (x, false)) (last_fin env2 w2 ci b2.good l2 closing_peer fin)),
      gone-Over g l b3,
    )
