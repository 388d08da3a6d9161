-- ===== src/Fsm/InputGood.antt =====
-- Every segment, whatever it holds and whatever state it meets, keeps the store and the pool valid.
use ai_pattarai.Common.{
  ℕ, ◌≡◌, refl, Bool, true, false, not, ◌&&◌, ltb, ◌==◌, if◌then◌else◌, [], Option, none, some,
}
use ai_pattarai.Tcb.{Tcb, is_null, is_throughput}
use ai_pattarai.Worker.{Store}
use ai_pattarai.TcbStore
use ai_pattarai.TcbStore.Refine.{alloc-IsValid, lookup-alloc}
use ai_pattarai.Transmit.{update_rtt}
use ai_pattarai.Fsm.{
  Env, World, conn, edit, transmit, timer, arm_rto, count_open, count_close, flags_syn_ack,
  flags_ack, initial_rto_us,
}
use ai_pattarai.Fsm.Calls.{reset, close, send, isn_generate, next_seq}
use ai_pattarai.Fsm.Http.{request_bytes, is_nil, awaiting}
use ai_pattarai.Fsm.Input.{
  Rx, Upper, ack_of, accepted, accept_with, answers, passive_open, handshaken, first_rtt,
  opened_wide, first_request, start_app, on_syn_sent, acknowledged, told_from, on_syn_received,
  echo_us,
}
use ai_pattarai.Fsm.Good.{Good, edit-Good, sent-Good, timer-Good, arm_rto-Good, transmit-Good}
use ai_pattarai.Fsm.CallsGood.{if-Good, if_pair-Good, reset-Good, close-Good, send-Good}
use ai_pattarai.Fsm.AppGood.{Lawful}

pub if_keeps :
    (b : Bool) (t t1 t2 : Tcb)
    → (t1.tuple ≡ t.tuple) × (t1.in_use ≡ t.in_use)
    → (t2.tuple ≡ t.tuple) × (t2.in_use ≡ t.in_use)
    → let r = if b then t1 else t2 in (r.tuple ≡ t.tuple) × (r.in_use ≡ t.in_use)
if_keeps true t t1 t2 a b = a
if_keeps false t t1 t2 a b = b

pub counted-Good : (w : World) → Good w → Good (count_open w)
counted-Good w g = sent-Good w (count_open w) refl refl g

pub closed-Good : (w : World) → Good w → Good (count_close w)
closed-Good w g = sent-Good w (count_close w) refl refl g

pub ack_of-Good : (env : Env) (w : World) (ci : ℕ) → Good w → Good (ack_of env w ci)
ack_of-Good env w ci g =
    transmit-Good env w ci flags_ack [] (conn w ci).snd_nxt (conn w ci).rcv_nxt g

accept_with-Good :
    (env : Env) (w : World) (rx : Rx) (o : Option (ℕ × Store))
    → TcbStore.lookup w.worker.store rx.to ≡ none
    → TcbStore.alloc w.worker.store rx.to ≡ o
    → Good w
    → Good (accept_with env w rx o)
accept_with-Good env w rx none free e g = g
accept_with-Good env w rx (some (ci, s)) free e g =
    let w1 = record w { worker = record (w.worker) { store = s } } in
    let g1 : Good w1 = record {
      store = (alloc-IsValid w.worker.store rx.to ci s g.store e).0;
      unique = (lookup-alloc w.worker.store rx.to ci s g.store e g.unique free).0;
      pool = g.pool;
    } in
    let f = accepted (isn_generate env rx.to) rx in
    let w2 = edit w1 ci f in
    let w3 = transmit env w2 ci flags_syn_ack [] (conn w2 ci).snd_nxt (conn w2 ci).rcv_nxt in
    let g3 : Good w3 =
      transmit-Good env w2 ci flags_syn_ack [] (conn w2 ci).snd_nxt (conn w2 ci).rcv_nxt
        (edit-Good w1 ci f (λ t. (refl, refl)) g1) in
    counted-Good (arm_rto env (edit w3 ci next_seq) ci)
      (arm_rto-Good env (edit w3 ci next_seq) ci (edit-Good w3 ci next_seq (λ t. (refl, refl)) g3))

pub passive_open-Good :
    (env : Env) (w : World) (rx : Rx)
    → TcbStore.lookup w.worker.store rx.to ≡ none
    → Good w
    → Good (passive_open env w rx)
unfolding passive_open
passive_open-Good env w rx free g =
    let o = TcbStore.alloc w.worker.store rx.to in
    let opened = if answers env.listens rx.to.src_port then accept_with env w rx o else w in
    if-Good (rx.flags.syn && not rx.flags.ack) opened w
      (if-Good (answers env.listens rx.to.src_port) (accept_with env w rx o) w
        (accept_with-Good env w rx o free refl g) g)
      g

pub update_rtt_keeps :
    (t : Tcb) (n : ℕ) → ((update_rtt t n).tuple ≡ t.tuple) × ((update_rtt t n).in_use ≡ t.in_use)
unfolding update_rtt
update_rtt_keeps t n = (refl, refl)

module _ (env : Env) (up : Upper) (law : Lawful up) where
  first_request-Good : (w : World) (ci : ℕ) → Good w → Good (first_request env w ci)
  first_request-Good w ci g =
      let bytes = request_bytes env (conn w ci).app_ctx in
      if-Good ((conn w ci).app_state == 4 && not (is_nil bytes))
        (edit (send env w ci bytes).0 ci (awaiting env)) w
        (edit-Good (send env w ci bytes).0 ci (awaiting env) (λ t. (refl, refl))
          (send-Good env w ci bytes g))
        g

  start_app-Good : (w : World) (ci : ℕ) → Good w → Good (start_app env up w ci).0
  start_app-Good w ci g =
      let t = conn w ci in
      let w1 = edit w ci opened_wide in
      let w2 = if (conn w1 ci).app_state == 1 then up.tls_start w1 ci else w1 in
      let over = if t.graceful_close then (close env w ci).0 else reset env w ci in
      let g1 : Good w1 =
        edit-Good w ci opened_wide
          (λ u. if_keeps (is_throughput u.app_ctx) u _ u (refl, refl) (refl, refl)) g in
      let g2 : Good w2 =
        if-Good ((conn w1 ci).app_state == 1) (up.tls_start w1 ci) w1 (law.tls_start w1 ci g1) g1 in
      if_pair-Good (t.app_state == 0 && is_null t.app_ctx) (over, true)
        (first_request env w2 ci, false)
        (if-Good t.graceful_close (close env w ci).0 (reset env w ci) (close-Good env w ci g)
          (reset-Good env w ci g))
        (first_request-Good w2 ci g2)

  pub on_syn_sent-Good :
      (w : World) (ci : ℕ) (rx : Rx) → Good w → Good (on_syn_sent env up w ci rx).0
  unfolding on_syn_sent
  on_syn_sent-Good w ci rx g =
      let w1 = timer env (edit w ci (handshaken rx)) ci in
      let w2 = count_open (edit w1 ci (first_rtt env rx)) in
      let g1 : Good w1 =
        timer-Good env (edit w ci (handshaken rx)) ci
          (edit-Good w ci (handshaken rx) (λ t. (refl, refl)) g) in
      let timed =
        rx.opts.has_timestamps && ltb 0 (echo_us env rx) && ltb (echo_us env rx) 60000000 in
      let g2 : Good w2 = counted-Good (edit w1 ci (first_rtt env rx)) (
        edit-Good w1 ci (first_rtt env rx)
          (λ t.
            if_keeps timed t _ (record t { rto_us = initial_rto_us })
              (update_rtt_keeps t (echo_us env rx)) (refl, refl))
          g1) in
      let failed : World × Bool = (reset env w ci, true) in
      let none' : World × Bool = (w, false) in
      let done : World × Bool =
        if rx.ack == (conn w ci).snd_nxt then start_app env up (ack_of env w2 ci) ci else failed in
      let other : World × Bool =
        if rx.flags.ack && not rx.flags.rst && rx.ack == (conn w ci).snd_nxt
        then failed
        else none' in
      if_pair-Good (rx.flags.syn && rx.flags.ack) done other
        (if_pair-Good (rx.ack == (conn w ci).snd_nxt) (start_app env up (ack_of env w2 ci) ci)
          failed (start_app-Good (ack_of env w2 ci) ci (ack_of-Good env w2 ci g2))
          (reset-Good env w ci g))
        (if_pair-Good (rx.flags.ack && not rx.flags.rst && rx.ack == (conn w ci).snd_nxt) failed
          none' (reset-Good env w ci g) g)

  told_server-Good :
      (o : Option (ℕ → Bool)) (w : World) (ci : ℕ) → Good w → Good (told_from up w ci o)
  told_server-Good none w ci g = g
  told_server-Good (some l) w ci g = law.established w ci g

  pub on_syn_received-Good :
      (w : World) (ci : ℕ) (rx : Rx) → Good w → Good (on_syn_received env up w ci rx).0
  unfolding on_syn_received
  on_syn_received-Good w ci rx g =
      let w1 = count_open (edit w ci (acknowledged rx)) in
      if_pair-Good (rx.flags.ack && rx.seq == (conn w ci).rcv_nxt)
        (told_from up w1 ci env.listens, false) (w, false)
        (told_server-Good env.listens w1 ci (
          counted-Good (edit w ci (acknowledged rx))
            (edit-Good w ci (acknowledged rx) (λ t. (refl, refl)) g)))
        g
