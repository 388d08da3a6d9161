-- ===== src/Fsm/Reset.antt =====
-- `tcp_fsm_reset` forgets a connection: its 4-tuple, its TCB and its port.
use ai_pattarai.Common.{
  ℕ, ◌-◌, ◌+◌, ◌≡◌, refl, ap, ◌∙◌, subst, sym, Bool, true, false, not, ◌&&◌, leb, ◌==◌,
  if◌then◌else◌, none, [], ◌∷◌, ◌++◌, Bool-cases, inl, inr, u64,
}
use ai_pattarai.Tcb.{Tuple, zero_tcb, same_tuple, state_rank, established}
use ai_pattarai.TcbStore.{lookup}
use ai_pattarai.TcbStore.Inv.{live}
use ai_pattarai.PortPool.{outside, ephem_lo}
use ai_pattarai.PortPool.Pools.{available}
use ai_pattarai.Fsm.{Env, World, Packet, conn, transmit, teardown, detach_tls, flags_rst_ack}
use ai_pattarai.Fsm.Calls.{reset}
use ai_pattarai.Fsm.Good.{Good, transmit-Good}
use ai_pattarai.Fsm.View.{Quiet, transmit-Quiet}
use ai_pattarai.Fsm.Became.{Over, teardown-Over, Became-Quiet, Became-refl}

-- The segment that a reset sends.
abbrev pub rst_packet : World → ℕ → Packet
rst_packet w ci = record {
  conn = (conn w ci).tuple;
  flags = flags_rst_ack;
  segment = record { payload = []; seq = (conn w ci).snd_nxt; ack = (conn w ci).rcv_nxt };
}

-- The specification of a reset of the connection `ci`.
abbrev pub Forgotten : Env → World → ℕ → World → Type 0
Forgotten env w ci w' =
    let t = conn w ci in
    let port = t.tuple.src_port in
    Good w'
    × (conn w' ci ≡ zero_tcb)
    × ((q : Tuple)
        → lookup w'.worker.store q
          ≡ (if same_tuple t.tuple q then none else lookup w.worker.store q))
    × ((k : ℕ)
        → available w'.pool t.tuple.src_ip k ≡ (
            if not (outside port) && port - ephem_lo == k
            then 1
            else available w.pool t.tuple.src_ip k))
    × (w'.out ≡ (if env.accepts w.out t.snd_nxt then w.out ++ (rst_packet w ci ∷ []) else w.out))
    × (w'.conn_close ≡ (
        if leb (state_rank established) (state_rank t.state)
        then u64 (w.conn_close + 1)
        else w.conn_close))

counted : World → ℕ → World
counted w n = record w { conn_close = n }

rst_sent : Env → World → ℕ → World
rst_sent env w ci = transmit env w ci flags_rst_ack [] (conn w ci).snd_nxt (conn w ci).rcv_nxt

out-transmit :
    (env : Env) (w : World) (ci : ℕ)
    → (rst_sent env w ci).out
      ≡ (if env.accepts w.out (conn w ci).snd_nxt then w.out ++ (rst_packet w ci ∷ []) else w.out)
unfolding rst_sent transmit
out-transmit env w ci = elim (Bool-cases (env.accepts w.out (conn w ci).snd_nxt)) [
  | inl ok ↦ rw ok refl
  | inr refused ↦ rw refused refl
]

close-transmit : (env : Env) (w : World) (ci : ℕ) → (rst_sent env w ci).conn_close ≡ w.conn_close
unfolding rst_sent transmit
close-transmit env w ci = elim (Bool-cases (env.accepts w.out (conn w ci).snd_nxt)) [
  | inl ok ↦ rw ok refl
  | inr refused ↦ rw refused refl
]

-- The segment and the teardown, whatever was counted before.
module _ (env : Env) (w : World) (ci : ℕ) (g : Good w) (l : live w.worker.store ci ≡ true) where
  module _ (n : ℕ) where
    w2 : World
    w2 = rst_sent env (counted w n) ci

    quiet : Quiet w w2
    unfolding w2 rst_sent counted
    quiet =
        let q =
          transmit-Quiet env (record w { conn_close = n }) ci flags_rst_ack [] (conn w ci).snd_nxt
            (conn w ci).rcv_nxt in
        record { conns = q.conns; views = q.views; pool = q.pool }

    g2 : Good w2
    unfolding w2 rst_sent counted
    g2 =
        transmit-Good env (record w { conn_close = n }) ci flags_rst_ack [] (conn w ci).snd_nxt
          (conn w ci).rcv_nxt (record { store = g.store; unique = g.unique; pool = g.pool })

    l2 : live w2.worker.store ci ≡ true
    l2 = quiet.conns.in_uses ci ∙ l

    torn : Over w ci (teardown w2 ci)
    torn = teardown-Over g l (Became-Quiet g2 quiet (Became-refl w ci g))

    sent :
        (teardown w2 ci).out
        ≡ (if env.accepts w.out (conn w ci).snd_nxt then w.out ++ (rst_packet w ci ∷ []) else w.out)
    unfolding teardown detach_tls w2 counted
    sent = out-transmit env (record w { conn_close = n }) ci

    closed_count : (teardown w2 ci).conn_close ≡ n
    unfolding teardown detach_tls w2 counted
    closed_count = close-transmit env (record w { conn_close = n }) ci

  late : Bool
  late = leb (state_rank established) (state_rank (conn w ci).state)

  reset-eq :
      (b : Bool)
      → late ≡ b
      → reset env w ci ≡ teardown (w2 (if b then u64 (w.conn_close + 1) else w.conn_close)) ci
  unfolding reset late w2 rst_sent counted
  reset-eq true e = rw e refl
  reset-eq false e = rw e refl

  -- Resetting a live connection keeps the store and the pool valid; it zeroes the TCB, takes the
  -- 4-tuple and no other out of the table, and makes the source port available again, and no other,
  -- to its address. A RST with ACK goes out, if it is accepted, and a connection that got as far as
  -- ESTABLISHED is counted as closed.
  pub reset-Forgotten : Forgotten env w ci (reset env w ci)
  unfolding late
  reset-Forgotten =
      let n : ℕ = if late then u64 (w.conn_close + 1) else w.conn_close in
      let whole = reset-eq late refl in
      let (good, zeroed, lookups, ports) = torn n in
      (
        subst Good (sym whole) good,
        ap (λ (x : World). conn x ci) whole ∙ zeroed,
        λ q. ap (λ (x : World). lookup x.worker.store q) whole ∙ lookups q,
        λ k. ap (λ (x : World). available x.pool (conn w ci).tuple.src_ip k) whole ∙ ports k,
        ap (λ (x : World). x.out) whole ∙ sent n,
        ap (λ (x : World). x.conn_close) whole ∙ closed_count n,
      )
