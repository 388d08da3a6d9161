-- ===== src/Fsm/Connect.antt =====
-- `tcp_fsm_connect` opens a connection: its 4-tuple finds it, it is in SYN_SENT, and a SYN is out.
use ai_pattarai.Common.{
  ℕ, ◌-◌, ◌+◌, ◌≡◌, ◌≢◌, refl, sym, ap, ◌∙◌, subst, Bool, true, ◌==◌, ==_self, if◌then◌else◌,
  Option, none, some, [], ◌∷◌, ◌++◌, Bool-cases, inl, inr, Option-cases, u32,
}
use ai_pattarai.Tcb.{Tcb, Tuple, same_tuple, syn_sent}
use ai_pattarai.Worker.{Store}
use ai_pattarai.TcbStore
use ai_pattarai.TcbStore.{lookup, fresh_tcb}
use ai_pattarai.TcbStore.Inv
use ai_pattarai.TcbStore.Inv.{live, tuple_of, live_in}
use ai_pattarai.TcbStore.Refine.{alloc-none, alloc-IsValid, lookup-alloc}
use ai_pattarai.TimerWheel.Frame.{SameConns}
use ai_pattarai.PortPool
use ai_pattarai.PortPool.{WorkerPool, ephem_lo}
use ai_pattarai.PortPool.Pools
use ai_pattarai.PortPool.Pools.{available}
use ai_pattarai.PortPool.Alloc.{alloc-Allocated, Allocated}
use ai_pattarai.Fsm.{Env, World, Packet, conn, edit, transmit, timer, arm_rto, flags_syn}
use ai_pattarai.Fsm.Calls.{
  connect, connect_from, send_syn, source_port, connecting, next_seq, isn_generate,
}
use ai_pattarai.Fsm.Good.{Good, edit-Good, transmit-Good, arm_rto-Good, put-SameConns}
use ai_pattarai.Fsm.View.{view, Quiet, SameConns-trans, transmit-Quiet, arm_rto-Quiet, conn-edit}
use ai_pattarai.Fsm.Lookups.{same-lookup}

-- The segment that opens a connection.
abbrev pub syn_packet : Tuple → ℕ → Packet
syn_packet q isn = record {
  conn = q;
  flags = flags_syn;
  segment = record { payload = []; seq = isn; ack = 0 };
}

-- The specification of an open of `q` at the TCB `ci`, in the pool `pool`.
abbrev pub Opened : Env → World → WorkerPool → Tuple → ℕ → World → Type 0
Opened env w pool q ci w' =
    let t = conn w' ci in
    let isn = isn_generate env q in
    Good w'
    × (w'.pool ≡ pool)
    × ((q' : Tuple)
        → lookup w'.worker.store q'
          ≡ (if same_tuple q q' then some ci else lookup w.worker.store q'))
    × (t.state ≡ syn_sent)
    × (t.snd_una ≡ isn)
    × (t.snd_nxt ≡ u32 (isn + 1))
    × (w'.out ≡ (if env.accepts w.out isn then w.out ++ (syn_packet q isn ∷ []) else w.out))

module _ (env : Env) (w : World) (q : Tuple) (ci : ℕ) (s : Store) (g : Good w)
    (free : lookup w.worker.store q ≡ none)
    (e : TcbStore.alloc w.worker.store q ≡ some (ci, s)) where
  w1 : World
  w1 = record w { worker = record (w.worker) { store = s } }

  w2 : World
  w2 = edit w1 ci (connecting env (isn_generate env q))

  w3 : World
  w3 = transmit env w2 ci flags_syn [] (conn w2 ci).snd_nxt 0

  w4 : World
  w4 = edit w3 ci next_seq

  new : Inv.IsValid s × (tuple_of s ci ≡ q) × (live s ci ≡ true)
  new =
      let (v, n, idle, at) = alloc-IsValid w.worker.store q ci s g.store e in
      let here = rw (==_self ci) at (at ci) in
      (v, ap (λ (t : Tcb). t.tuple) here, ap (λ (t : Tcb). t.in_use) here)

  g1 : Good w1
  unfolding w1
  g1 = record {
    store = new.0;
    unique = (lookup-alloc w.worker.store q ci s g.store e g.unique free).0;
    pool = g.pool;
  }

  g2 : Good w2
  unfolding w2
  g2 = edit-Good w1 ci (connecting env (isn_generate env q)) (λ t. (refl, refl)) g1

  quiet3 : Quiet w2 w3
  unfolding w3
  quiet3 = transmit-Quiet env w2 ci flags_syn [] (conn w2 ci).snd_nxt 0

  g3 : Good w3
  unfolding w3
  g3 = transmit-Good env w2 ci flags_syn [] (conn w2 ci).snd_nxt 0 g2

  quiet5 : Quiet w4 (arm_rto env w4 ci)
  quiet5 = arm_rto-Quiet env w4 ci

  g4 : Good w4
  unfolding w4
  g4 = edit-Good w3 ci next_seq (λ t. (refl, refl)) g3

  conns : SameConns s (arm_rto env w4 ci).worker.store
  unfolding w4 w2 w1
  conns =
      SameConns-trans
        (put-SameConns w1.worker ci (connecting env (isn_generate env q) (conn w1 ci)) refl refl)
        (SameConns-trans quiet3.conns (
          SameConns-trans (put-SameConns w3.worker ci (next_seq (conn w3 ci)) refl refl)
            quiet5.conns))

  conn-w2 : conn w2 ci ≡ connecting env (isn_generate env q) (conn w1 ci)
  unfolding w2 w1
  conn-w2 = conn-edit w1 ci (connecting env (isn_generate env q)) (live_in s ci new.2)

  conn-w4 : conn w4 ci ≡ next_seq (conn w3 ci)
  unfolding w4 w1
  conn-w4 = conn-edit w3 ci next_seq (
      live_in w3.worker.store ci
        (quiet3.conns.in_uses ci ∙ ap (λ (t : Tcb). t.in_use) conn-w2 ∙ new.2))

  -- A field of the new TCB that arming the timeout does not touch, from the one after the SYN.
  field :
      {A : Type 0} (f : Tcb → A)
      → ((t : Tcb) → f (view t) ≡ f t)
      → f (conn (arm_rto env w4 ci) ci) ≡ f (next_seq (conn w3 ci))
  field f h =
      sym (h (conn (arm_rto env w4 ci) ci)) ∙ ap f (quiet5.views ci) ∙ h (conn w4 ci) ∙ ap f conn-w4

  after_syn :
      {A : Type 0} (f : Tcb → A)
      → ((t : Tcb) → f (view t) ≡ f t)
      → f (conn w3 ci) ≡ f (connecting env (isn_generate env q) (conn w1 ci))
  after_syn f h = sym (h (conn w3 ci)) ∙ ap f (quiet3.views ci) ∙ h (conn w2 ci) ∙ ap f conn-w2

  out-w3 : w3.out ≡ (
      if env.accepts w.out (conn w2 ci).snd_nxt
      then w.out
        ++ (record {
          conn = (conn w2 ci).tuple;
          flags = flags_syn;
          segment = record { payload = []; seq = (conn w2 ci).snd_nxt; ack = 0 };
        }
            ∷ [])
      else w.out)
  unfolding w3 transmit w2 w1
  out-w3 = elim (Bool-cases (env.accepts w.out (conn w2 ci).snd_nxt)) [
    | inl ok ↦ rw ok refl
    | inr refused ↦ rw refused refl
  ]

  out-arm : (arm_rto env w4 ci).out ≡ (
      if env.accepts w.out (isn_generate env q)
      then w.out ++ (syn_packet q (isn_generate env q) ∷ [])
      else w.out)
  unfolding arm_rto timer w4 w1
  out-arm =
      out-w3
      ∙ ap
          (λ (t : Tcb).
            if env.accepts w.out t.snd_nxt
            then w.out ++ (syn_packet t.tuple t.snd_nxt ∷ [])
            else w.out)
          conn-w2
      ∙ ap
          (λ (r : Tuple).
            if env.accepts w.out (isn_generate env q)
            then w.out ++ (syn_packet r (isn_generate env q) ∷ [])
            else w.out)
          new.1

  pool-arm : (arm_rto env w4 ci).pool ≡ w.pool
  unfolding w4 w2 w1
  pool-arm = quiet5.pool ∙ quiet3.pool

  opened : Opened env w w.pool q ci (arm_rto env w4 ci)
  opened = (
    arm_rto-Good env w4 ci g4,
    pool-arm,
    λ q'.
        same-lookup s (arm_rto env w4 ci).worker.store new.0
          (lookup-alloc w.worker.store q ci s g.store e g.unique free).0 conns q'
        ∙ (lookup-alloc w.worker.store q ci s g.store e g.unique free).1 q',
    field (λ t. t.state) (λ t. refl) ∙ after_syn (λ t. t.state) (λ t. refl),
    field (λ t. t.snd_una) (λ t. refl) ∙ after_syn (λ t. t.snd_una) (λ t. refl),
    field (λ t. t.snd_nxt) (λ t. refl)
        ∙ ap (λ n. u32 (n + 1)) (after_syn (λ t. t.snd_nxt) (λ t. refl)),
    out-arm,
  )

  send_syn-eq : send_syn env w q (some (ci, s)) ≡ (arm_rto env w4 ci, some ci)
  unfolding w4 w3 w2 w1
  send_syn-eq = refl

source_port-IsValid :
    (w : World) (src_ip src_port : ℕ)
    → Pools.IsValid w.pool
    → Pools.IsValid (source_port w src_ip src_port).1
source_port-IsValid w src_ip src_port v = elim (Bool-cases (src_port == 0)) [
  | inl any ↦ rw any ((alloc-Allocated w.pool src_ip v).0)
  | inr given ↦ rw given v
]

module _ (env : Env) (w : World) (src_ip src_port dst_ip dst_port p : ℕ) (g : Good w)
    (chosen : (source_port w src_ip src_port).0 ≡ some p) where
  abbrev pub names : Tuple
  names = record { src_ip = src_ip; src_port = p; dst_ip = dst_ip; dst_port = dst_port }

  abbrev pub taken : World
  taken = record w { pool = (source_port w src_ip src_port).1 }

  connect-eq :
      connect env w src_ip src_port dst_ip dst_port
      ≡ send_syn env taken names (TcbStore.alloc w.worker.store names)
  unfolding connect
  connect-eq = ap (λ (o : Option ℕ). connect_from env taken src_ip o dst_ip dst_port) chosen

  -- With a source port, given or ephemeral, a 4-tuple that is not in use and a TCB left,
  -- `tcp_fsm_connect` returns a TCB in SYN_SENT that the 4-tuple finds from then on, and no other
  -- 4-tuple finds anything else; a SYN with the initial sequence number goes out, if it is
  -- accepted, and that number alone is in flight. The store and the pool stay valid.
  pub connect-Opened :
      lookup w.worker.store names ≡ none
      → w.worker.store.count ≢ w.worker.store.capacity
      → let r = connect env w src_ip src_port dst_ip dst_port in
        (ci : ℕ) × (r.1 ≡ some ci) × Opened env w (source_port w src_ip src_port).1 names ci r.0
  connect-Opened free room = elim (Option-cases (TcbStore.alloc w.worker.store names)) [
    | inl full ↦ absurd (room ((alloc-none w.worker.store names g.store).0 full))
    | inr ((ci, s), e) ↦
        let g' : Good taken = record {
          store = g.store;
          unique = g.unique;
          pool = source_port-IsValid w src_ip src_port g.pool;
        } in
        let whole =
          connect-eq
          ∙ ap (λ (o : Option (ℕ × Store)). send_syn env taken names o) e
          ∙ send_syn-eq env taken names ci s g' free e in
        (
          ci,
          ap (λ (r : World × Option ℕ). r.1) whole,
          subst (λ (r : World × Option ℕ). Opened env w taken.pool names ci r.0) (sym whole)
              (opened env taken names ci s g' free e),
        )
  ]

-- When every TCB is in use, a call for an ephemeral port that gets one returns NULL and keeps the
-- port: it is no longer available to its address, and nothing else has changed.
pub connect_leaks_port :
    (env : Env) (w : World) (src_ip dst_ip dst_port p : ℕ) (pool : WorkerPool)
    → Good w
    → w.worker.store.count ≡ w.worker.store.capacity
    → PortPool.alloc w.pool src_ip ≡ (some p, pool)
    → (connect env w src_ip 0 dst_ip dst_port ≡ (record w { pool = pool }, none))
      × (available w.pool src_ip (p - ephem_lo) ≡ 1)
      × (available pool src_ip (p - ephem_lo) ≡ 0)
unfolding connect
connect_leaks_port env w src_ip dst_ip dst_port p pool g full e =
    let q : Tuple = record {
      src_ip = src_ip;
      src_port = p;
      dst_ip = dst_ip;
      dst_port = dst_port;
    } in
    let (v, (lo, hi, was, now)) =
      subst (λ r. Pools.IsValid r.1 × Allocated w.pool src_ip r) e
        (alloc-Allocated w.pool src_ip g.pool) in
    (
      ap
            (λ (r : Option ℕ × WorkerPool).
              connect_from env (record w { pool = r.1 }) src_ip r.0 dst_ip dst_port)
            e
          ∙ ap (send_syn env (record w { pool = pool }) q)
              ((alloc-none w.worker.store q g.store).1 full),
      was,
      now (p - ephem_lo)
          ∙ ap (λ (b : Bool). if b then 0 else available w.pool src_ip (p - ephem_lo))
              (==_self (p - ephem_lo)),
    )
