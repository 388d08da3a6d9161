-- ===== src/Fsm/Good.antt =====
-- What every call of the state machine keeps: a valid store with unique 4-tuples, and a valid pool.
use ai_pattarai.Common.{
  ℕ, ◌+◌, bit_and, ◌≡◌, refl, sym, ◌∙◌, subst, arith, leb, ◌==◌, ◌&&◌, not, List, Bool-cases, inl,
  inr, length-set, map_at-set,
}
use ai_pattarai.Tcb.{Tcb, zero_tcb}
use ai_pattarai.Worker.{Worker, tcb_at, put_tcb}
use ai_pattarai.TimerWheel.Frame.{SameConns, resched-SameConns}
use ai_pattarai.TcbStore
use ai_pattarai.TcbStore.Inv
use ai_pattarai.TcbStore.Inv.{live, tuple_of}
use ai_pattarai.TcbStore.Lookup.{Unique}
use ai_pattarai.TcbStore.Free.{SameConns-IsValid, free-IsValid, lookup-free, free_idle}
use ai_pattarai.PortPool
use ai_pattarai.PortPool.{WorkerPool, outside, tw_ring_mask}
use ai_pattarai.PortPool.Pools
use ai_pattarai.PortPool.Alloc.{release_lem}
use ai_pattarai.Fsm.{
  Env, World, Flags, conn, edit, transmit, acked_now, timer, arm_rto, rto_from_now, detach_tls,
  no_session, teardown, teardown_hold,
}

pub record Good (w : World) : Type 0 where
  pub store : Inv.IsValid w.worker.store
  pub unique : Unique w.worker.store
  pub pool : Pools.IsValid w.pool

-- A change of the store that leaves the connections alone.
pub same-Good :
    (w w' : World) → SameConns w.worker.store w'.worker.store → w'.pool ≡ w.pool → Good w → Good w'
same-Good w w' c p g = record {
  store = SameConns-IsValid w.worker.store w'.worker.store c g.store;
  unique = λ i j li lj e.
      g.unique i j (sym (c.in_uses i) ∙ li) (sym (c.in_uses j) ∙ lj)
        (sym (c.tuples i) ∙ e ∙ c.tuples j);
  pool = subst Pools.IsValid (sym p) g.pool;
}

pub put-SameConns :
    (w : Worker) (ci : ℕ) (t : Tcb)
    → t.tuple ≡ (tcb_at w ci).tuple
    → t.in_use ≡ (tcb_at w ci).in_use
    → SameConns w.store (put_tcb w ci t).store
put-SameConns w ci t e u = record {
  rest = refl;
  tcbs_len = length-set w.store.tcbs ci t;
  tuples = λ j. map_at-set (λ (x : Tcb). x.tuple) w.store.tcbs ci t zero_tcb e j;
  in_uses = λ j. map_at-set (λ (x : Tcb). x.in_use) w.store.tcbs ci t zero_tcb u j;
}

-- An update of a TCB that keeps its 4-tuple and flag.
abbrev pub Keeps : (Tcb → Tcb) → Type 0
Keeps f = (t : Tcb) → ((f t).tuple ≡ t.tuple) × ((f t).in_use ≡ t.in_use)

pub put-Good :
    (w : World) (ci : ℕ) (t : Tcb)
    → t.tuple ≡ (conn w ci).tuple
    → t.in_use ≡ (conn w ci).in_use
    → Good w
    → Good (edit w ci (λ u. t))
put-Good w ci t e u g = same-Good w (edit w ci (λ u. t)) (put-SameConns w.worker ci t e u) refl g

pub edit-Good : (w : World) (ci : ℕ) (f : Tcb → Tcb) → Keeps f → Good w → Good (edit w ci f)
edit-Good w ci f k g = let (e, u) = k (conn w ci) in put-Good w ci (f (conn w ci)) e u g

pub sent-Good : (w w' : World) → w'.worker ≡ w.worker → w'.pool ≡ w.pool → Good w → Good w'
sent-Good w w' e p g = record {
  store = subst (λ (x : Worker). Inv.IsValid x.store) (sym e) g.store;
  unique = subst (λ (x : Worker). Unique x.store) (sym e) g.unique;
  pool = subst Pools.IsValid (sym p) g.pool;
}

acked_now-Keeps : (f : Flags) → Keeps (acked_now f)
acked_now-Keeps f t = elim (Bool-cases (f.ack && not f.syn)) [
  | inl on ↦ rw on (refl, refl)
  | inr off ↦ rw off (refl, refl)
]

pub transmit-Good :
    (env : Env) (w : World) (ci : ℕ) (flags : Flags) (payload : List ℕ) (seq ack : ℕ)
    → Good w
    → Good (transmit env w ci flags payload seq ack)
unfolding transmit
transmit-Good env w ci flags payload seq ack g = elim (Bool-cases (env.accepts w.out seq)) [
  | inr refused ↦ rw refused g
  | inl ok ↦ rw ok (
      sent-Good (edit w ci (acked_now flags)) _ refl refl
        (edit-Good w ci (acked_now flags) (acked_now-Keeps flags) g))
]

pub timer-Good : (env : Env) (w : World) (ci : ℕ) → Good w → Good (timer env w ci)
unfolding timer
timer-Good env w ci g = same-Good w _ (resched-SameConns w.worker ci env.now env.now env.hz) refl g

pub arm_rto-Good : (env : Env) (w : World) (ci : ℕ) → Good w → Good (arm_rto env w ci)
unfolding arm_rto
arm_rto-Good env w ci g =
    timer-Good env (edit w ci (rto_from_now env)) ci
      (edit-Good w ci (rto_from_now env) (λ t. (refl, refl)) g)

pub no_session-Keeps : Keeps no_session
no_session-Keeps t = elim (Bool-cases (leb 2 t.app_state)) [
  | inl on ↦ rw on (refl, refl)
  | inr off ↦ rw off (refl, refl)
]

pub detach_tls-Good : (w : World) (ci : ℕ) → Good w → Good (detach_tls w ci)
unfolding detach_tls
detach_tls-Good w ci g = edit-Good w ci no_session no_session-Keeps g

free_immediate-IsValid :
    (wp : WorkerPool) (ip port : ℕ)
    → Pools.IsValid wp
    → Pools.IsValid (PortPool.free_immediate wp ip port)
unfolding PortPool.free_immediate
free_immediate-IsValid wp ip port v = elim (Bool-cases (outside port)) [
  | inl out ↦ rw out v
  | inr inside ↦ rw inside ((release_lem wp ip v port (ground arith) (ground arith)).0)
]

free-IsValid_pool :
    (wp : WorkerPool) (now ip port : ℕ)
    → Pools.IsValid wp
    → Pools.IsValid (PortPool.free wp now ip port)
unfolding PortPool.free
free-IsValid_pool wp now ip port v =
    let next_tail = bit_and (wp.tw_tail + 1) tw_ring_mask in
    elim (Bool-cases (outside port)) [
      | inl out ↦ rw out v
      | inr inside ↦ elim (Bool-cases (next_tail == wp.tw_head)) [
        | inl full ↦ rw (inside, full) ((release_lem wp ip v port (ground arith) (ground arith)).0)
        | inr room ↦
            rw (inside, room)
              (record { table_len = v.table_len; table = v.table; shared_pool = v.shared_pool })
      ]
    ]

free-Good_store :
    (w : Worker) (ci : ℕ)
    → Inv.IsValid w.store
    → Unique w.store
    → Inv.IsValid (TcbStore.free w ci).store × Unique (TcbStore.free w ci).store
free-Good_store w ci v u = elim (Bool-cases (live w.store ci)) [
  | inl l ↦ ((free-IsValid w ci v l).0, (lookup-free w ci v l u).0)
  | inr idle ↦ rw (free_idle w ci idle) (v, u)
]

pub teardown-Good : (w : World) (ci : ℕ) → Good w → Good (teardown w ci)
unfolding teardown
teardown-Good w ci g =
    let g1 = detach_tls-Good w ci g in
    let w1 = detach_tls w ci in
    let (v, u) = free-Good_store w1.worker ci g1.store g1.unique in
    let q = (conn w1 ci).tuple in
    record {
      store = v;
      unique = u;
      pool = free_immediate-IsValid w1.pool q.src_ip q.src_port g1.pool;
    }

pub teardown_hold-Good : (env : Env) (w : World) (ci : ℕ) → Good w → Good (teardown_hold env w ci)
unfolding teardown_hold
teardown_hold-Good env w ci g =
    let g1 = detach_tls-Good w ci g in
    let w1 = detach_tls w ci in
    let (v, u) = free-Good_store w1.worker ci g1.store g1.unique in
    let q = (conn w1 ci).tuple in
    record {
      store = v;
      unique = u;
      pool = free-IsValid_pool w1.pool env.now q.src_ip q.src_port g1.pool;
    }
