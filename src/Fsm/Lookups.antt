-- ===== src/Fsm/Lookups.antt =====
-- Which connection a 4-tuple finds: calls that leave the connections alone change no lookup, and
-- tearing one down takes exactly that one away.
use ai_pattarai.Common.{
  ℕ, ◌≡◌, refl, sym, ap, ◌∙◌, true, if◌then◌else◌, Option, none, Option-cases, inl, inr,
}
use ai_pattarai.Tcb.{Tuple, zero_tcb, same_tuple}
use ai_pattarai.Worker.{Store}
use ai_pattarai.TimerWheel.Frame.{SameConns}
use ai_pattarai.TcbStore.{lookup}
use ai_pattarai.TcbStore.Inv
use ai_pattarai.TcbStore.Inv.{live, tuple_of}
use ai_pattarai.TcbStore.Lookup.{Unique, lookup_lem, lookup_at}
use ai_pattarai.TcbStore.Free.{SameConns-IsValid, free-IsValid, lookup-free}
use ai_pattarai.PortPool
use ai_pattarai.PortPool.{free_immediate}
use ai_pattarai.Fsm.{Env, World, conn, detach_tls, no_session, teardown, teardown_hold}
use ai_pattarai.Fsm.Good.{Good, put-SameConns, detach_tls-Good, no_session-Keeps}

pub same-lookup :
    (s s' : Store)
    → Inv.IsValid s
    → Unique s
    → SameConns s s'
    → (q : Tuple) → lookup s' q ≡ lookup s q
same-lookup s s' v u c q =
    let v' = SameConns-IsValid s s' c v in
    let u' : Unique s' = λ i j li lj e.
      u i j (sym (c.in_uses i) ∙ li) (sym (c.in_uses j) ∙ lj) (sym (c.tuples i) ∙ e ∙ c.tuples j) in
    elim (Option-cases (lookup s q)) [
      | inl absent ↦
          (lookup_lem s' q v').1.1 (λ j lj tj.
            (lookup_lem s q v).1.0 absent j (sym (c.in_uses j) ∙ lj) (sym (c.tuples j) ∙ tj))
          ∙ sym absent
      | inr (j, found) ↦
          let (lj, tj) = (lookup_lem s q v).0 j found in
          lookup_at s' q j v' u' (c.in_uses j ∙ lj) (c.tuples j ∙ tj) ∙ sym found
    ]

module _ (w : World) (ci : ℕ) (g : Good w) (l : live w.worker.store ci ≡ true) where
  abbrev w1 : World
  w1 = detach_tls w ci

  detached : SameConns w.worker.store w1.worker.store
  unfolding detach_tls
  detached =
      let (e, u) = no_session-Keeps (conn w ci) in
      put-SameConns w.worker ci (no_session (conn w ci)) e u

  g1 : Good w1
  g1 = detach_tls-Good w ci g

  l1 : live w1.worker.store ci ≡ true
  l1 = detached.in_uses ci ∙ l

  -- After a teardown the 4-tuple of the TCB finds nothing, and every other what it found before.
  pub lookup-teardown :
      (q : Tuple)
      → lookup (teardown w ci).worker.store q
        ≡ (if same_tuple (tuple_of w.worker.store ci) q then none else lookup w.worker.store q)
  unfolding teardown
  lookup-teardown q =
      (lookup-free w1.worker ci g1.store l1 g1.unique).1 q
      ∙ ap (λ t. if same_tuple t q then none else lookup w1.worker.store q) (detached.tuples ci)
      ∙ ap (λ (o : Option ℕ). if same_tuple (tuple_of w.worker.store ci) q then none else o)
          (same-lookup w.worker.store w1.worker.store g.store g.unique detached q)

  -- The TCB itself is zeroed.
  pub conn-teardown : conn (teardown w ci) ci ≡ zero_tcb
  unfolding teardown
  conn-teardown = (free-IsValid w1.worker ci g1.store l1).2

  -- Its port goes back to the pool.
  pub pool-teardown :
      (teardown w ci).pool
      ≡ free_immediate w.pool (conn w ci).tuple.src_ip (conn w ci).tuple.src_port
  unfolding teardown detach_tls
  pool-teardown = ap (λ (t : Tuple). free_immediate w.pool t.src_ip t.src_port) (detached.tuples ci)

  -- A teardown that holds the port back differs in the pool alone.
  pub pool-teardown_hold :
      (env : Env)
      → (teardown_hold env w ci).pool
        ≡ PortPool.free w.pool env.now (conn w ci).tuple.src_ip (conn w ci).tuple.src_port
  unfolding teardown_hold detach_tls
  pool-teardown_hold env =
      ap (λ (t : Tuple). PortPool.free w.pool env.now t.src_ip t.src_port) (detached.tuples ci)

pub worker-teardown_hold :
    (env : Env) (w : World) (ci : ℕ) → (teardown_hold env w ci).worker ≡ (teardown w ci).worker
unfolding teardown teardown_hold
worker-teardown_hold env w ci = refl
