-- ===== src/Fsm/Became.antt =====
-- A connection followed through a call: what its TCB has become, while the store's connections and
-- the pool stay as they were.
use ai_pattarai.Common.{
  ℕ, ◌-◌, ◌≡◌, refl, sym, ap, ◌∙◌, subst, true, Bool-cases, inl, inr, if◌then◌else◌, not, ◌&&◌,
  ◌==◌, none, Option, arith,
}
use ai_pattarai.PortPool.{WorkerPool, free_immediate, outside, ephem_lo}
use ai_pattarai.PortPool.Pools
use ai_pattarai.PortPool.Pools.{available}
use ai_pattarai.PortPool.Alloc.{release_lem}
use ai_pattarai.Tcb.{Tcb, Tuple, zero_tcb, same_tuple}
use ai_pattarai.TcbStore.{lookup}
use ai_pattarai.TcbStore.Inv.{live, live_in}
use ai_pattarai.TimerWheel.Frame.{SameConns, SameConns-refl}
use ai_pattarai.Fsm.{World, conn, edit, teardown}
use ai_pattarai.Fsm.Good.{Good, Keeps, edit-Good, teardown-Good, put-SameConns}
use ai_pattarai.Fsm.View.{view, Quiet, SameConns-trans, conn-edit}
use ai_pattarai.Fsm.Lookups.{same-lookup, lookup-teardown, conn-teardown, pool-teardown}

-- `w'` has the connections and the pool of `w`, both valid, and the TCB `ci` is now `t`, but for what
-- `view` hides: links, the timeout, and whether an acknowledgement is pending.
pub record Became (w w' : World) (ci : ℕ) (t : Tcb) : Type 0 where
  pub good : Good w'
  pub conns : SameConns w.worker.store w'.worker.store
  pub pool : w'.pool ≡ w.pool
  pub tcb : view (conn w' ci) ≡ view t

-- An update that does not depend on what the view hides.
abbrev pub Clear : (Tcb → Tcb) → Type 0
Clear f = (t : Tcb) → view (f (view t)) ≡ view (f t)

pub Became-refl : (w : World) (ci : ℕ) → Good w → Became w w ci (conn w ci)
Became-refl w ci g = record {
  good = g;
  conns = SameConns-refl w.worker.store;
  pool = refl;
  tcb = refl;
}

pub Became-live :
    {w w' : World} {ci : ℕ} {t : Tcb}
    → Became w w' ci t
    → live w.worker.store ci ≡ true
    → live w'.worker.store ci ≡ true
Became-live {ci = ci} b l = b.conns.in_uses ci ∙ l

pub edit-Became :
    {w w' : World} {ci : ℕ} {t : Tcb} (f : Tcb → Tcb)
    → Keeps f
    → Clear f
    → live w.worker.store ci ≡ true
    → Became w w' ci t
    → Became w (edit w' ci f) ci (f t)
edit-Became {w} {w'} {ci} {t} f keeps clear l b =
    let (e, u) = keeps (conn w' ci) in
    record {
      good = edit-Good w' ci f keeps b.good;
      conns = SameConns-trans b.conns (put-SameConns w'.worker ci (f (conn w' ci)) e u);
      pool = b.pool;
      tcb =
          ap view (conn-edit w' ci f (live_in w'.worker.store ci (Became-live b l)))
          ∙ sym (clear (conn w' ci))
          ∙ ap (λ (x : Tcb). view (f x)) b.tcb
          ∙ clear t;
    }

pub Became-Quiet :
    {w w' w'' : World} {ci : ℕ} {t : Tcb}
    → Good w''
    → Quiet w' w''
    → Became w w' ci t
    → Became w w'' ci t
Became-Quiet {ci = ci} g q b = record {
  good = g;
  conns = SameConns-trans b.conns q.conns;
  pool = q.pool ∙ b.pool;
  tcb = q.views ci ∙ b.tcb;
}

pub shown-Became :
    {w w' : World} {ci : ℕ} {t u : Tcb} → view t ≡ view u → Became w w' ci t → Became w w' ci u
shown-Became e b = record { good = b.good; conns = b.conns; pool = b.pool; tcb = b.tcb ∙ e }

pub Became-trans :
    {w w' w'' : World} {ci : ℕ} {t u : Tcb}
    → Became w w' ci t
    → Became w' w'' ci u
    → Became w w'' ci u
Became-trans b b' = record {
  good = b'.good;
  conns = SameConns-trans b.conns b'.conns;
  pool = b'.pool ∙ b.pool;
  tcb = b'.tcb;
}

Became-lookup :
    {w w' : World} {ci : ℕ} {t : Tcb}
    → Good w
    → Became w w' ci t
    → (q : Tuple) → lookup w'.worker.store q ≡ lookup w.worker.store q
Became-lookup {w} {w'} g b q = same-lookup w.worker.store w'.worker.store g.store g.unique b.conns q

available-free_immediate :
    (wp : WorkerPool) (ip port k : ℕ)
    → Pools.IsValid wp
    → available (free_immediate wp ip port) ip k
      ≡ (if not (outside port) && port - ephem_lo == k then 1 else available wp ip k)
unfolding free_immediate
available-free_immediate wp ip port k v = elim (Bool-cases (outside port)) [
  | inl out ↦ rw out refl
  | inr inside ↦ rw inside ((release_lem wp ip v port (ground arith) (ground arith)).1 k)
]

-- The end of the connection `ci` of `w`, whatever was sent before.
abbrev pub Over : World → ℕ → World → Type 0
Over w ci w' =
    let q0 = (conn w ci).tuple in
    Good w'
    × (conn w' ci ≡ zero_tcb)
    × ((q : Tuple)
        → lookup w'.worker.store q ≡ (if same_tuple q0 q then none else lookup w.worker.store q))
    × ((k : ℕ)
        → available w'.pool q0.src_ip k ≡ (
            if not (outside q0.src_port) && q0.src_port - ephem_lo == k
            then 1
            else available w.pool q0.src_ip k))

-- An end after other steps is an end from before them.
pub Over-after :
    {w w' w'' : World} {ci : ℕ} {t : Tcb}
    → Good w
    → Became w w' ci t
    → Over w' ci w''
    → Over w ci w''
Over-after {w} {w'} {w''} {ci} g b (good, zeroed, lookups, ports) =
    let q0 = (conn w ci).tuple in
    (
      good,
      zeroed,
      λ q.
          lookups q
          ∙ ap (λ t. if same_tuple t q then none else lookup w'.worker.store q) (b.conns.tuples ci)
          ∙ ap (λ (o : Option ℕ). if same_tuple q0 q then none else o) (Became-lookup g b q),
      λ k.
          subst
            (λ (p : WorkerPool). available w''.pool q0.src_ip k ≡ (
              if not (outside q0.src_port) && q0.src_port - ephem_lo == k
              then 1
              else available p q0.src_ip k))
            b.pool
            (subst
              (λ (t : Tuple). available w''.pool t.src_ip k ≡ (
                if not (outside t.src_port) && t.src_port - ephem_lo == k
                then 1
                else available w'.pool t.src_ip k))
              (b.conns.tuples ci) (ports k)),
    )

pub teardown-Over :
    {w w' : World} {ci : ℕ} {t : Tcb}
    → Good w
    → live w.worker.store ci ≡ true
    → Became w w' ci t
    → Over w ci (teardown w' ci)
teardown-Over {w} {w'} {ci} g l b =
    let q = (conn w' ci).tuple in
    let l' = Became-live b l in
    Over-after {w'' = teardown w' ci} g b (
      teardown-Good w' ci b.good,
      conn-teardown w' ci b.good l',
      lookup-teardown w' ci b.good l',
      λ k.
          ap (λ (p : WorkerPool). available p q.src_ip k) (pool-teardown w' ci b.good l')
          ∙ available-free_immediate w'.pool q.src_ip q.src_port k b.good.pool,
    )
