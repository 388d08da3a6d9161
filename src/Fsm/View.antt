-- ===== src/Fsm/View.antt =====
-- What sending a segment and arming a timer leave alone: every connection and the pool, and of each
-- TCB all but its links, its pending acknowledgement and its timeout.
use ai_pattarai.Common.{
  ℕ, ◌<◌, ◌≡◌, refl, ap, ◌∙◌, Bool, true, false, ◌&&◌, not, if◌then◌else◌, List, Bool-cases, inl,
  inr, length, get_or-set_self, map_at-set,
}
use ai_pattarai.Tcb.{Tcb, zero_tcb}
use ai_pattarai.Worker.{Store}
use ai_pattarai.TimerWheel.Frame.{SameConns, SameConns-refl, resched-SameConns}
use ai_pattarai.TimerWheel.Links.{resched-SameCores}
use ai_pattarai.Fsm.{
  Env, World, Flags, conn, edit, transmit, acked_now, timer, arm_rto, rto_from_now,
}
use ai_pattarai.Fsm.Good.{put-SameConns}

abbrev pub view : Tcb → Tcb
view t = record t {
  tw_next = 0;
  tw_prev = 0;
  tw_slot = 0;
  pending_ack = false;
  rto_deadline_tsc = 0;
}

pub record Quiet (w w' : World) : Type 0 where
  pub conns : SameConns w.worker.store w'.worker.store
  pub views : (j : ℕ) → view (conn w' j) ≡ view (conn w j)
  pub pool : w'.pool ≡ w.pool

pub SameConns-trans : {a b c : Store} → SameConns a b → SameConns b c → SameConns a c
SameConns-trans {a} {b} {c} x y = record {
  rest = y.rest ∙ ap (λ (s : Store). record s { tcbs = c.tcbs }) x.rest;
  tcbs_len = y.tcbs_len ∙ x.tcbs_len;
  tuples = λ j. y.tuples j ∙ x.tuples j;
  in_uses = λ j. y.in_uses j ∙ x.in_uses j;
}

pub Quiet-refl : (w : World) → Quiet w w
Quiet-refl w = record { conns = SameConns-refl w.worker.store; views = λ j. refl; pool = refl }

pub Quiet-trans : {a b c : World} → Quiet a b → Quiet b c → Quiet a c
Quiet-trans x y = record {
  conns = SameConns-trans x.conns y.conns;
  views = λ j. y.views j ∙ x.views j;
  pool = y.pool ∙ x.pool;
}

pub if-Quiet :
    (w0 : World) (b : Bool) (w w' : World)
    → Quiet w0 w
    → Quiet w0 w'
    → Quiet w0 (if b then w else w')
if-Quiet w0 true w w' q q' = q
if-Quiet w0 false w w' q q' = q'

-- An update that the view does not show.
edit-Quiet :
    (w : World) (ci : ℕ) (f : Tcb → Tcb)
    → view (f (conn w ci)) ≡ view (conn w ci)
    → Quiet w (edit w ci f)
edit-Quiet w ci f e = record {
  conns =
      put-SameConns w.worker ci (f (conn w ci)) (ap (λ (t : Tcb). t.tuple) e)
        (ap (λ (t : Tcb). t.in_use) e);
  views = λ j. map_at-set view w.worker.store.tcbs ci (f (conn w ci)) zero_tcb e j;
  pool = refl;
}

acked_now-view : (f : Flags) (t : Tcb) → view (acked_now f t) ≡ view t
acked_now-view f t = elim (Bool-cases (f.ack && not f.syn)) [
  | inl on ↦ rw on refl
  | inr off ↦ rw off refl
]

pub transmit-Quiet :
    (env : Env) (w : World) (ci : ℕ) (flags : Flags) (payload : List ℕ) (seq ack : ℕ)
    → Quiet w (transmit env w ci flags payload seq ack)
unfolding transmit
transmit-Quiet env w ci flags payload seq ack =
    let q = edit-Quiet w ci (acked_now flags) (acked_now-view flags (conn w ci)) in
    if-Quiet w (env.accepts w.out seq) _ w
      (record { conns = q.conns; views = q.views; pool = q.pool }) (Quiet-refl w)

pub timer-Quiet : (env : Env) (w : World) (ci : ℕ) → Quiet w (timer env w ci)
unfolding timer
timer-Quiet env w ci = record {
  conns = resched-SameConns w.worker ci env.now env.now env.hz;
  views = λ j. ap view (resched-SameCores w.worker ci env.now env.now env.hz j);
  pool = refl;
}

pub arm_rto-Quiet : (env : Env) (w : World) (ci : ℕ) → Quiet w (arm_rto env w ci)
unfolding arm_rto
arm_rto-Quiet env w ci =
    Quiet-trans (edit-Quiet w ci (rto_from_now env) refl)
      (timer-Quiet env (edit w ci (rto_from_now env)) ci)

-- A TCB of the store after an update.
pub conn-edit :
    (w : World) (ci : ℕ) (f : Tcb → Tcb)
    → ci < length w.worker.store.tcbs
    → conn (edit w ci f) ci ≡ f (conn w ci)
conn-edit w ci f h = get_or-set_self w.worker.store.tcbs ci (f (conn w ci)) zero_tcb h
