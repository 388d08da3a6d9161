-- ===== src/TimerWheel/Frame.antt =====
-- Operations of the timer wheel write the links of TCBs only: of the store, they leave the hash table,
-- the free stack, and each TCB's 4-tuple and `in_use` flag as they are.
use ai_pattarai.Common.{
  ℕ, ◌≡◌, refl, ◌∙◌, ap, Bool, true, false, length, get_or, set, length-set, map_at-set,
  if◌then◌else◌, ◌==◌, uint64_max,
}
use ai_pattarai.Tcb.{Tcb, zero_tcb}
use ai_pattarai.Worker.{Store, Worker, tcb_at, put_tcb, slot_none, nil}
use ai_pattarai.TimerWheel.{
  wheel_remove, wheel_insert_slot, schedule, cancel, resched, earliest_deadline, target_slot,
  unlink_prev, unlink_next, clear_links, link_new, link_old, set_head, head,
}

pub record SameConns (s s' : Store) : Type 0 where
  pub rest : s' ≡ record s { tcbs = s'.tcbs }
  pub tcbs_len : length s'.tcbs ≡ length s.tcbs
  pub tuples : (j : ℕ) → (get_or s'.tcbs j zero_tcb).tuple ≡ (get_or s.tcbs j zero_tcb).tuple
  pub in_uses : (j : ℕ) → (get_or s'.tcbs j zero_tcb).in_use ≡ (get_or s.tcbs j zero_tcb).in_use

pub SameConns-refl : (s : Store) → SameConns s s
SameConns-refl s = record { rest = refl; tcbs_len = refl; tuples = λ j. refl; in_uses = λ j. refl }

-- A write of a TCB that keeps its 4-tuple and flag.
put-SameConns :
    (s : Store) (w : Worker) (i : ℕ) (t : Tcb)
    → SameConns s w.store
    → t.tuple ≡ (tcb_at w i).tuple
    → t.in_use ≡ (tcb_at w i).in_use
    → SameConns s (put_tcb w i t).store
put-SameConns s w i t c e u = record {
  rest = ap (λ (r : Store). record r { tcbs = set w.store.tcbs i t }) c.rest;
  tcbs_len = length-set w.store.tcbs i t ∙ c.tcbs_len;
  tuples = λ j. map_at-set (λ (x : Tcb). x.tuple) w.store.tcbs i t zero_tcb e j ∙ c.tuples j;
  in_uses = λ j. map_at-set (λ (x : Tcb). x.in_use) w.store.tcbs i t zero_tcb u j ∙ c.in_uses j;
}

if-SameConns :
    (s : Store) (b : Bool) (w w' : Worker)
    → SameConns s w.store
    → SameConns s w'.store
    → SameConns s (if b then w else w').store
if-SameConns s true w w' c c' = c
if-SameConns s false w w' c c' = c'

unlink_prev-SameConns : (w : Worker) (t : Tcb) → SameConns w.store (unlink_prev w t).store
unlink_prev-SameConns w t =
    if-SameConns w.store (t.tw_prev == nil)
      (record w { wheel = set_head w.wheel t.tw_slot t.tw_next })
      (put_tcb w t.tw_prev (record (tcb_at w t.tw_prev) { tw_next = t.tw_next }))
      (SameConns-refl w.store)
      (put-SameConns w.store w t.tw_prev _ (SameConns-refl w.store) refl refl)

unlink_next-SameConns :
    (s : Store) (w : Worker) (t : Tcb) → SameConns s w.store → SameConns s (unlink_next w t).store
unlink_next-SameConns s w t same =
    if-SameConns s (t.tw_next == nil) w
      (put_tcb w t.tw_next (record (tcb_at w t.tw_next) { tw_prev = t.tw_prev })) same
      (put-SameConns s w t.tw_next _ same refl refl)

pub wheel_remove-SameConns : (w : Worker) (ci : ℕ) → SameConns w.store (wheel_remove w ci).store
unfolding wheel_remove
wheel_remove-SameConns w ci =
    let t = tcb_at w ci in
    let w2 = unlink_next (unlink_prev w t) t in
    if-SameConns w.store (t.tw_slot == slot_none) w (clear_links w2 ci) (SameConns-refl w.store) (
      put-SameConns w.store w2 ci _
        (unlink_next-SameConns w.store (unlink_prev w t) t (unlink_prev-SameConns w t)) refl refl)

pub cancel-SameConns : (w : Worker) (ci : ℕ) → SameConns w.store (cancel w ci).store
unfolding cancel
cancel-SameConns w ci = wheel_remove-SameConns w ci

pub wheel_insert_slot-SameConns :
    (s : Store) (w : Worker) (ci slot : ℕ)
    → SameConns s w.store
    → SameConns s (wheel_insert_slot w ci slot).store
unfolding wheel_insert_slot
wheel_insert_slot-SameConns s w ci slot same =
    let h = head w.wheel slot in
    let w1 = link_new w ci h in
    let w2 = link_old w1 ci h in
    let first = put-SameConns s w ci _ same refl refl in
    put-SameConns s (record w2 { wheel = set_head w2.wheel slot ci }) ci _
      (if-SameConns s (h == nil) w1 (put_tcb w1 h (record (tcb_at w1 h) { tw_prev = ci })) first
        (put-SameConns s w1 h _ first refl refl))
      refl refl

pub schedule-SameConns :
    (w : Worker) (ci now deadline : ℕ) → SameConns w.store (schedule w ci now deadline).store
unfolding schedule
schedule-SameConns w ci now deadline =
    let w1 = if (tcb_at w ci).tw_slot == slot_none then w else wheel_remove w ci in
    wheel_insert_slot-SameConns w.store w1 ci (target_slot w1.wheel now deadline) (
      if-SameConns w.store ((tcb_at w ci).tw_slot == slot_none) w (wheel_remove w ci)
        (SameConns-refl w.store) (wheel_remove-SameConns w ci))

-- Rescheduling a TCB, whatever its deadlines, leaves every connection and the rest of the store alone.
pub resched-SameConns :
    (w : Worker) (ci now later hz : ℕ) → SameConns w.store (resched w ci now later hz).store
unfolding resched
resched-SameConns w ci now later hz =
    let dl = earliest_deadline (tcb_at w ci) now hz in
    let idle = if (tcb_at w ci).tw_slot == slot_none then w else wheel_remove w ci in
    if-SameConns w.store (dl == uint64_max) idle (schedule w ci later dl)
      (if-SameConns w.store ((tcb_at w ci).tw_slot == slot_none) w (wheel_remove w ci)
        (SameConns-refl w.store) (wheel_remove-SameConns w ci))
      (schedule-SameConns w ci later dl)
