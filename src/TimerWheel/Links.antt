-- ===== src/TimerWheel/Links.antt =====
-- Rescheduling a TCB writes links only: every other field of every TCB stays as it is.
use ai_pattarai.Common.{
  ℕ, ◌≡◌, refl, ◌∙◌, Bool, true, false, map_at-set, if◌then◌else◌, ◌==◌, uint64_max,
}
use ai_pattarai.Tcb.{Tcb, zero_tcb}
use ai_pattarai.Worker.{Worker, tcb_at, put_tcb, slot_none, nil}
use ai_pattarai.TimerWheel.{
  wheel_remove, wheel_insert_slot, schedule, resched, earliest_deadline, target_slot, unlink_prev,
  unlink_next, clear_links, link_new, link_old, set_head, head,
}

-- A TCB without its links.
abbrev pub core : Tcb → Tcb
core t = record t { tw_next = 0; tw_prev = 0; tw_slot = 0 }

abbrev pub SameCores : Worker → Worker → Type 0
SameCores w w' = (j : ℕ) → core (tcb_at w' j) ≡ core (tcb_at w j)

put-SameCores :
    (w0 w : Worker) (i : ℕ) (t : Tcb)
    → SameCores w0 w
    → core t ≡ core (tcb_at w i)
    → SameCores w0 (put_tcb w i t)
put-SameCores w0 w i t same e j = map_at-set core w.store.tcbs i t zero_tcb e j ∙ same j

if-SameCores :
    (w0 : Worker) (b : Bool) (w w' : Worker)
    → SameCores w0 w
    → SameCores w0 w'
    → SameCores w0 (if b then w else w')
if-SameCores w0 true w w' c c' = c
if-SameCores w0 false w w' c c' = c'

wheel_remove-SameCores : (w : Worker) (ci : ℕ) → SameCores w (wheel_remove w ci)
unfolding wheel_remove
wheel_remove-SameCores w ci =
    let t = tcb_at w ci in
    let w1 = unlink_prev w t in
    let w2 = unlink_next w1 t in
    let c1 : SameCores w w1 =
      if-SameCores w (t.tw_prev == nil) (record w { wheel = set_head w.wheel t.tw_slot t.tw_next })
        (put_tcb w t.tw_prev (record (tcb_at w t.tw_prev) { tw_next = t.tw_next })) (λ j. refl)
        (put-SameCores w w t.tw_prev _ (λ j. refl) refl) in
    let c2 : SameCores w w2 =
      if-SameCores w (t.tw_next == nil) w1
        (put_tcb w1 t.tw_next (record (tcb_at w1 t.tw_next) { tw_prev = t.tw_prev })) c1
        (put-SameCores w w1 t.tw_next _ c1 refl) in
    if-SameCores w (t.tw_slot == slot_none) w (clear_links w2 ci) (λ j. refl)
      (put-SameCores w w2 ci _ c2 refl)

insert-SameCores :
    (w0 w : Worker) (ci slot : ℕ) → SameCores w0 w → SameCores w0 (wheel_insert_slot w ci slot)
unfolding wheel_insert_slot
insert-SameCores w0 w ci slot same =
    let h = head w.wheel slot in
    let w1 = link_new w ci h in
    let w2 = link_old w1 ci h in
    let c1 : SameCores w0 w1 = put-SameCores w0 w ci _ same refl in
    put-SameCores w0 (record w2 { wheel = set_head w2.wheel slot ci }) ci _
      (if-SameCores w0 (h == nil) w1 (put_tcb w1 h (record (tcb_at w1 h) { tw_prev = ci })) c1
        (put-SameCores w0 w1 h _ c1 refl))
      refl

pub resched-SameCores : (w : Worker) (ci now later hz : ℕ) → SameCores w (resched w ci now later hz)
unfolding resched schedule
resched-SameCores w ci now later hz =
    let dl = earliest_deadline (tcb_at w ci) now hz in
    let idle = if (tcb_at w ci).tw_slot == slot_none then w else wheel_remove w ci in
    let c : SameCores w idle =
      if-SameCores w ((tcb_at w ci).tw_slot == slot_none) w (wheel_remove w ci) (λ j. refl)
        (wheel_remove-SameCores w ci) in
    if-SameCores w (dl == uint64_max) idle (schedule w ci later dl) c
      (insert-SameCores w idle ci (target_slot idle.wheel later dl) c)
