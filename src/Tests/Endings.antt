-- ===== src/Tests/Endings.antt =====
-- One connection, and how it ends.
use ai_pattarai.Common.{ℕ, arith, ◌≡◌, refl, true, false, none, some, ◌++◌, [], ◌∷◌}
use ai_pattarai.Tcb.{Tcb, Tuple, syn_sent, established, fin_wait_2}
use ai_pattarai.TcbStore.{lookup, init, alloc, tuple_hash}
use ai_pattarai.TcbStore.Inv.{live}
use ai_pattarai.Util.{next_pow2_u64}
use ai_pattarai.Options.{no_opts}
use ai_pattarai.Fsm.{World, Flags, conn, edit, flags_ack, flags_fin_ack}
use ai_pattarai.Fsm.Calls.{close}
use ai_pattarai.Fsm.Input.{Rx}
use ai_pattarai.Fsm.Dispatch.{input}
use ai_pattarai.Fsm.Good.{Good, edit-Good}
use ai_pattarai.Fsm.Became.{Over}
use ai_pattarai.Fsm.Shutdown.{orderly_close}
use ai_pattarai.Fsm.ResetAll.{reset_all, rsts, reset_all_lem}
use ai_pattarai.TimerWheel.{target_slot, earliest_deadline}
use ai_pattarai.TimerWheel.Late.{past_deadline_lem}
use ai_pattarai.Fsm.Timer.{timer_fire}
use ai_pattarai.Fsm.Fire.{timer_fire_lem}
use ai_pattarai.Fsm.Expiry.{Held, expiry_lem}
use ai_pattarai.Fsm.Rst.{bare_rst, bare_rst_lem}
use ai_pattarai.Tests.Machine.{env0, http, busy, busy-Good, bare}

abbrev opened : Tcb → Tcb
opened t = record t {
  state = established;
  snd_nxt = 4294967295;
  snd_una = 4294967290;
  rcv_nxt = 7;
  rcv_wnd = 1000;
}

abbrev open_world : World
open_world = edit busy 0 opened

open-Good : Good open_world
open-Good = edit-Good busy 0 opened (λ t. (refl, refl)) busy-Good

open_live : live open_world.worker.store 0 ≡ true
unfolding alloc init tuple_hash next_pow2_u64
open_live = refl

-- A connection that waits for the answer to its SYN, and closes gracefully afterwards.
abbrev asking : Tcb → Tcb
asking t = record t { state = syn_sent; snd_nxt = 1; snd_una = 0; graceful_close = true }

abbrev asking_world : World
asking_world = edit busy 0 asking

abbrev segment_in : Flags → ℕ → ℕ → Rx
segment_in flags seq ack = record {
  to = http;
  too_short = false;
  bad_cksum = false;
  flags = flags;
  seq = seq;
  ack = ack;
  win = 1000;
  opts = no_opts;
  payload = 1 ∷ 2 ∷ [];
}

orderly_close_example :
    (w2 w3 : World) × (input env0 bare (close env0 open_world 0).0 (segment_in flags_ack 7 0)
      ≡ some w2)
    × ((conn w2 0).state ≡ fin_wait_2)
    × (input env0 bare w2 (segment_in flags_fin_ack 9 0) ≡ some w3)
    × Over open_world 0 w3
unfolding alloc init tuple_hash next_pow2_u64
orderly_close_example =
    orderly_close env0 env0 env0 bare open_world 0 (segment_in flags_ack 7 0)
      (segment_in flags_fin_ack 9 0) open-Good open_live refl (refl, refl, refl, refl) refl refl
      refl refl (refl, refl, refl, refl) refl

bare_rst_lem_example :
    (w' : World) × (input env0 bare open_world (bare_rst (conn open_world 0).tuple 1006 0 0 no_opts)
      ≡ some w')
    × Over open_world 0 w'
unfolding alloc init tuple_hash next_pow2_u64
bare_rst_lem_example =
    bare_rst_lem env0 bare open_world 0 1006 0 0 no_opts open-Good open_live refl (omega arith)
      (omega arith) (omega arith)

reset_all_lem_example :
    let w' = reset_all env0 open_world in
    Good w'
    × ((q : Tuple) → lookup w'.worker.store q ≡ none)
    × ((i : ℕ) → live w'.worker.store i ≡ false)
    × (w'.worker.store.free_top ≡ open_world.worker.store.capacity)
    × (w'.out ≡ open_world.out ++ rsts open_world open_world.worker.store.capacity 0)
    × (w'.pool ≡ open_world.pool)
reset_all_lem_example = reset_all_lem env0 open_world open-Good (λ sent at. refl)

-- A connection whose TLS handshake has begun five seconds ago.
abbrev stuck : Tcb → Tcb
stuck t = record t {
  state = established;
  app_state = 1;
  timewait_deadline_tsc = 0;
  rto_deadline_tsc = 0;
}

stuck-Good : Good (edit busy 0 stuck)
stuck-Good = edit-Good busy 0 stuck (λ t. (refl, refl)) busy-Good

timer_fire_lem_example : Over (edit busy 0 stuck) 0 (timer_fire env0 bare (edit busy 0 stuck) 0)
unfolding alloc init tuple_hash next_pow2_u64
timer_fire_lem_example = timer_fire_lem env0 bare (edit busy 0 stuck) 0 stuck-Good refl refl

-- The FIN is acknowledged; the peer has been silent for too long.
abbrev silent : Tcb → Tcb
silent t = record t { state = fin_wait_2; timewait_deadline_tsc = 4000000000 }

silent-Good : Good (edit busy 0 silent)
silent-Good = edit-Good busy 0 silent (λ t. (refl, refl)) busy-Good

silent-live : live (edit busy 0 silent).worker.store 0 ≡ true
unfolding alloc init tuple_hash next_pow2_u64
silent-live = refl

expiry_lem_example : Held env0 (edit busy 0 silent) 0 (timer_fire env0 bare (edit busy 0 silent) 0)
unfolding alloc init tuple_hash next_pow2_u64
expiry_lem_example = expiry_lem env0 bare (edit busy 0 silent) 0 silent-Good silent-live refl

-- A timeout 200 ms ahead, of a connection opened a second ago.
abbrev timed : Tcb
timed = record (conn busy 0) { timewait_deadline_tsc = 4000000000; rto_deadline_tsc = 5200000000 }

past_deadline_lem_example :
    target_slot busy.worker.wheel 5000000000 (earliest_deadline timed 5000000000 1000000000)
    ≡ busy.worker.wheel.current
past_deadline_lem_example =
    past_deadline_lem busy.worker.wheel timed 5000000000 5000000000 1000000000 (omega arith)
      (omega arith) (omega arith)
