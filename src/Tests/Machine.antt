-- ===== src/Tests/Machine.antt =====
-- A worker with room for one connection.
use ai_pattarai.Common.{
  ◌∷◌, ℕ, ◌-◌, ◌≡◌, ◌≢◌, refl, ap, true, false, none, some, Option, [], arith, get_or-replicate,
}
use ai_pattarai.Tcb.{syn_sent, Tcb, Tuple, zero_tcb}
use ai_pattarai.Worker.{Store, Wheel, nil}
use ai_pattarai.TcbStore.{init, lookup, alloc, tuple_hash}
use ai_pattarai.TcbStore.Inv.{live}
use ai_pattarai.TcbStore.Lookup.{Unique}
use ai_pattarai.TcbStore.Empty.{init-empties}
use ai_pattarai.TcbStore.Refine.{alloc-IsValid, lookup-alloc}
use ai_pattarai.PortPool
use ai_pattarai.PortPool.{WorkerPool, ephem_lo, ip_pool_get, find_pool, bm_find_next, ip_slot, ctz}
use ai_pattarai.PortPool.Pools.{available}
use ai_pattarai.PortPool.Start.{init-IsValid}
use ai_pattarai.Util.{next_pow2_u64}
use ai_pattarai.Options.{no_opts}
use ai_pattarai.Fsm.{edit, Env, World, conn, flags_syn}
use ai_pattarai.Fsm.Timeout.{timeouts, rto_expired_lem, timeouts_give_up}
use ai_pattarai.Fsm.Calls.{rto_expired, source_port, connect, reset}
use ai_pattarai.Fsm.Input.{Rx, Upper}
use ai_pattarai.Fsm.Dispatch.{input}
use ai_pattarai.Fsm.Good.{edit-Good, Good}
use ai_pattarai.Fsm.AppGood.{Lawful}
use ai_pattarai.Fsm.Connect.{Opened, connect-Opened, connect_leaks_port}
use ai_pattarai.Fsm.Reset.{Forgotten, reset-Forgotten}
use ai_pattarai.Fsm.Returns.{Paces, input-Good}

abbrev pub env0 : Env
env0 = record {
  now = 5000000000;
  hz = 1000000000;
  accepts = λ sent at. true;
  malloc = λ n. none;
  secret_0 = 1;
  secret_1 = 2;
  math = record { k_us = λ d. d; target_bytes = λ a b c d e. a; scale_beta = λ n. n };
  listens = none;
  has_session = λ ci. false;
  request = record { hdr = []; keep_alive = false; txn_per_conn = 0; think_time_us = 0 };
}

abbrev still_wheel : Wheel
still_wheel = record {
  slots = [];
  overflow = nil;
  dack_head = nil;
  current = 0;
  tsc_per_slot = 1000000;
  last_tick_tsc = 0;
}

abbrev world_of : Store → World
world_of s = record {
  worker = record { store = s; wheel = still_wheel };
  pool = PortPool.init 1000000000;
  out = [];
  conn_open = 0;
  conn_close = 0;
}

abbrev pub http : Tuple
http = record { src_ip = 0x0a000001; src_port = 10000; dst_ip = 0x0a000002; dst_port = 80 }

-- No connection yet.
abbrev pub idle : World
idle = world_of (init 1)

idle_free : (q : Tuple) → lookup (init 1) q ≡ none
idle_free = (init-empties 1 (omega arith) (omega arith)).1

idle_dead : (i : ℕ) → live (init 1) i ≡ false
unfolding init next_pow2_u64
idle_dead i = ap (λ (t : Tcb). t.in_use) (get_or-replicate 1 i zero_tcb)

idle-Unique : Unique (init 1)
idle-Unique i j l = cc (l, idle_dead i)

idle-Good : Good idle
idle-Good = record {
  store = (init-empties 1 (omega arith) (omega arith)).0;
  unique = idle-Unique;
  pool = init-IsValid 1000000000;
}

idle_room : idle.worker.store.count ≢ idle.worker.store.capacity
unfolding init
idle_room e = omega arith

http_chosen : (source_port idle 0x0a000001 10000).0 ≡ some 10000
http_chosen = refl

connect-Opened_example :
    let r = connect env0 idle 0x0a000001 10000 0x0a000002 80 in
    (ci : ℕ) × (r.1 ≡ some ci) × Opened env0 idle (source_port idle 0x0a000001 10000).1 http ci r.0
connect-Opened_example =
    connect-Opened env0 idle 0x0a000001 10000 0x0a000002 80 10000 idle-Good http_chosen
      (idle_free http) idle_room

abbrev store_of : Option (ℕ × Store) → Store
store_of none = init 1
store_of (some (i, s)) = s

-- The one TCB is in use.
abbrev pub busy : World
busy = world_of (store_of (alloc (init 1) http))

busy_alloc : alloc (init 1) http ≡ some (0, store_of (alloc (init 1) http))
unfolding alloc init tuple_hash next_pow2_u64
busy_alloc = refl

pub busy-Good : Good busy
busy-Good = record {
  store = (alloc-IsValid (init 1) http 0 busy.worker.store idle-Good.store busy_alloc).0;
  unique =
      (lookup-alloc (init 1) http 0 busy.worker.store idle-Good.store busy_alloc idle-Unique
        (idle_free http)).0;
  pool = init-IsValid 1000000000;
}

busy_live : live busy.worker.store 0 ≡ true
unfolding alloc init tuple_hash next_pow2_u64
busy_live = refl

busy_full : busy.worker.store.count ≡ busy.worker.store.capacity
unfolding alloc init tuple_hash next_pow2_u64
busy_full = refl

busy_port :
    PortPool.alloc busy.pool 0x0a000001 ≡ (some 10000, (PortPool.alloc busy.pool 0x0a000001).1)
unfolding PortPool.alloc PortPool.init ip_pool_get find_pool bm_find_next ip_slot ctz
busy_port = refl

connect_leaks_port_example :
    let pool = (PortPool.alloc busy.pool 0x0a000001).1 in
    (connect env0 busy 0x0a000001 0 0x0a000002 80 ≡ (record busy { pool = pool }, none))
    × (available busy.pool 0x0a000001 (10000 - ephem_lo) ≡ 1)
    × (available pool 0x0a000001 (10000 - ephem_lo) ≡ 0)
connect_leaks_port_example =
    connect_leaks_port env0 busy 0x0a000001 0x0a000002 80 10000
      (PortPool.alloc busy.pool 0x0a000001).1 busy-Good busy_full busy_port

reset-Forgotten_example : Forgotten env0 busy 0 (reset env0 busy 0)
reset-Forgotten_example = reset-Forgotten env0 busy 0 busy-Good busy_live

-- Nothing above the state machine.
abbrev pub bare : Upper
bare = record {
  srv_on_established = λ w ci. w;
  srv_on_data = λ w ci bytes. w;
  srv_stream_pump = λ w ci. w;
  tls_start = λ w ci. w;
  tls_data = λ w ci bytes. (w, false);
  encrypt = λ ci bytes. bytes;
}

pub bare-Lawful : Lawful bare
bare-Lawful = record {
  established = λ w ci g. g;
  data_in = λ w ci bytes g. g;
  pump = λ w ci g. g;
  tls_start = λ w ci g. g;
  tls_data = λ w ci bytes g. g;
}

-- A SYN for nobody.
abbrev syn_in : Rx
syn_in = record {
  to = http;
  too_short = false;
  bad_cksum = false;
  flags = flags_syn;
  seq = 4294967295;
  ack = 0;
  win = 1000;
  opts = no_opts;
  payload = [];
}

nobody-Paces : (ci : ℕ) → lookup idle.worker.store syn_in.to ≡ some ci → Paces (conn idle ci)
nobody-Paces ci e = cc (e, idle_free http)

input-Good_example : (w' : World) × (input env0 bare idle syn_in ≡ some w') × Good w'
input-Good_example = input-Good env0 bare bare-Lawful idle syn_in idle-Good nobody-Paces

-- An open that two timeouts have passed already.
abbrev weary : World
weary = edit busy 0 (λ t. record t { state = syn_sent; retransmit_count = 2; rto_us = 50000000 })

weary-Good : Good weary
weary-Good =
    edit-Good busy 0 (λ t. record t { state = syn_sent; retransmit_count = 2; rto_us = 50000000 })
      (λ t. (refl, refl)) busy-Good

weary_live : live weary.worker.store 0 ≡ true
unfolding alloc init tuple_hash next_pow2_u64
weary_live = refl

rto_expired_lem_example :
    let t' = conn (rto_expired env0 weary 0) 0 in
    (t'.in_use ≡ true) × (t'.state ≡ syn_sent) × (t'.retransmit_count ≡ 3) × (t'.rto_us ≡ 60000000)
unfolding alloc init tuple_hash next_pow2_u64
rto_expired_lem_example = rto_expired_lem env0 weary 0 weary-Good weary_live

timeouts_give_up_example : live (timeouts (env0 ∷ env0 ∷ []) weary 0).worker.store 0 ≡ false
unfolding alloc init tuple_hash next_pow2_u64
timeouts_give_up_example =
    timeouts_give_up (env0 ∷ env0 ∷ []) weary 0 weary-Good weary_live refl (omega arith)
