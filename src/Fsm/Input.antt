-- ===== src/Fsm/Input.antt =====
-- `tcp_fsm_input` of vaigAI/src/net/tcp_fsm.c for IPv4: what a segment does to its connection, state
-- by state. The server and the TLS layer above are an interface, `Upper`. A handler says whether the
-- C code leaves by `goto done`, before it looks at the RST flag.
use ai_pattarai.Common.{
  ℕ, ◌+◌, ◌*◌, ◌/◌, ◌^◌, Bool, true, false, ◌&&◌, not, ltb, leb, ◌==◌, if◌then◌else◌, Option, none,
  some, List, [], u32, sub32, uint32_max,
}
use ai_pattarai.Tcb.{Tcb, Tuple, syn_received, established, is_null, is_throughput}
use ai_pattarai.Worker.{Store}
use ai_pattarai.TcbStore
use ai_pattarai.Options.{ParsedOpts}
use ai_pattarai.Transmit.{update_rtt}
use ai_pattarai.Fsm.{
  Env, World, Flags, conn, edit, transmit, timer, arm_rto, count_open, flags_syn_ack, flags_ack,
  initial_rto_us,
}
use ai_pattarai.Fsm.Calls.{reset, close, send, isn_generate, next_seq}
use ai_pattarai.Fsm.Http.{request_bytes, is_nil, awaiting}

-- A segment received: its 4-tuple with the own side first, and the bytes behind the header that its
-- data offset gives.
pub record Rx : Type 0 where
  pub to : Tuple
  pub too_short : Bool
  pub bad_cksum : Bool
  pub flags : Flags
  pub seq : ℕ
  pub ack : ℕ
  pub win : ℕ
  pub opts : ParsedOpts
  pub payload : List ℕ

-- What the state machine calls above itself: the server's handlers, and the TLS layer, at the start
-- of a handshake and for a payload; the payload handler may end the call.
pub record Upper : Type 0 where
  pub srv_on_established : World → ℕ → World
  pub srv_on_data : World → ℕ → List ℕ → World
  pub srv_stream_pump : World → ℕ → World
  pub tls_start : World → ℕ → World
  pub tls_data : World → ℕ → List ℕ → World × Bool
  pub encrypt : ℕ → List ℕ → List ℕ

-- SEQ_GT, SEQ_GE and SEQ_LT: the sign of the difference as an int32_t.
abbrev pub seq_gt : ℕ → ℕ → Bool
seq_gt a b = ltb 0 (sub32 a b) && ltb (sub32 a b) (2 ^ 31)

abbrev pub seq_ge : ℕ → ℕ → Bool
seq_ge a b = ltb (sub32 a b) (2 ^ 31)

abbrev pub seq_lt : ℕ → ℕ → Bool
seq_lt a b = leb (2 ^ 31) (sub32 a b)

abbrev pub ack_of : Env → World → ℕ → World
ack_of env w ci = transmit env w ci flags_ack [] (conn w ci).snd_nxt (conn w ci).rcv_nxt

abbrev pub peer_mss : ParsedOpts → ℕ
peer_mss o = if o.has_mss then o.mss else 536

abbrev pub peer_wscale : ParsedOpts → ℕ
peer_wscale o = if o.has_wscale then o.wscale else 0

-- The TCB of a passive open, from `tcb_alloc`.
abbrev pub accepted : ℕ → Rx → Tcb → Tcb
accepted isn rx t = record t {
  state = syn_received;
  rcv_nxt = u32 (rx.seq + 1);
  snd_nxt = isn;
  snd_una = isn;
  mss_remote = peer_mss rx.opts;
  mss_local = 1460;
  wscale_remote = peer_wscale rx.opts;
  wscale_local = 7;
  rcv_wnd = 65535 * 2 ^ 7;
  snd_wnd = 65535;
  cwnd = 65535;
  ssthresh = uint32_max;
  sack_enabled = rx.opts.has_sack_perm;
  ts_enabled = rx.opts.has_timestamps;
  ts_ecr = rx.opts.ts_val;
  nagle_enabled = true;
  rto_us = initial_rto_us;
  ip_version = 4;
}

abbrev pub accept_with : Env → World → Rx → Option (ℕ × Store) → World
accept_with env w rx none = w
accept_with env w rx (some (ci, s)) =
    let w1 = record w { worker = record (w.worker) { store = s } } in
    let w2 = edit w1 ci (accepted (isn_generate env rx.to) rx) in
    let w3 = transmit env w2 ci flags_syn_ack [] (conn w2 ci).snd_nxt (conn w2 ci).rcv_nxt in
    count_open (arm_rto env (edit w3 ci next_seq) ci)

-- Whether a SYN to the port is answered: a worker that serves has to listen on it.
abbrev pub answers : Option (ℕ → Bool) → ℕ → Bool
answers none port = true
answers (some listens) port = listens port

-- A segment for no connection.
unfoldable pub passive_open : Env → World → Rx → World
passive_open env w rx =
    if rx.flags.syn && not rx.flags.ack
    then (if answers env.listens rx.to.src_port
        then accept_with env w rx (TcbStore.alloc w.worker.store rx.to)
        else w)
    else w

-- The handshake's last step on the active side.
abbrev pub handshaken : Rx → Tcb → Tcb
handshaken rx t = record t {
  rcv_nxt = u32 (rx.seq + 1);
  snd_una = rx.ack;
  mss_remote = peer_mss rx.opts;
  wscale_remote = peer_wscale rx.opts;
  sack_enabled = rx.opts.has_sack_perm;
  ts_enabled = rx.opts.has_timestamps;
  ts_ecr = rx.opts.ts_val;
  snd_wnd = rx.win;
  cwnd = rx.win;
  state = established;
  retransmit_count = 0;
  rto_deadline_tsc = 0;
}

-- The time since the echoed timestamp, in microseconds, for a clock of 1 MHz at least: below that the
-- division by zero traps in C.
abbrev pub echo_us : Env → Rx → ℕ
echo_us env rx = sub32 (u32 (env.now / (env.hz / 1000000))) rx.opts.ts_ecr

abbrev pub first_rtt : Env → Rx → Tcb → Tcb
first_rtt env rx t =
    if rx.opts.has_timestamps && ltb 0 (echo_us env rx) && ltb (echo_us env rx) 60000000
    then update_rtt t (echo_us env rx)
    else record t { rto_us = initial_rto_us }

abbrev pub opened_wide : Tcb → Tcb
opened_wide t = if is_throughput t.app_ctx then record t { cwnd = uint32_max } else t

-- "HTTP request initiation (plain HTTP only)"
abbrev pub first_request : Env → World → ℕ → World
first_request env w ci =
    let bytes = request_bytes env (conn w ci).app_ctx in
    if (conn w ci).app_state == 4 && not (is_nil bytes)
    then edit (send env w ci bytes).0 ci (awaiting env)
    else w

-- After the ACK of the handshake: a connection with nothing to do is closed at once.
abbrev pub start_app : Env → Upper → World → ℕ → World × Bool
start_app env up w ci =
    let t = conn w ci in
    let w1 = edit w ci opened_wide in
    let w2 = if (conn w1 ci).app_state == 1 then up.tls_start w1 ci else w1 in
    if t.app_state == 0 && is_null t.app_ctx
    then ((if t.graceful_close then (close env w ci).0 else reset env w ci), true)
    else (first_request env w2 ci, false)

unfoldable pub on_syn_sent : Env → Upper → World → ℕ → Rx → World × Bool
on_syn_sent env up w ci rx =
    let w1 = timer env (edit w ci (handshaken rx)) ci in
    let w2 = count_open (edit w1 ci (first_rtt env rx)) in
    if rx.flags.syn && rx.flags.ack
    then (if rx.ack == (conn w ci).snd_nxt
        then start_app env up (ack_of env w2 ci) ci
        else (reset env w ci, true))
    else if rx.flags.ack && not rx.flags.rst && rx.ack == (conn w ci).snd_nxt
    then (reset env w ci, true)
    else (w, false)

abbrev pub scaled_win : Rx → Tcb → ℕ
scaled_win rx t = u32 (rx.win * 2 ^ t.wscale_remote)

abbrev pub acknowledged : Rx → Tcb → Tcb
acknowledged rx t = record t { snd_una = rx.ack; state = established; snd_wnd = scaled_win rx t }

-- A worker that serves tells the handler.
abbrev pub told_from : Upper → World → ℕ → Option (ℕ → Bool) → World
told_from up w ci none = w
told_from up w ci (some listens) = up.srv_on_established w ci

unfoldable pub on_syn_received : Env → Upper → World → ℕ → Rx → World × Bool
on_syn_received env up w ci rx =
    if rx.flags.ack && rx.seq == (conn w ci).rcv_nxt
    then (told_from up (count_open (edit w ci (acknowledged rx))) ci env.listens, false)
    else (w, false)
