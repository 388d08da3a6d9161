-- ===== src/Fsm/Calls.antt =====
-- The calls of vaigAI/src/net/tcp_fsm.c: reset, close, send, connect and the retransmission timeout.
use ai_pattarai.Common.{
  ℕ, ◌+◌, ◌*◌, ◌/◌, ◌^◌, Bool, true, false, ◌&&◌, ◌||◌, not, ltb, leb, ◌==◌, if◌then◌else◌, Option,
  none, some, List, [], ◌∷◌, ◌++◌, length, u8, u32, u64, uint32_max, bit_xor,
}
use ai_pattarai.SendBuffer
use ai_pattarai.SendBuffer.{SndBuf}
use ai_pattarai.Tcb.{
  Tcb, Tuple, TcpState, is_state, state_rank, syn_sent, syn_received, established, fin_wait_1,
  close_wait, last_ack, is_throughput,
}
use ai_pattarai.Worker.{Store}
use ai_pattarai.TcbStore
use ai_pattarai.PortPool
use ai_pattarai.PortPool.{WorkerPool}
use ai_pattarai.Congestion.{congestion_on_rto}
use ai_pattarai.Transmit.{Segment, tgen_min, tgen_max, max_rto_us, drain_loop, snd_buf_drain}
use ai_pattarai.Fsm.{
  Env, World, Packet, conn, edit, transmit, arm_rto, teardown, count_close, flags_syn,
  flags_syn_ack, flags_ack, flags_fin_ack, flags_rst_ack, initial_rto_us, max_retransmits,
}

-- `tcp_fsm_reset`
unfoldable pub reset : Env → World → ℕ → World
reset env w ci =
    let w1 =
      if leb (state_rank established) (state_rank (conn w ci).state) then count_close w else w in
    teardown (transmit env w1 ci flags_rst_ack [] (conn w1 ci).snd_nxt (conn w1 ci).rcv_nxt) ci

abbrev pub can_send : Tcb → Bool
can_send t = is_state t.state established || is_state t.state close_wait

-- The FIN takes a sequence number.
abbrev pub closing_tcb : Tcb → Tcb
closing_tcb t = record t {
  snd_nxt = u32 (t.snd_nxt + 1);
  state = (if is_state t.state established then fin_wait_1 else last_ack);
}

-- `tcp_fsm_close`, and whether it returns 0.
unfoldable pub close : Env → World → ℕ → World × Bool
close env w ci =
    let w1 = transmit env w ci flags_fin_ack [] (conn w ci).snd_nxt (conn w ci).rcv_nxt in
    if can_send (conn w ci) then (arm_rto env (edit w1 ci closing_tcb) ci, true) else (w, false)

-- Segments of a loop go out with ACK and PSH.
abbrev pub packets : Tuple → List Segment → List Packet
packets q [] = []
packets q (s ∷ ss) = (record { conn = q; flags = flags_ack; segment = s }) ∷ packets q ss

abbrev pub sent_all : World → ℕ → List Segment × Tcb → World
sent_all w ci (segs, t) = record (edit w ci (λ u. t)) {
  out = w.out ++ packets (conn w ci).tuple segs;
}

unfoldable pub drain : Env → World → ℕ → World
drain env w ci = sent_all w ci (snd_buf_drain (env.accepts w.out) (conn w ci))

abbrev pub total_len : List Segment → ℕ
total_len [] = 0
total_len (s ∷ ss) = length s.payload + total_len ss

-- The buffer's first bytes are the unsent data.
abbrev pub as_buf : List ℕ → SndBuf
as_buf bytes = record { bytes = bytes; cap = length bytes; len = length bytes; base_seq = 0 }

-- Throughput mode: the loop is that of `snd_buf_drain`, with `total_sent` for `offset` and the
-- caller's data for the buffer.
unfoldable pub send_direct : Env → World → ℕ → List ℕ → World × ℕ
send_direct env w ci bytes =
    let r = drain_loop (env.accepts w.out) (length bytes) (conn w ci) (as_buf bytes) 0 in
    let w1 = sent_all w ci r in
    let total = total_len r.0 in
    if ltb 0 total && (conn w1 ci).rto_deadline_tsc == 0
    then (arm_rto env w1 ci, total)
    else (w1, total)

-- The buffer of the connection, or a new one.
abbrev pub buffer_for : Env → Tcb → ℕ → Option SndBuf → Option SndBuf
buffer_for env t len (some sb) = some sb
buffer_for env t len none =
    let cap = if ltb SendBuffer.default_cap len then u32 (len + 4096) else SendBuffer.default_cap in
    elim (SendBuffer.alloc env.malloc cap) [
      | none ↦ none
      | some sb ↦ some (record sb { base_seq = t.snd_una })
    ]

abbrev pub send_queued : Env → World → ℕ → List ℕ → Option SndBuf → World × Option ℕ
send_queued env w ci bytes none = (w, none)
send_queued env w ci bytes (some sb) =
    let (queued, sb1) = SendBuffer.append sb bytes (length bytes) in
    let w1 = drain env (edit w ci (λ t. record t { snd_buf = some sb1 })) ci in
    let t1 = conn w1 ci in
    if not (t1.snd_nxt == t1.snd_una) && t1.rto_deadline_tsc == 0
    then (arm_rto env w1 ci, some queued)
    else (w1, some queued)

-- `tcp_fsm_send`: the number of bytes taken, or nothing for -1.
unfoldable pub send : Env → World → ℕ → List ℕ → World × Option ℕ
send env w ci bytes =
    let t = conn w ci in
    if not (can_send t)
    then (w, none)
    else if is_throughput t.app_ctx
    then (let (w1, n) = send_direct env w ci bytes in (w1, some n))
    else send_queued env w ci bytes (buffer_for env t (length bytes) t.snd_buf)

-- `isn_generate`
unfoldable pub isn_generate : Env → Tuple → ℕ
isn_generate env q =
    let v0 = bit_xor env.secret_0 (q.src_ip * 2 ^ 32 + q.dst_ip) in
    let ports = q.src_port * 2 ^ 16 + q.dst_port in
    let v1 = bit_xor v0 (u64 (ports * 0x9E3779B97F4A7C15)) in
    let v2 = bit_xor v1 env.secret_1 in
    let v3 = u64 (bit_xor v2 (v2 / 2 ^ 30) * 0xbf58476d1ce4e5b9) in
    let v4 = u64 (bit_xor v3 (v3 / 2 ^ 27) * 0x94d049bb133111eb) in
    u32 (u32 (v4 / 2 ^ 32) + u32 (env.now / 2 ^ 8))

-- What `tcp_fsm_connect` writes before it sends the SYN, after `tcb_alloc`.
abbrev pub connecting : Env → ℕ → Tcb → Tcb
connecting env isn t = record t {
  state = syn_sent;
  ip_version = 4;
  snd_nxt = isn;
  snd_una = isn;
  rcv_wnd = 65535 * 2 ^ 7;
  mss_local = 1460;
  wscale_local = 7;
  cwnd = tgen_min (10 * 1460) (tgen_max (2 * 1460) 4380);
  ssthresh = uint32_max;
  nagle_enabled = true;
  rto_us = initial_rto_us;
  active_open = true;
  ts_enabled = true;
  timewait_deadline_tsc = env.now;
}

abbrev pub next_seq : Tcb → Tcb
next_seq t = record t { snd_nxt = u32 (t.snd_nxt + 1) }

-- The SYN and its timeout, for the result of `tcb_alloc`.
abbrev pub send_syn : Env → World → Tuple → Option (ℕ × Store) → World × Option ℕ
send_syn env w q none = (w, none)
send_syn env w q (some (ci, s)) =
    let w1 = record w { worker = record (w.worker) { store = s } } in
    let w2 = edit w1 ci (connecting env (isn_generate env q)) in
    let w3 = transmit env w2 ci flags_syn [] (conn w2 ci).snd_nxt 0 in
    (arm_rto env (edit w3 ci next_seq) ci, some ci)

abbrev pub connect_from : Env → World → ℕ → Option ℕ → ℕ → ℕ → World × Option ℕ
connect_from env w src_ip none dst_ip dst_port = (w, none)
connect_from env w src_ip (some src_port) dst_ip dst_port =
    let q : Tuple = record {
      src_ip = src_ip;
      src_port = src_port;
      dst_ip = dst_ip;
      dst_port = dst_port;
    } in
    send_syn env w q (TcbStore.alloc w.worker.store q)

-- The port asked for, or an ephemeral one for 0.
abbrev pub source_port : World → ℕ → ℕ → Option ℕ × WorkerPool
source_port w src_ip src_port =
    if src_port == 0 then PortPool.alloc w.pool src_ip else (some src_port, w.pool)

-- `tcp_fsm_connect`: the new connection, or nothing for NULL.
unfoldable pub connect : Env → World → ℕ → ℕ → ℕ → ℕ → World × Option ℕ
connect env w src_ip src_port dst_ip dst_port =
    let (port, pool) = source_port w src_ip src_port in
    connect_from env (record w { pool = pool }) src_ip port dst_ip dst_port

abbrev pub backed_off : Env → Tcb → Tcb
backed_off env t =
    congestion_on_rto env.math (record t { rto_us = tgen_min (u32 (t.rto_us * 2)) max_rto_us })

abbrev pub go_back : Tcb → Tcb
go_back t = record t { snd_nxt = t.snd_una }

abbrev pub has_queued : Option SndBuf → Bool
has_queued none = false
has_queued (some sb) = ltb 0 sb.len

-- The switch of `tcp_fsm_rto_expired`.
abbrev pub resend : Env → World → ℕ → TcpState → World
resend env w ci syn_sent = transmit env w ci flags_syn [] (conn w ci).snd_una 0
resend env w ci syn_received =
    transmit env w ci flags_syn_ack [] (conn w ci).snd_una (conn w ci).rcv_nxt
resend env w ci fin_wait_1 =
    transmit env w ci flags_fin_ack [] (conn w ci).snd_una (conn w ci).rcv_nxt
resend env w ci last_ack =
    transmit env w ci flags_fin_ack [] (conn w ci).snd_una (conn w ci).rcv_nxt
resend env w ci established =
    if has_queued (conn w ci).snd_buf then drain env (edit w ci go_back) ci else w
resend env w ci close_wait =
    if has_queued (conn w ci).snd_buf then drain env (edit w ci go_back) ci else w
resend env w ci _ = w

abbrev pub max_retries : TcpState → ℕ
max_retries s = if is_state s syn_sent then 3 else max_retransmits

-- `tcp_fsm_rto_expired`; the counter has 8 bits.
unfoldable pub rto_expired : Env → World → ℕ → World
rto_expired env w ci =
    let w1 = edit w ci (λ t. record t { retransmit_count = u8 (t.retransmit_count + 1) }) in
    let w2 = edit w1 ci (backed_off env) in
    if ltb (max_retries (conn w1 ci).state) (conn w1 ci).retransmit_count
    then reset env w1 ci
    else arm_rto env (resend env w2 ci (conn w2 ci).state) ci
