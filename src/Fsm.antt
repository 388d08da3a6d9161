-- ===== src/Fsm.antt =====
-- The TCP state machine of vaigAI/src/net/tcp_fsm.c and tcp_fsm.h, IPv4 and the own side: what one
-- worker's connections do on open, close, reset, send and timeout. A `tcb_t *` is its index.
-- `tcp_send_segment` appends a packet to `out` or fails, as `accepts` says. The clock stands still
-- during one call. MAC addresses, TLS sessions and metrics other than those of connections opened
-- and closed are left out.
pub mod Calls
pub mod Http
pub mod Input
pub mod Established
pub mod Dispatch
pub mod Good
pub mod CallsGood
pub mod AppGood
pub mod InputGood
pub mod FlowGood
pub mod AckGood
pub mod DispatchGood
pub mod Returns
pub mod Timeout
pub mod Resend
pub mod View
pub mod Lookups
pub mod Reset
pub mod Connect
pub mod Became
pub mod Shutdown
pub mod Arrives
pub mod Rst
pub mod Opening
pub mod Handshake
pub mod Joined
pub mod ResetAll
pub mod Timer
pub mod Expiry
pub mod Waits
pub mod Fire
use ai_pattarai.Common.{
  ℕ, ◌+◌, ◌-◌, ◌*◌, ◌/◌, ◌^◌, Bool, true, false, ◌&&◌, ◌||◌, not, ltb, leb, ◌==◌, if◌then◌else◌,
  Option, none, some, List, [], ◌∷◌, ◌++◌, length, u8, u16, u32, u64, uint32_max, bit_xor,
}
use ai_pattarai.SendBuffer
use ai_pattarai.SendBuffer.{SndBuf}
use ai_pattarai.Tcb.{
  Tcb, Tuple, is_state, state_rank, syn_sent, syn_received, established, fin_wait_1, close_wait,
  last_ack, is_throughput,
}
use ai_pattarai.Worker.{Worker, tcb_at, put_tcb}
use ai_pattarai.TimerWheel.{resched}
use ai_pattarai.TcbStore
use ai_pattarai.PortPool
use ai_pattarai.PortPool.{WorkerPool}
use ai_pattarai.Congestion.{CubicMath, congestion_on_rto}
use ai_pattarai.Transmit.{Segment, tgen_min, tgen_max, max_rto_us, drain_loop, snd_buf_drain}

abbrev pub initial_rto_us : ℕ
initial_rto_us = 200000

abbrev pub max_retransmits : ℕ
max_retransmits = 15

-- The flags that a handler reads or that tell two segments apart; PSH is left out.
pub record Flags : Type 0 where
  pub syn : Bool
  pub ack : Bool
  pub fin : Bool
  pub rst : Bool

-- A segment sent, by its connection.
pub record Packet : Type 0 where
  pub conn : Tuple
  pub flags : Flags
  pub segment : Segment

-- The worker's prebuilt request, `http_prebuilt_req_t`.
pub record HttpReq : Type 0 where
  pub hdr : List ℕ
  pub keep_alive : Bool
  pub txn_per_conn : ℕ
  pub think_time_us : ℕ

-- What a call finds outside: the clock and its frequency, whether a segment is accepted after the
-- packets sent so far, the memory, the secret for sequence numbers, the floating point of CUBIC,
-- the ports with a listener (nothing when the worker does not serve), which connections have a
-- TLS session, and the prebuilt request.
pub record Env : Type 0 where
  pub now : ℕ
  pub hz : ℕ
  pub accepts : List Packet → ℕ → Bool
  pub malloc : ℕ → Option (List ℕ)
  pub secret_0 : ℕ
  pub secret_1 : ℕ
  pub math : CubicMath
  pub listens : Option (ℕ → Bool)
  pub has_session : ℕ → Bool
  pub request : HttpReq

-- One worker's connections, ports and traffic.
pub record World : Type 0 where
  pub worker : Worker
  pub pool : WorkerPool
  pub out : List Packet
  pub conn_open : ℕ
  pub conn_close : ℕ

abbrev pub conn : World → ℕ → Tcb
conn w ci = tcb_at w.worker ci

abbrev pub edit : World → ℕ → (Tcb → Tcb) → World
edit w ci f = record w { worker = put_tcb w.worker ci (f (conn w ci)) }

abbrev pub flags_syn : Flags
flags_syn = record { syn = true; ack = false; fin = false; rst = false }

abbrev pub flags_syn_ack : Flags
flags_syn_ack = record { syn = true; ack = true; fin = false; rst = false }

abbrev pub flags_ack : Flags
flags_ack = record { syn = false; ack = true; fin = false; rst = false }

abbrev pub flags_fin_ack : Flags
flags_fin_ack = record { syn = false; ack = true; fin = true; rst = false }

abbrev pub flags_rst_ack : Flags
flags_rst_ack = record { syn = false; ack = true; fin = false; rst = true }

-- `if ((flags & ACK) && !(flags & SYN)) tcb->pending_ack = false;`
abbrev pub acked_now : Flags → Tcb → Tcb
acked_now f t = if f.ack && not f.syn then record t { pending_ack = false } else t

-- `tcp_send_segment` where the caller ignores the result.
unfoldable pub transmit : Env → World → ℕ → Flags → List ℕ → ℕ → ℕ → World
transmit env w ci flags payload seq ack =
    let p : Packet = record {
      conn = (conn w ci).tuple;
      flags = flags;
      segment = record { payload = payload; seq = seq; ack = ack };
    } in
    if env.accepts w.out seq
    then record (edit w ci (acked_now flags)) { out = w.out ++ (p ∷ []) }
    else w

unfoldable pub timer : Env → World → ℕ → World
timer env w ci = record w { worker = resched w.worker ci env.now env.now env.hz }

abbrev pub rto_from_now : Env → Tcb → Tcb
rto_from_now env t = record t {
  rto_deadline_tsc = u64 (env.now + u64 (t.rto_us * env.hz) / 1000000);
}

unfoldable pub arm_rto : Env → World → ℕ → World
arm_rto env w ci = timer env (edit w ci (rto_from_now env)) ci

abbrev pub no_session : Tcb → Tcb
no_session t = if leb 2 t.app_state then record t { app_state = 0 } else t

-- `tls_detach_if_needed`; what OpenSSL keeps for the session is left out.
unfoldable pub detach_tls : World → ℕ → World
detach_tls w ci = edit w ci no_session

-- `tls_detach_if_needed`, `tcp_port_free_immediate`, `tcb_free`
unfoldable pub teardown : World → ℕ → World
teardown w ci =
    let w1 = detach_tls w ci in
    let q = (conn w1 ci).tuple in
    record w1 {
      pool = PortPool.free_immediate w1.pool q.src_ip q.src_port;
      worker = TcbStore.free w1.worker ci;
    }

-- `tls_detach_if_needed`, `tcp_port_free`, `tcb_free`
unfoldable pub teardown_hold : Env → World → ℕ → World
teardown_hold env w ci =
    let w1 = detach_tls w ci in
    let q = (conn w1 ci).tuple in
    record w1 {
      pool = PortPool.free w1.pool env.now q.src_ip q.src_port;
      worker = TcbStore.free w1.worker ci;
    }

abbrev pub count_open : World → World
count_open w = record w { conn_open = u64 (w.conn_open + 1) }

abbrev pub count_close : World → World
count_close w = record w { conn_close = u64 (w.conn_close + 1) }
