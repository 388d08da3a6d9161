-- ===== src/Tcb.antt =====
-- The transmission control block of vaigAI/src/net/tcp_tcb.h, shared by the TCP components.
-- A `tcb_t *` into the per-worker array is the index of its slot. Left out are the fields that no
-- modelled code reads: MAC and IPv6 addresses, VLAN and DSCP marks, the out-of-order queue.

use ai_pattarai.Common.{ℕ, Bool, true, false, Option, none, ◌&&◌, ◌==◌}
use ai_pattarai.SendBuffer.{SndBuf}

-- `tcp_state_t`
pub data TcpState : Type 0 where
  closed listen syn_sent syn_received established fin_wait_1 fin_wait_2 : TcpState
  close_wait closing last_ack time_wait : TcpState

-- The value of the C enumerator, which `state >= TCP_ESTABLISHED` compares.
abbrev pub state_rank : TcpState → ℕ
state_rank closed = 0
state_rank listen = 1
state_rank syn_sent = 2
state_rank syn_received = 3
state_rank established = 4
state_rank fin_wait_1 = 5
state_rank fin_wait_2 = 6
state_rank close_wait = 7
state_rank closing = 8
state_rank last_ack = 9
state_rank time_wait = 10

abbrev pub is_state : TcpState → TcpState → Bool
is_state s t = state_rank s == state_rank t

-- What `app_ctx` is compared with: NULL, the marker `(void *)1` of throughput mode, or a pointer to
-- the worker's prebuilt HTTP request.
pub data AppCtx : Type 0 where
  null throughput request : AppCtx

abbrev pub is_throughput : AppCtx → Bool
is_throughput throughput = true
is_throughput _ = false

abbrev pub is_null : AppCtx → Bool
is_null null = true
is_null _ = false

-- The four arguments that name a connection, as the code passes them.
pub record Tuple : Type 0 where
  pub src_ip : ℕ
  pub src_port : ℕ
  pub dst_ip : ℕ
  pub dst_port : ℕ

pub record Tcb : Type 0 where
  pub tuple : Tuple
  pub ip_version : ℕ
  pub snd_una : ℕ
  pub snd_nxt : ℕ
  pub snd_wnd : ℕ
  pub rcv_nxt : ℕ
  pub rcv_wnd : ℕ
  pub cwnd : ℕ
  pub ssthresh : ℕ
  pub dup_ack_count : ℕ
  pub in_fast_recovery : Bool
  pub rto_deadline_tsc : ℕ
  pub srtt_us : ℕ
  pub rttvar_us : ℕ
  pub rto_us : ℕ
  pub retransmit_count : ℕ
  pub ts_ecr : ℕ
  pub wscale_local : ℕ
  pub wscale_remote : ℕ
  pub sack_enabled : Bool
  pub ts_enabled : Bool
  pub nagle_enabled : Bool
  pub mss_local : ℕ
  pub mss_remote : ℕ
  pub state : TcpState
  pub active_open : Bool
  pub delayed_ack_tsc : ℕ
  pub pending_ack : Bool
  pub timewait_deadline_tsc : ℕ
  pub app_state : ℕ
  pub app_ctx : AppCtx
  pub http_req_sent_tsc : ℕ
  pub think_deadline_tsc : ℕ
  pub http_content_length : ℕ
  pub http_body_rx : ℕ
  pub http_txn_count : ℕ
  pub graceful_close : Bool
  pub cc_algo : ℕ
  pub cubic_wmax : ℕ
  pub cubic_epoch_start : ℕ
  pub cubic_origin_point : ℕ
  pub cubic_k_us : ℕ
  pub snd_buf : Option SndBuf
  pub tw_next : ℕ
  pub tw_prev : ℕ
  pub tw_slot : ℕ
  pub dack_next : ℕ
  pub in_dack_list : Bool
  pub in_use : Bool

-- What `memset(tcb, 0, sizeof(*tcb))` leaves.
abbrev pub zero_tcb : Tcb
zero_tcb = record {
  tuple = record { src_ip = 0; src_port = 0; dst_ip = 0; dst_port = 0 };
  ip_version = 0;
  snd_una = 0;
  snd_nxt = 0;
  snd_wnd = 0;
  rcv_nxt = 0;
  rcv_wnd = 0;
  cwnd = 0;
  ssthresh = 0;
  dup_ack_count = 0;
  in_fast_recovery = false;
  rto_deadline_tsc = 0;
  srtt_us = 0;
  rttvar_us = 0;
  rto_us = 0;
  retransmit_count = 0;
  ts_ecr = 0;
  wscale_local = 0;
  wscale_remote = 0;
  sack_enabled = false;
  ts_enabled = false;
  nagle_enabled = false;
  mss_local = 0;
  mss_remote = 0;
  state = closed;
  active_open = false;
  delayed_ack_tsc = 0;
  pending_ack = false;
  timewait_deadline_tsc = 0;
  app_state = 0;
  app_ctx = null;
  http_req_sent_tsc = 0;
  think_deadline_tsc = 0;
  http_content_length = 0;
  http_body_rx = 0;
  http_txn_count = 0;
  graceful_close = false;
  cc_algo = 0;
  cubic_wmax = 0;
  cubic_epoch_start = 0;
  cubic_origin_point = 0;
  cubic_k_us = 0;
  snd_buf = none;
  tw_next = 0;
  tw_prev = 0;
  tw_slot = 0;
  dack_next = 0;
  in_dack_list = false;
  in_use = false;
}

-- The comparison of two 4-tuples, field by field.
abbrev pub same_tuple : Tuple → Tuple → Bool
same_tuple t u =
    t.src_ip == u.src_ip
    && t.src_port == u.src_port
    && t.dst_ip == u.dst_ip
    && t.dst_port == u.dst_port
