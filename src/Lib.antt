-- ===== src/Lib.antt =====
-- vaigAI, a DPDK-based traffic generator with its own TCP stack (vaigAI/src): what one worker core
-- keeps for its connections, and the operations on it.
--
-- Parts, and how they interact. A worker has a store of TCP control blocks
-- (vaigAI/src/net/tcp_tcb.c) that finds a connection by its 4-tuple, a timer wheel
-- (vaigAI/src/net/tcp_timer.c) whose chains run through the blocks of the store, a pool of
-- ephemeral ports (vaigAI/src/net/tcp_port_pool.c) that gives the source port of a new connection,
-- and for each connection a send buffer (vaigAI/src/net/tcp_snd_buf.c) and a congestion window
-- (vaigAI/src/net/tcp_congestion.c). What is queued goes out in segments
-- (vaigAI/src/net/tcp_fsm.c), to the address that the ARP cache (vaigAI/src/net/arp.c) gives.
-- Before any of this, the cores of the machine are given their roles
-- (vaigAI/src/core/core_assign.c). Segments carry options (vaigAI/src/net/tcp_options.c);
-- latencies go into a histogram (vaigAI/src/telemetry/histogram.h). Freeing a block takes it off
-- the wheel first; the helpers of vaigAI/src/common/util.c size the hash table.
--
-- Files. Common: shared names, Boolean tests, C arrays as lists, fixed-width integers, binary
-- digits. SendBuffer: tcp_snd_buf_t and its functions; SendBuffer/Queue: the queue of bytes. Tcb:
-- tcb_t. Worker: a worker's store and wheel as one state. TimerWheel: the functions of tcp_timer.c
-- that link and schedule; TimerWheel/Links and TimerWheel/Frame: what they leave alone;
-- TimerWheel/Late: deadlines in the past. TcbStore: the functions of tcp_tcb.c; its children:
-- Table (the hash table), Loops (the probe loops), Inv (the invariant), Release (freeing), Lookup,
-- Refine (allocation), Free, Empty (a new store). PortPool: the functions of tcp_port_pool.c; its
-- children: Segment and Scan (the search for a free bit), Bitmap, Pools (the table of addresses),
-- Alloc, Start, Rest (the parts that do not see each other), Ring (TIME_WAIT) and Ring/Tick.
-- Options: tcp_options.c; Options/Parse and Options/RoundTrip. Congestion: tcp_congestion.c, with
-- Congestion/Window on New Reno and Congestion/Frame on what it leaves alone. Histogram:
-- vaigAI/src/telemetry/histogram.h and histogram.c; its children Buckets, Correction and
-- Percentile. Transmit: the round-trip estimate and the draining of the send buffer, in tcp_fsm.c,
-- with Transmit/Rtt, Transmit/Drain and Transmit/Frame. Fsm: the rest of tcp_fsm.c, with the state
-- of a worker in one record; Fsm/Calls (connect, close, reset, send, timeout), Fsm/Http (the
-- client's requests and responses), Fsm/Input, Fsm/Established and Fsm/Dispatch (tcp_fsm_input,
-- state by state); the other children prove what these keep and do: Good, CallsGood, AppGood,
-- InputGood, AckGood, FlowGood, DispatchGood and Returns on validity, View and Lookups on what a
-- call leaves alone, Became and Arrives on one connection followed through a call, and on what
-- happens to a connection: Connect, Handshake (with Opening and Joined), Reset, ResetAll
-- (tcp_fsm_reset_all, with its definitions), Rst, Shutdown and Timeout (with Resend). Fsm/Timer:
-- timer_fire of tcp_timer.c, which acts on connections, with Fsm/Expiry on the end of a wait in
-- TIME_WAIT and FIN_WAIT_2, and Fsm/Fire (with Waits) on the other states. CoreAssign:
-- vaigAI/src/core/core_assign.c and core_assign.h; its children: Plan (how many cores of each
-- kind), Kinds and Roles. Arp: arp.c and arp.h; its children: Keys (what is assumed of the table
-- of addresses), Cache, Ticks (calls of the tick) and Stale. Util: the helpers, with Util/Pow2.
-- Tests: concrete inputs.
--
-- Correspondence. A C function keeps its name less the module's prefix: tcb_alloc is
-- TcbStore.alloc, tcp_port_alloc is PortPool.alloc. A function that takes a worker index takes and
-- returns that worker's state; a pointer to a block is its index. Unsigned integers are natural
-- numbers with the wrap-around written out. A read of the clock is an argument; so is whether a
-- segment or a frame is accepted for sending; so are memory and the frequency of the clock. In the
-- state machine these are the fields of one record, Env, and the clock stands still during a call.
-- The application server and the TLS layer are an interface, Upper, whose calls return the changed
-- state. The PSH flag, MAC addresses, and metrics other than those of connections opened and
-- closed are left out.
--
-- Bounds. The probe loops run as many rounds as the table has slots, as in C. The loop of
-- tcp_port_pool_tick runs on fuel, one round for each entry of the ring, which is enough since
-- each round takes one entry off. The option parser and the correction of the histogram run on
-- fuel too, as many rounds as there are bytes or microseconds. The loop of snd_buf_drain gets a
-- round for each byte of the buffer, which is enough since each round sends one at least. Stores
-- up to 2^31 hash slots are covered. The frequency of the clock is taken to be 1 MHz at least:
-- below that the C code divides by zero where it computes microseconds and wheel slots. The
-- product of two 16-bit MSS in tcp_congestion.c is taken modulo 2^32.
--
-- Not modelled: packet buffers, DPDK, OpenSSL, the management plane and telemetry output, which
-- are input and output or foreign code; IPv6, and the calls of tcp_fsm.c that act on no single
-- connection (tcp_send_rst_no_tcb, the batches of packets). Nor are modelled: tcp_timer_tick,
-- which walks the slots of the wheel and the delayed-ACK list, the traffic generator, the
-- application server and the HTTP parser.
pub mod Common
pub mod SendBuffer
pub mod Tcb
pub mod Worker
pub mod Util
pub mod TimerWheel
pub mod TcbStore
pub mod PortPool
pub mod Options
pub mod CoreAssign
pub mod Congestion
pub mod Histogram
pub mod Arp
pub mod Transmit
pub mod Fsm
pub mod Tests
