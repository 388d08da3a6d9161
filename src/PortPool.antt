-- ===== src/PortPool.antt =====
-- The ephemeral port pool of one worker, vaigAI/src/net/tcp_port_pool.c: a bitmap of free ports for
-- each source address, and a ring of the ports in TIME_WAIT. Each function is at the worker's own
-- `g_pools[worker_idx]`.
pub mod Segment
pub mod Scan
pub mod Bitmap
pub mod Pools
pub mod Alloc
pub mod Start
pub mod Rest
pub mod Ring
use ai_pattarai.Common.{
  ℕ, zero, suc, ◌+◌, ◌-◌, ◌*◌, ◌/◌, ◌%◌, ◌^◌, Bool, ◌||◌, ltb, leb, ◌==◌, if◌then◌else◌, Option,
  none, some, List, [], ◌∷◌, get_or, set, replicate, u16, u32, u64, uint64_max, bit_and, bit_or,
  bit_xor, testbit,
}

abbrev pub ephem_lo : ℕ
ephem_lo = 10000

abbrev pub ephem_hi : ℕ
ephem_hi = 60000

abbrev pub ephem_cnt : ℕ
ephem_cnt = ephem_hi - ephem_lo

abbrev pub bitmap_words : ℕ
bitmap_words = (ephem_cnt + 63) / 64

abbrev pub tw_ring_size : ℕ
tw_ring_size = 65536

abbrev pub tw_ring_mask : ℕ
tw_ring_mask = tw_ring_size - 1

abbrev pub n_ip_slots : ℕ
n_ip_slots = 64

abbrev pub timewait_ms : ℕ
timewait_ms = 4000

pub record IpPool : Type 0 where
  pub src_ip : ℕ
  pub cursor : ℕ
  pub map : List ℕ

pub record TwEntry : Type 0 where
  pub src_ip : ℕ
  pub port : ℕ
  pub release_tsc : ℕ

pub record WorkerPool : Type 0 where
  pub ip_pools : List IpPool
  pub shared : IpPool
  pub tw_ring : List TwEntry
  pub tw_head : ℕ
  pub tw_tail : ℕ
  pub tw_hold_tsc : ℕ
  pub port_exhaustion_events : ℕ

abbrev pub word_at : List ℕ → ℕ → ℕ
word_at map i = get_or map i 0

-- `bit >> 6` and `bit & 63` are written as the quotient and the remainder by 64.
unfoldable pub bm_set : List ℕ → ℕ → List ℕ
bm_set map bit = set map (bit / 64) (bit_or (word_at map (bit / 64)) (2 ^ (bit % 64)))

-- `~x` on 64 bits is `uint64_max - x`.
unfoldable pub bm_clear : List ℕ → ℕ → List ℕ
bm_clear map bit =
    set map (bit / 64) (bit_and (word_at map (bit / 64)) (uint64_max - 2 ^ (bit % 64)))

unfoldable pub bm_test : List ℕ → ℕ → ℕ
bm_test map bit = testbit (word_at map (bit / 64)) (bit % 64)

-- `__builtin_ctzll`, on a word of the given number of digits
unfoldable pub ctz : ℕ → ℕ → ℕ
ctz zero x = 0
ctz (suc n) x = let rest = suc (ctz n (x / 2)) in if x % 2 == 1 then 0 else rest

-- The test that each word of the scan gets: `if (word) { pos = ...; if (pos < CNT) return pos }`.
abbrev pub first_in : ℕ → ℕ → Option ℕ
first_in word i =
    let pos = i * 64 + ctz 64 word in
    if word == 0 then none else if ltb pos ephem_cnt then some pos else none

abbrev pub or_else : Option ℕ → Option ℕ → Option ℕ
or_else none r = r
or_else (some p) r = some p

-- Phase 1 after the first word: the rounds left, and the word `i`.
unfoldable pub scan_up : List ℕ → ℕ → ℕ → Option ℕ
scan_up map zero i = none
scan_up map (suc rounds) i = or_else (first_in (word_at map i) i) (scan_up map rounds (i + 1))

-- `~0ULL << b`
abbrev pub mask_from : ℕ → ℕ
mask_from b = u64 (uint64_max * 2 ^ b)

-- Phase 2, up to and with the word `w`, which is masked.
unfoldable pub scan_wrap : List ℕ → ℕ → ℕ → ℕ → ℕ → Option ℕ
scan_wrap map w b zero i = none
scan_wrap map w b (suc rounds) i =
    let word = word_at map i in
    let word' = if i == w then bit_and word (uint64_max - mask_from b) else word in
    or_else (first_in word' i) (scan_wrap map w b rounds (i + 1))

unfoldable pub bm_find_next : List ℕ → ℕ → Option ℕ
bm_find_next map start =
    let w = start / 64 in
    let b = start % 64 in
    or_else (first_in (bit_and (word_at map w) (mask_from b)) w)
      (or_else (scan_up map (bitmap_words - (w + 1)) (w + 1)) (scan_wrap map w b (w + 1) 0))

abbrev pub no_pool : IpPool
no_pool = record { src_ip = 0; cursor = 0; map = [] }

-- The pointer that `ip_pool_get` returns: into the table, or to the shared pool.
pub data PoolRef : Type 0 where
  in_table : ℕ → PoolRef
  in_shared : PoolRef

abbrev pub deref : WorkerPool → PoolRef → IpPool
deref wp (in_table s) = get_or wp.ip_pools s no_pool
deref wp in_shared = wp.shared

abbrev pub assign : WorkerPool → PoolRef → IpPool → WorkerPool
assign wp (in_table s) p = record wp { ip_pools = set wp.ip_pools s p }
assign wp in_shared p = record wp { shared = p }

unfoldable pub ip_slot : ℕ → ℕ
ip_slot src_ip =
    let h0 = bit_xor src_ip 0x811c9dc5 in
    let h1 = u32 (bit_xor h0 (h0 / 2 ^ 16) * 0x45d9f3b) in bit_xor h1 (h1 / 2 ^ 16) % n_ip_slots

-- The loop of `ip_pool_get`: the rounds left, and the round `i`.
unfoldable pub find_pool : WorkerPool → ℕ → ℕ → ℕ → PoolRef × WorkerPool
find_pool wp src_ip zero i = (in_shared, wp)
find_pool wp src_ip (suc rounds) i =
    let s = (ip_slot src_ip + i) % n_ip_slots in
    let p = get_or wp.ip_pools s no_pool in
    let rest = find_pool wp src_ip rounds (i + 1) in
    if p.src_ip == src_ip
    then (in_table s, wp)
    else if p.src_ip == 0
    then (
      in_table s,
      assign wp (in_table s) (record { src_ip = src_ip; cursor = 0; map = wp.shared.map }),
    )
    else rest

unfoldable pub ip_pool_get : WorkerPool → ℕ → PoolRef × WorkerPool
ip_pool_get wp src_ip = if src_ip == 0 then (in_shared, wp) else find_pool wp src_ip n_ip_slots 0

abbrev pub all_free : List ℕ
all_free = replicate bitmap_words uint64_max

abbrev pub no_entry : TwEntry
no_entry = record { src_ip = 0; port = 0; release_tsc = 0 }

-- One worker's pool after `tcp_port_pool_init`, with `g_tsc_hz`.
unfoldable pub init : ℕ → WorkerPool
init tsc_hz = record {
  ip_pools = replicate n_ip_slots (record { src_ip = 0; cursor = 0; map = all_free });
  shared = record { src_ip = 0; cursor = 0; map = all_free };
  tw_ring = replicate tw_ring_size no_entry;
  tw_head = 0;
  tw_tail = 0;
  tw_hold_tsc = u64 (timewait_ms * tsc_hz) / 1000;
  port_exhaustion_events = 0;
}

unfoldable pub reset : WorkerPool → WorkerPool
reset wp = record wp {
  shared = record (wp.shared) { cursor = 0; map = all_free };
  ip_pools =
      replicate n_ip_slots (record { src_ip = 0; cursor = 0; map = replicate bitmap_words 0 });
  tw_head = 0;
  tw_tail = 0;
}

-- The end of `tcp_port_alloc`, for the pool and what `bm_find_next` says.
abbrev pub take_from : WorkerPool → PoolRef → Option ℕ → Option ℕ × WorkerPool
take_from wp ref none =
    (none, record wp { port_exhaustion_events = u64 (wp.port_exhaustion_events + 1) })
take_from wp ref (some bit) = (
  some (u16 (ephem_lo + bit)),
  assign wp ref (record (deref wp ref) {
    map = bm_clear (deref wp ref).map bit;
    cursor = (bit + 1) % ephem_cnt;
  }),
)

-- Returns the port, or nothing for -ENOBUFS.
unfoldable pub alloc : WorkerPool → ℕ → Option ℕ × WorkerPool
alloc wp src_ip =
    let (ref, wp1) = ip_pool_get wp src_ip in
    let ip = deref wp1 ref in take_from wp1 ref (bm_find_next ip.map ip.cursor)

-- The two lines that make a port available again.
abbrev pub release : WorkerPool → ℕ → ℕ → WorkerPool
release wp src_ip port =
    let (ref, wp1) = ip_pool_get wp src_ip in
    let ip = deref wp1 ref in assign wp1 ref (record ip { map = bm_set ip.map (port - ephem_lo) })

abbrev pub outside : ℕ → Bool
outside port = ltb port ephem_lo || leb ephem_hi port

-- `now` is what `rte_rdtsc()` returns.
unfoldable pub free : WorkerPool → ℕ → ℕ → ℕ → WorkerPool
free wp now src_ip port =
    let next_tail = bit_and (wp.tw_tail + 1) tw_ring_mask in
    let e : TwEntry = record {
      src_ip = src_ip;
      port = port;
      release_tsc = u64 (now + wp.tw_hold_tsc);
    } in
    if outside port
    then wp
    else if next_tail == wp.tw_head
    then release wp src_ip port
    else record wp { tw_ring = set wp.tw_ring wp.tw_tail e; tw_tail = next_tail }

unfoldable pub free_immediate : WorkerPool → ℕ → ℕ → WorkerPool
free_immediate wp src_ip port = if outside port then wp else release wp src_ip port

-- The loop of `tcp_port_pool_tick` on fuel; as many rounds as the ring has entries are enough.
unfoldable pub tick_loop : ℕ → ℕ → WorkerPool → WorkerPool
tick_loop zero now wp = wp
tick_loop (suc fuel) now wp =
    let e = get_or wp.tw_ring wp.tw_head no_entry in
    let wp1 = release wp e.src_ip e.port in
    let rest =
      tick_loop fuel now (record wp1 { tw_head = bit_and (wp1.tw_head + 1) tw_ring_mask }) in
    if wp.tw_head == wp.tw_tail then wp else if ltb now e.release_tsc then wp else rest

unfoldable pub tick : WorkerPool → ℕ → WorkerPool
tick wp now = tick_loop tw_ring_size now wp
