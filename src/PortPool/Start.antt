-- ===== src/PortPool/Start.antt =====
-- The pools that `tcp_port_pool_init` and `tcp_port_pool_reset` leave.
use ai_pattarai.Common.{
  ℕ, zero, suc, ◌/◌, ◌%◌, ◌^◌, ◌<◌, ◌≡◌, refl, sym, ap, ◌∙◌, subst, arith, List, get_or, replicate,
  length-replicate, uint64_max, testbit-ones, ◌==◌, Bool-cases, inl, inr,
}
use ai_pattarai.PortPool.{
  ephem_cnt, bitmap_words, n_ip_slots, IpPool, WorkerPool, in_table, no_pool, all_free, bm_test,
  init, reset, ip_pool_get,
}
use ai_pattarai.PortPool.Scan.{Words}
use ai_pattarai.PortPool.Pools.{
  owner, round_slot, find_pool_claim, deref-assign, IsPool, IsValid, available,
}

replicate_at : {A : Type 0} (n i : ℕ) (a d : A) → i < n → get_or (replicate n a) i d ≡ a
replicate_at zero i a d h = absurd (omega arith)
replicate_at (suc n) zero a d h = refl
replicate_at (suc n) (suc i) a d h = replicate_at n i a d (omega arith)

replicate-Words : (n x : ℕ) → x < 2 ^ 64 → Words (replicate n x)
replicate-Words zero x h j = omega arith
replicate-Words (suc n) x h zero = h
replicate-Words (suc n) x h (suc j) = replicate-Words n x h j

fresh-IsPool :
    (x ip : ℕ)
    → x < 2 ^ 64
    → IsPool (record { src_ip = ip; cursor = 0; map = replicate bitmap_words x })
fresh-IsPool x ip h = record {
  map_len = length-replicate bitmap_words x;
  words = replicate-Words bitmap_words x h;
  cursor_in = omega arith;
}

table-IsPool :
    (x : ℕ)
    → x < 2 ^ 64
    → (s : ℕ) → s < n_ip_slots
    → let p : IpPool = record { src_ip = 0; cursor = 0; map = replicate bitmap_words x } in
      IsPool (get_or (replicate n_ip_slots p) s no_pool)
table-IsPool x h s l =
    let p : IpPool = record { src_ip = 0; cursor = 0; map = replicate bitmap_words x } in
    subst IsPool (sym (replicate_at n_ip_slots s p no_pool l)) (fresh-IsPool x 0 h)

unowned :
    (m : List ℕ) (s : ℕ)
    → s < n_ip_slots
    → (get_or (replicate n_ip_slots (record { src_ip = 0; cursor = 0; map = m })) s no_pool).src_ip
      ≡ 0
unowned m s h =
    ap (λ (p : IpPool). p.src_ip)
      (replicate_at n_ip_slots s (record { src_ip = 0; cursor = 0; map = m }) no_pool h)

-- Every port of a bitmap of ones is free.
bm_test-all_free : (q : ℕ) → q < ephem_cnt → bm_test all_free q ≡ 1
unfolding bm_test
bm_test-all_free q h =
    rw (replicate_at bitmap_words (q / 64) uint64_max 0 (omega arith))
      (ground (arith, testbit-ones 64 (q % 64)))

-- `tcp_port_pool_init` leaves a valid pool.
pub init-IsValid : (tsc_hz : ℕ) → IsValid (init tsc_hz)
unfolding init
init-IsValid tsc_hz = record {
  table_len =
      length-replicate {A = IpPool} n_ip_slots (record { src_ip = 0; cursor = 0; map = all_free });
  table = λ s h. table-IsPool uint64_max (omega arith) s h;
  shared_pool = fresh-IsPool uint64_max 0 (omega arith);
}

-- `tcp_port_pool_reset`, whatever the ring held, leaves a valid pool.
pub reset-IsValid : (wp : WorkerPool) → IsValid (reset wp)
unfolding reset
reset-IsValid wp = record {
  table_len =
      length-replicate {A = IpPool} n_ip_slots
        (record { src_ip = 0; cursor = 0; map = replicate bitmap_words 0 });
  table = λ s h. table-IsPool 0 (omega arith) s h;
  shared_pool = fresh-IsPool uint64_max wp.shared.src_ip (omega arith);
}

-- A table without owners serves every address with the bits of the shared pool.
unowned-available :
    (wp : WorkerPool) (ip q : ℕ)
    → IsValid wp
    → ((s : ℕ) → s < n_ip_slots → owner wp s ≡ 0)
    → available wp ip q ≡ bm_test wp.shared.map q
unfolding available ip_pool_get
unowned-available wp ip q v none_owned = elim (Bool-cases (ip == 0)) [
  | inl z ↦ rw z refl
  | inr n ↦
      let s : ℕ = round_slot ip 0 in
      let vacant : owner wp s ≡ 0 = none_owned s (omega arith) in
      let fresh : IpPool = record { src_ip = ip; cursor = 0; map = wp.shared.map } in
      rw (n, find_pool_claim wp ip 63 0 (ground (arith, vacant)) (ap (λ t. t == 0) vacant))
        (ap (λ (p : IpPool). bm_test p.map q) (deref-assign wp (in_table s) fresh v (omega arith)))
]

-- After `tcp_port_pool_init`, and after `tcp_port_pool_reset` of any pool, the pool is valid, no port
-- is in TIME_WAIT, and every port of the range is available to every address.
pub all_available :
    (tsc_hz : ℕ) (wp : WorkerPool)
    → (IsValid (init tsc_hz) × ((ip q : ℕ) → q < ephem_cnt → available (init tsc_hz) ip q ≡ 1))
      × (IsValid (reset wp) × ((ip q : ℕ) → q < ephem_cnt → available (reset wp) ip q ≡ 1))
unfolding init reset
all_available tsc_hz wp = (
  (
    init-IsValid tsc_hz,
    λ ip q h.
        unowned-available (init tsc_hz) ip q (init-IsValid tsc_hz) (λ s l. unowned all_free s l)
        ∙ bm_test-all_free q h,
  ),
  (
    reset-IsValid wp,
    λ ip q h.
        unowned-available (reset wp) ip q (reset-IsValid wp)
          (λ s l. unowned (replicate bitmap_words 0) s l)
        ∙ bm_test-all_free q h,
  ),
)
