-- ===== src/PortPool/Alloc.antt =====
-- `tcp_port_alloc` and the two lines that free a port, on the ports available to an address.
use ai_pattarai.Common.{
  ℕ, ◌+◌, ◌-◌, ◌/◌, ◌%◌, ◌≤◌, ◌<◌, ◌≡◌, refl, sym, ap, ◌∙◌, subst, arith, false, ◌==◌,
  if◌then◌else◌, Option, none, some, length, u16, u64,
}
use ai_pattarai.PortPool.{
  ephem_lo, ephem_hi, ephem_cnt, IpPool, WorkerPool, PoolRef, in_table, in_shared, deref,
  ip_pool_get, bm_find_next, bm_clear, bm_set, bm_test, alloc, take_from, release, free_immediate,
  outside,
}
use ai_pattarai.PortPool.Scan.{Nearest, bm_find_next-Nearest}
use ai_pattarai.PortPool.Bitmap.{
  bm_test-bm_set, bm_test-bm_clear, bm_set-Words, bm_clear-Words, length-bm_set, length-bm_clear,
}
use ai_pattarai.PortPool.Pools.{
  IsPool, IsValid, Got, ip_pool_get-Got, available, available-assign, assign-IsValid, deref-IsPool,
  ip_pool_get_again,
}

-- The specification of an allocation for `ip`.
abbrev pub Allocated : WorkerPool → ℕ → Option ℕ × WorkerPool → Type 0
Allocated wp ip (none, wp') =
    ((q : ℕ) → q < ephem_cnt → available wp ip q ≡ 0)
    × ((q : ℕ) → available wp' ip q ≡ available wp ip q)
    × (wp'.port_exhaustion_events ≡ u64 (wp.port_exhaustion_events + 1))
Allocated wp ip (some port, wp') =
    (ephem_lo ≤ port)
    × (port < ephem_hi)
    × (available wp ip (port - ephem_lo) ≡ 1)
    × ((q : ℕ) → available wp' ip q ≡ (if port - ephem_lo == q then 0 else available wp ip q))

deref_events :
    (wp : WorkerPool) (ref : PoolRef) (n : ℕ)
    → deref (record wp { port_exhaustion_events = n }) ref ≡ deref wp ref
deref_events wp (in_table s) n = refl
deref_events wp in_shared n = refl

module _ (wp : WorkerPool) (ip : ℕ) (v : IsValid wp) where
  abbrev ref : PoolRef
  ref = (ip_pool_get wp ip).0

  abbrev wp1 : WorkerPool
  wp1 = (ip_pool_get wp ip).1

  abbrev pool : IpPool
  pool = deref wp1 ref

  got : Got wp (ip_pool_get wp ip)
  got = ip_pool_get-Got wp ip v

  pool-IsPool : IsPool pool
  pool-IsPool = deref-IsPool wp1 ref got.1 got.0

  available_eq : (q : ℕ) → available wp ip q ≡ bm_test pool.map q
  unfolding available
  available_eq q = refl

  -- Claiming a pool changes no availability for the address.
  available_claimed :
      (n q : ℕ) → available (record wp1 { port_exhaustion_events = n }) ip q ≡ available wp ip q
  unfolding available
  available_claimed n q =
      rw (ip_pool_get_again wp ip (record wp1 { port_exhaustion_events = n }) v (λ j. refl))
        (ap (λ (t : IpPool). bm_test t.map q) (deref_events wp1 ref n))

  word_in : (bit : ℕ) → bit < ephem_cnt → bit / 64 < length pool.map
  word_in bit h = omega (arith, pool-IsPool.map_len)

  -- Freeing the port of `bit`.
  pub release_lem :
      (port : ℕ)
      → ephem_lo ≤ port
      → port < ephem_hi
      → IsValid (release wp ip port)
        × ((q : ℕ)
            → available (release wp ip port) ip q
              ≡ (if port - ephem_lo == q then 1 else available wp ip q))
  release_lem port h u =
      let bit : ℕ = port - ephem_lo in
      let inside = word_in bit (omega arith) in
      let p : IpPool = record pool { map = bm_set pool.map bit } in
      (
        assign-IsValid wp1 ref p got.1 got.0 (record {
          map_len = length-bm_set pool.map bit ∙ pool-IsPool.map_len;
          words = bm_set-Words pool.map bit inside pool-IsPool.words;
          cursor_in = pool-IsPool.cursor_in;
        }),
        λ q.
            available-assign wp ip p q v refl
            ∙ bm_test-bm_set pool.map bit inside q
            ∙ ap (λ t. if bit == q then 1 else t) (sym (available_eq q)),
      )

  taken_pool :
      (bit : ℕ)
      → bit < ephem_cnt
      → IsPool (record pool { map = bm_clear pool.map bit; cursor = (bit + 1) % ephem_cnt })
  taken_pool bit h = record {
    map_len = length-bm_clear pool.map bit ∙ pool-IsPool.map_len;
    words = bm_clear-Words pool.map bit (word_in bit h) pool-IsPool.words;
    cursor_in = omega arith;
  }

  alloc_eq : alloc wp ip ≡ take_from wp1 ref (bm_find_next pool.map pool.cursor)
  unfolding alloc
  alloc_eq = refl

  search : Nearest pool.map pool.cursor (bm_find_next pool.map pool.cursor)
  search = bm_find_next-Nearest pool.map pool.cursor pool-IsPool.words pool-IsPool.cursor_in

  take_from-Allocated :
      (r : Option ℕ)
      → Nearest pool.map pool.cursor r
      → IsValid (take_from wp1 ref r).1 × Allocated wp ip (take_from wp1 ref r)
  take_from-Allocated none nothing = (
    record { table_len = got.1.table_len; table = got.1.table; shared_pool = got.1.shared_pool },
    (
      λ q h. available_eq q ∙ nothing q h,
      available_claimed (u64 (wp1.port_exhaustion_events + 1)),
      ap (λ (w : WorkerPool). u64 (w.port_exhaustion_events + 1)) got.3,
    ),
  )
  take_from-Allocated (some bit) (h, set_, near) =
      let p : IpPool = record pool {
        map = bm_clear pool.map bit;
        cursor = (bit + 1) % ephem_cnt;
      } in
      let port : u16 (ephem_lo + bit) ≡ ephem_lo + bit = omega arith in
      let back : ephem_lo + bit - ephem_lo ≡ bit = omega arith in
      rw port (
        assign-IsValid wp1 ref p got.1 got.0 (taken_pool bit h),
        (
          omega arith,
          omega arith,
          rw back (available_eq bit ∙ set_),
          λ q. rw back (
              available-assign wp ip p q v refl
              ∙ bm_test-bm_clear pool.map bit (word_in bit h) q
              ∙ ap (λ t. if bit == q then 0 else t) (sym (available_eq q))),
        ),
      )

  -- `tcp_port_alloc` on a valid pool, whatever it returns, keeps the pool valid. It returns a port of
  -- the range 10000 to 59999 that was available to the address and no longer is, and changes the
  -- availability of no other; or no port was available, and the event is counted.
  pub alloc-Allocated : IsValid (alloc wp ip).1 × Allocated wp ip (alloc wp ip)
  alloc-Allocated = rw alloc_eq (take_from-Allocated (bm_find_next pool.map pool.cursor) search)

-- A port that `tcp_port_alloc` returned and `tcp_port_free_immediate` takes back is available again,
-- and every other port is as available to the address as before both calls.
pub free_immediate-alloc :
    (wp : WorkerPool) (ip port : ℕ) (wp' : WorkerPool)
    → IsValid wp
    → alloc wp ip ≡ (some port, wp')
    → (q : ℕ) → available (free_immediate wp' ip port) ip q ≡ available wp ip q
unfolding free_immediate
free_immediate-alloc wp ip port wp' v e q =
    let (valid, (lo, hi, was, now)) =
      subst (λ r. IsValid r.1 × Allocated wp ip r) e (alloc-Allocated wp ip v) in
    let inside : outside port ≡ false = ground arith in
    rw inside (ground (arith, (release_lem wp' ip valid port lo hi).1 q, now q, was))
