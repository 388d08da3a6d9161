-- ===== src/PortPool/Pools.antt =====
-- `ip_pool_get`: it returns a valid pool, it claims at most one slot of the table, and from then on it
-- returns the same pool for the address.
use ai_pattarai.Common.{
  ℕ, zero, suc, ◌+◌, ◌%◌, ◌<◌, ◌≡◌, ◌≢◌, refl, sym, ap, ◌∙◌, subst, arith, true, false, ◌==◌,
  ==_iff, ==_false, ==_self, Bool-cases, inl, inr, length, get_or, set, length-set, map_at-set,
  get_or-set_self, get_or-set_ne,
}
use native.Mathlib.Decide.{ℕ_discrete}
use ai_pattarai.PortPool.{
  ephem_cnt, bitmap_words, n_ip_slots, IpPool, WorkerPool, PoolRef, in_table, in_shared, no_pool,
  deref, assign, ip_slot, find_pool, ip_pool_get, bm_test,
}
use ai_pattarai.PortPool.Scan.{Words}

pub record IsPool (p : IpPool) : Type 0 where
  pub map_len : length p.map ≡ bitmap_words
  pub words : Words p.map
  pub cursor_in : p.cursor < ephem_cnt

abbrev pub slot_pool : WorkerPool → ℕ → IpPool
slot_pool wp s = get_or wp.ip_pools s no_pool

pub record IsValid (wp : WorkerPool) : Type 0 where
  pub table_len : length wp.ip_pools ≡ n_ip_slots
  pub table : (s : ℕ) → s < n_ip_slots → IsPool (slot_pool wp s)
  pub shared_pool : IsPool wp.shared

-- A pointer into the table is within it.
abbrev pub IsRef : PoolRef → Type 0
IsRef (in_table s) = s < n_ip_slots
IsRef in_shared = Unit {0}

pub deref-IsPool :
    (wp : WorkerPool) (ref : PoolRef) → IsValid wp → IsRef ref → IsPool (deref wp ref)
deref-IsPool wp (in_table s) v h = v.table s h
deref-IsPool wp in_shared v h = v.shared_pool

pub assign-IsValid :
    (wp : WorkerPool) (ref : PoolRef) (p : IpPool)
    → IsValid wp
    → IsRef ref
    → IsPool p
    → IsValid (assign wp ref p)
assign-IsValid wp (in_table s) p v h ok = record {
  table_len = length-set wp.ip_pools s p ∙ v.table_len;
  table = λ j l. elim (ℕ_discrete s j) [
    | yes e ↦
        subst (λ k. IsPool (get_or (set wp.ip_pools s p) k no_pool)) e
          (subst IsPool (sym (get_or-set_self wp.ip_pools s p no_pool (omega (arith, v.table_len))))
            ok)
    | no ne ↦ subst IsPool (sym (get_or-set_ne wp.ip_pools s j p no_pool ne)) (v.table j l)
  ];
  shared_pool = v.shared_pool;
}
assign-IsValid wp in_shared p v h ok = record {
  table_len = v.table_len;
  table = v.table;
  shared_pool = ok;
}

pub deref-assign :
    (wp : WorkerPool) (ref : PoolRef) (p : IpPool)
    → IsValid wp
    → IsRef ref
    → deref (assign wp ref p) ref ≡ p
deref-assign wp (in_table s) p v h =
    get_or-set_self wp.ip_pools s p no_pool (omega (arith, v.table_len))
deref-assign wp in_shared p v h = refl

-- The address that owns a slot, 0 for none.
abbrev pub owner : WorkerPool → ℕ → ℕ
owner wp s = (slot_pool wp s).src_ip

abbrev pub claimed : WorkerPool → ℕ → ℕ → WorkerPool
claimed wp src_ip s =
    assign wp (in_table s) (record { src_ip = src_ip; cursor = 0; map = wp.shared.map })

abbrev pub round_slot : ℕ → ℕ → ℕ
round_slot src_ip i = (ip_slot src_ip + i) % n_ip_slots

pub owners-assign :
    (wp : WorkerPool) (ref : PoolRef) (p : IpPool)
    → IsValid wp
    → IsRef ref
    → p.src_ip ≡ (deref wp ref).src_ip
    → (j : ℕ) → owner (assign wp ref p) j ≡ owner wp j
owners-assign wp (in_table s) p v h e j =
    map_at-set (λ (q : IpPool). q.src_ip) wp.ip_pools s p no_pool e j
owners-assign wp in_shared p v h e j = refl

-- The cases of one round of the loop.
pub find_pool_own :
    (wp : WorkerPool) (ip rounds i : ℕ)
    → owner wp (round_slot ip i) ≡ ip
    → find_pool wp ip (suc rounds) i ≡ (in_table (round_slot ip i), wp)
unfolding find_pool
find_pool_own wp ip rounds i e = rw (e, ==_self ip) refl

module _ (wp : WorkerPool) (ip rounds i : ℕ)
    (other : (owner wp (round_slot ip i) == ip) ≡ false) where
  pub find_pool_claim :
      (owner wp (round_slot ip i) == 0) ≡ true
      → find_pool wp ip (suc rounds) i
        ≡ (in_table (round_slot ip i), claimed wp ip (round_slot ip i))
  unfolding find_pool
  find_pool_claim e = rw (other, e) refl

  pub find_pool_next :
      (owner wp (round_slot ip i) == 0) ≡ false
      → find_pool wp ip (suc rounds) i ≡ find_pool wp ip rounds (i + 1)
  unfolding find_pool
  find_pool_next e = rw (other, e) refl

claimed-IsValid :
    (wp : WorkerPool) (ip s : ℕ) → IsValid wp → s < n_ip_slots → IsValid (claimed wp ip s)
claimed-IsValid wp ip s v h =
    assign-IsValid wp (in_table s) (record { src_ip = ip; cursor = 0; map = wp.shared.map }) v h
      (record {
        map_len = v.shared_pool.map_len;
        words = v.shared_pool.words;
        cursor_in = omega arith;
      })

pub find_pool_out :
    (wp wp' : WorkerPool) (ip i : ℕ) → find_pool wp' ip zero i ≡ ((find_pool wp ip zero i).0, wp')
unfolding find_pool
find_pool_out wp wp' ip i = refl

-- A claim of a vacant slot keeps the owners there are.
claimed-owner :
    (wp : WorkerPool) (ip s : ℕ)
    → IsValid wp
    → s < n_ip_slots
    → (owner wp s == 0) ≡ true
    → (j : ℕ) → owner wp j ≢ 0
    → owner (claimed wp ip s) j ≡ owner wp j
claimed-owner wp ip s v h vacant j taken =
    let p : IpPool = record { src_ip = ip; cursor = 0; map = wp.shared.map } in
    ap (λ (q : IpPool). q.src_ip)
      (get_or-set_ne wp.ip_pools s j p no_pool
        (λ e. taken (ap (owner wp) (sym e) ∙ (==_iff (owner wp s) 0).0 vacant)))

-- What the loop promises: a pointer in range, to a valid table that keeps every owner that it has,
-- and nothing else changed.
abbrev pub Got : WorkerPool → PoolRef × WorkerPool → Type 0
Got wp (ref, wp1) =
    IsRef ref
    × IsValid wp1
    × ((j : ℕ) → owner wp j ≢ 0 → owner wp1 j ≡ owner wp j)
    × (wp1 ≡ record wp { ip_pools = wp1.ip_pools })

find_pool-Got : (wp : WorkerPool) (ip rounds i : ℕ) → IsValid wp → Got wp (find_pool wp ip rounds i)
unfolding find_pool
find_pool-Got wp ip zero i v = (tt, v, λ j h. refl, refl)
find_pool-Got wp ip (suc rounds) i v = elim (Bool-cases (owner wp (round_slot ip i) == ip)) [
  | inl own ↦
      rw (find_pool_own wp ip rounds i ((==_iff (owner wp (round_slot ip i)) ip).0 own))
        (omega arith, v, λ j h. refl, refl)
  | inr other ↦ elim (Bool-cases (owner wp (round_slot ip i) == 0)) [
    | inl vacant ↦ rw (find_pool_claim wp ip rounds i other vacant) (
      omega arith,
      claimed-IsValid wp ip (round_slot ip i) v (omega arith),
      claimed-owner wp ip (round_slot ip i) v (omega arith) vacant,
      refl,
    )
    | inr taken ↦
        rw (find_pool_next wp ip rounds i other taken) (find_pool-Got wp ip rounds (i + 1) v)
  ]
]

-- A later pass, of a state with the same owners, ends at the same pool and claims nothing.
find_pool_again :
    (wp : WorkerPool) (ip rounds i : ℕ) (wp' : WorkerPool)
    → IsValid wp
    → ((j : ℕ) → owner wp' j ≡ owner (find_pool wp ip rounds i).1 j)
    → find_pool wp' ip rounds i ≡ ((find_pool wp ip rounds i).0, wp')
find_pool_again wp ip zero i wp' v same = find_pool_out wp wp' ip i
find_pool_again wp ip (suc rounds) i wp' v same = elim (Bool-cases (owner wp s == ip)) [
  | inl own ↦
      let at : owner wp s ≡ ip = (==_iff (owner wp s) ip).0 own in
      let step = find_pool_own wp ip rounds i at in
      find_pool_own wp' ip rounds i
        (same s ∙ ap (λ (r : PoolRef × WorkerPool). owner r.1 s) step ∙ at)
      ∙ sym (ap (λ (r : PoolRef × WorkerPool). (r.0, wp')) step)
  | inr other ↦ elim (Bool-cases (owner wp s == 0)) [
    | inl vacant ↦
        let step = find_pool_claim wp ip rounds i other vacant in
        let mine =
          ap (λ (q : IpPool). q.src_ip)
            (deref-assign wp (in_table s) (record { src_ip = ip; cursor = 0; map = wp.shared.map })
              v (omega arith)) in
        find_pool_own wp' ip rounds i
          (same s ∙ ap (λ (r : PoolRef × WorkerPool). owner r.1 s) step ∙ mine)
        ∙ sym (ap (λ (r : PoolRef × WorkerPool). (r.0, wp')) step)
    | inr taken ↦
        let step = find_pool_next wp ip rounds i other taken in
        let kept : owner wp' s ≡ owner wp s =
          same s
          ∙ ap (λ (r : PoolRef × WorkerPool). owner r.1 s) step
          ∙ (find_pool-Got wp ip rounds (i + 1) v).2 s (==_false (owner wp s) 0 taken) in
        find_pool_next wp' ip rounds i (ap (λ t. t == ip) kept ∙ other)
          (ap (λ t. t == 0) kept ∙ taken)
        ∙ find_pool_again wp ip rounds (i + 1) wp' v
            (λ j. same j ∙ ap (λ (r : PoolRef × WorkerPool). owner r.1 j) step)
        ∙ sym (ap (λ (r : PoolRef × WorkerPool). (r.0, wp')) step)
  ]
]
  where
    s : ℕ
    s = round_slot ip i

pub ip_pool_get-Got : (wp : WorkerPool) (ip : ℕ) → IsValid wp → Got wp (ip_pool_get wp ip)
unfolding ip_pool_get
ip_pool_get-Got wp ip v = elim (Bool-cases (ip == 0)) [
  | inl z ↦ rw z (tt, v, λ j h. refl, refl)
  | inr n ↦ rw n (find_pool-Got wp ip n_ip_slots 0 v)
]

pub ip_pool_get_again :
    (wp : WorkerPool) (ip : ℕ) (wp' : WorkerPool)
    → IsValid wp
    → ((j : ℕ) → owner wp' j ≡ owner (ip_pool_get wp ip).1 j)
    → ip_pool_get wp' ip ≡ ((ip_pool_get wp ip).0, wp')
unfolding ip_pool_get
ip_pool_get_again wp ip wp' v same = elim (Bool-cases (ip == 0)) [
  | inl z ↦ rw z refl
  | inr n ↦ rw n (find_pool_again wp ip n_ip_slots 0 wp' v (λ j. rw n at (same j)))
]

-- Whether the bit of a port is set in the pool that serves `ip`: 1 or 0.
unfoldable pub available : WorkerPool → ℕ → ℕ → ℕ
available wp ip bit = let (ref, wp1) = ip_pool_get wp ip in bm_test (deref wp1 ref).map bit

-- An update of that pool shows through: its address keeps the pool.
pub available-assign :
    (wp : WorkerPool) (ip : ℕ) (p : IpPool) (bit : ℕ)
    → IsValid wp
    → p.src_ip ≡ (deref (ip_pool_get wp ip).1 (ip_pool_get wp ip).0).src_ip
    → available (assign (ip_pool_get wp ip).1 (ip_pool_get wp ip).0 p) ip bit ≡ bm_test p.map bit
unfolding available
available-assign wp ip p bit v e =
    let (ref, wp1) = ip_pool_get wp ip in
    let (in_range, valid, kept, rest) = ip_pool_get-Got wp ip v in
    rw
      (
        ip_pool_get_again wp ip (assign wp1 ref p) v (owners-assign wp1 ref p valid in_range e),
        deref-assign wp1 ref p valid in_range,
      )
      refl
