-- ===== src/PortPool/Rest.antt =====
-- The pools and the rest of the state do not see each other: `ip_pool_get` and what frees a port read
-- and write the bitmaps only.
use ai_pattarai.Common.{
  ℕ, zero, suc, ◌+◌, ◌-◌, ◌≡◌, refl, sym, ap, ◌∙◌, ◌==◌, ==_iff, Bool-cases, inl, inr,
}
use ai_pattarai.PortPool.{
  n_ip_slots, ephem_lo, IpPool, WorkerPool, PoolRef, in_table, in_shared, deref, assign, find_pool,
  ip_pool_get, release, bm_set, bm_test,
}
use ai_pattarai.PortPool.Pools.{
  owner, round_slot, find_pool_own, find_pool_claim, find_pool_next, available,
}

-- The pools of w and the rest of r.
abbrev pub with_pools : WorkerPool → WorkerPool → WorkerPool
with_pools r w = record r { ip_pools = w.ip_pools; shared = w.shared }

abbrev beside : WorkerPool → PoolRef × WorkerPool → PoolRef × WorkerPool
beside r (ref, w) = (ref, with_pools r w)

find_pool_out_rest :
    (r w : WorkerPool) (ip i : ℕ)
    → find_pool (with_pools r w) ip zero i ≡ beside r (find_pool w ip zero i)
unfolding find_pool
find_pool_out_rest r w ip i = refl

find_pool_rest :
    (r w : WorkerPool) (ip rounds i : ℕ)
    → find_pool (with_pools r w) ip rounds i ≡ beside r (find_pool w ip rounds i)
find_pool_rest r w ip zero i = find_pool_out_rest r w ip i
find_pool_rest r w ip (suc rounds) i = elim (Bool-cases (owner w s == ip)) [
  | inl own ↦
      let at : owner w s ≡ ip = (==_iff (owner w s) ip).0 own in
      find_pool_own (with_pools r w) ip rounds i at
      ∙ sym (ap (beside r) (find_pool_own w ip rounds i at))
  | inr other ↦ elim (Bool-cases (owner w s == 0)) [
    | inl vacant ↦
        find_pool_claim (with_pools r w) ip rounds i other vacant
        ∙ sym (ap (beside r) (find_pool_claim w ip rounds i other vacant))
    | inr taken ↦
        find_pool_next (with_pools r w) ip rounds i other taken
        ∙ find_pool_rest r w ip rounds (i + 1)
        ∙ sym (ap (beside r) (find_pool_next w ip rounds i other taken))
  ]
]
  where
    s : ℕ
    s = round_slot ip i

pub ip_pool_get_rest :
    (r w : WorkerPool) (ip : ℕ) → ip_pool_get (with_pools r w) ip ≡ beside r (ip_pool_get w ip)
unfolding ip_pool_get
ip_pool_get_rest r w ip = elim (Bool-cases (ip == 0)) [
  | inl z ↦ rw z refl
  | inr n ↦ rw n (find_pool_rest r w ip n_ip_slots 0)
]

deref_rest : (r w : WorkerPool) (ref : PoolRef) → deref (with_pools r w) ref ≡ deref w ref
deref_rest r w (in_table s) = refl
deref_rest r w in_shared = refl

assign_rest :
    (r w : WorkerPool) (ref : PoolRef) (p : IpPool)
    → assign (with_pools r w) ref p ≡ with_pools r (assign w ref p)
assign_rest r w (in_table s) p = refl
assign_rest r w in_shared p = refl

pub available_rest :
    (r w : WorkerPool) (ip q : ℕ) → available (with_pools r w) ip q ≡ available w ip q
unfolding available
available_rest r w ip q =
    rw (ip_pool_get_rest r w ip) (
      ap (λ (p : IpPool). bm_test p.map q) (deref_rest r (ip_pool_get w ip).1 (ip_pool_get w ip).0))

pub release_rest :
    (r w : WorkerPool) (ip port : ℕ)
    → release (with_pools r w) ip port ≡ with_pools r (release w ip port)
release_rest r w ip port =
    let (ref, w1) = ip_pool_get w ip in
    rw (ip_pool_get_rest r w ip, deref_rest r w1 ref)
      (assign_rest r w1 ref
        (record (deref w1 ref) { map = bm_set (deref w1 ref).map (port - ephem_lo) }))
