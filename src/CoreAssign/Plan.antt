-- ===== src/CoreAssign/Plan.antt =====
-- The tiers: how many management and worker cores a number of cores gives.
use ai_pattarai.Common.{
  ℕ, ◌-◌, ◌^◌, ◌≤◌, ◌<◌, ◌≡◌, refl, arith, true, false, ltb, leb, Bool-cases, subst, lt→ltb, inl,
  inr, if◌then◌else◌, some, List, [], ◌∷◌, get_or, ◌&&◌, zero, suc,
}
use ai_pattarai.CoreAssign.{
  Tier, worker, primary_mgmt, select_from, select_tier, tiers, plan, taken, max_mgmt_cores,
  max_workers, largest_tier,
}

-- A tier fits a number of cores, and leaves a worker.
abbrev pub Fits : ℕ → Tier → Type 0
Fits n t =
    (t.lcore_lo ≤ n)
    × (n ≤ t.lcore_hi)
    × (1 ≤ t.num_mgmt)
    × (t.num_mgmt ≤ max_mgmt_cores)
    × (t.num_mgmt < n)

select_tier-Fits : (n : ℕ) → 2 ≤ n → n < 2 ^ 32 → Fits n (select_tier n)
unfolding select_tier
select_tier-Fits n h k = ground arith

abbrev Every : (Tier → Type 0) → List Tier → Type 0
Every P [] = P largest_tier
Every P (t ∷ ts) = P t × Every P ts

select_from-Every : (P : Tier → Type 0) (n : ℕ) (ts : List Tier) → Every P ts → P (select_from n ts)
select_from-Every P n [] all = all
select_from-Every P n (t ∷ ts) (first, all) =
    elim (Bool-cases (leb t.lcore_lo n && leb n t.lcore_hi)) [
      | inl fits ↦ rw fits first
      | inr other ↦ rw other (select_from-Every P n ts all)
    ]

abbrev Managed : ℕ → Tier → Type 0
Managed i t = taken (if ltb i t.num_mgmt then get_or t.mgmt_roles i worker else primary_mgmt) ≡ true

each_slot : (i : ℕ) → i < 4 → Every (Managed i) tiers
each_slot zero h = (refl, (refl, (refl, (refl, (refl, (refl, refl))))))
each_slot (suc zero) h = (refl, (refl, (refl, (refl, (refl, (refl, refl))))))
each_slot (suc (suc zero)) h = (refl, (refl, (refl, (refl, (refl, (refl, refl))))))
each_slot (suc (suc (suc zero))) h = (refl, (refl, (refl, (refl, (refl, (refl, refl))))))
each_slot (suc (suc (suc (suc i)))) h = absurd (omega arith)

at_most_four : (n : ℕ) → (select_tier n).num_mgmt ≤ 4
unfolding select_tier
at_most_four n = ground arith

-- The roles of a tier's management cores are management roles.
pub managed :
    (n i : ℕ)
    → i < (select_tier n).num_mgmt
    → taken (get_or (select_tier n).mgmt_roles i worker) ≡ true
unfolding select_tier
managed n i h =
    let all : Managed i (select_tier n) =
      select_from-Every (Managed i) n tiers (each_slot i (omega (arith, at_most_four n))) in
    let inside : ltb i (select_tier n).num_mgmt ≡ true = lt→ltb i (select_tier n).num_mgmt h in
    subst
      (λ b. taken (if b then get_or (select_tier n).mgmt_roles i worker else primary_mgmt) ≡ true)
      inside all

pub workers_fit : (n : ℕ) → 2 ≤ n → n ≤ 127 → n - (select_tier n).num_mgmt ≤ max_workers
unfolding select_tier
workers_fit n h k = ground arith

-- In automatic mode, from two cores on, the tier with the number of cores in its range is selected,
-- and its management cores, between 1 and 4, and the workers, at least one, add up to all cores.
pub plan-Fits :
    (num_worker_hint num_mgmt_hint n : ℕ)
    → 2 ≤ n
    → n < 2 ^ 32
    → let t = select_tier n in
      Fits n t × (plan false num_worker_hint num_mgmt_hint n ≡ some (t.num_mgmt, n - t.num_mgmt))
unfolding plan
plan-Fits wh mh n h k =
    let (lo, hi, one, four, less) = select_tier-Fits n h k in
    ((lo, hi, one, four, less), ground arith)
