-- ===== src/Tests/Cores.antt =====
-- A machine of six cores on two sockets.
use ai_pattarai.Common.{
  ℕ, ◌-◌, ◌≤◌, ◌≡◌, refl, false, some, List, [], ◌∷◌, arith, length, leb, if◌then◌else◌,
}
use ai_pattarai.CoreAssign.{CoreMap, select_tier, plan, init, max_mgmt_cores, max_workers}
use ai_pattarai.CoreAssign.Plan.{Fits, plan-Fits}
use ai_pattarai.CoreAssign.Kinds.{Known}
use ai_pattarai.CoreAssign.Roles.{Separate, init-Separate}

abbrev six_cores : List ℕ
six_cores = 0 ∷ 1 ∷ 2 ∷ 3 ∷ 4 ∷ 5 ∷ []

abbrev two_sockets : ℕ → ℕ
two_sockets c = if leb 3 c then 0 else 1

six_cores-Known : Known six_cores
six_cores-Known = (
  omega arith,
  (omega arith, (omega arith, (omega arith, (omega arith, (omega arith, omega arith))))),
)

plan-Fits_example :
    let t = select_tier 20 in Fits 20 t × (plan false 0 0 20 ≡ some (t.num_mgmt, 20 - t.num_mgmt))
plan-Fits_example = plan-Fits 0 0 20 (omega arith) (omega arith)

init-Separate_example :
    let n_mgmt = (select_tier (length six_cores)).num_mgmt in
    (m : CoreMap) × (init false 0 0 two_sockets six_cores ≡ some m)
    × Separate n_mgmt (length six_cores - n_mgmt) m
    × (n_mgmt ≤ max_mgmt_cores)
    × (length six_cores - n_mgmt ≤ max_workers)
init-Separate_example =
    init-Separate 0 0 two_sockets six_cores six_cores-Known (omega arith) (omega arith)

two_managers_of_twenty : plan false 0 0 20 ≡ some (2, 18)
unfolding plan select_tier
two_managers_of_twenty = refl
