-- ===== src/CoreAssign.antt =====
-- Which core does what, vaigAI/src/core/core_assign.c and core_assign.h: the tiers and the passes of
-- `tgen_core_assign_init`. `cores` is the order in which `RTE_LCORE_FOREACH` visits the cores and
-- `socket` is `rte_lcore_to_socket_id`. The distribution of the workers to ports is left out.
pub mod Plan
pub mod Kinds
pub mod Roles
use ai_pattarai.Common.{
  ℕ, Bool, true, false, ◌&&◌, not, ltb, leb, ◌==◌, if◌then◌else◌, Option, none, some, List, [], ◌∷◌,
  ◌++◌, length, get_or, set, replicate, sub32,
}

abbrev pub max_lcores : ℕ
max_lcores = 128

abbrev pub max_workers : ℕ
max_workers = 124

abbrev pub max_mgmt_cores : ℕ
max_mgmt_cores = 4

-- `lcore_role_t`; `worker` is the value 0.
pub data LcoreRole : Type 0 where
  worker primary_mgmt telemetry cli_api watchdog idle : LcoreRole

-- `tier_entry_t`
pub record Tier : Type 0 where
  pub lcore_lo : ℕ
  pub lcore_hi : ℕ
  pub num_mgmt : ℕ
  pub mgmt_roles : List LcoreRole

abbrev pub tier : ℕ → ℕ → ℕ → LcoreRole → LcoreRole → LcoreRole → Tier
tier lo hi n second third fourth = record {
  lcore_lo = lo;
  lcore_hi = hi;
  num_mgmt = n;
  mgmt_roles = primary_mgmt ∷ second ∷ third ∷ fourth ∷ [];
}

abbrev pub largest_tier : Tier
largest_tier = tier 129 4294967295 4 telemetry cli_api watchdog

abbrev pub tiers : List Tier
tiers =
    tier 2 4 1 worker worker worker
    ∷ tier 5 16 1 worker worker worker
    ∷ tier 17 32 2 telemetry worker worker
    ∷ tier 33 64 2 telemetry worker worker
    ∷ tier 65 128 3 telemetry cli_api worker
    ∷ largest_tier
    ∷ []

abbrev pub select_from : ℕ → List Tier → Tier
select_from n_lcores [] = largest_tier
select_from n_lcores (t ∷ ts) =
    let rest = select_from n_lcores ts in
    if leb t.lcore_lo n_lcores && leb n_lcores t.lcore_hi then t else rest

unfoldable pub select_tier : ℕ → Tier
select_tier n_lcores = select_from n_lcores tiers

-- The numbers of management and of worker cores, or nothing where the call fails.
unfoldable pub plan : Bool → ℕ → ℕ → ℕ → Option (ℕ × ℕ)
plan manual_mode num_worker_hint num_mgmt_hint n_lcores =
    let asked = if manual_mode then num_mgmt_hint else (select_tier n_lcores).num_mgmt in
    let capped = if ltb max_mgmt_cores asked then max_mgmt_cores else asked in
    let n_mgmt = if ltb capped 1 then 1 else capped in
    let n_workers = if manual_mode then num_worker_hint else sub32 n_lcores n_mgmt in
    if ltb n_lcores 2 then none else if n_workers == 0 then none else some (n_mgmt, n_workers)

-- `core_map_t`: of the arrays of cores the used part, whose length is the counter of the pass
-- (`mgmt_assigned`, `worker_assigned`) and in the end `num_mgmt` and `num_workers`.
pub record CoreMap : Type 0 where
  pub worker_lcores : List ℕ
  pub mgmt_lcores : List ℕ
  pub role : List LcoreRole
  pub socket_of_lcore : List ℕ

abbrev pub zero_map : CoreMap
zero_map = record {
  worker_lcores = [];
  mgmt_lcores = [];
  role = replicate max_lcores worker;
  socket_of_lcore = replicate max_lcores 0;
}

abbrev pub populate_socket_map : (ℕ → ℕ) → List ℕ → CoreMap → CoreMap
populate_socket_map socket [] m = m
populate_socket_map socket (c ∷ cores) m =
    populate_socket_map socket cores
      (record m { socket_of_lcore = set m.socket_of_lcore c (socket c) })

-- Whether a role is neither IDLE nor 0, the test for "already assigned".
abbrev pub taken : LcoreRole → Bool
taken worker = false
taken idle = false
taken _ = true

abbrev pub role_of : CoreMap → ℕ → LcoreRole
role_of m c = get_or m.role c worker

abbrev pub give_mgmt : Tier → ℕ → CoreMap → CoreMap
give_mgmt t c m = record m {
  mgmt_lcores = m.mgmt_lcores ++ (c ∷ []);
  role = set m.role c (get_or t.mgmt_roles (length m.mgmt_lcores) worker);
}

abbrev pub give_worker : ℕ → CoreMap → CoreMap
give_worker c m = record m {
  worker_lcores = m.worker_lcores ++ (c ∷ []);
  role = set m.role c worker;
}

-- Pass 1: management cores on socket 0.
unfoldable pub prefer_socket : ℕ → Tier → List ℕ → CoreMap → CoreMap
prefer_socket n_mgmt t [] m = m
prefer_socket n_mgmt t (c ∷ cores) m =
    let next = if get_or m.socket_of_lcore c 0 == 0 then give_mgmt t c m else m in
    let rest = prefer_socket n_mgmt t cores next in
    if leb n_mgmt (length m.mgmt_lcores) then m else rest

-- Pass 1b: management cores on any socket.
unfoldable pub fill_mgmt : ℕ → Tier → List ℕ → CoreMap → CoreMap
fill_mgmt n_mgmt t [] m = m
fill_mgmt n_mgmt t (c ∷ cores) m =
    let next = if taken (role_of m c) then m else give_mgmt t c m in
    let rest = fill_mgmt n_mgmt t cores next in
    if leb n_mgmt (length m.mgmt_lcores) then m else rest

-- Pass 2: worker cores.
unfoldable pub assign_workers : ℕ → List ℕ → CoreMap → CoreMap
assign_workers n_workers [] m = m
assign_workers n_workers (c ∷ cores) m =
    let next = if taken (role_of m c) then m else give_worker c m in
    let rest = assign_workers n_workers cores next in
    if leb n_workers (length m.worker_lcores) then m else rest

abbrev pub assign_passes : ℕ → ℕ → Tier → (ℕ → ℕ) → List ℕ → CoreMap
assign_passes n_mgmt n_workers t socket cores =
    let m0 = populate_socket_map socket cores zero_map in
    let m1 = prefer_socket n_mgmt t cores m0 in
    let m2 = if ltb (length m1.mgmt_lcores) n_mgmt then fill_mgmt n_mgmt t cores m1 else m1 in
    assign_workers n_workers cores m2

abbrev pub carry_out : Tier → (ℕ → ℕ) → List ℕ → Option (ℕ × ℕ) → Option CoreMap
carry_out t socket cores none = none
carry_out t socket cores (some (n_mgmt, n_workers)) =
    some (assign_passes n_mgmt n_workers t socket cores)

-- `tgen_core_assign_init`, less the ports.
unfoldable pub init : Bool → ℕ → ℕ → (ℕ → ℕ) → List ℕ → Option CoreMap
init manual_mode num_worker_hint num_mgmt_hint socket cores =
    carry_out (select_tier (length cores)) socket cores
      (plan manual_mode num_worker_hint num_mgmt_hint (length cores))

-- `tgen_is_worker` and `tgen_is_mgmt`
unfoldable pub is_worker : CoreMap → ℕ → Bool
is_worker m lcore_id =
    if leb max_lcores lcore_id
    then false
    else (elim (role_of m lcore_id) [ worker ↦ true | _ ↦ false ])

unfoldable pub is_mgmt : CoreMap → ℕ → Bool
is_mgmt m lcore_id = if leb max_lcores lcore_id then false else taken (role_of m lcore_id)
