-- ===== src/CoreAssign/Roles.antt =====
-- What the passes give to whom.
use ai_pattarai.Common.{
  ℕ, ◌-◌, ◌≤◌, ◌<◌, ◌≡◌, refl, sym, arith, true, false, ltb, leb, ◌==◌, Bool-cases, inl, inr, subst,
  ap, ◌∙◌, if◌then◌else◌, some, List, [], ◌∷◌, length, length-append, get_or, get_or-set_self, set,
  length-set, length-replicate,
}
use mathlib.Core.Bool.{true≢false}
use ai_pattarai.CoreAssign.{
  Tier, worker, CoreMap, zero_map, populate_socket_map, taken, role_of, give_mgmt, give_worker,
  prefer_socket, fill_mgmt, assign_workers, assign_passes, carry_out, init, select_tier, max_lcores,
  max_workers, max_mgmt_cores,
}
use ai_pattarai.CoreAssign.Plan.{managed, workers_fit, plan-Fits}
use ai_pattarai.CoreAssign.Kinds.{leb-gt, All, Known, All-append, All-set, All-set_other}

-- What holds while management cores are chosen.
record Managing (n_mgmt : ℕ) (m : CoreMap) : Type 0 where
  managers : All true m.role m.mgmt_lcores
  few : length m.mgmt_lcores ≤ n_mgmt
  size : length m.role ≡ max_lcores
  no_workers : m.worker_lcores ≡ []

module _ (n_mgmt : ℕ) (t : Tier)
    (kind : (i : ℕ) → i < n_mgmt → taken (get_or t.mgmt_roles i worker) ≡ true) where
  give_mgmt-Managing :
      (c : ℕ) (m : CoreMap)
      → c < max_lcores
      → length m.mgmt_lcores < n_mgmt
      → Managing n_mgmt m
      → Managing n_mgmt (give_mgmt t c m)
  give_mgmt-Managing c m h free_slot inv =
      let inside : c < length m.role = omega (arith, inv.size) in
      let r = get_or t.mgmt_roles (length m.mgmt_lcores) worker in
      let ok = kind (length m.mgmt_lcores) free_slot in
      record {
        managers =
            All-append true (set m.role c r) c m.mgmt_lcores
              (All-set true m.role c r m.mgmt_lcores inside ok inv.managers)
              (ap taken (get_or-set_self m.role c r worker inside) ∙ ok);
        few = omega (arith, length-append m.mgmt_lcores (c ∷ []));
        size = length-set m.role c r ∙ inv.size;
        no_workers = inv.no_workers;
      }

  prefer_socket-Managing :
      (cores : List ℕ) (m : CoreMap)
      → Known cores
      → Managing n_mgmt m
      → Managing n_mgmt (prefer_socket n_mgmt t cores m)
  unfolding prefer_socket
  prefer_socket-Managing [] m known inv = inv
  prefer_socket-Managing (c ∷ cores) m (here, known) inv =
      elim (Bool-cases (leb n_mgmt (length m.mgmt_lcores))) [
        | inl full ↦ rw full inv
        | inr more ↦ rw more (
            prefer_socket-Managing cores
              (if get_or m.socket_of_lcore c 0 == 0 then give_mgmt t c m else m) known
              (elim (Bool-cases (get_or m.socket_of_lcore c 0 == 0)) [
                | inl near ↦
                    rw near
                      (give_mgmt-Managing c m here (leb-gt n_mgmt (length m.mgmt_lcores) more) inv)
                | inr far ↦ rw far inv
              ]))
      ]

  fill_mgmt-Managing :
      (cores : List ℕ) (m : CoreMap)
      → Known cores
      → Managing n_mgmt m
      → Managing n_mgmt (fill_mgmt n_mgmt t cores m)
  unfolding fill_mgmt
  fill_mgmt-Managing [] m known inv = inv
  fill_mgmt-Managing (c ∷ cores) m (here, known) inv =
      elim (Bool-cases (leb n_mgmt (length m.mgmt_lcores))) [
        | inl full ↦ rw full inv
        | inr more ↦ rw more (
            fill_mgmt-Managing cores (if taken (role_of m c) then m else give_mgmt t c m) known
              (elim (Bool-cases (taken (role_of m c))) [
                | inl busy ↦ rw busy inv
                | inr idle' ↦
                    rw idle'
                      (give_mgmt-Managing c m here (leb-gt n_mgmt (length m.mgmt_lcores) more) inv)
              ]))
      ]

-- What holds from pass to pass.
pub record Separate (n_mgmt n_workers : ℕ) (m : CoreMap) : Type 0 where
  pub managers : All true m.role m.mgmt_lcores
  pub workers : All false m.role m.worker_lcores
  pub few_managers : length m.mgmt_lcores ≤ n_mgmt
  pub few_workers : length m.worker_lcores ≤ n_workers
  pub size : length m.role ≡ max_lcores

give_worker-Separate :
    (n_mgmt n_workers c : ℕ) (m : CoreMap)
    → c < max_lcores
    → length m.worker_lcores < n_workers
    → taken (role_of m c) ≡ false
    → Separate n_mgmt n_workers m
    → Separate n_mgmt n_workers (give_worker c m)
give_worker-Separate n_mgmt n_workers c m h free_slot unused inv =
    let inside : c < length m.role = omega (arith, inv.size) in
    record {
      managers =
          All-set_other true m.role c worker m.mgmt_lcores inside (λ e. true≢false (sym e ∙ unused))
            inv.managers;
      workers =
          All-append false (set m.role c worker) c m.worker_lcores
            (All-set false m.role c worker m.worker_lcores inside refl inv.workers)
            (ap taken (get_or-set_self m.role c worker worker inside));
      few_managers = inv.few_managers;
      few_workers = omega (arith, length-append m.worker_lcores (c ∷ []));
      size = length-set m.role c worker ∙ inv.size;
    }

assign_workers-Separate :
    (n_mgmt n_workers : ℕ) (cores : List ℕ) (m : CoreMap)
    → Known cores
    → Separate n_mgmt n_workers m
    → Separate n_mgmt n_workers (assign_workers n_workers cores m)
unfolding assign_workers
assign_workers-Separate n_mgmt n_workers [] m known inv = inv
assign_workers-Separate n_mgmt n_workers (c ∷ cores) m (here, known) inv =
    elim (Bool-cases (leb n_workers (length m.worker_lcores))) [
      | inl full ↦ rw full inv
      | inr more ↦ rw more (
          assign_workers-Separate n_mgmt n_workers cores
            (if taken (role_of m c) then m else give_worker c m) known
            (elim (Bool-cases (taken (role_of m c))) [
              | inl busy ↦ rw busy inv
              | inr unused ↦ rw unused (
                  give_worker-Separate n_mgmt n_workers c m here
                    (leb-gt n_workers (length m.worker_lcores) more) unused inv)
            ]))
    ]

populate-Managing :
    (n_mgmt : ℕ) (socket : ℕ → ℕ) (cores : List ℕ) (m : CoreMap)
    → Managing n_mgmt m
    → Managing n_mgmt (populate_socket_map socket cores m)
populate-Managing n_mgmt socket [] m inv = inv
populate-Managing n_mgmt socket (c ∷ cores) m inv =
    populate-Managing n_mgmt socket cores
      (record m { socket_of_lcore = set m.socket_of_lcore c (socket c) })
      (record {
        managers = inv.managers;
        few = inv.few;
        size = inv.size;
        no_workers = inv.no_workers;
      })

zero-Managing : (n_mgmt : ℕ) → Managing n_mgmt zero_map
zero-Managing n_mgmt = record {
  managers = omega arith;
  few = omega arith;
  size = length-replicate max_lcores worker;
  no_workers = refl;
}

managed-Separate :
    (n_mgmt n_workers : ℕ) (m : CoreMap) → Managing n_mgmt m → Separate n_mgmt n_workers m
managed-Separate n_mgmt n_workers m inv = record {
  managers = inv.managers;
  workers = subst (All false m.role) (sym inv.no_workers) (omega arith);
  few_managers = inv.few;
  few_workers = subst (λ (l : List ℕ). length l ≤ n_workers) (sym inv.no_workers) (omega arith);
  size = inv.size;
}

assign_passes-Separate :
    (n_mgmt n_workers : ℕ) (t : Tier) (socket : ℕ → ℕ) (cores : List ℕ)
    → ((i : ℕ) → i < n_mgmt → taken (get_or t.mgmt_roles i worker) ≡ true)
    → Known cores
    → Separate n_mgmt n_workers (assign_passes n_mgmt n_workers t socket cores)
assign_passes-Separate n_mgmt n_workers t socket cores kind known =
    let m0 = populate_socket_map socket cores zero_map in
    let m1 = prefer_socket n_mgmt t cores m0 in
    let m2 = if ltb (length m1.mgmt_lcores) n_mgmt then fill_mgmt n_mgmt t cores m1 else m1 in
    let inv1 =
      prefer_socket-Managing n_mgmt t kind cores m0 known
        (populate-Managing n_mgmt socket cores zero_map (zero-Managing n_mgmt)) in
    let inv2 : Managing n_mgmt m2 = elim (Bool-cases (ltb (length m1.mgmt_lcores) n_mgmt)) [
      | inl short ↦ rw short (fill_mgmt-Managing n_mgmt t kind cores m1 known inv1)
      | inr full ↦ rw full inv1
    ] in
    assign_workers-Separate n_mgmt n_workers cores m2 known
      (managed-Separate n_mgmt n_workers m2 inv2)

-- In automatic mode, with 2 to 127 known cores, `tgen_core_assign_init` succeeds. Every core that it
-- lists as a management core has a management role, and every core that it lists as a worker has none,
-- so no core is both. The lists are no longer than the tier says, and fit in their arrays.
pub init-Separate :
    (num_worker_hint num_mgmt_hint : ℕ) (socket : ℕ → ℕ) (cores : List ℕ)
    → Known cores
    → 2 ≤ length cores
    → length cores ≤ 127
    → let n_mgmt = (select_tier (length cores)).num_mgmt in
      (m : CoreMap) × (init false num_worker_hint num_mgmt_hint socket cores ≡ some m)
      × Separate n_mgmt (length cores - n_mgmt) m
      × (n_mgmt ≤ max_mgmt_cores)
      × (length cores - n_mgmt ≤ max_workers)
unfolding init
init-Separate wh mh socket cores known enough limit =
    let n = length cores in
    let t = select_tier n in
    let (fits, planned) = plan-Fits wh mh n enough (omega arith) in
    let (lo, hi, one, four, less) = fits in
    (
      assign_passes t.num_mgmt (n - t.num_mgmt) t socket cores,
      ap (carry_out t socket cores) planned,
      assign_passes-Separate t.num_mgmt (n - t.num_mgmt) t socket cores (λ i. managed n i) known,
      four,
      workers_fit n enough limit,
    )
