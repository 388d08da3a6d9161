-- ===== src/Worker.antt =====
-- What one worker keeps for its TCP connections: the store `g_tcb_stores[w]`
-- (vaigAI/src/net/tcp_tcb.h) and the timer wheel `g_timer_wheels[w]` (vaigAI/src/net/tcp_timer.h).
-- A C function that takes `worker_idx` or a store pointer takes and returns a `Worker` here.
use ai_pattarai.Common.{ℕ, List, get_or, set, ◌^◌, ◌-◌, uint32_max}
use ai_pattarai.Tcb.{Tcb, zero_tcb}

-- A slot of the hash table, an int32_t: -1, -2, or the index of a TCB.
pub data Slot : Type 0 where
  empty : Slot
  tombstone : Slot
  index : ℕ → Slot

pub record Store : Type 0 where
  pub tcbs : List Tcb
  pub capacity : ℕ
  pub count : ℕ
  pub ht : List Slot
  pub ht_size : ℕ
  pub ht_mask : ℕ
  pub free_stack : List ℕ
  pub free_top : ℕ

abbrev pub wheel_bits : ℕ
wheel_bits = 12

-- TIMER_WHEEL_SLOTS; as a value of `tw_slot` it names the overflow list.
abbrev pub wheel_slots : ℕ
wheel_slots = 2 ^ wheel_bits

abbrev pub wheel_mask : ℕ
wheel_mask = wheel_slots - 1

-- TIMER_SLOT_NONE
abbrev pub slot_none : ℕ
slot_none = uint32_max

-- UINT32_MAX as the end of a chain
abbrev pub nil : ℕ
nil = uint32_max

pub record Wheel : Type 0 where
  pub slots : List ℕ
  pub overflow : ℕ
  pub dack_head : ℕ
  pub current : ℕ
  pub tsc_per_slot : ℕ
  pub last_tick_tsc : ℕ

pub record Worker : Type 0 where
  pub store : Store
  pub wheel : Wheel

abbrev pub tcb_at : Worker → ℕ → Tcb
tcb_at w i = get_or w.store.tcbs i zero_tcb

abbrev pub put_tcb : Worker → ℕ → Tcb → Worker
put_tcb w i t = record w { store = record (w.store) { tcbs = set w.store.tcbs i t } }
