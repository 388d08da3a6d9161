-- ===== src/TcbStore.antt =====
-- The TCB store of vaigAI/src/net/tcp_tcb.c: a preallocated array, an open-addressing hash table from
-- 4-tuples to indices with linear probing and tombstones, and a stack of the free indices.
pub mod Table
pub mod Loops
pub mod Inv
pub mod Release
pub mod Lookup
pub mod Refine
pub mod Free
pub mod Empty
use ai_pattarai.Common.{
  ℕ, zero, suc, ◌+◌, ◌-◌, ◌*◌, ◌/◌, ◌^◌, true, ◌&&◌, ◌==◌, if◌then◌else◌, Option, none, some, List,
  [], ◌∷◌, get_or, set, replicate, u32, u64, bit_and, bit_xor, sub32,
}
use ai_pattarai.Tcb.{Tcb, Tuple, zero_tcb, same_tuple}
use ai_pattarai.Worker.{
  Slot, empty, tombstone, index, Store, Worker, wheel_slots, slot_none, nil, tcb_at,
}
use ai_pattarai.TimerWheel.{cancel}
use ai_pattarai.Util.{next_pow2_u64}

-- The Murmur finaliser over the packed tuple, on uint64_t.
unfoldable pub tuple_hash : Tuple → ℕ
tuple_hash t =
    let k0 =
      bit_xor (bit_xor (bit_xor (u64 (t.src_ip * 2 ^ 32)) t.dst_ip) (t.src_port * 2 ^ 16))
        t.dst_port in
    let k1 = u64 (bit_xor k0 (k0 / 2 ^ 33) * 0xff51afd7ed558ccd) in
    let k2 = u64 (bit_xor k1 (k1 / 2 ^ 33) * 0xc4ceb9fe1a85ec53) in u32 (bit_xor k2 (k2 / 2 ^ 33))

-- `(h + k) & ht_mask`, with h the masked hash: the k-th slot of a tuple's probe sequence.
abbrev pub probe : Store → Tuple → ℕ → ℕ
probe s q k = bit_and (u32 (bit_and (tuple_hash q) s.ht_mask + k)) s.ht_mask

abbrev pub slot_at : Store → ℕ → Slot
slot_at s i = get_or s.ht i empty

-- `for (i = 0; i < capacity; i++) free_stack[i] = capacity - 1 - i`
abbrev pub countdown : ℕ → List ℕ
countdown zero = []
countdown (suc n) = n ∷ countdown n

-- `init` when the three allocations succeed.
unfoldable pub init : ℕ → Store
init capacity =
    let size = u32 (next_pow2_u64 (u64 (capacity * 2))) in
    record {
      tcbs = replicate capacity zero_tcb;
      capacity = capacity;
      count = 0;
      ht = replicate size empty;
      ht_size = size;
      ht_mask = sub32 size 1;
      free_stack = countdown capacity;
      free_top = capacity;
    }

-- The insertion loop, with the rounds left and the round `k`: the first slot that holds no index.
pub insert_slot : Store → Tuple → ℕ → ℕ → Option ℕ
insert_slot s q zero k = none
insert_slot s q (suc rounds) k =
    let rest = insert_slot s q rounds (k + 1) in
    elim (slot_at s (probe s q k)) [
      | empty ↦ some (probe s q k)
      | tombstone ↦ some (probe s q k)
      | index i ↦ rest
    ]

abbrev pub fresh_tcb : Tuple → Tcb
fresh_tcb q = record zero_tcb {
  tuple = q;
  in_use = true;
  tw_slot = slot_none;
  tw_next = nil;
  tw_prev = nil;
  dack_next = nil;
}

abbrev put_slot : Option ℕ → ℕ → List Slot → List Slot
put_slot none idx ht = ht
put_slot (some p) idx ht = set ht p (index idx)

unfoldable pub alloc : Store → Tuple → Option (ℕ × Store)
unfolding insert_slot
alloc s q =
    let top = s.free_top - 1 in
    let idx = get_or s.free_stack top 0 in
    if s.free_top == 0
    then none
    else some (
      idx,
      record s {
        free_top = top;
        tcbs = set s.tcbs idx (fresh_tcb q);
        ht = put_slot (insert_slot s q s.ht_size 0) idx s.ht;
        count = u32 (s.count + 1);
      },
    )

-- The lookup loop.
pub lookup_from : Store → Tuple → ℕ → ℕ → Option ℕ
lookup_from s q zero k = none
lookup_from s q (suc rounds) k =
    let rest = lookup_from s q rounds (k + 1) in
    elim (slot_at s (probe s q k)) [
      | empty ↦ none
      | tombstone ↦ rest
      | index i ↦
          let t = get_or s.tcbs i zero_tcb in
          if t.in_use && same_tuple t.tuple q then some i else rest
    ]

unfoldable pub lookup : Store → Tuple → Option ℕ
unfolding lookup_from
lookup s q = lookup_from s q s.ht_size 0

-- The removal loop: the first slot with `idx`, unless an empty slot comes before it.
pub remove_slot : Store → Tuple → ℕ → ℕ → ℕ → Option ℕ
remove_slot s q idx zero k = none
remove_slot s q idx (suc rounds) k =
    let rest = remove_slot s q idx rounds (k + 1) in
    elim (slot_at s (probe s q k)) [
      | empty ↦ none
      | tombstone ↦ rest
      | index i ↦ if i == idx then some (probe s q k) else rest
    ]

abbrev clear_slot : Option ℕ → List Slot → List Slot
clear_slot none ht = ht
clear_slot (some p) ht = set ht p tombstone

-- `tcb_free` from the `memset` on.
abbrev release : Store → ℕ → Store
release s ci =
    let q = (get_or s.tcbs ci zero_tcb).tuple in
    record s {
      tcbs = set s.tcbs ci zero_tcb;
      count = sub32 s.count 1;
      free_stack = set s.free_stack s.free_top ci;
      free_top = u32 (s.free_top + 1);
      ht = clear_slot (remove_slot s q ci s.ht_size 0) s.ht;
    }

-- The send buffer's memory goes back with the `memset`, which clears the pointer to it.
unfoldable pub free : Worker → ℕ → Worker
unfolding remove_slot cancel
free w ci =
    let w1 = cancel w ci in
    if (tcb_at w ci).in_use then record w1 { store = release w1.store ci } else w

unfoldable pub reset : Worker → Worker
reset w = record w {
  wheel = record (w.wheel) { slots = replicate wheel_slots nil; overflow = nil; dack_head = nil };
  store = record (w.store) {
    tcbs = replicate w.store.capacity zero_tcb;
    count = 0;
    ht = replicate w.store.ht_size empty;
    free_stack = countdown w.store.capacity;
    free_top = w.store.capacity;
  };
}
