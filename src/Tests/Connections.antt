-- ===== src/Tests/Connections.antt =====
-- Concrete inputs for the send buffer, the arithmetic helpers, the TCB store and the timer wheel.
use ai_pattarai.Common.{
  ℕ, ◌+◌, ◌-◌, ◌*◌, ◌≤◌, ◌≡◌, refl, true, false, List, [], ◌∷◌, ◌++◌, Option, none, some, arith,
  get_or, get_or-replicate, ap, min, take, drop, u32, if◌then◌else◌, ◌==◌,
}
use ai_pattarai.SendBuffer.{SndBuf, append, ack}
use ai_pattarai.SendBuffer.Queue.{contents, append_lem, ack_lem}
use ai_pattarai.SendBuffer.Queue
use ai_pattarai.Util.{next_pow2_u64}
use ai_pattarai.Tcb.{Tcb, Tuple, zero_tcb, same_tuple}
use ai_pattarai.Worker.{Store, Wheel, Worker, nil}
use ai_pattarai.TcbStore.{init, alloc, lookup, free, fresh_tcb, tuple_hash}
use ai_pattarai.TcbStore.Inv.{IsValid, live, tuple_of}
use ai_pattarai.TcbStore.Lookup.{Unique, Finds, lookup-Finds}
use ai_pattarai.TcbStore.Refine.{alloc-IsValid, lookup-alloc}
use ai_pattarai.TcbStore.Free.{free-IsValid, lookup-free}
use ai_pattarai.TcbStore.Empty.{init-empties}

-- A buffer of four bytes that holds two.
abbrev half_full : SndBuf
half_full = record { bytes = 10 ∷ 20 ∷ 30 ∷ 40 ∷ []; cap = 4; len = 2; base_seq = 4294967295 }

half_full-IsValid : Queue.IsValid half_full
half_full-IsValid = record { room = refl; within = omega arith; small = omega arith }

abbrev three_bytes : List ℕ
three_bytes = 7 ∷ 8 ∷ 9 ∷ []

append_lem_example :
    let (n, sb) = append half_full three_bytes 3 in
    (n ≡ min 3 (half_full.cap - half_full.len))
    × (contents sb ≡ contents half_full ++ take n three_bytes)
    × Queue.IsValid sb
    × (sb.base_seq ≡ half_full.base_seq)
append_lem_example = append_lem half_full three_bytes 3 half_full-IsValid (omega arith)

ack_lem_example :
    (contents (ack half_full 1) ≡ drop 1 (contents half_full))
    × ((ack half_full 1).len ≡ half_full.len - 1)
    × ((ack half_full 1).base_seq ≡ u32 (half_full.base_seq + min 1 half_full.len))
    × Queue.IsValid (ack half_full 1)
ack_lem_example = ack_lem half_full 1 half_full-IsValid

-- A store for four connections.
abbrev store0 : Store
store0 = init 4

store0-IsValid : IsValid store0
store0-IsValid = (init-empties 4 (omega arith) (omega arith)).0

init-empties_example :
    IsValid (init 4)
    × ((q : Tuple) → lookup (init 4) q ≡ none)
    × ((init 4).free_top ≡ 4)
    × (2 * 4 ≤ (init 4).ht_size)
init-empties_example = init-empties 4 (omega arith) (omega arith)

abbrev conn : Tuple
conn = record { src_ip = 0x0a000001; src_port = 10000; dst_ip = 0x0a000002; dst_port = 80 }

abbrev store_of : Option (ℕ × Store) → Store
store_of none = store0
store_of (some (i, s)) = s

-- The store with one connection.
abbrev store1 : Store
store1 = store_of (alloc store0 conn)

first_alloc : alloc store0 conn ≡ some (0, store1)
unfolding alloc init tuple_hash next_pow2_u64
first_alloc = refl

alloc-IsValid_example :
    IsValid store1
    × (store1.count ≡ store0.count + 1)
    × (live store0 0 ≡ false)
    × ((j : ℕ)
        → get_or store1.tcbs j zero_tcb
          ≡ (if 0 == j then fresh_tcb conn else get_or store0.tcbs j zero_tcb))
alloc-IsValid_example = alloc-IsValid store0 conn 0 store1 store0-IsValid first_alloc

store0_idle : (i : ℕ) → live store0 i ≡ false
unfolding init next_pow2_u64
store0_idle i = ap (λ (t : Tcb). t.in_use) (get_or-replicate 4 i zero_tcb)

first_live : live store1 0 ≡ true
unfolding alloc init tuple_hash next_pow2_u64
first_live = refl

third_idle : live store1 3 ≡ false
unfolding alloc init tuple_hash next_pow2_u64
third_idle = refl

no_two_live : Unique store0
no_two_live i j l = cc (l, store0_idle i)

store0_finds_none : (q : Tuple) → lookup store0 q ≡ none
store0_finds_none = (init-empties 4 (omega arith) (omega arith)).1

store1-IsValid : IsValid store1
store1-IsValid = (alloc-IsValid store0 conn 0 store1 store0-IsValid first_alloc).0

lookup-alloc_example :
    Unique store1
    × ((q : Tuple) → lookup store1 q ≡ (if same_tuple conn q then some 0 else lookup store0 q))
lookup-alloc_example =
    lookup-alloc store0 conn 0 store1 store0-IsValid first_alloc no_two_live
      (store0_finds_none conn)

lookup-Finds_example : Finds store1 conn (lookup store1 conn)
lookup-Finds_example = lookup-Finds store1 conn store1-IsValid

abbrev idle_wheel : Wheel
idle_wheel = record {
  slots = [];
  overflow = nil;
  dack_head = nil;
  current = 0;
  tsc_per_slot = 1000000;
  last_tick_tsc = 0;
}

abbrev worker1 : Worker
worker1 = record { store = store1; wheel = idle_wheel }

free-IsValid_example :
    let s' = (free worker1 0).store in
    IsValid s'
    × (s'.count + 1 ≡ store1.count)
    × (get_or s'.tcbs 0 zero_tcb ≡ zero_tcb)
    × ((j : ℕ)
        → (tuple_of s' j ≡ (if 0 == j then zero_tcb.tuple else tuple_of store1 j))
          × (live s' j ≡ (if 0 == j then false else live store1 j)))
free-IsValid_example = free-IsValid worker1 0 store1-IsValid first_live

lookup-free_example :
    Unique (free worker1 0).store
    × ((q : Tuple)
        → lookup (free worker1 0).store q
          ≡ (if same_tuple (tuple_of store1 0) q then none else lookup store1 q))
lookup-free_example = lookup-free worker1 0 store1-IsValid first_live lookup-alloc_example.0
