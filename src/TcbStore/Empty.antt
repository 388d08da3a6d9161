-- ===== src/TcbStore/Empty.antt =====
-- The two ways to an empty store: `tcb_store_init` and `tcb_store_reset`.
use ai_pattarai.Common.{
  ℕ, zero, suc, ◌-◌, ◌*◌, ◌^◌, ◌≤◌, ◌<◌, ◌≡◌, refl, ap, false, arith, get_or, none, u32, u64, sub32,
  length, replicate, length-replicate, get_or-replicate,
}
use ai_pattarai.Tcb.{Tcb, Tuple, zero_tcb}
use ai_pattarai.Worker.{empty, Store, Worker}
use ai_pattarai.TcbStore.{init, lookup, reset, countdown}
use native.Mathlib.Nat.{pow-le-pow_right}
use native.Mathlib.Decide.{dec_le}
use ai_pattarai.Util.Pow2.{next_pow2_u64_lem}
use ai_pattarai.Util.{next_pow2_u64}
use ai_pattarai.TcbStore.Table.{occupied}
use ai_pattarai.TcbStore.Inv.{IsValid, live}
use ai_pattarai.TcbStore.Lookup.{lookup_lem}

length-countdown : (n : ℕ) → length (countdown n) ≡ n
length-countdown zero = refl
length-countdown (suc n) = ap suc (length-countdown n)

get_or-countdown : (n a : ℕ) → a < n → get_or (countdown n) a 0 ≡ n - 1 - a
get_or-countdown zero a h = absurd (omega arith)
get_or-countdown (suc n) zero h = omega arith
get_or-countdown (suc n) (suc a) h = omega (arith, get_or-countdown n a (omega arith))

occupied-replicate : (n : ℕ) → occupied (replicate n empty) ≡ 0
occupied-replicate zero = refl
occupied-replicate (suc n) = occupied-replicate n

-- The store that both leave, for a capacity and a table of 2 ^ b slots.
abbrev empty_store : ℕ → ℕ → ℕ → Store
empty_store capacity size mask = record {
  tcbs = replicate capacity zero_tcb;
  capacity = capacity;
  count = 0;
  ht = replicate size empty;
  ht_size = size;
  ht_mask = mask;
  free_stack = countdown capacity;
  free_top = capacity;
}

module _ (capacity size mask b : ℕ) where
  all_idle : (i : ℕ) → live (empty_store capacity size mask) i ≡ false
  all_idle i = ap (λ (t : Tcb). t.in_use) (get_or-replicate capacity i zero_tcb)

  empty_store-IsValid :
      size ≡ 2 ^ b
      → size ≤ 2 ^ 31
      → mask ≡ size - 1
      → capacity < size
      → IsValid (empty_store capacity size mask)
  empty_store-IsValid pow small m room = record {
    bits = b;
    size_pow = pow;
    size_small = small;
    mask = m;
    ht_len = length-replicate size empty;
    tcbs_len = length-replicate capacity zero_tcb;
    stack_len = length-countdown capacity;
    roomy = room;
    balance = omega arith;
    filled = occupied-replicate size;
    free_in = λ a l. omega (arith, get_or-countdown capacity a l);
    free_unused = λ a l. all_idle (get_or (countdown capacity) a 0);
    free_distinct = λ a c l u e.
        omega (arith, get_or-countdown capacity a (omega arith), get_or-countdown capacity c u);
    located = λ i l. absurd (cc (all_idle i));
  }

  nothing_found :
      size ≡ 2 ^ b
      → size ≤ 2 ^ 31
      → mask ≡ size - 1
      → capacity < size
      → (q : Tuple) → lookup (empty_store capacity size mask) q ≡ none
  nothing_found pow small m room q =
      (lookup_lem (empty_store capacity size mask) q (empty_store-IsValid pow small m room)).1.1
        (λ i l t. cc (all_idle i))

-- `tcb_store_reset` of a valid store leaves a valid store that finds no 4-tuple, has no live TCB, and
-- can allocate all its TCBs again.
pub reset-empties :
    (w : Worker)
    → IsValid w.store
    → let s' = (reset w).store in
      IsValid s'
      × ((q : Tuple) → lookup s' q ≡ none)
      × ((i : ℕ) → live s' i ≡ false)
      × (s'.free_top ≡ w.store.capacity)
unfolding reset
reset-empties w v =
    let s = w.store in
    (
      empty_store-IsValid s.capacity s.ht_size s.ht_mask v.bits v.size_pow v.size_small v.mask
          v.roomy,
      nothing_found s.capacity s.ht_size s.ht_mask v.bits v.size_pow v.size_small v.mask v.roomy,
      all_idle s.capacity s.ht_size s.ht_mask v.bits,
      refl,
    )

pow_below : (k : ℕ) → 2 ^ k < 2 ^ 32 → 2 ^ k ≤ 2 ^ 31
pow_below k h = elim (dec_le k 31) [
  | yes l ↦ pow-le-pow_right {n = 2} (omega arith) {i = k} {j = 31} l
  | no g ↦
      absurd (omega (arith, pow-le-pow_right {n = 2} (omega arith) {i = 32} {j = k} (omega arith)))
]

-- `tcb_store_init` for a capacity between 1 and 2^30 leaves a valid store of twice as many hash
-- slots at least, which finds no 4-tuple and can allocate `capacity` TCBs.
pub init-empties :
    (capacity : ℕ)
    → 0 < capacity
    → capacity ≤ 2 ^ 30
    → let s = init capacity in
      IsValid s
      × ((q : Tuple) → lookup s q ≡ none)
      × (s.free_top ≡ capacity)
      × (2 * capacity ≤ s.ht_size)
unfolding init
init-empties capacity h u =
    let ((k, pow), low, up) = next_pow2_u64_lem (u64 (capacity * 2)) (omega arith) (omega arith) in
    let size : ℕ = u32 (next_pow2_u64 (u64 (capacity * 2))) in
    let exact : size ≡ 2 ^ k = omega (arith, pow, low, up) in
    let small : size ≤ 2 ^ 31 = rw exact (pow_below k (omega (arith, pow, up))) in
    let masked : sub32 size 1 ≡ size - 1 = omega (arith, exact, pow, low, up) in
    let room : capacity < size = omega (arith, exact, pow, low, up) in
    (
      empty_store-IsValid capacity size (sub32 size 1) k exact small masked room,
      nothing_found capacity size (sub32 size 1) k exact small masked room,
      refl,
      omega (arith, exact, pow, low, up),
    )
