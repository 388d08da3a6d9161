-- ===== src/TcbStore/Inv.antt =====
-- The representation invariant of the store, and that allocating and releasing a TCB keep it.
use ai_pattarai.Common.{
  ℕ, ◌+◌, ◌-◌, ◌^◌, ◌≤◌, ◌<◌, ◌≡◌, ◌≢◌, refl, sym, ap, ◌∙◌, subst, Bool, true, false, arith, length,
  get_or, set, some, u32, get_or-set, get_or-set_self, get_or-set_ne, length-set, get_or_past,
}
use native.Mathlib.Decide.{dec_lt, ℕ_discrete}
use ai_pattarai.Tcb.{Tcb, Tuple, zero_tcb}
use ai_pattarai.Worker.{Slot, empty, index, Store}
use ai_pattarai.TcbStore.{probe, slot_at, insert_slot, fresh_tcb}
use ai_pattarai.TcbStore.Table.{
  is_index, is_empty, occupied, occupied-set_index, vacancy, probe-lt, probe_covers,
}
use ai_pattarai.TcbStore.Loops.{NonEmpty, insert_slot-some, insert_slot_total}

abbrev pub live : Store → ℕ → Bool
live s i = (get_or s.tcbs i zero_tcb).in_use

abbrev pub tuple_of : Store → ℕ → Tuple
tuple_of s i = (get_or s.tcbs i zero_tcb).tuple

-- The slot with index `i` comes in the probe sequence of `q` before any empty slot.
abbrev pub Reaches : Store → Tuple → ℕ → Type 0
Reaches s q i = (k : ℕ) × (k < s.ht_size) × (slot_at s (probe s q k) ≡ index i) × NonEmpty s q 0 k

pub record IsValid (s : Store) : Type 0 where
  pub bits : ℕ
  pub size_pow : s.ht_size ≡ 2 ^ bits
  pub size_small : s.ht_size ≤ 2 ^ 31
  pub mask : s.ht_mask ≡ s.ht_size - 1
  pub ht_len : length s.ht ≡ s.ht_size
  pub tcbs_len : length s.tcbs ≡ s.capacity
  pub stack_len : length s.free_stack ≡ s.capacity
  pub roomy : s.capacity < s.ht_size
  pub balance : s.count + s.free_top ≡ s.capacity
  pub filled : occupied s.ht ≡ s.count
  pub free_in : (a : ℕ) → a < s.free_top → get_or s.free_stack a 0 < s.capacity
  pub free_unused : (a : ℕ) → a < s.free_top → live s (get_or s.free_stack a 0) ≡ false
  pub free_distinct :
      (a b : ℕ) → a < b → b < s.free_top → get_or s.free_stack a 0 ≢ get_or s.free_stack b 0
  pub located : (i : ℕ) → live s i ≡ true → Reaches s (tuple_of s i) i

-- A write to the hash table that neither empties a slot nor overwrites index `i` keeps `i` in reach.
pub Reaches-set :
    (s : Store) (q : Tuple) (i p : ℕ) (x : Slot)
    → p < length s.ht
    → is_empty x ≡ false
    → slot_at s p ≢ index i
    → Reaches s q i
    → Reaches (record s { ht = set s.ht p x }) q i
Reaches-set s q i p x inside full other (k, l, at, prefix) = (
  k,
  l,
  get_or-set_ne s.ht p (probe s q k) x empty (λ e. other (ap (slot_at s) e ∙ at)) ∙ at,
  λ m lo hi. ground (arith, get_or-set s.ht p (probe s q m) x empty inside, prefix m lo hi),
)

pub live_in : (s : Store) (i : ℕ) → live s i ≡ true → i < length s.tcbs
live_in s i h = elim (dec_lt i (length s.tcbs)) [
  | yes l ↦ l
  | no g ↦ ground (arith, ap (λ (t : Tcb). t.in_use) (get_or_past s.tcbs i zero_tcb (omega arith)))
]

-- What a successful `alloc` leaves: the index popped and its slot `p`.
abbrev pub after_alloc : Store → Tuple → ℕ → Store
after_alloc s q p =
    let idx = get_or s.free_stack (s.free_top - 1) 0 in
    record s {
      free_top = s.free_top - 1;
      tcbs = set s.tcbs idx (fresh_tcb q);
      ht = set s.ht p (index idx);
      count = u32 (s.count + 1);
    }

module _ (s : Store) (q : Tuple) (v : IsValid s) (some_free : s.free_top ≢ 0) where
  abbrev pub idx : ℕ
  idx = get_or s.free_stack (s.free_top - 1) 0

  idx_in : idx < length s.tcbs
  idx_in = omega (arith, v.free_in (s.free_top - 1) (omega arith), v.tcbs_len)

  -- The table is never full, so the insertion loop finds a slot.
  pub slot_found : (p : ℕ) × (insert_slot s q s.ht_size 0 ≡ some p)
  slot_found =
      let (p, inside, vacant) =
        vacancy s.ht (omega (arith, v.filled, v.balance, v.roomy, v.ht_len)) in
      let (k, l, at) =
        probe_covers s v.bits v.size_pow v.mask q p v.size_small (omega (arith, v.ht_len)) in
      insert_slot_total s q s.ht_size 0 k (omega arith) (omega arith) (rw at vacant)

  module _ (p : ℕ) (found : insert_slot s q s.ht_size 0 ≡ some p) where
    p_in : p < length s.ht
    p_in =
        let (j, l, at, u, free, prefix) = insert_slot-some s q s.ht_size 0 found in
        rw at (omega (arith, probe-lt s v.bits v.size_pow v.mask q j, v.ht_len))

    new-Reaches : Reaches (after_alloc s q p) q idx
    new-Reaches =
        let (j, l, at, u, free, prefix) = insert_slot-some s q s.ht_size 0 found in
        (
          j,
          omega arith,
          rw (← at) (get_or-set_self s.ht p (index idx) empty p_in),
          λ m lo hi.
              ground
                (arith, get_or-set s.ht p (probe s q m) (index idx) empty p_in, prefix m lo hi),
        )

    vacant : is_index (slot_at s p) ≡ false
    vacant = let (j, l, at, u, free, prefix) = insert_slot-some s q s.ht_size 0 found in free

    pub other_same :
        (i : ℕ) → idx ≢ i → get_or (after_alloc s q p).tcbs i zero_tcb ≡ get_or s.tcbs i zero_tcb
    other_same i ne = get_or-set_ne s.tcbs idx i (fresh_tcb q) zero_tcb ne

    pub new_tcb : get_or (after_alloc s q p).tcbs idx zero_tcb ≡ fresh_tcb q
    new_tcb = get_or-set_self s.tcbs idx (fresh_tcb q) zero_tcb idx_in

    -- The new TCB is found through its own slot, and each other one through its old slot.
    located_after :
        (i : ℕ)
        → live (after_alloc s q p) i ≡ true
        → Reaches (after_alloc s q p) (tuple_of (after_alloc s q p) i) i
    located_after i h = elim (ℕ_discrete idx i) [
      | yes same ↦
          subst (λ j. Reaches (after_alloc s q p) (tuple_of (after_alloc s q p) j) j) same
            (subst (λ t. Reaches (after_alloc s q p) t idx)
              (sym (ap (λ (t : Tcb). t.tuple) new_tcb)) new-Reaches)
      | no other ↦
          let old = ap (λ (t : Tcb). t.in_use) (other_same i other) in
          let kept : Reaches (after_alloc s q p) (tuple_of s i) i =
            Reaches-set s (tuple_of s i) i p (index idx) p_in refl (λ e. cc (rw e at vacant))
              (v.located i (sym old ∙ h)) in
          subst (λ t. Reaches (after_alloc s q p) t i)
            (sym (ap (λ (t : Tcb). t.tuple) (other_same i other))) kept
    ]

    pub after_alloc-IsValid : IsValid (after_alloc s q p)
    after_alloc-IsValid = record {
      bits = v.bits;
      size_pow = v.size_pow;
      size_small = v.size_small;
      mask = v.mask;
      ht_len = length-set s.ht p (index idx) ∙ v.ht_len;
      tcbs_len = length-set s.tcbs idx (fresh_tcb q) ∙ v.tcbs_len;
      stack_len = v.stack_len;
      roomy = v.roomy;
      balance = omega (arith, v.balance, v.roomy, v.size_small);
      filled = omega (
        arith,
        occupied-set_index s.ht p idx p_in vacant,
        v.filled,
        v.balance,
        v.roomy,
        v.size_small,
      );
      free_in = λ a l. v.free_in a (omega arith);
      free_unused = λ a l.
          ap (λ (t : Tcb). t.in_use)
            (other_same (get_or s.free_stack a 0)
              (λ e. v.free_distinct a (s.free_top - 1) (omega arith) (omega arith) (sym e)))
          ∙ v.free_unused a (omega arith);
      free_distinct = λ a b l u. v.free_distinct a b l (omega arith);
      located = located_after;
    }
