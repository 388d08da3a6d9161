-- ===== src/TcbStore/Table.antt =====
-- The hash table of the store as an array of slots: how many hold an index, and which slots a tuple's
-- probe sequence visits.
use ai_pattarai.Common.{
  ℕ, zero, suc, ◌+◌, ◌-◌, ◌%◌, ◌^◌, ◌≤◌, ◌<◌, ◌≡◌, Bool, true, false, List, [], ◌∷◌, arith, length,
  get_or, set, if◌then◌else◌, bit_and, bit_and_mask, Bool-cases, inl, inr, pow_pos,
}
use native.Mathlib.Nat.{mod-lt, mod-eq_of_lt, add-mod_right}
use native.Mathlib.Decide.{dec_lt}
use ai_pattarai.Tcb.{Tuple}
use ai_pattarai.Worker.{Slot, empty, tombstone, index, Store}
use ai_pattarai.TcbStore.{tuple_hash, probe}

abbrev pub is_index : Slot → Bool
is_index (index i) = true
is_index _ = false

abbrev pub is_empty : Slot → Bool
is_empty empty = true
is_empty _ = false

abbrev pub index_of : Slot → ℕ
index_of (index i) = i
index_of _ = 0

abbrev pub occupied : List Slot → ℕ
occupied [] = 0
occupied (x ∷ xs) = let n = occupied xs in if is_index x then suc n else n

pub occupied-set_index :
    (ht : List Slot) (p i : ℕ)
    → p < length ht
    → is_index (get_or ht p empty) ≡ false
    → occupied (set ht p (index i)) ≡ occupied ht + 1
occupied-set_index [] p i h e = absurd (omega arith)
occupied-set_index (x ∷ ht) zero i h e = ground arith
occupied-set_index (x ∷ ht) (suc p) i h e =
    ground (arith, occupied-set_index ht p i (omega arith) e)

pub occupied-set_tombstone :
    (ht : List Slot) (p : ℕ)
    → is_index (get_or ht p empty) ≡ true
    → occupied (set ht p tombstone) + 1 ≡ occupied ht
occupied-set_tombstone [] p e = absurd (cc)
occupied-set_tombstone (x ∷ ht) zero e = ground arith
occupied-set_tombstone (x ∷ ht) (suc p) e = ground (arith, occupied-set_tombstone ht p e)

pub occupied_pos : (ht : List Slot) (p : ℕ) → is_index (get_or ht p empty) ≡ true → 0 < occupied ht
occupied_pos [] p e = absurd (cc)
occupied_pos (x ∷ ht) zero e = ground arith
occupied_pos (x ∷ ht) (suc p) e = ground (arith, occupied_pos ht p e)

pub index_in : (ht : List Slot) (p : ℕ) → is_index (get_or ht p empty) ≡ true → p < length ht
index_in [] p e = absurd (cc)
index_in (x ∷ ht) zero e = omega arith
index_in (x ∷ ht) (suc p) e = omega (arith, index_in ht p e)

-- A table that is not full has a slot without an index.
pub vacancy :
    (ht : List Slot)
    → occupied ht < length ht
    → (p : ℕ) × (p < length ht) × (is_index (get_or ht p empty) ≡ false)
vacancy [] h = absurd (omega arith)
vacancy (x ∷ ht) h = elim (Bool-cases (is_index x)) [
  | inl e ↦ let (p, q, r) = vacancy ht (ground arith) in (suc p, omega arith, r)
  | inr n ↦ (0, omega arith, n)
]

-- Counting on from h modulo n comes to every p.
round_trip : (n h p : ℕ) → h < n → p < n → (k : ℕ) × (k < n) × ((h + k) % n ≡ p)
round_trip n h p u v = elim (dec_lt p h) [
  | yes l ↦ (
    p + n - h,
    omega arith,
    let e : h + (p + n - h) ≡ p + n = omega arith in rw (e, add-mod_right) (mod-eq_of_lt v),
  )
  | no g ↦ (p - h, omega arith, let e : h + (p - h) ≡ p = omega arith in rw e (mod-eq_of_lt v))
]

module _ (s : Store) (b : ℕ) (pow : s.ht_size ≡ 2 ^ b) (mask : s.ht_mask ≡ s.ht_size - 1) where
  pub and_mask : (x : ℕ) → bit_and x s.ht_mask ≡ x % s.ht_size
  and_mask x = rw (mask, pow) (bit_and_mask b x)

  size_pos : 0 < s.ht_size
  size_pos = rw pow (pow_pos b)

  pub probe-lt : (q : Tuple) (k : ℕ) → probe s q k < s.ht_size
  probe-lt q k = rw and_mask (mod-lt _ size_pos)

  -- Within the first `ht_size` rounds the probe sequence comes to every slot.
  pub probe_covers :
      (q : Tuple) (p : ℕ)
      → s.ht_size ≤ 2 ^ 31
      → p < s.ht_size
      → (k : ℕ) × (k < s.ht_size) × (probe s q k ≡ p)
  probe_covers q p small h =
      let (k, within, at_p) =
        round_trip s.ht_size (tuple_hash q % s.ht_size) p (mod-lt _ size_pos) h in
      (k, within, rw (and_mask, and_mask) (rw (mod-eq_of_lt (no_wrap k within)) at_p))
    where
      no_wrap : (k : ℕ) → k < s.ht_size → tuple_hash q % s.ht_size + k < 2 ^ 32
      no_wrap k w = omega (arith, mod-lt (tuple_hash q) size_pos)
