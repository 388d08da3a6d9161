-- ===== src/TcbStore/Loops.antt =====
-- What the three probing loops of the store return: the first slot free for an index, the first
-- matching TCB, the first slot with a given index.
use ai_pattarai.Common.{
  ℕ, zero, suc, ◌+◌, ◌≤◌, ◌<◌, ◌≡◌, ◌≢◌, ap, Bool, true, false, arith, get_or, ◌==◌, ◌&&◌,
  if◌then◌else◌, none, some, Bool-cases, inl, inr,
}
use native.Mathlib.Decide.{ℕ_discrete}
use ai_pattarai.Tcb.{Tuple, zero_tcb, same_tuple}
use ai_pattarai.Worker.{Slot, index, Store}
use ai_pattarai.TcbStore.{probe, slot_at, insert_slot, lookup_from, remove_slot}
use ai_pattarai.TcbStore.Table.{is_index, is_empty, index_of}

-- Both conditions under which the code takes a TCB for the one looked for.
abbrev pub matches : Store → Tuple → ℕ → Bool
matches s q i = let t = get_or s.tcbs i zero_tcb in t.in_use && same_tuple t.tuple q

abbrev pub NonEmpty : Store → Tuple → ℕ → ℕ → Type 0
NonEmpty s q k j = (m : ℕ) → k ≤ m → m < j → is_empty (slot_at s (probe s q m)) ≡ false

module _ (s : Store) (q : Tuple) where
  insert_slot_step :
      (rounds k : ℕ)
      → insert_slot s q (suc rounds) k ≡ (
          if is_index (slot_at s (probe s q k))
          then insert_slot s q rounds (k + 1)
          else some (probe s q k))
  unfolding insert_slot
  insert_slot_step rounds k = ground arith

  NonEmpty-cons :
      (k j : ℕ)
      → is_empty (slot_at s (probe s q k)) ≡ false
      → NonEmpty s q (k + 1) j
      → NonEmpty s q k j
  NonEmpty-cons k j e h m l u = elim (ℕ_discrete m k) [
    | yes same ↦ rw same e
    | no other ↦ h m (omega arith) u
  ]

  NonEmpty-tail : (k j : ℕ) → NonEmpty s q k j → NonEmpty s q (k + 1) j
  NonEmpty-tail k j h m l u = h m (omega arith) u

  index-nonempty : (x : Slot) → is_index x ≡ true → is_empty x ≡ false
  index-nonempty x e = ground arith

  -- The insertion loop returns a visited slot that holds no index, with no empty slot before it.
  pub insert_slot-some :
      (rounds k : ℕ) {p : ℕ}
      → insert_slot s q rounds k ≡ some p
      → (j : ℕ) × (k ≤ j)
        × (p ≡ probe s q j)
        × (j < k + rounds)
        × (is_index (slot_at s p) ≡ false)
        × NonEmpty s q k j
  unfolding insert_slot
  insert_slot-some zero k e = absurd (cc)
  insert_slot-some (suc rounds) k {p} e = elim (Bool-cases (is_index (slot_at s (probe s q k)))) [
    | inl i ↦
        let (j, l, at, u, free, prefix) =
          insert_slot-some rounds (k + 1) {p = p} (ground (arith, insert_slot_step rounds k)) in
        (j, omega arith, at, omega arith, free, NonEmpty-cons k j (index-nonempty _ i) prefix)
    | inr n ↦
        let here : p ≡ probe s q k = ground (arith, insert_slot_step rounds k) in
        (k, omega arith, here, omega arith, rw here n, λ m l u. absurd (omega arith))
  ]

  pub insert_slot_total :
      (rounds k j : ℕ)
      → k ≤ j
      → j < k + rounds
      → is_index (slot_at s (probe s q j)) ≡ false
      → (p : ℕ) × (insert_slot s q rounds k ≡ some p)
  insert_slot_total zero k j l u e = absurd (omega arith)
  insert_slot_total (suc rounds) k j l u e =
      elim (Bool-cases (is_index (slot_at s (probe s q k)))) [
        | inl i ↦
            let past : k ≢ j = λ same. cc (rw same at i) in
            let (p, r) = insert_slot_total rounds (k + 1) j (omega arith) (omega arith) e in
            (p, rw (insert_slot_step, i) r)
        | inr n ↦ (probe s q k, rw (insert_slot_step, n))
      ]

  pub lookup_from_sound :
      (rounds k : ℕ) {i : ℕ} → lookup_from s q rounds k ≡ some i → matches s q i ≡ true
  unfolding lookup_from
  lookup_from_sound zero k e = absurd (cc)
  lookup_from_sound (suc rounds) k {i} e = ground (arith, lookup_from_sound rounds (k + 1) {i = i})

  lookup_from_step :
      (rounds k : ℕ)
      → let x = slot_at s (probe s q k) in
        lookup_from s q (suc rounds) k ≡ (
          if is_empty x
          then none
          else if is_index x && matches s q (index_of x)
          then some (index_of x)
          else lookup_from s q rounds (k + 1))
  unfolding lookup_from
  lookup_from_step rounds k = ground arith

  -- The lookup loop returns something when a matching TCB is visited with no empty slot before it.
  pub lookup_from_finds :
      (rounds k j i : ℕ)
      → k ≤ j
      → j < k + rounds
      → slot_at s (probe s q j) ≡ index i
      → matches s q i ≡ true
      → NonEmpty s q k j
      → (r : ℕ) × (lookup_from s q rounds k ≡ some r)
  lookup_from_finds zero k j i l u e m h = absurd (omega arith)
  lookup_from_finds (suc rounds) k j i l u e m h = elim (ℕ_discrete k j) [
    | yes same ↦ (i, rw (lookup_from_step, same) (rw (e, m)))
    | no other ↦
        let (r, found) =
          lookup_from_finds rounds (k + 1) j i (omega arith) (omega arith) e m
            (NonEmpty-tail k j h) in
        let x = slot_at s (probe s q k) in
        elim (Bool-cases (is_index x && matches s q (index_of x))) [
          | inl hit ↦ (index_of x, rw (lookup_from_step, h k (omega arith) (omega arith), hit))
          | inr miss ↦ (r, rw (lookup_from_step, h k (omega arith) (omega arith), miss) found)
        ]
  ]

  remove_slot_step :
      (idx rounds k : ℕ)
      → let x = slot_at s (probe s q k) in
        remove_slot s q idx (suc rounds) k ≡ (
          if is_empty x
          then none
          else if is_index x && index_of x == idx
          then some (probe s q k)
          else remove_slot s q idx rounds (k + 1))
  unfolding remove_slot
  remove_slot_step idx rounds k = ground arith

  holds : (x : Slot) (idx : ℕ) → (is_index x && index_of x == idx) ≡ true → x ≡ index idx
  holds x idx h = ground arith

  -- The removal loop finds a slot with the index when one is visited with no empty slot before it.
  pub remove_slot_finds :
      (idx rounds k j : ℕ)
      → k ≤ j
      → j < k + rounds
      → slot_at s (probe s q j) ≡ index idx
      → NonEmpty s q k j
      → (p : ℕ) × (remove_slot s q idx rounds k ≡ some p) × (slot_at s p ≡ index idx)
  remove_slot_finds idx zero k j l u e h = absurd (omega arith)
  remove_slot_finds idx (suc rounds) k j l u e h =
      let x = slot_at s (probe s q k) in
      elim (Bool-cases (is_index x && index_of x == idx)) [
        | inl hit ↦ (probe s q k, ground (arith, remove_slot_step idx rounds k), holds x idx hit)
        | inr miss ↦
            let past : k ≢ j = λ same. ground (arith, ap (λ m. slot_at s (probe s q m)) same) in
            let (p, found, at) =
              remove_slot_finds idx rounds (k + 1) j (omega arith) (omega arith) e
                (NonEmpty-tail k j h) in
            (p, rw (remove_slot_step, h k (omega arith) (omega arith), miss) found, at)
      ]
