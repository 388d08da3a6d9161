-- ===== src/TcbStore/Refine.antt =====
-- What `tcb_alloc` does to a valid store: as a finite map from 4-tuples to TCBs it inserts one entry
-- and changes no other.
use ai_pattarai.Common.{
  ℕ, ◌+◌, ◌-◌, ◌≡◌, ◌≢◌, sym, ap, ◌∙◌, true, false, arith, get_or, none, some, Option-cases,
  Bool-cases, inl, inr, ◌↔◌, if◌then◌else◌, ◌==◌, ==_iff, ==_self, ==_false, ne→==_false,
}
use native.Mathlib.Decide.{ℕ_discrete}
use ai_pattarai.Tcb.{Tcb, Tuple, zero_tcb, same_tuple}
use ai_pattarai.Worker.{Store}
use ai_pattarai.TcbStore.{insert_slot, alloc, lookup, fresh_tcb}
use ai_pattarai.TcbStore.Inv.{
  IsValid, live, tuple_of, after_alloc, slot_found, after_alloc-IsValid, other_same, new_tcb,
}
use ai_pattarai.TcbStore.Lookup.{Unique, lookup_lem, lookup_at, same_tuple→eq, same_tuple_ne}

-- `alloc` returns NULL exactly when every TCB is in use.
pub alloc-none : (s : Store) (q : Tuple) → IsValid s → (alloc s q ≡ none) ↔ (s.count ≡ s.capacity)
unfolding alloc
alloc-none s q v = (λ e. ground (arith, v.balance), λ e. ground (arith, v.balance))

alloc_eq :
    (s : Store) (q : Tuple) (p : ℕ)
    → s.free_top ≢ 0
    → insert_slot s q s.ht_size 0 ≡ some p
    → alloc s q ≡ some (get_or s.free_stack (s.free_top - 1) 0, after_alloc s q p)
unfolding alloc
alloc_eq s q p nonzero found = elim (Bool-cases (s.free_top == 0)) [
  | inl z ↦ absurd (nonzero (ground arith))
  | inr n ↦ rw (n, found)
]

-- The shape of a successful `alloc`.
alloc-some :
    (s : Store) (q : Tuple) {i : ℕ} {s' : Store}
    → IsValid s
    → alloc s q ≡ some (i, s')
    → (nonzero : s.free_top ≢ 0) × (p : ℕ) × (insert_slot s q s.ht_size 0 ≡ some p)
      × (i ≡ get_or s.free_stack (s.free_top - 1) 0)
      × (s' ≡ after_alloc s q p)
alloc-some s q {i} {s'} v e =
    let nonzero : s.free_top ≢ 0 = λ z. cc (e, (alloc-none s q v).1 (omega (arith, v.balance))) in
    let (p, found) = slot_found s q v nonzero in
    (nonzero, p, found, cc (alloc_eq s q p nonzero found), cc (alloc_eq s q p nonzero found))

tcbs_after :
    (s : Store) (q : Tuple) (v : IsValid s) (nonzero : s.free_top ≢ 0) (p : ℕ)
    → insert_slot s q s.ht_size 0 ≡ some p
    → (j : ℕ)
    → get_or (after_alloc s q p).tcbs j zero_tcb ≡ (
        if get_or s.free_stack (s.free_top - 1) 0 == j
        then fresh_tcb q
        else get_or s.tcbs j zero_tcb)
tcbs_after s q v nonzero p found j =
    let idx = get_or s.free_stack (s.free_top - 1) 0 in
    elim (Bool-cases (idx == j)) [
      | inl e ↦ rw e (rw (← (==_iff idx j).0 e) (new_tcb s q v nonzero p found))
      | inr n ↦ rw n (other_same s q v nonzero p found j (==_false idx j n))
    ]

-- A successful `tcb_alloc` on a valid store leaves it valid, with one more TCB counted. The TCB it
-- returns was not in use; it is zeroed but for its 4-tuple, its flag and its unset links, and every
-- other TCB is as it was.
pub alloc-IsValid :
    (s : Store) (q : Tuple) (i : ℕ) (s' : Store)
    → IsValid s
    → alloc s q ≡ some (i, s')
    → IsValid s'
      × (s'.count ≡ s.count + 1)
      × (live s i ≡ false)
      × ((j : ℕ)
          → get_or s'.tcbs j zero_tcb ≡ (if i == j then fresh_tcb q else get_or s.tcbs j zero_tcb))
alloc-IsValid s q i s' v e =
    let (nonzero, p, found, at, result) = alloc-some s q {i = i} {s' = s'} v e in
    rw (at, result)
      (
        after_alloc-IsValid s q v nonzero p found,
        omega (arith, v.balance, v.roomy, v.size_small),
        v.free_unused (s.free_top - 1) (omega arith),
        tcbs_after s q v nonzero p found,
      )

module _ (s : Store) (q : Tuple) (i : ℕ) (s' : Store) (v : IsValid s)
    (e : alloc s q ≡ some (i, s')) where
  new : get_or s'.tcbs i zero_tcb ≡ fresh_tcb q
  new = rw (==_self i) at ((alloc-IsValid s q i s' v e).3 i)

  old : (j : ℕ) → i ≢ j → get_or s'.tcbs j zero_tcb ≡ get_or s.tcbs j zero_tcb
  old j ne = rw (ne→==_false i j ne) at ((alloc-IsValid s q i s' v e).3 j)

  new_tuple : tuple_of s' i ≡ q
  new_tuple = ap (λ (t : Tcb). t.tuple) new

  new_live : live s' i ≡ true
  new_live = ap (λ (t : Tcb). t.in_use) new

  old_tuple : (j : ℕ) → i ≢ j → tuple_of s' j ≡ tuple_of s j
  old_tuple j ne = ap (λ (t : Tcb). t.tuple) (old j ne)

  old_live : (j : ℕ) → i ≢ j → live s' j ≡ live s j
  old_live j ne = ap (λ (t : Tcb). t.in_use) (old j ne)

  -- Allocating a 4-tuple that no live TCB has keeps the 4-tuples unique.
  alloc-Unique : Unique s → lookup s q ≡ none → Unique s'
  alloc-Unique u none_yet j k lj lk same = elim (ℕ_discrete i j) [
    | yes ij ↦ elim (ℕ_discrete i k) [
      | yes ik ↦ sym ij ∙ ik
      | no nk ↦ absurd (
          (lookup_lem s q v).1.0 none_yet k (sym (old_live k nk) ∙ lk)
            (sym (old_tuple k nk) ∙ sym same ∙ sym (ap (tuple_of s') ij) ∙ new_tuple))
    ]
    | no nj ↦ elim (ℕ_discrete i k) [
      | yes ik ↦ absurd (
          (lookup_lem s q v).1.0 none_yet j (sym (old_live j nj) ∙ lj)
            (sym (old_tuple j nj) ∙ same ∙ sym (ap (tuple_of s') ik) ∙ new_tuple))
      | no nk ↦
          u j k (sym (old_live j nj) ∙ lj) (sym (old_live k nk) ∙ lk)
            (sym (old_tuple j nj) ∙ same ∙ old_tuple k nk)
    ]
  ]

  -- On a valid store with unique 4-tuples, allocating a 4-tuple that `tcb_lookup` does not find makes
  -- exactly that one findable, at the TCB returned, and changes no other lookup; 4-tuples stay unique.
  pub lookup-alloc :
      Unique s
      → lookup s q ≡ none
      → Unique s'
        × ((q' : Tuple) → lookup s' q' ≡ (if same_tuple q q' then some i else lookup s q'))
  lookup-alloc u none_yet = (alloc-Unique u none_yet, reads)
    where
      v' : IsValid s'
      v' = (alloc-IsValid s q i s' v e).0

      reads : (q' : Tuple) → lookup s' q' ≡ (if same_tuple q q' then some i else lookup s q')
      reads q' = elim (Bool-cases (same_tuple q q')) [
        | inl same ↦ rw same (
            lookup_at s' q' i v' (alloc-Unique u none_yet) new_live
              (new_tuple ∙ same_tuple→eq q q' same))
        | inr differ ↦ rw differ (elim (Option-cases (lookup s q')) [
          | inl absent ↦
              (lookup_lem s' q' v').1.1 (λ j lj tj. elim (ℕ_discrete i j) [
                | yes ij ↦ same_tuple_ne q q' differ (sym new_tuple ∙ ap (tuple_of s') ij ∙ tj)
                | no nj ↦
                    (lookup_lem s q' v).1.0 absent j (sym (old_live j nj) ∙ lj)
                      (sym (old_tuple j nj) ∙ tj)
              ])
              ∙ sym absent
          | inr (j, found) ↦
              let (lj, tj) = (lookup_lem s q' v).0 j found in
              let nj : i ≢ j = λ ij. cc (ap (live s) ij, lj, (alloc-IsValid s q i s' v e).2) in
              lookup_at s' q' j v' (alloc-Unique u none_yet) (old_live j nj ∙ lj)
                (old_tuple j nj ∙ tj)
              ∙ sym found
        ])
      ]
