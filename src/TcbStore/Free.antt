-- ===== src/TcbStore/Free.antt =====
-- What `tcb_free` does to a valid store: as a finite map from 4-tuples to TCBs it deletes one entry
-- and changes no other.
use ai_pattarai.Common.{
  ℕ, ◌+◌, ◌≡◌, ◌≢◌, sym, ap, ◌∙◌, subst, true, false, get_or, none, Option-cases, Bool-cases, inl,
  inr, if◌then◌else◌, ◌==◌, ==_iff, ==_false, length, List,
}
use ai_pattarai.Tcb.{Tcb, Tuple, zero_tcb, same_tuple}
use ai_pattarai.Worker.{Store, Worker}
use ai_pattarai.TimerWheel.{cancel}
use ai_pattarai.TimerWheel.Frame.{SameConns, cancel-SameConns}
use ai_pattarai.TcbStore.{lookup, free}
use ai_pattarai.TcbStore.Inv.{IsValid, Reaches, live, tuple_of}
use ai_pattarai.TcbStore.Release.{release-IsValid, count-release, released, others}
use ai_pattarai.TcbStore.Lookup.{Unique, lookup_lem, lookup_at, same_tuple→eq, same_tuple_ne}

-- The invariant reads of a TCB its 4-tuple and flag only.
with_tcbs-IsValid :
    (s : Store) (ts : List Tcb)
    → IsValid s
    → length ts ≡ length s.tcbs
    → ((j : ℕ) → (get_or ts j zero_tcb).tuple ≡ tuple_of s j)
    → ((j : ℕ) → (get_or ts j zero_tcb).in_use ≡ live s j)
    → IsValid (record s { tcbs = ts })
with_tcbs-IsValid s ts v len tuples in_uses = record {
  bits = v.bits;
  size_pow = v.size_pow;
  size_small = v.size_small;
  mask = v.mask;
  ht_len = v.ht_len;
  tcbs_len = len ∙ v.tcbs_len;
  stack_len = v.stack_len;
  roomy = v.roomy;
  balance = v.balance;
  filled = v.filled;
  free_in = v.free_in;
  free_unused = λ a l. in_uses (get_or s.free_stack a 0) ∙ v.free_unused a l;
  free_distinct = v.free_distinct;
  located = λ i l. subst (λ t. Reaches s t i) (sym (tuples i)) (v.located i (sym (in_uses i) ∙ l));
}

pub SameConns-IsValid : (s s' : Store) → SameConns s s' → IsValid s → IsValid s'
SameConns-IsValid s s' c v =
    subst IsValid (sym c.rest) (with_tcbs-IsValid s s'.tcbs v c.tcbs_len c.tuples c.in_uses)

-- Freeing a TCB that is not in use changes nothing: a second `tcb_free` is harmless.
pub free_idle : (w : Worker) (ci : ℕ) → live w.store ci ≡ false → free w ci ≡ w
unfolding free
free_idle w ci h = rw h

-- The parts of the next theorem, the frame apart.
freed :
    (w : Worker) (ci : ℕ)
    → IsValid w.store
    → live w.store ci ≡ true
    → let s' = (free w ci).store in
      IsValid s'
      × (s'.count + 1 ≡ w.store.count)
      × (get_or s'.tcbs ci zero_tcb ≡ zero_tcb)
      × ((j : ℕ) → ci ≢ j → (tuple_of s' j ≡ tuple_of w.store j) × (live s' j ≡ live w.store j))
unfolding free
freed w ci v l = rw l (
  release-IsValid s1 ci v1 l1,
  count-release s1 ci v1 l1 ∙ ap (λ (r : Store). r.count) c.rest,
  released s1 ci v1 l1,
  λ j ne. (
    ap (λ (t : Tcb). t.tuple) (others s1 ci v1 l1 j ne) ∙ c.tuples j,
    ap (λ (t : Tcb). t.in_use) (others s1 ci v1 l1 j ne) ∙ c.in_uses j,
  ),
)
  where
    s1 : Store
    s1 = (cancel w ci).store

    c : SameConns w.store s1
    c = cancel-SameConns w ci

    v1 : IsValid s1
    v1 = SameConns-IsValid w.store s1 c v

    l1 : live s1 ci ≡ true
    l1 = c.in_uses ci ∙ l

-- `tcb_free` of a live TCB keeps the store valid and counts one TCB less; it zeroes that TCB, and
-- keeps the 4-tuple and the flag of every other.
pub free-IsValid :
    (w : Worker) (ci : ℕ)
    → IsValid w.store
    → live w.store ci ≡ true
    → let s' = (free w ci).store in
      IsValid s'
      × (s'.count + 1 ≡ w.store.count)
      × (get_or s'.tcbs ci zero_tcb ≡ zero_tcb)
      × ((j : ℕ)
          → (tuple_of s' j ≡ (if ci == j then zero_tcb.tuple else tuple_of w.store j))
            × (live s' j ≡ (if ci == j then false else live w.store j)))
free-IsValid w ci v l =
    let (v', counted, zeroed, frame) = freed w ci v l in
    (
      v',
      counted,
      zeroed,
      λ j. elim (Bool-cases (ci == j)) [
        | inl e ↦ rw e (
            rw (← (==_iff ci j).0 e)
              (ap (λ (t : Tcb). t.tuple) zeroed, ap (λ (t : Tcb). t.in_use) zeroed))
        | inr n ↦ rw n (frame j (==_false ci j n))
      ],
    )

module _ (w : Worker) (ci : ℕ) (v : IsValid w.store) (l : live w.store ci ≡ true) where
  gone : live (free w ci).store ci ≡ false
  gone = ap (λ (t : Tcb). t.in_use) (freed w ci v l).2

  -- Live afterwards means live before, and another TCB.
  survivor :
      (j : ℕ)
      → live (free w ci).store j ≡ true
      → (ci ≢ j) × (live w.store j ≡ true) × (tuple_of (free w ci).store j ≡ tuple_of w.store j)
  survivor j lj =
      let ne : ci ≢ j = λ e. cc (ap (live (free w ci).store) e, gone) in
      let (t, u) = (freed w ci v l).3 j ne in (ne, sym u ∙ lj, t)

  free-Unique : Unique w.store → Unique (free w ci).store
  free-Unique u j k lj lk same =
      let (nj, oj, tj) = survivor j lj in
      let (nk, ok, tk) = survivor k lk in u j k oj ok (sym tj ∙ same ∙ tk)

  -- On a valid store with unique 4-tuples, freeing a live TCB makes exactly its 4-tuple not findable
  -- and changes no other lookup; 4-tuples stay unique.
  pub lookup-free :
      Unique w.store
      → Unique (free w ci).store
        × ((q : Tuple)
            → lookup (free w ci).store q
              ≡ (if same_tuple (tuple_of w.store ci) q then none else lookup w.store q))
  lookup-free u = (free-Unique u, reads)
    where
      s' : Store
      s' = (free w ci).store

      v' : IsValid s'
      v' = (freed w ci v l).0

      reads :
          (q : Tuple)
          → lookup s' q ≡ (if same_tuple (tuple_of w.store ci) q then none else lookup w.store q)
      reads q = elim (Bool-cases (same_tuple (tuple_of w.store ci) q)) [
        | inl same ↦ rw same (
            (lookup_lem s' q v').1.1 (λ j lj tj.
              let (nj, oj, t) = survivor j lj in
              nj (u ci j l oj (same_tuple→eq (tuple_of w.store ci) q same ∙ sym tj ∙ t))))
        | inr differ ↦ rw differ (elim (Option-cases (lookup w.store q)) [
          | inl absent ↦
              (lookup_lem s' q v').1.1 (λ j lj tj.
                let (nj, oj, t) = survivor j lj in
                (lookup_lem w.store q v).1.0 absent j oj (sym t ∙ tj))
              ∙ sym absent
          | inr (j, found) ↦
              let (lj, tj) = (lookup_lem w.store q v).0 j found in
              let nj : ci ≢ j =
                λ e. same_tuple_ne (tuple_of w.store ci) q differ (ap (tuple_of w.store) e ∙ tj) in
              let (t, live') = (freed w ci v l).3 j nj in
              lookup_at s' q j v' (free-Unique u) (live' ∙ lj) (t ∙ tj) ∙ sym found
        ])
      ]
