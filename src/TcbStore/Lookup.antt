-- ===== src/TcbStore/Lookup.antt =====
-- What `lookup` finds in a valid store.
use ai_pattarai.Common.{
  ℕ, ◌≡◌, ◌≢◌, sym, ap, ◌∙◌, subst, true, false, arith, Option, none, some, Option-cases, inl, inr,
  ◌↔◌,
}
use ai_pattarai.Tcb.{Tuple, same_tuple}
use ai_pattarai.Worker.{Store}
use ai_pattarai.TcbStore.{lookup}
use ai_pattarai.TcbStore.Loops.{matches, lookup_from_sound, lookup_from_finds}
use ai_pattarai.TcbStore.Inv.{IsValid, Reaches, live, tuple_of}

pub same_tuple→eq : (t u : Tuple) → same_tuple t u ≡ true → t ≡ u
same_tuple→eq t u h = ground arith

pub same_tuple_self : (t : Tuple) → same_tuple t t ≡ true
same_tuple_self t = ground arith

pub same_tuple_ne : (t u : Tuple) → same_tuple t u ≡ false → t ≢ u
same_tuple_ne t u h e = cc (rw e at h, same_tuple_self u)

-- At most one live TCB has a given 4-tuple.
abbrev pub Unique : Store → Type 0
Unique s = (i j : ℕ) → live s i ≡ true → live s j ≡ true → tuple_of s i ≡ tuple_of s j → i ≡ j

pub lookup_sound :
    (s : Store) (q : Tuple) {i : ℕ} → lookup s q ≡ some i → (live s i ≡ true) × (tuple_of s i ≡ q)
unfolding lookup
lookup_sound s q {i} e =
    let m : matches s q i ≡ true = lookup_from_sound s q s.ht_size 0 {i = i} e in
    (ground arith, same_tuple→eq (tuple_of s i) q (ground arith))

pub lookup_finds :
    (s : Store) (q : Tuple) (i : ℕ)
    → IsValid s
    → live s i ≡ true
    → tuple_of s i ≡ q
    → (r : ℕ) × (lookup s q ≡ some r)
unfolding lookup
lookup_finds s q i v l e =
    let (k, u, at, prefix) = subst (λ t. Reaches s t i) e (v.located i l) in
    lookup_from_finds s q s.ht_size 0 k i (omega arith) (omega arith) at
      (rw (l, e) (same_tuple_self q)) prefix

-- The two directions apart.
pub lookup_lem :
    (s : Store) (q : Tuple)
    → IsValid s
    → ((i : ℕ) → lookup s q ≡ some i → (live s i ≡ true) × (tuple_of s i ≡ q))
      × ((lookup s q ≡ none) ↔ ((i : ℕ) → live s i ≡ true → tuple_of s i ≢ q))
lookup_lem s q v = (λ i e. lookup_sound s q e, (absent, missing))
  where
    absent : lookup s q ≡ none → (i : ℕ) → live s i ≡ true → tuple_of s i ≢ q
    absent e i l t = let (r, found) = lookup_finds s q i v l t in cc

    missing : ((i : ℕ) → live s i ≡ true → tuple_of s i ≢ q) → lookup s q ≡ none
    missing h = elim (Option-cases (lookup s q)) [
      | inl e ↦ e
      | inr (i, e) ↦ absurd (h i (lookup_sound s q e).0 (lookup_sound s q e).1)
    ]

-- The specification of a lookup's result: a TCB in use with the 4-tuple, or that there is none.
abbrev pub Finds : Store → Tuple → Option ℕ → Type 0
Finds s q none = (i : ℕ) → live s i ≡ true → tuple_of s i ≢ q
Finds s q (some i) = (live s i ≡ true) × (tuple_of s i ≡ q)

-- In a valid store, `tcb_lookup` returns a TCB that is in use and has the 4-tuple asked for, or
-- returns NULL and no TCB in use has it: tombstones and collisions hide none.
pub lookup-Finds : (s : Store) (q : Tuple) → IsValid s → Finds s q (lookup s q)
lookup-Finds s q v = elim (Option-cases (lookup s q)) [
  | inl e ↦ rw e ((lookup_lem s q v).1.0 e)
  | inr (i, e) ↦ rw e ((lookup_lem s q v).0 i e)
]

-- With unique 4-tuples, the TCB found is the one that has it.
pub lookup_at :
    (s : Store) (q : Tuple) (i : ℕ)
    → IsValid s
    → Unique s
    → live s i ≡ true
    → tuple_of s i ≡ q
    → lookup s q ≡ some i
lookup_at s q i v u l e =
    let (r, found) = lookup_finds s q i v l e in
    let (l', e') = lookup_sound s q found in
    found ∙ ap (λ (k : ℕ). some k) (u r i l' l (e' ∙ sym e))
