-- ===== src/CoreAssign/Kinds.antt =====
-- Lists of cores that all have a management role, or all have none.
use ai_pattarai.Common.{
  ℕ, ◌≤◌, ◌<◌, ◌≡◌, ◌≢◌, sym, arith, Bool, false, leb, ◌==◌, ==_iff, Bool-cases, inl, inr, subst,
  List, [], ◌∷◌, ◌++◌, length, get_or, get_or-set, set,
}
use ai_pattarai.CoreAssign.{LcoreRole, worker, taken, max_lcores}

pub leb-gt : (a b : ℕ) → leb a b ≡ false → b < a
leb-gt a b h = ground arith

-- Whether all cores of a list have a management role, or all have none.
abbrev pub All : Bool → List LcoreRole → List ℕ → Type 0
All b role [] = 0 ≤ 0
All b role (c ∷ cs) = (taken (get_or role c worker) ≡ b) × All b role cs

-- All cores of a list are in the map.
abbrev pub Known : List ℕ → Type 0
Known [] = 0 ≤ 0
Known (c ∷ cs) = (c < max_lcores) × Known cs

pub All-append :
    (b : Bool) (role : List LcoreRole) (c : ℕ) (cs : List ℕ)
    → All b role cs
    → taken (get_or role c worker) ≡ b
    → All b role (cs ++ (c ∷ []))
All-append b role c [] all here = (here, all)
All-append b role c (x ∷ cs) (first, all) here = (first, All-append b role c cs all here)

-- A core that gets a role of the kind of the list.
pub All-set :
    (b : Bool) (role : List LcoreRole) (c : ℕ) (r : LcoreRole) (cs : List ℕ)
    → c < length role
    → taken r ≡ b
    → All b role cs
    → All b (set role c r) cs
All-set b role c r [] h kind all = all
All-set b role c r (x ∷ cs) h kind (first, all) = (at_x, All-set b role c r cs h kind all)
  where
    at_x : taken (get_or (set role c r) x worker) ≡ b
    at_x =
        rw (get_or-set role c x r worker h)
          (elim (Bool-cases (c == x)) [ inl same ↦ rw same kind | inr other ↦ rw other first ])

-- A core that was of the other kind.
pub All-set_other :
    (b : Bool) (role : List LcoreRole) (c : ℕ) (r : LcoreRole) (cs : List ℕ)
    → c < length role
    → taken (get_or role c worker) ≢ b
    → All b role cs
    → All b (set role c r) cs
All-set_other b role c r [] h kind all = all
All-set_other b role c r (x ∷ cs) h kind (first, all) =
    (at_x, All-set_other b role c r cs h kind all)
  where
    at_x : taken (get_or (set role c r) x worker) ≡ b
    at_x = rw (get_or-set role c x r worker h) (elim (Bool-cases (c == x)) [
      | inl same ↦
          absurd
            (kind (subst (λ y. taken (get_or role y worker) ≡ b) (sym ((==_iff c x).0 same)) first))
      | inr other ↦ rw other first
    ])
